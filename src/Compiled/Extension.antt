-- ===== src/Compiled/Extension.antt =====
-- What the constructor of `CompiledQuery` appends.
use mathlib.Core.List.{append_assoc}
use bit_lsm.Base.{sym, ℕ, ◌%◌, ◌≡◌, refl, ap, ◌∙◌, some, List, [], ◌∷◌, ◌++◌, length, true}
use bit_lsm.Bytes.{Bytes}
use bit_lsm.Scalar.{u32_mod}
use bit_lsm.Schema.{PhysicalType, spec_at}
use bit_lsm.Row.{ValueLayout}
use bit_lsm.Query.{Comparand, QueryCondition, OrClause, type_matches}
use bit_lsm.Query.Validity.{AllFit, GroupsFit}
use bit_lsm.Compiled.{
  Pred, CompiledQuery, blank_pred, store_comparand, compile_pred, compile_members, close_clause,
  compile_clauses,
}

-- The predicate of a condition whose comparand has the physical type.
abbrev pub resolved_pred : Bytes → Pred → Comparand → Pred
resolved_pred arena p (Comparand.int x) = record p { ival = x }
resolved_pred arena p (Comparand.uint x) = record p { uval = x }
resolved_pred arena p (Comparand.float d) = record p { dval = d }
resolved_pred arena p (Comparand.text s) = record p {
  soff = length arena % u32_mod;
  slen = length s % u32_mod;
}

abbrev pub comparand_text : Comparand → Bytes
comparand_text (Comparand.text s) = s
comparand_text _ = []

pub append-nil : {A : Type 0} (xs : List A) → xs ++ [] ≡ xs
append-nil [] = refl
append-nil (x ∷ xs) = ap (λ t. x ∷ t) (append-nil xs)

store_comparand-typed :
    (t : PhysicalType) (arena : Bytes) (p : Pred) (value : Comparand)
    → type_matches t value ≡ true
    → store_comparand t arena p value
      ≡ some (resolved_pred arena p value, arena ++ comparand_text value)
store_comparand-typed PhysicalType.int arena p (Comparand.int x) h = rw (append-nil arena) refl
store_comparand-typed PhysicalType.uint arena p (Comparand.uint x) h = rw (append-nil arena) refl
store_comparand-typed PhysicalType.float arena p (Comparand.float x) h = rw (append-nil arena) refl
store_comparand-typed PhysicalType.binary arena p (Comparand.text x) h = refl
store_comparand-typed PhysicalType.var_binary arena p (Comparand.text x) h = refl
store_comparand-typed t arena p value h = cc

module _ (layout : ValueLayout) where
  -- One condition more.
  abbrev pub add_pred : QueryCondition → CompiledQuery → CompiledQuery
  add_pred cond c = record c {
    preds = c.preds ++ resolved_pred c.arena (blank_pred layout cond) cond.value ∷ [];
    arena = c.arena ++ comparand_text cond.value;
  }

  abbrev pub add_members : OrClause → CompiledQuery → CompiledQuery
  add_members [] c = c
  add_members (cond ∷ clause) c = add_members clause (add_pred cond c)

  abbrev pub add_clauses : List OrClause → CompiledQuery → CompiledQuery
  add_clauses [] c = c
  add_clauses (clause ∷ groups) c =
      add_clauses groups (close_clause (length c.preds % u32_mod) (add_members clause c))

  compile_members-add :
      (clause : OrClause) (c : CompiledQuery)
      → AllFit layout.specs clause
      → compile_members layout clause c ≡ some (add_members clause c)
  unfolding compile_members compile_pred
  compile_members-add [] c f = refl
  compile_members-add (cond ∷ clause) c (fits, f) =
      rw
        (store_comparand-typed (spec_at layout.specs cond.attr_idx).physical_type c.arena
          (blank_pred layout cond) cond.value fits.typed)
        (compile_members-add clause (add_pred cond c) f)

  pub compile_clauses-add :
      (groups : List OrClause) (c : CompiledQuery)
      → GroupsFit layout.specs groups
      → compile_clauses layout groups c ≡ some (add_clauses groups c)
  unfolding compile_clauses
  compile_clauses-add [] c f = refl
  compile_clauses-add ([] ∷ groups) c f = absurd f
  compile_clauses-add ((cond ∷ clause) ∷ groups) c f =
      rw (compile_members-add (cond ∷ clause) c f.0) (
        compile_clauses-add groups
          (close_clause (length c.preds % u32_mod) (add_members (cond ∷ clause) c)) f.1)

-- `d` has the predicates and the arena of `c`, and more after them.
pub record Extends (c d : CompiledQuery) : Type 0 where
  pub more_preds : List Pred
  pub preds_end : d.preds ≡ c.preds ++ more_preds
  pub more_arena : Bytes
  pub arena_end : d.arena ≡ c.arena ++ more_arena

pub Extends-trans : (b c d : CompiledQuery) → Extends b c → Extends c d → Extends b d
Extends-trans b c d x y = record {
  more_preds = x.more_preds ++ y.more_preds;
  preds_end =
      y.preds_end
      ∙ ap (λ t. t ++ y.more_preds) x.preds_end
      ∙ append_assoc b.preds x.more_preds y.more_preds;
  more_arena = x.more_arena ++ y.more_arena;
  arena_end =
      y.arena_end
      ∙ ap (λ t. t ++ y.more_arena) x.arena_end
      ∙ append_assoc b.arena x.more_arena y.more_arena;
}

pub Extends-refl : (c : CompiledQuery) → Extends c c
Extends-refl c = record {
  more_preds = [];
  preds_end = sym (append-nil c.preds);
  more_arena = [];
  arena_end = sym (append-nil c.arena);
}

module _ (layout : ValueLayout) where
  pub add_pred-Extends :
      (cond : QueryCondition) (c : CompiledQuery) → Extends c (add_pred layout cond c)
  add_pred-Extends cond c = record {
    more_preds = resolved_pred c.arena (blank_pred layout cond) cond.value ∷ [];
    preds_end = refl;
    more_arena = comparand_text cond.value;
    arena_end = refl;
  }

  pub add_members-Extends :
      (clause : OrClause) (c : CompiledQuery) → Extends c (add_members layout clause c)
  add_members-Extends [] c = Extends-refl c
  add_members-Extends (cond ∷ clause) c =
      Extends-trans c (add_pred layout cond c) (add_members layout clause (add_pred layout cond c))
        (add_pred-Extends cond c) (add_members-Extends clause (add_pred layout cond c))

  closed-Extends :
      (begin : ℕ) (c d : CompiledQuery) → Extends c d → Extends c (close_clause begin d)
  closed-Extends begin c d x = record {
    more_preds = x.more_preds;
    preds_end = x.preds_end;
    more_arena = x.more_arena;
    arena_end = x.arena_end;
  }

  pub from_closed :
      (begin : ℕ) (c d : CompiledQuery) → Extends (close_clause begin c) d → Extends c d
  from_closed begin c d x = record {
    more_preds = x.more_preds;
    preds_end = x.preds_end;
    more_arena = x.more_arena;
    arena_end = x.arena_end;
  }

  pub add_clauses-Extends :
      (groups : List OrClause) (c : CompiledQuery) → Extends c (add_clauses layout groups c)
  add_clauses-Extends [] c = Extends-refl c
  add_clauses-Extends (clause ∷ groups) c =
      let closed : CompiledQuery =
        close_clause (length c.preds % u32_mod) (add_members layout clause c) in
      Extends-trans c closed (add_clauses layout groups closed)
        (closed-Extends (length c.preds % u32_mod) c (add_members layout clause c)
          (add_members-Extends clause c))
        (add_clauses-Extends groups closed)
