-- ===== src/Compiled/Evaluation.antt =====
-- The evaluation of a `CompiledQuery` and the reference evaluation of src/include/bit_lsm_query.cpp.
use bit_lsm.Status.{ok}
use bit_lsm.Query.Validity.{AllFit, GroupsFit, validate_iff}
use bit_lsm.Compiled.Extension.{
  add_members, add_clauses, compile_clauses-add, Extends-refl, add_pred,
}
use bit_lsm.Compiled.Predicate.{IsBased, eval_pred-Resolves}
use bit_lsm.Compiled.Resolved.{
  RangeResolved, AllResolved, new_ranges, clauses-add_clauses, add_clauses-AllResolved,
}
use bit_lsm.Base.{ℕ, ◌≡◌, refl, sym, ◌∙◌, some, arith, [], List, length, ◌<◌, ◌∷◌, ◌+◌, ◌%◌}
use bit_lsm.Bytes.{Bytes}
use bit_lsm.Schema.{BitLsmOptions}
use bit_lsm.Row.{value_layout, decode_attr}
use bit_lsm.Row.Decoded.{specs-value_layout}
use bit_lsm.Query.{validate, check_condition}
use bit_lsm.Query.Evaluation.{clause_holds, groups_hold, check_condition-holds}
use bit_lsm.Compiled.{
  CompiledQuery, eval_range, eval_clauses, BitLsmQuery, compile, eval, OrClause, ClauseRange,
  u32_mod, ValueLayout, close_clause,
}

module _ (o : BitLsmOptions) (base : Bytes) (c : CompiledQuery) where
  eval_range-clause_holds :
      (clause : OrClause) (i : ℕ)
      → IsBased o base c
      → AllFit (value_layout o).specs clause
      → RangeResolved (value_layout o) c i clause
      → eval_range c base i (length clause)
        ≡ some (clause_holds (λ k. decode_attr (value_layout o) base k) clause)
  unfolding eval_range clause_holds
  eval_range-clause_holds [] i b f r = refl
  eval_range-clause_holds (cond ∷ clause) i b (fits, f) ((p, found, resolved), r) =
      rw (found, eval_pred-Resolves o base c cond p b resolved fits.typed)
        (ground (arith, eval_range-clause_holds clause (i + 1) b f r))

  eval_clauses-groups_hold :
      (ranges : List ClauseRange) (groups : List OrClause)
      → IsBased o base c
      → GroupsFit (value_layout o).specs groups
      → AllResolved (value_layout o) c ranges groups
      → eval_clauses c base ranges
        ≡ some (groups_hold (λ k. decode_attr (value_layout o) base k) groups)
  unfolding eval_clauses groups_hold
  eval_clauses-groups_hold [] [] b f r = refl
  eval_clauses-groups_hold (range ∷ ranges) ([] ∷ groups) b f r = absurd f
  eval_clauses-groups_hold (range ∷ ranges) ((cond ∷ clause) ∷ groups) b (f, fs) (count, r, rs) =
      rw (count, eval_range-clause_holds (cond ∷ clause) range.begin b f r)
        (ground (arith, eval_clauses-groups_hold ranges groups b fs rs))
  eval_clauses-groups_hold [] (clause ∷ groups) b f r = absurd r
  eval_clauses-groups_hold (range ∷ ranges) [] b f r = absurd r

-- The state of the constructor before the first clause.
abbrev started : BitLsmOptions → CompiledQuery
started o = record {
  preds = [];
  clauses = [];
  variable_base = (value_layout o).variable_base;
  null_bitmap_bytes = (value_layout o).null_bitmap_bytes;
  arena = [];
}

fits-layout :
    (q : BitLsmQuery) (o : BitLsmOptions)
    → validate q o ≡ ok
    → GroupsFit (value_layout o).specs q.clause_groups
fits-layout q o v = rw (specs-value_layout o) ((validate_iff q o).0 v)

compile-add_clauses :
    (q : BitLsmQuery) (o : BitLsmOptions)
    → validate q o ≡ ok
    → compile q o ≡ some (add_clauses (value_layout o) q.clause_groups (started o))
unfolding compile
compile-add_clauses q o v =
    compile_clauses-add (value_layout o) q.clause_groups (started o) (fits-layout q o v)

-- Compiling a valid query never throws: the constructor returns a compiled query.
pub compile_total :
    (q : BitLsmQuery) (o : BitLsmOptions)
    → validate q o ≡ ok
    → (c : CompiledQuery) × (compile q o ≡ some c)
compile_total q o v =
    (add_clauses (value_layout o) q.clause_groups (started o), compile-add_clauses q o v)

abbrev SameBase : CompiledQuery → CompiledQuery → Type 0
SameBase c d = (c.variable_base ≡ d.variable_base) × (c.null_bitmap_bytes ≡ d.null_bitmap_bytes)

add_members-SameBase :
    (layout : ValueLayout) (clause : OrClause) (c : CompiledQuery)
    → SameBase (add_members layout clause c) c
add_members-SameBase layout [] c = (refl, refl)
add_members-SameBase layout (cond ∷ clause) c =
    add_members-SameBase layout clause (add_pred layout cond c)

add_clauses-SameBase :
    (layout : ValueLayout) (groups : List OrClause) (c : CompiledQuery)
    → SameBase (add_clauses layout groups c) c
add_clauses-SameBase layout [] c = (refl, refl)
add_clauses-SameBase layout (clause ∷ groups) c =
    let later =
      add_clauses-SameBase layout groups
        (close_clause (length c.preds % u32_mod) (add_members layout clause c)) in
    let now = add_members-SameBase layout clause c in (later.0 ∙ now.0, later.1 ∙ now.1)

some-injective : {A : Type 0} (a b : A) → some a ≡ some b → a ≡ b
some-injective a b e = cc

add_clauses-eval :
    (q : BitLsmQuery) (o : BitLsmOptions) (base : Bytes)
    → length o.attr_specs < u32_mod
    → validate q o ≡ ok
    → length (add_clauses (value_layout o) q.clause_groups (started o)).preds < u32_mod
    → length (add_clauses (value_layout o) q.clause_groups (started o)).arena < u32_mod
    → eval (add_clauses (value_layout o) q.clause_groups (started o)) base
      ≡ check_condition q base (value_layout o)
unfolding eval
add_clauses-eval q o base wide v few small =
    let made : CompiledQuery = add_clauses (value_layout o) q.clause_groups (started o) in
    rw
      (
        clauses-add_clauses (value_layout o) q.clause_groups (started o),
        check_condition-holds q o base wide v,
      )
      (eval_clauses-groups_hold o base made
        (new_ranges (value_layout o) q.clause_groups (started o)) q.clause_groups
        (add_clauses-SameBase (value_layout o) q.clause_groups (started o)) (fits-layout q o v)
        (add_clauses-AllResolved (value_layout o) q.clause_groups (started o) made
          (Extends-refl made) small few))

-- A valid query over fewer than 2^32 attributes, compiled into fewer than 2^32 predicates and arena bytes,
-- evaluates on any row to what the reference evaluation answers.
pub eval-check_condition :
    (q : BitLsmQuery) (o : BitLsmOptions) (base : Bytes) (c : CompiledQuery)
    → length o.attr_specs < u32_mod
    → validate q o ≡ ok
    → compile q o ≡ some c
    → length c.preds < u32_mod
    → length c.arena < u32_mod
    → eval c base ≡ check_condition q base (value_layout o)
eval-check_condition q o base c wide v e few small =
    let made : CompiledQuery = add_clauses (value_layout o) q.clause_groups (started o) in
    let same : made ≡ c = some-injective made c (sym (compile-add_clauses q o v) ∙ e) in
    rw (sym same) (add_clauses-eval q o base wide v (rw (sym same) at few) (rw (sym same) at small))
