-- ===== src/Compiled/Resolved.antt =====
-- The predicates in the clause ranges of a `CompiledQuery`.
use mathlib.Core.List.{append_assoc}
use bit_lsm.Base.{
  ℕ, ◌+◌, ◌-◌, ◌%◌, ◌<◌, ◌≡◌, refl, ap, sym, ◌∙◌, some, List, [], ◌∷◌, ◌++◌, length, get_elem?,
  take, drop, arith, length-append,
}
use bit_lsm.Bytes.{Bytes}
use bit_lsm.Memory.{read}
use bit_lsm.Scalar.{u32_mod}
use bit_lsm.Row.{ValueLayout}
use bit_lsm.Query.{Comparand, QueryCondition, OrClause}
use bit_lsm.Compiled.{Pred, ClauseRange, CompiledQuery, blank_pred, close_clause}
use bit_lsm.Compiled.Extension.{
  append-nil, resolved_pred, comparand_text, add_pred, add_members, add_clauses, Extends,
  Extends-trans, add_members-Extends, add_clauses-Extends, from_closed,
}

-- The bytes of a text comparand are where the predicate says.
abbrev pub IsStored : Bytes → Pred → Comparand → Type 0
IsStored arena p (Comparand.text s) = read arena p.soff p.slen ≡ s
IsStored arena p _ = Unit {0}

-- `p` is the predicate of the condition.
pub record Resolves (layout : ValueLayout) (arena : Bytes) (p : Pred) (cond : QueryCondition)
    : Type 0 where
  pub before : Bytes
  pub same : p ≡ resolved_pred before (blank_pred layout cond) cond.value
  pub stored : IsStored arena p cond.value

-- The predicates from `i` on are those of the clause.
abbrev pub RangeResolved : ValueLayout → CompiledQuery → ℕ → OrClause → Type 0
RangeResolved layout c i [] = Unit {0}
RangeResolved layout c i (cond ∷ clause) =
    ((p : Pred) × (get_elem? c.preds i ≡ some p) × Resolves layout c.arena p cond)
    × RangeResolved layout c (i + 1) clause

abbrev pub AllResolved : ValueLayout → CompiledQuery → List ClauseRange → List OrClause → Type 0
AllResolved layout c [] [] = Unit {0}
AllResolved layout c (r ∷ ranges) (clause ∷ groups) =
    (r.end - r.begin ≡ length clause)
    × RangeResolved layout c r.begin clause
    × AllResolved layout c ranges groups
AllResolved layout c _ _ = ⊥

get_elem?-append :
    {A : Type 0} (xs ys : List A) (y : A) → get_elem? (xs ++ y ∷ ys) (length xs) ≡ some y
get_elem?-append [] ys y = refl
get_elem?-append (x ∷ xs) ys y = get_elem?-append xs ys y

take-prefix : (s after : Bytes) → take (length s) (s ++ after) ≡ s
take-prefix [] after = refl
take-prefix (x ∷ s) after = ap (λ t. x ∷ t) (take-prefix s after)

drop-prefix : (arena s : Bytes) → drop (length arena) (arena ++ s) ≡ s
drop-prefix [] s = refl
drop-prefix (x ∷ arena) s = drop-prefix arena s

read-append : (arena s after : Bytes) → read ((arena ++ s) ++ after) (length arena) (length s) ≡ s
unfolding read
read-append arena s after =
    rw (append_assoc arena s after, drop-prefix arena (s ++ after)) (take-prefix s after)

module _ (layout : ValueLayout) where
  IsStored-resolved_pred :
      (cond : QueryCondition) (c d : CompiledQuery)
      → Extends (add_pred layout cond c) d
      → length d.arena < u32_mod
      → IsStored d.arena (resolved_pred c.arena (blank_pred layout cond) cond.value) cond.value
  IsStored-resolved_pred cond c d x small =
      stored cond.value c.arena d.arena x.more_arena (blank_pred layout cond) x.arena_end small
    where
      stored :
          (value : Comparand) (arena whole after : Bytes) (p : Pred)
          → whole ≡ (arena ++ comparand_text value) ++ after
          → length whole < u32_mod
          → IsStored whole (resolved_pred arena p value) value
      stored (Comparand.int y) arena whole after p e h = tt
      stored (Comparand.uint y) arena whole after p e h = tt
      stored (Comparand.float y) arena whole after p e h = tt
      stored (Comparand.text s) arena whole after p e h =
          let sizes : length whole ≡ length arena + length s + length after =
            ap length e
            ∙ length-append (arena ++ s) after
            ∙ ap (λ (n : ℕ). n + length after) (length-append arena s) in
          let low : length arena % u32_mod ≡ length arena = omega arith in
          let short : length s % u32_mod ≡ length s = omega arith in
          rw (low, short, e) (read-append arena s after)

  found-pred :
      (cond : QueryCondition) (c d : CompiledQuery)
      → Extends (add_pred layout cond c) d
      → get_elem? d.preds (length c.preds)
        ≡ some (resolved_pred c.arena (blank_pred layout cond) cond.value)
  found-pred cond c d x =
      rw
        (
          x.preds_end,
          append_assoc c.preds (resolved_pred c.arena (blank_pred layout cond) cond.value ∷ [])
              x.more_preds,
        )
        (get_elem?-append c.preds x.more_preds
          (resolved_pred c.arena (blank_pred layout cond) cond.value))

  add_members-RangeResolved :
      (clause : OrClause) (c d : CompiledQuery)
      → Extends (add_members layout clause c) d
      → length d.arena < u32_mod
      → RangeResolved layout d (length c.preds) clause
  add_members-RangeResolved [] c d x small = tt
  add_members-RangeResolved (cond ∷ clause) c d x small =
      let here =
        Extends-trans (add_pred layout cond c) (add_members layout clause (add_pred layout cond c))
          d (add_members-Extends layout clause (add_pred layout cond c)) x in
      let next : length c.preds + 1 ≡ length (add_pred layout cond c).preds = omega (
        arith,
        length-append c.preds (resolved_pred c.arena (blank_pred layout cond) cond.value ∷ []),
      ) in
      (
        (
          resolved_pred c.arena (blank_pred layout cond) cond.value,
          found-pred cond c d here,
          record {
            before = c.arena;
            same = refl;
            stored = IsStored-resolved_pred cond c d here small;
          },
        ),
        rw next (add_members-RangeResolved clause (add_pred layout cond c) d x small),
      )

  length-add_members :
      (clause : OrClause) (c : CompiledQuery)
      → length (add_members layout clause c).preds ≡ length c.preds + length clause
  length-add_members [] c = omega arith
  length-add_members (cond ∷ clause) c = omega (
    arith,
    length-add_members clause (add_pred layout cond c),
    length-append c.preds (resolved_pred c.arena (blank_pred layout cond) cond.value ∷ []),
  )

  -- The ranges that the clauses add.
  abbrev pub new_ranges : List OrClause → CompiledQuery → List ClauseRange
  new_ranges [] c = []
  new_ranges (clause ∷ groups) c =
      record {
        begin = length c.preds % u32_mod;
        end = length (add_members layout clause c).preds % u32_mod;
      }
      ∷ new_ranges groups (close_clause (length c.preds % u32_mod) (add_members layout clause c))

  clauses-add_members :
      (clause : OrClause) (c : CompiledQuery) → (add_members layout clause c).clauses ≡ c.clauses
  clauses-add_members [] c = refl
  clauses-add_members (cond ∷ clause) c = clauses-add_members clause (add_pred layout cond c)

  pub clauses-add_clauses :
      (groups : List OrClause) (c : CompiledQuery)
      → (add_clauses layout groups c).clauses ≡ c.clauses ++ new_ranges groups c
  clauses-add_clauses [] c = sym (append-nil c.clauses)
  clauses-add_clauses (clause ∷ groups) c =
      let members : CompiledQuery = add_members layout clause c in
      let r : ClauseRange = record {
        begin = length c.preds % u32_mod;
        end = length members.preds % u32_mod;
      } in
      let closed : CompiledQuery = close_clause (length c.preds % u32_mod) members in
      clauses-add_clauses groups closed
      ∙ ap (λ t. (t ++ r ∷ []) ++ new_ranges groups closed) (clauses-add_members clause c)
      ∙ append_assoc c.clauses (r ∷ []) (new_ranges groups closed)

  pub add_clauses-AllResolved :
      (groups : List OrClause) (c d : CompiledQuery)
      → Extends (add_clauses layout groups c) d
      → length d.arena < u32_mod
      → length d.preds < u32_mod
      → AllResolved layout d (new_ranges groups c) groups
  add_clauses-AllResolved [] c d x small few = tt
  add_clauses-AllResolved (clause ∷ groups) c d x small few =
      let members : CompiledQuery = add_members layout clause c in
      let closed : CompiledQuery = close_clause (length c.preds % u32_mod) members in
      let here : Extends members d = from_closed layout (length c.preds % u32_mod) members d (
        Extends-trans closed (add_clauses layout groups closed) d
          (add_clauses-Extends layout groups closed) x) in
      let total : length d.preds ≡ length members.preds + length here.more_preds =
        ap length here.preds_end ∙ length-append members.preds here.more_preds in
      let begin : length c.preds % u32_mod ≡ length c.preds =
        omega (arith, length-add_members clause c) in
      (
        omega (arith, length-add_members clause c),
        rw begin (add_members-RangeResolved clause c d here small),
        add_clauses-AllResolved groups closed d x small few,
      )
