-- ===== src/Query/Evaluation.antt =====
-- `CheckCondition` of src/include/bit_lsm_query.cpp on valid queries.
use bit_lsm.Base.{
  ℕ, ◌-◌, ◌<◌, ◌≡◌, refl, ◌⊎◌, inl, inr, Bool, true, false, ◌&&◌, ◌||◌, some, none, List, [], ◌∷◌,
  length, ◌==◌, if◌then◌else◌, arith, Bool-cases, ==→eq,
}
use bit_lsm.Bytes.{Bytes}
use bit_lsm.Scalar.{u32_mod}
use bit_lsm.Status.{ok}
use bit_lsm.Schema.{BitLsmOptions, PhysicalType, spec_at}
use bit_lsm.Row.{Attr, value_layout, decode_attr}
use bit_lsm.Row.Decoded.{attr_has_type, decode_attr-type}
use bit_lsm.Query.{
  QueryCondition, OrClause, BitLsmQuery, eval_condition, check_clause, check_clauses,
  check_condition, type_matches, validate,
}
use bit_lsm.Query.Validity.{AllFit, GroupsFit, validate_iff}

-- What a condition says of a value: nothing of null, and otherwise its operator in the order of the type.
unfoldable pub holds : QueryCondition → Attr → Bool
holds c v = elim (eval_condition c v) [ some b ↦ b | none ↦ false ]

-- A row by the value of each attribute.
abbrev pub Values : Type 0
Values = ℕ → Attr

unfoldable pub clause_holds : Values → OrClause → Bool
clause_holds row [] = false
clause_holds row (c ∷ clause) = holds c (row c.attr_idx) || clause_holds row clause

unfoldable pub groups_hold : Values → List OrClause → Bool
groups_hold row [] = true
groups_hold row (clause ∷ groups) = clause_holds row clause && groups_hold row groups

-- With a comparand of the value's type the evaluation does not throw.
eval_typed :
    (t : PhysicalType) (c : QueryCondition) (v : Attr)
    → attr_has_type t v ≡ true
    → type_matches t c.value ≡ true
    → eval_condition c v ≡ some (holds c v)
unfolding eval_condition holds
eval_typed t c Attr.null h k = refl
eval_typed t c (Attr.int x) h k = ground arith
eval_typed t c (Attr.uint x) h k = ground arith
eval_typed t c (Attr.float x) h k = ground arith
eval_typed t c (Attr.text x) h k = ground arith

module _ (o : BitLsmOptions) (base : Bytes) where
  abbrev decoded : Values
  decoded i = decode_attr (value_layout o) base i

  -- The cache holds the value of its attribute, or is still in its first state.
  abbrev IsCached : ℕ → Attr → Type 0
  IsCached idx v = (idx ≡ u32_mod - 1) ⊎ (v ≡ decoded idx)

  cached-value :
      (c : QueryCondition) (idx : ℕ) (v : Attr)
      → IsCached idx v
      → c.attr_idx < u32_mod - 1
      → (if c.attr_idx == idx then v else decoded c.attr_idx) ≡ decoded c.attr_idx
  cached-value c idx v (inl first) h = ground arith
  cached-value c idx v (inr same) h = elim (Bool-cases (c.attr_idx == idx)) [
    | inl p ↦ let e : c.attr_idx ≡ idx = ==→eq c.attr_idx idx p in rw (p, e) same
    | inr p ↦ rw p refl
  ]

  check_clause-holds :
      (clause : OrClause) (idx : ℕ) (v : Attr)
      → length o.attr_specs < u32_mod
      → AllFit o.attr_specs clause
      → IsCached idx v
      → check_clause (value_layout o) base idx v clause ≡ some (clause_holds decoded clause)
  unfolding check_clause clause_holds
  check_clause-holds [] idx v h f k = refl
  check_clause-holds (c ∷ clause) idx v h (fits, f) k =
      let typed =
        eval_typed (spec_at o.attr_specs c.attr_idx).physical_type c (decoded c.attr_idx)
          (decode_attr-type o base c.attr_idx) fits.typed in
      rw (cached-value c idx v k (omega (arith, fits.in_range)), check_clause, typed)
        (ground (arith, check_clause-holds clause c.attr_idx (decoded c.attr_idx) h f (inr refl)))

  check_clauses-holds :
      (groups : List OrClause)
      → length o.attr_specs < u32_mod
      → GroupsFit o.attr_specs groups
      → check_clauses (value_layout o) base groups ≡ some (groups_hold decoded groups)
  unfolding check_clauses groups_hold
  check_clauses-holds [] h f = refl
  check_clauses-holds ([] ∷ groups) h f = absurd f
  check_clauses-holds ((c ∷ clause) ∷ groups) h f = ground (
    arith,
    check_clause-holds (c ∷ clause) (u32_mod - 1) Attr.null h f.0 (inl refl),
    check_clauses-holds groups h f.1,
  )

-- On a valid query over fewer than 2^32 attributes the reference evaluation of any row returns, and its answer
-- is that every clause has a condition that holds of the decoded attribute: the cache of the last attribute and
-- the early exits change nothing.
pub check_condition-holds :
    (q : BitLsmQuery) (o : BitLsmOptions) (base : Bytes)
    → length o.attr_specs < u32_mod
    → validate q o ≡ ok
    → check_condition q base (value_layout o)
      ≡ some (groups_hold (λ i. decode_attr (value_layout o) base i) q.clause_groups)
unfolding check_condition
check_condition-holds q o base h v =
    check_clauses-holds o base q.clause_groups h ((validate_iff q o).0 v)
