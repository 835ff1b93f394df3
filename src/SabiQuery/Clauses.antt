-- ===== src/SabiQuery/Clauses.antt =====
-- What one condition or clause of the query becomes in the encoded query, in the domain of bytes.
use bit_lsm.Base.{
  ℕ, ◌≡◌, refl, Bool, true, false, not, ◌&&◌, some, List, [], ◌∷◌, ◌++◌, get_elem?, arith,
  Option-cases, inl, inr, suc, ◌≢◌, Bool-cases, zero, ap, length,
}
use bit_lsm.Schema.{AttrSpec, is_range, spec_at}
use bit_lsm.Query.{CompareOp, QueryCondition, OrClause}
use bit_lsm.Interval.{ByteInterval, from_op, empty, intersect}
use bit_lsm.Interval.Laws.{contains-from_op, contains-empty, contains-intersect}
use bit_lsm.SabiQuery.{
  SabiCondition, SabiOrClause, Encoder, comparand_bytes, find_merged, singleton, encode_members,
  intersect_at, no_members,
}
use bit_lsm.SabiQuery.Meaning.{
  EncodedRow, condition_matches, clause_matches, groups_match, byte_condition, byte_clause,
}

pub get_elem?-append_some :
    (xs ys : List SabiOrClause) (i : ℕ) {x : SabiOrClause}
    → get_elem? xs i ≡ some x
    → get_elem? (xs ++ ys) i ≡ some x
get_elem?-append_some [] ys i e = cc
get_elem?-append_some (y ∷ xs) ys zero e = e
get_elem?-append_some (y ∷ xs) ys (suc i) e = get_elem?-append_some xs ys i e

pub get_elem?-append_length :
    (xs : List SabiOrClause) (x : SabiOrClause) (ys : List SabiOrClause)
    → get_elem? (xs ++ x ∷ ys) (length xs) ≡ some x
get_elem?-append_length [] x ys = refl
get_elem?-append_length (y ∷ xs) x ys = get_elem?-append_length xs x ys

-- What `validate` checks of operators: an equality attribute is only tested for equality.
abbrev pub OpAllowed : List AttrSpec → QueryCondition → Type 0
OpAllowed specs c = is_range (spec_at specs c.attr_idx).index_type ≡ false → c.op ≡ CompareOp.equal

abbrev pub OpsAllowed : List AttrSpec → OrClause → Type 0
OpsAllowed specs [] = Unit {0}
OpsAllowed specs (c ∷ clause) = OpAllowed specs c × OpsAllowed specs clause

abbrev pub AllOpsAllowed : List AttrSpec → List OrClause → Type 0
AllOpsAllowed specs [] = Unit {0}
AllOpsAllowed specs (clause ∷ groups) = OpsAllowed specs clause × AllOpsAllowed specs groups

module _ (specs : List AttrSpec) (row : EncodedRow) where
  pub groups_match-append :
      (xs ys : List SabiOrClause)
      → groups_match specs row (xs ++ ys) ≡ (groups_match specs row xs && groups_match specs row ys)
  unfolding groups_match
  groups_match-append [] ys = refl
  groups_match-append (x ∷ xs) ys = ground (arith, groups_match-append xs ys)

  -- A merged clause, as the map of the loop says where it stands.
  abbrev pub IsMergedAt : List SabiOrClause → ℕ → ℕ → Type 0
  IsMergedAt groups idx at =
      (c : SabiCondition) × (get_elem? groups at ≡ some (c ∷ []))
      × (c.attr_idx ≡ idx)
      × (is_range (spec_at specs idx).index_type ≡ true)

  pub record IsMerged (out : Encoder) : Type 0 where
    pub at_found :
        (idx at : ℕ) → find_merged idx out.merged_at ≡ some at → IsMergedAt out.clause_groups idx at

  -- What the state of the loop says of the row.
  abbrev pub state_matches : Encoder → Bool
  state_matches out = not out.unsat && groups_match specs row out.clause_groups

  abbrev pub ordered_condition : QueryCondition → SabiCondition
  ordered_condition c = record {
    attr_idx = c.attr_idx;
    win = from_op c.op (comparand_bytes c.value);
    bytes = [];
  }

  pub ordered-byte :
      (c : QueryCondition)
      → is_range (spec_at specs c.attr_idx).index_type ≡ true
      → clause_matches specs row (singleton c.attr_idx (from_op c.op (comparand_bytes c.value)))
        ≡ byte_condition row c
  unfolding clause_matches condition_matches byte_condition
  ordered-byte c h = elim (Option-cases (row c.attr_idx)) [
    | inl e ↦ rw e refl
    | inr (v, e) ↦ rw (e, h) (ground (arith, contains-from_op c.op (comparand_bytes c.value) v))
  ]

  pub empty-ordered :
      (c : SabiCondition)
      → is_range (spec_at specs c.attr_idx).index_type ≡ true
      → empty c.win ≡ true
      → clause_matches specs row (c ∷ []) ≡ false
  unfolding clause_matches condition_matches
  empty-ordered c h e = elim (Option-cases (row c.attr_idx)) [
    | inl n ↦ rw n refl
    | inr (v, n) ↦ rw (n, h) (ground (arith, contains-empty c.win v))
  ]

  pub equality-byte :
      (c : QueryCondition) (win : ByteInterval)
      → is_range (spec_at specs c.attr_idx).index_type ≡ false
      → OpAllowed specs c
      → condition_matches specs row
          (record { attr_idx = c.attr_idx; win = win; bytes = comparand_bytes c.value })
        ≡ byte_condition row c
  unfolding condition_matches byte_condition
  equality-byte c win h k = elim (Option-cases (row c.attr_idx)) [
    | inl n ↦ rw n refl
    | inr (v, n) ↦ rw (n, h, k h) refl
  ]

  pub members-byte :
      (clause : OrClause)
      → OpsAllowed specs clause
      → clause_matches specs row (encode_members specs clause) ≡ byte_clause row clause
  unfolding encode_members byte_clause clause_matches
  members-byte [] h = refl
  members-byte (c ∷ clause) h = elim (Bool-cases (is_range (spec_at specs c.attr_idx).index_type)) [
    | inl r ↦ rw r (
        ground
          (arith, ordered-byte c r, empty-ordered (ordered_condition c) r, members-byte clause h.1))
    | inr e ↦ rw e (
        ground (
          arith,
          equality-byte c
              (record { lo = []; lo_open = false; hi = []; hi_open = false; hi_unbounded = true }) e
              h.0,
          members-byte clause h.1,
        ))
  ]

  pub intersect-singleton :
      (c : SabiCondition) (win : ByteInterval)
      → is_range (spec_at specs c.attr_idx).index_type ≡ true
      → clause_matches specs row (record c { win = intersect c.win win } ∷ [])
        ≡ (clause_matches specs row (c ∷ []) && clause_matches specs row (singleton c.attr_idx win))
  unfolding clause_matches condition_matches
  intersect-singleton c win h = elim (Option-cases (row c.attr_idx)) [
    | inl n ↦ rw n refl
    | inr (v, n) ↦ rw (n, h) (ground (arith, contains-intersect c.win win v))
  ]

  pub groups_match-intersect_at :
      (groups : List SabiOrClause) (at : ℕ) (c : SabiCondition) (win : ByteInterval)
      → get_elem? groups at ≡ some (c ∷ [])
      → is_range (spec_at specs c.attr_idx).index_type ≡ true
      → groups_match specs row (intersect_at win at groups)
        ≡ (groups_match specs row groups && clause_matches specs row (singleton c.attr_idx win))
  unfolding groups_match intersect_at
  groups_match-intersect_at [] at c win e h = cc
  groups_match-intersect_at (clause ∷ groups) zero c win e h =
      let same : clause ≡ c ∷ [] = cc in rw same (ground (arith, intersect-singleton c win h))
  groups_match-intersect_at (clause ∷ groups) (suc at) c win e h =
      ground (arith, groups_match-intersect_at groups at c win e h)

  pub get_elem?-intersect_at :
      (groups : List SabiOrClause) (at : ℕ) (c : SabiCondition) (win : ByteInterval)
      → get_elem? groups at ≡ some (c ∷ [])
      → get_elem? (intersect_at win at groups) at
        ≡ some (record c { win = intersect c.win win } ∷ [])
  unfolding intersect_at
  get_elem?-intersect_at [] at c win e = cc
  get_elem?-intersect_at (clause ∷ groups) zero c win e =
      let same : clause ≡ c ∷ [] = cc in rw same refl
  get_elem?-intersect_at (clause ∷ groups) (suc at) c win e =
      get_elem?-intersect_at groups at c win e

  pub get_elem?-intersect_at_ne :
      (groups : List SabiOrClause) (at i : ℕ) (win : ByteInterval)
      → at ≢ i
      → get_elem? (intersect_at win at groups) i ≡ get_elem? groups i
  unfolding intersect_at
  get_elem?-intersect_at_ne [] at i win h = refl
  get_elem?-intersect_at_ne (clause ∷ groups) zero zero win h = absurd (h refl)
  get_elem?-intersect_at_ne (clause ∷ groups) zero (suc i) win h = refl
  get_elem?-intersect_at_ne (clause ∷ groups) (suc at) zero win h = refl
  get_elem?-intersect_at_ne (clause ∷ groups) (suc at) (suc i) win h =
      get_elem?-intersect_at_ne groups at i win (λ e. h (ap suc e))

  pub groups_match-get_elem? :
      (groups : List SabiOrClause) (at : ℕ) (clause : SabiOrClause)
      → get_elem? groups at ≡ some clause
      → clause_matches specs row clause ≡ false
      → groups_match specs row groups ≡ false
  unfolding groups_match
  groups_match-get_elem? [] at clause e h = cc
  groups_match-get_elem? (x ∷ groups) zero clause e h =
      let same : x ≡ clause = cc in rw (same, h) refl
  groups_match-get_elem? (x ∷ groups) (suc at) clause e h =
      ground (arith, groups_match-get_elem? groups at clause e h)

  pub groups_match-single :
      (clause : SabiOrClause)
      → groups_match specs row (clause ∷ []) ≡ clause_matches specs row clause
  unfolding groups_match
  groups_match-single clause = ground arith

  pub byte_clause-single : (c : QueryCondition) → byte_clause row (c ∷ []) ≡ byte_condition row c
  unfolding byte_clause
  byte_clause-single c = ground arith

  pub no-members :
      (clause : SabiOrClause) → no_members clause ≡ true → clause_matches specs row clause ≡ false
  unfolding clause_matches
  no-members [] e = refl
  no-members (c ∷ clause) e = cc
