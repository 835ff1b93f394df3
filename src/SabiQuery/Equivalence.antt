-- ===== src/SabiQuery/Equivalence.antt =====
-- `EncodeQuery` of src/include/bit_lsm_query.cpp in the domain of bytes.
use bit_lsm.Base.{
  ℕ, ◌≡◌, refl, true, false, ◌&&◌, some, List, [], ◌∷◌, ◌++◌, get_elem?, arith, Option-cases, inl,
  inr, ◌||◌, Bool-cases, ap, length, none, ◌==◌, ==→eq, ◌∙◌, sym,
}
use bit_lsm.Schema.{AttrSpec, is_range, spec_at}
use bit_lsm.Query.{QueryCondition, OrClause, BitLsmQuery}
use bit_lsm.Interval.{ByteInterval, empty, intersect}
use bit_lsm.SabiQuery.{
  SabiOrClause, Encoder, find_merged, singleton, encode_members, intersect_at, first_is_empty,
  encode_ordered, encode_unordered, encode_clause, encode_clauses, encode_query, BitLsmOptions,
}
use bit_lsm.SabiQuery.Meaning.{
  EncodedRow, clause_matches, groups_match, byte_condition, byte_clause, sabi_matches, byte_groups,
}
use bit_lsm.SabiQuery.Clauses.{
  groups_match-append, IsMergedAt, IsMerged, state_matches, ordered_condition, ordered-byte,
  empty-ordered, members-byte, groups_match-intersect_at, get_elem?-intersect_at,
  get_elem?-intersect_at_ne, groups_match-get_elem?, groups_match-single, byte_clause-single,
  no-members, get_elem?-append_some, get_elem?-append_length, OpsAllowed, AllOpsAllowed,
}

module _ (specs : List AttrSpec) (row : EncodedRow) where
  merged-matches :
      (c : QueryCondition) (out : Encoder) (at : ℕ)
      → IsMergedAt specs row out.clause_groups c.attr_idx at
      → state_matches specs row (record out {
        clause_groups = intersect_at (ordered_condition specs row c).win at out.clause_groups;
        unsat =
            first_is_empty
              (get_elem? (intersect_at (ordered_condition specs row c).win at out.clause_groups) at)
            || out.unsat;
      })
        ≡ (state_matches specs row out && byte_condition row c)
  merged-matches c out at (c0, e, same, h) =
      let win : ByteInterval = (ordered_condition specs row c).win in
      let h0 : is_range (spec_at specs c0.attr_idx).index_type ≡ true = rw same h in
      rw (get_elem?-intersect_at specs row out.clause_groups at c0 win e) (
        ground (
          arith,
          groups_match-intersect_at specs row out.clause_groups at c0 win e h0,
          groups_match-get_elem? specs row (intersect_at win at out.clause_groups) at
              (record c0 { win = intersect c0.win win } ∷ [])
              (get_elem?-intersect_at specs row out.clause_groups at c0 win e),
          empty-ordered specs row (record c0 { win = intersect c0.win win }) h0,
          ordered-byte specs row c h,
          ap (λ (i : ℕ). clause_matches specs row (singleton i win)) same,
        ))

  abbrev merged_out : QueryCondition → Encoder → ℕ → Encoder
  merged_out c out at = record out {
    clause_groups = intersect_at (ordered_condition specs row c).win at out.clause_groups;
    unsat =
        first_is_empty
          (get_elem? (intersect_at (ordered_condition specs row c).win at out.clause_groups) at)
        || out.unsat;
  }

  abbrev added_out : QueryCondition → Encoder → Encoder
  added_out c out = record {
    clause_groups = out.clause_groups ++ (ordered_condition specs row c ∷ []) ∷ [];
    merged_at = (c.attr_idx, length out.clause_groups) ∷ out.merged_at;
    unsat = empty (ordered_condition specs row c).win || out.unsat;
  }

  encode_ordered-found :
      (c : QueryCondition) (out : Encoder) (at : ℕ)
      → find_merged c.attr_idx out.merged_at ≡ some at
      → encode_ordered c out ≡ merged_out c out at
  unfolding encode_ordered
  encode_ordered-found c out at e = rw (e, encode_ordered) refl

  encode_ordered-new :
      (c : QueryCondition) (out : Encoder)
      → find_merged c.attr_idx out.merged_at ≡ none
      → encode_ordered c out ≡ added_out c out
  unfolding encode_ordered
  encode_ordered-new c out e = rw (e, encode_ordered) refl

  -- A clause of one condition on a range attribute adds that condition to what the state says.
  ordered-matches :
      (c : QueryCondition) (out : Encoder)
      → IsMerged specs row out
      → is_range (spec_at specs c.attr_idx).index_type ≡ true
      → state_matches specs row (encode_ordered c out)
        ≡ (state_matches specs row out && byte_condition row c)
  ordered-matches c out inv h = elim (Option-cases (find_merged c.attr_idx out.merged_at)) [
    | inl new ↦ rw (encode_ordered-new c out new) (
        ground (
          arith,
          groups_match-append specs row out.clause_groups
              ((ordered_condition specs row c ∷ []) ∷ []),
          groups_match-single specs row (ordered_condition specs row c ∷ []),
          ordered-byte specs row c h,
          empty-ordered specs row (ordered_condition specs row c) h,
        ))
    | inr (at, found) ↦
        rw (encode_ordered-found c out at found)
          (merged-matches c out at (inv.at_found c.attr_idx at found))
  ]

  unordered-matches :
      (clause : OrClause) (out : Encoder)
      → OpsAllowed specs clause
      → state_matches specs row (encode_unordered specs clause out)
        ≡ (state_matches specs row out && byte_clause row clause)
  unfolding encode_unordered
  unordered-matches clause out h = ground (
    arith,
    groups_match-append specs row out.clause_groups (encode_members specs clause ∷ []),
    groups_match-single specs row (encode_members specs clause),
    members-byte specs row clause h,
    no-members specs row (encode_members specs clause),
  )

  -- The merged clauses stay where the map says.
  merged_out-IsMerged :
      (c : QueryCondition) (out : Encoder) (at : ℕ)
      → IsMerged specs row out
      → find_merged c.attr_idx out.merged_at ≡ some at
      → IsMerged specs row (merged_out c out at)
  merged_out-IsMerged c out at inv found = record {
    at_found = λ idx i e.
        let (c0, e0, same0, h0) = inv.at_found c.attr_idx at found in
        let (c1, e1, same1, h1) = inv.at_found idx i e in
        elim (Bool-cases (at == i)) [
          | inl p ↦
              let at_i : at ≡ i = ==→eq at i p in
              let one : c0 ≡ c1 = cc in
              (
                record c1 { win = intersect c1.win (ordered_condition specs row c).win },
                rw (← at_i) (
                    rw (← one) (
                      get_elem?-intersect_at specs row out.clause_groups at c0
                        (ordered_condition specs row c).win e0)),
                same1,
                h1,
              )
          | inr p ↦ (
            c1,
            get_elem?-intersect_at_ne specs row out.clause_groups at i
                  (ordered_condition specs row c).win (ground arith)
                ∙ e1,
            same1,
            h1,
          )
        ];
  }

  added-IsMergedAt :
      (groups : List SabiOrClause) (clause : SabiOrClause) (idx at : ℕ)
      → IsMergedAt specs row groups idx at
      → IsMergedAt specs row (groups ++ clause ∷ []) idx at
  added-IsMergedAt groups clause idx at (c, e, same, h) =
      (c, get_elem?-append_some groups (clause ∷ []) at e, same, h)

  added_out-IsMerged :
      (c : QueryCondition) (out : Encoder)
      → IsMerged specs row out
      → is_range (spec_at specs c.attr_idx).index_type ≡ true
      → IsMerged specs row (added_out c out)
  unfolding find_merged
  added_out-IsMerged c out inv h = record {
    at_found = λ idx i e. elim (Bool-cases (c.attr_idx == idx)) [
      | inl p ↦
          let idx_c : c.attr_idx ≡ idx = ==→eq c.attr_idx idx p in
          let last : i ≡ length out.clause_groups = ground arith in
          (
            ordered_condition specs row c,
            rw last
                (get_elem?-append_length out.clause_groups (ordered_condition specs row c ∷ []) []),
            idx_c,
            rw (← idx_c) h,
          )
      | inr p ↦
          added-IsMergedAt out.clause_groups (ordered_condition specs row c ∷ []) idx i
            (inv.at_found idx i (ground arith))
    ];
  }

  unordered-IsMerged :
      (clause : OrClause) (out : Encoder)
      → IsMerged specs row out
      → IsMerged specs row (encode_unordered specs clause out)
  unfolding encode_unordered
  unordered-IsMerged clause out inv = record {
    at_found = λ idx i e.
        added-IsMergedAt out.clause_groups (encode_members specs clause) idx i
          (inv.at_found idx i e);
  }

  ordered-IsMerged :
      (c : QueryCondition) (out : Encoder)
      → IsMerged specs row out
      → is_range (spec_at specs c.attr_idx).index_type ≡ true
      → IsMerged specs row (encode_ordered c out)
  ordered-IsMerged c out inv h = elim (Option-cases (find_merged c.attr_idx out.merged_at)) [
    | inl new ↦ rw (encode_ordered-new c out new) (added_out-IsMerged c out inv h)
    | inr (at, found) ↦
        rw (encode_ordered-found c out at found) (merged_out-IsMerged c out at inv found)
  ]

  -- Every clause of the loop adds what it says, and keeps the map right.
  clause-step :
      (clause : OrClause) (out : Encoder)
      → OpsAllowed specs clause
      → IsMerged specs row out
      → (state_matches specs row (encode_clause specs clause out)
          ≡ (state_matches specs row out && byte_clause row clause))
        × IsMerged specs row (encode_clause specs clause out)
  unfolding encode_clause
  clause-step [] out h inv = (unordered-matches [] out h, unordered-IsMerged [] out inv)
  clause-step (c ∷ []) out h inv =
      elim (Bool-cases (is_range (spec_at specs c.attr_idx).index_type)) [
        | inl r ↦ rw r (
          ordered-matches c out inv r
              ∙ ap (λ b. state_matches specs row out && b) (sym (byte_clause-single specs row c)),
          ordered-IsMerged c out inv r,
        )
        | inr e ↦ rw e (unordered-matches (c ∷ []) out h, unordered-IsMerged (c ∷ []) out inv)
      ]
  clause-step (c ∷ d ∷ clause) out h inv =
      (unordered-matches (c ∷ d ∷ clause) out h, unordered-IsMerged (c ∷ d ∷ clause) out inv)

  clauses-matches :
      (groups : List OrClause) (out : Encoder)
      → AllOpsAllowed specs groups
      → IsMerged specs row out
      → state_matches specs row (encode_clauses specs groups out)
        ≡ (state_matches specs row out && byte_groups row groups)
  unfolding encode_clauses byte_groups
  clauses-matches [] out h inv = ground arith
  clauses-matches (clause ∷ groups) out h inv =
      let step = clause-step clause out h.0 inv in
      ground (arith, step.0, clauses-matches groups (encode_clause specs clause out) h.1 step.1)

abbrev none_yet : Encoder
none_yet = record { clause_groups = []; merged_at = []; unsat = false }

not-found : (idx i : ℕ) → find_merged idx [] ≡ some i → ⊥
unfolding find_merged
not-found idx i e = cc

-- Whatever the row, the encoded query with its unsat mark matches exactly when every clause has a condition
-- whose operator holds between the row's bytes and the comparand's, provided an equality attribute is only
-- tested for equality.
pub encode_query-matches :
    (q : BitLsmQuery) (options : BitLsmOptions) (row : EncodedRow)
    → AllOpsAllowed options.attr_specs q.clause_groups
    → sabi_matches options.attr_specs row (encode_query q options) ≡ byte_groups row q.clause_groups
unfolding sabi_matches encode_query groups_match
encode_query-matches q options row h =
    clauses-matches options.attr_specs row q.clause_groups none_yet h
      (record { at_found = λ idx i e. absurd (not-found idx i e) })
