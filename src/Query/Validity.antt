-- ===== src/Query/Validity.antt =====
-- `Validate` of src/include/bit_lsm_query.cpp, by the conditions that fit a schema.
use bit_lsm.Base.{◌<◌, ◌≡◌, refl, ◌↔◌, true, List, [], ◌∷◌, length, arith}
use bit_lsm.Status.{ok}
use bit_lsm.Schema.{AttrSpec, BitLsmOptions, spec_at}
use bit_lsm.Query.{
  QueryCondition, OrClause, BitLsmQuery, type_matches, op_allowed, validate_conditions,
  validate_groups, validate,
}

-- In range, of the physical type's alternative, and only equality on an equality attribute.
pub record Fits (specs : List AttrSpec) (c : QueryCondition) : Type 0 where
  pub in_range : c.attr_idx < length specs
  pub typed : type_matches (spec_at specs c.attr_idx).physical_type c.value ≡ true
  pub op_fits : op_allowed (spec_at specs c.attr_idx).index_type c.op ≡ true

abbrev pub AllFit : List AttrSpec → OrClause → Type 0
AllFit specs [] = Unit {0}
AllFit specs (c ∷ clause) = Fits specs c × AllFit specs clause

-- Every clause has a condition, and all conditions fit.
abbrev pub GroupsFit : List AttrSpec → List OrClause → Type 0
GroupsFit specs [] = Unit {0}
GroupsFit specs ([] ∷ groups) = ⊥
GroupsFit specs ((c ∷ clause) ∷ groups) = AllFit specs (c ∷ clause) × GroupsFit specs groups

conditions-fit :
    (specs : List AttrSpec) (clause : OrClause)
    → validate_conditions specs clause ≡ ok
    → AllFit specs clause
unfolding validate_conditions
conditions-fit specs [] h = tt
conditions-fit specs (c ∷ clause) h = (
  record { in_range = ground arith; typed = ground arith; op_fits = ground arith },
  conditions-fit specs clause (ground arith),
)

fit-conditions :
    (specs : List AttrSpec) (clause : OrClause)
    → AllFit specs clause
    → validate_conditions specs clause ≡ ok
unfolding validate_conditions
fit-conditions specs [] h = refl
fit-conditions specs (c ∷ clause) h =
    let first = h.0 in
    ground (arith, first.in_range, first.typed, first.op_fits, fit-conditions specs clause h.1)

groups-fit :
    (specs : List AttrSpec) (groups : List OrClause)
    → validate_groups specs groups ≡ ok
    → GroupsFit specs groups
unfolding validate_groups
groups-fit specs [] h = tt
groups-fit specs ([] ∷ groups) h = cc
groups-fit specs ((c ∷ clause) ∷ groups) h =
    (conditions-fit specs (c ∷ clause) (ground arith), groups-fit specs groups (ground arith))

fit-groups :
    (specs : List AttrSpec) (groups : List OrClause)
    → GroupsFit specs groups
    → validate_groups specs groups ≡ ok
unfolding validate_groups
fit-groups specs [] h = refl
fit-groups specs ([] ∷ groups) h = absurd h
fit-groups specs ((c ∷ clause) ∷ groups) h =
    rw (fit-conditions specs (c ∷ clause) h.0, validate_groups) (fit-groups specs groups h.1)

-- Validate answers OK exactly when every clause is non-empty and each of its conditions names an attribute in
-- range, has the comparand of its physical type, and tests an equality attribute for equality only.
pub validate_iff :
    (q : BitLsmQuery) (o : BitLsmOptions)
    → (validate q o ≡ ok) ↔ GroupsFit o.attr_specs q.clause_groups
unfolding validate
validate_iff q o =
    (groups-fit o.attr_specs q.clause_groups, fit-groups o.attr_specs q.clause_groups)
