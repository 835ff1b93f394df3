-- ===== src/Query.antt =====
-- src/include/bit_lsm_query.h and .cpp: conditions, queries in conjunctive normal form, their
-- validation, and the reference evaluation of a row. `none` stands for the exception of `std::get`
-- on another alternative.
pub mod Validity
pub mod Evaluation
pub mod Permuted
use bit_lsm.Base.{
  ℕ, ◌-◌, Bool, true, false, Option, none, some, List, [], ◌∷◌, length, ltb, leb, ◌==◌,
  if◌then◌else◌, Ordering,
}
use bit_lsm.Base.Int.{ℤ, pos, negsuc, ltb_ℤ, leb_ℤ, eqb_ℤ}
use bit_lsm.Bytes.{Bytes, compare_bytes}
use bit_lsm.Scalar.{F64, f64_eq, f64_lt, f64_le, u32_mod}
use bit_lsm.Status.{Status, ok, invalid_argument}
use bit_lsm.Schema.{AttrSpec, BitLsmOptions, PhysicalType, IndexType, spec_at}
use bit_lsm.Row.{Attr, ValueLayout, decode_attr, ◌>>=◌}

pub data CompareOp : Type 0 where
  equal less_equal greater_equal less greater : CompareOp

-- `==`, `<` and `<=` of the operands' type; `>` and `>=` are these with the operands swapped.
pub record Comparison (A : Type 0) : Type 0 where
  pub eq : A → A → Bool
  pub lt : A → A → Bool
  pub le : A → A → Bool

abbrev pub i64_comparison : Comparison ℤ
i64_comparison = record { eq = eqb_ℤ; lt = ltb_ℤ; le = leb_ℤ }

abbrev pub u64_comparison : Comparison ℕ
u64_comparison = record { eq = ◌==◌; lt = ltb; le = leb }

abbrev pub f64_comparison : Comparison F64
f64_comparison = record { eq = f64_eq; lt = f64_lt; le = f64_le }

abbrev pub apply_compare_op : {A : Type 0} → Comparison A → CompareOp → A → A → Bool
apply_compare_op c equal lhs rhs = c.eq lhs rhs
apply_compare_op c less lhs rhs = c.lt lhs rhs
apply_compare_op c less_equal lhs rhs = c.le lhs rhs
apply_compare_op c greater lhs rhs = c.lt rhs lhs
apply_compare_op c greater_equal lhs rhs = c.le rhs lhs

-- A comparand: the alternatives of `QueryCondition::value_type`.
pub data Comparand : Type 0 where
  int : ℤ → Comparand
  uint : ℕ → Comparand
  float : F64 → Comparand
  text : Bytes → Comparand

pub record QueryCondition : Type 0 where
  pub attr_idx : ℕ
  pub op : CompareOp
  pub value : Comparand

abbrev pub OrClause : Type 0
OrClause = List QueryCondition

pub record BitLsmQuery : Type 0 where
  pub clause_groups : List OrClause

-- The sign of `string_view::compare` as the `int` that it is compared as.
abbrev pub sign : Ordering → ℤ
sign Ordering.lt = negsuc 0
sign Ordering.eq = pos 0
sign Ordering.gt = pos 1

-- A null attribute compares as unknown, which is no match.
unfoldable pub eval_condition : QueryCondition → Attr → Option Bool
eval_condition cond Attr.null = some false
eval_condition cond (Attr.text target) = elim cond.value [
  | text want ↦
      some (apply_compare_op i64_comparison cond.op (sign (compare_bytes target want)) (pos 0))
  | _ ↦ none
]
eval_condition cond (Attr.int x) = elim cond.value [
  | int want ↦ some (apply_compare_op i64_comparison cond.op x want)
  | _ ↦ none
]
eval_condition cond (Attr.uint x) = elim cond.value [
  | uint want ↦ some (apply_compare_op u64_comparison cond.op x want)
  | _ ↦ none
]
eval_condition cond (Attr.float x) = elim cond.value [
  | float want ↦ some (apply_compare_op f64_comparison cond.op x want)
  | _ ↦ none
]

-- The inner loop, with the attribute that was decoded last.
unfoldable pub check_clause : ValueLayout → Bytes → ℕ → Attr → OrClause → Option Bool
check_clause layout buffer cached_idx cached_val [] = some false
check_clause layout buffer cached_idx cached_val (cond ∷ clause) =
    let val : Attr =
      if cond.attr_idx == cached_idx then cached_val else decode_attr layout buffer cond.attr_idx in
    do
      passed ← eval_condition cond val
      if passed then some true else check_clause layout buffer cond.attr_idx val clause

unfoldable pub check_clauses : ValueLayout → Bytes → List OrClause → Option Bool
check_clauses layout buffer [] = some true
check_clauses layout buffer (clause ∷ groups) = do
  passed ← check_clause layout buffer (u32_mod - 1) Attr.null clause
  if passed then check_clauses layout buffer groups else some false

unfoldable pub check_condition : BitLsmQuery → Bytes → ValueLayout → Option Bool
check_condition q value layout = check_clauses layout value q.clause_groups

-- `Validate`: the comparand's alternative is that of the physical type.
abbrev pub type_matches : PhysicalType → Comparand → Bool
type_matches PhysicalType.int (int x) = true
type_matches PhysicalType.uint (uint x) = true
type_matches PhysicalType.float (float x) = true
type_matches PhysicalType.binary (text x) = true
type_matches PhysicalType.var_binary (text x) = true
type_matches _ _ = false

abbrev pub is_equal : CompareOp → Bool
is_equal equal = true
is_equal _ = false

abbrev pub op_allowed : IndexType → CompareOp → Bool
op_allowed IndexType.equality op = is_equal op
op_allowed IndexType.range op = true

unfoldable pub validate_conditions : List AttrSpec → OrClause → Status
validate_conditions specs [] = ok
validate_conditions specs (cond ∷ clause) =
    let spec : AttrSpec = spec_at specs cond.attr_idx in
    if leb (length specs) cond.attr_idx
    then invalid_argument
    else if type_matches spec.physical_type cond.value
    then (if op_allowed spec.index_type cond.op
        then validate_conditions specs clause
        else invalid_argument)
    else invalid_argument

unfoldable pub validate_groups : List AttrSpec → List OrClause → Status
validate_groups specs [] = ok
validate_groups specs ([] ∷ groups) = invalid_argument
validate_groups specs ((cond ∷ clause) ∷ groups) =
    elim (validate_conditions specs (cond ∷ clause)) [ ok ↦ validate_groups specs groups | e ↦ e ]

unfoldable pub validate : BitLsmQuery → BitLsmOptions → Status
validate q options = validate_groups options.attr_specs q.clause_groups
