-- ===== src/SabiQuery.antt =====
-- The adapter between rows and queries and the index: `SABISchema` and `ValueLayoutExtractor` of
-- src/include/bit_lsm_encoding.h, `SABIQuery` of bit_lsm_query.h and `EncodeQuery` of bit_lsm_query.cpp.
pub mod Meaning
pub mod Clauses
pub mod Equivalence
pub mod Soundness
use bit_lsm.Base.{
  ℕ, zero, suc, ◌+◌, Bool, true, false, ◌||◌, Option, none, some, List, [], ◌∷◌, ◌++◌, map, length,
  get_elem?, ◌==◌, if◌then◌else◌,
}
use bit_lsm.Bytes.{Bytes}
use bit_lsm.Scalar.{F64}
use bit_lsm.Schema.{AttrSpec, BitLsmOptions, IndexType, is_range, spec_at}
use bit_lsm.Okey.{u64_to_okey, i64_to_okey, f64_to_okey, okey_to_bytes}
use bit_lsm.Row.{Attr, ValueLayout, decode_attr}
use bit_lsm.Query.{Comparand, QueryCondition, OrClause, BitLsmQuery}
use bit_lsm.Interval.{ByteInterval, everything, empty, intersect, from_op}

pub record SabiSchema : Type 0 where
  pub index_types : List IndexType
  pub rho : F64

abbrev pub index_type_of : AttrSpec → IndexType
index_type_of s = s.index_type

unfoldable pub from_options : BitLsmOptions → SabiSchema
from_options o = record { index_types = map index_type_of o.attr_specs; rho = o.rho }

-- `NumericToOkey` of a decoded row value; null and bytes never reach it.
unfoldable pub numeric_to_okey : Attr → ℕ
numeric_to_okey (Attr.int x) = i64_to_okey x
numeric_to_okey (Attr.uint x) = u64_to_okey x
numeric_to_okey (Attr.float d) = f64_to_okey d
numeric_to_okey Attr.null = 0
numeric_to_okey (Attr.text s) = 0

-- `NumericToOkey` of a comparand; a string never reaches it.
unfoldable pub comparand_to_okey : Comparand → ℕ
comparand_to_okey (Comparand.int x) = i64_to_okey x
comparand_to_okey (Comparand.uint x) = u64_to_okey x
comparand_to_okey (Comparand.float d) = f64_to_okey d
comparand_to_okey (Comparand.text s) = 0

-- An `EncodedAttr` is null, or bytes in the domain that the index compares.
unfoldable pub encoded_attr : Attr → Option Bytes
encoded_attr Attr.null = none
encoded_attr (Attr.text s) = some s
encoded_attr v = some (okey_to_bytes (numeric_to_okey v))

unfoldable pub extract_from : ValueLayout → Bytes → ℕ → ℕ → List (Option Bytes)
extract_from layout row i zero = []
extract_from layout row i (suc n) =
    encoded_attr (decode_attr layout row i) ∷ extract_from layout row (i + 1) n

-- `ValueLayoutExtractor::ExtractAll`.
unfoldable pub extract_all : ValueLayout → Bytes → List (Option Bytes)
extract_all layout row = extract_from layout row 0 (length layout.slot)

-- `win` serves a range attribute, `bytes` an equality attribute.
pub record SabiCondition : Type 0 where
  pub attr_idx : ℕ
  pub win : ByteInterval
  pub bytes : Bytes

abbrev pub SabiOrClause : Type 0
SabiOrClause = List SabiCondition

pub record SabiQuery : Type 0 where
  pub clause_groups : List SabiOrClause
  pub unsat : Bool

unfoldable pub comparand_bytes : Comparand → Bytes
comparand_bytes (Comparand.text s) = s
comparand_bytes v = okey_to_bytes (comparand_to_okey v)

-- The variables of the loop of `EncodeQuery`: the output, and where an attribute's merged clause is.
pub record Encoder : Type 0 where
  pub clause_groups : List SabiOrClause
  pub merged_at : List (ℕ × ℕ)
  pub unsat : Bool

unfoldable pub find_merged : ℕ → List (ℕ × ℕ) → Option ℕ
find_merged idx [] = none
find_merged idx ((i, at) ∷ merged) = if i == idx then some at else find_merged idx merged

abbrev pub intersect_first : ByteInterval → SabiOrClause → SabiOrClause
intersect_first win [] = []
intersect_first win (c ∷ clause) = record c { win = intersect c.win win } ∷ clause

unfoldable pub intersect_at : ByteInterval → ℕ → List SabiOrClause → List SabiOrClause
intersect_at win at [] = []
intersect_at win zero (clause ∷ groups) = intersect_first win clause ∷ groups
intersect_at win (suc at) (clause ∷ groups) = clause ∷ intersect_at win at groups

abbrev pub first_is_empty : Option SabiOrClause → Bool
first_is_empty (some (c ∷ clause)) = empty c.win
first_is_empty _ = false

abbrev pub singleton : ℕ → ByteInterval → SabiOrClause
singleton attr_idx win = record { attr_idx = attr_idx; win = win; bytes = [] } ∷ []

-- A clause that is one condition on a range attribute.
unfoldable pub encode_ordered : QueryCondition → Encoder → Encoder
encode_ordered c out =
    let win : ByteInterval = from_op c.op (comparand_bytes c.value) in
    elim (find_merged c.attr_idx out.merged_at) [
      | some at ↦
          let groups : List SabiOrClause = intersect_at win at out.clause_groups in
          record out {
            clause_groups = groups;
            unsat = first_is_empty (get_elem? groups at) || out.unsat;
          }
      | none ↦ record {
        clause_groups = out.clause_groups ++ singleton c.attr_idx win ∷ [];
        merged_at = (c.attr_idx, length out.clause_groups) ∷ out.merged_at;
        unsat = empty win || out.unsat;
      }
    ]

-- The members of any other clause; an interval that is empty is dropped.
unfoldable pub encode_members : List AttrSpec → OrClause → SabiOrClause
encode_members specs [] = []
encode_members specs (c ∷ clause) =
    let rest = encode_members specs clause in
    let win : ByteInterval = from_op c.op (comparand_bytes c.value) in
    if is_range (spec_at specs c.attr_idx).index_type
    then (if empty win
        then rest
        else record { attr_idx = c.attr_idx; win = win; bytes = [] } ∷ rest)
    else record { attr_idx = c.attr_idx; win = everything; bytes = comparand_bytes c.value } ∷ rest

abbrev pub no_members : {A : Type 0} → List A → Bool
no_members [] = true
no_members (_ ∷ _) = false

unfoldable pub encode_unordered : List AttrSpec → OrClause → Encoder → Encoder
encode_unordered specs clause out =
    let enc : SabiOrClause = encode_members specs clause in
    record out {
      clause_groups = out.clause_groups ++ enc ∷ [];
      unsat = (if no_members clause then false else no_members enc) || out.unsat;
    }

unfoldable pub encode_clause : List AttrSpec → OrClause → Encoder → Encoder
encode_clause specs (c ∷ []) out =
    if is_range (spec_at specs c.attr_idx).index_type
    then encode_ordered c out
    else encode_unordered specs (c ∷ []) out
encode_clause specs clause out = encode_unordered specs clause out

unfoldable pub encode_clauses : List AttrSpec → List OrClause → Encoder → Encoder
encode_clauses specs [] out = out
encode_clauses specs (clause ∷ groups) out =
    encode_clauses specs groups (encode_clause specs clause out)

unfoldable pub encode_query : BitLsmQuery → BitLsmOptions → SabiQuery
encode_query q options =
    let out : Encoder =
      encode_clauses options.attr_specs q.clause_groups
        (record { clause_groups = []; merged_at = []; unsat = false }) in
    record { clause_groups = out.clause_groups; unsat = out.unsat }
