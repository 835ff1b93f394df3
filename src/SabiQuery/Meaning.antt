-- ===== src/SabiQuery/Meaning.antt =====
-- What a query in the domain of bytes, and its encoding for the index, say of a row. A row is given by the encoded
-- value of each attribute.
use bit_lsm.Base.{
  ℕ, Bool, true, false, not, ◌&&◌, ◌||◌, Option, none, some, List, [], ◌∷◌, if◌then◌else◌,
}
use bit_lsm.Bytes.{Bytes, compare_bytes}
use bit_lsm.Schema.{AttrSpec, is_range, spec_at}
use bit_lsm.Query.{CompareOp, QueryCondition, OrClause}
use bit_lsm.Interval.Laws.{contains, op_holds}
use bit_lsm.SabiQuery.{SabiCondition, SabiOrClause, SabiQuery, comparand_bytes}

-- The encoded value of each attribute of a row.
abbrev pub EncodedRow : Type 0
EncodedRow = ℕ → Option Bytes

module _ (specs : List AttrSpec) (row : EncodedRow) where
  abbrev pub value_matches : SabiCondition → Option Bytes → Bool
  value_matches c none = false
  value_matches c (some v) =
      if is_range (spec_at specs c.attr_idx).index_type
      then contains c.win v
      else op_holds CompareOp.equal (compare_bytes v c.bytes)

  unfoldable pub condition_matches : SabiCondition → Bool
  condition_matches c = value_matches c (row c.attr_idx)

  unfoldable pub clause_matches : SabiOrClause → Bool
  clause_matches [] = false
  clause_matches (c ∷ clause) = condition_matches c || clause_matches clause

  unfoldable pub groups_match : List SabiOrClause → Bool
  groups_match [] = true
  groups_match (clause ∷ groups) = clause_matches clause && groups_match groups

  -- A query marked `unsat` matches nothing.
  unfoldable pub sabi_matches : SabiQuery → Bool
  sabi_matches q = not q.unsat && groups_match q.clause_groups

abbrev pub bytes_match : QueryCondition → Option Bytes → Bool
bytes_match c none = false
bytes_match c (some v) = op_holds c.op (compare_bytes v (comparand_bytes c.value))

module _ (row : EncodedRow) where
  -- A condition of the query, by the bytes of its comparand.
  unfoldable pub byte_condition : QueryCondition → Bool
  byte_condition c = bytes_match c (row c.attr_idx)

  unfoldable pub byte_clause : OrClause → Bool
  byte_clause [] = false
  byte_clause (c ∷ clause) = byte_condition c || byte_clause clause

  unfoldable pub byte_groups : List OrClause → Bool
  byte_groups [] = true
  byte_groups (clause ∷ groups) = byte_clause clause && byte_groups groups
