-- ===== src/SabiQuery/Soundness.antt =====
-- `EncodeQuery` of src/include/bit_lsm_query.cpp and the reference evaluation.
use bit_lsm.Base.{
  ℕ, ◌<◌, ◌≡◌, refl, sym, ◌∙◌, Bool, true, false, not, ◌&&◌, some, List, [], ◌∷◌, length, Ordering,
  compare, ltb, leb, arith,
}
use bit_lsm.Base.Int.{ℤ, ltb_ℤ, leb_ℤ, pos}
use bit_lsm.Bytes.{Bytes, compare_bytes}
use bit_lsm.Memory.Endian.{AllBytes}
use bit_lsm.Scalar.{u64_mod, u32_mod, IsI64, F64, f64_is_nan, f64_lt, f64_le, f64_rank}
use bit_lsm.Okey.{i64_to_okey, u64_to_okey, f64_to_okey}
use bit_lsm.Okey.Numbers.{i64_to_okey_mono, i64_to_okey-lt, f64_to_okey_mono, f64_to_okey-lt}
use bit_lsm.Okey.Order.{compare_bytes-okey_to_bytes}
use bit_lsm.Status.{ok}
use bit_lsm.Schema.{AttrSpec, BitLsmOptions, is_range, spec_at}
use bit_lsm.Row.{Attr, value_layout, decode_attr}
use bit_lsm.Row.Decoded.{InRange, AllValid, decode_attr-InRange}
use bit_lsm.Query.{
  CompareOp, equal, less, less_equal, greater, greater_equal, Comparand, QueryCondition, OrClause,
  BitLsmQuery, i64_comparison, u64_comparison, f64_comparison, apply_compare_op, sign,
  eval_condition, check_condition, validate, op_allowed,
}
use bit_lsm.Query.Validity.{Fits, AllFit, GroupsFit, validate_iff}
use bit_lsm.Query.Evaluation.{holds, Values, clause_holds, groups_hold, check_condition-holds}
use bit_lsm.Interval.Laws.{op_holds}
use bit_lsm.SabiQuery.{
  numeric_to_okey, comparand_to_okey, encoded_attr, comparand_bytes, encode_query, IndexType,
}
use bit_lsm.SabiQuery.Meaning.{
  EncodedRow, bytes_match, byte_condition, byte_clause, byte_groups, sabi_matches,
}
use bit_lsm.SabiQuery.Clauses.{OpAllowed, OpsAllowed, AllOpsAllowed}
use bit_lsm.SabiQuery.Equivalence.{encode_query-matches}

-- The ranges of the comparand's C++ types.
abbrev pub ComparandInRange : Comparand → Type 0
ComparandInRange (Comparand.int x) = IsI64 x
ComparandInRange (Comparand.uint x) = x < u64_mod
ComparandInRange (Comparand.float d) = d < u64_mod
ComparandInRange (Comparand.text s) = Unit {0}

abbrev pub ClauseInRange : OrClause → Type 0
ClauseInRange [] = Unit {0}
ClauseInRange (c ∷ clause) = ComparandInRange c.value × ClauseInRange clause

abbrev pub GroupsInRange : List OrClause → Type 0
GroupsInRange [] = Unit {0}
GroupsInRange (clause ∷ groups) = ClauseInRange clause × GroupsInRange groups

&&-left : (a b : Bool) → (a && b) ≡ true → a ≡ true
&&-left a b h = ground arith

&&-right : (a b : Bool) → (a && b) ≡ true → b ≡ true
&&-right a b h = ground arith

not-true→false : (a : Bool) → not a ≡ true → a ≡ false
not-true→false a h = ground arith

not-lt→le : (a b : ℕ) → ltb b a ≡ false → leb a b ≡ true
not-lt→le a b h = ground arith

equality-op :
    (t : IndexType) (op : CompareOp) → is_range t ≡ false → op_allowed t op ≡ true → op ≡ equal
equality-op t op h k = ground arith

u64_to_okey-lt : (x : ℕ) → x < u64_mod → u64_to_okey x < u64_mod
unfolding u64_to_okey
u64_to_okey-lt x h = h

text-op_holds :
    (op : CompareOp) (o : Ordering)
    → apply_compare_op i64_comparison op (sign o) (pos 0) ≡ op_holds op o
text-op_holds op o = ground arith

-- An operator holds of two integers exactly when it holds of their keys' bytes.
int-op_holds :
    (op : CompareOp) (x y : ℤ)
    → IsI64 x
    → IsI64 y
    → op_holds op (compare (i64_to_okey x) (i64_to_okey y)) ≡ apply_compare_op i64_comparison op x y
int-op_holds op x y h k = ground (arith, i64_to_okey_mono x y h k, i64_to_okey_mono y x k h)

uint-op_holds :
    (op : CompareOp) (x y : ℕ)
    → op_holds op (compare (u64_to_okey x) (u64_to_okey y)) ≡ apply_compare_op u64_comparison op x y
unfolding u64_to_okey
uint-op_holds op x y = ground arith

ordered-operands :
    (op : CompareOp) (x y : F64)
    → apply_compare_op f64_comparison op x y ≡ true
    → (f64_is_nan x ≡ false) × (f64_is_nan y ≡ false)
ordered-operands equal x y e = (
  not-true→false _ (&&-left _ _ (&&-left _ _ e)),
  not-true→false _ (&&-right _ _ (&&-left _ _ e)),
)
ordered-operands less x y e = (
  not-true→false _ (&&-left _ _ (&&-left _ _ e)),
  not-true→false _ (&&-right _ _ (&&-left _ _ e)),
)
ordered-operands less_equal x y e = (
  not-true→false _ (&&-left _ _ (&&-left _ _ e)),
  not-true→false _ (&&-right _ _ (&&-left _ _ e)),
)
ordered-operands greater x y e = (
  not-true→false _ (&&-right _ _ (&&-left _ _ e)),
  not-true→false _ (&&-left _ _ (&&-left _ _ e)),
)
ordered-operands greater_equal x y e = (
  not-true→false _ (&&-right _ _ (&&-left _ _ e)),
  not-true→false _ (&&-left _ _ (&&-left _ _ e)),
)

le-ranks : (a b : ℤ) → leb_ℤ a b ≡ true → ltb_ℤ b a ≡ false
le-ranks a b h = ground arith

le-holds :
    (x y : F64)
    → x < u64_mod
    → y < u64_mod
    → f64_is_nan x ≡ false
    → f64_is_nan y ≡ false
    → f64_le x y ≡ true
    → leb (f64_to_okey x) (f64_to_okey y) ≡ true
le-holds x y h k nx ny t =
    let above = f64_to_okey_mono y x k h ny nx in
    let no_lt : f64_lt y x ≡ false =
      rw (ny, nx) (le-ranks (f64_rank x) (f64_rank y) (&&-right _ _ t)) in
    let no_key : ltb (f64_to_okey y) (f64_to_okey x) ≡ false = above.0 ∙ no_lt in
    not-lt→le (f64_to_okey x) (f64_to_okey y) no_key

-- Of two doubles, if it holds of them: a NaN compares with nothing, but has a key.
float-op_holds :
    (op : CompareOp) (x y : F64)
    → x < u64_mod
    → y < u64_mod
    → apply_compare_op f64_comparison op x y ≡ true
    → op_holds op (compare (f64_to_okey x) (f64_to_okey y)) ≡ true
float-op_holds op x y h k e =
    let (nx, ny) = ordered-operands op x y e in
    let below = f64_to_okey_mono x y h k nx ny in
    let above = f64_to_okey_mono y x k h ny nx in
    elim op
        as (λ o.
          apply_compare_op f64_comparison o x y ≡ true
          → op_holds o (compare (f64_to_okey x) (f64_to_okey y)) ≡ true) [
            | equal ↦ λ t. ground (arith, below.0, below.1)
            | less ↦ λ t. ground (arith, below.0, below.1)
            | less_equal ↦ λ t. le-holds x y h k nx ny t
            | greater ↦ λ t. ground (arith, above.0, below.0)
            | greater_equal ↦ λ t. ground (arith, le-holds y x k h ny nx t)
          ]
      e

value_sound :
    (idx : ℕ) (op : CompareOp) (w : Comparand) (v : Attr)
    → InRange v
    → ComparandInRange w
    → holds (record { attr_idx = idx; op = op; value = w }) v ≡ true
    → bytes_match (record { attr_idx = idx; op = op; value = w }) (encoded_attr v) ≡ true
unfolding holds eval_condition encoded_attr numeric_to_okey comparand_to_okey comparand_bytes
value_sound idx op (Comparand.int y) (Attr.int x) h k e =
    rw
      (compare_bytes-okey_to_bytes (i64_to_okey x) (i64_to_okey y) (i64_to_okey-lt x h)
        (i64_to_okey-lt y k))
      (int-op_holds op x y h k ∙ e)
value_sound idx op (Comparand.uint y) (Attr.uint x) h k e =
    rw
      (compare_bytes-okey_to_bytes (u64_to_okey x) (u64_to_okey y) (u64_to_okey-lt x h)
        (u64_to_okey-lt y k))
      (uint-op_holds op x y ∙ e)
value_sound idx op (Comparand.float y) (Attr.float x) h k e =
    rw
      (compare_bytes-okey_to_bytes (f64_to_okey x) (f64_to_okey y) (f64_to_okey-lt x h)
        (f64_to_okey-lt y k))
      (float-op_holds op x y h k e)
value_sound idx op (Comparand.text y) (Attr.text x) h k e =
    sym (text-op_holds op (compare_bytes x y)) ∙ e
value_sound idx op w v h k e = cc

-- A condition that holds of a value holds of its bytes.
condition_sound :
    (c : QueryCondition) (v : Attr)
    → InRange v
    → ComparandInRange c.value
    → holds c v ≡ true
    → bytes_match c (encoded_attr v) ≡ true
condition_sound c v = value_sound c.attr_idx c.op c.value v

module _ (row : Values) (in_range : (i : ℕ) → InRange (row i)) where
  abbrev encoded_row : EncodedRow
  encoded_row i = encoded_attr (row i)

  clause_sound :
      (clause : OrClause)
      → ClauseInRange clause
      → clause_holds row clause ≡ true
      → byte_clause encoded_row clause ≡ true
  unfolding clause_holds byte_clause byte_condition
  clause_sound [] k e = cc
  clause_sound (c ∷ clause) k e =
      ground (
        arith,
        condition_sound c (row c.attr_idx) (in_range c.attr_idx) k.0,
        clause_sound clause k.1,
      )

  groups_sound :
      (groups : List OrClause)
      → GroupsInRange groups
      → groups_hold row groups ≡ true
      → byte_groups encoded_row groups ≡ true
  unfolding groups_hold byte_groups
  groups_sound [] k e = refl
  groups_sound (clause ∷ groups) k e =
      ground (arith, clause_sound clause k.0, groups_sound groups k.1)

Fits-op : (specs : List AttrSpec) (c : QueryCondition) → Fits specs c → OpAllowed specs c
Fits-op specs c f h = equality-op (spec_at specs c.attr_idx).index_type c.op h f.op_fits

clause-ops :
    (specs : List AttrSpec) (clause : OrClause) → AllFit specs clause → OpsAllowed specs clause
clause-ops specs [] f = tt
clause-ops specs (c ∷ clause) f = (Fits-op specs c f.0, clause-ops specs clause f.1)

groups-ops :
    (specs : List AttrSpec) (groups : List OrClause)
    → GroupsFit specs groups
    → AllOpsAllowed specs groups
groups-ops specs [] f = tt
groups-ops specs ([] ∷ groups) f = absurd f
groups-ops specs ((c ∷ clause) ∷ groups) f =
    (clause-ops specs (c ∷ clause) f.0, groups-ops specs groups f.1)

-- On a valid query over an accepted schema and a row of bytes, whatever row the reference evaluation accepts,
-- the encoded query accepts of the row's encoded attributes; in particular it is not marked unsat.
pub encode_query_sound :
    (q : BitLsmQuery) (o : BitLsmOptions) (base : Bytes)
    → length o.attr_specs < u32_mod
    → AllValid o.attr_specs
    → AllBytes base
    → GroupsInRange q.clause_groups
    → validate q o ≡ ok
    → check_condition q base (value_layout o) ≡ some true
    → sabi_matches o.attr_specs
        (λ i. encoded_attr (decode_attr (value_layout o) base i))
        (encode_query q o)
      ≡ true
encode_query_sound q o base small specs bytes k v e =
    let row : Values = λ i. decode_attr (value_layout o) base i in
    let accepted : groups_hold row q.clause_groups ≡ true =
      cc (check_condition-holds q o base small v) in
    encode_query-matches q o (λ i. encoded_attr (row i))
      (groups-ops o.attr_specs q.clause_groups ((validate_iff q o).0 v))
    ∙ groups_sound row (λ i. decode_attr-InRange o base i bytes specs) q.clause_groups k accepted
