-- ===== src/Compiled.antt =====
-- `CompiledQuery` of src/include/bit_lsm_query.h and bit_lsm_query.cpp: a query resolved against a schema once, and
-- evaluated on the bytes of a row.
pub mod Extension
pub mod Resolved
pub mod Predicate
pub mod Evaluation
use bit_lsm.Base.{
  ℕ, zero, suc, ◌+◌, ◌-◌, ◌*◌, ◌%◌, Bool, true, false, Option, none, some, List, [], ◌∷◌, ◌++◌,
  length, get_elem?, get_or, take, drop, Ordering, ◌==◌, if◌then◌else◌,
}
use bit_lsm.Base.Int.{ℤ, pos}
use bit_lsm.Bytes.{Bytes, compare_bytes}
use bit_lsm.Memory.{of_le_bytes, read}
use bit_lsm.Scalar.{u32_mod, F64}
use bit_lsm.Schema.{AttrSpec, BitLsmOptions, PhysicalType, is_fixed, is_numeric, spec_at}
use bit_lsm.Row.{
  Attr, ValueLayout, value_layout, decode_fixed, is_marked_null, read32, sub32, ◌>>=◌,
}
use bit_lsm.Query.{
  CompareOp, equal, less, less_equal, greater, greater_equal, Comparand, QueryCondition, OrClause,
  BitLsmQuery, apply_compare_op, i64_comparison, u64_comparison, f64_comparison,
}

-- `null_bit` is none for the source's -1; of the comparands the one that matches `spec` is active.
pub record Pred : Type 0 where
  pub is_numeric : Bool
  pub op : CompareOp
  pub null_bit : Option ℕ
  pub slot : ℕ
  pub spec : AttrSpec
  pub ival : ℤ
  pub uval : ℕ
  pub dval : F64
  pub soff : ℕ
  pub slen : ℕ

pub record ClauseRange : Type 0 where
  pub begin : ℕ
  pub end : ℕ

pub record CompiledQuery : Type 0 where
  pub preds : List Pred
  pub clauses : List ClauseRange
  pub variable_base : ℕ
  pub null_bitmap_bytes : ℕ
  pub arena : Bytes

-- The predicate before its comparand is stored.
abbrev pub blank_pred : ValueLayout → QueryCondition → Pred
blank_pred layout cond = record {
  is_numeric = is_numeric (spec_at layout.specs cond.attr_idx);
  op = cond.op;
  null_bit = get_or layout.null_bit cond.attr_idx none;
  slot = get_or layout.slot cond.attr_idx 0;
  spec = spec_at layout.specs cond.attr_idx;
  ival = pos 0;
  uval = 0;
  dval = 0;
  soff = 0;
  slen = 0;
}

-- A string comparand goes to the end of the arena.
abbrev pub text_pred : Bytes → Pred → Comparand → Option (Pred × Bytes)
text_pred arena p (Comparand.text s) =
    some (record p { soff = length arena % u32_mod; slen = length s % u32_mod }, arena ++ s)
text_pred arena p _ = none

abbrev pub int_pred : Bytes → Pred → Comparand → Option (Pred × Bytes)
int_pred arena p (Comparand.int x) = some (record p { ival = x }, arena)
int_pred arena p _ = none

abbrev pub uint_pred : Bytes → Pred → Comparand → Option (Pred × Bytes)
uint_pred arena p (Comparand.uint x) = some (record p { uval = x }, arena)
uint_pred arena p _ = none

abbrev pub float_pred : Bytes → Pred → Comparand → Option (Pred × Bytes)
float_pred arena p (Comparand.float d) = some (record p { dval = d }, arena)
float_pred arena p _ = none

-- The switch on the physical type; a comparand of another alternative throws.
abbrev pub store_comparand : PhysicalType → Bytes → Pred → Comparand → Option (Pred × Bytes)
store_comparand PhysicalType.float arena p value = float_pred arena p value
store_comparand PhysicalType.int arena p value = int_pred arena p value
store_comparand PhysicalType.uint arena p value = uint_pred arena p value
store_comparand PhysicalType.binary arena p value = text_pred arena p value
store_comparand PhysicalType.var_binary arena p value = text_pred arena p value

unfoldable pub compile_pred : ValueLayout → Bytes → QueryCondition → Option (Pred × Bytes)
compile_pred layout arena cond =
    store_comparand (spec_at layout.specs cond.attr_idx).physical_type arena
      (blank_pred layout cond) cond.value

unfoldable pub compile_members : ValueLayout → OrClause → CompiledQuery → Option CompiledQuery
compile_members layout [] c = some c
compile_members layout (cond ∷ clause) c = do
  (p, arena) ← compile_pred layout c.arena cond
  compile_members layout clause (record c { preds = c.preds ++ p ∷ []; arena = arena })

abbrev pub close_clause : ℕ → CompiledQuery → CompiledQuery
close_clause begin c = record c {
  clauses = c.clauses ++ record { begin = begin; end = length c.preds % u32_mod } ∷ [];
}

unfoldable pub compile_clauses : ValueLayout → List OrClause → CompiledQuery → Option CompiledQuery
compile_clauses layout [] c = some c
compile_clauses layout (clause ∷ groups) c = do
  d ← compile_members layout clause c
  compile_clauses layout groups (close_clause (length c.preds % u32_mod) d)

-- The constructor.
unfoldable pub compile : BitLsmQuery → BitLsmOptions → Option CompiledQuery
compile query options =
    let layout : ValueLayout = value_layout options in
    compile_clauses layout query.clause_groups (record {
      preds = [];
      clauses = [];
      variable_base = layout.variable_base;
      null_bitmap_bytes = layout.null_bitmap_bytes;
      arena = [];
    })

-- `PassOp` on the sign of a comparison.
abbrev pub pass_op : CompareOp → Ordering → Bool
pass_op equal Ordering.eq = true
pass_op greater_equal Ordering.eq = true
pass_op greater_equal Ordering.gt = true
pass_op less_equal Ordering.eq = true
pass_op less_equal Ordering.lt = true
pass_op greater Ordering.gt = true
pass_op less Ordering.lt = true
pass_op _ _ = false

unfoldable pub pred_start : CompiledQuery → Bytes → ℕ → ℕ
pred_start c base zero = 0
pred_start c base (suc rank) = read32 base (c.null_bitmap_bytes + rank * 4)

-- The bytes of a binary attribute, in its slot or at its rank.
unfoldable pub pred_bytes : CompiledQuery → Bytes → Pred → Bytes
pred_bytes c base p =
    if is_fixed p.spec
    then read base p.slot p.spec.width
    else read base (c.variable_base + pred_start c base p.slot)
        (sub32 (read32 base (c.null_bitmap_bytes + p.slot * 4)) (pred_start c base p.slot))

abbrev pub float_passes : Pred → Attr → Option Bool
float_passes p (Attr.float v) = some (apply_compare_op f64_comparison p.op v p.dval)
float_passes p _ = none

abbrev pub int_passes : Pred → Attr → Option Bool
int_passes p (Attr.int v) = some (apply_compare_op i64_comparison p.op v p.ival)
int_passes p _ = none

abbrev pub uint_passes : Pred → Attr → Option Bool
uint_passes p (Attr.uint v) = some (apply_compare_op u64_comparison p.op v p.uval)
uint_passes p _ = none

-- A double of eight bytes is compared straight from the slot.
abbrev pub numeric_passes : PhysicalType → Pred → Bytes → Option Bool
numeric_passes PhysicalType.float p src =
    if p.spec.width == 8
    then some (apply_compare_op f64_comparison p.op (of_le_bytes (take 8 src)) p.dval)
    else float_passes p (decode_fixed src p.spec)
numeric_passes PhysicalType.int p src = int_passes p (decode_fixed src p.spec)
numeric_passes _ p src = uint_passes p (decode_fixed src p.spec)

-- One predicate; null is no match.
unfoldable pub eval_pred : CompiledQuery → Bytes → Pred → Option Bool
eval_pred c base p =
    if is_marked_null base p.null_bit
    then some false
    else if p.is_numeric
    then numeric_passes p.spec.physical_type p (drop p.slot base)
    else some (pass_op p.op (compare_bytes (pred_bytes c base p) (read c.arena p.soff p.slen)))

-- The inner loop over so many predicates from `i` on.
unfoldable pub eval_range : CompiledQuery → Bytes → ℕ → ℕ → Option Bool
eval_range c base i zero = some false
eval_range c base i (suc count) = do
  p ← get_elem? c.preds i
  ok ← eval_pred c base p
  if ok then some true else eval_range c base (i + 1) count

unfoldable pub eval_clauses : CompiledQuery → Bytes → List ClauseRange → Option Bool
eval_clauses c base [] = some true
eval_clauses c base (r ∷ clauses) = do
  clause_pass ← eval_range c base r.begin (r.end - r.begin)
  if clause_pass then eval_clauses c base clauses else some false

-- `Eval`.
unfoldable pub eval : CompiledQuery → Bytes → Option Bool
eval c base = eval_clauses c base c.clauses
