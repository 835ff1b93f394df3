-- ===== src/Interval/Laws.antt =====
-- Membership in a `ByteInterval` of src/include/bit_lsm_query.h.
use bit_lsm.Base.{◌≡◌, refl, Bool, true, false, not, ◌&&◌, ◌||◌, [], ◌∷◌, Ordering, arith}
use bit_lsm.Bytes.{Bytes, compare_bytes, compare_bytes-flip, compare_bytes_triangle}
use bit_lsm.Query.{CompareOp, equal, less_equal, greater_equal, less, greater}
use bit_lsm.Interval.{ByteInterval, empty, intersect_lo, intersect_hi, intersect, from_op}

-- Below a bound, or at it where it is closed.
abbrev pub within : Bool → Ordering → Bool
within strict Ordering.lt = true
within strict Ordering.eq = not strict
within strict Ordering.gt = false

abbrev pub above_lo : ByteInterval → Bytes → Bool
above_lo w v = within w.lo_open (compare_bytes w.lo v)

abbrev pub below_hi : ByteInterval → Bytes → Bool
below_hi w v = w.hi_unbounded || within w.hi_open (compare_bytes v w.hi)

-- The byte strings that an interval stands for.
unfoldable pub contains : ByteInterval → Bytes → Bool
contains w v = above_lo w v && below_hi w v

-- What a comparison result `v <=> bytes` says of each operator.
abbrev pub op_holds : CompareOp → Ordering → Bool
op_holds equal Ordering.eq = true
op_holds less Ordering.lt = true
op_holds less_equal Ordering.lt = true
op_holds less_equal Ordering.eq = true
op_holds greater Ordering.gt = true
op_holds greater_equal Ordering.gt = true
op_holds greater_equal Ordering.eq = true
op_holds _ _ = false

nil-compare_bytes : (v : Bytes) → within false (compare_bytes [] v) ≡ true
unfolding compare_bytes
nil-compare_bytes [] = refl
nil-compare_bytes (x ∷ v) = refl

-- A byte string is in the interval that FromOp builds exactly when the operator holds between it and the
-- comparand.
pub contains-from_op :
    (op : CompareOp) (bytes v : Bytes)
    → contains (from_op op bytes) v ≡ op_holds op (compare_bytes v bytes)
unfolding contains from_op
contains-from_op equal bytes v = ground (arith, compare_bytes-flip v bytes)
contains-from_op greater bytes v = ground (arith, compare_bytes-flip v bytes)
contains-from_op greater_equal bytes v = ground (arith, compare_bytes-flip v bytes)
contains-from_op less bytes v = ground (arith, nil-compare_bytes v)
contains-from_op less_equal bytes v = ground (arith, nil-compare_bytes v)

above_lo-intersect :
    (w o : ByteInterval) (v : Bytes)
    → above_lo (intersect_lo w o) v ≡ (above_lo w v && above_lo o v)
unfolding intersect_lo
above_lo-intersect w o v = ground (
  arith,
  compare_bytes_triangle o.lo w.lo v,
  compare_bytes_triangle w.lo o.lo v,
  compare_bytes-flip o.lo w.lo,
)

below_hi-intersect :
    (w o : ByteInterval) (v : Bytes)
    → below_hi (intersect_hi w o) v ≡ (below_hi w v && below_hi o v)
unfolding intersect_hi
below_hi-intersect w o v = ground (
  arith,
  compare_bytes_triangle v o.hi w.hi,
  compare_bytes_triangle v w.hi o.hi,
  compare_bytes-flip o.hi w.hi,
)

hi-intersect_lo : (w o : ByteInterval) (v : Bytes) → below_hi (intersect_lo w o) v ≡ below_hi w v
unfolding intersect_lo
hi-intersect_lo w o v = ground arith

lo-intersect_hi : (w o : ByteInterval) (v : Bytes) → above_lo (intersect_hi w o) v ≡ above_lo w v
unfolding intersect_hi
lo-intersect_hi w o v = ground arith

-- Intersect gives the interval whose members are the members of both.
pub contains-intersect :
    (w o : ByteInterval) (v : Bytes) → contains (intersect w o) v ≡ (contains w v && contains o v)
unfolding contains intersect
contains-intersect w o v = ground (
  arith,
  above_lo-intersect w o v,
  lo-intersect_hi (intersect_lo w o) o v,
  below_hi-intersect (intersect_lo w o) o v,
  hi-intersect_lo w o v,
)

-- An interval that Empty reports has no member.
pub contains-empty : (w : ByteInterval) (v : Bytes) → empty w ≡ true → contains w v ≡ false
unfolding contains empty
contains-empty w v h = ground (arith, compare_bytes_triangle w.lo v w.hi)
