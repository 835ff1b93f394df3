-- ===== src/Interval.antt =====
-- `ByteInterval` of src/include/bit_lsm_query.h: intervals of byte strings in memcmp order.
pub mod Laws
use bit_lsm.Base.{Bool, true, false, ◌&&◌, ◌||◌, [], Ordering, if◌then◌else◌}
use bit_lsm.Bytes.{Bytes, compare_bytes}
use bit_lsm.Query.{CompareOp, equal, less_equal, greater_equal, less, greater}

pub record ByteInterval : Type 0 where
  pub lo : Bytes
  pub lo_open : Bool
  pub hi : Bytes
  pub hi_open : Bool
  pub hi_unbounded : Bool

-- The default: unbounded on both sides, since "" is the least string.
abbrev pub everything : ByteInterval
everything = record { lo = []; lo_open = false; hi = []; hi_open = false; hi_unbounded = true }

unfoldable pub empty : ByteInterval → Bool
empty w = if w.hi_unbounded then false else elim (compare_bytes w.lo w.hi) [
  | Ordering.lt ↦ false
  | Ordering.eq ↦ w.lo_open || w.hi_open
  | Ordering.gt ↦ true
]

unfoldable pub intersect_lo : ByteInterval → ByteInterval → ByteInterval
intersect_lo w o = elim (compare_bytes o.lo w.lo) [
  | Ordering.lt ↦ w
  | Ordering.eq ↦ record w { lo_open = w.lo_open || o.lo_open }
  | Ordering.gt ↦ record w { lo = o.lo; lo_open = o.lo_open }
]

unfoldable pub intersect_hi : ByteInterval → ByteInterval → ByteInterval
intersect_hi w o =
    if o.hi_unbounded
    then w
    else if w.hi_unbounded
    then record w { hi = o.hi; hi_open = o.hi_open; hi_unbounded = false }
    else elim (compare_bytes o.hi w.hi) [
      | Ordering.lt ↦ record w { hi = o.hi; hi_open = o.hi_open }
      | Ordering.eq ↦ record w { hi_open = w.hi_open || o.hi_open }
      | Ordering.gt ↦ w
    ]

unfoldable pub intersect : ByteInterval → ByteInterval → ByteInterval
intersect w o = intersect_hi (intersect_lo w o) o

unfoldable pub from_op : CompareOp → Bytes → ByteInterval
from_op equal bytes = record everything { lo = bytes; hi = bytes; hi_unbounded = false }
from_op greater_equal bytes = record everything { lo = bytes }
from_op greater bytes = record everything { lo = bytes; lo_open = true }
from_op less_equal bytes = record everything { hi = bytes; hi_unbounded = false }
from_op less bytes = record everything { hi = bytes; hi_open = true; hi_unbounded = false }
