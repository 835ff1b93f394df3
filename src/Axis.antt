-- ===== src/Axis.antt =====
-- The coordinate axis of a range attribute: `ByteAxis` of src/include/bit_lsm_estimator.h and bit_lsm_estimator.cpp. The
-- sums of 64 bits wrap around.
pub mod Exact
use bit_lsm.Base.{
  ℕ, zero, suc, ◌+◌, ◌-◌, ◌*◌, ◌%◌, Ordering, Option, none, some, List, [], ◌∷◌, length, get_elem?,
  take, ltb, leb, ◌==◌, if◌then◌else◌,
}
use bit_lsm.Bytes.{Bytes, compare_bytes}
use bit_lsm.Scalar.{u64_mod, u32_mod}

pub record ByteAxis : Type 0 where
  pub prefix : Bytes
  pub lo_char : ℕ
  pub radix : ℕ
  pub digits : ℕ
  pub base : ℕ
  pub span : ℕ
  pub unit : ℕ

abbrev pub sat_add : ℕ → ℕ → ℕ
sat_add a b = if ltb (u64_mod - 1 - b) a then u64_mod - 1 else a + b

unfoldable pub common_prefix_length : Bytes → Bytes → ℕ
common_prefix_length [] b = 0
common_prefix_length (x ∷ a) [] = 0
common_prefix_length (x ∷ a) (y ∷ b) =
    let rest = common_prefix_length a b in if x == y then suc rest else 0

-- The loop that counts digits, on fuel; `p` does not wrap around in 128 bits.
unfoldable pub count_digits : ℕ → ℕ → ℕ → ℕ
count_digits radix p zero = 0
count_digits radix p (suc fuel) =
    let rest = count_digits radix (p * radix) fuel in
    if leb (p * radix) u64_mod then suc rest else 0

abbrev pub clamp : ℕ → ℕ → ℕ → ℕ
clamp lo_char radix c =
    if leb c lo_char then 0 else if ltb (c - lo_char) (radix - 1) then c - lo_char else radix - 1

abbrev pub digit : ℕ → ℕ → Option ℕ → ℕ
digit lo_char radix none = 0
digit lo_char radix (some c) = clamp lo_char radix c

-- The loop over the digits from `pos` on.
unfoldable pub window_from : ByteAxis → Bytes → ℕ → ℕ → ℕ → ℕ
window_from axis s pos zero acc = acc
window_from axis s pos (suc n) acc =
    window_from axis s (suc pos) n
      ((acc * axis.radix + digit axis.lo_char axis.radix (get_elem? s pos)) % u64_mod)

unfoldable pub window : ByteAxis → Bytes → ℕ
window axis s = window_from axis s (length axis.prefix) axis.digits 0

abbrev pub radix_of : ℕ → ℕ → ℕ
radix_of lo_char hi_char =
    let width = (hi_char + u32_mod - lo_char + 1) % u32_mod in if ltb width 2 then 2 else width

unfoldable pub multiply : ℕ → ℕ → ℕ → ℕ
multiply radix zero unit = unit
multiply radix (suc n) unit = multiply radix n ((unit * radix) % u64_mod)

-- The digits past the last real one of the shortest boundary.
abbrev pub padding : ℕ → ℕ → ℕ → ℕ
padding k digits shortest =
    let pad = if ltb shortest (k + digits) then k + digits - shortest else 0 in
    if ltb pad (digits - 1) then pad else digits - 1

-- The axis before its bounds are placed. A radix of 2 has 64 digits, and a larger one fewer.
abbrev pub empty_axis : Bytes → ℕ → ℕ → ByteAxis
empty_axis prefix lo_char radix = record {
  prefix = prefix;
  lo_char = lo_char;
  radix = radix;
  digits = count_digits radix 1 65;
  base = 0;
  span = 0;
  unit = 1;
}

unfoldable pub fit : Bytes → Bytes → ℕ → ℕ → ℕ → ByteAxis
fit min max lo_char hi_char shortest =
    let k = common_prefix_length min max in
    let axis = empty_axis (take k min) lo_char (radix_of lo_char hi_char) in
    record axis {
      base = window axis min;
      span = (window axis max + u64_mod - window axis min) % u64_mod;
      unit = multiply axis.radix (padding k axis.digits shortest) 1;
    }

abbrev pub axis_end : ByteAxis → ℕ
axis_end axis = sat_add axis.span axis.unit

-- By the order of the start of the string and the prefix, then by the string's window.
abbrev pub rel_window : ByteAxis → ℕ → ℕ
rel_window axis w =
    if ltb w axis.base
    then 0
    else if ltb axis.span (w - axis.base)
    then axis_end axis
    else w - axis.base

abbrev pub rel_by : ByteAxis → ℕ → Ordering → ℕ
rel_by axis w Ordering.lt = 0
rel_by axis w Ordering.gt = axis_end axis
rel_by axis w Ordering.eq = rel_window axis w

unfoldable pub rel : ByteAxis → Bytes → ℕ
rel axis s = rel_by axis (window axis s) (compare_bytes (take (length axis.prefix) s) axis.prefix)
