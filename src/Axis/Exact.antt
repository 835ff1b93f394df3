-- ===== src/Axis/Exact.antt =====
-- `ByteAxis` of src/include/bit_lsm_estimator.cpp: its windows do not overflow, and its coordinates end.
use native.Mathlib.Nat.{mul-le-mul_right, le_refl, le_trans}
use bit_lsm.Base.{
  ℕ, zero, suc, ◌+◌, ◌*◌, ◌%◌, ◌≤◌, ◌<◌, ◌≡◌, refl, inl, inr, Bool-cases, Option, none, some,
  length, get_elem?, leb, arith, Ordering,
}
use bit_lsm.Bytes.{Bytes}
use bit_lsm.Scalar.{u64_mod}
use bit_lsm.Axis.{
  ByteAxis, digit, window_from, window, count_digits, radix_of, fit, axis_end, rel_by, rel,
}

-- `p` times `radix` to the `n`.
unfoldable pub scaled : ℕ → ℕ → ℕ → ℕ
scaled radix p zero = p
scaled radix p (suc n) = scaled radix (p * radix) n

-- The number that n digits from `pos` on write after `acc`, of any size.
unfoldable pub numeral_from : ByteAxis → Bytes → ℕ → ℕ → ℕ → ℕ
numeral_from axis s pos zero acc = acc
numeral_from axis s pos (suc n) acc =
    numeral_from axis s (suc pos) n
      (acc * axis.radix + digit axis.lo_char axis.radix (get_elem? s pos))

scaled_grows : (radix n p : ℕ) → 2 ≤ radix → p ≤ scaled radix p n
unfolding scaled
scaled_grows radix zero p two = le_refl p
scaled_grows radix (suc n) p two =
    let here : p ≤ p * radix = omega (arith, mul-le-mul_right p two) in
    le_trans here (scaled_grows radix n (p * radix) two)

scaled-count_digits :
    (radix fuel p : ℕ) → p ≤ u64_mod → scaled radix p (count_digits radix p fuel) ≤ u64_mod
unfolding scaled count_digits
scaled-count_digits radix zero p fits = fits
scaled-count_digits radix (suc fuel) p fits = elim (Bool-cases (leb (p * radix) u64_mod)) [
  | inl more ↦ rw more (scaled-count_digits radix fuel (p * radix) (ground (arith, more)))
  | inr enough ↦ rw enough fits
]

digit_below : (lo_char radix : ℕ) (c : Option ℕ) → 2 ≤ radix → digit lo_char radix c < radix
digit_below lo_char radix none two = omega (arith, two)
digit_below lo_char radix (some c) two = ground (arith, two)

shifted_below : (acc p radix d : ℕ) → acc < p → d < radix → acc * radix + d < p * radix
shifted_below acc p radix d below small =
    let product = mul-le-mul_right radix below in omega (arith, product, small)

window_from-exact :
    (axis : ByteAxis) (s : Bytes) (n pos acc p : ℕ)
    → 2 ≤ axis.radix
    → acc < p
    → scaled axis.radix p n ≤ u64_mod
    → (window_from axis s pos n acc ≡ numeral_from axis s pos n acc)
      × (numeral_from axis s pos n acc < scaled axis.radix p n)
unfolding window_from numeral_from scaled
window_from-exact axis s zero pos acc p two below fits = (refl, below)
window_from-exact axis s (suc n) pos acc p two below fits =
    let d : ℕ = digit axis.lo_char axis.radix (get_elem? s pos) in
    let next = shifted_below acc p axis.radix d below (digit_below axis.lo_char axis.radix _ two) in
    let grows = scaled_grows axis.radix n (p * axis.radix) two in
    let exact : (acc * axis.radix + d) % u64_mod ≡ acc * axis.radix + d =
      omega (arith, next, grows, fits) in
    rw exact
      (window_from-exact axis s n (suc pos) (acc * axis.radix + d) (p * axis.radix) two next fits)

scaled_mono : (radix n p q : ℕ) → p ≤ q → scaled radix p n ≤ scaled radix q n
unfolding scaled
scaled_mono radix zero p q le = le
scaled_mono radix (suc n) p q le =
    scaled_mono radix n (p * radix) (q * radix) (mul-le-mul_right radix le)

-- With fuel for radix 2 the count is the largest that fits.
count_digits-largest :
    (radix fuel p : ℕ)
    → 2 ≤ radix
    → p ≤ u64_mod
    → u64_mod < scaled 2 p fuel
    → u64_mod < scaled radix p (suc (count_digits radix p fuel))
unfolding scaled count_digits
count_digits-largest radix zero p two fits enough = absurd (omega (arith, fits, enough))
count_digits-largest radix (suc fuel) p two fits enough =
    elim (Bool-cases (leb (p * radix) u64_mod)) [
      | inl more ↦
          let wider : p * 2 ≤ p * radix = omega (arith, mul-le-mul_right p two) in
          rw more (
            count_digits-largest radix fuel (p * radix) two (ground (arith, more))
              (le_trans enough (scaled_mono 2 fuel (p * 2) (p * radix) wider)))
      | inr over ↦ rw over (ground (arith, over))
    ]

rel_by-ends :
    (axis : ByteAxis) (w : ℕ) (o : Ordering) → axis.span < u64_mod → rel_by axis w o ≤ axis_end axis
rel_by-ends axis w Ordering.lt narrow = ground arith
rel_by-ends axis w Ordering.gt narrow = le_refl (axis_end axis)
rel_by-ends axis w Ordering.eq narrow = ground (arith, narrow)

radix_of-two : (lo_char hi_char : ℕ) → 2 ≤ radix_of lo_char hi_char
radix_of-two lo_char hi_char = ground arith

two_to_65 : u64_mod < scaled 2 1 65
unfolding scaled
two_to_65 = omega arith

-- What an axis is to be, by the digits of a string.
pub record Exact (axis : ByteAxis) (s : Bytes) : Type 0 where
  pub fits : scaled axis.radix 1 axis.digits ≤ u64_mod
  pub largest : u64_mod < scaled axis.radix 1 (suc axis.digits)
  pub window_exact : window axis s ≡ numeral_from axis s (length axis.prefix) axis.digits 0
  pub rel_ends : rel axis s ≤ axis_end axis

-- The axis that Fit builds has the most digits whose numerals fit into 64 bits; the window of any string is then
-- the exact number that its clamped characters write, which wraps around nowhere, and no coordinate lies past
-- End.
pub fit-Exact :
    (min max : Bytes) (lo_char hi_char shortest : ℕ) (s : Bytes)
    → Exact (fit min max lo_char hi_char shortest) s
unfolding fit window rel
fit-Exact min max lo_char hi_char shortest s =
    let axis : ByteAxis = fit min max lo_char hi_char shortest in
    let radix : ℕ = radix_of lo_char hi_char in
    let two = radix_of-two lo_char hi_char in
    let fits = scaled-count_digits radix 65 1 (omega arith) in
    let largest = count_digits-largest radix 65 1 two (omega arith) two_to_65 in
    let exact =
      window_from-exact axis s axis.digits (length axis.prefix) 0 1 two (omega arith) fits in
    record {
      fits = fits;
      largest = largest;
      window_exact = exact.0;
      rel_ends = rel_by-ends axis _ _ (omega arith);
    }
