-- ===== src/Scalar.antt =====
-- The scalar types of the C++ program: `int64_t` as an integer with its casts, and `double` as its
-- IEEE-754 bit pattern with the comparisons of the language.
use Prim.Native.Nat.{zero, suc, min}
use bit_lsm.Base.{
  ◌+◌, ◌*◌, ◌/◌, ◌^◌, ◌||◌, ℕ, ◌-◌, ◌%◌, ◌<◌, Bool, not, ◌&&◌, ltb, ◌==◌, if◌then◌else◌,
}
use bit_lsm.Base.Int.{ℤ, pos, negsuc, ltb_ℤ, leb_ℤ, eqb_ℤ}

abbrev pub u64_mod : ℕ
u64_mod = 0x1_0000_0000_0000_0000

abbrev pub u32_mod : ℕ
u32_mod = 0x1_0000_0000

-- The range of `int64_t`.
abbrev pub IsI64 : ℤ → Type 0
IsI64 (pos n) = n < 0x8000_0000_0000_0000
IsI64 (negsuc n) = n < 0x8000_0000_0000_0000

-- `static_cast<uint64_t>(x)` of an `int64_t`: two's complement.
abbrev pub u64_of_i64 : ℤ → ℕ
u64_of_i64 (pos n) = n
u64_of_i64 (negsuc n) = u64_mod - 1 - n

-- `static_cast<int64_t>(u)`.
abbrev pub i64_of_u64 : ℕ → ℤ
i64_of_u64 u = if ltb u 0x8000_0000_0000_0000 then pos u else negsuc (u64_mod - 1 - u)

-- A `double`, by its 64 bits: sign, 11 bits of exponent, 52 of fraction.
abbrev pub F64 : Type 0
F64 = ℕ

abbrev pub f64_magnitude : F64 → ℕ
f64_magnitude d = d % 0x8000_0000_0000_0000

-- All exponent bits set and a fraction that is not zero.
abbrev pub f64_is_nan : F64 → Bool
f64_is_nan d = ltb 0x7ff0_0000_0000_0000 (f64_magnitude d)

-- The order of IEEE-754 on what is no NaN is that of sign and magnitude; the two zeros are equal.
abbrev pub f64_rank : F64 → ℤ
f64_rank d =
    if ltb d 0x8000_0000_0000_0000
    then pos d
    else if d == 0x8000_0000_0000_0000
    then pos 0
    else negsuc (f64_magnitude d - 1)

abbrev pub f64_ordered : F64 → F64 → Bool
f64_ordered a b = not (f64_is_nan a) && not (f64_is_nan b)

-- `==`, `<` and `<=` of `double`: false when an operand is a NaN.
abbrev pub f64_eq : F64 → F64 → Bool
f64_eq a b = f64_ordered a b && eqb_ℤ (f64_rank a) (f64_rank b)

abbrev pub f64_lt : F64 → F64 → Bool
f64_lt a b = f64_ordered a b && ltb_ℤ (f64_rank a) (f64_rank b)

abbrev pub f64_le : F64 → F64 → Bool
f64_le a b = f64_ordered a b && leb_ℤ (f64_rank a) (f64_rank b)

-- m / 2 ^ k, rounded to nearest, ties to even.
abbrev round_even : ℕ → ℕ → ℕ
round_even m k =
    let q : ℕ = m / 2 ^ k in
    let r : ℕ = m % 2 ^ k in
    if ltb (2 ^ (k - 1)) r || (r == 2 ^ (k - 1) && q % 2 == 1) then q + 1 else q

abbrev f32_infinity : ℕ
f32_infinity = 0x7f80_0000

-- The magnitude bits of a `float`, from exponent and fraction of a `double`.
unfoldable pub f32_magnitude : ℕ → ℕ → ℕ
f32_magnitude exponent fraction =
    if exponent == 2047
    then (if fraction == 0 then f32_infinity else 0x7fc0_0000 + fraction / 2 ^ 29 % 2 ^ 22)
    else if exponent == 0
    then 0
    else if ltb exponent 897
    then round_even (2 ^ 52 + fraction) (29 + (897 - exponent))
    else min f32_infinity ((exponent - 897) * 2 ^ 23 + round_even (2 ^ 52 + fraction) 29)

-- `static_cast<float>(d)`, as the 32 bits of the result.
unfoldable pub f32_of_f64 : F64 → ℕ
f32_of_f64 d = d / 2 ^ 63 * 2 ^ 31 + f32_magnitude (f64_magnitude d / 2 ^ 52) (d % 2 ^ 52)

-- A subnormal `float` is shifted up until its leading bit is the 24th.
unfoldable pub normalize : ℕ → ℕ → ℕ → ℕ
normalize zero exponent fraction = exponent * 2 ^ 52 + (fraction - 2 ^ 23) * 2 ^ 29
normalize (suc fuel) exponent fraction =
    let rest = normalize fuel (exponent - 1) (fraction * 2) in
    if ltb fraction (2 ^ 23) then rest else exponent * 2 ^ 52 + (fraction - 2 ^ 23) * 2 ^ 29

-- The magnitude bits of a `double`, from exponent and fraction of a `float`: always exact.
unfoldable pub f64_widened : ℕ → ℕ → ℕ
f64_widened exponent fraction =
    if exponent == 255
    then 2047 * 2 ^ 52 + fraction * 2 ^ 29
    else if exponent == 0
    then (if fraction == 0 then 0 else normalize 23 897 fraction)
    else (exponent + 896) * 2 ^ 52 + fraction * 2 ^ 29

-- `static_cast<double>(f)` of the `float` with bits `f`.
unfoldable pub f64_of_f32 : ℕ → F64
f64_of_f32 f = f / 2 ^ 31 * 2 ^ 63 + f64_widened (f / 2 ^ 23 % 256) (f % 2 ^ 23)
