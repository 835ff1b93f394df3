-- ===== src/Okey/Numbers.antt =====
-- The order of the keys of src/include/bit_lsm_encoding.h, and their inverses.
use Prim.Native.Nat.{bit_and, bit_xor}
use bit_lsm.Base.{ℕ, ◌+◌, ◌-◌, ◌%◌, ◌<◌, ◌≡◌, false, ltb, ◌==◌, if◌then◌else◌, arith}
use bit_lsm.Base.Bits.{bit_xor_top, bit_and_top}
use bit_lsm.Base.Int.{ℤ, ltb_ℤ}
use bit_lsm.Scalar.{u64_mod, u64_of_i64, IsI64, F64, f64_eq, f64_lt, f64_is_nan}
use bit_lsm.Okey.{i64_to_okey, f64_to_okey, okey_to_i64, okey_to_f64}

flip_sign :
    (u : ℕ) → u < u64_mod → bit_xor u 0x8000_0000_0000_0000 ≡ (u + 0x8000_0000_0000_0000) % u64_mod
flip_sign u h = ground (arith, bit_xor_top 63 u h)

sign_test :
    (u : ℕ) → u < u64_mod → (bit_and u 0x8000_0000_0000_0000 == 0) ≡ ltb u 0x8000_0000_0000_0000
sign_test u h = ground (arith, bit_and_top 63 u h)

u64_of_i64-lt : (x : ℤ) → IsI64 x → u64_of_i64 x < u64_mod
u64_of_i64-lt x h = ground arith

pub i64_to_okey-lt : (x : ℤ) → IsI64 x → i64_to_okey x < u64_mod
unfolding i64_to_okey
i64_to_okey-lt x h = ground (arith, flip_sign (u64_of_i64 x) (u64_of_i64-lt x h))

-- The order of the keys of two int64 values is the order of the values.
pub i64_to_okey_mono :
    (x y : ℤ) → IsI64 x → IsI64 y → ltb (i64_to_okey x) (i64_to_okey y) ≡ ltb_ℤ x y
unfolding i64_to_okey
i64_to_okey_mono x y h k = ground (
  arith,
  flip_sign (u64_of_i64 x) (u64_of_i64-lt x h),
  flip_sign (u64_of_i64 y) (u64_of_i64-lt y k),
)

-- OkeyToI64 undoes I64ToOkey on every int64.
pub okey_to_i64-i64_to_okey : (x : ℤ) → IsI64 x → okey_to_i64 (i64_to_okey x) ≡ x
unfolding i64_to_okey okey_to_i64
okey_to_i64-i64_to_okey x h = ground (
  arith,
  flip_sign (u64_of_i64 x) (u64_of_i64-lt x h),
  flip_sign (i64_to_okey x) (i64_to_okey-lt x h),
)

-- The key without bit operations.
f64_to_okey_value :
    (d : F64)
    → d < u64_mod
    → f64_to_okey d ≡ (
        if ltb d 0x8000_0000_0000_0000
        then d + 0x8000_0000_0000_0000
        else if d == 0x8000_0000_0000_0000
        then 0x8000_0000_0000_0000
        else u64_mod - 1 - d)
unfolding f64_to_okey
f64_to_okey_value d h = ground (arith, flip_sign d h, sign_test d h)

pub f64_to_okey-lt : (d : F64) → d < u64_mod → f64_to_okey d < u64_mod
f64_to_okey-lt d h = ground (arith, f64_to_okey_value d h)

-- On doubles that are not NaN the order of the keys is the order of the doubles, and two keys are equal exactly
-- when the doubles compare equal.
pub f64_to_okey_mono :
    (a b : F64)
    → a < u64_mod
    → b < u64_mod
    → f64_is_nan a ≡ false
    → f64_is_nan b ≡ false
    → (ltb (f64_to_okey a) (f64_to_okey b) ≡ f64_lt a b)
      × ((f64_to_okey a == f64_to_okey b) ≡ f64_eq a b)
f64_to_okey_mono a b h k p q = ground (arith, f64_to_okey_value a h, f64_to_okey_value b k)

-- OkeyToF64 undoes F64ToOkey on every bit pattern of a double but -0.0, which comes back as 0.0.
pub okey_to_f64-f64_to_okey :
    (d : F64)
    → d < u64_mod
    → okey_to_f64 (f64_to_okey d) ≡ (if d == 0x8000_0000_0000_0000 then 0 else d)
unfolding okey_to_f64
okey_to_f64-f64_to_okey d h = ground (
  arith,
  f64_to_okey_value d h,
  flip_sign (f64_to_okey d) (f64_to_okey-lt d h),
  sign_test (f64_to_okey d) (f64_to_okey-lt d h),
)
