-- ===== src/Okey.antt =====
-- src/include/bit_lsm_encoding.h: the order-preserving unsigned 64-bit keys of numeric attributes, and
-- their bytes in the domain that the index compares by memcmp.
pub mod Numbers
pub mod Order
use Prim.Native.Nat.{bit_and, bit_xor}
use bit_lsm.Base.{ℕ, ◌-◌, Bool, true, false, not, ◌==◌, if◌then◌else◌}
use bit_lsm.Base.Int.{ℤ}
use bit_lsm.Bytes.{Bytes}
use bit_lsm.Memory.{le_bytes, of_le_bytes, bswap64}
use bit_lsm.Scalar.{u64_mod, u64_of_i64, i64_of_u64, F64, f64_eq}

abbrev pub okey_bytes : ℕ
okey_bytes = 8

-- `~u` of a `uint64_t`.
abbrev pub complement64 : ℕ → ℕ
complement64 u = u64_mod - 1 - u

unfoldable pub u64_to_okey : ℕ → ℕ
u64_to_okey x = x

unfoldable pub i64_to_okey : ℤ → ℕ
i64_to_okey x = bit_xor (u64_of_i64 x) 0x8000_0000_0000_0000

-- -0.0 becomes +0.0 first.
unfoldable pub f64_to_okey : F64 → ℕ
f64_to_okey d =
    let u : ℕ = if f64_eq d 0 then 0 else d in
    if bit_and u 0x8000_0000_0000_0000 == 0 then bit_xor u 0x8000_0000_0000_0000 else complement64 u

unfoldable pub okey_to_i64 : ℕ → ℤ
okey_to_i64 okey = i64_of_u64 (bit_xor okey 0x8000_0000_0000_0000)

unfoldable pub okey_to_f64 : ℕ → F64
okey_to_f64 okey =
    if bit_and okey 0x8000_0000_0000_0000 == 0
    then complement64 okey
    else bit_xor okey 0x8000_0000_0000_0000

-- The host is little-endian: swapping first leaves the bytes highest first.
unfoldable pub okey_to_bytes : ℕ → Bytes
okey_to_bytes okey = le_bytes okey_bytes (bswap64 okey)

unfoldable pub okey_from_bytes : Bytes → ℕ
okey_from_bytes bytes = bswap64 (of_le_bytes bytes)
