-- ===== src/Okey/Order.antt =====
-- The bytes of the keys of src/include/bit_lsm_encoding.h.
use mathlib.Core.List.{reverse, reverse-reverse}
use bit_lsm.Base.{ℕ, ◌<◌, compare, ◌≡◌, length, arith}
use bit_lsm.Bytes.{Bytes, compare_bytes}
use bit_lsm.Memory.{le_bytes, of_le_bytes, bswap64}
use bit_lsm.Memory.Endian.{
  AllBytes, le_bytes-AllBytes, length-le_bytes, of_le_bytes-le_bytes, le_bytes-of_le_bytes_n,
  AllBytes-reverse, le_bytes-bswap64, bswap64-of_le_bytes, compare_bytes-be_bytes,
}
use bit_lsm.Scalar.{u64_mod}
use bit_lsm.Okey.{okey_bytes, okey_to_bytes, okey_from_bytes}

-- Swapping and storing lowest first is storing highest first.
okey_to_bytes-reverse : (okey : ℕ) → okey_to_bytes okey ≡ reverse (le_bytes 8 okey)
unfolding okey_to_bytes
okey_to_bytes-reverse okey = le_bytes-bswap64 okey

pub okey_to_bytes-AllBytes : (okey : ℕ) → AllBytes (okey_to_bytes okey)
okey_to_bytes-AllBytes okey =
    rw (okey_to_bytes-reverse okey) (AllBytes-reverse _ (le_bytes-AllBytes 8 okey))

pub length-okey_to_bytes : (okey : ℕ) → length (okey_to_bytes okey) ≡ okey_bytes
unfolding okey_to_bytes
length-okey_to_bytes okey = length-le_bytes 8 (bswap64 okey)

-- memcmp on the bytes of two 64-bit keys is the comparison of the keys.
pub compare_bytes-okey_to_bytes :
    (a b : ℕ)
    → a < u64_mod
    → b < u64_mod
    → compare_bytes (okey_to_bytes a) (okey_to_bytes b) ≡ compare a b
compare_bytes-okey_to_bytes a b h k =
    rw (okey_to_bytes-reverse a, okey_to_bytes-reverse b) (compare_bytes-be_bytes 8 a b h k)

-- OkeyFromBytes undoes OkeyToBytes on every 64-bit key.
pub okey_from_bytes-okey_to_bytes :
    (okey : ℕ) → okey < u64_mod → okey_from_bytes (okey_to_bytes okey) ≡ okey
unfolding okey_from_bytes
okey_from_bytes-okey_to_bytes okey h =
    rw
      (
        bswap64-of_le_bytes (okey_to_bytes okey) (okey_to_bytes-AllBytes okey)
            (length-okey_to_bytes okey),
        okey_to_bytes-reverse okey,
        reverse-reverse (le_bytes 8 okey),
        of_le_bytes-le_bytes 8 okey,
      )
      (omega arith)

-- OkeyToBytes undoes OkeyFromBytes on every string of eight bytes.
pub okey_to_bytes-okey_from_bytes :
    (bytes : Bytes)
    → AllBytes bytes
    → length bytes ≡ okey_bytes
    → okey_to_bytes (okey_from_bytes bytes) ≡ bytes
unfolding okey_from_bytes
okey_to_bytes-okey_from_bytes bytes h e =
    rw
      (
        okey_to_bytes-reverse (bswap64 (of_le_bytes bytes)),
        le_bytes-bswap64 (of_le_bytes bytes),
        reverse-reverse (le_bytes 8 (of_le_bytes bytes)),
      )
      (le_bytes-of_le_bytes_n 8 bytes h e)
