-- ===== src/Memory.antt =====
-- Memory of a little-endian host: an integer's bytes as `memcpy` sees them, and reads and writes of a
-- byte buffer at an offset.
pub mod Endian
use mathlib.Core.List.{reverse}
use bit_lsm.Base.{ℕ, zero, suc, ◌+◌, ◌*◌, ◌/◌, ◌%◌, List, [], ◌∷◌, ◌++◌, take, drop, length}
use bit_lsm.Bytes.{Bytes}

-- The `n` low bytes of an integer, lowest first.
unfoldable pub le_bytes : ℕ → ℕ → Bytes
le_bytes zero x = []
le_bytes (suc n) x = x % 256 ∷ le_bytes n (x / 256)

-- The integer that those bytes make up; the higher bytes are zero.
unfoldable pub of_le_bytes : Bytes → ℕ
of_le_bytes [] = 0
of_le_bytes (b ∷ bs) = b + 256 * of_le_bytes bs

-- `__builtin_bswap64`.
unfoldable pub bswap64 : ℕ → ℕ
bswap64 x = of_le_bytes (reverse (le_bytes 8 x))

-- `memcpy(dst, buffer + offset, n)`.
unfoldable pub read : Bytes → ℕ → ℕ → Bytes
read buffer offset n = take n (drop offset buffer)

-- `memcpy(buffer + offset, src, size)`; what falls outside the buffer is dropped.
unfoldable pub write : Bytes → ℕ → Bytes → Bytes
write [] offset src = []
write (b ∷ buffer) (suc offset) src = b ∷ write buffer offset src
write (b ∷ buffer) zero [] = b ∷ buffer
write (b ∷ buffer) zero (s ∷ src) = s ∷ write buffer zero src
