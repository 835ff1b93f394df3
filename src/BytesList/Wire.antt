-- ===== src/BytesList/Wire.antt =====
-- The wire form of src/include/bytes_list.h.
use mathlib.Core.List.{append_assoc}
use bit_lsm.Base.{
  drop-append, take-append, ℕ, suc, ◌+◌, ◌-◌, ◌*◌, ◌<◌, ◌≡◌, refl, ap, List, [], ◌∷◌, ◌++◌, length,
  get_or, take, drop, length-append, arith,
}
use bit_lsm.Bytes.{Bytes}
use bit_lsm.Memory.{le_bytes, of_le_bytes}
use bit_lsm.Memory.Endian.{of_le_bytes-le_bytes, length-le_bytes}
use bit_lsm.Scalar.{u32_mod}
use bit_lsm.BytesList.{BytesList, size, serialize, parse, put_ends, get_ends, last_end}

-- There are fewer than 2^32 elements, the offsets are 32-bit numbers, the last one is the length of the arena, and an empty list has no bytes.
pub record IsPacked (l : BytesList) : Type 0 where
  pub few : size l < u32_mod
  pub small : (i : ℕ) → i < size l → get_or l.ends i 0 < u32_mod
  pub whole : last_end (size l) l.ends ≡ length l.arena

take-le_bytes : (e : ℕ) (rest : Bytes) → take 4 (le_bytes 4 e ++ rest) ≡ le_bytes 4 e
unfolding le_bytes
take-le_bytes e rest = refl

drop-le_bytes : (e : ℕ) (rest : Bytes) → drop 4 (le_bytes 4 e ++ rest) ≡ rest
unfolding le_bytes
drop-le_bytes e rest = refl

read-le_bytes :
    (e : ℕ) (rest : Bytes) → e < u32_mod → of_le_bytes (take 4 (le_bytes 4 e ++ rest)) ≡ e
read-le_bytes e rest h = rw (take-le_bytes e rest, of_le_bytes-le_bytes 4 e) (omega arith)

get_ends-put_ends :
    (ends : List ℕ) (rest : Bytes)
    → ((i : ℕ) → i < length ends → get_or ends i 0 < u32_mod)
    → get_ends (length ends) (put_ends ends ++ rest) ≡ ends
unfolding get_ends put_ends
get_ends-put_ends [] rest h = refl
get_ends-put_ends (e ∷ ends) rest h =
    rw
      (
        append_assoc (le_bytes 4 e) (put_ends ends) rest,
        read-le_bytes e (put_ends ends ++ rest) (h 0 (omega arith)),
        drop-le_bytes e (put_ends ends ++ rest),
      )
      (ap (λ t. e ∷ t) (get_ends-put_ends ends rest (λ i p. h (suc i) (omega arith))))

drop-le_bytes_more :
    (n e : ℕ) (rest : Bytes) → drop (suc (suc (suc (suc n)))) (le_bytes 4 e ++ rest) ≡ drop n rest
unfolding le_bytes
drop-le_bytes_more n e rest = refl

drop-put_ends :
    (ends : List ℕ) (rest : Bytes) → drop (length ends * 4) (put_ends ends ++ rest) ≡ rest
unfolding put_ends
drop-put_ends [] rest = refl
drop-put_ends (e ∷ ends) rest =
    let more : suc (length ends) * 4 ≡ suc (suc (suc (suc (length ends * 4)))) = omega arith in
    rw
      (
        append_assoc (le_bytes 4 e) (put_ends ends) rest,
        more,
        drop-le_bytes_more (length ends * 4) e (put_ends ends ++ rest),
      )
      (drop-put_ends ends rest)

length-put_ends : (ends : List ℕ) → length (put_ends ends) ≡ length ends * 4
unfolding put_ends
length-put_ends [] = omega arith
length-put_ends (e ∷ ends) =
    omega (
      arith,
      length-append (le_bytes 4 e) (put_ends ends),
      length-le_bytes 4 e,
      length-put_ends ends,
    )

length-serialize :
    (l : BytesList) (out : Bytes)
    → length (serialize l out) - length out ≡ 4 + size l * 4 + length l.arena
unfolding serialize
length-serialize l out = omega (
  arith,
  length-append out (le_bytes 4 (size l) ++ (put_ends l.ends ++ l.arena)),
  length-append (le_bytes 4 (size l)) (put_ends l.ends ++ l.arena),
  length-append (put_ends l.ends) l.arena,
  length-le_bytes 4 (size l),
  length-put_ends l.ends,
)

drop-serialize :
    (l : BytesList) (out rest : Bytes)
    → drop (length out) (serialize l out ++ rest)
      ≡ le_bytes 4 (size l) ++ (put_ends l.ends ++ (l.arena ++ rest))
unfolding serialize
drop-serialize l out rest =
    rw
      (
        append_assoc out (le_bytes 4 (size l) ++ (put_ends l.ends ++ l.arena)) rest,
        drop-append out ((le_bytes 4 (size l) ++ (put_ends l.ends ++ l.arena)) ++ rest),
        append_assoc (le_bytes 4 (size l)) (put_ends l.ends ++ l.arena) rest,
        append_assoc (put_ends l.ends) l.arena rest,
      )
      refl

-- What Serialize appends to a buffer is read back by Parse, whatever bytes follow, and Parse consumes exactly
-- those bytes, for a list of fewer than 2^32 elements whose offsets are 32-bit numbers and end at the length of
-- the arena.
pub parse-serialize :
    (l : BytesList) (out rest : Bytes)
    → IsPacked l
    → parse (drop (length out) (serialize l out ++ rest))
      ≡ (l, length (serialize l out) - length out)
unfolding parse
parse-serialize l out rest packed =
    rw (length-serialize l out, drop-serialize l out rest)
      (rw
        (
          read-le_bytes (size l) (put_ends l.ends ++ (l.arena ++ rest)) packed.few,
          drop-le_bytes (size l) (put_ends l.ends ++ (l.arena ++ rest)),
          get_ends-put_ends l.ends (l.arena ++ rest) packed.small,
          drop-put_ends l.ends (l.arena ++ rest),
          packed.whole,
          take-append l.arena rest,
        )
        refl)
