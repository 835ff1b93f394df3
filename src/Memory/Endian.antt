-- ===== src/Memory/Endian.antt =====
-- Byte orders of the scalars that src/include/bit_lsm_encoding.h and bytes_list.h copy.
use mathlib.Core.List.{reverse, reverse-append}
use native.Mathlib.Nat.{pow-suc, pow-succ', one-le-pow}
use bit_lsm.Base.{
  ℕ, zero, suc, ◌+◌, ◌*◌, ◌/◌, ◌%◌, ◌^◌, ◌<◌, compare, Ordering, ◌≡◌, refl, ap, sym, ◌∙◌, [], ◌∷◌,
  ◌++◌, arith, length, length-append,
}
use bit_lsm.Bytes.{Bytes, compare_bytes, compare_bytes_refl}
use bit_lsm.Memory.{le_bytes, of_le_bytes, bswap64}

abbrev pub AllBytes : Bytes → Type 0
AllBytes [] = Unit {0}
AllBytes (b ∷ bs) = (b < 256) × AllBytes bs

pub length-le_bytes : (n x : ℕ) → length (le_bytes n x) ≡ n
unfolding le_bytes
length-le_bytes zero x = refl
length-le_bytes (suc n) x = ap suc (length-le_bytes n (x / 256))

pub le_bytes-AllBytes : (n x : ℕ) → AllBytes (le_bytes n x)
unfolding le_bytes
le_bytes-AllBytes zero x = tt
le_bytes-AllBytes (suc n) x = (omega arith, le_bytes-AllBytes n (x / 256))

-- What the bytes keep is the value modulo their width.
mod-scale : (p x : ℕ) → 0 < p → x % 256 + 256 * (x / 256 % p) ≡ x % (256 * p)
mod-scale p x h = grind arith

pub of_le_bytes-le_bytes : (n x : ℕ) → of_le_bytes (le_bytes n x) ≡ x % 256 ^ n
unfolding le_bytes of_le_bytes
of_le_bytes-le_bytes zero x = omega arith
of_le_bytes-le_bytes (suc n) x =
    rw (of_le_bytes-le_bytes n (x / 256), pow-succ' 256 n)
      (mod-scale (256 ^ n) x (omega (arith, one-le-pow n 256)))

pub of_le_bytes-lt : (bs : Bytes) → AllBytes bs → of_le_bytes bs < 256 ^ length bs
unfolding of_le_bytes
of_le_bytes-lt [] h = omega arith
of_le_bytes-lt (b ∷ bs) h = omega (arith, of_le_bytes-lt bs h.1, pow-suc 256 (length bs))

pub le_bytes-of_le_bytes : (bs : Bytes) → AllBytes bs → le_bytes (length bs) (of_le_bytes bs) ≡ bs
unfolding le_bytes of_le_bytes
le_bytes-of_le_bytes [] h = refl
le_bytes-of_le_bytes (b ∷ bs) h =
    let low : (b + 256 * of_le_bytes bs) % 256 ≡ b = omega arith in
    let high : (b + 256 * of_le_bytes bs) / 256 ≡ of_le_bytes bs = omega arith in
    rw (low, high, le_bytes-of_le_bytes bs h.1)

-- The order of two numbers from the order of their high parts and their low digits.
compare-digit : Ordering → ℕ → ℕ → Ordering
compare-digit Ordering.lt a b = Ordering.lt
compare-digit Ordering.eq a b = compare a b
compare-digit Ordering.gt a b = Ordering.gt

-- The last byte decides between strings of one length that agree before it.
compare_bytes-snoc :
    (xs ys : Bytes) (a b : ℕ)
    → length xs ≡ length ys
    → compare_bytes (xs ++ a ∷ []) (ys ++ b ∷ []) ≡ compare-digit (compare_bytes xs ys) a b
unfolding compare_bytes compare-digit
compare_bytes-snoc [] [] a b e = ground arith
compare_bytes-snoc [] (y ∷ ys) a b e = absurd (omega arith)
compare_bytes-snoc (x ∷ xs) [] a b e = absurd (omega arith)
compare_bytes-snoc (x ∷ xs) (y ∷ ys) a b e = ground (arith, compare_bytes-snoc xs ys a b)

pub length-reverse : (xs : Bytes) → length (reverse xs) ≡ length xs
length-reverse [] = refl
length-reverse (x ∷ xs) =
    rw (reverse-append (x ∷ []) xs)
      (omega (arith, length-append (reverse xs) (x ∷ []), length-reverse xs))

compare-digit-halves :
    (a b : ℕ) → compare-digit (compare (a / 256) (b / 256)) (a % 256) (b % 256) ≡ compare a b
unfolding compare-digit
compare-digit-halves a b = ground arith

length-be_bytes : (n x : ℕ) → length (reverse (le_bytes n x)) ≡ n
length-be_bytes n x = length-reverse (le_bytes n x) ∙ length-le_bytes n x

-- Big-endian bytes of one width compare as the integers.
pub compare_bytes-be_bytes :
    (n a b : ℕ)
    → a < 256 ^ n
    → b < 256 ^ n
    → compare_bytes (reverse (le_bytes n a)) (reverse (le_bytes n b)) ≡ compare a b
unfolding le_bytes
compare_bytes-be_bytes zero a b h k = ground (arith, compare_bytes_refl [])
compare_bytes-be_bytes (suc n) a b h k =
    rw
      (
        reverse-append (a % 256 ∷ []) (le_bytes n (a / 256)),
        reverse-append (b % 256 ∷ []) (le_bytes n (b / 256)),
        compare_bytes-snoc (reverse (le_bytes n (a / 256))) (reverse (le_bytes n (b / 256)))
            (a % 256) (b % 256) (length-be_bytes n (a / 256) ∙ sym (length-be_bytes n (b / 256))),
        compare_bytes-be_bytes n (a / 256) (b / 256) (omega (arith, pow-suc 256 n))
            (omega (arith, pow-suc 256 n)),
      )
      (compare-digit-halves a b)

AllBytes-append : (xs ys : Bytes) → AllBytes xs → AllBytes ys → AllBytes (xs ++ ys)
AllBytes-append [] ys h k = k
AllBytes-append (x ∷ xs) ys h k = (h.0, AllBytes-append xs ys h.1 k)

pub AllBytes-reverse : (xs : Bytes) → AllBytes xs → AllBytes (reverse xs)
AllBytes-reverse [] h = tt
AllBytes-reverse (x ∷ xs) h =
    rw (reverse-append (x ∷ []) xs)
      (AllBytes-append (reverse xs) (x ∷ []) (AllBytes-reverse xs h.1) (h.0, tt))

-- Storing the integer of `n` bytes gives them back.
pub le_bytes-of_le_bytes_n :
    (n : ℕ) (bs : Bytes) → AllBytes bs → length bs ≡ n → le_bytes n (of_le_bytes bs) ≡ bs
le_bytes-of_le_bytes_n n bs h e = rw e at (le_bytes-of_le_bytes bs h)

-- Storing the swapped integer lowest byte first stores the integer highest byte first.
pub le_bytes-bswap64 : (x : ℕ) → le_bytes 8 (bswap64 x) ≡ reverse (le_bytes 8 x)
unfolding bswap64
le_bytes-bswap64 x =
    le_bytes-of_le_bytes_n 8 (reverse (le_bytes 8 x)) (AllBytes-reverse _ (le_bytes-AllBytes 8 x))
      (length-be_bytes 8 x)

-- Swapping the integer of eight bytes reverses them.
pub bswap64-of_le_bytes :
    (bs : Bytes) → AllBytes bs → length bs ≡ 8 → bswap64 (of_le_bytes bs) ≡ of_le_bytes (reverse bs)
unfolding bswap64
bswap64-of_le_bytes bs h e = rw (le_bytes-of_le_bytes_n 8 bs h e)
