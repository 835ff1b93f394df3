-- ===== src/Bytes.antt =====
-- Byte strings and `std::string_view::compare` (memcmp order, then length).
use bit_lsm.Base.{ℕ, compare, Ordering, ◌≡◌, refl, List, [], ◌∷◌, arith}

-- A byte string; `bytes` of the source are numbers below 256.
abbrev pub Bytes : Type 0
Bytes = List ℕ

-- The sign of `a.compare(b)`: the first differing byte decides, then the length.
unfoldable pub compare_bytes : Bytes → Bytes → Ordering
compare_bytes [] [] = Ordering.eq
compare_bytes [] (y ∷ ys) = Ordering.lt
compare_bytes (x ∷ xs) [] = Ordering.gt
compare_bytes (x ∷ xs) (y ∷ ys) = elim (compare x y) [
  | Ordering.lt ↦ Ordering.lt
  | Ordering.eq ↦ compare_bytes xs ys
  | Ordering.gt ↦ Ordering.gt
]

abbrev pub flip : Ordering → Ordering
flip Ordering.lt = Ordering.gt
flip Ordering.eq = Ordering.eq
flip Ordering.gt = Ordering.lt

pub compare_bytes_refl : (a : Bytes) → compare_bytes a a ≡ Ordering.eq
unfolding compare_bytes
compare_bytes_refl [] = refl
compare_bytes_refl (x ∷ xs) = ground (arith, compare_bytes_refl xs)

pub compare_bytes-flip : (a b : Bytes) → compare_bytes b a ≡ flip (compare_bytes a b)
unfolding compare_bytes
compare_bytes-flip [] [] = refl
compare_bytes-flip [] (y ∷ ys) = refl
compare_bytes-flip (x ∷ xs) [] = refl
compare_bytes-flip (x ∷ xs) (y ∷ ys) = ground (arith, compare_bytes-flip xs ys)

pub compare_bytes_eq : (a b : Bytes) → compare_bytes a b ≡ Ordering.eq → a ≡ b
unfolding compare_bytes
compare_bytes_eq [] [] h = refl
compare_bytes_eq [] (y ∷ ys) h = cc
compare_bytes_eq (x ∷ xs) [] h = cc
compare_bytes_eq (x ∷ xs) (y ∷ ys) h = ground (arith, compare_bytes_eq xs ys)

-- What two comparisons say of the third.
abbrev pub Composes : Ordering → Ordering → Ordering → Type 0
Composes Ordering.lt Ordering.lt r = r ≡ Ordering.lt
Composes Ordering.lt Ordering.eq r = r ≡ Ordering.lt
Composes Ordering.eq s r = r ≡ s
Composes Ordering.gt Ordering.gt r = r ≡ Ordering.gt
Composes Ordering.gt Ordering.eq r = r ≡ Ordering.gt
Composes _ _ r = Unit {0}

pub compare_bytes_triangle :
    (a b c : Bytes) → Composes (compare_bytes a b) (compare_bytes b c) (compare_bytes a c)
unfolding compare_bytes
compare_bytes_triangle [] [] c = refl
compare_bytes_triangle [] (y ∷ b) [] = tt
compare_bytes_triangle [] (y ∷ b) (z ∷ c) = ground arith
compare_bytes_triangle (x ∷ a) [] [] = refl
compare_bytes_triangle (x ∷ a) [] (z ∷ c) = tt
compare_bytes_triangle (x ∷ a) (y ∷ b) [] = ground arith
compare_bytes_triangle (x ∷ a) (y ∷ b) (z ∷ c) = ground (arith, compare_bytes_triangle a b c)
