-- ===== src/BytesList/Search.antt =====
-- The binary searches of src/include/bytes_list.h.
use bit_lsm.Base.{
  ℕ, zero, suc, ◌+◌, ◌-◌, ◌/◌, ◌%◌, ◌≤◌, ◌<◌, ◌≡◌, inl, inr, Bool, true, false, arith, Bool-cases,
  ltb, ◌≢◌, sym, ltb→lt, ◌∙◌,
}
use bit_lsm.Bytes.{Bytes, compare_bytes, compare_bytes_triangle}
use bit_lsm.Scalar.{u32_mod}
use bit_lsm.BytesList.{BytesList, size, at, search_loop, upper_bound, lower_bound, is_le, is_lt}

true≢false : true ≢ false
true≢false e = cc

meet : (lo hi : ℕ) → lo ≤ hi → ltb lo hi ≡ false → lo ≡ hi
meet lo hi h k = ground arith

-- The test holds on a prefix of the list.
abbrev pub IsPartitioned : (Bytes → Bool) → BytesList → Type 0
IsPartitioned test l = (i j : ℕ) → i ≤ j → j < size l → test (at l j) ≡ true → test (at l i) ≡ true

-- `r` is where the test stops to hold.
pub record Splits (test : Bytes → Bool) (l : BytesList) (r : ℕ) : Type 0 where
  pub inside : r ≤ size l
  pub below : (i : ℕ) → i < r → test (at l i) ≡ true
  pub above : (i : ℕ) → r ≤ i → i < size l → test (at l i) ≡ false

module _ (test : Bytes → Bool) (l : BytesList) (part : IsPartitioned test l) where
  record Inv (lo hi : ℕ) : Type 0 where
    ordered : lo ≤ hi
    inside : hi ≤ size l
    below : (i : ℕ) → i < lo → test (at l i) ≡ true
    above : (i : ℕ) → hi ≤ i → i < size l → test (at l i) ≡ false

  false-above : (m i : ℕ) → m ≤ i → i < size l → test (at l m) ≡ false → test (at l i) ≡ false
  false-above m i h k e = elim (Bool-cases (test (at l i))) [
    | inl t ↦ absurd (true≢false (sym (part m i h k t) ∙ e))
    | inr f ↦ f
  ]

  search_loop-Splits :
      (fuel lo hi : ℕ) → hi - lo < fuel → Inv lo hi → Splits test l (search_loop test l fuel lo hi)
  unfolding search_loop
  search_loop-Splits zero lo hi h inv = elim h [ ]
  search_loop-Splits (suc fuel) lo hi h inv = elim (Bool-cases (ltb lo hi)) [
    | inr done ↦
        let same : lo ≡ hi = meet lo hi inv.ordered done in
        rw done (record {
          inside = omega (arith, inv.inside);
          below = inv.below;
          above = λ i p. inv.above i (omega arith);
        })
    | inl more ↦
        let lt : lo < hi = ltb→lt lo hi more in
        elim (Bool-cases (test (at l (lo + (hi - lo) / 2)))) [
          | inl right ↦
              rw (more, right)
                (search_loop-Splits fuel (lo + (hi - lo) / 2 + 1) hi (omega arith) (record {
                  ordered = omega arith;
                  inside = inv.inside;
                  below = λ i p.
                      part i (lo + (hi - lo) / 2) (omega arith) (omega (arith, inv.inside)) right;
                  above = inv.above;
                }))
          | inr left ↦
              rw (more, left)
                (search_loop-Splits fuel lo (lo + (hi - lo) / 2) (omega arith) (record {
                  ordered = omega arith;
                  inside = omega (arith, inv.inside);
                  below = inv.below;
                  above = λ i p q. false-above (lo + (hi - lo) / 2) i p q left;
                }))
        ]
  ]

  search_all-Splits : Splits test l (search_loop test l (suc (size l)) 0 (size l))
  search_all-Splits = search_loop-Splits (suc (size l)) 0 (size l) (omega arith) (record {
    ordered = omega arith;
    inside = omega arith;
    below = λ i p. elim p [ ];
    above = λ i p q. absurd (omega arith);
  })

  search-Splits :
      size l < u32_mod → Splits test l (search_loop test l (suc (size l)) 0 (size l % u32_mod))
  search-Splits few =
      let whole : size l % u32_mod ≡ size l = omega (arith, few) in rw whole search_all-Splits

-- Elements in memcmp order, repeats allowed.
abbrev pub IsSorted : BytesList → Type 0
IsSorted l = (i j : ℕ) → i ≤ j → j < size l → is_le (compare_bytes (at l i) (at l j)) ≡ true

pub le-trans_le :
    (a b v : Bytes)
    → is_le (compare_bytes a b) ≡ true
    → is_le (compare_bytes b v) ≡ true
    → is_le (compare_bytes a v) ≡ true
le-trans_le a b v h k = ground (arith, compare_bytes_triangle a b v)

pub le-trans_lt :
    (a b v : Bytes)
    → is_le (compare_bytes a b) ≡ true
    → is_lt (compare_bytes b v) ≡ true
    → is_lt (compare_bytes a v) ≡ true
le-trans_lt a b v h k = ground (arith, compare_bytes_triangle a b v)

-- On a sorted list of fewer than 2^32 elements UpperBound returns the index below which every element is at most
-- the value and from which on every element is above it.
pub upper_bound-Splits :
    (l : BytesList) (v : Bytes)
    → IsSorted l
    → size l < u32_mod
    → Splits (λ x. is_le (compare_bytes x v)) l (upper_bound l v)
unfolding upper_bound
upper_bound-Splits l v s few =
    search-Splits (λ x. is_le (compare_bytes x v)) l
      (λ i j p q t. le-trans_le (at l i) (at l j) v (s i j p q) t) few

-- On a sorted list of fewer than 2^32 elements LowerBound returns the index below which every element is less
-- than the value and from which on no element is.
pub lower_bound-Splits :
    (l : BytesList) (v : Bytes)
    → IsSorted l
    → size l < u32_mod
    → Splits (λ x. is_lt (compare_bytes x v)) l (lower_bound l v)
unfolding lower_bound
lower_bound-Splits l v s few =
    search-Splits (λ x. is_lt (compare_bytes x v)) l
      (λ i j p q t. le-trans_lt (at l i) (at l j) v (s i j p q) t) few
