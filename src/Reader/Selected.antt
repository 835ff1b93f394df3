-- ===== src/Reader/Selected.antt =====
-- The bins that `SelectBins` of src/include/sabi_reader.cpp selects for an interval.
use bit_lsm.Base.{
  ℕ, zero, suc, ◌+◌, ◌-◌, ◌%◌, ◌≤◌, ◌<◌, ltb, ◌≡◌, ◌≢◌, ◌⊎◌, sym, ap, ◌∙◌, inl, inr, Bool, true,
  false, Bool-cases, refl, Option, none, some, leb, ◌==◌, if◌then◌else◌, arith,
}
use bit_lsm.Base.Int.{ℤ, pos, negsuc}
use bit_lsm.Bytes.{Bytes, compare_bytes}
use bit_lsm.Scalar.{u32_mod}
use bit_lsm.Interval.{ByteInterval, empty}
use bit_lsm.Interval.Laws.{contains, contains-empty}
use bit_lsm.BytesList.{BytesList, size, at, back, is_le, is_lt, upper_bound, lower_bound}
use bit_lsm.BytesList.Search.{
  IsSorted, Splits, upper_bound-Splits, lower_bound-Splits, le-trans_le, le-trans_lt,
}
use bit_lsm.Reader.{
  BinSelection, last_bin, bin_of, or_zero, select_from, select_range, i32_of_u32, pred_i32,
}

-- The bin that the boundaries give a value: one less than the number of boundaries at or below it, clamped.
unfoldable pub bin_of_value : BytesList → ℕ → Bytes → ℕ
bin_of_value boundaries num_bins v =
    let passed = upper_bound boundaries v in
    let bin = if passed == 0 then 0 else passed - 1 in
    if leb num_bins bin then num_bins - 1 else bin

-- The boundaries of an attribute's bins: sorted, one more than the bins, and not above the values.
pub record Bounds (l : BytesList) (bins : ℕ) (v : Bytes) : Type 0 where
  pub sorted : IsSorted l
  pub some_bins : 0 < bins
  pub sized : size l ≡ suc bins
  pub least : is_le (compare_bytes (at l 0) v) ≡ true
  pub greatest : is_le (compare_bytes v (back l)) ≡ true

lt-or-ge : (a b : ℕ) → (a < b) ⊎ (b ≤ a)
lt-or-ge a b = ground arith

pub true≢false : true ≢ false
true≢false e = cc

upper_bound-pos :
    (l : BytesList) (v : Bytes)
    → IsSorted l
    → size l < u32_mod
    → 0 < size l
    → is_le (compare_bytes (at l 0) v) ≡ true
    → 0 < upper_bound l v
upper_bound-pos l v s few h k = elim (lt-or-ge 0 (upper_bound l v)) [
  | inl lt ↦ lt
  | inr ge ↦ absurd (true≢false (sym k ∙ (upper_bound-Splits l v s few).above 0 ge h))
]

-- Two partition points: where the first test implies the second, the first point is not after the second.
Splits-le :
    (p q : Bytes → Bool) (l : BytesList) (i j : ℕ)
    → Splits p l i
    → Splits q l j
    → ((x : Bytes) → p x ≡ true → q x ≡ true)
    → i ≤ j
Splits-le p q l i j a b imp = elim (lt-or-ge j i) [
  | inr le ↦ le
  | inl lt ↦ absurd (
      true≢false
        (sym (imp (at l j) (a.below j lt)) ∙ b.above j (omega arith) (omega (arith, a.inside))))
]

upper_bound_mono :
    (l : BytesList) (lo v : Bytes)
    → IsSorted l
    → size l < u32_mod
    → is_le (compare_bytes lo v) ≡ true
    → upper_bound l lo ≤ upper_bound l v
upper_bound_mono l lo v s few h =
    Splits-le (λ x. is_le (compare_bytes x lo)) (λ x. is_le (compare_bytes x v)) l
      (upper_bound l lo) (upper_bound l v) (upper_bound-Splits l lo s few)
      (upper_bound-Splits l v s few) (λ x t. le-trans_le x lo v t h)

lower_bound_mono :
    (l : BytesList) (v hi : Bytes)
    → IsSorted l
    → size l < u32_mod
    → is_lt (compare_bytes v hi) ≡ true
    → upper_bound l v ≤ lower_bound l hi
lower_bound_mono l v hi s few h =
    Splits-le (λ x. is_le (compare_bytes x v)) (λ x. is_lt (compare_bytes x hi)) l (upper_bound l v)
      (lower_bound l hi) (upper_bound-Splits l v s few) (lower_bound-Splits l hi s few)
      (λ x t. le-trans_lt x v hi t h)

-- A bin, none for -1.
abbrev signed : Option ℕ → ℤ
signed none = negsuc 0
signed (some b) = pos b

abbrev top_bin : ℕ → Option ℕ
top_bin zero = none
top_bin (suc n) = some n

-- The clamp of `bin_of`, of an index into the boundaries.
abbrev bin_at : ℕ → ℕ → Option ℕ
bin_at bins i = if i == 0 then none else if leb (suc bins) i then top_bin bins else some (i - 1)

abbrev clamped : ℕ → ℕ → ℕ
clamped bins i =
    if leb bins (if i == 0 then 0 else i - 1) then bins - 1 else (if i == 0 then 0 else i - 1)

-- A flat bin is among the selected ones.
abbrev pub Selects : Option BinSelection → ℕ → Type 0
Selects none b = ⊥
Selects (some s) b = (s.first ≤ b) × (b ≤ s.last)

Selects-bin_at :
    (bins offset lo mid hi : ℕ)
    → 0 < bins
    → offset + bins ≤ u32_mod
    → lo ≤ mid
    → mid ≤ hi
    → 0 < mid
    → Selects
        (select_from offset (or_zero (signed (bin_at bins lo))) (signed (bin_at bins hi)))
        ((offset + clamped bins mid) % u32_mod)
Selects-bin_at zero offset lo mid hi b small h k some_passed = elim b [ ]
Selects-bin_at (suc n) offset lo mid hi b small h k some_passed = ground arith

Selects-top_bin :
    (bins offset lo mid : ℕ)
    → 0 < bins
    → offset + bins ≤ u32_mod
    → lo ≤ mid
    → 0 < mid
    → Selects
        (select_from offset (or_zero (signed (bin_at bins lo))) (signed (top_bin bins)))
        ((offset + clamped bins mid) % u32_mod)
Selects-top_bin zero offset lo mid b small h some_passed = elim b [ ]
Selects-top_bin (suc n) offset lo mid b small h some_passed = ground arith

above_lo-le :
    (w : ByteInterval) (v : Bytes) → contains w v ≡ true → is_le (compare_bytes w.lo v) ≡ true
unfolding contains
above_lo-le w v h = ground arith

-- What the upper end says of a value inside.
abbrev BelowHi : ByteInterval → Bytes → Type 0
BelowHi w v =
    (w.hi_open ≡ true → is_lt (compare_bytes v w.hi) ≡ true) × (is_le (compare_bytes v w.hi) ≡ true)

BelowHi-le :
    (w : ByteInterval) (v : Bytes) → contains w v ≡ true → w.hi_unbounded ≡ false → BelowHi w v
unfolding contains
BelowHi-le w v h k = (λ o. ground arith, ground arith)

pub not-empty : (w : ByteInterval) (v : Bytes) → contains w v ≡ true → empty w ≡ false
not-empty w v h = elim (Bool-cases (empty w)) [
  | inl e ↦ absurd (true≢false (sym h ∙ contains-empty w v e))
  | inr f ↦ f
]

-- Below 2^31 the narrowing changes nothing.
pred_i32-i32_of_u32 : (n : ℕ) → n < 0x8000_0000 → pred_i32 (i32_of_u32 n) ≡ signed (top_bin n)
pred_i32-i32_of_u32 zero h = refl
pred_i32-i32_of_u32 (suc n) h =
    let narrow : ltb (suc n) 0x8000_0000 ≡ true = ground (arith, h) in rw narrow refl

top_bin-pos : (i : ℕ) → (i == 0) ≡ false → top_bin i ≡ some (i - 1)
top_bin-pos zero h = absurd (ground (arith, h))
top_bin-pos (suc i) h = let before : suc i - 1 ≡ i = omega arith in ap some (sym before)

clamp_at :
    (bins i : ℕ)
    → bins < 0x8000_0000
    → (if i == 0
        then negsuc 0
        else if leb (suc bins) i
        then last_bin bins
        else pred_i32 (i32_of_u32 i))
      ≡ signed (bin_at bins i)
clamp_at bins i few = elim (Bool-cases (i == 0)) [
  | inl first ↦ rw first refl
  | inr later ↦ elim (Bool-cases (leb (suc bins) i)) [
    | inl past ↦ rw (later, past) (pred_i32-i32_of_u32 bins few)
    | inr inside ↦
        let small : i < 0x8000_0000 = ground (arith, inside, few) in
        rw (later, inside) (pred_i32-i32_of_u32 i small ∙ ap signed (top_bin-pos i later))
  ]
]

bin_of-at :
    (l : BytesList) (bins : ℕ) (v : Bytes)
    → size l ≡ suc bins
    → bins < 0x8000_0000
    → bin_of l bins v false ≡ signed (bin_at bins (upper_bound l v))
unfolding bin_of
bin_of-at l bins v h few = rw h (clamp_at bins (upper_bound l v) few)

bin_of-at_open :
    (l : BytesList) (bins : ℕ) (v : Bytes)
    → size l ≡ suc bins
    → bins < 0x8000_0000
    → bin_of l bins v true ≡ signed (bin_at bins (lower_bound l v))
unfolding bin_of
bin_of-at_open l bins v h few = rw h (clamp_at bins (lower_bound l v) few)

pub select_range-Selects :
    (w : ByteInterval) (l : BytesList) (bins offset : ℕ) (v : Bytes)
    → Bounds l bins v
    → bins < 0x8000_0000
    → offset + bins ≤ u32_mod
    → contains w v ≡ true
    → Selects (select_range w l bins offset) ((offset + bin_of_value l bins v) % u32_mod)
unfolding select_range bin_of_value
select_range-Selects w l bins offset v b few small h =
    let few_bounds : size l < u32_mod = omega (arith, few, b.sized) in
    let low : upper_bound l w.lo ≤ upper_bound l v =
      upper_bound_mono l w.lo v b.sorted few_bounds (above_lo-le w v h) in
    let found : 0 < upper_bound l v =
      upper_bound-pos l v b.sorted few_bounds (rw b.sized (omega arith)) b.least in
    rw (not-empty w v h, bin_of-at l bins w.lo b.sized few)
      (elim (Bool-cases w.hi_unbounded) [
        | inl u ↦
            rw (u, pred_i32-i32_of_u32 bins few)
              (Selects-top_bin bins offset (upper_bound l w.lo) (upper_bound l v) b.some_bins small
                low found)
        | inr k ↦
            let below = BelowHi-le w v h k in
            rw k (elim (Bool-cases w.hi_open) [
              | inl o ↦
                  rw (o, bin_of-at_open l bins w.hi b.sized few)
                    (Selects-bin_at bins offset (upper_bound l w.lo) (upper_bound l v)
                      (lower_bound l w.hi) b.some_bins small low
                      (lower_bound_mono l v w.hi b.sorted few_bounds (below.0 o)) found)
              | inr c ↦
                  rw (c, bin_of-at l bins w.hi b.sized few)
                    (Selects-bin_at bins offset (upper_bound l w.lo) (upper_bound l v)
                      (upper_bound l w.hi) b.some_bins small low
                      (upper_bound_mono l v w.hi b.sorted few_bounds below.1) found)
            ])
      ])
