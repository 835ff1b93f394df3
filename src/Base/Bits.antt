-- ===== src/Base/Bits.antt =====
-- `&`, `|` and `^` of native numbers as arithmetic: at a power of two, at any width.
use Prim.Native.Nat.{
  ℕ, zero, suc, ◌+◌, ◌-◌, ◌*◌, ◌/◌, ◌%◌, ◌^◌, ◌≤◌, ◌<◌, min, max, bitwise, differ, digits, bit_and,
  bit_or, bit_xor, bit_and-bitwise, bit_or-bitwise, bit_xor-bitwise,
}
use mathlib.Core.Path.{◌≡◌, refl, ap, ◌∙◌}
use native.Mathlib.Nat.{pow-suc}
use native.Mathlib.Omega.{arith}
use bit_lsm.Base.Tests.{ltb, if◌then◌else◌}

-- `digits` reads binary digits while its fuel lasts; fuel above the first number changes nothing.
module _ (z : ℕ → ℕ) (f : ℕ → ℕ → ℕ) where
  digits_more : (extra n a b : ℕ) → a ≤ n → digits z f (n + extra) a b ≡ digits z f n a b
  digits_more zero n a b h = ap (λ (m : ℕ). digits z f m a b) (omega arith)
  digits_more (suc extra) zero zero b h =
      let same : 0 + suc extra ≡ suc extra = omega arith in ap (λ (m : ℕ). digits z f m 0 b) same
  digits_more (suc extra) zero (suc a) b h = elim h [ ]
  digits_more (suc extra) (suc n) zero b h =
      let moved : suc n + suc extra ≡ suc (n + suc extra) = omega arith in
      ap (λ (m : ℕ). digits z f m 0 b) moved
  digits_more (suc extra) (suc n) (suc a) b h =
      let moved : suc n + suc extra ≡ suc (n + suc extra) = omega arith in
      let tail = digits_more (suc extra) n (suc a / 2) (b / 2) (omega arith) in
      ap (λ (m : ℕ). digits z f m (suc a) b) moved
      ∙ ap (λ (t : ℕ). t * 2 + f (suc a % 2) (b % 2)) tail

  -- An operation that `bitwise` describes, by its lowest digit.
  module _ (op : ℕ → ℕ → ℕ) (op-bitwise : (a b : ℕ) → op a b ≡ bitwise z f a b) where
    lowest_digit : (a b : ℕ) → op (suc a) b ≡ f (suc a % 2) (b % 2) + 2 * op (suc a / 2) (b / 2)
    lowest_digit a b =
        let half : ℕ = suc a / 2 in
        let same : half + (a - half) ≡ a = omega arith in
        let fuel = ap (λ (m : ℕ). digits z f m half (b / 2)) same in
        let more = digits_more (a - half) half half (b / 2) (omega arith) in
        omega (arith, op-bitwise (suc a) b, op-bitwise half (b / 2), fuel, more)

bit_or_digit : (a b : ℕ) → bit_or a b ≡ max (a % 2) (b % 2) + 2 * bit_or (a / 2) (b / 2)
bit_or_digit (suc a) b = lowest_digit (λ y. y) max bit_or bit_or-bitwise a b
bit_or_digit zero b = omega (arith, bit_or-bitwise 0 b, bit_or-bitwise 0 (b / 2))

bit_and_digit : (a b : ℕ) → bit_and a b ≡ min (a % 2) (b % 2) + 2 * bit_and (a / 2) (b / 2)
bit_and_digit (suc a) b = lowest_digit (λ y. 0) min bit_and bit_and-bitwise a b
bit_and_digit zero b = omega (arith, bit_and-bitwise 0 b, bit_and-bitwise 0 (b / 2))

bit_xor_digit : (a b : ℕ) → bit_xor a b ≡ differ (a % 2) (b % 2) + 2 * bit_xor (a / 2) (b / 2)
bit_xor_digit (suc a) b = lowest_digit (λ y. y) differ bit_xor bit_xor-bitwise a b
bit_xor_digit zero b = ground (arith, bit_xor-bitwise 0 b, bit_xor-bitwise 0 (b / 2))

differ-zero : (a : ℕ) → differ a 0 ≡ a
differ-zero zero = refl
differ-zero (suc a) = refl

differ-digit : (a b : ℕ) → b ≡ 0 → differ a b ≡ a
differ-digit a b e = rw e (differ-zero a)

-- Flipping the top bit of a `k + 1`-bit number.
pub bit_xor_top :
    (k a : ℕ) → a < 2 ^ suc k → bit_xor a (2 ^ k) ≡ (if ltb a (2 ^ k) then a + 2 ^ k else a - 2 ^ k)
bit_xor_top zero zero h = refl
bit_xor_top zero (suc zero) h = refl
bit_xor_top zero (suc (suc a)) h = absurd (omega arith)
bit_xor_top (suc k) a h = ground (
  arith,
  bit_xor_digit a (2 ^ suc k),
  differ-digit (a % 2) (2 ^ suc k % 2),
  pow-suc 2 k,
  pow-suc 2 (suc k),
  bit_xor_top k (a / 2),
  div-two k,
)
  where
    div-two : (k : ℕ) → 2 ^ suc k / 2 ≡ 2 ^ k
    div-two k = omega (arith, pow-suc 2 k)

min-digit_zero : (a b : ℕ) → b ≡ 0 → min a b ≡ 0
min-digit_zero a b e = rw e (omega arith)

-- Testing the top bit of a `k + 1`-bit number.
pub bit_and_top :
    (k a : ℕ) → a < 2 ^ suc k → bit_and a (2 ^ k) ≡ (if ltb a (2 ^ k) then 0 else 2 ^ k)
bit_and_top zero zero h = refl
bit_and_top zero (suc zero) h = refl
bit_and_top zero (suc (suc a)) h = absurd (omega arith)
bit_and_top (suc k) a h = ground (
  arith,
  bit_and_digit a (2 ^ suc k),
  pow-suc 2 k,
  pow-suc 2 (suc k),
  bit_and_top k (a / 2),
  div-two k,
)
  where
    div-two : (k : ℕ) → 2 ^ suc k / 2 ≡ 2 ^ k
    div-two k = omega (arith, pow-suc 2 k)

shifted_mask : (k m : ℕ) → m * 2 ^ suc k ≡ m * 2 ^ k + m * 2 ^ k
shifted_mask k m = ap (λ (power : ℕ). m * power) (pow-suc 2 k) ∙ omega arith

zero-bit_or : (a : ℕ) → bit_or 0 a ≡ a
zero-bit_or a = bit_or-bitwise 0 a

-- Joining a `k`-bit number with a mask whose low `k` bits are clear.
pub bit_or_high : (k a m : ℕ) → a < 2 ^ k → bit_or a (m * 2 ^ k) ≡ a + m * 2 ^ k
bit_or_high zero zero m h = omega (arith, zero-bit_or (m * 2 ^ 0))
bit_or_high zero (suc a) m h = absurd (omega arith)
bit_or_high (suc k) a m h =
    ground (
      arith,
      bit_or_digit a (m * 2 ^ suc k),
      shifted_mask k m,
      pow-suc 2 k,
      bit_or_high k (a / 2) m,
    )
