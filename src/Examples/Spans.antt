-- ===== src/Examples/Spans.antt =====
-- Two bins of a file of ten bytes, the second one cached.
use bit_lsm.Base.{
  ℕ, zero, suc, ◌+◌, ◌-◌, ◌≤◌, ◌<◌, ◌≡◌, refl, inl, inr, Option, none, some, [], ◌∷◌, length, leb,
  if◌then◌else◌, arith,
}
use bit_lsm.Bytes.{Bytes}
use bit_lsm.Memory.{read}
use bit_lsm.Scalar.{u32_mod}
use bit_lsm.BinCache.{BinLayout, offset_at, size_at, bin_range}
use bit_lsm.BinCache.Loaded.{IsLaidOut, Reads, Coherent, bin_views, bin_range-bin_views}

abbrev file : Bytes
file = 90 ∷ 91 ∷ 1 ∷ 2 ∷ 3 ∷ 0 ∷ 4 ∷ 5 ∷ 6 ∷ 7 ∷ []

abbrev layout : BinLayout
layout = record { udi_off = 2; bitmap_offsets = 0 ∷ 4 ∷ 8 ∷ []; bitmap_sizes = 3 ∷ 4 ∷ [] }

abbrev read_file : ℕ → ℕ → Option Bytes
read_file off len = if leb (off + len) (length file) then some (read file off len) else none

abbrev as_bytes : Bytes → Bytes
as_bytes bytes = bytes

abbrev second_cached : ℕ → Option Bytes
second_cached (suc zero) = some (4 ∷ 5 ∷ 6 ∷ 7 ∷ [])
second_cached _ = none

starts : (i j : ℕ) → i ≤ j → j ≤ 1 → offset_at layout i ≤ offset_at layout j
starts zero j h k = omega arith
starts (suc zero) zero h k = absurd (omega arith)
starts (suc zero) (suc zero) h k = omega arith
starts (suc i) (suc (suc j)) h k = absurd (omega arith)
starts (suc (suc i)) zero h k = absurd (omega arith)
starts (suc (suc i)) (suc zero) h k = absurd (omega arith)

ends :
    (i j : ℕ)
    → i ≤ j
    → j ≤ 1
    → offset_at layout i + size_at layout i ≤ offset_at layout j + size_at layout j
ends zero zero h k = omega arith
ends zero (suc zero) h k = omega arith
ends (suc zero) zero h k = absurd (omega arith)
ends (suc zero) (suc zero) h k = omega arith
ends i (suc (suc j)) h k = absurd (omega arith)
ends (suc (suc i)) zero h k = absurd (omega arith)
ends (suc (suc i)) (suc zero) h k = absurd (omega arith)

bounded : (i : ℕ) → i ≤ 1 → offset_at layout i + size_at layout i < u32_mod
bounded zero h = omega arith
bounded (suc zero) h = omega arith
bounded (suc (suc i)) h = absurd (omega arith)

inside : (i : ℕ) → i ≤ 1 → layout.udi_off + offset_at layout i + size_at layout i ≤ length file
inside zero h = omega arith
inside (suc zero) h = omega arith
inside (suc (suc i)) h = absurd (omega arith)

laid : IsLaidOut layout 1 file
laid = record { starts = starts; ends = ends; bounded = bounded; inside = inside }

reads : Reads layout file read_file as_bytes second_cached 1
reads off len h = ground arith

coherent : Coherent layout file read_file as_bytes second_cached 1
unfolding read
coherent zero = inl refl
coherent (suc zero) = inr refl
coherent (suc (suc i)) = inl refl

bin_range-bin_views_example :
    bin_range layout read_file as_bytes second_cached 0 1
    ≡ some (bin_views layout file as_bytes 0 (1 - 0 + 1))
bin_range-bin_views_example =
    bin_range-bin_views layout file read_file as_bytes second_cached 1 0 1 laid reads coherent
      (omega arith) (omega arith)
