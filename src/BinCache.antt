-- ===== src/BinCache.antt =====
-- Loading a span of bins through the bin cache: `LoadRun` and `BinRange` of src/include/sabi_reader.cpp, for a reader
-- that keeps no bitmaps. The block cache, the table file and CRoaring's frozen view are parameters: a probe of the
-- cache, a read of the file that gives none on failure, and the view of a bin's bytes. Inserting a loaded bin into
-- the cache changes no view and is left out.
pub mod Loaded
use bit_lsm.Base.{
  ℕ, zero, suc, ◌+◌, ◌-◌, Bool, true, false, Option, none, some, List, [], ◌∷◌, ◌++◌, length,
  get_or, drop, ltb, if◌then◌else◌,
}
use bit_lsm.Bytes.{Bytes}
use bit_lsm.Memory.{read}
use bit_lsm.Row.{add32, sub32}

-- Where the index block begins in the file, and each bin's padded start and exact size in it.
pub record BinLayout : Type 0 where
  pub udi_off : ℕ
  pub bitmap_offsets : List ℕ
  pub bitmap_sizes : List ℕ

abbrev pub offset_at : BinLayout → ℕ → ℕ
offset_at layout i = get_or layout.bitmap_offsets i 0

abbrev pub size_at : BinLayout → ℕ → ℕ
size_at layout i = get_or layout.bitmap_sizes i 0

-- The misses at the front.
unfoldable pub missing {ℓ} : {A : Type ℓ} → List (Option A) → ℕ
missing [] = 0
missing (some v ∷ slots) = 0
missing (none ∷ slots) = suc (missing slots)

abbrev pub append_loaded {ℓ} : {A : Type ℓ} → Option (List A) → Option (List A) → Option (List A)
append_loaded none rest = none
append_loaded (some vs) none = none
append_loaded (some vs) (some ws) = some (vs ++ ws)

module _ {View : Type 0} (layout : BinLayout) (read_file : ℕ → ℕ → Option Bytes)
    (frozen_view : Bytes → View) (probe : ℕ → Option View) where
  -- The views of so many bins from `i` on, in the arena of a run that begins at bin `a`.
  unfoldable pub views_of : ℕ → Bytes → ℕ → ℕ → List View
  views_of a arena i zero = []
  views_of a arena i (suc n) =
      frozen_view (read arena (sub32 (offset_at layout i) (offset_at layout a)) (size_at layout i))
      ∷ views_of a arena (i + 1) n

  abbrev pub run_len : ℕ → ℕ → ℕ
  run_len a b = add32 (sub32 (offset_at layout b) (offset_at layout a)) (size_at layout b)

  -- A failed or short read fails the run.
  abbrev pub views_of_run : ℕ → ℕ → Option Bytes → Option (List View)
  views_of_run a b none = none
  views_of_run a b (some arena) =
      if ltb (length arena) (run_len a b) then none else some (views_of a arena a (b - a + 1))

  -- `LoadRun` of the bins from `a` to `b`: one read.
  unfoldable pub load_run : ℕ → ℕ → Option (List View)
  load_run a b = views_of_run a b (read_file (layout.udi_off + offset_at layout a) (run_len a b))

  unfoldable pub probe_all : ℕ → ℕ → List (Option View)
  probe_all i zero = []
  probe_all i (suc n) = probe i ∷ probe_all (i + 1) n

  -- The loop over the slots from bin `i` on: each maximal run of misses is one load. `fuel` bounds the rounds.
  unfoldable pub fill : ℕ → ℕ → List (Option View) → Option (List View)
  fill fuel i [] = some []
  fill zero i (slot ∷ slots) = none
  fill (suc fuel) i (some v ∷ slots) = append_loaded (some (v ∷ [])) (fill fuel (i + 1) slots)
  fill (suc fuel) i (none ∷ slots) =
      append_loaded (load_run i (i + missing slots))
        (fill fuel (i + missing slots + 1) (drop (missing slots) slots))

  -- `BinRange`, in flat order.
  unfoldable pub bin_range : ℕ → ℕ → Option (List View)
  bin_range first_flat last_flat =
      fill (last_flat - first_flat + 1) first_flat
        (probe_all first_flat (last_flat - first_flat + 1))
