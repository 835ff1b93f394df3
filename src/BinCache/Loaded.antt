-- ===== src/BinCache/Loaded.antt =====
-- The views that `BinRange` of src/include/sabi_reader.cpp loads.
use mathlib.Core.Path.{subst}
use bit_lsm.Base.{
  ℕ, zero, suc, ◌+◌, ◌-◌, ◌≤◌, ◌<◌, ◌≡◌, ◌⊎◌, inl, inr, refl, ap, ◌∙◌, false, Option, none, some,
  List, [], ◌∷◌, ◌++◌, length, take, drop, ltb, arith, length-take, length-drop,
}
use bit_lsm.Bytes.{Bytes}
use bit_lsm.Memory.{read}
use bit_lsm.Row.{sub32}
use bit_lsm.Scalar.{u32_mod}
use bit_lsm.BinCache.{
  BinLayout, offset_at, size_at, missing, append_loaded, views_of, run_len, load_run, probe_all,
  fill, bin_range,
}

drop-drop : (p d : ℕ) (xs : Bytes) → drop d (drop p xs) ≡ drop (p + d) xs
drop-drop zero d xs = ap (λ (n : ℕ). drop n xs) (omega arith)
drop-drop (suc p) zero [] = let moved : suc p + 0 ≡ suc (p + 0) = omega arith in rw moved refl
drop-drop (suc p) (suc d) [] =
    let moved : suc p + suc d ≡ suc (p + suc d) = omega arith in rw moved refl
drop-drop (suc p) d (x ∷ xs) =
    let moved : suc p + d ≡ suc (p + d) = omega arith in rw moved (drop-drop p d xs)

take-drop-take :
    (d s len : ℕ) (xs : Bytes) → d + s ≤ len → take s (drop d (take len xs)) ≡ take s (drop d xs)
take-drop-take zero zero len xs h = refl
take-drop-take zero (suc s) zero xs h = absurd (omega arith)
take-drop-take zero (suc s) (suc len) [] h = refl
take-drop-take zero (suc s) (suc len) (x ∷ xs) h =
    ap (λ t. x ∷ t) (take-drop-take zero s len xs (omega arith))
take-drop-take (suc d) s zero xs h = absurd (omega arith)
take-drop-take (suc d) s (suc len) [] h = refl
take-drop-take (suc d) s (suc len) (x ∷ xs) h = take-drop-take d s len xs (omega arith)

-- Bins follow one another below 2^32, up to the last one.
pub record IsLaidOut (layout : BinLayout) (total : ℕ) (file : Bytes) : Type 0 where
  pub starts : (i j : ℕ) → i ≤ j → j ≤ total → offset_at layout i ≤ offset_at layout j
  pub ends :
      (i j : ℕ)
      → i ≤ j
      → j ≤ total
      → offset_at layout i + size_at layout i ≤ offset_at layout j + size_at layout j
  pub bounded : (i : ℕ) → i ≤ total → offset_at layout i + size_at layout i < u32_mod
  pub inside :
      (i : ℕ) → i ≤ total → layout.udi_off + offset_at layout i + size_at layout i ≤ length file

module _ {View : Type 0} (layout : BinLayout) (file : Bytes) (frozen_view : Bytes → View) where
  -- The view of a bin's bytes in the file.
  abbrev pub bin_view : ℕ → View
  bin_view i = frozen_view (read file (layout.udi_off + offset_at layout i) (size_at layout i))

  unfoldable pub bin_views : ℕ → ℕ → List View
  bin_views i zero = []
  bin_views i (suc n) = bin_view i ∷ bin_views (i + 1) n

  pub bin_views-append : (i m n : ℕ) → bin_views i m ++ bin_views (i + m) n ≡ bin_views i (m + n)
  unfolding bin_views
  bin_views-append i zero n =
      let same_start : i + 0 ≡ i = omega arith in
      let same_count : n ≡ 0 + n = omega arith in
      ap (λ (k : ℕ). bin_views k n) same_start ∙ ap (λ (k : ℕ). bin_views i k) same_count
  bin_views-append i (suc m) n =
      let next : i + suc m ≡ i + 1 + m = omega arith in
      let count : suc m + n ≡ suc (m + n) = omega arith in
      rw (next, count) (ap (λ t. bin_view i ∷ t) (bin_views-append (i + 1) m n))

-- A bin's bytes inside the bytes of a run that covers it.
read-run :
    (file : Bytes) (udi_off first start size len : ℕ)
    → first ≤ start
    → start < u32_mod
    → start - first + size ≤ len
    → read (read file (udi_off + first) len) (sub32 start first) size
      ≡ read file (udi_off + start) size
unfolding read
read-run file udi_off first start size len h k fits =
    let at : sub32 start first ≡ start - first = omega arith in
    let there : udi_off + first + (start - first) ≡ udi_off + start = omega arith in
    rw at (
      take-drop-take (start - first) size len (drop (udi_off + first) file) fits
      ∙ ap (λ t. take size t) (drop-drop (udi_off + first) (start - first) file)
      ∙ ap (λ (n : ℕ). take size (drop n file)) there)

length-read :
    (file : Bytes) (off len : ℕ) → off + len ≤ length file → length (read file off len) ≡ len
unfolding read
length-read file off len h = omega (arith, length-take len (drop off file), length-drop off file)

missing-le : {A : Type 0} (slots : List (Option A)) → missing slots ≤ length slots
unfolding missing
missing-le [] = omega arith
missing-le (some v ∷ slots) = omega arith
missing-le (none ∷ slots) = omega (arith, missing-le slots)

append_loaded-some :
    {A : Type 0} (vs ws : List A) (a b : Option (List A))
    → a ≡ some vs
    → b ≡ some ws
    → append_loaded a b ≡ some (vs ++ ws)
append_loaded-some vs ws a b h k = rw (h, k) refl

module _ {View : Type 0} (layout : BinLayout) (file : Bytes) (read_file : ℕ → ℕ → Option Bytes)
    (frozen_view : Bytes → View) (probe : ℕ → Option View) (total : ℕ) where
  -- A read inside the file succeeds.
  abbrev pub Reads : Type 0
  Reads = (off len : ℕ) → off + len ≤ length file → read_file off len ≡ some (read file off len)

  -- What is cached for a bin is its view.
  abbrev pub Coherent : Type 0
  Coherent = (i : ℕ) → (probe i ≡ none) ⊎ (probe i ≡ some (bin_view layout file frozen_view i))

  run_len-value :
      (a b : ℕ)
      → IsLaidOut layout total file
      → a ≤ b
      → b ≤ total
      → run_len layout read_file frozen_view probe a b
        ≡ offset_at layout b - offset_at layout a + size_at layout b
  run_len-value a b laid h k = omega (arith, laid.starts a b h k, laid.bounded b k)

  views_of-bin_views :
      (n a b i : ℕ)
      → IsLaidOut layout total file
      → a ≤ i
      → i + n ≤ b + 1
      → b ≤ total
      → views_of layout read_file frozen_view probe a
          (read file
            (layout.udi_off + offset_at layout a)
            (run_len layout read_file frozen_view probe a b))
          i
          n
        ≡ bin_views layout file frozen_view i n
  unfolding views_of bin_views
  views_of-bin_views zero a b i laid h k t = refl
  views_of-bin_views (suc n) a b i laid h k t =
      let here =
        read-run file layout.udi_off (offset_at layout a) (offset_at layout i) (size_at layout i)
          (run_len layout read_file frozen_view probe a b) (laid.starts a i h (omega arith))
          (omega (arith, laid.bounded i (omega arith)))
          (omega (
            arith,
            run_len-value a b laid (omega arith) t,
            laid.ends i b (omega arith) t,
            laid.starts a i h (omega arith),
            laid.starts i b (omega arith) t,
          )) in
      let there = views_of-bin_views n a b (i + 1) laid (omega arith) (omega arith) t in
      ap
        (λ bytes.
          frozen_view bytes
          ∷ views_of layout read_file frozen_view probe a
              (read file (layout.udi_off + offset_at layout a)
                (run_len layout read_file frozen_view probe a b))
              (i + 1) n)
        here
      ∙ ap (λ vs. bin_view layout file frozen_view i ∷ vs) there

  load_run-bin_views :
      (a b : ℕ)
      → IsLaidOut layout total file
      → Reads
      → a ≤ b
      → b ≤ total
      → load_run layout read_file frozen_view probe a b
        ≡ some (bin_views layout file frozen_view a (b - a + 1))
  unfolding load_run
  load_run-bin_views a b laid reads h k =
      let fits : layout.udi_off
            + offset_at layout a
            + run_len layout read_file frozen_view probe a b
          ≤ length file =
        omega (arith, run_len-value a b laid h k, laid.inside b k, laid.starts a b h k) in
      let long : ltb
            (length (
              read file (layout.udi_off + offset_at layout a)
                (run_len layout read_file frozen_view probe a b)))
            (run_len layout read_file frozen_view probe a b)
          ≡ false =
        ground (
          arith,
          length-read file (layout.udi_off + offset_at layout a)
              (run_len layout read_file frozen_view probe a b) fits,
        ) in
      rw
        (
          reads (layout.udi_off + offset_at layout a)
              (run_len layout read_file frozen_view probe a b) fits,
          long,
        )
        (ap some (views_of-bin_views (b - a + 1) a b a laid (omega arith) (omega arith) k))

  -- Slots from bin `i` on, each empty or the bin's view.
  abbrev Probed : ℕ → List (Option View) → Type 0
  Probed i [] = Unit {0}
  Probed i (none ∷ slots) = Probed (i + 1) slots
  Probed i (some v ∷ slots) = (v ≡ bin_view layout file frozen_view i) × Probed (i + 1) slots

  Probed-drop :
      (n i : ℕ) (slots : List (Option View)) → Probed i slots → Probed (i + n) (drop n slots)
  Probed-drop zero i slots h = let same : i + 0 ≡ i = omega arith in rw same h
  Probed-drop (suc n) i [] h = tt
  Probed-drop (suc n) i (none ∷ slots) h =
      let next : i + suc n ≡ i + 1 + n = omega arith in rw next (Probed-drop n (i + 1) slots h)
  Probed-drop (suc n) i (some v ∷ slots) h =
      let next : i + suc n ≡ i + 1 + n = omega arith in rw next (Probed-drop n (i + 1) slots h.1)

  joined_views :
      (i run count left : ℕ)
      → run ≤ count
      → left ≡ count - run
      → bin_views layout file frozen_view i (i + run - i + 1)
          ++ bin_views layout file frozen_view (i + run + 1) left
        ≡ bin_views layout file frozen_view i (suc count)
  joined_views i run count left h e =
      let size : i + run - i + 1 ≡ run + 1 = omega arith in
      let start : i + run + 1 ≡ i + (run + 1) = omega arith in
      let whole : run + 1 + left ≡ suc count = omega arith in
      rw (size, start)
        (bin_views-append layout file frozen_view i (run + 1) left
          ∙ ap (λ (k : ℕ). bin_views layout file frozen_view i k) whole)

  fill-bin_views :
      (fuel i : ℕ) (slots : List (Option View))
      → IsLaidOut layout total file
      → Reads
      → length slots ≤ fuel
      → i + length slots ≤ total + 1
      → Probed i slots
      → fill layout read_file frozen_view probe fuel i slots
        ≡ some (bin_views layout file frozen_view i (length slots))
  unfolding fill bin_views
  fill-bin_views zero i [] laid reads h k p = refl
  fill-bin_views (suc fuel) i [] laid reads h k p = refl
  fill-bin_views zero i (slot ∷ slots) laid reads h k p = absurd (omega arith)
  fill-bin_views (suc fuel) i (some v ∷ slots) laid reads h k p =
      append_loaded-some (v ∷ []) (bin_views layout file frozen_view (i + 1) (length slots))
        (some (v ∷ [])) _ refl
        (fill-bin_views fuel (i + 1) slots laid reads (omega arith) (omega arith) p.1)
      ∙ ap (λ w. some (w ∷ bin_views layout file frozen_view (i + 1) (length slots))) p.0
  fill-bin_views (suc fuel) i (none ∷ slots) laid reads h k p =
      let run : ℕ = missing slots in
      let short : missing slots ≤ length slots = missing-le slots in
      let loaded =
        load_run-bin_views i (i + missing slots) laid reads (omega arith) (omega arith) in
      let left : length (drop (missing slots) slots) ≡ length slots - missing slots =
        length-drop (missing slots) slots in
      let moved : i + 1 + missing slots ≡ i + missing slots + 1 = omega arith in
      let rest =
        fill-bin_views fuel (i + missing slots + 1) (drop (missing slots) slots) laid reads
          (omega arith) (omega arith)
          (subst (λ (k : ℕ). Probed k (drop (missing slots) slots)) moved
            (Probed-drop (missing slots) (i + 1) slots p)) in
      append_loaded-some (bin_views layout file frozen_view i (i + missing slots - i + 1))
        (bin_views layout file frozen_view (i + missing slots + 1)
          (length (drop (missing slots) slots)))
        (load_run layout read_file frozen_view probe i (i + missing slots)) _ loaded rest
      ∙ ap some (
          joined_views i (missing slots) (length slots) (length (drop (missing slots) slots)) short
            left)

  length-probe_all : (i n : ℕ) → length (probe_all layout read_file frozen_view probe i n) ≡ n
  unfolding probe_all
  length-probe_all i zero = refl
  length-probe_all i (suc n) = ap suc (length-probe_all (i + 1) n)

  probe_all-Probed :
      (i n : ℕ) → Coherent → Probed i (probe_all layout read_file frozen_view probe i n)
  unfolding probe_all
  probe_all-Probed i zero c = tt
  probe_all-Probed i (suc n) c = elim (c i) [
    | inl gone ↦ rw gone (probe_all-Probed (i + 1) n c)
    | inr hit ↦ rw hit (refl, probe_all-Probed (i + 1) n c)
  ]

  -- Whatever bins the cache holds, if what it holds of a bin is the view of the bin's bytes, reads inside the
  -- file succeed and the bins follow one another in the file below 2^32, BinRange gives the views of the bins
  -- from the first to the last, in order.
  pub bin_range-bin_views :
      (first_flat last_flat : ℕ)
      → IsLaidOut layout total file
      → Reads
      → Coherent
      → first_flat ≤ last_flat
      → last_flat ≤ total
      → bin_range layout read_file frozen_view probe first_flat last_flat
        ≡ some (bin_views layout file frozen_view first_flat (last_flat - first_flat + 1))
  unfolding bin_range
  bin_range-bin_views first_flat last_flat laid reads coherent h k =
      let n : ℕ = last_flat - first_flat + 1 in
      let count = length-probe_all first_flat (last_flat - first_flat + 1) in
      fill-bin_views (last_flat - first_flat + 1) first_flat
        (probe_all layout read_file frozen_view probe first_flat (last_flat - first_flat + 1)) laid
        reads (omega arith) (omega arith)
        (probe_all-Probed first_flat (last_flat - first_flat + 1) coherent)
      ∙ ap (λ (m : ℕ). some (bin_views layout file frozen_view first_flat m)) count
