-- ===== src/SpanPlan/Exact.antt =====
-- The bins in the plan of `SABISpanPrefetch`, src/include/sabi_reader.cpp.
use bit_lsm.Base.{
  ℕ, zero, suc, ◌+◌, ◌-◌, ◌%◌, ◌≤◌, ◌<◌, ◌≡◌, refl, ap, ◌∙◌, inl, inr, Bool, true, false,
  Bool-cases, not, ◌&&◌, ◌||◌, Option, none, some, List, [], ◌∷◌, ◌++◌, length, leb, ltb, arith,
}
use Prim.Native.Nat.{max}
use bit_lsm.Scalar.{u32_mod}
use bit_lsm.Reader.{BinSelection}
use bit_lsm.SpanPlan.{
  insert, sort, union_from, intervals, close_run, open_run, runs_from, interval_runs, all_runs,
  plan, planned_runs,
}

or_swap : (t s c : Bool) → (t || (s || c)) ≡ (s || (t || c))
or_swap t s c = ground arith

or_assoc : (s t c : Bool) → ((s || t) || c) ≡ (s || (t || c))
or_assoc s t c = ground arith

no_bins_left : (o n : Bool) (i b : ℕ) → o ≡ (o || ((leb i b && ltb b (i + 0)) && n))
no_bins_left o n i b = ground arith

-- One bin more, which is cached or not.
skip_bin :
    (o n : Bool) (i b count : ℕ)
    → (b ≡ i → n ≡ false)
    → (o || ((leb (i + 1) b && ltb b (i + 1 + count)) && n))
      ≡ (o || ((leb i b && ltb b (i + suc count)) && n))
skip_bin o n i b count h = ground arith

take_bin :
    (o n : Bool) (i b count : ℕ)
    → (b ≡ i → n ≡ true)
    → ((o || (leb i b && leb b i)) || ((leb (i + 1) b && ltb b (i + 1 + count)) && n))
      ≡ (o || ((leb i b && ltb b (i + suc count)) && n))
take_bin o n i b count h = ground arith

same_range :
    (first last b : ℕ) (n : Bool)
    → (false || ((leb first b && ltb b (first + (last + 1 - first))) && n))
      ≡ ((leb first b && leb b last) && n)
same_range first last b n = ground arith

factor : (s c n : Bool) → ((s && n) || (c && n)) ≡ ((s || c) && n)
factor s c n = ground arith

module _ (b : ℕ) where
  abbrev pub in_selection : BinSelection → Bool
  in_selection s = leb s.first b && leb b s.last

  -- Some selection of the list holds the bin.
  unfoldable pub covers : List BinSelection → Bool
  covers [] = false
  covers (s ∷ selections) = in_selection s || covers selections

  covers-append : (xs ys : List BinSelection) → covers (xs ++ ys) ≡ (covers xs || covers ys)
  unfolding covers
  covers-append [] ys = refl
  covers-append (x ∷ xs) ys = ground (arith, covers-append xs ys)

  covers-insert :
      (s : BinSelection) (l : List BinSelection)
      → covers (insert s l) ≡ (in_selection s || covers l)
  unfolding covers insert
  covers-insert s [] = refl
  covers-insert s (t ∷ l) = elim (Bool-cases (leb s.first t.first)) [
    | inl first ↦ rw first refl
    | inr later ↦
        rw (later, covers-insert s l) (or_swap (in_selection t) (in_selection s) (covers l))
  ]

  covers-sort : (l : List BinSelection) → covers (sort l) ≡ covers l
  unfolding covers sort
  covers-sort [] = refl
  covers-sort (s ∷ l) = covers-insert s (sort l) ∙ ap (λ c. in_selection s || c) (covers-sort l)

-- By ascending first bin, from `lo` on.
abbrev Ascending : ℕ → List BinSelection → Type 0
Ascending lo [] = Unit {0}
Ascending lo (s ∷ l) = (lo ≤ s.first) × Ascending s.first l

-- No last bin is the greatest 32-bit number.
abbrev pub AllSmall : List BinSelection → Type 0
AllSmall [] = Unit {0}
AllSmall (s ∷ l) = (s.last + 1 < u32_mod) × AllSmall l

Ascending-weaken : (lo hi : ℕ) (l : List BinSelection) → lo ≤ hi → Ascending hi l → Ascending lo l
Ascending-weaken lo hi [] h a = tt
Ascending-weaken lo hi (s ∷ l) h a = (omega (arith, a.0), a.1)

insert-Ascending :
    (lo : ℕ) (s : BinSelection) (l : List BinSelection)
    → lo ≤ s.first
    → Ascending lo l
    → Ascending lo (insert s l)
unfolding insert
insert-Ascending lo s [] h a = (h, tt)
insert-Ascending lo s (t ∷ l) h a = elim (Bool-cases (leb s.first t.first)) [
  | inl first ↦ rw first (h, (ground arith, a.1))
  | inr later ↦ rw later (a.0, insert-Ascending t.first s l (ground arith) a.1)
]

sort-Ascending : (l : List BinSelection) → Ascending 0 (sort l)
unfolding sort
sort-Ascending [] = tt
sort-Ascending (s ∷ l) = insert-Ascending 0 s (sort l) (omega arith) (sort-Ascending l)

insert-AllSmall :
    (s : BinSelection) (l : List BinSelection)
    → s.last + 1 < u32_mod
    → AllSmall l
    → AllSmall (insert s l)
unfolding insert
insert-AllSmall s [] h a = (h, tt)
insert-AllSmall s (t ∷ l) h a = elim (Bool-cases (leb s.first t.first)) [
  | inl first ↦ rw first (h, a)
  | inr later ↦ rw later (a.0, insert-AllSmall s l h a.1)
]

sort-AllSmall : (l : List BinSelection) → AllSmall l → AllSmall (sort l)
unfolding sort
sort-AllSmall [] a = tt
sort-AllSmall (s ∷ l) a = insert-AllSmall s (sort l) a.0 (sort-AllSmall l a.1)

-- A selection that begins inside or next to another one makes one interval with it.
in_selection-joined :
    (b : ℕ) (back sel : BinSelection)
    → back.first ≤ sel.first
    → sel.first ≤ back.last + 1
    → in_selection b (record { first = back.first; last = max back.last sel.last })
      ≡ (in_selection b back || in_selection b sel)
in_selection-joined b back sel h k = ground arith

covers-union_from :
    (b : ℕ) (back : BinSelection) (l : List BinSelection)
    → Ascending back.first l
    → back.last + 1 < u32_mod
    → AllSmall l
    → covers b (union_from back l) ≡ (in_selection b back || covers b l)
unfolding covers union_from
covers-union_from b back [] a h k = refl
covers-union_from b back (sel ∷ l) a h k =
    elim (Bool-cases (leb sel.first ((back.last + 1) % u32_mod))) [
      | inl joined ↦ rw joined (
          covers-union_from b (record { first = back.first; last = max back.last sel.last }) l
            (Ascending-weaken back.first sel.first l a.0 a.1) (omega (arith, k.0)) k.1
          ∙ ap (λ c. c || covers b l) (in_selection-joined b back sel a.0 (ground arith))
          ∙ or_assoc (in_selection b back) (in_selection b sel) (covers b l))
      | inr apart ↦
          rw apart (ap (λ c. in_selection b back || c) (covers-union_from b sel l a.1 k.0 k.1))
    ]

covers-intervals :
    (b : ℕ) (l : List BinSelection)
    → Ascending 0 l
    → AllSmall l
    → covers b (intervals l) ≡ covers b l
unfolding covers intervals
covers-intervals b [] a k = refl
covers-intervals b (s ∷ l) a k = covers-union_from b s l a.1 k.0 k.1

module _ (cached : ℕ → Bool) (b : ℕ) where
  -- What a run that is still open holds before bin `i`.
  abbrev in_open : Option ℕ → ℕ → Bool
  in_open none i = false
  in_open (some a) i = leb a b && ltb b i

  abbrev StartsBefore : Option ℕ → ℕ → Type 0
  StartsBefore none i = Unit {0}
  StartsBefore (some a) i = a < i

  covers-close_run :
      (start : Option ℕ) (i : ℕ)
      → StartsBefore start i
      → covers b (close_run start (i - 1)) ≡ in_open start i
  unfolding covers
  covers-close_run none i h = refl
  covers-close_run (some a) i h = ground arith

  in_open-open_run :
      (start : Option ℕ) (i : ℕ)
      → StartsBefore start i
      → in_open (open_run start i) (i + 1) ≡ (in_open start i || (leb i b && leb b i))
  in_open-open_run none i h = ground arith
  in_open-open_run (some a) i h = ground arith

  open_run-StartsBefore :
      (start : Option ℕ) (i : ℕ) → StartsBefore start i → StartsBefore (open_run start i) (i + 1)
  open_run-StartsBefore none i h = omega arith
  open_run-StartsBefore (some a) i h = omega arith

  covers-runs_from :
      (count i : ℕ) (start : Option ℕ)
      → StartsBefore start i
      → covers b (runs_from cached i count start)
        ≡ (in_open start i || ((leb i b && ltb b (i + count)) && not (cached b)))
  unfolding runs_from
  covers-runs_from zero i start h =
      covers-close_run start i h ∙ no_bins_left (in_open start i) (not (cached b)) i b
  covers-runs_from (suc count) i start h = elim (Bool-cases (cached i)) [
    | inl hit ↦ rw hit (
        covers-append b (close_run start (i - 1)) (runs_from cached (i + 1) count none)
        ∙ ap (λ c. c || covers b (runs_from cached (i + 1) count none)) (covers-close_run start i h)
        ∙ ap (λ c. in_open start i || c) (covers-runs_from count (i + 1) none tt)
        ∙ skip_bin (in_open start i) (not (cached b)) i b count
            (λ e. ap (λ k. not (cached k)) e ∙ ap not hit))
    | inr miss ↦ rw miss (
        covers-runs_from count (i + 1) (open_run start i) (open_run-StartsBefore start i h)
        ∙ ap (λ c. c || ((leb (i + 1) b && ltb b (i + 1 + count)) && not (cached b)))
            (in_open-open_run start i h)
        ∙ take_bin (in_open start i) (not (cached b)) i b count
            (λ e. ap (λ k. not (cached k)) e ∙ ap not miss))
  ]

  covers-interval_runs :
      (iv : BinSelection)
      → covers b (interval_runs cached iv) ≡ (in_selection b iv && not (cached b))
  unfolding interval_runs
  covers-interval_runs iv =
      covers-runs_from (iv.last + 1 - iv.first) iv.first none tt
      ∙ same_range iv.first iv.last b (not (cached b))

  covers-all_runs :
      (ivs : List BinSelection) → covers b (all_runs cached ivs) ≡ (covers b ivs && not (cached b))
  unfolding all_runs covers
  covers-all_runs [] = refl
  covers-all_runs (iv ∷ ivs) =
      covers-append b (interval_runs cached iv) (all_runs cached ivs)
      ∙ ap (λ c. c || covers b (all_runs cached ivs)) (covers-interval_runs iv)
      ∙ ap (λ c. (in_selection b iv && not (cached b)) || c) (covers-all_runs ivs)
      ∙ factor (in_selection b iv) (covers b ivs) (not (cached b))

  covers-planned_runs :
      (selections : List BinSelection)
      → AllSmall selections
      → covers b (planned_runs cached selections) ≡ (covers b selections && not (cached b))
  unfolding planned_runs
  covers-planned_runs selections small =
      covers-all_runs (intervals (sort selections))
      ∙ ap (λ c. c && not (cached b))
          (covers-intervals b (sort selections) (sort-Ascending selections)
              (sort-AllSmall selections small)
            ∙ covers-sort b selections)

  -- Where the missing bins form at least two runs, the planned runs hold exactly the selected bins that are not
  -- cached, for selections whose last bins are below 2^32 - 1.
  pub covers-plan :
      (selections : List BinSelection)
      → AllSmall selections
      → 2 ≤ length (planned_runs cached selections)
      → covers b (plan cached selections) ≡ (covers b selections && not (cached b))
  unfolding plan
  covers-plan selections small several =
      let enough : ltb (length (planned_runs cached selections)) 2 ≡ false = ground arith in
      rw enough (covers-planned_runs selections small)
