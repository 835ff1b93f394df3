-- ===== src/SpanPlan.antt =====
-- Which bins are read ahead: the plan of `SABISpanPrefetch::PlanAndSubmit` in src/include/sabi_reader.cpp. What is
-- cached is a parameter; submitting a planned run is RocksDB's and left out.
pub mod Exact
use bit_lsm.Base.{
  ℕ, zero, suc, ◌+◌, ◌-◌, ◌%◌, Bool, true, false, Option, none, some, List, [], ◌∷◌, ◌++◌, length,
  leb, ltb, if◌then◌else◌,
}
use Prim.Native.Nat.{max}
use bit_lsm.Scalar.{u32_mod}
use bit_lsm.Reader.{BinSelection}

unfoldable pub insert : BinSelection → List BinSelection → List BinSelection
insert s [] = s ∷ []
insert s (t ∷ sorted) = if leb s.first t.first then s ∷ t ∷ sorted else t ∷ insert s sorted

-- `std::sort` by the first bin.
unfoldable pub sort : List BinSelection → List BinSelection
sort [] = []
sort (s ∷ selections) = insert s (sort selections)

-- `intervals.back()` is `back`: a selection that reaches it or is adjacent widens it.
unfoldable pub union_from : BinSelection → List BinSelection → List BinSelection
union_from back [] = back ∷ []
union_from back (sel ∷ sorted) =
    if leb sel.first ((back.last + 1) % u32_mod)
    then union_from (record { first = back.first; last = max back.last sel.last }) sorted
    else back ∷ union_from sel sorted

unfoldable pub intervals : List BinSelection → List BinSelection
intervals [] = []
intervals (sel ∷ sorted) = union_from sel sorted

-- The end of a run that has begun.
abbrev pub close_run : Option ℕ → ℕ → List BinSelection
close_run none last = []
close_run (some run_start) last = record { first = run_start; last = last } ∷ []

abbrev pub open_run : Option ℕ → ℕ → Option ℕ
open_run none i = some i
open_run (some run_start) i = some run_start

module _ (cached : ℕ → Bool) where
  -- The loop over so many bins from `i` on; `run_start` is none for the source's `kNoRun`.
  unfoldable pub runs_from : ℕ → ℕ → Option ℕ → List BinSelection
  runs_from i zero run_start = close_run run_start (i - 1)
  runs_from i (suc count) run_start =
      if cached i
      then close_run run_start (i - 1) ++ runs_from (i + 1) count none
      else runs_from (i + 1) count (open_run run_start i)

  -- The missing bins of an interval, as maximal runs.
  unfoldable pub interval_runs : BinSelection → List BinSelection
  interval_runs iv = runs_from iv.first (iv.last + 1 - iv.first) none

  unfoldable pub all_runs : List BinSelection → List BinSelection
  all_runs [] = []
  all_runs (iv ∷ ivs) = interval_runs iv ++ all_runs ivs

  unfoldable pub planned_runs : List BinSelection → List BinSelection
  planned_runs selections = all_runs (intervals (sort selections))

  -- A lone run overlaps nothing and is skipped.
  unfoldable pub plan : List BinSelection → List BinSelection
  plan selections =
      let runs : List BinSelection = planned_runs selections in
      if ltb (length runs) 2 then [] else runs
