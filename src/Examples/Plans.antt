-- ===== src/Examples/Plans.antt =====
-- Bins 1 to 3, 3 to 5 and 9, with bin 4 cached: three runs.
use bit_lsm.Base.{ℕ, ◌≡◌, refl, ◌&&◌, not, List, [], ◌∷◌, ◌==◌, arith, Bool}
use bit_lsm.Reader.{BinSelection}
use bit_lsm.SpanPlan.{
  insert, sort, union_from, intervals, runs_from, interval_runs, all_runs, planned_runs, plan,
}
use bit_lsm.SpanPlan.Exact.{covers, covers-plan}

abbrev selections : List BinSelection
selections =
    record { first = 3; last = 5 }
    ∷ record { first = 9; last = 9 }
    ∷ record { first = 1; last = 3 }
    ∷ []

abbrev only_four : ℕ → Bool
only_four i = i == 4

abbrev three_runs : List BinSelection
three_runs =
    record { first = 1; last = 3 }
    ∷ record { first = 5; last = 5 }
    ∷ record { first = 9; last = 9 }
    ∷ []

plans : planned_runs only_four selections ≡ three_runs
unfolding planned_runs all_runs interval_runs runs_from intervals union_from sort insert
plans = refl

covers-plan_example :
    covers 5 (plan only_four selections) ≡ (covers 5 selections && not (only_four 5))
covers-plan_example =
    covers-plan only_four 5 selections (omega arith, (omega arith, (omega arith, tt)))
      (rw plans (omega arith))
