-- ===== src/Batch/Settled.antt =====
-- A batch that is settled, and the loop up to a batch with a row: `FetchNextBatch`, src/include/bit_lsm_iterator.cpp.
use bit_lsm.Base.{
  ◌≡◌, refl, ap, ◌∙◌, inl, inr, Bool, false, Bool-cases, Option, none, some, List, [], ◌∷◌, ◌++◌,
  if◌then◌else◌, arith,
}
use bit_lsm.Bytes.{Bytes}
use bit_lsm.Scan.{InternalIterator}
use bit_lsm.Batch.{MergedRow, Settings, is_candidate_mode}
use bit_lsm.Batch.Fetch.{BatchIterator, settle, verify_batch}
use bit_lsm.Batch.Verdicts.{
  Found, candidates_of, Fetches, AllJudged, answers, answer_value, bare_keys, scan_rows-answers,
  keys_only-bare_keys, merge_from-answers,
}

module _ (settings : Settings) (newest : Bytes → Option Bytes) where
  -- What a scan gives for the rows found: bare keys in candidate mode, else the answers.
  abbrev pub results : List Found → List (Bytes × Option Bytes)
  results found =
      if is_candidate_mode settings.result_mode
      then bare_keys settings newest found
      else answers settings newest found

  -- Candidate mode asks nothing of the check.
  abbrev pub AllGood : List Found → Type 0
  AllGood found = is_candidate_mode settings.result_mode ≡ false → AllJudged settings newest found

  AllJudged-split :
      (xs ys : List Found)
      → AllJudged settings newest (xs ++ ys)
      → AllJudged settings newest xs × AllJudged settings newest ys
  AllJudged-split [] ys j = (tt, j)
  AllJudged-split (x ∷ xs) ys j =
      let (left, right) = AllJudged-split xs ys j.1 in ((j.0, left), right)

  pub AllGood-split : (xs ys : List Found) → AllGood (xs ++ ys) → AllGood xs × AllGood ys
  AllGood-split xs ys good = (
    (λ mode. (AllJudged-split xs ys (good mode)).0),
    (λ mode. (AllJudged-split xs ys (good mode)).1),
  )

  answer_value-append :
      (key : Bytes) (o : Option Bytes) (xs ys : List (Bytes × Option Bytes))
      → answer_value settings newest key o (xs ++ ys) ≡ answer_value settings newest key o xs ++ ys
  answer_value-append key none xs ys = refl
  answer_value-append key (some v) xs ys = ground arith

  answers-append :
      (xs ys : List Found)
      → answers settings newest (xs ++ ys)
        ≡ answers settings newest xs ++ answers settings newest ys
  answers-append [] ys = refl
  answers-append ((row, ikey) ∷ xs) ys =
      ap (answer_value settings newest ikey.user_key (newest ikey.user_key)) (answers-append xs ys)
      ∙ answer_value-append ikey.user_key (newest ikey.user_key) (answers settings newest xs)
          (answers settings newest ys)

  bare_keys-append :
      (xs ys : List Found)
      → bare_keys settings newest (xs ++ ys)
        ≡ bare_keys settings newest xs ++ bare_keys settings newest ys
  bare_keys-append [] ys = refl
  bare_keys-append ((row, ikey) ∷ xs) ys =
      ap (λ l. (ikey.user_key, none) ∷ l) (bare_keys-append xs ys)

  pub results-append : (xs ys : List Found) → results (xs ++ ys) ≡ results xs ++ results ys
  results-append xs ys = elim (Bool-cases (is_candidate_mode settings.result_mode)) [
    | inl mode ↦ rw mode (bare_keys-append xs ys)
    | inr mode ↦ rw mode (answers-append xs ys)
  ]

  module _ {It : Type 0} (merge : InternalIterator It MergedRow) where
    -- Nothing but the batch and the counters changed.
    abbrev pub Settles :
        BatchIterator It → List (Bytes × Option Bytes) → Bool × BatchIterator It → Type 0
    Settles it rows (failed, after) =
        (failed ≡ false)
        × ((after.batch ≡ rows)
            × ((after.smi ≡ it.smi)
                × ((after.latest_user_key_added ≡ it.latest_user_key_added)
                    × ((after.status ≡ it.status) × (after.batch_cur_idx ≡ it.batch_cur_idx)))))

    module _
        (reads : is_candidate_mode settings.result_mode ≡ false
          → (key : Bytes) → Fetches settings newest (settings.get key) (newest key)) where
      verify_batch-Settles :
          (it : BatchIterator It) (found : List Found)
          → is_candidate_mode settings.result_mode ≡ false
          → AllJudged settings newest found
          → Settles it
              (answers settings newest found)
              (verify_batch settings merge it (candidates_of settings it.check_enabled found))
      verify_batch-Settles it found mode judged =
          let merged =
            merge_from-answers settings newest (reads mode) it.check_enabled found judged in
          elim (Bool-cases it.check_enabled) [
            | inl checks ↦ rw (merged, checks) (refl, (refl, (refl, (refl, (refl, refl)))))
            | inr off ↦ rw (merged, off) (refl, (refl, (refl, (refl, (refl, refl)))))
          ]

      pub settle-Settles :
          (it : BatchIterator It) (found : List Found)
          → AllGood found
          → Settles it
              (results found)
              (settle settings merge it (candidates_of settings it.check_enabled found))
      settle-Settles it found good = elim (Bool-cases (is_candidate_mode settings.result_mode)) [
        | inl mode ↦
            rw (mode, keys_only-bare_keys settings newest it.check_enabled found)
              (refl, (refl, (refl, (refl, (refl, refl)))))
        | inr mode ↦ elim (Bool-cases settings.authoritative_scan) [
          | inl all ↦
              simp
                (
                  mode,
                  all,
                  scan_rows-answers settings newest it.check_enabled found all (good mode),
                )
                (refl, (refl, (refl, (refl, (refl, refl)))))
          | inr judge ↦ simp (mode, judge) (verify_batch-Settles it found mode (good mode))
        ]
      ]
