-- ===== src/Batch/Answers.antt =====
-- What a scan gives: `SeekToFirst` and `Next` of src/include/bit_lsm_iterator.cpp, over a merge that stands for a stream
-- of rows.
use bit_lsm.Base.{
  Bool, ℕ, zero, suc, ◌+◌, ◌<◌, ◌≡◌, refl, ap, ◌∙◌, sym, inl, inr, true, false, Bool-cases, Option,
  List, [], ◌∷◌, ◌++◌, length, length-drop, drop, leb, arith, if◌then◌else◌,
}
use mathlib.Core.Path.{subst}
use bit_lsm.Bytes.{Bytes}
use bit_lsm.Status.{Status, ok, is_ok}
use bit_lsm.Scan.{InternalIterator, Yields}
use bit_lsm.Scan.LevelRows.{drop-cons}
use bit_lsm.Batch.{MergedRow, Settings, is_candidate_mode, ResultMode, verified, candidate}
use bit_lsm.Batch.Fetch.{
  BatchIterator, is_empty, fetch, with_validity, fetch_next_batch, next, batch_iterator,
  seek_to_first, new_batch_iterator,
}
use bit_lsm.Batch.Verdicts.{Fetches, AllJudged, bare_keys, answers, Found}
use bit_lsm.Batch.Candidates.{distinct}
use bit_lsm.Batch.Settled.{results, AllGood}
use bit_lsm.Batch.Loop.{Went, Ready, fetch-Went, bad_status, is_ok→ok}

module _ (settings : Settings) (newest : Bytes → Option Bytes) {It : Type 0}
    (merge : InternalIterator It MergedRow) (fuel : ℕ) where
  abbrev Rows : Type 0
  Rows = List (Bytes × Option Bytes)

  -- The rows that a scan gives, those expected unless the merge ends in an error, and the merge's status.
  record Scanned (it : BatchIterator It) (expected : Rows) (s : Status) : Type 0 where
    pub rows : Rows
    pub yields : Yields (batch_iterator settings merge fuel) it rows s
    pub complete : is_ok s ≡ true → rows ≡ expected

  -- The batches after the one at hand.
  abbrev FetchesOn : BatchIterator It → Rows → Status → Type 0
  FetchesOn it expected s =
      (moved : BatchIterator It)
      → moved.smi ≡ it.smi
      → moved.latest_user_key_added ≡ it.latest_user_key_added
      → moved.status ≡ ok
      → Scanned (fetch_next_batch settings merge fuel moved) expected s

  walk :
      (todo : Rows) (r : Bytes × Option Bytes) (it : BatchIterator It) (expected : Rows)
      (s : Status)
      → it.status ≡ ok
      → it.valid ≡ true
      → drop it.batch_cur_idx it.batch ≡ r ∷ todo
      → FetchesOn it expected s
      → Scanned it (r ∷ (todo ++ expected)) s
  unfolding Yields batch_iterator next
  walk [] r it expected s fine on at more =
      let (here, after) = drop-cons it.batch it.batch_cur_idx r [] at in
      let last : leb (length it.batch) (it.batch_cur_idx + 1) ≡ true =
        ground (arith, length-drop (it.batch_cur_idx + 1) it.batch, ap length after) in
      let rest = more (record it { batch_cur_idx = it.batch_cur_idx + 1 }) refl refl fine in
      record {
        rows = r ∷ rest.rows;
        yields = ((on, (here, fine)), rw last rest.yields);
        complete = λ h. ap (λ l. r ∷ l) (rest.complete h);
      }
  walk (r' ∷ todo) r it expected s fine on at more =
      let (here, after) = drop-cons it.batch it.batch_cur_idx r (r' ∷ todo) at in
      let inside : leb (length it.batch) (it.batch_cur_idx + 1) ≡ false =
        ground (arith, length-drop (it.batch_cur_idx + 1) it.batch, ap length after) in
      let rest =
        walk todo r' (record it { batch_cur_idx = it.batch_cur_idx + 1 }) expected s fine on after
          more in
      record {
        rows = r ∷ rest.rows;
        yields = ((on, (here, fine)), rw inside rest.yields);
        complete = λ h. ap (λ l. r ∷ l) (rest.complete h);
      }

  results-nil : results settings newest [] ≡ []
  results-nil = elim (Bool-cases (is_candidate_mode settings.result_mode)) [
    | inl mode ↦ rw mode refl
    | inr mode ↦ rw mode refl
  ]

  module _
      (reads : is_candidate_mode settings.result_mode ≡ false
        → (key : Bytes) → Fetches settings newest (settings.get key) (newest key)) where
    fetched-Scanned :
        (latest : Bytes) (rows : List MergedRow) (s : Status) (f : BatchIterator It) (b : Rows)
        → f.batch ≡ b
        → (w : Went settings newest merge fuel latest rows s f)
        → (length w.left < length rows
            → FetchesOn f
                (results settings newest (distinct settings f.latest_user_key_added w.left))
                s)
        → Scanned
            (with_validity settings merge fuel f)
            (results settings newest (distinct settings latest rows))
            s
    unfolding Yields batch_iterator
    fetched-Scanned latest rows s f [] e w more =
        let none_left : is_empty f.batch ≡ true = rw e refl in
        let (left, good) = w.ended none_left in
        record {
          rows = [];
          yields = (rw none_left refl, w.status ∙ sym (is_ok→ok s good));
          complete = λ h. sym (
              w.split
              ∙ ap
                  (λ l.
                    l ++ results settings newest (distinct settings f.latest_user_key_added w.left))
                  e
              ∙ ap (λ l. results settings newest (distinct settings f.latest_user_key_added l)) left
              ∙ results-nil);
        }
    fetched-Scanned latest rows s f (r ∷ todo) e w more =
        let full : is_empty f.batch ≡ false = rw e refl in
        let tail : Rows =
          results settings newest (distinct settings f.latest_user_key_added w.left) in
        let whole : r ∷ (todo ++ tail) ≡ results settings newest (distinct settings latest rows) =
          sym (w.split ∙ ap (λ l. l ++ tail) e) in
        subst (λ l. Scanned (with_validity settings merge fuel f) l s) whole
          (walk todo r (with_validity settings merge fuel f) tail s w.status (rw full refl)
            (ap (λ (n : ℕ). drop n f.batch) w.idx ∙ e) (more (w.progress full)))

    fetch_next_batch-Scanned :
        (n : ℕ) (it : BatchIterator It) (rows : List MergedRow) (s : Status)
        → length rows < n
        → length rows < fuel
        → it.status ≡ ok
        → Yields merge it.smi rows s
        → AllGood settings newest (distinct settings it.latest_user_key_added rows)
        → Scanned
            (fetch_next_batch settings merge fuel it)
            (results settings newest (distinct settings it.latest_user_key_added rows))
            s
    unfolding fetch_next_batch Yields batch_iterator
    fetch_next_batch-Scanned zero it rows s short enough fine y good = absurd (omega arith)
    fetch_next_batch-Scanned (suc n) it rows s short enough fine y good =
        elim (Bool-cases (is_ok (merge.status it.smi))) [
          | inr bad ↦
              let end = bad_status settings newest merge fuel it.smi rows s y bad in
              rw bad (record {
                rows = [];
                yields = (refl, end);
                complete = λ h. absurd (ground (arith, h, end, bad));
              })
          | inl merges ↦
              let reset : BatchIterator It = record it {
                valid = false;
                batch = [];
                batch_cur_idx = 0;
              } in
              let ready : Ready settings newest merge fuel reset rows s = record {
                empty = refl;
                status = fine;
                idx = refl;
                merges = merges;
                yields = y;
                good = good;
              } in
              elim (fetch-Went settings newest merge fuel reads fuel reset rows s enough enough
                ready) [
                  | inl failed ↦
                      let none_left : is_empty (fetch settings merge fuel fuel reset).batch ≡ true =
                        rw failed.empty refl in
                      rw merges (record {
                        rows = [];
                        yields = (rw none_left refl, failed.status);
                        complete = λ h. absurd (ground (arith, h, failed.bad));
                      })
                  | inr w ↦ rw merges (
                      fetched-Scanned it.latest_user_key_added rows s _ _ refl w
                        (λ less moved smi latest fine'.
                          subst
                            (λ k.
                              Scanned (fetch_next_batch settings merge fuel moved)
                                (results settings newest (distinct settings k w.left)) s)
                            latest
                            (fetch_next_batch-Scanned n moved w.left s (omega (arith, less))
                              (omega (arith, less)) fine'
                              (subst (λ i. Yields merge i w.left s) (sym smi) w.yields)
                              (subst (λ k. AllGood settings newest (distinct settings k w.left))
                                (sym latest) w.good))))
                ]
        ]

    seek_to_first-Scanned :
        (smi : It) (check_enabled : Bool) (rows : List MergedRow) (s : Status)
        → Yields merge (merge.seek_to_first smi) rows s
        → length rows < fuel
        → AllGood settings newest (distinct settings [] rows)
        → Scanned
            (seek_to_first settings merge fuel (new_batch_iterator smi check_enabled))
            (results settings newest (distinct settings [] rows))
            s
    unfolding seek_to_first new_batch_iterator
    seek_to_first-Scanned smi check_enabled rows s y enough good =
        fetch_next_batch-Scanned fuel _ rows s enough enough refl y good

  pub seek_to_first-results :
      (smi : It) (check_enabled : Bool) (rows : List MergedRow)
      → settings.result_mode ≡ verified
      → ((key : Bytes) → Fetches settings newest (settings.get key) (newest key))
      → AllJudged settings newest (distinct settings [] rows)
      → Yields merge (merge.seek_to_first smi) rows ok
      → length rows < fuel
      → Yields
          (batch_iterator settings merge fuel)
          (seek_to_first settings merge fuel (new_batch_iterator smi check_enabled))
          (answers settings newest (distinct settings [] rows))
          ok
  seek_to_first-results smi check_enabled rows mode reads judged y enough =
      let scan =
        seek_to_first-Scanned (λ m. reads) smi check_enabled rows ok y enough (λ m. judged) in
      let found : List Found = distinct settings [] rows in
      let same : results settings newest found ≡ answers settings newest found =
        ap
          (λ (m : ResultMode).
            if is_candidate_mode m
            then bare_keys settings newest found
            else answers settings newest found)
          mode in
      subst
        (λ l.
          Yields (batch_iterator settings merge fuel)
            (seek_to_first settings merge fuel (new_batch_iterator smi check_enabled)) l ok)
        (scan.complete refl ∙ same) scan.yields

  pub seek_to_first-keys :
      (smi : It) (check_enabled : Bool) (rows : List MergedRow)
      → settings.result_mode ≡ candidate
      → Yields merge (merge.seek_to_first smi) rows ok
      → length rows < fuel
      → Yields
          (batch_iterator settings merge fuel)
          (seek_to_first settings merge fuel (new_batch_iterator smi check_enabled))
          (bare_keys settings newest (distinct settings [] rows))
          ok
  seek_to_first-keys smi check_enabled rows mode y enough =
      let other : is_candidate_mode settings.result_mode ≡ true = rw mode refl in
      let scan =
        seek_to_first-Scanned (λ m. absurd (ground (arith, m, other))) smi check_enabled rows ok y
          enough (λ m. absurd (ground (arith, m, other))) in
      let found : List Found = distinct settings [] rows in
      let same : results settings newest found ≡ bare_keys settings newest found =
        ap
          (λ (m : ResultMode).
            if is_candidate_mode m
            then bare_keys settings newest found
            else answers settings newest found)
          mode in
      subst
        (λ l.
          Yields (batch_iterator settings merge fuel)
            (seek_to_first settings merge fuel (new_batch_iterator smi check_enabled)) l ok)
        (scan.complete refl ∙ same) scan.yields

  -- Where reads answer the newest visible values and unmarked rows are the newest, a scan over a merge of fewer
  -- rows than the fuel gives some rows and then ends with the very status that the merge ends with, an error
  -- included.
  pub seek_to_first-ends :
      (smi : It) (check_enabled : Bool) (rows : List MergedRow) (s : Status)
      → ((key : Bytes) → Fetches settings newest (settings.get key) (newest key))
      → AllJudged settings newest (distinct settings [] rows)
      → Yields merge (merge.seek_to_first smi) rows s
      → length rows < fuel
      → (given : List (Bytes × Option Bytes)) × Yields
          (batch_iterator settings merge fuel)
          (seek_to_first settings merge fuel (new_batch_iterator smi check_enabled))
          given
          s
  seek_to_first-ends smi check_enabled rows s reads judged y enough =
      let scan =
        seek_to_first-Scanned (λ m. reads) smi check_enabled rows s y enough (λ m. judged) in
      (scan.rows, scan.yields)
