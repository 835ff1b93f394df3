-- ===== src/Batch/Loop.antt =====
-- The loop up to a batch with a row: `FetchNextBatch`, src/include/bit_lsm_iterator.cpp.
use bit_lsm.Base.{
  ℕ, zero, suc, ◌<◌, ◌≤◌, ◌≡◌, ◌⊎◌, refl, ap, ◌∙◌, sym, inl, inr, Bool, true, false, Bool-cases,
  Option, List, [], ◌∷◌, ◌++◌, length, if◌then◌else◌, arith,
}
use mathlib.Core.Path.{subst}
use bit_lsm.Bytes.{Bytes}
use bit_lsm.Status.{Status, ok, is_ok}
use bit_lsm.Scan.{InternalIterator, Yields}
use bit_lsm.Batch.{MergedRow, Candidate, Settings, is_candidate_mode}
use bit_lsm.Batch.Fetch.{BatchIterator, collect, settle, is_empty, fetch, scan_batch_size}
use bit_lsm.Batch.Verdicts.{Found, candidates_of, Fetches}
use bit_lsm.Batch.Candidates.{distinct, Collected, collect-Collected}
use bit_lsm.Batch.Settled.{results, AllGood, AllGood-split, results-append, Settles, settle-Settles}

nil_of : {A : Type 0} (xs : List A) → is_empty xs ≡ true → xs ≡ []
nil_of [] e = refl
nil_of (x ∷ xs) e = absurd (ground (arith, e))

pub is_ok→ok : (s : Status) → is_ok s ≡ true → s ≡ ok
is_ok→ok s h = ground arith

module _ (settings : Settings) (newest : Bytes → Option Bytes) {It : Type 0}
    (merge : InternalIterator It MergedRow) (fuel : ℕ) where
  -- The loop stopped on an error, or left a batch; an empty one only at the end of the rows.
  pub record Failed (s : Status) (f : BatchIterator It) : Type 0 where
    pub empty : f.batch ≡ []
    pub status : f.status ≡ s
    pub bad : is_ok s ≡ false

  pub record Went (latest : Bytes) (rows : List MergedRow) (s : Status) (f : BatchIterator It)
      : Type 0 where
    pub left : List MergedRow
    pub status : f.status ≡ ok
    pub idx : f.batch_cur_idx ≡ 0
    pub split :
        results settings newest (distinct settings latest rows)
        ≡ f.batch ++ results settings newest (distinct settings f.latest_user_key_added left)
    pub yields : Yields merge f.smi left s
    pub good : AllGood settings newest (distinct settings f.latest_user_key_added left)
    pub shorter : length left ≤ length rows
    pub progress : is_empty f.batch ≡ false → length left < length rows
    pub ended : is_empty f.batch ≡ true → (left ≡ []) × (is_ok s ≡ true)

  -- What is asked of an iterator at the start of the loop.
  pub record Ready (it : BatchIterator It) (rows : List MergedRow) (s : Status) : Type 0 where
    pub empty : it.batch ≡ []
    pub status : it.status ≡ ok
    pub idx : it.batch_cur_idx ≡ 0
    pub merges : is_ok (merge.status it.smi) ≡ true
    pub yields : Yields merge it.smi rows s
    pub good : AllGood settings newest (distinct settings it.latest_user_key_added rows)

  -- At an OK status the rows are at their end only if they end in it.
  end_status :
      (it : It) (s : Status)
      → Yields merge it [] s
      → is_ok (merge.status it) ≡ true
      → is_ok s ≡ true
  unfolding Yields
  end_status it s y fine = subst (λ t. is_ok t ≡ true) y.1 fine

  pub bad_status :
      (it : It) (rows : List MergedRow) (s : Status)
      → Yields merge it rows s
      → is_ok (merge.status it) ≡ false
      → merge.status it ≡ s
  unfolding Yields
  bad_status it [] s y bad = y.1
  bad_status it (r ∷ rows) s y bad = absurd (ground (arith, y.0, bad))

  valid_of :
      (it : It) (row : MergedRow) (rows : List MergedRow) (s : Status)
      → Yields merge it (row ∷ rows) s
      → merge.valid it ≡ true
  unfolding Yields
  valid_of it row rows s y = y.0.0

  fetch-full :
      (n : ℕ) (it : BatchIterator It)
      → is_empty it.batch ≡ false
      → fetch settings merge fuel n it ≡ it
  unfolding fetch
  fetch-full zero it full = refl
  fetch-full (suc n) it full = rw full refl

  fetch-ended :
      (n : ℕ) (it : BatchIterator It) (s : Status)
      → Ready it [] s
      → fetch settings merge fuel n it ≡ it
  unfolding fetch Yields
  fetch-ended zero it s r = refl
  fetch-ended (suc n) it s r =
      let empty : is_empty it.batch ≡ true = rw r.empty refl in rw (empty, r.yields.0) refl

  ended-Went :
      (it : BatchIterator It) (s : Status) → Ready it [] s → Went it.latest_user_key_added [] s it
  ended-Went it s r = record {
    left = [];
    status = r.status;
    idx = r.idx;
    split = rw r.empty refl;
    yields = r.yields;
    good = r.good;
    shorter = omega arith;
    progress = λ full. absurd (ground (arith, full, r.empty));
    ended = λ e. (refl, end_status it.smi s r.yields r.merges);
  }

  found-empty :
      (b : Bool) (found : List Found)
      → is_empty (candidates_of settings b found) ≡ true
      → found ≡ []
  found-empty b [] e = refl
  found-empty b (f ∷ found) e = absurd (ground (arith, e))

  -- The rest of the loop's body, once the candidates are drawn.
  abbrev continue : ℕ → List Candidate × BatchIterator It → BatchIterator It
  continue n (candidates, drawn) =
      let (failed, settled) = settle settings merge drawn candidates in
      if is_ok (merge.status drawn.smi)
      then if is_empty candidates
        then drawn
        else if failed
        then settled
        else fetch settings merge fuel n settled
      else record drawn { status = merge.status drawn.smi; batch = [] }

  -- What the loop leaves from a batch that is settled.
  settled-Went :
      (it settled : BatchIterator It) (rows left : List MergedRow) (s : Status) (found : List Found)
      → results settings newest (distinct settings it.latest_user_key_added rows)
        ≡ results settings newest found
          ++ results settings newest (distinct settings settled.latest_user_key_added left)
      → settled.batch ≡ results settings newest found
      → length left < length rows
      → Ready (record settled { batch = [] }) left s
      → is_empty settled.batch ≡ false
      → Went it.latest_user_key_added rows s settled
  settled-Went it settled rows left s found split batch less r full = record {
    left = left;
    status = r.status;
    idx = r.idx;
    split =
        split
        ∙ ap
            (λ l.
              l ++ results settings newest (distinct settings settled.latest_user_key_added left))
            (sym batch);
    yields = r.yields;
    good = r.good;
    shorter = omega (arith, less);
    progress = λ e. less;
    ended = λ e. absurd (ground (arith, e, full));
  }

  later-Went :
      (it settled f : BatchIterator It) (rows left : List MergedRow) (s : Status)
      → results settings newest (distinct settings it.latest_user_key_added rows)
        ≡ results settings newest (distinct settings settled.latest_user_key_added left)
      → length left < length rows
      → Went settled.latest_user_key_added left s f
      → Went it.latest_user_key_added rows s f
  later-Went it settled f rows left s split less w = record {
    left = w.left;
    status = w.status;
    idx = w.idx;
    split = split ∙ w.split;
    yields = w.yields;
    good = w.good;
    shorter = omega (arith, w.shorter, less);
    progress = λ e. omega (arith, w.shorter, less);
    ended = w.ended;
  }

  nothing_found :
      (latest : Bytes) (found : List Found) (left : List MergedRow)
      → found ≡ []
      → left ≡ []
      → results settings newest found ++ results settings newest (distinct settings latest left)
        ≡ results settings newest (distinct settings latest [])
  nothing_found latest found left nothing end =
      elim (Bool-cases (is_candidate_mode settings.result_mode)) [
        | inl mode ↦ rw (mode, nothing, end) refl
        | inr mode ↦ rw (mode, nothing, end) refl
      ]

  drawn-Ready :
      (it : BatchIterator It) (rows : List MergedRow) (s : Status)
      (p : List Candidate × BatchIterator It)
      → Ready it rows s
      → (c : Collected settings merge it scan_batch_size rows s p)
      → is_ok (merge.status p.1.smi) ≡ true
      → Ready p.1 c.left s
  drawn-Ready it rows s p r c fine = record {
    empty = ap (λ i. i.batch) c.kept ∙ r.empty;
    status = ap (λ i. i.status) c.kept ∙ r.status;
    idx = ap (λ i. i.batch_cur_idx) c.kept ∙ r.idx;
    merges = fine;
    yields = c.yields;
    good =
        (AllGood-split settings newest c.found _
          (subst (AllGood settings newest) c.split r.good)).1;
  }

  drawn-split :
      (it : BatchIterator It) (rows : List MergedRow) (s : Status)
      (p : List Candidate × BatchIterator It)
      (c : Collected settings merge it scan_batch_size rows s p)
      → results settings newest (distinct settings it.latest_user_key_added rows)
        ≡ results settings newest c.found
          ++ results settings newest (distinct settings p.1.latest_user_key_added c.left)
  drawn-split it rows s p c =
      ap (results settings newest) c.split ∙ results-append settings newest c.found _

  abbrev Rec : ℕ → List MergedRow → Status → Type 0
  Rec n rows s =
      (it : BatchIterator It) (left : List MergedRow)
      → length left < length rows
      → Ready it left s
      → Failed s (fetch settings merge fuel n it)
        ⊎ Went it.latest_user_key_added left s (fetch settings merge fuel n it)

  relabel :
      (it settled f : BatchIterator It) (rows left : List MergedRow) (s : Status)
      → results settings newest (distinct settings it.latest_user_key_added rows)
        ≡ results settings newest (distinct settings settled.latest_user_key_added left)
      → length left < length rows
      → Failed s f ⊎ Went settled.latest_user_key_added left s f
      → Failed s f ⊎ Went it.latest_user_key_added rows s f
  relabel it settled f rows left s split less (inl failed) = inl failed
  relabel it settled f rows left s split less (inr w) =
      inr (later-Went it settled f rows left s split less w)

  -- A settled batch with a row ends the loop, and one without goes on.
  settled-step :
      (n : ℕ) (it drawn : BatchIterator It) (rows left : List MergedRow) (s : Status)
      (found : List Found) (x : Bool × BatchIterator It)
      → Ready drawn left s
      → Settles settings newest merge drawn (results settings newest found) x
      → results settings newest (distinct settings it.latest_user_key_added rows)
        ≡ results settings newest found
          ++ results settings newest (distinct settings drawn.latest_user_key_added left)
      → length left < length rows
      → Rec n rows s
      → let f = if x.0 then x.1 else fetch settings merge fuel n x.1 in
        Failed s f ⊎ Went it.latest_user_key_added rows s f
  settled-step n it drawn rows left s found (failed, settled) r
        (went, (batch, (smi, (latest, (status, idx))))) split less rec =
      let ready : Ready (record settled { batch = [] }) left s = record {
        empty = refl;
        status = status ∙ r.status;
        idx = idx ∙ r.idx;
        merges = subst (λ i. is_ok (merge.status i) ≡ true) (sym smi) r.merges;
        yields = subst (λ i. Yields merge i left s) (sym smi) r.yields;
        good = subst (λ k. AllGood settings newest (distinct settings k left)) (sym latest) r.good;
      } in
      let split' =
        split
        ∙ ap
            (λ k.
              results settings newest found ++ results settings newest (distinct settings k left))
            (sym latest) in
      elim (Bool-cases (is_empty settled.batch)) [
        | inr full ↦
            rw (went, fetch-full n settled full)
              (inr (settled-Went it settled rows left s found split' batch less ready full))
        | inl empty ↦
            let none_left : settled.batch ≡ [] = nil_of settled.batch empty in
            let ready' : Ready settled left s = record {
              empty = none_left;
              status = ready.status;
              idx = ready.idx;
              merges = ready.merges;
              yields = ready.yields;
              good = ready.good;
            } in
            rw went (
              relabel it settled _ rows left s
                (split'
                  ∙ ap
                      (λ l.
                        l
                        ++ results settings newest
                            (distinct settings settled.latest_user_key_added left))
                      (sym batch ∙ none_left))
                less (rec settled left less ready'))
      ]

  module _
      (reads : is_candidate_mode settings.result_mode ≡ false
        → (key : Bytes) → Fetches settings newest (settings.get key) (newest key)) where
    continue-Went :
        (n : ℕ) (it : BatchIterator It) (rows : List MergedRow) (s : Status)
        (p : List Candidate × BatchIterator It)
        → Ready it rows s
        → 0 < length rows
        → Collected settings merge it scan_batch_size rows s p
        → Rec n rows s
        → Failed s (continue n p) ⊎ Went it.latest_user_key_added rows s (continue n p)
    continue-Went n it rows s (candidates, drawn) r some_rows c rec =
        elim (Bool-cases (is_ok (merge.status drawn.smi))) [
          | inr bad ↦
              let end = bad_status drawn.smi c.left s c.yields bad in
              rw bad (inl (record { empty = refl; status = end; bad = rw (← end) bad }))
          | inl fine ↦
              let ready = drawn-Ready it rows s (candidates, drawn) r c fine in
              let split = drawn-split it rows s (candidates, drawn) c in
              let good =
                (AllGood-split settings newest c.found _
                  (subst (AllGood settings newest) c.split r.good)).0 in
              let same : candidates ≡ candidates_of settings drawn.check_enabled c.found =
                c.candidates
                ∙ ap (λ (i : BatchIterator It). candidates_of settings i.check_enabled c.found)
                    (sym c.kept) in
              let settles : Settles settings newest merge drawn (results settings newest c.found)
                  (settle settings merge drawn candidates) =
                subst
                  (λ cs.
                    Settles settings newest merge drawn (results settings newest c.found)
                      (settle settings merge drawn cs))
                  (sym same) (settle-Settles settings newest merge reads drawn c.found good) in
              elim (Bool-cases (is_empty candidates)) [
                | inl none_found ↦
                    let nothing : c.found ≡ [] =
                      found-empty it.check_enabled c.found (rw (← c.candidates) none_found) in
                    let end : c.left ≡ [] = c.exhausted nothing (omega arith) in
                    rw (fine, none_found)
                      (inr (
                        later-Went it drawn drawn rows [] s
                          (split
                            ∙ nothing_found drawn.latest_user_key_added c.found c.left nothing end)
                          (omega arith)
                          (ended-Went drawn s (subst (λ l. Ready drawn l s) end ready))))
                | inr some_found ↦
                    rw (fine, some_found)
                      (settled-step n it drawn rows c.left s c.found _ ready settles split
                        (c.progress (omega arith) some_rows) rec)
              ]
        ]

    pub fetch-Went :
        (n : ℕ) (it : BatchIterator It) (rows : List MergedRow) (s : Status)
        → length rows < n
        → length rows < fuel
        → Ready it rows s
        → Failed s (fetch settings merge fuel n it)
          ⊎ Went it.latest_user_key_added rows s (fetch settings merge fuel n it)
    unfolding fetch
    fetch-Went zero it rows s short enough r = absurd (omega arith)
    fetch-Went (suc n) it [] s short enough r =
        rw (fetch-ended (suc n) it s r) (inr (ended-Went it s r))
    fetch-Went (suc n) it (row ∷ rows) s short enough r =
        let empty : is_empty it.batch ≡ true = rw r.empty refl in
        rw (empty, valid_of it.smi row rows s r.yields)
          (continue-Went n it (row ∷ rows) s (collect settings merge fuel scan_batch_size it) r
            (omega arith)
            (collect-Collected settings merge fuel scan_batch_size it (row ∷ rows) s enough
              r.yields)
            (λ it' left less r'.
              fetch-Went n it' left s (omega (arith, less)) (omega (arith, less)) r'))
