-- ===== src/Batch/Candidates.antt =====
-- Drawing candidates from the merge: the inner loop of `FetchNextBatch`, src/include/bit_lsm_iterator.cpp.
use bit_lsm.Base.{
  ℕ, zero, suc, ◌-◌, ◌<◌, ◌≤◌, ◌≡◌, refl, ap, ◌∙◌, inl, inr, Bool-cases, Option, none, some,
  Option-cases, List, [], ◌∷◌, ◌++◌, length, ltb, if◌then◌else◌, arith,
}
use bit_lsm.Bytes.{Bytes}
use bit_lsm.Status.{Status}
use bit_lsm.Scan.{InternalIterator, Yields}
use bit_lsm.Scan.MemTable.{ParsedInternalKey}
use bit_lsm.Batch.{MergedRow, Candidate, Settings, same_bytes, candidate_of}
use bit_lsm.Batch.Fetch.{BatchIterator, collect}
use bit_lsm.Batch.Verdicts.{Found, candidates_of}

module _ (settings : Settings) where
  -- The rows with a key that parses, without those whose user key is that of the row taken before.
  abbrev pub if_new :
      Bytes → MergedRow → Option ParsedInternalKey → List Found → (Bytes → List Found) → List Found
  if_new latest row none same next = same
  if_new latest row (some ikey) same next =
      if same_bytes ikey.user_key latest then same else (row, ikey) ∷ next ikey.user_key

  abbrev pub distinct : Bytes → List MergedRow → List Found
  distinct latest [] = []
  distinct latest (row ∷ rows) =
      if_new latest row (settings.parse_internal_key row.key) (distinct latest rows)
        (λ key. distinct key rows)

  module _ {It : Type 0} (merge : InternalIterator It MergedRow) where
    -- What the loop took from the rows, and what it left.
    pub record Collected (it : BatchIterator It) (room : ℕ) (rows : List MergedRow) (s : Status)
        (drawn : List Candidate × BatchIterator It) : Type 0 where
      pub found : List Found
      pub left : List MergedRow
      pub candidates : drawn.0 ≡ candidates_of settings it.check_enabled found
      pub split :
          distinct it.latest_user_key_added rows
          ≡ found ++ distinct drawn.1.latest_user_key_added left
      pub yields : Yields merge drawn.1.smi left s
      pub kept :
          drawn.1
          ≡ record it { smi = drawn.1.smi; latest_user_key_added = drawn.1.latest_user_key_added }
      pub shorter : length left ≤ length rows
      pub progress : 0 < room → 0 < length rows → length left < length rows
      pub exhausted : found ≡ [] → 0 < room → left ≡ []

    collect-stop :
        (it : BatchIterator It) (room : ℕ) (rows : List MergedRow) (s : Status)
        → Yields merge it.smi rows s
        → (0 < room → rows ≡ [])
        → Collected it room rows s ([], it)
    collect-stop it room rows s y end = record {
      found = [];
      left = rows;
      candidates = refl;
      split = refl;
      yields = y;
      kept = refl;
      shorter = omega arith;
      progress = λ more some_rows. absurd (ground (arith, end more, some_rows));
      exhausted = λ e more. end more;
    }

    -- A row that adds no candidate, and one that does.
    Collected-skip :
        (it : BatchIterator It) (room : ℕ) (row : MergedRow) (rows : List MergedRow) (s : Status)
        (drawn : List Candidate × BatchIterator It)
        → distinct it.latest_user_key_added (row ∷ rows) ≡ distinct it.latest_user_key_added rows
        → Collected (record it { smi = merge.next it.smi }) room rows s drawn
        → Collected it room (row ∷ rows) s drawn
    Collected-skip it room row rows s drawn same c = record {
      found = c.found;
      left = c.left;
      candidates = c.candidates;
      split = same ∙ c.split;
      yields = c.yields;
      kept = c.kept;
      shorter = omega (arith, c.shorter);
      progress = λ more some_rows. omega (arith, c.shorter);
      exhausted = c.exhausted;
    }

    Collected-take :
        (it : BatchIterator It) (room : ℕ) (row : MergedRow) (ikey : ParsedInternalKey)
        (rows : List MergedRow) (s : Status) (drawn : List Candidate × BatchIterator It)
        → distinct it.latest_user_key_added (row ∷ rows) ≡ (row, ikey) ∷ distinct ikey.user_key rows
        → Collected
            (record it { smi = merge.next it.smi; latest_user_key_added = ikey.user_key })
            (room - 1)
            rows
            s
            drawn
        → Collected it room
            (row ∷ rows)
            s
            (candidate_of settings it.check_enabled row ikey ∷ drawn.0, drawn.1)
    Collected-take it room row ikey rows s drawn new c = record {
      found = (row, ikey) ∷ c.found;
      left = c.left;
      candidates = ap (λ l. candidate_of settings it.check_enabled row ikey ∷ l) c.candidates;
      split = new ∙ ap (λ l. (row, ikey) ∷ l) c.split;
      yields = c.yields;
      kept = c.kept;
      shorter = omega (arith, c.shorter);
      progress = λ more some_rows. omega (arith, c.shorter);
      exhausted = λ e more. absurd (ground (arith, e));
    }

    pub collect-Collected :
        (n room : ℕ) (it : BatchIterator It) (rows : List MergedRow) (s : Status)
        → length rows < n
        → Yields merge it.smi rows s
        → Collected it room rows s (collect settings merge n room it)
    unfolding collect Yields
    collect-Collected zero room it rows s enough y = absurd (omega arith)
    collect-Collected (suc n) room it [] s enough (done, status) =
        rw done (collect-stop it room [] s (done, status) (λ more. refl))
    collect-Collected (suc n) room it (row ∷ rows) s enough ((here, (top, fine)), y) =
        elim (Bool-cases (ltb 0 room)) [
          | inr full ↦
              rw (here, full)
                (collect-stop it room (row ∷ rows) s ((here, (top, fine)), y)
                  (λ more. absurd (ground (arith, full, more))))
          | inl more ↦ elim (Option-cases (settings.parse_internal_key row.key)) [
            | inl bad ↦
                rw (here, more, top, bad)
                  (Collected-skip it room row rows s _ (rw bad refl)
                    (collect-Collected n room _ rows s (omega arith) y))
            | inr (ikey, parsed) ↦
                elim (Bool-cases (same_bytes ikey.user_key it.latest_user_key_added)) [
                  | inl old ↦
                      rw (here, more, top, parsed, old)
                        (Collected-skip it room row rows s _ (rw (parsed, old) refl)
                          (collect-Collected n room _ rows s (omega arith) y))
                  | inr new ↦
                      rw (here, more, top, parsed, new)
                        (Collected-take it room row ikey rows s _ (rw (parsed, new) refl)
                          (collect-Collected n (room - 1) _ rows s (omega arith) y))
                ]
          ]
        ]
