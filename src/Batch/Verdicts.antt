-- ===== src/Batch/Verdicts.antt =====
-- The ordered merge of `FetchNextBatch`, src/include/bit_lsm_iterator.cpp, and the newest versions of the keys.
use bit_lsm.Base.{
  ◌+◌, ◌≡◌, refl, ap, inl, inr, Bool, true, false, Bool-cases, ◌||◌, Option, none, some, List, [],
  ◌∷◌, ◌++◌, length, get_elem?, if◌then◌else◌, arith, ℕ, ◌≤◌, suc, ◌==◌, ◌∙◌,
}
use bit_lsm.Bytes.{Bytes}
use bit_lsm.Status.{Status, ok, not_found}
use bit_lsm.Scan.MemTable.{ParsedInternalKey}
use bit_lsm.Batch.{
  MergedRow, Origin, Candidate, Settings, candidate_of, passes, is_dirty, check_from, multi_get,
  iota_from, merge_from, take_verdict, cons_row, scan_rows, keys_only, dirty_idx,
}

-- A row of the merge with its parsed key.
abbrev pub Found : Type 0
Found = MergedRow × ParsedInternalKey

abbrev pub origin_of : Found → Origin
origin_of (row, ikey) = record {
  seqno = ikey.sequence;
  src_level = row.source_level;
  src_file = row.source_file;
  in_file_shadowed = row.has_newer_in_source;
}

abbrev pub candidates_of : Settings → Bool → List Found → List Candidate
candidates_of settings b [] = []
candidates_of settings b ((row, ikey) ∷ found) =
    candidate_of settings b row ikey ∷ candidates_of settings b found

module _ (settings : Settings) (newest : Bytes → Option Bytes) where
  -- What a read of a key answers when this is its newest visible value, if any.
  abbrev pub Fetches : Status × Bytes → Option Bytes → Type 0
  Fetches (s, value) none = s ≡ not_found
  Fetches (s, value) (some v) = (s ≡ ok) × (value ≡ v)

  -- The row is the newest version of its key, and the query accepts it.
  abbrev pub IsNewest : Found → Type 0
  IsNewest (row, ikey) =
      (newest ikey.user_key ≡ some row.value) × (passes settings row.value ≡ true)

  -- A row that is not found to have a newer version is the newest; all are in an authoritative scan.
  abbrev pub Judged : Found → Type 0
  Judged (row, ikey) =
      (settings.authoritative_scan ≡ true → IsNewest (row, ikey))
      × (row.has_newer_in_source
              || settings.may_have_newer_version ikey.user_key (origin_of (row, ikey))
            ≡ false
          → IsNewest (row, ikey))

  abbrev pub AllJudged : List Found → Type 0
  AllJudged [] = Unit {0}
  AllJudged (f ∷ found) = Judged f × AllJudged found

  abbrev pub answer_value :
      Bytes → Option Bytes → List (Bytes × Option Bytes) → List (Bytes × Option Bytes)
  answer_value key none rest = rest
  answer_value key (some v) rest = if passes settings v then (key, some v) ∷ rest else rest

  -- The keys whose newest visible value the query accepts, each with that value.
  abbrev pub answers : List Found → List (Bytes × Option Bytes)
  answers [] = []
  answers ((row, ikey) ∷ found) = answer_value ikey.user_key (newest ikey.user_key) (answers found)

  -- The verdicts of the dirty candidates, without their indexes.
  abbrev verdicts_of : List Candidate → List (Status × Bytes)
  verdicts_of [] = []
  verdicts_of (c ∷ candidates) =
      if is_dirty settings c c.origin
      then settings.get c.key ∷ verdicts_of candidates
      else verdicts_of candidates

  get_elem-middle :
      (pre : List Candidate) (c : Candidate) (rest : List Candidate)
      → get_elem? (pre ++ (c ∷ rest)) (length pre) ≡ some c
  get_elem-middle [] c rest = refl
  get_elem-middle (p ∷ pre) c rest = get_elem-middle pre c rest

  append-cons :
      (pre : List Candidate) (c : Candidate) (rest : List Candidate)
      → pre ++ (c ∷ rest) ≡ (pre ++ (c ∷ [])) ++ rest
  append-cons [] c rest = refl
  append-cons (p ∷ pre) c rest = ap (λ l. p ∷ l) (append-cons pre c rest)

  length-snoc : (pre : List Candidate) (c : Candidate) → length (pre ++ (c ∷ [])) ≡ length pre + 1
  length-snoc [] c = omega arith
  length-snoc (p ∷ pre) c = omega (arith, length-snoc pre c)

  multi_get-check_from :
      (pre candidates : List Candidate)
      → multi_get settings (pre ++ candidates) (check_from settings (length pre) candidates)
        ≡ verdicts_of candidates
  unfolding multi_get check_from
  multi_get-check_from pre [] = refl
  multi_get-check_from pre (c ∷ candidates) =
      let step : multi_get settings (pre ++ (c ∷ candidates))
            (check_from settings (length pre + 1) candidates)
          ≡ verdicts_of candidates =
        rw (append-cons pre c candidates, ← length-snoc pre c)
          (multi_get-check_from (pre ++ (c ∷ [])) candidates) in
      elim (Bool-cases (is_dirty settings c c.origin)) [
        | inl dirty ↦ rw (dirty, get_elem-middle pre c candidates, step) refl
        | inr clean ↦ rw (clean, step) refl
      ]

  abbrev all_verdicts : List Candidate → List (Status × Bytes)
  all_verdicts [] = []
  all_verdicts (c ∷ candidates) = settings.get c.key ∷ all_verdicts candidates

  multi_get-iota_from :
      (pre candidates : List Candidate)
      → multi_get settings (pre ++ candidates) (iota_from settings (length pre) candidates)
        ≡ all_verdicts candidates
  unfolding multi_get iota_from
  multi_get-iota_from pre [] = refl
  multi_get-iota_from pre (c ∷ candidates) =
      let step : multi_get settings (pre ++ (c ∷ candidates))
            (iota_from settings (length pre + 1) candidates)
          ≡ all_verdicts candidates =
        rw (append-cons pre c candidates, ← length-snoc pre c)
          (multi_get-iota_from (pre ++ (c ∷ [])) candidates) in
      rw (get_elem-middle pre c candidates, step) refl

  -- Every index is from `i` on, and there is a verdict for each.
  abbrev From : ℕ → List ℕ → Type 0
  From i [] = Unit {0}
  From i (d ∷ idx) = (i ≤ d) × From i idx

  From-weaken : (i : ℕ) (idx : List ℕ) → From (i + 1) idx → From i idx
  From-weaken i [] f = tt
  From-weaken i (d ∷ idx) f = (omega (arith, f.0), From-weaken i idx f.1)

  check_from-From :
      (i : ℕ) (candidates : List Candidate) → From i (check_from settings i candidates)
  unfolding check_from
  check_from-From i [] = tt
  check_from-From i (c ∷ candidates) =
      let rest = From-weaken i _ (check_from-From (i + 1) candidates) in
      elim (Bool-cases (is_dirty settings c c.origin)) [
        | inl dirty ↦ rw dirty (omega arith, rest)
        | inr clean ↦ rw clean rest
      ]

  length-check_from :
      (i : ℕ) (candidates : List Candidate)
      → length (check_from settings i candidates) ≡ length (verdicts_of candidates)
  unfolding check_from
  length-check_from i [] = refl
  length-check_from i (c ∷ candidates) = elim (Bool-cases (is_dirty settings c c.origin)) [
    | inl dirty ↦ rw dirty (ap suc (length-check_from (i + 1) candidates))
    | inr clean ↦ rw clean (length-check_from (i + 1) candidates)
  ]

  merge_from-nil :
      (i : ℕ) (idx : List ℕ) (verdicts : List (Status × Bytes))
      → merge_from settings i [] idx verdicts ≡ inr []
  unfolding merge_from
  merge_from-nil i idx verdicts = refl

  -- A candidate whose index is not the next dirty one keeps its scan row.
  merge_from-clean :
      (i : ℕ) (c : Candidate) (candidates : List Candidate) (idx : List ℕ)
      (verdicts : List (Status × Bytes))
      → From (i + 1) idx
      → length idx ≡ length verdicts
      → merge_from settings i (c ∷ candidates) idx verdicts
        ≡ cons_row settings (c.key, c.value) (merge_from settings (i + 1) candidates idx verdicts)
  unfolding merge_from
  merge_from-clean i c candidates [] verdicts f same = refl
  merge_from-clean i c candidates (d ∷ idx) [] f same = absurd (ground (arith, same))
  merge_from-clean i c candidates (d ∷ idx) (v ∷ verdicts) f same =
      let other : (d == i) ≡ false = ground (arith, f.0) in rw other refl

  merge_from-dirty :
      (i : ℕ) (c : Candidate) (candidates : List Candidate) (idx : List ℕ) (v : Status × Bytes)
      (verdicts : List (Status × Bytes))
      → merge_from settings i (c ∷ candidates) (i ∷ idx) (v ∷ verdicts)
        ≡ take_verdict settings c.key v (merge_from settings (i + 1) candidates idx verdicts)
  unfolding merge_from
  merge_from-dirty i c candidates idx v verdicts =
      let same : (i == i) ≡ true = ground arith in rw same refl

  take_verdict-answer :
      (key : Bytes) (v : Status × Bytes) (value : Option Bytes) (rest : List (Bytes × Option Bytes))
      → Fetches v value
      → take_verdict settings key v (inr rest) ≡ inr (answer_value key value rest)
  take_verdict-answer key (s, w) none rest missing = rw missing refl
  take_verdict-answer key (s, w) (some value) rest (good, same) =
      elim (Bool-cases (passes settings value)) [
        | inl pass ↦ rw (good, same, pass) refl
        | inr fail ↦ rw (good, same, fail) refl
      ]

  clean_answer :
      (row : MergedRow) (ikey : ParsedInternalKey) (found : List Found)
      → IsNewest (row, ikey)
      → answers ((row, ikey) ∷ found) ≡ (ikey.user_key, some row.value) ∷ answers found
  clean_answer row ikey found (new, pass) = rw (new, pass) refl

  value_kept :
      (row : MergedRow) (ikey : ParsedInternalKey)
      → (candidate_of settings true row ikey).value ≡ some row.value
  value_kept row ikey = elim (Bool-cases settings.authoritative_scan) [
    | inl all ↦ rw all refl
    | inr some_only ↦ rw some_only refl
  ]

  module _ (reads : (key : Bytes) → Fetches (settings.get key) (newest key)) where
    merge_from-iota_from :
        (i : ℕ) (b : Bool) (found : List Found)
        → let cs = candidates_of settings b found in
          merge_from settings i cs (iota_from settings i cs) (all_verdicts cs) ≡ inr (answers found)
    unfolding iota_from
    merge_from-iota_from i b [] = merge_from-nil i [] []
    merge_from-iota_from i b ((row, ikey) ∷ found) =
        merge_from-dirty i _ _ _ _ _
        ∙ ap (take_verdict settings ikey.user_key (settings.get ikey.user_key))
            (merge_from-iota_from (i + 1) b found)
        ∙ take_verdict-answer ikey.user_key _ _ _ (reads ikey.user_key)

    clean_row :
        (row : MergedRow) (ikey : ParsedInternalKey) (found : List Found)
        → IsNewest (row, ikey)
        → cons_row settings
            (ikey.user_key, (candidate_of settings true row ikey).value)
            (inr (answers found))
          ≡ inr (answers ((row, ikey) ∷ found))
    clean_row row ikey found new = rw (value_kept row ikey, clean_answer row ikey found new) refl

    merge_from-check_from :
        (i : ℕ) (found : List Found)
        → AllJudged found
        → let cs = candidates_of settings true found in
          merge_from settings i cs (check_from settings i cs) (verdicts_of cs) ≡ inr (answers found)
    unfolding check_from
    merge_from-check_from i [] judged = merge_from-nil i [] []
    merge_from-check_from i ((row, ikey) ∷ found) judged =
        let c : Candidate = candidate_of settings true row ikey in
        let cs : List Candidate = candidates_of settings true found in
        let rest = merge_from-check_from (i + 1) found judged.1 in
        elim (Bool-cases (is_dirty settings c c.origin)) [
          | inl dirty ↦ rw dirty (
              merge_from-dirty i c cs _ _ _
              ∙ ap (take_verdict settings ikey.user_key (settings.get ikey.user_key)) rest
              ∙ take_verdict-answer ikey.user_key _ _ _ (reads ikey.user_key))
          | inr clean ↦ rw clean (
              merge_from-clean i c cs _ _ (check_from-From (i + 1) cs)
                (length-check_from (i + 1) cs)
              ∙ ap (cons_row settings (ikey.user_key, c.value)) rest
              ∙ clean_row row ikey found (judged.0.1 clean))
        ]

  pub scan_rows-answers :
      (b : Bool) (found : List Found)
      → settings.authoritative_scan ≡ true
      → AllJudged found
      → scan_rows (candidates_of settings b found) ≡ answers found
  scan_rows-answers b [] all judged = refl
  scan_rows-answers b ((row, ikey) ∷ found) all judged =
      let (new, pass) = judged.0.0 all in
      let rest = scan_rows-answers b found all judged.1 in rw (all, new, pass, rest) refl

  abbrev pub bare_keys : List Found → List (Bytes × Option Bytes)
  bare_keys [] = []
  bare_keys ((row, ikey) ∷ found) = (ikey.user_key, none) ∷ bare_keys found

  pub keys_only-bare_keys :
      (b : Bool) (found : List Found) → keys_only (candidates_of settings b found) ≡ bare_keys found
  keys_only-bare_keys b [] = refl
  keys_only-bare_keys b ((row, ikey) ∷ found) =
      ap (λ rest. (ikey.user_key, none) ∷ rest) (keys_only-bare_keys b found)

  module _ (reads : (key : Bytes) → Fetches (settings.get key) (newest key)) where
    pub merge_from-answers :
        (b : Bool) (found : List Found)
        → AllJudged found
        → let cs = candidates_of settings b found in
          let idx = dirty_idx settings b cs in
          merge_from settings 0 cs idx (multi_get settings cs idx) ≡ inr (answers found)
    unfolding dirty_idx
    merge_from-answers true found judged =
        rw (multi_get-check_from [] (candidates_of settings true found))
          (merge_from-check_from reads 0 found judged)
    merge_from-answers false found judged =
        rw (multi_get-iota_from [] (candidates_of settings false found))
          (merge_from-iota_from reads 0 false found)
