-- ===== src/Batch/Fetch.antt =====
-- The batches of `BitLSMIterator`, `FetchNextBatch`, `SeekToFirst` and `Next` of src/include/bit_lsm_iterator.cpp, over
-- any merge.
use bit_lsm.Base.{
  ℕ, zero, suc, ◌+◌, ◌-◌, ◌*◌, ◌%◌, ◌^◌, ◌⊎◌, inl, inr, Bool, true, false, not, ◌&&◌, Option, none,
  some, List, [], ◌∷◌, length, get_elem?, ltb, leb, if◌then◌else◌,
}
use bit_lsm.Bytes.{Bytes}
use bit_lsm.Status.{Status, ok, is_ok}
use bit_lsm.Scan.{InternalIterator}
use bit_lsm.Scan.MemTable.{ParsedInternalKey}
use bit_lsm.Batch.{
  MergedRow, Candidate, Settings, is_candidate_mode, same_bytes, candidate_of, dirty_idx, multi_get,
  merge_from, keys_only, scan_rows,
}

-- A key of the batch has a value except in candidate mode.
pub record BatchIterator (It : Type 0) : Type 0 where
  pub valid : Bool
  pub status : Status
  pub smi : It
  pub batch : List (Bytes × Option Bytes)
  pub batch_cur_idx : ℕ
  pub latest_user_key_added : Bytes
  pub check_enabled : Bool
  pub checked_keys : ℕ
  pub skipped_keys : ℕ
  pub skipped_batches : ℕ

abbrev pub check_sample_keys : ℕ
check_sample_keys = 4096

abbrev pub min_skip_rate_pct : ℕ
min_skip_rate_pct = 25

abbrev pub scan_batch_size : ℕ
scan_batch_size = 1024

-- The constructor's end, over the merge and whether candidates are judged one by one.
unfoldable pub new_batch_iterator : {It : Type 0} → It → Bool → BatchIterator It
new_batch_iterator smi check_enabled = record {
  valid = false;
  status = ok;
  smi = smi;
  batch = [];
  batch_cur_idx = 0;
  latest_user_key_added = [];
  check_enabled = check_enabled;
  checked_keys = 0;
  skipped_keys = 0;
  skipped_batches = 0;
}

abbrev pub is_empty : {A : Type 0} → List A → Bool
is_empty [] = true
is_empty (x ∷ xs) = false

module _ (settings : Settings) where
  module _ {It : Type 0} (merge : InternalIterator It MergedRow) where
    -- One row of the merge: a key that cannot be parsed or is the latest one adds no candidate.
    abbrev pub draw_parsed :
        BatchIterator It
        → MergedRow
        → Option ParsedInternalKey
        → Option Candidate × BatchIterator It
    draw_parsed it row none = (none, record it { smi = merge.next it.smi })
    draw_parsed it row (some ikey) =
        if same_bytes ikey.user_key it.latest_user_key_added
        then (none, record it { smi = merge.next it.smi })
        else (
          some (candidate_of settings it.check_enabled row ikey),
          record it { smi = merge.next it.smi; latest_user_key_added = ikey.user_key },
        )

    abbrev pub draw_row : BatchIterator It → Option MergedRow → Option Candidate × BatchIterator It
    draw_row it none = (none, it)
    draw_row it (some row) = draw_parsed it row (settings.parse_internal_key row.key)

    abbrev pub room_after : Option Candidate → ℕ → ℕ
    room_after none room = room
    room_after (some c) room = room - 1

    abbrev pub add_candidate : Option Candidate → List Candidate → List Candidate
    add_candidate none candidates = candidates
    add_candidate (some c) candidates = c ∷ candidates

    -- The candidates of a batch that has room for so many.
    unfoldable pub collect : ℕ → ℕ → BatchIterator It → List Candidate × BatchIterator It
    collect zero room it = ([], it)
    collect (suc n) room it =
        let (c, drawn) = draw_row it (merge.row it.smi) in
        let (candidates, after) = collect n (room_after c room) drawn in
        if merge.valid it.smi && ltb 0 room then (add_candidate c candidates, after) else ([], it)

    -- Whether the check goes on after so many keys checked and skipped.
    abbrev pub keeps_checking : ℕ → ℕ → Bool
    keeps_checking checked skipped = not (
        leb check_sample_keys checked
        && ltb (skipped * 100 % 2 ^ 64) (checked * min_skip_rate_pct % 2 ^ 64))

    abbrev pub count_checked : BatchIterator It → ℕ → ℕ → BatchIterator It
    count_checked it keys dirty =
        let checked : ℕ = (it.checked_keys + keys) % 2 ^ 64 in
        let skipped : ℕ = (it.skipped_keys + (keys - dirty)) % 2 ^ 64 in
        if it.check_enabled
        then record it {
          checked_keys = checked;
          skipped_keys = skipped;
          check_enabled = keeps_checking checked skipped;
        }
        else it

    -- The batch that the ordered merge leaves; true if its failure ends the scan.
    abbrev pub place_merged :
        BatchIterator It → Status ⊎ List (Bytes × Option Bytes) → Bool × BatchIterator It
    place_merged it (inl s) = (true, record it { status = s; batch = [] })
    place_merged it (inr rows) = (false, record it { batch = rows })

    abbrev pub verify_batch : BatchIterator It → List Candidate → Bool × BatchIterator It
    verify_batch it candidates =
        let idx : List ℕ = dirty_idx settings it.check_enabled candidates in
        place_merged (count_checked it (length candidates) (length idx))
          (merge_from settings 0 candidates idx (multi_get settings candidates idx))

    abbrev pub settle : BatchIterator It → List Candidate → Bool × BatchIterator It
    settle it candidates =
        if is_candidate_mode settings.result_mode
        then (false, record it { batch = keys_only candidates })
        else if settings.authoritative_scan
        then (
          false,
          record it {
            batch = scan_rows candidates;
            skipped_batches = (it.skipped_batches + 1) % 2 ^ 64;
          },
        )
        else verify_batch it candidates

    module _ (fuel : ℕ) where
      -- The loop up to a batch with a row; `fuel` is above the number of rows of the merge.
      unfoldable pub fetch : ℕ → BatchIterator It → BatchIterator It
      fetch zero it = it
      fetch (suc n) it =
          let (candidates, drawn) = collect fuel scan_batch_size it in
          let (failed, settled) = settle drawn candidates in
          let rest = fetch n settled in
          if is_empty it.batch && merge.valid it.smi
          then if is_ok (merge.status drawn.smi)
            then if is_empty candidates then drawn else if failed then settled else rest
            else record drawn { status = merge.status drawn.smi; batch = [] }
          else it

      abbrev pub with_validity : BatchIterator It → BatchIterator It
      with_validity it = record it { valid = not (is_empty it.batch) }

      unfoldable pub fetch_next_batch : BatchIterator It → BatchIterator It
      fetch_next_batch it =
          let reset : BatchIterator It = record it {
            valid = false;
            batch = [];
            batch_cur_idx = 0;
          } in
          if is_ok (merge.status it.smi)
          then with_validity (fetch fuel reset)
          else record reset { status = merge.status it.smi }

      unfoldable pub seek_to_first : BatchIterator It → BatchIterator It
      seek_to_first it =
          fetch_next_batch
            (record it { smi = merge.seek_to_first it.smi; latest_user_key_added = [] })

      unfoldable pub next : BatchIterator It → BatchIterator It
      next it =
          let moved : BatchIterator It = record it { batch_cur_idx = it.batch_cur_idx + 1 } in
          if leb (length it.batch) (it.batch_cur_idx + 1) then fetch_next_batch moved else moved

      unfoldable pub batch_iterator : InternalIterator (BatchIterator It) (Bytes × Option Bytes)
      batch_iterator = record {
        seek_to_first = seek_to_first;
        next = next;
        valid = λ it. it.valid;
        status = λ it. it.status;
        row = λ it. get_elem? it.batch it.batch_cur_idx;
      }
