-- ===== src/Batch.antt =====
-- The scan that a caller sees: `BitLSMIterator` of src/include/bit_lsm_iterator.cpp. It draws candidate keys from the
-- merge, batch by batch, and fetches again what may have a newer version; here, what becomes of a batch of candidates.
-- The merge is any iterator; RocksDB's parse of internal keys and its MultiGet, key by key what a read at the snapshot
-- gives, are parameters, and so is the check for newer versions.
pub mod Fetch
pub mod Candidates
pub mod Verdicts
pub mod Settled
pub mod Loop
pub mod Answers
pub mod Repeats
pub mod Given
pub mod Judgement
pub mod Authority
pub mod Construct
use bit_lsm.Base.{
  ℕ, zero, suc, ◌+◌, ◌-◌, ◌*◌, ◌%◌, ◌^◌, Ordering, ◌⊎◌, inl, inr, Bool, true, false, not, ◌&&◌,
  ◌||◌, Option, none, some, List, [], ◌∷◌, length, get_elem?, map, ltb, leb, ◌==◌, if◌then◌else◌,
}
use bit_lsm.Base.Int.{ℤ}
use bit_lsm.Bytes.{Bytes, compare_bytes}
use bit_lsm.Status.{Status, ok, is_ok, is_not_found}
use bit_lsm.Scan.{InternalIterator}
use bit_lsm.Scan.MemTable.{ParsedInternalKey}

pub data ResultMode : Type 0 where
  verified candidate : ResultMode

abbrev pub is_candidate_mode : ResultMode → Bool
is_candidate_mode verified = false
is_candidate_mode candidate = true

-- A row of the merge, with where it came from.
pub record MergedRow : Type 0 where
  pub key : Bytes
  pub value : Bytes
  pub source_level : ℤ
  pub source_file : ℕ
  pub has_newer_in_source : Bool

-- What the check is asked about a candidate.
pub record Origin : Type 0 where
  pub seqno : ℕ
  pub src_level : ℤ
  pub src_file : ℕ
  pub in_file_shadowed : Bool

-- An index of the vectors `candidate_…_`: the value is kept where batches may answer from it, the origin for the check.
pub record Candidate : Type 0 where
  pub key : Bytes
  pub value : Option Bytes
  pub origin : Option Origin

-- What stays the same during a scan.
pub record Settings : Type 0 where
  pub result_mode : ResultMode
  pub authoritative_scan : Bool
  pub compiled : Option (Bytes → Bool)
  pub parse_internal_key : Bytes → Option ParsedInternalKey
  pub may_have_newer_version : Bytes → Origin → Bool
  pub get : Bytes → Status × Bytes

abbrev pub is_eq : Ordering → Bool
is_eq Ordering.eq = true
is_eq _ = false

abbrev pub same_bytes : Bytes → Bytes → Bool
same_bytes a b = is_eq (compare_bytes a b)

module _ (settings : Settings) where
  abbrev pub candidate_of : Bool → MergedRow → ParsedInternalKey → Candidate
  candidate_of check_enabled row ikey = record {
    key = ikey.user_key;
    value = if settings.authoritative_scan || check_enabled then some row.value else none;
    origin =
        if check_enabled
        then some (record {
          seqno = ikey.sequence;
          src_level = row.source_level;
          src_file = row.source_file;
          in_file_shadowed = row.has_newer_in_source;
        })
        else none;
  }

  abbrev pub passes : Bytes → Bool
  passes value = elim settings.compiled [ none ↦ true | some eval ↦ eval value ]

  -- The candidates that may have a newer version, by their indexes from `i` on.
  abbrev pub is_dirty : Candidate → Option Origin → Bool
  is_dirty c none = true
  is_dirty c (some origin) = origin.in_file_shadowed || settings.may_have_newer_version c.key origin

  abbrev pub add_if : Bool → ℕ → List ℕ → List ℕ
  add_if true i idx = i ∷ idx
  add_if false i idx = idx

  unfoldable pub check_from : ℕ → List Candidate → List ℕ
  check_from i [] = []
  check_from i (c ∷ candidates) = add_if (is_dirty c c.origin) i (check_from (i + 1) candidates)

  unfoldable pub iota_from : ℕ → List Candidate → List ℕ
  iota_from i [] = []
  iota_from i (c ∷ candidates) = i ∷ iota_from (i + 1) candidates

  unfoldable pub dirty_idx : Bool → List Candidate → List ℕ
  dirty_idx true candidates = check_from 0 candidates
  dirty_idx false candidates = iota_from 0 candidates

  -- The keys of the dirty candidates, and what MultiGet gives for them.
  abbrev pub key_at : Option Candidate → Bytes
  key_at none = []
  key_at (some c) = c.key

  unfoldable pub multi_get : List Candidate → List ℕ → List (Status × Bytes)
  multi_get candidates [] = []
  multi_get candidates (i ∷ idx) =
      settings.get (key_at (get_elem? candidates i)) ∷ multi_get candidates idx

  abbrev pub cons_row :
      Bytes × Option Bytes
      → Status ⊎ List (Bytes × Option Bytes)
      → Status ⊎ List (Bytes × Option Bytes)
  cons_row row (inl s) = inl s
  cons_row row (inr rows) = inr (row ∷ rows)

  -- A dirty key takes the verdict of MultiGet.
  abbrev pub take_verdict :
      Bytes
      → Status × Bytes
      → Status ⊎ List (Bytes × Option Bytes)
      → Status ⊎ List (Bytes × Option Bytes)
  take_verdict key (s, value) rest =
      if is_ok s
      then if passes value then cons_row (key, some value) rest else rest
      else if is_not_found s
      then rest
      else inl s

  -- The ordered merge from candidate `i` on: `idx` are the dirty indexes left, `verdicts` their answers.
  unfoldable pub merge_from :
      ℕ → List Candidate → List ℕ → List (Status × Bytes) → Status ⊎ List (Bytes × Option Bytes)
  merge_from i [] idx verdicts = inr []
  merge_from i (c ∷ candidates) [] verdicts =
      cons_row (c.key, c.value) (merge_from (i + 1) candidates [] verdicts)
  merge_from i (c ∷ candidates) (d ∷ idx) [] = inr []
  merge_from i (c ∷ candidates) (d ∷ idx) (v ∷ verdicts) =
      let rest = merge_from (i + 1) candidates idx verdicts in
      let clean = merge_from (i + 1) candidates (d ∷ idx) (v ∷ verdicts) in
      if d == i then take_verdict c.key v rest else cons_row (c.key, c.value) clean

abbrev pub keys_only : List Candidate → List (Bytes × Option Bytes)
keys_only [] = []
keys_only (c ∷ candidates) = (c.key, none) ∷ keys_only candidates

abbrev pub scan_rows : List Candidate → List (Bytes × Option Bytes)
scan_rows [] = []
scan_rows (c ∷ candidates) = (c.key, c.value) ∷ scan_rows candidates
