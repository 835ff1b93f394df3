-- ===== src/Batch/Judgement.antt =====
-- What the constructor of `BitLSMIterator` of src/include/bit_lsm_iterator.cpp concludes from the shape of the version that
-- it scans: whether no candidate can have a newer version, and otherwise whether candidates are checked one by one.
use bit_lsm.Base.{
  ℕ, suc, ◌-◌, Bool, true, false, not, ◌&&◌, Option, none, some, List, [], ◌∷◌, length, get_elem?,
  ◌==◌, if◌then◌else◌,
}
use bit_lsm.ShadowCheck.{FileRange}
use bit_lsm.Batch.{ResultMode, is_candidate_mode}

-- The version and the options that the constructor reads. `levels` are those from 1 to the last non-empty one.
pub record Shape : Type 0 where
  pub has_merge_operator : Bool
  pub enable_blob_files : Bool
  pub mem_entries : ℕ
  pub imm_not_flushed : ℕ
  pub l0_files : List FileRange
  pub levels : List (List FileRange)

pub record Judgement : Type 0 where
  pub authoritative_scan : Bool
  pub check_enabled : Bool
  pub track_source_versions : Bool

abbrev pub skippable_value_format : Shape → Bool
skippable_value_format shape = not shape.has_merge_operator && not shape.enable_blob_files

abbrev pub above_empty : Shape → Bool
above_empty shape =
    (shape.mem_entries == 0) && ((shape.imm_not_flushed == 0) && (length shape.l0_files == 0))

-- The loop over the levels from `level` on, from `single_level` set: the flag and `non_empty_level`, none for -1.
unfoldable pub find_level : ℕ → Option ℕ → List (List FileRange) → Bool × Option ℕ
find_level level found [] = (true, found)
find_level level found ([] ∷ levels) = find_level (suc level) found levels
find_level level none ((f ∷ files) ∷ levels) = find_level (suc level) (some level) levels
find_level level (some other) ((f ∷ files) ∷ levels) = (false, some level)

abbrev pub files_of : Option (List FileRange) → List FileRange
files_of none = []
files_of (some files) = files

-- `LevelFiles` of a level from 1 on.
abbrev pub level_files : List (List FileRange) → ℕ → List FileRange
level_files levels level = files_of (get_elem? levels (level - 1))

unfoldable pub are_zeroed : List FileRange → Bool
are_zeroed [] = true
are_zeroed (f ∷ files) = if not (f.largest_seqno == 0) then false else are_zeroed files

abbrev pub all_zeroed : List (List FileRange) → Bool × Option ℕ → Bool
all_zeroed levels (single_level, none) = false
all_zeroed levels (single_level, some level) = single_level && are_zeroed (level_files levels level)

unfoldable pub is_authoritative : Shape → Bool
is_authoritative shape =
    if above_empty shape then all_zeroed shape.levels (find_level 1 none shape.levels) else false

unfoldable pub judge : ResultMode → Shape → Judgement
judge result_mode shape =
    let judged = not (is_candidate_mode result_mode) && skippable_value_format shape in
    let authoritative = judged && is_authoritative shape in
    let checked = judged && not authoritative in
    record {
      authoritative_scan = authoritative;
      check_enabled = checked;
      track_source_versions = checked;
    }
