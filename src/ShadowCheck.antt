-- ===== src/ShadowCheck.antt =====
-- Whether a newer version of a key may exist: src/include/bit_lsm_shadow_check.h and bit_lsm_shadow_check.cpp. RocksDB's
-- memtable reads, its table cache, its filters, `FindFile` and the order of user keys are parameters.
pub mod Kept
pub mod Files
pub mod Sound
pub mod Pinned
use bit_lsm.Base.{
  ℕ, zero, suc, ◌+◌, ◌≡◌, Bool, true, false, not, ◌&&◌, ◌||◌, Option, none, some, List, [], ◌∷◌,
  length, get_elem?, ltb, leb, ◌==◌, if◌then◌else◌,
}
use bit_lsm.Base.Int.{ℤ, pos, negsuc, leb_ℤ, eqb_ℤ}
use bit_lsm.Bytes.{Bytes}

abbrev pub memtable_source_level : ℤ
memtable_source_level = negsuc 0

-- What a read of a memtable reports: whether it found a point entry, its sequence number, and that of a newest range
-- tombstone over the key, 0 if there is none.
pub record MemGet : Type 0 where
  pub found : Bool
  pub seq : ℕ
  pub max_covering_tombstone_seq : ℕ

-- `FdWithKeyRange` and its metadata.
pub record FileRange : Type 0 where
  pub number : ℕ
  pub smallest_key : Bytes
  pub largest_key : Bytes
  pub largest_seqno : ℕ
  pub num_range_deletions : ℕ

-- The version that is scanned, as the check reads it.
pub record Version (Table : Type 0) : Type 0 where
  pub mem_get : Bytes → MemGet
  pub imm_get : Bytes → MemGet
  pub l0_files : List FileRange
  -- level 1 first
  pub levels : List (List FileRange)
  pub before : Bytes → Bytes → Bool
  pub find_file : List FileRange → Bytes → ℕ
  pub find_table : FileRange → Option Table
  -- a whole-key filter, if the table has one
  pub filter : Table → Option (Bytes → Bool)

abbrev pub max_pinned_handles : ℕ
max_pinned_handles = 64

-- `handles_`, by file number.
abbrev pub Handles : Type 0 → Type 0
Handles Table = List (ℕ × Table)

unfoldable pub find_handle : {Table : Type 0} → ℕ → Handles Table → Option Table
find_handle number [] = none
find_handle number ((n, table) ∷ handles) =
    if n == number then some table else find_handle number handles

module _ {Table : Type 0} (version : Version Table) where
  abbrev pub shadows : MemGet → ℕ → Bool
  shadows hit cand_seqno =
      ltb cand_seqno hit.max_covering_tombstone_seq || (hit.found && ltb cand_seqno hit.seq)

  unfoldable pub memtables_have_newer : Bytes → ℕ → Bool
  memtables_have_newer user_key cand_seqno =
      shadows (version.mem_get user_key) cand_seqno || shadows (version.imm_get user_key) cand_seqno

  abbrev pub no_match : Bytes → Option (Bytes → Bool) → Bool
  no_match user_key none = false
  no_match user_key (some key_may_match) = not (key_may_match user_key)

  -- A table that cannot be opened proves nothing.
  abbrev pub ask_opened : FileRange → Bytes → Handles Table → Option Table → Bool × Handles Table
  ask_opened f user_key handles none = (false, handles)
  ask_opened f user_key handles (some table) =
      (no_match user_key (version.filter table), (f.number, table) ∷ handles)

  abbrev pub ask_handle : FileRange → Bytes → Handles Table → Option Table → Bool × Handles Table
  ask_handle f user_key handles (some table) = (no_match user_key (version.filter table), handles)
  ask_handle f user_key handles none =
      ask_opened f user_key (if leb max_pinned_handles (length handles) then [] else handles)
        (version.find_table f)

  unfoldable pub filter_says_no : Handles Table → FileRange → Bytes → Bool × Handles Table
  filter_says_no handles f user_key = ask_handle f user_key handles (find_handle f.number handles)

  -- The end of both loops' bodies.
  abbrev pub ask_filter : Handles Table → FileRange → Bytes → Bool × Handles Table
  ask_filter handles f user_key =
      let (says_no, after) = filter_says_no handles f user_key in
      if ltb 0 f.num_range_deletions then (true, handles) else (not says_no, after)

  module _ (user_key : Bytes) (cand_seqno src_file_no : ℕ) where
    unfoldable pub check_l0_file : Handles Table → FileRange → Bool × Handles Table
    check_l0_file handles f =
        if leb f.largest_seqno cand_seqno
        then (false, handles)
        else if f.number == src_file_no
        then (false, handles)
        else if version.before user_key f.smallest_key || version.before f.largest_key user_key
        then (false, handles)
        else ask_filter handles f user_key

    unfoldable pub check_l0 : Handles Table → List FileRange → Bool × Handles Table
    check_l0 handles [] = (false, handles)
    check_l0 handles (f ∷ files) =
        let (hit, after) = check_l0_file handles f in
        let rest = check_l0 after files in if hit then (true, after) else rest

    abbrev pub check_found : Handles Table → Option FileRange → Bool × Handles Table
    check_found handles none = (false, handles)
    check_found handles (some f) =
        if version.before user_key f.smallest_key
        then (false, handles)
        else if leb f.largest_seqno cand_seqno
        then (false, handles)
        else if f.number == src_file_no
        then (false, handles)
        else ask_filter handles f user_key

    unfoldable pub check_level : Handles Table → List FileRange → Bool × Handles Table
    check_level handles files =
        check_found handles (get_elem? files (version.find_file files user_key))

    -- The levels from `level` on, down to the source's.
    unfoldable pub check_levels :
        ℤ → ℕ → Handles Table → List (List FileRange) → Bool × Handles Table
    check_levels src_level level handles [] = (false, handles)
    check_levels src_level level handles (files ∷ levels) =
        let (hit, after) = check_level handles files in
        let rest = check_levels src_level (level + 1) after levels in
        if leb_ℤ (pos level) src_level
        then if hit then (true, after) else rest
        else (false, handles)

    unfoldable pub may_have_newer_version : ℤ → Handles Table → Bool × Handles Table
    may_have_newer_version src_level handles =
        let (hit, after) = check_l0 handles version.l0_files in
        let deeper = check_levels src_level 1 after version.levels in
        if memtables_have_newer user_key cand_seqno
        then (true, handles)
        else if eqb_ℤ src_level memtable_source_level
        then (false, handles)
        else if hit
        then (true, after)
        else deeper
