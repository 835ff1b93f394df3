-- ===== src/ShadowCheck/Sound.antt =====
-- The whole check: `MayHaveNewerVersion` of src/include/bit_lsm_shadow_check.cpp, against what the memtables and the
-- files of the version hold.
use bit_lsm.Base.{
  ℕ, zero, suc, ◌+◌, ◌≤◌, ◌<◌, ◌≡◌, ◌⊎◌, refl, inl, inr, true, false, Bool-cases, some, List, [],
  ◌∷◌, get_elem?, arith,
}
use bit_lsm.Base.Int.{ℤ, pos, negsuc, leb_ℤ, eqb_ℤ}
use mathlib.Core.Path.{subst}
use bit_lsm.Bytes.{Bytes}
use bit_lsm.ShadowCheck.{
  memtable_source_level, MemGet, FileRange, Version, Handles, shadows, memtables_have_newer,
  check_l0, check_level, check_levels, may_have_newer_version,
}
use bit_lsm.ShadowCheck.Kept.{check_l0-Kept, check_found-Kept}
use bit_lsm.ShadowCheck.Files.{
  Holdings, HandlesRight, Newer, check_l0-finds, check_found-finds, filter_says_no-HandlesRight,
}

shadows-newer :
    {Table : Type 0} (version : Version Table) (hit : MemGet) (cand_seqno s : ℕ)
    → cand_seqno < s
    → (s ≤ hit.max_covering_tombstone_seq) ⊎ ((hit.found ≡ true) × (s ≤ hit.seq))
    → shadows version hit cand_seqno ≡ true
shadows-newer version hit cand_seqno s newer covered = ground (arith, newer, covered)

upper_level :
    (level k : ℕ) (src_level : ℤ)
    → leb_ℤ (pos (level + k)) src_level ≡ true
    → leb_ℤ (pos level) src_level ≡ true
upper_level level k (pos n) h = ground (arith, h)
upper_level level k (negsuc n) h = ground (arith, h)

module _ {Table : Type 0} (version : Version Table) (user_key : Bytes) (read_seqno : ℕ)
    (held : Holdings version user_key read_seqno) (cand_seqno src_file_no : ℕ) (src_level : ℤ) where
  -- Where a visible version newer than the candidate may be, of those that the check is to see: in the memtables, or, for
  -- a candidate from a file, in another file of level 0 or of a level down to the source's.
  pub data NewerSomewhere : Type 0 where
    newer_mem : (s : ℕ) → held.in_mem s → s ≤ read_seqno → cand_seqno < s → NewerSomewhere
    newer_imm : (s : ℕ) → held.in_imm s → s ≤ read_seqno → cand_seqno < s → NewerSomewhere
    newer_l0 :
        (i : ℕ) (f : FileRange) (s : ℕ)
        → eqb_ℤ src_level memtable_source_level ≡ false
        → get_elem? version.l0_files i ≡ some f
        → Newer version user_key read_seqno held cand_seqno src_file_no f s
        → NewerSomewhere
    newer_level :
        (k j : ℕ) (files : List FileRange) (f : FileRange) (s : ℕ)
        → eqb_ℤ src_level memtable_source_level ≡ false
        → leb_ℤ (pos (1 + k)) src_level ≡ true
        → get_elem? version.levels k ≡ some files
        → get_elem? files j ≡ some f
        → Newer version user_key read_seqno held cand_seqno src_file_no f s
        → NewerSomewhere

  abbrev Right : Handles Table → Type 0
  Right handles = HandlesRight version user_key read_seqno held handles

  check_level-Right :
      (handles : Handles Table) (files : List FileRange)
      → Right handles
      → Right (check_level version user_key cand_seqno src_file_no handles files).1
  unfolding check_level
  check_level-Right handles files right =
      check_found-Kept version user_key (HandlesRight version user_key read_seqno held)
        (filter_says_no-HandlesRight version user_key read_seqno held) cand_seqno src_file_no
        handles _ right

  check_level-finds :
      (handles : Handles Table) (files : List FileRange) (f : FileRange) (s : ℕ)
      → Right handles
      → get_elem? files (version.find_file files user_key) ≡ some f
      → Newer version user_key read_seqno held cand_seqno src_file_no f s
      → (check_level version user_key cand_seqno src_file_no handles files).0 ≡ true
  unfolding check_level
  check_level-finds handles files f s right here newer = rw here (
      check_found-finds version user_key read_seqno held cand_seqno src_file_no handles f s right
        newer)

  check_levels-finds :
      (level : ℕ) (handles : Handles Table) (levels : List (List FileRange)) (k : ℕ)
      (files : List FileRange) (f : FileRange) (s : ℕ)
      → Right handles
      → leb_ℤ (pos (level + k)) src_level ≡ true
      → get_elem? levels k ≡ some files
      → get_elem? files (version.find_file files user_key) ≡ some f
      → Newer version user_key read_seqno held cand_seqno src_file_no f s
      → (check_levels version user_key cand_seqno src_file_no src_level level handles levels).0
        ≡ true
  unfolding check_levels
  check_levels-finds level handles [] k files f s right deep at here newer =
      absurd (ground (arith, at))
  check_levels-finds level handles (g ∷ levels) zero files f s right deep at here newer =
      let same : files ≡ g = ground (arith, at) in
      let hit =
        check_level-finds handles g f s right
          (subst (λ h. get_elem? h (version.find_file h user_key) ≡ some f) same here) newer in
      rw (upper_level level 0 src_level deep, hit) refl
  check_levels-finds level handles (g ∷ levels) (suc k) files f s right deep at here newer =
      let first = check_level version user_key cand_seqno src_file_no handles g in
      let after = check_level-Right handles g right in
      let moved : leb_ℤ (pos (level + 1 + k)) src_level ≡ true =
        subst (λ (n : ℕ). leb_ℤ (pos n) src_level ≡ true) (omega arith) deep in
      elim (Bool-cases first.0) [
        | inl hit ↦ rw (upper_level level (suc k) src_level deep, hit) refl
        | inr clear ↦
            rw (upper_level level (suc k) src_level deep, clear)
              (check_levels-finds (level + 1) first.1 levels k files f s after moved at here newer)
      ]

  -- Where RocksDB's reads, file metadata, filters and FindFile are honest about the versions of a key and the
  -- pinned handles are those of their files, MayHaveNewerVersion answers true whenever a visible version newer
  -- than the candidate, range tombstones included, is in a memtable or, for a candidate from a file, in another
  -- file of level 0 or of a level from 1 to the source's.
  pub may_have_newer_version_sound :
      (handles : Handles Table)
      → HandlesRight version user_key read_seqno held handles
      → NewerSomewhere
      → (may_have_newer_version version user_key cand_seqno src_file_no src_level handles).0 ≡ true
  unfolding may_have_newer_version memtables_have_newer
  may_have_newer_version_sound handles right (newer_mem s inside visible newer) =
      rw (shadows-newer version _ cand_seqno s newer (held.mem_read s inside visible)) refl
  may_have_newer_version_sound handles right (newer_imm s inside visible newer) =
      let found = shadows-newer version _ cand_seqno s newer (held.imm_read s inside visible) in
      elim (Bool-cases (shadows version (version.mem_get user_key) cand_seqno)) [
        | inl hit ↦ rw hit refl
        | inr clear ↦ rw (clear, found) refl
      ]
  may_have_newer_version_sound handles right (newer_l0 i f s deep here newer) =
      let hit =
        check_l0-finds version user_key read_seqno held cand_seqno src_file_no handles
          version.l0_files i f s right here newer in
      elim (Bool-cases (memtables_have_newer version user_key cand_seqno)) [
        | inl mem ↦ rw mem refl
        | inr clear ↦ rw (clear, deep, hit) refl
      ]
  may_have_newer_version_sound handles right (newer_level k j files f s deep above at here newer) =
      let l0 = check_l0 version user_key cand_seqno src_file_no handles version.l0_files in
      let after =
        check_l0-Kept version user_key (HandlesRight version user_key read_seqno held)
          (filter_says_no-HandlesRight version user_key read_seqno held) cand_seqno src_file_no
          handles version.l0_files right in
      let found = held.only_found k j files f s at here newer.1.0 newer.1.1.0 in
      let hit = check_levels-finds 1 l0.1 version.levels k files f s after above at found newer in
      elim (Bool-cases (memtables_have_newer version user_key cand_seqno)) [
        | inl mem ↦ rw mem refl
        | inr clear ↦ elim (Bool-cases l0.0) [
          | inl early ↦ rw (clear, deep, early) refl
          | inr none_there ↦ rw (clear, deep, none_there) hit
        ]
      ]
