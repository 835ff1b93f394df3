-- ===== src/ShadowCheck/Kept.antt =====
-- What a property of the pinned handles needs to last through the check: src/include/bit_lsm_shadow_check.cpp.
use bit_lsm.Base.{
  ℕ, ◌+◌, inl, inr, Bool-cases, ◌||◌, Option, none, some, List, [], ◌∷◌, get_elem?, ltb, leb, ◌==◌,
}
use bit_lsm.Base.Int.{ℤ, pos, leb_ℤ, eqb_ℤ}
use bit_lsm.Bytes.{Bytes}
use bit_lsm.ShadowCheck.{
  memtable_source_level, FileRange, Version, Handles, memtables_have_newer, filter_says_no,
  ask_filter, check_l0_file, check_l0, check_found, check_level, check_levels,
  may_have_newer_version,
}

module _ {Table : Type 0} (version : Version Table) (user_key : Bytes)
    (Kept : Handles Table → Type 0)
    (filter_says_no-Kept : (f : FileRange) (handles : Handles Table)
      → Kept handles
      → Kept (filter_says_no version handles f user_key).1) where
  ask_filter-Kept :
      (f : FileRange) (handles : Handles Table)
      → Kept handles
      → Kept (ask_filter version handles f user_key).1
  ask_filter-Kept f handles right = elim (Bool-cases (ltb 0 f.num_range_deletions)) [
    | inl ranges ↦ rw ranges right
    | inr points ↦ rw points (filter_says_no-Kept f handles right)
  ]

  module _ (cand_seqno src_file_no : ℕ) where
    pub check_l0_file-Kept :
        (handles : Handles Table) (f : FileRange)
        → Kept handles
        → Kept (check_l0_file version user_key cand_seqno src_file_no handles f).1
    unfolding check_l0_file
    check_l0_file-Kept handles f right = elim (Bool-cases (leb f.largest_seqno cand_seqno)) [
      | inl old ↦ rw old right
      | inr recent ↦ elim (Bool-cases (f.number == src_file_no)) [
        | inl source ↦ rw (recent, source) right
        | inr other ↦
            elim (Bool-cases
              (version.before user_key f.smallest_key || version.before f.largest_key user_key)) [
                | inl outside ↦ rw (recent, other, outside) right
                | inr inside ↦ rw (recent, other, inside) (ask_filter-Kept f handles right)
              ]
      ]
    ]

    pub check_l0-Kept :
        (handles : Handles Table) (files : List FileRange)
        → Kept handles
        → Kept (check_l0 version user_key cand_seqno src_file_no handles files).1
    unfolding check_l0
    check_l0-Kept handles [] right = right
    check_l0-Kept handles (f ∷ files) right =
        let first = check_l0_file version user_key cand_seqno src_file_no handles f in
        let after = check_l0_file-Kept handles f right in
        elim (Bool-cases first.0) [
          | inl hit ↦ rw hit after
          | inr clear ↦ rw clear (check_l0-Kept first.1 files after)
        ]

    pub check_found-Kept :
        (handles : Handles Table) (found : Option FileRange)
        → Kept handles
        → Kept (check_found version user_key cand_seqno src_file_no handles found).1
    check_found-Kept handles none right = right
    check_found-Kept handles (some f) right =
        elim (Bool-cases (version.before user_key f.smallest_key)) [
          | inl outside ↦ rw outside right
          | inr inside ↦ elim (Bool-cases (leb f.largest_seqno cand_seqno)) [
            | inl old ↦ rw (inside, old) right
            | inr recent ↦ elim (Bool-cases (f.number == src_file_no)) [
              | inl source ↦ rw (inside, recent, source) right
              | inr other ↦ rw (inside, recent, other) (ask_filter-Kept f handles right)
            ]
          ]
        ]

    check_levels-Kept :
        (src_level : ℤ) (level : ℕ) (handles : Handles Table) (levels : List (List FileRange))
        → Kept handles
        → Kept
            (check_levels version user_key cand_seqno src_file_no src_level level handles levels).1
    unfolding check_levels check_level
    check_levels-Kept src_level level handles [] right = right
    check_levels-Kept src_level level handles (files ∷ levels) right =
        let first = check_level version user_key cand_seqno src_file_no handles files in
        let after =
          check_found-Kept handles (get_elem? files (version.find_file files user_key)) right in
        elim (Bool-cases (leb_ℤ (pos level) src_level)) [
          | inr below ↦ rw below right
          | inl above ↦ elim (Bool-cases first.0) [
            | inl hit ↦ rw (above, hit) after
            | inr clear ↦
                rw (above, clear) (check_levels-Kept src_level (level + 1) first.1 levels after)
          ]
        ]

    pub may_have_newer_version-Kept :
        (src_level : ℤ) (handles : Handles Table)
        → Kept handles
        → Kept (may_have_newer_version version user_key cand_seqno src_file_no src_level handles).1
    unfolding may_have_newer_version
    may_have_newer_version-Kept src_level handles right =
        let l0 = check_l0 version user_key cand_seqno src_file_no handles version.l0_files in
        let after = check_l0-Kept handles version.l0_files right in
        elim (Bool-cases (memtables_have_newer version user_key cand_seqno)) [
          | inl mem ↦ rw mem right
          | inr clear ↦ elim (Bool-cases (eqb_ℤ src_level memtable_source_level)) [
            | inl above ↦ rw (clear, above) right
            | inr deep ↦ elim (Bool-cases l0.0) [
              | inl hit ↦ rw (clear, deep, hit) after
              | inr none_there ↦
                  rw (clear, deep, none_there)
                    (check_levels-Kept src_level 1 l0.1 version.levels after)
            ]
          ]
        ]
