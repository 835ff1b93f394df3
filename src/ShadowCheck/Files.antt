-- ===== src/ShadowCheck/Files.antt =====
-- The check of one file, of level 0 and of a file found in a level: src/include/bit_lsm_shadow_check.cpp, against what
-- the files of the version hold.
use bit_lsm.Base.{
  ℕ, zero, suc, ◌≤◌, ◌<◌, ◌≡◌, ◌⊎◌, refl, ◌∙◌, sym, inl, inr, Bool, true, false, Bool-cases, ◌||◌,
  Option, none, some, Option-cases, List, [], ◌∷◌, length, get_elem?, ltb, leb, ◌==◌, ==→eq,
  if◌then◌else◌, arith,
}
use mathlib.Core.Path.{subst}
use bit_lsm.Bytes.{Bytes}
use bit_lsm.ShadowCheck.Kept.{check_l0_file-Kept}
use bit_lsm.ShadowCheck.{
  FileRange, Version, max_pinned_handles, Handles, find_handle, no_match, ask_handle,
  filter_says_no, ask_filter, check_l0_file, check_l0, check_found,
}

-- The versions of one key that each part holds, point entries and range tombstones over it, by their sequence numbers,
-- with what RocksDB guarantees of its reads at `read_seqno`, its file metadata, its filters and `FindFile`.
pub record Holdings {Table : Type 0} (version : Version Table) (user_key : Bytes) (read_seqno : ℕ)
    : Type 1 where
  pub in_mem : ℕ → Type 0
  pub in_imm : ℕ → Type 0
  pub in_file : FileRange → ℕ → Type 0
  pub table_of : ℕ → Table
  pub mem_read :
      (s : ℕ)
      → in_mem s
      → s ≤ read_seqno
      → (s ≤ (version.mem_get user_key).max_covering_tombstone_seq)
        ⊎ (((version.mem_get user_key).found ≡ true) × (s ≤ (version.mem_get user_key).seq))
  pub imm_read :
      (s : ℕ)
      → in_imm s
      → s ≤ read_seqno
      → (s ≤ (version.imm_get user_key).max_covering_tombstone_seq)
        ⊎ (((version.imm_get user_key).found ≡ true) × (s ≤ (version.imm_get user_key).seq))
  pub seqno_bound : (f : FileRange) (s : ℕ) → in_file f s → s ≤ f.largest_seqno
  pub after_smallest :
      (f : FileRange) (s : ℕ) → in_file f s → version.before user_key f.smallest_key ≡ false
  pub before_largest :
      (f : FileRange) (s : ℕ) → in_file f s → version.before f.largest_key user_key ≡ false
  pub opens_own :
      (f : FileRange) (t : Table) → version.find_table f ≡ some t → t ≡ table_of f.number
  pub filter_honest :
      (f : FileRange) (s : ℕ) (key_may_match : Bytes → Bool)
      → in_file f s
      → f.num_range_deletions ≡ 0
      → version.filter (table_of f.number) ≡ some key_may_match
      → key_may_match user_key ≡ true
  pub only_found :
      (k j : ℕ) (files : List FileRange) (f : FileRange) (s : ℕ)
      → get_elem? version.levels k ≡ some files
      → get_elem? files j ≡ some f
      → in_file f s
      → s ≤ read_seqno
      → get_elem? files (version.find_file files user_key) ≡ some f

module _ {Table : Type 0} (version : Version Table) (user_key : Bytes) (read_seqno : ℕ)
    (held : Holdings version user_key read_seqno) where
  abbrev pub HandlesRight : Handles Table → Type 0
  HandlesRight [] = Unit {0}
  HandlesRight ((n, t) ∷ handles) = (t ≡ held.table_of n) × HandlesRight handles

  find_handle-HandlesRight :
      (n : ℕ) (handles : Handles Table) (t : Table)
      → HandlesRight handles
      → find_handle n handles ≡ some t
      → t ≡ held.table_of n
  unfolding find_handle
  find_handle-HandlesRight n [] t right = λ e. absurd (ground (arith, e))
  find_handle-HandlesRight n ((m, u) ∷ handles) t right = elim (Bool-cases (m == n)) [
    | inl same ↦ rw same (λ e.
        let u_is_t : u ≡ t = ground (arith, e) in
        subst (λ k. t ≡ held.table_of k) (==→eq m n same) (sym u_is_t ∙ right.0))
    | inr other ↦ rw other (find_handle-HandlesRight n handles t right.1)
  ]

  cleared-HandlesRight :
      (b : Bool) (handles : Handles Table)
      → HandlesRight handles
      → HandlesRight (if b then [] else handles)
  cleared-HandlesRight true handles right = tt
  cleared-HandlesRight false handles right = right

  ask_handle-HandlesRight :
      (f : FileRange) (handles : Handles Table) (found : Option Table)
      → HandlesRight handles
      → HandlesRight (ask_handle version f user_key handles found).1
  ask_handle-HandlesRight f handles (some t) right = right
  ask_handle-HandlesRight f handles none right =
      let kept : Handles Table = if leb max_pinned_handles (length handles) then [] else handles in
      let kept_right =
        cleared-HandlesRight (leb max_pinned_handles (length handles)) handles right in
      elim (Option-cases (version.find_table f)) [
        | inl failed ↦ rw failed kept_right
        | inr (t, opened) ↦ rw opened (held.opens_own f t opened, kept_right)
      ]

  -- The filter of a file that holds the key as a point entry does not exclude it.
  no_match-honest :
      (f : FileRange) (s : ℕ) (t : Table) (filter : Option (Bytes → Bool))
      → held.in_file f s
      → f.num_range_deletions ≡ 0
      → t ≡ held.table_of f.number
      → version.filter t ≡ filter
      → no_match version user_key filter ≡ false
  no_match-honest f s t none inside points own e = refl
  no_match-honest f s t (some key_may_match) inside points own e =
      let own_filter = subst (λ u. version.filter u ≡ some key_may_match) own e in
      rw (held.filter_honest f s key_may_match inside points own_filter) refl

  ask_handle-honest :
      (f : FileRange) (s : ℕ) (handles : Handles Table) (found : Option Table)
      → held.in_file f s
      → f.num_range_deletions ≡ 0
      → HandlesRight handles
      → find_handle f.number handles ≡ found
      → (ask_handle version f user_key handles found).0 ≡ false
  ask_handle-honest f s handles (some t) inside points right e =
      no_match-honest f s t (version.filter t) inside points
        (find_handle-HandlesRight f.number handles t right e) refl
  ask_handle-honest f s handles none inside points right e =
      elim (Option-cases (version.find_table f)) [
        | inl failed ↦ rw failed refl
        | inr (t, opened) ↦ rw opened (
            no_match-honest f s t (version.filter t) inside points (held.opens_own f t opened) refl)
      ]

  pub filter_says_no-HandlesRight :
      (f : FileRange) (handles : Handles Table)
      → HandlesRight handles
      → HandlesRight (filter_says_no version handles f user_key).1
  unfolding filter_says_no
  filter_says_no-HandlesRight f handles right = ask_handle-HandlesRight f handles _ right

  ask_filter-finds :
      (f : FileRange) (s : ℕ) (handles : Handles Table)
      → held.in_file f s
      → HandlesRight handles
      → (ask_filter version handles f user_key).0 ≡ true
  unfolding filter_says_no
  ask_filter-finds f s handles inside right = elim (Bool-cases (ltb 0 f.num_range_deletions)) [
    | inl ranges ↦ rw ranges refl
    | inr points ↦
        let says = ask_handle-honest f s handles _ inside (ground (arith, points)) right refl in
        rw (points, says) refl
  ]

  module _ (cand_seqno src_file_no : ℕ) where
    -- A file other than the source's holds a visible version that is newer than the candidate.
    abbrev pub Newer : FileRange → ℕ → Type 0
    Newer f s =
        ((f.number == src_file_no) ≡ false)
        × (held.in_file f s × ((s ≤ read_seqno) × (cand_seqno < s)))

    check_l0_file-finds :
        (handles : Handles Table) (f : FileRange) (s : ℕ)
        → HandlesRight handles
        → Newer f s
        → (check_l0_file version user_key cand_seqno src_file_no handles f).0 ≡ true
    unfolding check_l0_file
    check_l0_file-finds handles f s right (other, (inside, (visible, newer))) =
        let recent : leb f.largest_seqno cand_seqno ≡ false =
          ground (arith, held.seqno_bound f s inside, newer) in
        let in_range : (version.before user_key f.smallest_key
              || version.before f.largest_key user_key)
            ≡ false =
          rw (held.after_smallest f s inside, held.before_largest f s inside) refl in
        rw (recent, other, in_range) (ask_filter-finds f s handles inside right)

    pub check_l0-finds :
        (handles : Handles Table) (files : List FileRange) (i : ℕ) (f : FileRange) (s : ℕ)
        → HandlesRight handles
        → get_elem? files i ≡ some f
        → Newer f s
        → (check_l0 version user_key cand_seqno src_file_no handles files).0 ≡ true
    unfolding check_l0
    check_l0-finds handles [] i f s right here newer = absurd (ground (arith, here))
    check_l0-finds handles (g ∷ files) zero f s right here newer =
        let same : f ≡ g = ground (arith, here) in
        let hit = check_l0_file-finds handles g s right (subst (λ h. Newer h s) same newer) in
        rw hit refl
    check_l0-finds handles (g ∷ files) (suc i) f s right here newer =
        let first = check_l0_file version user_key cand_seqno src_file_no handles g in
        let after =
          check_l0_file-Kept version user_key HandlesRight filter_says_no-HandlesRight cand_seqno
            src_file_no handles g right in
        elim (Bool-cases first.0) [
          | inl hit ↦ rw hit refl
          | inr clear ↦ rw clear (check_l0-finds first.1 files i f s after here newer)
        ]

    pub check_found-finds :
        (handles : Handles Table) (f : FileRange) (s : ℕ)
        → HandlesRight handles
        → Newer f s
        → (check_found version user_key cand_seqno src_file_no handles (some f)).0 ≡ true
    check_found-finds handles f s right (other, (inside, (visible, newer))) =
        let recent : leb f.largest_seqno cand_seqno ≡ false =
          ground (arith, held.seqno_bound f s inside, newer) in
        rw (held.after_smallest f s inside, recent, other)
          (ask_filter-finds f s handles inside right)
