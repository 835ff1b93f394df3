-- ===== src/ShadowCheck/Pinned.antt =====
-- How many table handles the check pins: `FilterSaysNo` of src/include/bit_lsm_shadow_check.cpp.
use bit_lsm.Base.{ℕ, suc, ◌≤◌, inl, inr, Bool-cases, Option, none, some, [], length, leb, arith}
use bit_lsm.Base.Int.{ℤ}
use bit_lsm.Bytes.{Bytes}
use bit_lsm.ShadowCheck.{
  FileRange, Version, max_pinned_handles, Handles, ask_handle, ask_opened, filter_says_no,
  may_have_newer_version,
}
use bit_lsm.ShadowCheck.Kept.{may_have_newer_version-Kept}

module _ {Table : Type 0} (version : Version Table) (user_key : Bytes) where
  abbrev IsBounded : Handles Table → Type 0
  IsBounded handles = length handles ≤ max_pinned_handles

  ask_opened-IsBounded :
      (f : FileRange) (handles : Handles Table) (opened : Option Table)
      → suc (length handles) ≤ max_pinned_handles
      → IsBounded (ask_opened version f user_key handles opened).1
  ask_opened-IsBounded f handles none short = omega (arith, short)
  ask_opened-IsBounded f handles (some table) short = short

  ask_handle-IsBounded :
      (f : FileRange) (handles : Handles Table) (found : Option Table)
      → IsBounded handles
      → IsBounded (ask_handle version f user_key handles found).1
  ask_handle-IsBounded f handles (some table) short = short
  ask_handle-IsBounded f handles none short =
      elim (Bool-cases (leb max_pinned_handles (length handles))) [
        | inl full ↦ rw full (ask_opened-IsBounded f [] (version.find_table f) (omega arith))
        | inr room ↦
            rw room (ask_opened-IsBounded f handles (version.find_table f) (ground (arith, room)))
      ]

  filter_says_no-IsBounded :
      (f : FileRange) (handles : Handles Table)
      → IsBounded handles
      → IsBounded (filter_says_no version handles f user_key).1
  unfolding filter_says_no
  filter_says_no-IsBounded f handles short = ask_handle-IsBounded f handles _ short

  -- The check pins at most kMaxPinnedHandles table handles, if no more are pinned when it starts.
  pub length-may_have_newer_version :
      (cand_seqno src_file_no : ℕ) (src_level : ℤ) (handles : Handles Table)
      → length handles ≤ max_pinned_handles
      → length (may_have_newer_version version user_key cand_seqno src_file_no src_level handles).1
        ≤ max_pinned_handles
  length-may_have_newer_version cand_seqno src_file_no src_level handles short =
      may_have_newer_version-Kept version user_key IsBounded filter_says_no-IsBounded cand_seqno
        src_file_no src_level handles short
