-- ===== src/Examples/Shadows.antt =====
-- The check for newer versions on two levels, of which the deeper holds a newer version of the key.
use bit_lsm.Base.{
  ℕ, zero, suc, ◌≤◌, ◌≡◌, refl, sym, ap, ◌∙◌, Bool, true, false, Option, none, some, List, [], ◌∷◌,
  length, get_elem?, ltb, ◌==◌, arith,
}
use bit_lsm.Base.Int.{pos}
use mathlib.Core.Path.{subst}
use bit_lsm.Bytes.{Bytes}
use bit_lsm.ShadowCheck.{MemGet, FileRange, Version, max_pinned_handles, may_have_newer_version}
use bit_lsm.ShadowCheck.Files.{Holdings}
use bit_lsm.ShadowCheck.Sound.{newer_level, may_have_newer_version_sound}
use bit_lsm.ShadowCheck.Pinned.{length-may_have_newer_version}

abbrev file : ℕ → ℕ → ℕ → ℕ → FileRange
file number smallest largest seqno = record {
  number = number;
  smallest_key = smallest ∷ [];
  largest_key = largest ∷ [];
  largest_seqno = seqno;
  num_range_deletions = 0;
}

abbrev first_byte : Bytes → ℕ
first_byte [] = 0
first_byte (b ∷ bytes) = b

abbrev deep_file : FileRange
deep_file = file 21 5 9 30

abbrev no_entry : MemGet
no_entry = record { found = false; seq = 0; max_covering_tombstone_seq = 0 }

abbrev version : Version ℕ
version = record {
  mem_get = λ key. no_entry;
  imm_get = λ key. no_entry;
  l0_files = file 10 1 9 40 ∷ [];
  levels = (file 20 1 4 30 ∷ deep_file ∷ []) ∷ [];
  before = λ a b. ltb (first_byte a) (first_byte b);
  find_file = λ files key. 1;
  find_table = λ f. some f.number;
  filter = λ table. some (λ key. table == 21);
}

abbrev key : Bytes
key = 7 ∷ []

abbrev asked : Option (Bytes → Bool) → Bool
asked none = true
asked (some key_may_match) = key_may_match key

abbrev Inside : FileRange → ℕ → Type 0
Inside f s = (f ≡ deep_file) × (s ≡ 8)

own : (f : FileRange) (t : ℕ) → version.find_table f ≡ some t → t ≡ f.number
own f t e = ground (arith, e)

honest :
    (f : FileRange) (s : ℕ) (key_may_match : Bytes → Bool)
    → Inside f s
    → version.filter f.number ≡ some key_may_match
    → key_may_match key ≡ true
honest f s key_may_match inside e =
    sym (ap asked e) ∙ ap (λ (g : FileRange). g.number == 21) inside.0

only :
    (k j : ℕ) (files : List FileRange) (f : FileRange) (s : ℕ)
    → get_elem? version.levels k ≡ some files
    → Inside f s
    → get_elem? files 1 ≡ some f
only zero j files f s at inside =
    let same : file 20 1 4 30 ∷ deep_file ∷ [] ≡ files = ground (arith, at) in
    subst (λ fs. get_elem? fs 1 ≡ some f) same (ap some (sym inside.0))
only (suc k) j files f s at inside = absurd (ground (arith, at))

abbrev held : Holdings version key 10
held = record {
  in_mem = λ s. ⊥;
  in_imm = λ s. ⊥;
  in_file = Inside;
  table_of = λ n. n;
  mem_read = λ s inside visible. absurd inside;
  imm_read = λ s inside visible. absurd inside;
  seqno_bound =
      λ f s inside. subst (λ g. s ≤ g.largest_seqno) (sym inside.0) (omega (arith, inside.1));
  after_smallest = λ f s inside. ap (λ (g : FileRange). ltb 7 (first_byte g.smallest_key)) inside.0;
  before_largest = λ f s inside. ap (λ (g : FileRange). ltb (first_byte g.largest_key) 7) inside.0;
  opens_own = λ f t e. own f t e;
  filter_honest = λ f s m inside points e. honest f s m inside e;
  only_found = λ k j files f s at here inside visible. only k j files f s at inside;
}

may_have_newer_version_sound_example : (may_have_newer_version version key 6 99 (pos 1) []).0 ≡ true
may_have_newer_version_sound_example =
    may_have_newer_version_sound version key 10 held 6 99 (pos 1) [] tt (
      newer_level 0 1 (file 20 1 4 30 ∷ deep_file ∷ []) deep_file 8 refl refl refl refl
        (refl, ((refl, refl), (omega arith, omega arith))))

length-may_have_newer_version_example :
    length (may_have_newer_version version key 6 99 (pos 1) ((10, 10) ∷ [])).1 ≤ max_pinned_handles
length-may_have_newer_version_example =
    length-may_have_newer_version version key 6 99 (pos 1) ((10, 10) ∷ []) (omega arith)
