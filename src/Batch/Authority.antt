-- ===== src/Batch/Authority.antt =====
-- When a scan is judged authoritative, by the constructor of `BitLSMIterator` of src/include/bit_lsm_iterator.cpp: where
-- the versions of a key can be.
use bit_lsm.Base.{
  ℕ, zero, suc, ◌+◌, ◌-◌, ◌≤◌, ◌<◌, ◌≡◌, refl, sym, ap, ◌∙◌, Bool, true, false, Option, none, some,
  List, [], ◌∷◌, length, get_elem?, arith,
}
use mathlib.Core.Path.{subst}
use bit_lsm.ShadowCheck.{FileRange}
use bit_lsm.Batch.{ResultMode}
use bit_lsm.Batch.Judgement.{
  Shape, find_level, are_zeroed, all_zeroed, is_authoritative, judge, level_files, files_of,
}

-- The sequence numbers of a key's versions in the parts of the scanned version: an empty part holds none, and a file's
-- are bounded by its metadata.
pub record Stored (shape : Shape) : Type 1 where
  pub in_mem : ℕ → Type 0
  pub in_imm : ℕ → Type 0
  pub in_file : FileRange → ℕ → Type 0
  pub mem_counted : (s : ℕ) → in_mem s → 0 < shape.mem_entries
  pub imm_counted : (s : ℕ) → in_imm s → 0 < shape.imm_not_flushed
  pub seqno_bound : (f : FileRange) (s : ℕ) → in_file f s → s ≤ f.largest_seqno

zeroed-largest_seqno :
    (files : List FileRange) (j : ℕ) (f : FileRange)
    → are_zeroed files ≡ true
    → get_elem? files j ≡ some f
    → f.largest_seqno ≡ 0
unfolding are_zeroed
zeroed-largest_seqno [] j f zeroed at = absurd (ground (arith, at))
zeroed-largest_seqno (g ∷ files) zero f zeroed at =
    let same : f ≡ g = ground (arith, at) in
    let here : g.largest_seqno ≡ 0 = ground (arith, zeroed) in
    subst (λ (h : FileRange). h.largest_seqno ≡ 0) (sym same) here
zeroed-largest_seqno (g ∷ files) (suc j) f zeroed at =
    zeroed-largest_seqno files j f (ground (arith, zeroed)) (ground (arith, at))

-- After one non-empty level a single one means that all further levels are empty.
find_level-rest :
    (levels : List (List FileRange)) (level other l k j : ℕ) (files : List FileRange)
    (f : FileRange)
    → find_level level (some other) levels ≡ (true, some l)
    → get_elem? levels k ≡ some files
    → get_elem? files j ≡ some f
    → ⊥
unfolding find_level
find_level-rest [] level other l k j files f e at here = ground (arith, at)
find_level-rest ([] ∷ levels) level other l zero j files f e at here = ground (arith, at, here)
find_level-rest ([] ∷ levels) level other l (suc k) j files f e at here =
    find_level-rest levels (suc level) other l k j files f e at here
find_level-rest ((g ∷ gs) ∷ levels) level other l k j files f e at here = ground (arith, e)

find_level-keeps :
    (levels : List (List FileRange)) (level other l : ℕ)
    → find_level level (some other) levels ≡ (true, some l)
    → l ≡ other
unfolding find_level
find_level-keeps [] level other l e = ground (arith, e)
find_level-keeps ([] ∷ levels) level other l e = find_level-keeps levels (suc level) other l e
find_level-keeps ((g ∷ gs) ∷ levels) level other l e = absurd (ground (arith, e))

-- A single non-empty level is the level of every file.
find_level-single :
    (levels : List (List FileRange)) (level l k j : ℕ) (files : List FileRange) (f : FileRange)
    → find_level level none levels ≡ (true, some l)
    → get_elem? levels k ≡ some files
    → get_elem? files j ≡ some f
    → l ≡ level + k
unfolding find_level
find_level-single [] level l k j files f e at here = absurd (ground (arith, at))
find_level-single ([] ∷ levels) level l zero j files f e at here = absurd (ground (arith, at, here))
find_level-single ([] ∷ levels) level l (suc k) j files f e at here =
    let deeper = find_level-single levels (suc level) l k j files f e at here in
    omega (arith, deeper)
find_level-single ((g ∷ gs) ∷ levels) level l zero j files f e at here =
    let kept = find_level-keeps levels (suc level) level l e in omega (arith, kept)
find_level-single ((g ∷ gs) ∷ levels) level l (suc k) j files f e at here =
    absurd (find_level-rest levels (suc level) level l k j files f e at here)

all_zeroed-largest_seqno :
    (levels : List (List FileRange)) (k j : ℕ) (files : List FileRange) (f : FileRange)
    → all_zeroed levels (find_level 1 none levels) ≡ true
    → get_elem? levels k ≡ some files
    → get_elem? files j ≡ some f
    → f.largest_seqno ≡ 0
all_zeroed-largest_seqno levels k j files f zeroed at here =
    all_zeroed-known (find_level 1 none levels) refl zeroed
  where
    all_zeroed-known :
        (found : Bool × Option ℕ)
        → find_level 1 none levels ≡ found
        → all_zeroed levels found ≡ true
        → f.largest_seqno ≡ 0
    all_zeroed-known (single, none) e z = absurd (ground (arith, z))
    all_zeroed-known (false, some l) e z = absurd (ground (arith, z))
    all_zeroed-known (true, some l) e z =
        let place = find_level-single levels 1 l k j files f e at here in
        let index : l - 1 ≡ k = omega (arith, place) in
        let its_files : level_files levels l ≡ files =
          ap (λ n. files_of (get_elem? levels n)) index ∙ ap files_of at in
        zeroed-largest_seqno files j f (subst (λ fs. are_zeroed fs ≡ true) its_files z) here

module _ (shape : Shape) (stored : Stored shape) where
  -- The places of a version of the key.
  pub data StoredAt (s : ℕ) : Type 0 where
    at_mem : stored.in_mem s → StoredAt s
    at_imm : stored.in_imm s → StoredAt s
    at_l0 :
        (i : ℕ) (f : FileRange)
        → get_elem? shape.l0_files i ≡ some f
        → stored.in_file f s
        → StoredAt s
    at_level :
        (k j : ℕ) (files : List FileRange) (f : FileRange)
        → get_elem? shape.levels k ≡ some files
        → get_elem? files j ≡ some f
        → stored.in_file f s
        → StoredAt s

  abbrev Empty : Type 0
  Empty = (shape.mem_entries ≡ 0) × ((shape.imm_not_flushed ≡ 0) × (length shape.l0_files ≡ 0))

  is_authoritative-Empty : is_authoritative shape ≡ true → Empty
  unfolding is_authoritative
  is_authoritative-Empty e = ground (arith, e)

  is_authoritative-zeroed :
      is_authoritative shape ≡ true
      → all_zeroed shape.levels (find_level 1 none shape.levels) ≡ true
  unfolding is_authoritative
  is_authoritative-zeroed e = ground (arith, e)

  no_entry-of_empty :
      (i : ℕ) (files : List FileRange) (f : FileRange)
      → length files ≡ 0
      → get_elem? files i ≡ some f
      → ⊥
  no_entry-of_empty i [] f e at = ground (arith, at)
  no_entry-of_empty i (g ∷ files) f e at = ground (arith, e)

  StoredAt-zero : (s : ℕ) → is_authoritative shape ≡ true → StoredAt s → s ≡ 0
  StoredAt-zero s e (at_mem inside) =
      let empty = is_authoritative-Empty e in
      let counted = stored.mem_counted s inside in absurd (omega (arith, empty.0, counted))
  StoredAt-zero s e (at_imm inside) =
      let empty = is_authoritative-Empty e in
      let counted = stored.imm_counted s inside in absurd (omega (arith, empty.1.0, counted))
  StoredAt-zero s e (at_l0 i f at inside) =
      absurd (no_entry-of_empty i shape.l0_files f (is_authoritative-Empty e).1.1 at)
  StoredAt-zero s e (at_level k j files f at here inside) =
      let largest =
        all_zeroed-largest_seqno shape.levels k j files f (is_authoritative-zeroed e) at here in
      let bound = stored.seqno_bound f s inside in omega (arith, largest, bound)

  -- In a version whose empty memtables hold nothing and whose files' versions are bounded by the files'
  -- metadata, a scan that is judged authoritative is one in verified mode, of plain values, in which no version
  -- of any key, wherever it is stored, is newer than a candidate.
  pub authoritative_scan-newest :
      (result_mode : ResultMode) (cand_seqno s : ℕ)
      → (judge result_mode shape).authoritative_scan ≡ true
      → StoredAt s
      → (result_mode ≡ ResultMode.verified)
        × ((shape.has_merge_operator ≡ false)
            × ((shape.enable_blob_files ≡ false) × (s ≤ cand_seqno)))
  unfolding judge
  authoritative_scan-newest ResultMode.candidate cand_seqno s e at = absurd (ground (arith, e))
  authoritative_scan-newest ResultMode.verified cand_seqno s e at =
      let zeroed = StoredAt-zero s (ground (arith, e)) at in
      (refl, (ground (arith, e), (ground (arith, e), omega (arith, zeroed))))
