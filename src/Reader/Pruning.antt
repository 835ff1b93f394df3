-- ===== src/Reader/Pruning.antt =====
-- `QueryCanMatch` and `SelectBins` of src/include/sabi_reader.cpp, on rows that the index covers.
use mathlib.Core.List.{map}
use bit_lsm.Base.{
  ℕ, zero, suc, ◌+◌, ◌%◌, ◌≤◌, ◌<◌, ◌≡◌, ◌⊎◌, refl, ap, sym, ◌∙◌, inl, inr, true, false, Option,
  none, some, Option-cases, List, [], ◌∷◌, length, get_elem?, get_or, Ordering, arith,
}
use bit_lsm.Bytes.{
  Bytes, compare_bytes, compare_bytes_eq, compare_bytes-flip, compare_bytes_refl,
  compare_bytes_triangle,
}
use bit_lsm.Scalar.{u32_mod}
use bit_lsm.Schema.{AttrSpec, BitLsmOptions, IndexType, range, equality, spec_at}
use bit_lsm.Interval.{ByteInterval}
use bit_lsm.Interval.Laws.{contains, op_holds}
use bit_lsm.Query.{equal}
use bit_lsm.BytesList.{BytesList, at, back}
use bit_lsm.SabiQuery.{
  SabiSchema, SabiCondition, SabiOrClause, SabiQuery, from_options, index_type_of,
}
use bit_lsm.SabiQuery.Meaning.{
  EncodedRow, value_matches, condition_matches, clause_matches, groups_match, sabi_matches,
}
use bit_lsm.Reader.{
  BinningPolicy, ranges, values, BitmapIndex, Entry, find_entry, entry_bin, range_impossible,
  value_impossible, impossible_for, condition_impossible, clause_impossible, groups_can_match,
  query_can_match, attr_bin_offset, select_for, select_bins,
}
use bit_lsm.Reader.Selected.{
  Bounds, Selects, bin_of_value, select_range-Selects, not-empty, true≢false,
}

abbrev AllAbove : Bytes → List Entry → Type 0
AllAbove key [] = Unit {0}
AllAbove key ((k, bin) ∷ entries) = (compare_bytes key k ≡ Ordering.lt) × AllAbove key entries

-- Entries by strictly ascending value.
abbrev pub Ascending : List Entry → Type 0
Ascending [] = Unit {0}
Ascending ((key, bin) ∷ entries) = AllAbove key entries × Ascending entries

-- The value has an entry, with this bin.
abbrev pub HasEntry : Bytes → ℕ → List Entry → Type 0
HasEntry v b [] = ⊥
HasEntry v b ((key, bin) ∷ entries) = ((key ≡ v) × (bin ≡ b)) ⊎ HasEntry v b entries

AllAbove-HasEntry :
    (key v : Bytes) (b : ℕ) (entries : List Entry)
    → AllAbove key entries
    → HasEntry v b entries
    → compare_bytes key v ≡ Ordering.lt
AllAbove-HasEntry key v b [] a h = absurd h
AllAbove-HasEntry key v b ((k, bin) ∷ entries) a (inl e) = cc (a.0, e.0)
AllAbove-HasEntry key v b ((k, bin) ∷ entries) a (inr h) = AllAbove-HasEntry key v b entries a.1 h

-- The search finds the entry of a value.
pub entry_bin-HasEntry :
    (v : Bytes) (b : ℕ) (entries : List Entry)
    → Ascending entries
    → HasEntry v b entries
    → entry_bin v entries ≡ some b
unfolding entry_bin find_entry
entry_bin-HasEntry v b [] a h = absurd h
entry_bin-HasEntry v b ((key, bin) ∷ entries) a (inl e) =
    let same : compare_bytes key v ≡ Ordering.eq =
      ap (λ k. compare_bytes k v) e.0 ∙ compare_bytes_refl v in
    rw (same, same) (ap some e.1)
entry_bin-HasEntry v b ((key, bin) ∷ entries) a (inr h) =
    let below : compare_bytes key v ≡ Ordering.lt = AllAbove-HasEntry key v b entries a.0 h in
    rw below (entry_bin-HasEntry v b entries a.1 h)

-- The policy of an attribute covers a value, whose bin is `b`.
abbrev pub PolicyCovers : ℕ → Bytes → ℕ → Option IndexType → Option BinningPolicy → Type 0
PolicyCovers bins v b (some range) (some (ranges l)) = Bounds l bins v × (bin_of_value l bins v ≡ b)
PolicyCovers bins v b (some equality) (some (values entries)) =
    Ascending entries × HasEntry v b entries
PolicyCovers bins v b _ _ = ⊥

-- The same of an attribute of an index.
abbrev pub Covers : SabiSchema → BitmapIndex → ℕ → Bytes → ℕ → Type 0
Covers schema bm idx v b =
    PolicyCovers (get_or bm.bitmap_nums idx 0) v b (get_elem? schema.index_types idx)
      (get_elem? bm.binning_policy idx)

range-possible :
    (w : ByteInterval) (l : BytesList) (bins : ℕ) (v : Bytes)
    → Bounds l bins v
    → contains w v ≡ true
    → range_impossible w (ranges l) ≡ false
unfolding range_impossible contains
range-possible w l bins v b h = ground (
  arith,
  not-empty w v h,
  b.least,
  b.greatest,
  compare_bytes_triangle w.lo v (back l),
  compare_bytes_triangle (at l 0) v w.hi,
  compare_bytes-flip (at l 0) w.hi,
)

get_elem?-index_types :
    (specs : List AttrSpec) (i : ℕ) (t : IndexType)
    → get_elem? (map index_type_of specs) i ≡ some t
    → (spec_at specs i).index_type ≡ t
get_elem?-index_types [] i t e = cc
get_elem?-index_types (s ∷ specs) zero t e = cc
get_elem?-index_types (s ∷ specs) (suc i) t e = get_elem?-index_types specs i t e

op_holds-equal : (v w : Bytes) → op_holds equal (compare_bytes v w) ≡ true → v ≡ w
op_holds-equal v w h = compare_bytes_eq v w (ground arith)

condition-possible :
    (specs : List AttrSpec) (row : EncodedRow) (c : SabiCondition) (bins : ℕ) (v : Bytes) (b : ℕ)
    (t : Option IndexType) (p : Option BinningPolicy)
    → PolicyCovers bins v b t p
    → ((k : IndexType) → t ≡ some k → (spec_at specs c.attr_idx).index_type ≡ k)
    → value_matches specs row c (some v) ≡ true
    → impossible_for c t p ≡ false
unfolding value_impossible
condition-possible specs row c bins v b (some range) (some (ranges l)) cov typed h =
    range-possible c.win l bins v cov.0 (rw (typed range refl) at h)
condition-possible specs row c bins v b (some equality) (some (values entries)) cov typed h =
    let same : v ≡ c.bytes = op_holds-equal v c.bytes (rw (typed equality refl) at h) in
    rw (sym same, entry_bin-HasEntry v b entries cov.0 cov.1) refl
condition-possible specs row c bins v b none p cov typed h = refl
condition-possible specs row c bins v b (some range) none cov typed h = absurd cov
condition-possible specs row c bins v b (some equality) none cov typed h = absurd cov
condition-possible specs row c bins v b (some range) (some (values entries)) cov typed h =
    absurd cov
condition-possible specs row c bins v b (some equality) (some (ranges l)) cov typed h = absurd cov

condition-selected :
    (specs : List AttrSpec) (row : EncodedRow) (c : SabiCondition) (bins offset : ℕ) (v : Bytes)
    (b : ℕ) (t : Option IndexType) (p : Option BinningPolicy)
    → PolicyCovers bins v b t p
    → ((k : IndexType) → t ≡ some k → (spec_at specs c.attr_idx).index_type ≡ k)
    → bins < 0x8000_0000
    → offset + bins ≤ u32_mod
    → value_matches specs row c (some v) ≡ true
    → Selects (select_for c bins offset t p) ((offset + b) % u32_mod)
condition-selected specs row c bins offset v b (some range) (some (ranges l)) cov typed few small
      h =
    rw (sym cov.1)
      (select_range-Selects c.win l bins offset v cov.0 few small (rw (typed range refl) at h))
condition-selected specs row c bins offset v b (some equality) (some (values entries)) cov typed few
      small h =
    let same : v ≡ c.bytes = op_holds-equal v c.bytes (rw (typed equality refl) at h) in
    rw (sym same, entry_bin-HasEntry v b entries cov.0 cov.1) (omega arith, omega arith)
condition-selected specs row c bins offset v b none p cov typed few small h = absurd cov
condition-selected specs row c bins offset v b (some range) none cov typed few small h = absurd cov
condition-selected specs row c bins offset v b (some equality) none cov typed few small h =
    absurd cov
condition-selected specs row c bins offset v b (some range) (some (values entries)) cov typed few
      small h =
    absurd cov
condition-selected specs row c bins offset v b (some equality) (some (ranges l)) cov typed few small
      h =
    absurd cov

-- Where a condition of the encoded query accepts a row whose value for the attribute is covered by the index,
-- the value's flat bin lies in the extent that SelectBins gives, if the attribute has fewer than 2^31 bins and
-- their flat numbers fit into 32 bits.
pub select_bins-Selects :
    (o : BitLsmOptions) (bm : BitmapIndex) (row : EncodedRow) (c : SabiCondition) (v : Bytes)
    (b : ℕ)
    → row c.attr_idx ≡ some v
    → Covers (from_options o) bm c.attr_idx v b
    → get_or bm.bitmap_nums c.attr_idx 0 < 0x8000_0000
    → attr_bin_offset bm c.attr_idx + get_or bm.bitmap_nums c.attr_idx 0 ≤ u32_mod
    → condition_matches o.attr_specs row c ≡ true
    → Selects (select_bins c (from_options o) bm) ((attr_bin_offset bm c.attr_idx + b) % u32_mod)
unfolding select_bins condition_matches from_options
select_bins-Selects o bm row c v b e cov few small h =
    condition-selected o.attr_specs row c (get_or bm.bitmap_nums c.attr_idx 0)
      (attr_bin_offset bm c.attr_idx) v b (get_elem? (map index_type_of o.attr_specs) c.attr_idx)
      (get_elem? bm.binning_policy c.attr_idx) cov (get_elem?-index_types o.attr_specs c.attr_idx)
      few small (rw e at h)

-- Every value of the row is covered by the index, for the attributes that it has.
abbrev pub RowCovered : SabiSchema → BitmapIndex → EncodedRow → Type 0
RowCovered schema bm row =
    (idx : ℕ) (v : Bytes)
    → row idx ≡ some v
    → idx < length schema.index_types
    → (b : ℕ) × Covers schema bm idx v b

get_elem?-none : {A : Type 0} (xs : List A) (i : ℕ) → (i < length xs) ⊎ (get_elem? xs i ≡ none)
get_elem?-none [] i = inr refl
get_elem?-none (x ∷ xs) zero = inl (omega arith)
get_elem?-none (x ∷ xs) (suc i) = ground (arith, get_elem?-none xs i)

module _ (o : BitLsmOptions) (bm : BitmapIndex) (row : EncodedRow)
    (cov : RowCovered (from_options o) bm row) where
  matched-possible :
      (c : SabiCondition)
      → condition_matches o.attr_specs row c ≡ true
      → condition_impossible c (from_options o) bm ≡ false
  unfolding condition_impossible condition_matches from_options
  matched-possible c h = elim (Option-cases (row c.attr_idx)) [
    | inl e ↦ absurd (true≢false (sym (rw e at h)))
    | inr (v, e) ↦ elim (get_elem?-none (map index_type_of o.attr_specs) c.attr_idx) [
      | inl lt ↦
          let (b, covered) = cov c.attr_idx v e lt in
          condition-possible o.attr_specs row c (get_or bm.bitmap_nums c.attr_idx 0) v b
            (get_elem? (map index_type_of o.attr_specs) c.attr_idx)
            (get_elem? bm.binning_policy c.attr_idx) covered
            (get_elem?-index_types o.attr_specs c.attr_idx) (rw e at h)
      | inr absent ↦ rw absent refl
    ]
  ]

  clause-possible :
      (clause : SabiOrClause)
      → clause_matches o.attr_specs row clause ≡ true
      → clause_impossible clause (from_options o) bm ≡ false
  unfolding clause_impossible clause_matches
  clause-possible [] h = sym h
  clause-possible (c ∷ clause) h = ground (arith, matched-possible c, clause-possible clause)

  groups-possible :
      (groups : List SabiOrClause)
      → groups_match o.attr_specs row groups ≡ true
      → groups_can_match groups (from_options o) bm ≡ true
  unfolding groups_can_match groups_match
  groups-possible [] h = refl
  groups-possible (clause ∷ groups) h =
      ground (arith, clause-possible clause, groups-possible groups)

-- A table whose index covers the values of a row that satisfies the encoded query is not pruned by
-- QueryCanMatch.
pub query_can_match_sound :
    (q : SabiQuery) (o : BitLsmOptions) (bm : BitmapIndex) (row : EncodedRow)
    → RowCovered (from_options o) bm row
    → sabi_matches o.attr_specs row q ≡ true
    → query_can_match q (from_options o) bm ≡ true
unfolding query_can_match sabi_matches
query_can_match_sound q o bm row cov h = groups-possible o bm row cov q.clause_groups (ground arith)
