-- ===== src/Reader.antt =====
-- How a table's index answers a query from its binning policy: `ConditionImpossible`, `SelectBins` and
-- `QueryCanMatch` of src/include/sabi_reader.cpp.
pub mod Selected
pub mod Pruning
use bit_lsm.Base.{
  ℕ, zero, suc, ◌+◌, ◌-◌, ◌*◌, ◌/◌, ◌%◌, ◌<◌, Bool, true, false, not, ◌&&◌, ◌||◌, Option, none,
  some, List, [], ◌∷◌, length, get_elem?, get_or, Ordering, ltb, leb, ◌==◌, if◌then◌else◌,
}
use bit_lsm.Base.Int.{ℤ, pos, negsuc}
use bit_lsm.Bytes.{Bytes, compare_bytes}
use bit_lsm.Scalar.{u32_mod}
use bit_lsm.Schema.{IndexType, range, equality}
use bit_lsm.Interval.{ByteInterval, empty}
use bit_lsm.BytesList.{BytesList, size, at, back, is_lt, upper_bound, lower_bound}
use bit_lsm.SabiQuery.{SabiSchema, SabiCondition, SabiOrClause, SabiQuery}

-- A value and its bin.
abbrev pub Entry : Type 0
Entry = Bytes × ℕ

-- The binning policy of an attribute: the boundaries of its bins, or the bin of each value.
pub data BinningPolicy : Type 0 where
  ranges : BytesList → BinningPolicy
  values : List Entry → BinningPolicy

-- The bitmaps themselves are CRoaring objects; these are the parts of `BitmapIndex` that select them.
pub record BitmapIndex : Type 0 where
  pub bitmap_nums : List ℕ
  pub binning_policy : List BinningPolicy

-- One condition's flat bins, both ends included.
pub record BinSelection : Type 0 where
  pub first : ℕ
  pub last : ℕ

-- `std::lower_bound` on the entries: the first one that is not below the value.
unfoldable pub find_entry : Bytes → List Entry → Option Entry
find_entry v [] = none
find_entry v ((key, bin) ∷ entries) =
    if is_lt (compare_bytes key v) then find_entry v entries else some (key, bin)

abbrev pub is_eq : Ordering → Bool
is_eq Ordering.eq = true
is_eq _ = false

abbrev pub exact : Bytes → Option Entry → Option ℕ
exact v none = none
exact v (some (key, bin)) = if is_eq (compare_bytes key v) then some bin else none

-- The bin of a value that occurs.
unfoldable pub entry_bin : Bytes → List Entry → Option ℕ
entry_bin v entries = exact v (find_entry v entries)

abbrev pub is_none {ℓ} : {A : Type ℓ} → Option A → Bool
is_none none = true
is_none (some a) = false

abbrev pub is_gt : Ordering → Bool
is_gt Ordering.gt = true
is_gt _ = false

-- The interval lies above the greatest boundary.
abbrev pub above_all : ByteInterval → Bytes → Bool
above_all w mx = elim (compare_bytes w.lo mx) [
  | Ordering.gt ↦ true
  | Ordering.eq ↦ w.lo_open
  | Ordering.lt ↦ false
]

-- The interval lies below the least boundary.
abbrev pub below_all : ByteInterval → Bytes → Bool
below_all w mn = elim (compare_bytes w.hi mn) [
  | Ordering.lt ↦ true
  | Ordering.eq ↦ w.hi_open
  | Ordering.gt ↦ false
]

unfoldable pub range_impossible : ByteInterval → BinningPolicy → Bool
range_impossible w (values entries) = false
range_impossible w (ranges bounds) =
    if ltb (size bounds) 2
    then false
    else if empty w || above_all w (back bounds)
    then true
    else if w.hi_unbounded
    then false
    else below_all w (at bounds 0)

unfoldable pub value_impossible : Bytes → BinningPolicy → Bool
value_impossible v (ranges bounds) = false
value_impossible v (values entries) = is_none (entry_bin v entries)

abbrev pub impossible_for : SabiCondition → Option IndexType → Option BinningPolicy → Bool
impossible_for c (some range) (some policy) = range_impossible c.win policy
impossible_for c (some equality) (some policy) = value_impossible c.bytes policy
impossible_for c _ _ = false

-- `ConditionImpossible`: an attribute that the index does not know says nothing.
unfoldable pub condition_impossible : SabiCondition → SabiSchema → BitmapIndex → Bool
condition_impossible c schema bm =
    impossible_for c (get_elem? schema.index_types c.attr_idx)
      (get_elem? bm.binning_policy c.attr_idx)

unfoldable pub clause_impossible : SabiOrClause → SabiSchema → BitmapIndex → Bool
clause_impossible [] schema bm = true
clause_impossible (c ∷ clause) schema bm =
    if condition_impossible c schema bm then clause_impossible clause schema bm else false

abbrev pub is_nil {ℓ} : {A : Type ℓ} → List A → Bool
is_nil [] = true
is_nil (x ∷ xs) = false

unfoldable pub groups_can_match : List SabiOrClause → SabiSchema → BitmapIndex → Bool
groups_can_match [] schema bm = true
groups_can_match (clause ∷ groups) schema bm =
    if is_nil clause
    then groups_can_match groups schema bm
    else if clause_impossible clause schema bm
    then false
    else groups_can_match groups schema bm

-- `QueryCanMatch`.
unfoldable pub query_can_match : SabiQuery → SabiSchema → BitmapIndex → Bool
query_can_match q schema bm = groups_can_match q.clause_groups schema bm

unfoldable pub sum_bins : List ℕ → ℕ → ℕ → ℕ
sum_bins nums zero offset = offset
sum_bins [] (suc i) offset = offset
sum_bins (n ∷ nums) (suc i) offset = sum_bins nums i ((offset + n) % u32_mod)

-- `AttrBinOffset`, in 32 bits.
unfoldable pub attr_bin_offset : BitmapIndex → ℕ → ℕ
attr_bin_offset bm attr_idx = sum_bins bm.bitmap_nums attr_idx 0

-- `static_cast<int32_t>`.
abbrev pub i32_of_u32 : ℕ → ℤ
i32_of_u32 u = if ltb u 0x8000_0000 then pos u else negsuc (u32_mod - 1 - u)

-- One less; of the least `int32_t` the source's subtraction is undefined.
abbrev pub pred_i32 : ℤ → ℤ
pred_i32 (pos zero) = negsuc 0
pred_i32 (pos (suc n)) = pos n
pred_i32 (negsuc n) = negsuc (suc n)

-- The last bin of so many.
abbrev pub last_bin : ℕ → ℤ
last_bin num_bins = pred_i32 (i32_of_u32 num_bins)

-- `bin_of`: the bin of a bound, -1 below the least boundary.
unfoldable pub bin_of : BytesList → ℕ → Bytes → Bool → ℤ
bin_of boundaries num_bins v is_open =
    let i = if is_open then lower_bound boundaries v else upper_bound boundaries v in
    if i == 0
    then negsuc 0
    else if leb (size boundaries) i
    then last_bin num_bins
    else pred_i32 (i32_of_u32 i)

-- The start bin, 0 for a negative one.
abbrev pub or_zero : ℤ → ℕ
or_zero (pos b) = b
or_zero (negsuc n) = 0

abbrev pub select_from : ℕ → ℕ → ℤ → Option BinSelection
select_from offset start (negsuc n) = none
select_from offset start (pos end_bin) =
    some (record { first = (offset + start) % u32_mod; last = (offset + end_bin) % u32_mod })

unfoldable pub select_range : ByteInterval → BytesList → ℕ → ℕ → Option BinSelection
select_range w boundaries num_bins offset =
    if empty w
    then none
    else select_from offset (or_zero (bin_of boundaries num_bins w.lo false))
        (if w.hi_unbounded then last_bin num_bins else bin_of boundaries num_bins w.hi w.hi_open)

abbrev pub select_value : ℕ → Option ℕ → Option BinSelection
select_value offset none = none
select_value offset (some bin) =
    some (record { first = (offset + bin) % u32_mod; last = (offset + bin) % u32_mod })

-- The alternative of a policy is the one of its index type: `std::get` throws otherwise, here nothing is selected.
abbrev pub select_for :
    SabiCondition → ℕ → ℕ → Option IndexType → Option BinningPolicy → Option BinSelection
select_for c num_bins offset (some equality) (some (values entries)) =
    select_value offset (entry_bin c.bytes entries)
select_for c num_bins offset (some range) (some (ranges bounds)) =
    select_range c.win bounds num_bins offset
select_for c num_bins offset _ _ = none

-- `SelectBins`.
unfoldable pub select_bins : SabiCondition → SabiSchema → BitmapIndex → Option BinSelection
select_bins c schema bm =
    select_for c (get_or bm.bitmap_nums c.attr_idx 0) (attr_bin_offset bm c.attr_idx)
      (get_elem? schema.index_types c.attr_idx) (get_elem? bm.binning_policy c.attr_idx)
