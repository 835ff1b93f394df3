-- ===== src/TableScan.antt =====
-- The candidate rows of a table: `BuildQueryBitmap` and `GetBitmapForSingleCondition` of
-- src/include/sabi_table_iterator.cpp. Bitmaps of rows are CRoaring's and come as operations with laws; the bins are
-- read through a parameter, which fails where the reader's `Bin` gives null.
pub mod Candidates
use bit_lsm.Base.{
  ℕ, zero, suc, ◌+◌, ◌-◌, ◌<◌, ◌≡◌, Bool, true, false, not, ◌&&◌, ◌||◌, Option, none, some, List,
  [], ◌∷◌, length, get_or, ltb, ◌==◌, if◌then◌else◌,
}
use bit_lsm.Status.{Status, ok, corruption}
use bit_lsm.SabiQuery.{SabiSchema, SabiCondition, SabiOrClause, SabiQuery}
use bit_lsm.Reader.{BitmapIndex, BinSelection, select_bins}

-- The operations on `roaring::Roaring` that are used, by the row ids that a bitmap holds.
pub record Roaring (Bitmap : Type 0) : Type 0 where
  pub empty_bitmap : Bitmap
  pub is_empty : Bitmap → Bool
  pub bit_or : Bitmap → Bitmap → Bitmap
  pub bit_and : Bitmap → Bitmap → Bitmap
  pub and_not : Bitmap → Bitmap → Bitmap
  pub fastunion : List Bitmap → Bitmap
  -- the row ids below a bound
  pub below : ℕ → Bitmap
  pub holds : Bitmap → ℕ → Bool

abbrev pub any_holds : {Bitmap : Type 0} → Roaring Bitmap → List Bitmap → ℕ → Bool
any_holds ops [] i = false
any_holds ops (b ∷ bitmaps) i = ops.holds b i || any_holds ops bitmaps i

-- Their documented meaning.
pub record RoaringLaws {Bitmap : Type 0} (ops : Roaring Bitmap) : Type 0 where
  pub holds-empty_bitmap : (i : ℕ) → ops.holds ops.empty_bitmap i ≡ false
  pub holds-is_empty : (b : Bitmap) (i : ℕ) → ops.is_empty b ≡ true → ops.holds b i ≡ false
  pub holds-bit_or :
      (a b : Bitmap) (i : ℕ) → ops.holds (ops.bit_or a b) i ≡ (ops.holds a i || ops.holds b i)
  pub holds-bit_and :
      (a b : Bitmap) (i : ℕ) → ops.holds (ops.bit_and a b) i ≡ (ops.holds a i && ops.holds b i)
  pub holds-and_not :
      (a b : Bitmap) (i : ℕ)
      → ops.holds (ops.and_not a b) i ≡ (ops.holds a i && not (ops.holds b i))
  pub holds-fastunion :
      (bs : List Bitmap) (i : ℕ) → ops.holds (ops.fastunion bs) i ≡ any_holds ops bs i
  pub holds-below : (n i : ℕ) → ops.holds (ops.below n) i ≡ ltb i n

-- What the reader knows of a table: `TotalBins`, `TombstoneCardinality` and the row counts up to each block.
pub record TableIndex : Type 0 where
  pub schema : SabiSchema
  pub bitmap_index : BitmapIndex
  pub total_bins : ℕ
  pub tombstone_cardinality : ℕ
  pub data_entries_cnt_psum : List ℕ

-- The status is the last failure.
abbrev pub then_status : Status → Status → Status
then_status s ok = s
then_status s e = e

abbrev pub last_or_zero : List ℕ → ℕ
last_or_zero [] = 0
last_or_zero (n ∷ []) = n
last_or_zero (n ∷ m ∷ ns) = last_or_zero (m ∷ ns)

abbrev pub cons_read :
    {Bitmap : Type 0} → Option Bitmap → Option (List Bitmap) → Option (List Bitmap)
cons_read none bs = none
cons_read (some b) none = none
cons_read (some b) (some bs) = some (b ∷ bs)

module _ {Bitmap : Type 0} (ops : Roaring Bitmap) (read : ℕ → Option Bitmap) (t : TableIndex) where
  -- `Bin` of the iterator: a failed read sets the status and counts as an empty bin.
  abbrev pub read_bin : Option Bitmap → Bitmap × Status
  read_bin none = (ops.empty_bitmap, corruption)
  read_bin (some b) = (b, ok)

  -- `BinRange`: so many bins from `i` on, or none if a read fails.
  unfoldable pub bin_range : ℕ → ℕ → Option (List Bitmap)
  bin_range i zero = some []
  bin_range i (suc count) = cons_read (read i) (bin_range (i + 1) count)

  abbrev pub union_range : Option (List Bitmap) → Bitmap × Status
  union_range none = (ops.empty_bitmap, corruption)
  union_range (some bs) = (ops.fastunion bs, ok)

  abbrev pub selected_bitmap : Option BinSelection → Bitmap × Status
  selected_bitmap none = (ops.empty_bitmap, ok)
  selected_bitmap (some sel) =
      if sel.first == sel.last
      then read_bin (read sel.first)
      else union_range (bin_range sel.first (sel.last - sel.first + 1))

  -- `GetBitmapForSingleCondition`.
  unfoldable pub single_condition : SabiCondition → Bitmap × Status
  single_condition c = selected_bitmap (select_bins c t.schema t.bitmap_index)

  unfoldable pub union_more : Bitmap × Status → SabiOrClause → Bitmap × Status
  union_more (b, s) [] = (b, s)
  union_more (b, s) (c ∷ clause) =
      let (d, e) = single_condition c in union_more (ops.bit_or b d, then_status s e) clause

  unfoldable pub clause_bitmap : SabiOrClause → Bitmap × Status
  clause_bitmap [] = (ops.empty_bitmap, ok)
  clause_bitmap (c ∷ clause) = union_more (single_condition c) clause

  abbrev pub and_not_with : Bitmap → Bitmap → Bitmap
  and_not_with a tombstone = if ops.is_empty tombstone then a else ops.and_not a tombstone

  -- The clauses left; an empty intersection ends the loop.
  unfoldable pub and_clauses : Bitmap → List SabiOrClause → Bitmap → Status → Bitmap × Status
  and_clauses tombstone [] acc s = (and_not_with acc tombstone, s)
  and_clauses tombstone (clause ∷ groups) acc s =
      let (b, e) = clause_bitmap clause in
      let both : Bitmap = ops.bit_and acc b in
      let rest = and_clauses tombstone groups both (then_status s e) in
      if ops.is_empty both then (ops.empty_bitmap, then_status s e) else rest

  abbrev pub tombstone_of : Bitmap × Status
  tombstone_of =
      if t.tombstone_cardinality == 0 then (ops.empty_bitmap, ok) else read_bin (read t.total_bins)

  unfoldable pub query_bitmap : Bitmap × Status → List SabiOrClause → Bitmap × Status
  query_bitmap (tombstone, s) [] =
      (and_not_with (ops.below (last_or_zero t.data_entries_cnt_psum)) tombstone, s)
  query_bitmap (tombstone, s) (clause ∷ groups) =
      let (b, e) = clause_bitmap clause in
      if ops.is_empty b
      then (ops.empty_bitmap, then_status s e)
      else and_clauses tombstone groups b (then_status s e)

  -- `BuildQueryBitmap`: the query bitmap, and the status after it.
  unfoldable pub build_query_bitmap : SabiQuery → Bitmap × Status
  build_query_bitmap q = query_bitmap tombstone_of q.clause_groups
