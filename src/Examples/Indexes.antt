-- ===== src/Examples/Indexes.antt =====
-- The theorems on byte lists and on the reader, on an index of two attributes.
use bit_lsm.Base.{
  ℕ, zero, suc, ◌≡◌, refl, ◌<◌, ◌-◌, true, false, some, none, [], ◌∷◌, ◌++◌, inl, inr, arith,
  length, drop, get_or, ◌+◌, ◌%◌,
}
use bit_lsm.Bytes.{Bytes, compare_bytes}
use bit_lsm.Memory.{read}
use bit_lsm.Scalar.{u32_mod}
use bit_lsm.Schema.{BitLsmOptions, IndexType, PhysicalType}
use bit_lsm.BytesList.{
  BytesList, at, back, is_le, is_lt, search_loop, upper_bound, lower_bound, serialize, parse,
}
use bit_lsm.BytesList.Search.{IsSorted, Splits, upper_bound-Splits, lower_bound-Splits}
use bit_lsm.BytesList.Wire.{parse-serialize}
use bit_lsm.Interval.{everything, from_op}
use bit_lsm.Interval.Laws.{contains}
use bit_lsm.SabiQuery.{SabiCondition, SabiQuery, from_options}
use bit_lsm.SabiQuery.Meaning.{
  EncodedRow, condition_matches, clause_matches, groups_match, sabi_matches,
}
use bit_lsm.Reader.{
  ranges, values, BitmapIndex, entry_bin, attr_bin_offset, sum_bins, select_bins, query_can_match,
}
use bit_lsm.Reader.Selected.{Selects, bin_of_value}
use bit_lsm.Reader.Pruning.{
  Covers, RowCovered, entry_bin-HasEntry, Ascending, select_bins-Selects, query_can_match_sound,
}

-- "a", "c", "f".
abbrev bounds : BytesList
bounds = record { arena = 97 ∷ 99 ∷ 102 ∷ []; ends = 1 ∷ 2 ∷ 3 ∷ [] }

list_program : Unit {0}
unfolding compare_bytes at back read search_loop upper_bound lower_bound bin_of_value contains
    condition_matches clause_matches groups_match sabi_matches sum_bins attr_bin_offset from_options
    from_op
list_program = tt

bounds-IsSorted : IsSorted bounds
unfolding list_program
bounds-IsSorted zero zero h k = refl
bounds-IsSorted zero (suc zero) h k = refl
bounds-IsSorted zero (suc (suc zero)) h k = refl
bounds-IsSorted (suc zero) (suc zero) h k = refl
bounds-IsSorted (suc zero) (suc (suc zero)) h k = refl
bounds-IsSorted (suc (suc zero)) (suc (suc zero)) h k = refl
bounds-IsSorted (suc i) zero h k = absurd (omega arith)
bounds-IsSorted (suc (suc i)) (suc zero) h k = absurd (omega arith)
bounds-IsSorted (suc (suc (suc i))) (suc (suc zero)) h k = absurd (omega arith)
bounds-IsSorted i (suc (suc (suc j))) h k = absurd (omega arith)

upper_bound-Splits_example :
    Splits (λ x. is_le (compare_bytes x (99 ∷ []))) bounds (upper_bound bounds (99 ∷ []))
upper_bound-Splits_example = upper_bound-Splits bounds (99 ∷ []) bounds-IsSorted (omega arith)

lower_bound-Splits_example :
    Splits (λ x. is_lt (compare_bytes x (99 ∷ []))) bounds (lower_bound bounds (99 ∷ []))
lower_bound-Splits_example = lower_bound-Splits bounds (99 ∷ []) bounds-IsSorted (omega arith)

small_ends : (i : ℕ) → i < 3 → get_or bounds.ends i 0 < u32_mod
small_ends zero h = omega arith
small_ends (suc zero) h = omega arith
small_ends (suc (suc zero)) h = omega arith
small_ends (suc (suc (suc i))) h = absurd (omega arith)

abbrev before : Bytes
before = 7 ∷ []

parse-serialize_example :
    parse (drop (length before) (serialize bounds before ++ (8 ∷ 9 ∷ [])))
    ≡ (bounds, length (serialize bounds before) - length before)
parse-serialize_example =
    parse-serialize bounds before (8 ∷ 9 ∷ [])
      (record { few = omega arith; small = small_ends; whole = refl })

-- A range attribute in two bins and an equality attribute in one.
abbrev pub two_options : BitLsmOptions
two_options = record {
  attr_num = 2;
  attr_specs =
      record {
        index_type = IndexType.range;
        physical_type = PhysicalType.var_binary;
        width = 0;
        nullable = false;
      }
      ∷ record {
        index_type = IndexType.equality;
        physical_type = PhysicalType.var_binary;
        width = 0;
        nullable = false;
      }
      ∷ [];
  read_seqno = 0;
  rho = 0;
  scan_prefetch_depth = 0;
  enable_estimator = false;
  estimator_grid_cells = 256;
  estimator_min_rebuild_interval_ms = 1000;
  ondemand_index = false;
}

abbrev pub index : BitmapIndex
index = record {
  bitmap_nums = 2 ∷ 1 ∷ [];
  binning_policy = ranges bounds ∷ values ((120 ∷ [], 0) ∷ (121 ∷ [], 0) ∷ []) ∷ [];
}

abbrev d_y : EncodedRow
d_y zero = some (100 ∷ [])
d_y (suc zero) = some (121 ∷ [])
d_y (suc (suc i)) = none

abbrev above_c : SabiCondition
above_c = record {
  attr_idx = 0;
  win = record everything { lo = 99 ∷ []; lo_open = true };
  bytes = [];
}

abbrev is_y : SabiCondition
is_y = record { attr_idx = 1; win = everything; bytes = 121 ∷ [] }

d-Covers : Covers (from_options two_options) index 0 (100 ∷ []) 1
unfolding list_program
d-Covers = (
  record {
    sorted = bounds-IsSorted;
    some_bins = omega arith;
    sized = refl;
    least = refl;
    greatest = refl;
  },
  refl,
)

y-Ascending : Ascending ((120 ∷ [], 0) ∷ (121 ∷ [], 0) ∷ [])
unfolding list_program
y-Ascending = ((refl, tt), (tt, tt))

d_y-RowCovered : RowCovered (from_options two_options) index d_y
unfolding list_program
d_y-RowCovered zero v e h = let same : v ≡ 100 ∷ [] = cc e in (1, rw same d-Covers)
d_y-RowCovered (suc zero) v e h =
    let same : v ≡ 121 ∷ [] = cc e in (0, rw same (y-Ascending, inr (inl (refl, refl))))
d_y-RowCovered (suc (suc i)) v e h = cc e

select_bins-Selects_example :
    Selects
      (select_bins above_c (from_options two_options) index)
      ((attr_bin_offset index 0 + 1) % u32_mod)
unfolding list_program
select_bins-Selects_example =
    select_bins-Selects two_options index d_y above_c (100 ∷ []) 1 refl d-Covers (omega arith)
      (omega arith) refl

abbrev pub narrow_query : SabiQuery
narrow_query = record { clause_groups = (above_c ∷ []) ∷ (is_y ∷ []) ∷ []; unsat = false }

query_can_match_sound_example : query_can_match narrow_query (from_options two_options) index ≡ true
unfolding list_program
query_can_match_sound_example =
    query_can_match_sound narrow_query two_options index d_y d_y-RowCovered refl

entry_bin-HasEntry_example : entry_bin (121 ∷ []) ((120 ∷ [], 0) ∷ (121 ∷ [], 0) ∷ []) ≡ some 0
entry_bin-HasEntry_example =
    entry_bin-HasEntry (121 ∷ []) 0 ((120 ∷ [], 0) ∷ (121 ∷ [], 0) ∷ []) y-Ascending
      (inr (inl (refl, refl)))
