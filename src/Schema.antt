-- ===== src/Schema.antt =====
-- src/include/bit_lsm_option.h: the schema of a table and its check.
use bit_lsm.Base.{
  ℕ, Bool, true, false, ◌||◌, List, [], ◌∷◌, length, get_or, ltb, ◌==◌, if◌then◌else◌,
}
use bit_lsm.Status.{Status, ok, invalid_argument}
use bit_lsm.Scalar.{F64}

pub data IndexType : Type 0 where
  equality range : IndexType

pub data PhysicalType : Type 0 where
  int uint float binary var_binary : PhysicalType

pub record AttrSpec : Type 0 where
  pub index_type : IndexType
  pub physical_type : PhysicalType
  pub width : ℕ
  pub nullable : Bool

abbrev pub is_numeric_type : PhysicalType → Bool
is_numeric_type int = true
is_numeric_type uint = true
is_numeric_type float = true
is_numeric_type binary = false
is_numeric_type var_binary = false

abbrev pub is_fixed_type : PhysicalType → Bool
is_fixed_type var_binary = false
is_fixed_type _ = true

abbrev pub is_numeric : AttrSpec → Bool
is_numeric s = is_numeric_type s.physical_type

abbrev pub is_fixed : AttrSpec → Bool
is_fixed s = is_fixed_type s.physical_type

abbrev pub valid_width : PhysicalType → ℕ → Bool
valid_width int width = width == 1 || (width == 2 || (width == 4 || width == 8))
valid_width uint width = width == 1 || (width == 2 || (width == 4 || width == 8))
valid_width float width = width == 4 || width == 8
valid_width binary width = ltb 0 width
valid_width var_binary width = width == 0

abbrev pub valid : AttrSpec → Bool
valid s = valid_width s.physical_type s.width

abbrev pub is_range : IndexType → Bool
is_range range = true
is_range equality = false

-- `rho` is a double; `SequenceNumber` is a 64-bit number.
pub record BitLsmOptions : Type 0 where
  pub attr_num : ℕ
  pub attr_specs : List AttrSpec
  pub read_seqno : ℕ
  pub rho : F64
  pub scan_prefetch_depth : ℕ
  pub enable_estimator : Bool
  pub estimator_grid_cells : ℕ
  pub estimator_min_rebuild_interval_ms : ℕ
  pub ondemand_index : Bool

-- What an index out of range is taken for; the program never reads it once the options are checked.
abbrev pub no_spec : AttrSpec
no_spec = record { index_type = equality; physical_type = var_binary; width = 0; nullable = false }

abbrev pub spec_at : List AttrSpec → ℕ → AttrSpec
spec_at specs i = get_or specs i no_spec

all_valid : List AttrSpec → Status
all_valid [] = ok
all_valid (s ∷ specs) = if valid s then all_valid specs else invalid_argument

unfoldable pub validate_attr_specs : BitLsmOptions → Status
unfolding all_valid
validate_attr_specs o =
    if length o.attr_specs == o.attr_num then all_valid o.attr_specs else invalid_argument
