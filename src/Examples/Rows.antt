-- ===== src/Examples/Rows.antt =====
-- A row encoded and decoded.
use bit_lsm.Base.{◌≡◌, refl, true, false, some, List, [], ◌∷◌, arith}
use bit_lsm.Base.Int.{negsuc}
use bit_lsm.Bytes.{Bytes}
use bit_lsm.Memory.{le_bytes, of_le_bytes, read, write}
use bit_lsm.Schema.{BitLsmOptions, IndexType, PhysicalType, AttrSpec}
use bit_lsm.Row.Slot.{SlotKept, decode_fixed-encode_fixed}
use bit_lsm.Row.{
  Attr, null, int, text, ValueLayout, value_layout, encode_value, decode_attr, count_variable,
  count_nullable, null_bits, slots, fixed_end, variable_size, resize, encode_attrs, encode_attr,
  encode_slot, encode_variable, encode_fixed, is_null_bit_set, sign_extend, decode_fixed,
  variable_start, decode_variable, decode_payload,
}

-- Opens every definition that the tests run.
unfoldable pub program : Unit {0}
unfolding le_bytes of_le_bytes read write value_layout count_variable count_nullable null_bits slots
    fixed_end variable_size resize encode_attrs encode_attr encode_slot encode_variable encode_fixed
    encode_value is_null_bit_set sign_extend decode_fixed variable_start decode_variable decode_attr
    decode_payload
program = tt

abbrev pub options : BitLsmOptions
options = record {
  attr_num = 4;
  attr_specs =
      record {
        index_type = IndexType.range;
        physical_type = PhysicalType.int;
        width = 2;
        nullable = false;
      }
      ∷ record {
        index_type = IndexType.equality;
        physical_type = PhysicalType.var_binary;
        width = 0;
        nullable = true;
      }
      ∷ record {
        index_type = IndexType.range;
        physical_type = PhysicalType.float;
        width = 4;
        nullable = true;
      }
      ∷ record {
        index_type = IndexType.range;
        physical_type = PhysicalType.var_binary;
        width = 0;
        nullable = false;
      }
      ∷ [];
  read_seqno = 0;
  rho = 0;
  scan_prefetch_depth = 0;
  enable_estimator = false;
  estimator_grid_cells = 256;
  estimator_min_rebuild_interval_ms = 1000;
  ondemand_index = false;
}

abbrev layout : ValueLayout
layout = value_layout options

abbrev pub row : Bytes
row =
    2 ∷ 3 ∷ 0 ∷ 0 ∷ 0 ∷ 5 ∷ 0 ∷ 0 ∷ 0 ∷ 254 ∷ 255 ∷ 0 ∷ 0 ∷ 0 ∷ 0 ∷ 65 ∷ 66 ∷ 67 ∷ 68 ∷ 69 ∷ 9 ∷ []

abbrev attrs : List Attr
attrs = int (negsuc 1) ∷ text (65 ∷ 66 ∷ 67 ∷ []) ∷ null ∷ text (68 ∷ 69 ∷ []) ∷ []

encodes : encode_value layout attrs (9 ∷ []) (7 ∷ 7 ∷ 7 ∷ []) ≡ some row
unfolding program
encodes = refl

decodes :
    (decode_attr layout row 0 ≡ int (negsuc 1))
    × (decode_attr layout row 1 ≡ text (65 ∷ 66 ∷ 67 ∷ []))
    × (decode_attr layout row 2 ≡ null)
    × (decode_attr layout row 3 ≡ text (68 ∷ 69 ∷ []))
    × (decode_payload layout row ≡ some (9 ∷ []))
unfolding program
decodes = (refl, refl, refl, refl, refl)

-- A signed number in two bytes.
abbrev signed_spec : AttrSpec
signed_spec = record {
  index_type = IndexType.range;
  physical_type = PhysicalType.int;
  width = 2;
  nullable = false;
}

decode_fixed-encode_fixed_example : SlotKept signed_spec (int (negsuc 299)) (9 ∷ [])
decode_fixed-encode_fixed_example =
    decode_fixed-encode_fixed signed_spec (int (negsuc 299)) (9 ∷ []) refl (omega arith)
