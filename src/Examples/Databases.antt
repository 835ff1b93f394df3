-- ===== src/Examples/Databases.antt =====
-- A database of two column families, of which one is dropped and another created, and its writes.
use bit_lsm.Base.{
  ap, ℕ, suc, ◌+◌, ◌≡◌, ◌⊎◌, inl, inr, refl, false, List, [], ◌∷◌, length, ap, some, arith,
}
use bit_lsm.Bytes.{Bytes, compare_bytes}
use bit_lsm.Status.{ok, Status, invalid_argument}
use bit_lsm.Schema.{validate_attr_specs, BitLsmOptions, IndexType, PhysicalType}
use bit_lsm.Database.{
  default_name, Descriptor, RocksDb, BitLsm, OpenError, get_column_family, lists_twice, seen_before,
  has_default, validate_all, open_database, create_column_family, drop_column_family,
}
use bit_lsm.Database.Registry.{IsValid}
use bit_lsm.Database.Reached.{opens, creates, drops, Reached-IsValid}
use bit_lsm.Memory.{le_bytes, of_le_bytes, read, write}
use bit_lsm.Row.{
  Attr, text, value_layout, encode_value, decode_attr, count_variable, count_nullable, null_bits,
  slots, fixed_end, variable_size, resize, encode_attrs, encode_attr, encode_slot, encode_variable,
  encode_fixed, is_null_bit_set, sign_extend, decode_fixed, variable_start, decode_variable,
  decode_payload,
}
use bit_lsm.Database.Writes.{put_batch, collect_batch, prepare_row, check_fixed_binary_widths}
use bit_lsm.Database.Whole.{Whole, put_batch-Whole}
use bit_lsm.Examples.Indexes.{two_options}

unfoldable batch_program : Unit {0}
unfolding put_batch collect_batch prepare_row check_fixed_binary_widths le_bytes of_le_bytes read
    write value_layout count_variable count_nullable null_bits slots fixed_end variable_size resize
    encode_attrs encode_attr encode_slot encode_variable encode_fixed encode_value is_null_bit_set
    sign_extend decode_fixed variable_start decode_variable decode_attr decode_payload
batch_program = tt

abbrev ids_for : ℕ → List Descriptor → List ℕ
ids_for n [] = []
ids_for n (d ∷ descriptors) = n ∷ ids_for (n + 1) descriptors

length-ids_for :
    (n : ℕ) (descriptors : List Descriptor) → length (ids_for n descriptors) ≡ length descriptors
length-ids_for n [] = refl
length-ids_for n (d ∷ descriptors) = ap suc (length-ids_for (n + 1) descriptors)

-- The state counts the ids that were given.
abbrev rocksdb : RocksDb ℕ
rocksdb = record {
  open_db = λ w descriptors. (inr (ids_for 0 descriptors), length descriptors);
  create_column_family = λ w d. (inr w, w + 1);
  drop_column_family = λ w id. (ok, w);
}

abbrev named : Bytes → Descriptor
named name = record { name = name; options = two_options }

abbrev descriptors : List Descriptor
descriptors = named default_name ∷ named (97 ∷ []) ∷ []

abbrev database : OpenError ⊎ BitLsm ℕ → BitLsm ℕ
database (inl e) = record {
  cf_registry = [];
  default_cf = 0;
  next_address = 0;
  armed = [];
  io_uring = false;
  world = 0;
}
database (inr db) = db

abbrev first : BitLsm ℕ
first = database (open_database rocksdb 0 descriptors)

abbrev dropped : BitLsm ℕ
dropped = (drop_column_family rocksdb (get_column_family rocksdb (97 ∷ []) first) first).1

abbrev last : BitLsm ℕ
last = (create_column_family rocksdb (named (98 ∷ [])) dropped).1

opens_well : open_database rocksdb 0 descriptors ≡ inr first
unfolding open_database lists_twice seen_before has_default validate_all validate_attr_specs
    compare_bytes
opens_well = refl

Reached-IsValid_example : IsValid rocksdb last
Reached-IsValid_example =
    Reached-IsValid rocksdb (λ w ds. length-ids_for 0 ds)
      (creates
        (drops (opens 0 descriptors first opens_well) (get_column_family rocksdb (97 ∷ []) first))
        (named (98 ∷ [])))

-- Options whose first attribute is a string of one byte.
abbrev binary_options : BitLsmOptions
binary_options = record two_options {
  attr_specs =
      record {
        index_type = IndexType.range;
        physical_type = PhysicalType.binary;
        width = 1;
        nullable = false;
      }
      ∷ record {
        index_type = IndexType.equality;
        physical_type = PhysicalType.var_binary;
        width = 0;
        nullable = false;
      }
      ∷ [];
}

-- A batch of two rows, in a store that counts what it writes, and ones whose second row lacks an attribute or has a
-- string of another width.
abbrev count_write : ℕ → List (Bytes × Bytes) → Status × ℕ
count_write w batch = (ok, w + length batch)

abbrev row_attrs : List Attr
row_attrs = text (97 ∷ []) ∷ text (98 ∷ []) ∷ []

abbrev pks : List Bytes
pks = (1 ∷ []) ∷ (2 ∷ []) ∷ []

batch_written :
    put_batch count_write pks
      (row_attrs ∷ row_attrs ∷ [])
      ((7 ∷ []) ∷ [] ∷ [])
      (some binary_options)
      5
    ≡ some (ok, 7)
unfolding batch_program
batch_written = refl

batch_refused :
    put_batch count_write pks (row_attrs ∷ [] ∷ []) ((7 ∷ []) ∷ [] ∷ []) (some binary_options) 5
    ≡ some (invalid_argument, 5)
unfolding batch_program
batch_refused = refl

abbrev wrong_width : List Attr
wrong_width = text (97 ∷ 97 ∷ []) ∷ text (98 ∷ []) ∷ []

width_refused :
    put_batch count_write pks
      (row_attrs ∷ wrong_width ∷ [])
      ((7 ∷ []) ∷ [] ∷ [])
      (some binary_options)
      5
    ≡ some (invalid_argument, 5)
unfolding batch_program
width_refused = refl

put_batch-Whole_example :
    Whole count_write pks
      (row_attrs ∷ row_attrs ∷ [])
      ((7 ∷ []) ∷ [] ∷ [])
      (some binary_options)
      5
      (ok, 7)
put_batch-Whole_example =
    put_batch-Whole count_write pks (row_attrs ∷ row_attrs ∷ []) ((7 ∷ []) ∷ [] ∷ [])
      (some binary_options) 5 (ok, 7) (omega arith) batch_written
