-- ===== src/Database/Writes.antt =====
-- Writing rows: `Put` and `PutBatch` of src/include/bit_lsm.cpp. RocksDB's write of a batch is a parameter with a state
-- of its own; a batch lists its keys and values in order.
use bit_lsm.Base.{
  ℕ, zero, suc, ◌+◌, ◌%◌, ◌^◌, ◌⊎◌, inl, inr, Bool, true, false, Option, none, some, List, [], ◌∷◌,
  length, get_or, get_elem?, ◌==◌, if◌then◌else◌,
}
use bit_lsm.Bytes.{Bytes}
use bit_lsm.Status.{Status, ok, invalid_argument, is_ok}
use bit_lsm.Schema.{BitLsmOptions, AttrSpec, PhysicalType, spec_at}
use bit_lsm.Row.{Attr, value_layout, encode_value}

-- Whether `std::get<string>` finds a string of the width; it throws on another alternative, which gives none.
abbrev pub width_fits : ℕ → Attr → Option Bool
width_fits width Attr.null = some true
width_fits width (Attr.text s) = some (length s == width)
width_fits width _ = none

abbrev pub is_binary : PhysicalType → Bool
is_binary PhysicalType.binary = true
is_binary _ = false

-- `CheckFixedBinaryWidths`, from attribute `i` on; none where it throws.
abbrev pub check_width : PhysicalType → ℕ → Attr → Option Status → Option Status
check_width t width a rest =
    if is_binary t
    then elim (width_fits width a) [
      | none ↦ none
      | some fits ↦ if fits then rest else some invalid_argument
    ]
    else rest

unfoldable pub check_fixed_binary_widths : BitLsmOptions → ℕ → List Attr → Option Status
check_fixed_binary_widths options i [] = some ok
check_fixed_binary_widths options i (a ∷ attrs) =
    let spec : AttrSpec = spec_at options.attr_specs i in
    check_width spec.physical_type spec.width a (check_fixed_binary_widths options (i + 1) attrs)

-- `EncodeValue` into a buffer that may hold an older row.
abbrev pub encode_row : BitLsmOptions → Bytes → List Attr → Option Bytes → Option Bytes
encode_row options buf attrs none = none
encode_row options buf attrs (some payload) = encode_value (value_layout options) attrs payload buf

abbrev pub encoded : Option Bytes → Option (Status ⊎ Bytes)
encoded none = none
encoded (some value) = some (inr value)

abbrev pub after_check : Option Status → Option Bytes → Option (Status ⊎ Bytes)
after_check none value = none
after_check (some s) value = if is_ok s then encoded value else some (inl s)

-- What `Put` and the loop of `PutBatch` do with a row before it is written: none where they throw or read past the end
-- of a list, the status that they return, or the row's value.
unfoldable pub prepare_row :
    BitLsmOptions → Bytes → Option (List Attr) → Option Bytes → Option (Status ⊎ Bytes)
prepare_row options buf none payload = none
prepare_row options buf (some attrs) payload =
    if length attrs == options.attr_num
    then after_check (check_fixed_binary_widths options 0 attrs)
        (encode_row options buf attrs payload)
    else some (inl invalid_argument)

module _ {World : Type 0} (write : World → List (Bytes × Bytes) → Status × World) where
  abbrev pub put_prepared : World → Bytes → Option (Status ⊎ Bytes) → Option (Status × World)
  put_prepared w pk none = none
  put_prepared w pk (some (inl s)) = some (s, w)
  put_prepared w pk (some (inr value)) = some (write w ((pk, value) ∷ []))

  -- `Put`; the options are those of the column family, none for a null one. `buf` is what the thread's buffer holds.
  unfoldable pub put :
      Option BitLsmOptions → World → Bytes → Bytes → List Attr → Bytes → Option (Status × World)
  put none w buf pk attrs payload = some (invalid_argument, w)
  put (some options) w buf pk attrs payload =
      put_prepared w pk (prepare_row options buf (some attrs) (some payload))

  abbrev pub add_row :
      Bytes
      → Option (Status ⊎ Bytes)
      → Option (Status ⊎ List (Bytes × Bytes))
      → Option (Status ⊎ List (Bytes × Bytes))
  add_row pk none rest = none
  add_row pk (some (inl s)) rest = some (inl s)
  add_row pk (some (inr value)) none = none
  add_row pk (some (inr value)) (some (inl s)) = some (inl s)
  add_row pk (some (inr value)) (some (inr batch)) = some (inr ((pk, value) ∷ batch))

  module _ (pks : List Bytes) (attrs_list : List (List Attr)) (payloads : List Bytes) where
    -- The batch of so many rows from row `i` on.
    unfoldable pub collect_batch : BitLsmOptions → ℕ → ℕ → Option (Status ⊎ List (Bytes × Bytes))
    collect_batch options zero i = some (inr [])
    collect_batch options (suc count) i =
        add_row (get_or pks i [])
          (prepare_row options [] (get_elem? attrs_list i) (get_elem? payloads i))
          (collect_batch options count (i + 1))

    abbrev pub write_batch :
        World → Option (Status ⊎ List (Bytes × Bytes)) → Option (Status × World)
    write_batch w none = none
    write_batch w (some (inl s)) = some (s, w)
    write_batch w (some (inr batch)) = some (write w batch)

    unfoldable pub put_batch : Option BitLsmOptions → World → Option (Status × World)
    put_batch none w = some (invalid_argument, w)
    put_batch (some options) w = write_batch w (collect_batch options (length pks % 2 ^ 32) 0)
