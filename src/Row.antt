-- ===== src/Row.antt =====
-- src/include/bit_lsm_utils.h: the row value format, its layout, encoder and decoder.
--   [null bitmap][var_end u32 x n_variable][fixed slots][variable bytes][payload]
-- The bounds of every loop over attributes is the number of specs: an accepted schema has `attr_num`
-- equal to it. `std::get` on another alternative throws: `none`.
pub mod Decoded
pub mod Slot
use Prim.Native.Nat.{bit_and, bit_or}
use bit_lsm.Base.{
  ℕ, zero, suc, ◌+◌, ◌-◌, ◌*◌, ◌/◌, ◌%◌, ◌^◌, Bool, true, false, Option, none, some, List, [], ◌∷◌,
  length, get_or, set, take, drop, replicate, map, ltb, ◌==◌, if◌then◌else◌,
}
use bit_lsm.Base.Int.{ℤ}
use bit_lsm.Bytes.{Bytes}
use bit_lsm.Memory.{le_bytes, of_le_bytes, read, write}
use bit_lsm.Scalar.{u32_mod, F64, u64_of_i64, i64_of_u64, f32_of_f64, f64_of_f32}
use bit_lsm.Schema.{AttrSpec, BitLsmOptions, PhysicalType, is_fixed, spec_at}
use bit_lsm.Okey.{complement64}

-- `Attr`, and `AttrView`, whose `string_view` alternative shows the same bytes.
pub data Attr : Type 0 where
  null : Attr
  int : ℤ → Attr
  uint : ℕ → Attr
  float : F64 → Attr
  text : Bytes → Attr

abbrev pub is_null : Attr → Bool
is_null null = true
is_null _ = false

infixl 5 ◌>>=◌
abbrev pub ◌>>=◌ {ℓ κ} : {A : Type ℓ} {B : Type κ} → Option A → (A → Option B) → Option B
none >>= f = none
some a >>= f = f a

abbrev pub get_text : Attr → Option Bytes
get_text (text s) = some s
get_text _ = none

-- `uint32_t` addition.
abbrev pub add32 : ℕ → ℕ → ℕ
add32 a b = (a + b) % u32_mod

abbrev pub sub32 : ℕ → ℕ → ℕ
sub32 a b = (a + u32_mod - b) % u32_mod

pub record ValueLayout : Type 0 where
  pub n_variable : ℕ
  pub n_nullable : ℕ
  pub null_bitmap_bytes : ℕ
  pub variable_base : ℕ
  pub slot : List ℕ
  pub is_fixed : List Bool
  -- `none` is the -1 of an attribute that is not nullable
  pub null_bit : List (Option ℕ)
  pub specs : List AttrSpec

-- The constructor's first loop: how many attributes are variable, and the null bits from `bit` on.
unfoldable pub count_variable : List AttrSpec → ℕ
count_variable [] = 0
count_variable (s ∷ specs) = if is_fixed s then count_variable specs else count_variable specs + 1

unfoldable pub count_nullable : List AttrSpec → ℕ
count_nullable [] = 0
count_nullable (s ∷ specs) = if s.nullable then count_nullable specs + 1 else count_nullable specs

unfoldable pub null_bits : ℕ → List AttrSpec → List (Option ℕ)
null_bits bit [] = []
null_bits bit (s ∷ specs) =
    (if s.nullable then some bit else none) ∷ null_bits (if s.nullable then bit + 1 else bit) specs

-- The second loop: the slots from offset `off` and rank `rank` on, and where the offset ends.
unfoldable pub slots : ℕ → ℕ → List AttrSpec → List ℕ
slots off rank [] = []
slots off rank (s ∷ specs) =
    (if is_fixed s then off else rank)
    ∷ slots (if is_fixed s then add32 off s.width else off) (if is_fixed s then rank else rank + 1)
        specs

unfoldable pub fixed_end : ℕ → List AttrSpec → ℕ
fixed_end off [] = off
fixed_end off (s ∷ specs) = fixed_end (if is_fixed s then add32 off s.width else off) specs

unfoldable pub value_layout : BitLsmOptions → ValueLayout
value_layout o =
    let bitmap : ℕ = (count_nullable o.attr_specs + 7) / 8 in
    let off : ℕ = add32 bitmap (count_variable o.attr_specs * 4) in
    record {
      n_variable = count_variable o.attr_specs;
      n_nullable = count_nullable o.attr_specs;
      null_bitmap_bytes = bitmap;
      variable_base = fixed_end off o.attr_specs;
      slot = slots off 0 o.attr_specs;
      is_fixed = map is_fixed o.attr_specs;
      null_bit = null_bits 0 o.attr_specs;
      specs = o.attr_specs;
    }

-- Bit `null_bit & 7` of byte `null_bit >> 3`.
unfoldable pub is_null_bit_set : Bytes → ℕ → Bool
is_null_bit_set base null_bit = get_or base (null_bit / 8) 0 / 2 ^ (null_bit % 8) % 2 == 1

-- The bytes that `EncodeFixed` stores.
unfoldable pub encode_fixed : Attr → AttrSpec → Option Bytes
encode_fixed v s = elim s.physical_type [
  | PhysicalType.float ↦ elim v [
    | float d ↦ some (if s.width == 8 then le_bytes 8 d else le_bytes 4 (f32_of_f64 d))
    | _ ↦ none
  ]
  | PhysicalType.int ↦ elim v [ int x ↦ some (le_bytes s.width (u64_of_i64 x)) | _ ↦ none ]
  | PhysicalType.uint ↦ elim v [ uint x ↦ some (le_bytes s.width x) | _ ↦ none ]
  | PhysicalType.binary ↦ elim v [ text b ↦ some (take s.width b) | _ ↦ none ]
  | PhysicalType.var_binary ↦ some []
]

-- The value of `width` bytes, sign-extended to 64 bits.
unfoldable pub sign_extend : ℕ → ℕ → ℕ
sign_extend width raw =
    if ltb width 8
    then (if bit_and raw (2 ^ (width * 8 - 1)) == 0
        then raw
        else bit_or raw (complement64 (2 ^ (width * 8) - 1)))
    else raw

-- `src` holds the bytes from the slot on.
unfoldable pub decode_fixed : Bytes → AttrSpec → Attr
decode_fixed src s = elim s.physical_type [
  | PhysicalType.float ↦
      float
        (if s.width == 8 then of_le_bytes (take 8 src) else f64_of_f32 (of_le_bytes (take 4 src)))
  | PhysicalType.int ↦ int (i64_of_u64 (sign_extend s.width (of_le_bytes (take s.width src))))
  | PhysicalType.uint ↦ uint (of_le_bytes (take s.width src))
  | PhysicalType.binary ↦ text (take s.width src)
  | PhysicalType.var_binary ↦ null
]

-- The first loop of `EncodeValue`: the bytes of the variable attributes.
unfoldable pub variable_size : ValueLayout → ℕ → List Attr → Option ℕ
variable_size layout i [] = some 0
variable_size layout i (v ∷ attrs) = do
  rest ← variable_size layout (i + 1) attrs
  if get_or layout.is_fixed i false
      then some rest
      else if is_null v
      then some rest
      else (do s ← get_text v; some (add32 (length s) rest))

-- The variables of its second loop.
pub record EncodeState : Type 0 where
  pub buffer : Bytes
  pub variable_ptr : ℕ
  pub var_end : ℕ
  pub variable_seen : ℕ

abbrev pub set_null_bit : Bytes → ℕ → Bytes
set_null_bit base nb = set base (nb / 8) (bit_or (get_or base (nb / 8) 0) (2 ^ (nb % 8)))

abbrev pub mark_null : Bool → Option ℕ → Bytes → Bytes
mark_null true (some nb) base = set_null_bit base nb
mark_null _ _ base = base

-- What follows the bytes of a variable attribute: its end offset.
abbrev pub store_end : ValueLayout → EncodeState → EncodeState
store_end layout s = record s {
  buffer = write s.buffer (layout.null_bitmap_bytes + s.variable_seen * 4) (le_bytes 4 s.var_end);
  variable_seen = s.variable_seen + 1;
}

unfoldable pub encode_variable : ValueLayout → Attr → EncodeState → Option EncodeState
encode_variable layout v s = if is_null v then some (store_end layout s) else (do
  str ← get_text v
  some (
      store_end layout (record s {
        buffer = write s.buffer s.variable_ptr str;
        variable_ptr = s.variable_ptr + length str;
        var_end = add32 s.var_end (length str);
      })))

unfoldable pub encode_slot : ValueLayout → ℕ → Attr → EncodeState → Option EncodeState
encode_slot layout i v s =
    let spec : AttrSpec = spec_at layout.specs i in
    let at : ℕ = get_or layout.slot i 0 in
    if is_null v
    then some (record s { buffer = write s.buffer at (replicate spec.width 0) })
    else (do bytes ← encode_fixed v spec; some (record s { buffer = write s.buffer at bytes }))

-- One round of the second loop.
unfoldable pub encode_attr : ValueLayout → ℕ → Attr → EncodeState → Option EncodeState
encode_attr layout i v s =
    let marked : EncodeState = record s {
      buffer = mark_null (is_null v) (get_or layout.null_bit i none) s.buffer;
    } in
    if get_or layout.is_fixed i false
    then encode_slot layout i v marked
    else encode_variable layout v marked

unfoldable pub encode_attrs : ValueLayout → ℕ → List Attr → EncodeState → Option EncodeState
encode_attrs layout i [] s = some s
encode_attrs layout i (v ∷ attrs) s = do
  s' ← encode_attr layout i v s
  encode_attrs layout (i + 1) attrs s'

-- `std::string::resize`: cut, or filled up with zeros.
unfoldable pub resize : ℕ → Bytes → Bytes
resize zero old = []
resize (suc n) [] = 0 ∷ resize n []
resize (suc n) (b ∷ old) = b ∷ resize n old

-- `out_value` may hold an older row: only the null bitmap is cleared first.
unfoldable pub encode_value : ValueLayout → List Attr → Bytes → Bytes → Option Bytes
encode_value layout attrs payload out_value = do
  variable_bytes ← variable_size layout 0 attrs
  let base = resize (add32 layout.variable_base variable_bytes + length payload) out_value
  s ← encode_attrs layout 0 attrs (record {
    buffer = write base 0 (replicate layout.null_bitmap_bytes 0);
    variable_ptr = layout.variable_base;
    var_end = 0;
    variable_seen = 0;
  })
  some (write s.buffer s.variable_ptr payload)

-- A `uint32_t` of the buffer.
abbrev pub read32 : Bytes → ℕ → ℕ
read32 base at = of_le_bytes (read base at 4)

-- Where the bytes of variable attribute `rank` begin, after `variable_base`.
unfoldable pub variable_start : ValueLayout → Bytes → ℕ → ℕ
variable_start layout base zero = 0
variable_start layout base (suc rank) = read32 base (layout.null_bitmap_bytes + rank * 4)

unfoldable pub decode_variable : ValueLayout → Bytes → ℕ → Attr
decode_variable layout base rank =
    let end : ℕ = read32 base (layout.null_bitmap_bytes + rank * 4) in
    let start : ℕ = variable_start layout base rank in
    text (read base (layout.variable_base + start) (sub32 end start))

abbrev pub is_marked_null : Bytes → Option ℕ → Bool
is_marked_null base none = false
is_marked_null base (some nb) = is_null_bit_set base nb

unfoldable pub decode_attr : ValueLayout → Bytes → ℕ → Attr
decode_attr layout base attr_idx =
    if is_marked_null base (get_or layout.null_bit attr_idx none)
    then null
    else if get_or layout.is_fixed attr_idx false
    then decode_fixed (drop (get_or layout.slot attr_idx 0) base) (spec_at layout.specs attr_idx)
    else decode_variable layout base (get_or layout.slot attr_idx 0)

-- `substr` from a position of 32 bits; none where that is past the end, where it throws.
unfoldable pub decode_payload : ValueLayout → Bytes → Option Bytes
decode_payload layout base =
    let start : ℕ = add32 layout.variable_base (variable_start layout base layout.n_variable) in
    if ltb (length base) start then none else some (drop start base)
