-- ===== src/Factory.antt =====
-- Opening a table's index: the checks of `SABIFactory::NewReader` in src/include/sabi_factory.cpp, on the footer
-- [directory_off u32][version u32][magic u32] and the start of the directory [attr_num u32][index_type u8 x attr_num].
pub mod Accepted
use bit_lsm.Base.{
  ℕ, zero, suc, ◌+◌, ◌-◌, Bool, true, false, not, ◌&&◌, ◌||◌, Option, none, some, List, [], ◌∷◌,
  length, drop, ltb, ◌==◌, if◌then◌else◌,
}
use bit_lsm.Bytes.{Bytes}
use bit_lsm.Schema.{IndexType, equality, range}
use bit_lsm.Row.{read32}

abbrev pub format_version : ℕ
format_version = 8

abbrev pub footer_magic : ℕ
footer_magic = 0x5ab1_b175

abbrev pub footer_size : ℕ
footer_size = 12

-- `SABIReaderMode`: bitmaps resident, or read on demand.
pub data ReaderMode : Type 0 where
  resident metadata : ReaderMode

-- The reader is made, in this mode and of these index types, or the index is corrupt.
pub data Opened : Type 0 where
  refused : Opened
  opened : ReaderMode → List IndexType → Opened

abbrev pub directory_off : Bytes → ℕ
directory_off block = read32 block (length block - 12)

abbrev pub attr_num : Bytes → ℕ
attr_num block = read32 block (directory_off block)

abbrev pub type_of_byte : ℕ → Option IndexType
type_of_byte b = if b == 0 then some equality else if b == 1 then some range else none

abbrev pub cons_type : Option IndexType → Option (List IndexType) → Option (List IndexType)
cons_type none types = none
cons_type (some t) none = none
cons_type (some t) (some types) = some (t ∷ types)

-- The loop over the type bytes; an unknown one ends it.
unfoldable pub read_types : ℕ → Bytes → Option (List IndexType)
read_types zero bytes = some []
read_types (suc n) [] = none
read_types (suc n) (b ∷ bytes) = cons_type (type_of_byte b) (read_types n bytes)

abbrev pub same_type : IndexType → IndexType → Bool
same_type equality equality = true
same_type range range = true
same_type _ _ = false

unfoldable pub same_types : List IndexType → List IndexType → Bool
same_types [] [] = true
same_types (s ∷ ss) (t ∷ ts) = same_type s t && same_types ss ts
same_types _ _ = false

abbrev pub no_schema : List IndexType → Bool
no_schema [] = true
no_schema (t ∷ types) = false

abbrev pub mode_of : Bool → ReaderMode
mode_of ondemand_index = if ondemand_index then metadata else resident

-- A factory bound to a schema takes only its own types.
abbrev pub bind_schema : List IndexType → Bool → Option (List IndexType) → Opened
bind_schema schema ondemand_index none = refused
bind_schema schema ondemand_index (some types) =
    if not (no_schema schema) && not (same_types schema types)
    then refused
    else opened (mode_of ondemand_index) types

unfoldable pub new_reader : List IndexType → Bool → Bytes → Opened
new_reader schema ondemand_index block =
    if ltb (length block) footer_size || not (read32 block (length block - 4) == footer_magic)
    then refused
    else if not (read32 block (length block - 8) == format_version)
    then refused
    else if ltb (length block - footer_size) (directory_off block + 4)
    then refused
    else if ltb (length block - footer_size) (directory_off block + 4 + attr_num block)
    then refused
    else bind_schema schema ondemand_index
        (read_types (attr_num block) (drop (directory_off block + 4) block))
