-- ===== src/Factory/Accepted.antt =====
-- Which blobs `NewReader` of src/include/sabi_factory.cpp accepts.
use bit_lsm.Base.{
  ℕ, zero, suc, ◌+◌, ◌-◌, ◌≤◌, ◌≡◌, ◌↔◌, ◌⊎◌, inl, inr, refl, ap, sym, ◌∙◌, Bool, true, false, not,
  Option, none, some, List, [], ◌∷◌, length, take, drop, map, ltb, ◌==◌, arith, Bool-cases,
  length-drop, ◌≢◌, if◌then◌else◌, ◌&&◌, ◌||◌,
}
use bit_lsm.Bytes.{Bytes}
use bit_lsm.Schema.{IndexType, equality, range}
use bit_lsm.Row.{read32}
use bit_lsm.Factory.{
  format_version, footer_magic, footer_size, ReaderMode, Opened, refused, opened, directory_off,
  attr_num, type_of_byte, cons_type, read_types, same_types, no_schema, mode_of, bind_schema,
  new_reader,
}

-- The byte of an index type, as the builder persists it.
abbrev pub type_byte : IndexType → ℕ
type_byte equality = 0
type_byte range = 1

type_of_byte-type_byte : (t : IndexType) → type_of_byte (type_byte t) ≡ some t
type_of_byte-type_byte equality = refl
type_of_byte-type_byte range = refl

type_byte-type_of_byte : (b : ℕ) (t : IndexType) → type_of_byte b ≡ some t → b ≡ type_byte t
type_byte-type_of_byte b equality e = ground arith
type_byte-type_of_byte b range e = ground arith

take-cons_type :
    (b : ℕ) (taken : Bytes) (t : Option IndexType) (ts : Option (List IndexType))
    (types : List IndexType)
    → type_of_byte b ≡ t
    → ((us : List IndexType) → ts ≡ some us → taken ≡ map type_byte us)
    → cons_type t ts ≡ some types
    → b ∷ taken ≡ map type_byte types
take-cons_type b taken none ts types p q e = cc
take-cons_type b taken (some t) none types p q e = cc
take-cons_type b taken (some t) (some ts) [] p q e = cc
take-cons_type b taken (some t) (some ts) (u ∷ us) p q e =
    let same : t ≡ u = cc e in
    let rest : ts ≡ us = cc e in
    let first : b ≡ type_byte u = type_byte-type_of_byte b u (p ∙ ap some same) in
    cc (first, q us (ap some rest))

take-read_types :
    (n : ℕ) (bytes : Bytes) (types : List IndexType)
    → read_types n bytes ≡ some types
    → take n bytes ≡ map type_byte types
unfolding read_types
take-read_types zero bytes [] e = refl
take-read_types zero bytes (t ∷ types) e = cc
take-read_types (suc n) [] types e = cc
take-read_types (suc n) (b ∷ bytes) types e =
    take-cons_type b (take n bytes) (type_of_byte b) (read_types n bytes) types refl
      (λ ts q. take-read_types n bytes ts q) e

read_types-bytes :
    (n : ℕ) (bytes : Bytes) (types : List IndexType)
    → n ≤ length bytes
    → take n bytes ≡ map type_byte types
    → read_types n bytes ≡ some types
unfolding read_types
read_types-bytes zero bytes [] h e = refl
read_types-bytes zero bytes (t ∷ types) h e = cc
read_types-bytes (suc n) [] types h e = elim h [ ]
read_types-bytes (suc n) (b ∷ bytes) [] h e = cc
read_types-bytes (suc n) (b ∷ bytes) (t ∷ types) h e =
    let head : b ≡ type_byte t = cc e in
    let tail : take n bytes ≡ map type_byte types = cc e in
    rw (head, type_of_byte-type_byte t, read_types-bytes n bytes types (omega arith) tail) refl

same_types-eq : (s t : List IndexType) → same_types s t ≡ true → s ≡ t
unfolding same_types
same_types-eq [] [] h = refl
same_types-eq [] (t ∷ ts) h = cc
same_types-eq (s ∷ ss) [] h = cc
same_types-eq (s ∷ ss) (t ∷ ts) h = ground (arith, same_types-eq ss ts)

same_types_refl : (s : List IndexType) → same_types s s ≡ true
unfolding same_types
same_types_refl [] = refl
same_types_refl (equality ∷ ss) = same_types_refl ss
same_types_refl (range ∷ ss) = same_types_refl ss

refused≢opened : (mode : ReaderMode) (types : List IndexType) → refused ≢ opened mode types
refused≢opened mode types e = cc

-- What the blob of an index says where the reader will look.
pub record IsReadable (schema : List IndexType) (types : List IndexType) (block : Bytes)
    : Type 0 where
  pub footer : footer_size ≤ length block
  pub magic : read32 block (length block - 4) ≡ footer_magic
  pub version : read32 block (length block - 8) ≡ format_version
  pub inside : directory_off block + 4 + attr_num block ≤ length block - footer_size
  pub typed : take (attr_num block) (drop (directory_off block + 4) block) ≡ map type_byte types
  pub bound : (schema ≡ []) ⊎ (schema ≡ types)

-- The four refusals before the types are read.
gates :
    (a b c d : Bool) (r : Opened) (mode : ReaderMode) (types : List IndexType)
    → (if a
        then refused
        else if b
        then refused
        else if c
        then refused
        else if d
        then refused
        else r)
      ≡ opened mode types
    → (a ≡ false) × (b ≡ false) × (c ≡ false) × (d ≡ false) × (r ≡ opened mode types)
gates true b c d r mode types e = cc
gates false true c d r mode types e = cc
gates false false true d r mode types e = cc
gates false false false true r mode types e = cc
gates false false false false r mode types e = (refl, refl, refl, refl, e)

opened-types : (m k : ReaderMode) (s t : List IndexType) → opened m s ≡ opened k t → s ≡ t
opened-types m k s t e = cc

bound-types :
    (schema types : List IndexType)
    → (not (no_schema schema) && not (same_types schema types)) ≡ false
    → (schema ≡ []) ⊎ (schema ≡ types)
bound-types [] types h = inl refl
bound-types (t ∷ schema) types h = inr (same_types-eq (t ∷ schema) types (ground arith))

bind_schema-opened :
    (schema types : List IndexType) (ondemand_index : Bool) (found : Option (List IndexType))
    (mode : ReaderMode)
    → bind_schema schema ondemand_index found ≡ opened mode types
    → (found ≡ some types) × ((schema ≡ []) ⊎ (schema ≡ types))
bind_schema-opened schema types ondemand_index none mode e = cc
bind_schema-opened schema types ondemand_index (some ts) mode e =
    elim (Bool-cases (not (no_schema schema) && not (same_types schema ts))) [
      | inl other ↦ absurd (refused≢opened mode types (sym (rw other refl) ∙ e))
      | inr bound ↦
          let same : ts ≡ types =
            opened-types (mode_of ondemand_index) mode ts types (sym (rw bound refl) ∙ e) in
          (ap some same, rw (sym same) (bound-types schema ts bound))
    ]

bind_schema-bound :
    (schema types : List IndexType) (ondemand_index : Bool)
    → (schema ≡ []) ⊎ (schema ≡ types)
    → bind_schema schema ondemand_index (some types) ≡ opened (mode_of ondemand_index) types
bind_schema-bound schema types ondemand_index (inl e) = rw e refl
bind_schema-bound schema types ondemand_index (inr e) = elim (Bool-cases (no_schema schema)) [
  | inl unbound ↦ rw unbound refl
  | inr bound ↦ rw (bound, sym e, same_types_refl schema) refl
]

module _ (schema types : List IndexType) (ondemand_index : Bool) (block : Bytes) where
  Readable-new_reader :
      IsReadable schema types block
      → new_reader schema ondemand_index block ≡ opened (mode_of ondemand_index) types
  unfolding new_reader
  Readable-new_reader r =
      let found =
        read_types-bytes (attr_num block) (drop (directory_off block + 4) block) types
          (omega (arith, length-drop (directory_off block + 4) block, r.inside, r.footer))
          r.typed in
      let a : (ltb (length block) footer_size
            || not (read32 block (length block - 4) == footer_magic))
          ≡ false =
        ground (arith, r.footer, r.magic) in
      let b : not (read32 block (length block - 8) == format_version) ≡ false =
        ground (arith, r.version) in
      let c : ltb (length block - footer_size) (directory_off block + 4) ≡ false =
        ground (arith, r.inside) in
      let d : ltb (length block - footer_size) (directory_off block + 4 + attr_num block) ≡ false =
        ground (arith, r.inside) in
      rw (a, b, c, d, found) (bind_schema-bound schema types ondemand_index r.bound)

  new_reader-Readable :
      new_reader schema ondemand_index block ≡ opened (mode_of ondemand_index) types
      → IsReadable schema types block
  unfolding new_reader
  new_reader-Readable e =
      let (a, b, c, d, bound) =
        gates
          (ltb (length block) footer_size || not (read32 block (length block - 4) == footer_magic))
          (not (read32 block (length block - 8) == format_version))
          (ltb (length block - footer_size) (directory_off block + 4))
          (ltb (length block - footer_size) (directory_off block + 4 + attr_num block))
          (bind_schema schema ondemand_index
            (read_types (attr_num block) (drop (directory_off block + 4) block)))
          (mode_of ondemand_index) types e in
      let (found, schema_fits) =
        bind_schema-opened schema types ondemand_index
          (read_types (attr_num block) (drop (directory_off block + 4) block))
          (mode_of ondemand_index) bound in
      record {
        footer = ground (arith, a);
        magic = ground (arith, a);
        version = ground (arith, b);
        inside = ground (arith, d);
        typed = take-read_types (attr_num block) (drop (directory_off block + 4) block) types found;
        bound = schema_fits;
      }

  -- NewReader opens an index, in the configured mode and of the given types, exactly when the blob ends in a
  -- footer of the right magic and version, the directory's attribute count and type bytes lie before the footer,
  -- the type bytes are those of the types, and the factory has no schema or one of the same types.
  pub new_reader_iff :
      (new_reader schema ondemand_index block ≡ opened (mode_of ondemand_index) types)
      ↔ IsReadable schema types block
  new_reader_iff = (new_reader-Readable, Readable-new_reader)
