-- ===== src/Database/Whole.antt =====
-- What `PutBatch` of src/include/bit_lsm.cpp writes.
use bit_lsm.Base.{
  Bool-cases, ◌==◌, ==→eq, ℕ, zero, suc, ◌+◌, ◌≡◌, ◌≤◌, ◌<◌, ◌⊎◌, ◌%◌, ◌^◌, refl, ap, ◌∙◌, inl, inr,
  true, false, Option, Option-cases, none, some, List, [], ◌∷◌, length, get_or, get_elem?, arith,
}
use mathlib.Core.Path.{subst}
use bit_lsm.Bytes.{Bytes}
use bit_lsm.Status.{Status, ok, is_ok}
use bit_lsm.Schema.{BitLsmOptions, AttrSpec, PhysicalType, spec_at}
use bit_lsm.Row.{Attr, null, text, int, uint, float, value_layout, encode_value}
use bit_lsm.Database.Writes.{
  check_width, check_fixed_binary_widths, after_check, prepare_row, add_row, collect_batch,
  write_batch, put_batch,
}

-- A value of a fixed-width binary attribute is null or a string of the width.
abbrev pub WidthFits : PhysicalType → ℕ → Attr → Type 0
WidthFits PhysicalType.binary width null = Unit {0}
WidthFits PhysicalType.binary width (text s) = length s ≡ width
WidthFits PhysicalType.binary width _ = ⊥
WidthFits _ width a = Unit {0}

abbrev pub WidthsFit : List AttrSpec → ℕ → List Attr → Type 0
WidthsFit specs i [] = Unit {0}
WidthsFit specs i (a ∷ attrs) =
    WidthFits (spec_at specs i).physical_type (spec_at specs i).width a
    × WidthsFit specs (i + 1) attrs

text-width :
    (width : ℕ) (str : Bytes) (rest : Option Status) (s : Status)
    → check_width PhysicalType.binary width (text str) rest ≡ some s
    → is_ok s ≡ true
    → (length str ≡ width) × (rest ≡ some s)
text-width width str rest s e fine = elim (Bool-cases (length str == width)) [
  | inl same ↦ (==→eq (length str) width same, rw same at e)
  | inr other ↦ absurd (ground (arith, e, fine, other))
]

check_width-WidthFits :
    (t : PhysicalType) (width : ℕ) (a : Attr) (rest : Option Status) (s : Status)
    → check_width t width a rest ≡ some s
    → is_ok s ≡ true
    → WidthFits t width a × (rest ≡ some s)
check_width-WidthFits PhysicalType.binary width null rest s e fine = (tt, e)
check_width-WidthFits PhysicalType.binary width (text str) rest s e fine =
    text-width width str rest s e fine
check_width-WidthFits PhysicalType.binary width (int x) rest s e fine = absurd (ground (arith, e))
check_width-WidthFits PhysicalType.binary width (uint x) rest s e fine = absurd (ground (arith, e))
check_width-WidthFits PhysicalType.binary width (float x) rest s e fine = absurd (ground (arith, e))
check_width-WidthFits PhysicalType.int width a rest s e fine = (tt, e)
check_width-WidthFits PhysicalType.uint width a rest s e fine = (tt, e)
check_width-WidthFits PhysicalType.float width a rest s e fine = (tt, e)
check_width-WidthFits PhysicalType.var_binary width a rest s e fine = (tt, e)

check_fixed_binary_widths-WidthsFit :
    (options : BitLsmOptions) (i : ℕ) (attrs : List Attr) (s : Status)
    → check_fixed_binary_widths options i attrs ≡ some s
    → is_ok s ≡ true
    → WidthsFit options.attr_specs i attrs
unfolding check_fixed_binary_widths
check_fixed_binary_widths-WidthsFit options i [] s e fine = tt
check_fixed_binary_widths-WidthsFit options i (a ∷ attrs) s e fine =
    let (fits, rest) = check_width-WidthFits _ _ a _ s e fine in
    (fits, check_fixed_binary_widths-WidthsFit options (i + 1) attrs s rest fine)

module _ {World : Type 0} (write : World → List (Bytes × Bytes) → Status × World) (pks : List Bytes)
    (attrs_list : List (List Attr)) (payloads : List Bytes) where
  -- The entry of row `i`: its key, and the encoding of attributes of the right number and widths.
  pub record RowStored (options : BitLsmOptions) (i : ℕ) (pk value : Bytes) : Type 0 where
    pub attrs : List Attr
    pub payload : Bytes
    pub key : get_elem? pks i ≡ some pk
    pub has_attrs : get_elem? attrs_list i ≡ some attrs
    pub has_payload : get_elem? payloads i ≡ some payload
    pub counted : length attrs ≡ options.attr_num
    pub widths : WidthsFit options.attr_specs 0 attrs
    pub encodes : encode_value (value_layout options) attrs payload [] ≡ some value

  -- The entries are the rows from `i` on.
  abbrev pub HoldsRows : BitLsmOptions → ℕ → List (Bytes × Bytes) → Type 0
  HoldsRows options i [] = Unit {0}
  HoldsRows options i ((pk, value) ∷ batch) =
      RowStored options i pk value × HoldsRows options (i + 1) batch

  abbrev inr_or : Bytes → Option (Status ⊎ Bytes) → Bytes
  inr_or d none = d
  inr_or d (some (inl s)) = d
  inr_or d (some (inr value)) = value

  after_check-value :
      (checked : Option Status) (encoding : Option Bytes) (value : Bytes)
      → after_check checked encoding ≡ some (inr value)
      → (s : Status) × ((checked ≡ some s) × ((is_ok s ≡ true) × (encoding ≡ some value)))
  after_check-value none encoding value e = absurd (ground (arith, e))
  after_check-value (some s) none value e = elim (Bool-cases (is_ok s)) [
    | inl fine ↦ absurd (ground (arith, e, fine))
    | inr bad ↦ absurd (ground (arith, e, bad))
  ]
  after_check-value (some s) (some v) value e = elim (Bool-cases (is_ok s)) [
    | inl fine ↦ (s, (refl, (fine, ap (λ o. some (inr_or v o)) (rw fine at e))))
    | inr bad ↦ absurd (ground (arith, e, bad))
  ]

  prepare_row-RowStored :
      (options : BitLsmOptions) (i : ℕ) (pk value : Bytes) (found : Option (List Attr))
      (payload : Option Bytes)
      → get_elem? pks i ≡ some pk
      → get_elem? attrs_list i ≡ found
      → get_elem? payloads i ≡ payload
      → prepare_row options [] found payload ≡ some (inr value)
      → RowStored options i pk value
  unfolding prepare_row
  prepare_row-RowStored options i pk value none payload k a p e = absurd (ground (arith, e))
  prepare_row-RowStored options i pk value (some attrs) none k a p e =
      elim (Bool-cases (length attrs == options.attr_num)) [
        | inr other ↦ absurd (ground (arith, e, other))
        | inl same ↦
            let (s, (checks, (fine, encodes))) = after_check-value _ _ value (rw same at e) in
            absurd (ground (arith, encodes))
      ]
  prepare_row-RowStored options i pk value (some attrs) (some payload) k a p e =
      elim (Bool-cases (length attrs == options.attr_num)) [
        | inr other ↦ absurd (ground (arith, e, other))
        | inl same ↦
            let (s, (checks, (fine, encodes))) = after_check-value _ _ value (rw same at e) in
            record {
              attrs = attrs;
              payload = payload;
              key = k;
              has_attrs = a;
              has_payload = p;
              counted = ==→eq (length attrs) options.attr_num same;
              widths = check_fixed_binary_widths-WidthsFit options 0 attrs s checks fine;
              encodes = encodes;
            }
      ]

  abbrev batch_or :
      List (Bytes × Bytes) → Option (Status ⊎ List (Bytes × Bytes)) → List (Bytes × Bytes)
  batch_or b none = b
  batch_or b (some (inl s)) = b
  batch_or b (some (inr batch)) = batch

  get_or-get_elem? :
      (keys : List Bytes) (i : ℕ) → i < length keys → get_elem? keys i ≡ some (get_or keys i [])
  get_or-get_elem? [] i h = absurd (omega arith)
  get_or-get_elem? (k ∷ keys) zero h = refl
  get_or-get_elem? (k ∷ keys) (suc i) h = get_or-get_elem? keys i (omega (arith, h))

  module _ (options : BitLsmOptions) where
    add_row-HoldsRows :
        (count i : ℕ) (row : Option (Status ⊎ Bytes))
        (rest : Option (Status ⊎ List (Bytes × Bytes))) (batch : List (Bytes × Bytes))
        → i < length pks
        → prepare_row options [] (get_elem? attrs_list i) (get_elem? payloads i) ≡ row
        → ((b : List (Bytes × Bytes))
            → rest ≡ some (inr b)
            → (length b ≡ count) × HoldsRows options (i + 1) b)
        → add_row write (get_or pks i []) row rest ≡ some (inr batch)
        → (length batch ≡ suc count) × HoldsRows options i batch
    add_row-HoldsRows count i none rest batch inside prepared holds e = absurd (ground (arith, e))
    add_row-HoldsRows count i (some (inl s)) rest batch inside prepared holds e =
        absurd (ground (arith, e))
    add_row-HoldsRows count i (some (inr v)) none batch inside prepared holds e =
        absurd (ground (arith, e))
    add_row-HoldsRows count i (some (inr v)) (some (inl s)) batch inside prepared holds e =
        absurd (ground (arith, e))
    add_row-HoldsRows count i (some (inr v)) (some (inr b)) batch inside prepared holds e =
        let (len, rows) = holds b refl in
        let stored =
          prepare_row-RowStored options i (get_or pks i []) v _ _ (get_or-get_elem? pks i inside)
            refl refl prepared in
        subst (λ l. (length l ≡ suc count) × HoldsRows options i l) (ap (batch_or []) e)
          (ap suc len, (stored, rows))

    collect_batch-HoldsRows :
        (count i : ℕ) (batch : List (Bytes × Bytes))
        → i + count ≤ length pks
        → collect_batch write pks attrs_list payloads options count i ≡ some (inr batch)
        → (length batch ≡ count) × HoldsRows options i batch
    unfolding collect_batch
    collect_batch-HoldsRows zero i batch inside e =
        subst (λ l. (length l ≡ 0) × HoldsRows options i l) (ap (batch_or []) e) (refl, tt)
    collect_batch-HoldsRows (suc count) i batch inside e =
        add_row-HoldsRows count i _
          (collect_batch write pks attrs_list payloads options count (i + 1)) batch
          (omega (arith, inside)) refl
          (λ b. collect_batch-HoldsRows count (i + 1) b (omega (arith, inside))) e

  abbrev status_or : {A : Type 0} → Status → Option (Status ⊎ A) → Status
  status_or t none = t
  status_or t (some (inl s)) = s
  status_or t (some (inr a)) = t

  after_check-refused :
      (checked : Option Status) (value : Option Bytes) (s : Status)
      → after_check checked value ≡ some (inl s)
      → is_ok s ≡ false
  after_check-refused none value s = λ e. absurd (ground (arith, e))
  after_check-refused (some t) value s = elim (Bool-cases (is_ok t)) [
    | inr bad ↦ rw bad (λ e. subst (λ u. is_ok u ≡ false) (ap (status_or ok) e) bad)
    | inl good ↦ rw good (elim (Option-cases value) [
      | inl throws ↦ rw throws (λ e. absurd (ground (arith, e)))
      | inr (v, encodes) ↦ rw encodes (λ e. absurd (ground (arith, e)))
    ])
  ]

  prepare_row-refused :
      (options : BitLsmOptions) (found : Option (List Attr)) (payload : Option Bytes) (s : Status)
      → prepare_row options [] found payload ≡ some (inl s)
      → is_ok s ≡ false
  unfolding prepare_row
  prepare_row-refused options none payload s = λ e. absurd (ground (arith, e))
  prepare_row-refused options (some attrs) payload s =
      elim (Bool-cases (length attrs == options.attr_num)) [
        | inr other ↦ rw other (λ e. subst (λ u. is_ok u ≡ false) (ap (status_or ok) e) refl)
        | inl same ↦ rw same (after_check-refused _ _ s)
      ]

  add_row-refused :
      (pk : Bytes) (row : Option (Status ⊎ Bytes)) (rest : Option (Status ⊎ List (Bytes × Bytes)))
      (s : Status)
      → ((t : Status) → row ≡ some (inl t) → is_ok t ≡ false)
      → ((t : Status) → rest ≡ some (inl t) → is_ok t ≡ false)
      → add_row write pk row rest ≡ some (inl s)
      → is_ok s ≡ false
  add_row-refused pk none rest s row_bad rest_bad e = absurd (ground (arith, e))
  add_row-refused pk (some (inl t)) rest s row_bad rest_bad e =
      subst (λ u. is_ok u ≡ false) (ap (status_or ok) e) (row_bad t refl)
  add_row-refused pk (some (inr v)) none s row_bad rest_bad e = absurd (ground (arith, e))
  add_row-refused pk (some (inr v)) (some (inl t)) s row_bad rest_bad e =
      subst (λ u. is_ok u ≡ false) (ap (status_or ok) e) (rest_bad t refl)
  add_row-refused pk (some (inr v)) (some (inr b)) s row_bad rest_bad e = absurd (ground (arith, e))

  collect_batch-refused :
      (options : BitLsmOptions) (count i : ℕ) (s : Status)
      → collect_batch write pks attrs_list payloads options count i ≡ some (inl s)
      → is_ok s ≡ false
  unfolding collect_batch
  collect_batch-refused options zero i s e = absurd (ground (arith, e))
  collect_batch-refused options (suc count) i s e =
      add_row-refused (get_or pks i []) _
        (collect_batch write pks attrs_list payloads options count (i + 1)) s
        (λ t. prepare_row-refused options (get_elem? attrs_list i) (get_elem? payloads i) t)
        (λ t. collect_batch-refused options count (i + 1) t) e

  -- Nothing is written and an error returned, or all rows are written in one batch.
  pub data Whole (cf : Option BitLsmOptions) (w : World) (result : Status × World) : Type 0 where
    nothing : is_ok result.0 ≡ false → result.1 ≡ w → Whole cf w result
    everything :
        (options : BitLsmOptions) (batch : List (Bytes × Bytes))
        → cf ≡ some options
        → length batch ≡ length pks
        → HoldsRows options 0 batch
        → result ≡ write w batch
        → Whole cf w result

  abbrev result_or : Status × World → Option (Status × World) → Status × World
  result_or r none = r
  result_or r (some result) = result

  write_batch-Whole :
      (options : BitLsmOptions) (w : World) (collected : Option (Status ⊎ List (Bytes × Bytes)))
      (result : Status × World)
      → ((s : Status) → collected ≡ some (inl s) → is_ok s ≡ false)
      → ((batch : List (Bytes × Bytes))
          → collected ≡ some (inr batch)
          → (length batch ≡ length pks) × HoldsRows options 0 batch)
      → write_batch write pks attrs_list payloads w collected ≡ some result
      → Whole (some options) w result
  write_batch-Whole options w none result bad good e = absurd (ground (arith, e))
  write_batch-Whole options w (some (inl s)) result bad good e =
      subst (Whole (some options) w) (ap (result_or result) e) (nothing (bad s refl) refl)
  write_batch-Whole options w (some (inr batch)) result bad good e =
      let (len, rows) = good batch refl in
      subst (Whole (some options) w) (ap (result_or result) e)
        (everything options batch refl len rows refl)

  -- Where PutBatch of fewer than 2^32 keys returns, either its status is an error and nothing was written, or it
  -- wrote, at once, a batch with one entry for each key, in order, each with its key and the encoded value of
  -- attributes of the right number, of which those of fixed-width binary type are null or strings of their
  -- width.
  pub put_batch-Whole :
      (cf : Option BitLsmOptions) (w : World) (result : Status × World)
      → length pks < 2 ^ 32
      → put_batch write pks attrs_list payloads cf w ≡ some result
      → Whole cf w result
  unfolding put_batch
  put_batch-Whole none w result few e =
      subst (Whole none w) (ap (result_or result) e) (nothing refl refl)
  put_batch-Whole (some options) w result few e =
      let count : ℕ = length pks % 2 ^ 32 in
      let whole : length pks % 2 ^ 32 ≡ length pks = omega (arith, few) in
      write_batch-Whole options w (collect_batch write pks attrs_list payloads options count 0)
        result (λ s. collect_batch-refused options count 0 s)
        (λ batch b.
          let (len, rows) =
            collect_batch-HoldsRows options count 0 batch (omega (arith, whole)) b in
          (len ∙ whole, rows))
        e
