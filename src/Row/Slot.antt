-- ===== src/Row/Slot.antt =====
-- A fixed slot of a row, `EncodeFixed` and `DecodeFixed` of src/include/bit_lsm_utils.h: what is stored is read back.
use native.Mathlib.Nat.{one-le-pow, mod-lt, mod-eq_of_lt}
use bit_lsm.Base.{
  ℕ, ◌-◌, ◌*◌, ◌^◌, ◌%◌, ◌<◌, ◌≡◌, refl, sym, ap, ◌∙◌, inl, inr, true, some, [], ◌∷◌, ◌++◌, length,
  take, take-append, arith,
}
use mathlib.Core.Path.{subst}
use bit_lsm.Base.Int.{ℤ, pos, negsuc}
use bit_lsm.Bytes.{Bytes}
use bit_lsm.Memory.{le_bytes, of_le_bytes}
use bit_lsm.Memory.Endian.{length-le_bytes, of_le_bytes-le_bytes}
use bit_lsm.Scalar.{u64_mod, u64_of_i64, i64_of_u64}
use bit_lsm.Schema.{AttrSpec, PhysicalType, valid, valid_width}
use bit_lsm.Row.{Attr, null, int, uint, float, text, encode_fixed, decode_fixed}
use bit_lsm.Row.Decoded.{IsIntWidth, valid-IsIntWidth, extended, sign_extend_value}

-- Two's complement of so many bytes can hold the number.
abbrev pub FitsSigned : ℕ → ℤ → Type 0
FitsSigned width (pos n) = n < 2 ^ (width * 8 - 1)
FitsSigned width (negsuc n) = n < 2 ^ (width * 8 - 1)

-- The values that a slot of the type and width can hold; of the floating types only the double.
abbrev pub FitsSlot : PhysicalType → ℕ → Attr → Type 0
FitsSlot PhysicalType.int width (int x) = FitsSigned width x
FitsSlot PhysicalType.uint width (uint x) = x < 256 ^ width
FitsSlot PhysicalType.float width (float d) = (width ≡ 8) × (d < u64_mod)
FitsSlot PhysicalType.binary width (text s) = length s ≡ width
FitsSlot _ width v = ⊥

-- Reading back the bytes of a number, whatever follows them.
of_le_bytes-take :
    (width x : ℕ) (rest : Bytes)
    → of_le_bytes (take width (le_bytes width x ++ rest)) ≡ x % 256 ^ width
of_le_bytes-take width x rest =
    let cut : take width (le_bytes width x ++ rest) ≡ le_bytes width x =
      subst (λ n. take n (le_bytes width x ++ rest) ≡ le_bytes width x) (length-le_bytes width x)
        (take-append (le_bytes width x) rest) in
    ap of_le_bytes cut ∙ of_le_bytes-le_bytes width x

signed_one : (x : ℤ) → FitsSigned 1 x → i64_of_u64 (extended 1 (u64_of_i64 x % 256 ^ 1)) ≡ x
signed_one (pos n) h = ground arith
signed_one (negsuc n) h = ground arith

signed_two : (x : ℤ) → FitsSigned 2 x → i64_of_u64 (extended 2 (u64_of_i64 x % 256 ^ 2)) ≡ x
signed_two (pos n) h = ground arith
signed_two (negsuc n) h = ground arith

signed_four : (x : ℤ) → FitsSigned 4 x → i64_of_u64 (extended 4 (u64_of_i64 x % 256 ^ 4)) ≡ x
signed_four (pos n) h = ground arith
signed_four (negsuc n) h = ground arith

signed_eight : (x : ℤ) → FitsSigned 8 x → i64_of_u64 (extended 8 (u64_of_i64 x % 256 ^ 8)) ≡ x
signed_eight (pos n) h = ground arith
signed_eight (negsuc n) h = ground arith

signed-extended :
    (width : ℕ) (x : ℤ)
    → IsIntWidth width
    → FitsSigned width x
    → i64_of_u64 (extended width (u64_of_i64 x % 256 ^ width)) ≡ x
signed-extended width x (inl e) h = rw e (signed_one x (rw e at h))
signed-extended width x (inr (inl e)) h = rw e (signed_two x (rw e at h))
signed-extended width x (inr (inr (inl e))) h = rw e (signed_four x (rw e at h))
signed-extended width x (inr (inr (inr e))) h = rw e (signed_eight x (rw e at h))

-- What is stored in the slot, and read back whatever bytes follow.
pub record SlotKept (spec : AttrSpec) (v : Attr) (rest : Bytes) : Type 0 where
  pub bytes : Bytes
  pub encodes : encode_fixed v spec ≡ some bytes
  pub sized : length bytes ≡ spec.width
  pub decodes : decode_fixed (bytes ++ rest) spec ≡ v

int-SlotKept :
    (spec : AttrSpec) (x : ℤ) (rest : Bytes)
    → spec.physical_type ≡ PhysicalType.int
    → IsIntWidth spec.width
    → FitsSigned spec.width x
    → SlotKept spec (int x) rest
unfolding encode_fixed decode_fixed
int-SlotKept spec x rest e w fits =
    let u : ℕ = u64_of_i64 x in
    let back = of_le_bytes-take spec.width u rest in
    let extends =
      sign_extend_value spec.width (u % 256 ^ spec.width) w
        (mod-lt u (one-le-pow spec.width 256 (omega arith))) in
    record {
      bytes = le_bytes spec.width u;
      encodes = rw e refl;
      sized = length-le_bytes spec.width u;
      decodes = rw (e, back, extends) (ap int (signed-extended spec.width x w fits));
    }

uint-SlotKept :
    (spec : AttrSpec) (x : ℕ) (rest : Bytes)
    → spec.physical_type ≡ PhysicalType.uint
    → x < 256 ^ spec.width
    → SlotKept spec (uint x) rest
unfolding encode_fixed decode_fixed
uint-SlotKept spec x rest e fits =
    let small : x % 256 ^ spec.width ≡ x = mod-eq_of_lt fits in
    record {
      bytes = le_bytes spec.width x;
      encodes = rw e refl;
      sized = length-le_bytes spec.width x;
      decodes = rw (e, of_le_bytes-take spec.width x rest) (ap uint small);
    }

double-SlotKept :
    (spec : AttrSpec) (d : ℕ) (rest : Bytes)
    → spec.physical_type ≡ PhysicalType.float
    → spec.width ≡ 8
    → d < u64_mod
    → SlotKept spec (float d) rest
unfolding encode_fixed decode_fixed
double-SlotKept spec d rest e w fits =
    let small : d % 256 ^ 8 ≡ d = omega (arith, fits) in
    record {
      bytes = le_bytes 8 d;
      encodes = rw (e, w) refl;
      sized = length-le_bytes 8 d ∙ sym w;
      decodes = rw (e, w) (ap float (of_le_bytes-take 8 d rest ∙ small));
    }

take_all : (s : Bytes) → take (length s) s ≡ s
take_all [] = refl
take_all (b ∷ s) = ap (λ t. b ∷ t) (take_all s)

binary-SlotKept :
    (spec : AttrSpec) (s rest : Bytes)
    → spec.physical_type ≡ PhysicalType.binary
    → length s ≡ spec.width
    → SlotKept spec (text s) rest
unfolding encode_fixed decode_fixed
binary-SlotKept spec s rest e w =
    let all : take spec.width s ≡ s = subst (λ n. take n s ≡ s) w (take_all s) in
    let back : take spec.width (s ++ rest) ≡ s =
      subst (λ n. take n (s ++ rest) ≡ s) w (take-append s rest) in
    record { bytes = s; encodes = rw e (ap some all); sized = w; decodes = rw e (ap text back) }

slot_by_type :
    (spec : AttrSpec) (v : Attr) (rest : Bytes) (t : PhysicalType)
    → spec.physical_type ≡ t
    → valid_width t spec.width ≡ true
    → FitsSlot t spec.width v
    → SlotKept spec v rest
slot_by_type spec (int x) rest PhysicalType.int e w fits =
    int-SlotKept spec x rest e (valid-IsIntWidth spec.width w) fits
slot_by_type spec (uint x) rest PhysicalType.uint e w fits = uint-SlotKept spec x rest e fits
slot_by_type spec (float d) rest PhysicalType.float e w fits =
    double-SlotKept spec d rest e fits.0 fits.1
slot_by_type spec (text s) rest PhysicalType.binary e w fits = binary-SlotKept spec s rest e fits
slot_by_type spec null rest PhysicalType.int e w fits = absurd fits
slot_by_type spec (uint x) rest PhysicalType.int e w fits = absurd fits
slot_by_type spec (float d) rest PhysicalType.int e w fits = absurd fits
slot_by_type spec (text s) rest PhysicalType.int e w fits = absurd fits
slot_by_type spec null rest PhysicalType.uint e w fits = absurd fits
slot_by_type spec (int x) rest PhysicalType.uint e w fits = absurd fits
slot_by_type spec (float d) rest PhysicalType.uint e w fits = absurd fits
slot_by_type spec (text s) rest PhysicalType.uint e w fits = absurd fits
slot_by_type spec null rest PhysicalType.float e w fits = absurd fits
slot_by_type spec (int x) rest PhysicalType.float e w fits = absurd fits
slot_by_type spec (uint x) rest PhysicalType.float e w fits = absurd fits
slot_by_type spec (text s) rest PhysicalType.float e w fits = absurd fits
slot_by_type spec null rest PhysicalType.binary e w fits = absurd fits
slot_by_type spec (int x) rest PhysicalType.binary e w fits = absurd fits
slot_by_type spec (uint x) rest PhysicalType.binary e w fits = absurd fits
slot_by_type spec (float d) rest PhysicalType.binary e w fits = absurd fits
slot_by_type spec v rest PhysicalType.var_binary e w fits = absurd fits

-- A value that a slot of an accepted schema can hold, an integer in the two's complement or unsigned range of
-- the width, a double in eight bytes or a string of the width, is encoded in as many bytes as the slot is wide
-- and decoded from them unchanged, whatever bytes follow.
pub decode_fixed-encode_fixed :
    (spec : AttrSpec) (v : Attr) (rest : Bytes)
    → valid spec ≡ true
    → FitsSlot spec.physical_type spec.width v
    → SlotKept spec v rest
decode_fixed-encode_fixed spec v rest accepted fits =
    slot_by_type spec v rest spec.physical_type refl accepted fits
