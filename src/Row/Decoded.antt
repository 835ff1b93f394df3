-- ===== src/Row/Decoded.antt =====
-- Types and ranges of what `DecodeAttr` of src/include/bit_lsm_utils.h yields.
use bit_lsm.Base.{
  ℕ, zero, suc, ◌+◌, ◌*◌, ◌^◌, ◌<◌, ◌≡◌, refl, Bool, true, false, List, [], ◌∷◌, get_or, take, drop,
  map, arith, Bool-cases, inl, inr, ltb, if◌then◌else◌, ◌⊎◌, ◌-◌, ◌%◌, ◌==◌, none,
}
use native.Mathlib.Nat.{pow-suc, one-le-pow}
use bit_lsm.Base.Bits.{bit_or_high, bit_and_top}
use bit_lsm.Bytes.{Bytes}
use bit_lsm.Memory.{of_le_bytes}
use bit_lsm.Memory.Endian.{AllBytes}
use bit_lsm.Scalar.{u64_mod, IsI64, i64_of_u64, f64_of_f32, f64_widened, normalize}
use bit_lsm.Schema.{AttrSpec, BitLsmOptions, PhysicalType, is_fixed, spec_at, valid, valid_width}
use bit_lsm.Row.{
  Attr, null, int, uint, float, text, ValueLayout, value_layout, sign_extend, decode_fixed,
  decode_variable, decode_attr, is_marked_null,
}

-- The alternative of a value is the physical type's, or the value is null.
abbrev pub attr_has_type : PhysicalType → Attr → Bool
attr_has_type _ null = true
attr_has_type PhysicalType.int (int x) = true
attr_has_type PhysicalType.uint (uint x) = true
attr_has_type PhysicalType.float (float d) = true
attr_has_type PhysicalType.binary (text s) = true
attr_has_type PhysicalType.var_binary (text s) = true
attr_has_type _ _ = false

-- The ranges of `int64_t`, `uint64_t` and the bits of a `double`.
abbrev pub InRange : Attr → Type 0
InRange null = Unit {0}
InRange (int x) = IsI64 x
InRange (uint x) = x < u64_mod
InRange (float d) = d < u64_mod
InRange (text s) = Unit {0}

decode_fixed-type :
    (src : Bytes) (s : AttrSpec) → attr_has_type s.physical_type (decode_fixed src s) ≡ true
unfolding decode_fixed
decode_fixed-type src s = ground arith

decode_variable-type :
    (layout : ValueLayout) (base : Bytes) (rank : ℕ)
    → attr_has_type PhysicalType.var_binary (decode_variable layout base rank) ≡ true
unfolding decode_variable
decode_variable-type layout base rank = refl

get_or-map-is_fixed :
    (specs : List AttrSpec) (i : ℕ)
    → get_or (map is_fixed specs) i false ≡ is_fixed (spec_at specs i)
get_or-map-is_fixed [] i = refl
get_or-map-is_fixed (s ∷ specs) zero = refl
get_or-map-is_fixed (s ∷ specs) (suc i) = get_or-map-is_fixed specs i

not-fixed : (s : AttrSpec) → is_fixed s ≡ false → s.physical_type ≡ PhysicalType.var_binary
not-fixed s h = ground arith

pub is_fixed-value_layout :
    (o : BitLsmOptions) (i : ℕ)
    → get_or (value_layout o).is_fixed i false ≡ is_fixed (spec_at o.attr_specs i)
unfolding value_layout
is_fixed-value_layout o i = get_or-map-is_fixed o.attr_specs i

pub specs-value_layout : (o : BitLsmOptions) → (value_layout o).specs ≡ o.attr_specs
unfolding value_layout
specs-value_layout o = refl

module _ (o : BitLsmOptions) (base : Bytes) (i : ℕ) where
  -- Whatever the bytes of a row, a decoded attribute is null or the alternative of the attribute's physical
  -- type.
  pub decode_attr-type :
      attr_has_type (spec_at o.attr_specs i).physical_type (decode_attr (value_layout o) base i)
      ≡ true
  unfolding decode_attr
  decode_attr-type = elim (Bool-cases (is_fixed (spec_at o.attr_specs i))) [
    | inl f ↦
        rw (is_fixed-value_layout o i, f, specs-value_layout o)
          (ground (
            arith,
            decode_fixed-type (drop (get_or (value_layout o).slot i 0) base)
                (spec_at o.attr_specs i),
          ))
    | inr v ↦
        rw (is_fixed-value_layout o i, v, not-fixed (spec_at o.attr_specs i) v)
          (ground
            (arith, decode_variable-type (value_layout o) base (get_or (value_layout o).slot i 0)))
  ]

-- An integer of at most eight bytes fits 64 bits.
AllBytes-take : (n : ℕ) (bs : Bytes) → AllBytes bs → AllBytes (take n bs)
AllBytes-take zero bs h = tt
AllBytes-take (suc n) [] h = tt
AllBytes-take (suc n) (b ∷ bs) h = (h.0, AllBytes-take n bs h.1)

AllBytes-drop : (n : ℕ) (bs : Bytes) → AllBytes bs → AllBytes (drop n bs)
AllBytes-drop zero bs h = h
AllBytes-drop (suc n) [] h = tt
AllBytes-drop (suc n) (b ∷ bs) h = AllBytes-drop n bs h.1

of_le_bytes-take-lt : (n : ℕ) (bs : Bytes) → AllBytes bs → of_le_bytes (take n bs) < 256 ^ n
unfolding of_le_bytes
of_le_bytes-take-lt zero bs h = omega arith
of_le_bytes-take-lt (suc n) [] h = omega (arith, one-le-pow (suc n) 256)
of_le_bytes-take-lt (suc n) (b ∷ bs) h = omega (arith, of_le_bytes-take-lt n bs h.1, pow-suc 256 n)

abbrev pub IsIntWidth : ℕ → Type 0
IsIntWidth w = (w ≡ 1) ⊎ ((w ≡ 2) ⊎ ((w ≡ 4) ⊎ (w ≡ 8)))

pub valid-IsIntWidth : (w : ℕ) → valid_width PhysicalType.int w ≡ true → IsIntWidth w
valid-IsIntWidth w h = ground arith

-- Sign extension without bit operations.
abbrev pub extended : ℕ → ℕ → ℕ
extended width raw =
    if ltb raw (2 ^ (width * 8 - 1)) then raw else raw + (u64_mod - 2 ^ (width * 8))

sign_extend_one : (raw : ℕ) → raw < 256 → sign_extend 1 raw ≡ extended 1 raw
unfolding sign_extend
sign_extend_one raw h = ground (arith, bit_and_top 7 raw h, bit_or_high 8 raw (2 ^ 56 - 1) h)

sign_extend_two : (raw : ℕ) → raw < 256 ^ 2 → sign_extend 2 raw ≡ extended 2 raw
unfolding sign_extend
sign_extend_two raw h = ground (arith, bit_and_top 15 raw h, bit_or_high 16 raw (2 ^ 48 - 1) h)

sign_extend_four : (raw : ℕ) → raw < 256 ^ 4 → sign_extend 4 raw ≡ extended 4 raw
unfolding sign_extend
sign_extend_four raw h = ground (arith, bit_and_top 31 raw h, bit_or_high 32 raw (2 ^ 32 - 1) h)

sign_extend_eight : (raw : ℕ) → raw < 256 ^ 8 → sign_extend 8 raw ≡ extended 8 raw
unfolding sign_extend
sign_extend_eight raw h = ground arith

pub sign_extend_value :
    (width raw : ℕ)
    → IsIntWidth width
    → raw < 256 ^ width
    → sign_extend width raw ≡ extended width raw
sign_extend_value width raw (inl e) h = rw e (sign_extend_one raw (rw e at h))
sign_extend_value width raw (inr (inl e)) h = rw e (sign_extend_two raw (rw e at h))
sign_extend_value width raw (inr (inr (inl e))) h = rw e (sign_extend_four raw (rw e at h))
sign_extend_value width raw (inr (inr (inr e))) h = rw e (sign_extend_eight raw (rw e at h))

extended-lt : (width raw : ℕ) → IsIntWidth width → raw < 256 ^ width → extended width raw < u64_mod
extended-lt width raw (inl e) h = rw e (let k : raw < 256 ^ 1 = rw e at h in ground arith)
extended-lt width raw (inr (inl e)) h = rw e (let k : raw < 256 ^ 2 = rw e at h in ground arith)
extended-lt width raw (inr (inr (inl e))) h =
    rw e (let k : raw < 256 ^ 4 = rw e at h in ground arith)
extended-lt width raw (inr (inr (inr e))) h =
    rw e (let k : raw < 256 ^ 8 = rw e at h in ground arith)

normalize-lt :
    (fuel exponent fraction : ℕ)
    → exponent < 1000
    → fraction < 2 ^ 24
    → normalize fuel exponent fraction < 2 ^ 63
unfolding normalize
normalize-lt zero exponent fraction h k = omega arith
normalize-lt (suc fuel) exponent fraction h k =
    ground (arith, normalize-lt fuel (exponent - 1) (fraction * 2))

f64_of_f32-lt : (f : ℕ) → f < 2 ^ 32 → f64_of_f32 f < u64_mod
unfolding f64_of_f32 f64_widened
f64_of_f32-lt f h = ground (arith, normalize-lt 23 897 (f % 2 ^ 23))

i64_of_u64-IsI64 : (u : ℕ) → u < u64_mod → IsI64 (i64_of_u64 u)
i64_of_u64-IsI64 u h = ground arith

decode_int-InRange :
    (src : Bytes) (w : ℕ)
    → AllBytes src
    → IsIntWidth w
    → IsI64 (i64_of_u64 (sign_extend w (of_le_bytes (take w src))))
decode_int-InRange src w h k =
    let raw : ℕ = of_le_bytes (take w src) in
    i64_of_u64-IsI64 (sign_extend w raw) (
      rw (sign_extend_value w raw k (of_le_bytes-take-lt w src h))
        (extended-lt w raw k (of_le_bytes-take-lt w src h)))

u64-of_le_bytes :
    (src : Bytes) (w : ℕ) → AllBytes src → IsIntWidth w → of_le_bytes (take w src) < u64_mod
u64-of_le_bytes src w h (inl e) = rw e (omega (arith, of_le_bytes-take-lt 1 src h))
u64-of_le_bytes src w h (inr (inl e)) = rw e (omega (arith, of_le_bytes-take-lt 2 src h))
u64-of_le_bytes src w h (inr (inr (inl e))) = rw e (omega (arith, of_le_bytes-take-lt 4 src h))
u64-of_le_bytes src w h (inr (inr (inr e))) = rw e (omega (arith, of_le_bytes-take-lt 8 src h))

decode_float-lt :
    (src : Bytes) (w : ℕ)
    → AllBytes src
    → (if w == 8 then of_le_bytes (take 8 src) else f64_of_f32 (of_le_bytes (take 4 src))) < u64_mod
decode_float-lt src w h = ground (
  arith,
  of_le_bytes-take-lt 8 src h,
  f64_of_f32-lt (of_le_bytes (take 4 src)) (omega (arith, of_le_bytes-take-lt 4 src h)),
)

decode_fixed-InRange :
    (src : Bytes) (s : AttrSpec) (t : PhysicalType)
    → s.physical_type ≡ t
    → AllBytes src
    → valid s ≡ true
    → InRange (decode_fixed src s)
unfolding decode_fixed
decode_fixed-InRange src s PhysicalType.float e h v =
    rw (e, decode_fixed) (decode_float-lt src s.width h)
decode_fixed-InRange src s PhysicalType.int e h v =
    rw (e, decode_fixed) (decode_int-InRange src s.width h (valid-IsIntWidth s.width (rw e at v)))
decode_fixed-InRange src s PhysicalType.uint e h v =
    rw (e, decode_fixed) (u64-of_le_bytes src s.width h (valid-IsIntWidth s.width (rw e at v)))
decode_fixed-InRange src s PhysicalType.binary e h v = rw (e, decode_fixed) tt
decode_fixed-InRange src s PhysicalType.var_binary e h v = rw (e, decode_fixed) tt

-- The checks that an accepted schema passes.
abbrev pub AllValid : List AttrSpec → Type 0
AllValid [] = Unit {0}
AllValid (s ∷ specs) = (valid s ≡ true) × AllValid specs

pub spec_at-valid :
    (specs : List AttrSpec) (i : ℕ) → AllValid specs → valid (spec_at specs i) ≡ true
spec_at-valid [] i h = refl
spec_at-valid (s ∷ specs) zero h = h.0
spec_at-valid (s ∷ specs) (suc i) h = spec_at-valid specs i h.1

-- Of a row of bytes over an accepted schema every decoded attribute is in the range of its C++ type.
pub decode_attr-InRange :
    (o : BitLsmOptions) (base : Bytes) (i : ℕ)
    → AllBytes base
    → AllValid o.attr_specs
    → InRange (decode_attr (value_layout o) base i)
unfolding decode_attr decode_variable
decode_attr-InRange o base i h v =
    let src : Bytes = drop (get_or (value_layout o).slot i 0) base in
    let spec : AttrSpec = spec_at o.attr_specs i in
    let fixed =
      decode_fixed-InRange src spec spec.physical_type refl
        (AllBytes-drop (get_or (value_layout o).slot i 0) base h)
        (spec_at-valid o.attr_specs i v) in
    elim (Bool-cases (is_marked_null base (get_or (value_layout o).null_bit i none))) [
      | inl n ↦ rw n tt
      | inr n ↦ elim (Bool-cases (is_fixed (spec_at o.attr_specs i))) [
        | inl f ↦ rw (n, is_fixed-value_layout o i, f, specs-value_layout o) fixed
        | inr f ↦ rw (n, is_fixed-value_layout o i, f) tt
      ]
    ]
