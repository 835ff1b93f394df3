-- ===== src/Examples/Scalars.antt =====
-- Runs of the scalar conversions and of the keys.
use bit_lsm.Base.{◌≡◌, refl, [], ◌∷◌}
use bit_lsm.Base.Int.{negsuc}
use bit_lsm.Scalar.{f32_of_f64, f64_of_f32, f32_magnitude, f64_widened, normalize}
use bit_lsm.Memory.{le_bytes, of_le_bytes, bswap64}
use bit_lsm.Okey.{i64_to_okey, f64_to_okey, okey_to_bytes}

-- 1.0, -2.5, the largest finite float, 0.1 rounded, a subnormal float, and overflow.
narrowing :
    (f32_of_f64 0x3ff0_0000_0000_0000 ≡ 0x3f80_0000)
    × (f32_of_f64 0xc004_0000_0000_0000 ≡ 0xc020_0000)
    × (f32_of_f64 0x3fb9_9999_9999_999a ≡ 0x3dcc_cccd)
    × (f32_of_f64 0x36a0_0000_0000_0000 ≡ 1)
    × (f32_of_f64 0x47f0_0000_0000_0000 ≡ 0x7f80_0000)
unfolding f32_of_f64 f32_magnitude
narrowing = (refl, refl, refl, refl, refl)

widening :
    (f64_of_f32 0x3dcc_cccd ≡ 0x3fb9_9999_a000_0000)
    × (f64_of_f32 1 ≡ 0x36a0_0000_0000_0000)
    × (f64_of_f32 0x0040_0000 ≡ 0x3800_0000_0000_0000)
    × (f64_of_f32 0xff80_0000 ≡ 0xfff0_0000_0000_0000)
unfolding f64_of_f32 f64_widened normalize
widening = (refl, refl, refl, refl)

minus_one_key : i64_to_okey (negsuc 0) ≡ 0x7fff_ffff_ffff_ffff
unfolding i64_to_okey
minus_one_key = refl

minus_zero_key : f64_to_okey 0x8000_0000_0000_0000 ≡ f64_to_okey 0
unfolding f64_to_okey
minus_zero_key = refl

key_bytes : okey_to_bytes 0x0102_0304_0506_0708 ≡ 1 ∷ 2 ∷ 3 ∷ 4 ∷ 5 ∷ 6 ∷ 7 ∷ 8 ∷ []
unfolding okey_to_bytes le_bytes of_le_bytes bswap64
key_bytes = refl
