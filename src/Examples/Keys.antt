-- ===== src/Examples/Keys.antt =====
-- The theorems on keys, intervals and decoded rows at concrete values.
use bit_lsm.Base.{◌≡◌, refl, true, [], ◌∷◌, ltb, ◌==◌, if◌then◌else◌, compare, arith, ◌&&◌}
use bit_lsm.Base.Int.{ltb_ℤ, pos, negsuc}
use bit_lsm.Bytes.{compare_bytes}
use bit_lsm.Scalar.{f64_lt, f64_eq}
use bit_lsm.Query.{less}
use bit_lsm.Okey.{i64_to_okey, okey_to_i64, f64_to_okey, okey_to_f64, okey_to_bytes}
use bit_lsm.Okey.Numbers.{
  i64_to_okey_mono, okey_to_i64-i64_to_okey, f64_to_okey_mono, okey_to_f64-f64_to_okey,
}
use bit_lsm.Okey.Order.{compare_bytes-okey_to_bytes}
use bit_lsm.Interval.{ByteInterval, everything, intersect, from_op}
use bit_lsm.Interval.Laws.{contains, op_holds, contains-from_op, contains-intersect}

i64_to_okey_mono_example :
    ltb (i64_to_okey (negsuc 4)) (i64_to_okey (pos 3)) ≡ ltb_ℤ (negsuc 4) (pos 3)
i64_to_okey_mono_example = i64_to_okey_mono (negsuc 4) (pos 3) (omega arith) (omega arith)

okey_to_i64_example : okey_to_i64 (i64_to_okey (negsuc 41)) ≡ negsuc 41
okey_to_i64_example = okey_to_i64-i64_to_okey (negsuc 41) (omega arith)

-- -2.5 and 1.0.
f64_to_okey_mono_example :
    (ltb (f64_to_okey 0xc004_0000_0000_0000) (f64_to_okey 0x3ff0_0000_0000_0000)
      ≡ f64_lt 0xc004_0000_0000_0000 0x3ff0_0000_0000_0000)
    × ((f64_to_okey 0xc004_0000_0000_0000 == f64_to_okey 0x3ff0_0000_0000_0000)
        ≡ f64_eq 0xc004_0000_0000_0000 0x3ff0_0000_0000_0000)
f64_to_okey_mono_example =
    f64_to_okey_mono 0xc004_0000_0000_0000 0x3ff0_0000_0000_0000 (omega arith) (omega arith) refl
      refl

okey_to_f64_example :
    okey_to_f64 (f64_to_okey 0xc004_0000_0000_0000)
    ≡ (if 0xc004_0000_0000_0000 == 0x8000_0000_0000_0000 then 0 else 0xc004_0000_0000_0000)
okey_to_f64_example = okey_to_f64-f64_to_okey 0xc004_0000_0000_0000 (omega arith)

compare_bytes-okey_to_bytes_example :
    compare_bytes (okey_to_bytes 255) (okey_to_bytes 256) ≡ compare 255 256
compare_bytes-okey_to_bytes_example =
    compare_bytes-okey_to_bytes 255 256 (omega arith) (omega arith)

abbrev half_line : ByteInterval
half_line = record everything { lo = 98 ∷ []; lo_open = true }

contains-from_op_example :
    contains (from_op less (98 ∷ [])) (97 ∷ 99 ∷ [])
    ≡ op_holds less (compare_bytes (97 ∷ 99 ∷ []) (98 ∷ []))
contains-from_op_example = contains-from_op less (98 ∷ []) (97 ∷ 99 ∷ [])

contains-intersect_example :
    contains (intersect half_line (from_op less (100 ∷ []))) (99 ∷ [])
    ≡ (contains half_line (99 ∷ []) && contains (from_op less (100 ∷ [])) (99 ∷ []))
contains-intersect_example = contains-intersect half_line (from_op less (100 ∷ [])) (99 ∷ [])
