-- ===== src/Examples/Axes.antt =====
-- An axis over strings of small letters, and coordinates on it.
use bit_lsm.Base.{◌≡◌, refl, [], ◌∷◌, ◌*◌, ◌^◌}
use bit_lsm.Bytes.{Bytes, compare_bytes}
use bit_lsm.Axis.{
  ByteAxis, fit, window, window_from, count_digits, common_prefix_length, multiply, rel,
}
use bit_lsm.Axis.Exact.{Exact, fit-Exact}

-- "userb" and "userz".
abbrev min_bytes : Bytes
min_bytes = 117 ∷ 115 ∷ 101 ∷ 114 ∷ 98 ∷ []

abbrev max_bytes : Bytes
max_bytes = 117 ∷ 115 ∷ 101 ∷ 114 ∷ 122 ∷ []

abbrev axis : ByteAxis
axis = fit min_bytes max_bytes 97 122 5

thirteen_digits : axis.digits ≡ 13
unfolding fit count_digits
thirteen_digits = refl

-- A string past the prefix is placed at the end.
past_prefix : rel axis (118 ∷ []) ≡ 25 * 26 ^ 12
unfolding fit window window_from count_digits common_prefix_length multiply rel compare_bytes
past_prefix = refl

fit-Exact_example :
    Exact (fit min_bytes max_bytes 97 122 5) (117 ∷ 115 ∷ 101 ∷ 114 ∷ 112 ∷ 120 ∷ [])
fit-Exact_example = fit-Exact min_bytes max_bytes 97 122 5 (117 ∷ 115 ∷ 101 ∷ 114 ∷ 112 ∷ 120 ∷ [])
