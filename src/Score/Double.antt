-- ===== src/Score/Double.antt =====
-- Doubles by their 64-bit patterns, as the scalars that scores are compared with. A float is
-- converted exactly before the comparison.
use cantera_table.Shared.{
  ℕ, zero, suc, ◌+◌, ◌-◌, ◌*◌, ◌/◌, ◌%◌, ◌^◌, Bool, not, ◌&&◌, ltb, leb, ◌==◌, if◌then◌else◌,
}

-- The number of the highest bit that is set.
unfoldable pub top_bit : ℕ → ℕ → ℕ
top_bit zero m = 0
top_bit (suc fuel) m = let higher = top_bit fuel (m / 2) + 1 in if ltb m 2 then 0 else higher

-- A float as a double: zeros, subnormals, infinities and NaNs, and the normal numbers.
unfoldable pub widen : ℕ → ℕ
unfolding top_bit
widen f =
    let sign = f / 2 ^ 31 * 2 ^ 63 in
    let exponent = f / 2 ^ 23 % 2 ^ 8 in
    let fraction = f % 2 ^ 23 in
    let top = top_bit 23 fraction in
    if exponent == 0xff
    then sign + 2047 * 2 ^ 52 + fraction * 2 ^ 29
    else if not (exponent == 0)
    then sign + (exponent + 896) * 2 ^ 52 + fraction * 2 ^ 29
    else if fraction == 0
    then sign
    else sign + (top + 874) * 2 ^ 52 + (fraction - 2 ^ top) * 2 ^ (52 - top)

unfoldable pub is_nan : ℕ → Bool
is_nan d = ltb 0x7ff0_0000_0000_0000 (d % 2 ^ 63)

unfoldable pub order_key : ℕ → ℕ
order_key d = if d / 2 ^ 63 == 0 then 2 ^ 63 + d % 2 ^ 63 else 2 ^ 63 - d % 2 ^ 63

unfoldable pub double_lt : ℕ → ℕ → Bool
unfolding is_nan order_key
double_lt a b = not (is_nan a) && (not (is_nan b) && ltb (order_key a) (order_key b))

unfoldable pub double_le : ℕ → ℕ → Bool
unfolding is_nan order_key
double_le a b = not (is_nan a) && (not (is_nan b) && leb (order_key a) (order_key b))

unfoldable pub double_eq : ℕ → ℕ → Bool
unfolding is_nan order_key
double_eq a b = not (is_nan a) && (not (is_nan b) && order_key a == order_key b)
