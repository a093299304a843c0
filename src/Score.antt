-- ===== src/Score.antt =====
-- src/ca-table.h `ca_offset_score`, and what src/format.cc and src/parse.cc do with one float.
-- A float is its 32-bit pattern (IEEE 754): memcpy moves the four bytes of the pattern, lowest first.
pub mod Double
use cantera_table.Shared.{
  if◌then◌else◌, ltb, ◌-◌, ℕ, ◌+◌, ◌*◌, ◌/◌, ◌%◌, ◌^◌, ◌<◌, ◌≡◌, List, [], ◌∷◌, ◌++◌, Bool, not,
  ◌&&◌, ◌==◌, arith,
}
use cantera_table.Result.{Result, ok, err, overrun}

abbrev pub IsU32 : ℕ → Type 0
IsU32 v = v < 2 ^ 32

pub record OffsetScore : Type 0 where
  pub offset : ℕ
  pub score : ℕ
  pub score_pct5 : ℕ
  pub score_pct25 : ℕ
  pub score_pct75 : ℕ
  pub score_pct95 : ℕ

-- std::numeric_limits<float>::quiet_NaN()
abbrev pub quiet_nan : ℕ
quiet_nan = 0x7fc0_0000

-- ca_offset_score(offset, score)
unfoldable pub offset_score : ℕ → ℕ → OffsetScore
offset_score offset score = record {
  offset = offset;
  score = score;
  score_pct5 = quiet_nan;
  score_pct25 = quiet_nan;
  score_pct75 = quiet_nan;
  score_pct95 = quiet_nan;
}

-- The exponent of an infinity or a NaN is all ones.
pub is_finite : ℕ → Bool
is_finite f = not (f / 2 ^ 23 % 2 ^ 8 == 0xff)

-- The test before a record is written with its percentiles.
unfoldable pub has_bands : OffsetScore → Bool
has_bands v =
    is_finite v.score_pct5
    && (is_finite v.score_pct25 && (is_finite v.score_pct75 && is_finite v.score_pct95))

unfoldable pub encode_float : ℕ → List ℕ
encode_float f = f % 256 ∷ f / 256 % 256 ∷ f / 256 / 256 % 256 ∷ f / 256 / 256 / 256 % 256 ∷ []

-- memcpy(&f, begin, sizeof(float)); begin += sizeof(float);
unfoldable pub read_float : List ℕ → Result (ℕ × List ℕ)
read_float (a ∷ b ∷ c ∷ d ∷ rest) = ok (a + 256 * b + 65536 * c + 16777216 * d, rest)
read_float _ = err overrun

pub read_float-encode :
    (f : ℕ) (rest : List ℕ) → IsU32 f → read_float (encode_float f ++ rest) ≡ ok (f, rest)
unfolding read_float encode_float
read_float-encode f rest h = ground arith

-- Comparison of floats by their patterns: a NaN compares with nothing, the two zeros are equal, and
-- the rest is in the order of this key.
unfoldable pub is_nan : ℕ → Bool
is_nan f = ltb 0x7f80_0000 (f % 2 ^ 31)

unfoldable pub order_key : ℕ → ℕ
order_key f = if f / 2 ^ 31 == 0 then 2 ^ 31 + f % 2 ^ 31 else 2 ^ 31 - f % 2 ^ 31

unfoldable pub float_lt : ℕ → ℕ → Bool
unfolding is_nan order_key
float_lt a b = not (is_nan a) && (not (is_nan b) && ltb (order_key a) (order_key b))

-- a == b
unfoldable pub float_eq : ℕ → ℕ → Bool
unfolding is_nan order_key
float_eq a b = not (is_nan a) && (not (is_nan b) && order_key a == order_key b)

-- The sign bit is flipped.
unfoldable pub float_neg : ℕ → ℕ
float_neg f = (f + 2 ^ 31) % 2 ^ 32

-- -HUGE_VAL, converted to float.
abbrev pub minus_infinity : ℕ
minus_infinity = 0xff80_0000
