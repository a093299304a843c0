-- ===== src/Formats/Single.antt =====
-- Arrays of one record: the cases CA_OFFSET_SCORE_SINGLE_* of the readers in src/parse.cc.
use cantera_table.Shared.{ℕ, zero, suc, ◌+◌, ◌-◌, ◌*◌, ◌^◌, List, [], ◌∷◌}
use cantera_table.Result.{Result, ok, err, overrun, ◌>>=◌}
use cantera_table.Score.{OffsetScore, offset_score, read_float}
use cantera_table.Prediction.{skip}
use cantera_table.Formats.Oroch.{OrochCodec}

-- How the score is stored: as a float, or as the given number of bytes of a number at least 0, or of
-- the bitwise inversion of a negative one.
pub data SingleKind : Type 0 where
  float : SingleKind
  positive negative : ℕ → SingleKind

-- uscore |= *begin++ << ...: the lowest byte first.
unfoldable pub read_little : ℕ → List ℕ → Result (ℕ × List ℕ)
read_little zero input = ok (0, input)
read_little (suc n) [] = err overrun
read_little (suc n) (b ∷ rest) = do p ← read_little n rest; ok (b + 256 * p.0, p.1)

module _ (c : OrochCodec) where
  -- static_cast<int32_t>(~uscore) is -1 - uscore.
  unfoldable pub single_score : SingleKind → List ℕ → Result (ℕ × List ℕ)
  single_score SingleKind.float input = read_float input
  single_score (SingleKind.positive n) input = do p ← read_little n input; ok (c.to_float p.0, p.1)
  single_score (SingleKind.negative n) input = do
    p ← read_little n input
    ok (c.to_float (2 ^ 64 - 1 - p.0), p.1)

  unfoldable pub parse_single : SingleKind → List ℕ → Result (OffsetScore × List ℕ)
  parse_single s input = do
    o ← c.varint_decode input
    p ← single_score s o.1
    ok (offset_score o.0 p.0, p.1)

  unfoldable pub skip_single : SingleKind → List ℕ → Result (List ℕ)
  skip_single SingleKind.float input = skip 4 input
  skip_single (SingleKind.positive n) input = skip n input
  skip_single (SingleKind.negative n) input = skip n input

  unfoldable pub count_single : SingleKind → List ℕ → Result (List ℕ)
  count_single s input = do o ← c.varint_decode input; skip_single s o.1
