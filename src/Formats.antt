-- ===== src/Formats.antt =====
-- The arrays of records in their other formats, and the readers' dispatch by the type byte:
-- `ca_offset_score_parse` and `ca_offset_score_count` of src/parse.cc.
pub mod Oroch
pub mod Flexi
pub mod Delta
pub mod Single
mod Skips
mod Lengths
pub mod Max
pub mod Agreement
pub mod Progress
pub mod Encode
use cantera_table.Shared.{
  ℕ, zero, suc, ◌+◌, List, [], ◌∷◌, ◌++◌, length, true, false, ◌==◌, if◌then◌else◌,
}
use cantera_table.Shared.Words.{u64}
use cantera_table.Result.{Result, ok, err, require, overrun, out_of_rounds, ◌>>=◌}
use cantera_table.Score.{OffsetScore}
use cantera_table.Prediction.{parse_with_prediction, count_with_prediction}
use Oroch.{OrochCodec}
use Flexi.{parse_flexi, count_flexi}
use Delta.{parse_delta, count_delta}
use Single.{SingleKind, parse_single, count_single}

-- ca_offset_score_type, as the readers take it apart.
pub data ArrayType : Type 0 where
  with_prediction flexi delta_float delta_oroch empty unknown : ArrayType
  single : SingleKind → ArrayType

unfoldable pub array_type : ℕ → ArrayType
array_type t =
    if t == 0
    then with_prediction
    else if t == 6
    then flexi
    else if t == 7
    then delta_float
    else if t == 8
    then delta_oroch
    else if t == 9
    then single SingleKind.float
    else if t == 10
    then single (SingleKind.positive 1)
    else if t == 11
    then single (SingleKind.negative 1)
    else if t == 12
    then single (SingleKind.positive 2)
    else if t == 13
    then single (SingleKind.negative 2)
    else if t == 14
    then single (SingleKind.positive 3)
    else if t == 15
    then single (SingleKind.negative 3)
    else if t == 16
    then empty
    else unknown

module _ (c : OrochCodec) where
  -- The switch of ca_offset_score_parse: the records that are appended.
  unfoldable pub parse_array : ArrayType → List ℕ → Result (List OffsetScore × List ℕ)
  parse_array with_prediction input = parse_with_prediction input
  parse_array flexi input = parse_flexi c input
  parse_array delta_float input = parse_delta c false input
  parse_array delta_oroch input = parse_delta c true input
  parse_array (single s) input = do p ← parse_single c s input; ok (p.0 ∷ [], p.1)
  parse_array empty input = ok ([], input)
  parse_array unknown input = err require

  -- The same of ca_offset_score_count. `whole` are the bytes of the value from its front on.
  unfoldable pub count_array : List ℕ → ArrayType → List ℕ → Result (ℕ × List ℕ)
  count_array whole with_prediction input = count_with_prediction input
  count_array whole flexi input = count_flexi whole input
  count_array whole delta_float input = count_delta c false input
  count_array whole delta_oroch input = count_delta c true input
  count_array whole (single s) input = do rest ← count_single c s input; ok (1, rest)
  count_array whole empty input = ok (0, input)
  count_array whole unknown input = err require

  -- The loop over the arrays of one value. Each takes one byte at least, so that `n` rounds are enough
  -- for `n` bytes.
  unfoldable pub parse_loop : ℕ → List ℕ → Result (List OffsetScore)
  parse_loop n [] = ok []
  parse_loop zero (t ∷ input) = err out_of_rounds
  parse_loop (suc n) (t ∷ input) = do
    p ← parse_array (array_type t) input
    later ← parse_loop n p.1
    ok (p.0 ++ later)

  unfoldable pub offset_score_parse : List ℕ → Result (List OffsetScore)
  offset_score_parse input = parse_loop (length input) input

  -- `result` is a size_t. A flexible array of which the scores' size wraps may move the pointer back, so
  -- that the loop need not end; where the records can be parsed, the rounds are enough.
  unfoldable pub count_loop : List ℕ → ℕ → List ℕ → Result ℕ
  count_loop whole n [] = ok 0
  count_loop whole zero (t ∷ input) = err out_of_rounds
  count_loop whole (suc n) (t ∷ input) = do
    p ← count_array whole (array_type t) input
    later ← count_loop whole n p.1
    ok (u64 (p.0 + later))

  unfoldable pub offset_score_count : List ℕ → Result ℕ
  offset_score_count input = count_loop input (length input) input
