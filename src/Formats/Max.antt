-- ===== src/Formats/Max.antt =====
-- `ca_offset_score_max_offset` and `GetMaxOffsetOroch` of src/parse.cc.
pub mod Laws
pub mod Progress
use Prim.Native.Nat.{bit_and, max}
use mathlib.Core.List.{map}
use cantera_table.Shared.{
  ℕ, zero, suc, ◌+◌, ◌-◌, ◌*◌, ◌≡◌, ◌∙◌, refl, ap, inl, inr, List, [], ◌∷◌, Bool, true, false, not,
  ◌&&◌, ltb, ◌==◌, if◌then◌else◌, length, last_or, Bool-cases, arith,
}
use cantera_table.Shared.Words.{u64}
use cantera_table.Result.{Result, ok, err, require, out_of_rounds, Result-cases, ◌>>=◌}
use cantera_table.Integer.{parse_integer}
use cantera_table.Score.{OffsetScore}
use cantera_table.Prediction.{skip, max_offset_with_prediction}
use cantera_table.Formats.Oroch.{OrochCodec}
use cantera_table.Formats.Flexi.{
  read_steps, read_flags, read_min_score, stored_scores, score_width, skip_stored, running,
}
use cantera_table.Formats.Delta.{skip_delta_scores}
use cantera_table.Formats.Single.{SingleKind, skip_single}
use cantera_table.Formats.{
  ArrayType, with_prediction, flexi, delta_float, delta_oroch, single, empty, unknown, array_type,
}

-- for (...) offset += offset_delta[i - 1];
unfoldable pub sum_from : ℕ → List ℕ → ℕ
sum_from offset [] = offset
sum_from offset (d ∷ ds) = sum_from (u64 (offset + d)) ds

-- The steps of the flexible format, added up; `n` is count - 1.
unfoldable pub sum_steps : ℕ → ℕ → ℕ → List ℕ → Result (ℕ × List ℕ)
sum_steps step_gcd n offset input =
    if not (step_gcd == 0) && ltb 0 n
    then (do
      a ← parse_integer input
      b ← parse_integer a.1
      let max_step = u64 (b.0 + a.0)
      if a.0 == max_step then ok (u64 (offset + step_gcd * a.0 * n), b.1) else (do
        s ← read_steps a.0 max_step n b.1
        ok (sum_from offset (map (λ x. u64 (step_gcd * u64 (a.0 + x))) s.0), s.1)))
    else ok (offset, input)

-- KJ_REQUIRE(begin == end, begin, end)
abbrev pub at_end : ℕ → List ℕ → Result (ℕ × List ℕ)
at_end offset [] = ok (offset, [])
at_end offset (b ∷ rest) = err require

-- The case CA_OFFSET_SCORE_FLEXI.
unfoldable pub max_flexi : List ℕ → List ℕ → Result (ℕ × List ℕ)
max_flexi whole input = do
  n ← parse_integer input
  if n.0 == 0 then ok (0, n.1) else (do
    o ← parse_integer n.1
    g ← parse_integer o.1
    d ← sum_steps g.0 (n.0 - 1) o.0 g.1
    f ← read_flags d.1
    m ← read_min_score f.0 f.1
    rest ← skip_stored whole (stored_scores f.0 n.0) (score_width (bit_and f.0 3)) m.1
    at_end d.0 rest)

module _ (c : OrochCodec) where
  unfoldable pub max_delta : Bool → List ℕ → Result (ℕ × List ℕ)
  max_delta integer_score input = do
    n ← c.varint_decode input
    if n.0 == 0 then (elim n.1 [ [] ↦ ok (0, []) | _ ∷ _ ↦ err require ]) else (do
      o ← c.varint_decode n.1
      d ← c.unsigned_decode (n.0 - 1) o.1
      rest ← skip_delta_scores c integer_score n.0 d.1
      ok (sum_from o.0 d.0, rest))

  unfoldable pub max_single : SingleKind → List ℕ → Result (ℕ × List ℕ)
  max_single s input = do o ← c.varint_decode input; rest ← skip_single c s o.1; ok (o.0, rest)

  -- The switch: the array's maximum, which is 0 where there is none.
  unfoldable pub max_array : List ℕ → ArrayType → List ℕ → Result (ℕ × List ℕ)
  max_array whole with_prediction input = max_offset_with_prediction input
  max_array whole flexi input = max_flexi whole input
  max_array whole delta_float input = max_delta false input
  max_array whole delta_oroch input = max_delta true input
  max_array whole (single s) input = max_single s input
  max_array whole empty input = ok (0, input)
  max_array whole unknown input = err require

  unfoldable pub max_loop : List ℕ → ℕ → ℕ → List ℕ → Result ℕ
  max_loop whole n result [] = ok result
  max_loop whole zero result (t ∷ input) = err out_of_rounds
  max_loop whole (suc n) result (t ∷ input) = do
    p ← max_array whole (array_type t) input
    max_loop whole n (if ltb result p.0 then p.0 else result) p.1

  unfoldable pub offset_score_max_offset : List ℕ → Result ℕ
  offset_score_max_offset input = max_loop input (length input) 0 input
