-- ===== src/Formats/Delta.antt =====
-- `ParseOffsetScoreOroch` and `CountOffsetScoreOroch` of src/parse.cc.
use cantera_table.Shared.{ℕ, zero, suc, ◌-◌, ◌*◌, List, [], ◌∷◌, Bool, ◌==◌, if◌then◌else◌}
use mathlib.Core.List.{map}
use cantera_table.Result.{Result, ok, err, require, ◌>>=◌}
use cantera_table.Score.{OffsetScore, read_float}
use cantera_table.Prediction.{skip}
use cantera_table.Formats.Oroch.{OrochCodec}
use cantera_table.Formats.Flexi.{running, records}

-- `n` scores as they are.
unfoldable pub read_floats : ℕ → List ℕ → Result (List ℕ × List ℕ)
read_floats zero input = ok ([], input)
read_floats (suc n) input = do p ← read_float input; q ← read_floats n p.1; ok (p.0 ∷ q.0, q.1)

module _ (c : OrochCodec) where
  unfoldable pub delta_scores : Bool → ℕ → List ℕ → Result (List ℕ × List ℕ)
  delta_scores integer_score count input =
      if integer_score
      then (do p ← c.signed_decode count input; ok (map c.to_float p.0, p.1))
      else read_floats count input

  unfoldable pub skip_delta_scores : Bool → ℕ → List ℕ → Result (List ℕ)
  skip_delta_scores integer_score count input =
      if integer_score then (do p ← c.signed_decode count input; ok p.1) else skip (count * 4) input

  unfoldable pub parse_delta_records : Bool → ℕ → List ℕ → Result (List OffsetScore × List ℕ)
  parse_delta_records integer_score count input = do
    o ← c.varint_decode input
    d ← c.unsigned_decode (count - 1) o.1
    s ← delta_scores integer_score count d.1
    ok (records (o.0 ∷ running o.0 d.0) s.0, s.1)

  unfoldable pub parse_delta : Bool → List ℕ → Result (List OffsetScore × List ℕ)
  parse_delta integer_score input = do
    n ← c.varint_decode input
    if n.0 == 0
        then (elim n.1 [ [] ↦ ok ([], []) | _ ∷ _ ↦ err require ])
        else parse_delta_records integer_score n.0 n.1

  unfoldable pub count_delta_records : Bool → ℕ → List ℕ → Result (ℕ × List ℕ)
  count_delta_records integer_score count input = do
    o ← c.varint_decode input
    d ← c.unsigned_decode (count - 1) o.1
    rest ← skip_delta_scores integer_score count d.1
    ok (count, rest)

  unfoldable pub count_delta : Bool → List ℕ → Result (ℕ × List ℕ)
  count_delta integer_score input = do
    n ← c.varint_decode input
    if n.0 == 0
        then (elim n.1 [ [] ↦ ok (0, []) | _ ∷ _ ↦ err require ])
        else count_delta_records integer_score n.0 n.1
