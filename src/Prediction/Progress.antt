-- ===== src/Prediction/Progress.antt =====
-- How far src/parse.cc `ParseOffsetScoreWithPrediction` advances.
use cantera_table.Shared.{
  ℕ, zero, suc, ◌+◌, ◌-◌, ◌/◌, List, [], ◌∷◌, Bool, true, false, length, get_or, ltb, leb, ◌==◌,
  arith,
}
use cantera_table.Shared.Words.{u64}
use cantera_table.Result.{Result, ok, err, require}
use cantera_table.Result.Progress.{Reads, Reads-bind, Reads-if, Reads-guard}
use cantera_table.Integer.{parse_integer}
use cantera_table.Integer.Progress.{parse_integer-Reads}
use cantera_table.Rle
use cantera_table.Rle.Progress.{read_block-Reads}
use cantera_table.Score.{read_float}
use cantera_table.Prediction.{
  parse_steps, parse_step_table, parse_keys, parse_deltas, parse_offsets, parse_behind, parse_score,
  parse_scores, parse_with_prediction,
}
use cantera_table.Prediction.Mask.{test_bit}

pub read_float-Reads : (input : List ℕ) → Reads (length input) (read_float input)
unfolding read_float
read_float-Reads (a ∷ b ∷ c ∷ d ∷ rest) = omega arith
read_float-Reads [] = tt
read_float-Reads (a ∷ []) = tt
read_float-Reads (a ∷ b ∷ []) = tt
read_float-Reads (a ∷ b ∷ c ∷ []) = tt

parse_steps-Reads : (n prev : ℕ) (input : List ℕ) → Reads (length input) (parse_steps n prev input)
unfolding parse_steps
parse_steps-Reads zero prev input = omega arith
parse_steps-Reads (suc n) prev input =
    Reads-bind (length input) (parse_integer input) _ (parse_integer-Reads input) λ p.
      Reads-bind (length p.1) (parse_steps n (u64 (p.0 + prev)) p.1) _
        (parse_steps-Reads n (u64 (p.0 + prev)) p.1) λ q. omega arith

parse_step_table-Reads :
    (count : ℕ) (input : List ℕ) → Reads (length input) (parse_step_table count input)
unfolding parse_step_table
parse_step_table-Reads count input =
    Reads-if (length input) (ltb 1 count) _ _
      (Reads-bind (length input) (parse_integer input) _ (parse_integer-Reads input) λ p.
        Reads-guard (length p.1) (leb p.0 (count + 1)) (parse_steps p.0 0 p.1)
          (parse_steps-Reads p.0 0 p.1))
      (omega arith)

parse_keys-Reads :
    (steps : List ℕ) (n previous : ℕ) (input : List ℕ)
    → Reads (length input) (parse_keys steps n previous input)
unfolding parse_keys
parse_keys-Reads steps zero previous input = omega arith
parse_keys-Reads steps (suc n) previous input =
    Reads-bind (length input) (parse_integer input) _ (parse_integer-Reads input) λ p.
      let o = u64 (previous + get_or steps p.0 0) in
      Reads-guard (length p.1) (ltb p.0 (length steps)) _ (
        Reads-bind (length p.1) (parse_keys steps n o p.1) _ (parse_keys-Reads steps n o p.1)
          λ q. omega arith)

parse_deltas-Reads :
    (n previous : ℕ) (input : List ℕ) → Reads (length input) (parse_deltas n previous input)
unfolding parse_deltas
parse_deltas-Reads zero previous input = omega arith
parse_deltas-Reads (suc n) previous input =
    Reads-bind (length input) (parse_integer input) _ (parse_integer-Reads input) λ p.
      Reads-bind (length p.1) (parse_deltas n (u64 (previous + p.0)) p.1) _
        (parse_deltas-Reads n (u64 (previous + p.0)) p.1) λ q. omega arith

parse_offsets-Reads :
    (steps : List ℕ) (n previous : ℕ) (input : List ℕ)
    → Reads (length input) (parse_offsets steps n previous input)
unfolding parse_offsets
parse_offsets-Reads [] n previous input = parse_deltas-Reads n previous input
parse_offsets-Reads (s ∷ ss) n previous input = parse_keys-Reads (s ∷ ss) n previous input

parse_behind-Reads :
    (count first : ℕ) (input : List ℕ) → Reads (length input) (parse_behind count first input)
unfolding parse_behind
parse_behind-Reads count first input =
    Reads-bind (length input) (parse_step_table count input) _ (parse_step_table-Reads count input)
      λ t. parse_offsets-Reads t.0 (count - 1) first t.1

parse_score-Reads :
    (bands : Bool) (offset : ℕ) (input : List ℕ)
    → Reads (length input) (parse_score bands offset input)
unfolding parse_score
parse_score-Reads true offset input =
    Reads-bind (length input) (read_float input) _ (read_float-Reads input) λ s.
      Reads-bind (length s.1) (read_float s.1) _ (read_float-Reads s.1) λ a.
        Reads-bind (length a.1) (read_float a.1) _ (read_float-Reads a.1) λ b.
          Reads-bind (length b.1) (read_float b.1) _ (read_float-Reads b.1)
            λ c. Reads-bind (length c.1) (read_float c.1) _ (read_float-Reads c.1) λ d. omega arith
parse_score-Reads false offset input =
    Reads-bind (length input) (read_float input) _ (read_float-Reads input) λ s. omega arith

parse_scores-Reads :
    (mask : List ℕ) (i : ℕ) (offsets input : List ℕ)
    → Reads (length input) (parse_scores mask i offsets input)
unfolding parse_scores
parse_scores-Reads mask i [] input = omega arith
parse_scores-Reads mask i (o ∷ os) input =
    Reads-bind (length input) (parse_score (test_bit mask i) o input) _
      (parse_score-Reads (test_bit mask i) o input)
      λ p.
        Reads-bind (length p.1) (parse_scores mask (i + 1) os p.1) _
          (parse_scores-Reads mask (i + 1) os p.1) λ q. omega arith

-- A zero count is allowed at the end of the buffer only.
pub none_left-Reads {ℓ} :
    {A : Type ℓ} (a : A) (rest : List ℕ)
    → Reads
        (length rest)
        (elim rest as (λ x. Result (A × List ℕ)) [ [] ↦ ok (a, []) | _ ∷ _ ↦ err require ])
none_left-Reads a [] = omega arith
none_left-Reads a (b ∷ rest) = tt

pub parse_with_prediction-Reads :
    (input : List ℕ) → Reads (length input) (parse_with_prediction input)
unfolding parse_with_prediction
parse_with_prediction-Reads input =
    Reads-bind (length input) (parse_integer input) _ (parse_integer-Reads input) λ c.
      Reads-if (length c.1) (c.0 == 0) _ _ (none_left-Reads [] c.1) (
        Reads-bind (length c.1) (parse_integer c.1) _ (parse_integer-Reads c.1) λ o.
          Reads-bind (length o.1) (parse_behind c.0 o.0 o.1) _ (parse_behind-Reads c.0 o.0 o.1) λ d.
            Reads-bind (length d.1) (Rle.read_block ((c.0 + 7) / 8) d.1) _
              (read_block-Reads ((c.0 + 7) / 8) d.1) λ m. parse_scores-Reads m.0 0 (o.0 ∷ d.0) m.1)
