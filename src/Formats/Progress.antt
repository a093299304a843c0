-- ===== src/Formats/Progress.antt =====
-- What the parsers of src/parse.cc leave of the bytes they are given, and the loop over the arrays of one
-- value.
use Prim.Native.Nat.{bit_and}
use cantera_table.Shared.{
  ℕ, zero, suc, ◌+◌, ◌-◌, ◌*◌, ◌/◌, ◌^◌, ◌≤◌, ◌≢◌, List, [], ◌∷◌, Bool, true, false, leb, ◌==◌,
  length, inl, inr, arith,
}
use cantera_table.Shared.Words.{u64}
use cantera_table.Result.{err, out_of_rounds, Result-cases}
use cantera_table.Result.Progress.{Reads, Reads-le, Reads-bind, Reads-if, Ends, Ends-ne}
use cantera_table.Integer.{parse_integer}
use cantera_table.Integer.Progress.{parse_integer-Reads}
use cantera_table.Rle
use cantera_table.Rle.Progress.{read_block-Reads}
use cantera_table.Score.{read_float}
use cantera_table.Prediction.Progress.{
  read_float-Reads, none_left-Reads, parse_with_prediction-Reads,
}
use cantera_table.Formats.Oroch.{OrochCodec}
use cantera_table.Formats.Flexi.{
  parse_integers, read_steps, increments, read_flags, read_min_score, read_big, stored_scores,
  read_score, read_scores, parse_flexi_records, parse_flexi,
}
use cantera_table.Formats.Delta.{read_floats, delta_scores, parse_delta_records, parse_delta}
use cantera_table.Formats.Single.{
  SingleKind, float, positive, negative, read_little, single_score, parse_single,
}
use cantera_table.Formats.{
  ArrayType, with_prediction, flexi, delta_float, delta_oroch, single, empty, unknown, array_type,
  parse_array, parse_loop, offset_score_parse,
}

parse_integers-Reads : (n : ℕ) (input : List ℕ) → Reads (length input) (parse_integers n input)
unfolding parse_integers
parse_integers-Reads zero input = omega arith
parse_integers-Reads (suc n) input =
    Reads-bind (length input) (parse_integer input) _ (parse_integer-Reads input) λ p.
      Reads-bind (length p.1) (parse_integers n p.1) _ (parse_integers-Reads n p.1) λ q. omega arith

pub read_steps-Reads : (a b n : ℕ) (input : List ℕ) → Reads (length input) (read_steps a b n input)
unfolding read_steps
read_steps-Reads a b n input =
    let range = u64 (b + (2 ^ 64 - a)) in
    Reads-if (length input) (a == b) _ _ (omega arith) (
      Reads-if (length input) (leb range 0x0f) _ _
        (Reads-bind (length input) (Rle.read_block ((n + 1) / 2) input) _
          (read_block-Reads ((n + 1) / 2) input) λ p. omega arith)
        (Reads-if (length input) (leb range 0xff) _ _ (read_block-Reads n input)
          (parse_integers-Reads n input)))

pub increments-Reads : (gcd n : ℕ) (input : List ℕ) → Reads (length input) (increments gcd n input)
unfolding increments
increments-Reads gcd n input = Reads-if (length input) (gcd == 0) _ _ (omega arith) (
    Reads-bind (length input) (parse_integer input) _ (parse_integer-Reads input) λ a.
      Reads-bind (length a.1) (parse_integer a.1) _ (parse_integer-Reads a.1) λ b.
        Reads-bind (length b.1) (read_steps a.0 (u64 (b.0 + a.0)) n b.1) _
          (read_steps-Reads a.0 (u64 (b.0 + a.0)) n b.1) λ s. omega arith)

pub read_flags-Reads : (input : List ℕ) → Reads (length input) (read_flags input)
unfolding read_flags
read_flags-Reads [] = tt
read_flags-Reads (b ∷ rest) = omega arith

pub read_min_score-Reads :
    (flags : ℕ) (input : List ℕ) → Reads (length input) (read_min_score flags input)
unfolding read_min_score
read_min_score-Reads flags input =
    Reads-if (length input) (bit_and flags 3 == 0) _ _ (omega arith) (
      Reads-bind (length input) (parse_integer input) _ (parse_integer-Reads input)
        λ p. omega arith)

read_big-Reads : (n value : ℕ) (input : List ℕ) → Reads (length input) (read_big n value input)
unfolding read_big
read_big-Reads zero value input = omega arith
read_big-Reads (suc n) value [] = tt
read_big-Reads (suc n) value (b ∷ rest) =
    Reads-le (length rest) (length (b ∷ rest)) (read_big n (256 * value + b) rest) (omega arith)
      (read_big-Reads n (256 * value + b) rest)

read_little-Reads : (n : ℕ) (input : List ℕ) → Reads (length input) (read_little n input)
unfolding read_little
read_little-Reads zero input = omega arith
read_little-Reads (suc n) [] = tt
read_little-Reads (suc n) (b ∷ rest) =
    Reads-bind (length (b ∷ rest)) (read_little n rest) _
      (Reads-le (length rest) (length (b ∷ rest)) (read_little n rest) (omega arith)
        (read_little-Reads n rest))
      λ p. omega arith

read_floats-Reads : (n : ℕ) (input : List ℕ) → Reads (length input) (read_floats n input)
unfolding read_floats
read_floats-Reads zero input = omega arith
read_floats-Reads (suc n) input =
    Reads-bind (length input) (read_float input) _ (read_float-Reads input)
      λ p. Reads-bind (length p.1) (read_floats n p.1) _ (read_floats-Reads n p.1) λ q. omega arith

module _ (c : OrochCodec) where
  read_score-Reads :
      (kind min : ℕ) (input : List ℕ) → Reads (length input) (read_score c kind min input)
  unfolding read_score
  read_score-Reads kind min input =
      Reads-if (length input) (kind == 0) _ _ (read_float-Reads input) (
        Reads-bind (length input) (read_big kind 0 input) _ (read_big-Reads kind 0 input)
          λ p. omega arith)

  read_scores-Reads :
      (kind min n : ℕ) (input : List ℕ) → Reads (length input) (read_scores c kind min n input)
  unfolding read_scores
  read_scores-Reads kind min zero input = omega arith
  read_scores-Reads kind min (suc n) input =
      Reads-bind (length input) (read_score c kind min input) _ (read_score-Reads kind min input)
        λ p.
          Reads-bind (length p.1) (read_scores c kind min n p.1) _
            (read_scores-Reads kind min n p.1) λ q. omega arith

  parse_flexi_records-Reads :
      (count : ℕ) (input : List ℕ) → Reads (length input) (parse_flexi_records c count input)
  unfolding parse_flexi_records
  parse_flexi_records-Reads count input =
      Reads-bind (length input) (parse_integer input) _ (parse_integer-Reads input) λ o.
        Reads-bind (length o.1) (parse_integer o.1) _ (parse_integer-Reads o.1) λ g.
          Reads-bind (length g.1) (increments g.0 (count - 1) g.1) _
            (increments-Reads g.0 (count - 1) g.1)
            λ d. Reads-bind (length d.1) (read_flags d.1) _ (read_flags-Reads d.1) λ f.
              Reads-bind (length f.1) (read_min_score f.0 f.1) _ (read_min_score-Reads f.0 f.1) λ m.
                Reads-bind (length m.1)
                  (read_scores c (bit_and f.0 3) m.0 (stored_scores f.0 count) m.1) _
                  (read_scores-Reads (bit_and f.0 3) m.0 (stored_scores f.0 count) m.1)
                  λ s. omega arith

  parse_flexi-Reads : (input : List ℕ) → Reads (length input) (parse_flexi c input)
  unfolding parse_flexi
  parse_flexi-Reads input =
      Reads-bind (length input) (parse_integer input) _ (parse_integer-Reads input) λ n.
        Reads-if (length n.1) (n.0 == 0) _ _ (none_left-Reads [] n.1)
          (parse_flexi_records-Reads n.0 n.1)

  delta_scores-Reads :
      (integer_score : Bool) (count : ℕ) (input : List ℕ)
      → Reads (length input) (delta_scores c integer_score count input)
  unfolding delta_scores
  delta_scores-Reads true count input =
      Reads-bind (length input) (c.signed_decode count input) _ (c.signed_decode-Reads count input)
        λ p. omega arith
  delta_scores-Reads false count input = read_floats-Reads count input

  parse_delta-Reads :
      (integer_score : Bool) (input : List ℕ)
      → Reads (length input) (parse_delta c integer_score input)
  unfolding parse_delta parse_delta_records
  parse_delta-Reads integer_score input =
      Reads-bind (length input) (c.varint_decode input) _ (c.varint_decode-Reads input) λ n.
        Reads-if (length n.1) (n.0 == 0) _ _ (none_left-Reads [] n.1) (
          Reads-bind (length n.1) (c.varint_decode n.1) _ (c.varint_decode-Reads n.1) λ o.
            Reads-bind (length o.1) (c.unsigned_decode (n.0 - 1) o.1) _
              (c.unsigned_decode-Reads (n.0 - 1) o.1)
              λ d.
                Reads-bind (length d.1) (delta_scores c integer_score n.0 d.1) _
                  (delta_scores-Reads integer_score n.0 d.1) λ s. omega arith)

  single_score-Reads :
      (s : SingleKind) (input : List ℕ) → Reads (length input) (single_score c s input)
  unfolding single_score
  single_score-Reads float input = read_float-Reads input
  single_score-Reads (positive n) input =
      Reads-bind (length input) (read_little n input) _ (read_little-Reads n input) λ p. omega arith
  single_score-Reads (negative n) input =
      Reads-bind (length input) (read_little n input) _ (read_little-Reads n input) λ p. omega arith

  parse_single-Reads :
      (s : SingleKind) (input : List ℕ) → Reads (length input) (parse_single c s input)
  unfolding parse_single
  parse_single-Reads s input =
      Reads-bind (length input) (c.varint_decode input) _ (c.varint_decode-Reads input) λ o.
        Reads-bind (length o.1) (single_score c s o.1) _ (single_score-Reads s o.1) λ p. omega arith

  pub parse_array-Reads :
      (t : ArrayType) (input : List ℕ) → Reads (length input) (parse_array c t input)
  unfolding parse_array
  parse_array-Reads with_prediction input = parse_with_prediction-Reads input
  parse_array-Reads flexi input = parse_flexi-Reads input
  parse_array-Reads delta_float input = parse_delta-Reads false input
  parse_array-Reads delta_oroch input = parse_delta-Reads true input
  parse_array-Reads (single s) input =
      Reads-bind (length input) (parse_single c s input) _ (parse_single-Reads s input)
        λ p. omega arith
  parse_array-Reads empty input = omega arith
  parse_array-Reads unknown input = tt

  parse_loop-Ends : (n : ℕ) (input : List ℕ) → length input ≤ n → Ends (parse_loop c n input)
  unfolding parse_loop
  parse_loop-Ends n [] h = tt
  parse_loop-Ends zero (t ∷ input) h = absurd (omega arith)
  parse_loop-Ends (suc n) (t ∷ input) h = elim (Result-cases (parse_array c (array_type t) input)) [
    | inl (p, e) ↦
        let left : length p.1 ≤ length input =
          rw (e, Reads) at (parse_array-Reads (array_type t) input) in
        elim (Result-cases (parse_loop c n p.1)) [
          | inl (vs, f) ↦ rw (e, f) tt
          | inr (x, f) ↦ rw (e, f) (rw (f, Ends) at (parse_loop-Ends n p.1 (omega arith)))
        ]
    | inr (x, e) ↦ rw e (rw (e, Reads) at (parse_array-Reads (array_type t) input))
  ]

  -- ca_offset_score_parse ends on any bytes: the loop needs at most one round for each byte.
  pub offset_score_parse_ends : (input : List ℕ) → offset_score_parse c input ≢ err out_of_rounds
  unfolding offset_score_parse
  offset_score_parse_ends input =
      Ends-ne (parse_loop c (length input) input)
        (parse_loop-Ends (length input) input (omega arith))
