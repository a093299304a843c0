-- ===== src/Formats/Max/Progress.antt =====
-- The loop of src/parse.cc `ca_offset_score_max_offset` ends within as many rounds as there are bytes.
use Prim.Native.Nat.{bit_and}
use cantera_table.Shared.{
  ℕ, zero, suc, ◌+◌, ◌-◌, ◌*◌, ◌^◌, Bool-cases, leb, ◌≤◌, ◌≢◌, List, [], ◌∷◌, Bool, true, false,
  ltb, not, ◌&&◌, ◌==◌, if◌then◌else◌, length, inl, inr, arith,
}
use cantera_table.Shared.Words.{u64}
use cantera_table.Result.{Result, ok, err, out_of_rounds, Result-cases, ◌>>=◌}
use cantera_table.Result.Progress.{
  Reads, Leaves, Reads-bind, Reads-if, Reads-after, Leaves-bind, Ends, Ends-ne,
}
use cantera_table.Integer.{parse_integer}
use cantera_table.Integer.Progress.{parse_integer-Reads}
use cantera_table.Score.{OffsetScore}
use cantera_table.Prediction.{skip, parse_with_prediction}
use cantera_table.Prediction.MaxOffset.{last_offset, max_offset-parse}
use cantera_table.Prediction.Progress.{none_left-Reads, parse_with_prediction-Reads}
use cantera_table.Formats.Oroch.{OrochCodec}
use cantera_table.Formats.Flexi.{
  read_steps, read_flags, read_min_score, stored_scores, score_width, skip_stored, advance,
}
use cantera_table.Formats.Delta.{skip_delta_scores}
use cantera_table.Formats.Single.{SingleKind, float, positive, negative, skip_single}
use cantera_table.Formats.Progress.{read_steps-Reads, read_flags-Reads, read_min_score-Reads}
use cantera_table.Formats.{
  ArrayType, with_prediction, flexi, delta_float, delta_oroch, single, empty, unknown, array_type,
}
use cantera_table.Formats.Max.{
  sum_steps, at_end, max_flexi, max_delta, max_single, max_array, max_loop, offset_score_max_offset,
}

skip-Leaves : (n : ℕ) (input : List ℕ) → Leaves (length input) (skip n input)
unfolding skip
skip-Leaves zero input = omega arith
skip-Leaves (suc n) [] = tt
skip-Leaves (suc n) (b ∷ rest) = longer (length rest) (skip n rest) (skip-Leaves n rest)
  where
    longer : (m : ℕ) (r : Result (List ℕ)) → Leaves m r → Leaves (suc m) r
    longer m (ok rest) h = omega arith
    longer m (err e) h = h

-- A move of the pointer stays among the bytes or fails, also where its size wraps; only the comparison
-- with the end keeps it from going back.
skip_stored-Ends :
    (whole : List ℕ) (n width : ℕ) (input : List ℕ) → Ends (skip_stored whole n width input)
unfolding skip_stored advance
skip_stored-Ends whole n width input =
    let far = u64 (n * width) in
    elim (Bool-cases (ltb far (2 ^ 63))) [
      | inl t ↦ rw t (leaves (length input) (skip far input) (skip-Leaves far input))
      | inr f ↦ elim (Bool-cases (leb (2 ^ 64 - far) (length whole - length input))) [
        | inl t ↦ rw (f, t) tt
        | inr g ↦ rw (f, g) tt
      ]
    ]
  where
    leaves : (m : ℕ) (r : Result (List ℕ)) → Leaves m r → Ends r
    leaves m (ok rest) h = tt
    leaves m (err e) h = h

sum_steps-Reads :
    (gcd n offset : ℕ) (input : List ℕ) → Reads (length input) (sum_steps gcd n offset input)
unfolding sum_steps
sum_steps-Reads gcd n offset input =
    Reads-if (length input) (not (gcd == 0) && ltb 0 n) _ _
      (Reads-bind (length input) (parse_integer input) _ (parse_integer-Reads input) λ a.
        Reads-bind (length a.1) (parse_integer a.1) _ (parse_integer-Reads a.1) λ b.
          Reads-if (length b.1) (a.0 == u64 (b.0 + a.0)) _ _ (omega arith) (
            Reads-bind (length b.1) (read_steps a.0 (u64 (b.0 + a.0)) n b.1) _
              (read_steps-Reads a.0 (u64 (b.0 + a.0)) n b.1) λ s. omega arith))
      (omega arith)

at_end-Reads :
    (n offset : ℕ) (r : Result (List ℕ)) → Ends r → Reads n (r >>= λ rest. at_end offset rest)
at_end-Reads n offset (ok []) h = omega arith
at_end-Reads n offset (ok (b ∷ rest)) h = tt
at_end-Reads n offset (err e) h = h

max_flexi-Reads : (whole input : List ℕ) → Reads (length input) (max_flexi whole input)
unfolding max_flexi
max_flexi-Reads whole input =
    Reads-bind (length input) (parse_integer input) _ (parse_integer-Reads input) λ n.
      Reads-if (length n.1) (n.0 == 0) _ _ (omega arith) (
        Reads-bind (length n.1) (parse_integer n.1) _ (parse_integer-Reads n.1) λ o.
          Reads-bind (length o.1) (parse_integer o.1) _ (parse_integer-Reads o.1) λ g.
            Reads-bind (length g.1) (sum_steps g.0 (n.0 - 1) o.0 g.1) _
              (sum_steps-Reads g.0 (n.0 - 1) o.0 g.1)
              λ d. Reads-bind (length d.1) (read_flags d.1) _ (read_flags-Reads d.1) λ f.
                Reads-bind (length f.1) (read_min_score f.0 f.1) _ (read_min_score-Reads f.0 f.1)
                  λ m.
                    at_end-Reads (length m.1) d.0
                      (skip_stored whole (stored_scores f.0 n.0) (score_width (bit_and f.0 3)) m.1)
                      (skip_stored-Ends whole (stored_scores f.0 n.0) (score_width (bit_and f.0 3))
                        m.1))

last-Reads :
    (n : ℕ) (m : Result (List OffsetScore × List ℕ)) → Reads n m → Reads n (m >>= last_offset)
last-Reads n (ok ([], rest)) h = tt
last-Reads n (ok (v ∷ vs, rest)) h = h
last-Reads n (err e) h = h

module _ (c : OrochCodec) where
  skip_delta_scores-Leaves :
      (integer_score : Bool) (count : ℕ) (input : List ℕ)
      → Leaves (length input) (skip_delta_scores c integer_score count input)
  unfolding skip_delta_scores
  skip_delta_scores-Leaves true count input =
      Leaves-bind (length input) (c.signed_decode count input) _ (c.signed_decode-Reads count input)
        λ p. omega arith
  skip_delta_scores-Leaves false count input = skip-Leaves (count * 4) input

  max_delta-Reads :
      (integer_score : Bool) (input : List ℕ)
      → Reads (length input) (max_delta c integer_score input)
  unfolding max_delta
  max_delta-Reads integer_score input =
      Reads-bind (length input) (c.varint_decode input) _ (c.varint_decode-Reads input) λ n.
        Reads-if (length n.1) (n.0 == 0) _ _ (none_left-Reads 0 n.1) (
          Reads-bind (length n.1) (c.varint_decode n.1) _ (c.varint_decode-Reads n.1) λ o.
            Reads-bind (length o.1) (c.unsigned_decode (n.0 - 1) o.1) _
              (c.unsigned_decode-Reads (n.0 - 1) o.1)
              λ d.
                Reads-after (length d.1) (skip_delta_scores c integer_score n.0 d.1) _
                  (skip_delta_scores-Leaves integer_score n.0 d.1) λ rest. omega arith)

  skip_single-Leaves :
      (s : SingleKind) (input : List ℕ) → Leaves (length input) (skip_single c s input)
  unfolding skip_single
  skip_single-Leaves float input = skip-Leaves 4 input
  skip_single-Leaves (positive n) input = skip-Leaves n input
  skip_single-Leaves (negative n) input = skip-Leaves n input

  max_single-Reads : (s : SingleKind) (input : List ℕ) → Reads (length input) (max_single c s input)
  unfolding max_single
  max_single-Reads s input =
      Reads-bind (length input) (c.varint_decode input) _ (c.varint_decode-Reads input) λ o.
        Reads-after (length o.1) (skip_single c s o.1) _ (skip_single-Leaves s o.1)
          λ rest. omega arith

  max_array-Reads :
      (whole : List ℕ) (t : ArrayType) (input : List ℕ)
      → Reads (length input) (max_array c whole t input)
  unfolding max_array
  max_array-Reads whole with_prediction input =
      rw (max_offset-parse input) (
        last-Reads (length input) (parse_with_prediction input) (parse_with_prediction-Reads input))
  max_array-Reads whole flexi input = max_flexi-Reads whole input
  max_array-Reads whole delta_float input = max_delta-Reads false input
  max_array-Reads whole delta_oroch input = max_delta-Reads true input
  max_array-Reads whole (single s) input = max_single-Reads s input
  max_array-Reads whole empty input = omega arith
  max_array-Reads whole unknown input = tt

  max_loop-Ends :
      (whole : List ℕ) (n result : ℕ) (input : List ℕ)
      → length input ≤ n
      → Ends (max_loop c whole n result input)
  unfolding max_loop
  max_loop-Ends whole n result [] h = tt
  max_loop-Ends whole zero result (t ∷ input) h = absurd (omega arith)
  max_loop-Ends whole (suc n) result (t ∷ input) h =
      elim (Result-cases (max_array c whole (array_type t) input)) [
        | inl (p, e) ↦
            let left : length p.1 ≤ length input =
              rw (e, Reads) at (max_array-Reads whole (array_type t) input) in
            rw e (max_loop-Ends whole n (if ltb result p.0 then p.0 else result) p.1 (omega arith))
        | inr (x, e) ↦ rw e (rw (e, Reads) at (max_array-Reads whole (array_type t) input))
      ]

  -- ca_offset_score_max_offset ends on any bytes: the loop needs at most one round for each byte.
  pub max_offset_ends : (input : List ℕ) → offset_score_max_offset c input ≢ err out_of_rounds
  unfolding offset_score_max_offset
  max_offset_ends input =
      Ends-ne (max_loop c input (length input) 0 input)
        (max_loop-Ends input (length input) 0 input (omega arith))
