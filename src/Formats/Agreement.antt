-- ===== src/Formats/Agreement.antt =====
-- The counting readers of src/parse.cc against the parsers.
use Prim.Native.Nat.{bit_and}
use mathlib.Core.List.{map}
use cantera_table.Shared.{
  ℕ, zero, suc, ◌-◌, ◌*◌, ◌<◌, ◌≤◌, ◌++◌, ltb, ◌^◌, ◌≡◌, ◌≢◌, ◌∙◌, refl, sym, ap, inl, inr, List,
  [], ◌∷◌, Bool, true, false, ◌==◌, length, length-append, Bool-cases, arith,
}
use cantera_table.Result.{bind-ok, ok-injective, Result, ok, err, require, ◌>>=◌, Result-cases}
use cantera_table.Integer.{parse_integer}
use cantera_table.Integer.Progress.{parse_integer-Reads}
use cantera_table.Shared.Words.{u64}
use cantera_table.Result.Progress.{Reads}
use cantera_table.Formats.Progress.{
  read_flags-Reads, read_min_score-Reads, increments-Reads, parse_array-Reads,
}
use cantera_table.Score.{OffsetScore}
use cantera_table.Prediction.{skip, count_with_prediction}
use cantera_table.Prediction.MaxOffset.{skip-read_float}
use cantera_table.Formats.Oroch.{OrochCodec}
use cantera_table.Formats.Flexi.{
  running, records, increments, read_flags, read_min_score, stored_scores, read_scores,
  parse_flexi_records, parse_flexi, score_width, advance, skip_stored, count_flexi_records,
  count_flexi,
}
use cantera_table.Formats.Delta.{
  delta_scores, skip_delta_scores, parse_delta_records, parse_delta, count_delta_records,
  count_delta,
}
use cantera_table.Formats.Single.{
  SingleKind, float, positive, negative, read_little, single_score, parse_single, skip_single,
  count_single,
}
use cantera_table.Formats.{
  ArrayType, with_prediction, flexi, delta_float, delta_oroch, single, empty, unknown, array_type,
  parse_array, count_array, parse_loop, count_loop, offset_score_parse, offset_score_count,
}
use cantera_table.Formats.Skips.{
  behind, behind_map, skip-read_little, skip-read_floats, skip-read_scores, skip_increments-read,
}
use cantera_table.Formats.Lengths.{Counts, increments-Counts, length-running, length-records}

-- The number of the records that were read, and the bytes behind.
abbrev pub counted : List OffsetScore × List ℕ → Result (ℕ × List ℕ)
counted p = ok (length p.0, p.1)

same_bind {ℓ} :
    {A : Type ℓ} (m : Result A) (k : A → Result (ℕ × List ℕ))
    (l : A → Result (List OffsetScore × List ℕ))
    → ((x : A) → m ≡ ok x → k x ≡ (l x >>= counted))
    → (m >>= k) ≡ (m >>= l >>= counted)
same_bind (ok x) k l h = h x refl
same_bind (err x) k l h = refl

same_behind {ℓ} :
    {A : Type ℓ} (m : Result (A × List ℕ)) (k : List ℕ → Result (ℕ × List ℕ))
    (l : A × List ℕ → Result (List OffsetScore × List ℕ))
    → ((p : A × List ℕ) → m ≡ ok p → k p.1 ≡ (l p >>= counted))
    → (behind m >>= k) ≡ (m >>= l >>= counted)
same_behind (ok p) k l h = h p refl
same_behind (err x) k l h = refl

-- Where the parser has a result, the counting reader has the number of its records.
abbrev Agrees : Result (ℕ × List ℕ) → Result (List OffsetScore × List ℕ) → Type 0
Agrees m (ok p) = m ≡ counted p
Agrees m (err e) = Unit

Agrees-same :
    (m : Result (ℕ × List ℕ)) (r : Result (List OffsetScore × List ℕ))
    → m ≡ (r >>= counted)
    → Agrees m r
Agrees-same m (ok p) h = h
Agrees-same m (err e) h = tt

-- Both go on behind the same bytes; an object has less than 2 ^ 63 of them.
Agrees-bind {ℓ} :
    {A : Type ℓ} (m : Result (A × List ℕ)) (k : A × List ℕ → Result (ℕ × List ℕ))
    (l : A × List ℕ → Result (List OffsetScore × List ℕ)) (input : List ℕ)
    → Reads (length input) m
    → length input < 2 ^ 63
    → ((p : A × List ℕ) → m ≡ ok p → length p.1 < 2 ^ 63 → Agrees (k p) (l p))
    → Agrees (m >>= k) (m >>= l)
Agrees-bind (ok p) k l input reads short h = h p refl (omega (arith, reads, short))
Agrees-bind (err e) k l input reads short h = tt

Agrees-behind {ℓ} :
    {A : Type ℓ} (m : Result (A × List ℕ)) (k : List ℕ → Result (ℕ × List ℕ))
    (l : A × List ℕ → Result (List OffsetScore × List ℕ)) (input : List ℕ)
    → Reads (length input) m
    → length input < 2 ^ 63
    → ((p : A × List ℕ) → m ≡ ok p → length p.1 < 2 ^ 63 → Agrees (k p.1) (l p))
    → Agrees (behind m >>= k) (m >>= l)
Agrees-behind (ok p) k l input reads short h = h p refl (omega (arith, reads, short))
Agrees-behind (err e) k l input reads short h = tt

Agrees-last {ℓ} :
    {A : Type ℓ} (m : Result (List ℕ)) (r : Result (A × List ℕ)) (count : ℕ)
    (f : A × List ℕ → List OffsetScore)
    → ((p : A × List ℕ) → r ≡ ok p → m ≡ ok p.1)
    → ((p : A × List ℕ) → count ≡ length (f p))
    → Agrees (m >>= λ rest. ok (count, rest)) (r >>= λ p. ok (f p, p.1))
Agrees-last m (ok p) count f h same = rw (h p refl) (ap (λ (n : ℕ). ok (n, p.1)) (same p))
Agrees-last m (err e) count f h same = tt

skip_le : (n : ℕ) (input rest : List ℕ) → skip n input ≡ ok rest → n ≤ length input
unfolding skip
skip_le zero input rest h = omega arith
skip_le (suc n) [] rest h = absurd cc
skip_le (suc n) (b ∷ input) rest h = omega (arith, skip_le n input rest h)

-- The first record and `count - 1` others.
whole_length :
    (count o : ℕ) (ds ss : List ℕ)
    → (count == 0) ≡ false
    → length ds ≡ count - 1
    → count ≡ length (records (o ∷ running o ds) ss)
whole_length count o ds ss some_left h =
    let positive : count ≢ 0 = ground arith in
    omega (arith, h, positive, length-records (o ∷ running o ds) ss, length-running o ds)

nothing_behind :
    (rest : List ℕ)
    → elim rest as (λ x. Result (ℕ × List ℕ)) [ [] ↦ ok (0, []) | _ ∷ _ ↦ err require ] ≡ (
        elim rest as (λ x. Result (List OffsetScore × List ℕ)) [
          | [] ↦ ok ([], [])
          | _ ∷ _ ↦ err require
        ]
        >>= counted)
nothing_behind [] = refl
nothing_behind (b ∷ rest) = refl

module _ (c : OrochCodec) where
  -- The scores that were read are skipped, and their size does not wrap.
  skip_stored-read :
      (whole : List ℕ) (kind min n : ℕ) (input : List ℕ) (p : List ℕ × List ℕ)
      → length input < 2 ^ 63
      → read_scores c kind min n input ≡ ok p
      → skip_stored whole n (score_width kind) input ≡ ok p.1
  unfolding skip_stored advance
  skip_stored-read whole kind min n input p short e =
      let moved : skip (n * score_width kind) input ≡ ok p.1 =
        skip-read_scores c kind min n input ∙ rw e refl in
      let le = skip_le (n * score_width kind) input p.1 moved in
      let same : u64 (n * score_width kind) ≡ n * score_width kind = omega (arith, le, short) in
      let near : ltb (n * score_width kind) (2 ^ 63) ≡ true = ground (arith, le, short) in
      rw (same, near) moved

  count_flexi_records-parse :
      (whole : List ℕ) (count : ℕ) (input : List ℕ)
      → (count == 0) ≡ false
      → length input < 2 ^ 63
      → Agrees (count_flexi_records whole count input) (parse_flexi_records c count input)
  unfolding count_flexi_records parse_flexi_records
  count_flexi_records-parse whole count input some_left short =
      Agrees-bind (parse_integer input) _ _ input (parse_integer-Reads input) short λ o _ short_o.
        Agrees-bind (parse_integer o.1) _ _ o.1 (parse_integer-Reads o.1) short_o λ g _ short_g.
          rw (skip_increments-read g.0 (count - 1) g.1) (
            Agrees-behind (increments g.0 (count - 1) g.1) _ _ g.1
              (increments-Reads g.0 (count - 1) g.1) short_g
              λ d e short_d.
                Agrees-bind (read_flags d.1) _ _ d.1 (read_flags-Reads d.1) short_d λ f _ short_f.
                  Agrees-bind (read_min_score f.0 f.1) _ _ f.1 (read_min_score-Reads f.0 f.1)
                    short_f
                    λ m _ short_m.
                      Agrees-last
                        (skip_stored whole (stored_scores f.0 count) (score_width (bit_and f.0 3))
                          m.1)
                        (read_scores c (bit_and f.0 3) m.0 (stored_scores f.0 count) m.1) count _
                        (λ s t.
                          skip_stored-read whole (bit_and f.0 3) m.0 (stored_scores f.0 count) m.1 s
                            short_m t)
                        λ s.
                          whole_length count o.0 d.0 _ some_left
                            (rw (e, Counts) at (increments-Counts g.0 (count - 1) g.1)))

  count_flexi-parse :
      (whole input : List ℕ)
      → length input < 2 ^ 63
      → Agrees (count_flexi whole input) (parse_flexi c input)
  unfolding count_flexi parse_flexi
  count_flexi-parse whole input short =
      Agrees-bind (parse_integer input) _ _ input (parse_integer-Reads input) short λ n _ short_n.
        elim (Bool-cases (n.0 == 0)) [
          | inl t ↦ rw t (Agrees-same _ _ (nothing_behind n.1))
          | inr f ↦ rw f (count_flexi_records-parse whole n.0 n.1 f short_n)
        ]

  pub skip_delta_scores-read :
      (integer_score : Bool) (count : ℕ) (input : List ℕ)
      → skip_delta_scores c integer_score count input
        ≡ behind (delta_scores c integer_score count input)
  unfolding skip_delta_scores delta_scores
  skip_delta_scores-read true count input =
      behind_map (c.signed_decode count input) (map c.to_float)
  skip_delta_scores-read false count input = skip-read_floats count input

  count_delta_records-parse :
      (integer_score : Bool) (count : ℕ) (input : List ℕ)
      → (count == 0) ≡ false
      → count_delta_records c integer_score count input
        ≡ (parse_delta_records c integer_score count input >>= counted)
  unfolding count_delta_records parse_delta_records
  count_delta_records-parse integer_score count input some_left =
      same_bind (c.varint_decode input) _ _ λ o _.
        same_bind (c.unsigned_decode (count - 1) o.1) _ _ λ d e.
          rw (skip_delta_scores-read integer_score count d.1) (
            same_behind (delta_scores c integer_score count d.1) _ _ λ s _.
              ap (λ (n : ℕ). ok (n, s.1))
                (whole_length count o.0 d.0 s.0 some_left
                  (c.length-unsigned_decode (count - 1) o.1 d e)))

  count_delta-parse :
      (integer_score : Bool) (input : List ℕ)
      → count_delta c integer_score input ≡ (parse_delta c integer_score input >>= counted)
  unfolding count_delta parse_delta
  count_delta-parse integer_score input = same_bind (c.varint_decode input) _ _ λ n _.
      elim (Bool-cases (n.0 == 0)) [
        | inl t ↦ rw t (nothing_behind n.1)
        | inr f ↦ rw f (count_delta_records-parse integer_score n.0 n.1 f)
      ]

  skip_single-read :
      (s : SingleKind) (input : List ℕ) → skip_single c s input ≡ behind (single_score c s input)
  unfolding skip_single single_score
  skip_single-read float input = skip-read_float input
  skip_single-read (positive n) input =
      skip-read_little n input ∙ behind_map (read_little n input) c.to_float
  skip_single-read (negative n) input =
      skip-read_little n input ∙ behind_map (read_little n input) (λ u. c.to_float (2 ^ 64 - 1 - u))

  count_single-parse :
      (s : SingleKind) (input : List ℕ)
      → (count_single c s input >>= λ rest. ok (1, rest))
        ≡ (parse_single c s input >>= (λ p. ok (p.0 ∷ [], p.1)) >>= counted)
  unfolding count_single parse_single
  count_single-parse s input = elim (Result-cases (c.varint_decode input)) [
    | inl (o, e) ↦ elim (Result-cases (single_score c s o.1)) [
      | inl (p, f) ↦ rw (e, skip_single-read s o.1, f)
      | inr (x, f) ↦ rw (e, skip_single-read s o.1, f)
    ]
    | inr (x, e) ↦ rw e
  ]

  count_array-parse :
      (whole : List ℕ) (t : ArrayType) (input : List ℕ)
      → length input < 2 ^ 63
      → Agrees (count_array c whole t input) (parse_array c t input)
  unfolding count_array parse_array count_with_prediction
  count_array-parse whole with_prediction input short = Agrees-same _ _ refl
  count_array-parse whole flexi input short = count_flexi-parse whole input short
  count_array-parse whole delta_float input short = Agrees-same _ _ (count_delta-parse false input)
  count_array-parse whole delta_oroch input short = Agrees-same _ _ (count_delta-parse true input)
  count_array-parse whole (single s) input short = Agrees-same _ _ (count_single-parse s input)
  count_array-parse whole empty input short = refl
  count_array-parse whole unknown input short = tt

  count_loop-parse :
      (whole : List ℕ) (n : ℕ) (input : List ℕ) (vs : List OffsetScore)
      → length input < 2 ^ 63
      → parse_loop c n input ≡ ok vs
      → count_loop c whole n input ≡ ok (u64 (length vs))
  unfolding count_loop parse_loop
  count_loop-parse whole n [] vs short h = rw (sym (ok-injective [] vs h)) refl
  count_loop-parse whole zero (t ∷ input) vs short h = absurd cc
  count_loop-parse whole (suc n) (t ∷ input) vs short h =
      let first =
        bind-ok (parse_array c (array_type t) input)
          (λ p. parse_loop c n p.1 >>= λ later. ok (p.0 ++ later)) vs h in
      let p = first.0 in
      let others = bind-ok (parse_loop c n p.1) (λ later. ok (p.0 ++ later)) vs first.2 in
      let same = ok-injective (p.0 ++ others.0) vs others.2 in
      let left : length p.1 ≤ length input =
        rw (first.1, Reads) at (parse_array-Reads c (array_type t) input) in
      let number : count_array c whole (array_type t) input ≡ ok (length p.0, p.1) =
        rw (first.1, Agrees) at
          (count_array-parse whole (array_type t) input (omega (arith, short))) in
      rw (number, count_loop-parse whole n p.1 others.0 (omega (arith, left, short)) others.1)
        (ap ok (omega (arith, length-append p.0 others.0, ap length same)))

  -- Where ca_offset_score_parse reads the records of a value, of fewer than 2 ^ 63 bytes,
  -- ca_offset_score_count succeeds too and returns their number, as a 64-bit integer.
  pub offset_score_count-parse :
      (input : List ℕ) (vs : List OffsetScore)
      → length input < 2 ^ 63
      → offset_score_parse c input ≡ ok vs
      → offset_score_count c input ≡ ok (u64 (length vs))
  unfolding offset_score_count offset_score_parse
  offset_score_count-parse input vs short h = count_loop-parse input (length input) input vs short h
