-- ===== src/Prediction/MaxOffset.antt =====
-- `GetMaxOffsetWithPrediction` against the parser.
use Prim.Native.Nat.add
use cantera_table.Shared.{
  ℕ, zero, suc, ◌+◌, ◌-◌, ◌/◌, ◌<◌, ◌≡◌, refl, sym, ap, ◌∙◌, List, [], ◌∷◌, Bool, true, false, ltb,
  ◌==◌, length, get_or, arith, inl, inr, Bool-cases, last_or,
}
use cantera_table.Shared.Words.{u64}
use cantera_table.Result.{Result, ok, err, require, ◌>>=◌, Result-cases}
use cantera_table.Integer.{parse_integer}
use cantera_table.Rle
use cantera_table.Score.{OffsetScore, offset_score, read_float}
use cantera_table.Prediction.{
  parse_score, parse_scores, parse_step_table, parse_keys, parse_deltas, parse_offsets,
  parse_behind, parse_with_prediction, sum_keys, sum_deltas, sum_offsets, sum_behind, skip,
  skip_score, skip_scores, max_offset_with_prediction,
}
use cantera_table.Prediction.Mask.{test_bit}
use cantera_table.Prediction.Offsets.{offsets}

-- The last of the offsets that were read, and what is left of the input.
abbrev to_last : ℕ → List ℕ × List ℕ → Result (ℕ × List ℕ)
to_last first q = ok (last_or first q.0, q.1)

-- The running sum ends at the last offset that the parser makes, and fails where the parser fails.
sum_keys-last :
    (steps : List ℕ) (n first : ℕ) (input : List ℕ)
    → sum_keys steps n first input ≡ (parse_keys steps n first input >>= to_last first)
unfolding parse_keys sum_keys
sum_keys-last steps zero first input = refl
sum_keys-last steps (suc n) first input = elim (Result-cases (parse_integer input)) [
  | inl (p, e) ↦ rw e (ground (arith, sum_keys-last steps n (u64 (first + get_or steps p.0 0)) p.1))
  | inr (x, e) ↦ rw e
]

sum_deltas-last :
    (n first : ℕ) (input : List ℕ)
    → sum_deltas n first input ≡ (parse_deltas n first input >>= to_last first)
unfolding parse_deltas sum_deltas
sum_deltas-last zero first input = refl
sum_deltas-last (suc n) first input = elim (Result-cases (parse_integer input)) [
  | inl (p, e) ↦ rw e (ground (arith, sum_deltas-last n (u64 (first + p.0)) p.1))
  | inr (x, e) ↦ rw e
]

sum_offsets-last :
    (steps : List ℕ) (n first : ℕ) (input : List ℕ)
    → sum_offsets steps n first input ≡ (parse_offsets steps n first input >>= to_last first)
unfolding parse_offsets sum_offsets
sum_offsets-last [] n first input = sum_deltas-last n first input
sum_offsets-last (s ∷ ss) n first input = sum_keys-last (s ∷ ss) n first input

sum_behind-last :
    (count first : ℕ) (input : List ℕ)
    → sum_behind count first input ≡ (parse_behind count first input >>= to_last first)
unfolding parse_behind sum_behind
sum_behind-last count first input = elim (Result-cases (parse_step_table count input)) [
  | inl (t, e) ↦ rw e (sum_offsets-last t.0 (count - 1) first t.1)
  | inr (x, e) ↦ rw e
]

abbrev behind_of {ℓ} : {A : Type ℓ} → A × List ℕ → Result (List ℕ)
behind_of q = ok q.1

pub skip-read_float : (input : List ℕ) → skip 4 input ≡ (read_float input >>= behind_of)
unfolding skip read_float
skip-read_float [] = refl
skip-read_float (a ∷ []) = refl
skip-read_float (a ∷ b ∷ []) = refl
skip-read_float (a ∷ b ∷ c ∷ []) = refl
skip-read_float (a ∷ b ∷ c ∷ d ∷ rest) = refl

pub skip-add : (m n : ℕ) (input : List ℕ) → skip (m + n) input ≡ (skip m input >>= skip n)
unfolding skip
skip-add zero n input = rw (add.zero n)
skip-add (suc m) n [] = rw (add.suc m n)
skip-add (suc m) n (b ∷ rest) = rw (add.suc m n) (skip-add m n rest)

-- Four floats.
skip_floats :
    (input : List ℕ)
    → skip 16 input ≡ (skip 4 input >>= λ a. skip 4 a >>= λ b. skip 4 b >>= λ c. skip 4 c)
skip_floats input = elim (Result-cases (skip 4 input)) [
  | inl (a, e) ↦
      skip-add 4 12 input
      ∙ rw e (elim (Result-cases (skip 4 a)) [
        | inl (b, f) ↦ skip-add 4 8 a ∙ rw f (skip-add 4 4 b)
        | inr (x, f) ↦ skip-add 4 8 a ∙ rw f
      ])
  | inr (x, e) ↦ skip-add 4 12 input ∙ rw e
]

-- A record and its skipped form: the parser keeps the offset that it is given.
abbrev AgreesOne : ℕ → Result (OffsetScore × List ℕ) → Result (List ℕ) → Type 0
AgreesOne offset (ok q) s = (q.0.offset ≡ offset) × (s ≡ ok q.1)
AgreesOne offset (err x) s = s ≡ err x

after_float :
    (offset : ℕ) (input : List ℕ) (k : ℕ × List ℕ → Result (OffsetScore × List ℕ))
    (t : List ℕ → Result (List ℕ))
    → ((q : ℕ × List ℕ) → AgreesOne offset (k q) (t q.1))
    → AgreesOne offset (read_float input >>= k) (skip 4 input >>= t)
after_float offset input k t agree = elim (Result-cases (read_float input)) [
  | inl (q, e) ↦ rw (skip-read_float, e) (agree q)
  | inr (x, e) ↦ rw (skip-read_float, e)
]

skip_last : (input : List ℕ) → (skip 4 input >>= λ a. ok a) ≡ skip 4 input
skip_last input = elim (Result-cases (skip 4 input)) [ inl (a, e) ↦ rw e | inr (x, e) ↦ rw e ]

parse_score-skip :
    (bands : Bool) (offset : ℕ) (input : List ℕ)
    → AgreesOne offset (parse_score bands offset input) (skip_score bands input)
unfolding parse_score skip_score offset_score
parse_score-skip false offset input = after_float offset input _ _ (λ s. (refl, refl))
parse_score-skip true offset input = after_float offset input _ _ λ s. rw (skip_floats s.1) (
    after_float offset s.1 _ _ λ a. after_float offset a.1 _ _ λ b.
      after_float offset b.1 _ _
        λ c. rw (← skip_last c.1) (after_float offset c.1 _ _ λ d. (refl, refl)))

abbrev AgreesAll : List ℕ → Result (List OffsetScore × List ℕ) → Result (List ℕ) → Type 0
AgreesAll os (ok q) s = (offsets q.0 ≡ os) × (s ≡ ok q.1)
AgreesAll os (err x) s = s ≡ err x

AgreesAll-cons :
    (os : List ℕ) (v : OffsetScore) (r : Result (List OffsetScore × List ℕ)) (s : Result (List ℕ))
    → AgreesAll os r s
    → AgreesAll (v.offset ∷ os) (r >>= λ q. ok (v ∷ q.0, q.1)) s
AgreesAll-cons os v (ok q) s h = (ap (λ (l : List ℕ). v.offset ∷ l) h.0, h.1)
AgreesAll-cons os v (err x) s h = h

AgreesAll-bind :
    (o : ℕ) (os : List ℕ) (r : Result (OffsetScore × List ℕ)) (s : Result (List ℕ))
    (k : List ℕ → Result (List OffsetScore × List ℕ)) (t : List ℕ → Result (List ℕ))
    → AgreesOne o r s
    → ((input : List ℕ) → AgreesAll os (k input) (t input))
    → AgreesAll (o ∷ os) (r >>= λ p. k p.1 >>= λ q. ok (p.0 ∷ q.0, q.1)) (s >>= t)
AgreesAll-bind o os (ok p) s k t h agree =
    rw (← h.0, h.1) (AgreesAll-cons os p.0 (k p.1) (t p.1) (agree p.1))
AgreesAll-bind o os (err x) s k t h agree = rw h

parse_scores-skip :
    (mask : List ℕ) (i : ℕ) (os input : List ℕ)
    → AgreesAll os (parse_scores mask i os input) (skip_scores mask i (length os) input)
unfolding parse_scores skip_scores
parse_scores-skip mask i [] input = (refl, refl)
parse_scores-skip mask i (o ∷ os) input =
    AgreesAll-bind o os _ _ (parse_scores mask (i + 1) os) (skip_scores mask (i + 1) (length os))
      (parse_score-skip (test_bit mask i) o input) (parse_scores-skip mask (i + 1) os)

-- The parser makes as many offsets as it is asked for.
abbrev HasLength : ℕ → Result (List ℕ × List ℕ) → Type 0
HasLength n (ok q) = length q.0 ≡ n
HasLength n (err x) = Unit {0}

HasLength-cons :
    (n d : ℕ) (r : Result (List ℕ × List ℕ))
    → HasLength n r
    → HasLength (suc n) (r >>= λ q. ok (d ∷ q.0, q.1))
HasLength-cons n d (ok q) h = ap suc h
HasLength-cons n d (err x) h = h

parse_keys-HasLength :
    (steps : List ℕ) (n p : ℕ) (input : List ℕ) → HasLength n (parse_keys steps n p input)
unfolding parse_keys
parse_keys-HasLength steps zero p input = refl
parse_keys-HasLength steps (suc n) p input = elim (Result-cases (parse_integer input)) [
  | inl (q, e) ↦ rw e (elim (Bool-cases (ltb q.0 (length steps))) [
    | inl t ↦ rw t (HasLength-cons n _ _ (parse_keys-HasLength steps n _ q.1))
    | inr f ↦ rw f tt
  ])
  | inr (x, e) ↦ rw e tt
]

parse_deltas-HasLength : (n p : ℕ) (input : List ℕ) → HasLength n (parse_deltas n p input)
unfolding parse_deltas
parse_deltas-HasLength zero p input = refl
parse_deltas-HasLength (suc n) p input = elim (Result-cases (parse_integer input)) [
  | inl (q, e) ↦ rw e (HasLength-cons n _ _ (parse_deltas-HasLength n _ q.1))
  | inr (x, e) ↦ rw e tt
]

parse_offsets-HasLength :
    (steps : List ℕ) (n p : ℕ) (input : List ℕ) → HasLength n (parse_offsets steps n p input)
unfolding parse_offsets
parse_offsets-HasLength [] n p input = parse_deltas-HasLength n p input
parse_offsets-HasLength (s ∷ ss) n p input = parse_keys-HasLength (s ∷ ss) n p input

parse_behind-HasLength :
    (count first : ℕ) (input : List ℕ) → HasLength (count - 1) (parse_behind count first input)
unfolding parse_behind
parse_behind-HasLength count first input = elim (Result-cases (parse_step_table count input)) [
  | inl (t, e) ↦ rw e (parse_offsets-HasLength t.0 (count - 1) first t.1)
  | inr (x, e) ↦ rw e tt
]

-- The offset of the last record, and what is left of the input; there is none in an empty array.
abbrev pub last_offset : List OffsetScore × List ℕ → Result (ℕ × List ℕ)
last_offset ([], rest) = err require
last_offset (v ∷ vs, rest) = ok (last_or v.offset (offsets vs), rest)

AgreesAll-last :
    (o : ℕ) (os : List ℕ) (r : Result (List OffsetScore × List ℕ)) (s : Result (List ℕ))
    → AgreesAll (o ∷ os) r s
    → (s >>= λ rest. ok (last_or o os, rest)) ≡ (r >>= last_offset)
AgreesAll-last o os (ok ([], rest)) s h = cc
AgreesAll-last o os (ok (v ∷ vs, rest)) s h = ground (arith, h.1)
AgreesAll-last o os (err x) s h = rw h

no_records :
    (input : List ℕ)
    → (let m : Result (List OffsetScore × List ℕ) = elim input [
      | [] ↦ ok ([], [])
      | _ ∷ _ ↦ err require
    ] in
        m >>= last_offset)
      ≡ err require
no_records [] = refl
no_records (b ∷ rest) = refl

-- The records behind a count that is not zero.
max_offset-records :
    (count first : ℕ) (input : List ℕ)
    → 0 < count
    → (do
      r ← sum_behind count first input
      m ← Rle.read_block ((count + 7) / 8) r.1
      rest ← skip_scores m.0 0 count m.1
      ok (r.0, rest))
      ≡ ((do
        d ← parse_behind count first input
        m ← Rle.read_block ((count + 7) / 8) d.1
        parse_scores m.0 0 (first ∷ d.0) m.1)
          >>= last_offset)
max_offset-records count first input some = elim (Result-cases (parse_behind count first input)) [
  | inl (d, e) ↦
      rw (sum_behind-last count first input, e)
        (elim (Result-cases (Rle.read_block ((count + 7) / 8) d.1)) [
          | inl (m, f) ↦ rw f (
              AgreesAll-last first d.0 _ _
                (rw (all d e) at (parse_scores-skip m.0 0 (first ∷ d.0) m.1)))
          | inr (x, f) ↦ rw f
        ])
  | inr (x, e) ↦ rw (sum_behind-last count first input, e)
]
  where
    all : (d : List ℕ × List ℕ) → parse_behind count first input ≡ ok d → suc (length d.0) ≡ count
    all d e =
        let h : length d.0 ≡ count - 1 = rw e at (parse_behind-HasLength count first input) in
        omega arith

-- On any bytes, the offset that `GetMaxOffsetWithPrediction` finds is that of the last record which
-- `ParseOffsetScoreWithPrediction` reads, both stop at the same byte, and where there is no record
-- or the parser fails, it fails.
pub max_offset-parse :
    (input : List ℕ)
    → max_offset_with_prediction input ≡ (parse_with_prediction input >>= last_offset)
unfolding max_offset_with_prediction parse_with_prediction
max_offset-parse input = elim (Result-cases (parse_integer input)) [
  | inl (c, e) ↦ rw e (elim (Bool-cases (c.0 == 0)) [
    | inl z ↦ let none : ltb 0 c.0 ≡ false = ground arith in rw (z, none) (sym (no_records c.1))
    | inr s ↦
        let some : ltb 0 c.0 ≡ true = ground arith in
        rw (s, some)
          (elim (Result-cases (parse_integer c.1)) [
            | inl (o, f) ↦ rw f (max_offset-records c.0 o.0 o.1 (ground arith))
            | inr (x, f) ↦ rw f
          ])
  ])
  | inr (x, e) ↦ rw e
]
