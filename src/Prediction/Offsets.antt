-- ===== src/Prediction/Offsets.antt =====
-- The offset part of a record: what the encoder writes for the differences, and what is read back.
use cantera_table.Shared.{
  ℕ, suc, ◌+◌, ◌-◌, ◌/◌, ◌^◌, ◌≤◌, ◌<◌, ◌≡◌, refl, List, [], ◌∷◌, ◌++◌, append_assoc, true, ltb,
  leb, length, arith, All, inl, inr, Bool-cases, ◌&&◌,
}
use cantera_table.Shared.Words.{u64}
use cantera_table.Result.{ok}
use cantera_table.Integer.{IsU64, format_integer}
use cantera_table.Integer.RoundTrip.{parse-format_integer}
use cantera_table.Score.{OffsetScore}
use cantera_table.Prediction.{
  deltas, encode_steps, format_all, encode_keys, encode_deltas, parse_steps, parse_step_table,
  parse_keys, parse_deltas, parse_offsets, parse_behind,
}
use cantera_table.Prediction.Steps.{insert_all, position}
use cantera_table.Prediction.Steps.Laws.{
  Chain, Contains, insert_all-Chain, insert_all-Contains, insert_all-All, position_lem,
}

abbrev pub offsets : List OffsetScore → List ℕ
offsets [] = []
offsets (v ∷ vs) = v.offset ∷ offsets vs

-- In increasing order from `p` on, equal offsets allowed, in 64 bits.
abbrev pub Ascending : ℕ → List OffsetScore → Type 0
Ascending p [] = Unit {0}
Ascending p (v ∷ vs) = (p ≤ v.offset) × IsU64 v.offset × Ascending v.offset vs

abbrev pub differences : ℕ → List OffsetScore → List ℕ
differences p [] = []
differences p (v ∷ vs) = (v.offset - p) ∷ differences v.offset vs

pub deltas-differences :
    (p : ℕ) (vs : List OffsetScore) → Ascending p vs → deltas p vs ≡ ok (differences p vs)
unfolding deltas
deltas-differences p [] h = refl
deltas-differences p (v ∷ vs) h = ground (arith, deltas-differences v.offset vs h.2)

differences-IsU64 : (p : ℕ) (vs : List OffsetScore) → Ascending p vs → All IsU64 (differences p vs)
differences-IsU64 p [] h = tt
differences-IsU64 p (v ∷ vs) h = (omega arith, differences-IsU64 v.offset vs h.2)

-- The step table is read back.
parse_steps-encode :
    (prev : ℕ) (steps rest : List ℕ)
    → Chain prev steps
    → All IsU64 steps
    → parse_steps (length steps) prev (encode_steps prev steps ++ rest) ≡ ok (steps, rest)
unfolding parse_steps encode_steps
parse_steps-encode prev [] rest c h = refl
parse_steps-encode prev (s ∷ ss) rest c h =
    let whole : u64 (s - prev + prev) ≡ s = omega arith in
    rw (
      append_assoc (format_integer (s - prev)) (encode_steps s ss) rest,
      parse-format_integer (s - prev) (encode_steps s ss ++ rest) (omega arith),
      whole,
      parse_steps-encode s ss rest c.1 h.1,
    )

parse_deltas-format :
    (p : ℕ) (vs : List OffsetScore) (rest : List ℕ)
    → Ascending p vs
    → parse_deltas (length vs) p (format_all (differences p vs) ++ rest) ≡ ok (offsets vs, rest)
unfolding parse_deltas format_all
parse_deltas-format p [] rest h = refl
parse_deltas-format p (v ∷ vs) rest h =
    let whole : u64 (p + (v.offset - p)) ≡ v.offset = omega arith in
    rw (
      append_assoc (format_integer (v.offset - p)) (format_all (differences v.offset vs)) rest,
      parse-format_integer (v.offset - p) (format_all (differences v.offset vs) ++ rest)
          (omega arith),
      whole,
      parse_deltas-format v.offset vs rest h.2,
    )

-- Every difference stands in the table.
abbrev Covers : List ℕ → List ℕ → Type 0
Covers steps ds = All (λ d. Contains d steps) ds

parse_keys-encode :
    (steps : List ℕ) (p : ℕ) (vs : List OffsetScore) (rest : List ℕ)
    → length steps < 2 ^ 64
    → Ascending p vs
    → Covers steps (differences p vs)
    → parse_keys steps (length vs) p (encode_keys steps (differences p vs) ++ rest)
      ≡ ok (offsets vs, rest)
unfolding parse_keys encode_keys
parse_keys-encode steps p [] rest few h c = refl
parse_keys-encode steps p (v ∷ vs) rest few h c =
    let d = v.offset - p in
    let at = position_lem d steps c.0 in
    let inside : ltb (position d steps) (length steps) ≡ true = ground (arith, at.0) in
    let whole : u64 (p + d) ≡ v.offset = omega arith in
    rw (
      append_assoc (format_integer (position d steps)) (encode_keys steps (differences v.offset vs))
          rest,
      parse-format_integer (position d steps) (encode_keys steps (differences v.offset vs) ++ rest)
          (omega (arith, at.0)),
      inside,
      at.1,
      whole,
      parse_keys-encode steps v.offset vs rest few h.2 c.1,
    )

Covers-all :
    (ds : List ℕ) (steps : List ℕ) → ((e : ℕ) → Contains e ds → Contains e steps) → Covers steps ds
Covers-all [] steps h = tt
Covers-all (d ∷ ds) steps h = (h d (inl refl), Covers-all ds steps (λ e c. h e (inr c)))

parse_step_table-format :
    (count n : ℕ) (rest : List ℕ)
    → 1 < count
    → n ≤ count + 1
    → IsU64 n
    → parse_step_table count (format_integer n ++ rest) ≡ parse_steps n 0 rest
unfolding parse_step_table
parse_step_table-format count n rest many few fits =
    let several : ltb 1 count ≡ true = ground arith in
    let allowed : leb n (count + 1) ≡ true = ground arith in
    rw (several, parse-format_integer n rest fits, allowed)

parse_behind_keys :
    (steps : List ℕ) (p : ℕ) (v : OffsetScore) (vs : List OffsetScore) (rest : List ℕ)
    → Ascending p (v ∷ vs)
    → Chain 0 steps
    → All IsU64 steps
    → Covers steps (differences p (v ∷ vs))
    → length steps < 256
    → length steps < suc (suc (length vs)) / 4
    → parse_behind (suc (suc (length vs))) p (
        format_integer (length steps)
        ++ (encode_steps 0 steps ++ (encode_keys steps (differences p (v ∷ vs)) ++ rest)))
      ≡ ok (offsets (v ∷ vs), rest)
parse_behind_keys [] p v vs rest h c u covers small few = elim covers.0 [ ]
parse_behind_keys (s ∷ ss) p v vs rest h c u covers small few =
    let n = length (s ∷ ss) in
    let keys = encode_keys (s ∷ ss) (differences p (v ∷ vs)) ++ rest in
    let count : suc (suc (length vs)) - 1 ≡ length (v ∷ vs) = omega arith in
    unfold parse_behind parse_offsets in
    rw
      (
        parse_step_table-format (suc (suc (length vs))) n (encode_steps 0 (s ∷ ss) ++ keys)
            (omega arith) (omega arith) (omega arith),
        parse_steps-encode 0 (s ∷ ss) keys c u,
        count,
      )
      (parse_keys-encode (s ∷ ss) p (v ∷ vs) rest (omega arith) h covers)

parse_behind_deltas :
    (p : ℕ) (v : OffsetScore) (vs : List OffsetScore) (rest : List ℕ)
    → Ascending p (v ∷ vs)
    → parse_behind
        (suc (suc (length vs)))
        p
        (format_integer 0 ++ (format_all (differences p (v ∷ vs)) ++ rest))
      ≡ ok (offsets (v ∷ vs), rest)
parse_behind_deltas p v vs rest h =
    let count : suc (suc (length vs)) - 1 ≡ length (v ∷ vs) = omega arith in
    unfold parse_behind parse_offsets in
    rw
      (
        parse_step_table-format (suc (suc (length vs))) 0
            (format_all (differences p (v ∷ vs)) ++ rest) (omega arith) (omega arith) (omega arith),
        unfold_none,
        count,
      )
      (parse_deltas-format p (v ∷ vs) rest h)
  where
    unfold_none :
        parse_steps 0 0 (format_all (differences p (v ∷ vs)) ++ rest)
        ≡ ok ([], format_all (differences p (v ∷ vs)) ++ rest)
    unfold_none = unfold parse_steps in refl

-- Whichever form the encoder chose, the parser reads the offsets behind the first one back.
pub parse_behind-encode :
    (p : ℕ) (vs : List OffsetScore) (rest : List ℕ)
    → Ascending p vs
    → parse_behind (suc (length vs)) p (encode_deltas (suc (length vs)) (differences p vs) ++ rest)
      ≡ ok (offsets vs, rest)
parse_behind-encode p [] rest h =
    unfold parse_behind encode_deltas parse_step_table parse_offsets parse_deltas format_all in refl
parse_behind-encode p (v ∷ vs) rest h =
    elim (Bool-cases (ltb (length steps) 256 && ltb (length steps) (suc (suc (length vs)) / 4))) [
      | inl t ↦
          unfold encode_deltas in
          rw
            (
              several,
              t,
              append_assoc (format_integer (length steps))
                  (encode_steps 0 steps ++ encode_keys steps ds) rest,
              append_assoc (encode_steps 0 steps) (encode_keys steps ds) rest,
            )
            (parse_behind_keys steps p v vs rest h (insert_all-Chain ds)
              (insert_all-All IsU64 ds (differences-IsU64 p (v ∷ vs) h))
              (Covers-all ds steps (insert_all-Contains ds)) (ground (arith, t))
              (ground (arith, t)))
      | inr f ↦
          unfold encode_deltas in
          rw (several, f, append_assoc (format_integer 0) (format_all ds) rest)
            (parse_behind_deltas p v vs rest h)
    ]
  where
    ds : List ℕ
    ds = differences p (v ∷ vs)

    steps : List ℕ
    steps = insert_all ds

    several : ltb 1 (suc (suc (length vs))) ≡ true
    several = ground arith
