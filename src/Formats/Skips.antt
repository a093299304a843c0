-- ===== src/Formats/Skips.antt =====
-- What the counting readers of src/parse.cc skip is what the parsers read.
use mathlib.Core.List.{map}
use cantera_table.Shared.{
  ℕ, zero, suc, ◌+◌, ◌-◌, ◌*◌, ◌/◌, ◌^◌, ◌≡◌, ◌∙◌, refl, inl, inr, List, [], ◌∷◌, leb, ◌==◌,
  Bool-cases, arith,
}
use cantera_table.Shared.Words.{u32, u64}
use cantera_table.Result.{Result, ok, err, ◌>>=◌, Result-cases}
use cantera_table.Integer.{parse_integer}
use cantera_table.Rle
use cantera_table.Score.{read_float}
use cantera_table.Prediction.{skip}
use cantera_table.Prediction.MaxOffset.{skip-read_float, skip-add}
use cantera_table.Formats.Oroch.{OrochCodec}
use cantera_table.Formats.Flexi.{
  nibbles, parse_integers, skip_integers, read_steps, skip_steps, increments, skip_increments,
  read_big, score_width, read_score, read_scores,
}
use cantera_table.Formats.Delta.{read_floats}
use cantera_table.Formats.Single.{read_little}

abbrev pub behind {ℓ} : {A : Type ℓ} → Result (A × List ℕ) → Result (List ℕ)
behind m = m >>= λ p. ok p.1

-- A value that was read is put in front of others.
behind_two {ℓ κ} :
    {A : Type ℓ} {B : Type κ} (m : Result (A × List ℕ)) (r : List ℕ → Result (List B × List ℕ))
    (s : List ℕ → Result (List ℕ)) (f : A → B)
    → ((i : List ℕ) → s i ≡ behind (r i))
    → (m >>= λ p. s p.1) ≡ behind (m >>= λ p. r p.1 >>= λ q. ok (f p.0 ∷ q.0, q.1))
behind_two (ok p) r s f h = elim (Result-cases (r p.1)) [
  | inl (q, e) ↦ rw e at (h p.1) ∙ rw e
  | inr (x, e) ↦ rw e at (h p.1) ∙ rw e
]
behind_two (err x) r s f h = refl

pub behind_map {ℓ κ} :
    {A : Type ℓ} {B : Type κ} (m : Result (A × List ℕ)) (f : A → B)
    → behind m ≡ behind (m >>= λ p. ok (f p.0, p.1))
behind_map (ok p) f = refl
behind_map (err x) f = refl

after {ℓ} :
    {A : Type ℓ} (m : Result (A × List ℕ)) (s : List ℕ → Result (List ℕ))
    → (behind m >>= s) ≡ (m >>= λ p. s p.1)
after (ok p) s = refl
after (err x) s = refl

skip_integers-parse :
    (n : ℕ) (input : List ℕ) → skip_integers n input ≡ behind (parse_integers n input)
unfolding skip_integers parse_integers
skip_integers-parse zero input = refl
skip_integers-parse (suc n) input =
    behind_two (parse_integer input) (parse_integers n) (skip_integers n) (λ x. x)
      (skip_integers-parse n)

skip-read_big : (n value : ℕ) (input : List ℕ) → skip n input ≡ behind (read_big n value input)
unfolding skip read_big
skip-read_big zero value input = refl
skip-read_big (suc n) value [] = refl
skip-read_big (suc n) value (b ∷ rest) = skip-read_big n (256 * value + b) rest

pub skip-read_little : (n : ℕ) (input : List ℕ) → skip n input ≡ behind (read_little n input)
unfolding skip read_little
skip-read_little zero input = refl
skip-read_little (suc n) [] = refl
skip-read_little (suc n) (b ∷ rest) =
    skip-read_little n rest ∙ behind_map (read_little n rest) (λ v. b + 256 * v)

skip_n : (w n : ℕ) (input : List ℕ) → skip (suc n * w) input ≡ (skip w input >>= skip (n * w))
skip_n w n input = let e : suc n * w ≡ w + n * w = omega arith in rw e (skip-add w (n * w) input)

pub skip-read_floats : (n : ℕ) (input : List ℕ) → skip (n * 4) input ≡ behind (read_floats n input)
unfolding read_floats skip
skip-read_floats zero input = refl
skip-read_floats (suc n) input =
    skip_n 4 n input
    ∙ rw (skip-read_float input) (
        after (read_float input) (skip (n * 4))
        ∙ behind_two (read_float input) (read_floats n) (skip (n * 4)) (λ x. x)
            (skip-read_floats n))

module _ (c : OrochCodec) where
  skip-read_score :
      (kind min : ℕ) (input : List ℕ)
      → skip (score_width kind) input ≡ behind (read_score c kind min input)
  unfolding score_width read_score
  skip-read_score kind min input = elim (Bool-cases (kind == 0)) [
    | inl t ↦ rw t (skip-read_float input)
    | inr f ↦ rw f (
        skip-read_big kind 0 input
        ∙ behind_map (read_big kind 0 input) (λ v. c.to_float (u32 (min + v))))
  ]

  pub skip-read_scores :
      (kind min n : ℕ) (input : List ℕ)
      → skip (n * score_width kind) input ≡ behind (read_scores c kind min n input)
  unfolding read_scores skip
  skip-read_scores kind min zero input = let z : 0 * score_width kind ≡ 0 = omega arith in rw z
  skip-read_scores kind min (suc n) input =
      skip_n (score_width kind) n input
      ∙ rw (skip-read_score kind min input) (
          after (read_score c kind min input) (skip (n * score_width kind))
          ∙ behind_two (read_score c kind min input) (read_scores c kind min n)
              (skip (n * score_width kind)) (λ x. x) (skip-read_scores kind min n))

skip_steps-read :
    (min_step max_step n : ℕ) (input : List ℕ)
    → skip_steps min_step max_step n input ≡ behind (read_steps min_step max_step n input)
unfolding skip_steps read_steps
skip_steps-read a b n input =
    let range = u64 (b + (2 ^ 64 - a)) in
    elim (Bool-cases (a == b)) [
      | inl t ↦ rw t
      | inr f ↦ elim (Bool-cases (leb range 0x0f)) [
        | inl t ↦ rw (f, t) (behind_map (Rle.read_block ((n + 1) / 2) input) (nibbles n))
        | inr g ↦ elim (Bool-cases (leb range 0xff)) [
          | inl t ↦ rw (f, g, t)
          | inr h ↦ rw (f, g, h) (skip_integers-parse n input)
        ]
      ]
    ]

both_integers :
    (m : Result (ℕ × List ℕ)) (gcd n : ℕ)
    → (m >>= λ a. parse_integer a.1 >>= λ b. skip_steps a.0 (u64 (b.0 + a.0)) n b.1)
      ≡ behind (
          m >>= λ a. parse_integer a.1 >>= λ b. read_steps a.0 (u64 (b.0 + a.0)) n b.1 >>= λ s.
          ok (map (λ x. u64 (gcd * u64 (a.0 + x))) s.0, s.1))
both_integers (ok a) gcd n = elim (Result-cases (parse_integer a.1)) [
  | inl (b, e) ↦ rw e (
      skip_steps-read a.0 (u64 (b.0 + a.0)) n b.1
      ∙ behind_map (read_steps a.0 (u64 (b.0 + a.0)) n b.1) (map (λ x. u64 (gcd * u64 (a.0 + x)))))
  | inr (x, e) ↦ rw e
]
both_integers (err x) gcd n = refl

pub skip_increments-read :
    (gcd n : ℕ) (input : List ℕ) → skip_increments gcd n input ≡ behind (increments gcd n input)
unfolding skip_increments increments
skip_increments-read gcd n input = elim (Bool-cases (gcd == 0)) [
  | inl t ↦ rw t
  | inr f ↦ rw f (both_integers (parse_integer input) gcd n)
]
