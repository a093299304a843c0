-- ===== src/Formats/Lengths.antt =====
-- How many values the readers of src/parse.cc give.
use mathlib.Core.List.{map}
use cantera_table.Shared.{
  ℕ, zero, suc, ◌+◌, ◌-◌, ◌*◌, ◌/◌, ◌^◌, ◌≡◌, ◌∙◌, refl, ap, inl, inr, List, [], ◌∷◌, leb, ◌==◌,
  length, length-map, length-replicate, Bool-cases,
}
use cantera_table.Shared.Words.{u64}
use cantera_table.Result.{Result, ok, err, ◌>>=◌, Result-cases}
use cantera_table.Integer.{parse_integer}
use cantera_table.Rle
use cantera_table.Formats.Flexi.{running, records, nibbles, parse_integers, read_steps, increments}

length-nibbles : (n : ℕ) (bytes : List ℕ) → length (nibbles n bytes) ≡ n
unfolding nibbles
length-nibbles zero bytes = refl
length-nibbles (suc n) [] = ap suc (length-nibbles n [])
length-nibbles (suc zero) (b ∷ bytes) = refl
length-nibbles (suc (suc n)) (b ∷ bytes) = ap suc (ap suc (length-nibbles n bytes))

pub length-running : (o : ℕ) (ds : List ℕ) → length (running o ds) ≡ length ds
unfolding running
length-running o [] = refl
length-running o (d ∷ ds) = ap suc (length-running (u64 (o + d)) ds)

pub length-records : (os ss : List ℕ) → length (records os ss) ≡ length os
unfolding records
length-records [] ss = refl
length-records (o ∷ os) [] = ap suc (length-records os [])
length-records (o ∷ os) (s ∷ ss) = ap suc (length-records os ss)

-- As many values as asked for, unless reading fails.
abbrev pub Counts {ℓ κ} : {A : Type ℓ} {S : Type κ} → ℕ → Result (List A × S) → Type 0
Counts n (ok p) = length p.0 ≡ n
Counts n (err x) = Unit

Counts-cons {ℓ κ} :
    {A : Type ℓ} {S : Type κ} (m : Result (A × S)) (r : S → Result (List A × S)) (n : ℕ)
    → ((i : S) → Counts n (r i))
    → Counts (suc n) (m >>= λ p. r p.1 >>= λ q. ok (p.0 ∷ q.0, q.1))
Counts-cons (ok p) r n h = elim (Result-cases (r p.1)) [
  | inl (q, e) ↦ rw e (ap suc (rw (e, Counts) at (h p.1)))
  | inr (x, e) ↦ rw e tt
]
Counts-cons (err x) r n h = tt

read_bytes-Counts : (n : ℕ) (c : Rle.Reader) → Counts n (Rle.read_bytes n c)
unfolding Rle.read_bytes
read_bytes-Counts zero c = refl
read_bytes-Counts (suc n) c =
    Counts-cons (Rle.read_byte c) (Rle.read_bytes n) n (read_bytes-Counts n)

read_block-Counts : (n : ℕ) (input : List ℕ) → Counts n (Rle.read_block n input)
unfolding Rle.read_block
read_block-Counts n input = elim (Result-cases (Rle.read_bytes n (Rle.init_read input))) [
  | inl (p, e) ↦ rw e (elim (Bool-cases (p.1.run == 0)) [
    | inl t ↦ rw t (rw (e, Counts) at (read_bytes-Counts n (Rle.init_read input)))
    | inr f ↦ rw f tt
  ])
  | inr (x, e) ↦ rw e tt
]

parse_integers-Counts : (n : ℕ) (input : List ℕ) → Counts n (parse_integers n input)
unfolding parse_integers
parse_integers-Counts zero input = refl
parse_integers-Counts (suc n) input =
    Counts-cons (parse_integer input) (parse_integers n) n (parse_integers-Counts n)

Counts-nibbles :
    (n : ℕ) (m : Result (List ℕ × List ℕ)) → Counts n (m >>= λ p. ok (nibbles n p.0, p.1))
Counts-nibbles n (ok p) = length-nibbles n p.0
Counts-nibbles n (err x) = tt

Counts-map :
    (n : ℕ) (g : ℕ → ℕ) (m : Result (List ℕ × List ℕ))
    → Counts n m
    → Counts n (m >>= λ p. ok (map g p.0, p.1))
Counts-map n g (ok p) h = length-map p.0 g ∙ h
Counts-map n g (err x) h = tt

read_steps-Counts : (a b n : ℕ) (input : List ℕ) → Counts n (read_steps a b n input)
unfolding read_steps
read_steps-Counts a b n input =
    let range = u64 (b + (2 ^ 64 - a)) in
    elim (Bool-cases (a == b)) [
      | inl t ↦ rw t (length-replicate n 0)
      | inr f ↦ elim (Bool-cases (leb range 0x0f)) [
        | inl t ↦ rw (f, t) (Counts-nibbles n (Rle.read_block ((n + 1) / 2) input))
        | inr g ↦ elim (Bool-cases (leb range 0xff)) [
          | inl t ↦ rw (f, g, t) (read_block-Counts n input)
          | inr h ↦ rw (f, g, h) (parse_integers-Counts n input)
        ]
      ]
    ]

pub increments-Counts : (gcd n : ℕ) (input : List ℕ) → Counts n (increments gcd n input)
unfolding increments
increments-Counts gcd n input = elim (Bool-cases (gcd == 0)) [
  | inl t ↦ rw t (length-replicate n 0)
  | inr f ↦ elim (Result-cases (parse_integer input)) [
    | inl (a, e) ↦ elim (Result-cases (parse_integer a.1)) [
      | inl (b, e') ↦
          rw (f, e, e')
            (Counts-map n (λ x. u64 (gcd * u64 (a.0 + x))) (read_steps a.0 (u64 (b.0 + a.0)) n b.1)
              (read_steps-Counts a.0 (u64 (b.0 + a.0)) n b.1))
      | inr (x, e') ↦ rw (f, e, e') tt
    ]
    | inr (x, e) ↦ rw (f, e) tt
  ]
]
