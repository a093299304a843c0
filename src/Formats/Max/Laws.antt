-- ===== src/Formats/Max/Laws.antt =====
-- `GetMaxOffsetOroch` against `ParseOffsetScoreOroch` of src/parse.cc.
use cantera_table.Shared.{
  ℕ, ◌+◌, ◌-◌, ◌≡◌, refl, ap, inl, inr, List, [], ◌∷◌, Bool, ◌==◌, last_or, Bool-cases,
}
use cantera_table.Shared.Words.{u64}
use cantera_table.Result.{Result, ok, err, require, Result-cases, ◌>>=◌}
use cantera_table.Score.{OffsetScore, offset_score}
use cantera_table.Formats.Oroch.{OrochCodec}
use cantera_table.Formats.Flexi.{running, records}
use cantera_table.Formats.Delta.{delta_scores, skip_delta_scores, parse_delta, parse_delta_records}
use cantera_table.Formats.Agreement.{skip_delta_scores-read}
use cantera_table.Formats.Max.{sum_from, max_delta}

abbrev offsets : List OffsetScore → List ℕ
offsets [] = []
offsets (v ∷ vs) = v.offset ∷ offsets vs

abbrev last_of : List ℕ → ℕ
last_of [] = 0
last_of (o ∷ os) = last_or o os

-- The offset of the last record, or 0 where there is none, and the bytes behind.
abbrev pub last_offset : List OffsetScore × List ℕ → Result (ℕ × List ℕ)
last_offset p = ok (last_of (offsets p.0), p.1)

sum_from-running : (o : ℕ) (ds : List ℕ) → sum_from o ds ≡ last_or o (running o ds)
unfolding sum_from running
sum_from-running o [] = refl
sum_from-running o (d ∷ ds) = sum_from-running (u64 (o + d)) ds

offsets-records : (os ss : List ℕ) → offsets (records os ss) ≡ os
unfolding records offset_score
offsets-records [] ss = refl
offsets-records (o ∷ os) [] = ap (λ t. o ∷ t) (offsets-records os [])
offsets-records (o ∷ os) (s ∷ ss) = ap (λ t. o ∷ t) (offsets-records os ss)

last_record :
    (o : ℕ) (ds ss : List ℕ) → sum_from o ds ≡ last_of (offsets (records (o ∷ running o ds) ss))
last_record o ds ss = rw (offsets-records (o ∷ running o ds) ss) (sum_from-running o ds)

no_record :
    (rest : List ℕ)
    → elim rest as (λ x. Result (ℕ × List ℕ)) [ [] ↦ ok (0, []) | _ ∷ _ ↦ err require ] ≡ (
        elim rest as (λ x. Result (List OffsetScore × List ℕ)) [
          | [] ↦ ok ([], [])
          | _ ∷ _ ↦ err require
        ]
        >>= last_offset)
no_record [] = refl
no_record (b ∷ rest) = refl

module _ (c : OrochCodec) where
  scores_behind :
      (integer_score : Bool) (count o : ℕ) (ds input : List ℕ)
      → (skip_delta_scores c integer_score count input >>= λ rest. ok (sum_from o ds, rest)) ≡ (
          delta_scores c integer_score count input
          >>= (λ s. ok (records (o ∷ running o ds) s.0, s.1))
          >>= last_offset)
  scores_behind integer_score count o ds input =
      elim (Result-cases (delta_scores c integer_score count input)) [
        | inl (s, e) ↦
            rw (skip_delta_scores-read c integer_score count input, e)
              (ap (λ (n : ℕ). ok (n, s.1)) (last_record o ds s.0))
        | inr (x, e) ↦ rw (skip_delta_scores-read c integer_score count input, e)
      ]

  -- On any bytes GetMaxOffsetOroch finds the offset of the last record that ParseOffsetScoreOroch reads, or 0
  -- where it reads none, stops where it stops, and fails where it fails.
  pub max_delta-parse :
      (integer_score : Bool) (input : List ℕ)
      → max_delta c integer_score input ≡ (parse_delta c integer_score input >>= last_offset)
  unfolding max_delta parse_delta parse_delta_records
  max_delta-parse integer_score input = elim (Result-cases (c.varint_decode input)) [
    | inl (n, e) ↦ elim (Bool-cases (n.0 == 0)) [
      | inl t ↦ rw (e, t) (no_record n.1)
      | inr f ↦ elim (Result-cases (c.varint_decode n.1)) [
        | inl (o, e') ↦ elim (Result-cases (c.unsigned_decode (n.0 - 1) o.1)) [
          | inl (d, e'') ↦ rw (e, f, e', e'') (scores_behind integer_score n.0 o.0 d.0 d.1)
          | inr (x, e'') ↦ rw (e, f, e', e'')
        ]
        | inr (x, e') ↦ rw (e, f, e')
      ]
    ]
    | inr (x, e) ↦ rw e
  ]
