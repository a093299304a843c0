-- ===== src/Formats/Encode/Same.antt =====
-- When records that src/parse.cc reads are those that src/format.cc wrote.
use cantera_table.Shared.{
  ℕ, ◌≡◌, ◌⊎◌, refl, List, [], ◌∷◌, Bool, true, false, if◌then◌else◌, All, Bool-cases, inl, inr,
}
use mathlib.Core.List.{map}
use cantera_table.Score.{OffsetScore, offset_score, has_bands, float_eq}
use cantera_table.Prediction.Offsets.{offsets}
use cantera_table.Prediction.RoundTrip.{kept}
use cantera_table.Formats.Flexi.{records}
use cantera_table.Formats.Encode.{any_bands}

-- A record and what is read back of it: the score is equal as a float, or the same bits.
pub record IsSame (v w : OffsetScore) : Type 0 where
  pub score : (w.score ≡ v.score) ⊎ (float_eq w.score v.score ≡ true)
  pub whole : w ≡ kept (record v { score = w.score })

-- Records and what is read back of them, one by one.
abbrev pub AllSame : List OffsetScore → List OffsetScore → Type 0
AllSame [] [] = Unit
AllSame [] (w ∷ ws) = ⊥
AllSame (v ∷ vs) [] = ⊥
AllSame (v ∷ vs) (w ∷ ws) = IsSame v w × AllSame vs ws

pub any_bands-head :
    (v : OffsetScore) (vs : List OffsetScore)
    → any_bands (v ∷ vs) ≡ false
    → (has_bands v ≡ false) × (any_bands vs ≡ false)
unfolding any_bands
any_bands-head v vs h = elim (Bool-cases (has_bands v)) [
  | inl t ↦ absurd (let f : true ≡ false = rw t at h in cc)
  | inr f ↦ (f, rw f at h)
]

-- A record without percentiles comes back as its offset and a score that is the same.
pub offset_score-IsSame :
    (v : OffsetScore) (s : ℕ)
    → has_bands v ≡ false
    → ((s ≡ v.score) ⊎ (float_eq s v.score ≡ true))
    → IsSame v (offset_score v.offset s)
unfolding offset_score has_bands
offset_score-IsSame v s none same = record { score = same; whole = rw none }

pub kept-IsSame : (v : OffsetScore) → IsSame v (kept v)
unfolding offset_score has_bands
kept-IsSame v = pick (has_bands v) refl
  where
    pick : (b : Bool) → has_bands v ≡ b → IsSame v (if b then v else offset_score v.offset v.score)
    pick true h = record { score = inl refl; whole = rw h }
    pick false h = record { score = inl refl; whole = rw h }

pub kept-AllSame : (vs : List OffsetScore) → AllSame vs (map kept vs)
kept-AllSame [] = tt
kept-AllSame (v ∷ vs) = (kept-IsSame v, kept-AllSame vs)

pub records-AllSame :
    (g : OffsetScore → ℕ) (vs : List OffsetScore)
    → any_bands vs ≡ false
    → All (λ v. (g v ≡ v.score) ⊎ (float_eq (g v) v.score ≡ true)) vs
    → AllSame vs (records (offsets vs) (map g vs))
unfolding records
records-AllSame g [] none h = tt
records-AllSame g (v ∷ vs) none h =
    let parts = any_bands-head v vs none in
    (offset_score-IsSame v (g v) parts.0 h.0, records-AllSame g vs parts.1 h.1)

pub same_bits :
    (vs : List OffsetScore) → All (λ v. (v.score ≡ v.score) ⊎ (float_eq v.score v.score ≡ true)) vs
same_bits [] = tt
same_bits (v ∷ vs) = (inl refl, same_bits vs)
