-- ===== src/Query/Duplicates/Laws.antt =====
-- Merging the records of one offset.
use cantera_table.Shared.{
  ℕ, suc, ◌≤◌, ◌≡◌, refl, sym, ap, List, [], ◌∷◌, Bool, true, ◌==◌, arith, Bool-cases, inl, inr,
}
use cantera_table.Score.{OffsetScore, float_lt}
use cantera_table.Query.Sets.Laws.{has, SortedFrom, weaken}
use cantera_table.Query.Duplicates.{
  agree, remove_after, remove_duplicates, best_after, operator_max, operator_min,
}

-- In the order of the offsets, each once.
abbrev pub StrictFrom : ℕ → List OffsetScore → Type 0
StrictFrom p [] = Unit {0}
StrictFrom p (v ∷ vs) = (p ≤ v.offset) × StrictFrom (suc v.offset) vs

-- The two loops differ only in how they write the comparison.
remove_after-best :
    (u : Bool) (k : OffsetScore) (vs : List OffsetScore)
    → remove_after u k vs ≡ best_after (λ new old. agree u (float_lt old new)) k vs
unfolding remove_after best_after
remove_after-best u k [] = refl
remove_after-best u k (v ∷ vs) = elim (Bool-cases (v.offset == k.offset)) [
  | inl t ↦ elim (Bool-cases (agree u (float_lt k.score v.score))) [
    | inl b ↦ rw (t, b) (remove_after-best u (record k { score = v.score }) vs)
    | inr b ↦ rw (t, b) (remove_after-best u k vs)
  ]
  | inr f ↦ rw f (ap (λ (l : List OffsetScore). k ∷ l) (remove_after-best u v vs))
]

-- The operator MAX and the removal of duplicates that keeps the maximum are one function.
pub operator_max-remove_duplicates :
    (l : List OffsetScore) → operator_max l ≡ remove_duplicates true l
unfolding operator_max remove_duplicates
operator_max-remove_duplicates [] = refl
operator_max-remove_duplicates (v ∷ vs) = sym (remove_after-best true v vs)

module _ (better : ℕ → ℕ → Bool) where
  has-best_after :
      (o : ℕ) (k : OffsetScore) (vs : List OffsetScore)
      → has o (best_after better k vs) ≡ has o (k ∷ vs)
  unfolding best_after
  has-best_after o k [] = refl
  has-best_after o k (v ∷ vs) = ground (
    arith,
    has-best_after o v vs,
    has-best_after o k vs,
    has-best_after o (record k { score = v.score }) vs,
  )

  best_after-StrictFrom :
      (p : ℕ) (k : OffsetScore) (vs : List OffsetScore)
      → SortedFrom p (k ∷ vs)
      → StrictFrom p (best_after better k vs)
  unfolding best_after
  best_after-StrictFrom p k [] h = h
  best_after-StrictFrom p k (v ∷ vs) h = elim (Bool-cases (v.offset == k.offset)) [
    | inl t ↦
        let same : SortedFrom k.offset vs = weaken k.offset v.offset vs h.1.0 h.1.1 in
        elim (Bool-cases (better v.score k.score)) [
          | inl b ↦
              rw (t, b) (best_after-StrictFrom p (record k { score = v.score }) vs (h.0, same))
          | inr b ↦ rw (t, b) (best_after-StrictFrom p k vs (h.0, same))
        ]
    | inr f ↦
        rw (f, StrictFrom)
          (h.0, best_after-StrictFrom (suc k.offset) v vs (ground (arith, h.1.0), h.1.1))
  ]

Strict-SortedFrom : (p : ℕ) (l : List OffsetScore) → StrictFrom p l → SortedFrom p l
Strict-SortedFrom p [] h = tt
Strict-SortedFrom p (v ∷ vs) h =
    (h.0, weaken v.offset (suc v.offset) vs (omega arith) (Strict-SortedFrom (suc v.offset) vs h.1))

-- Removing duplicates keeps the set of offsets.
pub has-remove_duplicates :
    (o : ℕ) (u : Bool) (l : List OffsetScore) → has o (remove_duplicates u l) ≡ has o l
unfolding remove_duplicates
has-remove_duplicates o u [] = refl
has-remove_duplicates o u (v ∷ vs) = rw (remove_after-best u v vs) (has-best_after _ o v vs)

-- On an array in the order of offsets RemoveDuplicates leaves strictly increasing offsets.
pub remove_duplicates-StrictFrom :
    (p : ℕ) (u : Bool) (l : List OffsetScore)
    → SortedFrom p l
    → StrictFrom p (remove_duplicates u l)
unfolding remove_duplicates
remove_duplicates-StrictFrom p u [] h = tt
remove_duplicates-StrictFrom p u (v ∷ vs) h =
    rw (remove_after-best u v vs) (best_after-StrictFrom _ p v vs h)

-- An operation that keeps the offsets as a set, and their order.
pub record KeepsOffsets (f : List OffsetScore → List OffsetScore) : Type 0 where
  pub set : (o : ℕ) (l : List OffsetScore) → has o (f l) ≡ has o l
  pub order : (p : ℕ) (l : List OffsetScore) → SortedFrom p l → SortedFrom p (f l)

pub operator_max-KeepsOffsets : KeepsOffsets operator_max
operator_max-KeepsOffsets = record { set = set; order = order }
  where
    set : (o : ℕ) (l : List OffsetScore) → has o (operator_max l) ≡ has o l
    set o [] = unfold operator_max in refl
    set o (v ∷ vs) = unfold operator_max in has-best_after _ o v vs

    order : (p : ℕ) (l : List OffsetScore) → SortedFrom p l → SortedFrom p (operator_max l)
    order p [] h = unfold operator_max in tt
    order p (v ∷ vs) h =
        unfold operator_max in Strict-SortedFrom p _ (best_after-StrictFrom _ p v vs h)

pub operator_min-KeepsOffsets : KeepsOffsets operator_min
operator_min-KeepsOffsets = record { set = set; order = order }
  where
    set : (o : ℕ) (l : List OffsetScore) → has o (operator_min l) ≡ has o l
    set o [] = unfold operator_min in refl
    set o (v ∷ vs) = unfold operator_min in has-best_after _ o v vs

    order : (p : ℕ) (l : List OffsetScore) → SortedFrom p l → SortedFrom p (operator_min l)
    order p [] h = unfold operator_min in tt
    order p (v ∷ vs) h =
        unfold operator_min in Strict-SortedFrom p _ (best_after-StrictFrom _ p v vs h)
