-- ===== src/Query/Sets/Laws.antt =====
-- What the three loops leave, on arrays in the order of their offsets.
use cantera_table.Shared.{
  ℕ, ◌≤◌, ◌<◌, ◌≡◌, refl, sym, ap, ◌∙◌, List, [], ◌∷◌, Bool, true, false, not, ◌||◌, ◌&&◌, ltb,
  ◌==◌, if◌then◌else◌, arith, Bool-cases, inl, inr,
}
use native.Mathlib.Decide.{ℕ_discrete}
use cantera_table.Score.{OffsetScore}
use cantera_table.Query.Sets.{
  union, copy_run, intersect_at, intersect, drop_run, subtract_at, subtract,
}

-- Whether an offset occurs in an array.
abbrev pub has : ℕ → List OffsetScore → Bool
has o [] = false
has o (v ∷ vs) = v.offset == o || has o vs

-- In the order of the offsets, from `p` on; equal ones may follow one another.
abbrev pub SortedFrom : ℕ → List OffsetScore → Type 0
SortedFrom p [] = Unit {0}
SortedFrom p (v ∷ vs) = (p ≤ v.offset) × SortedFrom v.offset vs

-- The elements that pass a test, in their order.
abbrev pub keep {ℓ} : {A : Type ℓ} → (A → Bool) → List A → List A
keep p [] = []
keep p (v ∷ vs) = let later = keep p vs in if p v then v ∷ later else later

-- UnionOffsets holds an offset exactly if one of its arguments does.
pub has-union : (o : ℕ) (l r : List OffsetScore) → has o (union l r) ≡ (has o l || has o r)
unfolding union
has-union o [] r = refl
has-union o (a ∷ l) [] = ground arith
has-union o (a ∷ l) (b ∷ r) =
    ground (arith, has-union o l (b ∷ r), has-union o l r, has-union o (a ∷ l) r)

pub union-SortedFrom :
    (p : ℕ) (l r : List OffsetScore) → SortedFrom p l → SortedFrom p r → SortedFrom p (union l r)
unfolding union
union-SortedFrom p [] r hl hr = hr
union-SortedFrom p (a ∷ l) [] hl hr = hl
union-SortedFrom p (a ∷ l) (b ∷ r) hl hr = elim (Bool-cases (ltb a.offset b.offset)) [
  | inl t ↦ rw (t, SortedFrom) (hl.0, union-SortedFrom a.offset l (b ∷ r) hl.1 (ground arith, hr.1))
  | inr f ↦ elim (Bool-cases (a.offset == b.offset)) [
    | inl t ↦
        let same : a.offset ≡ b.offset = ground arith in
        rw (f, t, SortedFrom) (hr.0, union-SortedFrom b.offset l r (rw same at hl.1) hr.1)
    | inr g ↦
        rw (f, g, SortedFrom) (hr.0, union-SortedFrom b.offset (a ∷ l) r (ground arith, hl.1) hr.1)
  ]
]

pub weaken : (p q : ℕ) (l : List OffsetScore) → p ≤ q → SortedFrom q l → SortedFrom p l
weaken p q [] h s = tt
weaken p q (v ∷ vs) h s = (omega arith, s.1)

has_below : (o p : ℕ) (l : List OffsetScore) → o < p → SortedFrom p l → has o l ≡ false
has_below o p [] h s = refl
has_below o p (v ∷ vs) h s = ground (arith, has_below o v.offset vs (omega arith) s.1)

-- Behind `b`'s offset, `b` does not matter.
keep_above :
    (f : Bool → Bool) (b : OffsetScore) (r : List OffsetScore) (p : ℕ) (l : List OffsetScore)
    → b.offset < p
    → SortedFrom p l
    → keep (λ v. f (has v.offset r)) l ≡ keep (λ v. f (has v.offset (b ∷ r))) l
keep_above f b r p [] h s = refl
keep_above f b r p (v ∷ vs) h s =
    let other : (b.offset == v.offset) ≡ false = ground arith in
    rw (other, keep_above f b r v.offset vs (omega arith) s.1)

module _ (b : OffsetScore) (r : List OffsetScore) (next : List OffsetScore → List OffsetScore)
    (ordered : SortedFrom b.offset r) where
  copy_run-keep :
      (l : List OffsetScore)
      → ((l : List OffsetScore) → SortedFrom b.offset l → next l ≡ keep (λ v. has v.offset r) l)
      → SortedFrom b.offset l
      → copy_run b.offset next l ≡ keep (λ v. has v.offset (b ∷ r)) l
  unfolding copy_run
  copy_run-keep [] h s = h [] tt
  copy_run-keep (a ∷ l) h s = elim (Bool-cases (a.offset == b.offset)) [
    | inl t ↦
        let same : (b.offset == a.offset) ≡ true = ground arith in
        let from : SortedFrom b.offset l = weaken b.offset a.offset l (omega arith) s.1 in
        rw (t, same, copy_run-keep l h from)
    | inr f ↦
        rw f (
          h (a ∷ l) s ∙ keep_above (λ x. x) b r a.offset (a ∷ l) (ground arith) (ground arith, s.1))
  ]

  intersect_at-keep :
      (p : ℕ) (l : List OffsetScore)
      → ((q : ℕ) (l : List OffsetScore) → SortedFrom q l → next l ≡ keep (λ v. has v.offset r) l)
      → SortedFrom p l
      → intersect_at b next l ≡ keep (λ v. has v.offset (b ∷ r)) l
  unfolding intersect_at
  intersect_at-keep p [] h s = refl
  intersect_at-keep p (a ∷ l) h s = elim (Bool-cases (a.offset == b.offset)) [
    | inl t ↦
        let same : a.offset ≡ b.offset = ground arith in
        let there : (b.offset == a.offset) ≡ true = ground arith in
        rw (t, there)
          (ap (λ (x : List OffsetScore). a ∷ x)
            (rw same (copy_run-keep l (h b.offset) (rw same at s.1))))
    | inr f ↦
        let apart : (b.offset == a.offset) ≡ false = ground arith in
        elim (Bool-cases (ltb a.offset b.offset)) [
          | inl t ↦
              rw (f, t, apart, has_below a.offset b.offset r (ground arith) ordered)
                (intersect_at-keep a.offset l h s.1)
          | inr g ↦
              rw (f, g)
                (h p (a ∷ l) s
                  ∙ keep_above (λ x. x) b r a.offset (a ∷ l) (ground arith) (omega arith, s.1))
        ]
  ]

  drop_run-keep :
      (l : List OffsetScore)
      → ((l : List OffsetScore)
          → SortedFrom b.offset l
          → next l ≡ keep (λ v. not (has v.offset r)) l)
      → SortedFrom b.offset l
      → drop_run b.offset next l ≡ keep (λ v. not (has v.offset (b ∷ r))) l
  unfolding drop_run
  drop_run-keep [] h s = h [] tt
  drop_run-keep (a ∷ l) h s = elim (Bool-cases (a.offset == b.offset)) [
    | inl t ↦
        let same : (b.offset == a.offset) ≡ true = ground arith in
        let from : SortedFrom b.offset l = weaken b.offset a.offset l (omega arith) s.1 in
        rw (t, same, drop_run-keep l h from)
    | inr f ↦
        rw f (h (a ∷ l) s ∙ keep_above not b r a.offset (a ∷ l) (ground arith) (ground arith, s.1))
  ]

  subtract_at-keep :
      (p : ℕ) (l : List OffsetScore)
      → ((q : ℕ) (l : List OffsetScore)
          → SortedFrom q l
          → next l ≡ keep (λ v. not (has v.offset r)) l)
      → SortedFrom p l
      → subtract_at b next l ≡ keep (λ v. not (has v.offset (b ∷ r))) l
  unfolding subtract_at
  subtract_at-keep p [] h s = refl
  subtract_at-keep p (a ∷ l) h s = elim (Bool-cases (a.offset == b.offset)) [
    | inl t ↦
        let same : a.offset ≡ b.offset = ground arith in
        let there : (b.offset == a.offset) ≡ true = ground arith in
        rw (t, there) (rw same (drop_run-keep l (h b.offset) (rw same at s.1)))
    | inr f ↦
        let apart : (b.offset == a.offset) ≡ false = ground arith in
        elim (Bool-cases (ltb a.offset b.offset)) [
          | inl t ↦
              rw (f, t, apart, has_below a.offset b.offset r (ground arith) ordered)
                (ap (λ (x : List OffsetScore). a ∷ x) (subtract_at-keep a.offset l h s.1))
          | inr g ↦
              rw (f, g)
                (h p (a ∷ l) s
                  ∙ keep_above not b r a.offset (a ∷ l) (ground arith) (omega arith, s.1))
        ]
  ]

keep_none : (l : List OffsetScore) → keep (λ v. false) l ≡ []
keep_none [] = refl
keep_none (v ∷ vs) = keep_none vs

keep_all : (l : List OffsetScore) → keep (λ v. true) l ≡ l
keep_all [] = refl
keep_all (v ∷ vs) = ap (λ (x : List OffsetScore). v ∷ x) (keep_all vs)

-- On arrays in order, IntersectOffsets leaves exactly the elements of `lhs`, duplicates included,
-- whose offset occurs in `rhs`, with their own scores and in their order.
pub intersect-keep :
    (p q : ℕ) (r l : List OffsetScore)
    → SortedFrom p r
    → SortedFrom q l
    → intersect r l ≡ keep (λ v. has v.offset r) l
unfolding intersect
intersect-keep p q [] l hr hl = sym (keep_none l)
intersect-keep p q (b ∷ r) l hr hl =
    intersect_at-keep b r (intersect r) hr.1 q l (λ q' l' h. intersect-keep b.offset q' r l' hr.1 h)
      hl

-- On arrays in order, SubtractOffsets leaves exactly the elements of `lhs` whose offset does not
-- occur in `rhs`: every duplicate of an offset of `rhs` goes.
pub subtract-keep :
    (p q : ℕ) (r l : List OffsetScore)
    → SortedFrom p r
    → SortedFrom q l
    → subtract r l ≡ keep (λ v. not (has v.offset r)) l
unfolding subtract
subtract-keep p q [] l hr hl = sym (keep_all l)
subtract-keep p q (b ∷ r) l hr hl =
    subtract_at-keep b r (subtract r) hr.1 q l (λ q' l' h. subtract-keep b.offset q' r l' hr.1 h) hl

pub has-keep :
    (o : ℕ) (f : ℕ → Bool) (l : List OffsetScore)
    → has o (keep (λ v. f v.offset) l) ≡ (f o && has o l)
has-keep o f [] = ground arith
has-keep o f (v ∷ vs) = elim (ℕ_discrete v.offset o) [
  | yes same ↦ elim (Bool-cases (f o)) [
    | inl t ↦ rw (same, t) (ground (arith, same))
    | inr g ↦ rw (same, g) (has-keep o f vs ∙ ground (arith, g))
  ]
  | no other ↦ ground (arith, has-keep o f vs)
]

pub keep-SortedFrom :
    (p : ℕ) (f : OffsetScore → Bool) (l : List OffsetScore)
    → SortedFrom p l
    → SortedFrom p (keep f l)
keep-SortedFrom p f [] h = tt
keep-SortedFrom p f (v ∷ vs) h = elim (Bool-cases (f v)) [
  | inl t ↦ rw (t, SortedFrom) (h.0, keep-SortedFrom v.offset f vs h.1)
  | inr g ↦ rw (g, SortedFrom) (keep-SortedFrom p f vs (weaken p v.offset vs h.0 h.1))
]
