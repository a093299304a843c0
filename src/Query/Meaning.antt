-- ===== src/Query/Meaning.antt =====
-- Which offsets a query finds, as a truth value for each offset, and that the processor finds them.
use cantera_table.Shared.{
  ℕ, ◌+◌, ◌≡◌, refl, ap, ◌∙◌, List, [], ◌∷◌, Bool, false, not, ◌||◌, ◌&&◌, ◌==◌, arith, inl, inr,
  All, last_or, Option, none, some,
}
use mathlib.Core.List.{map}
use cantera_table.Shared.Words.{u64}
use cantera_table.Result.{Result, ok, err, ◌>>=◌, Result-cases}
use cantera_table.Score.{OffsetScore, offset_score}
use cantera_table.Query.Sets.Laws.{
  has, SortedFrom, has-union, union-SortedFrom, intersect-keep, subtract-keep, has-keep,
  keep-SortedFrom,
}
use cantera_table.Query.Duplicates.{remove_duplicates}
use cantera_table.Query.Duplicates.Laws.{
  StrictFrom, KeepsOffsets, operator_max-KeepsOffsets, operator_min-KeepsOffsets,
  has-remove_duplicates, remove_duplicates-StrictFrom,
}
use cantera_table.Query.{
  Query, key, leaf, binary, scalar, unary, or_, and_, subtract_, UnaryOperator, max_, min_, negate,
  Schema, find_key, lookup_token, after_left, after_unary, negate_score, process_sub_query,
  process_query,
}

-- Keywords and keys under OR, AND, SUBTRACT and the three unary operators.
abbrev pub IsBoolean : Query → Type 0
IsBoolean (key k) = Unit {0}
IsBoolean (leaf t) = Unit {0}
IsBoolean (binary or_ l r v w) = IsBoolean l × IsBoolean r
IsBoolean (binary and_ l r v w) = IsBoolean l × IsBoolean r
IsBoolean (binary subtract_ l r v w) = IsBoolean l × IsBoolean r
IsBoolean (unary op l) = IsBoolean l
IsBoolean _ = ⊥

-- The records of a keyword: those of the last table that has it.
abbrev pub postings : Result (List (List OffsetScore)) → List OffsetScore
postings (ok calls) = last_or [] calls
postings (err x) = []

-- Whether the query finds an offset.
abbrev pub finds : Schema → Query → ℕ → Bool
finds s (key k) o = has o (find_key s.summary_tables k)
finds s (leaf t) o = has o (postings (lookup_token s t))
finds s (binary or_ l r v w) o = finds s l o || finds s r o
finds s (binary and_ l r v w) o = finds s l o && finds s r o
finds s (binary subtract_ l r v w) o = finds s l o && not (finds s r o)
finds s (unary op l) o = finds s l o
finds s _ o = false

-- A lookup that succeeds, with the records of each table in the order of their offsets.
abbrev pub IsOrdered : Result (List (List OffsetScore)) → Type 0
IsOrdered (ok calls) = All (SortedFrom 0) calls
IsOrdered (err x) = ⊥

-- The lookups of the query's keywords succeed so.
abbrev pub HasOrdered : Schema → Query → Type 0
HasOrdered s (key k) = Unit {0}
HasOrdered s (leaf t) = IsOrdered (lookup_token s t)
HasOrdered s (binary op l r v w) = HasOrdered s l × HasOrdered s r
HasOrdered s (scalar op l v w) = HasOrdered s l
HasOrdered s (unary op l) = HasOrdered s l

-- A result with exactly the offsets that a test accepts, in order.
abbrev Finds : (ℕ → Bool) → Result (List OffsetScore) → Type 0
Finds f (ok r) = SortedFrom 0 r × ((o : ℕ) → has o r ≡ f o)
Finds f (err x) = ⊥

last_or-SortedFrom :
    (l : List OffsetScore) (ls : List (List OffsetScore))
    → SortedFrom 0 l
    → All (SortedFrom 0) ls
    → SortedFrom 0 (last_or l ls)
last_or-SortedFrom l [] h hs = h
last_or-SortedFrom l (m ∷ ms) h hs = last_or-SortedFrom m ms hs.0 hs.1

Finds-leaf :
    (r : Result (List (List OffsetScore)))
    → IsOrdered r
    → Finds (λ o. has o (postings r)) (r >>= λ calls. ok (last_or [] calls))
Finds-leaf (ok calls) h = (last_or-SortedFrom [] calls tt h, λ o. refl)
Finds-leaf (err x) h = elim h [ ]

find_key-SortedFrom :
    (tables : List ((List ℕ → Option ℕ) × ℕ)) (k : List ℕ) → SortedFrom 0 (find_key tables k)
unfolding find_key
find_key-SortedFrom [] k = tt
find_key-SortedFrom ((table, base) ∷ tables) k =
    elim (table k)
      as (λ o. SortedFrom 0 (elim o [
        | none ↦ find_key tables k
        | some offset ↦ offset_score (u64 (offset + base)) 0 ∷ []
      ])) [ none ↦ find_key-SortedFrom tables k | some offset ↦ (omega arith, tt) ]

-- The three set operators, from what their operands find. `right` is the run of the right operand.
module _ (s : Schema) (v w : ℕ) (f g : ℕ → Bool) where
  or-Finds :
      (left right : Result (List OffsetScore))
      → Finds f left
      → Finds g right
      → Finds (λ o. f o || g o) (left >>= after_left s or_ right v w)
  unfolding after_left
  or-Finds (err x) right hl hr = elim hl [ ]
  or-Finds (ok l) (err x) hl hr = elim hr [ ]
  or-Finds (ok []) (ok r) hl hr = (hr.0, λ o. ground (arith, hl.1 o, hr.1 o))
  or-Finds (ok (a ∷ l)) (ok r) hl hr =
      (union-SortedFrom 0 (a ∷ l) r hl.0 hr.0, λ o. has-union o (a ∷ l) r ∙ cc (hl.1 o, hr.1 o))

  and-Finds :
      (left right : Result (List OffsetScore))
      → Finds f left
      → Finds g right
      → Finds (λ o. f o && g o) (left >>= after_left s and_ right v w)
  unfolding after_left
  and-Finds (err x) right hl hr = elim hl [ ]
  and-Finds (ok l) (err x) hl hr = elim hr [ ]
  and-Finds (ok []) (ok r) hl hr = (tt, λ o. ground (arith, hl.1 o))
  and-Finds (ok (a ∷ l)) (ok r) hl hr = rw (intersect-keep 0 0 r (a ∷ l) hr.0 hl.0) (
    keep-SortedFrom 0 (λ x. has x.offset r) (a ∷ l) hl.0,
    λ o. has-keep o (λ x. has x r) (a ∷ l) ∙ ground (arith, hl.1 o, hr.1 o),
  )

  subtract-Finds :
      (left right : Result (List OffsetScore))
      → Finds f left
      → Finds g right
      → Finds (λ o. f o && not (g o)) (left >>= after_left s subtract_ right v w)
  unfolding after_left
  subtract-Finds (err x) right hl hr = elim hl [ ]
  subtract-Finds (ok l) (err x) hl hr = elim hr [ ]
  subtract-Finds (ok []) (ok r) hl hr = (tt, λ o. ground (arith, hl.1 o))
  subtract-Finds (ok (a ∷ l)) (ok r) hl hr = rw (subtract-keep 0 0 r (a ∷ l) hr.0 hl.0) (
    keep-SortedFrom 0 (λ x. not (has x.offset r)) (a ∷ l) hl.0,
    λ o. has-keep o (λ x. not (has x r)) (a ∷ l) ∙ ground (arith, hl.1 o, hr.1 o),
  )

negate-KeepsOffsets : KeepsOffsets (map negate_score)
unfolding negate_score
negate-KeepsOffsets = record { set = set; order = order }
  where
    set : (o : ℕ) (l : List OffsetScore) → has o (map negate_score l) ≡ has o l
    set o [] = refl
    set o (v ∷ vs) = ap (λ (b : Bool). v.offset == o || b) (set o vs)

    order : (p : ℕ) (l : List OffsetScore) → SortedFrom p l → SortedFrom p (map negate_score l)
    order p [] h = tt
    order p (v ∷ vs) h = (h.0, order v.offset vs h.1)

after_unary-KeepsOffsets : (op : UnaryOperator) → KeepsOffsets (after_unary op)
unfolding after_unary
after_unary-KeepsOffsets max_ = operator_max-KeepsOffsets
after_unary-KeepsOffsets min_ = operator_min-KeepsOffsets
after_unary-KeepsOffsets negate = negate-KeepsOffsets

unary-Finds :
    (f : ℕ → Bool) (op : UnaryOperator) (left : Result (List OffsetScore))
    → Finds f left
    → Finds f (left >>= λ l. ok (after_unary op l))
unary-Finds f op (ok l) h =
    let keeps = after_unary-KeepsOffsets op in (keeps.order 0 l h.0, λ o. keeps.set o l ∙ h.1 o)
unary-Finds f op (err x) h = elim h [ ]

process-Finds :
    (s : Schema) (q : Query)
    → HasOrdered s q
    → IsBoolean q
    → Finds (finds s q) (process_sub_query s q [])
unfolding process_sub_query
process-Finds s (key k) tables h = (find_key-SortedFrom s.summary_tables k, λ o. refl)
process-Finds s (leaf t) tables h = Finds-leaf (lookup_token s t) tables
process-Finds s (binary or_ l r v w) tables h =
    or-Finds s v w (finds s l) (finds s r) _ _ (process-Finds s l tables.0 h.0)
      (process-Finds s r tables.1 h.1)
process-Finds s (binary and_ l r v w) tables h =
    and-Finds s v w (finds s l) (finds s r) _ _ (process-Finds s l tables.0 h.0)
      (process-Finds s r tables.1 h.1)
process-Finds s (binary subtract_ l r v w) tables h =
    subtract-Finds s v w (finds s l) (finds s r) _ _ (process-Finds s l tables.0 h.0)
      (process-Finds s r tables.1 h.1)
process-Finds s (unary op l) tables h = unary-Finds (finds s l) op _ (process-Finds s l tables h)
process-Finds s _ tables h = elim h [ ]

-- A query of keywords and keys under OR, AND, SUBTRACT, MAX, MIN and negation, the lookups of whose own
-- keywords succeed with records in the order of their offsets, has a result: its offsets strictly
-- increase, and they are exactly those that the query finds.
pub process_query-Finds :
    (s : Schema) (q : Query) (use_max : Bool)
    → HasOrdered s q
    → IsBoolean q
    → (r : List OffsetScore) × (process_query s q use_max ≡ ok r)
      × StrictFrom 0 r
      × ((o : ℕ) → has o r ≡ finds s q o)
process_query-Finds s q use_max tables h = elim (Result-cases (process_sub_query s q [])) [
  | inl (l, e) ↦
      let found : Finds (finds s q) (ok l) = rw e at (process-Finds s q tables h) in
      (
        remove_duplicates use_max l,
        unfold process_query in rw e,
        remove_duplicates-StrictFrom 0 use_max l found.0,
        λ o. has-remove_duplicates o use_max l ∙ found.1 o,
      )
  | inr (x, e) ↦
      elim (let none : Finds (finds s q) (err x) = rw e at (process-Finds s q tables h) in none) [ ]
]
