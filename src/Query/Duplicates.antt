-- ===== src/Query/Duplicates.antt =====
-- src/query.cc: `RemoveDuplicates`, the operators MAX and MIN, and `Join`, which merge or match
-- records of one offset by their scores.
pub mod Laws
use cantera_table.Shared.{ℕ, List, [], ◌∷◌, Bool, true, false, not, ◌||◌, ltb, ◌==◌, if◌then◌else◌}
use cantera_table.Score
use cantera_table.Score.{OffsetScore, float_lt}

-- use_max == (in->score > (out - 1)->score), as a test on two truth values.
abbrev pub agree : Bool → Bool → Bool
agree true b = b
agree false b = not b

-- One record more of the same offset: only the score may change.
unfoldable pub merge_score : Bool → OffsetScore → OffsetScore → OffsetScore
merge_score use_max kept v =
    if agree use_max (float_lt kept.score v.score) then record kept { score = v.score } else kept

-- The loop with `*(out - 1)` in `kept`.
unfoldable pub remove_after : Bool → OffsetScore → List OffsetScore → List OffsetScore
unfolding merge_score
remove_after use_max kept [] = kept ∷ []
remove_after use_max kept (v ∷ vs) =
    let next = kept ∷ remove_after use_max v vs in
    let merged = remove_after use_max (merge_score use_max kept v) vs in
    if not (v.offset == kept.offset) then next else merged

unfoldable pub remove_duplicates : Bool → List OffsetScore → List OffsetScore
unfolding remove_after
remove_duplicates use_max [] = []
remove_duplicates use_max (v ∷ vs) = remove_after use_max v vs

-- The loops of kOperatorMax and kOperatorMin, with `offsets[o - 1]` in `kept`; `better new old` is
-- the comparison that replaces the score.
unfoldable pub best_after : (ℕ → ℕ → Bool) → OffsetScore → List OffsetScore → List OffsetScore
best_after better kept [] = kept ∷ []
best_after better kept (v ∷ vs) =
    let next = kept ∷ best_after better v vs in
    let replaced = best_after better (record kept { score = v.score }) vs in
    let same = best_after better kept vs in
    if not (v.offset == kept.offset)
    then next
    else if better v.score kept.score
    then replaced
    else same

unfoldable pub operator_max : List OffsetScore → List OffsetScore
unfolding best_after
operator_max [] = []
operator_max (v ∷ vs) = best_after (λ new old. float_lt old new) v vs

unfoldable pub operator_min : List OffsetScore → List OffsetScore
unfolding best_after
operator_min [] = []
operator_min (v ∷ vs) = best_after (λ new old. float_lt new old) v vs

-- Join: the records of `lhs` that meet one of `rhs` and whose two scores pass the filter.
unfoldable pub join : (ℕ → ℕ → Bool) → List OffsetScore → List OffsetScore → List OffsetScore
join filter [] rhs = []
join filter (l ∷ lhs) [] = []
join filter (l ∷ lhs) (r ∷ rhs) = elim (ltb l.offset r.offset) [
  | true ↦ join filter lhs (r ∷ rhs)
  | false ↦ elim (ltb r.offset l.offset) [
    | true ↦ join filter (l ∷ lhs) rhs
    | false ↦ let later = join filter lhs rhs in if filter l.score r.score then l ∷ later else later
  ]
]

-- ORDER BY: every record of `offsets` takes the score of its partner in `rhs`, or minus infinity.
unfoldable pub order_by : List OffsetScore → List OffsetScore → List OffsetScore
order_by [] rhs = []
order_by (l ∷ lhs) [] = record l { score = Score.minus_infinity } ∷ order_by lhs []
order_by (l ∷ lhs) (r ∷ rhs) = elim (ltb l.offset r.offset) [
  | true ↦ record l { score = Score.minus_infinity } ∷ order_by lhs (r ∷ rhs)
  | false ↦ elim (ltb r.offset l.offset) [
    | true ↦ order_by (l ∷ lhs) rhs
    | false ↦ record l { score = r.score } ∷ order_by lhs rhs
  ]
]
