-- ===== src/Query/Sets.antt =====
-- src/query.cc `UnionOffsets`, `IntersectOffsets` and `SubtractOffsets`: arrays of records in the
-- order of their offsets. The pointer `output` never passes `lhs`, so an in-place loop is a function
-- from what is left of the two arrays to what it still writes.
pub mod Laws
use cantera_table.Shared.{ℕ, List, [], ◌∷◌, Bool, true, false, ◌||◌, ltb, ◌==◌, if◌then◌else◌}
use cantera_table.Score.{OffsetScore}

pub union : List OffsetScore → List OffsetScore → List OffsetScore
union [] rhs = rhs
union (a ∷ lhs) [] = a ∷ lhs
union (a ∷ lhs) (b ∷ rhs) = elim (ltb a.offset b.offset) [
  | true ↦ a ∷ union lhs (b ∷ rhs)
  | false ↦ elim (a.offset == b.offset) [
    | true ↦ b ∷ union lhs rhs
    | false ↦ b ∷ union (a ∷ lhs) rhs
  ]
]

-- do *o++ = *lhs++; while (lhs != lhs_end && lhs->offset == offset); `next` is the loop behind `++rhs`.
pub copy_run : ℕ → (List OffsetScore → List OffsetScore) → List OffsetScore → List OffsetScore
copy_run offset next [] = next []
copy_run offset next (a ∷ lhs) =
    let copied = a ∷ copy_run offset next lhs in
    if a.offset == offset then copied else next (a ∷ lhs)

-- The loop while `rhs` points to `b`.
pub intersect_at :
    OffsetScore → (List OffsetScore → List OffsetScore) → List OffsetScore → List OffsetScore
unfolding copy_run
intersect_at b next [] = []
intersect_at b next (a ∷ lhs) =
    let passed = intersect_at b next lhs in
    if a.offset == b.offset
    then a ∷ copy_run a.offset next lhs
    else if ltb a.offset b.offset
    then passed
    else next (a ∷ lhs)

-- The elements that IntersectOffsets leaves at the front of `lhs`.
unfoldable pub intersect : List OffsetScore → List OffsetScore → List OffsetScore
unfolding intersect_at
intersect [] lhs = []
intersect (b ∷ rhs) lhs = intersect_at b (intersect rhs) lhs

-- do ++lhs; while (lhs != lhs_end && lhs->offset == offset);
pub drop_run : ℕ → (List OffsetScore → List OffsetScore) → List OffsetScore → List OffsetScore
drop_run offset next [] = next []
drop_run offset next (a ∷ lhs) =
    let dropped = drop_run offset next lhs in if a.offset == offset then dropped else next (a ∷ lhs)

pub subtract_at :
    OffsetScore → (List OffsetScore → List OffsetScore) → List OffsetScore → List OffsetScore
unfolding drop_run
subtract_at b next [] = []
subtract_at b next (a ∷ lhs) =
    let copied = a ∷ subtract_at b next lhs in
    if a.offset == b.offset
    then drop_run a.offset next lhs
    else if ltb a.offset b.offset
    then copied
    else next (a ∷ lhs)

-- The elements that SubtractOffsets leaves at the front of `lhs`.
unfoldable pub subtract : List OffsetScore → List OffsetScore → List OffsetScore
unfolding subtract_at
subtract [] lhs = lhs
subtract (b ∷ rhs) lhs = subtract_at b (subtract rhs) lhs
