-- ===== src/Prediction/Steps.antt =====
-- `std::set<uint64_t> steps` and `step_keys`: the distinct differences in increasing order, and the
-- place of each in that order.
pub mod Laws
use cantera_table.Shared.{
  ℕ, zero, suc, ◌+◌, ◌-◌, ◌≤◌, ◌<◌, ◌≡◌, refl, List, [], ◌∷◌, Bool, true, false, ◌==◌, ltb,
  if◌then◌else◌, length, get_or, arith, All,
}

-- std::set::insert
unfoldable pub insert : ℕ → List ℕ → List ℕ
insert d [] = d ∷ []
insert d (s ∷ ss) =
    let later = insert d ss in if ltb d s then d ∷ s ∷ ss else if d == s then s ∷ ss else s ∷ later

-- The set after the insertions of the loop, first to last.
unfoldable pub insert_from : List ℕ → List ℕ → List ℕ
insert_from set [] = set
insert_from set (d ∷ ds) = insert_from (insert d set) ds

unfoldable pub insert_all : List ℕ → List ℕ
insert_all ds = insert_from [] ds

-- step_keys[step] = next_key++ in increasing order. A key that is not there would be 0.
unfoldable pub position : ℕ → List ℕ → ℕ
position d [] = 0
position d (s ∷ ss) = if d == s then 0 else position d ss + 1
