-- ===== src/Prediction/Steps/Laws.antt =====
-- The step set is in order, holds every difference, and a difference stands at its key.
use cantera_table.Shared.{
  ℕ, ◌≤◌, ◌<◌, ◌≡◌, refl, List, [], ◌∷◌, length, get_or, arith, All, ◌⊎◌, inl, inr,
}
use cantera_table.Prediction.Steps.{insert, insert_from, insert_all, position}

-- In increasing order from `p` on.
abbrev pub Chain : ℕ → List ℕ → Type 0
Chain p [] = Unit {0}
Chain p (x ∷ xs) = (p ≤ x) × Chain x xs

abbrev pub Contains : ℕ → List ℕ → Type 0
Contains d [] = ⊥
Contains d (x ∷ xs) = (d ≡ x) ⊎ Contains d xs

insert-Chain : (p d : ℕ) (xs : List ℕ) → p ≤ d → Chain p xs → Chain p (insert d xs)
unfolding insert
insert-Chain p d [] h c = (h, tt)
insert-Chain p d (x ∷ xs) h c = ground (arith, insert-Chain x d xs)

insert-Contains_self : (d : ℕ) (xs : List ℕ) → Contains d (insert d xs)
unfolding insert
insert-Contains_self d [] = inl refl
insert-Contains_self d (x ∷ xs) = ground (arith, insert-Contains_self d xs)

insert-Contains : (d e : ℕ) (xs : List ℕ) → Contains e xs → Contains e (insert d xs)
unfolding insert
insert-Contains d e [] h = elim h [ ]
insert-Contains d e (x ∷ xs) h = ground (arith, insert-Contains d e xs)

insert-All : (P : ℕ → Type 0) (d : ℕ) (xs : List ℕ) → P d → All P xs → All P (insert d xs)
unfolding insert
insert-All P d [] p h = (p, tt)
insert-All P d (x ∷ xs) p h = ground (arith, insert-All P d xs)

insert_from-Chain : (ds set : List ℕ) → Chain 0 set → Chain 0 (insert_from set ds)
unfolding insert_from
insert_from-Chain [] set h = h
insert_from-Chain (d ∷ ds) set h =
    insert_from-Chain ds (insert d set) (insert-Chain 0 d set (omega arith) h)

insert_from-Contains :
    (ds set : List ℕ) (e : ℕ) → Contains e set ⊎ Contains e ds → Contains e (insert_from set ds)
unfolding insert_from
insert_from-Contains [] set e (inl h) = h
insert_from-Contains [] set e (inr h) = elim h [ ]
insert_from-Contains (d ∷ ds) set e (inl h) =
    insert_from-Contains ds (insert d set) e (inl (insert-Contains d e set h))
insert_from-Contains (d ∷ ds) set e (inr (inl h)) =
    insert_from-Contains ds (insert d set) e (inl (rw h (insert-Contains_self d set)))
insert_from-Contains (d ∷ ds) set e (inr (inr h)) = insert_from-Contains ds (insert d set) e (inr h)

insert_from-All :
    (P : ℕ → Type 0) (ds set : List ℕ) → All P set → All P ds → All P (insert_from set ds)
unfolding insert_from
insert_from-All P [] set h k = h
insert_from-All P (d ∷ ds) set h k =
    insert_from-All P ds (insert d set) (insert-All P d set k.0 h) k.1

pub insert_all-Chain : (ds : List ℕ) → Chain 0 (insert_all ds)
unfolding insert_all
insert_all-Chain ds = insert_from-Chain ds [] tt

pub insert_all-Contains : (ds : List ℕ) (e : ℕ) → Contains e ds → Contains e (insert_all ds)
unfolding insert_all
insert_all-Contains ds e h = insert_from-Contains ds [] e (inr h)

pub insert_all-All : (P : ℕ → Type 0) (ds : List ℕ) → All P ds → All P (insert_all ds)
unfolding insert_all
insert_all-All P ds h = insert_from-All P ds [] tt h

-- A difference of the set is found again at its key.
pub position_lem :
    (d : ℕ) (steps : List ℕ)
    → Contains d steps
    → (position d steps < length steps) × (get_or steps (position d steps) 0 ≡ d)
unfolding position
position_lem d [] h = elim h [ ]
position_lem d (s ∷ ss) (inl h) = ground arith
position_lem d (s ∷ ss) (inr h) = ground (arith, position_lem d ss h)
