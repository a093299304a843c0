-- ===== src/Merge/Heap/Array.antt =====
-- Reads and writes of the heap of src/merge.cc in range, with indices from 1.

use mathlib.Core.List.{Perm}
use mathlib.Core.List.Perm
use cantera_table.Shared.{
  ℕ, zero, suc, ◌-◌, ◌≤◌, ◌<◌, ◌≡◌, refl, ap, List, [], ◌∷◌, ◌++◌, ◌==◌, lt→ltb, if◌then◌else◌,
  length, get_elem?, get_or, set, some, take, All, length-set, arith,
}
use cantera_table.Result.{ok}
use cantera_table.Merge.Heap.{Entry, load, at, put}

abbrev pub no_entry : Entry
no_entry = record { key = []; value = []; table = 0 }

-- The entry at an index, and a write there.
unfoldable pub get : List Entry → ℕ → Entry
get h i = get_or h (i - 1) no_entry

unfoldable pub write : List Entry → ℕ → Entry → List Entry
write h i x = set h (i - 1) x

-- The indices of a heap.
abbrev pub InHeap : ℕ → List Entry → Type 0
InHeap i h = (1 ≤ i) × (i ≤ length h)

get_elem?-get_or :
    (h : List Entry) (i : ℕ) → i < length h → get_elem? h i ≡ some (get_or h i no_entry)
get_elem?-get_or [] i p = elim p [ ]
get_elem?-get_or (x ∷ h) zero p = refl
get_elem?-get_or (x ∷ h) (suc i) p = get_elem?-get_or h i (omega arith)

pub load-ok : (h : List Entry) (i : ℕ) → i < length h → load h i ≡ ok (get_or h i no_entry)
unfolding load
load-ok h i p = rw (load, get_elem?-get_or h i p)

pub at-ok : (h : List Entry) (i : ℕ) → InHeap i h → at h i ≡ ok (get h i)
unfolding at get
at-ok h zero p = absurd (omega arith)
at-ok h (suc i) p = let less : suc i - 1 ≡ i = omega arith in rw less (load-ok h i (omega arith))

pub put-ok : (h : List Entry) (i : ℕ) (x : Entry) → InHeap i h → put h i x ≡ ok (write h i x)
unfolding put write
put-ok h zero x p = absurd (omega arith)
put-ok h (suc i) x p =
    let less : suc i - 1 ≡ i = omega arith in rw (less, lt→ltb i (length h) (omega arith))

pub length-write : (h : List Entry) (i : ℕ) (x : Entry) → length (write h i x) ≡ length h
unfolding write
length-write h i x = length-set h (i - 1) x

get_or-set :
    (h : List Entry) (i j : ℕ) (x : Entry)
    → i < length h
    → get_or (set h i x) j no_entry ≡ (if i == j then x else get_or h j no_entry)
get_or-set [] i j x p = elim p [ ]
get_or-set (y ∷ h) zero zero x p = refl
get_or-set (y ∷ h) zero (suc j) x p = ground arith
get_or-set (y ∷ h) (suc i) zero x p = ground arith
get_or-set (y ∷ h) (suc i) (suc j) x p = ground (arith, get_or-set h i j x)

pub get-write :
    (h : List Entry) (i j : ℕ) (x : Entry)
    → InHeap i h
    → 1 ≤ j
    → get (write h i x) j ≡ (if i == j then x else get h j)
unfolding get write
get-write h i j x p q = ground (arith, get_or-set h (i - 1) (j - 1) x)

set-perm :
    (h : List Entry) (i : ℕ) (x : Entry)
    → i < length h
    → Perm (get_or h i no_entry ∷ set h i x) (x ∷ h)
set-perm [] i x p = elim p [ ]
set-perm (y ∷ h) zero x p = Perm.swap x y h
set-perm (y ∷ h) (suc i) x p =
    Perm.trans (Perm.swap y _ _)
      (Perm.trans (Perm.cons y (set-perm h i x (omega arith))) (Perm.swap x y h))

-- A write trades the entry that was there for the new one.
pub write-perm :
    (h : List Entry) (i : ℕ) (x : Entry) → InHeap i h → Perm (get h i ∷ write h i x) (x ∷ h)
unfolding get write
write-perm h i x p = set-perm h (i - 1) x (omega arith)

-- An entry is moved to the hole: the hole is where it was.
pub move-perm :
    (h : List Entry) (i j : ℕ) (x : Entry)
    → InHeap i h
    → InHeap j h
    → (i ≡ j → ⊥)
    → Perm (write (write h i (get h j)) j x) (write h i x)
move-perm h i j x p q ne =
    let h' = write h i (get h j) in
    let size = length-write h i (get h j) in
    let kept : get h' j ≡ get h j = ground (arith, get-write h i j (get h j), ne) in
    let there : Perm (get h j ∷ write h' j x) (x ∷ h') =
      rw kept at (write-perm h' j x (omega (arith, q, size))) in
    let moved = write-perm h i (get h j) p in
    let direct = write-perm h i x p in
    let forward : Perm (get h i ∷ get h j ∷ write h' j x) (x ∷ get h j ∷ h) =
      Perm.trans (Perm.cons (get h i) there)
        (Perm.trans (Perm.swap x (get h i) h') (Perm.cons x moved)) in
    let back : Perm (x ∷ get h j ∷ h) (get h i ∷ get h j ∷ write h i x) =
      Perm.trans (Perm.swap (get h j) x h)
        (Perm.trans (Perm.cons (get h j) (Perm.symm direct)) (Perm.swap (get h i) (get h j) _)) in
    Perm.cons_inv (Perm.cons_inv (Perm.trans forward back))

pub get-write_self : (h : List Entry) (i : ℕ) (x : Entry) → InHeap i h → get (write h i x) i ≡ x
get-write_self h i x p = ground (arith, get-write h i i x p (omega arith))

pub get-write_other :
    (h : List Entry) (i j : ℕ) (x : Entry)
    → InHeap i h
    → 1 ≤ j
    → (j ≡ i → ⊥)
    → get (write h i x) j ≡ get h j
get-write_other h i j x p q ne = ground (arith, get-write h i j x p q)

-- A place past the end is where the next entry goes.
get_or-append :
    (h : List Entry) (i : ℕ) (t : List Entry)
    → i < length h
    → get_or (h ++ t) i no_entry ≡ get_or h i no_entry
get_or-append [] i t p = elim p [ ]
get_or-append (x ∷ h) zero t p = refl
get_or-append (x ∷ h) (suc i) t p = get_or-append h i t (omega arith)

pub get-append : (h t : List Entry) (i : ℕ) → InHeap i h → get (h ++ t) i ≡ get h i
unfolding get
get-append h t i p = get_or-append h (i - 1) t (omega arith)

get_or-take :
    (h : List Entry) (n i : ℕ) → i < n → get_or (take n h) i no_entry ≡ get_or h i no_entry
get_or-take h zero i p = elim p [ ]
get_or-take [] (suc n) i p = refl
get_or-take (x ∷ h) (suc n) zero p = refl
get_or-take (x ∷ h) (suc n) (suc i) p = get_or-take h n i (omega arith)

pub get-take : (h : List Entry) (n i : ℕ) → 1 ≤ i → i ≤ n → get (take n h) i ≡ get h i
unfolding get
get-take h n i p q = get_or-take h n (i - 1) (omega arith)

set-snoc :
    (h : List Entry) (n : ℕ) (x : Entry) → length h ≡ suc n → set h n x ≡ take n h ++ (x ∷ [])
set-snoc [] n x p = absurd (omega (arith, p))
set-snoc (y ∷ []) zero x p = refl
set-snoc (y ∷ z ∷ h) zero x p = absurd (omega (arith, p))
set-snoc (y ∷ h) (suc n) x p = ap (λ t. y ∷ t) (set-snoc h n x (omega (arith, p)))

-- A write of the last entry.
pub write-snoc :
    (h : List Entry) (n : ℕ) (x : Entry)
    → length h ≡ suc n
    → write h (suc n) x ≡ take n h ++ (x ∷ [])
unfolding write
write-snoc h n x p = let less : suc n - 1 ≡ n = omega arith in rw less (set-snoc h n x p)

set-get_or : (h : List Entry) (i : ℕ) → set h i (get_or h i no_entry) ≡ h
set-get_or [] i = refl
set-get_or (x ∷ h) zero = refl
set-get_or (x ∷ h) (suc i) = ap (λ t. x ∷ t) (set-get_or h i)

pub write-get : (h : List Entry) (i : ℕ) → write h i (get h i) ≡ h
unfolding get write
write-get h i = set-get_or h (i - 1)

pub get_first : (e : Entry) (h : List Entry) → get (e ∷ h) 1 ≡ e
unfolding get
get_first e h = refl

All-get_or :
    (P : Entry → Type 0) (h : List Entry)
    → ((i : ℕ) → i < length h → P (get_or h i no_entry))
    → All P h
All-get_or P [] each = tt
All-get_or P (x ∷ h) each =
    (each 0 (omega arith), All-get_or P h (λ i p. each (suc i) (omega arith)))

pub All-get : (P : Entry → Type 0) (h : List Entry) → ((i : ℕ) → InHeap i h → P (get h i)) → All P h
unfolding get
All-get P h each =
    All-get_or P h (λ i p.
      (let less : suc i - 1 ≡ i = omega arith in rw less at (each (suc i) (omega arith, p))))
