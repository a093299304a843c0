-- ===== src/WriteOnce/Cursor/Progress.antt =====
-- How far `Skip` moves.
use cantera_table.Shared.{
  ℕ, zero, suc, ◌+◌, ◌-◌, ◌<◌, ◌≤◌, ◌≡◌, refl, sym, Bool-cases, inl, inr, List, [], ◌∷◌, true, some,
  ltb, ◌==◌, drop, take, All, arith,
}
use cantera_table.WriteOnce.Cursor.{skip, skip_from, not_found}

abbrev pub total : List ℕ → ℕ
total [] = 0
total (n ∷ ns) = n + total ns

-- The number of rows in front of entry e of block b.
abbrev pub rows_before : List ℕ → ℕ → ℕ → ℕ
rows_before index b e = total (take b index) + e

-- Block b has an entry e, or the end was reached.
abbrev pub IsAt : List ℕ → ℕ → ℕ → Type 0
IsAt [] zero e = e ≡ 0
IsAt [] (suc b) e = ⊥
IsAt (n ∷ ns) zero e = e < n
IsAt (n ∷ ns) (suc b) e = IsAt ns b e

IsAt-start : (later : List ℕ) → All (λ n. 0 < n) later → IsAt later 0 0
IsAt-start [] pos = refl
IsAt-start (n ∷ later) pos = pos.0

-- Where `count` rows are left behind entry e of the block that `later` begins with.
skip_from-ahead :
    (index later : List ℕ) (b e count : ℕ)
    → All (λ n. 0 < n) later
    → IsAt later 0 e
    → e + count ≤ total later
    → (j e' : ℕ) × (skip_from index later b e count
        ≡ (record { block_num = some (b + j); entry_num = e' }, true))
      × IsAt later j e'
      × (rows_before later j e' ≡ e + count)
unfolding skip_from
skip_from-ahead index [] b e zero pos at h =
    (0, e, (let z : b + 0 ≡ b = omega arith in rw z), at, omega arith)
skip_from-ahead index [] b e (suc count) pos at h = absurd (omega arith)
skip_from-ahead index (n ∷ later) b e count pos at h =
    let z : b + 0 ≡ b = omega arith in
    elim (Bool-cases (count == 0)) [
      | inl t ↦ (0, e, rw (t, z), at, ground arith)
      | inr f ↦ elim (Bool-cases (ltb count (n - e))) [
        | inl t ↦ (0, e + count, rw (f, t, z), ground arith, omega arith)
        | inr u ↦
            let past : n - e ≤ count = ground arith in
            let r =
              skip_from-ahead index later (b + 1) 0 (count - (n - e)) pos.1 (IsAt-start later pos.1)
                (omega (arith, at, h, past)) in
            let shift : b + 1 + r.0 ≡ b + suc r.0 = omega arith in
            (suc r.0, r.1, rw (f, u, sym shift) r.2, r.3, omega (arith, r.4, at, past))
      ]
    ]

skip_from-past :
    (index later : List ℕ) (b e count : ℕ)
    → All (λ n. 0 < n) later
    → IsAt later 0 e
    → total later < e + count
    → skip_from index later b e count ≡ not_found index
unfolding skip_from
skip_from-past index [] b e zero pos at h = absurd (let z : e ≡ 0 = at in omega (arith, z, h))
skip_from-past index [] b e (suc count) pos at h = refl
skip_from-past index (n ∷ later) b e count pos at h =
    let later_rows : total later < 0 + (count - (n - e)) = omega (arith, at, h) in
    ground (
      arith,
      at,
      h,
      skip_from-past index later (b + 1) 0 (count - (n - e)) pos.1 (IsAt-start later pos.1)
          later_rows,
    )

suc_add : (b j : ℕ) → suc b + j ≡ suc (b + j)
suc_add b j = omega arith

zero_add : (j : ℕ) → 0 + j ≡ j
zero_add j = omega arith

total-split : (index : List ℕ) (b : ℕ) → total (take b index) + total (drop b index) ≡ total index
total-split index zero = zero_add (total index)
total-split [] (suc b) = refl
total-split (n ∷ index) (suc b) = omega (arith, total-split index b)

total-take_add :
    (index : List ℕ) (b j : ℕ)
    → total (take (b + j) index) ≡ total (take b index) + total (take j (drop b index))
total-take_add index zero j = rw (zero_add j, zero_add (total (take j index)))
total-take_add [] (suc b) zero = rw (suc_add b 0)
total-take_add [] (suc b) (suc j) = rw (suc_add b (suc j))
total-take_add (n ∷ index) (suc b) j = rw (suc_add b j) (omega (arith, total-take_add index b j))

All-drop : (index : List ℕ) (b : ℕ) → All (λ n. 0 < n) index → All (λ n. 0 < n) (drop b index)
All-drop index zero h = h
All-drop [] (suc b) h = tt
All-drop (n ∷ index) (suc b) h = All-drop index b h.1

IsAt-drop : (index : List ℕ) (b e : ℕ) → IsAt index b e → IsAt (drop b index) 0 e
IsAt-drop index zero e at = at
IsAt-drop [] (suc b) e at = absurd at
IsAt-drop (n ∷ index) (suc b) e at = IsAt-drop index b e at

IsAt-add :
    (index : List ℕ) (b j e e' : ℕ)
    → IsAt index b e
    → IsAt (drop b index) j e'
    → IsAt index (b + j) e'
IsAt-add index zero j e e' at later = rw (zero_add j) later
IsAt-add [] (suc b) j e e' at later = absurd at
IsAt-add (n ∷ index) (suc b) j e e' at later = rw (suc_add b j) (IsAt-add index b j e e' at later)

-- From an entry or the end, over blocks none of which is empty, and with `count` rows left, Skip
-- returns true and moves to an entry or the end with `count` more rows in front of it.
pub skip-rows_before :
    (index : List ℕ) (b e count : ℕ)
    → All (λ n. 0 < n) index
    → IsAt index b e
    → rows_before index b e + count ≤ total index
    → (b' e' : ℕ) × (skip index (record { block_num = some b; entry_num = e }) count
        ≡ (record { block_num = some b'; entry_num = e' }, true))
      × IsAt index b' e'
      × (rows_before index b' e' ≡ rows_before index b e + count)
unfolding skip
skip-rows_before index b e count pos at h =
    let split = total-split index b in
    let at' = IsAt-drop index b e at in
    let pos' = All-drop index b pos in
    let r = skip_from-ahead index (drop b index) b e count pos' at' (omega (arith, split, h)) in
    let moved = total-take_add index b r.0 in
    (b + r.0, r.1, r.2, IsAt-add index b r.0 e r.1 at r.3, omega (arith, r.4, moved))

-- From an entry or the end, over blocks none of which is empty, and with fewer than `count` rows left,
-- Skip returns false and stands at the end.
pub skip-not_found :
    (index : List ℕ) (b e count : ℕ)
    → All (λ n. 0 < n) index
    → IsAt index b e
    → total index < rows_before index b e + count
    → skip index (record { block_num = some b; entry_num = e }) count ≡ not_found index
unfolding skip
skip-not_found index b e count pos at h =
    let split = total-split index b in
    skip_from-past index (drop b index) b e count (All-drop index b pos) (IsAt-drop index b e at)
      (omega (arith, split, h))
