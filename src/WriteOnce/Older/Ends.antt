-- ===== src/WriteOnce/Older/Ends.antt =====
-- The loop of SeekToKey of `WriteOnceReader_v3` in src/table-backend-writeonce.cc, for tables of version 3, which look
-- at one place after the other.
use native.Mathlib.Nat.{mod-lt}
use cantera_table.Shared.{
  ℕ, zero, suc, ◌+◌, ◌<◌, ◌≤◌, ◌≡◌, ◌⊎◌, inl, inr, refl, sym, ◌∙◌, List, Bool, true, false,
  Bool-cases, ◌&&◌, ltb, leb, ◌==◌, ==_iff, if◌then◌else◌, arith, ◌%◌,
}
use cantera_table.Shared.Strings.{string_lt, string_eq}
use cantera_table.Result.{ok, ok-injective}
use cantera_table.WriteOnce.Older.{
  OlderReader, Probe, index_at, is_ascending, next_probe, key_at, seek_loop, seek_to_key,
}

-- A number in the index is that of an empty place, or the offset of a row.
abbrev pub IsSlot : OlderReader → ℕ → Type 0
IsSlot r n = (n ≡ 0) ⊎ ((s : List ℕ) × (key_at r n ≡ ok s))

-- From `hash` on, the place `z` is met in fewer than so many rounds.
abbrev Near : ℕ → ℕ → ℕ → ℕ → Type 0
Near hash z size rounds =
    ((hash ≤ z) × (z < hash + rounds)) ⊎ ((z < hash) × (z + size < hash + rounds))

next_hash : ℕ → ℕ → ℕ
next_hash size hash = if hash + 1 == size then 0 else hash + 1

hash-next_probe :
    (r : OlderReader) (p : Probe)
    → r.header.major_version ≡ 3
    → (next_probe r p).hash ≡ next_hash r.index_size p.hash
unfolding next_probe next_hash
hash-next_probe r p h =
    let three : (r.header.major_version == 3) ≡ true = rw h refl in rw three refl

Near-next :
    (hash z size rounds : ℕ)
    → hash < size
    → z < size
    → (hash ≡ z → ⊥)
    → Near hash z size (suc rounds)
    → Near (next_hash size hash) z size rounds
unfolding next_hash
Near-next hash z size rounds inside z_inside apart near = elim (Bool-cases (hash + 1 == size)) [
  | inl t ↦
      let last : hash + 1 ≡ size = (==_iff (hash + 1) size).0 t in
      rw t (
        inl (
          omega arith,
          elim near [
            | inl a ↦ absurd (apart (omega (arith, last, a, z_inside)))
            | inr b ↦ omega (arith, last, b)
          ],
        ))
  | inr f ↦ rw f (elim near [
    | inl a ↦ inl (omega (arith, a, apart), omega (arith, a))
    | inr b ↦ inr (omega (arith, b), omega (arith, b))
  ])
]

Near-any : (hash z size : ℕ) → hash < size → z < size → Near hash z size (size + 1)
Near-any hash z size inside z_inside = elim (Bool-cases (leb hash z)) [
  | inl t ↦ (let le : hash ≤ z = ground (arith, t) in inl (le, omega (arith, z_inside)))
  | inr f ↦ (let lt : z < hash = ground (arith, f) in inr (lt, omega (arith, lt)))
]

next_hash-lt : (size hash : ℕ) → hash < size → next_hash size hash < size
unfolding next_hash
next_hash-lt size hash h = ground arith

module _ (r : OlderReader) (key : List ℕ) (z : ℕ) (three : r.header.major_version ≡ 3)
    (z_inside : z < r.index_size) (empty : index_at r z ≡ ok 0)
    (slots : (i : ℕ) → i < r.index_size → (n : ℕ) × (index_at r i ≡ ok n) × IsSlot r n) where
  seek_loop-ends :
      (rounds : ℕ) (p : Probe)
      → p.hash < r.index_size
      → Near p.hash z r.index_size rounds
      → (x : OlderReader × Bool) × (seek_loop rounds r key p ≡ ok x)
  unfolding seek_loop
  seek_loop-ends zero p inside near = elim near [
    | inl a ↦ absurd (omega (arith, a))
    | inr b ↦ absurd (omega (arith, b, inside))
  ]
  seek_loop-ends (suc rounds) p inside near =
      let slot = slots p.hash inside in
      let tmp = slot.0 in
      elim (Bool-cases (tmp == 0)) [
        | inl none_here ↦ ((r, false), rw (slot.1, none_here) refl)
        | inr used ↦
            let apart : p.hash ≡ z → ⊥ = λ e.
              (let zero_there : tmp ≡ 0 = ok-injective tmp 0 (sym slot.1 ∙ (rw e empty)) in
                absurd (let t : (tmp == 0) ≡ true = (==_iff tmp 0).1 zero_there in cc)) in
            let go_on = λ (q : Probe) (same : q.hash ≡ p.hash).
              seek_loop-ends rounds (next_probe r q)
                (rw (hash-next_probe r q three, same) (next_hash-lt r.index_size p.hash inside))
                (rw (hash-next_probe r q three, same)
                  (Near-next p.hash z r.index_size rounds inside z_inside apart near)) in
            elim (Bool-cases (leb p.min_offset tmp && leb tmp p.max_offset)) [
              | inr outside ↦
                  (let rest = go_on p refl in (rest.0, rw (slot.1, used, outside) rest.1))
              | inl within ↦ elim slot.2 [
                | inl nothing ↦ absurd (let t : (tmp == 0) ≡ true = (==_iff tmp 0).1 nothing in cc)
                | inr row ↦ elim (Bool-cases (string_eq key row.0)) [
                  | inl same ↦ (
                    (record r { offset = tmp }, true),
                    rw (slot.1, used, within, row.1, same) refl,
                  )
                  | inr differ ↦ elim (Bool-cases (string_lt key row.0)) [
                    | inl lower ↦
                        let rest =
                          go_on (if is_ascending r then record p { max_offset = tmp } else p)
                            (elim (Bool-cases (is_ascending r)) [
                              | inl t ↦ rw t refl
                              | inr f ↦ rw f refl
                            ]) in
                        (rest.0, rw (slot.1, used, within, row.1, differ, lower) rest.1)
                    | inr higher ↦
                        let rest =
                          go_on (if is_ascending r then record p { min_offset = tmp } else p)
                            (elim (Bool-cases (is_ascending r)) [
                              | inl t ↦ rw t refl
                              | inr f ↦ rw f refl
                            ]) in
                        (rest.0, rw (slot.1, used, within, row.1, differ, higher) rest.1)
                  ]
                ]
              ]
            ]
      ]

-- In a table of version 3 whose index has an empty place, and in which each other number is an offset
-- where a key stands, SeekToKey ends, after at most one look at each place and one more.
pub seek_to_key-ends :
    (hash_of : List ℕ → ℕ) (r : OlderReader) (key : List ℕ) (z : ℕ)
    → r.header.major_version ≡ 3
    → z < r.index_size
    → index_at r z ≡ ok 0
    → ((i : ℕ) → i < r.index_size → (n : ℕ) × (index_at r i ≡ ok n) × IsSlot r n)
    → (x : OlderReader × Bool) × (seek_to_key hash_of (r.index_size + 1) r key ≡ ok x)
unfolding seek_to_key
seek_to_key-ends hash_of r key z three z_inside empty slots =
    let not_old : ltb r.header.major_version 2 ≡ false = rw three refl in
    let start : hash_of key % r.index_size < r.index_size =
      mod-lt (hash_of key) (omega (arith, z_inside)) in
    let some_place : ltb 0 r.index_size ≡ true = ground (arith, z_inside) in
    rw (not_old, some_place)
      (seek_loop-ends r key z three z_inside empty slots (r.index_size + 1) _ start
        (Near-any (hash_of key % r.index_size) z r.index_size start z_inside))
