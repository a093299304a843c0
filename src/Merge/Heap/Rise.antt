-- ===== src/Merge/Heap/Rise.antt =====
-- The second loop of `CA_merge_heap_replace_top` and `CA_merge_heap_pop`, and the loop of `CA_merge_heap_push`: the
-- hole moves up until the entry fits.
use mathlib.Core.List.{Perm}
use mathlib.Core.List.Perm
use cantera_table.Shared.{
  ℕ, zero, suc, ◌-◌, ◌/◌, ◌≤◌, ◌<◌, ◌≡◌, ◌∙◌, refl, List, true, false, ltb, ◌==◌, ==_iff,
  Bool-cases, inl, inr, length, get_or, arith,
}
use cantera_table.Shared.Strings.{string_lt, StringLe, StringLe-trans, string_lt_asymm}
use cantera_table.Result.{ok}
use cantera_table.Merge.Heap.{Entry, at, put, key_lt, push_loop, rise, rise_tail}
use cantera_table.Merge.Heap.Array.{
  InHeap, get, write, load-ok, no_entry, at-ok, put-ok, get-write_other, length-write, move-perm,
}
use cantera_table.Merge.Heap.Order.{key_at, key_here, key_there, IsHeap, HasHole, IsAbove}

-- What the loop leaves of the heap `h` with the hole `i`.
pub record Risen (n : ℕ) (h : List Entry) (i : ℕ) (e : Entry) (r : List Entry) : Type 0 where
  pub heap : IsHeap n r
  pub size : length r ≡ length h
  pub entries : Perm r (write h i e)
  pub kept : (c : ℕ) → i < c → get r c ≡ get h c

-- The entry is written.
Risen-write :
    (n : ℕ) (h : List Entry) (i : ℕ) (e : Entry)
    → InHeap i h
    → HasHole n h i
    → IsAbove n h i e
    → (2 ≤ i → StringLe (key_at h (i / 2)) e.key)
    → Risen n h i e (write h i e)
unfolding IsHeap IsAbove
Risen-write n h i e p hole above fits = record {
  heap = λ c a b. elim (Bool-cases (c == i)) [
    | inl same ↦
        let q = (==_iff c i).0 same in
        let up =
          key_there h i e p (c / 2) (omega (arith, a)) (λ t. absurd (omega (arith, t, q, a))) in
        rw (up, q, key_here h i e p) (fits (omega (arith, q, a)))
    | inr other ↦
        let differ : c ≡ i → ⊥ = λ q. absurd (let t : (c == i) ≡ true = (==_iff c i).1 q in cc) in
        let self = key_there h i e p c (omega (arith, a)) differ in
        elim (Bool-cases (c / 2 == i)) [
          | inl below ↦
              (let q = (==_iff (c / 2) i).0 below in rw (self, q, key_here h i e p) (above c b q))
          | inr beside ↦
              let far : c / 2 ≡ i → ⊥ =
                λ q. absurd (let t : (c / 2 == i) ≡ true = (==_iff (c / 2) i).1 q in cc) in
              rw (self, key_there h i e p (c / 2) (omega (arith, a)) far)
                (hole.edges c a b differ far)
        ]
  ];
  size = length-write h i e;
  entries = Perm.rfl;
  kept =
      λ c far. get-write_other h i c e p (omega (arith, far)) (λ q. absurd (omega (arith, q, far)));
}

-- The entry above the hole is moved down, into it.
module _ (n : ℕ) (h : List Entry) (i : ℕ) (p : InHeap i h) (two : 2 ≤ i) (inside : i ≤ n)
    (hole : HasHole n h i) where
  key_lower : key_at (write h i (get h (i / 2))) i ≡ key_at h (i / 2)
  key_lower = key_here h i (get h (i / 2)) p

  key_rest : (j : ℕ) → 1 ≤ j → (j ≡ i → ⊥) → key_at (write h i (get h (i / 2))) j ≡ key_at h j
  key_rest = key_there h i (get h (i / 2)) p

  -- The entry above the hole is not behind those below it, on either side.
  not_behind :
      (c : ℕ)
      → 2 ≤ c
      → c ≤ n
      → c / 2 ≡ i / 2
      → (c ≡ i → ⊥)
      → StringLe (key_at h (i / 2)) (key_at h c)
  not_behind c a b e apart =
      rw e at (hole.edges c a b apart (λ q. absurd (omega (arith, q, e, two))))

  HasHole-up : HasHole n (write h i (get h (i / 2))) (i / 2)
  HasHole-up = record {
    edges = λ c a b ne apart.
        let differ : c ≡ i → ⊥ = λ q. absurd (apart (omega (arith, q))) in
        let self = key_rest c (omega (arith, a)) differ in
        elim (Bool-cases (c / 2 == i)) [
          | inl below ↦
              let q = (==_iff (c / 2) i).0 below in rw (self, q, key_lower) (hole.bridged c b q two)
          | inr beside ↦
              let far : c / 2 ≡ i → ⊥ =
                λ q. absurd (let t : (c / 2 == i) ≡ true = (==_iff (c / 2) i).1 q in cc) in
              rw (self, key_rest (c / 2) (omega (arith, a)) far) (hole.edges c a b differ far)
        ];
    bridged = λ c b e up.
        let top =
          hole.edges (i / 2) up (omega (arith, inside)) (λ q. absurd (omega (arith, q, two)))
            (λ q. absurd (omega (arith, q, two))) in
        let over = key_rest (i / 2 / 2) (omega (arith, up)) (λ q. absurd (omega (arith, q, two))) in
        elim (Bool-cases (c == i)) [
          | inl same ↦ rw ((==_iff c i).0 same, key_lower, over) top
          | inr other ↦
              let differ : c ≡ i → ⊥ =
                λ q. absurd (let t : (c == i) ≡ true = (==_iff c i).1 q in cc) in
              rw (key_rest c (omega (arith, e, up)) differ, over)
                (StringLe-trans (key_at h (i / 2 / 2)) (key_at h (i / 2)) (key_at h c) top
                  (not_behind c (omega (arith, e, up)) b e differ))
        ];
  }

  IsAbove-up :
      (e : Entry)
      → string_lt e.key (key_at h (i / 2)) ≡ true
      → IsAbove n (write h i (get h (i / 2))) (i / 2) e
  unfolding IsAbove
  IsAbove-up e less c b q =
      let under = string_lt_asymm e.key (key_at h (i / 2)) less in
      elim (Bool-cases (c == i)) [
        | inl same ↦ rw ((==_iff c i).0 same, key_lower) under
        | inr other ↦
            let differ : c ≡ i → ⊥ =
              λ t. absurd (let s : (c == i) ≡ true = (==_iff c i).1 t in cc) in
            rw (key_rest c (omega (arith, q, two)) differ) (
              StringLe-trans e.key (key_at h (i / 2)) (key_at h c) under
                (not_behind c (omega (arith, q, two)) b q differ))
      ]

  Risen-step :
      (e : Entry) (r : List Entry)
      → Risen n (write h i (get h (i / 2))) (i / 2) e r
      → Risen n h i e r
  Risen-step e r rest = record {
    heap = rest.heap;
    size = rest.size ∙ length-write h i (get h (i / 2));
    entries = Perm.trans rest.entries (
        move-perm h i (i / 2) e p (omega (arith, two), omega (arith, p))
          (λ q. absurd (omega (arith, q, two))));
    kept = λ c far.
        rest.kept c (omega (arith, far))
        ∙ get-write_other h i c (get h (i / 2)) p (omega (arith, far))
            (λ q. absurd (omega (arith, q, far)));
  }

-- The loop ends, with the entry in its place.
pub rise-Risen :
    (rounds n : ℕ) (h : List Entry) (i : ℕ) (e : Entry)
    → i ≤ rounds
    → InHeap i h
    → i ≤ n
    → HasHole n h i
    → IsAbove n h i e
    → (r : List Entry) × (rise rounds h i e ≡ ok r) × Risen n h i e r
unfolding rise key_lt
rise-Risen zero n h i e fuel p inside hole above = absurd (omega (arith, p))
rise-Risen (suc rounds) n h i e fuel p inside hole above = elim (Bool-cases (ltb 1 i)) [
  | inr f ↦ (
    write h i e,
    rw f (put-ok h i e p),
    Risen-write n h i e p hole above
        (λ two. (let small : i < 2 = ground (arith, f) in absurd (omega (arith, small, two)))),
  )
  | inl t ↦
      let two : 2 ≤ i = ground (arith, t) in
      let up = at-ok h (i / 2) (omega (arith, two), omega (arith, p)) in
      elim (Bool-cases (string_lt e.key (key_at h (i / 2)))) [
        | inr fits ↦ (
          write h i e,
          rw (t, up, fits) (put-ok h i e p),
          Risen-write n h i e p hole above (λ a. fits),
        )
        | inl less ↦
            let h' = write h i (get h (i / 2)) in
            let range : InHeap (i / 2) h' =
              (omega (arith, two), omega (arith, p, length-write h i (get h (i / 2)))) in
            let rest =
              rise-Risen rounds n h' (i / 2) e (omega (arith, fuel, two)) range
                (omega (arith, inside)) (HasHole-up n h i p two inside hole)
                (IsAbove-up n h i p two inside hole e less) in
            (
              rest.0,
              rw (t, up, less, put-ok h i (get h (i / 2)) p) rest.1,
              Risen-step n h i p two inside hole e rest.0 rest.2,
            )
      ]
]

-- The loop of `CA_merge_heap_push`, whose indices start at 0.
pub push_loop-rise :
    (rounds : ℕ) (h : List Entry) (i : ℕ) (e : Entry)
    → i < length h
    → push_loop rounds h i e ≡ rise rounds h (suc i) e
unfolding push_loop rise at put
push_loop-rise zero h i e p = refl
push_loop-rise (suc rounds) h zero e p = refl
push_loop-rise (suc rounds) h (suc i) e p =
    let less : suc i - 1 ≡ i = omega arith in
    let half : suc (suc i) / 2 ≡ suc (i / 2) = omega arith in
    let not_zero : (suc i == 0) ≡ false = ground arith in
    let more : ltb 1 (suc (suc i)) ≡ true = ground arith in
    let above = load-ok h (i / 2) (omega (arith, p)) in
    let stored = put-ok h (suc (suc i)) (get_or h (i / 2) no_entry) (omega (arith, p)) in
    let next =
      push_loop-rise rounds (write h (suc (suc i)) (get_or h (i / 2) no_entry)) (i / 2) e
        (omega (arith, p, length-write h (suc (suc i)) (get_or h (i / 2) no_entry))) in
    elim (Bool-cases (key_lt e (get_or h (i / 2) no_entry))) [
      | inl before ↦ rw (not_zero, more, less, half, above, before, stored) next
      | inr fits ↦ rw (not_zero, more, less, half, above, fits) refl
    ]

-- The second loop of `CA_merge_heap_pop`, where the tail is not before the first entry: it stops below index 1.
pub rise_tail-rise :
    (rounds n : ℕ) (h : List Entry) (i : ℕ)
    → 2 ≤ i
    → i < n
    → length h ≡ n
    → StringLe (key_at h 1) (key_at h n)
    → rise_tail rounds n h i ≡ rise rounds h i (get h n)
unfolding rise_tail rise key_lt
rise_tail-rise zero n h i two i_lt size least = refl
rise_tail-rise (suc rounds) n h i two i_lt size least =
    let tail = at-ok h n (omega (arith, i_lt), omega (arith, size)) in
    let up = at-ok h (i / 2) (omega (arith, two), omega (arith, i_lt, size)) in
    let p : InHeap i h = (omega (arith, two), omega (arith, i_lt, size)) in
    let positive : ltb 0 i ≡ true = ground (arith, two) in
    let more : ltb 1 i ≡ true = ground (arith, two) in
    elim (Bool-cases (string_lt (key_at h n) (key_at h (i / 2)))) [
      | inr fits ↦ rw (positive, more, tail, up, fits) refl
      | inl less ↦
          let h' = write h i (get h (i / 2)) in
          let big : 2 ≤ i / 2 = elim (Bool-cases (i / 2 == 1)) [
            | inl one ↦ absurd (
                let same : string_lt (key_at h n) (key_at h 1) ≡ true =
                  rw ((==_iff (i / 2) 1).0 one) at less in
                cc)
            | inr other ↦ ground (arith, two, other)
          ] in
          let first =
            key_there h i (get h (i / 2)) p 1 (omega arith) (λ q. absurd (omega (arith, q, two))) in
          let last_key =
            key_there h i (get h (i / 2)) p n (omega (arith, i_lt))
              (λ q. absurd (omega (arith, q, i_lt))) in
          let last : get h' n ≡ get h n =
            get-write_other h i n (get h (i / 2)) p (omega (arith, i_lt))
              (λ q. absurd (omega (arith, q, i_lt))) in
          let next =
            rise_tail-rise rounds n h' (i / 2) big (omega (arith, i_lt))
              (omega (arith, size, length-write h i (get h (i / 2))))
              (rw (first, last_key) least) in
          rw (positive, more, tail, up, less, put-ok h i (get h (i / 2)) p) (rw last at next)
    ]
