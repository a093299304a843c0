-- ===== src/Merge/Heap/Order.antt =====
-- The order of the heap of src/merge.cc, with indices from 1: the entry at an index is not behind those at twice
-- the index and one more. The two loops work on an array with a hole.
use cantera_table.Shared.{
  ℕ, zero, suc, ◌*◌, ◌/◌, ◌≤◌, ◌<◌, ◌≡◌, ap, ◌⊎◌, List, true, ◌==◌, ==_iff, Bool-cases, inl, inr,
  arith,
}
use cantera_table.Shared.Strings.{StringLe, StringLe-trans, string_lt_irrefl}
use cantera_table.Merge.Heap.{Entry}
use cantera_table.Merge.Heap.Array.{InHeap, get, write, get-write_self, get-write_other}

-- The key at an index.
abbrev pub key_at : List Entry → ℕ → List ℕ
key_at h c = (get h c).key

-- Every entry is not before the one above it.
unfoldable pub IsHeap : ℕ → List Entry → Type 0
IsHeap n h = (c : ℕ) → 2 ≤ c → c ≤ n → StringLe (key_at h (c / 2)) (key_at h c)

-- The same apart from the hole at `i`, whose children are not before the entry above it.
pub record HasHole (n : ℕ) (h : List Entry) (i : ℕ) : Type 0 where
  pub edges :
      (c : ℕ)
      → 2 ≤ c
      → c ≤ n
      → (c ≡ i → ⊥)
      → (c / 2 ≡ i → ⊥)
      → StringLe (key_at h (c / 2)) (key_at h c)
  pub bridged : (c : ℕ) → c ≤ n → c / 2 ≡ i → 2 ≤ i → StringLe (key_at h (i / 2)) (key_at h c)

-- The entry is not behind the children of the hole.
unfoldable pub IsAbove : ℕ → List Entry → ℕ → Entry → Type 0
IsAbove n h i e = (c : ℕ) → c ≤ n → c / 2 ≡ i → StringLe e.key (key_at h c)

pub StringLe-refl : (a : List ℕ) → StringLe a a
StringLe-refl a = string_lt_irrefl a

pub IsHeap-HasHole : (n : ℕ) (h : List Entry) (i : ℕ) → IsHeap n h → n < i ⊎ i ≡ 1 → HasHole n h i
unfolding IsHeap
IsHeap-HasHole n h i heap where_is = record {
  edges = λ c a b p q. heap c a b;
  bridged = λ c a b p. elim where_is [
    | inl far ↦ absurd (omega (arith, far, b))
    | inr one ↦ absurd (omega (arith, one, p))
  ];
}

-- The first entry is not behind any other.
HasHole-least :
    (n : ℕ) (h : List Entry) (i : ℕ)
    → HasHole n h i
    → n < 2 * i
    → (k c : ℕ) → 1 ≤ c
    → c ≤ k
    → c ≤ n
    → (c ≡ i → ⊥)
    → StringLe (key_at h 1) (key_at h c)
HasHole-least n h i hole leaf zero c a b m ne = absurd (omega arith)
HasHole-least n h i hole leaf (suc k) c a b m ne = elim (Bool-cases (c == 1)) [
  | inl one ↦ rw ((==_iff c 1).0 one) (StringLe-refl (key_at h 1))
  | inr more ↦
      let big : 2 ≤ c = ground (arith, more) in
      let apart : c / 2 ≡ i → ⊥ = λ e. absurd (omega (arith, e, leaf, m)) in
      StringLe-trans (key_at h 1) (key_at h (c / 2)) (key_at h c)
        (HasHole-least n h i hole leaf k (c / 2) (omega (arith, big)) (omega (arith, big, b))
          (omega (arith, m)) apart)
        (hole.edges c big m ne apart)
]

pub least_beside_hole :
    (n : ℕ) (h : List Entry) (i c : ℕ)
    → HasHole n h i
    → n < 2 * i
    → 1 ≤ c
    → c ≤ n
    → (c ≡ i → ⊥)
    → StringLe (key_at h 1) (key_at h c)
least_beside_hole n h i c hole leaf a m ne = HasHole-least n h i hole leaf c c a (omega arith) m ne

pub IsHeap-least :
    (n : ℕ) (h : List Entry) (c : ℕ)
    → IsHeap n h
    → 1 ≤ c
    → c ≤ n
    → StringLe (key_at h 1) (key_at h c)
IsHeap-least n h c heap a m =
    least_beside_hole n h (suc n) c (IsHeap-HasHole n h (suc n) heap (inl (omega arith)))
      (omega arith) a m (λ e. absurd (omega (arith, e)))

-- The keys after a write.
module _ (h : List Entry) (i : ℕ) (x : Entry) (p : InHeap i h) where
  pub key_here : key_at (write h i x) i ≡ x.key
  key_here = ap (λ (t : Entry). t.key) (get-write_self h i x p)

  pub key_there : (j : ℕ) → 1 ≤ j → (j ≡ i → ⊥) → key_at (write h i x) j ≡ key_at h j
  key_there j q ne = ap (λ (t : Entry). t.key) (get-write_other h i j x p q ne)

-- The smaller child is moved up, into the hole.
pub HasHole-down :
    (n : ℕ) (h : List Entry) (i c : ℕ)
    → HasHole n h i
    → InHeap i h
    → c ≤ n
    → c / 2 ≡ i
    → IsAbove n h i (get h c)
    → HasHole n (write h i (get h c)) c
unfolding IsAbove
HasHole-down n h i c hole p inside child least = record {
  edges = λ d a b ne apart. elim (Bool-cases (d == i)) [
    | inl same ↦
        let e = (==_iff d i).0 same in
        let up =
          key_there h i (get h c) p (d / 2) (omega (arith, a))
            (λ q. absurd (omega (arith, q, e, a))) in
        rw (up, e, key_here h i (get h c) p) (hole.bridged c inside child (omega (arith, a, e)))
    | inr other ↦
        let differ : d ≡ i → ⊥ = λ q. absurd (let t : (d == i) ≡ true = (==_iff d i).1 q in cc) in
        let self = key_there h i (get h c) p d (omega (arith, a)) differ in
        elim (Bool-cases (d / 2 == i)) [
          | inl below ↦
              let e = (==_iff (d / 2) i).0 below in
              rw (self, e, key_here h i (get h c) p) (least d b e)
          | inr beside ↦
              let far : d / 2 ≡ i → ⊥ =
                λ q. absurd (let t : (d / 2 == i) ≡ true = (==_iff (d / 2) i).1 q in cc) in
              rw (self, key_there h i (get h c) p (d / 2) (omega (arith, a)) far)
                (hole.edges d a b differ far)
        ]
  ];
  bridged = λ d b e two.
      let self =
        key_there h i (get h c) p d (omega (arith, e, two))
          (λ q. absurd (omega (arith, q, e, child, two))) in
      rw (self, child, key_here h i (get h c) p)
        (rw e at (
          hole.edges d (omega (arith, e, two)) b (λ q. absurd (omega (arith, q, e, child, two)))
            (λ q. absurd (omega (arith, q, e, child, two)))));
}
