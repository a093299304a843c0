-- ===== src/Merge/Heap/Sink.antt =====
-- The first loop of `CA_merge_heap_replace_top` and `CA_merge_heap_pop`: the hole moves down to a leaf.
use mathlib.Core.List.{Perm}
use mathlib.Core.List.Perm
use cantera_table.Shared.{
  ℕ, zero, suc, ◌+◌, ◌*◌, ◌/◌, ◌≤◌, ◌<◌, ◌≡◌, ◌∙◌, refl, List, leb, ◌==◌, ==_iff, Bool-cases, inl,
  inr, length, arith,
}
use cantera_table.Shared.Strings.{StringLe, string_lt_asymm}
use cantera_table.Result.{ok}
use cantera_table.Merge.Heap.{Entry, key_lt, smaller_child, sink}
use cantera_table.Merge.Heap.Array.{
  InHeap, get, write, at-ok, put-ok, get-write_other, length-write, move-perm,
}
use cantera_table.Merge.Heap.Order.{key_at, HasHole, IsAbove, StringLe-refl, HasHole-down}

-- What the loop leaves of the heap `h` with the hole `i`.
pub record Sunk (n : ℕ) (h : List Entry) (i : ℕ) (o : List Entry × ℕ) : Type 0 where
  pub hole : HasHole n o.0 o.1
  pub is_leaf : n < 2 * o.1
  pub first : 1 ≤ o.1
  pub inside : o.1 ≤ n
  pub size : length o.0 ≡ length h
  pub entries : (x : Entry) → Perm (write o.0 o.1 x) (write h i x)
  pub tail : (o.1 ≡ n → ⊥) → get o.0 n ≡ get h n

-- The child that moves up.
pub record Child (n : ℕ) (h : List Entry) (i c : ℕ) : Type 0 where
  pub above : c / 2 ≡ i
  pub inside : c ≤ n
  pub least : IsAbove n h i (get h c)

-- An index has two below it.
IsAbove-both :
    (n : ℕ) (h : List Entry) (i : ℕ) (e : Entry)
    → StringLe e.key (key_at h (2 * i))
    → StringLe e.key (key_at h (2 * i + 1))
    → IsAbove n h i e
unfolding IsAbove
IsAbove-both n h i e left right c b below = elim (Bool-cases (c == 2 * i)) [
  | inl same ↦ rw ((==_iff c (2 * i)).0 same) left
  | inr other ↦ (let odd : c ≡ 2 * i + 1 = ground (arith, below, other) in rw odd right)
]

smaller_child-Child :
    (n : ℕ) (h : List Entry) (i : ℕ)
    → 1 ≤ i
    → 2 * i ≤ n
    → length h ≡ n
    → (c : ℕ) × (smaller_child n h (2 * i) ≡ ok c) × Child n h i c
unfolding smaller_child key_lt IsAbove
smaller_child-Child n h i first room size = elim (Bool-cases (leb (2 * i + 1) n)) [
  | inr f ↦
      let last : n < 2 * i + 1 = ground (arith, f) in
      (
        2 * i,
        rw f refl,
        record {
          above = omega arith;
          inside = room;
          least = λ d b e.
              (let same : d ≡ 2 * i = omega (arith, b, e, last) in
                rw same (StringLe-refl (key_at h (2 * i))));
        },
      )
  | inl t ↦
      let both : 2 * i + 1 ≤ n = ground (arith, t) in
      let right = at-ok h (2 * i + 1) (omega (arith, both, size), omega (arith, both, size)) in
      let left = at-ok h (2 * i) (omega (arith, first), omega (arith, both, size)) in
      elim (Bool-cases (key_lt (get h (2 * i + 1)) (get h (2 * i)))) [
        | inl smaller ↦ (
          2 * i + 1,
          rw (t, right, left, smaller) refl,
          record {
            above = omega arith;
            inside = both;
            least =
                IsAbove-both n h i (get h (2 * i + 1)) (string_lt_asymm _ _ smaller)
                  (StringLe-refl _);
          },
        )
        | inr greater ↦ (
          2 * i,
          rw (t, right, left, greater) refl,
          record {
            above = omega arith;
            inside = room;
            least = IsAbove-both n h i (get h (2 * i)) (StringLe-refl _) greater;
          },
        )
      ]
]

-- One step of the hole, from a state that the rest of the loop has been followed from.
Sunk-step :
    (n : ℕ) (h : List Entry) (i c : ℕ) (o : List Entry × ℕ)
    → InHeap i h
    → 2 * i ≤ n
    → length h ≡ n
    → Child n h i c
    → Sunk n (write h i (get h c)) c o
    → Sunk n h i o
Sunk-step n h i c o p room size child rest =
    let apart : i ≡ c → ⊥ = λ e. absurd (omega (arith, e, child.above, p)) in
    let range : InHeap c h = (omega (arith, child.above, p), omega (arith, child.inside, size)) in
    record {
      hole = rest.hole;
      is_leaf = rest.is_leaf;
      first = rest.first;
      inside = rest.inside;
      size = omega (arith, rest.size, length-write h i (get h c));
      entries = λ x. Perm.trans (rest.entries x) (move-perm h i c x p range apart);
      tail = λ ne.
          rest.tail ne
          ∙ get-write_other h i n (get h c) p (omega (arith, room, p))
              (λ e. absurd (omega (arith, e, room, p)));
    }

-- The loop ends, at a leaf.
pub sink-Sunk :
    (rounds n : ℕ) (h : List Entry) (i : ℕ)
    → n < i + rounds
    → 1 ≤ i
    → i ≤ n
    → length h ≡ n
    → HasHole n h i
    → (o : List Entry × ℕ) × (sink rounds n h i ≡ ok o) × Sunk n h i o
unfolding sink
sink-Sunk zero n h i fuel first inside size hole = absurd (omega arith)
sink-Sunk (suc rounds) n h i fuel first inside size hole = elim (Bool-cases (leb (2 * i) n)) [
  | inr f ↦ (
    (h, i),
    rw f refl,
    record {
      hole = hole;
      is_leaf = ground (arith, f);
      first = first;
      inside = inside;
      size = refl;
      entries = λ x. Perm.rfl;
      tail = λ ne. refl;
    },
  )
  | inl t ↦
      let room : 2 * i ≤ n = ground (arith, t) in
      let p : InHeap i h = (first, omega (arith, inside, size)) in
      let found = smaller_child-Child n h i first room size in
      let c = found.0 in
      let child = found.2 in
      let range : InHeap c h =
        (omega (arith, child.above, first), omega (arith, child.inside, size)) in
      let rest =
        sink-Sunk rounds n (write h i (get h c)) c (omega (arith, child.above, fuel, first)) range.0
          child.inside (omega (arith, length-write h i (get h c), size))
          (HasHole-down n h i c hole p child.inside child.above child.least) in
      (
        rest.0,
        rw (t, found.1, at-ok h c range, put-ok h i (get h c) p, rest.1) refl,
        Sunk-step n h i c rest.0 p room size child rest.2,
      )
]
