-- ===== src/Merge/Heap/Whole.antt =====
-- The three operations of the heap of src/merge.cc: `CA_merge_heap_push`, `CA_merge_heap_replace_top` and
-- `CA_merge_heap_pop`.
use mathlib.Core.List.{Perm, perm_append_singleton}
use mathlib.Core.List.Perm
use cantera_table.Shared.{
  ℕ, zero, suc, ◌+◌, ◌-◌, ◌*◌, ◌/◌, ◌≤◌, ◌<◌, ◌≡◌, ◌∙◌, refl, sym, List, [], ◌∷◌, ◌++◌, ◌==◌,
  ==_iff, Bool-cases, inl, inr, length, get_or, take, length-take, ap, length-append, arith,
}
use cantera_table.Shared.Strings.{StringLe}
use cantera_table.Result.{ok}
use cantera_table.Merge.Heap.{Entry, push, replace_top, pop}
use cantera_table.Merge.Heap.Array.{
  no_entry, get, write, get-append, get-take, write-perm, write-snoc, write-get,
}
use cantera_table.Merge.Heap.Order.{
  key_at, IsHeap, HasHole, IsAbove, IsHeap-HasHole, least_beside_hole,
}
use cantera_table.Merge.Heap.Sink.{Sunk, sink-Sunk}
use cantera_table.Merge.Heap.Rise.{Risen, rise-Risen, push_loop-rise, rise_tail-rise}

-- The array in use is a heap.
abbrev pub IsWhole : List Entry → Type 0
IsWhole h = IsHeap (length h) h

IsHeap-size : (n m : ℕ) (r : List Entry) → n ≡ m → IsHeap n r → IsHeap m r
IsHeap-size n m r e heap = rw e at heap

IsHeap-edge :
    (n : ℕ) (h : List Entry) (c : ℕ)
    → IsHeap n h
    → 2 ≤ c
    → c ≤ n
    → StringLe (key_at h (c / 2)) (key_at h c)
unfolding IsHeap
IsHeap-edge n h c heap a b = heap c a b

-- The hole at a leaf takes any entry that rises from there.
leaf-IsAbove : (n : ℕ) (h : List Entry) (i : ℕ) (e : Entry) → n < 2 * i → IsAbove n h i e
unfolding IsAbove
leaf-IsAbove n h i e leaf c b q = absurd (omega (arith, leaf, b, q))

-- What a new entry does to the array: the top is out of it, the entry is in.
trade :
    (h o r : List Entry) (i : ℕ) (e : Entry)
    → 1 ≤ length h
    → ((x : Entry) → Perm (write o i x) (write h 1 x))
    → Perm r (write o i e)
    → Perm (get h 1 ∷ r) (e ∷ h)
trade h o r i e some_left sunk risen =
    Perm.trans (Perm.cons (get h 1) (Perm.trans risen (sunk e)))
      (write-perm h 1 e (omega arith, some_left))

-- The entry takes the place of the first one, in a heap that is not empty.
pub replace_top-IsWhole :
    (h : List Entry) (e : Entry)
    → 1 ≤ length h
    → IsWhole h
    → (r : List Entry) × (replace_top h (length h) e ≡ ok r)
      × IsWhole r
      × Perm (get h 1 ∷ r) (e ∷ h)
unfolding replace_top
replace_top-IsWhole h e some_left heap =
    let n = length h in
    let down =
      sink-Sunk (n + 1) n h 1 (omega arith) (omega arith) some_left refl
        (IsHeap-HasHole n h 1 heap (inr refl)) in
    let sunk = down.2 in
    let up =
      rise-Risen (down.0.1 + 1) n down.0.0 down.0.1 e (omega arith)
        (sunk.first, omega (arith, sunk.inside, sunk.size)) sunk.inside sunk.hole
        (leaf-IsAbove n down.0.0 down.0.1 e sunk.is_leaf) in
    let risen = up.2 in
    let size : n ≡ length up.0 = sym (risen.size ∙ sunk.size) in
    (
      up.0,
      rw (down.1, up.1) refl,
      IsHeap-size n (length up.0) up.0 size risen.heap,
      trade h down.0.0 up.0 down.0.1 e some_left sunk.entries risen.entries,
    )

get_or-snoc : (h : List Entry) (e : Entry) → get_or (h ++ (e ∷ [])) (length h) no_entry ≡ e
get_or-snoc [] e = refl
get_or-snoc (x ∷ h) e = get_or-snoc h e

get-snoc : (h : List Entry) (e : Entry) → get (h ++ (e ∷ [])) (suc (length h)) ≡ e
unfolding get
get-snoc h e = let less : suc (length h) - 1 ≡ length h = omega arith in rw less (get_or-snoc h e)

HasHole-snoc :
    (h : List Entry) (e : Entry)
    → IsWhole h
    → HasHole (suc (length h)) (h ++ (e ∷ [])) (suc (length h))
unfolding IsHeap
HasHole-snoc h e heap = record {
  edges = λ c a b ne apart.
      let above =
        ap (λ (t : Entry). t.key)
          (get-append h (e ∷ []) (c / 2) (omega (arith, a), omega (arith, b, ne))) in
      let self =
        ap (λ (t : Entry). t.key)
          (get-append h (e ∷ []) c (omega (arith, a), omega (arith, b, ne))) in
      rw (above, self) (heap c a (omega (arith, b, ne)));
  bridged = λ c b q. absurd (omega (arith, q, b));
}

-- The entry is added to a heap.
pub push-IsWhole :
    (h : List Entry) (e : Entry)
    → IsWhole h
    → (r : List Entry) × (push h e ≡ ok r) × IsWhole r × Perm r (e ∷ h)
unfolding push
push-IsWhole h e heap =
    let n = length h in
    let wide : List Entry = h ++ (e ∷ []) in
    let size : length wide ≡ suc n = omega (arith, length-append h (e ∷ [])) in
    let one_more : n + 1 ≡ suc n = omega arith in
    let up =
      rise-Risen (suc n) (suc n) wide (suc n) e (omega arith) (omega arith, omega (arith, size))
        (omega arith) (HasHole-snoc h e heap) (leaf-IsAbove (suc n) wide (suc n) e (omega arith)) in
    let same : write wide (suc n) e ≡ wide = rw (get-snoc h e) at (write-get wide (suc n)) in
    (
      up.0,
      rw (one_more, push_loop-rise (suc n) wide n e (omega (arith, size))) up.1,
      IsHeap-size (suc n) (length up.0) up.0 (sym (up.2.size ∙ size)) up.2.heap,
      Perm.trans (rw same at up.2.entries) (perm_append_singleton e h),
    )

-- The array without its last entry.
unfoldable pub without_last : List Entry → List Entry
without_last h = take (length h - 1) h

without_last-perm :
    (h r : List Entry) (x e : Entry)
    → 1 ≤ length r
    → Perm (x ∷ write r (length r) e) (e ∷ h)
    → Perm (x ∷ without_last r) h
unfolding without_last
without_last-perm h r x e some_left p =
    let n = length r - 1 in
    let size : length r ≡ suc n = omega (arith, some_left) in
    let split : write r (length r) e ≡ take n r ++ (e ∷ []) =
      ap (λ k. write r k e) size ∙ write-snoc r n e size in
    Perm.cons_inv (
      Perm.trans (Perm.swap x e _)
        (Perm.trans (Perm.cons x (Perm.symm (perm_append_singleton e (take n r)))) (rw split at p)))

without_last-IsHeap :
    (n : ℕ) (r : List Entry)
    → length r ≡ suc n
    → ((c : ℕ) → 2 ≤ c → c ≤ n → StringLe (key_at r (c / 2)) (key_at r c))
    → IsWhole (without_last r)
unfolding without_last IsHeap
without_last-IsHeap n r size edges c a b =
    let short : length r - 1 ≡ n = omega (arith, size) in
    let inside : c ≤ n = omega (arith, b, size, length-take (length r - 1) r) in
    let above =
      ap (λ (t : Entry). t.key) (get-take r n (c / 2) (omega (arith, a)) (omega (arith, inside))) in
    let self = ap (λ (t : Entry). t.key) (get-take r n c (omega (arith, a)) inside) in
    rw (short, above, self) (edges c a inside)

-- What the array is when its first entry has been taken out.
pub record Popped (h r : List Entry) : Type 0 where
  pub size : length r ≡ length h
  pub heap : IsWhole (without_last r)
  pub entries : Perm (get h 1 ∷ without_last r) h

Popped-tail :
    (n : ℕ) (h o : List Entry) (i : ℕ)
    → 1 ≤ n
    → length h ≡ n
    → i ≡ n
    → Sunk n h 1 (o, i)
    → Popped h o
Popped-tail zero h o i some_left size at_end hole_down = elim some_left [ ]
Popped-tail (suc n) h o i some_left size at_end hole_down =
    let sunk : Sunk (suc n) h 1 (o, suc n) = rw at_end at hole_down in
    let wide : length o ≡ suc n = sunk.size ∙ size in
    let p =
      trade h o (write o (suc n) no_entry) (suc n) no_entry (omega (arith, size)) sunk.entries
        Perm.rfl in
    record {
      size = sunk.size;
      heap = without_last-IsHeap n o wide (λ c a b.
          sunk.hole.edges c a (omega (arith, b)) (λ q. absurd (omega (arith, q, b)))
            (λ q. absurd (omega (arith, q, b, a))));
      entries = without_last-perm h o (get h 1) no_entry (omega (arith, wide)) (rw (sym wide) at p);
    }

Popped-rise :
    (n : ℕ) (h o r : List Entry) (i : ℕ)
    → 1 ≤ n
    → length h ≡ n
    → (i ≡ n → ⊥)
    → Sunk n h 1 (o, i)
    → Risen n o i (get h n) r
    → Popped h r
Popped-rise zero h o r i some_left size apart sunk risen = elim some_left [ ]
Popped-rise (suc n) h o r i some_left size apart sunk risen =
    let wide : length r ≡ suc n = risen.size ∙ (sunk.size ∙ size) in
    let tail : get r (length r) ≡ get h (suc n) =
      ap (get r) wide
      ∙ (risen.kept (suc n) (omega (arith, sunk.inside, apart)) ∙ sunk.tail apart) in
    let same : write r (length r) (get h (suc n)) ≡ r = rw tail at (write-get r (length r)) in
    let p = trade h o r i (get h (suc n)) (omega (arith, size)) sunk.entries risen.entries in
    record {
      size = risen.size ∙ sunk.size;
      heap = without_last-IsHeap n r wide (λ c a b. all_edges risen.heap c a (omega (arith, b)));
      entries = without_last-perm h r (get h 1) (get h (suc n)) (omega (arith, wide)) (rw same p);
    }
  where
    all_edges :
        IsHeap (suc n) r → (c : ℕ) → 2 ≤ c → c ≤ suc n → StringLe (key_at r (c / 2)) (key_at r c)
    all_edges heap c a b = IsHeap-edge (suc n) r c heap a b

-- CA_merge_heap_pop on a heap that is not empty reads and writes only inside of it, takes its first
-- entry out, keeps the others, and leaves a heap in front of the last place.
pub pop-Popped :
    (h : List Entry)
    → 1 ≤ length h
    → IsWhole h
    → (r : List Entry) × (pop h (length h) ≡ ok r) × Popped h r
unfolding pop
pop-Popped h some_left heap =
    let n = length h in
    let down =
      sink-Sunk (n + 1) n h 1 (omega arith) (omega arith) some_left refl
        (IsHeap-HasHole n h 1 heap (inr refl)) in
    let o = down.0.0 in
    let i = down.0.1 in
    let sunk = down.2 in
    elim (Bool-cases (i == n)) [
      | inl last ↦
          let at_end : i ≡ n = (==_iff i n).0 last in
          (o, rw (down.1, last) refl, Popped-tail n h o i some_left refl at_end sunk)
      | inr before ↦
          let apart : i ≡ n → ⊥ = ground (arith, before) in
          let i_lt : i < n = omega (arith, apart, sunk.inside) in
          let two : 2 ≤ i = omega (arith, i_lt, sunk.is_leaf) in
          let least =
            least_beside_hole n o i n sunk.hole sunk.is_leaf some_left (omega arith)
              (λ q. apart (sym q)) in
          let up =
            rise-Risen (i + 1) n o i (get h n) (omega arith)
              (sunk.first, omega (arith, sunk.inside, sunk.size)) sunk.inside sunk.hole
              (leaf-IsAbove n o i (get h n) sunk.is_leaf) in
          let same = rise_tail-rise (i + 1) n o i two i_lt sunk.size least in
          (
            up.0,
            rw (down.1, before, same, sunk.tail apart) up.1,
            Popped-rise n h o up.0 i some_left refl apart sunk up.2,
          )
    ]
