-- ===== src/Merge/Tables/Fill.antt =====
-- The first loop of `ca_table_merge` of src/merge.cc, which reads the first row of every table.
use mathlib.Core.HLevel.{⊥_prop}
use mathlib.Core.List.{Perm, perm_middle, map}
use mathlib.Core.List.Perm
use cantera_table.Shared.{
  ℕ, zero, suc, ◌+◌, ◌<◌, ◌≤◌, ◌≡◌, ◌≢◌, refl, List, [], ◌∷◌, ◌++◌, Bool, true, ltb, ◌==◌, ==_iff,
  Bool-cases, inl, inr, Option, length, get_or, All, append_assoc, append-nil, length-append, arith,
}
use cantera_table.Result.{Result, ok, err, require}
use cantera_table.Merge.Heap.Order.{IsHeap}
use cantera_table.Merge.Groups.{Row}
use cantera_table.Merge.Heap.{Entry}
use cantera_table.Merge.Heap.Whole.{IsWhole, push-IsWhole}
use cantera_table.Merge.Tables.{entry, push_row, fill}
use cantera_table.Merge.Tables.Rows.{ReadsRows, Perm-All, Stand}
use cantera_table.Merge.Tables.Loop.{row_of, rows_left, first_entry, IsNext, IsNext-prop, Covers}
use cantera_table.WriteOnce.Builder.Rows.{InOrder, concat, concat-append}
use cantera_table.WriteOnce.Reader.Rows.{head, tail}

module _ {A : Type 0} where
  get_or-front : (a b : List A) (i : ℕ) (d : A) → i < length a → get_or (a ++ b) i d ≡ get_or a i d
  get_or-front [] b i d p = elim p [ ]
  get_or-front (x ∷ a) b zero d p = refl
  get_or-front (x ∷ a) b (suc i) d p = get_or-front a b i d (omega arith)

  get_or-last : (a : List A) (x d : A) → get_or (a ++ (x ∷ [])) (length a) d ≡ x
  get_or-last [] x d = refl
  get_or-last (y ∷ a) x d = get_or-last a x d

  get_or-behind : (a : List A) (i : ℕ) (d : A) → length a ≤ i → get_or a i d ≡ d
  get_or-behind [] i d p = refl
  get_or-behind (x ∷ a) zero d p = absurd (omega arith)
  get_or-behind (x ∷ a) (suc i) d p = get_or-behind a i d (omega arith)

-- The heap over the tables that were read so far.
pub record Over (heap : List Entry) (lefts : List (List Row)) : Type 0 where
  pub whole : IsWhole heap
  pub nexts : All (IsNext lefts) heap
  pub covers : Covers heap lefts

-- The first row of one more table is in the heap.
module _ (heap h' : List Entry) (lefts : List (List Row)) (l : List Row) (over : Over heap lefts)
    (order : InOrder [] l) (p : Perm h' (first_entry (length lefts) l ++ heap)) where
  nexts-more : All (IsNext (lefts ++ (tail l ∷ []))) h'
  nexts-more =
      Perm-All (IsNext-prop (lefts ++ (tail l ∷ []))) (first_entry (length lefts) l ++ heap) h'
        (Perm.symm p) (with_first l refl)
    where
      size : length (lefts ++ (tail l ∷ [])) ≡ length lefts + 1
      size = length-append lefts (tail l ∷ [])

      others : (xs : List Entry) → All (IsNext lefts) xs → All (IsNext (lefts ++ (tail l ∷ []))) xs
      others [] h = tt
      others (x ∷ xs) h = (
        (omega (arith, h.0.0, size), rw (get_or-front lefts (tail l ∷ []) x.table [] h.0.0) h.0.1),
        others xs h.1,
      )

      with_first :
          (k : List Row)
          → l ≡ k
          → All (IsNext (lefts ++ (tail l ∷ []))) (first_entry (length lefts) k ++ heap)
      with_first [] q = others heap over.nexts
      with_first (row ∷ rows) q =
          let now : InOrder [] (row ∷ rows) = rw q at order in
          (
            (omega (arith, size), rw (get_or-last lefts (tail l) [], q) now.1),
            others heap over.nexts,
          )

  Covers-more : Covers h' (lefts ++ (tail l ∷ []))
  Covers-more i none_here = elim (Bool-cases (ltb i (length lefts))) [
    | inl t ↦
        let inside : i < length lefts = ground (arith, t) in
        rw (get_or-front lefts (tail l ∷ []) i [] inside) (over.covers i (others l nobody))
    | inr f ↦ elim (Bool-cases (i == length lefts)) [
      | inl t ↦
          let same = (==_iff i (length lefts)).0 t in
          rw (same, get_or-last lefts (tail l) []) (first_gone l refl (rw same at nobody))
      | inr g ↦ get_or-behind (lefts ++ (tail l ∷ [])) i [] (
          let far : length lefts + 1 ≤ i = ground (arith, f, g) in
          omega (arith, far, length-append lefts (tail l ∷ [])))
    ]
  ]
    where
      nobody : All (λ x. x.table ≢ i) (first_entry (length lefts) l ++ heap)
      nobody =
          Perm-All (λ x u v k q. ⊥_prop (u q) (v q) k) h' (first_entry (length lefts) l ++ heap) p
            none_here

      first_gone :
          (k : List Row)
          → l ≡ k
          → All (λ x. x.table ≢ length lefts) (first_entry (length lefts) k ++ heap)
          → tail l ≡ []
      first_gone [] q h = rw q refl
      first_gone (row ∷ rows) q h = absurd (h.0 refl)

      others :
          (k : List Row)
          → All (λ x. x.table ≢ i) (first_entry (length lefts) k ++ heap)
          → All (λ x. x.table ≢ i) heap
      others [] h = h
      others (row ∷ rows) h = h.1

  rows-more :
      (rest : List Row)
      → Perm
          (map row_of h' ++ (concat (lefts ++ (tail l ∷ [])) ++ rest))
          (map row_of heap ++ (concat lefts ++ (l ++ rest)))
  rows-more rest =
      rw
        (
          concat-append lefts (tail l ∷ []),
          append-nil (tail l),
          append_assoc (concat lefts) (tail l) rest,
        )
        (Perm.trans (Perm.append_right _ (Perm.map row_of p)) (split l))
    where
      split :
          (k : List Row)
          → Perm
              (map row_of (first_entry (length lefts) k ++ heap)
                ++ (concat lefts ++ (tail k ++ rest)))
              (map row_of heap ++ (concat lefts ++ (k ++ rest)))
      split [] = Perm.rfl
      split (row ∷ rows) =
          Perm.trans (Perm.symm (perm_middle (map row_of heap) (concat lefts ++ (rows ++ rest)))) (
            Perm.append_left (map row_of heap)
              (Perm.symm (perm_middle (concat lefts) (rows ++ rest))))

module _ {S : Type 0} (is_sorted : S → Bool) (read_row : S → Result (S × Option Row))
    (reader : ReadsRows read_row) where
  -- The loop from some table on, with the rows that are left of those before it.
  pub record Filled (heap : List Entry) (dones : List (List Row)) (ts : List S)
      (lefts : List (List Row)) : Type 0 where
    pub new_heap : List Entry
    pub new_ts : List S
    pub new_lefts : List (List Row)
    pub runs : fill is_sorted read_row (length dones) heap ts ≡ ok (new_heap, new_ts)
    pub stands : Stand reader.Before new_ts new_lefts
    pub over : Over new_heap (dones ++ new_lefts)
    pub rows :
        Perm
          (rows_left new_heap (dones ++ new_lefts))
          (map row_of heap ++ (concat dones ++ concat lefts))

  push_first :
      (heap : List Entry) (i : ℕ) (l : List Row)
      → IsWhole heap
      → (h' : List Entry) × (push_row is_sorted read_row heap i (head l) ≡ ok h')
        × IsWhole h'
        × Perm h' (first_entry i l ++ heap)
  push_first heap i [] whole = (heap, refl, whole, Perm.rfl)
  push_first heap i (row ∷ rows) whole = push-IsWhole heap (entry row i) whole

  pub fill-Filled :
      (heap : List Entry) (dones : List (List Row)) (ts : List S) (lefts : List (List Row))
      → Over heap dones
      → Stand reader.Before ts lefts
      → All (λ t. is_sorted t ≡ true) ts
      → All (InOrder []) lefts
      → Filled heap dones ts lefts
  unfolding fill
  fill-Filled heap dones [] [] over stands sorted order = record {
    new_heap = heap;
    new_ts = [];
    new_lefts = [];
    runs = refl;
    stands = tt;
    over = rw (append-nil dones) over;
    rows = rw (append-nil dones, append-nil (concat dones)) Perm.rfl;
  }
  fill-Filled heap dones [] (l ∷ lefts) over stands sorted order = absurd stands
  fill-Filled heap dones (t ∷ ts) [] over stands sorted order = absurd stands
  fill-Filled heap dones (t ∷ ts) (l ∷ lefts) over stands sorted order =
      let read = reader.reads t l stands.0 in
      let pushed = push_first heap (length dones) l over.whole in
      let dones' = dones ++ (tail l ∷ []) in
      let rest =
        fill-Filled pushed.0 dones' ts lefts
          (record {
            whole = pushed.2;
            nexts = nexts-more heap pushed.0 dones l over order.0 pushed.3;
            covers = Covers-more heap pushed.0 dones l over order.0 pushed.3;
          })
          stands.1 sorted.1 order.1 in
      let split = append_assoc dones (tail l ∷ []) rest.new_lefts in
      let one_more : length dones' ≡ suc (length dones) =
        omega (arith, length-append dones (tail l ∷ [])) in
      record {
        new_heap = rest.new_heap;
        new_ts = read.0 ∷ rest.new_ts;
        new_lefts = tail l ∷ rest.new_lefts;
        runs = rw (sorted.0, read.1, pushed.1) (rw (rw one_more at rest.runs) refl);
        stands = (read.2, rest.stands);
        over = rw split at rest.over;
        rows =
            Perm.trans (rw split at rest.rows)
              (rows-more heap pushed.0 dones l over order.0 pushed.3 (concat lefts));
      }

  -- A table that is not sorted is found.
  pub fill-unsorted :
      (heap : List Entry) (dones : List (List Row)) (ts : List S) (lefts : List (List Row))
      → Over heap dones
      → Stand reader.Before ts lefts
      → ¬ All (λ t. is_sorted t ≡ true) ts
      → All (InOrder []) lefts
      → fill is_sorted read_row (length dones) heap ts ≡ err require
  unfolding fill
  fill-unsorted heap dones [] lefts over stands unsorted order = absurd (unsorted tt)
  fill-unsorted heap dones (t ∷ ts) [] over stands unsorted order = absurd stands
  fill-unsorted heap dones (t ∷ ts) (l ∷ lefts) over stands unsorted order =
      elim (Bool-cases (is_sorted t)) [
        | inr f ↦ rw f refl
        | inl sorted ↦
            let read = reader.reads t l stands.0 in
            let pushed = push_first heap (length dones) l over.whole in
            let dones' = dones ++ (tail l ∷ []) in
            let rest =
              fill-unsorted pushed.0 dones' ts lefts
                (record {
                  whole = pushed.2;
                  nexts = nexts-more heap pushed.0 dones l over order.0 pushed.3;
                  covers = Covers-more heap pushed.0 dones l over order.0 pushed.3;
                })
                stands.1 (λ all. unsorted (sorted, all)) order.1 in
            let one_more : length dones' ≡ suc (length dones) =
              omega (arith, length-append dones (tail l ∷ [])) in
            rw (sorted, read.1, pushed.1) (rw (rw one_more at rest) refl)
      ]

-- Before the first loop.
pub Over-nothing : Over [] []
unfolding IsHeap
Over-nothing = record {
  whole = λ c a b. absurd (omega (arith, a, b));
  nexts = tt;
  covers = λ i h. refl;
}
