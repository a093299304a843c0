-- ===== src/Merge/Tables/Loop.antt =====
-- The second loop of `ca_table_merge` of src/merge.cc: the first entry of the heap is given to the callback and
-- replaced by the next row of its table.
use mathlib.Core.List.{Perm, perm_middle, map}
use mathlib.Core.List.Perm
use mathlib.Core.HLevel.{⊥_prop}
use native.Mathlib.Bridge.{le_prop}
use cantera_table.Shared.{
  ℕ, zero, suc, ◌<◌, ◌≡◌, ◌≢◌, refl, sym, List, [], ◌∷◌, ◌++◌, Bool, true, false, ◌==◌, ==_iff,
  Bool-cases, inl, inr, Option, if◌then◌else◌, length, get_or, set, All, length-set,
  get_or-set_self, get_or-set_ne, arith,
}
use cantera_table.Shared.Strings.{StringLe}
use cantera_table.Result.{Result, ok}
use cantera_table.Merge.Groups.{Row}
use cantera_table.Merge.Heap.{Entry}
use cantera_table.Merge.Heap.Array.{get, All-get, get_first}
use cantera_table.Merge.Heap.Order.{IsHeap-least}
use mathlib.Core.Bool.{Bool-set}
use cantera_table.Merge.Heap.Whole.{IsWhole, without_last, replace_top-IsWhole, pop-Popped}
use cantera_table.Merge.Tables.{entry, next_heap, merge_loop}
use cantera_table.Merge.Tables.Rows.{
  ReadsRows, Perm-All, InOrder-prop, Stand, Stand-get, Stand-set, concat-set, InOrder-tail,
  set_read, all_read, Perm-length,
}
use cantera_table.WriteOnce.Builder.Rows.{InOrder, concat}
use cantera_table.WriteOnce.Reader.Rows.{head, tail}

abbrev pub row_of : Entry → Row
row_of x = (x.key, x.value)

-- The rows that are in the heap or left in a table.
abbrev pub rows_left : List Entry → List (List Row) → List Row
rows_left h lefts = map row_of h ++ concat lefts

-- An entry is of a table, whose rows are in order behind it.
abbrev pub IsNext : List (List Row) → Entry → Type 0
IsNext lefts x = (x.table < length lefts) × InOrder x.key (get_or lefts x.table [])

pub IsNext-prop : (lefts : List (List Row)) (x : Entry) → IsProp (IsNext lefts x)
IsNext-prop lefts x u v i =
    (le_prop u.0 v.0 i, InOrder-prop x.key (get_or lefts x.table []) u.1 v.1 i)

-- A table with rows left has an entry in the heap.
abbrev pub Covers : List Entry → List (List Row) → Type 0
Covers h lefts = (i : ℕ) → All (λ x. x.table ≢ i) h → get_or lefts i [] ≡ []

pub record Merging {S : Type 0} (Before : S → List Row → Type 0) (h : List Entry) (ts : List S)
    (lefts : List (List Row)) : Type 0 where
  pub whole : IsWhole h
  pub stands : Stand Before ts lefts
  pub nexts : All (IsNext lefts) h
  pub covers : Covers h lefts

-- The entry of a table's first row, if it has any.
abbrev pub first_entry : ℕ → List Row → List Entry
first_entry i [] = []
first_entry i (row ∷ rows) = entry row i ∷ []

-- The table `i` has moved on, and its next row is in the heap instead of `e`.
module _ (e : Entry) (es h' : List Entry) (lefts : List (List Row)) (l : List Row)
    (is_left : get_or lefts e.table [] ≡ l) (p : Perm h' (first_entry e.table l ++ es))
    (nexts : All (IsNext lefts) (e ∷ es)) where
  IsNext-then : (x : Entry) → IsNext lefts x → IsNext (set lefts e.table (tail l)) x
  IsNext-then x n = (
    omega (arith, n, length-set lefts e.table (tail l)),
    elim (Bool-cases (x.table == e.table)) [
      | inl t ↦
          let same = (==_iff x.table e.table).0 t in
          rw (same, get_or-set_self lefts e.table (tail l) [] nexts.0.0)
            (InOrder-tail x.key l (rw (same, is_left) at n.1))
      | inr f ↦
          let apart : e.table ≢ x.table = λ q.
            absurd
              (let t : (x.table == e.table) ≡ true = (==_iff x.table e.table).1 (sym q) in cc) in
          rw (get_or-set_ne lefts e.table x.table (tail l) [] apart) n.1
    ],
  )

  nexts-then : All (IsNext (set lefts e.table (tail l))) h'
  nexts-then =
      Perm-All (IsNext-prop (set lefts e.table (tail l))) (first_entry e.table l ++ es) h'
        (Perm.symm p) (with_first l refl)
    where
      others :
          (xs : List Entry) → All (IsNext lefts) xs → All (IsNext (set lefts e.table (tail l))) xs
      others [] h = tt
      others (x ∷ xs) h = (IsNext-then x h.0, others xs h.1)

      with_first :
          (k : List Row)
          → l ≡ k
          → All (IsNext (set lefts e.table (tail l))) (first_entry e.table k ++ es)
      with_first [] q = others es nexts.1
      with_first (row ∷ rows) q =
          let now : InOrder e.key (row ∷ rows) = rw (is_left, q) at nexts.0.1 in
          let self : InOrder row.0 (get_or (set lefts e.table (tail l)) e.table []) =
            rw (get_or-set_self lefts e.table (tail l) [] nexts.0.0, q) now.1 in
          ((omega (arith, nexts.0.0, length-set lefts e.table (tail l)), self), others es nexts.1)

  Covers-then : Covers (e ∷ es) lefts → Covers h' (set lefts e.table (tail l))
  Covers-then before i none_here =
      let mine = get_or-set_self lefts e.table (tail l) [] nexts.0.0 in
      elim (Bool-cases (e.table == i)) [
        | inl t ↦
            (let same = (==_iff e.table i).0 t in
              rw (sym same, mine)
                (first_gone l refl (
                  Perm-All apart_prop h' (first_entry e.table l ++ es) p
                    (rw (sym same) at none_here))))
        | inr f ↦
            let apart : e.table ≢ i =
              λ q. absurd (let t : (e.table == i) ≡ true = (==_iff e.table i).1 q in cc) in
            rw (get_or-set_ne lefts e.table i (tail l) [] apart) (
              before i (
                apart,
                others l refl (Perm-All apart_prop h' (first_entry e.table l ++ es) p none_here),
              ))
      ]
    where
      apart_prop : {j : ℕ} (x : Entry) → IsProp (x.table ≢ j)
      apart_prop x u v i q = ⊥_prop (u q) (v q) i

      first_gone :
          (k : List Row)
          → l ≡ k
          → All (λ x. x.table ≢ e.table) (first_entry e.table k ++ es)
          → tail l ≡ []
      first_gone [] q h = rw q refl
      first_gone (row ∷ rows) q h = absurd (h.0 refl)

      others :
          (k : List Row)
          → l ≡ k
          → All (λ x. x.table ≢ i) (first_entry e.table k ++ es)
          → All (λ x. x.table ≢ i) es
      others [] q h = h
      others (row ∷ rows) q h = h.1

  rows-then : Perm (row_of e ∷ rows_left h' (set lefts e.table (tail l))) (rows_left (e ∷ es) lefts)
  rows-then =
      Perm.cons (row_of e) (Perm.trans (Perm.append_right _ (Perm.map row_of p)) (split l is_left))
    where
      split :
          (k : List Row)
          → get_or lefts e.table [] ≡ k
          → Perm
              (map row_of (first_entry e.table k ++ es) ++ concat (set lefts e.table (tail k)))
              (map row_of es ++ concat lefts)
      split [] q = rw (set_read lefts e.table q) Perm.rfl
      split (row ∷ rows) q =
          Perm.trans (Perm.symm (perm_middle (map row_of es) (concat (set lefts e.table rows))))
            (Perm.append_left (map row_of es) (concat-set lefts e.table row rows q))

-- The rows are given to the callback one after the other, until it returns -1.
abbrev pub deliver : {C : Type 0} → (C → Row → C × Bool) → C → List Row → C × Bool
deliver callback c [] = (c, false)
deliver callback c (row ∷ rows) =
    let rest = deliver callback (callback c row).0 rows in
    if (callback c row).1 then callback c row else rest

module _ {S : Type 0} (read_row : S → Result (S × Option Row)) (is_sorted : S → Bool)
    (reader : ReadsRows read_row) where
  -- The loop gives the rows `out`, whatever the callback.
  pub record Merged (rounds : ℕ) (h : List Entry) (ts : List S) (lefts : List (List Row))
      (out : List Row) : Type 1 where
    pub order : (key : List ℕ) → All (λ x. StringLe key x.key) h → InOrder key out
    pub rows : Perm out (rows_left h lefts)
    pub runs :
        {C : Type 0}
        → (callback : C → Row → C × Bool) (c : C)
        → (ts' : List S) × (merge_loop is_sorted read_row callback rounds h ts c
            ≡ ok (ts', deliver callback c out))

  -- The first entry of the heap is not behind the others.
  top_least : (e : Entry) (es : List Entry) → IsWhole (e ∷ es) → All (λ x. StringLe e.key x.key) es
  unfolding get
  top_least e es whole =
      (All-get (λ x. StringLe e.key x.key) (e ∷ es)
        (λ c p. IsHeap-least (length (e ∷ es)) (e ∷ es) c whole p.0 p.1)).1

  -- No entry is before the one that was given.
  not_before :
      (e : Entry) (es h' : List Entry) (l : List Row)
      → IsWhole (e ∷ es)
      → InOrder e.key l
      → Perm h' (first_entry e.table l ++ es)
      → All (λ x. StringLe e.key x.key) h'
  not_before e es h' l whole order p =
      Perm-All (λ x. Bool-set _ _) (first_entry e.table l ++ es) h' (Perm.symm p)
        (with_first l order)
    where
      with_first :
          (k : List Row)
          → InOrder e.key k
          → All (λ x. StringLe e.key x.key) (first_entry e.table k ++ es)
      with_first [] o = top_least e es whole
      with_first (row ∷ rows) o = (o.0, top_least e es whole)

  -- One row is given, and the heap and the tables are as they should be.
  step_heap :
      (e : Entry) (es : List Entry) (l : List Row)
      → IsWhole (e ∷ es)
      → (h' : List Entry) × (next_heap is_sorted read_row (e ∷ es) e.table (head l) ≡ ok h')
        × IsWhole h'
        × Perm h' (first_entry e.table l ++ es)
  unfolding without_last
  step_heap e es [] whole =
      let popped = pop-Popped (e ∷ es) (omega arith) whole in
      (
        without_last popped.0,
        rw popped.1 refl,
        popped.2.heap,
        Perm.cons_inv (rw (get_first e es) at popped.2.entries),
      )
  step_heap e es (row ∷ rows) whole =
      let replaced = replace_top-IsWhole (e ∷ es) (entry row e.table) (omega arith) whole in
      (
        replaced.0,
        replaced.1,
        replaced.2,
        Perm.cons_inv
            (Perm.trans (rw (get_first e es) at replaced.3) (Perm.swap e (entry row e.table) es)),
      )

  -- The first row is not behind any other, and the others are in order behind it.
  pub merge_loop-Merged :
      (rounds : ℕ) (h : List Entry) (ts : List S) (lefts : List (List Row))
      → length (rows_left h lefts) < rounds
      → Merging reader.Before h ts lefts
      → (out : List Row) × Merged rounds h ts lefts out
  unfolding merge_loop
  merge_loop-Merged zero h ts lefts fuel m = absurd (omega arith)
  merge_loop-Merged (suc rounds) [] ts lefts fuel m = (
    [],
    record {
      order = λ key b. tt;
      rows = rw (all_read lefts (λ i. m.covers i tt)) Perm.rfl;
      runs = λ callback c. (ts, refl);
    },
  )
  merge_loop-Merged (suc rounds) (e ∷ es) ts lefts fuel m =
      let l = get_or lefts e.table [] in
      let t = Stand-get reader.Before ts lefts e.table m.stands m.nexts.0.0 in
      let read = reader.reads t.0 l t.2 in
      let heap = step_heap e es l m.whole in
      let h' = heap.0 in
      let lefts' = set lefts e.table (tail l) in
      let ts' = set ts e.table read.0 in
      let kept = rows-then e es h' lefts l refl heap.3 m.nexts in
      let next =
        merge_loop-Merged rounds h' ts' lefts' (omega (arith, fuel, Perm-length _ _ kept)) (record {
          whole = heap.2;
          stands = Stand-set reader.Before ts lefts e.table read.0 (tail l) m.stands read.2;
          nexts = nexts-then e es h' lefts l refl heap.3 m.nexts;
          covers = Covers-then e es h' lefts l refl heap.3 m.nexts m.covers;
        }) in
      (
        row_of e ∷ next.0,
        record {
          order =
              λ key b. (b.0, next.1.order e.key (not_before e es h' l m.whole m.nexts.0.1 heap.3));
          rows = Perm.trans (Perm.cons (row_of e) next.1.rows) kept;
          runs = λ callback c.
              let rest = next.1.runs callback (callback c (row_of e)).0 in
              elim (Bool-cases (callback c (row_of e)).1) [
                | inl stop ↦ (ts, rw stop refl)
                | inr go_on ↦ (rest.0, rw (go_on, t.1, read.1, heap.1) rest.1)
              ];
        },
      )
