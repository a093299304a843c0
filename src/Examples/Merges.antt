-- ===== src/Examples/Merges.antt =====
-- The theorems on the merging of tables at concrete inputs, and runs of it.
use mathlib.Core.List.{Perm}
use cantera_table.Examples.Codecs.{plain}
use cantera_table.Examples.Tables.{entries, entries-InOrder, entries-IsSmall, seekable_table}
use cantera_table.Shared.{
  ℕ, ◌≡◌, refl, List, [], ◌∷◌, ◌++◌, Bool, true, Option, arith, All, Bool-cases, ◌==◌, ==_iff, inl,
  inr,
}
use cantera_table.Shared.Strings.{string_lt}
use cantera_table.Result.{Result, ok}
use cantera_table.Merge.{Call}
use cantera_table.Merge.Groups.{Row, HasValues, all_rows}
use cantera_table.Merge.Heap.{
  Entry, push, push_loop, replace_top, pop, load, store, at, put, key_lt, smaller_child, sink, rise,
  rise_tail,
}
use cantera_table.Merge.Heap.Array.{get}
use cantera_table.Merge.Heap.Order.{IsHeap}
use cantera_table.Merge.Heap.Whole.{Popped, pop-Popped}
use cantera_table.Merge.Tables.{fill, merge_loop, merge, merge_groups}
use cantera_table.Merge.Tables.Rows.{ReadsRows}
use cantera_table.Merge.Tables.Loop.{deliver}
use cantera_table.Merge.Tables.Calls.{Ascending, merge-deliver}
use cantera_table.Merge.Tables.Files.{OpensAll, merge_groups-write_table}
use cantera_table.WriteOnce.Builder.Rows.{InOrder, concat}
use cantera_table.WriteOnce.Reader.{Reader, is_sorted, read_row}
use cantera_table.WriteOnce.Reader.Rows.{head, tail}

-- Tables in memory.
abbrev next_row : List Row → Result (List Row × Option Row)
next_row rows = ok (tail rows, head rows)

abbrev next_row-ReadsRows : ReadsRows next_row
next_row-ReadsRows = record {
  Before = λ t left. t ≡ left;
  reads = λ t left e. (tail left, rw e refl, refl);
}

abbrev tables : List (List Row)
tables =
    ((97 ∷ [], 1 ∷ []) ∷ (99 ∷ [], 2 ∷ []) ∷ [])
    ∷ []
    ∷ ((97 ∷ [], 3 ∷ []) ∷ (98 ∷ [], 4 ∷ []) ∷ [])
    ∷ []

-- The callback keeps the values, and stops at the key "b".
abbrev values_before_b : List (List ℕ) → Row → List (List ℕ) × Bool
values_before_b values row = (values ++ (row.1 ∷ []), string_lt (97 ∷ []) row.0)

tables-InOrder : All (InOrder []) tables
unfolding string_lt
tables-InOrder = ((refl, (refl, tt)), (tt, ((refl, (refl, tt)), tt)))

merge-deliver_example :
    (out : List Row) × (tables' : List (List Row)) × (merge
        (λ t. true)
        next_row
        values_before_b
        5
        tables
        []
      ≡ ok (tables', deliver values_before_b [] out))
    × InOrder [] out
    × Perm out (concat tables)
merge-deliver_example =
    merge-deliver (λ t. true) next_row next_row-ReadsRows tables tables (refl, (refl, (refl, tt)))
      tables-InOrder values_before_b 5 [] (refl, (refl, (refl, tt))) (omega arith)

-- All rows were read, and the last one was not given.
merge_test :
    merge (λ t. true) next_row values_before_b 5 tables []
    ≡ ok ([] ∷ [] ∷ [] ∷ [], ((1 ∷ []) ∷ (3 ∷ []) ∷ (4 ∷ []) ∷ [], true))
unfolding merge fill merge_loop push push_loop replace_top pop load store at put key_lt
    smaller_child sink rise rise_tail string_lt
merge_test = refl

merge_groups-write_table_example :
    (readers readers' : List Reader) × (calls : List Call) × OpensAll plain seekable_table
      (entries ∷ entries ∷ [])
      readers
    × (merge_groups is_sorted (read_row plain) 5 readers ≡ ok (readers', calls))
    × Ascending calls
    × HasValues calls
    × Perm (all_rows calls) (entries ++ (entries ++ []))
merge_groups-write_table_example =
    merge_groups-write_table plain seekable_table (entries ∷ entries ∷ []) 5
      ((tt, entries-InOrder, entries-IsSmall), ((tt, entries-InOrder, entries-IsSmall), tt))
      (omega arith)

abbrev heap : List Entry
heap =
    record { key = 97 ∷ []; value = 1 ∷ []; table = 0 }
    ∷ record { key = 98 ∷ []; value = 2 ∷ []; table = 1 }
    ∷ record { key = 97 ∷ []; value = 3 ∷ []; table = 2 }
    ∷ []

heap-IsHeap : IsHeap 3 heap
unfolding IsHeap get string_lt
heap-IsHeap c two three = elim (Bool-cases (c == 2)) [
  | inl t ↦ (let same = (==_iff c 2).0 t in rw same refl)
  | inr f ↦ (let same : c ≡ 3 = ground (arith, two, three, f) in rw same refl)
]

pop-Popped_example : (r : List Entry) × (pop heap 3 ≡ ok r) × Popped heap r
pop-Popped_example = pop-Popped heap (omega arith) heap-IsHeap
