-- ===== src/Merge/Tables.antt =====
-- `ca_table_merge` of src/merge.cc. A table is what the function asks of it: `IsSorted` and `ReadRow`, which moves
-- it on; the tables are behind the pointers of the vector, and none twice. The callback has a state and says
-- whether it returned -1. (The keys and values of the heap stand in the tables' memory. A table is only read when
-- its row is at the top, where the heap looks at no key.)
pub mod Rows
pub mod Fill
pub mod Loop
pub mod Calls
pub mod Files
use cantera_table.Shared.{
  ℕ, zero, suc, ◌+◌, ◌-◌, List, [], ◌∷◌, Bool, true, false, not, Option, none, some, if◌then◌else◌,
  length, get_elem?, set, take,
}
use cantera_table.Result.{Result, ok, err, require, overrun, out_of_rounds, guard, ◌>>=◌, ◌>>◌}
use cantera_table.Merge.{Call, Grouper, start, call_back, callback_wrapper}
use cantera_table.Merge.Groups.{Row}
use cantera_table.Merge.Heap.{Entry, push, replace_top, pop}

-- The row of a table as an entry of the heap.
abbrev pub entry : Row → ℕ → Entry
entry row table = record { key = row.0; value = row.1; table = table }

-- tables[i]
abbrev pub found {ℓ} : {S : Type ℓ} → Option S → Result S
found none = err overrun
found (some t) = ok t

module _ {S : Type 0} (is_sorted : S → Bool) (read_row : S → Result (S × Option Row)) where
  -- if (!tables[i]->ReadRow(...)) continue; CA_merge_heap_push(...);
  abbrev pub push_row : List Entry → ℕ → Option Row → Result (List Entry)
  push_row heap i none = ok heap
  push_row heap i (some row) = push heap (entry row i)

  -- The first loop: the heap and the tables behind it. `i` tables are before these.
  unfoldable pub fill : ℕ → List Entry → List S → Result (List Entry × List S)
  fill i heap [] = ok (heap, [])
  fill i heap (t ∷ tables) =
      let rest = λ (heap' : List Entry). fill (suc i) heap' tables in
      guard (is_sorted t) require >> do
        read ← read_row t
        heap' ← push_row heap i read.1
        others ← rest heap'
        ok (others.0, read.0 ∷ others.1)

  -- The heap after the next row of the first entry's table.
  abbrev pub next_heap : List Entry → ℕ → Option Row → Result (List Entry)
  next_heap heap table none = pop heap (length heap) >>= λ heap'. ok (take (length heap' - 1) heap')
  next_heap heap table (some row) = replace_top heap (length heap) (entry row table)

module _ {S : Type 0} (is_sorted : S → Bool) (read_row : S → Result (S × Option Row)) {C : Type 0}
    (callback : C → Row → C × Bool) where
  -- while (heap_size): the tables and the callback behind the loop, and whether it was left by `return -1`.
  unfoldable pub merge_loop : ℕ → List Entry → List S → C → Result (List S × (C × Bool))
  merge_loop zero heap tables c = err out_of_rounds
  merge_loop (suc rounds) [] tables c = ok (tables, (c, false))
  merge_loop (suc rounds) (e ∷ heap) tables c =
      let called = callback c (e.key, e.value) in
      let rest : Result (List S × (C × Bool)) = do
        t ← found (get_elem? tables e.table)
        read ← read_row t
        heap' ← next_heap is_sorted read_row (e ∷ heap) e.table read.1
        merge_loop rounds heap' (set tables e.table read.0) called.0
      in if called.1 then ok (tables, called) else rest

  unfoldable pub merge : ℕ → List S → C → Result (List S × (C × Bool))
  merge rounds tables c = do
    filled ← fill is_sorted read_row 0 [] tables
    merge_loop rounds filled.0 filled.1 c

module _ {S : Type 0} (is_sorted : S → Bool) (read_row : S → Result (S × Option Row)) where
  -- The second overload: the calls of its callback.
  unfoldable pub merge_groups : ℕ → List S → Result (List S × List Call)
  merge_groups rounds tables = do
    merged ←
        merge is_sorted read_row (λ (g : Grouper) row. (callback_wrapper g row.0 row.1, false))
          rounds tables start
    guard (not merged.1.1) require
    ok (merged.0, call_back merged.1.0)
