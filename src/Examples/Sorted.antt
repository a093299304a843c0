-- ===== src/Examples/Sorted.antt =====
-- The theorems on tables of rows in any order at concrete inputs, and runs of the sorting builder.
use mathlib.Core.List.{Perm}
use cantera_table.Examples.Codecs.{plain}
use cantera_table.Examples.Tables.{seekable_table}
use cantera_table.Shared.{
  ℕ, ◌≡◌, inr, refl, List, [], ◌∷◌, ◌++◌, true, false, none, some, take, arith, All,
}
use cantera_table.Shared.Strings.{string_lt, string_eq}
use cantera_table.Result.{bind-ok, ok-injective, Result, ok, err, require, ◌>>=◌}
use cantera_table.WriteOnce.File.{read_file}
use cantera_table.WriteOnce.Builder.{build_at, write_block, create, write_index}
use cantera_table.WriteOnce.Block
use cantera_table.WriteOnce.Index
use cantera_table.WriteOnce.Builder.Blocks.{Row, IsSmall}
use cantera_table.WriteOnce.Builder.Rows.{InOrder}
use cantera_table.WriteOnce.Reader.{Reader, opened, open_table, read_rows}
use cantera_table.WriteOnce.Sorting.{
  Sorter, Entry, empty_sorter, add_entry, write_raw, write_entry_data, add, add_all, read_key,
  refill, add_entries, compare, insert, sort_entries, write_unsorted,
}
use cantera_table.WriteOnce.Sorting.Order.{rows_with}
use cantera_table.WriteOnce.Sorting.Entries.{IsFull}
use cantera_table.WriteOnce.Table
use cantera_table.WriteOnce.Table.{
  WriteOnceTable, in_any_order, create_table, insert_row, insert_rows, build_any, open_path,
  after_open, after_build, returns, open_throws, sync, read_all,
}
use cantera_table.WriteOnce.Table.Rows.{read_all-sync}
use cantera_table.WriteOnce.Table.States.{
  Reachable, created, then, inserts, syncs, loses, reads, skips, IsValid, Reachable-IsValid,
}
use cantera_table.WriteOnce.Sorting.ReadBack.{read_rows-write_unsorted, write_unsorted-empty}

abbrev rows : List Row
rows = (98 ∷ [], 1 ∷ []) ∷ (97 ∷ 99 ∷ [], 2 ∷ []) ∷ (98 ∷ [], 3 ∷ []) ∷ []

rows-IsFull : All IsFull rows
rows-IsFull = ((λ e. cc, λ e. cc), ((λ e. cc, λ e. cc), ((λ e. cc, λ e. cc), tt)))

rows-IsSmall : IsSmall rows
rows-IsSmall = omega arith

abbrev sort_keys : Sorter → List Entry → Result (List (List ℕ))
sort_keys w [] = ok []
sort_keys w (e ∷ es) = do key ← read_key w e; keys ← sort_keys w es; ok (key ∷ keys)

-- The keys of the entries in their order.
sort_test :
    (add_all plain seekable_table empty_sorter rows >>= λ w.
    sort_entries w w.index >>= λ es. sort_keys w es)
    ≡ ok ((97 ∷ 99 ∷ []) ∷ (98 ∷ []) ∷ (98 ∷ []) ∷ [])
unfolding add_all add add_entry write_raw write_entry_data sort_entries insert compare read_key
    read_file string_lt string_eq
sort_test = refl

read_rows-write_unsorted_example :
    (file : List ℕ) × (r : Reader) × (sorted : List Row) × (write_unsorted plain seekable_table rows
      ≡ ok (some file))
    × (open_table plain file false ≡ ok (opened r))
    × (read_rows plain 2 r ≡ ok (take 2 sorted))
    × InOrder [] sorted
    × Perm sorted rows
    × (rows_with (98 ∷ []) sorted ≡ rows_with (98 ∷ []) rows)
read_rows-write_unsorted_example =
    read_rows-write_unsorted plain seekable_table rows 2 (98 ∷ []) tt rows-IsFull rows-IsSmall

-- A key with no value.
write_unsorted-empty_example :
    write_unsorted plain seekable_table (rows ++ ((97 ∷ [], []) ∷ rows)) ≡ err require
write_unsorted-empty_example =
    write_unsorted-empty plain seekable_table rows (97 ∷ [], []) rows rows-IsFull (omega arith)
      (inr refl)

-- The rows of the sorting builder, in a table at a path where a file stands.
read_all-sync_example :
    (t t' : WriteOnceTable) × (sorted : List Row) × (insert_rows plain
        (create_table plain seekable_table true (some (1 ∷ [])))
        rows
      ≡ ok t)
    × (sync plain t ≡ returns t')
    × (Table.is_sorted plain t' ≡ true)
    × (read_all plain 2 t' ≡ ok (take 2 sorted))
    × InOrder [] sorted
    × Perm sorted rows
    × (rows_with (98 ∷ []) sorted ≡ rows_with (98 ∷ []) rows)
read_all-sync_example =
    read_all-sync plain seekable_table (some (1 ∷ [])) true rows 2 (98 ∷ []) tt rows-IsSmall
      rows-IsFull

abbrev new_table : WriteOnceTable
new_table = record {
  options = seekable_table;
  builder = some (in_any_order empty_sorter);
  reader = none;
  path_file = none;
}

insert_rows-Reachable :
    (t t' : WriteOnceTable) (added : List Row)
    → Reachable plain seekable_table false t
    → insert_rows plain t added ≡ ok t'
    → Reachable plain seekable_table false t'
unfolding insert_rows
insert_rows-Reachable t t' [] reached h = rw (ok-injective t t' h) at reached
insert_rows-Reachable t t' (row ∷ added) reached h =
    let first =
      bind-ok (insert_row plain t (row.0 ∷ row.1 ∷ [])) (λ t1. insert_rows plain t1 added) t' h in
    insert_rows-Reachable first.0 t' added
      (then false t first.0 reached (inserts t first.0 (row.0 ∷ row.1 ∷ []) first.1)) first.2

-- A table is made, takes rows, and is read behind its Sync.
synced-Reachable :
    (t : WriteOnceTable) × Reachable plain seekable_table false t × (Table.is_sorted plain t ≡ true)
synced-Reachable =
    let p =
      read_all-sync plain seekable_table none true rows 1 (98 ∷ []) tt rows-IsSmall rows-IsFull in
    (
      p.1,
      then false p.0 p.1 (insert_rows-Reachable _ p.0 rows (created true none) p.3)
          (syncs p.0 p.1 p.4),
      p.5,
    )

abbrev lost_table : WriteOnceTable
lost_table = record new_table { builder = none }

-- No file is committed for no rows, and none stands at the path.
lost_sync : sync plain new_table ≡ open_throws lost_table require
unfolding sync after_build after_open open_path build_any refill sort_entries add_entries build_at
    write_block Block.marshal create write_index Index.marshal
lost_sync = refl

-- A new table is read, which finds nothing; the Sync of no rows throws; and it is moved over three rows.
moved-Reachable : Reachable plain seekable_table true (Table.skip_rows plain lost_table 3).0
unfolding create_table Table.read_row
moved-Reachable =
    then true lost_table _
      (loses false new_table lost_table require
        (then false new_table new_table (created true none) (reads new_table new_table none refl))
        lost_sync)
      (skips lost_table 3)

Reachable-IsValid_example : IsValid true (Table.skip_rows plain lost_table 3).0
Reachable-IsValid_example =
    Reachable-IsValid plain seekable_table true (Table.skip_rows plain lost_table 3).0
      moved-Reachable
