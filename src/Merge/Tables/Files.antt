-- ===== src/Merge/Tables/Files.antt =====
-- `ca_table_merge` of src/merge.cc on tables of src/table-backend-writeonce.cc: files that the builder has made.
use mathlib.Core.List.{Perm}
use cantera_table.Shared.{
  ℕ, ◌<◌, ◌≡◌, ap, List, [], ◌∷◌, false, true, some, length, All, arith, refl,
}
use cantera_table.Result.{ok}
use cantera_table.Merge.{Call}
use cantera_table.Merge.Groups.{HasValues, all_rows}
use cantera_table.Merge.Tables.{merge_groups}
use cantera_table.Merge.Tables.Rows.{ReadsRows, Stand}
use cantera_table.Merge.Tables.Calls.{Ascending, merge_groups-Ascending}
use cantera_table.WriteOnce.Codec.{Storage}
use cantera_table.WriteOnce.Builder.{Options, write_table}
use cantera_table.WriteOnce.Builder.Blocks.{Row, weight, IsSmall}
use cantera_table.WriteOnce.Builder.State.{Some, IsBlock}
use cantera_table.WriteOnce.Builder.Rows.{InOrder, concat}
use cantera_table.WriteOnce.Builder.Table.{file_of, write_table-blocks}
use cantera_table.WriteOnce.Reader.{Reader, is_sorted, opened, open_table, read_row}
use cantera_table.WriteOnce.Reader.Open.{fresh, open_table-file_of}
use cantera_table.WriteOnce.Reader.Rows.{IsBefore, fresh-IsBefore, read_row-IsBefore}

module _ (s : Storage) (o : Options) where
  -- The reader of the file of these rows.
  abbrev pub Opens : List Row → Reader → Type 0
  Opens rows r =
      (file : List ℕ) × (write_table s o rows ≡ ok (some file))
      × (open_table s file false ≡ ok (opened r))

  abbrev pub OpensAll : List (List Row) → List Reader → Type 0
  OpensAll [] [] = Unit
  OpensAll [] (r ∷ rs) = ⊥
  OpensAll (rows ∷ rest) [] = ⊥
  OpensAll (rows ∷ rest) (r ∷ rs) = Opens rows r × OpensAll rest rs

  -- Rows that the builder takes.
  abbrev pub IsTable : List Row → Type 0
  IsTable rows = Some rows × InOrder [] rows × IsSmall rows

  abbrev Before : Reader → List Row → Type 0
  Before r left = (bs : List (List Row)) × All IsBlock bs × IsBefore s o bs r left

  -- The reader is what merging asks for.
  reader_rows : ReadsRows (read_row s)
  reader_rows = record {
    Before = Before;
    reads = λ r left before.
        let next = read_row-IsBefore s o before.0 r left before.1 before.2 in
        (next.0, next.1, (before.0, before.1, next.2));
  }

  open_one : (rows : List Row) → IsTable rows → (r : Reader) × Opens rows r × Before r rows
  open_one [] table = absurd table.0
  open_one (e ∷ es) table =
      let t = write_table-blocks s o e es table.1 table.2 in read_back t.0 t.1 t.2 t.3
    where
      read_back :
          (bs : List (List Row))
          → write_table s o (e ∷ es) ≡ ok (some (file_of s o bs))
          → concat bs ≡ e ∷ es
          → All IsBlock bs
          → (r : Reader) × Opens (e ∷ es) r × Before r (e ∷ es)
      read_back [] written rows each = absurd cc
      read_back (b ∷ bs) written rows each = (
        fresh s o (b ∷ bs),
        (
          file_of s o (b ∷ bs),
          written,
          open_table-file_of s o b bs each (omega (arith, table.2, ap weight rows)),
        ),
        (b ∷ bs, each, rw rows at (fresh-IsBefore s o (b ∷ bs) each)),
      )

  open_all :
      (lefts : List (List Row))
      → All IsTable lefts
      → (readers : List Reader) × OpensAll lefts readers
        × Stand Before readers lefts
        × All (λ r. is_sorted r ≡ true) readers
  unfolding is_sorted
  open_all [] tables = ([], tt, tt, tt)
  open_all (rows ∷ lefts) tables =
      let one = open_one rows tables.0 in
      let rest = open_all lefts tables.1 in
      (one.0 ∷ rest.0, (one.1, rest.1), (one.2, rest.2), (refl, rest.3))

  orders : (lefts : List (List Row)) → All IsTable lefts → All (InOrder []) lefts
  orders [] tables = tt
  orders (rows ∷ lefts) tables = (tables.0.1, orders lefts tables.1)

  -- Lists of rows, each with some row, with keys in order and of small total size, are made files of by
  -- WriteOnceBuilder, opened, and merged by the second ca_table_merge: the keys of the calls grow, every
  -- call has a value, and the rows of the calls are those of all the lists, in some order.
  pub merge_groups-write_table :
      (lefts : List (List Row)) (rounds : ℕ)
      → All IsTable lefts
      → length (concat lefts) < rounds
      → (readers readers' : List Reader) × (calls : List Call) × OpensAll lefts readers
        × (merge_groups is_sorted (read_row s) rounds readers ≡ ok (readers', calls))
        × Ascending calls
        × HasValues calls
        × Perm (all_rows calls) (concat lefts)
  unfolding reader_rows
  merge_groups-write_table lefts rounds tables fuel =
      let all = open_all lefts tables in
      let m =
        merge_groups-Ascending is_sorted (read_row s) reader_rows all.0 lefts all.2
          (orders lefts tables) rounds all.3 fuel in
      (all.0, m.0, m.1, all.1, m.2, m.3, m.4, m.5)
