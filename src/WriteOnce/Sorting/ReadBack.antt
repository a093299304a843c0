-- ===== src/WriteOnce/Sorting/ReadBack.antt =====
-- Rows in any order, written by `WriteOnceSortingBuilder` of src/table-backend-writeonce.cc and read back.
use mathlib.Core.List.{Perm}
use cantera_table.Shared.{
  ℕ, ◌+◌, ◌^◌, ◌<◌, ◌∙◌, ◌≡◌, ◌⊎◌, inl, inr, refl, List, [], ◌∷◌, ◌++◌, false, true, some, take,
  length, All, Bool-cases, ◌==◌, leb, arith,
}
use cantera_table.Result.{ok, err, require}
use cantera_table.WriteOnce.Codec.{Storage}
use cantera_table.WriteOnce.Builder.{Options, write_table}
use cantera_table.WriteOnce.Builder.Blocks.{Row, weight, IsSmall, weight-append}
use cantera_table.WriteOnce.Builder.State.{Some}
use cantera_table.WriteOnce.Builder.Rows.{InOrder}
use cantera_table.WriteOnce.Reader.{Reader, opened, open_table, read_rows}
use cantera_table.WriteOnce.Reader.Table.{read_rows-write_table}
use cantera_table.WriteOnce.Sorting.{
  Sorter, size_max, empty_sorter, add_entry, write_raw, write_entry_data, add, add_all,
  write_unsorted,
}
use cantera_table.WriteOnce.Sorting.Order.{
  sort_rows, rows_with, sort_rows-Perm, sort_rows-InOrder, rows_with-sort_rows, weight-sort_rows,
}
use cantera_table.WriteOnce.Sorting.Entries.{Holding, IsFull, add-Holding}
use cantera_table.WriteOnce.Sorting.Build.{write_unsorted-sort_rows}

module _ (s : Storage) (o : Options) where
  read_sorted :
      (sorted : List Row) (n : ℕ)
      → InOrder [] sorted
      → Some sorted
      → IsSmall sorted
      → (file : List ℕ) × (r : Reader) × (write_table s o sorted ≡ ok (some file))
        × (open_table s file false ≡ ok (opened r))
        × (read_rows s n r ≡ ok (take n sorted))
  read_sorted [] n order begun small = absurd begun
  read_sorted (e ∷ es) n order begun small = read_rows-write_table s o e es n order small

  pub Some-sort_rows :
      (rows sorted : List Row) → Some rows → weight sorted ≡ weight rows → Some sorted
  Some-sort_rows [] sorted begun same = absurd begun
  Some-sort_rows (x ∷ rows) [] begun same = absurd (omega (arith, same))
  Some-sort_rows (x ∷ rows) (y ∷ sorted) begun same = tt

  -- At least one row, each with a key and a value that are not empty, of small total size, in any order,
  -- added to WriteOnceSortingBuilder and built: the builder makes a file, WriteOnceTable opens it, and
  -- ReadRow gives the first n of the rows in the order of their keys, where the rows of one key stay in
  -- the order in which they were added.
  pub read_rows-write_unsorted :
      (rows : List Row) (n : ℕ) (key : List ℕ)
      → Some rows
      → All IsFull rows
      → IsSmall rows
      → (file : List ℕ) × (r : Reader) × (sorted : List Row) × (write_unsorted s o rows
          ≡ ok (some file))
        × (open_table s file false ≡ ok (opened r))
        × (read_rows s n r ≡ ok (take n sorted))
        × InOrder [] sorted
        × Perm sorted rows
        × (rows_with key sorted ≡ rows_with key rows)
  read_rows-write_unsorted rows n key begun full small =
      let same = weight-sort_rows rows in
      let back =
        read_sorted (sort_rows rows) n (sort_rows-InOrder rows)
          (Some-sort_rows rows (sort_rows rows) begun same) (omega (arith, same, small)) in
      (
        back.0,
        back.1,
        sort_rows rows,
        write_unsorted-sort_rows s o rows full small ∙ back.2,
        back.3,
        back.4,
        sort_rows-InOrder rows,
        sort_rows-Perm rows,
        rows_with-sort_rows key rows,
      )

  add-empty :
      (w : Sorter) (row : Row)
      → length row.0 + length row.1 < 2 ^ 32
      → (row.0 ≡ []) ⊎ (row.1 ≡ [])
      → add w row.0 row.1 ≡ err require
  unfolding add add_entry write_entry_data write_raw
  add-empty w row small hole =
      let key_fits : leb (length row.0) size_max ≡ true = ground (arith, small) in
      let value_fits : leb (length row.1) size_max ≡ true = ground (arith, small) in
      rw (key_fits, value_fits)
        (elim (Bool-cases (length row.0 == 0)) [
          | inl t ↦ rw t refl
          | inr f ↦ elim hole [
            | inl no_key ↦
                absurd (let zero_length : (length row.0 == 0) ≡ true = rw no_key refl in cc)
            | inr no_value ↦ rw (f, no_value) refl
          ]
        ])

  add_all-empty :
      (w : Sorter) (done front : List Row) (row : Row) (back : List Row)
      → Holding w done
      → All IsFull front
      → length w.raw + weight front < 2 ^ 31
      → length row.0 + length row.1 < 2 ^ 32
      → (row.0 ≡ []) ⊎ (row.1 ≡ [])
      → add_all s o w (front ++ (row ∷ back)) ≡ err require
  unfolding add_all
  add_all-empty w done [] row back h full small fits hole = rw (add-empty w row fits hole) refl
  add_all-empty w done (x ∷ front) row back h full small fits hole =
      let one = add-Holding w done x h full.0 (omega (arith, small)) (omega (arith, small)) in
      rw one.1 (
        add_all-empty one.0 (done ++ (x ∷ [])) front row back one.2 full.1
          (omega (arith, small, one.3)) fits hole)

  -- Behind rows with keys and values that are not empty, of small total size, a row with an empty key or
  -- an empty value makes the building of a table by WriteOnceSortingBuilder fail, whatever rows follow.
  pub write_unsorted-empty :
      (front : List Row) (row : Row) (back : List Row)
      → All IsFull front
      → IsSmall (front ++ (row ∷ []))
      → (row.0 ≡ []) ⊎ (row.1 ≡ [])
      → write_unsorted s o (front ++ (row ∷ back)) ≡ err require
  unfolding write_unsorted
  write_unsorted-empty front row back full small hole =
      let both = weight-append front (row ∷ []) in
      rw
        (add_all-empty empty_sorter [] front row back (record { entries = tt; offset = refl }) full
          (omega (arith, small, both)) (omega (arith, small, both)) hole)
        refl
