-- ===== src/WriteOnce/Table/Rows.antt =====
-- Writing and reading a table through `WriteOnceTable` of src/table-backend-writeonce.cc.
use mathlib.Core.List.{Perm}
use mathlib.Core.List.Perm
use cantera_table.Shared.{
  ℕ, zero, suc, ◌<◌, ◌^◌, ◌≡◌, ◌∙◌, refl, sym, ap, List, [], ◌∷◌, Bool, true, false, Option, none,
  some, inl, inr, take, length, All, Option-cases, arith,
}
use cantera_table.Result.{bind-ok, ok, ◌>>=◌, Result-cases}
use cantera_table.WriteOnce.Codec.{Storage}
use cantera_table.WriteOnce.Builder
use cantera_table.WriteOnce.Builder.{Builder, Options, create, add_rows, build_at}
use cantera_table.WriteOnce.Builder.Blocks.{Row, weight, IsSmall}
use cantera_table.WriteOnce.Builder.State.{Some, IsBlock, index_of}
use cantera_table.WriteOnce.Builder.Rows.{InOrder, concat}
use cantera_table.WriteOnce.Builder.Table.{file_of, build_at-blocks}
use cantera_table.WriteOnce.Index.{get_index_offset}
use cantera_table.WriteOnce.Reader
use cantera_table.WriteOnce.Reader.{Reader, read_rows}
use cantera_table.WriteOnce.Reader.Open.{fresh, open_reader-file_of, IsBlock-le-weight}
use cantera_table.WriteOnce.Reader.Rows.{read_rows-IsBefore, fresh-IsBefore}
use cantera_table.WriteOnce.Sorting
use cantera_table.WriteOnce.Sorting.{Sorter, empty_sorter, refill, add_all}
use cantera_table.WriteOnce.Sorting.Order.{
  sort_rows, rows_with, sort_rows-Perm, sort_rows-InOrder, rows_with-sort_rows, weight-sort_rows,
}
use cantera_table.WriteOnce.Sorting.Entries.{IsFull}
use cantera_table.WriteOnce.Sorting.Build.{refill-Holding, add_all-Holding}
use cantera_table.WriteOnce.Sorting.ReadBack.{Some-sort_rows}
use cantera_table.WriteOnce.Table.{
  AnyBuilder, in_order, in_any_order, WriteOnceTable, create_table, add_any, insert_row,
  insert_rows, build_any, open_path, after_open, after_build, returns, sync, is_sorted, read_row,
  read_all,
}

-- Rows that a table takes, by GetInputUnsorted.
abbrev pub Takes : Bool → List Row → Type 0
Takes true rows = All IsFull rows
Takes false rows = InOrder [] rows

module _ (s : Storage) (o : Options) (before : Option (List ℕ)) where
  abbrev writing : AnyBuilder → WriteOnceTable
  writing b = record { options = o; builder = some b; reader = none; path_file = before }

  abbrev reading : List ℕ → Reader → WriteOnceTable
  reading file r = record { options = o; builder = none; reader = some r; path_file = some file }

  insert_rows-in_order :
      (b : Builder) (rows : List Row)
      → insert_rows s (writing (in_order b)) rows
        ≡ (add_rows s o b rows >>= λ b'. ok (writing (in_order b')))
  unfolding insert_rows insert_row add_any add_rows
  insert_rows-in_order b [] = refl
  insert_rows-in_order b (row ∷ rows) = elim (Result-cases (Builder.add s o b row.0 row.1)) [
    | inl done ↦ rw done.1 (insert_rows-in_order done.0 rows)
    | inr fault ↦ rw fault.1 refl
  ]

  insert_rows-in_any_order :
      (w : Sorter) (rows : List Row)
      → insert_rows s (writing (in_any_order w)) rows
        ≡ (add_all s o w rows >>= λ w'. ok (writing (in_any_order w')))
  unfolding insert_rows insert_row add_any add_all
  insert_rows-in_any_order w [] = refl
  insert_rows-in_any_order w (row ∷ rows) = elim (Result-cases (Sorting.add w row.0 row.1)) [
    | inl done ↦ rw done.1 (insert_rows-in_any_order done.0 rows)
    | inr fault ↦ rw fault.1 refl
  ]

  read_all-reading :
      (n : ℕ) (file : List ℕ) (r : Reader) → read_all s n (reading file r) ≡ read_rows s n r
  unfolding read_all read_row read_rows
  read_all-reading zero file r = refl
  read_all-reading (suc n) file r = elim (Result-cases (Reader.read_row s r)) [
    | inr fault ↦ rw fault.1 refl
    | inl done ↦ elim (Option-cases done.0.1) [
      | inl end ↦ rw (done.1, end) refl
      | inr found ↦ rw (done.1, found.1, read_all-reading n file done.0.0) refl
    ]
  ]

  -- A builder that makes a table of the rows is followed by a reader of them.
  sync-reading :
      (any : AnyBuilder) (rows : List Row) (n : ℕ) (bs : List (List Row))
      → build_any s o any ≡ ok (some (file_of s o bs), get_index_offset (index_of s o bs))
      → concat bs ≡ rows
      → All IsBlock bs
      → Some rows
      → IsSmall rows
      → (t' : WriteOnceTable) × (sync s (writing any) ≡ returns t')
        × (is_sorted s t' ≡ true)
        × (read_all s n t' ≡ ok (take n rows))
  unfolding sync after_build after_open open_path is_sorted Reader.is_sorted
  sync-reading any rows n [] built same each begun small = absurd (rw (sym same) at begun)
  sync-reading any rows n (b ∷ bs) built same each begun small =
      let whole : IsSmall (concat (b ∷ bs)) = omega (arith, small, ap weight same) in
      let few : length (b ∷ bs) < 2 ^ 30 = omega (arith, whole, IsBlock-le-weight (b ∷ bs) each) in
      let opened = open_reader-file_of s o b bs each few whole in
      let r = fresh s o (b ∷ bs) in
      (
        reading (file_of s o (b ∷ bs)) r,
        rw (built, opened) refl,
        refl,
        read_all-reading n (file_of s o (b ∷ bs)) r
            ∙ (rw same at (
                read_rows-IsBefore s o n (b ∷ bs) r (concat (b ∷ bs)) each
                  (fresh-IsBefore s o (b ∷ bs) each))),
      )

  built_rows :
      (rows : List Row)
      → Some rows
      → IsSmall rows
      → InOrder [] rows
      → (b : Builder) × (bs : List (List Row)) × (add_rows s o (create s o) rows ≡ ok b)
        × (build_at s o b ≡ ok (some (file_of s o bs), get_index_offset (index_of s o bs)))
        × (concat bs ≡ rows)
        × All IsBlock bs
  built_rows [] begun small order = absurd begun
  built_rows (e ∷ es) begun small order =
      let t = build_at-blocks s o e es order small in
      let added = bind-ok (add_rows s o (create s o) (e ∷ es)) (build_at s o) _ t.1 in
      (added.0, t.0, added.1, added.2, t.3, t.4)

  -- At least one row of small total size goes into a WriteOnceTable by InsertRow: each with a key and a
  -- value that are not empty, if the options say that the input is unsorted, and with the keys in order
  -- otherwise. Sync succeeds, IsSorted holds, and ReadRow gives the first n of the rows in the order of
  -- their keys, where the rows of one key stay in the order in which they were inserted.
  pub read_all-sync :
      (input_unsorted : Bool) (rows : List Row) (n : ℕ) (key : List ℕ)
      → Some rows
      → IsSmall rows
      → Takes input_unsorted rows
      → (t t' : WriteOnceTable) × (sorted : List Row) × (insert_rows s
            (create_table s o input_unsorted before)
            rows
          ≡ ok t)
        × (sync s t ≡ returns t')
        × (is_sorted s t' ≡ true)
        × (read_all s n t' ≡ ok (take n sorted))
        × InOrder [] sorted
        × Perm sorted rows
        × (rows_with key sorted ≡ rows_with key rows)
  unfolding create_table build_any
  read_all-sync false rows n key begun small order =
      let built = built_rows rows begun small order in
      let synced =
        sync-reading (in_order built.0) rows n built.1 built.3 built.4 built.5 begun small in
      (
        writing (in_order built.0),
        synced.0,
        rows,
        rw (insert_rows-in_order (create s o) rows, built.2) refl,
        synced.1,
        synced.2,
        synced.3,
        order,
        Perm.rfl,
        refl,
      )
  read_all-sync true rows n key begun small full =
      let same = weight-sort_rows rows in
      let added =
        add_all-Holding s o empty_sorter [] rows (record { entries = tt; offset = refl }) full
          (omega (arith, small)) in
      let some_row = Some-sort_rows s o rows (sort_rows rows) begun same in
      let fits : IsSmall (sort_rows rows) = omega (arith, same, small) in
      let built = built_rows (sort_rows rows) some_row fits (sort_rows-InOrder rows) in
      let refilled : refill s o added.0 ≡ ok built.0 =
        refill-Holding s o added.0 rows added.2 ∙ built.2 in
      let synced =
        sync-reading (in_any_order added.0) (sort_rows rows) n built.1 (rw refilled built.3) built.4
          built.5 some_row fits in
      (
        writing (in_any_order added.0),
        synced.0,
        sort_rows rows,
        rw (insert_rows-in_any_order empty_sorter rows, added.1) refl,
        synced.1,
        synced.2,
        synced.3,
        sort_rows-InOrder rows,
        sort_rows-Perm rows,
        rows_with-sort_rows key rows,
      )
