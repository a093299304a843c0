-- ===== src/WriteOnce/Reader/Table.antt =====
-- Writing a table and reading it: the builder and the reader of src/table-backend-writeonce.cc.
use cantera_table.Shared.{ℕ, ◌≡◌, ap, List, [], ◌∷◌, false, some, take, All, arith}
use cantera_table.Result.{ok}
use cantera_table.WriteOnce.Codec.{Storage}
use cantera_table.WriteOnce.Builder.{Options, write_table}
use cantera_table.WriteOnce.Builder.Blocks.{Row, weight, IsSmall}
use cantera_table.WriteOnce.Builder.State.{IsBlock}
use cantera_table.WriteOnce.Builder.Rows.{InOrder, concat}
use cantera_table.WriteOnce.Builder.Table.{file_of, write_table-blocks}
use cantera_table.WriteOnce.Reader.{Reader, opened, open_table, read_rows}
use cantera_table.WriteOnce.Reader.Open.{fresh, open_table-file_of}
use cantera_table.WriteOnce.Reader.Rows.{read_rows-IsBefore, fresh-IsBefore}

module _ (s : Storage) (o : Options) where
  -- At least one row with keys in order, of small total size, added to WriteOnceBuilder and built with any
  -- options: the builder makes a file, WriteOnceTable opens it, and ReadRow, called n times or until there is
  -- no row left, gives the first n of the rows as they were.
  pub read_rows-write_table :
      (e : Row) (es : List Row) (n : ℕ)
      → InOrder [] (e ∷ es)
      → IsSmall (e ∷ es)
      → (file : List ℕ) × (r : Reader) × (write_table s o (e ∷ es) ≡ ok (some file))
        × (open_table s file false ≡ ok (opened r))
        × (read_rows s n r ≡ ok (take n (e ∷ es)))
  read_rows-write_table e es n order small =
      let t = write_table-blocks s o e es order small in read_back t.0 t.1 t.2 t.3
    where
      read_back :
          (bs : List (List Row))
          → write_table s o (e ∷ es) ≡ ok (some (file_of s o bs))
          → concat bs ≡ e ∷ es
          → All IsBlock bs
          → (file : List ℕ) × (r : Reader) × (write_table s o (e ∷ es) ≡ ok (some file))
            × (open_table s file false ≡ ok (opened r))
            × (read_rows s n r ≡ ok (take n (e ∷ es)))
      read_back [] written rows each = absurd cc
      read_back (b ∷ bs) written rows each = (
        file_of s o (b ∷ bs),
        fresh s o (b ∷ bs),
        written,
        open_table-file_of s o b bs each (omega (arith, small, ap weight rows)),
        rw rows at (
            read_rows-IsBefore s o n (b ∷ bs) (fresh s o (b ∷ bs)) (concat (b ∷ bs)) each
              (fresh-IsBefore s o (b ∷ bs) each)),
      )
