-- ===== src/WriteOnce/Builder/Unsorted.antt =====
-- Rows that `WriteOnceBuilder` of src/table-backend-writeonce.cc refuses.
use cantera_table.Shared.{◌≡◌, refl, List, [], ◌∷◌, ◌++◌, true}
use cantera_table.Shared.Strings.{string_lt}
use cantera_table.Result.{Result, ok, err, require, ◌>>=◌}
use cantera_table.WriteOnce.Codec.{Storage}
use cantera_table.WriteOnce.Builder.{Options, Builder, create, add, add_rows, write_table}
use cantera_table.WriteOnce.Builder.Blocks.{Row, IsSmall, last_key}
use cantera_table.WriteOnce.Builder.State.{Some}
use cantera_table.WriteOnce.Builder.Rows.{InOrder, create-Holds, add_rows-Holds, add-unsorted}

module _ (s : Storage) (o : Options) where
  add_rows-append :
      (a b : List Row) (w : Builder)
      → add_rows s o w (a ++ b) ≡ (add_rows s o w a >>= λ v. add_rows s o v b)
  unfolding add_rows
  add_rows-append [] b w = refl
  add_rows-append (e ∷ a) b w = next (add_rows-append a b) (add s o w e.0 e.1)
    where
      next :
          ((v : Builder) → add_rows s o v (a ++ b) ≡ (add_rows s o v a >>= λ v'. add_rows s o v' b))
          → (added : Result Builder)
          → (added >>= λ v. add_rows s o v (a ++ b))
            ≡ ((added >>= λ v. add_rows s o v a) >>= λ v. add_rows s o v b)
      next rec (ok v) = rec v
      next rec (err f) = refl

  -- Behind rows with keys in order and of small total size, a row whose key is before the key of the row in
  -- front of it makes the building of a table fail, whatever rows follow.
  pub write_table-unsorted :
      (done : List Row) (e : Row) (rest : List Row)
      → Some done
      → InOrder [] done
      → IsSmall done
      → string_lt e.0 (last_key done) ≡ true
      → write_table s o (done ++ (e ∷ rest)) ≡ err require
  unfolding write_table add_rows
  write_table-unsorted done e rest begun order small before =
      let added = add_rows-Holds s o (create s o) [] done (create-Holds s o) order small in
      rw (
        add_rows-append done (e ∷ rest) (create s o),
        added.1,
        add-unsorted s o added.0 done e added.2 begun before,
      )
