-- ===== src/WriteOnce/Sorting/Build.antt =====
-- Build of `WriteOnceSortingBuilder` of src/table-backend-writeonce.cc.
use cantera_table.Shared.{
  take-whole, take-take, drop_append, take_append, ℕ, ◌+◌, ◌^◌, ◌<◌, ◌≡◌, ◌∙◌, refl, sym, ap, List,
  [], ◌∷◌, ◌++◌, true, false, Bool-cases, inl, inr, leb, ltb, length, take, drop, All,
  length-append, append_assoc, append-nil, arith,
}
use cantera_table.Shared.Strings.{string_lt, string_eq}
use cantera_table.Shared.Words.{u32}
use cantera_table.Result.{Result-cases, ok}
use cantera_table.WriteOnce.Codec.{Storage}
use cantera_table.WriteOnce.File.{read_file}
use cantera_table.WriteOnce.Builder
use cantera_table.WriteOnce.Builder.{Builder, Options, create, add_rows, write_table}
use cantera_table.WriteOnce.Builder.Blocks.{Row, weight, IsSmall}
use cantera_table.WriteOnce.Sorting.{
  Entry, Sorter, empty_sorter, prefix_size, read_key, compare, insert, sort_entries, read_entry,
  add_entries, refill, build, add_all, write_unsorted,
}
use cantera_table.WriteOnce.Sorting.Order.{insert_row, sort_rows, string_lt-take}
use cantera_table.WriteOnce.Sorting.Entries.{IsOf, AreOf, Holding, IsFull, add-Holding}

-- A part of the temporary file.
read_file-stored :
    (raw bytes : List ℕ) (offset : ℕ)
    → take (length bytes) (drop offset raw) ≡ bytes
    → read_file raw offset (length bytes) ≡ ok bytes
unfolding read_file
read_file-stored raw bytes offset h =
    (let enough : ltb (length bytes) (length bytes) ≡ false = ground arith in rw (h, enough) refl)

-- What the comparing of two entries sees of the builder.
module _ (w : Sorter) where
  abbrev IsHere : Entry → Row → Type 0
  IsHere = IsOf w.raw w.key_size_max

  read_key-ok : (e : Entry) (row : Row) → IsHere e row → read_key w e ≡ ok row.0
  unfolding read_key
  read_key-ok e row h =
      let room : leb (length row.0) w.key_size_max ≡ true = ground (arith, h.room) in
      let key =
        sym (take-take (length row.0) (length row.1) (drop e.offset w.raw))
        ∙ (ap (take (length row.0)) h.stored ∙ take_append row.0 row.1) in
      rw (h.key_size, room, read_file-stored w.raw row.0 e.offset key) refl

  -- Comparing entries is comparing the keys of their rows.
  compare-ok :
      (d e : Entry) (q r : Row) → IsHere d q → IsHere e r → compare w d e ≡ ok (string_lt q.0 r.0)
  unfolding compare
  compare-ok d e q r h k = elim (Bool-cases (string_eq d.prefix e.prefix)) [
    | inl same ↦ rw (same, read_key-ok d q h, read_key-ok e r k) refl
    | inr apart ↦
        let differ : string_eq (take prefix_size q.0) (take prefix_size r.0) ≡ false =
          rw (h.prefix, k.prefix) at apart in
        let order : string_lt d.prefix e.prefix ≡ string_lt q.0 r.0 =
          rw (h.prefix, k.prefix) (string_lt-take prefix_size q.0 r.0 differ) in
        rw (apart, order) refl
  ]

  insert-ok :
      (e : Entry) (es : List Entry) (row : Row) (rows : List Row)
      → IsHere e row
      → AreOf w.raw w.key_size_max es rows
      → (sorted : List Entry) × (insert w e es ≡ ok sorted)
        × AreOf w.raw w.key_size_max sorted (insert_row row rows)
  unfolding insert insert_row
  insert-ok e [] row [] h all = (e ∷ [], refl, (h, tt))
  insert-ok e [] row (r ∷ rows) h all = absurd all
  insert-ok e (d ∷ es) row [] h all = absurd all
  insert-ok e (d ∷ es) row (r ∷ rows) h all = elim (Bool-cases (string_lt r.0 row.0)) [
    | inl less ↦
        let rest = insert-ok e es row rows h all.1 in
        (
          d ∷ rest.0,
          rw (compare-ok d e r row all.0 h, less, rest.1) refl,
          rw less ((all.0, rest.2)),
        )
    | inr not_less ↦
        (e ∷ d ∷ es, rw (compare-ok d e r row all.0 h, not_less) refl, rw not_less ((h, all)))
  ]

  sort_entries-ok :
      (es : List Entry) (rows : List Row)
      → AreOf w.raw w.key_size_max es rows
      → (sorted : List Entry) × (sort_entries w es ≡ ok sorted)
        × AreOf w.raw w.key_size_max sorted (sort_rows rows)
  unfolding sort_entries sort_rows
  sort_entries-ok [] [] all = ([], refl, tt)
  sort_entries-ok [] (r ∷ rows) all = absurd all
  sort_entries-ok (e ∷ es) [] all = absurd all
  sort_entries-ok (e ∷ es) (r ∷ rows) all =
      let rest = sort_entries-ok es rows all.1 in
      let whole = insert-ok e rest.0 r (sort_rows rows) all.0 rest.2 in
      (whole.0, rw rest.1 whole.1, whole.2)

  read_entry-ok : (e : Entry) (row : Row) → IsHere e row → read_entry w e ≡ ok row
  unfolding read_entry
  read_entry-ok e row h =
      let both : length (row.0 ++ row.1) ≡ length row.0 + length row.1 =
        length-append row.0 row.1 in
      let fits : u32 (length row.0 + length row.1) ≡ length row.0 + length row.1 =
        omega (arith, h.small) in
      let bytes = read_file-stored w.raw (row.0 ++ row.1) e.offset (rw both h.stored) in
      let enough : leb (length (row.0 ++ row.1)) (length (row.0 ++ row.1)) ≡ true = ground arith in
      rw
        (
          h.key_size,
          h.value_size,
          fits,
          sym both,
          bytes,
          enough,
          take_append row.0 row.1,
          drop_append row.0 row.1,
          take-whole row.1,
        )
        refl

module _ (s : Storage) (o : Options) where
  -- The entries are added as their rows.
  add_entries-ok :
      (w : Sorter) (b : Builder) (es : List Entry) (rows : List Row)
      → AreOf w.raw w.key_size_max es rows
      → add_entries s o w b es ≡ add_rows s o b rows
  unfolding add_entries add_rows
  add_entries-ok w b [] [] all = refl
  add_entries-ok w b [] (r ∷ rows) all = absurd all
  add_entries-ok w b (e ∷ es) [] all = absurd all
  add_entries-ok w b (e ∷ es) (r ∷ rows) all = elim (Result-cases (Builder.add s o b r.0 r.1)) [
    | inl done ↦ rw (read_entry-ok w e r all.0, done.1) (add_entries-ok w done.0 es rows all.1)
    | inr fault ↦ rw (read_entry-ok w e r all.0, fault.1) refl
  ]

  pub refill-Holding :
      (w : Sorter) (rows : List Row)
      → Holding w rows
      → refill s o w ≡ add_rows s o (create s o) (sort_rows rows)
  unfolding refill
  refill-Holding w rows h =
      let sorted = sort_entries-ok w w.index rows h.entries in
      rw (sorted.1, add_entries-ok w (create s o) sorted.0 (sort_rows rows) sorted.2) refl

  build-Holding :
      (w : Sorter) (rows : List Row)
      → Holding w rows
      → build s o w ≡ write_table s o (sort_rows rows)
  unfolding build write_table
  build-Holding w rows h = rw (refill-Holding w rows h) refl

  pub add_all-Holding :
      (w : Sorter) (done rows : List Row)
      → Holding w done
      → All IsFull rows
      → length w.raw + weight rows < 2 ^ 31
      → (w' : Sorter) × (add_all s o w rows ≡ ok w') × Holding w' (done ++ rows)
  unfolding add_all
  add_all-Holding w done [] h full small = (w, refl, rw (append-nil done) h)
  add_all-Holding w done (row ∷ rows) h full small =
      let one = add-Holding w done row h full.0 (omega (arith, small)) (omega (arith, small)) in
      let rest =
        add_all-Holding one.0 (done ++ (row ∷ [])) rows one.2 full.1
          (omega (arith, small, one.3)) in
      (rest.0, rw one.1 rest.1, rw (append_assoc done (row ∷ []) rows) at rest.2)

  -- Rows, each with a key and a value that are not empty, of small total size, in any order:
  -- WriteOnceSortingBuilder makes the file, or the failure, that WriteOnceBuilder makes of the rows
  -- sorted by insertion.
  pub write_unsorted-sort_rows :
      (rows : List Row)
      → All IsFull rows
      → IsSmall rows
      → write_unsorted s o rows ≡ write_table s o (sort_rows rows)
  unfolding write_unsorted
  write_unsorted-sort_rows rows full small =
      let added =
        add_all-Holding empty_sorter [] rows (record { entries = tt; offset = refl }) full
          (omega (arith, small)) in
      rw added.1 (build-Holding added.0 rows added.2)
