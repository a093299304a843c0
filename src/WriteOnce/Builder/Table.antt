-- ===== src/WriteOnce/Builder/Table.antt =====
-- The file that `WriteOnceBuilder` commits, as the blocks of rows in it.
use cantera_table.Shared.{
  suc, ◌+◌, ◌^◌, ◌≤◌, ◌<◌, ◌≡◌, ◌∙◌, refl, sym, ap, ℕ, Option, inl, inr, List, [], ◌∷◌, ◌++◌, false,
  some, ◌==◌, length, drop, All, append_assoc, append-nil, length-append, arith,
}
use cantera_table.Result.{Result, ok, ◌>>=◌, Result-cases}
use cantera_table.WriteOnce.Codec.{Storage}
use cantera_table.WriteOnce.File.{Header, write_header, header_bytes, to_bytes}
use cantera_table.WriteOnce.Block.Entries.{Bytes, lengths, some_left, block_of}
use cantera_table.WriteOnce.Index
use cantera_table.WriteOnce.Index.{get_index_offset}
use cantera_table.WriteOnce.Builder.{
  Options, Builder, header, create, add_rows, write_block, write_index, build, write_table,
  written_offset, build_at, get_write_buffer,
}
use cantera_table.WriteOnce.Builder.Blocks.{Row, weight, IsSmall, weight-append}
use cantera_table.WriteOnce.Builder.State.{
  Some, IsBlock, last_keys_of, index_of, contents, state, write_block-state,
}
use cantera_table.WriteOnce.Builder.Rows.{
  InOrder, concat, concat-append, Holds, create-Holds, add_rows-Holds, All-snoc,
}

pub All-IsBlock : (bs : List (List Row)) → All Some bs → IsSmall (concat bs) → All IsBlock bs
All-IsBlock [] h small = tt
All-IsBlock (b ∷ bs) h small =
    let both : weight b + weight (concat bs) < 2 ^ 30 = rw (weight-append b (concat bs)) at small in
    ((h.0, omega (arith, both)), All-IsBlock bs h.1 (omega (arith, both)))

pub blocks-le-weight : (bs : List (List Row)) → All Some bs → length bs ≤ weight (concat bs)
blocks-le-weight [] h = omega arith
blocks-le-weight ([] ∷ bs) h = elim h.0 [ ]
blocks-le-weight ((e ∷ es) ∷ bs) h =
    omega (arith, blocks-le-weight bs h.1, weight-append (e ∷ es) (concat bs))

pub length-last_keys : (bs : List (List Row)) → length (lengths (last_keys_of bs)) ≡ length bs
length-last_keys [] = refl
length-last_keys (b ∷ bs) = ap suc (length-last_keys bs)

-- What stands behind a first header.
behind_header : (h : Header) (rest : Bytes) → drop 24 (write_header h [] ++ rest) ≡ rest
unfolding write_header header_bytes to_bytes
behind_header h rest = refl

front_some : (a b : Bytes) → 1 ≤ length a → (length (a ++ b) == 0) ≡ false
front_some a b h = ground (arith, length-append a b)

module _ (s : Storage) (o : Options) where
  -- The header, the blocks and the index.
  abbrev pub file_of : List (List Row) → Bytes
  file_of bs =
      header_bytes (header s o (get_index_offset (index_of s o bs)))
      ++ (contents s o bs ++ get_write_buffer s o (Index.marshal s (index_of s o bs)))

  marshal_some :
      (b : List Row) (bs : List (List Row))
      → length (b ∷ bs) < 2 ^ 64
      → (length (Index.marshal s (index_of s o (b ∷ bs))) == 0) ≡ false
  unfolding Index.marshal
  marshal_some b bs h =
      let n : length (lengths (last_keys_of (b ∷ bs))) < 2 ^ 64 =
        omega (arith, h, length-last_keys (b ∷ bs)) in
      rw (some_left (length (lengths (last_keys_of bs)))) (
        front_some (s.sizes.value_encode (length (lengths (last_keys_of (b ∷ bs))))) _ (
          omega (
            arith,
            s.sizes.length-value_encode (length (lengths (last_keys_of (b ∷ bs)))),
            s.sizes.value_space_pos (length (lengths (last_keys_of (b ∷ bs)))) n,
          )))

  write_index-state :
      (b : List Row) (bs : List (List Row)) (w : Builder)
      → length (b ∷ bs) < 2 ^ 64
      → w.index ≡ index_of s o (b ∷ bs)
      → w.file ≡ write_header (header s o 0) [] ++ contents s o (b ∷ bs)
      → write_index s o w ≡ some (file_of (b ∷ bs))
  unfolding write_index write_header
  write_index-state b bs w few i f =
      rw (i, f, marshal_some b bs few)
        (ap (λ t. some (header_bytes (header s o (get_index_offset (index_of s o (b ∷ bs)))) ++ t))
          (ap (λ t. drop 24 t)
              (append_assoc (write_header (header s o 0) []) (contents s o (b ∷ bs))
                (get_write_buffer s o (Index.marshal s (index_of s o (b ∷ bs)))))
            ∙ behind_header (header s o 0) (
                contents s o (b ∷ bs)
                ++ get_write_buffer s o (Index.marshal s (index_of s o (b ∷ bs))))))

  -- The offset that is returned is the one in the header.
  written_offset-some :
      (b : List Row) (bs : List (List Row)) (w : Builder)
      → length (b ∷ bs) < 2 ^ 64
      → w.index ≡ index_of s o (b ∷ bs)
      → written_offset s o w ≡ get_index_offset (index_of s o (b ∷ bs))
  unfolding written_offset
  written_offset-some b bs w few i = rw (i, marshal_some b bs few) refl

  -- The builder with the last block written.
  abbrev last_state : List (List Row) → Row → List Row → Builder
  last_state front e es = record (state s o (front ++ ((e ∷ es) ∷ [])) []) {
    block = block_of (e ∷ es);
  }

  build_at-state :
      (closed : List (List Row)) (e : Row) (es : List Row)
      → IsSmall (e ∷ es)
      → length (closed ++ ((e ∷ es) ∷ [])) < 2 ^ 64
      → build_at s o (state s o closed (e ∷ es))
        ≡ ok (
          some (file_of (closed ++ ((e ∷ es) ∷ []))),
          get_index_offset (index_of s o (closed ++ ((e ∷ es) ∷ []))),
        )
  unfolding build_at
  build_at-state closed e es small few =
      rw (write_block-state s o closed e es small) (written closed few)
    where
      written :
          (front : List (List Row))
          → length (front ++ ((e ∷ es) ∷ [])) < 2 ^ 64
          → (◌≡◌ {A = Result (Option Bytes × ℕ)}
              (ok (
                write_index s o (last_state front e es),
                written_offset s o (last_state front e es),
              ))
              (ok (
                some (file_of (front ++ ((e ∷ es) ∷ []))),
                get_index_offset (index_of s o (front ++ ((e ∷ es) ∷ []))),
              )))
      written [] few = λ i. ok (
        write_index-state (e ∷ es) [] (last_state [] e es) few refl refl i,
        written_offset-some (e ∷ es) [] (last_state [] e es) few refl i,
      )
      written (b ∷ bs) few = λ i. ok (
        write_index-state b (bs ++ ((e ∷ es) ∷ [])) (last_state (b ∷ bs) e es) few refl refl i,
        written_offset-some b (bs ++ ((e ∷ es) ∷ [])) (last_state (b ∷ bs) e es) few refl i,
      )

  concat-snoc :
      (closed : List (List Row)) (b : List Row) → concat (closed ++ (b ∷ [])) ≡ concat closed ++ b
  concat-snoc closed b = rw (concat-append closed (b ∷ []), append-nil b)

  build_at-Holds :
      (w : Builder) (rows : List Row)
      → Holds s o w rows
      → Some rows
      → IsSmall rows
      → (bs : List (List Row)) × (build_at s o w
          ≡ ok (some (file_of bs), get_index_offset (index_of s o bs)))
        × (concat bs ≡ rows)
        × All IsBlock bs
  build_at-Holds w rows h begun small =
      rw (h.is_state, sym h.rows)
        (finish h.open_rows (h.open_some begun) (rw (sym h.rows) at small))
    where
      finish :
          (last : List Row)
          → Some last
          → IsSmall (concat h.closed ++ last)
          → (bs : List (List Row)) × (build_at s o (state s o h.closed last)
              ≡ ok (some (file_of bs), get_index_offset (index_of s o bs)))
            × (concat bs ≡ concat h.closed ++ last)
            × All IsBlock bs
      finish [] begun small = elim begun [ ]
      finish (e ∷ es) begun small =
          let whole = concat-snoc h.closed (e ∷ es) in
          let each = All-snoc h.closed (e ∷ es) h.closed_some tt in
          let fits : IsSmall (concat (h.closed ++ ((e ∷ es) ∷ []))) = rw whole small in
          let few = blocks-le-weight (h.closed ++ ((e ∷ es) ∷ [])) each in
          (
            h.closed ++ ((e ∷ es) ∷ []),
            build_at-state h.closed e es
                (omega (arith, small, weight-append (concat h.closed) (e ∷ es)))
                (omega (arith, few, fits)),
            whole,
            All-IsBlock (h.closed ++ ((e ∷ es) ∷ [])) each fits,
          )

  build-build_at : (w : Builder) → build s o w ≡ (build_at s o w >>= λ built. ok built.0)
  unfolding build build_at
  build-build_at w = elim (Result-cases (write_block s o w)) [
    | inl done ↦ rw done.1 refl
    | inr fault ↦ rw fault.1 refl
  ]

  -- Rows whose keys are in order make a file, and the offset of its index is returned.
  pub build_at-blocks :
      (e : Row) (es : List Row)
      → InOrder [] (e ∷ es)
      → IsSmall (e ∷ es)
      → (bs : List (List Row)) × ((add_rows s o (create s o) (e ∷ es) >>= λ w. build_at s o w)
          ≡ ok (some (file_of bs), get_index_offset (index_of s o bs)))
        × (write_table s o (e ∷ es) ≡ ok (some (file_of bs)))
        × (concat bs ≡ e ∷ es)
        × All IsBlock bs
  unfolding write_table
  build_at-blocks e es order small =
      let added = add_rows-Holds s o (create s o) [] (e ∷ es) (create-Holds s o) order small in
      let built = build_at-Holds added.0 (e ∷ es) added.2 tt small in
      (
        built.0,
        rw added.1 built.1,
        rw (added.1, build-build_at added.0, built.1) refl,
        built.2,
        built.3,
      )

  -- Rows whose keys are in order make a file: its blocks hold the rows.
  pub write_table-blocks :
      (e : Row) (es : List Row)
      → InOrder [] (e ∷ es)
      → IsSmall (e ∷ es)
      → (bs : List (List Row)) × (write_table s o (e ∷ es) ≡ ok (some (file_of bs)))
        × (concat bs ≡ e ∷ es)
        × All IsBlock bs
  write_table-blocks e es order small =
      let built = build_at-blocks e es order small in (built.0, built.2, built.3, built.4)
