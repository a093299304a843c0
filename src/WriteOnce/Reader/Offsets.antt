-- ===== src/WriteOnce/Reader/Offsets.antt =====
-- `Offset` and `Seek` of src/table-backend-writeonce.cc on a seekable file of the builder.
use cantera_table.Shared.{
  drop_append, take_append, ℕ, zero, suc, ◌+◌, ◌-◌, ◌^◌, ◌≤◌, ◌<◌, ◌≡◌, ◌∙◌, refl, sym, ap, List,
  [], ◌∷◌, ◌++◌, Bool, true, false, Option, some, leb, ltb, length, take, All, append_assoc,
  length-append, Bool-cases, inl, inr, arith,
}
use cantera_table.Result.{ok}
use cantera_table.WriteOnce.Codec.{Codec, Storage}
use cantera_table.WriteOnce.Block
use cantera_table.WriteOnce.Block.{
  Block, total, offset_in, entry_space, marshal_entries, get_entry_offset, get_entry_number,
}
use cantera_table.WriteOnce.Block.Entries.{
  Fits, lengths, joined, firsts, seconds, block_of, some_left, lengths-Fits, length-firsts,
  length-seconds,
}
use cantera_table.WriteOnce.Block.Offsets.{get_entry_number-get_entry_offset}
use cantera_table.WriteOnce.Index.{Index, get_index_offset, get_block_offset}
use cantera_table.WriteOnce.Builder.{Options, block_buffer}
use cantera_table.WriteOnce.Builder.Blocks.{Row, IsSmall}
use cantera_table.WriteOnce.Builder.State.{last_keys_of, stored, stored_sizes, index_of}
use cantera_table.WriteOnce.Builder.Table.{length-last_keys}
use cantera_table.WriteOnce.Cursor.{Cursor}
use cantera_table.WriteOnce.Reader.{at, seek_block, seek_target}
use cantera_table.WriteOnce.Reader.Blocks.{front_sizes, reading, IsCached, load_block-reading}

total-take : (xs : List ℕ) (j f : ℕ) → j ≤ f → total (take j xs) ≤ total (take f xs)
total-take xs zero f h = omega arith
total-take [] (suc j) (suc f) h = omega arith
total-take [] (suc j) zero h = absurd (omega arith)
total-take (x ∷ xs) (suc j) zero h = absurd (omega arith)
total-take (x ∷ xs) (suc j) (suc f) h = omega (arith, total-take xs j f (omega (arith, h)))

-- The loop ends at the last block that starts at the target or before it.
seek_block-at :
    (s : Storage) (i : Index) (target f left k : ℕ)
    → k ≤ f
    → f ≤ k + left
    → ((j : ℕ) → j ≤ f → get_block_offset i j ≤ target)
    → (f < k + left → target < get_block_offset i (f + 1))
    → seek_block s i target left k ≡ f
unfolding seek_block
seek_block-at s i target f zero k low high before behind = omega (arith, low, high)
seek_block-at s i target f (suc left) k low high before behind = elim (Bool-cases (ltb k f)) [
  | inl t ↦
      let less : k < f = ground (arith, t) in
      let more : leb (get_block_offset i (k + 1)) target ≡ true =
        ground (arith, before (k + 1) (omega (arith, less))) in
      rw more (
        seek_block-at s i target f left (k + 1) (omega (arith, less)) (omega (arith, high)) before
          (λ h. behind (omega (arith, h))))
  | inr t ↦
      let same : k ≡ f = ground (arith, t, low) in
      let late : target < get_block_offset i (k + 1) =
        rw (sym same) at (behind (omega (arith, same))) in
      let over : leb (get_block_offset i (k + 1)) target ≡ false = ground (arith, late) in
      rw over same
]

module _ (c : Codec (2 ^ 32)) where
  -- The bytes that rows take in the seekable format.
  abbrev pub space_of : List Row → ℕ
  space_of [] = 0
  space_of (e ∷ es) = entry_space c (length e.0) (length e.1) + space_of es

  length-marshal_entries :
      (es : List Row)
      → length (
          marshal_entries c
            (lengths (firsts es))
            (lengths (seconds es))
            (joined (firsts es))
            (joined (seconds es)))
        ≡ space_of es
  unfolding marshal_entries
  length-marshal_entries [] = refl
  length-marshal_entries (e ∷ es) =
      let tail =
        marshal_entries c (lengths (firsts es)) (lengths (seconds es)) (joined (firsts es))
          (joined (seconds es)) in
      rw
        (
          take_append e.0 (joined (firsts es)),
          take_append e.1 (joined (seconds es)),
          drop_append e.0 (joined (firsts es)),
          drop_append e.1 (joined (seconds es)),
          length-append
              (c.value_encode (length e.0) ++ (c.value_encode (length e.1) ++ (e.0 ++ e.1))) tail,
          length-append (c.value_encode (length e.0)) (c.value_encode (length e.1) ++ (e.0 ++ e.1)),
          length-append (c.value_encode (length e.1)) (e.0 ++ e.1),
          length-append e.0 e.1,
          c.length-value_encode (length e.0),
          c.length-value_encode (length e.1),
          length-marshal_entries es,
        )
        (omega arith)

  pub get_entry_offset-block_of :
      (done rest : List Row)
      → get_entry_offset c (block_of (done ++ rest)) (length done) ≡ ok (space_of done)
  unfolding get_entry_offset offset_in
  get_entry_offset-block_of [] rest = refl
  get_entry_offset-block_of (e ∷ done) rest = rw (get_entry_offset-block_of done rest)

  space_of-append : (a b : List Row) → space_of (a ++ b) ≡ space_of a + space_of b
  space_of-append [] b = omega arith
  space_of-append (e ∷ a) b = omega (arith, space_of-append a b)

  length-le-space_of : (es : List Row) → All Fits es → length es ≤ space_of es
  length-le-space_of [] h = omega arith
  length-le-space_of (e ∷ es) h =
      omega (arith, length-le-space_of es h.1, c.value_space_pos (length e.0) h.0.0)

  length-marshal_seekable :
      (es : List Row) → length (Block.marshal c (block_of es) true) ≡ space_of es
  unfolding Block.marshal
  length-marshal_seekable [] = refl
  length-marshal_seekable (e ∷ es) =
      rw (some_left (length (lengths (firsts es)))) (length-marshal_entries (e ∷ es))

  get_entry_number-space_of :
      (done rest : List Row)
      → All Fits (done ++ rest)
      → get_entry_number c (block_of (done ++ rest)) (space_of done) ≡ ok (length done)
  get_entry_number-space_of done rest h =
      let b = done ++ rest in
      let back =
        get_entry_number-get_entry_offset c (block_of b) (length done) (lengths-Fits b h).0
          (length-seconds b ∙ sym (length-firsts b))
          (omega (arith, length-firsts b, length-append done rest)) in
      let same : back.0 ≡ space_of done =
        (let e = get_entry_offset-block_of done rest in let f = back.1 in cc) in
      rw same at back.2

All-rest : (done rest : List Row) → All Fits (done ++ rest) → All Fits rest
All-rest [] rest h = h
All-rest (e ∷ done) rest h = All-rest done rest h.1

abbrev pub seekable_options : Bool → Options
seekable_options compressed = record { compressed = compressed; seekable = true }

module _ (s : Storage) (compressed : Bool) where
  abbrev o : Options
  o = seekable_options compressed

  length-stored : (b : List Row) → length (stored s o b) ≡ space_of s.numbers b
  unfolding block_buffer
  length-stored b = length-marshal_seekable s.numbers b

  -- Where the rows behind the blocks of `front` and the rows `done` stand in the file.
  abbrev pub position : List (List Row) → List Row → ℕ
  position front done = 24 + total (stored_sizes s o front) + space_of s.numbers done

  pub block_offset-front :
      (front back : List (List Row))
      → get_block_offset (index_of s o (front ++ back)) (length front)
        ≡ 24 + total (stored_sizes s o front)
  unfolding get_block_offset
  block_offset-front front back = rw (front_sizes s o front back)

  block_offset-le :
      (front back : List (List Row)) (j : ℕ)
      → j ≤ length front
      → get_block_offset (index_of s o (front ++ back)) j ≤ 24 + total (stored_sizes s o front)
  unfolding get_block_offset
  block_offset-le front back j h = omega (
    arith,
    ap total (front_sizes s o front back),
    total-take (stored_sizes s o (front ++ back)) j (length front) h,
  )

  pub sizes-snoc :
      (front : List (List Row)) (b : List Row)
      → total (stored_sizes s o (front ++ (b ∷ [])))
        ≡ total (stored_sizes s o front) + space_of s.numbers b
  sizes-snoc [] b = omega (arith, length-stored b)
  sizes-snoc (x ∷ front) b = omega (arith, sizes-snoc front b)

  block_offset-next :
      (front : List (List Row)) (b : List Row) (back : List (List Row))
      → get_block_offset (index_of s o (front ++ (b ∷ back))) (length front + 1)
        ≡ 24 + total (stored_sizes s o front) + space_of s.numbers b
  block_offset-next front b back =
      let next = block_offset-front (front ++ (b ∷ [])) back in
      let n : length (front ++ (b ∷ [])) ≡ length front + 1 = length-append front (b ∷ []) in
      omega (arith, rw (append_assoc front (b ∷ []) back, n) at next, sizes-snoc front b)

  total-append :
      (front back : List (List Row))
      → total (stored_sizes s o (front ++ back))
        ≡ total (stored_sizes s o front) + total (stored_sizes s o back)
  total-append [] back = omega arith
  total-append (x ∷ front) back = omega (arith, total-append front back)

  -- Seek to the position of rows in a block, or to the end of the last block.
  pub seek_target-position :
      (front : List (List Row)) (done rest : List Row) (back : List (List Row)) (cursor : Cursor)
      (block : Block) (m : Option ℕ)
      → IsSmall (done ++ rest)
      → All Fits (done ++ rest)
      → (1 ≤ length back → 1 ≤ length rest)
      → IsCached s o (front ++ ((done ++ rest) ∷ back)) block m
      → seek_target s
          (reading s o (front ++ ((done ++ rest) ∷ back)) cursor block m)
          (position front done)
        ≡ ok (
            reading s o
              (front ++ ((done ++ rest) ∷ back))
              (at (length front) (length done))
              (block_of (done ++ rest))
              (some (length front)))
  unfolding seek_target get_index_offset
  seek_target-position front done rest back cursor block m small fits more cached =
      let b = done ++ rest in
      let bs = front ++ (b ∷ back) in
      let i = index_of s o bs in
      let target = position front done in
      let behind_header : leb 24 target ≡ true = ground arith in
      let all_of : total (stored_sizes s o bs)
          ≡ total (stored_sizes s o front)
            + (length (stored s o b) + total (stored_sizes s o back)) =
        total-append front (b ∷ back) in
      let inside : target ≤ 24 + total (stored_sizes s o bs) =
        omega (arith, all_of, length-stored b, space_of-append s.numbers done rest) in
      let in_file : leb target (24 + total (stored_sizes s o bs)) ≡ true = ground (arith, inside) in
      let blocks : length (lengths (last_keys_of bs)) ≡ length front + 1 + length back =
        omega (arith, length-last_keys bs, length-append front (b ∷ back)) in
      let found : seek_block s i target (length (lengths (last_keys_of bs)) - 1) 0 ≡ length front =
        seek_block-at s i target (length front) (length (lengths (last_keys_of bs)) - 1) 0
          (omega arith) (omega (arith, blocks))
          (λ j h. omega (arith, block_offset-le front (b ∷ back) j h))
          (λ h. omega (
            arith,
            block_offset-next front b back,
            space_of-append s.numbers done rest,
            length-le-space_of s.numbers rest (All-rest done rest fits),
            more (omega (arith, h, blocks)),
          )) in
      let start = block_offset-front front (b ∷ back) in
      let inner : target - (24 + total (stored_sizes s o front)) ≡ space_of s.numbers done =
        omega arith in
      rw (
        behind_header,
        in_file,
        found,
        load_block-reading s o front b back cursor block m small cached,
        start,
        inner,
        get_entry_number-space_of s.numbers done rest fits,
      )
