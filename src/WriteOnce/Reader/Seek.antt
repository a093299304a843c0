-- ===== src/WriteOnce/Reader/Seek.antt =====
-- `Offset`, `Seek` and `ReadRow` of src/table-backend-writeonce.cc, one after the other.
use cantera_table.Shared.{
  ℕ, ◌+◌, ◌-◌, ◌≤◌, ◌≡◌, refl, List, ◌∷◌, ◌++◌, Bool, false, Option, some, leb, length, All,
  length-append, inl, inr, arith,
}
use cantera_table.Shared.Int.{pos}
use cantera_table.Result.{ok}
use cantera_table.WriteOnce.Codec.{Storage}
use cantera_table.WriteOnce.Block.{Block}
use cantera_table.WriteOnce.Block.Entries.{lengths, block_of}
use cantera_table.WriteOnce.Builder.Blocks.{Row, IsSmall, IsSmall-Fits}
use cantera_table.WriteOnce.Builder.State.{IsBlock, last_keys_of}
use cantera_table.WriteOnce.Builder.Rows.{concat}
use cantera_table.WriteOnce.Builder.Table.{length-last_keys}
use cantera_table.WriteOnce.Cursor.{Cursor}
use cantera_table.WriteOnce.Reader.{Reader, place, at, seek_set, seek, offset, entry_offset}
use cantera_table.WriteOnce.Reader.Blocks.{reading, IsCached, IsCached-loaded, load_block-reading}
use cantera_table.WriteOnce.Reader.Rows.{Stands, IsBefore, All-back}
use cantera_table.WriteOnce.Reader.Offsets.{
  seekable_options, position, seek_target-position, block_offset-front, get_entry_offset-block_of,
}

module _ (s : Storage) (compressed : Bool) where
  entry_offset-position :
      (front : List (List Row)) (done : List Row) (row : Row) (rest : List Row)
      (back : List (List Row)) (cursor : Cursor) (block : Block) (m : Option ℕ)
      → IsSmall (done ++ (row ∷ rest))
      → IsCached s (seekable_options compressed) (front ++ ((done ++ (row ∷ rest)) ∷ back)) block m
      → place cursor ≡ (length front, length done)
      → offset s (
          reading s
            (seekable_options compressed)
            (front ++ ((done ++ (row ∷ rest)) ∷ back))
            cursor
            block
            m)
        ≡ ok (
          reading s
              (seekable_options compressed)
              (front ++ ((done ++ (row ∷ rest)) ∷ back))
              (at (length front) (length done))
              (block_of (done ++ (row ∷ rest)))
              (some (length front)),
          position s compressed front done - 24,
        )
  unfolding offset entry_offset
  entry_offset-position front done row rest back cursor block m small cached stands =
      let b = done ++ (row ∷ rest) in
      let bs = front ++ (b ∷ back) in
      let there : leb (length (lengths (last_keys_of bs))) (length front) ≡ false =
        ground (arith, length-append front (b ∷ back), length-last_keys bs) in
      rw (
        stands,
        there,
        load_block-reading s (seekable_options compressed) front b back cursor block m small cached,
        get_entry_offset-block_of s.numbers done (row ∷ rest),
        block_offset-front s compressed front (b ∷ back),
      )

  seek_set-position :
      (front : List (List Row)) (done rest : List Row) (back : List (List Row)) (cursor : Cursor)
      (block : Block) (m : Option ℕ)
      → IsSmall (done ++ rest)
      → (1 ≤ length back → 1 ≤ length rest)
      → IsCached s (seekable_options compressed) (front ++ ((done ++ rest) ∷ back)) block m
      → seek s
          (reading s
            (seekable_options compressed)
            (front ++ ((done ++ rest) ∷ back))
            cursor
            block
            m)
          seek_set
          (pos (position s compressed front done - 24))
        ≡ ok (
            reading s
              (seekable_options compressed)
              (front ++ ((done ++ rest) ∷ back))
              (at (length front) (length done))
              (block_of (done ++ rest))
              (some (length front)))
  unfolding seek
  seek_set-position front done rest back cursor block m small more cached =
      let target : (position s compressed front done - 24) + 24 ≡ position s compressed front done =
        omega arith in
      rw target (
        seek_target-position s compressed front done rest back cursor block m small
          (IsSmall-Fits (done ++ rest) small) more cached)

  seek-offset_in :
      (front : List (List Row)) (done : List Row) (row : Row) (rest : List Row)
      (back : List (List Row)) (cursor : Cursor) (block : Block) (m : Option ℕ) (r2 : Reader)
      (other : List Row)
      → All IsBlock (front ++ ((done ++ (row ∷ rest)) ∷ back))
      → IsCached s (seekable_options compressed) (front ++ ((done ++ (row ∷ rest)) ∷ back)) block m
      → place cursor ≡ (length front, length done)
      → IsBefore s (seekable_options compressed) (front ++ ((done ++ (row ∷ rest)) ∷ back)) r2 other
      → (r1 : Reader) × (n : ℕ) × (r3 : Reader) × (offset s (
            reading s
              (seekable_options compressed)
              (front ++ ((done ++ (row ∷ rest)) ∷ back))
              cursor
              block
              m)
          ≡ ok (r1, n))
        × (seek s r2 seek_set (pos n) ≡ ok r3)
        × IsBefore s
            (seekable_options compressed)
            (front ++ ((done ++ (row ∷ rest)) ∷ back))
            r1
            (row ∷ (rest ++ concat back))
        × IsBefore s
            (seekable_options compressed)
            (front ++ ((done ++ (row ∷ rest)) ∷ back))
            r3
            (row ∷ (rest ++ concat back))
  seek-offset_in front done row rest back cursor block m r2 other h cached stands before =
      let b = done ++ (row ∷ rest) in
      let bs = front ++ (b ∷ back) in
      let small = (All-back front b back h).0.1 in
      let r1 =
        reading s (seekable_options compressed) bs (at (length front) (length done)) (block_of b)
          (some (length front)) in
      let there : IsBefore s (seekable_options compressed) bs r1 (row ∷ (rest ++ concat back)) =
        record {
          cursor = at (length front) (length done);
          block = block_of b;
          read_num = some (length front);
          is_state = refl;
          cached = IsCached-loaded s (seekable_options compressed) front b back;
          stands = inl (record {
            front = front;
            done = done;
            row = row;
            rest = rest;
            back = back;
            blocks = refl;
            position = refl;
            rows = refl;
          });
        } in
      (
        r1,
        position s compressed front done - 24,
        r1,
        entry_offset-position front done row rest back cursor block m small cached stands,
        rw before.is_state (
            seek_set-position front done (row ∷ rest) back before.cursor before.block
              before.read_num small (λ t. omega arith) before.cached),
        there,
        there,
      )

  -- In a seekable table of the builder, the offset that Offset gives where a reader stands before a row takes any
  -- reader of the table there, by Seek with SEEK_SET.
  pub seek-offset :
      (bs : List (List Row)) (r r2 : Reader) (row : Row) (left other : List Row)
      → All IsBlock bs
      → IsBefore s (seekable_options compressed) bs r (row ∷ left)
      → IsBefore s (seekable_options compressed) bs r2 other
      → (r1 : Reader) × (n : ℕ) × (r3 : Reader) × (offset s r ≡ ok (r1, n))
        × (seek s r2 seek_set (pos n) ≡ ok r3)
        × IsBefore s (seekable_options compressed) bs r1 (row ∷ left)
        × IsBefore s (seekable_options compressed) bs r3 (row ∷ left)
  seek-offset bs r r2 row left other h before before2 =
      rw before.is_state
        (stand bs before.cursor before.block before.read_num h before.cached before2 before.stands)
    where
      stand :
          (bs : List (List Row)) (cursor : Cursor) (block : Block) (m : Option ℕ)
          → All IsBlock bs
          → IsCached s (seekable_options compressed) bs block m
          → IsBefore s (seekable_options compressed) bs r2 other
          → Stands bs (place cursor) (row ∷ left)
          → (r1 : Reader) × (n : ℕ) × (r3 : Reader) × (offset s
                (reading s (seekable_options compressed) bs cursor block m)
              ≡ ok (r1, n))
            × (seek s r2 seek_set (pos n) ≡ ok r3)
            × IsBefore s (seekable_options compressed) bs r1 (row ∷ left)
            × IsBefore s (seekable_options compressed) bs r3 (row ∷ left)
      stand bs cursor block m h cached before2 (inl p) =
          rw (p.blocks, p.rows)
            (seek-offset_in p.front p.done p.row p.rest p.back cursor block m r2 other
              (rw p.blocks at h) (rw p.blocks at cached) p.position (rw p.blocks at before2))
      stand bs cursor block m h cached before2 (inr p) = absurd (let e = p.1 in cc)
