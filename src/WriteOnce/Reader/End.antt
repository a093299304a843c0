-- ===== src/WriteOnce/Reader/End.antt =====
-- `Seek` of src/table-backend-writeonce.cc to the end of a seekable file of the builder.
use cantera_table.Shared.{
  ℕ, ◌≡◌, ◌∙◌, refl, ap, List, [], ◌∷◌, ◌++◌, Bool, false, Option, some, leb, length, All,
  append-nil, length-append, arith,
}
use cantera_table.Shared.Int.{pos}
use cantera_table.Result.{ok, err, overrun}
use cantera_table.WriteOnce.Codec.{Storage}
use cantera_table.WriteOnce.Block.Entries.{lengths, firsts, block_of}
use cantera_table.WriteOnce.Index.{element, get_index_offset}
use cantera_table.WriteOnce.Builder.Blocks.{Row, IsSmall, IsSmall-Fits}
use cantera_table.WriteOnce.Builder.State.{IsBlock, last_keys_of, index_of}
use cantera_table.WriteOnce.Builder.Table.{length-last_keys}
use cantera_table.WriteOnce.Cursor.{Cursor}
use cantera_table.WriteOnce.Block.{Block}
use cantera_table.WriteOnce.Reader.{Reader, at, seek_end, seek, seek_target, read_row, read_entry}
use cantera_table.WriteOnce.Reader.Blocks.{
  reading, IsCached, IsCached-loaded, load_block-reading, keys-block_of,
}
use cantera_table.WriteOnce.Reader.Rows.{IsBefore, All-back}
use cantera_table.WriteOnce.Reader.Offsets.{
  seekable_options, position, sizes-snoc, seek_target-position,
}

past_firsts : (b : List Row) → element (firsts b) (length b) ≡ err overrun
unfolding element
past_firsts [] = refl
past_firsts (e ∷ b) = past_firsts b

module _ (s : Storage) (compressed : Bool) where
  read_row-past :
      (front : List (List Row)) (b : List Row)
      → IsSmall b
      → read_row s (
          reading s
            (seekable_options compressed)
            (front ++ (b ∷ []))
            (at (length front) (length b))
            (block_of b)
            (some (length front)))
        ≡ err overrun
  unfolding read_row read_entry
  read_row-past front b small =
      let bs = front ++ (b ∷ []) in
      let there : leb (length (lengths (last_keys_of bs))) (length front) ≡ false =
        ground (arith, length-append front (b ∷ []), length-last_keys bs) in
      rw (
        there,
        load_block-reading s (seekable_options compressed) front b [] (at (length front) (length b))
            (block_of b) (some (length front)) small
            (IsCached-loaded s (seekable_options compressed) front b []),
        keys-block_of b,
        past_firsts b,
      )

  index_offset-snoc :
      (front : List (List Row)) (b : List Row)
      → get_index_offset (index_of s (seekable_options compressed) (front ++ (b ∷ [])))
        ≡ position s compressed front b
  unfolding get_index_offset
  index_offset-snoc front b = omega (arith, sizes-snoc s compressed front b)

  seek_end-position :
      (front : List (List Row)) (b : List Row) (cursor : Cursor) (block : Block) (m : Option ℕ)
      → IsSmall b
      → IsCached s (seekable_options compressed) (front ++ (b ∷ [])) block m
      → seek s
          (reading s (seekable_options compressed) (front ++ (b ∷ [])) cursor block m)
          seek_end
          (pos 0)
        ≡ ok (
            reading s
              (seekable_options compressed)
              (front ++ (b ∷ []))
              (at (length front) (length b))
              (block_of b)
              (some (length front)))
  unfolding seek
  seek_end-position front b cursor block m small cached =
      let whole = reading s (seekable_options compressed) (front ++ (b ∷ [])) cursor block m in
      ap (λ t. seek_target s whole t) (index_offset-snoc front b)
      ∙ (rw (append-nil b) at (
          seek_target-position s compressed front b [] [] cursor block m (rw (append-nil b) small)
            (IsSmall-Fits (b ++ []) (rw (append-nil b) small)) (λ h. h) (rw (append-nil b) cached)))

  -- In a seekable table of the builder, Seek to the end with SEEK_END succeeds, and the next ReadRow reads past
  -- the vector of the keys of the last block.
  pub read_row-seek_end :
      (front : List (List Row)) (b : List Row) (r : Reader) (left : List Row)
      → All IsBlock (front ++ (b ∷ []))
      → IsBefore s (seekable_options compressed) (front ++ (b ∷ [])) r left
      → (r1 : Reader) × (seek s r seek_end (pos 0) ≡ ok r1) × (read_row s r1 ≡ err overrun)
  read_row-seek_end front b r left h before =
      let small = (All-back front b [] h).0.1 in
      (
        reading s (seekable_options compressed) (front ++ (b ∷ [])) (at (length front) (length b))
            (block_of b) (some (length front)),
        rw before.is_state (
            seek_end-position front b before.cursor before.block before.read_num small
              before.cached),
        read_row-past front b small,
      )
