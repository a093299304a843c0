-- ===== src/WriteOnce/Reader/Blocks.antt =====
-- Reading a block of a file that the builder of src/table-backend-writeonce.cc made, and keeping it.
use cantera_table.Shared.{
  ℕ, ◌≡◌, ◌∙◌, refl, sym, ap, List, [], ◌∷◌, ◌++◌, Bool, true, false, not, ◌&&◌, Option, none, some,
  ltb, ◌==◌, if◌then◌else◌, length, take, append_assoc, length-append, Bool-cases, inl, inr, arith,
}
use cantera_table.Result.{ok, ok-injective}
use cantera_table.WriteOnce.Codec.{Storage}
use cantera_table.WriteOnce.File.{read_file, header_bytes}
use cantera_table.WriteOnce.Block
use cantera_table.WriteOnce.Block.{Block, total, keys, values}
use cantera_table.WriteOnce.Block.Entries.{
  Bytes, lengths, firsts, seconds, block_of, views-joined, block_back,
}
use cantera_table.WriteOnce.Index.{element, get_index_offset, get_block_offset}
use cantera_table.WriteOnce.Builder.{Options, header, block_buffer, get_write_buffer}
use cantera_table.WriteOnce.Builder.Blocks.{Row, IsSmall, IsSmall-Fits}
use cantera_table.WriteOnce.Builder.State.{
  last_keys_of, entry_counts, stored, contents, contents-append, stored_sizes, index_of,
}
use cantera_table.WriteOnce.Builder.Table.{file_of, length-last_keys}
use cantera_table.WriteOnce.Cursor.{Cursor}
use cantera_table.WriteOnce.Reader.{Reader, read, read_block, load_block}
use cantera_table.WriteOnce.Reader.Open.{read_file-append, fresh, index_bytes, length-front}

module _ {ℓ} {A : Type ℓ} where
  pub element-append : (a : List A) (x : A) (c : List A) → element (a ++ (x ∷ c)) (length a) ≡ ok x
  unfolding element
  element-append [] x c = refl
  element-append (y ∷ a) x c = element-append a x c

entry_count :
    (front : List (List Row)) (b : List Row) (back : List (List Row))
    → element (entry_counts (front ++ (b ∷ back))) (length front) ≡ ok (length b)
unfolding element
entry_count [] b back = refl
entry_count (x ∷ front) b back = entry_count front b back

module _ (s : Storage) (o : Options) where
  stored_size :
      (front : List (List Row)) (b : List Row) (back : List (List Row))
      → element (stored_sizes s o (front ++ (b ∷ back))) (length front) ≡ ok (length (stored s o b))
  unfolding element
  stored_size [] b back = refl
  stored_size (x ∷ front) b back = stored_size front b back

  pub front_sizes :
      (front back : List (List Row))
      → take (length front) (stored_sizes s o (front ++ back)) ≡ stored_sizes s o front
  front_sizes [] back = refl
  front_sizes (x ∷ front) back = ap (λ t. length (stored s o x) ∷ t) (front_sizes front back)

  block_offset :
      (front back : List (List Row)) (n : ℕ)
      → get_block_offset (index_of s o (front ++ back)) (length front)
        ≡ length (header_bytes (header s o n) ++ contents s o front)
  unfolding get_block_offset get_index_offset
  block_offset front back n = rw (front_sizes front back) (sym (length-front s o front n))

  -- The bytes of a block stand at its offset.
  block_bytes :
      (front : List (List Row)) (b : List Row) (back : List (List Row))
      → read_file
          (file_of s o (front ++ (b ∷ back)))
          (get_block_offset (index_of s o (front ++ (b ∷ back))) (length front))
          (length (stored s o b))
        ≡ ok (stored s o b)
  block_bytes front b back =
      let bs = front ++ (b ∷ back) in
      let h = header_bytes (header s o (get_index_offset (index_of s o bs))) in
      let behind = contents s o back ++ index_bytes s o bs in
      let split : file_of s o bs ≡ (h ++ contents s o front) ++ (stored s o b ++ behind) = rw (
        contents-append s o front (b ∷ back),
        append_assoc h (contents s o front) (stored s o b ++ behind),
        append_assoc (contents s o front) (stored s o b ++ contents s o back) (index_bytes s o bs),
        append_assoc (stored s o b) (contents s o back) (index_bytes s o bs),
      ) in
      rw (block_offset front (b ∷ back) (get_index_offset (index_of s o bs)), split)
        (read_file-append (h ++ contents s o front) (stored s o b) behind)

  read-stored :
      (file : Bytes) (offset size : ℕ) (b : List Row)
      → read_file file offset size ≡ ok (stored s o b)
      → read s file offset size (o.compressed && not o.seekable)
        ≡ ok (Block.marshal s.numbers (block_of b) o.seekable)
  unfolding read block_buffer get_write_buffer
  read-stored file offset size b h =
      pick o.compressed o.seekable (Block.marshal s.numbers (block_of b) o.seekable) h
    where
      pick :
          (c k : Bool) (bytes : Bytes)
          → read_file file offset size
            ≡ ok (if k then bytes else if c then s.compress bytes else bytes)
          → read s file offset size (c && not k) ≡ ok bytes
      pick true true bytes e = rw e
      pick true false bytes e = rw (e, s.decompress-compress bytes)
      pick false true bytes e = rw e
      pick false false bytes e = rw e

  -- The reader of a file, at a position and with a block in memory.
  abbrev pub reading : List (List Row) → Cursor → Block → Option ℕ → Reader
  reading bs cursor block read_num = record (fresh s o bs) {
    cursor = cursor;
    block = block;
    block_read_num = read_num;
  }

  -- A block in memory is the block of its number.
  abbrev pub IsCached : List (List Row) → Block → Option ℕ → Type 0
  IsCached bs block none = Unit
  IsCached bs block (some n) = (b : List Row) × (element bs n ≡ ok b) × (block ≡ block_of b)

  read_block-reading :
      (front : List (List Row)) (b : List Row) (back : List (List Row)) (c : Cursor) (block : Block)
      (m : Option ℕ)
      → IsSmall b
      → read_block s (reading (front ++ (b ∷ back)) c block m) (length front)
        ≡ ok (reading (front ++ (b ∷ back)) c (block_of b) (some (length front)))
  unfolding read_block
  read_block-reading front b back c block m small =
      let bs = front ++ (b ∷ back) in
      let there : ltb (length front) (length (lengths (last_keys_of bs))) ≡ true =
        ground (arith, length-append front (b ∷ back), length-last_keys bs) in
      rw (
        there,
        stored_size front b back,
        entry_count front b back,
        read-stored (file_of s o bs) (get_block_offset (index_of s o bs) (length front))
            (length (stored s o b)) b (block_bytes front b back),
        block_back s.numbers b o.seekable (IsSmall-Fits b small),
      )

  -- The block of a number is in memory after it was asked for.
  pub load_block-reading :
      (front : List (List Row)) (b : List Row) (back : List (List Row)) (c : Cursor) (block : Block)
      (m : Option ℕ)
      → IsSmall b
      → IsCached (front ++ (b ∷ back)) block m
      → load_block s (reading (front ++ (b ∷ back)) c block m) (length front)
        ≡ ok (reading (front ++ (b ∷ back)) c (block_of b) (some (length front)))
  unfolding load_block
  load_block-reading front b back c block none small kept =
      read_block-reading front b back c block none small
  load_block-reading front b back c block (some n) small kept =
      elim (Bool-cases (n == length front)) [
        | inl t ↦
            let same : n ≡ length front = ground (arith, t) in
            let found : element (front ++ (b ∷ back)) (length front) ≡ ok kept.0 =
              rw same at kept.1 in
            let is_b : kept.0 ≡ b =
              ok-injective kept.0 b (sym found ∙ element-append front b back) in
            rw (t, same, kept.2, is_b)
        | inr f ↦ rw f (read_block-reading front b back c block (some n) small)
      ]

  pub IsCached-loaded :
      (front : List (List Row)) (b : List Row) (back : List (List Row))
      → IsCached (front ++ (b ∷ back)) (block_of b) (some (length front))
  IsCached-loaded front b back = (b, element-append front b back, refl)

pub keys-block_of : (b : List Row) → keys (block_of b) ≡ firsts b
unfolding keys
keys-block_of b = views-joined (firsts b)

pub values-block_of : (b : List Row) → values (block_of b) ≡ seconds b
unfolding values
values-block_of b = views-joined (seconds b)
