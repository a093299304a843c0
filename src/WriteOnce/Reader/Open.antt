-- ===== src/WriteOnce/Reader/Open.antt =====
-- Opening a file that the builder of src/table-backend-writeonce.cc made.
use cantera_table.Shared.{
  drop_append, take_append, ℕ, suc, ◌+◌, ◌-◌, ◌*◌, ◌^◌, ◌≤◌, ◌<◌, ◌≡◌, ◌∙◌, refl, sym, ap, List, [],
  ◌∷◌, ◌++◌, Bool, true, false, none, ltb, if◌then◌else◌, length, All, append_assoc, append-nil,
  length-append, arith,
}
use cantera_table.Shared.Words.{u64}
use cantera_table.Result.{ok, ◌>>=◌}
use cantera_table.WriteOnce.Codec.{Storage}
use cantera_table.WriteOnce.File.{Header, header_bytes, read_file, to_bytes}
use cantera_table.WriteOnce.File.RoundTrip.{IsHeader, read_header-header_bytes}
use cantera_table.WriteOnce.Block.{empty_block, total}
use cantera_table.WriteOnce.Block.Entries.{Bytes, lengths, joined, total-lengths}
use cantera_table.WriteOnce.Index
use cantera_table.WriteOnce.Index.{Index, get_index_offset}
use cantera_table.WriteOnce.Index.RoundTrip.{IsIndex, unmarshal-marshal_index, length-marshal-le}
use cantera_table.WriteOnce.Builder.{Options, header, get_write_buffer}
use cantera_table.WriteOnce.Builder.Blocks.{
  Row, weight, IsSmall, last_key, weight-append, length-le-weight, last_key-le-weight,
}
use cantera_table.WriteOnce.Builder.State.{
  IsBlock, entry_counts, last_keys_of, stored, contents, stored_sizes, index_of, length-stored-le,
}
use cantera_table.WriteOnce.Builder.Rows.{concat}
use cantera_table.WriteOnce.Builder.Table.{file_of, length-last_keys}
use cantera_table.WriteOnce.Reader.{Reader, opened, read, open_reader, open_version, open_table}

pub read_file-append :
    (a b rest : Bytes) → read_file (a ++ (b ++ rest)) (length a) (length b) ≡ ok b
unfolding read_file
read_file-append a b rest =
    let enough : ltb (length b) (length b) ≡ false = ground arith in
    rw (drop_append a (b ++ rest), take_append b rest, enough)

-- The length of a file without that of its front, in 64 bits.
behind_length :
    (front n : ℕ) → front < 2 ^ 63 → n < 2 ^ 63 → u64 ((front + n) + (2 ^ 64 - front)) ≡ n
behind_length front n h k = omega (arith, h, k)

last_keys_fit :
    (bs : List (List Row)) → All IsBlock bs → All (λ n. n < 2 ^ 32) (lengths (last_keys_of bs))
last_keys_fit [] h = tt
last_keys_fit ([] ∷ bs) h = elim h.0.0 [ ]
last_keys_fit ((e ∷ es) ∷ bs) h =
    (omega (arith, h.0.1, last_key-le-weight e es), last_keys_fit bs h.1)

counts_fit : (bs : List (List Row)) → All IsBlock bs → All (λ n. n < 2 ^ 32) (entry_counts bs)
counts_fit [] h = tt
counts_fit (b ∷ bs) h = (omega (arith, h.0.1, length-le-weight b), counts_fit bs h.1)

length-entry_counts : (bs : List (List Row)) → length (entry_counts bs) ≡ length bs
length-entry_counts [] = refl
length-entry_counts (b ∷ bs) = ap suc (length-entry_counts bs)

keys-le-weight :
    (bs : List (List Row)) → All IsBlock bs → length (joined (last_keys_of bs)) ≤ weight (concat bs)
keys-le-weight [] h = omega arith
keys-le-weight ([] ∷ bs) h = elim h.0.0 [ ]
keys-le-weight ((e ∷ es) ∷ bs) h = omega (
  arith,
  keys-le-weight bs h.1,
  last_key-le-weight e es,
  weight-append (e ∷ es) (concat bs),
  length-append (last_key (e ∷ es)) (joined (last_keys_of bs)),
)

pub IsBlock-le-weight : (bs : List (List Row)) → All IsBlock bs → length bs ≤ weight (concat bs)
IsBlock-le-weight [] h = omega arith
IsBlock-le-weight ([] ∷ bs) h = elim h.0.0 [ ]
IsBlock-le-weight ((e ∷ es) ∷ bs) h =
    omega (arith, IsBlock-le-weight bs h.1, weight-append (e ∷ es) (concat bs))

module _ (s : Storage) (o : Options) where
  length-stored_sizes : (bs : List (List Row)) → length (stored_sizes s o bs) ≡ length bs
  length-stored_sizes [] = refl
  length-stored_sizes (b ∷ bs) = ap suc (length-stored_sizes bs)

  sizes_fit : (bs : List (List Row)) → All IsBlock bs → All (λ n. n < 2 ^ 64) (stored_sizes s o bs)
  sizes_fit [] h = tt
  sizes_fit (b ∷ bs) h = (omega (arith, h.0.1, length-stored-le s o b h.0.1), sizes_fit bs h.1)

  pub total-stored_sizes :
      (bs : List (List Row)) → total (stored_sizes s o bs) ≡ length (contents s o bs)
  total-stored_sizes [] = refl
  total-stored_sizes (b ∷ bs) =
      omega (arith, total-stored_sizes bs, length-append (stored s o b) (contents s o bs))

  contents-le :
      (bs : List (List Row))
      → All IsBlock bs
      → length (contents s o bs) ≤ 2 * weight (concat bs) + 1024 * length bs
  contents-le [] h = omega arith
  contents-le (b ∷ bs) h = omega (
    arith,
    contents-le bs h.1,
    length-stored-le s o b h.0.1,
    weight-append b (concat bs),
    length-append (stored s o b) (contents s o bs),
  )

  index_of-IsIndex :
      (b : List Row) (bs : List (List Row))
      → All IsBlock (b ∷ bs)
      → length (b ∷ bs) < 2 ^ 30
      → IsIndex (index_of s o (b ∷ bs))
  index_of-IsIndex b bs h few = record {
    sizes = length-stored_sizes (b ∷ bs) ∙ sym (length-last_keys (b ∷ bs));
    counts = length-entry_counts (b ∷ bs) ∙ sym (length-last_keys (b ∷ bs));
    size_fits = sizes_fit (b ∷ bs) h;
    count_fits = counts_fit (b ∷ bs) h;
    key_fits = last_keys_fit (b ∷ bs) h;
    keys = total-lengths (last_keys_of (b ∷ bs));
    some_block = omega arith;
    few = omega (arith, few, length-last_keys (b ∷ bs));
  }

  -- The index in the file.
  abbrev pub index_bytes : List (List Row) → Bytes
  index_bytes bs = get_write_buffer s o (Index.marshal s (index_of s o bs))

  index_bytes-le :
      (b : List Row) (bs : List (List Row))
      → All IsBlock (b ∷ bs)
      → length (b ∷ bs) < 2 ^ 30
      → IsSmall (concat (b ∷ bs))
      → length (index_bytes (b ∷ bs)) < 2 ^ 40
  unfolding get_write_buffer
  index_bytes-le b bs h few small =
      let i = index_of s o (b ∷ bs) in
      let bound : length (Index.marshal s i) < 2 ^ 38 = omega (
        arith,
        length-marshal-le s i (index_of-IsIndex b bs h few),
        length-last_keys (b ∷ bs),
        keys-le-weight (b ∷ bs) h,
      ) in
      pick o.compressed bound
    where
      pick :
          (c : Bool)
          → length (Index.marshal s (index_of s o (b ∷ bs))) < 2 ^ 38
          → length (
              if c
              then s.compress (Index.marshal s (index_of s o (b ∷ bs)))
              else Index.marshal s (index_of s o (b ∷ bs)))
            < 2 ^ 40
      pick true bound =
          omega (arith, bound, s.length-compress-le (Index.marshal s (index_of s o (b ∷ bs))))
      pick false bound = omega (arith, bound)

  read-get_write_buffer :
      (file marshalled : Bytes) (offset size : ℕ) (c : Bool)
      → read_file file offset size ≡ ok (if c then s.compress marshalled else marshalled)
      → read s file offset size c ≡ ok marshalled
  unfolding read
  read-get_write_buffer file marshalled offset size true h =
      rw (h, s.decompress-compress marshalled)
  read-get_write_buffer file marshalled offset size false h = rw h

  -- The reader of the file, before it has read a block.
  abbrev pub fresh : List (List Row) → Reader
  fresh bs = record {
    options = o;
    file = file_of s o bs;
    index_offset = get_index_offset (index_of s o bs);
    index = index_of s o bs;
    cursor = record { block_num = none; entry_num = 2 ^ 32 - 1 };
    block = empty_block;
    block_read_num = none;
  }

  header_length : (h : Header) → length (header_bytes h) ≡ 24
  unfolding header_bytes to_bytes
  header_length h = refl

  pub length-front :
      (bs : List (List Row)) (n : ℕ)
      → length (header_bytes (header s o n) ++ contents s o bs) ≡ get_index_offset (index_of s o bs)
  unfolding get_index_offset
  length-front bs n = omega (
    arith,
    length-append (header_bytes (header s o n)) (contents s o bs),
    header_length (header s o n),
    total-stored_sizes bs,
  )

  front_fits :
      (bs : List (List Row))
      → All IsBlock bs
      → length bs < 2 ^ 30
      → IsSmall (concat bs)
      → get_index_offset (index_of s o bs) < 2 ^ 63
  unfolding get_index_offset
  front_fits bs h few small = omega (arith, contents-le bs h, total-stored_sizes bs)

  file_length :
      (bs : List (List Row))
      → length (file_of s o bs) ≡ get_index_offset (index_of s o bs) + length (index_bytes bs)
  file_length bs =
      let offset = get_index_offset (index_of s o bs) in
      omega (
        arith,
        length-front bs offset,
        length-append (header_bytes (header s o offset)) (contents s o bs),
        length-append (header_bytes (header s o offset)) (contents s o bs ++ index_bytes bs),
        length-append (contents s o bs) (index_bytes bs),
      )

  pub open_reader-file_of :
      (b : List Row) (bs : List (List Row))
      → All IsBlock (b ∷ bs)
      → length (b ∷ bs) < 2 ^ 30
      → IsSmall (concat (b ∷ bs))
      → open_reader s (file_of s o (b ∷ bs)) (get_index_offset (index_of s o (b ∷ bs))) o
        ≡ ok (fresh (b ∷ bs))
  unfolding open_reader get_write_buffer
  open_reader-file_of b bs h few small =
      let offset = get_index_offset (index_of s o (b ∷ bs)) in
      let front = header_bytes (header s o offset) ++ contents s o (b ∷ bs) in
      let bytes = index_bytes (b ∷ bs) in
      let i = index_of s o (b ∷ bs) in
      let whole : file_of s o (b ∷ bs) ≡ front ++ (bytes ++ []) = sym (
        rw (append-nil bytes)
          (append_assoc (header_bytes (header s o offset)) (contents s o (b ∷ bs)) bytes)) in
      let found : read_file (file_of s o (b ∷ bs)) offset (length bytes) ≡ ok bytes =
        rw whole (rw (length-front (b ∷ bs) offset) at (read_file-append front bytes [])) in
      let size : u64 (length (file_of s o (b ∷ bs)) + (2 ^ 64 - offset)) ≡ length bytes =
        rw (file_length (b ∷ bs)) (
          behind_length offset (length bytes) (front_fits (b ∷ bs) h few small)
            (omega (arith, index_bytes-le b bs h few small))) in
      rw (
        size,
        read-get_write_buffer (file_of s o (b ∷ bs)) (Index.marshal s i) offset (length bytes)
            o.compressed found,
        unmarshal-marshal_index s i (index_of-IsIndex b bs h few),
      )

  header-IsHeader : (n : ℕ) → n < 2 ^ 63 → IsHeader (header s o n)
  header-IsHeader n h = record {
    magic = omega arith;
    major = omega arith;
    minor = omega arith;
    flags = small_flag o.seekable;
    compression = small_flag o.compressed;
    reserved = omega arith;
    offset = omega (arith, h);
  }
    where
      small_flag : (c : Bool) → (if c then 1 else 0) < 256
      small_flag true = omega arith
      small_flag false = omega arith

  version_4 :
      (file : Bytes) (n : ℕ) (c k : Bool)
      → open_version s file (header s (record { compressed = c; seekable = k }) n) false
        ≡ (do r ← open_reader s file n (record { compressed = c; seekable = k }); ok (opened r))
  unfolding open_version
  version_4 file n true true = refl
  version_4 file n true false = refl
  version_4 file n false true = refl
  version_4 file n false false = refl

  -- The file of the blocks is opened at its first row.
  pub open_table-file_of :
      (b : List Row) (bs : List (List Row))
      → All IsBlock (b ∷ bs)
      → IsSmall (concat (b ∷ bs))
      → open_table s (file_of s o (b ∷ bs)) false ≡ ok (opened (fresh (b ∷ bs)))
  unfolding open_table
  open_table-file_of b bs h small =
      let offset = get_index_offset (index_of s o (b ∷ bs)) in
      let few : length (b ∷ bs) < 2 ^ 30 = omega (arith, small, IsBlock-le-weight (b ∷ bs) h) in
      let valid = header-IsHeader offset (front_fits (b ∷ bs) h few small) in
      rw (
        read_header-header_bytes (header s o offset) (contents s o (b ∷ bs) ++ index_bytes (b ∷ bs))
            valid,
        version_4 (file_of s o (b ∷ bs)) offset o.compressed o.seekable,
        open_reader-file_of b bs h few small,
      )
