-- ===== src/WriteOnce/Builder/State.antt =====
-- The builder's index and file after closed blocks of rows, and what `WriteBlock` adds to them.
use cantera_table.Shared.{
  drop_append, take_append, ℕ, ◌+◌, ◌*◌, ◌^◌, ◌≤◌, ◌≡◌, refl, List, [], ◌∷◌, ◌++◌, Bool, true,
  false, ◌==◌, if◌then◌else◌, length, All, append_assoc, append-nil, length-append, arith,
}
use cantera_table.Shared.Words.{u32}
use cantera_table.Result.{ok}
use cantera_table.WriteOnce.Codec.{Codec, Storage}
use cantera_table.WriteOnce.File.{write_header}
use cantera_table.WriteOnce.Block
use cantera_table.WriteOnce.Block.{marshal_entries}
use cantera_table.WriteOnce.Block.Entries.{
  Bytes, Fits, lengths, joined, firsts, seconds, block_of, lengths-append, joined-append, some_left,
  lengths-Fits, length-firsts, length-seconds,
}
use cantera_table.WriteOnce.Index
use cantera_table.WriteOnce.Index.{Index}
use cantera_table.WriteOnce.Builder.{
  Options, Builder, header, block_buffer, get_write_buffer, write_block,
}
use cantera_table.WriteOnce.Builder.Blocks.{
  Row, weight, IsSmall, last_key, length-le-weight, IsSmall-Fits, last_key-le-weight,
  get_last_key-block_of,
}

front_some : (a b : Bytes) → 1 ≤ length a → 1 ≤ length (a ++ b)
front_some a b h = omega (arith, length-append a b)

module _ (c : Codec (2 ^ 32)) where
  entries_length :
      (es : List Row)
      → All Fits es
      → length (
          marshal_entries c
            (lengths (firsts es))
            (lengths (seconds es))
            (joined (firsts es))
            (joined (seconds es)))
        ≤ weight es
  unfolding marshal_entries
  entries_length [] h = omega arith
  entries_length (e ∷ es) h =
      let tail =
        marshal_entries c (lengths (firsts es)) (lengths (seconds es)) (joined (firsts es))
          (joined (seconds es)) in
      rw
        (
          take_append e.0 (joined (firsts es)),
          take_append e.1 (joined (seconds es)),
          drop_append e.0 (joined (firsts es)),
          drop_append e.1 (joined (seconds es)),
          length-append
              (c.value_encode (length e.0) ++ (c.value_encode (length e.1) ++ (e.0 ++ e.1))) tail,
          length-append (c.value_encode (length e.0)) (c.value_encode (length e.1) ++ (e.0 ++ e.1)),
          length-append (c.value_encode (length e.1)) (e.0 ++ e.1),
          length-append e.0 e.1,
          c.length-value_encode (length e.0),
          c.length-value_encode (length e.1),
        )
        (omega (
          arith,
          entries_length es h.1,
          c.value_space-le (length e.0) h.0.0,
          c.value_space-le (length e.1) h.0.1,
        ))

  length-joined :
      (es : List Row)
      → length (joined (firsts es)) + length (joined (seconds es)) + 20 * length es ≡ weight es
  length-joined [] = refl
  length-joined (e ∷ es) = omega (
    arith,
    length-joined es,
    length-append e.0 (joined (firsts es)),
    length-append e.1 (joined (seconds es)),
  )

  arrays_length :
      (es : List Row)
      → All Fits es
      → length (
          c.encode (lengths (firsts es))
          ++ (c.encode (lengths (seconds es)) ++ (joined (firsts es) ++ joined (seconds es))))
        ≤ weight es
  arrays_length es h =
      let fits = lengths-Fits es h in
      rw
        (
          length-append (c.encode (lengths (firsts es)))
              (c.encode (lengths (seconds es)) ++ (joined (firsts es) ++ joined (seconds es))),
          length-append (c.encode (lengths (seconds es)))
              (joined (firsts es) ++ joined (seconds es)),
          length-append (joined (firsts es)) (joined (seconds es)),
        )
        (omega (
          arith,
          length-joined es,
          c.length-encode-le (lengths (firsts es)) fits.0,
          c.length-encode-le (lengths (seconds es)) fits.1,
          length-firsts es,
          length-seconds es,
        ))

  -- A block takes at most its weight, and at least a byte if it has a row.
  pub length-marshal :
      (es : List Row) (seekable : Bool)
      → All Fits es
      → length (Block.marshal c (block_of es) seekable) ≤ weight es
  unfolding Block.marshal
  length-marshal [] seekable h = omega arith
  length-marshal (e ∷ es) true h =
      rw (some_left (length (lengths (firsts es)))) (entries_length (e ∷ es) h)
  length-marshal (e ∷ es) false h =
      rw (some_left (length (lengths (firsts es)))) (arrays_length (e ∷ es) h)

  pub marshal_some :
      (e : Row) (es : List Row) (seekable : Bool)
      → All Fits (e ∷ es)
      → 1 ≤ length (Block.marshal c (block_of (e ∷ es)) seekable)
  unfolding Block.marshal marshal_entries
  marshal_some e es true h = rw (some_left (length (lengths (firsts es)))) (
      front_some _ _ (
        front_some (c.value_encode (length e.0)) _ (
          omega (arith, c.length-value_encode (length e.0), c.value_space_pos (length e.0) h.0.0))))
  marshal_some e es false h = rw (some_left (length (lengths (firsts es)))) (
      front_some (c.encode (lengths (firsts (e ∷ es)))) _
        (omega (arith, c.le-length-encode (lengths (firsts (e ∷ es))) (lengths-Fits (e ∷ es) h).0)))

abbrev pub entry_counts : List (List Row) → List ℕ
entry_counts [] = []
entry_counts (b ∷ bs) = length b ∷ entry_counts bs

abbrev pub last_keys_of : List (List Row) → List Bytes
last_keys_of [] = []
last_keys_of (b ∷ bs) = last_key b ∷ last_keys_of bs

abbrev pub Some : List Row → Type 0
Some [] = ⊥
Some (e ∷ es) = Unit

-- A block that was closed: it has a row, and is small.
abbrev pub IsBlock : List Row → Type 0
IsBlock b = Some b × IsSmall b

module _ (s : Storage) (o : Options) where
  -- The bytes of a block in the file.
  abbrev pub stored : List Row → Bytes
  stored b = block_buffer s o (Block.marshal s.numbers (block_of b) o.seekable)

  abbrev pub contents : List (List Row) → Bytes
  contents [] = []
  contents (b ∷ bs) = stored b ++ contents bs

  abbrev pub stored_sizes : List (List Row) → List ℕ
  stored_sizes [] = []
  stored_sizes (b ∷ bs) = length (stored b) ∷ stored_sizes bs

  abbrev pub index_of : List (List Row) → Index
  index_of bs = record {
    size = stored_sizes bs;
    num_entries = entry_counts bs;
    key_size = lengths (last_keys_of bs);
    key_data = joined (last_keys_of bs);
  }

  abbrev pub state : List (List Row) → List Row → Builder
  state closed open_rows = record {
    index = index_of closed;
    block = block_of open_rows;
    file = write_header (header s o 0) [] ++ contents closed;
  }

  pub length-stored-le : (b : List Row) → IsSmall b → length (stored b) ≤ 2 * weight b + 1024
  unfolding block_buffer get_write_buffer
  length-stored-le b h = pick o.seekable o.compressed
    where
      pick :
          (x y : Bool)
          → length (
              if x
              then Block.marshal s.numbers (block_of b) o.seekable
              else if y
              then s.compress (Block.marshal s.numbers (block_of b) o.seekable)
              else Block.marshal s.numbers (block_of b) o.seekable)
            ≤ 2 * weight b + 1024
      pick true y = omega (arith, length-marshal s.numbers b o.seekable (IsSmall-Fits b h))
      pick false true = omega (
        arith,
        length-marshal s.numbers b o.seekable (IsSmall-Fits b h),
        s.length-compress-le (Block.marshal s.numbers (block_of b) o.seekable),
      )
      pick false false = omega (arith, length-marshal s.numbers b o.seekable (IsSmall-Fits b h))

  stored_sizes-append :
      (a b : List (List Row)) → stored_sizes (a ++ b) ≡ stored_sizes a ++ stored_sizes b
  stored_sizes-append [] b = refl
  stored_sizes-append (x ∷ a) b = rw (stored_sizes-append a b)

  pub contents-append : (a b : List (List Row)) → contents (a ++ b) ≡ contents a ++ contents b
  contents-append [] b = refl
  contents-append (x ∷ a) b =
      rw (contents-append a b, append_assoc (stored x) (contents a) (contents b))

entry_counts-append :
    (a b : List (List Row)) → entry_counts (a ++ b) ≡ entry_counts a ++ entry_counts b
entry_counts-append [] b = refl
entry_counts-append (x ∷ a) b = rw (entry_counts-append a b)

last_keys_of-append :
    (a b : List (List Row)) → last_keys_of (a ++ b) ≡ last_keys_of a ++ last_keys_of b
last_keys_of-append [] b = refl
last_keys_of-append (x ∷ a) b = rw (last_keys_of-append a b)

module _ (s : Storage) (o : Options) where
  index_add :
      (closed : List (List Row)) (e : Row) (es : List Row)
      → IsSmall (e ∷ es)
      → Index.add (index_of s o closed) (block_of (e ∷ es)) (length (stored s o (e ∷ es)))
        ≡ ok (index_of s o (closed ++ ((e ∷ es) ∷ [])))
  unfolding Index.add
  index_add closed e es h =
      let b : List Row = e ∷ es in
      let k : u32 (length (last_key b)) ≡ length (last_key b) =
        omega (arith, h, last_key-le-weight e es) in
      let z : u32 (length (stored s o b)) ≡ length (stored s o b) =
        omega (arith, h, length-stored-le s o b h) in
      let n : u32 (length (lengths (firsts b))) ≡ length b =
        omega (arith, h, length-firsts b, length-le-weight b) in
      rw (
        get_last_key-block_of e es,
        k,
        z,
        n,
        stored_sizes-append s o closed (b ∷ []),
        entry_counts-append closed (b ∷ []),
        last_keys_of-append closed (b ∷ []),
        lengths-append (last_keys_of closed) (last_key b ∷ []),
        joined-append (last_keys_of closed) (last_key b ∷ []),
        append-nil (last_key b),
      )

  -- WriteBlock closes the open rows, if there are some, and leaves the block to be cleared.
  pub write_block-state :
      (closed : List (List Row)) (e : Row) (es : List Row)
      → IsSmall (e ∷ es)
      → write_block s o (state s o closed (e ∷ es))
        ≡ ok (record (state s o (closed ++ ((e ∷ es) ∷ [])) []) { block = block_of (e ∷ es) })
  unfolding write_block
  write_block-state closed e es h =
      let m : (length (Block.marshal s.numbers (block_of (e ∷ es)) o.seekable) == 0) ≡ false =
        ground (arith, marshal_some s.numbers e es o.seekable (IsSmall-Fits (e ∷ es) h)) in
      rw (
        m,
        index_add closed e es h,
        contents-append s o closed ((e ∷ es) ∷ []),
        append-nil (stored s o (e ∷ es)),
        append_assoc (write_header (header s o 0) []) (contents s o closed) (stored s o (e ∷ es)),
      )

  pub write_block-none :
      (closed : List (List Row)) → write_block s o (state s o closed []) ≡ ok (state s o closed [])
  unfolding write_block Block.marshal
  write_block-none closed = refl
