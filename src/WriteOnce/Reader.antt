-- ===== src/WriteOnce/Reader.antt =====
-- `WriteOnceReader_v4` and the opening of a table in src/table-backend-writeonce.cc. The caches are the
-- functions that they keep the values of; the block that was read last stays in the reader.
pub mod Open
pub mod Blocks
pub mod Rows
pub mod Table
pub mod Keys
pub mod Offsets
pub mod Seek
pub mod End
use Prim.Native.Nat.{bit_and}
use cantera_table.Shared.{
  ℕ, zero, suc, ◌+◌, ◌-◌, ◌^◌, ◌%◌, List, [], ◌∷◌, Bool, true, false, not, ◌&&◌, ◌||◌, Option, none,
  some, ltb, leb, ◌==◌, if◌then◌else◌, length,
}
use cantera_table.Shared.Int.{ℤ, pos, negsuc}
use cantera_table.Shared.Strings.{string_eq}
use cantera_table.Shared.Words.{u64}
use cantera_table.Result.{Result, ok, err, require, guard, ◌>>=◌, ◌>>◌}
use cantera_table.WriteOnce.Codec.{Storage}
use cantera_table.WriteOnce.File.{read_file, header_size, Header, read_header}
use cantera_table.WriteOnce.Block
use cantera_table.WriteOnce.Block.{
  Block, empty_block, keys, values, get_entry_offset, get_entry_number,
}
use cantera_table.WriteOnce.Index
use cantera_table.WriteOnce.Index.{
  Index, element, num_blocks, get_block_offset, find_block_by_key, lower_bound,
}
use cantera_table.WriteOnce.Builder.{Options, magic, flag_seekable, zstd}
use cantera_table.WriteOnce.Cursor.{Cursor, seek_to_first}

pub record Reader : Type 0 where
  pub options : Options
  pub file : List ℕ
  pub index_offset : ℕ
  pub index : Index
  pub cursor : Cursor
  pub block : Block
  pub block_read_num : Option ℕ

-- IsSorted of WriteOnceReader_v4
unfoldable pub is_sorted : Reader → Bool
is_sorted r = true

-- What the constructor of WriteOnceTable opens: WriteOnceReader_v3 is for files of the older versions.
pub data Opened : Type 0 where
  older_version : Opened
  opened : Reader → Opened

pub data Whence : Type 0 where
  seek_set seek_cur seek_end : Whence

abbrev is_block : Option ℕ → ℕ → Bool
is_block none n = false
is_block (some m) n = m == n

-- The position, where block_num_ == UINT64_MAX is the first entry.
abbrev pub place : Cursor → ℕ × ℕ
place c = elim c.block_num [ none ↦ (0, 0) | some b ↦ (b, c.entry_num) ]

abbrev pub at : ℕ → ℕ → Cursor
at b e = record { block_num = some b; entry_num = e }

module _ (s : Storage) where
  -- Read
  unfoldable pub read : List ℕ → ℕ → ℕ → Bool → Result (List ℕ)
  read file offset size compressed = do
    bytes ← read_file file offset size
    if compressed then s.decompress bytes else ok bytes

  -- The constructor, with ReadIndex.
  unfoldable pub open_reader : List ℕ → ℕ → Options → Result Reader
  open_reader file index_offset options = do
    let size = u64 (length file + (2 ^ 64 - index_offset))
    buffer ← read file index_offset size options.compressed
    index ← Index.unmarshal s buffer
    ok record {
      options = options;
      file = file;
      index_offset = index_offset;
      index = index;
      cursor = record { block_num = none; entry_num = 2 ^ 32 - 1 };
      block = empty_block;
      block_read_num = none;
    }

  -- The cases behind the check of the header's magic number.
  unfoldable pub open_version : List ℕ → Header → Bool → Result Opened
  open_version file h seekable =
      let seekable_format = not (bit_and h.flags flag_seekable == 0) in
      if leb h.major_version 3
      then (do guard (h.compression == 0) require; ok older_version)
      else (do
        guard (leb h.compression zstd) require
        guard (bit_and h.flags 2 == 0) require
        guard (not (seekable && not seekable_format)) require
        r ←
            open_reader file h.index_offset
              (record { compressed = not (h.compression == 0); seekable = seekable_format })
        ok (opened r))

  -- WriteOnceTable(path, seekable)
  unfoldable pub open_table : List ℕ → Bool → Result Opened
  open_table file seekable = do
    h ← read_header file
    guard (h.magic == magic) require
    guard (leb h.major_version 4 || leb 2 h.major_version) require
    open_version file h seekable

  -- ReadBlock
  unfoldable pub read_block : Reader → ℕ → Result Reader
  read_block r num = do
    guard (ltb num (num_blocks r.index)) require
    size ← element r.index.size num
    entries ← element r.index.num_entries num
    bytes ←
        read r.file (get_block_offset r.index num) size
          (r.options.compressed && not r.options.seekable)
    block ← Block.unmarshal s.numbers bytes entries r.options.seekable
    ok (record r { block = block; block_read_num = some num })

  -- if (num != block_read_num_) ReadBlock(num);
  unfoldable pub load_block : Reader → ℕ → Result Reader
  load_block r num = if is_block r.block_read_num num then ok r else read_block r num

  -- ReadRow at an entry of a block.
  unfoldable pub read_entry : Reader → ℕ → ℕ → Result (Reader × Option (List ℕ × List ℕ))
  read_entry r b e = do
    r' ← load_block r b
    key ← element (keys r'.block) e
    value ← element (values r'.block) e
    let last = leb (length r'.block.key_size) (e + 1)
    ok (record r' { cursor = if last then at (b + 1) 0 else at b (e + 1) }, some (key, value))

  unfoldable pub read_row : Reader → Result (Reader × Option (List ℕ × List ℕ))
  read_row r =
      let p = place r.cursor in
      if leb (num_blocks r.index) p.0
      then ok (record r { cursor = at p.0 p.1 }, none)
      else read_entry r p.0 p.1

  -- SeekToKey in a block that has the key, if any has.
  unfoldable pub seek_in_block : Reader → ℕ → List ℕ → Result (Reader × Bool)
  seek_in_block r b key = do
    r' ← load_block r b
    let e = lower_bound (keys r'.block) key
    found ← element (keys r'.block) e
    ok (record r' { cursor = at b e }, string_eq found key)

  unfoldable pub seek_to_key : Reader → List ℕ → Result (Reader × Bool)
  seek_to_key r key =
      let b = find_block_by_key r.index key in
      if leb (num_blocks r.index) b
      then ok (record r { cursor = at (num_blocks r.index) 0 }, false)
      else seek_in_block r b key

  -- Offset at an entry of a block.
  unfoldable pub entry_offset : Reader → ℕ → ℕ → Result (Reader × ℕ)
  entry_offset r b e = do
    r' ← load_block r b
    o ← get_entry_offset s.numbers r'.block e
    ok (record r' { cursor = at b e }, get_block_offset r'.index b + o - header_size)

  unfoldable pub offset : Reader → Result (Reader × ℕ)
  offset r =
      let p = place r.cursor in
      guard r.options.seekable require
      >> (if leb (num_blocks r.index) p.0
          then ok (record r { cursor = at p.0 p.1 }, r.index_offset - header_size)
          else entry_offset r p.0 p.1)

  -- while ((block_num_ + 1) < num_blocks() && GetBlockOffset(block_num_ + 1) <= offset) ++block_num_;
  -- with `left` blocks behind block_num_.
  unfoldable pub seek_block : Index → ℕ → ℕ → ℕ → ℕ
  seek_block index target zero b = b
  seek_block index target (suc left) b =
      let later = seek_block index target left (b + 1) in
      if leb (get_block_offset index (b + 1)) target then later else b

  -- Seek behind the switch: `target` counts from the start of the file.
  unfoldable pub seek_target : Reader → ℕ → Result Reader
  seek_target r target = do
    guard (leb header_size target) require
    guard (leb target r.index_offset) require
    let b = seek_block r.index target (num_blocks r.index - 1) 0
    r' ← load_block r b
    e ← get_entry_number s.numbers r'.block (target - get_block_offset r'.index b)
    ok (record r' { cursor = at b e })

  -- Seek. A negative target is compared as an unsigned number, and is past the end.
  unfoldable pub seek : Reader → Whence → ℤ → Result Reader
  seek r seek_set (pos n) = guard r.options.seekable require >> seek_target r (n + header_size)
  seek r seek_set (negsuc n) = err require
  seek r seek_cur (pos n) = do o ← offset r; seek_target o.0 (n + o.1)
  seek r seek_cur (negsuc n) = do
    o ← offset r
    if ltb o.1 (suc n) then err require else seek_target o.0 (o.1 - suc n)
  seek r seek_end (pos zero) = guard r.options.seekable require >> seek_target r r.index_offset
  seek r seek_end (pos (suc n)) = err require
  seek r seek_end (negsuc n) =
      guard r.options.seekable require >> seek_target r (r.index_offset + suc n)

  -- ReadRow again and again, at most `n` times, until it finds no row.
  unfoldable pub read_rows : ℕ → Reader → Result (List (List ℕ × List ℕ))
  read_rows zero r = ok []
  read_rows (suc n) r = do
    p ← read_row r
    elim p.1 [ none ↦ ok [] | some row ↦ (do later ← read_rows n p.0; ok (row ∷ later)) ]
