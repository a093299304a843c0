-- ===== src/WriteOnce/Builder.antt =====
-- `WriteOnceBuilder` of src/table-backend-writeonce.cc. The builder writes its file in order, so that
-- each write but the header's appends.
pub mod Blocks
pub mod State
pub mod Rows
pub mod Table
pub mod Unsorted
use cantera_table.Shared.{
  ℕ, zero, suc, ◌+◌, ◌-◌, ◌*◌, ◌^◌, List, [], ◌∷◌, ◌++◌, Bool, true, false, not, Option, none, some,
  ◌||◌, ◌&&◌, ltb, ◌==◌, if◌then◌else◌, length,
}
use cantera_table.Shared.Strings.{string_lt}
use cantera_table.Result.{Result, ok, err, require, guard, ◌>>=◌, ◌>>◌}
use cantera_table.WriteOnce.Codec.{Storage}
use cantera_table.WriteOnce.File.{Header, write_header}
use cantera_table.WriteOnce.Block
use cantera_table.WriteOnce.Block.{Block, empty_block, get_last_key, estimate_size}
use cantera_table.WriteOnce.Index
use cantera_table.WriteOnce.Index.{Index, empty_index, get_index_offset}

abbrev pub block_size_max : ℕ
block_size_max = 32 * 1024

abbrev pub entry_size_limit : ℕ
entry_size_limit = block_size_max - 4

abbrev pub block_size_min : ℕ
block_size_min = 12 * 1024

-- compression_ is one of none and zstd; seekable is GetOutputSeekable().
pub record Options : Type 0 where
  pub compressed : Bool
  pub seekable : Bool

pub record Builder : Type 0 where
  pub index : Index
  pub block : Block
  pub file : List ℕ

abbrev pub magic : ℕ
magic = 0x6c62_6174_2e69_2e70

abbrev pub zstd : ℕ
zstd = 1

abbrev pub flag_seekable : ℕ
flag_seekable = 0x01

module _ (s : Storage) (options : Options) where
  -- WriteHeader: kTableCompressionNone is 0 and kTableCompressionZSTD is 1.
  abbrev pub header : ℕ → Header
  header index_offset = record {
    magic = magic;
    major_version = 4;
    minor_version = 0;
    flags = if options.seekable then flag_seekable else 0;
    compression = if options.compressed then zstd else 0;
    data_reserved = 0;
    index_offset = index_offset;
  }

  -- CreateFile: a header with index_offset 0.
  unfoldable pub create : Builder
  create = record { index = empty_index; block = empty_block; file = write_header (header 0) [] }

  -- GetWriteBuffer
  unfoldable pub get_write_buffer : List ℕ → List ℕ
  get_write_buffer marshalled = if options.compressed then s.compress marshalled else marshalled

  -- What WriteBlock writes for a marshalled block.
  unfoldable pub block_buffer : List ℕ → List ℕ
  block_buffer marshalled = if options.seekable then marshalled else get_write_buffer marshalled

  unfoldable pub write_block : Builder → Result Builder
  write_block w =
      let marshalled = Block.marshal s.numbers w.block options.seekable in
      let buffer = block_buffer marshalled in
      let written = Index.add w.index w.block (length buffer) >>= λ index.
      ok (record w { index = index; file = w.file ++ buffer }) in
      if length marshalled == 0 then ok w else written

  -- KJ_REQUIRE(block_.empty() || block_.GetLaskKey() <= key, "unsorted input data");
  unfoldable pub check_order : Block → List ℕ → Result (Unit {0})
  check_order block key =
      if length block.key_size == 0
      then ok tt
      else (do last_key ← get_last_key block; guard (not (string_lt key last_key)) require)

  -- Whether the block is closed before an entry of `size` bytes.
  unfoldable pub is_full : ℕ → ℕ → Bool
  is_full block_size size =
      ltb block_size_max block_size || (ltb block_size_min block_size && ltb entry_size_limit size)

  unfoldable pub add : Builder → List ℕ → List ℕ → Result Builder
  add w key value =
      check_order w.block key
      >> (let full = is_full (estimate_size s.numbers w.block) (length key + length value) in
          let closed = write_block w >>= λ w'. ok (record w' { block = empty_block }) in
          (if full then closed else ok w) >>= λ w'.
          ok (record w' { block = Block.add w'.block key value }))

  -- WriteIndex: the file that is committed. With no block there is none.
  unfoldable pub write_index : Builder → Option (List ℕ)
  write_index w =
      let marshalled = Index.marshal s w.index in
      if length marshalled == 0
      then none
      else some
          (write_header (header (get_index_offset w.index)) (w.file ++ get_write_buffer marshalled))

  -- Build
  unfoldable pub build : Builder → Result (Option (List ℕ))
  build w = do w' ← write_block w; ok (write_index w')

  -- What WriteIndex returns.
  unfoldable pub written_offset : Builder → ℕ
  written_offset w = if length (Index.marshal s w.index) == 0 then 0 else get_index_offset w.index

  -- Build, with the offset that it returns.
  unfoldable pub build_at : Builder → Result (Option (List ℕ) × ℕ)
  build_at w = do w' ← write_block w; ok (write_index w', written_offset w')

  -- Add for each row, and then Build.
  unfoldable pub add_rows : Builder → List (List ℕ × List ℕ) → Result Builder
  add_rows w [] = ok w
  add_rows w (row ∷ rows) = do w' ← add w row.0 row.1; add_rows w' rows

  unfoldable pub write_table : List (List ℕ × List ℕ) → Result (Option (List ℕ))
  write_table rows = do w ← add_rows create rows; build w
