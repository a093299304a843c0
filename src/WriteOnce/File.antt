-- ===== src/WriteOnce/File.antt =====
-- The file of a write-once table: `FileIO` and `CA_wo_header` of src/table-backend-writeonce.cc. A file is
-- the list of its bytes; numbers in the header are little-endian.
pub mod RoundTrip
use cantera_table.Shared.{
  ℕ, zero, suc, ◌+◌, ◌-◌, ◌*◌, ◌/◌, ◌%◌, List, [], ◌∷◌, ◌++◌, ltb, if◌then◌else◌, length, take,
  drop,
}
use cantera_table.Result.{Result, ok, err, require, ◌>>=◌}

-- pread of `size` bytes at `offset`; fewer are a failure.
unfoldable pub read_file : List ℕ → ℕ → ℕ → Result (List ℕ)
read_file file offset size =
    let bytes = take size (drop offset file) in
    if ltb (length bytes) size then err require else ok bytes

-- The `k` bytes of a number in memory, and the number.
unfoldable pub to_bytes : ℕ → ℕ → List ℕ
to_bytes zero v = []
to_bytes (suc k) v = v % 256 ∷ to_bytes k (v / 256)

unfoldable pub of_bytes : List ℕ → ℕ
of_bytes [] = 0
of_bytes (b ∷ bs) = b + 256 * of_bytes bs

-- struct CA_wo_header
pub record Header : Type 0 where
  pub magic : ℕ
  pub major_version : ℕ
  pub minor_version : ℕ
  pub flags : ℕ
  pub compression : ℕ
  pub data_reserved : ℕ
  pub index_offset : ℕ

abbrev pub header_size : ℕ
header_size = 24

-- The header in memory.
unfoldable pub header_bytes : Header → List ℕ
header_bytes h =
    to_bytes 8 h.magic
    ++ (h.major_version
        ∷ h.minor_version
        ∷ h.flags
        ∷ h.compression
        ∷ (to_bytes 4 h.data_reserved ++ to_bytes 8 h.index_offset))

-- A byte of the header.
abbrev byte_at : List ℕ → ℕ → ℕ
byte_at bytes n = of_bytes (take 1 (drop n bytes))

-- FileIO(fd).Read(&header, sizeof header)
unfoldable pub read_header : List ℕ → Result Header
unfolding of_bytes
read_header file = do
  bytes ← read_file file 0 header_size
  ok record {
    magic = of_bytes (take 8 bytes);
    major_version = byte_at bytes 8;
    minor_version = byte_at bytes 9;
    flags = byte_at bytes 10;
    compression = byte_at bytes 11;
    data_reserved = of_bytes (take 4 (drop 12 bytes));
    index_offset = of_bytes (take 8 (drop 16 bytes));
  }

-- lseek(fd, 0, SEEK_SET); fd.Write(&header, sizeof(header));
unfoldable pub write_header : Header → List ℕ → List ℕ
write_header h file = header_bytes h ++ drop header_size file
