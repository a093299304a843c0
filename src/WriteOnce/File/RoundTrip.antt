-- ===== src/WriteOnce/File/RoundTrip.antt =====
-- A header that was written to a file is read back.
use cantera_table.Shared.{ℕ, zero, suc, ◌+◌, ◌/◌, ◌^◌, ◌<◌, ◌≡◌, List, ◌++◌, arith}
use native.Mathlib.Nat.{pow-suc}
use cantera_table.Result.{ok}
use cantera_table.WriteOnce.File.{read_file, to_bytes, of_bytes, Header, header_bytes, read_header}

of_bytes-to_bytes : (k v : ℕ) → v < 256 ^ k → of_bytes (to_bytes k v) ≡ v
unfolding of_bytes to_bytes
of_bytes-to_bytes zero v h = omega arith
of_bytes-to_bytes (suc k) v h =
    omega (arith, of_bytes-to_bytes k (v / 256) (omega (arith, h, pow-suc 256 k)))

plus_zero : (b : ℕ) → b + 0 ≡ b
plus_zero b = omega arith

pub record IsHeader (h : Header) : Type 0 where
  pub magic : h.magic < 2 ^ 64
  pub major : h.major_version < 256
  pub minor : h.minor_version < 256
  pub flags : h.flags < 256
  pub compression : h.compression < 256
  pub reserved : h.data_reserved < 2 ^ 32
  pub offset : h.index_offset < 2 ^ 64

-- The fields of a header that fit their widths are read back from the front of a file.
pub read_header-header_bytes :
    (h : Header) (rest : List ℕ) → IsHeader h → read_header (header_bytes h ++ rest) ≡ ok h
unfolding read_header header_bytes read_file to_bytes of_bytes
read_header-header_bytes h rest valid = rw (
  of_bytes-to_bytes 8 h.magic (omega (arith, valid.magic)),
  of_bytes-to_bytes 4 h.data_reserved (omega (arith, valid.reserved)),
  of_bytes-to_bytes 8 h.index_offset (omega (arith, valid.offset)),
  plus_zero h.major_version,
  plus_zero h.minor_version,
  plus_zero h.flags,
  plus_zero h.compression,
)
