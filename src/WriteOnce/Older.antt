-- ===== src/WriteOnce/Older.antt =====
-- `WriteOnceReader_v3` of src/table-backend-writeonce.cc, the reader of older tables: rows behind each other, and a
-- hash table of their offsets. The mapped file is the list of its bytes; a read past its end is the fault `overrun`.
-- MAdviseIndex is a hint to the system, and left out.
pub mod Sound
pub mod Ends
use Prim.Native.Nat.{bit_and}
use cantera_table.Shared.{
  ℕ, zero, suc, ◌+◌, ◌-◌, ◌*◌, ◌/◌, ◌%◌, ◌^◌, List, [], ◌∷◌, Bool, true, false, not, ◌&&◌, Option,
  none, some, ltb, leb, ◌==◌, if◌then◌else◌, length, take, drop,
}
use cantera_table.Shared.Int.{ℤ, pos, negsuc}
use cantera_table.Shared.Words.{u64}
use cantera_table.Shared.Strings.{string_lt, string_eq}
use cantera_table.Result.{Result, ok, err, require, overrun, out_of_rounds, guard, ◌>>=◌, ◌>>◌}
use cantera_table.Integer.{parse_integer}
use cantera_table.WriteOnce.File.{Header, read_header, header_size, of_bytes}
use cantera_table.WriteOnce.Reader.{Whence, seek_set, seek_cur, seek_end}

pub record OlderReader : Type 0 where
  pub buffer : List ℕ
  pub header : Header
  pub index_offset : ℕ
  pub index_bits : ℕ
  pub index_size : ℕ
  pub offset : ℕ

-- The width of the numbers in the index.
unfoldable pub index_width : Header → ℕ
index_width h =
    if leb 3 h.major_version
    then 64
    else if ltb h.index_offset (2 ^ 16)
    then 16
    else if ltb h.index_offset (2 ^ 32)
    then 32
    else 64

-- The constructor, with MemoryMap.
unfoldable pub map_file : List ℕ → ℕ → Result OlderReader
map_file file index_offset = do
  guard (ltb header_size (length file)) require
  h ← read_header file
  ok record {
    buffer = file;
    header = h;
    index_offset = index_offset;
    index_bits = index_width h;
    index_size = u64 (length file + (2 ^ 64 - h.index_offset)) / (index_width h / 8);
    offset = header_size;
  }

-- flags & CA_WO_FLAG_ASCENDING
unfoldable pub is_ascending : OlderReader → Bool
is_ascending r = not (bit_and r.header.flags 1 == 0)

-- `size` bytes at a pointer.
unfoldable pub bytes_at : List ℕ → ℕ → Result (List ℕ)
bytes_at p size = if ltb (length p) size then err overrun else ok (take size p)

-- index_.u16[hash], index_.u32[hash] or index_.u64[hash]
unfoldable pub index_at : OlderReader → ℕ → Result ℕ
index_at r hash =
    bytes_at (drop (r.header.index_offset + hash * (r.index_bits / 8)) r.buffer) (r.index_bits / 8)
    >>= λ bytes. ok (of_bytes bytes)

-- while ((*data) & 0x80) ++data; ++data;
unfoldable pub skip_size : List ℕ → Result (List ℕ)
skip_size [] = err overrun
skip_size (b ∷ rest) = let later = skip_size rest in if bit_and b 0x80 == 0 then ok rest else later

-- The characters up to the null character.
unfoldable pub c_string : List ℕ → Result (List ℕ)
c_string [] = err overrun
c_string (b ∷ rest) =
    let later = c_string rest >>= λ s. ok (b ∷ s) in if b == 0 then ok [] else later

unfoldable pub wo_hash : ℕ → List ℕ → ℕ
wo_hash result [] = result
wo_hash result (ch ∷ str) = wo_hash (u64 (result * 31 + ch)) str

-- Where the search stands: fib[0] and fib[1], and whether collisions is odd.
pub record Probe : Type 0 where
  pub hash : ℕ
  pub min_offset : ℕ
  pub max_offset : ℕ
  pub even_step : ℕ
  pub odd_step : ℕ
  pub odd : Bool

-- The next place to look.
unfoldable pub next_probe : OlderReader → Probe → Probe
next_probe r p =
    let linear : Probe = record p { hash = if p.hash + 1 == r.index_size then 0 else p.hash + 1 } in
    let to_odd : Probe = record p {
      hash = u64 (p.hash + p.odd_step) % r.index_size;
      odd_step = u64 (p.odd_step + p.even_step);
      odd = true;
    } in
    let to_even : Probe = record p {
      hash = u64 (p.hash + p.even_step) % r.index_size;
      even_step = u64 (p.even_step + p.odd_step);
      odd = false;
    } in
    if r.header.major_version == 3 then linear else if p.odd then to_even else to_odd

-- The key of the row at an offset.
unfoldable pub key_at : OlderReader → ℕ → Result (List ℕ)
key_at r offset = skip_size (drop offset r.buffer) >>= c_string

-- for (;;)
unfoldable pub seek_loop : ℕ → OlderReader → List ℕ → Probe → Result (OlderReader × Bool)
seek_loop zero r key p = err out_of_rounds
seek_loop (suc rounds) r key p =
    let continue_from = λ (q : Probe). seek_loop rounds r key (next_probe r q) in
    let compare_at = λ (tmp_offset : ℕ).
      (key_at r tmp_offset >>= λ found.
      let lower =
        continue_from (if is_ascending r then record p { max_offset = tmp_offset } else p) in
      let higher =
        continue_from (if is_ascending r then record p { min_offset = tmp_offset } else p) in
      if string_eq key found
      then ok (record r { offset = tmp_offset }, true)
      else if string_lt key found
      then lower
      else higher) in
    index_at r p.hash >>= λ tmp_offset.
    if tmp_offset == 0
    then ok (r, false)
    else if leb p.min_offset tmp_offset && leb tmp_offset p.max_offset
    then compare_at tmp_offset
    else continue_from p

-- SeekToKey. `hash_of` is Hash of src/util.h; a remainder by 0 is undefined, like a read past the end.
unfoldable pub seek_to_key : (List ℕ → ℕ) → ℕ → OlderReader → List ℕ → Result (OlderReader × Bool)
seek_to_key hash_of rounds r key =
    let hash =
      if ltb r.header.major_version 2 then wo_hash 0x2257d6803a6f1b2 key else hash_of key in
    guard (ltb 0 r.index_size) overrun
    >> seek_loop rounds r key record {
      hash = hash % r.index_size;
      min_offset = 0;
      max_offset = length r.buffer;
      even_step = 2;
      odd_step = 1;
      odd = false;
    }

-- ReadRow at the pointer `p`.
unfoldable pub read_at : OlderReader → List ℕ → Result (OlderReader × Option (List ℕ × List ℕ))
read_at r [] = err overrun
read_at r (b ∷ rest) =
    let row : Result (OlderReader × Option (List ℕ × List ℕ)) = do
      p ← parse_integer (b ∷ rest)
      key ← c_string p.1
      guard (ltb (length key) p.0) require
      value ← bytes_at (drop (length key + 1) p.1) (p.0 - length key - 1)
      ok (record r { offset = length r.buffer - length p.1 + p.0 }, some (key, value))
    in if b == 0 then ok (r, none) else row

unfoldable pub read_row : OlderReader → Result (OlderReader × Option (List ℕ × List ℕ))
read_row r =
    guard (leb header_size r.offset) require
    >> (if leb r.header.index_offset r.offset
        then ok (r, none)
        else read_at r (drop r.offset r.buffer))

-- Offset
unfoldable pub offset : OlderReader → ℕ
offset r = r.offset - header_size

-- The end of Seek.
unfoldable pub seek_target : OlderReader → ℕ → Result OlderReader
seek_target r new_offset = do
  guard (leb header_size new_offset) require
  guard (leb new_offset r.index_offset) require
  ok (record r { offset = new_offset })

-- Seek, with sums in 64 bits.
unfoldable pub seek : OlderReader → ℤ → Whence → Result OlderReader
seek r (pos n) seek_set = seek_target r (header_size + n)
seek r (negsuc n) seek_set = err require
seek r (pos n) seek_cur = seek_target r (u64 (r.offset + n))
seek r (negsuc n) seek_cur = seek_target r (u64 (r.offset + (2 ^ 64 - suc n)))
seek r (pos zero) seek_end = seek_target r r.index_offset
seek r (pos (suc n)) seek_end = err require
seek r (negsuc n) seek_end = seek_target r (u64 (r.index_offset + suc n))
