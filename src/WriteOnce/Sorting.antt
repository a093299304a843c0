-- ===== src/WriteOnce/Sorting.antt =====
-- `WriteOnceSortingBuilder` of src/table-backend-writeonce.cc: the builder for rows in any order. Its temporary
-- file is the list of the bytes that were written to it; its place in the file system is left out, and so is
-- the count of reads, which nothing uses.
pub mod Order
pub mod Entries
pub mod Build
pub mod ReadBack
use cantera_table.Shared.{
  ℕ, zero, suc, ◌+◌, ◌-◌, ◌^◌, List, [], ◌∷◌, ◌++◌, Bool, true, false, not, Option, ltb, leb, ◌==◌,
  if◌then◌else◌, length, take, drop,
}
use cantera_table.Shared.Words.{u32, u64}
use cantera_table.Shared.Strings.{string_lt, string_eq}
use cantera_table.Result.{Result, ok, err, require, overrun, guard, ◌>>=◌, ◌>>◌}
use cantera_table.WriteOnce.Codec.{Storage}
use cantera_table.WriteOnce.File.{read_file}
use cantera_table.WriteOnce.Builder
use cantera_table.WriteOnce.Builder.{Builder, Options, create}

-- `prefix` is the part of the array that AddEntry fills.
pub record Entry : Type 0 where
  pub offset : ℕ
  pub value_size : ℕ
  pub key_size : ℕ
  pub prefix : List ℕ

pub record Sorter : Type 0 where
  pub raw : List ℕ
  pub index : List Entry
  pub offset : ℕ
  pub key_size_max : ℕ

abbrev pub empty_sorter : Sorter
empty_sorter = record { raw = []; index = []; offset = 0; key_size_max = 0 }

abbrev pub size_max : ℕ
size_max = 2 ^ 32 - 1

-- sizeof entry.prefix
abbrev pub prefix_size : ℕ
prefix_size = 24

-- AddEntry
unfoldable pub add_entry : Sorter → List ℕ → List ℕ → Result Sorter
add_entry w key value =
    let entry : Entry = record {
      offset = w.offset;
      value_size = length value;
      key_size = length key;
      prefix = take prefix_size key;
    } in
    guard (leb (length key) size_max) require
    >> (guard (leb (length value) size_max) require
        >> ok (record w {
          index = w.index ++ (entry ∷ []);
          offset = u64 (w.offset + (length key + length value));
          key_size_max = if ltb w.key_size_max (length key) then length key else w.key_size_max;
        }))

-- fwrite(data.data(), data.size(), 1, raw_stream_), which gives 0 for no data.
unfoldable pub write_raw : List ℕ → List ℕ → Result (List ℕ)
write_raw raw bytes = if length bytes == 0 then err require else ok (raw ++ bytes)

-- WriteEntryData
unfoldable pub write_entry_data : Sorter → List ℕ → List ℕ → Result Sorter
write_entry_data w key value = do
  raw ← write_raw w.raw key
  raw' ← write_raw raw value
  ok (record w { raw = raw' })

-- Add
unfoldable pub add : Sorter → List ℕ → List ℕ → Result Sorter
add w key value = do w' ← add_entry w key value; write_entry_data w' key value

-- fd.Read(lhs_buffer_.get(), lhs.offset, lhs.key_size), where the buffer has room for key_size_max_ bytes.
unfoldable pub read_key : Sorter → Entry → Result (List ℕ)
read_key w e = guard (leb e.key_size w.key_size_max) overrun >> read_file w.raw e.offset e.key_size

-- Compare
unfoldable pub compare : Sorter → Entry → Entry → Result Bool
compare w lhs rhs =
    let slow : Result Bool = do
      lhs_key ← read_key w lhs
      rhs_key ← read_key w rhs
      ok (string_lt lhs_key rhs_key)
    in if not (string_eq lhs.prefix rhs.prefix) then ok (string_lt lhs.prefix rhs.prefix) else slow

-- std::stable_sort, by insertion: an entry goes in front of those behind it that are not less.
unfoldable pub insert : Sorter → Entry → List Entry → Result (List Entry)
insert w x [] = ok (x ∷ [])
insert w x (y ∷ ys) =
    let behind = insert w x ys >>= λ rest. ok (y ∷ rest) in
    compare w y x >>= λ less. if less then behind else ok (x ∷ y ∷ ys)

unfoldable pub sort_entries : Sorter → List Entry → Result (List Entry)
sort_entries w [] = ok []
sort_entries w (x ∷ xs) = do sorted ← sort_entries w xs; insert w x sorted

-- The key and the value of an entry. The size of the buffer is a 32-bit sum.
unfoldable pub read_entry : Sorter → Entry → Result (List ℕ × List ℕ)
read_entry w e = do
  data_bytes ← read_file w.raw e.offset (u32 (e.key_size + e.value_size))
  guard (leb (e.key_size + e.value_size) (length data_bytes)) overrun
      >> ok (take e.key_size data_bytes, take e.value_size (drop e.key_size data_bytes))

module _ (s : Storage) (options : Options) where
  -- The loop of Build.
  unfoldable pub add_entries : Sorter → Builder → List Entry → Result Builder
  add_entries w b [] = ok b
  add_entries w b (e ∷ es) = do
    row ← read_entry w e
    b' ← Builder.add s options b row.0 row.1
    add_entries w b' es

  -- Build in front of WriteOnceBuilder::Build.
  unfoldable pub refill : Sorter → Result Builder
  refill w = do entries ← sort_entries w w.index; add_entries w (create s options) entries

  -- Build
  unfoldable pub build : Sorter → Result (Option (List ℕ))
  build w = do b ← refill w; Builder.build s options b

  -- Add for each row, and then Build.
  unfoldable pub add_all : Sorter → List (List ℕ × List ℕ) → Result Sorter
  add_all w [] = ok w
  add_all w (row ∷ rows) = do w' ← add w row.0 row.1; add_all w' rows

  unfoldable pub write_unsorted : List (List ℕ × List ℕ) → Result (Option (List ℕ))
  write_unsorted rows = do w ← add_all empty_sorter rows; build w
