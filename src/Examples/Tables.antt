-- ===== src/Examples/Tables.antt =====
-- The theorems on write-once tables at concrete inputs.
use cantera_table.Examples.Codecs.{numbers, plain}
use cantera_table.Shared.{false, ℕ, ◌+◌, refl, ◌≡◌, List, [], ◌∷◌, ◌++◌, true, some, arith}
use cantera_table.Result.{err, ok}
use cantera_table.WriteOnce.Block.{
  Block, empty_block, marshal, unmarshal, keys, values, get_entry_offset, get_entry_number,
}
use cantera_table.WriteOnce.Block.Entries.{add_all, firsts, seconds, block_of, unmarshal-marshal}
use cantera_table.WriteOnce.Block.Offsets.{get_entry_number-get_entry_offset}
use cantera_table.WriteOnce.Cursor.{skip, not_found}
use cantera_table.WriteOnce.Cursor.Progress.{IsAt, rows_before, skip-rows_before, skip-not_found}
use cantera_table.Shared.Strings.{string_lt, string_eq}
use cantera_table.Result.{require}
use cantera_table.WriteOnce.File.{Header, header_bytes, read_header}
use cantera_table.WriteOnce.File.RoundTrip.{read_header-header_bytes}
use cantera_table.WriteOnce.Index
use cantera_table.WriteOnce.Index.{Index}
use cantera_table.WriteOnce.Index.RoundTrip.{unmarshal-marshal_index}
use cantera_table.WriteOnce.Builder.{Options, write_table}
use cantera_table.WriteOnce.Builder.Blocks.{IsSmall}
use cantera_table.WriteOnce.Builder.Rows.{InOrder}
use cantera_table.WriteOnce.Builder.Unsorted.{write_table-unsorted}
use cantera_table.WriteOnce.Reader.{Reader, opened, open_table, read_row, read_rows, seek_to_key}
use cantera_table.WriteOnce.Reader.Open.{fresh}
use cantera_table.WriteOnce.Reader.Rows.{IsBefore, fresh-IsBefore, read_row-IsBefore}
use cantera_table.Shared.Int.{pos}
use cantera_table.Result.{overrun}
use cantera_table.Shared.{inl, none}
use cantera_table.WriteOnce.Block.{empty_block}
use cantera_table.WriteOnce.Reader.{at, offset, seek, seek_set, seek_end}
use cantera_table.WriteOnce.Reader.Blocks.{reading}
use cantera_table.WriteOnce.Reader.Offsets.{seekable_options}
use cantera_table.WriteOnce.Reader.Seek.{seek-offset}
use cantera_table.WriteOnce.Reader.End.{read_row-seek_end}
use cantera_table.WriteOnce.Reader.Table.{read_rows-write_table}
use cantera_table.WriteOnce.Reader.Keys.{seek_to_key-IsBefore}

abbrev pub entries : List (List ℕ × List ℕ)
entries = (97 ∷ [], 1 ∷ 2 ∷ []) ∷ (98 ∷ 99 ∷ [], []) ∷ []

unmarshal-marshal_example :
    (b : Block) × (unmarshal numbers (marshal numbers (add_all empty_block entries) true) 2 true
      ≡ ok b)
    × (keys b ≡ firsts entries)
    × (values b ≡ seconds entries)
unmarshal-marshal_example = unmarshal-marshal numbers entries true (omega arith)

get_entry_number-get_entry_offset_example :
    (o : ℕ) × (get_entry_offset numbers (block_of entries) 1 ≡ ok o)
    × (get_entry_number numbers (block_of entries) o ≡ ok 1)
get_entry_number-get_entry_offset_example =
    get_entry_number-get_entry_offset numbers (block_of entries) 1 (omega arith) refl (omega arith)

abbrev index : List ℕ
index = 3 ∷ 2 ∷ []

skip-rows_before_example :
    (b' e' : ℕ) × (skip index (record { block_num = some 0; entry_num = 1 }) 3
      ≡ (record { block_num = some b'; entry_num = e' }, true))
    × IsAt index b' e'
    × (rows_before index b' e' ≡ rows_before index 0 1 + 3)
skip-rows_before_example = skip-rows_before index 0 1 3 (omega arith) (omega arith) (omega arith)

skip-not_found_example :
    skip index (record { block_num = some 0; entry_num = 1 }) 5 ≡ not_found index
skip-not_found_example = skip-not_found index 0 1 5 (omega arith) (omega arith) (omega arith)

-- The header of a table with its index at 1000.
abbrev some_header : Header
some_header = record {
  magic = 0x6c62_6174_2e69_2e70;
  major_version = 4;
  minor_version = 0;
  flags = 1;
  compression = 0;
  data_reserved = 0;
  index_offset = 1000;
}

read_header-header_bytes_example :
    read_header (header_bytes some_header ++ (1 ∷ 2 ∷ [])) ≡ ok some_header
read_header-header_bytes_example = read_header-header_bytes some_header (1 ∷ 2 ∷ []) (record {
  magic = omega arith;
  major = omega arith;
  minor = omega arith;
  flags = omega arith;
  compression = omega arith;
  reserved = omega arith;
  offset = omega arith;
})

-- The index of two blocks, which end with the keys "a" and "bc".
abbrev two_blocks : Index
two_blocks = record {
  size = 40 ∷ 3000 ∷ [];
  num_entries = 2 ∷ 1 ∷ [];
  key_size = 1 ∷ 2 ∷ [];
  key_data = 97 ∷ 98 ∷ 99 ∷ [];
}

unmarshal-marshal_index_example :
    Index.unmarshal plain (Index.marshal plain two_blocks) ≡ ok two_blocks
unmarshal-marshal_index_example = unmarshal-marshal_index plain two_blocks (record {
  sizes = refl;
  counts = refl;
  size_fits = omega arith;
  count_fits = omega arith;
  key_fits = omega arith;
  keys = refl;
  some_block = omega arith;
  few = omega arith;
})

abbrev pub seekable_table : Options
seekable_table = record { compressed = false; seekable = true }

pub entries-InOrder : InOrder [] entries
unfolding string_lt
entries-InOrder = (refl, (refl, tt))

pub entries-IsSmall : IsSmall entries
entries-IsSmall = omega arith

read_rows-write_table_example :
    (file : List ℕ) × (r : Reader) × (write_table plain seekable_table entries ≡ ok (some file))
    × (open_table plain file false ≡ ok (opened r))
    × (read_rows plain 3 r ≡ ok entries)
read_rows-write_table_example =
    read_rows-write_table plain seekable_table (97 ∷ [], 1 ∷ 2 ∷ []) ((98 ∷ 99 ∷ [], []) ∷ []) 3
      entries-InOrder entries-IsSmall

entries-IsBefore :
    IsBefore plain seekable_table (entries ∷ []) (fresh plain seekable_table (entries ∷ [])) entries
entries-IsBefore = fresh-IsBefore plain seekable_table (entries ∷ []) ((tt, entries-IsSmall), tt)

read_row-IsBefore_example :
    (r : Reader) × (read_row plain (fresh plain seekable_table (entries ∷ []))
      ≡ ok (r, some (97 ∷ [], 1 ∷ 2 ∷ [])))
    × IsBefore plain seekable_table (entries ∷ []) r ((98 ∷ 99 ∷ [], []) ∷ [])
read_row-IsBefore_example =
    read_row-IsBefore plain seekable_table (entries ∷ [])
      (fresh plain seekable_table (entries ∷ [])) entries ((tt, entries-IsSmall), tt)
      entries-IsBefore

seek_to_key-IsBefore_example :
    (r : Reader) × (seek_to_key plain (fresh plain seekable_table (entries ∷ [])) (98 ∷ [])
      ≡ ok (r, false))
    × IsBefore plain seekable_table (entries ∷ []) r ((98 ∷ 99 ∷ [], []) ∷ [])
unfolding string_lt string_eq
seek_to_key-IsBefore_example =
    seek_to_key-IsBefore plain seekable_table (entries ∷ [])
      (fresh plain seekable_table (entries ∷ [])) entries (98 ∷ []) ((tt, entries-IsSmall), tt)
      entries-InOrder entries-IsBefore

write_table-unsorted_example :
    write_table plain seekable_table (entries ++ ((98 ∷ [], []) ∷ [])) ≡ err require
unfolding string_lt
write_table-unsorted_example =
    write_table-unsorted plain seekable_table entries (98 ∷ [], []) [] tt entries-InOrder
      entries-IsSmall refl

-- A reader at the second row.
abbrev at_second : Reader
at_second = reading plain (seekable_options false) (entries ∷ []) (at 0 1) empty_block none

at_second-IsBefore :
    IsBefore plain (seekable_options false) (entries ∷ []) at_second ((98 ∷ 99 ∷ [], []) ∷ [])
at_second-IsBefore = record {
  cursor = at 0 1;
  block = empty_block;
  read_num = none;
  is_state = refl;
  cached = tt;
  stands = inl (record {
    front = [];
    done = (97 ∷ [], 1 ∷ 2 ∷ []) ∷ [];
    row = (98 ∷ 99 ∷ [], []);
    rest = [];
    back = [];
    blocks = refl;
    position = refl;
    rows = refl;
  });
}

seek-offset_example :
    (r1 : Reader) × (n : ℕ) × (r3 : Reader) × (offset plain at_second ≡ ok (r1, n))
    × (seek plain (fresh plain (seekable_options false) (entries ∷ [])) seek_set (pos n) ≡ ok r3)
    × IsBefore plain (seekable_options false) (entries ∷ []) r1 ((98 ∷ 99 ∷ [], []) ∷ [])
    × IsBefore plain (seekable_options false) (entries ∷ []) r3 ((98 ∷ 99 ∷ [], []) ∷ [])
seek-offset_example =
    seek-offset plain false (entries ∷ []) at_second
      (fresh plain (seekable_options false) (entries ∷ [])) (98 ∷ 99 ∷ [], []) [] entries
      ((tt, entries-IsSmall), tt) at_second-IsBefore
      (fresh-IsBefore plain (seekable_options false) (entries ∷ []) ((tt, entries-IsSmall), tt))

read_row-seek_end_example :
    (r : Reader) × (seek plain at_second seek_end (pos 0) ≡ ok r) × (read_row plain r ≡ err overrun)
read_row-seek_end_example =
    read_row-seek_end plain false [] entries at_second ((98 ∷ 99 ∷ [], []) ∷ [])
      ((tt, entries-IsSmall), tt) at_second-IsBefore
