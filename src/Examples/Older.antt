-- ===== src/Examples/Older.antt =====
-- The theorems on older tables at a concrete file, with one row and an index of two places.
use cantera_table.Shared.{
  ℕ, ◌<◌, ◌≡◌, refl, List, [], ◌∷◌, Bool, true, some, Bool-cases, ◌==◌, ==_iff, inl, inr, arith,
}
use cantera_table.Shared.Strings.{string_eq}
use cantera_table.Result.{ok}
use cantera_table.Integer.{parse_integer, parse_groups}
use cantera_table.WriteOnce.File.{of_bytes, read_header, read_file}
use cantera_table.WriteOnce.Older.{
  OlderReader, map_file, index_width, bytes_at, index_at, skip_size, c_string, key_at, seek_loop,
  seek_to_key, read_at, read_row,
}
use cantera_table.WriteOnce.Older.Sound.{read_row-seek_to_key}
use cantera_table.WriteOnce.Older.Ends.{IsSlot, seek_to_key-ends}

-- The header, the row of "a" at 24, the end at 28, and the index.
abbrev file : List ℕ
file =
    0x70 ∷ 0x2e ∷ 0x69 ∷ 0x2e ∷ 0x74 ∷ 0x61 ∷ 0x62 ∷ 0x6c ∷ 3 ∷ 0 ∷ 1 ∷ 0 ∷ 0 ∷ 0 ∷ 0 ∷ 0 ∷ 28 ∷ 0
    ∷ 0 ∷ 0 ∷ 0 ∷ 0 ∷ 0 ∷ 0 ∷ 3 ∷ 97 ∷ 0 ∷ 5 ∷ 24 ∷ 0 ∷ 0 ∷ 0 ∷ 0 ∷ 0 ∷ 0 ∷ 0 ∷ 0 ∷ 0 ∷ 0 ∷ 0 ∷ 0
    ∷ 0 ∷ 0 ∷ 0 ∷ []

abbrev reader : OlderReader
reader = record {
  buffer = file;
  header = record {
    magic = 0x6c62_6174_2e69_2e70;
    major_version = 3;
    minor_version = 0;
    flags = 1;
    compression = 0;
    data_reserved = 0;
    index_offset = 28;
  };
  index_offset = 28;
  index_bits = 64;
  index_size = 2;
  offset = 24;
}

map_file_test : map_file file 28 ≡ ok reader
unfolding map_file read_header read_file of_bytes index_width
map_file_test = refl

abbrev no_hash : List ℕ → ℕ
no_hash key = 2

found_a : seek_to_key no_hash 3 reader (97 ∷ []) ≡ ok (reader, true)
unfolding seek_to_key seek_loop index_at bytes_at of_bytes key_at skip_size c_string string_eq
found_a = refl

read_a : read_row reader ≡ ok (record reader { offset = 28 }, some (97 ∷ [], 5 ∷ []))
unfolding read_row read_at parse_integer parse_groups c_string bytes_at
read_a = refl

read_row-seek_to_key_example : ◌≡◌ {A = List ℕ} (97 ∷ []) (97 ∷ [])
read_row-seek_to_key_example =
    read_row-seek_to_key no_hash 3 reader reader (record reader { offset = 28 }) (97 ∷ [])
      (97 ∷ [], 5 ∷ []) found_a read_a

first_place : index_at reader 0 ≡ ok 24
unfolding index_at bytes_at of_bytes
first_place = refl

second_place : index_at reader 1 ≡ ok 0
unfolding index_at bytes_at of_bytes
second_place = refl

first_key : key_at reader 24 ≡ ok (97 ∷ [])
unfolding key_at skip_size c_string
first_key = refl

slots : (i : ℕ) → i < 2 → (n : ℕ) × (index_at reader i ≡ ok n) × IsSlot reader n
slots i h = elim (Bool-cases (i == 0)) [
  | inl t ↦ (24, (let e = (==_iff i 0).0 t in rw e first_place), inr (97 ∷ [], first_key))
  | inr f ↦ (0, (let e : i ≡ 1 = ground (arith, f, h) in rw e second_place), inl refl)
]

-- A key that is not there.
seek_to_key-ends_example :
    (x : OlderReader × Bool) × (seek_to_key no_hash 3 reader (98 ∷ []) ≡ ok x)
seek_to_key-ends_example =
    seek_to_key-ends no_hash reader (98 ∷ []) 1 refl (omega arith) second_place slots
