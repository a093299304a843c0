-- ===== src/Query/Lookup.antt =====
-- src/query.cc `LookupIndexKey` for a plain keyword, with `DecodeURIComponent` of src/util.h.
use Prim.Native.Nat.{bit_and, bit_or}
use cantera_table.Shared.{ℕ, List, [], ◌∷◌, Option, none, some, get_elem?, ◌==◌, if◌then◌else◌}
use cantera_table.Shared.Words.{u8, shl}
use cantera_table.Result.{Result, ok, err, overrun, ◌>>=◌}
use cantera_table.Score.{OffsetScore}

-- kHexHelper, which has 26 entries; the index `ch & 0x1f` goes up to 31.
abbrev pub hex_helper : List ℕ
hex_helper =
    0 ∷ 10 ∷ 11 ∷ 12 ∷ 13 ∷ 14 ∷ 15 ∷ 0 ∷ 0 ∷ 0 ∷ 0 ∷ 0 ∷ 0 ∷ 0 ∷ 0 ∷ 0 ∷ 0 ∷ 1 ∷ 2 ∷ 3 ∷ 4 ∷ 5 ∷ 6
    ∷ 7 ∷ 8 ∷ 9 ∷ []

unfoldable pub hex_value : ℕ → Result ℕ
hex_value ch = elim (get_elem? hex_helper (bit_and ch 0x1f)) [ none ↦ err overrun | some v ↦ ok v ]

-- The variable `escape`, with `decode_buffer` where it is read.
pub data Escape : Type 0 where
  plain first : Escape
  second : ℕ → Escape

unfoldable pub decode_loop : Escape → List ℕ → Result (List ℕ)
unfolding hex_value
decode_loop escape [] = ok []
decode_loop plain (ch ∷ input) = do
  later ← decode_loop (if ch == b'%' then first else plain) input
  ok (if ch == b'%' then later else ch ∷ later)
decode_loop first (ch ∷ input) = do v ← hex_value ch; decode_loop (second (u8 (shl v 4))) input
decode_loop (second decode_buffer) (ch ∷ input) = do
  v ← hex_value ch
  later ← decode_loop plain input
  ok (bit_or decode_buffer v ∷ later)

unfoldable pub decode_uri_component : List ℕ → Result (List ℕ)
unfolding decode_loop
decode_uri_component input = decode_loop plain input

-- What a lookup uses of one index table: SeekToKey and ReadRow, to the row's data. Table files and
-- the decoding of a row are parameters here.
pub record Index : Type 0 where
  pub row : List ℕ → Option (List ℕ)
  pub decode : List ℕ → Result (List OffsetScore)

-- The arguments of `callback`, one call for each table that has the key, in the order of the tables.
unfoldable pub lookup_tables : List Index → List ℕ → Result (List (List OffsetScore))
lookup_tables [] key = ok []
lookup_tables (t ∷ tables) key = elim (t.row key) [
  | none ↦ lookup_tables tables key
  | some text ↦ (do
    new_offsets ← t.decode text
    later ← lookup_tables tables key
    ok (new_offsets ∷ later))
]

unfoldable pub lookup_index_key : List Index → List ℕ → Result (List (List OffsetScore))
unfolding decode_uri_component lookup_tables
lookup_index_key tables key = do
  unescaped_key ← decode_uri_component key
  lookup_tables tables unescaped_key
