-- ===== src/WriteOnce/Reader/Keys.antt =====
-- `SeekToKey` of src/table-backend-writeonce.cc on a file of the builder.
use cantera_table.Shared.{
  ℕ, suc, ◌≡◌, ◌⊎◌, ◌∙◌, refl, ap, List, [], ◌∷◌, ◌++◌, Bool, true, false, Option, some, leb,
  if◌then◌else◌, length, All, length-append, Bool-cases, inl, inr, arith,
}
use cantera_table.Shared.Strings.{string_lt, string_eq, StringLe, StringLe-trans}
use cantera_table.Result.{ok}
use cantera_table.WriteOnce.Codec.{Storage}
use cantera_table.WriteOnce.Block.{Block}
use cantera_table.WriteOnce.Block.Entries.{Bytes, lengths, firsts, block_of, views-joined}
use cantera_table.WriteOnce.Index.{lower_bound, last_keys, find_block_by_key}
use cantera_table.WriteOnce.Builder.{Options}
use cantera_table.WriteOnce.Builder.Blocks.{Row, IsSmall, last_key}
use cantera_table.WriteOnce.Builder.State.{IsBlock, last_keys_of, index_of}
use cantera_table.WriteOnce.Builder.Rows.{InOrder, concat}
use cantera_table.WriteOnce.Builder.Table.{length-last_keys}
use cantera_table.WriteOnce.Cursor.{Cursor}
use cantera_table.WriteOnce.Reader.{Reader, at, seek_in_block, seek_to_key}
use cantera_table.WriteOnce.Reader.Blocks.{
  reading, IsCached, IsCached-loaded, load_block-reading, keys-block_of,
}
use cantera_table.WriteOnce.Reader.Rows.{IsBefore, All-back, firsts-element}

-- The rows from the first one on whose key is not before `key`.
abbrev pub from_key : Bytes → List Row → List Row
from_key key [] = []
from_key key (e ∷ es) = if string_lt e.0 key then from_key key es else e ∷ es

-- Whether the first row has the key.
abbrev pub starts_with : Bytes → List Row → Bool
starts_with key [] = false
starts_with key (e ∷ es) = string_eq e.0 key

StringLt_trans : (a b c : Bytes) → StringLe a b → string_lt b c ≡ true → string_lt a c ≡ true
StringLt_trans a b c le lt = elim (Bool-cases (string_lt a c)) [
  | inl t ↦ t
  | inr f ↦ let late : string_lt b c ≡ false = StringLe-trans c a b f le in cc
]

le-last_key :
    (k : Bytes) (e : Row) (es r : List Row)
    → InOrder k ((e ∷ es) ++ r)
    → StringLe k (last_key (e ∷ es))
le-last_key k e [] r order = order.0
le-last_key k e (f ∷ es) r order =
    StringLe-trans k e.0 (last_key (f ∷ es)) order.0 (le-last_key e.0 f es r order.1)

-- A block whose last key is before the key has only keys before it.
from_key-below :
    (key k : Bytes) (e : Row) (es r : List Row)
    → InOrder k ((e ∷ es) ++ r)
    → string_lt (last_key (e ∷ es)) key ≡ true
    → from_key key ((e ∷ es) ++ r) ≡ from_key key r
from_key-below key k e [] r order below = rw below
from_key-below key k e (f ∷ es) r order below =
    let first : string_lt e.0 key ≡ true =
      StringLt_trans e.0 (last_key (f ∷ es)) key (le-last_key e.0 f es r order.1) below in
    rw first (from_key-below key e.0 f es r order.1 below)

InOrder-behind :
    (k : Bytes) (e : Row) (es r : List Row)
    → InOrder k ((e ∷ es) ++ r)
    → InOrder (last_key (e ∷ es)) r
InOrder-behind k e [] r order = order.1
InOrder-behind k e (f ∷ es) r order = InOrder-behind e.0 f es r order.1

-- The first row of a block whose key is not before a key, where the block has one.
record IsFirst (key : Bytes) (b : List Row) : Type 0 where
  done : List Row
  row : Row
  rest : List Row
  rows : b ≡ done ++ (row ∷ rest)
  place_found : lower_bound (firsts (done ++ (row ∷ rest))) key ≡ length done
  left : (r : List Row) → from_key key (b ++ r) ≡ row ∷ (rest ++ r)

IsFirst-last_key :
    (key : Bytes) (e : Row) (es : List Row)
    → string_lt (last_key (e ∷ es)) key ≡ false
    → IsFirst key (e ∷ es)
unfolding lower_bound
IsFirst-last_key key e [] late = record {
  done = [];
  row = e;
  rest = [];
  rows = refl;
  place_found = rw late;
  left = λ r. rw late;
}
IsFirst-last_key key e (f ∷ es) late =
    let i = IsFirst-last_key key f es late in
    elim (Bool-cases (string_lt e.0 key)) [
      | inl t ↦ record {
        done = e ∷ i.done;
        row = i.row;
        rest = i.rest;
        rows = ap (λ x. e ∷ x) i.rows;
        place_found = rw t (ap suc i.place_found);
        left = λ r. rw t (i.left r);
      }
      | inr t ↦ record {
        done = [];
        row = e;
        rest = f ∷ es;
        rows = refl;
        place_found = rw t;
        left = λ r. rw t;
      }
    ]

-- The first block that has a key not before a key, and that key's row.
record IsFirstBlock (key : Bytes) (bs : List (List Row)) : Type 0 where
  front : List (List Row)
  done : List Row
  row : Row
  rest : List Row
  back : List (List Row)
  blocks : bs ≡ front ++ ((done ++ (row ∷ rest)) ∷ back)
  block_found : lower_bound (last_keys_of bs) key ≡ length front
  row_found : lower_bound (firsts (done ++ (row ∷ rest))) key ≡ length done
  left : from_key key (concat bs) ≡ row ∷ (rest ++ concat back)

first_block :
    (key k : Bytes) (bs : List (List Row))
    → All IsBlock bs
    → InOrder k (concat bs)
    → IsFirstBlock key bs
      ⊎ ((lower_bound (last_keys_of bs) key ≡ length bs) × (from_key key (concat bs) ≡ []))
unfolding lower_bound
first_block key k [] h order = inr (refl, refl)
first_block key k ([] ∷ bs) h order = elim h.0.0 [ ]
first_block key k ((e ∷ es) ∷ bs) h order = elim (Bool-cases (string_lt (last_key (e ∷ es)) key)) [
  | inl t ↦
      let below = from_key-below key k e es (concat bs) order t in
      elim (first_block key (last_key (e ∷ es)) bs h.1 (InOrder-behind k e es (concat bs) order)) [
        | inl i ↦ inl (record {
          front = (e ∷ es) ∷ i.front;
          done = i.done;
          row = i.row;
          rest = i.rest;
          back = i.back;
          blocks = ap (λ x. (e ∷ es) ∷ x) i.blocks;
          block_found = rw t (ap suc i.block_found);
          row_found = i.row_found;
          left = below ∙ i.left;
        })
        | inr i ↦ inr (rw t (ap suc i.0), below ∙ i.1)
      ]
  | inr f ↦
      let i = IsFirst-last_key key e es f in
      inl (record {
        front = [];
        done = i.done;
        row = i.row;
        rest = i.rest;
        back = bs;
        blocks = ap (λ x. x ∷ bs) i.rows;
        block_found = rw f;
        row_found = i.place_found;
        left = i.left (concat bs);
      })
]

module _ (s : Storage) (o : Options) where
  find_block_by_key-index_of :
      (bs : List (List Row)) (key : Bytes)
      → find_block_by_key (index_of s o bs) key ≡ lower_bound (last_keys_of bs) key
  unfolding find_block_by_key last_keys
  find_block_by_key-index_of bs key = rw (views-joined (last_keys_of bs))

  seek_in_block-reading :
      (front : List (List Row)) (done : List Row) (row : Row) (rest : List Row)
      (back : List (List Row)) (c : Cursor) (block : Block) (m : Option ℕ) (key : Bytes)
      → IsSmall (done ++ (row ∷ rest))
      → IsCached s o (front ++ ((done ++ (row ∷ rest)) ∷ back)) block m
      → lower_bound (firsts (done ++ (row ∷ rest))) key ≡ length done
      → seek_in_block s
          (reading s o (front ++ ((done ++ (row ∷ rest)) ∷ back)) c block m)
          (length front)
          key
        ≡ ok (
          reading s o
              (front ++ ((done ++ (row ∷ rest)) ∷ back))
              (at (length front) (length done))
              (block_of (done ++ (row ∷ rest)))
              (some (length front)),
          string_eq row.0 key,
        )
  unfolding seek_in_block
  seek_in_block-reading front done row rest back c block m key small cached found = rw (
    load_block-reading s o front (done ++ (row ∷ rest)) back c block m small cached,
    keys-block_of (done ++ (row ∷ rest)),
    found,
    firsts-element done row rest,
  )

  seek_to_key-reading :
      (bs : List (List Row)) (c : Cursor) (block : Block) (m : Option ℕ) (key : Bytes)
      → All IsBlock bs
      → IsCached s o bs block m
      → InOrder [] (concat bs)
      → (r' : Reader) × (seek_to_key s (reading s o bs c block m) key
          ≡ ok (r', starts_with key (from_key key (concat bs))))
        × IsBefore s o bs r' (from_key key (concat bs))
  unfolding seek_to_key
  seek_to_key-reading bs c block m key h cached order = elim (first_block key [] bs h order) [
    | inl i ↦
        rw (i.left, i.blocks)
          (at_row i (rw i.blocks at h) (rw i.blocks at cached) (rw i.blocks at i.block_found))
    | inr i ↦
        let past : leb (length (lengths (last_keys_of bs))) (length bs) ≡ true =
          ground (arith, length-last_keys bs) in
        rw (find_block_by_key-index_of bs key, i.0, past, i.1, length-last_keys bs)
          (
            reading s o bs (at (length bs) 0) block m,
            refl,
            record {
              cursor = at (length bs) 0;
              block = block;
              read_num = m;
              is_state = refl;
              cached = cached;
              stands = inr (refl, refl);
            },
          )
  ]
    where
      at_row :
          (i : IsFirstBlock key bs)
          → All IsBlock (i.front ++ ((i.done ++ (i.row ∷ i.rest)) ∷ i.back))
          → IsCached s o (i.front ++ ((i.done ++ (i.row ∷ i.rest)) ∷ i.back)) block m
          → lower_bound (last_keys_of (i.front ++ ((i.done ++ (i.row ∷ i.rest)) ∷ i.back))) key
            ≡ length i.front
          → (r' : Reader) × (seek_to_key s
                (reading s o (i.front ++ ((i.done ++ (i.row ∷ i.rest)) ∷ i.back)) c block m)
                key
              ≡ ok (r', string_eq i.row.0 key))
            × IsBefore s o
                (i.front ++ ((i.done ++ (i.row ∷ i.rest)) ∷ i.back))
                r'
                (i.row ∷ (i.rest ++ concat i.back))
      at_row i each kept found =
          let b = i.done ++ (i.row ∷ i.rest) in
          let whole = i.front ++ (b ∷ i.back) in
          let there : leb (length (lengths (last_keys_of whole))) (length i.front) ≡ false =
            ground (arith, length-append i.front (b ∷ i.back), length-last_keys whole) in
          (
            reading s o whole (at (length i.front) (length i.done)) (block_of b)
                (some (length i.front)),
            rw (find_block_by_key-index_of whole key, found, there)
                (seek_in_block-reading i.front i.done i.row i.rest i.back c block m key
                  (All-back i.front b i.back each).0.1 kept i.row_found),
            record {
              cursor = at (length i.front) (length i.done);
              block = block_of b;
              read_num = some (length i.front);
              is_state = refl;
              cached = IsCached-loaded s o i.front b i.back;
              stands = inl (record {
                front = i.front;
                done = i.done;
                row = i.row;
                rest = i.rest;
                back = i.back;
                blocks = refl;
                position = refl;
                rows = refl;
              });
            },
          )

  -- Wherever a reader of a table of the builder stands, SeekToKey moves it to the first row whose key is not
  -- before the key, and returns whether that row has the key. The blocks have rows and are small, and the
  -- keys of the table are in order.
  pub seek_to_key-IsBefore :
      (bs : List (List Row)) (r : Reader) (left : List Row) (key : Bytes)
      → All IsBlock bs
      → InOrder [] (concat bs)
      → IsBefore s o bs r left
      → (r' : Reader) × (seek_to_key s r key ≡ ok (r', starts_with key (from_key key (concat bs))))
        × IsBefore s o bs r' (from_key key (concat bs))
  seek_to_key-IsBefore bs r left key h order before =
      rw before.is_state (
        seek_to_key-reading bs before.cursor before.block before.read_num key h before.cached order)
