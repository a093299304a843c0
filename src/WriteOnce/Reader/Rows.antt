-- ===== src/WriteOnce/Reader/Rows.antt =====
-- `ReadRow` of src/table-backend-writeonce.cc on a file of the builder: the reader as the rows that it has
-- not read.
use cantera_table.Shared.{
  ℕ, zero, suc, ◌+◌, ◌-◌, ◌^◌, ◌≡◌, ◌⊎◌, refl, sym, ap, List, [], ◌∷◌, ◌++◌, true, false, Option,
  none, some, leb, if◌then◌else◌, length, take, All, append_assoc, append-nil, length-append, inl,
  inr, arith,
}
use cantera_table.Result.{ok}
use cantera_table.WriteOnce.Codec.{Storage}
use cantera_table.WriteOnce.Block.{Block}
use cantera_table.WriteOnce.Block.Entries.{lengths, firsts, seconds, block_of, length-firsts}
use cantera_table.WriteOnce.Index.{element}
use cantera_table.WriteOnce.Builder.{Options}
use cantera_table.WriteOnce.Builder.Blocks.{Row, IsSmall}
use cantera_table.WriteOnce.Builder.State.{IsBlock, last_keys_of}
use cantera_table.WriteOnce.Builder.Rows.{concat}
use cantera_table.WriteOnce.Builder.Table.{length-last_keys}
use cantera_table.WriteOnce.Cursor.{Cursor}
use cantera_table.WriteOnce.Reader.{Reader, place, at, read_entry, read_row, read_rows}
use cantera_table.WriteOnce.Reader.Open.{fresh}
use cantera_table.WriteOnce.Reader.Blocks.{
  reading, IsCached, IsCached-loaded, load_block-reading, keys-block_of, values-block_of,
}

-- A position at a row of a block, with the rows from there on.
pub record InBlock (bs : List (List Row)) (p : ℕ × ℕ) (left : List Row) : Type 0 where
  pub front : List (List Row)
  pub done : List Row
  pub row : Row
  pub rest : List Row
  pub back : List (List Row)
  pub blocks : bs ≡ front ++ ((done ++ (row ∷ rest)) ∷ back)
  pub position : p ≡ (length front, length done)
  pub rows : left ≡ row ∷ (rest ++ concat back)

-- A position of the table, which is at a row or behind the last one.
abbrev pub Stands : List (List Row) → ℕ × ℕ → List Row → Type 0
Stands bs p left = InBlock bs p left ⊎ ((p.0 ≡ length bs) × (left ≡ []))

-- The reader has the rows `left` before it.
pub record IsBefore (s : Storage) (o : Options) (bs : List (List Row)) (r : Reader)
    (left : List Row) : Type 0 where
  pub cursor : Cursor
  pub block : Block
  pub read_num : Option ℕ
  pub is_state : r ≡ reading s o bs cursor block read_num
  pub cached : IsCached s o bs block read_num
  pub stands : Stands bs (place cursor) left

abbrev pub head : List Row → Option Row
head [] = none
head (e ∷ es) = some e

abbrev pub tail : List Row → List Row
tail [] = []
tail (e ∷ es) = es

pub Stands-start :
    (front back : List (List Row))
    → All IsBlock back
    → Stands (front ++ back) (length front, 0) (concat back)
Stands-start front [] h = inr (rw (append-nil front), refl)
Stands-start front ([] ∷ back) h = elim h.0.0 [ ]
Stands-start front ((e ∷ es) ∷ back) h = inl (record {
  front = front;
  done = [];
  row = e;
  rest = es;
  back = back;
  blocks = refl;
  position = refl;
  rows = refl;
})

pub All-back :
    (front : List (List Row)) (b : List Row) (back : List (List Row))
    → All IsBlock (front ++ (b ∷ back))
    → IsBlock b × All IsBlock back
All-back [] b back h = h
All-back (x ∷ front) b back h = All-back front b back h.1

pub firsts-element :
    (done : List Row) (row : Row) (rest : List Row)
    → element (firsts (done ++ (row ∷ rest))) (length done) ≡ ok row.0
unfolding element
firsts-element [] row rest = refl
firsts-element (x ∷ done) row rest = firsts-element done row rest

seconds-element :
    (done : List Row) (row : Row) (rest : List Row)
    → element (seconds (done ++ (row ∷ rest))) (length done) ≡ ok row.1
unfolding element
seconds-element [] row rest = refl
seconds-element (x ∷ done) row rest = seconds-element done row rest

-- The position behind a row.
abbrev after : ℕ → ℕ → List Row → Cursor
after b e [] = at (b + 1) 0
after b e (x ∷ rest) = at b (e + 1)

is_last :
    (done : List Row) (row : Row) (rest : List Row) (b : ℕ)
    → (if leb (length (lengths (firsts (done ++ (row ∷ rest))))) (length done + 1)
        then at (b + 1) 0
        else at b (length done + 1))
      ≡ after b (length done) rest
is_last done row [] b =
    let t : leb (length (lengths (firsts (done ++ (row ∷ []))))) (length done + 1) ≡ true =
      ground (arith, length-firsts (done ++ (row ∷ [])), length-append done (row ∷ [])) in
    rw t
is_last done row (x ∷ rest) b =
    let f : leb (length (lengths (firsts (done ++ (row ∷ x ∷ rest))))) (length done + 1) ≡ false =
      ground
        (arith, length-firsts (done ++ (row ∷ x ∷ rest)), length-append done (row ∷ x ∷ rest)) in
    rw f

after-Stands :
    (front : List (List Row)) (done : List Row) (row : Row) (rest : List Row)
    (back : List (List Row))
    → All IsBlock back
    → Stands
        (front ++ ((done ++ (row ∷ rest)) ∷ back))
        (place (after (length front) (length done) rest))
        (rest ++ concat back)
after-Stands front done row [] back h =
    let n : length (front ++ ((done ++ (row ∷ [])) ∷ [])) ≡ length front + 1 =
      omega (arith, length-append front ((done ++ (row ∷ [])) ∷ [])) in
    rw n at (
      rw (append_assoc front ((done ++ (row ∷ [])) ∷ []) back) at
        (Stands-start (front ++ ((done ++ (row ∷ [])) ∷ [])) back h))
after-Stands front done row (x ∷ rest) back h = inl (record {
  front = front;
  done = done ++ (row ∷ []);
  row = x;
  rest = rest;
  back = back;
  blocks = rw (append_assoc done (row ∷ []) (x ∷ rest));
  position = ap (λ n. (length front, n)) (sym (length-append done (row ∷ [])));
  rows = refl;
})

module _ (s : Storage) (o : Options) where
  read_entry-reading :
      (front : List (List Row)) (done : List Row) (row : Row) (rest : List Row)
      (back : List (List Row)) (c : Cursor) (block : Block) (m : Option ℕ)
      → IsSmall (done ++ (row ∷ rest))
      → IsCached s o (front ++ ((done ++ (row ∷ rest)) ∷ back)) block m
      → read_entry s
          (reading s o (front ++ ((done ++ (row ∷ rest)) ∷ back)) c block m)
          (length front)
          (length done)
        ≡ ok (
          reading s o
              (front ++ ((done ++ (row ∷ rest)) ∷ back))
              (after (length front) (length done) rest)
              (block_of (done ++ (row ∷ rest)))
              (some (length front)),
          some row,
        )
  unfolding read_entry
  read_entry-reading front done row rest back c block m small cached = rw (
    load_block-reading s o front (done ++ (row ∷ rest)) back c block m small cached,
    keys-block_of (done ++ (row ∷ rest)),
    values-block_of (done ++ (row ∷ rest)),
    firsts-element done row rest,
    seconds-element done row rest,
    is_last done row rest (length front),
  )

  read_row-row :
      (front : List (List Row)) (done : List Row) (row : Row) (rest : List Row)
      (back : List (List Row)) (c : Cursor) (block : Block) (m : Option ℕ)
      → IsSmall (done ++ (row ∷ rest))
      → IsCached s o (front ++ ((done ++ (row ∷ rest)) ∷ back)) block m
      → place c ≡ (length front, length done)
      → read_row s (reading s o (front ++ ((done ++ (row ∷ rest)) ∷ back)) c block m)
        ≡ ok (
          reading s o
              (front ++ ((done ++ (row ∷ rest)) ∷ back))
              (after (length front) (length done) rest)
              (block_of (done ++ (row ∷ rest)))
              (some (length front)),
          some row,
        )
  unfolding read_row
  read_row-row front done row rest back c block m small cached position =
      let bs = front ++ ((done ++ (row ∷ rest)) ∷ back) in
      let there : leb (length (lengths (last_keys_of bs))) (length front) ≡ false =
        ground (arith, length-append front ((done ++ (row ∷ rest)) ∷ back), length-last_keys bs) in
      rw (position, there) (read_entry-reading front done row rest back c block m small cached)

  read_row-end :
      (bs : List (List Row)) (c : Cursor) (block : Block) (m : Option ℕ)
      → (place c).0 ≡ length bs
      → read_row s (reading s o bs c block m)
        ≡ ok (reading s o bs (at (length bs) (place c).1) block m, none)
  unfolding read_row
  read_row-end bs c block m position =
      let there : leb (length (lengths (last_keys_of bs))) (length bs) ≡ true =
        ground (arith, length-last_keys bs) in
      rw (position, there)

  read_row-Stands :
      (bs : List (List Row)) (c : Cursor) (block : Block) (m : Option ℕ) (left : List Row)
      → All IsBlock bs
      → IsCached s o bs block m
      → Stands bs (place c) left
      → (r' : Reader) × (read_row s (reading s o bs c block m) ≡ ok (r', head left))
        × IsBefore s o bs r' (tail left)
  read_row-Stands bs c block m left h cached (inl p) =
      let parts = All-back p.front (p.done ++ (p.row ∷ p.rest)) p.back (rw p.blocks at h) in
      let b = p.done ++ (p.row ∷ p.rest) in
      let whole = p.front ++ (b ∷ p.back) in
      rw (p.blocks, p.rows)
        (
          reading s o whole (after (length p.front) (length p.done) p.rest) (block_of b)
              (some (length p.front)),
          read_row-row p.front p.done p.row p.rest p.back c block m parts.0.1
              (rw p.blocks at cached) p.position,
          record {
            cursor = after (length p.front) (length p.done) p.rest;
            block = block_of b;
            read_num = some (length p.front);
            is_state = refl;
            cached = IsCached-loaded s o p.front b p.back;
            stands = after-Stands p.front p.done p.row p.rest p.back parts.1;
          },
        )
  read_row-Stands bs c block m left h cached (inr p) = rw p.1 (
    reading s o bs (at (length bs) (place c).1) block m,
    read_row-end bs c block m p.0,
    record {
      cursor = at (length bs) (place c).1;
      block = block;
      read_num = m;
      is_state = refl;
      cached = cached;
      stands = inr (refl, refl);
    },
  )

  -- A reader that stands before some rows of a table of the builder gives the first of them by ReadRow, or
  -- none at the end, and then stands before the others. The blocks have rows and are small.
  pub read_row-IsBefore :
      (bs : List (List Row)) (r : Reader) (left : List Row)
      → All IsBlock bs
      → IsBefore s o bs r left
      → (r' : Reader) × (read_row s r ≡ ok (r', head left)) × IsBefore s o bs r' (tail left)
  read_row-IsBefore bs r left h before = rw before.is_state (
      read_row-Stands bs before.cursor before.block before.read_num left h before.cached
        before.stands)

  -- Reading row after row gives the rows before the reader in order.
  pub read_rows-IsBefore :
      (n : ℕ) (bs : List (List Row)) (r : Reader) (left : List Row)
      → All IsBlock bs
      → IsBefore s o bs r left
      → read_rows s n r ≡ ok (take n left)
  unfolding read_rows
  read_rows-IsBefore zero bs r left h before = refl
  read_rows-IsBefore (suc n) bs r [] h before =
      let step = read_row-IsBefore bs r [] h before in rw step.1
  read_rows-IsBefore (suc n) bs r (e ∷ left) h before =
      let step = read_row-IsBefore bs r (e ∷ left) h before in
      rw (step.1, read_rows-IsBefore n bs step.0 left h step.2)

  pub fresh-IsBefore :
      (bs : List (List Row)) → All IsBlock bs → IsBefore s o bs (fresh s o bs) (concat bs)
  fresh-IsBefore bs h = record {
    cursor = record { block_num = none; entry_num = 2 ^ 32 - 1 };
    block = (fresh s o bs).block;
    read_num = none;
    is_state = refl;
    cached = tt;
    stands = Stands-start [] bs h;
  }
