-- ===== src/WriteOnce/Sorting/Entries.antt =====
-- The index of `WriteOnceSortingBuilder` of src/table-backend-writeonce.cc as the rows that its entries stand for.
use cantera_table.Shared.{
  drop-front, take-front, take-whole, drop_append, ℕ, ◌+◌, ◌^◌, ◌≤◌, ◌<◌, ◌≡◌, ◌≢◌, ◌∙◌, refl, sym,
  List, [], ◌∷◌, ◌++◌, true, false, leb, ltb, ◌==◌, if◌then◌else◌, length, take, drop,
  length-append, length-drop, append_assoc, arith,
}
use cantera_table.Shared.Words.{u64}
use cantera_table.Result.{ok}
use cantera_table.WriteOnce.Builder.Blocks.{Row}
use cantera_table.WriteOnce.Sorting.{
  Entry, Sorter, prefix_size, size_max, add_entry, write_raw, write_entry_data, add,
}

-- The entry is of the row, which is in the temporary file.
pub record IsOf (raw : List ℕ) (key_size_max : ℕ) (e : Entry) (row : Row) : Type 0 where
  pub key_size : e.key_size ≡ length row.0
  pub value_size : e.value_size ≡ length row.1
  pub prefix : e.prefix ≡ take prefix_size row.0
  pub room : length row.0 ≤ key_size_max
  pub small : length row.0 + length row.1 < 2 ^ 32
  pub inside : e.offset + (length row.0 + length row.1) ≤ length raw
  pub stored : take (length row.0 + length row.1) (drop e.offset raw) ≡ row.0 ++ row.1

-- The entries are of the rows.
abbrev pub AreOf : List ℕ → ℕ → List Entry → List Row → Type 0
AreOf raw key_size_max [] [] = Unit
AreOf raw key_size_max [] (r ∷ rs) = ⊥
AreOf raw key_size_max (e ∷ es) [] = ⊥
AreOf raw key_size_max (e ∷ es) (r ∷ rs) = IsOf raw key_size_max e r × AreOf raw key_size_max es rs

-- Writing more leaves the entries what they are.
IsOf-append :
    (raw more : List ℕ) (m m' : ℕ) (e : Entry) (row : Row)
    → m ≤ m'
    → IsOf raw m e row
    → IsOf (raw ++ more) m' e row
IsOf-append raw more m m' e row grows h =
    let front = drop-front e.offset raw more (omega (arith, h.inside)) in
    let long = length-drop e.offset raw in
    record {
      key_size = h.key_size;
      value_size = h.value_size;
      prefix = h.prefix;
      room = omega (arith, h.room, grows);
      small = h.small;
      inside = omega (arith, h.inside, length-append raw more);
      stored = rw front (
          take-front (length row.0 + length row.1) (drop e.offset raw) more
            (omega (arith, long, h.inside))
          ∙ h.stored);
    }

AreOf-snoc :
    (raw more : List ℕ) (m m' : ℕ) (es : List Entry) (rows : List Row) (e : Entry) (row : Row)
    → m ≤ m'
    → AreOf raw m es rows
    → IsOf (raw ++ more) m' e row
    → AreOf (raw ++ more) m' (es ++ (e ∷ [])) (rows ++ (row ∷ []))
AreOf-snoc raw more m m' [] [] e row grows h k = (k, tt)
AreOf-snoc raw more m m' [] (r ∷ rows) e row grows h k = absurd h
AreOf-snoc raw more m m' (d ∷ es) [] e row grows h k = absurd h
AreOf-snoc raw more m m' (d ∷ es) (r ∷ rows) e row grows h k =
    (IsOf-append raw more m m' d r grows h.0, AreOf-snoc raw more m m' es rows e row grows h.1 k)

-- The rows were added to the builder.
pub record Holding (w : Sorter) (rows : List Row) : Type 0 where
  pub entries : AreOf w.raw w.key_size_max w.index rows
  pub offset : w.offset ≡ length w.raw

-- A row that WriteEntryData takes.
abbrev pub IsFull : Row → Type 0
IsFull row = (row.0 ≢ []) × (row.1 ≢ [])

some_bytes : (a : List ℕ) → a ≢ [] → (length a == 0) ≡ false
some_bytes [] h = absurd (h refl)
some_bytes (x ∷ a) h = ground arith

write_raw-ok : (raw bytes : List ℕ) → bytes ≢ [] → write_raw raw bytes ≡ ok (raw ++ bytes)
unfolding write_raw
write_raw-ok raw bytes h = rw (some_bytes bytes h) refl

larger : (m n : ℕ) → (m ≤ (if ltb m n then n else m)) × (n ≤ (if ltb m n then n else m))
larger m n = (ground arith, ground arith)

pub add-Holding :
    (w : Sorter) (rows : List Row) (row : Row)
    → Holding w rows
    → IsFull row
    → length row.0 + length row.1 < 2 ^ 32
    → length w.raw + (length row.0 + length row.1) < 2 ^ 64
    → (w' : Sorter) × (add w row.0 row.1 ≡ ok w')
      × Holding w' (rows ++ (row ∷ []))
      × (length w'.raw ≡ length w.raw + (length row.0 + length row.1))
unfolding add add_entry write_entry_data
add-Holding w rows row h full small room =
    let key_fits : leb (length row.0) size_max ≡ true = ground (arith, small) in
    let value_fits : leb (length row.1) size_max ≡ true = ground (arith, small) in
    let m = if ltb w.key_size_max (length row.0) then length row.0 else w.key_size_max in
    let e : Entry = record {
      offset = w.offset;
      value_size = length row.1;
      key_size = length row.0;
      prefix = take prefix_size row.0;
    } in
    let joined = append_assoc w.raw row.0 row.1 in
    let size : length (w.raw ++ (row.0 ++ row.1)) ≡ length w.raw + (length row.0 + length row.1) =
      omega (arith, length-append w.raw (row.0 ++ row.1), length-append row.0 row.1) in
    let new : Sorter = record {
      raw = w.raw ++ (row.0 ++ row.1);
      index = w.index ++ (e ∷ []);
      offset = u64 (w.offset + (length row.0 + length row.1));
      key_size_max = m;
    } in
    (
      new,
      rw
          (
            key_fits,
            value_fits,
            write_raw-ok w.raw row.0 full.0,
            write_raw-ok (w.raw ++ row.0) row.1 full.1,
            joined,
          )
          refl,
      record {
        entries =
            AreOf-snoc w.raw (row.0 ++ row.1) w.key_size_max m w.index rows e row
              (larger w.key_size_max (length row.0)).0 h.entries
              (record {
                key_size = refl;
                value_size = refl;
                prefix = refl;
                room = (larger w.key_size_max (length row.0)).1;
                small = small;
                inside = omega (arith, h.offset, size);
                stored =
                    rw (h.offset, drop_append w.raw (row.0 ++ row.1))
                      (let n = length-append row.0 row.1 in
                        rw (sym n) (take-whole (row.0 ++ row.1)));
              });
        offset = omega (arith, h.offset, size, room);
      },
      size,
    )
