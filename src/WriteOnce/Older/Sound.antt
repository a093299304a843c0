-- ===== src/WriteOnce/Older/Sound.antt =====
-- What SeekToKey of `WriteOnceReader_v3` in src/table-backend-writeonce.cc finds.
use cantera_table.Shared.{
  ℕ, zero, suc, ◌≡◌, ◌∙◌, sym, ap, List, [], ◌∷◌, true, false, Option, none, some, Bool-cases, inl,
  inr, ◌&&◌, leb, ltb, ◌==◌, length, drop, ◌+◌, ◌-◌,
}
use Prim.Native.Nat.{bit_and, bit_or}
use cantera_table.Shared.Words.{u64, shl}
use cantera_table.Shared.Strings.{string_lt, string_eq, string_eq_sound}
use cantera_table.Result.{Result, ok, err, overrun, require, guard, ◌>>=◌, bind-ok, ok-injective}
use cantera_table.Integer.{parse_groups, parse_integer}
use cantera_table.WriteOnce.Older.{
  OlderReader, Probe, bytes_at, index_at, skip_size, c_string, next_probe, key_at, seek_loop,
  seek_to_key, read_at, read_row,
}

-- Skipping a size is parsing it without looking.
skip_size-parse_groups :
    (result b : ℕ) (rest : List ℕ) (p : ℕ × List ℕ)
    → parse_groups result b rest ≡ ok p
    → skip_size (b ∷ rest) ≡ ok p.1
unfolding parse_groups skip_size
skip_size-parse_groups result b [] p h = elim (Bool-cases (bit_and b 0x80 == 0)) [
  | inl t ↦ rw t (ap (λ (r : Result (ℕ × List ℕ)). r >>= λ q. ok q.1) (rw t at h))
  | inr f ↦ absurd (let g : err overrun ≡ ok p = rw f at h in cc)
]
skip_size-parse_groups result b (c ∷ rest) p h = elim (Bool-cases (bit_and b 0x80 == 0)) [
  | inl t ↦ rw t (ap (λ (r : Result (ℕ × List ℕ)). r >>= λ q. ok q.1) (rw t at h))
  | inr f ↦
      rw f
        (skip_size-parse_groups (bit_or (u64 (shl result 7)) (bit_and c 0x7f)) c rest p (rw f at h))
]

-- A key that is found is the key of the row there.
seek_loop-found :
    (rounds : ℕ) (r : OlderReader) (key : List ℕ) (p : Probe) (r' : OlderReader)
    → seek_loop rounds r key p ≡ ok (r', true)
    → (n : ℕ) × (r' ≡ record r { offset = n }) × (key_at r n ≡ ok key)
unfolding seek_loop
seek_loop-found zero r key p r' h = absurd cc
seek_loop-found (suc rounds) r key p r' h =
    let slot = bind-ok (index_at r p.hash) _ (r', true) h in
    let tmp = slot.0 in
    elim (Bool-cases (tmp == 0)) [
      | inl empty ↦ absurd (
          let g : false ≡ true =
            ap (λ x. x.1) (ok-injective (r, false) (r', true) (rw empty at slot.2)) in
          cc)
      | inr used ↦ elim (Bool-cases (leb p.min_offset tmp && leb tmp p.max_offset)) [
        | inr outside ↦
            seek_loop-found rounds r key (next_probe r p) r' (rw (used, outside) at slot.2)
        | inl inside ↦
            let row = bind-ok (key_at r tmp) _ (r', true) (rw (used, inside) at slot.2) in
            elim (Bool-cases (string_eq key row.0)) [
              | inl same ↦
                  let here =
                    ap (λ x. x.0)
                      (ok-injective (record r { offset = tmp }, true) (r', true)
                        (rw same at row.2)) in
                  (tmp, sym here, row.1 ∙ ap ok (sym (string_eq_sound key row.0 same)))
              | inr apart ↦ elim (Bool-cases (string_lt key row.0)) [
                | inl lower ↦
                    seek_loop-found rounds r key (next_probe r _) r' (rw (apart, lower) at row.2)
                | inr higher ↦
                    seek_loop-found rounds r key (next_probe r _) r' (rw (apart, higher) at row.2)
              ]
            ]
      ]
    ]

read_at-key_at :
    (r r' : OlderReader) (row : List ℕ × List ℕ) (key bytes : List ℕ)
    → (skip_size bytes >>= c_string) ≡ ok key
    → read_at r bytes ≡ ok (r', some row)
    → row.0 ≡ key
unfolding read_at parse_integer
read_at-key_at r r' row key [] f g = absurd cc
read_at-key_at r r' row key (b ∷ rest) f g = elim (Bool-cases (b == 0)) [
  | inl zero_byte ↦ absurd (
      let e : none ≡ some row =
        ap (λ x. x.1) (ok-injective (r, none) (r', some row) (rw zero_byte at g)) in
      cc)
  | inr size_byte ↦
      let size = bind-ok (parse_integer (b ∷ rest)) _ (r', some row) (rw size_byte at g) in
      let text = bind-ok (c_string size.0.1) _ (r', some row) size.2 in
      let long = bind-ok (guard (ltb (length text.0) size.0.0) require) _ (r', some row) text.2 in
      let value =
        bind-ok (bytes_at (drop (length text.0 + 1) size.0.1) (size.0.0 - length text.0 - 1)) _
          (r', some row) long.2 in
      let skipped = skip_size-parse_groups (bit_and b 0x7f) b rest size.0 size.1 in
      let same : text.0 ≡ key = ok-injective text.0 key (sym text.1 ∙ (rw skipped at f)) in
      let given =
        ap (λ (o : Option (List ℕ × List ℕ)). elim o [ none ↦ key | some q ↦ q.0 ])
          (ap (λ x. x.1) (ok-injective (_, some (text.0, value.0)) (r', some row) value.2)) in
      sym given ∙ same
]

-- ReadRow gives the key of the row where the reader stands.
read_row-key_at :
    (r r' : OlderReader) (row : List ℕ × List ℕ) (key : List ℕ)
    → key_at r r.offset ≡ ok key
    → read_row r ≡ ok (r', some row)
    → row.0 ≡ key
unfolding read_row key_at
read_row-key_at r r' row key found h =
    let checked = bind-ok (guard (leb 24 r.offset) require) _ (r', some row) h in
    elim (Bool-cases (leb r.header.index_offset r.offset)) [
      | inl end ↦ absurd (
          let g : none ≡ some row =
            ap (λ x. x.1) (ok-injective (r, none) (r', some row) (rw end at checked.2)) in
          cc)
      | inr more ↦ read_at-key_at r r' row key (drop r.offset r.buffer) found (rw more at checked.2)
    ]

-- SeekToKey of the reader of older tables that returns true stands where ReadRow, if it gives a row,
-- gives one with the key.
pub read_row-seek_to_key :
    (hash_of : List ℕ → ℕ) (rounds : ℕ) (r r' r'' : OlderReader) (key : List ℕ)
    (row : List ℕ × List ℕ)
    → seek_to_key hash_of rounds r key ≡ ok (r', true)
    → read_row r' ≡ ok (r'', some row)
    → row.0 ≡ key
unfolding seek_to_key key_at
read_row-seek_to_key hash_of rounds r r' r'' key row h g =
    let start = bind-ok (guard (ltb 0 r.index_size) overrun) _ (r', true) h in
    let found = seek_loop-found rounds r key _ r' start.2 in
    read_row-key_at r' r'' row key (rw found.1 found.2) g
