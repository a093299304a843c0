-- ===== src/Rle/RoundTrip.antt =====
-- The reader takes exactly what the writer wrote.
use Prim.Native.Nat.add
use mathlib.Core.Logic.{◌⊎◌, ◌≢◌}
use native.Mathlib.Decide.{dec_lt, ℕ_discrete}
use cantera_table.Shared.{
  ℕ, zero, suc, ◌+◌, ◌≤◌, ◌<◌, ◌≡◌, refl, ap, List, [], ◌∷◌, ◌++◌, append_assoc, arith, length,
  replicate, All, inl, inr,
}
use cantera_table.Shared.Bytes.{IsByte, top2, low6, run_byte}
use cantera_table.Result.{ok}
use cantera_table.Rle.Pending.{run_bytes, grow, pending, encode-pending}
use cantera_table.Rle.{encode, Reader, init_read, read_byte, read_bytes, read_block}

reader : ℕ → ℕ → List ℕ → Reader
reader r l rest = record { run = r; last = l; rest = rest }

-- One byte, and then the bytes of the rest.
read_bytes-suc :
    (n b : ℕ) (c d : Reader) {e : Reader} {xs : List ℕ}
    → read_byte c ≡ ok (b, d)
    → read_bytes n d ≡ ok (xs, e)
    → read_bytes (suc n) c ≡ ok (b ∷ xs, e)
unfolding read_bytes
read_bytes-suc n b c d p q = rw (p, q)

module _ (n v : ℕ) (rest : List ℕ) {e : Reader} {ys : List ℕ}
    (behind : read_bytes n (reader 0 v rest) ≡ ok (ys, e)) where
  -- The copies that a run's header has announced.
  read_bytes-drain : (r : ℕ) → read_bytes (r + n) (reader r v rest) ≡ ok (replicate r v ++ ys, e)
  read_bytes-drain zero = rw (add.zero n) behind
  read_bytes-drain (suc r) = rw (add.suc r n) (
      read_bytes-suc (r + n) v (reader (suc r) v rest) (reader r v rest)
        (unfold read_byte reader in ground arith) (read_bytes-drain r))

  read_literal : (l : ℕ) → v < 0xc0 → read_bytes (suc n) (reader 0 l (v ∷ rest)) ≡ ok (v ∷ ys, e)
  read_literal l low =
      read_bytes-suc n v (reader 0 l (v ∷ rest)) (reader 0 v rest)
        (unfold read_byte reader in ground (arith, top2 v)) behind

  read_long :
      (r l : ℕ)
      → r < 64
      → read_bytes (suc (r + n)) (reader 0 l ((192 + r) ∷ v ∷ rest))
        ≡ ok (v ∷ (replicate r v ++ ys), e)
  read_long r l fits =
      read_bytes-suc (r + n) v (reader 0 l ((192 + r) ∷ v ∷ rest)) (reader r v rest)
        (unfold read_byte reader in ground (arith, top2 (192 + r), low6 (192 + r)))
        (read_bytes-drain r)

run_bytes-long :
    (r v : ℕ) → r < 64 → (2 ≤ r) ⊎ (0xc0 ≤ v) → run_bytes v (suc r) ≡ (192 + r) ∷ v ∷ []
unfolding run_bytes
run_bytes-long r v fits long = ground (arith, run_byte r)

-- A run as a whole, whichever way it is written.
read_bytes-run :
    (r n v l : ℕ) (rest : List ℕ) {e : Reader} {ys : List ℕ}
    → r < 64
    → IsByte v
    → read_bytes n (reader 0 v rest) ≡ ok (ys, e)
    → read_bytes (suc (r + n)) (reader 0 l (run_bytes v (suc r) ++ rest))
      ≡ ok (v ∷ (replicate r v ++ ys), e)
read_bytes-run zero n v l rest fits byte behind = elim (dec_lt v 0xc0) [
  | yes low ↦
      rw (add.zero n) (unfold run_bytes in ground (arith, read_literal n v rest behind l low))
  | no high ↦
      rw (run_bytes-long zero v fits (inr (omega arith))) (read_long n v rest behind zero l fits)
]
read_bytes-run (suc zero) n v l rest fits byte behind = elim (dec_lt v 0xc0) [
  | yes low ↦
      rw (add.suc zero n, add.zero n)
        (unfold run_bytes in
          ground
            (arith, read_literal (suc n) v (v ∷ rest) (read_literal n v rest behind v low) l low))
  | no high ↦ rw (run_bytes-long 1 v fits (inr (omega arith))) (read_long n v rest behind 1 l fits)
]
read_bytes-run (suc (suc r)) n v l rest fits byte behind =
    rw (run_bytes-long (suc (suc r)) v fits (inl (omega arith)))
      (read_long n v rest behind (suc (suc r)) l fits)

replicate-snoc : (r v : ℕ) (xs : List ℕ) → replicate r v ++ (v ∷ xs) ≡ v ∷ (replicate r v ++ xs)
replicate-snoc zero v xs = refl
replicate-snoc (suc r) v xs = ap (λ (l : List ℕ). v ∷ l) (replicate-snoc r v xs)

-- What the reader makes of `r` pending copies of `v`, the bytes `xs` and whatever follows.
Reads : ℕ → ℕ → ℕ → List ℕ → List ℕ → Type 0
Reads r v l xs rest =
    (d : ℕ) × (read_bytes (r + length xs) (reader 0 l (pending xs v r ++ rest))
      ≡ ok (replicate r v ++ xs, reader 0 d rest))

-- The three ways in which one more byte meets the pending run.
module _ (x : ℕ) (xs : List ℕ) (v : ℕ) where
  pending-other :
      (r : ℕ) → x ≢ v → pending (x ∷ xs) v (suc r) ≡ run_bytes v (suc r) ++ pending xs x 1
  unfolding pending grow
  pending-other r h = ground arith

  pending-full : x ≡ v → pending (x ∷ xs) v 63 ≡ 0xff ∷ x ∷ pending xs x 0
  unfolding pending grow
  pending-full h = ground arith

  pending-more : (r : ℕ) → x ≡ v → r + 1 < 64 → pending (x ∷ xs) v r ≡ pending xs x (r + 1)
  unfolding pending grow
  pending-more r h fits = ground arith

  pending-first : pending (x ∷ xs) v 0 ≡ pending xs x 1
  unfolding pending grow
  pending-first = ground arith

-- The count of reads, regrouped around one byte.
regroup :
    (r n x : ℕ) (xs : List ℕ) (input : Reader) {d : Reader}
    → read_bytes (r + 1 + n) input ≡ ok (replicate (r + 1) x ++ xs, d)
    → read_bytes (r + suc n) input ≡ ok (replicate r x ++ (x ∷ xs), d)
regroup r n x xs input h =
    let count : r + suc n ≡ suc r + n = omega arith in
    let one_more : r + 1 ≡ suc r = omega arith in
    rw (count, replicate-snoc r x xs) (rw one_more at h)

-- The byte that completes a run of 64.
read_bytes-full :
    (x : ℕ) (xs : List ℕ) (v r l : ℕ) (rest : List ℕ) {e : Reader}
    → x ≡ v
    → r ≡ 63
    → read_bytes (length xs) (reader 0 x (pending xs x 0 ++ rest)) ≡ ok (xs, e)
    → read_bytes (r + suc (length xs)) (reader 0 l (pending (x ∷ xs) v r ++ rest))
      ≡ ok (replicate r v ++ (x ∷ xs), e)
read_bytes-full x xs v r l rest same full behind =
    let count : 63 + suc (length xs) ≡ suc (63 + length xs) = omega arith in
    rw (full, ← same, pending-full x xs x refl, count, replicate-snoc 63 x xs)
      (read_long (length xs) x (pending xs x 0 ++ rest) behind 63 l (omega arith))

read_bytes-pending :
    (xs : List ℕ) (r v l : ℕ) (rest : List ℕ)
    → r < 64
    → IsByte v
    → All IsByte xs
    → Reads r v l xs rest
unfolding Reads
read_bytes-pending [] zero v l rest fits byte bytes =
    (l, unfold pending run_bytes read_bytes in rw (add.zero 0))
read_bytes-pending [] (suc r) v l rest fits byte bytes = (
  v,
  rw (add.suc r 0) (
      unfold pending in read_bytes-run r 0 v l rest (omega arith) byte (unfold read_bytes in refl)),
)
read_bytes-pending (x ∷ xs) zero v l rest fits byte (byte', bytes) =
    let later = read_bytes-pending xs 1 x l rest (omega arith) byte' bytes in
    let count : 0 + suc (length xs) ≡ 1 + length xs = omega arith in
    (later.0, rw (pending-first x xs v, count) later.1)
read_bytes-pending (x ∷ xs) (suc r) v l rest fits byte (byte', bytes) = elim (ℕ_discrete x v) [
  | no other ↦
      let later = read_bytes-pending xs 1 x v rest (omega arith) byte' bytes in
      let count : 1 + length xs ≡ suc (length xs) = omega arith in
      (
        later.0,
        rw
            (
              add.suc r (suc (length xs)),
              pending-other x xs v r other,
              append_assoc (run_bytes v (suc r)) (pending xs x 1) rest,
            )
            (read_bytes-run r (suc (length xs)) v l (pending xs x 1 ++ rest) (omega arith) byte
              (rw count at later.1)),
      )
  | yes same ↦ elim (dec_lt (suc r + 1) 64) [
    | yes room ↦
        let later = read_bytes-pending xs (suc r + 1) x l rest room byte' bytes in
        (
          later.0,
          rw (pending-more x xs v (suc r) same room, ← same)
              (regroup (suc r) (length xs) x xs _ later.1),
        )
    | no full ↦
        let later = read_bytes-pending xs 0 x x rest (omega arith) byte' bytes in
        let none_left : 0 + length xs ≡ length xs = omega arith in
        (
          later.0,
          read_bytes-full x xs v (suc r) l rest same (omega arith) (rw none_left at later.1),
        )
  ]
]

-- Reading as many bytes as were put returns them, ends behind what `CA_rle_flush` left, whatever
-- follows it, and leaves no run pending.
pub read_block-encode :
    (bytes rest : List ℕ)
    → All IsByte bytes
    → read_block (length bytes) (encode bytes ++ rest) ≡ ok (bytes, rest)
unfolding read_block init_read Reads
read_block-encode bytes rest h =
    let whole = read_bytes-pending bytes 0 0 0 rest (omega arith) (omega arith) h in
    let count : 0 + length bytes ≡ length bytes = omega arith in
    let all : read_bytes (length bytes) (reader 0 0 (pending bytes 0 0 ++ rest))
        ≡ ok (bytes, reader 0 whole.0 rest) =
      rw count at whole.1 in
    rw (encode-pending bytes) (unfold reader in rw all)
