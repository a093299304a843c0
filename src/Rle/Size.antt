-- ===== src/Rle/Size.antt =====
-- How many bytes the writer of src/rle.c writes.
use cantera_table.Shared.{
  ℕ, zero, suc, ◌+◌, ◌*◌, ◌≤◌, ◌≡◌, List, [], ◌∷◌, false, arith, leb, ◌==◌, not, ◌&&◌, length,
  length-append, Bool-cases, inl, inr,
}
use cantera_table.Rle.{encode}
use cantera_table.Rle.Pending.{run_bytes, grow, pending, encode-pending}

abbrev open_run : ℕ → ℕ
open_run zero = 0
open_run (suc r) = 2

length-run_bytes : (v r : ℕ) → length (run_bytes v r) ≤ open_run r
unfolding run_bytes
length-run_bytes v zero = omega arith
length-run_bytes v (suc zero) = ground arith
length-run_bytes v (suc (suc zero)) = ground arith
length-run_bytes v (suc (suc (suc r))) =
    let long : leb (suc (suc (suc r))) 2 ≡ false = ground arith in
    let some_run : (suc (suc (suc r)) == 0) ≡ false = ground arith in
    rw (some_run, long) (omega arith)

length-grow :
    (x r n : ℕ) (later : ℕ → List ℕ)
    → ((r : ℕ) → length (later r) ≤ n + open_run r)
    → length (grow x (suc r) later) ≤ n + 2
unfolding grow
length-grow x r n later h = elim (Bool-cases (suc r == 0x40)) [
  | inl t ↦ rw t (omega (arith, h 0))
  | inr f ↦ rw f (omega (arith, h (suc r)))
]

length-pending : (xs : List ℕ) (v r : ℕ) → length (pending xs v r) ≤ 2 * length xs + open_run r
unfolding pending
length-pending [] v r = omega (arith, length-run_bytes v r)
length-pending (x ∷ xs) v zero =
    let g = length-grow x 0 (2 * length xs) (pending xs x) (λ r. length-pending xs x r) in
    let none_open : (not (x == v) && false) ≡ false = ground arith in
    rw none_open (omega (arith, g))
length-pending (x ∷ xs) v (suc r) = elim (Bool-cases (x == v)) [
  | inl t ↦
      let one : suc r + 1 ≡ suc (suc r) = omega arith in
      rw (t, one)
        (omega (
          arith,
          length-grow x (suc r) (2 * length xs) (pending xs x) (λ r. length-pending xs x r),
        ))
  | inr f ↦
      let some_run : (suc r == 0) ≡ false = ground arith in
      let g = length-grow x 0 (2 * length xs) (pending xs x) (λ r. length-pending xs x r) in
      rw (f, some_run)
        (omega (
          arith,
          length-append (run_bytes v (suc r)) (grow x 1 (pending xs x)),
          length-run_bytes v (suc r),
          g,
        ))
]

-- The writer writes at most two bytes for a byte.
pub length-encode_le : (xs : List ℕ) → length (encode xs) ≤ 2 * length xs
length-encode_le xs = rw (encode-pending xs) (omega (arith, length-pending xs 0 0))
