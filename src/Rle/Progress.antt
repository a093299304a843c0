-- ===== src/Rle/Progress.antt =====
-- How far the reader of src/parse.cc `ReadRLEByte` advances.
use Prim.Native.Nat.{bit_and}
use cantera_table.Shared.{
  ℕ, zero, suc, ◌≤◌, ◌-◌, List, [], ◌∷◌, Bool, true, false, length, ◌==◌, if◌then◌else◌, arith,
}
use cantera_table.Result.{Result, ok, err, require, ◌>>=◌}
use cantera_table.Result.Progress.{Proper, Reads, Reads-if}
use cantera_table.Rle.{Reader, init_read, read_byte, read_fresh, read_run, read_bytes, read_block}

-- The reader's rest is at most `n` bytes long.
abbrev Within {ℓ} : {A : Type ℓ} → ℕ → Result (A × Reader) → Type 0
Within n (ok p) = length p.1.rest ≤ n
Within n (err e) = Proper e

Within-le {ℓ} : {A : Type ℓ} (m n : ℕ) (r : Result (A × Reader)) → m ≤ n → Within m r → Within n r
Within-le m n (ok p) le h = omega arith
Within-le m n (err e) le h = h

Within-bind {ℓ κ} :
    {A : Type ℓ} {B : Type κ} (n : ℕ) (m : Result (A × Reader))
    (k : A × Reader → Result (B × Reader))
    → Within n m
    → ((p : A × Reader) → Within (length p.1.rest) (k p))
    → Within n (m >>= k)
Within-bind n (ok p) k h later = Within-le (length p.1.rest) n (k p) h (later p)
Within-bind n (err e) k h later = h

Within-if {ℓ} :
    {A : Type ℓ} (n : ℕ) (b : Bool) (r s : Result (A × Reader))
    → Within n r
    → Within n s
    → Within n (if b then r else s)
Within-if n true r s h k = h
Within-if n false r s h k = k

read_run-Within : (head : ℕ) (input : List ℕ) → Within (length input) (read_run head input)
unfolding read_run
read_run-Within head [] = tt
read_run-Within head (b ∷ rest) = omega arith

read_fresh-Within : (input : List ℕ) → Within (length input) (read_fresh input)
unfolding read_fresh
read_fresh-Within [] = tt
read_fresh-Within (b ∷ rest) =
    Within-if (length (b ∷ rest)) (bit_and 0xc0 b == 0xc0) (read_run b rest)
      (ok (b, record { run = 0; last = b; rest = rest }))
      (Within-le (length rest) (length (b ∷ rest)) (read_run b rest) (omega arith)
        (read_run-Within b rest))
      (omega arith)

read_byte-Within : (c : Reader) → Within (length c.rest) (read_byte c)
unfolding read_byte
read_byte-Within c =
    Within-if (length c.rest) (c.run == 0) (read_fresh c.rest)
      (ok (c.last, record c { run = c.run - 1 })) (read_fresh-Within c.rest) (omega arith)

read_bytes-Within : (n : ℕ) (c : Reader) → Within (length c.rest) (read_bytes n c)
unfolding read_bytes
read_bytes-Within zero c = omega arith
read_bytes-Within (suc n) c =
    Within-bind (length c.rest) (read_byte c) (λ p. read_bytes n p.1 >>= λ q. ok (p.0 ∷ q.0, q.1))
      (read_byte-Within c)
      λ p.
        Within-bind (length p.1.rest) (read_bytes n p.1) (λ q. ok (p.0 ∷ q.0, q.1))
          (read_bytes-Within n p.1) λ q. omega arith

block_ends :
    (n : ℕ) (m : Result (List ℕ × Reader))
    → Within n m
    → Reads n (m >>= λ p. if p.1.run == 0 then ok (p.0, p.1.rest) else err require)
block_ends n (ok p) h = Reads-if n (p.1.run == 0) (ok (p.0, p.1.rest)) (err require) h tt
block_ends n (err e) h = h

pub read_block-Reads : (n : ℕ) (input : List ℕ) → Reads (length input) (read_block n input)
unfolding read_block init_read
read_block-Reads n input =
    block_ends (length input) (read_bytes n (init_read input))
      (read_bytes-Within n (init_read input))
