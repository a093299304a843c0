-- ===== src/Result/Progress.antt =====
-- A routine that reads from a buffer: where it ends, the bytes that are left are among those it was
-- given, and it does not end for want of rounds.
use cantera_table.Shared.{ℕ, ◌≤◌, List, Bool, true, false, length, if◌then◌else◌, ◌≢◌, arith}
use cantera_table.Result.{
  Fault, require, overrun, null_pointer, out_of_rounds, Result, ok, err, guard, ◌>>=◌,
}

abbrev pub Proper : Fault → Type 0
Proper require = Unit
Proper overrun = Unit
Proper null_pointer = Unit
Proper out_of_rounds = ⊥

-- At most `n` bytes are left.
abbrev pub Reads {ℓ} : {A : Type ℓ} → ℕ → Result (A × List ℕ) → Type 0
Reads n (ok p) = length p.1 ≤ n
Reads n (err e) = Proper e

pub Reads-le {ℓ} : {A : Type ℓ} (m n : ℕ) (r : Result (A × List ℕ)) → m ≤ n → Reads m r → Reads n r
Reads-le m n (ok p) le h = omega arith
Reads-le m n (err e) le h = h

pub Reads-bind {ℓ κ} :
    {A : Type ℓ} {B : Type κ} (n : ℕ) (m : Result (A × List ℕ))
    (k : A × List ℕ → Result (B × List ℕ))
    → Reads n m
    → ((p : A × List ℕ) → Reads (length p.1) (k p))
    → Reads n (m >>= k)
Reads-bind n (ok p) k h later = Reads-le (length p.1) n (k p) h (later p)
Reads-bind n (err e) k h later = h

pub Reads-guard {ℓ} :
    {A : Type ℓ} (n : ℕ) (b : Bool) (r : Result (A × List ℕ))
    → Reads n r
    → Reads n (guard b require >>= λ _. r)
Reads-guard n true r h = h
Reads-guard n false r h = tt

pub Reads-if {ℓ} :
    {A : Type ℓ} (n : ℕ) (b : Bool) (r s : Result (A × List ℕ))
    → Reads n r
    → Reads n s
    → Reads n (if b then r else s)
Reads-if n true r s h k = h
Reads-if n false r s h k = k

-- The same of a routine that gives the bytes behind and nothing else.
abbrev pub Leaves : ℕ → Result (List ℕ) → Type 0
Leaves n (ok rest) = length rest ≤ n
Leaves n (err e) = Proper e

pub Reads-after {ℓ} :
    {B : Type ℓ} (n : ℕ) (m : Result (List ℕ)) (k : List ℕ → Result (B × List ℕ))
    → Leaves n m
    → ((rest : List ℕ) → Reads (length rest) (k rest))
    → Reads n (m >>= k)
Reads-after n (ok rest) k h later = Reads-le (length rest) n (k rest) h (later rest)
Reads-after n (err e) k h later = h

pub Leaves-bind {ℓ} :
    {A : Type ℓ} (n : ℕ) (m : Result (A × List ℕ)) (k : A × List ℕ → Result (List ℕ))
    → Reads n m
    → ((p : A × List ℕ) → Leaves (length p.1) (k p))
    → Leaves n (m >>= k)
Leaves-bind n (ok p) k h later = Leaves-le (length p.1) n (k p) h (later p)
  where
    Leaves-le : (i j : ℕ) (r : Result (List ℕ)) → i ≤ j → Leaves i r → Leaves j r
    Leaves-le i j (ok rest) le h = omega arith
    Leaves-le i j (err e) le h = h
Leaves-bind n (err e) k h later = h

-- It does not end for want of rounds.
abbrev pub Ends {ℓ} : {A : Type ℓ} → Result A → Type 0
Ends (ok a) = Unit
Ends (err e) = Proper e

pub Ends-ne {ℓ} : {A : Type ℓ} (r : Result A) → Ends r → r ≢ err out_of_rounds
Ends-ne (ok a) h e = cc
Ends-ne (err require) h e = cc
Ends-ne (err overrun) h e = cc
Ends-ne (err null_pointer) h e = cc
Ends-ne (err out_of_rounds) h e = h
