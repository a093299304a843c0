-- ===== src/Shared/Words.antt =====
-- Casts to the fixed widths, shifts and masks, with `|` and `&` as arithmetic where the fields of
-- the operands do not meet.
pub mod Digits
use Digits.{bit_or_lowest, bit_and_lowest}
use Prim.Native.Nat.{bit_and, bit_or, bit_and-bitwise}
use native.Mathlib.Nat.{pow-suc, one-le-pow}
use cantera_table.Shared.Order.{lt_wf}
use mathlib.Core.WellFounded
use mathlib.Core.Path.{◌≡◌, refl, ap}
use native.Mathlib.Omega.{arith}
use Prim.Native.Nat.{ℕ, zero, suc, ◌+◌, ◌-◌, ◌*◌, ◌/◌, ◌%◌, ◌^◌, ◌<◌}

abbrev pub u8 : ℕ → ℕ
u8 n = n % 2 ^ 8

abbrev pub u32 : ℕ → ℕ
u32 n = n % 2 ^ 32

abbrev pub u64 : ℕ → ℕ
u64 n = n % 2 ^ 64

abbrev pub shl : ℕ → ℕ → ℕ
shl x k = x * 2 ^ k

abbrev pub shr : ℕ → ℕ → ℕ
shr x k = x / 2 ^ k

or-zero : (a : ℕ) → bit_or a 0 ≡ a
or-zero a = WellFounded.induction lt_wf {C = λ n. bit_or n 0 ≡ n} a go
  where
    go : (n : ℕ) → ((m : ℕ) → m < n → bit_or m 0 ≡ m) → bit_or n 0 ≡ n
    go zero ih = refl
    go (suc n) ih = omega (arith, bit_or_lowest (suc n) 0, ih (suc n / 2) (omega arith))

double-two-pow : (q k : ℕ) → q * 2 ^ suc k ≡ 2 * (q * 2 ^ k)
double-two-pow q k = omega (arith, ap (λ (t : ℕ). q * t) (pow-suc 2 k))

-- A value shifted past `r` and joined with it is a sum.
pub bit_or-shl : (k q r : ℕ) → r < 2 ^ k → bit_or (shl q k) r ≡ q * 2 ^ k + r
bit_or-shl zero q r fits = ground (arith, or-zero q)
bit_or-shl (suc k) q r fits = ground (
  arith,
  bit_or_lowest (q * 2 ^ suc k) r,
  double-two-pow q k,
  bit_or-shl k q (r / 2) (omega arith),
)

and-zero : (a : ℕ) → bit_and a 0 ≡ 0
and-zero a = WellFounded.induction lt_wf {C = λ n. bit_and n 0 ≡ 0} a go
  where
    go : (n : ℕ) → ((m : ℕ) → m < n → bit_and m 0 ≡ 0) → bit_and n 0 ≡ 0
    go zero ih = refl
    go (suc n) ih = omega (arith, bit_and_lowest (suc n) 0, ih (suc n / 2) (omega arith))

and_1 : (v : ℕ) → bit_and v 1 ≡ v % 2
and_1 v = omega (arith, bit_and_lowest v 1, and-zero (v / 2))

and_3 : (v : ℕ) → bit_and v 3 ≡ v % 4
and_3 v = omega (arith, bit_and_lowest v 3, and_1 (v / 2))

and_7 : (v : ℕ) → bit_and v 7 ≡ v % 8
and_7 v = omega (arith, bit_and_lowest v 7, and_3 (v / 2))

and_15 : (v : ℕ) → bit_and v 15 ≡ v % 16
and_15 v = omega (arith, bit_and_lowest v 15, and_7 (v / 2))

and_31 : (v : ℕ) → bit_and v 31 ≡ v % 32
and_31 v = omega (arith, bit_and_lowest v 31, and_15 (v / 2))

and_63 : (v : ℕ) → bit_and v 63 ≡ v % 64
and_63 v = omega (arith, bit_and_lowest v 63, and_31 (v / 2))

-- `value & 0x7f` at any width.
pub mask7 : (v : ℕ) → bit_and v 0x7f ≡ v % 128
mask7 v = omega (arith, bit_and_lowest v 127, and_63 (v / 2))

pub zero-and : (b : ℕ) → bit_and 0 b ≡ 0
zero-and b = bit_and-bitwise 0 b
