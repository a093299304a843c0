-- ===== src/Shared/Bytes.antt =====
-- The masks and marks that the encoders set on single bytes. Facts about one byte are checked by
-- evaluation at all 256 values.
use Prim.Native.Nat.{ℕ, zero, suc, ◌+◌, ◌*◌, ◌/◌, ◌%◌, ◌<◌, bit_and, bit_or}
use mathlib.Core.Bool.{Bool, true, ◌&&◌}
use mathlib.Core.Path.{◌≡◌, refl}
use native.Mathlib.Omega.{arith}
use cantera_table.Shared.Tests.{◌==◌, ==_iff, if◌then◌else◌}
use cantera_table.Shared.Words.{u8, shl}
use cantera_table.Shared.Words.Digits.{bit_or_lowest}

abbrev pub IsByte : ℕ → Type 0
IsByte b = b < 256

-- Every number under the bound passes the test.
passes : (ℕ → Bool) → ℕ → Bool
passes test zero = true
passes test (suc bound) = passes test bound && test bound

passes-at : (test : ℕ → Bool) (bound x : ℕ) → x < bound → passes test bound ≡ true → test x ≡ true
unfolding passes
passes-at test zero x below all = absurd (omega arith)
passes-at test (suc bound) x below all = ground (arith, passes-at test bound x)

-- An equation between two functions of a byte.
by_table : (f g : ℕ → ℕ) → passes (λ b. f b == g b) 256 ≡ true → (b : ℕ) → b < 256 → f b ≡ g b
by_table f g table b h = (==_iff (f b) (g b)).0 (passes-at (λ x. f x == g x) 256 b h table)

pub low7 : (b : ℕ) → b < 256 → bit_and b 0x7f ≡ b % 128
unfolding passes
low7 = by_table (λ b. bit_and b 0x7f) (λ b. b % 128) refl

pub bit7 : (b : ℕ) → b < 256 → bit_and b 0x80 ≡ b / 128 * 128
unfolding passes
bit7 = by_table (λ b. bit_and b 0x80) (λ b. b / 128 * 128) refl

pub top2 : (b : ℕ) → b < 256 → bit_and 0xc0 b ≡ b / 64 * 64
unfolding passes
top2 = by_table (λ b. bit_and 0xc0 b) (λ b. b / 64 * 64) refl

pub low6 : (b : ℕ) → b < 256 → bit_and b 0x3f ≡ b % 64
unfolding passes
low6 = by_table (λ b. bit_and b 0x3f) (λ b. b % 64) refl

run_byte_at : (b : ℕ) → b < 256 → bit_or 0xc0 (b % 64) ≡ 192 + b % 64
unfolding passes
run_byte_at = by_table (λ b. bit_or 0xc0 (b % 64)) (λ b. 192 + b % 64) refl

pub run_byte : (r : ℕ) → r < 64 → bit_or 0xc0 r ≡ 192 + r
run_byte r h = let e : r % 64 ≡ r = omega arith in rw e at (run_byte_at r (omega arith))

-- `2 ^ k | y` sets bit `k` and keeps those below it.
or_1 : (y : ℕ) → bit_or 1 y % 2 ≡ 1
or_1 y = omega (arith, bit_or_lowest 1 y)

or_2 : (y : ℕ) → bit_or 2 y % 4 ≡ 2 + y % 2
or_2 y = omega (arith, bit_or_lowest 2 y, or_1 (y / 2))

or_4 : (y : ℕ) → bit_or 4 y % 8 ≡ 4 + y % 4
or_4 y = omega (arith, bit_or_lowest 4 y, or_2 (y / 2))

or_8 : (y : ℕ) → bit_or 8 y % 16 ≡ 8 + y % 8
or_8 y = omega (arith, bit_or_lowest 8 y, or_4 (y / 2))

or_16 : (y : ℕ) → bit_or 16 y % 32 ≡ 16 + y % 16
or_16 y = omega (arith, bit_or_lowest 16 y, or_8 (y / 2))

or_32 : (y : ℕ) → bit_or 32 y % 64 ≡ 32 + y % 32
or_32 y = omega (arith, bit_or_lowest 32 y, or_16 (y / 2))

or_64 : (y : ℕ) → bit_or 64 y % 128 ≡ 64 + y % 64
or_64 y = omega (arith, bit_or_lowest 64 y, or_32 (y / 2))

or_128 : (y : ℕ) → bit_or 128 y % 256 ≡ 128 + y % 128
or_128 y = omega (arith, bit_or_lowest 128 y, or_64 (y / 2))

-- `0x80 | y`, cut to a byte: the low seven bits of `y` with the top bit set.
pub marked : (y : ℕ) → u8 (bit_or 0x80 y) ≡ 128 + y % 128
marked y = or_128 y

-- Setting bit `i` of a byte, and reading bit `j`.
bits_after_set :
    passes
      (λ b.
        passes
          (λ i.
            passes
              (λ j.
                bit_and (u8 (bit_or b (shl 1 i))) (shl 1 j)
                == (if i == j then shl 1 j else bit_and b (shl 1 j)))
              8)
          8)
      256
    ≡ true
unfolding passes
bits_after_set = refl

pub bit_set :
    (b i j : ℕ)
    → b < 256
    → i < 8
    → j < 8
    → bit_and (u8 (bit_or b (shl 1 i))) (shl 1 j)
      ≡ (if i == j then shl 1 j else bit_and b (shl 1 j))
bit_set b i j hb hi hj =
    (==_iff _ _).0 (passes-at _ 8 j hj (passes-at _ 8 i hi (passes-at _ 256 b hb bits_after_set)))
