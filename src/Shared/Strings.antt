-- ===== src/Shared/Strings.antt =====
-- Strings as lists of bytes, compared as `std::lexicographical_compare` and `string_view` do.
use Prim.Native.Nat.{ℕ}
use mathlib.Core.Path.{◌≡◌, refl}
use mathlib.Core.Bool.{Bool, true, false, ◌&&◌}
use mathlib.Core.List.{List, [], ◌∷◌}
use native.Mathlib.Omega.{arith}
use cantera_table.Shared.Tests.{ltb, ◌==◌, if◌then◌else◌}

-- a < b
unfoldable pub string_lt : List ℕ → List ℕ → Bool
string_lt a [] = false
string_lt [] (y ∷ b) = true
string_lt (x ∷ a) (y ∷ b) = if ltb x y then true else if x == y then string_lt a b else false

-- a == b
unfoldable pub string_eq : List ℕ → List ℕ → Bool
string_eq [] [] = true
string_eq [] (y ∷ b) = false
string_eq (x ∷ a) [] = false
string_eq (x ∷ a) (y ∷ b) = (x == y) && string_eq a b

pub string_eq_refl : (a : List ℕ) → string_eq a a ≡ true
unfolding string_eq
string_eq_refl [] = refl
string_eq_refl (x ∷ a) = ground (arith, string_eq_refl a)

pub string_eq_sound : (a b : List ℕ) → string_eq a b ≡ true → a ≡ b
unfolding string_eq
string_eq_sound [] [] h = refl
string_eq_sound [] (y ∷ b) h = cc
string_eq_sound (x ∷ a) [] h = cc
string_eq_sound (x ∷ a) (y ∷ b) h = ground (arith, string_eq_sound a b)

pub string_lt_irrefl : (a : List ℕ) → string_lt a a ≡ false
unfolding string_lt
string_lt_irrefl [] = refl
string_lt_irrefl (x ∷ a) = ground (arith, string_lt_irrefl a)

pub string_lt_asymm : (a b : List ℕ) → string_lt a b ≡ true → string_lt b a ≡ false
unfolding string_lt
string_lt_asymm a [] h = cc
string_lt_asymm [] (y ∷ b) h = refl
string_lt_asymm (x ∷ a) (y ∷ b) h = ground (arith, string_lt_asymm a b)

pub string_lt_total : (a b : List ℕ) → string_lt a b ≡ false → string_lt b a ≡ false → a ≡ b
unfolding string_lt
string_lt_total [] [] h k = refl
string_lt_total [] (y ∷ b) h k = cc
string_lt_total (x ∷ a) [] h k = cc
string_lt_total (x ∷ a) (y ∷ b) h k = ground (arith, string_lt_total a b)

-- a ≤ b
abbrev pub StringLe : List ℕ → List ℕ → Type 0
StringLe a b = string_lt b a ≡ false

pub StringLe-trans : (a b c : List ℕ) → StringLe a b → StringLe b c → StringLe a c
unfolding string_lt
StringLe-trans [] b c h k = refl
StringLe-trans (x ∷ a) [] c h k = cc
StringLe-trans (x ∷ a) (y ∷ b) [] h k = cc
StringLe-trans (x ∷ a) (y ∷ b) (z ∷ c) h k = ground (arith, StringLe-trans a b c)
