-- ===== src/Result.antt =====
-- What a routine of the library can end in besides a value: a failed KJ_REQUIRE (an exception of
-- third-party kj), a read past the end of its buffer, or a null pointer: C++ leaves these two undefined.
-- `out_of_rounds` is no end of the program: a loop was given too few rounds by the model.
pub mod Progress
use mathlib.Core.Bool.{Bool, true, false}
use mathlib.Core.Path.{◌≡◌, refl}
use mathlib.Core.Logic.{◌⊎◌, inl, inr}

pub data Fault : Type 0 where
  require overrun null_pointer out_of_rounds : Fault

pub data Result {ℓ} (A : Type ℓ) : Type ℓ where
  ok : A → Result A
  err : Fault → Result A

-- KJ_REQUIRE, and other conditions that end a routine.
abbrev pub guard : Bool → Fault → Result (Unit {0})
guard true e = ok tt
guard false e = err e

infixl 5 ◌>>=◌ ◌>>◌
abbrev pub ◌>>=◌ {ℓ κ} : {A : Type ℓ} {B : Type κ} → Result A → (A → Result B) → Result B
ok a >>= f = f a
err e >>= f = err e

abbrev pub ◌>>◌ {ℓ} : {B : Type ℓ} → Result (Unit {0}) → Result B → Result B
m >> next = m >>= λ _. next

pub Result-cases {ℓ} :
    {A : Type ℓ} (r : Result A) → ((a : A) × (r ≡ ok a)) ⊎ ((e : Fault) × (r ≡ err e))
Result-cases (ok a) = inl (a, refl)
Result-cases (err e) = inr (e, refl)

-- What ends well has ended well in its first part.
pub bind-ok :
    {A B : Type 0}
    → (m : Result A) (f : A → Result B) (b : B) → (m >>= f) ≡ ok b
    → (a : A) × (m ≡ ok a) × (f a ≡ ok b)
bind-ok (ok a) f b h = (a, refl, h)
bind-ok (err e) f b h = absurd cc

pub ok-injective : {A : Type 0} → (a b : A) → ok a ≡ ok b → a ≡ b
ok-injective a b h = cc
