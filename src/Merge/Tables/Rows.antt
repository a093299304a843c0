-- ===== src/Merge/Tables/Rows.antt =====
-- What `ca_table_merge` of src/merge.cc relies on in a table, and the rows that are left in several of them.
use mathlib.Core.Path.{subst}
use mathlib.Core.Bool.{Bool-set}
use mathlib.Core.List.{Perm, Permᴰ, perm_middle}
use mathlib.Core.List.Perm
use mathlib.Core.Logic.{∥∥₁_elim}
use native.Mathlib.Nat.{ℕ_set}
use cantera_table.Shared.{
  ℕ, zero, suc, ◌<◌, ◌≡◌, ◌∙◌, ◌⊎◌, inl, inr, refl, ap, List, [], ◌∷◌, Option, some, length,
  get_elem?, get_or, set, All, arith,
}
use cantera_table.Shared.Strings.{StringLe, StringLe-trans}
use cantera_table.Result.{Result, ok}
use cantera_table.Merge.Groups.{Row}
use cantera_table.WriteOnce.Builder.Rows.{InOrder, concat}
use cantera_table.WriteOnce.Reader.Rows.{head, tail}

-- `ReadRow` gives the rows before the table one after the other, and nothing behind the last one.
pub record ReadsRows {S : Type 0} (read_row : S → Result (S × Option Row)) : Type 1 where
  pub Before : S → List Row → Type 0
  pub reads :
      (t : S) (left : List Row)
      → Before t left
      → (t' : S) × (read_row t ≡ ok (t', head left)) × Before t' (tail left)

-- A property of every element holds of them in another order.
module _ {A : Type 0} {P : A → Type 0} (is_prop : (a : A) → IsProp (P a)) where
  All-prop : (l : List A) → IsProp (All P l)
  All-prop [] = hlevel
  All-prop (x ∷ l) = λ u v i. (is_prop x u.0 v.0 i, All-prop l u.1 v.1 i)

  Permᴰ-All : {a b : List A} → Permᴰ a b → All P a → All P b
  Permᴰ-All Permᴰ.nil h = h
  Permᴰ-All (Permᴰ.cons e p) h = (subst P e h.0, Permᴰ-All p h.1)
  Permᴰ-All (Permᴰ.swap e f) h = (subst P f h.1.0, (subst P e h.0, h.1.1))
  Permᴰ-All (Permᴰ.trans p q) h = Permᴰ-All q (Permᴰ-All p h)

  pub Perm-All : (a b : List A) → Perm a b → All P a → All P b
  Perm-All a b p h = ∥∥₁_elim p (All-prop b) (λ d. Permᴰ-All d h)

pub InOrder-prop : (key : List ℕ) (l : List Row) → IsProp (InOrder key l)
InOrder-prop key [] = hlevel
InOrder-prop key (x ∷ l) = λ u v i. (Bool-set _ _ u.0 v.0 i, InOrder-prop x.0 l u.1 v.1 i)

module _ {S : Type 0} (Before : S → List Row → Type 0) where
  -- The tables are before these rows.
  abbrev pub Stand : List S → List (List Row) → Type 0
  Stand [] [] = Unit
  Stand [] (l ∷ lefts) = ⊥
  Stand (t ∷ ts) [] = ⊥
  Stand (t ∷ ts) (l ∷ lefts) = Before t l × Stand ts lefts

  pub Stand-get :
      (ts : List S) (lefts : List (List Row)) (i : ℕ)
      → Stand ts lefts
      → i < length lefts
      → (t : S) × (get_elem? ts i ≡ some t) × Before t (get_or lefts i [])
  Stand-get [] [] i h p = elim p [ ]
  Stand-get [] (l ∷ lefts) i h p = absurd h
  Stand-get (t ∷ ts) [] i h p = absurd h
  Stand-get (t ∷ ts) (l ∷ lefts) zero h p = (t, refl, h.0)
  Stand-get (t ∷ ts) (l ∷ lefts) (suc i) h p = Stand-get ts lefts i h.1 (omega arith)

  pub Stand-set :
      (ts : List S) (lefts : List (List Row)) (i : ℕ) (t : S) (l : List Row)
      → Stand ts lefts
      → Before t l
      → Stand (set ts i t) (set lefts i l)
  Stand-set [] [] i t l h b = tt
  Stand-set [] (k ∷ lefts) i t l h b = absurd h
  Stand-set (s ∷ ts) [] i t l h b = absurd h
  Stand-set (s ∷ ts) (k ∷ lefts) zero t l h b = (b, h.1)
  Stand-set (s ∷ ts) (k ∷ lefts) (suc i) t l h b = (h.0, Stand-set ts lefts i t l h.1 b)

-- The rows with the first one of a table read.
pub concat-set :
    (lefts : List (List Row)) (i : ℕ) (row : Row) (rows : List Row)
    → get_or lefts i [] ≡ row ∷ rows
    → Perm (row ∷ concat (set lefts i rows)) (concat lefts)
concat-set [] i row rows h = absurd cc
concat-set (l ∷ lefts) zero row rows h = rw h Perm.rfl
concat-set (l ∷ lefts) (suc i) row rows h =
    Perm.trans (Perm.symm (perm_middle l (concat (set lefts i rows))))
      (Perm.append_left l (concat-set lefts i row rows h))

pub InOrder-tail : (key : List ℕ) (l : List Row) → InOrder key l → InOrder key (tail l)
InOrder-tail key [] h = tt
InOrder-tail key (x ∷ []) h = tt
InOrder-tail key (x ∷ y ∷ l) h = (StringLe-trans key x.0 y.0 h.0 h.1.0, h.1.1)

-- The rows are in order from an earlier key on.
pub InOrder-from : (a b : List ℕ) (l : List Row) → StringLe a b → InOrder b l → InOrder a l
InOrder-from a b [] le h = tt
InOrder-from a b (x ∷ l) le h = (StringLe-trans a b x.0 le h.0, h.1)

-- The same for the end of a table.
pub set_read : (lefts : List (List Row)) (i : ℕ) → get_or lefts i [] ≡ [] → set lefts i [] ≡ lefts
set_read [] i h = refl
set_read (l ∷ lefts) zero h = rw h refl
set_read (l ∷ lefts) (suc i) h = rw (set_read lefts i h) refl

pub all_read : (lefts : List (List Row)) → ((i : ℕ) → get_or lefts i [] ≡ []) → concat lefts ≡ []
all_read [] h = refl
all_read (l ∷ lefts) h = rw (h 0, all_read lefts (λ i. h (suc i))) refl

pub List-cases {ℓ} : {A : Type ℓ} (l : List A) → (l ≡ []) ⊎ ((x : A) × (xs : List A) × (l ≡ x ∷ xs))
List-cases [] = inl refl
List-cases (x ∷ xs) = inr (x, xs, refl)

Permᴰ-length : {A : Type 0} {a b : List A} → Permᴰ a b → length a ≡ length b
Permᴰ-length Permᴰ.nil = refl
Permᴰ-length (Permᴰ.cons e p) = ap suc (Permᴰ-length p)
Permᴰ-length (Permᴰ.swap e f) = refl
Permᴰ-length (Permᴰ.trans p q) = Permᴰ-length p ∙ Permᴰ-length q

pub Perm-length : {A : Type 0} (a b : List A) → Perm a b → length a ≡ length b
Perm-length a b p = ∥∥₁_elim p (ℕ_set (length a) (length b)) (λ d. Permᴰ-length d)
