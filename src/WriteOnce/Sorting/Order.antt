-- ===== src/WriteOnce/Sorting/Order.antt =====
-- Rows in the order of their keys: what `WriteOnceSortingBuilder` of src/table-backend-writeonce.cc makes of the
-- rows that are added to it.
use mathlib.Core.List.{Perm}
use mathlib.Core.List.Perm
use cantera_table.Shared.{
  ℕ, zero, suc, ◌≡◌, ◌∙◌, refl, sym, ap, List, [], ◌∷◌, true, false, Bool-cases, inl, inr,
  if◌then◌else◌, take, arith,
}
use cantera_table.Shared.Strings.{
  string_lt, string_eq, StringLe, string_lt_asymm, string_lt_irrefl, string_eq_sound,
}
use cantera_table.WriteOnce.Builder.Blocks.{Row, weight}
use cantera_table.WriteOnce.Builder.Rows.{InOrder}

-- A row goes in front of the rows that are not before it.
unfoldable pub insert_row : Row → List Row → List Row
insert_row x [] = x ∷ []
insert_row x (y ∷ ys) =
    let rest = insert_row x ys in if string_lt y.0 x.0 then y ∷ rest else x ∷ y ∷ ys

unfoldable pub sort_rows : List Row → List Row
sort_rows [] = []
sort_rows (x ∷ xs) = insert_row x (sort_rows xs)

-- The rows of a key.
unfoldable pub rows_with : List ℕ → List Row → List Row
rows_with key [] = []
rows_with key (x ∷ xs) = let rest = rows_with key xs in if string_eq key x.0 then x ∷ rest else rest

insert_row-Perm : (x : Row) (ys : List Row) → Perm (insert_row x ys) (x ∷ ys)
unfolding insert_row
insert_row-Perm x [] = Perm.rfl
insert_row-Perm x (y ∷ ys) = elim (Bool-cases (string_lt y.0 x.0)) [
  | inl t ↦ rw t (Perm.trans (Perm.cons y (insert_row-Perm x ys)) (Perm.swap x y ys))
  | inr f ↦ rw f Perm.rfl
]

insert_row-InOrder :
    (key : List ℕ) (x : Row) (ys : List Row)
    → StringLe key x.0
    → InOrder key ys
    → InOrder key (insert_row x ys)
unfolding insert_row
insert_row-InOrder key x [] le h = (le, tt)
insert_row-InOrder key x (y ∷ ys) le h = elim (Bool-cases (string_lt y.0 x.0)) [
  | inl t ↦ rw t ((h.0, insert_row-InOrder y.0 x ys (string_lt_asymm y.0 x.0 t) h.1))
  | inr f ↦ rw f ((le, (f, h.1)))
]

rows_with-insert_row :
    (key : List ℕ) (x : Row) (ys : List Row)
    → rows_with key (insert_row x ys) ≡ rows_with key (x ∷ ys)
unfolding insert_row rows_with
rows_with-insert_row key x [] = refl
rows_with-insert_row key x (y ∷ ys) = elim (Bool-cases (string_lt y.0 x.0)) [
  | inr f ↦ rw f refl
  | inl t ↦ elim (Bool-cases (string_eq key x.0)) [
    | inr n ↦ rw (t, rows_with-insert_row key x ys, n) refl
    | inl e ↦
        let same : key ≡ x.0 = string_eq_sound key x.0 e in
        let apart : string_eq key y.0 ≡ false = elim (Bool-cases (string_eq key y.0)) [
          | inl d ↦ absurd (
              let equal : x.0 ≡ y.0 = sym same ∙ string_eq_sound key y.0 d in
              let before : string_lt y.0 y.0 ≡ true = rw equal at t in
              let not_before = string_lt_irrefl y.0 in cc)
          | inr g ↦ g
        ] in
        rw (t, apart, rows_with-insert_row key x ys, e) refl
  ]
]

weight-insert_row : (x : Row) (ys : List Row) → weight (insert_row x ys) ≡ weight (x ∷ ys)
unfolding insert_row
weight-insert_row x [] = refl
weight-insert_row x (y ∷ ys) = elim (Bool-cases (string_lt y.0 x.0)) [
  | inl t ↦ rw t (omega (arith, weight-insert_row x ys))
  | inr f ↦ rw f refl
]

pub sort_rows-Perm : (xs : List Row) → Perm (sort_rows xs) xs
unfolding sort_rows
sort_rows-Perm [] = Perm.rfl
sort_rows-Perm (x ∷ xs) =
    Perm.trans (insert_row-Perm x (sort_rows xs)) (Perm.cons x (sort_rows-Perm xs))

pub sort_rows-InOrder : (xs : List Row) → InOrder [] (sort_rows xs)
unfolding sort_rows string_lt
sort_rows-InOrder [] = tt
sort_rows-InOrder (x ∷ xs) = insert_row-InOrder [] x (sort_rows xs) refl (sort_rows-InOrder xs)

-- Rows of one key stay in their order.
pub rows_with-sort_rows :
    (key : List ℕ) (xs : List Row) → rows_with key (sort_rows xs) ≡ rows_with key xs
unfolding sort_rows rows_with
rows_with-sort_rows key [] = refl
rows_with-sort_rows key (x ∷ xs) =
    rows_with-insert_row key x (sort_rows xs)
    ∙ ap (λ r. if string_eq key x.0 then x ∷ r else r) (rows_with-sort_rows key xs)

pub weight-sort_rows : (xs : List Row) → weight (sort_rows xs) ≡ weight xs
unfolding sort_rows
weight-sort_rows [] = refl
weight-sort_rows (x ∷ xs) = omega (arith, weight-insert_row x (sort_rows xs), weight-sort_rows xs)

-- The first bytes of two strings tell their order, unless they are the same.
pub string_lt-take :
    (n : ℕ) (a b : List ℕ)
    → string_eq (take n a) (take n b) ≡ false
    → string_lt (take n a) (take n b) ≡ string_lt a b
unfolding string_lt string_eq
string_lt-take zero a b h = absurd cc
string_lt-take (suc n) [] [] h = refl
string_lt-take (suc n) [] (y ∷ b) h = refl
string_lt-take (suc n) (x ∷ a) [] h = refl
string_lt-take (suc n) (x ∷ a) (y ∷ b) h = ground (arith, string_lt-take n a b)
