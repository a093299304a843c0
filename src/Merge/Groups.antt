-- ===== src/Merge/Groups.antt =====
-- What the callback of the second `ca_table_merge` of src/merge.cc is called with.
use cantera_table.Shared.{
  ℕ, ◌≡◌, ◌≢◌, ◌∙◌, refl, sym, List, [], ◌∷◌, ◌++◌, true, append_assoc, append-nil, Bool-cases, inl,
  inr, All,
}
use cantera_table.Shared.Strings.{string_eq, string_eq_refl, string_eq_sound}
use cantera_table.Merge.{
  Call, Grouper, start, call_with, call_back, callback_wrapper, gather, group_rows,
}

abbrev pub Row : Type 0
Row = List ℕ × List ℕ

-- The rows of a call.
abbrev pub rows_of : List ℕ → List (List ℕ) → List Row
rows_of key [] = []
rows_of key (v ∷ vs) = (key, v) ∷ rows_of key vs

abbrev pub all_rows : List Call → List Row
all_rows [] = []
all_rows (c ∷ cs) = rows_of c.0 c.1 ++ all_rows cs

-- Calls next to each other have other keys.
abbrev pub Apart : List Call → Type 0
Apart [] = Unit
Apart (c ∷ []) = Unit
Apart (c ∷ d ∷ cs) = (c.0 ≢ d.0) × Apart (d ∷ cs)

-- The same with a call of `key` behind.
abbrev ApartFrom : List ℕ → List Call → Type 0
ApartFrom key [] = Unit
ApartFrom key (c ∷ []) = c.0 ≢ key
ApartFrom key (c ∷ d ∷ cs) = (c.0 ≢ d.0) × ApartFrom key (d ∷ cs)

Apart-snoc :
    (key : List ℕ) (vs : List (List ℕ)) (cs : List Call)
    → ApartFrom key cs
    → Apart (cs ++ ((key, vs) ∷ []))
Apart-snoc key vs [] h = tt
Apart-snoc key vs (c ∷ []) h = (h, tt)
Apart-snoc key vs (c ∷ d ∷ cs) h = (h.0, Apart-snoc key vs (d ∷ cs) h.1)

ApartFrom-snoc :
    (key next : List ℕ) (vs : List (List ℕ)) (cs : List Call)
    → ApartFrom key cs
    → key ≢ next
    → ApartFrom next (cs ++ ((key, vs) ∷ []))
ApartFrom-snoc key next vs [] h ne = ne
ApartFrom-snoc key next vs (c ∷ []) h ne = (h, ne)
ApartFrom-snoc key next vs (c ∷ d ∷ cs) h ne = (h.0, ApartFrom-snoc key next vs (d ∷ cs) h.1 ne)

Apart-front : (key : List ℕ) (cs : List Call) → ApartFrom key cs → Apart cs
Apart-front key [] h = tt
Apart-front key (c ∷ []) h = tt
Apart-front key (c ∷ d ∷ cs) h = (h.0, Apart-front key (d ∷ cs) h.1)

rows_of-append :
    (key : List ℕ) (a b : List (List ℕ)) → rows_of key (a ++ b) ≡ rows_of key a ++ rows_of key b
rows_of-append key [] b = refl
rows_of-append key (v ∷ a) b = rw (rows_of-append key a b)

all_rows-append : (a b : List Call) → all_rows (a ++ b) ≡ all_rows a ++ all_rows b
all_rows-append [] b = refl
all_rows-append (c ∷ a) b =
    rw (all_rows-append a b, append_assoc (rows_of c.0 c.1) (all_rows a) (all_rows b))

-- The rows `done` were gathered.
record HasGathered (g : Grouper) (done : List Row) : Type 0 where
  rows : all_rows g.calls ++ rows_of g.current_key g.data_values ≡ done
  apart : ApartFrom g.current_key g.calls
  first : g.data_values ≡ [] → g.calls ≡ []

all_rows-call_back :
    (g : Grouper) → all_rows (call_back g) ≡ all_rows g.calls ++ rows_of g.current_key g.data_values
unfolding call_back
all_rows-call_back g = pick g.data_values
  where
    pick :
        (vs : List (List ℕ))
        → all_rows (call_with g.current_key vs g.calls)
          ≡ all_rows g.calls ++ rows_of g.current_key vs
    pick [] = sym (append-nil (all_rows g.calls))
    pick (v ∷ vs) = rw (
      all_rows-append g.calls ((g.current_key, v ∷ vs) ∷ []),
      append-nil (rows_of g.current_key (v ∷ vs)),
    )

ApartFrom-call_back :
    (g : Grouper) (done : List Row) (next : List ℕ)
    → HasGathered g done
    → g.current_key ≢ next
    → ApartFrom next (call_back g)
unfolding call_back
ApartFrom-call_back g done next h ne = pick g.data_values h.first
  where
    pick :
        (vs : List (List ℕ))
        → (vs ≡ [] → g.calls ≡ [])
        → ApartFrom next (call_with g.current_key vs g.calls)
    pick [] first = rw (first refl) tt
    pick (v ∷ vs) first = ApartFrom-snoc g.current_key next (v ∷ vs) g.calls h.apart ne

snoc-ne : (a : List (List ℕ)) (v : List ℕ) → a ++ (v ∷ []) ≢ []
snoc-ne [] v e = cc
snoc-ne (x ∷ a) v e = cc

callback_wrapper-HasGathered :
    (g : Grouper) (done : List Row) (key value : List ℕ)
    → HasGathered g done
    → HasGathered (callback_wrapper g key value) (done ++ ((key, value) ∷ []))
unfolding callback_wrapper
callback_wrapper-HasGathered g done key value h = elim (Bool-cases (string_eq key g.current_key)) [
  | inl t ↦
      let same : key ≡ g.current_key = string_eq_sound key g.current_key t in
      rw t (record {
        rows =
            rw (sym h.rows, rows_of-append g.current_key g.data_values (value ∷ []), same)
              (sym (
                append_assoc (all_rows g.calls) (rows_of g.current_key g.data_values)
                  ((g.current_key, value) ∷ [])));
        apart = h.apart;
        first = λ e. absurd (snoc-ne g.data_values value e);
      })
  | inr f ↦
      let ne : g.current_key ≢ key =
        λ e. (let t : string_eq key g.current_key ≡ true = rw e (string_eq_refl key) in cc) in
      rw f (record {
        rows = rw (all_rows-call_back g, h.rows);
        apart = ApartFrom-call_back g done key h ne;
        first = λ e. absurd cc;
      })
]

gather-HasGathered :
    (g : Grouper) (done rows : List Row)
    → HasGathered g done
    → HasGathered (gather g rows) (done ++ rows)
unfolding gather
gather-HasGathered g done [] h = rw (append-nil done) h
gather-HasGathered g done (row ∷ rows) h = rw (append_assoc done (row ∷ []) rows) at (
    gather-HasGathered (callback_wrapper g row.0 row.1) (done ++ (row ∷ [])) rows
      (callback_wrapper-HasGathered g done row.0 row.1 h))

-- The callback is called with the rows in their order, the values of equal keys next to each other at once, so
-- that calls next to each other have other keys.
pub group_rows-all_rows :
    (rows : List Row) → (all_rows (group_rows rows) ≡ rows) × Apart (group_rows rows)
unfolding group_rows call_back
group_rows-all_rows rows =
    let h =
      gather-HasGathered start [] rows (record { rows = refl; apart = tt; first = λ e. refl }) in
    let g = gather start rows in (all_rows-call_back g ∙ h.rows, last_call g rows h)
  where
    last_call : (g : Grouper) (done : List Row) → HasGathered g done → Apart (call_back g)
    last_call g done h = pick g.data_values
      where
        pick : (vs : List (List ℕ)) → Apart (call_with g.current_key vs g.calls)
        pick [] = Apart-front g.current_key g.calls h.apart
        pick (v ∷ vs) = Apart-snoc g.current_key (v ∷ vs) g.calls h.apart

-- Every call has a value.
abbrev pub HasValues : List Call → Type 0
HasValues = All (λ c. c.1 ≢ [])

HasValues-snoc : (cs : List Call) (c : Call) → HasValues cs → c.1 ≢ [] → HasValues (cs ++ (c ∷ []))
HasValues-snoc [] c h ne = (ne, tt)
HasValues-snoc (d ∷ cs) c h ne = (h.0, HasValues-snoc cs c h.1 ne)

HasValues-call_with :
    (key : List ℕ) (vs : List (List ℕ)) (calls : List Call)
    → HasValues calls
    → HasValues (call_with key vs calls)
HasValues-call_with key [] calls h = h
HasValues-call_with key (v ∷ vs) calls h = HasValues-snoc calls (key, v ∷ vs) h (λ e. absurd cc)

HasValues-callback_wrapper :
    (g : Grouper) (key value : List ℕ)
    → HasValues g.calls
    → HasValues (callback_wrapper g key value).calls
unfolding callback_wrapper call_back
HasValues-callback_wrapper g key value h = elim (Bool-cases (string_eq key g.current_key)) [
  | inl t ↦ rw t h
  | inr f ↦ rw f (HasValues-call_with g.current_key g.data_values g.calls h)
]

HasValues-gather :
    (g : Grouper) (rows : List Row) → HasValues g.calls → HasValues (gather g rows).calls
unfolding gather
HasValues-gather g [] h = h
HasValues-gather g (row ∷ rows) h =
    HasValues-gather (callback_wrapper g row.0 row.1) rows
      (HasValues-callback_wrapper g row.0 row.1 h)

pub group_rows-HasValues : (rows : List Row) → HasValues (group_rows rows)
unfolding group_rows call_back
group_rows-HasValues rows =
    let g = gather start rows in
    HasValues-call_with g.current_key g.data_values g.calls (HasValues-gather start rows tt)
