-- ===== src/Merge/Tables/Calls.antt =====
-- What `ca_table_merge` of src/merge.cc, in both of its overloads, calls its callback with.
use mathlib.Core.List.{Perm}
use mathlib.Core.List.Perm
use cantera_table.Shared.{
  ℕ, ◌<◌, ◌≡◌, ◌≢◌, refl, sym, List, [], ◌∷◌, ◌++◌, Bool, true, false, Option, Bool-cases, inl, inr,
  length, All, arith,
}
use cantera_table.Shared.Strings.{string_lt, StringLe, string_lt_total}
use cantera_table.Result.{Result, ok, err, require}
use cantera_table.Merge.Heap.{Entry}
use cantera_table.Merge.{Call, Grouper, start, callback_wrapper, gather, group_rows}
use cantera_table.Merge.Groups.{
  Row, rows_of, all_rows, Apart, HasValues, group_rows-all_rows, group_rows-HasValues,
}
use cantera_table.Merge.Tables.{merge, merge_groups}
use cantera_table.Merge.Tables.Rows.{ReadsRows, Stand, Perm-length}
use cantera_table.Merge.Tables.Loop.{deliver, merge_loop-Merged}
use cantera_table.Merge.Tables.Fill.{fill-Filled, fill-unsorted, Over-nothing}
use cantera_table.WriteOnce.Builder.Rows.{InOrder, concat}

none_before_nothing : (h : List Entry) → All (λ x. StringLe [] x.key) h
unfolding string_lt
none_before_nothing [] = tt
none_before_nothing (x ∷ h) = (refl, none_before_nothing h)

-- The keys grow from call to call.
abbrev pub Ascending : List Call → Type 0
Ascending [] = Unit
Ascending (c ∷ []) = Unit
Ascending (c ∷ d ∷ cs) = (string_lt c.0 d.0 ≡ true) × Ascending (d ∷ cs)

-- The rows behind those of a call.
InOrder-behind :
    (before key : List ℕ) (v : List ℕ) (vs : List (List ℕ)) (rest : List Row)
    → InOrder before (rows_of key (v ∷ vs) ++ rest)
    → InOrder key rest
InOrder-behind before key v [] rest h = h.1
InOrder-behind before key v (w ∷ vs) rest h = InOrder-behind key key w vs rest h.1

lt_of_le : (a b : List ℕ) → StringLe a b → a ≢ b → string_lt a b ≡ true
lt_of_le a b le ne = elim (Bool-cases (string_lt a b)) [
  | inl t ↦ t
  | inr f ↦ absurd (ne (string_lt_total a b f le))
]

Apart-Ascending :
    (before : List ℕ) (calls : List Call)
    → Apart calls
    → HasValues calls
    → InOrder before (all_rows calls)
    → Ascending calls
Apart-Ascending before [] apart some_value h = tt
Apart-Ascending before (c ∷ []) apart some_value h = tt
Apart-Ascending before ((key, []) ∷ d ∷ cs) apart some_value h = absurd (some_value.0 refl)
Apart-Ascending before ((key, v ∷ vs) ∷ (next, []) ∷ cs) apart some_value h =
    absurd (some_value.1.0 refl)
Apart-Ascending before ((key, v ∷ vs) ∷ (next, w ∷ ws) ∷ cs) apart some_value h =
    let rest = InOrder-behind before key v vs (all_rows ((next, w ∷ ws) ∷ cs)) h in
    (
      lt_of_le key next rest.0 apart.0,
      Apart-Ascending key ((next, w ∷ ws) ∷ cs) apart.1 some_value.1 rest,
    )

module _ {S : Type 0} (is_sorted : S → Bool) (read_row : S → Result (S × Option Row))
    (reader : ReadsRows read_row) (tables : List S) (lefts : List (List Row))
    (stands : Stand reader.Before tables lefts) (order : All (InOrder []) lefts) where
  -- Tables that say that they are sorted, and whose rows are in the order of their keys, are merged by
  -- the first ca_table_merge: its callback is given all rows of the tables in the order of their keys,
  -- until it returns -1, in more rounds than there are rows.
  pub merge-deliver :
      {C : Type 0}
      → (callback : C → Row → C × Bool) (rounds : ℕ) (c : C) → All (λ t. is_sorted t ≡ true) tables
      → length (concat lefts) < rounds
      → (out : List Row) × (tables' : List S) × (merge is_sorted read_row callback rounds tables c
          ≡ ok (tables', deliver callback c out))
        × InOrder [] out
        × Perm out (concat lefts)
  unfolding merge
  merge-deliver callback rounds c sorted fuel =
      let f =
        fill-Filled is_sorted read_row reader [] [] tables lefts Over-nothing stands sorted order in
      let m =
        merge_loop-Merged read_row is_sorted reader rounds f.new_heap f.new_ts f.new_lefts
          (omega (arith, fuel, Perm-length _ _ f.rows))
          (record {
            whole = f.over.whole;
            stands = f.stands;
            nexts = f.over.nexts;
            covers = f.over.covers;
          }) in
      let r = m.1.runs callback c in
      (
        m.0,
        r.0,
        rw f.runs r.1,
        m.1.order [] (none_before_nothing f.new_heap),
        Perm.trans m.1.rows f.rows,
      )

  -- Merging tables, whose rows are in order, of which one says that it is not sorted, fails, whatever
  -- the callback.
  pub merge-unsorted :
      {C : Type 0}
      → (callback : C → Row → C × Bool) (rounds : ℕ) (c : C)
      → ¬ All (λ t. is_sorted t ≡ true) tables
      → merge is_sorted read_row callback rounds tables c ≡ err require
  unfolding merge
  merge-unsorted callback rounds c unsorted =
      rw
        (fill-unsorted is_sorted read_row reader [] [] tables lefts Over-nothing stands unsorted
          order)
        refl

  deliver-gather :
      (g : Grouper) (rows : List Row)
      → deliver (λ (h : Grouper) row. (callback_wrapper h row.0 row.1, false)) g rows
        ≡ (gather g rows, false)
  unfolding gather
  deliver-gather g [] = refl
  deliver-gather g (row ∷ rows) = deliver-gather (callback_wrapper g row.0 row.1) rows

  -- The second overload: the keys of the calls grow, and the rows of the calls are those of the tables.
  pub merge_groups-Ascending :
      (rounds : ℕ)
      → All (λ t. is_sorted t ≡ true) tables
      → length (concat lefts) < rounds
      → (tables' : List S) × (calls : List Call) × (merge_groups is_sorted read_row rounds tables
          ≡ ok (tables', calls))
        × Ascending calls
        × HasValues calls
        × Perm (all_rows calls) (concat lefts)
  unfolding merge_groups group_rows
  merge_groups-Ascending rounds sorted fuel =
      let m =
        merge-deliver (λ (g : Grouper) row. (callback_wrapper g row.0 row.1, false)) rounds start
          sorted fuel in
      let grouped = group_rows-all_rows m.0 in
      let some_value = group_rows-HasValues m.0 in
      (
        m.1,
        group_rows m.0,
        rw (m.2, deliver-gather start m.0) refl,
        Apart-Ascending [] (group_rows m.0) grouped.1 some_value (rw (sym grouped.0) at m.3),
        some_value,
        rw (sym grouped.0) at m.4,
      )
