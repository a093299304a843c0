-- ===== src/Merge.antt =====
-- The second `ca_table_merge` of src/merge.cc: its callback_wrapper gathers the values of equal keys. A call of
-- the caller's callback is the key and the values it is given.
pub mod Groups
pub mod Heap
pub mod Tables
use cantera_table.Shared.{ℕ, List, [], ◌∷◌, ◌++◌, Bool, true, false, not, if◌then◌else◌}
use cantera_table.Shared.Strings.{string_eq}

abbrev pub Call : Type 0
Call = List ℕ × List (List ℕ)

-- current_key and data, and the calls so far.
pub record Grouper : Type 0 where
  pub current_key : List ℕ
  pub data_values : List (List ℕ)
  pub calls : List Call

abbrev pub start : Grouper
start = record { current_key = []; data_values = []; calls = [] }

abbrev pub call_with : List ℕ → List (List ℕ) → List Call → List Call
call_with key [] calls = calls
call_with key (v ∷ vs) calls = calls ++ ((key, v ∷ vs) ∷ [])

-- if (!data.empty()) callback(current_key, data);
unfoldable pub call_back : Grouper → List Call
call_back g = call_with g.current_key g.data_values g.calls

unfoldable pub callback_wrapper : Grouper → List ℕ → List ℕ → Grouper
callback_wrapper g new_key value =
    let next : Grouper = record {
      current_key = new_key;
      data_values = value ∷ [];
      calls = call_back g;
    } in
    if not (string_eq new_key g.current_key)
    then next
    else record g { data_values = g.data_values ++ (value ∷ []) }

-- The callback for each row of the merged tables.
unfoldable pub gather : Grouper → List (List ℕ × List ℕ) → Grouper
gather g [] = g
gather g (row ∷ rows) = gather (callback_wrapper g row.0 row.1) rows

-- The calls that are made for the rows that the merging gives.
unfoldable pub group_rows : List (List ℕ × List ℕ) → List Call
group_rows rows = call_back (gather start rows)
