-- ===== src/WriteOnce/Cursor.antt =====
-- `WriteOnceReader_v4::Skip` of src/table-backend-writeonce.cc.
pub mod Progress
use cantera_table.Shared.{
  ℕ, zero, suc, ◌+◌, ◌-◌, List, [], ◌∷◌, Bool, true, false, Option, none, some, ltb, ◌==◌,
  if◌then◌else◌, length, drop,
}

-- The position of the reader: `block_num_`, where `none` is UINT64_MAX, and `entry_num_`.
pub record Cursor : Type 0 where
  pub block_num : Option ℕ
  pub entry_num : ℕ

-- SeekToFirst
abbrev pub seek_to_first : Cursor
seek_to_first = record { block_num = some 0; entry_num = 0 }

-- NotFound, on the numbers of entries of the blocks.
abbrev pub not_found : List ℕ → Cursor × Bool
not_found index = (record { block_num = some (length index); entry_num = 0 }, false)

-- The loop: `later` are the blocks from block_num on, and `index` all of them.
unfoldable pub skip_from : List ℕ → List ℕ → ℕ → ℕ → ℕ → Cursor × Bool
skip_from index [] block_num entry_num zero =
    (record { block_num = some block_num; entry_num = entry_num }, true)
skip_from index [] block_num entry_num (suc count) = not_found index
skip_from index (n ∷ later) block_num entry_num count =
    let next = skip_from index later (block_num + 1) 0 (count - (n - entry_num)) in
    if count == 0
    then (record { block_num = some block_num; entry_num = entry_num }, true)
    else if ltb count (n - entry_num)
    then (record { block_num = some block_num; entry_num = entry_num + count }, true)
    else next

unfoldable pub skip : List ℕ → Cursor → ℕ → Cursor × Bool
skip index cursor count = elim cursor.block_num [
  | none ↦ skip_from index index 0 0 count
  | some b ↦ skip_from index (drop b index) b cursor.entry_num count
]
