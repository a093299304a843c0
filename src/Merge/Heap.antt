-- ===== src/Merge/Heap.antt =====
-- The heap of src/merge.cc: `CA_merge_heap_push`, `CA_merge_heap_replace_top` and `CA_merge_heap_pop`. The list is
-- the part of the array that is in use; a read or a write outside of it is the fault `overrun`.
pub mod Array
pub mod Order
pub mod Sink
pub mod Rise
pub mod Whole
use cantera_table.Shared.{
  ℕ, zero, suc, ◌+◌, ◌-◌, ◌*◌, ◌/◌, List, [], ◌∷◌, ◌++◌, Bool, none, some, ltb, leb, ◌==◌,
  if◌then◌else◌, length, get_elem?, set,
}
use cantera_table.Shared.Strings.{string_lt}
use cantera_table.Result.{Result, ok, err, overrun, out_of_rounds, ◌>>=◌}

-- struct CA_merge_heap
pub record Entry : Type 0 where
  pub key : List ℕ
  pub value : List ℕ
  pub table : ℕ

-- std::lexicographical_compare of the keys
unfoldable pub key_lt : Entry → Entry → Bool
key_lt a b = string_lt a.key b.key

-- heap[i], and heap[i] = x;
unfoldable pub load : List Entry → ℕ → Result Entry
load heap i = elim (get_elem? heap i) [ none ↦ err overrun | some x ↦ ok x ]

unfoldable pub store : List Entry → ℕ → Entry → Result (List Entry)
store heap i x = if ltb i (length heap) then ok (set heap i x) else err overrun

-- The same after `--heap`, which makes the indices start at 1.
unfoldable pub at : List Entry → ℕ → Result Entry
unfolding load
at heap zero = err overrun
at heap (suc i) = load heap i

unfoldable pub put : List Entry → ℕ → Entry → Result (List Entry)
unfolding store
put heap zero x = err overrun
put heap (suc i) x = store heap i x

-- while (i) { ... } heap[i] = *entry;
unfoldable pub push_loop : ℕ → List Entry → ℕ → Entry → Result (List Entry)
push_loop zero heap i entry = err out_of_rounds
push_loop (suc rounds) heap i entry =
    let step : Result (List Entry) = do
      above ← load heap ((i - 1) / 2)
      let move = store heap i above >>= λ heap'. push_loop rounds heap' ((i - 1) / 2) entry
      if key_lt entry above then move else store heap i entry
    in if i == 0 then store heap i entry else step

-- CA_merge_heap_push: the slot at heap_size is taken into use.
unfoldable pub push : List Entry → Entry → Result (List Entry)
push heap entry = push_loop (length heap + 1) (heap ++ (entry ∷ [])) (length heap) entry

-- if (child + 1 <= heap_size && ...) ++child;
unfoldable pub smaller_child : ℕ → List Entry → ℕ → Result ℕ
smaller_child heap_size heap child =
    if leb (child + 1) heap_size
    then (do
      right ← at heap (child + 1)
      left ← at heap child
      ok (if key_lt right left then child + 1 else child))
    else ok child

-- for (i = 1, child = 2; child <= heap_size; i = child, child = i << 1): the array and `i` behind the loop.
unfoldable pub sink : ℕ → ℕ → List Entry → ℕ → Result (List Entry × ℕ)
sink zero heap_size heap i = err out_of_rounds
sink (suc rounds) heap_size heap i =
    let step : Result (List Entry × ℕ) = do
      child ← smaller_child heap_size heap (2 * i)
      x ← at heap child
      heap' ← put heap i x
      sink rounds heap_size heap' child
    in if leb (2 * i) heap_size then step else ok (heap, i)

-- while (i > 1) { ... } heap[i] = *entry;
unfoldable pub rise : ℕ → List Entry → ℕ → Entry → Result (List Entry)
rise zero heap i entry = err out_of_rounds
rise (suc rounds) heap i entry =
    let step : Result (List Entry) = do
      above ← at heap (i / 2)
      let move = put heap i above >>= λ heap'. rise rounds heap' (i / 2) entry
      if key_lt entry above then move else put heap i entry
    in if ltb 1 i then step else put heap i entry

-- CA_merge_heap_replace_top
unfoldable pub replace_top : List Entry → ℕ → Entry → Result (List Entry)
replace_top heap heap_size entry = do
  hole ← sink (heap_size + 1) heap_size heap 1
  rise (hole.1 + 1) hole.0 hole.1 entry

-- while (i > 0) { ... } heap[i] = heap[heap_size];
unfoldable pub rise_tail : ℕ → ℕ → List Entry → ℕ → Result (List Entry)
rise_tail zero heap_size heap i = err out_of_rounds
rise_tail (suc rounds) heap_size heap i =
    let settle = at heap heap_size >>= λ tail. put heap i tail in
    let step : Result (List Entry) = do
      tail ← at heap heap_size
      above ← at heap (i / 2)
      let move = put heap i above >>= λ heap'. rise_tail rounds heap_size heap' (i / 2)
      if key_lt tail above then move else settle
    in if ltb 0 i then step else settle

-- CA_merge_heap_pop
unfoldable pub pop : List Entry → ℕ → Result (List Entry)
pop heap heap_size = do
  hole ← sink (heap_size + 1) heap_size heap 1
  let tail_moves = rise_tail (hole.1 + 1) heap_size hole.0 hole.1
  if hole.1 == heap_size then ok hole.0 else tail_moves
