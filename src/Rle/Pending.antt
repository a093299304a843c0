-- ===== src/Rle/Pending.antt =====
-- What the writer writes, as a recursion on the bytes that are still to come.
use Prim.Native.Nat.{bit_or}
use cantera_table.Shared.{
  ℕ, ◌+◌, ◌-◌, ◌<◌, ◌≡◌, List, [], ◌∷◌, ◌++◌, append_assoc, append-nil, arith, ltb, leb, ◌==◌, not,
  ◌&&◌, if◌then◌else◌, replicate,
}
use cantera_table.Rle.{Writer, init_write, flush, extend, put, put_all, encode}

-- The bytes of one run.
unfoldable pub run_bytes : ℕ → ℕ → List ℕ
run_bytes v r =
    if r == 0
    then []
    else if leb r 2 && ltb v 0xc0
    then replicate r v
    else bit_or 0xc0 (r - 1) ∷ v ∷ []

-- What is still to be written with `r` copies of `v` pending and `xs` to come.
unfoldable pub grow : ℕ → ℕ → (ℕ → List ℕ) → List ℕ
grow x r later = if r == 0x40 then 0xff ∷ x ∷ later 0 else later r

unfoldable pub pending : List ℕ → ℕ → ℕ → List ℕ
pending [] v r = run_bytes v r
pending (x ∷ xs) v r =
    if not (x == v) && not (r == 0)
    then run_bytes v r ++ grow x 1 (pending xs x)
    else grow x (r + 1) (pending xs x)

flush-out : (c : Writer) → (flush c).out ≡ c.out ++ run_bytes c.value c.run
unfolding flush run_bytes
flush-out c = ground (arith, append-nil c.out)

flush-run : (c : Writer) → (flush c).run ≡ 0
unfolding flush
flush-run c = ground arith

module _ (c : Writer) (x : ℕ) (h : c.run < 64) where
  extend-grow :
      (later : ℕ → List ℕ)
      → (extend c x).out ++ later (extend c x).run ≡ c.out ++ grow x (c.run + 1) later
  unfolding extend grow
  extend-grow later = ground (arith, append_assoc c.out (0xff ∷ x ∷ []) (later 0))

  extend-fields : ((extend c x).value ≡ x) × ((extend c x).run < 64)
  unfolding extend
  extend-fields = ground arith

put-fields : (c : Writer) (x : ℕ) → c.run < 64 → ((put c x).value ≡ x) × ((put c x).run < 64)
unfolding put
put-fields c x h = ground (arith, extend-fields (flush c) x, extend-fields c x, flush-run c)

put-pending :
    (c : Writer) (x : ℕ) (xs : List ℕ)
    → c.run < 64
    → (put c x).out ++ pending xs x (put c x).run ≡ c.out ++ pending (x ∷ xs) c.value c.run
unfolding put pending
put-pending c x xs h = ground (
  arith,
  extend-grow (flush c) x (omega (arith, flush-run c)) (pending xs x),
  extend-grow c x h (pending xs x),
  flush-run c,
  flush-out c,
  append_assoc c.out (run_bytes c.value c.run) (grow x 1 (pending xs x)),
)

put_all-pending :
    (xs : List ℕ) (c : Writer)
    → c.run < 64
    → (flush (put_all c xs)).out ≡ c.out ++ pending xs c.value c.run
unfolding put_all
put_all-pending [] c h = unfold pending in flush-out c
put_all-pending (x ∷ xs) c h =
    ground (arith, put_all-pending xs (put c x), put-fields c x h, put-pending c x xs h)

pub encode-pending : (xs : List ℕ) → encode xs ≡ pending xs 0 0
unfolding encode init_write
encode-pending xs = put_all-pending xs (init_write []) (omega arith)
