-- ===== src/WriteOnce/Builder/Rows.antt =====
-- Adding rows in order to `WriteOnceBuilder`, and building the file.
use cantera_table.Shared.{
  ◌+◌, ◌^◌, ◌<◌, ◌≡◌, refl, sym, ap, List, [], ◌∷◌, ◌++◌, Bool, true, false, length, All,
  append_assoc, append-nil, Bool-cases, inl, inr, arith,
}
use cantera_table.Shared.Strings.{string_lt, StringLe}
use cantera_table.Result.{ok, err, require}
use cantera_table.WriteOnce.Codec.{Storage}
use cantera_table.WriteOnce.File.{write_header}
use cantera_table.WriteOnce.Block.{estimate_size}
use cantera_table.WriteOnce.Block.Entries.{
  Bytes, Fits, firsts, lengths, block_of, some_left, add_step,
}
use cantera_table.WriteOnce.Builder.{
  Options, Builder, header, create, check_order, is_full, add, add_rows,
}
use cantera_table.WriteOnce.Builder.Blocks.{
  Row, weight, IsSmall, last_key, weight-append, IsSmall-Fits, get_last_key-block_of,
}
use cantera_table.WriteOnce.Builder.State.{Some, state, write_block-state, write_block-none}

-- The keys are in order, and none is before `key`.
abbrev pub InOrder : Bytes → List Row → Type 0
InOrder key [] = Unit
InOrder key (e ∷ es) = StringLe key e.0 × InOrder e.0 es

abbrev pub concat : List (List Row) → List Row
concat [] = []
concat (b ∷ bs) = b ++ concat bs

pub concat-append : (a b : List (List Row)) → concat (a ++ b) ≡ concat a ++ concat b
concat-append [] b = refl
concat-append (x ∷ a) b = rw (concat-append a b, append_assoc x (concat a) (concat b))

last_key-append : (a b : List Row) → Some b → last_key (a ++ b) ≡ last_key b
last_key-append [] b h = refl
last_key-append (x ∷ []) [] h = elim h [ ]
last_key-append (x ∷ []) (y ∷ b) h = refl
last_key-append (x ∷ x' ∷ a) b h = last_key-append (x' ∷ a) b h

last_key-snoc : (a : List Row) (e : Row) → last_key (a ++ (e ∷ [])) ≡ e.0
last_key-snoc a e = last_key-append a (e ∷ []) tt

Some-snoc : (a : List Row) (e : Row) → Some (a ++ (e ∷ []))
Some-snoc [] e = tt
Some-snoc (x ∷ a) e = tt

pub All-snoc : (a : List (List Row)) (b : List Row) → All Some a → Some b → All Some (a ++ (b ∷ []))
All-snoc [] b h k = (k, tt)
All-snoc (x ∷ a) b h k = (h.0, All-snoc a b h.1 k)

-- The rows `done` were added to the builder: they are in its closed blocks and its open one.
pub record Holds (s : Storage) (o : Options) (w : Builder) (done : List Row) : Type 0 where
  pub closed : List (List Row)
  pub open_rows : List Row
  pub is_state : w ≡ state s o closed open_rows
  pub rows : concat closed ++ open_rows ≡ done
  pub closed_some : All Some closed
  pub open_some : Some done → Some open_rows

module _ (s : Storage) (o : Options) where
  check_order-ok :
      (open_rows : List Row) (key : Bytes)
      → (Some open_rows → StringLe (last_key open_rows) key)
      → check_order s o (block_of open_rows) key ≡ ok tt
  unfolding check_order
  check_order-ok [] key h = refl
  check_order-ok (e ∷ es) key h =
      rw (some_left (length (lengths (firsts es))), get_last_key-block_of e es, h tt)

  -- A key before that of the last row is refused.
  check_order-err :
      (e : Row) (es : List Row) (key : Bytes)
      → string_lt key (last_key (e ∷ es)) ≡ true
      → check_order s o (block_of (e ∷ es)) key ≡ err require
  unfolding check_order
  check_order-err e es key h =
      rw (some_left (length (lengths (firsts es))), get_last_key-block_of e es, h)

  full_before : List Row → Row → Bool
  full_before open_rows e =
      is_full s o (estimate_size s.numbers (block_of open_rows)) (length e.0 + length e.1)

  -- The block stays open.
  add-open :
      (closed : List (List Row)) (open_rows : List Row) (e : Row)
      → full_before open_rows e ≡ false
      → check_order s o (block_of open_rows) e.0 ≡ ok tt
      → Fits e
      → add s o (state s o closed open_rows) e.0 e.1 ≡ ok (state s o closed (open_rows ++ (e ∷ [])))
  unfolding add full_before
  add-open closed open_rows e f order fits = rw (order, f, add_step open_rows e fits)

  -- The block is closed, and another one opened.
  add-closed :
      (closed : List (List Row)) (x : Row) (xs : List Row) (e : Row)
      → full_before (x ∷ xs) e ≡ true
      → check_order s o (block_of (x ∷ xs)) e.0 ≡ ok tt
      → IsSmall (x ∷ xs)
      → Fits e
      → add s o (state s o closed (x ∷ xs)) e.0 e.1
        ≡ ok (state s o (closed ++ ((x ∷ xs) ∷ [])) (e ∷ []))
  unfolding add full_before
  add-closed closed x xs e t order small fits =
      rw (order, t, write_block-state s o closed x xs small, add_step [] e fits)

  add-first :
      (closed : List (List Row)) (e : Row)
      → Fits e
      → add s o (state s o closed []) e.0 e.1 ≡ ok (state s o closed (e ∷ []))
  unfolding add full_before
  add-first closed e fits = elim (Bool-cases (full_before [] e)) [
    | inl t ↦
        rw (
          check_order-ok [] e.0 (λ h. absurd h),
          t,
          write_block-none s o closed,
          add_step [] e fits,
        )
    | inr f ↦ rw (check_order-ok [] e.0 (λ h. absurd h), f, add_step [] e fits)
  ]

  -- What holds of the rows in one block and those in front of it.
  add-state :
      (closed : List (List Row)) (open_rows : List Row) (e : Row)
      → All Some closed
      → (Some open_rows → StringLe (last_key open_rows) e.0)
      → IsSmall (open_rows ++ (e ∷ []))
      → (w : Builder) × (add s o (state s o closed open_rows) e.0 e.1 ≡ ok w)
        × Holds s o w ((concat closed ++ open_rows) ++ (e ∷ []))
  add-state closed [] e some_closed order small = (
    state s o closed (e ∷ []),
    add-first closed e (IsSmall-Fits (e ∷ []) small).0,
    record {
      closed = closed;
      open_rows = e ∷ [];
      is_state = refl;
      rows = rw (append-nil (concat closed));
      closed_some = some_closed;
      open_some = λ h. tt;
    },
  )
  add-state closed (x ∷ xs) e some_closed order small =
      let both : weight (x ∷ xs) + weight (e ∷ []) < 2 ^ 30 =
        rw (weight-append (x ∷ xs) (e ∷ [])) at small in
      let fits = (IsSmall-Fits (e ∷ []) (omega (arith, both))).0 in
      let ordered = check_order-ok (x ∷ xs) e.0 order in
      elim (Bool-cases (full_before (x ∷ xs) e)) [
        | inl t ↦ (
          state s o (closed ++ ((x ∷ xs) ∷ [])) (e ∷ []),
          add-closed closed x xs e t ordered (omega (arith, both)) fits,
          record {
            closed = closed ++ ((x ∷ xs) ∷ []);
            open_rows = e ∷ [];
            is_state = refl;
            rows = rw (concat-append closed ((x ∷ xs) ∷ []), append-nil (x ∷ xs));
            closed_some = All-snoc closed (x ∷ xs) some_closed tt;
            open_some = λ h. tt;
          },
        )
        | inr f ↦ (
          state s o closed ((x ∷ xs) ++ (e ∷ [])),
          add-open closed (x ∷ xs) e f ordered fits,
          record {
            closed = closed;
            open_rows = (x ∷ xs) ++ (e ∷ []);
            is_state = refl;
            rows = rw (append_assoc (concat closed) (x ∷ xs) (e ∷ []));
            closed_some = some_closed;
            open_some = λ h. tt;
          },
        )
      ]

  last_key-open :
      (closed : List (List Row)) (open_rows : List Row)
      → Some open_rows
      → last_key (concat closed ++ open_rows) ≡ last_key open_rows
  last_key-open closed open_rows h = last_key-append (concat closed) open_rows h

  Some-front : (a b : List Row) → Some b → Some (a ++ b)
  Some-front [] b h = h
  Some-front (x ∷ a) b h = tt

  Holds-last :
      (w : Builder) (done : List Row) (h : Holds s o w done)
      → Some done
      → last_key done ≡ last_key h.open_rows
  Holds-last w done h begun = rw h.rows at (last_key-open h.closed h.open_rows (h.open_some begun))

  -- A row that is in order is added.
  pub add-Holds :
      (w : Builder) (done : List Row) (e : Row)
      → Holds s o w done
      → (Some done → StringLe (last_key done) e.0)
      → IsSmall (done ++ (e ∷ []))
      → (w' : Builder) × (add s o w e.0 e.1 ≡ ok w') × Holds s o w' (done ++ (e ∷ []))
  add-Holds w done e h order small =
      let shorter : IsSmall (h.open_rows ++ (e ∷ [])) = omega (
        arith,
        small,
        weight-append done (e ∷ []),
        weight-append h.open_rows (e ∷ []),
        weight-append (concat h.closed) h.open_rows,
        ap weight h.rows,
      ) in
      let last_order : (Some h.open_rows → StringLe (last_key h.open_rows) e.0) = λ t.
        let begun : Some done = rw h.rows at (Some-front (concat h.closed) h.open_rows t) in
        rw (Holds-last w done h begun) at (order begun) in
      rw (h.is_state, sym h.rows)
        (add-state h.closed h.open_rows e h.closed_some last_order shorter)

  -- A row whose key is before that of the row before it is refused.
  pub add-unsorted :
      (w : Builder) (done : List Row) (e : Row)
      → Holds s o w done
      → Some done
      → string_lt e.0 (last_key done) ≡ true
      → add s o w e.0 e.1 ≡ err require
  unfolding add
  add-unsorted w done e h begun before =
      rw h.is_state
        (refused h.open_rows (h.open_some begun) (rw (Holds-last w done h begun) at before))
    where
      refused :
          (rows : List Row)
          → Some rows
          → string_lt e.0 (last_key rows) ≡ true
          → add s o (state s o h.closed rows) e.0 e.1 ≡ err require
      refused [] begun late = elim begun [ ]
      refused (x ∷ xs) begun late = rw (check_order-err x xs e.0 late)

  pub create-Holds : Holds s o (create s o) []
  unfolding create
  create-Holds = record {
    closed = [];
    open_rows = [];
    is_state = rw (append-nil (write_header (header s o 0) []));
    rows = refl;
    closed_some = tt;
    open_some = λ h. elim h [ ];
  }

  pub add_rows-Holds :
      (w : Builder) (done rows : List Row)
      → Holds s o w done
      → InOrder (last_key done) rows
      → IsSmall (done ++ rows)
      → (w' : Builder) × (add_rows s o w rows ≡ ok w') × Holds s o w' (done ++ rows)
  unfolding add_rows
  add_rows-Holds w done [] h order small = (w, refl, rw (append-nil done) h)
  add_rows-Holds w done (e ∷ rows) h order small =
      let split = append_assoc done (e ∷ []) rows in
      let first : IsSmall (done ++ (e ∷ [])) =
        omega (arith, small, weight-append done (e ∷ rows), weight-append done (e ∷ [])) in
      let one = add-Holds w done e h (λ t. order.0) first in
      let more =
        add_rows-Holds one.0 (done ++ (e ∷ [])) rows one.2 (rw (last_key-snoc done e) order.1)
          (rw split small) in
      (more.0, rw (one.1, more.1), rw split at more.2)
