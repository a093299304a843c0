-- ===== src/WriteOnce/Table/States.antt =====
-- The states of `WriteOnceTable` of src/table-backend-writeonce.cc.
use mathlib.Core.Option.{map as map_option}
use cantera_table.Shared.{ℕ, ◌≡◌, ap, List, [], ◌∷◌, Bool, true, false, Option, none, some}
use cantera_table.Shared.Int.{ℤ}
use cantera_table.Result.{bind-ok, ok-injective, Fault, Result, ok, err, ◌>>=◌}
use cantera_table.WriteOnce.Codec.{Storage}
use cantera_table.WriteOnce.Builder.{Options}
use cantera_table.WriteOnce.Reader
use cantera_table.WriteOnce.Reader.{Reader, Whence, open_reader, opened, open_table}
use cantera_table.WriteOnce.Cursor.{skip, seek_to_first}
use cantera_table.WriteOnce.Table.{
  AnyBuilder, WriteOnceTable, create_table, add_any, insert_row, build_any, open_path, after_open,
  after_build, Synced, returns, build_throws, open_throws, sync, read_row, seek_to_key, seek,
  offset, to_first, skip_rows,
}

module _ (s : Storage) where
  -- The calls of a table that return, and those that throw but for a Sync that loses the builder: they
  -- leave the builder or the reader in any state.
  pub data Step : WriteOnceTable → WriteOnceTable → Type 0 where
    inserts :
        (t t' : WriteOnceTable) (value : List (List ℕ)) → insert_row s t value ≡ ok t' → Step t t'
    builder_throws :
        (t : WriteOnceTable) (change : AnyBuilder → AnyBuilder)
        → Step t (record t { builder = map_option change t.builder })
    syncs : (t t' : WriteOnceTable) → sync s t ≡ returns t' → Step t t'
    reads :
        (t t' : WriteOnceTable) (row : Option (List ℕ × List ℕ))
        → read_row s t ≡ ok (t', row)
        → Step t t'
    seeks_key :
        (t t' : WriteOnceTable) (key : List ℕ) (found : Bool)
        → seek_to_key s t key ≡ ok (t', found)
        → Step t t'
    seeks :
        (t t' : WriteOnceTable) (to : ℤ) (whence : Whence) → seek s t to whence ≡ ok t' → Step t t'
    tells : (t t' : WriteOnceTable) (n : ℕ) → offset s t ≡ ok (t', n) → Step t t'
    goes_first : (t : WriteOnceTable) → Step t (to_first s t)
    skips : (t : WriteOnceTable) (count : ℕ) → Step t (skip_rows s t count).0
    reader_throws :
        (t : WriteOnceTable) (change : Reader → Reader)
        → Step t (record t { reader = map_option change t.reader })

  -- The states of a table, with whether a Sync of it threw behind the reset of the builder. It is made by
  -- one of the constructors; that of a path finds a file of version 4 there.
  pub data Reachable (o : Options) : Bool → WriteOnceTable → Type 0 where
    created :
        (input_unsorted : Bool) (before : Option (List ℕ))
        → Reachable o false (create_table s o input_unsorted before)
    opened_at :
        (file : List ℕ) (seekable : Bool) (r : Reader)
        → open_table s file seekable ≡ ok (opened r)
        → Reachable o false
            (record { options = o; builder = none; reader = some r; path_file = some file })
    then :
        (lost : Bool) (t t' : WriteOnceTable) → Reachable o lost t → Step t t' → Reachable o lost t'
    loses :
        (lost : Bool) (t t' : WriteOnceTable) (e : Fault)
        → Reachable o lost t
        → sync s t ≡ open_throws t' e
        → Reachable o true t'

-- A builder and no reader, or a reader, a file at the path and no builder; or neither, where a Sync has
-- lost the builder.
abbrev pub OneOf : Bool → Option AnyBuilder → Option Reader → Option (List ℕ) → Type 0
OneOf false (some b) none file = Unit
OneOf false (some b) (some r) file = ⊥
OneOf false none none file = ⊥
OneOf false none (some r) none = ⊥
OneOf false none (some r) (some file) = Unit
OneOf true none none file = Unit
OneOf true none (some r) file = ⊥
OneOf true (some b) r file = ⊥

abbrev pub IsValid : Bool → WriteOnceTable → Type 0
IsValid lost t = OneOf lost t.builder t.reader t.path_file

IsValid-same :
    (lost : Bool) (t t' : WriteOnceTable) → ok t ≡ ok t' → IsValid lost t → IsValid lost t'
IsValid-same lost t t' h v = rw (ok-injective t t' h) at v

IsValid-paired :
    {A : Type 0}
    → (lost : Bool) (t t' : WriteOnceTable) (a a' : A)
    → ◌≡◌ {A = Result (WriteOnceTable × A)} (ok (t, a)) (ok (t', a'))
    → IsValid lost t
    → IsValid lost t'
IsValid-paired lost t t' a a' h v = rw (ap (λ p. p.0) (ok-injective (t, a) (t', a') h)) at v

-- A call of the reader leaves a reader.
IsValid-reads :
    {A : Type 0}
    → (t : Reader → WriteOnceTable) (t' : WriteOnceTable) (a : A) (m : Result (Reader × A))
    → ◌≡◌ {A = Result (WriteOnceTable × A)} (m >>= λ p. ok (t p.0, p.1)) (ok (t', a))
    → ((r : Reader) → IsValid false (t r))
    → IsValid false t'
IsValid-reads t t' a m h v =
    let called = bind-ok m (λ p. ok (t p.0, p.1)) (t', a) h in
    rw (ap (λ p. p.0) (ok-injective (t called.0.0, called.0.1) (t', a) called.2)) at (v called.0.0)

module _ (s : Storage) (o : Options) where
  abbrev with : Option AnyBuilder → Option Reader → Option (List ℕ) → WriteOnceTable
  with b r file = record { options = o; builder = b; reader = r; path_file = file }

  insert_row-IsValid :
      (lost : Bool) (b : Option AnyBuilder) (r : Option Reader) (file : Option (List ℕ))
      (t' : WriteOnceTable) (value : List (List ℕ))
      → insert_row s (with b r file) value ≡ ok t'
      → OneOf lost b r file
      → IsValid lost t'
  unfolding insert_row
  insert_row-IsValid lost b r file t' [] h v = absurd cc
  insert_row-IsValid lost b r file t' (k ∷ []) h v = absurd cc
  insert_row-IsValid true (some b) r file t' (k ∷ x ∷ []) h v = absurd v
  insert_row-IsValid false (some b) none file t' (k ∷ x ∷ []) h v =
      let added = bind-ok (add_any s o b k x) (λ b'. ok (with (some b') none file)) t' h in
      IsValid-same false (with (some added.0) none file) t' added.2 tt
  insert_row-IsValid false (some b) (some r) file t' (k ∷ x ∷ []) h v = absurd v
  insert_row-IsValid lost none r file t' (k ∷ x ∷ []) h v =
      IsValid-same lost (with none r file) t' h v
  insert_row-IsValid lost b r file t' (k ∷ x ∷ y ∷ value) h v = absurd cc

  -- What a call of Sync leaves.
  Leaves : Bool → Synced → Type 0
  Leaves lost (returns t) = IsValid lost t
  Leaves lost (build_throws e) = Unit
  Leaves lost (open_throws t e) = IsValid true t

  after_open-Leaves :
      (bytes : List ℕ) (opening : Result Reader)
      → Leaves false (after_open s (with none none (some bytes)) opening)
  unfolding Leaves after_open
  after_open-Leaves bytes (ok r) = tt
  after_open-Leaves bytes (err e) = tt

  after_build-Leaves :
      (b : AnyBuilder) (file : Option (List ℕ)) (built : Result (Option (List ℕ) × ℕ))
      → Leaves false (after_build s (with (some b) none file) built)
  unfolding Leaves after_build after_open open_path
  after_build-Leaves b none (ok (none, n)) = tt
  after_build-Leaves b (some bytes) (ok (none, n)) =
      after_open-Leaves bytes (open_reader s bytes n o)
  after_build-Leaves b file (ok (some bytes, n)) = after_open-Leaves bytes (open_reader s bytes n o)
  after_build-Leaves b file (err e) = tt

  sync-Leaves :
      (lost : Bool) (b : Option AnyBuilder) (r : Option Reader) (file : Option (List ℕ))
      → OneOf lost b r file
      → Leaves lost (sync s (with b r file))
  unfolding Leaves sync
  sync-Leaves lost none r file v = v
  sync-Leaves true (some b) r file v = absurd v
  sync-Leaves false (some b) (some r) file v = absurd v
  sync-Leaves false (some b) none file v = after_build-Leaves b file (build_any s o b)

  -- A call that goes to the reader, if there is one, and gives `nothing` otherwise.
  through-IsValid :
      {A : Type 0}
      → (lost : Bool) (call : Reader → Result (Reader × A)) (nothing : A) (t : WriteOnceTable)
        (b : Option AnyBuilder) (r : Option Reader) (file : Option (List ℕ)) (t' : WriteOnceTable)
        (a : A)
      → ◌≡◌ {A = Result (WriteOnceTable × A)}
          (elim r [
            | none ↦ ok (t, nothing)
            | some r' ↦ call r' >>= λ p. ok (with b (some p.0) file, p.1)
          ])
          (ok (t', a))
      → OneOf lost b r file
      → IsValid lost t
      → IsValid lost t'
  through-IsValid lost call nothing t b none file t' a h v w =
      IsValid-paired lost t t' nothing a h w
  through-IsValid false call nothing t none (some r) (some file) t' a h v w =
      IsValid-reads (λ r'. with none (some r') (some file)) t' a (call r) h (λ r'. tt)
  through-IsValid false call nothing t none (some r) none t' a h v w = absurd v
  through-IsValid false call nothing t (some b) (some r) file t' a h v w = absurd v
  through-IsValid true call nothing t none (some r) file t' a h v w = absurd v
  through-IsValid true call nothing t (some b) (some r) file t' a h v w = absurd v

  seek-IsValid :
      (lost : Bool) (b : Option AnyBuilder) (r : Option Reader) (file : Option (List ℕ))
      (t' : WriteOnceTable) (to : ℤ) (whence : Whence)
      → seek s (with b r file) to whence ≡ ok t'
      → OneOf lost b r file
      → IsValid lost t'
  unfolding seek
  seek-IsValid lost b none file t' to whence h v = IsValid-same lost (with b none file) t' h v
  seek-IsValid false none (some r) (some file) t' to whence h v =
      let moved =
        bind-ok (Reader.seek s r whence to) (λ r'. ok (with none (some r') (some file))) t' h in
      IsValid-same false (with none (some moved.0) (some file)) t' moved.2 tt
  seek-IsValid false none (some r) none t' to whence h v = absurd v
  seek-IsValid false (some b) (some r) file t' to whence h v = absurd v
  seek-IsValid true none (some r) file t' to whence h v = absurd v
  seek-IsValid true (some b) (some r) file t' to whence h v = absurd v

  -- Whatever happens to the builder or to the reader, it stays.
  builder-IsValid :
      (lost : Bool) (change : AnyBuilder → AnyBuilder) (b : Option AnyBuilder) (r : Option Reader)
      (file : Option (List ℕ))
      → OneOf lost b r file
      → OneOf lost (map_option change b) r file
  builder-IsValid lost change none r file v = v
  builder-IsValid false change (some b) none file v = v
  builder-IsValid false change (some b) (some r) file v = v
  builder-IsValid true change (some b) r file v = v

  reader-IsValid :
      (lost : Bool) (change : Reader → Reader) (b : Option AnyBuilder) (r : Option Reader)
      (file : Option (List ℕ))
      → OneOf lost b r file
      → OneOf lost b (map_option change r) file
  reader-IsValid lost change b none file v = v
  reader-IsValid false change none (some r) none v = v
  reader-IsValid false change none (some r) (some file) v = v
  reader-IsValid false change (some b) (some r) file v = v
  reader-IsValid true change none (some r) file v = v
  reader-IsValid true change (some b) (some r) file v = v

  to_first-IsValid :
      (lost : Bool) (b : Option AnyBuilder) (r : Option Reader) (file : Option (List ℕ))
      → OneOf lost b r file
      → IsValid lost (to_first s (with b r file))
  unfolding to_first
  to_first-IsValid lost b none file v = v
  to_first-IsValid lost b (some r) file v =
      reader-IsValid lost (λ r'. record r' { cursor = seek_to_first }) b (some r) file v

  skip_rows-IsValid :
      (lost : Bool) (b : Option AnyBuilder) (r : Option Reader) (file : Option (List ℕ)) (count : ℕ)
      → OneOf lost b r file
      → IsValid lost (skip_rows s (with b r file) count).0
  unfolding skip_rows
  skip_rows-IsValid lost b none file count v = v
  skip_rows-IsValid lost b (some r) file count v =
      reader-IsValid lost
        (λ r'. record r' { cursor = (skip r'.index.num_entries r'.cursor count).0 }) b (some r) file
        v

module _ (s : Storage) where
  Step-IsValid :
      (lost : Bool) {t t' : WriteOnceTable} → Step s t t' → IsValid lost t → IsValid lost t'
  unfolding read_row seek_to_key offset Leaves
  Step-IsValid lost (inserts t t' value h) v =
      insert_row-IsValid s t.options lost t.builder t.reader t.path_file t' value h v
  Step-IsValid lost (builder_throws t change) v =
      builder-IsValid s t.options lost change t.builder t.reader t.path_file v
  Step-IsValid lost (syncs t t' h) v =
      rw (h, Leaves) at (sync-Leaves s t.options lost t.builder t.reader t.path_file v)
  Step-IsValid lost (reads t t' row h) v =
      through-IsValid s t.options lost (Reader.read_row s) none t t.builder t.reader t.path_file t'
        row h v v
  Step-IsValid lost (seeks_key t t' key found h) v =
      through-IsValid s t.options lost (λ r. Reader.seek_to_key s r key) false t t.builder t.reader
        t.path_file t' found h v v
  Step-IsValid lost (seeks t t' to whence h) v =
      seek-IsValid s t.options lost t.builder t.reader t.path_file t' to whence h v
  Step-IsValid lost (tells t t' n h) v =
      through-IsValid s t.options lost (Reader.offset s) 0 t t.builder t.reader t.path_file t' n h v
        v
  Step-IsValid lost (goes_first t) v =
      to_first-IsValid s t.options lost t.builder t.reader t.path_file v
  Step-IsValid lost (skips t count) v =
      skip_rows-IsValid s t.options lost t.builder t.reader t.path_file count v
  Step-IsValid lost (reader_throws t change) v =
      reader-IsValid s t.options lost change t.builder t.reader t.path_file v

  -- After any calls of a WriteOnceTable, some of which may throw, it has a builder and no reader, or a
  -- reader, no builder and a file at its path, until a Sync throws while it opens the file; from then on
  -- it has neither.
  pub Reachable-IsValid :
      (o : Options) (lost : Bool) (t : WriteOnceTable) → Reachable s o lost t → IsValid lost t
  unfolding create_table Leaves
  Reachable-IsValid o _ _ (created input_unsorted before) = tt
  Reachable-IsValid o _ _ (opened_at file seekable r h) = tt
  Reachable-IsValid o _ _ (then lost t t' earlier step) =
      Step-IsValid lost step (Reachable-IsValid o lost t earlier)
  Reachable-IsValid o _ _ (loses lost t t' e earlier h) =
      rw (h, Leaves) at
        (sync-Leaves s t.options lost t.builder t.reader t.path_file
          (Reachable-IsValid o lost t earlier))
