-- ===== src/WriteOnce/Table.antt =====
-- `WriteOnceTable` of src/table-backend-writeonce.cc, which has a builder until Sync and
-- a reader from then on, or neither where the opening of the file throws. Its `path_file` is the file
-- that stands at the table's path.
pub mod States
pub mod Rows
use cantera_table.Shared.{
  ℕ, zero, suc, List, [], ◌∷◌, Bool, true, false, Option, none, some, if◌then◌else◌,
}
use cantera_table.Shared.Int.{ℤ}
use cantera_table.Result.{Fault, Result, ok, err, require, ◌>>=◌}
use cantera_table.WriteOnce.Codec.{Storage}
use cantera_table.WriteOnce.Builder
use cantera_table.WriteOnce.Builder.{Builder, Options, create, build_at}
use cantera_table.WriteOnce.Sorting
use cantera_table.WriteOnce.Sorting.{Sorter, empty_sorter, refill}
use cantera_table.WriteOnce.Cursor.{skip, seek_to_first}
use cantera_table.WriteOnce.Reader
use cantera_table.WriteOnce.Reader.{Reader, Whence, open_reader}

-- WriteOnceBuilder and WriteOnceSortingBuilder
pub data AnyBuilder : Type 0 where
  in_order : Builder → AnyBuilder
  in_any_order : Sorter → AnyBuilder

pub record WriteOnceTable : Type 0 where
  pub options : Options
  pub builder : Option AnyBuilder
  pub reader : Option Reader
  pub path_file : Option (List ℕ)

-- Sync returns, or throws in Build, or in OpenFile or the reader's constructor, with the table that is
-- left. A builder of which Build throws stays, in a state of which the model says nothing.
pub data Synced : Type 0 where
  returns : WriteOnceTable → Synced
  build_throws : Fault → Synced
  open_throws : WriteOnceTable → Fault → Synced

module _ (s : Storage) where
  -- WriteOnceTable(path, options), where GetInputUnsorted is `input_unsorted`.
  unfoldable pub create_table : Options → Bool → Option (List ℕ) → WriteOnceTable
  create_table options input_unsorted path_file = record {
    options = options;
    builder =
        some (if input_unsorted then in_any_order empty_sorter else in_order (create s options));
    reader = none;
    path_file = path_file;
  }

  -- builder_->Add(k, v);
  unfoldable pub add_any : Options → AnyBuilder → List ℕ → List ℕ → Result AnyBuilder
  add_any options (in_order b) k v = Builder.add s options b k v >>= λ b'. ok (in_order b')
  add_any options (in_any_order w) k v = Sorting.add w k v >>= λ w'. ok (in_any_order w')

  -- InsertRow, with KJ_REQUIRE(value_count == 2).
  unfoldable pub insert_row : WriteOnceTable → List (List ℕ) → Result WriteOnceTable
  insert_row t [] = err require
  insert_row t (k ∷ []) = err require
  insert_row t (k ∷ v ∷ []) = elim t.builder [
    | none ↦ ok t
    | some b ↦ add_any t.options b k v >>= λ b'. ok (record t { builder = some b' })
  ]
  insert_row t (k ∷ v ∷ x ∷ values) = err require

  -- builder_->Build()
  unfoldable pub build_any : Options → AnyBuilder → Result (Option (List ℕ) × ℕ)
  build_any options (in_order b) = build_at s options b
  build_any options (in_any_order w) = refill s options w >>= λ b. build_at s options b

  -- A file that is committed replaces the one at the path.
  abbrev pub commit : Option (List ℕ) → Option (List ℕ) → Option (List ℕ)
  commit none before = before
  commit (some file) before = some file

  -- OpenFile, which fails if there is no file, and the constructor of the reader.
  unfoldable pub open_path : Options → Option (List ℕ) → ℕ → Result Reader
  open_path options none index_offset = err require
  open_path options (some file) index_offset = open_reader s file index_offset options

  -- The table whose builder is reset, with the reader that was opened or not.
  unfoldable pub after_open : WriteOnceTable → Result Reader → Synced
  after_open t (ok r) = returns (record t { reader = some r })
  after_open t (err e) = open_throws t e

  -- builder_.reset(); and the opening of the file that stands at the path now.
  unfoldable pub after_build : WriteOnceTable → Result (Option (List ℕ) × ℕ) → Synced
  unfolding open_path after_open
  after_build t (ok (file, index_offset)) =
      let path_file = commit file t.path_file in
      after_open (record t { builder = none; path_file = path_file })
        (open_path t.options path_file index_offset)
  after_build t (err e) = build_throws e

  unfoldable pub sync : WriteOnceTable → Synced
  unfolding after_build
  sync t = elim t.builder [ none ↦ returns t | some b ↦ after_build t (build_any t.options b) ]

  unfoldable pub is_sorted : WriteOnceTable → Bool
  is_sorted t = elim t.reader [ none ↦ false | some r ↦ Reader.is_sorted r ]

  unfoldable pub read_row : WriteOnceTable → Result (WriteOnceTable × Option (List ℕ × List ℕ))
  read_row t = elim t.reader [
    | none ↦ ok (t, none)
    | some r ↦ Reader.read_row s r >>= λ p. ok (record t { reader = some p.0 }, p.1)
  ]

  unfoldable pub seek_to_key : WriteOnceTable → List ℕ → Result (WriteOnceTable × Bool)
  seek_to_key t key = elim t.reader [
    | none ↦ ok (t, false)
    | some r ↦ Reader.seek_to_key s r key >>= λ p. ok (record t { reader = some p.0 }, p.1)
  ]

  unfoldable pub seek : WriteOnceTable → ℤ → Whence → Result WriteOnceTable
  seek t offset whence = elim t.reader [
    | none ↦ ok t
    | some r ↦ Reader.seek s r whence offset >>= λ r'. ok (record t { reader = some r' })
  ]

  unfoldable pub offset : WriteOnceTable → Result (WriteOnceTable × ℕ)
  offset t = elim t.reader [
    | none ↦ ok (t, 0)
    | some r ↦ Reader.offset s r >>= λ p. ok (record t { reader = some p.0 }, p.1)
  ]

  -- SeekToFirst and Skip
  unfoldable pub to_first : WriteOnceTable → WriteOnceTable
  to_first t = elim t.reader [
    | none ↦ t
    | some r ↦ record t { reader = some (record r { cursor = seek_to_first }) }
  ]

  unfoldable pub skip_rows : WriteOnceTable → ℕ → WriteOnceTable × Bool
  skip_rows t count = elim t.reader [
    | none ↦ (t, false)
    | some r ↦
        let moved = skip r.index.num_entries r.cursor count in
        (record t { reader = some (record r { cursor = moved.0 }) }, moved.1)
  ]

  -- InsertRow for each row, and ReadRow again and again, at most `n` times, until it finds no row.
  unfoldable pub insert_rows : WriteOnceTable → List (List ℕ × List ℕ) → Result WriteOnceTable
  insert_rows t [] = ok t
  insert_rows t (row ∷ rows) = do t' ← insert_row t (row.0 ∷ row.1 ∷ []); insert_rows t' rows

  unfoldable pub read_all : ℕ → WriteOnceTable → Result (List (List ℕ × List ℕ))
  read_all zero t = ok []
  read_all (suc n) t = do
    p ← read_row t
    elim p.1 [ none ↦ ok [] | some row ↦ (do later ← read_all n p.0; ok (row ∷ later)) ]
