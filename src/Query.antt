-- ===== src/Query.antt =====
-- src/query.cc `ProcessSubQuery` and `ProcessQuery`, over the query trees of src/query.h.
pub mod Sets
pub mod Duplicates
pub mod Lookup
pub mod Meaning
use cantera_table.Shared.{
  ℕ, ◌+◌, List, [], ◌∷◌, ◌++◌, Option, none, some, Bool, not, ◌&&◌, if◌then◌else◌, last_or,
}
use mathlib.Core.List.{map}
use cantera_table.Result.{Result, ok, err, require, null_pointer, ◌>>=◌}
use cantera_table.Shared.Words.{u64}
use cantera_table.Score.{OffsetScore, offset_score, float_lt, float_neg}
use cantera_table.Score.Double.{widen, double_lt, double_le, double_eq}
use Sets.{union, intersect, subtract}
use Sets.Laws.{keep}
use Duplicates.{remove_duplicates, operator_max, operator_min, join, order_by}
use Lookup.{Index, lookup_index_key}

-- The binary members of OperatorType, and the unary ones.
pub data BinaryOperator : Type 0 where
  or_ and_ subtract_ eq gt ge lt le in_range order_by_ random_sample : BinaryOperator

pub data UnaryOperator : Type 0 where
  max_ min_ negate : UnaryOperator

-- `Query`, by its type, with the doubles `value` and `value2` of a binary operator; `scalar` is one
-- with `rhs == nullptr`.
pub data Query : Type 0 where
  key leaf : List ℕ → Query
  binary : BinaryOperator → Query → Query → ℕ → ℕ → Query
  scalar : BinaryOperator → Query → ℕ → ℕ → Query
  unary : UnaryOperator → Query → Query

-- What the queries use of the schema. A summary table is SeekToKey and then Offset, with the base
-- offset of its line. `token` is LookupIndexKey for a token of the form "FIELD-in:KEY" or
-- "in-KEY:PARAMETER", and `sample` is the body of RANDOM_SAMPLE, with its random numbers.
pub record Schema : Type 0 where
  pub summary_tables : List ((List ℕ → Option ℕ) × ℕ)
  pub index_tables : List Index
  pub token : List ℕ → Option (Result (List (List OffsetScore)))
  pub sample : ℕ → List OffsetScore → List OffsetScore

-- The first summary table that has the key.
unfoldable pub find_key : List ((List ℕ → Option ℕ) × ℕ) → List ℕ → List OffsetScore
find_key [] k = []
find_key ((table, base) ∷ tables) k = elim (table k) [
  | none ↦ find_key tables k
  | some offset ↦ offset_score (u64 (offset + base)) 0 ∷ []
]

unfoldable pub lookup_token : Schema → List ℕ → Result (List (List OffsetScore))
lookup_token schema identifier = elim (schema.token identifier) [
  | none ↦ lookup_index_key schema.index_tables identifier
  | some calls ↦ calls
]

-- The operators that read `value` and not `rhs`. The others dereference `rhs`, but for those that
-- return at once where there are no offsets.
unfoldable pub compare_scalar :
    Schema → BinaryOperator → ℕ → ℕ → List OffsetScore → Result (List OffsetScore)
compare_scalar schema eq value value2 offsets =
    ok (keep (λ v. double_eq (widen v.score) value) offsets)
compare_scalar schema gt value value2 offsets =
    ok (keep (λ v. double_lt value (widen v.score)) offsets)
compare_scalar schema ge value value2 offsets =
    ok (keep (λ v. double_le value (widen v.score)) offsets)
compare_scalar schema lt value value2 offsets =
    ok (keep (λ v. double_lt (widen v.score) value) offsets)
compare_scalar schema le value value2 offsets =
    ok (keep (λ v. double_le (widen v.score) value) offsets)
compare_scalar schema in_range value value2 offsets =
    let low = if double_lt value2 value then value2 else value in
    let high = if double_lt value2 value then value else value2 in
    ok (keep (λ v. double_le low (widen v.score) && double_le (widen v.score) high) offsets)
compare_scalar schema random_sample value value2 offsets = ok (schema.sample value offsets)
compare_scalar schema and_ value value2 [] = ok []
compare_scalar schema subtract_ value value2 [] = ok []
compare_scalar schema _ value value2 offsets = err null_pointer

-- A binary operator with the offsets of `lhs`, and with the run of `rhs` on an empty array: it is
-- made where the operator needs it.
unfoldable pub after_left :
    Schema
    → BinaryOperator
    → Result (List OffsetScore)
    → ℕ
    → ℕ
    → List OffsetScore
    → Result (List OffsetScore)
unfolding compare_scalar
after_left schema or_ right value value2 [] = right
after_left schema or_ right value value2 (a ∷ offsets) = do
  rhs ← right
  ok (union (a ∷ offsets) rhs)
after_left schema and_ right value value2 [] = ok []
after_left schema and_ right value value2 (a ∷ offsets) = do
  rhs ← right
  ok (intersect rhs (a ∷ offsets))
after_left schema subtract_ right value value2 [] = ok []
after_left schema subtract_ right value value2 (a ∷ offsets) = do
  rhs ← right
  ok (subtract rhs (a ∷ offsets))
after_left schema gt right value value2 offsets = do
  rhs ← right
  ok (join (λ l r. float_lt r l) offsets rhs)
after_left schema lt right value value2 offsets = do
  rhs ← right
  ok (join (λ l r. float_lt l r) offsets rhs)
after_left schema order_by_ right value value2 offsets = do rhs ← right; ok (order_by offsets rhs)
after_left schema op right value value2 offsets = compare_scalar schema op value value2 offsets

-- o.score = -o.score
unfoldable pub negate_score : OffsetScore → OffsetScore
negate_score v = record v { score = float_neg v.score }

unfoldable pub after_unary : UnaryOperator → List OffsetScore → List OffsetScore
after_unary max_ offsets = operator_max offsets
after_unary min_ offsets = operator_min offsets
after_unary negate offsets = map negate_score offsets

-- ProcessSubQuery, from the contents of `offsets` to its new contents. A leaf's callback replaces
-- them by the records of each table in turn.
unfoldable pub process_sub_query : Schema → Query → List OffsetScore → Result (List OffsetScore)
unfolding find_key lookup_token after_left after_unary
process_sub_query schema (key k) offsets = ok (offsets ++ find_key schema.summary_tables k)
process_sub_query schema (leaf t) offsets = do
  calls ← lookup_token schema t
  ok (last_or offsets calls)
process_sub_query schema (binary op lhs rhs value value2) offsets = do
  left ← process_sub_query schema lhs offsets
  let right = process_sub_query schema rhs []
  after_left schema op right value value2 left
process_sub_query schema (scalar op lhs value value2) offsets = do
  left ← process_sub_query schema lhs offsets
  compare_scalar schema op value value2 left
process_sub_query schema (unary op lhs) offsets = do
  left ← process_sub_query schema lhs offsets
  ok (after_unary op left)

unfoldable pub process_query : Schema → Query → Bool → Result (List OffsetScore)
unfolding process_sub_query
process_query schema query use_max = do
  offsets ← process_sub_query schema query []
  ok (remove_duplicates use_max offsets)
