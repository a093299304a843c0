-- ===== src/Examples.antt =====
-- The theorems at concrete inputs, and runs of the definitions.
mod Codecs
mod Tables
mod Merges
mod Sorted
mod Older
use cantera_table.Examples.Codecs.{plain_codec, plain_encoder}
use cantera_table.Shared.{
  ◌≢◌, false, ℕ, zero, suc, if◌then◌else◌, Option, none, ◌^◌, ◌-◌, ◌<◌, refl, ◌+◌, ◌≤◌, length, ◌≡◌,
  List, [], ◌∷◌, ◌++◌, true, not, ◌||◌, some, arith,
}
use mathlib.Core.List.{map}
use cantera_table.Result.{err, ok, ◌>>=◌}
use cantera_table.Integer.{format_integer, parse_integer}
use cantera_table.Integer.RoundTrip.{parse-format_integer}
use cantera_table.Rle
use cantera_table.Rle.RoundTrip.{read_block-encode}
use cantera_table.Score.{OffsetScore, offset_score}
use cantera_table.Prediction.{
  encode_with_prediction, parse_with_prediction, max_offset_with_prediction,
}
use cantera_table.Prediction.RoundTrip.{HasFloats, kept, parse-encode_with_prediction}
use cantera_table.Prediction.MaxOffset.{last_offset as last_parsed, max_offset-parse}
use cantera_table.Query.{Query, key, leaf, binary, and_, or_, Schema, process_query, lookup_token}
use cantera_table.Shared.Strings.{string_eq}
use cantera_table.Query.Lookup.{
  lookup_index_key, decode_uri_component, decode_loop, hex_value, lookup_tables,
}
use cantera_table.Query.Sets.{union, intersect, subtract}
use cantera_table.Query.Sets.Laws.{has, keep, has-union, intersect-keep, subtract-keep}
use cantera_table.Query.Duplicates.{remove_duplicates, operator_max}
use cantera_table.Query.Duplicates.Laws.{
  StrictFrom, operator_max-remove_duplicates, remove_duplicates-StrictFrom,
}
use cantera_table.Formats.{
  offset_score_parse, offset_score_count, parse_loop, parse_array, array_type, count_loop,
  count_array,
}
use cantera_table.Formats.Single.{parse_single, single_score, read_little}
use cantera_table.Formats.Flexi.{
  parse_flexi, parse_flexi_records, increments, read_steps, read_flags, read_min_score,
  stored_scores, score_width, read_score, read_scores, read_big, records, running, count_flexi,
  count_flexi_records, skip_increments, skip_stored, advance,
}
use cantera_table.Prediction.{skip}
use cantera_table.Formats.Agreement.{offset_score_count-parse}
use cantera_table.Formats.Delta.{parse_delta}
use cantera_table.Formats.Max.{max_delta, offset_score_max_offset}
use cantera_table.Formats.Max.Laws.{last_offset, max_delta-parse}
use cantera_table.WriteOnce.Block.{values}
use cantera_table.Query.Meaning.{HasOrdered, finds, process_query-Finds}
use cantera_table.Result.{out_of_rounds}
use cantera_table.Formats.Encode.{format_offset_score}
use cantera_table.Formats.Encode.Same.{AllSame}
use cantera_table.Formats.Encode.Values.{offset_score_parse-format}
use cantera_table.Util.{to_json, output_json_string, escape, has_prefix}
use cantera_table.Util.RoundTrip.{
  read_string, read_string-to_json, read_escaped, read_escaped-escape,
}
use cantera_table.Util.Prefix.{output_json_string-to_json}
use cantera_table.Shared.{◌↔◌, false}
use cantera_table.Prediction.{offset_score_size}
use cantera_table.Prediction.Size.{length-encode_with_prediction_le}
use cantera_table.Merge.{group_rows}
use cantera_table.Merge.Groups.{Row, all_rows, Apart, group_rows-all_rows}
use cantera_table.Formats.Progress.{offset_score_parse_ends}
use cantera_table.Formats.Max.Progress.{max_offset_ends}

parse-format_integer_example : parse_integer (format_integer 300 ++ (7 ∷ [])) ≡ ok (300, 7 ∷ [])
parse-format_integer_example = parse-format_integer 300 (7 ∷ []) (omega arith)

read_block-encode_example :
    Rle.read_block 4 (Rle.encode (9 ∷ 9 ∷ 9 ∷ 200 ∷ []) ++ (5 ∷ []))
    ≡ ok (9 ∷ 9 ∷ 9 ∷ 200 ∷ [], 5 ∷ [])
read_block-encode_example = read_block-encode (9 ∷ 9 ∷ 9 ∷ 200 ∷ []) (5 ∷ []) (omega arith)

-- 1.0f at offset 3, and 2.0f at offset 10 with all four percentiles 2.0f.
abbrev one : OffsetScore
one = offset_score 3 0x3f80_0000

abbrev two : OffsetScore
two = record {
  offset = 10;
  score = 0x4000_0000;
  score_pct5 = 0x4000_0000;
  score_pct25 = 0x4000_0000;
  score_pct75 = 0x4000_0000;
  score_pct95 = 0x4000_0000;
}

one-HasFloats : HasFloats one
unfolding offset_score
one-HasFloats = omega arith

two-HasFloats : HasFloats two
two-HasFloats = omega arith

parse-encode_with_prediction_example :
    (body : List ℕ) × (encode_with_prediction (one ∷ two ∷ []) ≡ ok (0 ∷ body))
    × (parse_with_prediction (body ++ (1 ∷ [])) ≡ ok (map kept (one ∷ two ∷ []), 1 ∷ []))
unfolding offset_score
parse-encode_with_prediction_example =
    parse-encode_with_prediction one (two ∷ []) (1 ∷ []) (omega arith)
      (one-HasFloats, (two-HasFloats, tt)) (omega arith)

max_offset-parse_example :
    max_offset_with_prediction (1 ∷ 5 ∷ 0 ∷ 1 ∷ 2 ∷ 3 ∷ 4 ∷ [])
    ≡ (parse_with_prediction (1 ∷ 5 ∷ 0 ∷ 1 ∷ 2 ∷ 3 ∷ 4 ∷ []) >>= last_parsed)
max_offset-parse_example = max_offset-parse (1 ∷ 5 ∷ 0 ∷ 1 ∷ 2 ∷ 3 ∷ 4 ∷ [])

abbrev at : ℕ → OffsetScore
at o = offset_score o 0

has-union_example :
    has 4 (union (at 1 ∷ at 4 ∷ []) (at 2 ∷ [])) ≡ (has 4 (at 1 ∷ at 4 ∷ []) || has 4 (at 2 ∷ []))
has-union_example = has-union 4 (at 1 ∷ at 4 ∷ []) (at 2 ∷ [])

intersect-keep_example :
    intersect (at 4 ∷ []) (at 1 ∷ at 4 ∷ [])
    ≡ keep (λ v. has v.offset (at 4 ∷ [])) (at 1 ∷ at 4 ∷ [])
unfolding offset_score
intersect-keep_example =
    intersect-keep 0 0 (at 4 ∷ []) (at 1 ∷ at 4 ∷ []) (omega arith) (omega arith)

subtract-keep_example :
    subtract (at 4 ∷ []) (at 1 ∷ at 4 ∷ [])
    ≡ keep (λ v. not (has v.offset (at 4 ∷ []))) (at 1 ∷ at 4 ∷ [])
unfolding offset_score
subtract-keep_example = subtract-keep 0 0 (at 4 ∷ []) (at 1 ∷ at 4 ∷ []) (omega arith) (omega arith)

operator_max-remove_duplicates_example :
    operator_max (at 4 ∷ at 4 ∷ []) ≡ remove_duplicates true (at 4 ∷ at 4 ∷ [])
operator_max-remove_duplicates_example = operator_max-remove_duplicates (at 4 ∷ at 4 ∷ [])

remove_duplicates-StrictFrom_example :
    StrictFrom 0 (remove_duplicates true (at 4 ∷ at 4 ∷ at 9 ∷ []))
unfolding offset_score
remove_duplicates-StrictFrom_example =
    remove_duplicates-StrictFrom 0 true (at 4 ∷ at 4 ∷ at 9 ∷ []) (omega arith)

-- An index table with rows for the keywords "a" and "b", and a summary table with a row for each key,
-- behind which there are four bytes. The row of "a" stands for one record, that of "b" for three.
abbrev index_row : List ℕ → Option (List ℕ)
index_row k =
    if string_eq k (97 ∷ [])
    then some (10 ∷ 9 ∷ 7 ∷ [])
    else if string_eq k (98 ∷ [])
    then some (10 ∷ 4 ∷ 7 ∷ 10 ∷ 9 ∷ 7 ∷ 10 ∷ 9 ∷ 7 ∷ [])
    else none

abbrev one_table : Schema
one_table = record {
  summary_tables = (λ k. some 4, 2 ^ 64 - 4) ∷ [];
  index_tables = record { row = index_row; decode = offset_score_parse plain_codec } ∷ [];
  token = λ t. none;
  sample = λ n l. l;
}

-- "a" and ("%62" or the key "k")
abbrev both : Query
both = binary and_ (leaf (97 ∷ [])) (binary or_ (leaf (37 ∷ 54 ∷ 50 ∷ [])) (key (107 ∷ [])) 0 0) 0 0

both-HasOrdered : HasOrdered one_table both
unfolding string_eq lookup_token lookup_index_key decode_uri_component decode_loop hex_value
    lookup_tables offset_score_parse parse_loop parse_array array_type parse_single single_score
    read_little parse_integer offset_score
both-HasOrdered = omega arith

process_query-Finds_example :
    (r : List OffsetScore) × (process_query one_table both true ≡ ok r)
    × StrictFrom 0 r
    × ((o : ℕ) → has o r ≡ finds one_table both o)
process_query-Finds_example = process_query-Finds one_table both true both-HasOrdered (tt, (tt, tt))

-- A single record at offset 5, and a flexible array of three records.
abbrev two_arrays : List ℕ
two_arrays = 10 ∷ 5 ∷ 7 ∷ (6 ∷ 3 ∷ 5 ∷ 1 ∷ 2 ∷ 0 ∷ 0x81 ∷ 0 ∷ 9 ∷ [])

abbrev two_arrays_records : List OffsetScore
two_arrays_records = at 5 ∷ at 5 ∷ at 7 ∷ at 9 ∷ []

two_arrays_parse : offset_score_parse plain_codec two_arrays ≡ ok two_arrays_records
unfolding offset_score_parse parse_loop parse_array array_type parse_single single_score read_little
    parse_integer parse_flexi parse_flexi_records increments read_steps read_flags read_min_score
    stored_scores read_scores read_score read_big records running
two_arrays_parse = refl

offset_score_count-parse_example : offset_score_count plain_codec two_arrays ≡ ok 4
offset_score_count-parse_example =
    offset_score_count-parse plain_codec two_arrays two_arrays_records (omega arith)
      two_arrays_parse

-- 2 ^ 62 records with scores of four bytes: the size of the scores wraps to 0.
abbrev huge : List ℕ
huge = 6 ∷ 0xc0 ∷ 0x80 ∷ 0x80 ∷ 0x80 ∷ 0x80 ∷ 0x80 ∷ 0x80 ∷ 0x80 ∷ 0 ∷ 0 ∷ 0 ∷ 0 ∷ []

wrapped_size : offset_score_count plain_codec huge ≡ ok (2 ^ 62)
unfolding offset_score_count count_loop count_array array_type count_flexi count_flexi_records
    skip_increments read_flags read_min_score stored_scores score_width skip_stored advance skip
    parse_integer
wrapped_size = refl

-- 2 ^ 64 - 5 records with scores of three bytes: the pointer goes back to the front of the array, so that
-- the count does not end in any number of rounds.
abbrev back_to_front : List ℕ
back_to_front =
    6 ∷ 0x81 ∷ 0xff ∷ 0xff ∷ 0xff ∷ 0xff ∷ 0xff ∷ 0xff ∷ 0xff ∷ 0xff ∷ 0x7b ∷ 0 ∷ 0 ∷ 3 ∷ 0 ∷ []

counted_again : (n : ℕ) → count_loop plain_codec back_to_front n back_to_front ≡ err out_of_rounds
unfolding offset_score_count count_loop count_array array_type count_flexi count_flexi_records
    skip_increments read_flags read_min_score stored_scores score_width skip_stored advance skip
    parse_integer
counted_again zero = refl
counted_again (suc n) = rw (counted_again n)

-- Two records at the offsets 5 and 12.
abbrev delta_array : List ℕ
delta_array = 2 ∷ 5 ∷ 7 ∷ 1 ∷ 2 ∷ []

max_delta-parse_example :
    max_delta plain_codec true delta_array
    ≡ (parse_delta plain_codec true delta_array >>= last_offset)
max_delta-parse_example = max_delta-parse plain_codec true delta_array

offset_score_parse_ends_example : offset_score_parse plain_codec two_arrays ≢ err out_of_rounds
offset_score_parse_ends_example = offset_score_parse_ends plain_codec two_arrays

max_offset_ends_example : offset_score_max_offset plain_codec two_arrays ≢ err out_of_rounds
max_offset_ends_example = max_offset_ends plain_codec two_arrays

-- 0.0f at offset 3 and 1.0f at offset 10, with no percentiles.
abbrev zero_and_one : List OffsetScore
zero_and_one = offset_score 3 0 ∷ offset_score 10 0x3f80_0000 ∷ []

offset_score_parse-format_example :
    (bytes : List ℕ) × (ws : List OffsetScore) × (format_offset_score plain_codec plain_encoder
        zero_and_one
      ≡ ok bytes)
    × (offset_score_parse plain_codec bytes ≡ ok ws)
    × AllSame zero_and_one ws
unfolding offset_score
offset_score_parse-format_example =
    offset_score_parse-format plain_codec plain_encoder zero_and_one (omega arith)
      (omega arith, (omega arith, tt)) (omega arith)

-- a"b and a newline
abbrev quoted : List ℕ
quoted = 97 ∷ 34 ∷ 98 ∷ 10 ∷ []

read_string-to_json_example : read_string (to_json quoted ++ (44 ∷ [])) ≡ some (quoted, 44 ∷ [])
read_string-to_json_example = read_string-to_json quoted (44 ∷ []) (omega arith)

output_json_string-to_json_example : output_json_string (quoted ++ (0 ∷ [])) 4 ≡ ok (to_json quoted)
output_json_string-to_json_example = output_json_string-to_json quoted (0 ∷ [])

read_escaped-escape_example : read_escaped false (escape quoted) ≡ some quoted
read_escaped-escape_example = read_escaped-escape quoted

two_written : (body : List ℕ) × (encode_with_prediction (one ∷ two ∷ []) ≡ ok (0 ∷ body))
unfolding offset_score
two_written =
    let p =
      parse-encode_with_prediction one (two ∷ []) [] (omega arith)
        (one-HasFloats, (two-HasFloats, tt)) (omega arith) in
    (p.0, p.1)

length-encode_with_prediction_le_example : length (0 ∷ two_written.0) ≤ offset_score_size 2
length-encode_with_prediction_le_example =
    length-encode_with_prediction_le (one ∷ two ∷ []) (0 ∷ two_written.0) two_written.1
