-- ===== src/Prediction.antt =====
-- The record format with probability bands: `EncodeOffsetScoreWithPrediction` of src/format.cc, and
-- its three readers in src/parse.cc.
pub mod Mask
pub mod Steps
pub mod Offsets
pub mod RoundTrip
pub mod MaxOffset
pub mod Progress
pub mod Size
use cantera_table.Shared.{
  ℕ, zero, suc, ◌+◌, ◌*◌, ◌-◌, ◌/◌, List, [], ◌∷◌, ◌++◌, Bool, not, ◌&&◌, ltb, leb, ◌==◌,
  if◌then◌else◌, length, replicate, get_or, drop,
}
use cantera_table.Shared.Words.{u64}
use cantera_table.Result.{Result, ok, err, overrun, require, guard, ◌>>=◌, ◌>>◌}
use cantera_table.Integer.{format_integer, parse_integer}
use cantera_table.Rle
use cantera_table.Score
use cantera_table.Score.{OffsetScore, encode_float, read_float}
use Mask.{build_mask, test_bit}
use Steps.{insert_all, position}

-- Every value behind the first, minus the one before it: KJ_REQUIRE(offset >= previous offset).
unfoldable pub deltas : ℕ → List OffsetScore → Result (List ℕ)
deltas previous [] = ok []
deltas previous (v ∷ vs) = do
  guard (leb previous v.offset) require
  later ← deltas v.offset vs
  ok ((v.offset - previous) ∷ later)

-- ca_format_integer(&o, step - prev_step) for the steps in their order.
unfoldable pub encode_steps : ℕ → List ℕ → List ℕ
encode_steps prev_step [] = []
encode_steps prev_step (step ∷ steps) = format_integer (step - prev_step) ++ encode_steps step steps

unfoldable pub format_all : List ℕ → List ℕ
format_all [] = []
format_all (n ∷ ns) = format_integer n ++ format_all ns

-- ca_format_integer(&o, step_keys[delta])
unfoldable pub encode_keys : List ℕ → List ℕ → List ℕ
encode_keys steps [] = []
encode_keys steps (d ∷ ds) = format_integer (position d steps) ++ encode_keys steps ds

-- The offsets behind the first one. `count` is the number of all values.
unfoldable pub encode_deltas : ℕ → List ℕ → List ℕ
encode_deltas count ds =
    let steps = insert_all ds in
    if ltb 1 count
    then if ltb (length steps) 256 && ltb (length steps) (count / 4)
      then format_integer (length steps) ++ (encode_steps 0 steps ++ encode_keys steps ds)
      else format_integer 0 ++ format_all ds
    else format_all ds

-- EncodeFloat for the score, and for the percentiles where the record's bit is set.
unfoldable pub encode_score : Bool → OffsetScore → List ℕ
encode_score bands v =
    encode_float v.score
    ++ (if bands
        then encode_float v.score_pct5
          ++ (encode_float v.score_pct25
              ++ (encode_float v.score_pct75 ++ encode_float v.score_pct95))
        else [])

unfoldable pub encode_scores : List ℕ → ℕ → List OffsetScore → List ℕ
encode_scores mask i [] = []
encode_scores mask i (v ∷ vs) = encode_score (test_bit mask i) v ++ encode_scores mask (i + 1) vs

-- ca_offset_score_size: sizeof(struct ca_offset_score) is 8 + 5 * 4, padded to 32.
unfoldable pub offset_score_size : ℕ → ℕ
offset_score_size count = 32 + count * 32

unfoldable pub encode_with_prediction : List OffsetScore → Result (List ℕ)
encode_with_prediction [] = ok (0 ∷ format_integer 0)
encode_with_prediction (v ∷ vs) = do
  let count = length (v ∷ vs)
  ds ← deltas v.offset vs
  let mask = build_mask (v ∷ vs)
  ok (
      0
      ∷ (format_integer count
          ++ (format_integer v.offset
              ++ (encode_deltas count ds ++ (Rle.encode mask ++ encode_scores mask 0 (v ∷ vs))))))

-- for (auto& step : steps) { step = ca_parse_integer(&begin) + prev_step; prev_step = step; }
unfoldable pub parse_steps : ℕ → ℕ → List ℕ → Result (List ℕ × List ℕ)
parse_steps zero prev_step input = ok ([], input)
parse_steps (suc n) prev_step input = do
  p ← parse_integer input
  let step = u64 (p.0 + prev_step)
  q ← parse_steps n step p.1
  ok (step ∷ q.0, q.1)

-- The step table; there is none where `count` is 1.
unfoldable pub parse_step_table : ℕ → List ℕ → Result (List ℕ × List ℕ)
parse_step_table count input =
    if ltb 1 count
    then (do p ← parse_integer input; guard (leb p.0 (count + 1)) require; parse_steps p.0 0 p.1)
    else ok ([], input)

-- `n` more offsets behind `previous`, by index into the step table.
unfoldable pub parse_keys : List ℕ → ℕ → ℕ → List ℕ → Result (List ℕ × List ℕ)
parse_keys steps zero previous input = ok ([], input)
parse_keys steps (suc n) previous input = do
  p ← parse_integer input
  guard (ltb p.0 (length steps)) require
  let offset = u64 (previous + get_or steps p.0 0)
  q ← parse_keys steps n offset p.1
  ok (offset ∷ q.0, q.1)

-- The same with the differences written out.
unfoldable pub parse_deltas : ℕ → ℕ → List ℕ → Result (List ℕ × List ℕ)
parse_deltas zero previous input = ok ([], input)
parse_deltas (suc n) previous input = do
  p ← parse_integer input
  let offset = u64 (previous + p.0)
  q ← parse_deltas n offset p.1
  ok (offset ∷ q.0, q.1)

unfoldable pub parse_offsets : List ℕ → ℕ → ℕ → List ℕ → Result (List ℕ × List ℕ)
parse_offsets [] n previous input = parse_deltas n previous input
parse_offsets (s ∷ ss) n previous input = parse_keys (s ∷ ss) n previous input

-- The offsets behind the first one: the step table, and then by key or by difference.
unfoldable pub parse_behind : ℕ → ℕ → List ℕ → Result (List ℕ × List ℕ)
parse_behind count first input = do
  t ← parse_step_table count input
  parse_offsets t.0 (count - 1) first t.1

-- One record of the score array; the fields that are not read keep their defaults.
unfoldable pub parse_score : Bool → ℕ → List ℕ → Result (OffsetScore × List ℕ)
parse_score bands offset input = do
  s ← read_float input
  if bands
      then (do
        a ← read_float s.1
        b ← read_float a.1
        c ← read_float b.1
        d ← read_float c.1
        ok (
          record {
            offset = offset;
            score = s.0;
            score_pct5 = a.0;
            score_pct25 = b.0;
            score_pct75 = c.0;
            score_pct95 = d.0;
          },
          d.1,
        ))
      else ok (Score.offset_score offset s.0, s.1)

unfoldable pub parse_scores : List ℕ → ℕ → List ℕ → List ℕ → Result (List OffsetScore × List ℕ)
parse_scores mask i [] input = ok ([], input)
parse_scores mask i (offset ∷ offsets) input = do
  p ← parse_score (test_bit mask i) offset input
  q ← parse_scores mask (i + 1) offsets p.1
  ok (p.0 ∷ q.0, q.1)

-- ParseOffsetScoreWithPrediction: the values that it appends to `*output`, and the bytes from `begin` on.
unfoldable pub parse_with_prediction : List ℕ → Result (List OffsetScore × List ℕ)
parse_with_prediction input = do
  c ← parse_integer input
  if c.0 == 0 then (elim c.1 [ [] ↦ ok ([], []) | _ ∷ _ ↦ err require ]) else (do
    o ← parse_integer c.1
    d ← parse_behind c.0 o.0 o.1
    m ← Rle.read_block ((c.0 + 7) / 8) d.1
    parse_scores m.0 0 (o.0 ∷ d.0) m.1)

-- CountOffsetScoreWithPrediction
unfoldable pub count_with_prediction : List ℕ → Result (ℕ × List ℕ)
count_with_prediction input = do p ← parse_with_prediction input; ok (length p.0, p.1)

-- result += ...; the loops of GetMaxOffsetWithPrediction.
unfoldable pub sum_keys : List ℕ → ℕ → ℕ → List ℕ → Result (ℕ × List ℕ)
sum_keys steps zero result input = ok (result, input)
sum_keys steps (suc n) result input = do
  p ← parse_integer input
  guard (ltb p.0 (length steps)) require
  sum_keys steps n (u64 (result + get_or steps p.0 0)) p.1

unfoldable pub sum_deltas : ℕ → ℕ → List ℕ → Result (ℕ × List ℕ)
sum_deltas zero result input = ok (result, input)
sum_deltas (suc n) result input = do p ← parse_integer input; sum_deltas n (u64 (result + p.0)) p.1

unfoldable pub sum_offsets : List ℕ → ℕ → ℕ → List ℕ → Result (ℕ × List ℕ)
sum_offsets [] n result input = sum_deltas n result input
sum_offsets (s ∷ ss) n result input = sum_keys (s ∷ ss) n result input

unfoldable pub sum_behind : ℕ → ℕ → List ℕ → Result (ℕ × List ℕ)
sum_behind count first input = do
  t ← parse_step_table count input
  sum_offsets t.0 (count - 1) first t.1

-- begin += n;
unfoldable pub skip : ℕ → List ℕ → Result (List ℕ)
skip zero input = ok input
skip (suc n) [] = err overrun
skip (suc n) (b ∷ rest) = skip n rest

-- begin += sizeof(float), and 4 * sizeof(float) more where the record's bit is set.
unfoldable pub skip_score : Bool → List ℕ → Result (List ℕ)
skip_score bands input = do a ← skip 4 input; if bands then skip 16 a else ok a

unfoldable pub skip_scores : List ℕ → ℕ → ℕ → List ℕ → Result (List ℕ)
skip_scores mask i zero input = ok input
skip_scores mask i (suc n) input = do
  rest ← skip_score (test_bit mask i) input
  skip_scores mask (i + 1) n rest

-- GetMaxOffsetWithPrediction
unfoldable pub max_offset_with_prediction : List ℕ → Result (ℕ × List ℕ)
max_offset_with_prediction input = do
  c ← parse_integer input
  guard (ltb 0 c.0) require
  o ← parse_integer c.1
  r ← sum_behind c.0 o.0 o.1
  m ← Rle.read_block ((c.0 + 7) / 8) r.1
  rest ← skip_scores m.0 0 c.0 m.1
  ok (r.0, rest)
