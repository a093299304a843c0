-- ===== src/Formats/Flexi.antt =====
-- `ParseOffsetScoreFlexi` and `CountOffsetScoreFlexi` of src/parse.cc.
use Prim.Native.Nat.{bit_and}
use mathlib.Core.List.{map}
use cantera_table.Shared.{
  ℕ, zero, suc, ◌+◌, ◌-◌, ◌*◌, ◌/◌, ◌^◌, List, [], ◌∷◌, ◌++◌, length, drop, ltb, leb, ◌==◌,
  if◌then◌else◌, replicate, get_or,
}
use cantera_table.Shared.Words.{u32, u64, shr}
use cantera_table.Result.{Result, ok, err, overrun, require, ◌>>=◌}
use cantera_table.Integer.{parse_integer}
use cantera_table.Rle
use cantera_table.Score.{OffsetScore, offset_score, read_float}
use cantera_table.Prediction.{skip}
use cantera_table.Formats.Oroch.{OrochCodec}

-- values[i].offset = values[i - 1].offset + ...
unfoldable pub running : ℕ → List ℕ → List ℕ
running previous [] = []
running previous (d ∷ ds) = u64 (previous + d) ∷ running (u64 (previous + d)) ds

-- One record for each offset; there are as many scores.
unfoldable pub records : List ℕ → List ℕ → List OffsetScore
records [] scores = []
records (o ∷ os) [] = offset_score o 0 ∷ records os []
records (o ∷ os) (s ∷ ss) = offset_score o s ∷ records os ss

-- The low and the high half of each byte, for `n` values.
unfoldable pub nibbles : ℕ → List ℕ → List ℕ
nibbles zero bytes = []
nibbles (suc n) [] = 0 ∷ nibbles n []
nibbles (suc zero) (b ∷ bytes) = bit_and b 0x0f ∷ []
nibbles (suc (suc n)) (b ∷ bytes) = bit_and b 0x0f ∷ shr b 4 ∷ nibbles n bytes

unfoldable pub parse_integers : ℕ → List ℕ → Result (List ℕ × List ℕ)
parse_integers zero input = ok ([], input)
parse_integers (suc n) input = do
  p ← parse_integer input
  q ← parse_integers n p.1
  ok (p.0 ∷ q.0, q.1)

unfoldable pub skip_integers : ℕ → List ℕ → Result (List ℕ)
skip_integers zero input = ok input
skip_integers (suc n) input = do p ← parse_integer input; skip_integers n p.1

-- The steps less min_step, for `n` values. A failed assert ends the program, as KJ_REQUIRE does.
unfoldable pub read_steps : ℕ → ℕ → ℕ → List ℕ → Result (List ℕ × List ℕ)
read_steps min_step max_step n input =
    let range = u64 (max_step + (2 ^ 64 - min_step)) in
    if min_step == max_step
    then ok (replicate n 0, input)
    else if leb range 0x0f
    then (do p ← Rle.read_block ((n + 1) / 2) input; ok (nibbles n p.0, p.1))
    else if leb range 0xff
    then Rle.read_block n input
    else parse_integers n input

unfoldable pub skip_steps : ℕ → ℕ → ℕ → List ℕ → Result (List ℕ)
skip_steps min_step max_step n input =
    let range = u64 (max_step + (2 ^ 64 - min_step)) in
    if min_step == max_step
    then ok input
    else if leb range 0x0f
    then (do p ← Rle.read_block ((n + 1) / 2) input; ok p.1)
    else if leb range 0xff
    then (do p ← Rle.read_block n input; ok p.1)
    else skip_integers n input

-- What is added to each offset for the next: step_gcd * (min_step + x), or nothing where step_gcd is 0.
unfoldable pub increments : ℕ → ℕ → List ℕ → Result (List ℕ × List ℕ)
increments step_gcd n input = if step_gcd == 0 then ok (replicate n 0, input) else (do
  a ← parse_integer input
  b ← parse_integer a.1
  s ← read_steps a.0 (u64 (b.0 + a.0)) n b.1
  ok (map (λ x. u64 (step_gcd * u64 (a.0 + x))) s.0, s.1))

unfoldable pub skip_increments : ℕ → ℕ → List ℕ → Result (List ℕ)
skip_increments step_gcd n input =
    if step_gcd == 0
    then ok input
    else (do a ← parse_integer input; b ← parse_integer a.1; skip_steps a.0 (u64 (b.0 + a.0)) n b.1)

-- score_flags = *begin++;
unfoldable pub read_flags : List ℕ → Result (ℕ × List ℕ)
read_flags [] = err overrun
read_flags (b ∷ rest) = ok (b, rest)

-- if (score_flags & 3) min_score = ca_parse_integer(&begin);
unfoldable pub read_min_score : ℕ → List ℕ → Result (ℕ × List ℕ)
read_min_score flags input =
    if bit_and flags 3 == 0 then ok (0, input) else (do p ← parse_integer input; ok (u32 p.0, p.1))

-- `n` bytes, the highest first.
unfoldable pub read_big : ℕ → ℕ → List ℕ → Result (ℕ × List ℕ)
read_big zero value input = ok (value, input)
read_big (suc n) value [] = err overrun
read_big (suc n) value (b ∷ rest) = read_big n (256 * value + b) rest

-- parse_score_count
unfoldable pub stored_scores : ℕ → ℕ → ℕ
stored_scores flags count = if bit_and flags 0x80 == 0 then count else 1

-- begin += parse_score_count * sizeof(float), or 1, 2 or 3 bytes each.
unfoldable pub score_width : ℕ → ℕ
score_width kind = if kind == 0 then 4 else kind

module _ (c : OrochCodec) where
  -- One score, by score_flags & 3.
  unfoldable pub read_score : ℕ → ℕ → List ℕ → Result (ℕ × List ℕ)
  read_score kind min_score input =
      if kind == 0
      then read_float input
      else (do p ← read_big kind 0 input; ok (c.to_float (u32 (min_score + p.0)), p.1))

  unfoldable pub read_scores : ℕ → ℕ → ℕ → List ℕ → Result (List ℕ × List ℕ)
  read_scores kind min_score zero input = ok ([], input)
  read_scores kind min_score (suc n) input = do
    p ← read_score kind min_score input
    q ← read_scores kind min_score n p.1
    ok (p.0 ∷ q.0, q.1)

  -- The records, where there are `count`, at least one.
  unfoldable pub parse_flexi_records : ℕ → List ℕ → Result (List OffsetScore × List ℕ)
  parse_flexi_records count input = do
    o ← parse_integer input
    g ← parse_integer o.1
    d ← increments g.0 (count - 1) g.1
    f ← read_flags d.1
    m ← read_min_score f.0 f.1
    s ← read_scores (bit_and f.0 3) m.0 (stored_scores f.0 count) m.1
    ok (
      records (o.0 ∷ running o.0 d.0)
          (s.0 ++ replicate (count - stored_scores f.0 count) (get_or s.0 0 0)),
      s.1,
    )

  unfoldable pub parse_flexi : List ℕ → Result (List OffsetScore × List ℕ)
  parse_flexi input = do
    n ← parse_integer input
    if n.0 == 0
        then (elim n.1 [ [] ↦ ok ([], []) | _ ∷ _ ↦ err require ])
        else parse_flexi_records n.0 n.1

-- `begin += n` for a size_t `n`, where `whole` are the bytes of the value from its front on: from 2 ^ 63
-- on the pointer moves back. A pointer that leaves the bytes is an overrun.
unfoldable pub advance : List ℕ → ℕ → List ℕ → Result (List ℕ)
advance whole n input =
    let place = length whole - length input in
    if ltb n (2 ^ 63)
    then skip n input
    else if leb (2 ^ 64 - n) place
    then ok (drop (place - (2 ^ 64 - n)) whole)
    else err overrun

-- begin += parse_score_count * width, a product of 64 bits.
unfoldable pub skip_stored : List ℕ → ℕ → ℕ → List ℕ → Result (List ℕ)
unfolding advance
skip_stored whole n width input = advance whole (u64 (n * width)) input

unfoldable pub count_flexi_records : List ℕ → ℕ → List ℕ → Result (ℕ × List ℕ)
count_flexi_records whole count input = do
  o ← parse_integer input
  g ← parse_integer o.1
  d ← skip_increments g.0 (count - 1) g.1
  f ← read_flags d
  m ← read_min_score f.0 f.1
  rest ← skip_stored whole (stored_scores f.0 count) (score_width (bit_and f.0 3)) m.1
  ok (count, rest)

unfoldable pub count_flexi : List ℕ → List ℕ → Result (ℕ × List ℕ)
count_flexi whole input = do
  n ← parse_integer input
  if n.0 == 0
      then (elim n.1 [ [] ↦ ok (0, []) | _ ∷ _ ↦ err require ])
      else count_flexi_records whole n.0 n.1
