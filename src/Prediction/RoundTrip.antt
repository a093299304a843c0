-- ===== src/Prediction/RoundTrip.antt =====
-- `ParseOffsetScoreWithPrediction` after `EncodeOffsetScoreWithPrediction`.
use cantera_table.Shared.{
  ℕ, suc, ◌+◌, ◌/◌, ◌≡◌, refl, List, [], ◌∷◌, ◌++◌, append_assoc, Bool, true, false, ◌==◌,
  if◌then◌else◌, length, arith, All,
}
use mathlib.Core.List.{map}
use cantera_table.Result.{ok}
use cantera_table.Integer.{IsU64, format_integer}
use cantera_table.Integer.RoundTrip.{parse-format_integer}
use cantera_table.Rle
use cantera_table.Rle.RoundTrip.{read_block-encode}
use cantera_table.Score.{
  OffsetScore, offset_score, has_bands, IsU32, encode_float, read_float-encode,
}
use cantera_table.Prediction.{
  encode_deltas, encode_score, encode_scores, encode_with_prediction, parse_score, parse_scores,
  parse_with_prediction,
}
use cantera_table.Prediction.Mask.{test_bit, build_mask}
use cantera_table.Prediction.Mask.Laws.{
  Tells, build_mask-Tells, length-build_mask, build_mask-IsBytes,
}
use cantera_table.Prediction.Offsets.{
  Ascending, offsets, differences, deltas-differences, parse_behind-encode,
}

-- Every float of the record is a 32-bit pattern.
pub record HasFloats (v : OffsetScore) : Type 0 where
  pub score : IsU32 v.score
  pub pct5 : IsU32 v.score_pct5
  pub pct25 : IsU32 v.score_pct25
  pub pct75 : IsU32 v.score_pct75
  pub pct95 : IsU32 v.score_pct95

-- What is kept of a record: all of it, or the offset and the score alone.
abbrev pub kept : OffsetScore → OffsetScore
kept v = if has_bands v then v else offset_score v.offset v.score

parse_score-encode :
    (bands : Bool) (v : OffsetScore) (rest : List ℕ)
    → HasFloats v
    → parse_score bands v.offset (encode_score bands v ++ rest)
      ≡ ok (if bands then v else offset_score v.offset v.score, rest)
parse_score-encode true v rest h =
    unfold encode_score parse_score in
    simp (
      append_assoc,
      read_float-encode v.score
          (encode_float v.score_pct5
            ++ (encode_float v.score_pct25
                ++ (encode_float v.score_pct75 ++ (encode_float v.score_pct95 ++ rest))))
          h.score,
      read_float-encode v.score_pct5
          (encode_float v.score_pct25
            ++ (encode_float v.score_pct75 ++ (encode_float v.score_pct95 ++ rest)))
          h.pct5,
      read_float-encode v.score_pct25
          (encode_float v.score_pct75 ++ (encode_float v.score_pct95 ++ rest)) h.pct25,
      read_float-encode v.score_pct75 (encode_float v.score_pct95 ++ rest) h.pct75,
      read_float-encode v.score_pct95 rest h.pct95,
    )
parse_score-encode false v rest h =
    unfold encode_score parse_score in simp (append_assoc, read_float-encode v.score rest h.score)

parse_scores-encode :
    (mask : List ℕ) (i : ℕ) (vs : List OffsetScore) (rest : List ℕ)
    → All HasFloats vs
    → Tells mask i vs
    → parse_scores mask i (offsets vs) (encode_scores mask i vs ++ rest) ≡ ok (map kept vs, rest)
unfolding parse_scores encode_scores
parse_scores-encode mask i [] rest h t = refl
parse_scores-encode mask i (v ∷ vs) rest h t =
    let later = encode_scores mask (i + 1) vs ++ rest in
    let one : parse_score (has_bands v) v.offset (encode_score (has_bands v) v ++ later)
        ≡ ok (kept v, later) =
      parse_score-encode (has_bands v) v later h.0 in
    rw (
      append_assoc (encode_score (test_bit mask i) v) (encode_scores mask (i + 1) vs) rest,
      t.0,
      one,
      parse_scores-encode mask (i + 1) vs rest h.1 t.1,
    )

-- A non-empty array of fewer than 2 ^ 64 records, with 64-bit offsets in order and 32-bit floats, is
-- written, and what was written is read back, whatever follows it, up to the percentiles that are not kept
-- because not all four are finite.
pub parse-encode_with_prediction :
    (v : OffsetScore) (vs : List OffsetScore) (rest : List ℕ)
    → Ascending 0 (v ∷ vs)
    → All HasFloats (v ∷ vs)
    → IsU64 (length (v ∷ vs))
    → (body : List ℕ) × (encode_with_prediction (v ∷ vs) ≡ ok (0 ∷ body))
      × (parse_with_prediction (body ++ rest) ≡ ok (map kept (v ∷ vs), rest))
parse-encode_with_prediction v vs rest h floats fits = (body, written, read_back)
  where
    count : ℕ
    count = suc (length vs)

    mask : List ℕ
    mask = build_mask (v ∷ vs)

    ds : List ℕ
    ds = differences v.offset vs

    body : List ℕ
    body =
        format_integer count
        ++ (format_integer v.offset
            ++ (encode_deltas count ds ++ (Rle.encode mask ++ encode_scores mask 0 (v ∷ vs))))

    written : encode_with_prediction (v ∷ vs) ≡ ok (0 ∷ body)
    written = unfold encode_with_prediction in rw (deltas-differences v.offset vs h.2)

    scores : List ℕ
    scores = encode_scores mask 0 (v ∷ vs)

    read_mask :
        Rle.read_block ((count + 7) / 8) (Rle.encode mask ++ (scores ++ rest))
        ≡ ok (mask, scores ++ rest)
    read_mask =
        rw length-build_mask at
          (read_block-encode mask (scores ++ rest) (build_mask-IsBytes (v ∷ vs)))

    some : (count == 0) ≡ false
    some = ground arith

    read_back : parse_with_prediction (body ++ rest) ≡ ok (map kept (v ∷ vs), rest)
    read_back =
        let deltas_out = encode_deltas count ds in
        let masked = Rle.encode mask ++ (scores ++ rest) in
        unfold parse_with_prediction in
        rw
          (
            append_assoc (format_integer count) _ rest,
            append_assoc (format_integer v.offset) _ rest,
            append_assoc deltas_out _ rest,
            append_assoc (Rle.encode mask) _ rest,
            parse-format_integer count (format_integer v.offset ++ (deltas_out ++ masked)) fits,
            parse-format_integer v.offset (deltas_out ++ masked) h.1,
            some,
            parse_behind-encode v.offset vs masked h.2,
            read_mask,
          )
          (parse_scores-encode mask 0 (v ∷ vs) rest floats (build_mask-Tells (v ∷ vs)))
