-- ===== src/Prediction/Size.antt =====
-- The size of what `EncodeOffsetScoreWithPrediction` of src/format.cc writes.
use cantera_table.Shared.{
  ℕ, suc, ◌+◌, ◌-◌, ◌*◌, ◌/◌, ◌≤◌, ◌<◌, ◌≡◌, refl, List, [], ◌∷◌, ◌++◌, Bool, true, false, ltb, leb,
  length, length-append, arith, Bool-cases, inl, inr, sym, ap, ◌-◌,
}
use cantera_table.Result.{ok, err, require, Result-cases}
use cantera_table.Integer.{format_integer}
use cantera_table.Integer.Lengths.{length-format_integer_le, length-format_integer_small}
use cantera_table.Rle
use cantera_table.Rle.Size.{length-encode_le}
use cantera_table.Score.{OffsetScore, encode_float}
use cantera_table.Prediction.{
  deltas, encode_steps, format_all, encode_keys, encode_deltas, encode_score, encode_scores,
  encode_with_prediction, offset_score_size,
}
use cantera_table.Prediction.Steps.{insert_all, position}
use cantera_table.Prediction.Mask.{test_bit, build_mask}
use cantera_table.Prediction.Mask.Laws.{length-build_mask}

length-encode_steps : (p : ℕ) (steps : List ℕ) → length (encode_steps p steps) ≤ 10 * length steps
unfolding encode_steps
length-encode_steps p [] = omega arith
length-encode_steps p (s ∷ ss) = omega (
  arith,
  length-format_integer_le (s - p),
  length-encode_steps s ss,
  length-append (format_integer (s - p)) (encode_steps s ss),
)

length-format_all : (ds : List ℕ) → length (format_all ds) ≤ 10 * length ds
unfolding format_all
length-format_all [] = omega arith
length-format_all (d ∷ ds) = omega (
  arith,
  length-format_integer_le d,
  length-format_all ds,
  length-append (format_integer d) (format_all ds),
)

position-le : (d : ℕ) (steps : List ℕ) → position d steps ≤ length steps
unfolding position
position-le d [] = omega arith
position-le d (s ∷ ss) = ground (arith, position-le d ss)

length-encode_keys :
    (steps ds : List ℕ) → length steps < 256 → length (encode_keys steps ds) ≤ 2 * length ds
unfolding encode_keys
length-encode_keys steps [] h = omega arith
length-encode_keys steps (d ∷ ds) h = omega (
  arith,
  length-format_integer_small (position d steps) (omega (arith, h, position-le d steps)),
  length-encode_keys steps ds h,
  length-append (format_integer (position d steps)) (encode_keys steps ds),
)

length-encode_score : (bands : Bool) (v : OffsetScore) → length (encode_score bands v) ≤ 20
unfolding encode_score encode_float
length-encode_score true v = omega arith
length-encode_score false v = omega arith

length-encode_scores :
    (mask : List ℕ) (i : ℕ) (vs : List OffsetScore)
    → length (encode_scores mask i vs) ≤ 20 * length vs
unfolding encode_scores
length-encode_scores mask i [] = omega arith
length-encode_scores mask i (v ∷ vs) = omega (
  arith,
  length-encode_score (test_bit mask i) v,
  length-encode_scores mask (i + 1) vs,
  length-append (encode_score (test_bit mask i) v) (encode_scores mask (i + 1) vs),
)

length-deltas :
    (p : ℕ) (vs : List OffsetScore) (ds : List ℕ) → deltas p vs ≡ ok ds → length ds ≡ length vs
unfolding deltas
length-deltas p [] ds h = let e : [] ≡ ds = cc in rw (sym e) refl
length-deltas p (v ∷ vs) ds h = elim (Bool-cases (leb p v.offset)) [
  | inr f ↦ absurd (let g : err require ≡ ok ds = rw f at h in cc)
  | inl t ↦ elim (Result-cases (deltas v.offset vs)) [
    | inr (x, e) ↦ absurd (let g : err x ≡ ok ds = rw (t, e) at h in cc)
    | inl (later, e) ↦
        let g : ok ((v.offset - p) ∷ later) ≡ ok ds = rw (t, e) at h in
        let same : (v.offset - p) ∷ later ≡ ds = cc in
        rw (sym same) (ap suc (length-deltas v.offset vs later e))
  ]
]

length-encode_deltas :
    (ds : List ℕ) → length (encode_deltas (suc (length ds)) ds) ≤ 10 + 10 * length ds
unfolding encode_deltas
length-encode_deltas ds = elim (Bool-cases (ltb 1 (suc (length ds)))) [
  | inr f ↦ rw f (omega (arith, length-format_all ds))
  | inl t ↦ elim (Bool-cases (ltb (length (insert_all ds)) 256)) [
    | inr f ↦
        rw (t, f)
          (omega (
            arith,
            length-format_all ds,
            length-format_integer_le 0,
            length-append (format_integer 0) (format_all ds),
          ))
    | inl small ↦ elim (Bool-cases (ltb (length (insert_all ds)) (suc (length ds) / 4))) [
      | inr f ↦
          rw (t, small, f)
            (omega (
              arith,
              length-format_all ds,
              length-format_integer_le 0,
              length-append (format_integer 0) (format_all ds),
            ))
      | inl few ↦ rw (t, small, few) (with_table (ground (arith, small)) (ground (arith, few)))
    ]
  ]
]
  where
    with_table :
        length (insert_all ds) < 256
        → length (insert_all ds) < suc (length ds) / 4
        → length (
            format_integer (length (insert_all ds))
            ++ (encode_steps 0 (insert_all ds) ++ encode_keys (insert_all ds) ds))
          ≤ 10 + 10 * length ds
    with_table small few =
        let steps = insert_all ds in
        omega (
          arith,
          few,
          length-format_integer_le (length steps),
          length-encode_steps 0 steps,
          length-encode_keys steps ds small,
          length-append (format_integer (length steps))
              (encode_steps 0 steps ++ encode_keys steps ds),
          length-append (encode_steps 0 steps) (encode_keys steps ds),
        )

-- The sizes of the parts of an array, added.
total_size :
    (count a b c d e : ℕ)
    → 1 ≤ count
    → a ≤ 10
    → b ≤ 10
    → c ≤ 10 + 10 * (count - 1)
    → d ≤ 2 * ((count + 7) / 8)
    → e ≤ 20 * count
    → 1 + (a + (b + (c + (d + e)))) ≤ 32 + count * 32
total_size count a b c d e = omega arith

-- What EncodeOffsetScoreWithPrediction writes of an array that it does not refuse fits the number of bytes that
-- ca_offset_score_size gives for it.
pub length-encode_with_prediction_le :
    (vs : List OffsetScore) (bytes : List ℕ)
    → encode_with_prediction vs ≡ ok bytes
    → length bytes ≤ offset_score_size (length vs)
unfolding encode_with_prediction offset_score_size
length-encode_with_prediction_le [] bytes h =
    let same : 0 ∷ format_integer 0 ≡ bytes = cc in
    rw (sym same) (omega (arith, length-format_integer_le 0))
length-encode_with_prediction_le (v ∷ vs) bytes h = elim (Result-cases (deltas v.offset vs)) [
  | inr (x, e) ↦ absurd (let g : err x ≡ ok bytes = rw e at h in cc)
  | inl (ds, e) ↦
      let count = length (v ∷ vs) in
      let mask = build_mask (v ∷ vs) in
      let offsets = encode_deltas count ds in
      let scores = encode_scores mask 0 (v ∷ vs) in
      let behind = offsets ++ (Rle.encode mask ++ scores) in
      let whole : ok (0 ∷ (format_integer count ++ (format_integer v.offset ++ behind)))
          ≡ ok bytes =
        rw e at h in
      let same : 0 ∷ (format_integer count ++ (format_integer v.offset ++ behind)) ≡ bytes = cc in
      let n = length-deltas v.offset vs ds e in
      let deltas_fit : length offsets ≤ 10 + 10 * length vs = rw n at (length-encode_deltas ds) in
      let mask_fits : length (Rle.encode mask) ≤ 2 * ((count + 7) / 8) =
        rw (length-build_mask (v ∷ vs)) at (length-encode_le mask) in
      let parts =
        total_size count (length (format_integer count)) (length (format_integer v.offset))
          (length offsets) (length (Rle.encode mask)) (length scores) (omega arith)
          (length-format_integer_le count) (length-format_integer_le v.offset)
          (omega (arith, deltas_fit)) mask_fits (length-encode_scores mask 0 (v ∷ vs)) in
      rw
        (
          sym same,
          length-append (format_integer count) (format_integer v.offset ++ behind),
          length-append (format_integer v.offset) behind,
          length-append offsets (Rle.encode mask ++ scores),
          length-append (Rle.encode mask) scores,
        )
        (omega (arith, parts))
]
