-- ===== src/Formats/Encode/Values.antt =====
-- Values of tables that `ca_format_offset_score` of src/format.cc wrote, read by src/parse.cc.
use cantera_table.Shared.{
  ℕ, zero, suc, ◌+◌, ◌-◌, ◌*◌, ◌^◌, ◌≤◌, ◌<◌, ◌≡◌, refl, List, [], ◌∷◌, ◌++◌, true, false, ltb, leb,
  length, All, append-nil, Bool-cases, inl, inr, arith,
}
use mathlib.Core.List.{map}
use cantera_table.Result.{ok}
use cantera_table.Integer.{IsU64}
use cantera_table.Score.{OffsetScore, offset_score, has_bands, float_eq, IsU32}
use cantera_table.Prediction.{encode_with_prediction}
use cantera_table.Prediction.Offsets.{Ascending}
use cantera_table.Prediction.RoundTrip.{HasFloats, kept, parse-encode_with_prediction}
use cantera_table.Formats.{array_type, single, parse_array, offset_score_parse}
use cantera_table.Formats.Oroch.{OrochCodec, OrochEncoder}
use cantera_table.Formats.Single.{SingleKind, parse_single}
use cantera_table.Formats.Encode.{
  single_type, small_bytes, positive_kind, negative_kind, any_bands, is_integer, single_kind,
  write_score, encode_single, encode_oroch, format_offset_score,
}
use cantera_table.Formats.Encode.RoundTrip.{
  IsBack, parse_one, encode_delta-parse, float-IsBack, positive-IsBack, negative-IsBack,
}
use cantera_table.Formats.Encode.Same.{AllSame, kept-AllSame, any_bands-head, offset_score-IsSame}

-- The bytes of a number are enough for it.
abbrev EnoughBytes : ℕ → ℕ → Type 0
EnoughBytes n zero = Unit
EnoughBytes n (suc k) = (n < 256 ^ suc k) × (k ≤ 2)

small_bytes-EnoughBytes : (n : ℕ) → EnoughBytes n (small_bytes n)
unfolding small_bytes
small_bytes-EnoughBytes n = elim (Bool-cases (leb n 0xff)) [
  | inl a ↦ rw a ((let h : n ≤ 0xff = ground (arith, a) in omega (arith, h)), omega arith)
  | inr a ↦ elim (Bool-cases (leb n 0xffff)) [
    | inl b ↦ rw (a, b) ((let h : n ≤ 0xffff = ground (arith, b) in omega (arith, h)), omega arith)
    | inr b ↦ elim (Bool-cases (leb n 0xffffff)) [
      | inl d ↦
          rw (a, b, d) ((let h : n ≤ 0xffffff = ground (arith, d) in omega (arith, h)), omega arith)
      | inr d ↦ rw (a, b, d) tt
    ]
  ]
]

positive_type : (k : ℕ) → k ≤ 2 → array_type (8 + 2 * suc k) ≡ single (SingleKind.positive (suc k))
unfolding array_type
positive_type zero h = refl
positive_type (suc zero) h = refl
positive_type (suc (suc zero)) h = refl
positive_type (suc (suc (suc k))) h = absurd (omega arith)

negative_type : (k : ℕ) → k ≤ 2 → array_type (9 + 2 * suc k) ≡ single (SingleKind.negative (suc k))
unfolding array_type
negative_type zero h = refl
negative_type (suc zero) h = refl
negative_type (suc (suc zero)) h = refl
negative_type (suc (suc (suc k))) h = absurd (omega arith)

module _ (c : OrochCodec) (e : OrochEncoder c) where
  positive_kind-IsBack :
      (k f : ℕ)
      → IsU32 f
      → float_eq (c.to_float (e.to_int f)) f ≡ true
      → EnoughBytes (e.to_int f) k
      → IsBack c e (positive_kind k) f
  positive_kind-IsBack zero f h same enough = float-IsBack c e f h
  positive_kind-IsBack (suc k) f h same enough =
      positive-IsBack c e (suc k) f enough.0 same (positive_type k enough.1)

  negative_kind-IsBack :
      (k f : ℕ)
      → IsU32 f
      → float_eq (c.to_float (e.to_int f)) f ≡ true
      → EnoughBytes (2 ^ 64 - 1 - e.to_int f) k
      → IsBack c e (negative_kind k) f
  negative_kind-IsBack zero f h same enough = float-IsBack c e f h
  negative_kind-IsBack (suc k) f h same enough =
      negative-IsBack c e (suc k) f enough.0 same (negative_type k enough.1)

  -- Every score is read back from the kind that is chosen for it.
  single_kind-IsBack : (f : ℕ) → IsU32 f → IsBack c e (single_kind c e f) f
  unfolding single_kind is_integer
  single_kind-IsBack f h = elim (Bool-cases (float_eq (c.to_float (e.to_int f)) f)) [
    | inl same ↦ elim (Bool-cases (ltb (e.to_int f) (2 ^ 63))) [
      | inl t ↦
          rw (same, t)
            (positive_kind-IsBack (small_bytes (e.to_int f)) f h same
              (small_bytes-EnoughBytes (e.to_int f)))
      | inr t ↦
          rw (same, t)
            (negative_kind-IsBack (small_bytes (2 ^ 64 - 1 - e.to_int f)) f h same
              (small_bytes-EnoughBytes (2 ^ 64 - 1 - e.to_int f)))
    ]
    | inr other ↦ rw other (float-IsBack c e f h)
  ]

  encode_single-parse :
      (v : OffsetScore)
      → IsU64 v.offset
      → HasFloats v
      → has_bands v ≡ false
      → (ws : List OffsetScore) × (offset_score_parse c (encode_single c e v) ≡ ok ws)
        × AllSame (v ∷ []) ws
  unfolding encode_single parse_array parse_single
  encode_single-parse v fits floats none =
      let kind = single_kind c e v.score in
      let b = single_kind-IsBack v.score floats.score in
      let body = e.varint_encode v.offset ++ write_score c e kind v.score in
      let read : parse_array c (array_type (single_type kind)) body
          ≡ ok (offset_score v.offset b.back ∷ [], []) =
        rw (b.type, e.varint_decode-encode v.offset (write_score c e kind v.score) fits, b.read) in
      (
        offset_score v.offset b.back ∷ [],
        parse_one c e (single_type kind) body _ read,
        (offset_score-IsSame v b.back none b.same, tt),
      )

  encode_oroch-parse :
      (v : OffsetScore) (vs : List OffsetScore)
      → Ascending 0 (v ∷ vs)
      → All HasFloats (v ∷ vs)
      → IsU64 (length (v ∷ vs))
      → any_bands (v ∷ vs) ≡ false
      → (ws : List OffsetScore) × (offset_score_parse c (encode_oroch c e v vs) ≡ ok ws)
        × AllSame (v ∷ vs) ws
  unfolding encode_oroch
  encode_oroch-parse v [] h floats few none =
      encode_single-parse v h.1 floats.0 (any_bands-head v [] none).0
  encode_oroch-parse v (w ∷ vs) h floats few none =
      encode_delta-parse c e v (w ∷ vs) h floats few none

  prediction-parse :
      (v : OffsetScore) (vs : List OffsetScore)
      → Ascending 0 (v ∷ vs)
      → All HasFloats (v ∷ vs)
      → IsU64 (length (v ∷ vs))
      → (bytes : List ℕ) × (encode_with_prediction (v ∷ vs) ≡ ok bytes)
        × (offset_score_parse c bytes ≡ ok (map kept (v ∷ vs)))
  unfolding array_type parse_array
  prediction-parse v vs h floats few =
      let p = parse-encode_with_prediction v vs [] h floats few in
      (0 ∷ p.0, p.1, parse_one c e 0 p.0 (map kept (v ∷ vs)) (rw (append-nil p.0) at p.2))

  empty-parse : parse_array c (array_type 16) [] ≡ ok ([], [])
  unfolding array_type parse_array
  empty-parse = refl

  -- An array of fewer than 2 ^ 64 records, with 64-bit offsets in order and 32-bit floats, is written by
  -- ca_format_offset_score, and ca_offset_score_parse reads as many records back, each with the offset, a score of
  -- the same bits or equal as a float, and the percentiles if all four are finite.
  pub offset_score_parse-format :
      (vs : List OffsetScore)
      → Ascending 0 vs
      → All HasFloats vs
      → IsU64 (length vs)
      → (bytes : List ℕ) × (ws : List OffsetScore) × (format_offset_score c e vs ≡ ok bytes)
        × (offset_score_parse c bytes ≡ ok ws)
        × AllSame vs ws
  unfolding format_offset_score
  offset_score_parse-format [] h floats few =
      (16 ∷ [], [], refl, parse_one c e 16 [] [] empty-parse, tt)
  offset_score_parse-format (v ∷ vs) h floats few = elim (Bool-cases (any_bands (v ∷ vs))) [
    | inl t ↦
        let p = prediction-parse v vs h floats few in
        (p.0, map kept (v ∷ vs), rw t p.1, p.2, kept-AllSame (v ∷ vs))
    | inr f ↦
        let p = encode_oroch-parse v vs h floats few f in
        (encode_oroch c e v vs, p.0, rw f, p.1, p.2)
  ]
