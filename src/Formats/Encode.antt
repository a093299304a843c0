-- ===== src/Formats/Encode.antt =====
-- `EncodeOffsetScoreSingle`, `EncodeOffsetScoreOroch` and `ca_format_offset_score` of src/format.cc.
pub mod Same
pub mod RoundTrip
pub mod Values
use cantera_table.Shared.{
  ℕ, zero, suc, ◌+◌, ◌-◌, ◌*◌, ◌/◌, ◌%◌, ◌^◌, List, [], ◌∷◌, ◌++◌, Bool, true, false, ◌&&◌, ◌||◌,
  ltb, leb, if◌then◌else◌, length,
}
use mathlib.Core.List.{map}
use cantera_table.Shared.Words.{u64}
use cantera_table.Result.{Result, ok, ◌>>=◌}
use cantera_table.Score.{OffsetScore, has_bands, float_eq, encode_float}
use cantera_table.Prediction.{encode_with_prediction}
use cantera_table.Formats.Oroch.{OrochCodec, OrochEncoder}
use cantera_table.Formats.Single.{SingleKind}

-- CA_OFFSET_SCORE_SINGLE_FLOAT, CA_OFFSET_SCORE_SINGLE_POSITIVE_1, ...
abbrev pub single_type : SingleKind → ℕ
single_type SingleKind.float = 9
single_type (SingleKind.positive n) = 8 + 2 * n
single_type (SingleKind.negative n) = 9 + 2 * n

-- The number of bytes for a small number, and 0 for others.
unfoldable pub small_bytes : ℕ → ℕ
small_bytes n =
    if leb n 0xff then 1 else if leb n 0xffff then 2 else if leb n 0xffffff then 3 else 0

abbrev pub positive_kind : ℕ → SingleKind
positive_kind zero = SingleKind.float
positive_kind (suc n) = SingleKind.positive (suc n)

abbrev pub negative_kind : ℕ → SingleKind
negative_kind zero = SingleKind.float
negative_kind (suc n) = SingleKind.negative (suc n)

-- *o++ = score; *o++ = score >> 8; ...
unfoldable pub write_little : ℕ → ℕ → List ℕ
write_little zero v = []
write_little (suc n) v = v % 256 ∷ write_little n (v / 256)

-- offset_delta
unfoldable pub offset_delta : ℕ → List OffsetScore → List ℕ
offset_delta previous [] = []
offset_delta previous (v ∷ vs) = u64 (v.offset + (2 ^ 64 - previous)) ∷ offset_delta v.offset vs

unfoldable pub write_floats : List OffsetScore → List ℕ
write_floats [] = []
write_floats (v ∷ vs) = encode_float v.score ++ write_floats vs

unfoldable pub any_bands : List OffsetScore → Bool
any_bands [] = false
any_bands (v ∷ vs) = has_bands v || any_bands vs

module _ (c : OrochCodec) (e : OrochEncoder c) where
  -- float(llrintf(f)) == f
  unfoldable pub is_integer : ℕ → Bool
  is_integer f = float_eq (c.to_float (e.to_int f)) f

  -- The choice of the representation of a score, and ~score of a negative one.
  unfoldable pub single_kind : ℕ → SingleKind
  single_kind f =
      let score = e.to_int f in
      if is_integer f
      then if ltb score (2 ^ 63)
        then positive_kind (small_bytes score)
        else negative_kind (small_bytes (2 ^ 64 - 1 - score))
      else SingleKind.float

  unfoldable pub write_score : SingleKind → ℕ → List ℕ
  write_score SingleKind.float f = encode_float f
  write_score (SingleKind.positive n) f = write_little n (e.to_int f)
  write_score (SingleKind.negative n) f = write_little n (2 ^ 64 - 1 - e.to_int f)

  unfoldable pub encode_single : OffsetScore → List ℕ
  encode_single v =
      let kind = single_kind v.score in
      single_type kind ∷ (e.varint_encode v.offset ++ write_score kind v.score)

  unfoldable pub all_integers : List OffsetScore → Bool
  all_integers [] = true
  all_integers (v ∷ vs) = is_integer v.score && all_integers vs

  unfoldable pub write_scores : Bool → List OffsetScore → List ℕ
  write_scores true vs = e.signed_encode (map (λ v. e.to_int v.score) vs)
  write_scores false vs = write_floats vs

  -- More than one record.
  unfoldable pub encode_delta : OffsetScore → List OffsetScore → List ℕ
  encode_delta v vs =
      let integers = all_integers (v ∷ vs) in
      (if integers then 8 else 7)
      ∷ (e.varint_encode (length (v ∷ vs))
          ++ (e.varint_encode v.offset
              ++ (e.unsigned_encode (offset_delta v.offset vs) ++ write_scores integers (v ∷ vs))))

  unfoldable pub encode_oroch : OffsetScore → List OffsetScore → List ℕ
  encode_oroch v [] = encode_single v
  encode_oroch v (w ∷ vs) = encode_delta v (w ∷ vs)

  unfoldable pub format_offset_score : List OffsetScore → Result (List ℕ)
  format_offset_score [] = ok (16 ∷ [])
  format_offset_score (v ∷ vs) =
      if any_bands (v ∷ vs) then encode_with_prediction (v ∷ vs) else ok (encode_oroch v vs)
