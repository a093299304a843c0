-- ===== src/Formats/Encode/RoundTrip.antt =====
-- `ca_offset_score_parse` of src/parse.cc after `ca_format_offset_score` of src/format.cc.
use cantera_table.Shared.{
  ℕ, zero, suc, ◌+◌, ◌-◌, ◌*◌, ◌/◌, ◌%◌, ◌^◌, ◌<◌, ◌≡◌, ◌⊎◌, ◌∙◌, refl, ap, List, [], ◌∷◌, ◌++◌,
  Bool, true, false, ◌==◌, if◌then◌else◌, length, length-map, All, append_assoc, append-nil,
  Bool-cases, inl, inr, arith,
}
use mathlib.Core.List.{map}
use native.Mathlib.Nat.{pow-suc}
use cantera_table.Shared.Words.{u64}
use cantera_table.Result.{ok}
use cantera_table.Integer.{IsU64}
use cantera_table.Score.{OffsetScore, float_eq, encode_float, read_float-encode, IsU32}
use cantera_table.Prediction.Offsets.{Ascending, offsets}
use cantera_table.Prediction.RoundTrip.{HasFloats}
use cantera_table.Formats.{single, array_type, parse_array, parse_loop, offset_score_parse}
use cantera_table.Formats.Oroch.{OrochCodec, OrochEncoder}
use cantera_table.Formats.Flexi.{running, records}
use cantera_table.Formats.Delta.{read_floats, delta_scores, parse_delta, parse_delta_records}
use cantera_table.Formats.Single.{SingleKind, read_little, single_score}
use cantera_table.Formats.Encode.{
  single_type, write_little, offset_delta, write_floats, any_bands, is_integer, write_score,
  all_integers, write_scores, encode_delta,
}
use cantera_table.Formats.Encode.Same.{AllSame, records-AllSame, same_bits}

read_little-write :
    (n v : ℕ) (rest : List ℕ)
    → v < 256 ^ n
    → read_little n (write_little n v ++ rest) ≡ ok (v, rest)
unfolding read_little write_little
read_little-write zero v rest h = let z : v ≡ 0 = omega (arith, h) in rw z
read_little-write (suc n) v rest h =
    let whole : v % 256 + 256 * (v / 256) ≡ v = omega arith in
    rw (read_little-write n (v / 256) rest (omega (arith, h, pow-suc 256 n)), whole)

read_floats-write :
    (vs : List OffsetScore) (rest : List ℕ)
    → All HasFloats vs
    → read_floats (length vs) (write_floats vs ++ rest) ≡ ok (map (λ v. v.score) vs, rest)
unfolding read_floats write_floats
read_floats-write [] rest h = refl
read_floats-write (v ∷ vs) rest h = rw (
  append_assoc (encode_float v.score) (write_floats vs) rest,
  read_float-encode v.score (write_floats vs ++ rest) h.0.score,
  read_floats-write vs rest h.1,
)

running-offset_delta :
    (p : ℕ) (vs : List OffsetScore)
    → p < 2 ^ 64
    → All (λ v. IsU64 v.offset) vs
    → running p (offset_delta p vs) ≡ offsets vs
unfolding running offset_delta
running-offset_delta p [] h fits = refl
running-offset_delta p (v ∷ vs) h fits =
    let back : u64 (p + u64 (v.offset + (2 ^ 64 - p))) ≡ v.offset = omega (arith, h, fits.0) in
    rw (back, running-offset_delta v.offset vs fits.0 fits.1)

offset_delta-fits : (p : ℕ) (vs : List OffsetScore) → All (λ n. n < 2 ^ 64) (offset_delta p vs)
unfolding offset_delta
offset_delta-fits p [] = tt
offset_delta-fits p (v ∷ vs) = (omega arith, offset_delta-fits v.offset vs)

length-offset_delta : (p : ℕ) (vs : List OffsetScore) → length (offset_delta p vs) ≡ length vs
unfolding offset_delta
length-offset_delta p [] = refl
length-offset_delta p (v ∷ vs) = ap suc (length-offset_delta v.offset vs)

offsets-IsU64 : (p : ℕ) (vs : List OffsetScore) → Ascending p vs → All (λ v. IsU64 v.offset) vs
offsets-IsU64 p [] h = tt
offsets-IsU64 p (v ∷ vs) h = (h.1, offsets-IsU64 v.offset vs h.2)

module _ (c : OrochCodec) (e : OrochEncoder c) where
  all_integers-All :
      (vs : List OffsetScore)
      → all_integers c e vs ≡ true
      → All
          (λ v.
            (c.to_float (e.to_int v.score) ≡ v.score)
            ⊎ (float_eq (c.to_float (e.to_int v.score)) v.score ≡ true))
          vs
  unfolding all_integers is_integer
  all_integers-All [] h = tt
  all_integers-All (v ∷ vs) h =
      elim (Bool-cases (float_eq (c.to_float (e.to_int v.score)) v.score)) [
        | inl t ↦ (inr t, all_integers-All vs (rw t at h))
        | inr f ↦ absurd (let g : false ≡ true = rw f at h in cc)
      ]

  -- A value of one array is read by one round of the loop.
  pub parse_one :
      (t : ℕ) (body : List ℕ) (ws : List OffsetScore)
      → parse_array c (array_type t) body ≡ ok (ws, [])
      → offset_score_parse c (t ∷ body) ≡ ok ws
  unfolding offset_score_parse parse_loop
  parse_one t body ws h = rw (h, append-nil ws)

  write_scores-read :
      (b : Bool) (vs : List OffsetScore)
      → all_integers c e vs ≡ b
      → All HasFloats vs
      → (g : OffsetScore → ℕ) × (delta_scores c b (length vs) (write_scores c e b vs)
          ≡ ok (map g vs, []))
        × All (λ v. (g v ≡ v.score) ⊎ (float_eq (g v) v.score ≡ true)) vs
  unfolding write_scores delta_scores
  write_scores-read true vs h floats =
      let ints = map (λ v. e.to_int v.score) vs in
      let n : length ints ≡ length vs = length-map vs (λ v. e.to_int v.score) in
      let read : c.signed_decode (length vs) (e.signed_encode ints) ≡ ok (ints, []) =
        rw (n, append-nil (e.signed_encode ints)) at
          (e.signed_decode-encode ints [] (ints_fit vs)) in
      ((λ v. c.to_float (e.to_int v.score)), rw (read, fused vs), all_integers-All vs h)
    where
      ints_fit : (vs : List OffsetScore) → All (λ n. n < 2 ^ 64) (map (λ v. e.to_int v.score) vs)
      ints_fit [] = tt
      ints_fit (v ∷ vs) = (e.to_int-fits v.score, ints_fit vs)

      fused :
          (vs : List OffsetScore)
          → map c.to_float (map (λ v. e.to_int v.score) vs)
            ≡ map (λ v. c.to_float (e.to_int v.score)) vs
      fused [] = refl
      fused (v ∷ vs) = ap (λ t. c.to_float (e.to_int v.score) ∷ t) (fused vs)
  write_scores-read false vs h floats = (
    (λ v. v.score),
    rw (append-nil (write_floats vs)) at (read_floats-write vs [] floats),
    same_bits vs,
  )

  -- The number of records, the offsets and the scores are read back.
  parse_delta-write :
      (b : Bool) (v : OffsetScore) (vs : List OffsetScore) (scores : List ℕ) (ss : List ℕ)
      → Ascending 0 (v ∷ vs)
      → IsU64 (length (v ∷ vs))
      → delta_scores c b (length (v ∷ vs)) scores ≡ ok (ss, [])
      → parse_delta c b (
          e.varint_encode (length (v ∷ vs))
          ++ (e.varint_encode v.offset ++ (e.unsigned_encode (offset_delta v.offset vs) ++ scores)))
        ≡ ok (records (offsets (v ∷ vs)) ss, [])
  unfolding parse_delta parse_delta_records
  parse_delta-write b v vs scores ss h few read =
      let deltas = offset_delta v.offset vs in
      let some_left : (suc (length vs) == 0) ≡ false = ground arith in
      let others : suc (length vs) - 1 ≡ length vs = omega arith in
      let offsets_read : c.unsigned_decode (length vs) (e.unsigned_encode deltas ++ scores)
          ≡ ok (deltas, scores) =
        rw (length-offset_delta v.offset vs) at
          (e.unsigned_decode-encode deltas scores (offset_delta-fits v.offset vs)) in
      rw (
        e.varint_decode-encode (length (v ∷ vs))
            (e.varint_encode v.offset ++ (e.unsigned_encode deltas ++ scores)) few,
        some_left,
        e.varint_decode-encode v.offset (e.unsigned_encode deltas ++ scores) h.1,
        others,
        offsets_read,
        read,
        running-offset_delta v.offset vs h.1 (offsets-IsU64 v.offset vs h.2),
      )

  delta_array :
      (b : Bool) (body : List ℕ)
      → parse_array c (array_type (if b then 8 else 7)) body ≡ parse_delta c b body
  unfolding array_type parse_array
  delta_array true body = refl
  delta_array false body = refl

  pub encode_delta-parse :
      (v : OffsetScore) (vs : List OffsetScore)
      → Ascending 0 (v ∷ vs)
      → All HasFloats (v ∷ vs)
      → IsU64 (length (v ∷ vs))
      → any_bands (v ∷ vs) ≡ false
      → (ws : List OffsetScore) × (offset_score_parse c (encode_delta c e v vs) ≡ ok ws)
        × AllSame (v ∷ vs) ws
  unfolding encode_delta
  encode_delta-parse v vs h floats few none =
      let b = all_integers c e (v ∷ vs) in
      let s = write_scores-read b (v ∷ vs) refl floats in
      let ws = records (offsets (v ∷ vs)) (map s.0 (v ∷ vs)) in
      (
        ws,
        parse_one (if b then 8 else 7) _ ws (
            delta_array b _
            ∙ parse_delta-write b v vs (write_scores c e b (v ∷ vs)) (map s.0 (v ∷ vs)) h few s.1),
        records-AllSame s.0 (v ∷ vs) none s.2,
      )

  -- A score that is written as a kind is read back from it.
  pub record IsBack (kind : SingleKind) (f : ℕ) : Type 0 where
    pub back : ℕ
    pub read : single_score c kind (write_score c e kind f) ≡ ok (back, [])
    pub same : (back ≡ f) ⊎ (float_eq back f ≡ true)
    pub type : array_type (single_type kind) ≡ single kind

  pub float-IsBack : (f : ℕ) → IsU32 f → IsBack SingleKind.float f
  unfolding write_score single_score array_type
  float-IsBack f h = record {
    back = f;
    read = rw (append-nil (encode_float f)) at (read_float-encode f [] h);
    same = inl refl;
    type = refl;
  }

  pub positive-IsBack :
      (n f : ℕ)
      → e.to_int f < 256 ^ n
      → float_eq (c.to_float (e.to_int f)) f ≡ true
      → array_type (8 + 2 * n) ≡ single (SingleKind.positive n)
      → IsBack (SingleKind.positive n) f
  unfolding write_score single_score
  positive-IsBack n f h same type = record {
    back = c.to_float (e.to_int f);
    read =
        (let r =
            rw (append-nil (write_little n (e.to_int f))) at
              (read_little-write n (e.to_int f) [] h) in
          rw r);
    same = inr same;
    type = type;
  }

  pub negative-IsBack :
      (n f : ℕ)
      → 2 ^ 64 - 1 - e.to_int f < 256 ^ n
      → float_eq (c.to_float (e.to_int f)) f ≡ true
      → array_type (9 + 2 * n) ≡ single (SingleKind.negative n)
      → IsBack (SingleKind.negative n) f
  unfolding write_score single_score
  negative-IsBack n f h same type = record {
    back = c.to_float (e.to_int f);
    read =
        (let r =
            rw (append-nil (write_little n (2 ^ 64 - 1 - e.to_int f))) at
              (read_little-write n (2 ^ 64 - 1 - e.to_int f) [] h) in
          let twice : 2 ^ 64 - 1 - (2 ^ 64 - 1 - e.to_int f) ≡ e.to_int f =
            omega (arith, e.to_int-fits f) in
          rw (r, twice));
    same = inr same;
    type = type;
  }
