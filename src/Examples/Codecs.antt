-- ===== src/Examples/Codecs.antt =====
-- Stand-ins for the third-party codecs: numbers in the groups of `ca_format_integer`, one behind the other.
use cantera_table.Shared.{
  sym, ap, ◌∙◌, inl, inr, ℕ, zero, suc, ◌*◌, ◌<◌, ◌≤◌, ◌^◌, refl, length, length-append, All,
  append_assoc, ◌≡◌, List, [], ◌∷◌, ◌++◌, arith,
}
use cantera_table.Result.{Result, Result-cases, err, ok, ◌>>=◌}
use cantera_table.Result.Progress.{Reads, Reads-bind}
use cantera_table.Integer.{format_integer, parse_integer}
use cantera_table.Integer.RoundTrip.{parse-format_integer}
use cantera_table.Integer.Lengths.{length-format_integer_le}
use cantera_table.Integer.Progress.{parse_integer-Reads}
use cantera_table.Formats.Oroch.{OrochCodec, OrochEncoder}
use cantera_table.WriteOnce.Codec.{Codec, Storage}

-- A codec: arrays are the integers one behind the other, in the groups of `ca_format_integer`.
pub format_all : List ℕ → List ℕ
format_all [] = []
format_all (n ∷ ns) = format_integer n ++ format_all ns

pub parse_all : ℕ → List ℕ → Result (List ℕ × List ℕ)
parse_all zero input = ok ([], input)
parse_all (suc n) input = do p ← parse_integer input; q ← parse_all n p.1; ok (p.0 ∷ q.0, q.1)

pub parse_all-format_all :
    (ns : List ℕ) (rest : List ℕ)
    → All (λ n. n < 2 ^ 64) ns
    → parse_all (length ns) (format_all ns ++ rest) ≡ ok (ns, rest)
unfolding parse_all format_all
parse_all-format_all [] rest h = refl
parse_all-format_all (n ∷ ns) rest h = rw (
  append_assoc (format_integer n) (format_all ns) rest,
  parse-format_integer n (format_all ns ++ rest) (omega (arith, h.0)),
  parse_all-format_all ns rest h.1,
)

pub parsed_length :
    (bytes : List ℕ) (v : ℕ) → parse_integer (bytes ++ []) ≡ ok (v, []) → 1 ≤ length bytes
unfolding parse_integer
parsed_length [] v h = cc
parsed_length (b ∷ bytes) v h = omega arith

pub format_all-lengths :
    (ns : List ℕ)
    → All (λ n. n < 2 ^ 64) ns
    → (length ns ≤ length (format_all ns)) × (length (format_all ns) ≤ 10 * length ns)
unfolding format_all
format_all-lengths [] h = (omega arith, omega arith)
format_all-lengths (n ∷ ns) h =
    let rest = format_all-lengths ns h.1 in
    let some_byte =
      parsed_length (format_integer n) n (parse-format_integer n [] (omega (arith, h.0))) in
    let whole = length-append (format_integer n) (format_all ns) in
    (
      omega (arith, rest.0, some_byte, whole),
      omega (arith, rest.1, length-format_integer_le n, whole),
    )

pub widen :
    (limit : ℕ)
    → limit ≤ 2 ^ 64
    → (ns : List ℕ) → All (λ n. n < limit) ns
    → All (λ n. n < 2 ^ 64) ns
widen limit small [] h = tt
widen limit small (n ∷ ns) h = (omega (arith, h.0, small), widen limit small ns h.1)

abbrev groups : (limit : ℕ) → limit ≤ 2 ^ 64 → Codec limit
groups limit small = record {
  space = λ ns. length (format_all ns);
  value_space-le = λ n h. length-format_integer_le n;
  le-length-encode = λ ns h. (format_all-lengths ns (widen limit small ns h)).0;
  length-encode-le = λ ns h. (format_all-lengths ns (widen limit small ns h)).1;
  value_encode = format_integer;
  value_decode = parse_integer;
  value_space = λ n. length (format_integer n);
  encode = format_all;
  decode = parse_all;
  value_decode-value_encode = λ n rest h. parse-format_integer n rest (omega (arith, h, small));
  decode-encode = λ ns rest h. parse_all-format_all ns rest (widen limit small ns h);
  length-value_encode = λ n. refl;
  value_space_pos = λ n h.
      parsed_length (format_integer n) n (parse-format_integer n [] (omega (arith, h, small)));
}

abbrev parsed_count : Result (List ℕ × List ℕ) → ℕ
parsed_count (ok p) = length p.0
parsed_count (err x) = 0

pub parse_all-length :
    (n : ℕ) (input : List ℕ) (p : List ℕ × List ℕ) → parse_all n input ≡ ok p → length p.0 ≡ n
unfolding parse_all
parse_all-length zero input p h = cc
parse_all-length (suc n) input p h = elim (Result-cases (parse_integer input)) [
  | inl (a, e) ↦ elim (Result-cases (parse_all n a.1)) [
    | inl (b, f) ↦ sym (ap parsed_count (rw (e, f) at h)) ∙ ap suc (parse_all-length n a.1 b f)
    | inr (x, f) ↦ (let failed : err x ≡ ok p = rw (e, f) at h in cc)
  ]
  | inr (x, e) ↦ (let failed : err x ≡ ok p = rw e at h in cc)
]

-- Numbers as groups, with no metadata, and every float 0.0f.
abbrev pub numbers : Codec (2 ^ 32)
numbers = groups (2 ^ 32) (omega arith)

-- Files that are not compressed, whatever their header says.
abbrev pub plain : Storage
plain = record {
  numbers = numbers;
  sizes = groups (2 ^ 64) (omega arith);
  compress = λ bytes. bytes;
  decompress = λ bytes. ok bytes;
  decompress-compress = λ bytes. refl;
  length-compress-le = λ bytes. omega arith;
}

pub parse_all-Reads : (n : ℕ) (input : List ℕ) → Reads (length input) (parse_all n input)
unfolding parse_all
parse_all-Reads zero input = omega arith
parse_all-Reads (suc n) input =
    Reads-bind (length input) (parse_integer input) _ (parse_integer-Reads input)
      λ p. Reads-bind (length p.1) (parse_all n p.1) _ (parse_all-Reads n p.1) λ q. omega arith

abbrev pub plain_codec : OrochCodec
plain_codec = record {
  varint_decode = parse_integer;
  unsigned_decode = parse_all;
  signed_decode = parse_all;
  to_float = λ n. 0;
  length-unsigned_decode = parse_all-length;
  varint_decode-Reads = parse_integer-Reads;
  unsigned_decode-Reads = parse_all-Reads;
  signed_decode-Reads = parse_all-Reads;
}

abbrev pub plain_encoder : OrochEncoder plain_codec
plain_encoder = record {
  varint_encode = format_integer;
  unsigned_encode = format_all;
  signed_encode = format_all;
  to_int = λ f. 0;
  to_int-fits = λ f. omega arith;
  varint_decode-encode = parse-format_integer;
  unsigned_decode-encode = parse_all-format_all;
  signed_decode-encode = parse_all-format_all;
}
