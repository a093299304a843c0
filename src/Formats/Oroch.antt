-- ===== src/Formats/Oroch.antt =====
-- The third-party code that the formats of src/format.cc and src/parse.cc store numbers with, and the
-- conversions between integers and floats.
use cantera_table.Shared.{ℕ, ◌<◌, ◌^◌, List, ◌++◌, ◌≡◌, length, All}
use cantera_table.Result.{Result, ok}
use cantera_table.Result.Progress.{Reads}

-- oroch::varint_codec<uint64_t> reads one number, and oroch::integer_codec reads its metadata and then as many
-- numbers as it is asked for, or fails: unsigned, or signed as 64-bit patterns. Each gives the bytes behind, and
-- reads forwards.
-- `to_float` is the float next to a signed number, given as a 64-bit pattern.
pub record OrochCodec : Type 0 where
  pub varint_decode : List ℕ → Result (ℕ × List ℕ)
  pub unsigned_decode : ℕ → List ℕ → Result (List ℕ × List ℕ)
  pub signed_decode : ℕ → List ℕ → Result (List ℕ × List ℕ)
  pub to_float : ℕ → ℕ
  pub length-unsigned_decode :
      (n : ℕ) (input : List ℕ) (p : List ℕ × List ℕ)
      → unsigned_decode n input ≡ ok p
      → length p.0 ≡ n
  pub varint_decode-Reads : (input : List ℕ) → Reads (length input) (varint_decode input)
  pub unsigned_decode-Reads :
      (n : ℕ) (input : List ℕ) → Reads (length input) (unsigned_decode n input)
  pub signed_decode-Reads : (n : ℕ) (input : List ℕ) → Reads (length input) (signed_decode n input)

-- The encoders behind those readers, where an array is written as its metadata and its numbers, and llrintf,
-- which gives a 64-bit pattern. A reader takes back what its encoder wrote.
pub record OrochEncoder (c : OrochCodec) : Type 0 where
  pub varint_encode : ℕ → List ℕ
  pub unsigned_encode : List ℕ → List ℕ
  pub signed_encode : List ℕ → List ℕ
  pub to_int : ℕ → ℕ
  pub to_int-fits : (f : ℕ) → to_int f < 2 ^ 64
  pub varint_decode-encode :
      (n : ℕ) (rest : List ℕ)
      → n < 2 ^ 64
      → c.varint_decode (varint_encode n ++ rest) ≡ ok (n, rest)
  pub unsigned_decode-encode :
      (ns rest : List ℕ)
      → All (λ n. n < 2 ^ 64) ns
      → c.unsigned_decode (length ns) (unsigned_encode ns ++ rest) ≡ ok (ns, rest)
  pub signed_decode-encode :
      (ns rest : List ℕ)
      → All (λ n. n < 2 ^ 64) ns
      → c.signed_decode (length ns) (signed_encode ns ++ rest) ≡ ok (ns, rest)
