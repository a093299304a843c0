-- ===== src/WriteOnce/Codec.antt =====
-- `oroch::varint_codec` and zstd, the third-party code that the write-once table stores its bytes with.
use cantera_table.Shared.{ℕ, ◌+◌, ◌*◌, ◌<◌, ◌≤◌, ◌^◌, List, ◌++◌, ◌≡◌, length, All}
use cantera_table.Result.{Result, ok}

-- The codec of the numbers below `limit`: value_encode, value_decode and value_space of one number;
-- encode, decode and space of an array. A decoder gives what it read and the bytes behind it. They read
-- back what they wrote, and a number takes as many bytes as its space, 1 to 10; in an array too it takes
-- 1 to 10 bytes.
pub record Codec (limit : ℕ) : Type 0 where
  pub value_encode : ℕ → List ℕ
  pub value_decode : List ℕ → Result (ℕ × List ℕ)
  pub value_space : ℕ → ℕ
  pub encode : List ℕ → List ℕ
  pub decode : ℕ → List ℕ → Result (List ℕ × List ℕ)
  pub space : List ℕ → ℕ
  pub value_decode-value_encode :
      (n : ℕ) (rest : List ℕ) → n < limit → value_decode (value_encode n ++ rest) ≡ ok (n, rest)
  pub decode-encode :
      (ns : List ℕ) (rest : List ℕ)
      → All (λ n. n < limit) ns
      → decode (length ns) (encode ns ++ rest) ≡ ok (ns, rest)
  pub length-value_encode : (n : ℕ) → length (value_encode n) ≡ value_space n
  pub value_space_pos : (n : ℕ) → n < limit → 1 ≤ value_space n
  pub value_space-le : (n : ℕ) → n < limit → value_space n ≤ 10
  pub le-length-encode : (ns : List ℕ) → All (λ n. n < limit) ns → length ns ≤ length (encode ns)
  pub length-encode-le :
      (ns : List ℕ) → All (λ n. n < limit) ns → length (encode ns) ≤ 10 * length ns

-- How a table is stored: the two codecs that it uses, and zstd with the compression level of the
-- table. zstd gives back what it compressed, within the bound that ZSTD_compressBound states.
pub record Storage : Type 0 where
  pub numbers : Codec (2 ^ 32)
  pub sizes : Codec (2 ^ 64)
  pub compress : List ℕ → List ℕ
  pub decompress : List ℕ → Result (List ℕ)
  pub decompress-compress : (bytes : List ℕ) → decompress (compress bytes) ≡ ok bytes
  pub length-compress-le : (bytes : List ℕ) → length (compress bytes) ≤ 2 * length bytes + 1024
