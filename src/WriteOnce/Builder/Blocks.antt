-- ===== src/WriteOnce/Builder/Blocks.antt =====
-- The state of `WriteOnceBuilder` as the blocks of rows that it has closed and the one that is open.
use cantera_table.Shared.{
  ℕ, suc, ◌+◌, ◌-◌, ◌^◌, ◌≤◌, ◌<◌, ◌≡◌, ◌∙◌, refl, ap, List, [], ◌∷◌, ◌++◌, length, drop, last_or,
  All, append-nil, length-append, arith,
}
use cantera_table.Result.{ok}
use cantera_table.WriteOnce.Block.{get_last_key}
use cantera_table.WriteOnce.Block.Entries.{
  Bytes, Fits, lengths, joined, firsts, block_of, some_left,
}

abbrev pub Row : Type 0
Row = Bytes × Bytes

-- An upper bound of what rows take in a block: at most 10 bytes for each size.
abbrev pub weight : List Row → ℕ
weight [] = 0
weight (e ∷ es) = length e.0 + length e.1 + 20 + weight es

abbrev pub IsSmall : List Row → Type 0
IsSmall es = weight es < 2 ^ 30

abbrev pub last_key : List Row → Bytes
last_key [] = []
last_key (e ∷ es) = (last_or e es).0

pub weight-append : (a b : List Row) → weight (a ++ b) ≡ weight a + weight b
weight-append [] b = omega arith
weight-append (x ∷ a) b = omega (arith, weight-append a b)

pub length-le-weight : (es : List Row) → length es ≤ weight es
length-le-weight [] = omega arith
length-le-weight (e ∷ es) = omega (arith, length-le-weight es)

pub IsSmall-Fits : (es : List Row) → IsSmall es → All Fits es
IsSmall-Fits [] h = tt
IsSmall-Fits (e ∷ es) h = ((omega arith, omega arith), IsSmall-Fits es (omega arith))

pub last_key-le-weight : (e : Row) (es : List Row) → length (last_key (e ∷ es)) ≤ weight (e ∷ es)
last_key-le-weight e [] = omega arith
last_key-le-weight e (f ∷ es) = omega (arith, last_key-le-weight f es)

last_size-le :
    (k : Bytes) (ks : List Bytes) → last_or (length k) (lengths ks) ≤ length (joined (k ∷ ks))
last_size-le k [] = omega (arith, length-append k [])
last_size-le k (k' ∷ ks) = omega (arith, last_size-le k' ks, length-append k (joined (k' ∷ ks)))

drop_add : (k b : Bytes) (n : ℕ) → drop (length k + n) (k ++ b) ≡ drop n b
drop_add [] b n = let z : 0 + n ≡ n = omega arith in rw z
drop_add (x ∷ k) b n =
    let z : suc (length k) + n ≡ suc (length k + n) = omega arith in rw z (drop_add k b n)

-- The last bytes of the joined strings are the last string.
last_joined :
    (k : Bytes) (ks : List Bytes)
    → drop (length (joined (k ∷ ks)) - last_or (length k) (lengths ks)) (joined (k ∷ ks))
      ≡ last_or k ks
last_joined k [] =
    let z : length (k ++ []) - length k ≡ 0 = omega (arith, length-append k []) in
    rw (z, append-nil k)
last_joined k (k' ∷ ks) =
    let z : length (joined (k ∷ k' ∷ ks)) - last_or (length k') (lengths ks)
        ≡ length k + (length (joined (k' ∷ ks)) - last_or (length k') (lengths ks)) =
      omega (arith, last_size-le k' ks, length-append k (joined (k' ∷ ks))) in
    rw
      (
        z,
        drop_add k (joined (k' ∷ ks))
            (length (joined (k' ∷ ks)) - last_or (length k') (lengths ks)),
      )
      (last_joined k' ks)

last-firsts : (e : Row) (es : List Row) → last_or e.0 (firsts es) ≡ (last_or e es).0
last-firsts e [] = refl
last-firsts e (f ∷ es) = last-firsts f es

pub get_last_key-block_of :
    (e : Row) (es : List Row) → get_last_key (block_of (e ∷ es)) ≡ ok (last_key (e ∷ es))
unfolding get_last_key
get_last_key-block_of e es =
    rw (some_left (length (lengths (firsts es))))
      (ap ok (last_joined e.0 (firsts es) ∙ last-firsts e es))
