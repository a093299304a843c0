-- ===== src/Integer/RoundTrip.antt =====
-- Every 64-bit value is read back, whatever follows it.
use Prim.Native.Nat.{bit_and, bit_or}
use native.Mathlib.Nat.{pow-suc, one-le-pow, div-div-eq-div-mul, div-le_self, div-lt_iff_lt-mul}
use native.Mathlib.Decide.{dec_lt}
use cantera_table.Shared.{
  ℕ, zero, suc, ◌+◌, ◌-◌, ◌*◌, ◌/◌, ◌%◌, ◌^◌, ◌≤◌, ◌<◌, ◌≡◌, refl, sym, List, [], ◌∷◌, ◌++◌, arith,
  ltb, if◌then◌else◌,
}
use cantera_table.Shared.Words.{u8, bit_or-shl, mask7}
use cantera_table.Shared.Bytes.{low7, bit7, marked}
use cantera_table.Result.{ok}
use cantera_table.Integer.{IsU64, format_integer, parse_groups, parse_integer}

-- The groups from number `k` down.
groups : ℕ → ℕ → List ℕ
groups zero v = bit_and v 0x7f ∷ []
groups (suc k) v =
    (if ltb (128 ^ suc k - 1) v then u8 (bit_or 0x80 (v / 128 ^ suc k)) ∷ [] else []) ++ groups k v

format_integer-groups : (v : ℕ) → format_integer v ≡ groups 9 v
unfolding format_integer groups
format_integer-groups v = refl

-- One round of the loop behind a byte with its top bit set.
parse_groups_step :
    (r b b' : ℕ) (rest : List ℕ)
    → 128 ≤ b
    → b < 256
    → b' < 256
    → r * 128 < 2 ^ 64
    → parse_groups r b (b' ∷ rest) ≡ parse_groups (r * 128 + b' % 128) b' rest
unfolding parse_groups
parse_groups_step r b b' rest hi byte byte' fits =
    ground (arith, bit7 b, low7 b', bit_or-shl 7 r (b' % 128))

parse_groups_last : (r b : ℕ) (rest : List ℕ) → b < 128 → parse_groups r b rest ≡ ok (r, rest)
unfolding parse_groups
parse_groups_last r b [] small = ground (arith, bit7 b)
parse_groups_last r b (b' ∷ rest) small = ground (arith, bit7 b)

groups_written :
    (k v : ℕ) → 128 ^ suc k ≤ v → groups (suc k) v ≡ (128 + v / 128 ^ suc k % 128) ∷ groups k v
unfolding groups
groups_written k v big = ground (arith, marked (v / 128 ^ suc k), one-le-pow (suc k) 128)

groups_skipped : (k v : ℕ) → v < 128 ^ suc k → groups (suc k) v ≡ groups k v
unfolding groups
groups_skipped k v small = ground (arith, one-le-pow (suc k) 128)

next_group : (k v : ℕ) → v / 128 ^ suc (suc k) ≡ v / 128 ^ suc k / 128
next_group k v = rw (pow-suc 128 (suc k)) (sym (div-div-eq-div-mul v (128 ^ suc k) 128))

-- With the groups above number `k` read, the rest of the groups completes the value.
parse_groups-groups :
    (k v b : ℕ) (rest : List ℕ)
    → IsU64 v
    → 128 ≤ b
    → b < 256
    → 128 ^ suc k ≤ v
    → parse_groups (v / 128 ^ suc k) b (groups k v ++ rest) ≡ ok (v, rest)
parse_groups-groups zero v b rest fits hi byte big =
    let step = parse_groups_step (v / 128) b (v % 128) rest hi byte (omega arith) (omega arith) in
    unfold groups in rw mask7 (ground (arith, step, parse_groups_last v (v % 128) rest))
parse_groups-groups (suc k) v b rest fits hi byte big =
    let q = v / 128 ^ suc k in
    let next : v / 128 ^ suc (suc k) ≡ q / 128 = next_group k v in
    let below : 128 ^ suc k ≤ v = omega (arith, big, pow-suc 128 (suc k)) in
    let small : q ≤ v = div-le_self v (128 ^ suc k) in
    let step =
      parse_groups_step (q / 128) b (128 + q % 128) (groups k v ++ rest) hi byte (omega arith)
        (omega arith) in
    let same : q / 128 * 128 + (128 + q % 128) % 128 ≡ q = omega arith in
    rw (groups_written k v below, next, step, same)
      (parse_groups-groups k v (128 + q % 128) rest fits (omega arith) (omega arith) below)

parse_integer-groups :
    (k v : ℕ) (rest : List ℕ)
    → IsU64 v
    → v < 128 ^ suc k
    → parse_integer (groups k v ++ rest) ≡ ok (v, rest)
parse_integer-groups zero v rest fits small =
    unfold groups parse_integer in simp mask7 (ground (arith, parse_groups_last v v rest))
parse_integer-groups (suc k) v rest fits small = elim (dec_lt v (128 ^ suc k)) [
  | yes below ↦ rw (groups_skipped k v below) (parse_integer-groups k v rest fits below)
  | no above ↦
      let q = v / 128 ^ suc k in
      let big : 128 ^ suc k ≤ v = omega arith in
      let one : q < 128 =
        (div-lt_iff_lt-mul (one-le-pow (suc k) 128 (omega arith))).1
          (omega (arith, small, pow-suc 128 (suc k))) in
      let whole : (128 + q % 128) % 128 ≡ q = omega arith in
      rw (groups_written k v big) (
        unfold parse_integer in
        rw (mask7 (128 + q % 128), whole)
          (parse_groups-groups k v (128 + q % 128) rest fits (omega arith) (omega arith) big))
]

-- Reading at what `ca_format_integer` wrote returns the 64-bit value, and stops behind it.
pub parse-format_integer :
    (v : ℕ) (rest : List ℕ) → IsU64 v → parse_integer (format_integer v ++ rest) ≡ ok (v, rest)
parse-format_integer v rest fits =
    rw (format_integer-groups v) (parse_integer-groups 9 v rest fits (omega arith))
