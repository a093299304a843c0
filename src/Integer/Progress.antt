-- ===== src/Integer/Progress.antt =====
-- How far src/parse.cc `ca_parse_integer` advances.
use Prim.Native.Nat.{bit_and, bit_or}
use cantera_table.Shared.{ℕ, List, [], ◌∷◌, length, ◌==◌, arith}
use cantera_table.Shared.Words.{u64, shl}
use cantera_table.Result.{ok, err, overrun}
use cantera_table.Result.Progress.{Reads, Reads-if, Reads-le}
use cantera_table.Integer.{parse_groups, parse_integer}

parse_groups-Reads : (r b : ℕ) (input : List ℕ) → Reads (length input) (parse_groups r b input)
unfolding parse_groups
parse_groups-Reads r b [] =
    Reads-if 0 (bit_and b 0x80 == 0) (ok (r, [])) (err overrun) (omega arith) tt
parse_groups-Reads r b (b' ∷ rest) =
    let r' = bit_or (u64 (shl r 7)) (bit_and b' 0x7f) in
    Reads-if (length (b' ∷ rest)) (bit_and b 0x80 == 0) (ok (r, b' ∷ rest))
      (parse_groups r' b' rest) (omega arith)
      (Reads-le (length rest) (length (b' ∷ rest)) (parse_groups r' b' rest) (omega arith)
        (parse_groups-Reads r' b' rest))

pub parse_integer-Reads : (input : List ℕ) → Reads (length input) (parse_integer input)
unfolding parse_integer
parse_integer-Reads [] = tt
parse_integer-Reads (b ∷ rest) =
    Reads-le (length rest) (length (b ∷ rest)) (parse_groups (bit_and b 0x7f) b rest) (omega arith)
      (parse_groups-Reads (bit_and b 0x7f) b rest)
