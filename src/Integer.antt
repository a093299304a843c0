-- ===== src/Integer.antt =====
-- src/format.cc `ca_format_integer` and src/parse.cc `ca_parse_integer`: unsigned 64-bit integers
-- in 1 to 10 bytes of seven bits, highest group first, with the top bit set on all but the last.
-- A pointer into a buffer is the list of the bytes from it on.
pub mod RoundTrip
pub mod Progress
pub mod Lengths
use Prim.Native.Nat.{bit_and, bit_or}
use cantera_table.Shared.{ℕ, ◌<◌, ◌^◌, List, [], ◌∷◌, ◌++◌, ltb, ◌==◌, if◌then◌else◌}
use cantera_table.Shared.Words.{u8, u64, shl, shr}
use cantera_table.Result.{Result, ok, err, overrun}

abbrev pub IsU64 : ℕ → Type 0
IsU64 v = v < 2 ^ 64

-- if (value > limit) *p++ = 0x80 | (value >> bits);
pub marked_group : ℕ → ℕ → ℕ → List ℕ
marked_group limit bits value =
    if ltb limit value then u8 (bit_or 0x80 (shr value bits)) ∷ [] else []

-- The bytes that are written at `*output`.
pub format_integer : ℕ → List ℕ
unfolding marked_group
format_integer value =
    marked_group 0x7fff_ffff_ffff_ffff 63 value
    ++ (marked_group 0xff_ffff_ffff_ffff 56 value
        ++ (marked_group 0x1_ffff_ffff_ffff 49 value
            ++ (marked_group 0x3ff_ffff_ffff 42 value
                ++ (marked_group 0x7_ffff_ffff 35 value
                    ++ (marked_group 0xfff_ffff 28 value
                        ++ (marked_group 0x1f_ffff 21 value
                            ++ (marked_group 0x3fff 14 value
                                ++ (marked_group 0x7f 7 value ++ (bit_and value 0x7f ∷ [])))))))))

-- The loop, at the byte `b` that was read last and with the bytes behind it.
unfoldable pub parse_groups : ℕ → ℕ → List ℕ → Result (ℕ × List ℕ)
parse_groups result b [] = if bit_and b 0x80 == 0 then ok (result, []) else err overrun
parse_groups result b (b' ∷ rest) =
    let more = parse_groups (bit_or (u64 (shl result 7)) (bit_and b' 0x7f)) b' rest in
    if bit_and b 0x80 == 0 then ok (result, b' ∷ rest) else more

-- The value, and the bytes from the advanced pointer on.
unfoldable pub parse_integer : List ℕ → Result (ℕ × List ℕ)
unfolding parse_groups
parse_integer [] = err overrun
parse_integer (b ∷ rest) = parse_groups (bit_and b 0x7f) b rest
