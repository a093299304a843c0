-- ===== src/Integer/Lengths.antt =====
-- How many bytes src/format.cc `ca_format_integer` writes.
use cantera_table.Shared.{
  ℕ, ◌+◌, ◌^◌, ◌≤◌, ◌<◌, ◌≡◌, List, [], ◌∷◌, ◌++◌, Bool, true, false, ltb, if◌then◌else◌, length,
  length-append, arith,
}
use cantera_table.Integer.{marked_group, format_integer}

one_byte : (t : Bool) (x : ℕ) → length (if t then x ∷ [] else []) ≤ 1
one_byte true x = omega arith
one_byte false x = omega arith

marked_group-append :
    (limit bits v n : ℕ) (behind : List ℕ)
    → length behind ≤ n
    → length (marked_group limit bits v ++ behind) ≤ n + 1
unfolding marked_group
marked_group-append limit bits v n behind h =
    omega (arith, h, one_byte (ltb limit v) _, length-append (marked_group limit bits v) behind)

-- A number takes at most 10 bytes.
pub length-format_integer_le : (v : ℕ) → length (format_integer v) ≤ 10
unfolding format_integer
length-format_integer_le v = marked_group-append _ 63 v 9 _ (
    marked_group-append _ 56 v 8 _ (
      marked_group-append _ 49 v 7 _ (
        marked_group-append _ 42 v 6 _ (
          marked_group-append _ 35 v 5 _ (
            marked_group-append _ 28 v 4 _ (
              marked_group-append _ 21 v 3 _
                (marked_group-append _ 14 v 2 _ (marked_group-append _ 7 v 1 _ (omega arith)))))))))

marked_group-none :
    (limit bits v n : ℕ) (behind : List ℕ)
    → v ≤ limit
    → length behind ≤ n
    → length (marked_group limit bits v ++ behind) ≤ n
unfolding marked_group
marked_group-none limit bits v n behind low h =
    let f : ltb limit v ≡ false = ground (arith, low) in rw f h

-- A number below 2 ^ 14 takes at most 2 bytes.
pub length-format_integer_small : (v : ℕ) → v < 2 ^ 14 → length (format_integer v) ≤ 2
unfolding format_integer
length-format_integer_small v h = marked_group-none _ 63 v 2 _ (omega (arith, h)) (
    marked_group-none _ 56 v 2 _ (omega (arith, h)) (
      marked_group-none _ 49 v 2 _ (omega (arith, h)) (
        marked_group-none _ 42 v 2 _ (omega (arith, h)) (
          marked_group-none _ 35 v 2 _ (omega (arith, h)) (
            marked_group-none _ 28 v 2 _ (omega (arith, h)) (
              marked_group-none _ 21 v 2 _ (omega (arith, h)) (
                marked_group-none _ 14 v 2 _ (omega (arith, h))
                  (marked_group-append _ 7 v 1 _ (omega arith)))))))))
