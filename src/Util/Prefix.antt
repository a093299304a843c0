-- ===== src/Util/Prefix.antt =====
-- `CA_output_json_string` of src/output.cc against `ToJSON`, and `HasPrefix` of src/util.h.
use cantera_table.Shared.{
  ℕ, ◌≡◌, ◌↔◌, refl, List, [], ◌∷◌, ◌++◌, true, false, ltb, ◌==◌, if◌then◌else◌, length,
  length-append, Bool-cases, inl, inr, arith,
}
use cantera_table.Result.{ok}
use cantera_table.Util.{
  hex_digit, json_char, json_chars, to_json, print_unicode, output_json_char, output_json_chars,
  output_json_string, equal_front, has_prefix,
}

output_json_char-json_char : (ch : ℕ) → output_json_char ch ≡ json_char ch
unfolding output_json_char json_char print_unicode hex_digit
output_json_char-json_char ch = ground arith

output_json_chars-json_chars :
    (input rest : List ℕ) → output_json_chars (length input) (input ++ rest) ≡ ok (json_chars input)
unfolding output_json_chars json_chars
output_json_chars-json_chars [] rest = refl
output_json_chars-json_chars (ch ∷ input) rest =
    rw (output_json_chars-json_chars input rest, output_json_char-json_char ch)

-- CA_output_json_string, given the length of a string at the front of a buffer, prints what ToJSON appends for the
-- string.
pub output_json_string-to_json :
    (input rest : List ℕ) → output_json_string (input ++ rest) (length input) ≡ ok (to_json input)
unfolding output_json_string to_json
output_json_string-to_json input rest = rw (output_json_chars-json_chars input rest)

equal_front-append : (needle rest : List ℕ) → equal_front needle (needle ++ rest) ≡ true
unfolding equal_front
equal_front-append [] rest = refl
equal_front-append (n ∷ needle) rest = ground (arith, equal_front-append needle rest)

equal_front-split :
    (needle haystack : List ℕ)
    → equal_front needle haystack ≡ true
    → (rest : List ℕ) × (haystack ≡ needle ++ rest)
unfolding equal_front
equal_front-split [] haystack h = (haystack, refl)
equal_front-split (n ∷ needle) [] h = absurd cc
equal_front-split (n ∷ needle) (c ∷ haystack) h = elim (Bool-cases (n == c)) [
  | inl t ↦
      let same : n ≡ c = ground (arith, t) in
      let r = equal_front-split needle haystack (rw t at h) in (r.0, rw (same, r.1))
  | inr f ↦ absurd (let g : false ≡ true = rw f at h in cc)
]

-- HasPrefix holds of a string and a needle exactly if the string is the needle and something behind it.
pub has_prefix_iff :
    (haystack needle : List ℕ)
    → (has_prefix haystack needle ≡ true) ↔ ((rest : List ℕ) × (haystack ≡ needle ++ rest))
unfolding has_prefix
has_prefix_iff haystack needle = (there, back)
  where
    there :
        (if ltb (length haystack) (length needle) then false else equal_front needle haystack)
          ≡ true
        → (rest : List ℕ) × (haystack ≡ needle ++ rest)
    there h = elim (Bool-cases (ltb (length haystack) (length needle))) [
      | inl t ↦ absurd (let g : false ≡ true = rw t at h in cc)
      | inr f ↦ equal_front-split needle haystack (rw f at h)
    ]

    back :
        ((rest : List ℕ) × (haystack ≡ needle ++ rest))
        → (if ltb (length haystack) (length needle) then false else equal_front needle haystack)
          ≡ true
    back p =
        let enough : ltb (length (needle ++ p.0)) (length needle) ≡ false =
          ground (arith, length-append needle p.0) in
        rw (p.1, enough) (equal_front-append needle p.0)
