-- ===== src/Util.antt =====
-- Strings of src/util.h, src/output.cc and src/format.cc: `ToJSON`, `CA_output_json_string`, `Escape` and
-- `HasPrefix`. A string is the list of its bytes.
pub mod RoundTrip
pub mod Prefix
use cantera_table.Shared.{
  ℕ, zero, suc, ◌+◌, ◌-◌, ◌/◌, ◌%◌, List, [], ◌∷◌, ◌++◌, Bool, true, false, ◌&&◌, ltb, ◌==◌,
  if◌then◌else◌, length,
}
use cantera_table.Result.{Result, ok, err, overrun, ◌>>=◌}

-- kHexDigit[n]
unfoldable pub hex_digit : ℕ → ℕ
hex_digit n = if ltb n 10 then 48 + n else 87 + n

-- The switch of ToJSON, at one character: what is appended.
unfoldable pub json_char : ℕ → List ℕ
json_char ch =
    if ch == 92
    then 92 ∷ 92 ∷ []
    else if ch == 34
    then 92 ∷ 34 ∷ []
    else if ch == 7
    then 92 ∷ 97 ∷ []
    else if ch == 8
    then 92 ∷ 98 ∷ []
    else if ch == 9
    then 92 ∷ 116 ∷ []
    else if ch == 10
    then 92 ∷ 110 ∷ []
    else if ch == 11
    then 92 ∷ 118 ∷ []
    else if ch == 12
    then 92 ∷ 102 ∷ []
    else if ch == 13
    then 92 ∷ 114 ∷ []
    else if ltb ch 32
    then 92 ∷ 117 ∷ 48 ∷ 48 ∷ hex_digit (ch / 16) ∷ hex_digit (ch % 16) ∷ []
    else ch ∷ []

unfoldable pub json_chars : List ℕ → List ℕ
json_chars [] = []
json_chars (ch ∷ input) = json_char ch ++ json_chars input

-- ToJSON: what is appended to the output.
unfoldable pub to_json : List ℕ → List ℕ
to_json input = 34 ∷ (json_chars input ++ (34 ∷ []))

-- printf("\\u%04x", ch)
unfoldable pub print_unicode : ℕ → List ℕ
print_unicode ch =
    92
    ∷ 117
    ∷ hex_digit (ch / 4096 % 16)
    ∷ hex_digit (ch / 256 % 16)
    ∷ hex_digit (ch / 16 % 16)
    ∷ hex_digit (ch % 16)
    ∷ []

-- The switch of CA_output_json_string.
unfoldable pub output_json_char : ℕ → List ℕ
output_json_char ch =
    if ch == 92
    then 92 ∷ 92 ∷ []
    else if ch == 34
    then 92 ∷ 34 ∷ []
    else if ch == 7
    then 92 ∷ 97 ∷ []
    else if ch == 8
    then 92 ∷ 98 ∷ []
    else if ch == 9
    then 92 ∷ 116 ∷ []
    else if ch == 10
    then 92 ∷ 110 ∷ []
    else if ch == 11
    then 92 ∷ 118 ∷ []
    else if ch == 12
    then 92 ∷ 102 ∷ []
    else if ch == 13
    then 92 ∷ 114 ∷ []
    else if ltb ch 32
    then print_unicode ch
    else ch ∷ []

-- CA_output_json_string: what is written, with the `length` bytes from `string` on.
unfoldable pub output_json_chars : ℕ → List ℕ → Result (List ℕ)
output_json_chars zero string = ok []
output_json_chars (suc length) [] = err overrun
output_json_chars (suc length) (ch ∷ string) = do
  later ← output_json_chars length string
  ok (output_json_char ch ++ later)

unfoldable pub output_json_string : List ℕ → ℕ → Result (List ℕ)
output_json_string string length = do
  chars ← output_json_chars length string
  ok (34 ∷ (chars ++ (34 ∷ [])))

-- HasPrefix: std::equal(needle.begin(), needle.end(), haystack.begin()) where the haystack is long enough.
unfoldable pub equal_front : List ℕ → List ℕ → Bool
equal_front [] haystack = true
equal_front (n ∷ needle) [] = false
equal_front (n ∷ needle) (h ∷ haystack) = (n == h) && equal_front needle haystack

unfoldable pub has_prefix : List ℕ → List ℕ → Bool
has_prefix haystack needle =
    if ltb (length haystack) (length needle) then false else equal_front needle haystack

-- Escape
unfoldable pub escape_char : ℕ → List ℕ
escape_char ch =
    if ch == 92
    then 92 ∷ 92 ∷ []
    else if ch == 10
    then 92 ∷ 110 ∷ []
    else if ch == 13
    then 92 ∷ 114 ∷ []
    else if ch == 9
    then 92 ∷ 116 ∷ []
    else ch ∷ []

unfoldable pub escape : List ℕ → List ℕ
escape [] = []
escape (ch ∷ input) = escape_char ch ++ escape input
