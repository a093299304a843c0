-- ===== src/Util/RoundTrip.antt =====
-- Readers of the strings that src/util.h `ToJSON` and src/format.cc `Escape` write.
use cantera_table.Shared.{
  ℕ, zero, suc, ◌+◌, ◌-◌, ◌*◌, ◌<◌, ◌≡◌, ◌≢◌, refl, List, [], ◌∷◌, ◌++◌, Option, none, some, Bool,
  true, false, ltb, leb, ◌==◌, ◌&&◌, if◌then◌else◌, All, append_assoc, arith,
}
use cantera_table.Util.{hex_digit, json_char, json_chars, to_json, escape_char, escape}

abbrev pub cons : ℕ → Option (List ℕ × List ℕ) → Option (List ℕ × List ℕ)
cons ch none = none
cons ch (some p) = some (ch ∷ p.0, p.1)

-- The character of an escape sequence of one letter in JSON (RFC 8259).
abbrev pub json_letter : ℕ → Option ℕ
json_letter b =
    if b == 34
    then some 34
    else if b == 92
    then some 92
    else if b == 47
    then some 47
    else if b == 98
    then some 8
    else if b == 102
    then some 12
    else if b == 110
    then some 10
    else if b == 114
    then some 13
    else if b == 116
    then some 9
    else none

abbrev pub hex_value : ℕ → Option ℕ
hex_value b =
    if leb 48 b && leb b 57
    then some (b - 48)
    else if leb 97 b && leb b 102
    then some (b - 87)
    else none

-- Where a reader of JSON stands in a string.
pub data State : Type 0 where
  plain escaped : State
  unicode : ℕ → ℕ → State

-- A reader of a JSON string behind its first quotation mark: its characters below 256, and what follows it.
unfoldable pub read_json : State → List ℕ → Option (List ℕ × List ℕ)
read_json state [] = none
read_json State.plain (b ∷ rest) =
    let escape = read_json State.escaped rest in
    let later = cons b (read_json State.plain rest) in
    if b == 34
    then some ([], rest)
    else if b == 92
    then escape
    else if ltb b 32
    then none
    else later
read_json State.escaped (b ∷ rest) =
    let code = read_json (State.unicode 3 0) rest in
    let later = read_json State.plain rest in
    if b == 117 then code else elim (json_letter b) [ none ↦ none | some ch ↦ cons ch later ]
read_json (State.unicode zero v) (b ∷ rest) =
    let later = read_json State.plain rest in
    elim (hex_value b) [
      | none ↦ none
      | some d ↦ if ltb (16 * v + d) 256 then cons (16 * v + d) later else none
    ]
read_json (State.unicode (suc n) v) (b ∷ rest) = elim (hex_value b) [
  | none ↦ none
  | some d ↦ read_json (State.unicode n (16 * v + d)) rest
]

json_char-read :
    (ch : ℕ) (rest : List ℕ)
    → ch < 256
    → ch ≢ 7
    → ch ≢ 11
    → read_json State.plain (json_char ch ++ rest) ≡ cons ch (read_json State.plain rest)
unfolding json_char hex_digit read_json
json_char-read ch rest fits bell tab = ground arith

-- A JSON string.
unfoldable pub read_string : List ℕ → Option (List ℕ × List ℕ)
read_string [] = none
read_string (b ∷ rest) = if b == 34 then read_json State.plain rest else none

-- A byte other than \a and \v, for which JSON has no escape sequence of one letter.
abbrev pub InJson : ℕ → Type 0
InJson ch = (ch < 256) × (ch ≢ 7) × (ch ≢ 11)

json_chars-read :
    (input rest : List ℕ)
    → All InJson input
    → read_json State.plain (json_chars input ++ (34 ∷ rest)) ≡ some (input, rest)
unfolding json_chars read_json
json_chars-read [] rest h = refl
json_chars-read (ch ∷ input) rest h = rw (
  append_assoc (json_char ch) (json_chars input) (34 ∷ rest),
  json_char-read ch (json_chars input ++ (34 ∷ rest)) h.0.0 h.0.1 h.0.2,
  json_chars-read input rest h.1,
)

-- What ToJSON appends for a string without \a and \v is a JSON string, and reads as the string, whatever follows
-- it.
pub read_string-to_json :
    (input rest : List ℕ)
    → All InJson input
    → read_string (to_json input ++ rest) ≡ some (input, rest)
unfolding to_json read_string
read_string-to_json input rest h =
    rw (append_assoc (json_chars input) (34 ∷ []) rest) (json_chars-read input rest h)

-- A reader of escaped text, plain or behind a backslash.
unfoldable pub read_escaped : Bool → List ℕ → Option (List ℕ)
read_escaped false [] = some []
read_escaped true [] = none
read_escaped false (b ∷ rest) =
    let code = read_escaped true rest in
    let later = read_escaped false rest in
    if b == 92 then code else elim later [ none ↦ none | some s ↦ some (b ∷ s) ]
read_escaped true (b ∷ rest) =
    let later = read_escaped false rest in
    let ch = if b == 110 then 10 else if b == 114 then 13 else if b == 116 then 9 else b in
    elim later [ none ↦ none | some s ↦ some (ch ∷ s) ]

-- The text that Escape makes of a string reads as the string.
pub read_escaped-escape : (input : List ℕ) → read_escaped false (escape input) ≡ some input
unfolding escape escape_char read_escaped
read_escaped-escape [] = refl
read_escaped-escape (ch ∷ input) = ground (arith, read_escaped-escape input)
