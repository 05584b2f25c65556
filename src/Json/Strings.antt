-- ===== src/Json/Strings.antt =====
-- The text of a JSON string, from behind its opening quote.
use relops_hardware_controll.Prelude.{
  ℕ, suc, ◌+◌, ◌-◌, ◌*◌, String, Char, code, Bool, Option, none, some, eqb, ltb, leb, ◌&&◌, ◌≡◌,
  refl, if◌then◌else◌,
}
use relops_hardware_controll.Json.Chars.{chr, hex_value}

-- Where the reader stands: between characters, behind a backslash, in `\uXXXX` with the digits that
-- are missing and the value so far, or behind a high surrogate, whose other half has to follow.
pub data Mode : Type 0 where
  plain escaped : Mode
  hex : (left value : ℕ) → Mode
  high high_escaped : (first : ℕ) → Mode
  low : (first left value : ℕ) → Mode

-- The character of a simple escape.
unfoldable pub unescape : ℕ → Option ℕ
unescape c =
    if eqb c b'"'
    then some b'"'
    else if eqb c b'\\'
    then some b'\\'
    else if eqb c b'/'
    then some b'/'
    else if eqb c b'b'
    then some 8
    else if eqb c b'f'
    then some 12
    else if eqb c b'n'
    then some 10
    else if eqb c b'r'
    then some 13
    else if eqb c b't'
    then some 9
    else none

-- What a character does: the text ends, it is refused, the mode changes, or a code point is read.
pub data Action : Type 0 where
  finish refuse : Action
  go : Mode → Action
  emit : ℕ → Action

unfoldable pub plain_action : ℕ → Action
plain_action c =
    if eqb c b'"'
    then finish
    else if eqb c b'\\'
    then go escaped
    else if ltb c 32
    then refuse
    else emit c

unfoldable pub escaped_action : ℕ → Action
unfolding unescape
escaped_action c =
    if eqb c b'u' then go (hex 4 0) else elim (unescape c) [ some d ↦ emit d | none ↦ refuse ]

abbrev pub is_high : ℕ → Bool
is_high n = leb 0xd800 n && leb n 0xdbff

abbrev pub is_low : ℕ → Bool
is_low n = leb 0xdc00 n && leb n 0xdfff

-- Behind the last digit of a first unit, and of a second one.
unfoldable pub unit_action : ℕ → Action
unit_action n = if is_high n then go (high n) else emit n

unfoldable pub pair_action : ℕ → ℕ → Action
pair_action first n =
    if is_low n then emit (0x10000 + (first - 0xd800) * 0x400 + (n - 0xdc00)) else refuse

unfoldable pub hex_action : ℕ → ℕ → Action
unfolding unit_action
hex_action left value = elim left [
  | suc (suc more) ↦ go (hex (suc more) value)
  | _ ↦ unit_action value
]

unfoldable pub low_action : ℕ → ℕ → ℕ → Action
unfolding pair_action
low_action first left value = elim left [
  | suc (suc more) ↦ go (low first (suc more) value)
  | _ ↦ pair_action first value
]

unfoldable pub action : Mode → ℕ → Action
unfolding plain_action escaped_action hex_action low_action hex_value
action plain c = plain_action c
action escaped c = escaped_action c
action (hex left value) c = elim (hex_value c) [
  | some d ↦ hex_action left (value * 16 + d)
  | none ↦ refuse
]
action (high first) c = if eqb c b'\\' then go (high_escaped first) else refuse
action (high_escaped first) c = if eqb c b'u' then go (low first 4 0) else refuse
action (low first left value) c = elim (hex_value c) [
  | some d ↦ low_action first left (value * 16 + d)
  | none ↦ refuse
]

abbrev pub push : Option Char → Option (String × String) → Option (String × String)
push (some c) (some (text, rest)) = some (String.◌∷◌ c text, rest)
push _ _ = none

-- The text, and what stands behind the closing quote.
unfoldable pub read_string : Mode → String → Option (String × String)
unfolding action chr
read_string mode String.[] = none
read_string mode (String.◌∷◌ c s) = elim (action mode (code c)) [
  | finish ↦ some ("", s)
  | refuse ↦ none
  | go mode' ↦ read_string mode' s
  | emit n ↦ push (chr n) (read_string plain s)
]

read_string_tests :
    (read_string plain "a\\u00e9\\\"\" rest" ≡ some ("aé\"", " rest"))
    × (read_string plain "\\ud83d\\ude00\"" ≡ some ("😀", ""))
    × (read_string plain "\\ud83dx\"" ≡ none)
    × (read_string plain "abc" ≡ none)
unfolding read_string
read_string_tests = (refl, refl, refl, refl)
