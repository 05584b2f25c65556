-- ===== src/Argparse/Numbers.antt =====
-- Python's `int` on a text, for numbers from zero on.
use relops_hardware_controll.Prelude.{
  ℕ, ◌+◌, ◌*◌, ◌-◌, String, code, Option, none, some, Bool, true, false, ◌&&◌, ◌||◌, leb, eqb,
  all_chars, if◌then◌else◌, ◌≡◌, refl,
}

-- ASCII's white space.
abbrev pub is_blank : ℕ → Bool
is_blank c = (leb 9 c && leb c 13) || (leb 28 c && leb c 32)

abbrev pub is_digit : ℕ → Bool
is_digit c = leb b'0' c && leb c b'9'

-- The digits, between two of which one underscore may stand, and blanks behind them; `ready` behind a
-- digit.
unfoldable pub read_digits : Bool → ℕ → String → Option ℕ
unfolding all_chars
read_digits ready acc String.[] = if ready then some acc else none
read_digits ready acc (String.◌∷◌ c s) =
    let digit = read_digits true (acc * 10 + (code c - b'0')) s in
    let underscore = read_digits false acc s in
    if is_digit (code c)
    then digit
    else if ready
    then (if eqb (code c) b'_'
        then underscore
        else (if is_blank (code c) && all_chars is_blank s then some acc else none))
    else none

unfoldable pub skip_blanks : String → String
skip_blanks String.[] = ""
skip_blanks (String.◌∷◌ c s) =
    let rest = skip_blanks s in if is_blank (code c) then rest else String.◌∷◌ c s

-- A number below zero gives none.
abbrev pub zero_only : Option ℕ → Option ℕ
zero_only (some ℕ.zero) = some 0
zero_only _ = none

unfoldable pub read_signed : String → Option ℕ
unfolding read_digits
read_signed String.[] = none
read_signed (String.◌∷◌ c s) =
    if eqb (code c) b'+'
    then read_digits false 0 s
    else if eqb (code c) b'-'
    then zero_only (read_digits false 0 s)
    else read_digits false 0 (String.◌∷◌ c s)

unfoldable pub read_int : String → Option ℕ
unfolding skip_blanks read_signed
read_int s = read_signed (skip_blanks s)

number_tests :
    (read_int " 1_20 " ≡ some 120)
    × (read_int "+5" ≡ some 5)
    × (read_int "-0" ≡ some 0)
    × (read_int "-5" ≡ none)
    × (read_int "1 2" ≡ none)
    × (read_int "" ≡ none)
    × (read_int "0x1" ≡ none)
    × (read_int "1_" ≡ none)
unfolding read_int
number_tests = (refl, refl, refl, refl, refl, refl, refl, refl)
