-- ===== src/Json/Numbers.antt =====
-- The literal of a number: `(-?(?:0|[1-9]\d*))(\.\d+)?([eE][-+]?\d+)?`.
use relops_hardware_controll.Prelude.{
  ℕ, String, ◌<>◌, code, Bool, Option, none, some, eqb, leb, ◌&&◌, ◌||◌, if◌then◌else◌, is_empty,
  ◌≡◌, refl,
}

abbrev pub is_digit : ℕ → Bool
is_digit c = leb b'0' c && leb c b'9'

-- The digits at the front, and the rest.
unfoldable pub digits : String → String × String
digits String.[] = ("", "")
digits (String.◌∷◌ c s) =
    let (front, rest) = digits s in
    if is_digit (code c) then (String.◌∷◌ c front, rest) else ("", String.◌∷◌ c s)

-- The first character if it passes a test, and the rest.
unfoldable pub optional : (ℕ → Bool) → String → String × String
optional p String.[] = ("", "")
optional p (String.◌∷◌ c s) = if p (code c) then (String.◌∷◌ c "", s) else ("", String.◌∷◌ c s)

-- `0|[1-9]\d*`
unfoldable pub whole : String → Option (String × String)
unfolding digits
whole String.[] = none
whole (String.◌∷◌ c s) =
    let (more, rest) = digits s in
    if eqb (code c) b'0'
    then some ("0", s)
    else if is_digit (code c)
    then some (String.◌∷◌ c more, rest)
    else none

-- A part that is there only with a digit or more behind its sign.
unfoldable pub with_digits : String → String → String → String × String
unfolding digits is_empty
with_digits sign s otherwise =
    let (front, rest) = digits s in
    if is_empty front then ("", otherwise) else (sign <> front, rest)

unfoldable pub fraction : String → String × String
unfolding with_digits
fraction (String.◌∷◌ c s) =
    if eqb (code c) b'.' then with_digits "." s (String.◌∷◌ c s) else ("", String.◌∷◌ c s)
fraction String.[] = ("", "")

unfoldable pub exponent : String → String × String
unfolding with_digits optional
exponent (String.◌∷◌ c s) =
    let (sign, rest) = optional (λ d. eqb d b'+' || eqb d b'-') s in
    if eqb (code c) b'e' || eqb (code c) b'E'
    then with_digits (String.◌∷◌ c sign) rest (String.◌∷◌ c s)
    else ("", String.◌∷◌ c s)
exponent String.[] = ("", "")

unfoldable pub number : String → Option (String × String)
unfolding optional whole fraction exponent
number s =
    let (sign, rest) = optional (λ c. eqb c b'-') s in
    elim (whole rest) [
      | none ↦ none
      | some (int, behind) ↦
          let (frac, behind') = fraction behind in
          let (exp, behind'') = exponent behind' in some (sign <> int <> frac <> exp, behind'')
    ]

number_tests :
    (number "-12.50e+3," ≡ some ("-12.50e+3", ","))
    × (number "01" ≡ some ("0", "1"))
    × (number "1.x" ≡ some ("1", ".x"))
    × (number "-" ≡ none)
unfolding number
number_tests = (refl, refl, refl, refl)
