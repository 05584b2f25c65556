-- ===== src/Template.antt =====
-- Python's `string.Template`, as the source uses it: `safe_substitute`, which leaves alone what it
-- cannot fill in.
pub mod Laws
use relops_hardware_controll.Prelude.{
  ℕ, zero, suc, ◌+◌, String, ◌<>◌, ◌==◌, code, count, List, Bool, Option, none, some, eqb, leb,
  ◌||◌, ◌&&◌, is_empty, lookup, if◌then◌else◌, ◌≡◌, refl, ◌∷◌, [],
}

-- `[_a-z]` without regard to case, which takes four letters outside of ASCII too.
abbrev pub is_letter : ℕ → Bool
is_letter c =
    eqb c b'_'
    || (leb b'a' c && leb c b'z')
    || (leb b'A' c && leb c b'Z')
    || eqb c 0x130
    || eqb c 0x131
    || eqb c 0x17f
    || eqb c 0x212a

abbrev pub is_name_char : ℕ → Bool
is_name_char c = is_letter c || (leb b'0' c && leb c b'9')

-- The longest run of name characters.
unfoldable pub name_run : String → String
name_run String.[] = ""
name_run (String.◌∷◌ c s) =
    let rest = name_run s in if is_name_char (code c) then String.◌∷◌ c rest else ""

-- `[_a-z][_a-z0-9]*`, or the empty text.
unfoldable pub identifier : String → String
unfolding name_run
identifier String.[] = ""
identifier (String.◌∷◌ c s) = if is_letter (code c) then String.◌∷◌ c (name_run s) else ""

-- What stands behind a dollar sign.
pub data Token : Type 0 where
  escaped : Token
  named braced : String → Token
  invalid : Token

-- What is behind the first n characters begins with a closing brace.
unfoldable pub closes : ℕ → String → Bool
closes n String.[] = Bool.false
closes zero (String.◌∷◌ c s) = eqb (code c) b'}'
closes (suc n) (String.◌∷◌ c s) = closes n s

unfoldable pub braced_token : String → Token
unfolding identifier closes
braced_token s =
    let name = identifier s in
    if is_empty name then invalid else if closes (count name) s then braced name else invalid

unfoldable pub named_token : String → Token
unfolding identifier
named_token s = let name = identifier s in if is_empty name then invalid else named name

unfoldable pub token : String → Token
unfolding braced_token named_token is_empty
token String.[] = invalid
token (String.◌∷◌ c s) =
    if eqb (code c) b'$'
    then escaped
    else if eqb (code c) b'{'
    then braced_token s
    else named_token (String.◌∷◌ c s)

-- The characters of the token, without the dollar sign.
unfoldable pub width : Token → ℕ
width escaped = 1
width (named name) = count name
width (braced name) = count name + 2
width invalid = 0

abbrev pub or_else : Option String → String → String
or_else (some s) text = s
or_else none text = text

-- What takes the token's place: the value, or the text itself.
unfoldable pub convert : List (String × String) → Token → String
convert mapping escaped = "$"
convert mapping (named name) = or_else (lookup name mapping) ("$" <> name)
convert mapping (braced name) = or_else (lookup name mapping) ("${" <> name <> "}")
convert mapping invalid = "$"

-- The number counts the characters of a token that are still to be skipped.
unfoldable pub substitute_from : List (String × String) → ℕ → String → String
unfolding token width convert
substitute_from mapping n String.[] = ""
substitute_from mapping (suc n) (String.◌∷◌ c s) = substitute_from mapping n s
substitute_from mapping zero (String.◌∷◌ c s) =
    let filled = convert mapping (token s) <> substitute_from mapping (width (token s)) s in
    let kept = String.◌∷◌ c (substitute_from mapping zero s) in
    if eqb (code c) b'$' then filled else kept

unfoldable pub safe_substitute : List (String × String) → String → String
unfolding substitute_from
safe_substitute mapping template = substitute_from mapping 0 template

template_tests :
    (safe_substitute (("a", "1") ∷ ("b_2", "x") ∷ []) "$a-${b_2}$$ $c ${d} ${a $"
      ≡ "1-x$ $c ${d} ${a $")
    × (safe_substitute (("a", "$b") ∷ ("b", "x") ∷ []) "${a}b" ≡ "$bb")
unfolding safe_substitute
template_tests = (refl, refl)
