-- ===== src/Json/Reader.antt =====
-- `json.loads`. Each call costs a unit of fuel; the text's length and one more is enough, since
-- between two calls a character is read.
use relops_hardware_controll.Prelude.{
  ℕ, zero, suc, ◌+◌, ◌*◌, ◌==◌, String, code, count, drop, starts_with, Bool, true, false, Option,
  none, some, eqb, ◌||◌, if◌then◌else◌, ◌≡◌, refl,
}
use relops_hardware_controll.Json.Value.{
  Value, Items, Fields, null, bool, num, str, array, object, no_items, item, no_fields, field,
}
use relops_hardware_controll.Json.Strings.{read_string, plain}
use relops_hardware_controll.Json.Numbers.{number}

abbrev pub Parser : Type 0 → Type 0
Parser A = String → Option (A × String)

abbrev pub behind : {A B : Type 0} → Option (A × String) → (A → Parser B) → Option (B × String)
behind (some (a, rest)) f = f a rest
behind none f = none

infixl 1 ◌>>=◌ ◌>>◌
abbrev pub ◌>>=◌ : {A B : Type 0} → Parser A → (A → Parser B) → Parser B
◌>>=◌ p f s = behind (p s) f

abbrev pub ◌>>◌ : {A B : Type 0} → Parser A → Parser B → Parser B
p >> q = p >>= λ _. q

abbrev pub pure : {A : Type 0} → A → Parser A
pure a s = some (a, s)

abbrev pub is_space : ℕ → Bool
is_space c = eqb c 32 || eqb c 9 || eqb c 10 || eqb c 13

unfoldable pub skip_spaces : String → String
skip_spaces String.[] = ""
skip_spaces (String.◌∷◌ c s) =
    let rest = skip_spaces s in if is_space (code c) then rest else String.◌∷◌ c s

unfoldable pub spaces : Parser (Unit {0})
unfolding skip_spaces
spaces s = some (tt, skip_spaces s)

-- The next character, if it is this one.
unfoldable pub expect : ℕ → Parser (Unit {0})
expect d String.[] = none
expect d (String.◌∷◌ c s) = if eqb (code c) d then some (tt, s) else none

unfoldable pub is_next : ℕ → String → Bool
is_next d String.[] = false
is_next d (String.◌∷◌ c s) = eqb (code c) d

-- What begins with none of `"`, `{` and `[`. Python reads three names that JSON lacks.
unfoldable pub constant : Parser Value
unfolding drop number
constant s =
    if starts_with s "null"
    then some (null, drop 4 s)
    else if starts_with s "true"
    then some (bool true, drop 4 s)
    else if starts_with s "false"
    then some (bool false, drop 5 s)
    else if starts_with s "NaN"
    then some (num "nan", drop 3 s)
    else if starts_with s "Infinity"
    then some (num "inf", drop 8 s)
    else if starts_with s "-Infinity"
    then some (num "-inf", drop 9 s)
    else elim (number s) [ some (literal, rest) ↦ some (num literal, rest) | none ↦ none ]

abbrev run : {A : Type 0} → String → Parser A → Option (A × String)
run s p = p s

-- The character that tells what a value is.
pub data Opening : Type 0 where
  quote brace bracket other : Opening

unfoldable pub opening : String → Opening
opening String.[] = other
opening (String.◌∷◌ c s) =
    if eqb (code c) b'"'
    then quote
    else if eqb (code c) b'{'
    then brace
    else if eqb (code c) b'['
    then bracket
    else other

unfoldable pub separator : Bool → Parser (Unit {0})
unfolding expect spaces
separator true = pure tt
separator false = expect b',' >> spaces

-- A key and a value, and the members behind them.
unfoldable pub read_member : Parser Value → Parser Fields → Parser Fields
unfolding read_string expect spaces
read_member value_parser fields_parser = do
  expect b'"'
  key ← read_string plain
  spaces
  expect b':'
  spaces
  value ← value_parser
  spaces
  fields ← fields_parser
  pure (field key value fields)

unfoldable mutual
  unfolding opening constant read_string is_next expect spaces separator read_member

  pub read_value : ℕ → Parser Value
  read_value zero s = none
  read_value (suc f) s = elim (opening s) [
    | quote ↦ run (drop 1 s) do pure (str (← read_string plain))
    | brace ↦ run (skip_spaces (drop 1 s)) do pure (object (← read_fields f true))
    | bracket ↦ run (skip_spaces (drop 1 s)) do pure (array (← read_items f true))
    | other ↦ constant s
  ]

  -- From a member, or from the closing brace: the first call may find it, a later one finds a comma
  -- in its place.
  pub read_fields : ℕ → Bool → Parser Fields
  read_fields zero first s = none
  read_fields (suc f) first s = elim (is_next b'}' s) [
    | true ↦ some (no_fields, drop 1 s)
    | false ↦ (separator first >> read_member (read_value f) (read_fields f false)) s
  ]

  pub read_items : ℕ → Bool → Parser Items
  read_items zero first s = none
  read_items (suc f) first s = elim (is_next b']' s) [
    | true ↦ some (no_items, drop 1 s)
    | false ↦ run s do
      separator first
      value ← read_value f
      spaces
      items ← read_items f false
      pure (item value items)
  ]

-- Nothing but spaces may stand behind the value.
unfoldable pub finished : Option (Value × String) → Option Value
unfolding skip_spaces
finished (some (value, rest)) = if skip_spaces rest == "" then some value else none
finished none = none

unfoldable pub loads : String → Option Value
unfolding read_value read_fields read_items finished
loads text = finished (read_value (2 * count text + 2) (skip_spaces text))

loads_tests :
    (loads " {\"a\" : [1, -2.5, null] , \"b\": {}, \"c\":\"x\"}\n"
      ≡ some (
          object (
            field "a"
              (array (item (num "1") (item (num "-2.5") (item null no_items))))
              (field "b" (object no_fields) (field "c" (str "x") no_fields)))))
    × (loads "[1,]" ≡ none)
    × (loads "{\"a\":1,}" ≡ none)
    × (loads "[] x" ≡ none)
    × (loads "tru" ≡ none)
unfolding loads
loads_tests = (refl, refl, refl, refl, refl)
