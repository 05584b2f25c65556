-- ===== src/Argparse/Tokens.antt =====
-- The arguments that a parser knows, and how it reads a text as a token.
use relops_hardware_controll.Prelude.{
  String, code, count, take, drop, List, [], ◌∷◌, ◌++◌, Option, none, some, Bool, true, false, ◌&&◌,
  ◌||◌, ◌==◌, leb, eqb, all_chars, contains, includes, chomp, split, starts_with, if◌then◌else◌,
}
use relops_hardware_controll.Argparse.Numbers.{is_digit}

-- The argument `type`.
pub data Kind : Type 0 where
  text number json : Kind

-- An argument without a dash; `many` for `nargs='+'`.
pub record Positional : Type 0 where
  pub dest : String
  pub kind : Kind
  pub many : Bool

-- An argument with dashes; one that takes no value is a flag.
pub record Optional : Type 0 where
  pub flags : List String
  pub dest : String
  pub kind : Kind
  pub required : Bool
  pub takes : Bool

pub record Parser : Type 0 where
  pub positionals : List Positional
  pub options : List Optional

-- `add_argument(flag, dest=dest, type=kind)`, without and with `required=True`, and
-- `add_argument(dest, type=kind)`.
abbrev pub optional_option : String → String → Kind → Optional
optional_option flag dest kind = record {
  flags = flag ∷ [];
  dest = dest;
  kind = kind;
  required = false;
  takes = true;
}

abbrev pub required_option : String → String → Optional
required_option flag dest = record {
  flags = flag ∷ [];
  dest = dest;
  kind = text;
  required = true;
  takes = true;
}

abbrev pub positional_of : String → Kind → Positional
positional_of dest kind = record { dest = dest; kind = kind; many = false }

pub data Token : Type 0 where
  word : String → Token
  -- the first `--`
  dashes : Token
  -- an option, with what stands behind it in the same text
  known : Optional → Option String → Token
  unknown : String → Token

-- Why the texts are refused.
pub data ParseError : Type 0 where
  ambiguous : String → ParseError
  no_value : (dest : String) → ParseError
  not_a_flag invalid : (dest value : String) → ParseError
  missing extra : List String → ParseError

pub data Checked (A : Type 0) : Type 0 where
  ok : A → Checked A
  refused : ParseError → Checked A

infixl 5 ◌>>=◌
abbrev pub ◌>>=◌ : {A B : Type 0} → Checked A → (A → Checked B) → Checked B
ok a >>= f = f a
refused e >>= f = refused e

unfoldable pub find_option : List Optional → String → Option Optional
find_option [] flag = none
find_option (o ∷ os) flag = if contains o.flags flag then some o else find_option os flag

-- `s.split('=', 1)`, if there is an equals sign.
unfoldable pub split_equals : String → Option (String × String)
split_equals String.[] = none
split_equals (String.◌∷◌ c s) =
    let rest = split_equals s in
    if eqb (code c) b'='
    then some ("", s)
    else elim rest [ some (name, value) ↦ some (String.◌∷◌ c name, value) | none ↦ none ]

-- A flag that the text abbreviates, or that begins it: the option, and the value that it is given.
abbrev pub Candidate : Type 0
Candidate = Optional × Option String

-- Behind two dashes: an abbreviation, with an equals sign or without.
abbrev pub prefix_of : String → String × Option String
unfolding split_equals
prefix_of s = elim (split_equals s) [ some (name, value) ↦ (name, some value) | none ↦ (s, none) ]

unfoldable pub candidate : Optional → String → String → List Candidate
unfolding take drop prefix_of
candidate o flag s =
    if starts_with s "--"
    then (if starts_with flag (prefix_of s).0 then (o, (prefix_of s).1) ∷ [] else [])
    else if flag == take 2 s
    then (o, some (drop 2 s)) ∷ []
    else (if starts_with flag s then (o, none) ∷ [] else [])

unfoldable pub flag_candidates : Optional → List String → String → List Candidate
unfolding candidate
flag_candidates o [] s = []
flag_candidates o (flag ∷ flags) s = candidate o flag s ++ flag_candidates o flags s

unfoldable pub candidates : List Optional → String → List Candidate
unfolding flag_candidates
candidates [] s = []
candidates (o ∷ os) s = flag_candidates o o.flags s ++ candidates os s

abbrev pub are_digits : String → Bool
unfolding all_chars
are_digits s = all_chars is_digit s && leb 1 (count s)

-- `^-\d+$|^-\d*\.\d+$`
unfoldable pub is_negative : String → Bool
unfolding all_chars split chomp drop
is_negative s = starts_with s "-" && elim (split b'.' (chomp (drop 1 s))) [
  | whole ∷ [] ↦ are_digits whole
  | whole ∷ decimals ∷ [] ↦ all_chars is_digit whole && are_digits decimals
  | _ ↦ false
]

-- No flag is that exact text.
unfoldable pub guess : List Optional → String → Checked Token
unfolding candidates is_negative includes
guess os s = elim (candidates os s) [
  | [] ↦ ok (if is_negative s || includes " " s then word s else unknown s)
  | (o, value) ∷ [] ↦ ok (known o value)
  | _ ∷ _ ∷ _ ↦ refused (ambiguous s)
]

unfoldable pub dashed : List Optional → String → Checked Token
unfolding find_option split_equals guess
dashed os s = elim (find_option os s) [
  | some o ↦ ok (known o none)
  | none ↦ if s == "-" then ok (word s) else elim (split_equals s) [
    | some (name, value) ↦ elim (find_option os name) [
      | some o ↦ ok (known o (some value))
      | none ↦ guess os s
    ]
    | none ↦ guess os s
  ]
]

unfoldable pub is_dashed : String → Bool
is_dashed String.[] = false
is_dashed (String.◌∷◌ c s) = eqb (code c) b'-'

unfoldable pub classify : List Optional → String → Checked Token
unfolding is_dashed dashed
classify os s = if is_dashed s then dashed os s else ok (word s)

unfoldable pub words_of : List String → List Token
words_of [] = []
words_of (s ∷ ss) = word s ∷ words_of ss

-- Behind `--` every text is a word.
unfoldable pub classify_all : List Optional → List String → Checked (List Token)
unfolding classify words_of
classify_all os [] = ok []
classify_all os (s ∷ ss) =
    let rest = classify_all os ss in
    if s == "--"
    then ok (dashes ∷ words_of ss)
    else (do token ← classify os s; tokens ← rest; ok (token ∷ tokens))
