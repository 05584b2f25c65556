-- ===== src/Argparse.antt =====
-- Python's `argparse`, as the source uses it: positional arguments that take one text or, at the end,
-- all that follow; options that take a value or are flags; and the types `str`, `int` and
-- `json.loads`. The options for help and version are not among them.
pub mod Numbers
pub mod Tokens
pub mod Laws
pub use Tokens.{
  Kind, text, number, json, Positional, Optional, Parser, Token, word, dashes, known, unknown,
  ParseError, ambiguous, no_value, not_a_flag, invalid, missing, extra, Checked, ok, refused,
}
unfoldable pub use Tokens.{required_option, optional_option, positional_of, classify_all, ◌>>=◌}
use relops_hardware_controll.Prelude.{
  ℕ, String, List, [], ◌∷◌, ◌++◌, Option, none, some, Bool, true, false, not, map, lookup, contains,
  if◌then◌else◌, ◌≡◌, refl,
}
use relops_hardware_controll.Json.Value.{Value}
use relops_hardware_controll.Json.Reader.{loads}
use relops_hardware_controll.Argparse.Numbers.{read_int}

-- The value of an argument, converted to its type.
pub data Parsed : Type 0 where
  text_value : String → Parsed
  number_value : ℕ → Parsed
  json_value : Value → Parsed
  words : List String → Parsed
  flag : Parsed

-- The attributes that were set, the latest first.
abbrev pub Namespace : Type 0
Namespace = List (String × Parsed)

unfoldable pub convert : Kind → String → String → Checked Parsed
unfolding loads read_int
convert text dest s = ok (text_value s)
convert number dest s = elim (read_int s) [
  | some n ↦ ok (number_value n)
  | none ↦ refused (invalid dest s)
]
convert json dest s = elim (loads s) [
  | some v ↦ ok (json_value v)
  | none ↦ refused (invalid dest s)
]

-- The state between two tokens: the positional arguments that are still to be filled, the words of
-- the one that is taking all that follow, the option that waits for its value, and the texts that
-- nothing takes. `just_taken` behind a text that a positional argument took.
pub record Progress : Type 0 where
  pub left : List Positional
  pub taking : Option (String × List String)
  pub just_taken : Bool
  pub waiting : Option Optional
  pub values : Namespace
  pub extras : List String

abbrev pub set_value : Progress → String → Parsed → Progress
set_value p dest v = record p { values = (dest, v) ∷ p.values }

-- A text that is no option, where no option waits for a value.
unfoldable pub take_word : Progress → String → Checked Progress
unfolding convert
take_word p s = elim p.taking [
  | some (dest, ws) ↦ ok (record p { taking = some (dest, ws ++ (s ∷ [])) })
  | none ↦ elim p.left [
    | [] ↦ ok (record p { just_taken = false; extras = p.extras ++ (s ∷ []) })
    | a ∷ left ↦
        if a.many then ok (record p { left = left; taking = some (a.dest, s ∷ []) }) else (do
          v ← convert a.kind a.dest s
          ok (set_value (record p { left = left; just_taken = true }) a.dest v))
  ]
]

-- What was taken so far is all, since an option stands behind it.
unfoldable pub close : Progress → Progress
close p = elim p.taking [
  | some (dest, ws) ↦ record (set_value p dest (words ws)) { taking = none; just_taken = false }
  | none ↦ record p { just_taken = false }
]

unfoldable pub take_option : Progress → Optional → Option String → Checked Progress
unfolding convert
take_option p o given =
    if o.takes
    then elim given [
      | some s ↦ (do v ← convert o.kind o.dest s; ok (set_value p o.dest v))
      | none ↦ ok (record p { waiting = some o })
    ]
    else elim given [ some s ↦ refused (not_a_flag o.dest s) | none ↦ ok (set_value p o.dest flag) ]

unfoldable pub give_value : Progress → Optional → Token → Checked Progress
unfolding convert
give_value p o (word s) = do
  v ← convert o.kind o.dest s
  ok (set_value (record p { waiting = none }) o.dest v)
give_value p o token = refused (no_value o.dest)

-- `--` goes with the positional argument in front of it or behind it.
unfoldable pub take_dashes : Progress → Progress
take_dashes p = elim p.taking [
  | some taken ↦ p
  | none ↦ elim p.left [
    | a ∷ left ↦ p
    | [] ↦ if p.just_taken then p else record p { extras = p.extras ++ ("--" ∷ []) }
  ]
]

unfoldable pub step : Progress → Token → Checked Progress
unfolding take_word take_dashes close take_option give_value
step p token = elim p.waiting [
  | some o ↦ give_value p o token
  | none ↦ elim token [
    | word s ↦ take_word p s
    | dashes ↦ ok (take_dashes p)
    | known o given ↦ take_option (close p) o given
    | unknown s ↦ (let q = close p in ok (record q { extras = q.extras ++ (s ∷ []) }))
  ]
]

unfoldable pub steps : Progress → List Token → Checked Progress
unfolding step
steps p [] = ok p
steps p (token ∷ tokens) = do q ← step p token; steps q tokens

abbrev pub has_value : Namespace → String → Bool
has_value values dest = elim (lookup dest values) [ some v ↦ true | none ↦ false ]

-- The required options without a value.
unfoldable pub unset : List Optional → Namespace → List String
unset [] values = []
unset (o ∷ os) values =
    let more = unset os values in
    if o.required then (if has_value values o.dest then more else o.dest ∷ more) else more

unfoldable pub finish : Parser → Progress → Checked Namespace
unfolding close unset
finish parser p = elim p.waiting [
  | some o ↦ refused (no_value o.dest)
  | none ↦
      let q = close p in
      elim (map (λ (a : Positional). a.dest) q.left ++ unset parser.options q.values) [
        | dest ∷ dests ↦ refused (missing (dest ∷ dests))
        | [] ↦ elim q.extras [ [] ↦ ok q.values | s ∷ ss ↦ refused (extra (s ∷ ss)) ]
      ]
]

abbrev pub start : Parser → Progress
start parser = record {
  left = parser.positionals;
  taking = none;
  just_taken = false;
  waiting = none;
  values = [];
  extras = [];
}

unfoldable pub parse_args : Parser → List String → Checked Namespace
unfolding classify_all steps finish
parse_args parser args = do
  tokens ← classify_all parser.options args
  p ← steps (start parser) tokens
  finish parser p

-- `options[dest]`, for the types of the arguments.
unfoldable pub text_at : Namespace → String → Option String
text_at values dest = elim (lookup dest values) [ some (text_value s) ↦ some s | _ ↦ none ]

unfoldable pub number_at : Namespace → String → Option ℕ
number_at values dest = elim (lookup dest values) [ some (number_value n) ↦ some n | _ ↦ none ]

unfoldable pub json_at : Namespace → String → Option Value
json_at values dest = elim (lookup dest values) [ some (json_value v) ↦ some v | _ ↦ none ]

unfoldable pub words_at : Namespace → String → List String
words_at values dest = elim (lookup dest values) [ some (words ws) ↦ ws | _ ↦ [] ]
