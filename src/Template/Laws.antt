-- ===== src/Template/Laws.antt =====
-- `safe_substitute` on a template given by its pieces.
use text.Mathlib.TextLemmas.{nil-append, cons-append, length-nil, length-cons}
use relops_hardware_controll.Prelude.{
  ◌≡◌, refl, ap, ◌∙◌, ℕ, suc, ◌+◌, String, ◌<>◌, Char, code, count, Bool, true, false, not, ◌&&◌,
  eqb, all_chars, List, [], ◌∷◌, lookup, is_empty, All, arith,
}
use relops_hardware_controll.Template.{
  Token, is_letter, is_name_char, name_run, identifier, braced, closes, braced_token, token, width,
  or_else, convert, substitute_from, safe_substitute,
}

-- A text without a dollar sign, a name in braces, or a doubled dollar sign.
pub data Piece : Type 0 where
  words slot : String → Piece
  dollar : Piece

-- A letter, and name characters behind it.
abbrev pub IsName : String → Type 0
IsName String.[] = ⊥
IsName (String.◌∷◌ c s) = (is_letter (code c) ≡ true) × (all_chars is_name_char s ≡ true)

abbrev pub IsPiece : Piece → Type 0
IsPiece (words s) = all_chars (λ c. not (eqb c b'$')) s ≡ true
IsPiece (slot name) = IsName name
IsPiece dollar = Unit

abbrev pub slot_text : String → String → String
slot_text name s = String.◌∷◌ "$" (String.◌∷◌ "{" (name <> String.◌∷◌ "}" s))

-- The template.
abbrev pub source : List Piece → String
source [] = ""
source (words s ∷ ps) = s <> source ps
source (slot name ∷ ps) = slot_text name (source ps)
source (dollar ∷ ps) = String.◌∷◌ "$" (String.◌∷◌ "$" (source ps))

-- The text that is meant: a name without a value stays as it stands.
abbrev pub fill : List (String × String) → List Piece → String
fill mapping [] = ""
fill mapping (words s ∷ ps) = s <> fill mapping ps
fill mapping (slot name ∷ ps) =
    or_else (lookup name mapping) ("${" <> name <> "}") <> fill mapping ps
fill mapping (dollar ∷ ps) = "$" <> fill mapping ps

both : (a b : Bool) → (a && b) ≡ true → (a ≡ true) × (b ≡ true)
both a b h = (ground arith, ground arith)

plain_head :
    (c : Char) (x : String)
    → all_chars (λ c. not (eqb c b'$')) (String.◌∷◌ c x) ≡ true
    → (eqb (code c) b'$' ≡ false) × (all_chars (λ c. not (eqb c b'$')) x ≡ true)
unfolding all_chars
plain_head c x h = let (other, rest) = both (not (eqb (code c) b'$')) _ h in (ground arith, rest)

module _ (mapping : List (String × String)) where
  skipped :
      (x s : String) (n : ℕ)
      → substitute_from mapping (count x + n) (x <> s) ≡ substitute_from mapping n s
  unfolding substitute_from
  skipped String.[] s n =
      rw (nil-append s) (ap (λ k. substitute_from mapping k s) (omega (arith, length-nil)))
  skipped (String.◌∷◌ c x) s n = rw (cons-append c x s) (
      ap (λ k. substitute_from mapping k (String.◌∷◌ c (x <> s))) (longer (length-cons c x))
      ∙ skipped x s n)
    where
      longer :
          count (String.◌∷◌ c x) ≡ suc (count x) → count (String.◌∷◌ c x) + n ≡ suc (count x + n)
      longer h = omega arith

  words_kept :
      (x s : String)
      → all_chars (λ c. not (eqb c b'$')) x ≡ true
      → substitute_from mapping 0 (x <> s) ≡ x <> substitute_from mapping 0 s
  unfolding substitute_from all_chars
  words_kept String.[] s h = rw (nil-append s, nil-append (substitute_from mapping 0 s))
  words_kept (String.◌∷◌ c x) s h =
      let (other, rest) = plain_head c x h in
      rw (cons-append c x s, cons-append c x (substitute_from mapping 0 s))
        (rw other (ap (λ t. String.◌∷◌ c t) (words_kept x s rest)))

closes_name : (name s : String) → closes (count name) (name <> String.◌∷◌ "}" s) ≡ true
unfolding closes
closes_name String.[] s = rw (nil-append (String.◌∷◌ "}" s))
closes_name (String.◌∷◌ c name) s =
    rw (cons-append c name (String.◌∷◌ "}" s), length-cons c name) (closes_name name s)

name_run_braced :
    (x s : String) → all_chars is_name_char x ≡ true → name_run (x <> String.◌∷◌ "}" s) ≡ x
unfolding name_run all_chars
name_run_braced String.[] s h = rw (nil-append (String.◌∷◌ "}" s))
name_run_braced (String.◌∷◌ c x) s h =
    let (name_char, rest) = both (is_name_char (code c)) _ h in
    rw (cons-append c x (String.◌∷◌ "}" s))
      (rw name_char (ap (λ t. String.◌∷◌ c t) (name_run_braced x s rest)))

identifier_braced : (name s : String) → IsName name → identifier (name <> String.◌∷◌ "}" s) ≡ name
unfolding identifier
identifier_braced String.[] s h = absurd h
identifier_braced (String.◌∷◌ c x) s h =
    rw (cons-append c x (String.◌∷◌ "}" s)) (rw (h.0, name_run_braced x s h.1))

token_braced :
    (name s : String)
    → IsName name
    → token (String.◌∷◌ "{" (name <> String.◌∷◌ "}" s)) ≡ braced name
unfolding token braced_token is_empty
token_braced String.[] s h = absurd h
token_braced (String.◌∷◌ c x) s h =
    rw (identifier_braced (String.◌∷◌ c x) s h, token) (rw (closes_name (String.◌∷◌ c x) s, token))

module _ (mapping : List (String × String)) where
  slot_filled :
      (name s : String)
      → IsName name
      → substitute_from mapping 0 (slot_text name s)
        ≡ or_else (lookup name mapping) ("${" <> name <> "}") <> substitute_from mapping 0 s
  unfolding substitute_from convert width
  slot_filled name s h =
      let behind = String.◌∷◌ "{" (name <> String.◌∷◌ "}" s) in
      ap (λ (t : Token). convert mapping t <> substitute_from mapping (width t) behind)
        (token_braced name s h)
      ∙ ap (λ (t : String). or_else (lookup name mapping) ("${" <> name <> "}") <> t)
          (ap (λ (n : ℕ). substitute_from mapping n behind) (shift (count name))
            ∙ skipped mapping name (String.◌∷◌ "}" s) 1)
    where
      shift : (n : ℕ) → n + 2 ≡ suc (n + 1)
      shift n = omega arith

  -- A template of well-formed pieces is filled in piece by piece: each name in braces by its value,
  -- or left as it stands if it has none, `$$` by a dollar sign, and the words kept. What a value
  -- holds is not looked at again.
  pub safe_substitute-source :
      (ps : List Piece) → All IsPiece ps → safe_substitute mapping (source ps) ≡ fill mapping ps
  unfolding safe_substitute substitute_from token convert width
  safe_substitute-source [] h = refl
  safe_substitute-source (words s ∷ ps) h =
      words_kept mapping s (source ps) h.0 ∙ ap (λ t. s <> t) (safe_substitute-source ps h.1)
  safe_substitute-source (slot name ∷ ps) h =
      slot_filled name (source ps) h.0
      ∙ ap (λ t. or_else (lookup name mapping) ("${" <> name <> "}") <> t)
          (safe_substitute-source ps h.1)
  safe_substitute-source (dollar ∷ ps) h = ap (λ t. "$" <> t) (safe_substitute-source ps h.1)
