-- ===== src/Json/RoundTrip.antt =====
-- `json.loads` on what `json.dumps` wrote.
pub mod Digits
pub mod Escapes
pub mod Lengths
use text.Mathlib.TextLemmas.{length-cons}
use text.Mathlib.TextEquality.{Char-path}
use Prim.Native.String.{char_at}
use Prim.Native.Char.{char}
use native.Mathlib.Decide.{dec_lt}
use native.Mathlib.Bridge.{le_prop}
use mathlib.Core.Logic.{dif_pos, dif_neg}
use relops_hardware_controll.Prelude.{
  ℕ, zero, suc, List, [], ◌∷◌, drop, count, length, ◌+◌, ◌-◌, ◌*◌, ◌/◌, ◌%◌, ◌<◌, ◌≤◌, ◌≡◌, ◌⊎◌,
  refl, sym, ap, ◌∙◌, String, Char, code, Bool, true, false, ◌&&◌, eqb, ltb, leb, Bool-cases, inl,
  inr, Option, none, some, arith, if◌then◌else◌,
}
use relops_hardware_controll.Json.Chars.{chr, hex_value, low_scalar, high_scalar}
use relops_hardware_controll.Json.Printer.{
  hex_digit, hex4, unicode_escape, escape, escape_all, quote, member, more_members, dumps,
}
use relops_hardware_controll.Json.Value.{Value, Fields, str, object, no_fields, field}
use relops_hardware_controll.Json.Reader.{
  Parser, behind, pure, ◌>>=◌, ◌>>◌, spaces, expect, read_member, read_value, read_fields,
  skip_spaces, finished, loads,
}
use relops_hardware_controll.Json.Strings.{
  Mode, plain, escaped, hex, high, high_escaped, low, unescape, Action, finish, refuse, go, emit,
  action, plain_action, escaped_action, hex_action, low_action, unit_action, pair_action, push,
  read_string, is_high, is_low,
}
use relops_hardware_controll.Json.RoundTrip.Escapes.{read-escape_all}
use relops_hardware_controll.Json.RoundTrip.Lengths.{length-le_member}

-- The object with these pairs.
abbrev pub fields_of : List (String × String) → Fields
fields_of [] = no_fields
fields_of ((key, value) ∷ d) = field key (str value) (fields_of d)

-- The units of fuel for the members, over some that are left.
abbrev pub fuel_of : List (String × String) → ℕ → ℕ
fuel_of [] left = suc left
fuel_of (m ∷ d) left = suc (fuel_of d left)

fuel_of_pos : (d : List (String × String)) (left : ℕ) → 0 < fuel_of d left
fuel_of_pos [] left = omega arith
fuel_of_pos (m ∷ d) left = omega arith

>>=-of-some :
    {A B : Type 0} (p : Parser A) (f : A → Parser B) (s : String) (a : A) (rest : String)
    → p s ≡ some (a, rest)
    → (p >>= f) s ≡ f a rest
>>=-of-some p f s a rest h = ap (λ o. behind o f) h

read_value_text :
    (f : ℕ) (text s : String)
    → 0 < f
    → read_value f (String.◌∷◌ "\"" (escape_all text (String.◌∷◌ "\"" s))) ≡ some (str text, s)
unfolding read_value drop
read_value_text zero text s h = absurd (omega arith)
read_value_text (suc f) text s h =
    >>=-of-some (read_string plain) (λ t. pure (str t)) (escape_all text (String.◌∷◌ "\"" s)) text s
      (read-escape_all text s)

skip_spaces-more_members :
    (d : List (String × String)) → skip_spaces (more_members d) ≡ more_members d
unfolding skip_spaces more_members
skip_spaces-more_members [] = refl
skip_spaces-more_members (m ∷ d) = refl

-- A member that was written is read, whatever reads the members behind it.
read_member_lem :
    (key value tail rest : String) (f : ℕ) (others : Parser Fields) (fields : Fields)
    → 0 < f
    → skip_spaces tail ≡ tail
    → others tail ≡ some (fields, rest)
    → read_member (read_value f) others (member (key, value) tail)
      ≡ some (field key (str value) fields, rest)
unfolding read_member member quote skip_spaces
read_member_lem key value tail rest f others fields fuel unspaced h =
    let last = λ (fields : Fields). pure (field key (str value) fields) in
    let behind_key = String.◌∷◌ ":" (String.◌∷◌ " " (quote value tail)) in
    >>=-of-some (read_string plain) _ (escape_all key (String.◌∷◌ "\"" behind_key)) key behind_key
      (read-escape_all key behind_key)
    ∙ >>=-of-some (read_value f) _ (quote value tail) (str value) tail
        (read_value_text f value tail fuel)
    ∙ >>=-of-some spaces (λ _. others >>= last) tail tt tail (ap (λ s. some (tt, s)) unspaced)
    ∙ >>=-of-some others last tail fields rest h

read_members :
    (d : List (String × String)) (left : ℕ)
    → read_fields (fuel_of d left) false (more_members d) ≡ some (fields_of d, "")
unfolding read_fields more_members drop skip_spaces member quote
read_members [] left = refl
read_members ((key, value) ∷ d) left =
    read_member_lem key value (more_members d) "" (fuel_of d left)
      (read_fields (fuel_of d left) false) (fields_of d) (fuel_of_pos d left)
      (skip_spaces-more_members d) (read_members d left)

-- The same from the first member on.
read_dict :
    (m : String × String) (d : List (String × String)) (left : ℕ)
    → read_fields (suc (fuel_of d left)) true (member m (more_members d))
      ≡ some (fields_of (m ∷ d), "")
unfolding read_fields drop skip_spaces member quote
read_dict (key, value) d left =
    read_member_lem key value (more_members d) "" (fuel_of d left)
      (read_fields (fuel_of d left) false) (fields_of d) (fuel_of_pos d left)
      (skip_spaces-more_members d) (read_members d left)

-- There is fuel enough: each member has characters of its own.
fuel_lem : (d : List (String × String)) (n : ℕ) → length d < n → fuel_of d (n - length d - 1) ≡ n
fuel_lem [] n h = omega arith
fuel_lem (m ∷ d) zero h = absurd (omega arith)
fuel_lem (m ∷ d) (suc n) h = ap suc (ap (fuel_of d) (omega arith) ∙ fuel_lem d n (omega arith))

read_object :
    (m : String × String) (d : List (String × String)) (left : ℕ)
    → read_value (suc (suc (fuel_of d left))) (String.◌∷◌ "{" (member m (more_members d)))
      ≡ some (object (fields_of (m ∷ d)), "")
unfolding read_value drop skip_spaces member quote
read_object (key, value) d left =
    >>=-of-some (read_fields (suc (fuel_of d left)) true) (λ fields. pure (object fields))
      (member (key, value) (more_members d)) (fields_of ((key, value) ∷ d)) ""
      (read_dict (key, value) d left)

-- Whatever the keys and the values hold, a dictionary of texts is read back as it was written.
pub loads-dumps : (d : List (String × String)) → loads (dumps d) ≡ some (object (fields_of d))
unfolding loads dumps finished skip_spaces
loads-dumps [] = refl
loads-dumps (m ∷ d) =
    let text = String.◌∷◌ "{" (member m (more_members d)) in
    let fuel : length d < 2 * count text =
      omega (arith, length-le_member m d, length-cons "{" (member m (more_members d))) in
    let enough : 2 * count text + 2 ≡ suc (suc (fuel_of d (2 * count text - length d - 1))) =
      omega (arith, fuel_lem d (2 * count text) fuel) in
    ap (λ n. finished (read_value n text)) enough ∙ ap finished (read_object m d _)
