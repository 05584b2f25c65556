-- ===== src/Prelude/Text.antt =====
-- The operations of Python's `str` that the source uses, over texts as lists of characters.
use Prim.Native.Nat.{ℕ, zero, suc, pred, ◌/◌, ◌%◌}
use Prim.Native.Char.{Char, code}
use Prim.Native.String.{String, ◌++◌ as ◌<>◌, char_at, count}
use mathlib.Core.Path.{◌≡◌, refl}
use mathlib.Core.Bool.{Bool, true, false, ◌&&◌, ◌||◌}
use mathlib.Core.List.{List, [], ◌∷◌}
use mathlib.Core.Option.{Option, none, some}
use text.Mathlib.Text.{◌==◌, starts_with}
use relops_hardware_controll.Prelude.Tests.{ltb, eqb, if◌then◌else◌}

-- `not s`
unfoldable pub is_empty : String → Bool
is_empty String.[] = true
is_empty (String.◌∷◌ c s) = false

-- Every character of the text passes the test on its code point.
unfoldable pub all_chars : (ℕ → Bool) → String → Bool
all_chars p String.[] = true
all_chars p (String.◌∷◌ c s) = p (code c) && all_chars p s

-- `needle in s`
unfoldable pub includes : String → String → Bool
includes needle String.[] = needle == ""
includes needle (String.◌∷◌ c s) = starts_with (String.◌∷◌ c s) needle || includes needle s

-- A character at the front of the first part.
unfoldable pub onto_first : Char → List String → List String
onto_first c [] = String.◌∷◌ c "" ∷ []
onto_first c (part ∷ parts) = String.◌∷◌ c part ∷ parts

-- `s.split(sep)` for a separator of one character; never the empty list.
unfoldable pub split : ℕ → String → List String
unfolding onto_first
split sep String.[] = "" ∷ []
split sep (String.◌∷◌ c s) =
    let parts = split sep s in if eqb (code c) sep then "" ∷ parts else onto_first c parts

-- `sep.join(parts)`
unfoldable pub join : String → List String → String
join sep [] = ""
join sep (part ∷ []) = part
join sep (part ∷ next ∷ parts) = part <> sep <> join sep (next ∷ parts)

-- `s.replace(old, new)` for an `old` of one character.
unfoldable pub replace : ℕ → String → String → String
replace old new String.[] = ""
replace old new (String.◌∷◌ c s) =
    let rest = replace old new s in if eqb (code c) old then new <> rest else String.◌∷◌ c rest

-- The character at the same place in the second text, where the first one has the character.
unfoldable pub translate : String → String → Char → Char
translate (String.◌∷◌ a from) (String.◌∷◌ b to) c =
    if eqb (code c) (code a) then b else translate from to c
translate _ _ c = c

unfoldable pub map_chars : (Char → Char) → String → String
map_chars f String.[] = ""
map_chars f (String.◌∷◌ c s) = String.◌∷◌ (f c) (map_chars f s)

abbrev pub small_letters : String
small_letters = "abcdefghijklmnopqrstuvwxyz"

abbrev pub capital_letters : String
capital_letters = "ABCDEFGHIJKLMNOPQRSTUVWXYZ"

-- `s.upper()` and `s.lower()` on ASCII, which is all that host names and worker ids hold.
unfoldable pub upper : String → String
unfolding translate map_chars
upper = map_chars (translate small_letters capital_letters)

unfoldable pub lower : String → String
unfolding translate map_chars
lower = map_chars (translate capital_letters small_letters)

-- `s[:n]`
unfoldable pub take : ℕ → String → String
take zero s = ""
take (suc n) String.[] = ""
take (suc n) (String.◌∷◌ c s) = String.◌∷◌ c (take n s)

-- `s[n:]`
unfoldable pub drop : ℕ → String → String
drop zero s = s
drop (suc n) String.[] = ""
drop (suc n) (String.◌∷◌ c s) = drop n s

-- The text before and behind the last separator, if there is one.
unfoldable pub rsplit_once : ℕ → String → Option (String × String)
rsplit_once sep String.[] = none
rsplit_once sep (String.◌∷◌ c s) = elim (rsplit_once sep s) [
  | some (before, after) ↦ some (String.◌∷◌ c before, after)
  | none ↦ if eqb (code c) sep then some ("", s) else none
]

-- `str(n)` for a natural number; a number has fewer digits than its fuel.
unfoldable pub show_onto : ℕ → ℕ → String → String
show_onto zero n acc = acc
show_onto (suc fuel) n acc =
    let digits = String.◌∷◌ (char_at "0123456789" (n % 10)) acc in
    let more = show_onto fuel (n / 10) digits in if ltb n 10 then digits else more

unfoldable pub show : ℕ → String
unfolding show_onto
show n = show_onto (suc n) n ""

-- `s.replace(old, new)` for any `old` but the empty text. The number counts the characters of a
-- replaced occurrence that are still to be skipped.
unfoldable pub replace_from : String → String → ℕ → String → String
replace_from old new n String.[] = ""
replace_from old new (suc n) (String.◌∷◌ c s) = replace_from old new n s
replace_from old new zero (String.◌∷◌ c s) =
    let replaced = new <> replace_from old new (pred (count old)) s in
    let kept = String.◌∷◌ c (replace_from old new zero s) in
    if starts_with (String.◌∷◌ c s) old then replaced else kept

unfoldable pub replace_text : String → String → String → String
unfolding replace_from
replace_text old new s = replace_from old new 0 s

-- The text without one final line feed, before which `$` of a regular expression matches too.
unfoldable pub chomp : String → String
chomp String.[] = ""
chomp (String.◌∷◌ c s) =
    let rest = chomp s in if eqb (code c) 10 && is_empty s then "" else String.◌∷◌ c rest

text_tests :
    (split b'.' "a.bc." ≡ "a" ∷ "bc" ∷ "" ∷ [])
    × (join " " ("a" ∷ "b" ∷ []) ≡ "a b")
    × (replace b'-' "" "t-linux-1" ≡ "tlinux1")
    × (upper "mdc1-x" ≡ "MDC1-X")
    × (lower "T-W1064" ≡ "t-w1064")
    × (rsplit_once b':' "pdu:x:aa1" ≡ some ("pdu:x", "aa1"))
    × (rsplit_once b':' "pdu" ≡ none)
    × (includes "workerId" "/x/workerIds" ≡ true)
    × (includes "workerId" "/x/worker" ≡ false)
    × (show 1060 ≡ "1060")
    × (show 0 ≡ "0")
    × (take 2 "abc" ≡ "ab")
    × (drop 2 "abc" ≡ "c")
    × (replace_text "ab" "x" "cababa" ≡ "cxxa")
    × (chomp "ab" ≡ "ab")
unfolding split join replace upper lower rsplit_once includes show take drop replace_text chomp
    is_empty
text_tests =
    (refl, refl, refl, refl, refl, refl, refl, refl, refl, refl, refl, refl, refl, refl, refl)
