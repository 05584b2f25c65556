-- ===== src/Json/RoundTrip/Lengths.antt =====
-- How long the written text is, at least.
use text.Mathlib.TextLemmas.{length-cons}
use relops_hardware_controll.Prelude.{
  ℕ, List, [], ◌∷◌, count, length, ◌≤◌, String, Char, code, Bool, true, false, ◌&&◌, eqb, ltb, leb,
  arith, if◌then◌else◌,
}
use relops_hardware_controll.Json.Printer.{
  hex4, unicode_escape, escape, escape_all, quote, member, more_members,
}

cons-le : (c : Char) (s t : String) → count s ≤ count t → count s ≤ count (String.◌∷◌ c t)
cons-le c s t h = omega (arith, length-cons c t)

by_branch : (P : String → Type 0) (b : Bool) (s t : String) → P s → P t → P (if b then s else t)
by_branch P true s t h k = h
by_branch P false s t h k = k

module _ (s : String) where
  abbrev Longer : String → Type 0
  Longer t = count s ≤ count t

  hex4-Longer : (n : ℕ) (t : String) → Longer t → Longer (hex4 n t)
  unfolding hex4
  hex4-Longer n t h =
      cons-le _ s _
        (cons-le _ s _ (cons-le _ s _ (cons-le _ s _ (cons-le _ s _ (cons-le _ s _ h)))))

  unicode_escape-Longer : (n : ℕ) (t : String) → Longer t → Longer (unicode_escape n t)
  unfolding unicode_escape
  unicode_escape-Longer n t h =
      by_branch Longer (ltb n 0x10000) _ _ (hex4-Longer n t h) (hex4-Longer _ _ (hex4-Longer _ t h))

  simple-Longer : (c : Char) (t : String) → Longer t → Longer (String.◌∷◌ "\\" (String.◌∷◌ c t))
  simple-Longer c t h = cons-le _ s _ (cons-le c s t h)

  escape-Longer : (c : Char) (t : String) → Longer t → Longer (escape c t)
  unfolding escape
  escape-Longer c t h = by_branch Longer (eqb (code c) b'"') _ _ (simple-Longer "\"" t h) (
      by_branch Longer (eqb (code c) b'\\') _ _ (simple-Longer "\\" t h) (
        by_branch Longer (eqb (code c) 10) _ _ (simple-Longer "n" t h) (
          by_branch Longer (eqb (code c) 13) _ _ (simple-Longer "r" t h) (
            by_branch Longer (eqb (code c) 9) _ _ (simple-Longer "t" t h) (
              by_branch Longer (eqb (code c) 8) _ _ (simple-Longer "b" t h) (
                by_branch Longer (eqb (code c) 12) _ _ (simple-Longer "f" t h) (
                  by_branch Longer (leb 32 (code c) && leb (code c) 126) _ _ (cons-le c s t h)
                    (unicode_escape-Longer (code c) t h))))))))

  escape_all-Longer : (text t : String) → Longer t → Longer (escape_all text t)
  unfolding escape_all
  escape_all-Longer String.[] t h = h
  escape_all-Longer (String.◌∷◌ c text) t h = escape-Longer c _ (escape_all-Longer text t h)

  quote-Longer : (text t : String) → Longer t → Longer (quote text t)
  unfolding quote
  quote-Longer text t h = cons-le _ s _ (escape_all-Longer text _ (cons-le _ s t h))

  member-Longer : (m : String × String) (t : String) → Longer t → Longer (member m t)
  unfolding member
  member-Longer (key, value) t h =
      quote-Longer key _ (cons-le _ s _ (cons-le _ s _ (quote-Longer value t h)))

pub length-le_more_members : (d : List (String × String)) → length d ≤ count (more_members d)
unfolding more_members
length-le_more_members [] = omega arith
length-le_more_members (m ∷ d) = omega (
  arith,
  length-le_more_members d,
  length-cons "," (String.◌∷◌ " " (member m (more_members d))),
  cons-le " " (more_members d) (member m (more_members d))
      (member-Longer (more_members d) m (more_members d) (omega arith)),
)

pub length-le_member :
    (m : String × String) (d : List (String × String))
    → length d ≤ count (member m (more_members d))
length-le_member m d = omega (
  arith,
  length-le_more_members d,
  member-Longer (more_members d) m (more_members d) (omega arith),
)
