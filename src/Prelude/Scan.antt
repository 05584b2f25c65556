-- ===== src/Prelude/Scan.antt =====
-- Reading a text from the front: a prefix, and the longest run of characters that pass a test.
use text.Mathlib.TextEquality.{Char-path}
use text.Mathlib.TextLemmas.{nil-append, cons-append}
use Prim.Native.Nat.{ℕ}
use Prim.Native.Char.{code}
use Prim.Native.String.{String, ◌++◌ as ◌<>◌}
use mathlib.Core.Path.{◌≡◌, refl, sym, ap, ◌∙◌}
use mathlib.Core.Logic.{inl, inr}
use mathlib.Core.Bool.{Bool, true, false}
use mathlib.Core.Option.{Option, none, some}
use native.Mathlib.Omega.{arith}
use relops_hardware_controll.Prelude.Tests.{eqb, if◌then◌else◌, Bool-cases}
use relops_hardware_controll.Prelude.Text.{all_chars}

-- The text behind a prefix.
unfoldable pub strip_prefix : String → String → Option String
strip_prefix String.[] s = some s
strip_prefix (String.◌∷◌ p ps) String.[] = none
strip_prefix (String.◌∷◌ p ps) (String.◌∷◌ c s) =
    let rest = strip_prefix ps s in if eqb (code p) (code c) then rest else none

pub strip_prefix-eq-some : (p s r : String) → strip_prefix p s ≡ some r → s ≡ p <> r
unfolding strip_prefix
strip_prefix-eq-some String.[] s r h = ground (arith, nil-append r)
strip_prefix-eq-some (String.◌∷◌ a p) String.[] r h = ground arith
strip_prefix-eq-some (String.◌∷◌ a p) (String.◌∷◌ c s) r h =
    ground (arith, strip_prefix-eq-some p s r, Char-path a c, cons-append a p r)

pub strip_prefix-append : (p r : String) → strip_prefix p (p <> r) ≡ some r
unfolding strip_prefix
strip_prefix-append String.[] r = rw nil-append
strip_prefix-append (String.◌∷◌ a p) r = rw cons-append (ground (arith, strip_prefix-append p r))

-- The texts differ at a place that both have.
unfoldable pub clash : String → String → Bool
clash String.[] q = false
clash (String.◌∷◌ a p) String.[] = false
clash (String.◌∷◌ a p) (String.◌∷◌ b q) =
    let rest = clash p q in if eqb (code a) (code b) then rest else true

pub strip_prefix-clash : (p q r : String) → clash p q ≡ true → strip_prefix p (q <> r) ≡ none
unfolding strip_prefix clash
strip_prefix-clash String.[] q r h = ground arith
strip_prefix-clash (String.◌∷◌ a p) String.[] r h = ground arith
strip_prefix-clash (String.◌∷◌ a p) (String.◌∷◌ b q) r h =
    rw cons-append (ground (arith, strip_prefix-clash p q r))

module _ (test : ℕ → Bool) where
  -- The longest run, and what it leaves.
  unfoldable pub span : String → String × String
  span String.[] = ("", "")
  span (String.◌∷◌ c s) =
      let (front, rest) = span s in
      if test (code c) then (String.◌∷◌ c front, rest) else ("", String.◌∷◌ c s)

  -- At the end, or in front of a character that does not pass.
  unfoldable pub Stops : String → Type 0
  Stops String.[] = Unit {0}
  Stops (String.◌∷◌ c s) = test (code c) ≡ false

  pub record Spanned (s front rest : String) : Type 0 where
    pub whole : s ≡ front <> rest
    pub passed : all_chars test front ≡ true

  pub span-Spanned : (s : String) → Spanned s (span s).0 (span s).1
  unfolding span all_chars
  span-Spanned String.[] = record { whole = sym (nil-append ""); passed = refl }
  span-Spanned (String.◌∷◌ c s) = elim (Bool-cases (test (code c))) [
    | inr stops ↦ rw stops (record { whole = sym (nil-append _); passed = refl })
    | inl goes ↦
        let more = span-Spanned s in
        rw goes (record {
          whole = ap (λ r. String.◌∷◌ c r) more.whole ∙ sym (cons-append c _ _);
          passed = rw goes more.passed;
        })
  ]

  pub span-append :
      (front rest : String)
      → all_chars test front ≡ true
      → Stops rest
      → span (front <> rest) ≡ (front, rest)
  unfolding span all_chars Stops
  span-append String.[] String.[] passed stops = refl
  span-append String.[] (String.◌∷◌ c s) passed stops = rw (nil-append, stops) refl
  span-append (String.◌∷◌ c front) rest passed stops =
      rw cons-append (ground (arith, span-append front rest))
