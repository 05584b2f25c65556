-- ===== src/Validators/Laws.antt =====
-- validators.py: the host names that are accepted.
use text.Mathlib.TextLemmas.{length-nil, length-cons}
use relops_hardware_controll.Prelude.{
  ◌≡◌, ◌↔◌, ◌≤◌, ◌<◌, ◌⊎◌, inl, inr, refl, ap, sym, ◌∙◌, String, count, true, false, all_chars,
  chomp, arith, Bool-cases,
}
use relops_hardware_controll.Validators.{
  is_host_char, matches_host_body, matches_hostname, validate_host,
}
use relops_hardware_controll.Effects.{Env, Trace, Exn, Reply, returns, raises, Outcome, ok, err}

-- 1 to 63 characters of the class.
abbrev pub IsHostText : String → Type 0
IsHostText s = (all_chars is_host_char s ≡ true) × (0 < count s) × (count s ≤ 63)

matches_host_body_iff : (s : String) → (matches_host_body s ≡ true) ↔ IsHostText s
unfolding matches_hostname
matches_host_body_iff String.[] = ground (arith, length-nil)
matches_host_body_iff (String.◌∷◌ c String.[]) = ground (arith, length-nil, length-cons c "")
matches_host_body_iff (String.◌∷◌ c (String.◌∷◌ d s)) =
    ground (arith, length-cons c (String.◌∷◌ d s))

-- A host name is accepted exactly if, without one final line feed, it has 1 to 63 characters, all
-- of them letters, digits, `-`, `_` or `.`.
pub matches_hostname_iff :
    (host : String) → (matches_hostname host ≡ true) ↔ IsHostText (chomp host)
unfolding matches_hostname
matches_hostname_iff host = matches_host_body_iff (chomp host)

-- The host name matches, or Django takes it for an address.
abbrev pub IsValidHost : Env → String → Type 0
IsValidHost env host =
    (matches_hostname host ≡ true) ⊎ (env.validate_ipv46_address host ≡ returns tt)

module _ (env : Env) (host : String) (t : Trace) where
  by_address :
      (r : Reply (Unit {0}))
      → env.validate_ipv46_address host ≡ r
      → matches_hostname host ≡ false
      → (IsValidHost env host × (validate_host env host t ≡ (ok tt, t)))
        ⊎ ((e : Exn) × (validate_host env host t ≡ (err e, t)))
  unfolding validate_host
  by_address (returns tt') h unnamed = inl (inr h, rw (unnamed, h))
  by_address (raises e) h unnamed = inr (e, rw (unnamed, h))

  -- The validator passes a valid host or raises, and makes no call.
  pub validate_host_cases :
      (IsValidHost env host × (validate_host env host t ≡ (ok tt, t)))
      ⊎ ((e : Exn) × (validate_host env host t ≡ (err e, t)))
  unfolding validate_host
  validate_host_cases = elim (Bool-cases (matches_hostname host)) [
    | inl named ↦ inl (inl named, rw named)
    | inr unnamed ↦ by_address (env.validate_ipv46_address host) refl unnamed
  ]

  -- A host name that passes costs no call.
  pub validate_host_silent : (s : Trace) → validate_host env host t ≡ (ok tt, s) → s ≡ t
  validate_host_silent s h = elim validate_host_cases [
    | inl (_, passed) ↦ ap (λ (o : Outcome (Unit {0}) × Trace). o.1) (sym h ∙ passed)
    | inr (e, raised) ↦ ap (λ (o : Outcome (Unit {0}) × Trace). o.1) (sym h ∙ raised)
  ]
