-- ===== src/Commands/Ping/Laws.antt =====
-- ping.py: what `Command.handle` gives the shell.
use relops_hardware_controll.Prelude.{
  ◌≡◌, ◌⊎◌, inl, inr, refl, ℕ, ◌+◌, String, ◌∷◌, Bool, true, ◌||◌, ◌&&◌, leb, eqb, all_chars, chomp,
  is_empty, code, arith, Bool-cases,
}
use relops_hardware_controll.Effects.{Env, Trace, returns, shell}
use relops_hardware_controll.Validators.{is_host_char}
use relops_hardware_controll.Validators.Laws.{
  IsValidHost, matches_hostname_iff, validate_host_cases,
}
use relops_hardware_controll.Commands.Ping.{Options, command_line, handle}

-- The characters of an IPv4 or IPv6 address.
unfoldable pub is_address_char : ℕ → Bool
is_address_char c =
    eqb c b'.'
    || eqb c b':'
    || (leb b'0' c && leb c b'9')
    || (leb b'a' c && leb c b'f')
    || (leb b'A' c && leb c b'F')

-- A letter, a digit, or one of `-`, `_`, `.` and `:`; none of them means anything to the shell.
unfoldable pub is_inert : ℕ → Bool
unfolding is_host_char
is_inert c = is_host_char c || eqb c b':'

all_chars_mono :
    (p q : ℕ → Bool) (s : String)
    → ((c : ℕ) → p c ≡ true → q c ≡ true)
    → all_chars p s ≡ true
    → all_chars q s ≡ true
unfolding all_chars
all_chars_mono p q String.[] h k = refl
all_chars_mono p q (String.◌∷◌ c s) h k = ground (arith, h (code c), all_chars_mono p q s h)

all_chars-chomp : (p : ℕ → Bool) (s : String) → all_chars p s ≡ true → all_chars p (chomp s) ≡ true
unfolding all_chars chomp
all_chars-chomp p String.[] h = refl
all_chars-chomp p (String.◌∷◌ c s) h = elim (Bool-cases (eqb (code c) 10 && is_empty s)) [
  | inl last ↦ rw last
  | inr inner ↦ rw inner (ground (arith, all_chars-chomp p s))
]

address_inert : (c : ℕ) → is_address_char c ≡ true → is_inert c ≡ true
unfolding is_address_char is_inert
address_inert c h = ground arith

host_inert : (c : ℕ) → is_host_char c ≡ true → is_inert c ≡ true
unfolding is_inert
host_inert c h = ground arith

module _ (env : Env)
    (addresses : (s : String)
      → env.validate_ipv46_address s ≡ returns tt
      → all_chars is_address_char s ≡ true) where
  inert : (host : String) → IsValidHost env host → all_chars is_inert (chomp host) ≡ true
  inert host (inl named) = all_chars_mono _ _ _ host_inert ((matches_hostname_iff host).0 named).0
  inert host (inr address) =
      all_chars_mono _ _ _ address_inert (all_chars-chomp _ host (addresses host address))

  -- If an address that Django's validator accepts holds only hexadecimal digits, dots and colons,
  -- then whatever the host name, the shell is given nothing, or the one command line for a host
  -- name that holds nothing but inert characters, up to one final line feed.
  pub handle_inert :
      (host : String) (o : Options) (t : Trace)
      → ((handle env host o t).1 ≡ t)
        ⊎ (((handle env host o t).1 ≡ shell (command_line host o) (2 + o.timeout) ∷ t)
            × (all_chars is_inert (chomp host) ≡ true))
  unfolding handle
  handle_inert host o t = elim (validate_host_cases env host t) [
    | inr (e, raised) ↦ rw raised (inl refl)
    | inl (valid, passed) ↦ rw passed (inr (refl, inert host valid))
  ]
