-- ===== src/Validators.antt =====
-- relops_hardware_controller/api/validators.py
pub mod Laws
use relops_hardware_controll.Prelude.{
  ℕ, String, count, Bool, true, false, ◌&&◌, ◌||◌, leb, eqb, code, all_chars, is_empty, chomp,
  if◌then◌else◌,
}
use relops_hardware_controll.Effects.{Env, M, pure, of_reply}

-- The class `[-_\.a-zA-Z0-9]`.
unfoldable pub is_host_char : ℕ → Bool
is_host_char c =
    eqb c b'-'
    || eqb c b'_'
    || eqb c b'.'
    || (leb b'a' c && leb c b'z')
    || (leb b'A' c && leb c b'Z')
    || (leb b'0' c && leb c b'9')

-- `(?:[...]{0,61}[...])?`: nothing, or 1 to 62 characters of the class.
unfoldable pub matches_host_rest : String → Bool
unfolding is_host_char
matches_host_rest s = is_empty s || (all_chars is_host_char s && leb (count s) 62)

unfoldable pub matches_host_body : String → Bool
unfolding is_host_char
matches_host_body String.[] = false
matches_host_body (String.◌∷◌ c s) = is_host_char (code c) && matches_host_rest s

-- `re.match(hostname_re, host)`; `$` also matches before a final line feed.
unfoldable pub matches_hostname : String → Bool
unfolding matches_host_body matches_host_rest chomp is_empty all_chars
matches_hostname host = matches_host_body (chomp host)

unfoldable pub validate_host : Env → String → M (Unit {0})
unfolding matches_hostname
validate_host env host =
    if matches_hostname host
    then pure tt
    else (λ t. (of_reply (env.validate_ipv46_address host), t))
