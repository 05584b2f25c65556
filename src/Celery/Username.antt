-- ===== src/Celery/Username.antt =====
-- celery.py: `re.search('^mozilla(-auth0/ad\|Mozilla-LDAP\||-ldap\/)([^ @]+)(@mozilla\.com)?$', ...)`
pub mod Laws
use relops_hardware_controll.Prelude.{
  ℕ, String, eqb, ◌==◌, ◌||◌, not, Bool, Option, none, some, is_empty, strip_prefix, span,
  if◌then◌else◌,
}

-- The class `[^ @]`.
unfoldable pub is_user_char : ℕ → Bool
is_user_char c = not (eqb c b' ' || eqb c b'@')

-- `(@mozilla\.com)?$`, where `$` also matches before a final line feed. The run before it stops at
-- a space, at `@` or at the end, so a shorter run never helps.
unfoldable pub is_user_end : String → Bool
is_user_end rest = is_empty rest || rest == "@mozilla.com" || rest == "@mozilla.com\n"

-- Group 2 behind one of the prefixes: `[^ @]+` takes all that it can.
unfoldable pub user_of : String → Option String
unfolding span is_user_char is_user_end is_empty
user_of s =
    let (user, rest) = span is_user_char s in
    if is_empty user then none else if is_user_end rest then some user else none

-- `.group(2)` of the match, if there is one.
unfoldable pub username : String → Option String
unfolding strip_prefix user_of
username client_id = elim (strip_prefix "mozilla-auth0/ad|Mozilla-LDAP|" client_id) [
  | some s ↦ user_of s
  | none ↦ elim (strip_prefix "mozilla-ldap/" client_id) [ some s ↦ user_of s | none ↦ none ]
]
