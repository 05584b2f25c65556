-- ===== src/Celery/Username/Laws.antt =====
-- celery.py: the client ids that the expression matches, and the user that each of them names.
use relops_hardware_controll.Prelude.{
  ◌≡◌, refl, ap, ◌∙◌, ◌↔◌, ◌⊎◌, inl, inr, String, ◌<>◌, none, some, true, false, all_chars,
  is_empty, strip_prefix, span, Bool-cases, Option-cases, ◌==◌, eq_iff, arith,
}
use relops_hardware_controll.Celery.Username.{is_user_char, is_user_end, user_of, username}
use relops_hardware_controll.Prelude.Scan.{
  strip_prefix-eq-some, strip_prefix-append, clash, strip_prefix-clash, Stops, span-Spanned,
  span-append,
}

-- One character or more, none of them a space or `@`.
abbrev pub IsUserText : String → Type 0
IsUserText user = (all_chars is_user_char user ≡ true) × (is_empty user ≡ false)

-- What may stand behind the user.
abbrev pub IsEnding : String → Type 0
IsEnding ending = (ending ≡ "") ⊎ (ending ≡ "@mozilla.com") ⊎ (ending ≡ "@mozilla.com\n")

is_empty-true : (s : String) → is_empty s ≡ true → s ≡ ""
unfolding is_empty
is_empty-true String.[] h = refl
is_empty-true (String.◌∷◌ c s) h = ground arith

is_user_end-IsEnding : (rest : String) → is_user_end rest ≡ true → IsEnding rest
unfolding is_user_end
is_user_end-IsEnding rest h = elim (Bool-cases (is_empty rest)) [
  | inl empty ↦ inl (is_empty-true rest empty)
  | inr more ↦ elim (Bool-cases (rest == "@mozilla.com")) [
    | inl same ↦ inr (inl ((eq_iff rest _).0 same))
    | inr other ↦ inr (inr ((eq_iff rest _).0 (rw (more, other) at h)))
  ]
]

IsEnding-Stops :
    (rest : String) → IsEnding rest → Stops is_user_char rest × (is_user_end rest ≡ true)
unfolding Stops is_user_char is_user_end is_empty
IsEnding-Stops rest (inl e) = rw e (tt, refl)
IsEnding-Stops rest (inr (inl e)) = rw e (refl, refl)
IsEnding-Stops rest (inr (inr e)) = rw e (refl, refl)

record Ended (s user : String) : Type 0 where
  ending : String
  whole : s ≡ user <> ending
  text : IsUserText user
  allowed : IsEnding ending

user_of-Ended : (s user : String) → user_of s ≡ some user → Ended s user
unfolding user_of
user_of-Ended s user h =
    let spanned = span-Spanned is_user_char s in
    elim (Bool-cases (is_empty (span is_user_char s).0)) [
      | inl empty ↦ ground arith
      | inr full ↦ elim (Bool-cases (is_user_end (span is_user_char s).1)) [
        | inr bad ↦ ground arith
        | inl good ↦
            let same : (span is_user_char s).0 ≡ user = ground arith in
            rw (← same) (record {
              ending = (span is_user_char s).1;
              whole = spanned.whole;
              text = (spanned.passed, full);
              allowed = is_user_end-IsEnding _ good;
            })
      ]
    ]

user_of-append :
    (user ending : String)
    → IsUserText user
    → IsEnding ending
    → user_of (user <> ending) ≡ some user
unfolding user_of
user_of-append user ending (plain, full) allowed =
    let (stops, ends) = IsEnding-Stops ending allowed in
    rw (span-append is_user_char user ending plain stops, full, ends) refl

-- The two ways in which Taskcluster names a user of Mozilla.
abbrev pub IsPrefix : String → Type 0
IsPrefix prefix = (prefix ≡ "mozilla-auth0/ad|Mozilla-LDAP|") ⊎ (prefix ≡ "mozilla-ldap/")

-- The client id is such a prefix, the user, and an ending.
pub record Names (client_id user : String) : Type 0 where
  pub prefix : String
  pub ending : String
  pub whole : client_id ≡ prefix <> user <> ending
  pub known : IsPrefix prefix
  pub text : IsUserText user
  pub allowed : IsEnding ending

names :
    (prefix client_id rest user : String)
    → IsPrefix prefix
    → strip_prefix prefix client_id ≡ some rest
    → user_of rest ≡ some user
    → Names client_id user
names prefix client_id rest user known stripped named =
    let ended = user_of-Ended rest user named in
    record {
      prefix = prefix;
      ending = ended.ending;
      whole =
          strip_prefix-eq-some prefix client_id rest stripped ∙ ap (λ r. prefix <> r) ended.whole;
      known = known;
      text = ended.text;
      allowed = ended.allowed;
    }

username-Names : (client_id user : String) → username client_id ≡ some user → Names client_id user
unfolding username
username-Names client_id user h =
    elim (Option-cases (strip_prefix "mozilla-auth0/ad|Mozilla-LDAP|" client_id)) [
      | inr (rest, first) ↦ names _ client_id rest user (inl refl) first (rw (first, username) at h)
      | inl none_first ↦ elim (Option-cases (strip_prefix "mozilla-ldap/" client_id)) [
        | inr (rest, second) ↦
            names _ client_id rest user (inr refl) second (rw (none_first, second, username) at h)
        | inl none_second ↦ let h' = rw (none_first, none_second, username) at h in ground arith
      ]
    ]

-- No client id has both prefixes.
other_prefix :
    (r : String) → strip_prefix "mozilla-auth0/ad|Mozilla-LDAP|" ("mozilla-ldap/" <> r) ≡ none
unfolding clash
other_prefix r = strip_prefix-clash "mozilla-auth0/ad|Mozilla-LDAP|" "mozilla-ldap/" r refl

username-prefix :
    (prefix rest user : String)
    → IsPrefix prefix
    → user_of rest ≡ some user
    → username (prefix <> rest) ≡ some user
unfolding username
username-prefix prefix rest user (inl first) named =
    rw (first, strip_prefix-append "mozilla-auth0/ad|Mozilla-LDAP|" rest, username) named
username-prefix prefix rest user (inr second) named =
    rw (second, other_prefix rest, second, strip_prefix-append "mozilla-ldap/" rest, username) named

Names-username : (client_id user : String) → Names client_id user → username client_id ≡ some user
Names-username client_id user n =
    ap username n.whole
    ∙ username-prefix n.prefix (user <> n.ending) user n.known
        (user_of-append user n.ending n.text n.allowed)

-- The expression gives a user exactly for a client id that is one of the two prefixes, the user, who
-- has one character or more, none of them a space or `@`, and nothing or the domain of Mozilla, which
-- one line feed may follow.
pub username_iff :
    (client_id user : String) → (username client_id ≡ some user) ↔ Names client_id user
username_iff client_id user = (username-Names client_id user, Names-username client_id user)
