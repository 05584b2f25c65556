-- ===== src/Tests/Actions.antt =====
-- The actions that register_tc_actions registers.
use relops_hardware_controll.Prelude.{
  ◌≡◌, ◌↔◌, inl, inr, refl, ap, String, ◌<>◌, true, false, Bool-cases, List, [], ◌∷◌, map, contains,
  is_empty, arith, ◌==◌, eq_iff, if◌then◌else◌,
}
use relops_hardware_controll.Settings.{Settings, base_settings}
use relops_hardware_controll.Effects.{
  Trace, other, exn, ok, err, Reply, returns, raises, declare_provisioner,
}
use relops_hardware_controll.Commands.RegisterTcActions.{
  Django, help_text, has_parameter, matches, handle as register_tc_actions,
}
use relops_hardware_controll.Commands.RegisterTcActions.Laws.{IsValid}
use relops_hardware_controll.Commands.RegisterTcActions.Laws.Reversed.{
  IsLawful, Declared, handle_iff, handle-no_reverse_match,
}
use relops_hardware_controll.Commands.RegisterTcActions.Laws.Unknown.{Raises, handle-unknown}
use relops_hardware_controll.Tests.Sample.{env, config}

-- For the tests, a reversed pattern is the slash.
abbrev reverse : List String → List String → Reply String
reverse [] groups = returns "/"
reverse (key ∷ keys) groups =
    let rest = reverse keys groups in
    if contains groups key
    then rest
    else raises (exn (other "NoReverseMatch") "Reverse for 'JobList'")

reverse-no_match :
    (keys groups : List String) (key : String)
    → contains keys key ≡ true
    → contains groups key ≡ false
    → reverse keys groups ≡ raises (exn (other "NoReverseMatch") "Reverse for 'JobList'")
reverse-no_match [] groups key h missing = ground arith
reverse-no_match (k ∷ keys) groups key h missing = elim (Bool-cases (contains groups k)) [
  | inr unknown ↦ rw unknown refl
  | inl known ↦ elim (Bool-cases (k == key)) [
    | inl same ↦
        let both : contains groups k ≡ contains groups key =
          ap (contains groups) ((eq_iff k key).0 same) in
        ground arith
    | inr unlike ↦ rw known (reverse-no_match keys groups key (rw unlike at h) missing)
  ]
]

abbrev pub django : Django
django = record {
  validate_url = λ _. returns tt;
  urlencode = λ items. elim items [ [] ↦ "" | (key, value) ∷ _ ↦ key <> "=" <> value ];
  reverse = λ pattern kwargs. reverse (map (λ kv. kv.0) kwargs) pattern.groups;
}

abbrev settings : Settings
settings = record (base_settings config) {
  task_names = "ping" ∷ "reboot" ∷ [];
  taskcluster_client_id = "roller";
  taskcluster_access_token = "secret";
}

django-IsLawful : IsLawful django
django-IsLawful = record {
  no_match = λ pattern kwargs key given missing. (
    "Reverse for 'JobList'",
    reverse-no_match (map (λ kv. kv.0) kwargs) pattern.groups key given missing,
  );
}

arguments-IsValid : IsValid django settings "https://roller.mozilla.com" "releng-hardware"
unfolding has_parameter matches is_empty
arguments-IsValid = record {
  plain_url = refl;
  valid_url = refl;
  plain_id = refl;
  valid_id = refl;
  account = record { has_id = refl; has_token = refl; valid_id = refl; valid_token = refl };
}

abbrev nothing_declared : Trace
nothing_declared = declare_provisioner "releng-hardware" [] ∷ []

abbrev no_tasks : Settings
no_tasks = record settings { task_names = [] }

handle_iff_example :
    (register_tc_actions django env no_tasks "https://roller.mozilla.com" "releng-hardware" []
      ≡ (ok tt, nothing_declared))
    ↔ Declared django env no_tasks "https://roller.mozilla.com" "releng-hardware" []
        nothing_declared
handle_iff_example =
    handle_iff django django-IsLawful env no_tasks "https://roller.mozilla.com" "releng-hardware" []
      nothing_declared

-- The side of the equivalence that holds here.
declared :
    register_tc_actions django env no_tasks "https://roller.mozilla.com" "releng-hardware" []
    ≡ (ok tt, nothing_declared)
unfolding register_tc_actions
declared = refl

handle-no_reverse_match_example :
    (message : String) × (register_tc_actions django env settings "https://roller.mozilla.com"
        "releng-hardware" []
      ≡ (err (exn (other "NoReverseMatch") message), []))
unfolding help_text
handle-no_reverse_match_example =
    handle-no_reverse_match django django-IsLawful env settings "https://roller.mozilla.com"
      "releng-hardware" [] "ping"
      "Tries to ICMP ping the host. Raises for exceptions for a lost packet or timeout."
      ("reboot" ∷ []) arguments-IsValid refl refl

-- The tasks of the class `Base` have names without a command.
handle-unknown_example : Raises [] (
    register_tc_actions django env
      (base_settings config)
      "https://roller.mozilla.com"
      "releng-hardware"
      [])
unfolding help_text
handle-unknown_example =
    handle-unknown django env (base_settings config) "https://roller.mozilla.com" "releng-hardware"
      "status" [] refl refl
