-- ===== src/Commands/RegisterTcActions/Laws.antt =====
-- Theorems on relops_hardware_controller/api/management/commands/register_tc_actions.py: what a success
-- means.
pub mod Unknown
pub mod Reversed
use relops_hardware_controll.Prelude.{
  ◌≡◌, ◌≢◌, ◌⊎◌, inl, inr, refl, sym, ap, subst, ◌∙◌, String, Option, none, some, List, [], ◌∷◌,
  map, Bool, true, false, not, ◌==◌, ◌||◌, All, contains, is_empty, Option-cases, Bool-cases, arith,
  eq_iff,
}
use relops_hardware_controll.Settings.{Settings}
use relops_hardware_controll.Api.Routes.{job_list_pattern}
use relops_hardware_controll.Effects.{
  Env, Event, Exn, TaskAction, declare_provisioner, Reply, returns, raises, Outcome, ok, err,
  pending, Trace, M, reply, continue, pure, raise, call_unit,
}
use relops_hardware_controll.Effects.Laws.{Finishes, continue-eq-ok, pure-eq-ok, reply-eq-ok}
use relops_hardware_controll.Effects.Bounded.{IsQuiet, IsQuiet-pure, IsQuiet-reply, IsQuiet-bind}
use relops_hardware_controll.Commands.RegisterTcActions.{
  Django, help_text, help_of, matches, is_word, is_client_id_char, is_token_char, has_parameter,
  refuse_if, validate_credentials, validate_base_url, validate_provisioner_id, action_url, action,
  job_list_kwargs, actions_of, handle,
}

-- The action of a task: its name is the title too, its text is the command's.
abbrev pub IsAction : Django → String → TaskAction → Type 0
IsAction django base_url a =
    (uri : String) × (django.reverse job_list_pattern job_list_kwargs ≡ returns uri)
    × (a.title ≡ a.name)
    × (a.url ≡ action_url django base_url uri a.name)
    × (help_text a.name ≡ some a.description)

not-eq-false : (b : Bool) → not b ≡ false → b ≡ true
not-eq-false b h = ground arith

refuse_if-eq-ok :
    (test : Bool) (message : String) (t u : Trace)
    → refuse_if test message t ≡ (ok tt, u)
    → (test ≡ false) × (u ≡ t)
refuse_if-eq-ok test message t u h = ground arith

help_of-eq-ok :
    (name help : String) (t u : Trace)
    → help_of name t ≡ (ok help, u)
    → (help_text name ≡ some help) × (u ≡ t)
unfolding help_of
help_of-eq-ok name help t u h = ground arith

action-IsAction :
    (django : Django) (base_url task_name : String) (a : TaskAction) (t u : Trace)
    → action django base_url task_name t ≡ (ok a, u)
    → (a.name ≡ task_name) × IsAction django base_url a × (u ≡ t)
unfolding action
action-IsAction django base_url task_name a t u h =
    let (help, s, found, h₁) = continue-eq-ok (help_of task_name t) _ h in
    let (uri, s₁, reversed, h₂) =
      continue-eq-ok (reply (django.reverse job_list_pattern job_list_kwargs) s) _ h₁ in
    let (has_help, at) = help_of-eq-ok task_name help t s found in
    let (has_uri, at₁) =
      reply-eq-ok (django.reverse job_list_pattern job_list_kwargs) uri s s₁ reversed in
    let made : TaskAction = record {
      name = task_name;
      title = task_name;
      url = action_url django base_url uri task_name;
      description = help;
    } in
    let (gave, at₂) = pure-eq-ok made a s₁ u h₂ in
    (
      ap (λ b. b.name) gave,
      subst (IsAction django base_url) (sym gave) (uri, has_uri, refl, refl, has_help),
      at₂ ∙ at₁ ∙ at,
    )

-- One action for each task, in their order.
abbrev pub AreActions : Django → String → List String → List TaskAction → Type 0
AreActions django base_url task_names actions =
    (map (λ a. a.name) actions ≡ task_names) × All (IsAction django base_url) actions

pub actions_of-AreActions :
    (django : Django) (base_url : String) (names : List String) (actions : List TaskAction)
    (t u : Trace)
    → actions_of django base_url names t ≡ (ok actions, u)
    → AreActions django base_url names actions × (u ≡ t)
unfolding actions_of
actions_of-AreActions django base_url [] actions t u h =
    let (gave, at) = pure-eq-ok [] actions t u h in
    (subst (AreActions django base_url []) (sym gave) (refl, tt), at)
actions_of-AreActions django base_url (name ∷ names) actions t u h =
    let (first, s, made, h₁) = continue-eq-ok (action django base_url name t) _ h in
    let (more, s₁, rest, h₂) = continue-eq-ok (actions_of django base_url names s) _ h₁ in
    let (named, is_action, at) = action-IsAction django base_url name first t s made in
    let ((names_of, all), at₁) = actions_of-AreActions django base_url names more s s₁ rest in
    let (gave, at₂) = pure-eq-ok (first ∷ more) actions s₁ u h₂ in
    (
      subst (AreActions django base_url (name ∷ names)) (sym gave) (
        ap (λ n. n ∷ map (λ a. a.name) more) named ∙ ap (λ ns. name ∷ ns) names_of,
        (is_action, all),
      ),
      at₂ ∙ at₁ ∙ at,
    )

validate_base_url-eq-ok :
    (django : Django) (base_url : String) (t u : Trace)
    → validate_base_url django base_url t ≡ (ok tt, u)
    → (has_parameter base_url ≡ false) × (django.validate_url base_url ≡ returns tt) × (u ≡ t)
unfolding validate_base_url
validate_base_url-eq-ok django base_url t u h =
    let (_, s, let_in, h₁) = continue-eq-ok (refuse_if (has_parameter base_url) _ t) _ h in
    let (plain, at) = refuse_if-eq-ok (has_parameter base_url) _ t s let_in in
    let (valid, at₁) = reply-eq-ok (django.validate_url base_url) tt s u h₁ in
    (plain, valid, at₁ ∙ at)

validate_provisioner_id-eq-ok :
    (provisioner_id : String) (t u : Trace)
    → validate_provisioner_id provisioner_id t ≡ (ok tt, u)
    → (has_parameter provisioner_id ≡ false) × (matches is_word provisioner_id ≡ true) × (u ≡ t)
unfolding validate_provisioner_id
validate_provisioner_id-eq-ok provisioner_id t u h =
    let (_, s, let_in, h₁) = continue-eq-ok (refuse_if (has_parameter provisioner_id) _ t) _ h in
    let (plain, at) = refuse_if-eq-ok (has_parameter provisioner_id) _ t s let_in in
    let (valid, at₁) = refuse_if-eq-ok (not (matches is_word provisioner_id)) _ s u h₁ in
    (plain, ground arith, at₁ ∙ at)

call_unit-eq-ok :
    (env : Env) (e : Event) (t u : Trace)
    → call_unit env e t ≡ (ok tt, u)
    → (env.unit_reply (e ∷ t) ≡ returns tt) × (u ≡ e ∷ t)
call_unit-eq-ok env e t u h = (ground arith, ground arith)

-- The account of the settings has an id and a token with allowed characters.
pub record IsAccount (settings : Settings) : Type 0 where
  pub has_id : is_empty settings.taskcluster_client_id ≡ false
  pub has_token : is_empty settings.taskcluster_access_token ≡ false
  pub valid_id : matches is_client_id_char settings.taskcluster_client_id ≡ true
  pub valid_token : matches is_token_char settings.taskcluster_access_token ≡ true

validate_credentials-eq-ok :
    (settings : Settings) (t u : Trace)
    → validate_credentials settings t ≡ (ok tt, u)
    → IsAccount settings × (u ≡ t)
unfolding validate_credentials
validate_credentials-eq-ok settings t u h =
    let (_, s, let_in, h₁) =
      continue-eq-ok (refuse_if (is_empty settings.taskcluster_client_id) _ t) _ h in
    let (_, s₁, let_in₁, h₂) =
      continue-eq-ok (refuse_if (is_empty settings.taskcluster_access_token) _ s) _ h₁ in
    let (_, s₂, let_in₂, h₃) =
      continue-eq-ok
        (refuse_if (not (matches is_client_id_char settings.taskcluster_client_id)) _ s₁) _ h₂ in
    let (has_id, at) = refuse_if-eq-ok _ _ t s let_in in
    let (has_token, at₁) = refuse_if-eq-ok _ _ s s₁ let_in₁ in
    let (valid_id, at₂) = refuse_if-eq-ok _ _ s₁ s₂ let_in₂ in
    let (valid_token, at₃) = refuse_if-eq-ok _ _ s₂ u h₃ in
    (
      record {
        has_id = has_id;
        has_token = has_token;
        valid_id = not-eq-false _ valid_id;
        valid_token = not-eq-false _ valid_token;
      },
      at₃ ∙ at₂ ∙ at₁ ∙ at,
    )

-- The arguments and the account pass the checks.
pub record IsValid (django : Django) (settings : Settings) (base_url provisioner_id : String)
    : Type 0 where
  pub plain_url : has_parameter base_url ≡ false
  pub valid_url : django.validate_url base_url ≡ returns tt
  pub plain_id : has_parameter provisioner_id ≡ false
  pub valid_id : matches is_word provisioner_id ≡ true
  pub account : IsAccount settings

-- What a registration sends: the provisioner with one action for each task of the settings, in
-- their order.
abbrev pub Registered : Django → Env → Settings → String → String → Trace → Trace → Type 0
Registered django env settings base_url provisioner_id t u =
    (actions : List TaskAction) × AreActions django base_url settings.task_names actions
    × (u ≡ declare_provisioner provisioner_id actions ∷ t)
    × (env.unit_reply (declare_provisioner provisioner_id actions ∷ t) ≡ returns tt)

pub handle-Registered :
    (django : Django) (env : Env) (settings : Settings) (base_url provisioner_id : String)
    (t u : Trace)
    → handle django env settings base_url provisioner_id t ≡ (ok tt, u)
    → IsValid django settings base_url provisioner_id
      × Registered django env settings base_url provisioner_id t u
unfolding handle
handle-Registered django env settings base_url provisioner_id t u h =
    let (_, s, based, h₁) = continue-eq-ok (validate_base_url django base_url t) _ h in
    let (_, s₁, named, h₂) = continue-eq-ok (validate_provisioner_id provisioner_id s) _ h₁ in
    let (_, s₂, let_in, h₃) = continue-eq-ok (validate_credentials settings s₁) _ h₂ in
    let (actions, s₃, made, called) =
      continue-eq-ok (actions_of django base_url settings.task_names s₂) _ h₃ in
    let (plain, valid, at) = validate_base_url-eq-ok django base_url t s based in
    let (plain₁, valid₁, at₁) = validate_provisioner_id-eq-ok provisioner_id s s₁ named in
    let (account, at₂) = validate_credentials-eq-ok settings s₁ s₂ let_in in
    let (are, at₃) = actions_of-AreActions django base_url settings.task_names actions s₂ s₃ made in
    let at₄ : s₃ ≡ t = at₃ ∙ at₂ ∙ at₁ ∙ at in
    let (gave, at₅) =
      call_unit-eq-ok env (declare_provisioner provisioner_id actions) s₃ u called in
    (
      record {
        plain_url = plain;
        valid_url = valid;
        plain_id = plain₁;
        valid_id = valid₁;
        account = account;
      },
      (
        actions,
        are,
        at₅ ∙ ap (λ s. declare_provisioner provisioner_id actions ∷ s) at₄,
        ap (λ s. env.unit_reply (declare_provisioner provisioner_id actions ∷ s)) (sym at₄) ∙ gave,
      ),
    )
