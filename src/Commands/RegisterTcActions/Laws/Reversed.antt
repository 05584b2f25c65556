-- ===== src/Commands/RegisterTcActions/Laws/Reversed.antt =====
-- register_tc_actions.py with the route of relops_hardware_controller/api/urls.py.
use relops_hardware_controll.Commands.RegisterTcActions.Laws.{IsValid, IsAction, handle-Registered}
use relops_hardware_controll.Prelude.{
  ◌≡◌, ◌↔◌, refl, sym, ap, ◌∙◌, String, some, List, [], ◌∷◌, map, true, false, All, contains, arith,
}
use relops_hardware_controll.Settings.{Settings}
use relops_hardware_controll.Effects.{
  Env, TaskAction, declare_provisioner, returns, raises, other, exn, ok, err, Trace,
}
use relops_hardware_controll.Api.Routes.{Pattern, job_list_pattern}
use relops_hardware_controll.Commands.RegisterTcActions.{
  Django, help_text, help_of, validate_credentials, validate_base_url, validate_provisioner_id,
  job_list_kwargs, action, actions_of, handle,
}

-- What Django documents of `reverse`: a keyword argument that the expression has no group for raises
-- `NoReverseMatch`.
pub record IsLawful (django : Django) : Type 0 where
  pub no_match :
      (pattern : Pattern) (kwargs : List (String × String)) (key : String)
      → contains (map (λ kv. kv.0) kwargs) key ≡ true
      → contains pattern.groups key ≡ false
      → (message : String) × (django.reverse pattern kwargs
          ≡ raises (exn (other "NoReverseMatch") message))

help_of-known :
    (name help : String) (t : Trace) → help_text name ≡ some help → help_of name t ≡ (ok help, t)
unfolding help_of
help_of-known name help t found = ground arith

module _ (django : Django) (env : Env) (settings : Settings) (base_url provisioner_id : String)
    (t : Trace) where
  -- Nothing but the provisioner is declared, for no task.
  pub record Declared (u : Trace) : Type 0 where
    pub valid : IsValid django settings base_url provisioner_id
    pub no_task : settings.task_names ≡ []
    pub last : u ≡ declare_provisioner provisioner_id [] ∷ t
    pub accepted : env.unit_reply (declare_provisioner provisioner_id [] ∷ t) ≡ returns tt

module _ (django : Django) (lawful : IsLawful django) where
  no_group :
      (message : String) × (django.reverse job_list_pattern job_list_kwargs
        ≡ raises (exn (other "NoReverseMatch") message))
  no_group = lawful.no_match job_list_pattern job_list_kwargs "worker_group" refl refl

  -- No task has an action.
  no_action : (base_url : String) (a : TaskAction) → IsAction django base_url a → ⊥
  no_action base_url a (uri, reversed, _, _, _) =
      let (message, raised) = no_group in
      let same : returns uri ≡ raises (exn (other "NoReverseMatch") message) =
        sym reversed ∙ raised in
      ground arith

  no_tasks :
      (base_url : String) (names : List String) (actions : List TaskAction)
      → map (λ a. a.name) actions ≡ names
      → All (IsAction django base_url) actions
      → (names ≡ []) × (actions ≡ [])
  no_tasks base_url names [] same all = (sym same, refl)
  no_tasks base_url names (a ∷ actions) same (first, all) = absurd (no_action base_url a first)

  -- The first round of the loop raises.
  no_round :
      (base_url name help : String) (names : List String) (t : Trace)
      → help_text name ≡ some help
      → (message : String) × (actions_of django base_url (name ∷ names) t
          ≡ (err (exn (other "NoReverseMatch") message), t))
  unfolding actions_of action
  no_round base_url name help names t found =
      let (message, raised) = no_group in
      (message, rw (help_of-known name help t found, raised) refl)

  module _ (env : Env) (settings : Settings) (base_url provisioner_id : String) (t : Trace) where
    checked :
        IsValid django settings base_url provisioner_id
        → (validate_base_url django base_url t ≡ (ok tt, t))
          × (validate_provisioner_id provisioner_id t ≡ (ok tt, t))
          × (validate_credentials settings t ≡ (ok tt, t))
    unfolding validate_base_url validate_provisioner_id validate_credentials
    checked valid =
        let account = valid.account in
        (
          rw (valid.plain_url, valid.valid_url) refl,
          rw (valid.plain_id, valid.valid_id) refl,
          rw (account.has_id, account.has_token, account.valid_id, account.valid_token) refl,
        )

    -- With a lawful reverse the command succeeds exactly if the arguments and the account pass the
    -- checks, there is no task, and Taskcluster accepts the one call, which declares the provisioner
    -- with no action.
    pub handle_iff :
        (u : Trace)
        → (handle django env settings base_url provisioner_id t ≡ (ok tt, u))
          ↔ Declared django env settings base_url provisioner_id t u
    unfolding handle actions_of
    handle_iff u = (
      λ h.
          (let (valid, (actions, (names, all), last, accepted)) =
              handle-Registered django env settings base_url provisioner_id t u h in
            let (none_left, empty) = no_tasks base_url settings.task_names actions names all in
            record {
              valid = valid;
              no_task = none_left;
              last = last ∙ ap (λ a. declare_provisioner provisioner_id a ∷ t) empty;
              accepted =
                  ap (λ a. env.unit_reply (declare_provisioner provisioner_id a ∷ t)) (sym empty)
                  ∙ accepted;
            }),
      λ d.
          (let (based, named, let_in) = checked d.valid in
            rw (based, named, let_in, d.no_task, d.accepted, d.last) refl),
    )

    -- With a lawful reverse, valid arguments and a valid account, NoReverseMatch is raised before any
    -- call when there is a task and the first one has a command.
    pub handle-no_reverse_match :
        (name help : String) (names : List String)
        → IsValid django settings base_url provisioner_id
        → settings.task_names ≡ name ∷ names
        → help_text name ≡ some help
        → (message : String) × (handle django env settings base_url provisioner_id t
            ≡ (err (exn (other "NoReverseMatch") message), t))
    unfolding handle
    handle-no_reverse_match name help names valid tasks found =
        let (based, named, let_in) = checked valid in
        let (message, made) = no_round base_url name help names t found in
        (message, rw (based, named, let_in, tasks, made) refl)
