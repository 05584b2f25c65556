-- ===== src/Commands/RegisterTcActions/Laws/Unknown.antt =====
-- register_tc_actions.py: tasks without a command.
use relops_hardware_controll.Commands.RegisterTcActions.Laws.{IsAction, actions_of-AreActions}
use relops_hardware_controll.Prelude.{
  ◌≡◌, ◌≢◌, inl, inr, refl, sym, ap, ◌∙◌, String, none, some, List, [], ◌∷◌, map, true, ◌==◌, ◌||◌,
  All, contains, Bool-cases, arith, eq_iff,
}
use relops_hardware_controll.Settings.{Settings}
use relops_hardware_controll.Api.Routes.{job_list_pattern}
use relops_hardware_controll.Effects.{
  Env, Exn, TaskAction, Outcome, ok, err, pending, Trace, M, continue,
}
use relops_hardware_controll.Effects.Laws.{Finishes}
use relops_hardware_controll.Effects.Bounded.{IsQuiet, IsQuiet-pure, IsQuiet-reply, IsQuiet-bind}
use relops_hardware_controll.Commands.RegisterTcActions.{
  Django, help_text, help_of, validate_credentials, validate_base_url, validate_provisioner_id,
  job_list_kwargs, action, actions_of, handle,
}

-- An exception, and no call.
abbrev pub Raises : {A : Type 0} → Trace → Outcome A × Trace → Type 0
Raises t r = (e : Exn) × (r ≡ (err e, t))

continue-Raises :
    {A B : Type 0} (t : Trace) (r : Outcome A × Trace) (f : A → M B)
    → (r.1 ≡ t) × Finishes r.0
    → ((a : A) → Raises t (f a t))
    → Raises t (continue r f)
continue-Raises t (ok a, s) f (at, _) g = let (e, raised) = g a in (e, ap (f a) at ∙ raised)
continue-Raises t (err e, s) f (at, _) g = (e, ap (λ s. (err e, s)) at)
continue-Raises t (pending, s) f (at, p) g = absurd p

raised-Raises :
    {A B : Type 0} (t : Trace) (r : Outcome A × Trace) (f : A → M B)
    → Raises t r
    → Raises t (continue r f)
raised-Raises t r f (e, raised) = (e, ap (λ r. continue r f) raised)

-- Of a task without a command there is no action.
actions-known :
    (django : Django) (base_url name : String) (actions : List TaskAction)
    → contains (map (λ a. a.name) actions) name ≡ true
    → help_text name ≡ none
    → All (IsAction django base_url) actions
    → ⊥
actions-known django base_url name [] c n all = ground arith
actions-known django base_url name (a ∷ actions) c n ((uri, _, _, _, has_help), all) =
    elim (Bool-cases (a.name == name)) [
      | inl same ↦
          let named : a.name ≡ name = (eq_iff a.name name).0 same in
          let found : some a.description ≡ none = sym has_help ∙ ap help_text named ∙ n in
          ground arith
      | inr other ↦
          actions-known django base_url name actions
            (sym (ap (λ b. b || contains (map (λ a. a.name) actions) name) other) ∙ c) n all
    ]

module _ (django : Django) (base_url : String) where
  help_of-IsQuiet : (name : String) → IsQuiet (help_of name)
  unfolding help_of
  help_of-IsQuiet name t = ground arith

  pub actions_of-IsQuiet : (names : List String) → IsQuiet (actions_of django base_url names)
  unfolding actions_of action
  actions_of-IsQuiet [] = search IsQuiet-pure
  actions_of-IsQuiet (name ∷ names) =
      IsQuiet-bind _ _
        (IsQuiet-bind _ _ (help_of-IsQuiet name) (λ help.
          IsQuiet-bind _ _ (IsQuiet-reply (django.reverse job_list_pattern job_list_kwargs))
            (λ uri. search IsQuiet-pure)))
        (λ first. IsQuiet-bind _ _ (actions_of-IsQuiet names) (λ more. search IsQuiet-pure))

  pub validate_base_url-IsQuiet : IsQuiet (validate_base_url django base_url)
  unfolding validate_base_url
  validate_base_url-IsQuiet t = ground arith

pub validate_provisioner_id-IsQuiet : (id : String) → IsQuiet (validate_provisioner_id id)
unfolding validate_provisioner_id
validate_provisioner_id-IsQuiet id t = ground arith

pub validate_credentials-IsQuiet : (settings : Settings) → IsQuiet (validate_credentials settings)
unfolding validate_credentials
validate_credentials-IsQuiet settings t = ground arith

no_actions :
    {A : Type 0} (t : Trace) (r : Outcome A × Trace)
    → (r.1 ≡ t) × Finishes r.0
    → ((a : A) → (s : Trace) → r ≢ (ok a, s))
    → Raises t r
no_actions t (ok a, s) quiet unmade = absurd (unmade a s refl)
no_actions t (err e, s) (at, _) unmade = (e, ap (λ s. (err e, s)) at)
no_actions t (pending, s) (at, p) unmade = absurd p

-- When a task of the settings has no command, the command raises an exception before it makes any
-- call: no action of any task is registered.
pub handle-unknown :
    (django : Django) (env : Env) (settings : Settings) (base_url provisioner_id name : String)
    (t : Trace)
    → contains settings.task_names name ≡ true
    → help_text name ≡ none
    → Raises t (handle django env settings base_url provisioner_id t)
unfolding handle
handle-unknown django env settings base_url provisioner_id name t c n =
    continue-Raises t _ _ (validate_base_url-IsQuiet django base_url t) (λ based.
      continue-Raises t _ _ (validate_provisioner_id-IsQuiet provisioner_id t) (λ named.
        continue-Raises t _ _ (validate_credentials-IsQuiet settings t) (λ let_in.
          raised-Raises t _ _ (
            no_actions t (actions_of django base_url settings.task_names t)
              (actions_of-IsQuiet django base_url settings.task_names t) unmade))))
  where
    unmade :
        (actions : List TaskAction) (s : Trace)
        → actions_of django base_url settings.task_names t ≢ (ok actions, s)
    unmade actions s made =
        let ((names, all), _) =
          actions_of-AreActions django base_url settings.task_names actions t s made in
        actions-known django base_url name actions (ap (λ ns. contains ns name) names ∙ c) n all
