-- ===== src/Commands/FileBugzillaBug/Laws/Tracked.antt =====
-- file_bugzilla_bug.py: what the tracker bug is.
use relops_hardware_controll.Commands.FileBugzillaBug.Laws.Inversion.{
  rescue-eq-ok, call_http-eq-ok, get_key-eq-ok, first_bug-eq-ok, object-ne-str,
}
use relops_hardware_controll.Prelude.{
  ◌≡◌, ◌⊎◌, inl, inr, refl, sym, ap, subst, ◌∙◌, none, some, Bool, true, false, not, is_empty,
  Bool-cases, Option-cases, [], ◌∷◌, ◌++◌, length, ◌≤◌, arith,
}
use relops_hardware_controll.Commands.FileBugzillaBug.Laws.{update_bug-Bounded}
use relops_hardware_controll.Json.Value.{
  Value, null, str, array, object, Items, item, Fields, no_fields, field, get,
}
use relops_hardware_controll.Template.{safe_substitute}
use relops_hardware_controll.Settings.{Settings}
use relops_hardware_controll.Effects.{
  Env, Trace, ok, returns, HttpCall, HttpAnswer, http_get, http_put, http_post, http, call_http, M,
  reply, pure, ◌>>◌, when,
}
use relops_hardware_controll.Effects.Laws.{continue-eq-ok, pure-eq-ok, reply-eq-ok}
use relops_hardware_controll.Commands.FileBugzillaBug.{
  Python, Host, bug_url, url_of, basic_payload, show_value, truth, update, get_key, get_or_none,
  first_bug, is_closed, update_bug, create_bug, create_or_update_bug, tracker_data, find_tracker,
}

-- The bug is the first one that the answer of a search lists.
abbrev pub IsFirst : HttpAnswer → Fields → Type 0
IsFirst answer bug =
    (found : Fields) × (more : Items) × (answer.json ≡ returns (object found))
    × (get "bugs" found ≡ some (array (item (object bug) more)))

-- The id of a bug, or `None` where it has none.
abbrev pub IsId : Fields → Value → Type 0
IsId bug bug_id = (get "id" bug ≡ some bug_id) ⊎ ((get "id" bug ≡ none) × (bug_id ≡ null))

get_or_none-IsId :
    (v bug_id : Value) (t u : Trace)
    → get_or_none "id" v t ≡ (ok bug_id, u)
    → (bug : Fields) × (v ≡ object bug) × IsId bug bug_id × (u ≡ t)
unfolding get_or_none
get_or_none-IsId (object bug) bug_id t u h = elim (Option-cases (get "id" bug)) [
  | inl missing ↦ (bug, refl, inr (missing, ground arith), ground arith)
  | inr (v, has) ↦ (bug, refl, inl (ground arith), ground arith)
]
get_or_none-IsId v bug_id t u h = absurd (ground arith)

first_bug-IsFirst :
    (answer : HttpAnswer) (v : Value) (bug : Fields) (t u : Trace)
    → first_bug answer t ≡ (ok v, u)
    → v ≡ object bug
    → IsFirst answer bug × (u ≡ t)
first_bug-IsFirst answer v bug t u chosen is_bug =
    let (first, at) = first_bug-eq-ok answer v t u chosen in
    elim first [
      | inl (found, more, is_object, has_bugs) ↦
          ((found, more, is_object, has_bugs ∙ ap (λ b. some (array (item b more))) is_bug), at)
      | inr (s, is_str) ↦ absurd (object-ne-str bug s (sym is_bug ∙ is_str))
    ]

module _ (python : Python) (env : Env) (settings : Settings) where
  -- The bug is not open, and closed bugs are to be reopened.
  abbrev pub IsClosed : Fields → Type 0
  IsClosed bug =
      (is_open : Value) × (is_empty settings.bugzilla_reopen_state ≡ false)
      × (get "is_open" bug ≡ some is_open)
      × (truth python is_open ≡ false)

  is_closed-eq-ok :
      (v : Value) (bug : Fields) (closed : Bool) (t u : Trace)
      → v ≡ object bug
      → is_closed python env settings settings.bugzilla_reopen_state v t ≡ (ok closed, u)
      → (u ≡ t) × (closed ≡ true → IsClosed bug)
  unfolding is_closed
  is_closed-eq-ok v bug closed t u is_bug h =
      elim (Bool-cases (is_empty settings.bugzilla_reopen_state)) [
        | inl nothing ↦
            let (is_not, at) = pure-eq-ok false closed t u (rw nothing at h) in
            (at, λ wanted. ground arith)
        | inr state ↦
            let read = rw state at h in
            let (is_open, s, taken, gave) = continue-eq-ok (get_key "is_open" v t) _ read in
            let (kvs, is_object, has, at) = get_key-eq-ok "is_open" v is_open t s taken in
            let (is_not, at₁) = pure-eq-ok (not (truth python is_open)) closed s u gave in
            let same : kvs ≡ bug = ground arith in
            (
              at₁ ∙ at,
              λ wanted. (is_open, state, ap (get "is_open") (sym same) ∙ has, ground arith),
            )
      ]

  module _ (host : Host) where
    abbrev pub lookup_call : HttpCall
    lookup_call = http_get (url_of settings host.alias) no_fields (basic_payload settings)

    abbrev pub reopen_call : Value → HttpCall
    reopen_call parent = http_put (url_of settings (show_value python parent)) (
        update (basic_payload settings)
          (field "status" (str settings.bugzilla_reopen_state) no_fields))

    abbrev pub create_call : HttpCall
    create_call = http_post (bug_url settings) (
        safe_substitute
          (("hostname", host.hostname)
            ∷ ("alias", host.alias)
            ∷ ("DC", host.datacenter)
            ∷ ("api_key", settings.bugzilla_api_key)
            ∷ [])
          settings.bugzilla_worker_tracker_template)

    -- The tracker is the bug that the answer for the host's alias lists first, reopened if it is
    -- closed, or the one that an answer to the report of a tracker names, behind the two calls at most
    -- that failed.
    pub data Tracked : Value → Trace → Trace → Type 0 where
      known :
          {t : Trace} (answer : HttpAnswer) (bug : Fields) (parent : Value)
          → env.http_reply (http lookup_call ∷ t) ≡ returns answer
          → IsFirst answer bug
          → IsId bug parent
          → Tracked parent t (http lookup_call ∷ t)
      reopened :
          {t : Trace} (answer : HttpAnswer) (bug : Fields) (parent : Value)
          → env.http_reply (http lookup_call ∷ t) ≡ returns answer
          → IsFirst answer bug
          → IsId bug parent
          → IsClosed bug
          → Tracked parent t (http (reopen_call parent) ∷ http lookup_call ∷ t)
      created :
          {t : Trace} (failed : Trace) (answer : HttpAnswer) (bug : Fields) (parent : Value)
          → length failed ≤ 2
          → env.http_reply (http create_call ∷ failed ++ t) ≡ returns answer
          → answer.json ≡ returns (object bug)
          → IsId bug parent
          → Tracked parent t (http create_call ∷ failed ++ t)

    abbrev reopen : Value → Bool → M (Unit {0})
    reopen parent closed = when closed (call_http env (reopen_call parent) >> pure tt)

    reopen-eq-ok :
        (parent : Value) (closed : Bool) (t u : Trace)
        → reopen parent closed t ≡ (ok tt, u)
        → ((closed ≡ true) × (u ≡ http (reopen_call parent) ∷ t)) ⊎ (u ≡ t)
    reopen-eq-ok parent true t u h = inl (refl, ground arith)
    reopen-eq-ok parent false t u h = inr (ground arith)

    update_bug-Tracked :
        (parent : Value) (t u : Trace)
        → update_bug python env settings host.alias settings.bugzilla_reopen_state t
          ≡ (ok parent, u)
        → Tracked parent t u
    unfolding update_bug
    update_bug-Tracked parent t u h =
        let (answer, s, called, h₁) = continue-eq-ok (call_http env lookup_call t) _ h in
        let (v, s₁, chosen, h₂) = continue-eq-ok (first_bug answer s) _ h₁ in
        let (bug_id, s₂, named, h₃) = continue-eq-ok (get_or_none "id" v s₁) _ h₂ in
        let (closed, s₃, tested, h₄) =
          continue-eq-ok (is_closed python env settings settings.bugzilla_reopen_state v s₂) _ h₃ in
        let (_, s₄, put, h₅) = continue-eq-ok (reopen bug_id closed s₃) _ h₄ in
        let (at, answered) = call_http-eq-ok env lookup_call answer t s called in
        let (bug, is_bug, is_id, at₂) = get_or_none-IsId v bug_id s₁ s₂ named in
        let (is_first, at₁) = first_bug-IsFirst answer v bug s s₁ chosen is_bug in
        let (at₃, is_closed_bug) = is_closed-eq-ok v bug closed s₂ s₃ is_bug tested in
        let (same, at₄) = pure-eq-ok bug_id parent s₄ u h₅ in
        let there : s₃ ≡ http lookup_call ∷ t = at₃ ∙ at₂ ∙ at₁ ∙ at in
        rw same (elim (reopen-eq-ok bug_id closed s₃ s₄ put) [
          | inl (wanted, last) ↦
              subst (Tracked bug_id t)
                (sym (at₄ ∙ last ∙ ap (λ s. http (reopen_call bug_id) ∷ s) there))
                (reopened answer bug bug_id answered is_first is_id (is_closed_bug wanted))
          | inr last ↦
              subst (Tracked bug_id t) (sym (at₄ ∙ last ∙ there))
                (known answer bug bug_id answered is_first is_id)
        ])

    create_bug-Tracked :
        (parent : Value) (t failed u : Trace)
        → length failed ≤ 2
        → create_bug python env settings (tracker_data python env settings host) (failed ++ t)
          ≡ (ok parent, u)
        → Tracked parent t u
    unfolding create_bug tracker_data
    create_bug-Tracked parent t failed u few h =
        let (answer, s₁, called, h₁) =
          continue-eq-ok (call_http env create_call (failed ++ t)) _ h in
        let (v, s₂, read, named) = continue-eq-ok (reply answer.json s₁) _ h₁ in
        let (at, answered) = call_http-eq-ok env create_call answer (failed ++ t) s₁ called in
        let (is_json, at₁) = reply-eq-ok answer.json v s₁ s₂ read in
        let (bug, is_bug, is_id, at₂) = get_or_none-IsId v parent s₂ u named in
        subst (Tracked parent t) (sym (at₂ ∙ at₁ ∙ at))
          (created failed answer bug parent few answered (is_json ∙ ap returns is_bug) is_id)

    pub find_tracker-Tracked :
        (parent : Value) (t u : Trace)
        → find_tracker python env settings host t ≡ (ok parent, u)
        → Tracked parent t u
    unfolding find_tracker create_or_update_bug
    find_tracker-Tracked parent t u h =
        elim (rescue-eq-ok
          (update_bug python env settings host.alias settings.bugzilla_reopen_state t)
          (λ _. create_bug python env settings (tracker_data python env settings host)) h) [
            | inl found ↦ update_bug-Tracked parent t u found
            | inr (e, s, failed, made) ↦
                let (new, at, few, _) =
                  update_bug-Bounded python env settings host.alias settings.bugzilla_reopen_state
                    t in
                let there : s ≡ new ++ t = sym (ap (λ r. r.1) failed) ∙ at in
                create_bug-Tracked parent t new u few (rw there at made)
          ]
