-- ===== src/Commands/FileBugzillaBug/Laws/Reported.antt =====
-- file_bugzilla_bug.py: where the bug about the host comes from.
use relops_hardware_controll.Commands.FileBugzillaBug.Laws.Inversion.{
  IsListed, rescue-eq-ok, call_http-eq-ok, get_key-eq-ok, first_id-IsListed, loads_or_raise-eq-ok,
}
use relops_hardware_controll.Commands.FileBugzillaBug.Laws.Written.{
  Searched, search_params-Searched,
}
use relops_hardware_controll.Commands.FileBugzillaBug.Laws.{find_bug-Bounded}
use relops_hardware_controll.Prelude.{
  ◌≡◌, ◌⊎◌, inl, inr, sym, ap, subst, ◌∙◌, String, some, ◌∷◌, ◌++◌, length, ◌≤◌, arith,
}
use relops_hardware_controll.Json.Value.{Value, object, Fields, no_fields, field, get}
use relops_hardware_controll.Json.Reader.{loads}
use relops_hardware_controll.Settings.{Settings}
use relops_hardware_controll.Effects.{
  Env, Trace, ok, returns, HttpCall, HttpAnswer, http_get, http_post, http, call_http, reply,
}
use relops_hardware_controll.Effects.Laws.{continue-eq-ok, pure-eq-ok, reply-eq-ok}
use relops_hardware_controll.Commands.FileBugzillaBug.{
  Python, bug_url, basic_payload, get_key, first_bug, loads_or_raise, search_params, find_bug,
  file_bug, find_or_file_bug, comment_of,
}

-- The bug is the one that an accepted report has made.
abbrev pub IsMade : HttpAnswer → Value → Type 0
IsMade answer bug_id =
    (created : Fields) × (answer.raise_for_status ≡ returns tt)
    × (answer.json ≡ returns (object created))
    × (get "id" created ≡ some bug_id)

module _ (python : Python) (env : Env) (settings : Settings) where
  abbrev pub search_call : Fields → HttpCall
  search_call params = http_get (bug_url settings) params (basic_payload settings)

  -- The bug that the search for the text's bug lists first, with the text's description as a comment.
  abbrev pub Listed : String → Value × Fields → Trace → Trace → Type 0
  Listed payload bug t s =
      (params : Fields) × (answer : HttpAnswer) × (content : Fields) × (description : Value)
      × Searched python env settings payload params
      × (s ≡ http (search_call params) ∷ t)
      × (env.http_reply s ≡ returns answer)
      × IsListed answer bug.0
      × (loads payload ≡ some (object content))
      × (get "description" content ≡ some description)
      × (bug.1 ≡ field "comment" (object (field "body" description no_fields)) no_fields)

  -- The bug of a new report of the text, without a comment.
  abbrev pub Made : String → Value × Fields → Trace → Trace → Type 0
  Made payload bug t s =
      (answer : HttpAnswer) × (s ≡ http (http_post (bug_url settings) payload) ∷ t)
      × (env.http_reply s ≡ returns answer)
      × IsMade answer bug.0
      × (bug.1 ≡ no_fields)

  file_bug-Made :
      (payload : String) (bug : Value × Fields) (t u : Trace)
      → file_bug python env settings payload t ≡ (ok bug, u)
      → Made payload bug t u
  unfolding file_bug
  file_bug-Made payload bug t u h =
      let post = http_post (bug_url settings) payload in
      let (answer, s, called, h₁) = continue-eq-ok (call_http env post t) _ h in
      let (done, s₁, checked, h₂) = continue-eq-ok (reply answer.raise_for_status s) _ h₁ in
      let (created, s₂, read, h₃) = continue-eq-ok (reply answer.json s₁) _ h₂ in
      let (bug_id, s₃, taken, h₄) = continue-eq-ok (get_key "id" created s₂) _ h₃ in
      let (at, answered) = call_http-eq-ok env post answer t s called in
      let (accepted, at₁) = reply-eq-ok answer.raise_for_status done s s₁ checked in
      let (is_json, at₂) = reply-eq-ok answer.json created s₁ s₂ read in
      let (kvs, is_object, has_id, at₃) = get_key-eq-ok "id" created bug_id s₂ s₃ taken in
      let gave : bug ≡ (bug_id, no_fields) = ground arith in
      let there : u ≡ s = ground arith in
      (
        answer,
        there ∙ at,
        ap env.http_reply (there ∙ at) ∙ answered,
        subst (IsMade answer) (ap (λ b. b.0) (sym gave))
            (kvs, accepted, is_json ∙ ap returns is_object, has_id),
        ap (λ b. b.1) gave,
      )

  find_bug-Listed :
      (payload : String) (bug : Value × Fields) (t u : Trace)
      → find_bug python env settings payload t ≡ (ok bug, u)
      → Listed payload bug t u
  unfolding find_bug
  find_bug-Listed payload bug t u h =
      let (params, s, computed, h₁) =
        continue-eq-ok (search_params python env settings payload t) _ h in
      let (answer, s₁, called, h₂) = continue-eq-ok (call_http env (search_call params) s) _ h₁ in
      let (first, s₂, chosen, h₃) = continue-eq-ok (first_bug answer s₁) _ h₂ in
      let (bug_id, s₃, named, h₄) = continue-eq-ok (get_key "id" first s₂) _ h₃ in
      let (v, s₄, parsed, h₅) =
        continue-eq-ok (loads_or_raise python env settings payload s₃) _ h₄ in
      let (description, s₅, described, h₆) = continue-eq-ok (get_key "description" v s₄) _ h₅ in
      let (searched, at) = search_params-Searched python env settings payload params t s computed in
      let (at₁, answered) = call_http-eq-ok env (search_call params) answer s s₁ called in
      let (listed, at₂) = first_id-IsListed answer first bug_id s₁ s₂ s₃ chosen named in
      let (is_v, at₃) = loads_or_raise-eq-ok python env settings payload v s₃ s₄ parsed in
      let (content, is_object, has, at₄) =
        get_key-eq-ok "description" v description s₄ s₅ described in
      let (gave, at₅) =
        pure-eq-ok (bug_id, comment_of python env settings description) bug s₅ u h₆ in
      let there : u ≡ http (search_call params) ∷ s = at₅ ∙ at₄ ∙ at₃ ∙ at₂ ∙ at₁ in
      (
        params,
        answer,
        content,
        description,
        searched,
        there ∙ ap (λ s. http (search_call params) ∷ s) at,
        ap env.http_reply there ∙ answered,
        subst (IsListed answer) (ap (λ b. b.0) (sym gave)) listed,
        is_v ∙ ap some is_object,
        has,
        ap (λ b. b.1) gave,
      )

  pub find_or_file_bug-eq-ok :
      (payload : String) (bug : Value × Fields) (t u : Trace)
      → find_or_file_bug python env settings payload t ≡ (ok bug, u)
      → Listed payload bug t u
        ⊎ ((failed : Trace) × (length failed ≤ 1) × Made payload bug (failed ++ t) u)
  unfolding find_or_file_bug
  find_or_file_bug-eq-ok payload bug t u h =
      elim (rescue-eq-ok (find_bug python env settings payload t)
        (λ _. file_bug python env settings payload) h) [
          | inl listed ↦ inl (find_bug-Listed payload bug t u listed)
          | inr (e, s, raised, made) ↦
              let (failed, at, few, _) = find_bug-Bounded python env settings payload t in
              let there : s ≡ failed ++ t = sym (ap (λ r. r.1) raised) ∙ at in
              inr (failed, few, rw there at (file_bug-Made payload bug s u made))
        ]
