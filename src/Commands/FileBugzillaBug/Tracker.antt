-- ===== src/Commands/FileBugzillaBug/Tracker.antt =====
-- relops_hardware_controller/api/management/commands/file_bugzilla_bug.py: the bug that tracks the
-- host's problems.
use relops_hardware_controll.Commands.FileBugzillaBug.Values.{
  Python, show_value, truth, get_key, get_or_none,
}
use relops_hardware_controll.Commands.FileBugzillaBug.Setup.{
  first_bug, update, Host, bug_url, url_of, basic_payload,
}
use relops_hardware_controll.Prelude.{
  String, Option, none, some, [], ◌∷◌, Bool, not, is_empty, if◌then◌else◌,
}
use relops_hardware_controll.Json.Value.{Value, str, no_fields, field}
use relops_hardware_controll.Template.{safe_substitute}
use relops_hardware_controll.Settings.{Settings}
use relops_hardware_controll.Effects.{
  reply, Env, http_get, http_put, http_post, M, pure, ◌>>=◌, ◌>>◌, try◌except◌, when, call_http,
}

module _ (python : Python) (env : Env) (settings : Settings) where
  -- `if reopen_state and not response['is_open']`
  unfoldable pub is_closed : String → Value → M Bool
  unfolding get_key truth
  is_closed reopen_state bug =
      if is_empty reopen_state
      then pure Bool.false
      else (do is_open ← get_key "is_open" bug; pure (not (truth python is_open)))

  -- The body of the `try`: the id of the bug that was found.
  unfoldable pub update_bug : String → String → M Value
  unfolding get_key first_bug get_or_none is_closed show_value update
  update_bug key reopen_state = do
    response ← call_http env (http_get (url_of settings key) no_fields (basic_payload settings))
    bug ← first_bug response
    parent ← get_or_none "id" bug
    closed ← is_closed reopen_state bug
    when closed (do
      call_http env (
          http_put (url_of settings (show_value python parent))
            (update (basic_payload settings) (field "status" (str reopen_state) no_fields)))
      pure tt)
    pure parent

  unfoldable pub create_bug : String → M Value
  unfolding get_or_none
  create_bug content = do
    response ← call_http env (http_post (bug_url settings) content)
    created ← reply response.json
    get_or_none "id" created

  -- `bug_id if bug_id else alias`
  abbrev pub bug_key : Option String → String → String
  bug_key none alias = alias
  bug_key (some bug_id) alias = if is_empty bug_id then alias else bug_id

  -- A bare `except`.
  unfoldable pub create_or_update_bug : Option String → String → String → String → M Value
  unfolding update_bug create_bug
  create_or_update_bug bug_id alias content reopen_state =
      try update_bug (bug_key bug_id alias) reopen_state except λ e. create_bug content

  unfoldable pub tracker_data : Host → String
  unfolding safe_substitute
  tracker_data host =
      safe_substitute
        (("hostname", host.hostname)
          ∷ ("alias", host.alias)
          ∷ ("DC", host.datacenter)
          ∷ ("api_key", settings.bugzilla_api_key)
          ∷ [])
        settings.bugzilla_worker_tracker_template

  unfoldable pub find_tracker : Host → M Value
  unfolding create_or_update_bug tracker_data
  find_tracker host =
      create_or_update_bug none host.alias (tracker_data host) settings.bugzilla_reopen_state
