-- ===== src/Commands/FileBugzillaBug/Report.antt =====
-- relops_hardware_controller/api/management/commands/file_bugzilla_bug.py: the bug about the host
-- that cannot be reached.
use relops_hardware_controll.Commands.FileBugzillaBug.Values.{
  Python, show_value, type_name, get_key, get_items,
}
use relops_hardware_controll.Commands.FileBugzillaBug.Setup.{
  first_bug, Options, option_items, update, Host, bug_url, basic_payload,
}
use relops_hardware_controll.Prelude.{
  String, ◌<>◌, none, some, List, [], ◌∷◌, ◌++◌, contains, if◌then◌else◌,
}
use relops_hardware_controll.Json.Value.{Value, str, object, Fields, no_fields, field, get}
use relops_hardware_controll.Json.Reader.{loads}
use relops_hardware_controll.Template.{safe_substitute}
use relops_hardware_controll.Settings.{Settings}
use relops_hardware_controll.Effects.{
  reply, Env, type_error, other, exn, http_get, http_post, M, pure, raise, ◌>>=◌, ◌>>◌, try◌except◌,
  call_http,
}

module _ (python : Python) (env : Env) (settings : Settings) where
  -- Keyword arguments: a repeated one is an error.
  unfoldable pub keywords : List String → List (String × String) → M (List (String × String))
  keywords seen [] = pure []
  keywords seen (kv ∷ kvs) =
      let rest = keywords (kv.0 ∷ seen) kvs in
      if contains seen kv.0
      then raise (
          exn type_error
            ("safe_substitute() got multiple values for keyword argument '" <> kv.0 <> "'"))
      else (do more ← rest; pure (kv ∷ more))

  -- The pairs of a dictionary, without the earlier ones of a repeated key.
  unfoldable pub dict_items : Fields → List (String × String)
  unfolding get show_value
  dict_items no_fields = []
  dict_items (field k v fields) =
      let rest = dict_items fields in
      elim (get k fields) [ some later ↦ rest | none ↦ (k, show_value python v) ∷ rest ]

  -- `**job_data`
  unfoldable pub mapping_items : Value → M (List (String × String))
  unfolding dict_items type_name
  mapping_items (object fields) = pure (dict_items fields)
  mapping_items v = raise (
      exn type_error ("safe_substitute() argument after ** must be a mapping, not " <> type_name v))

  -- The keyword arguments of `safe_substitute`.
  abbrev pub mapping_of : Host → Value → List (String × String) → Options → List (String × String)
  mapping_of host parent job_items options =
      ("hostname", host.hostname)
      ∷ ("alias", host.alias)
      ∷ ("DC", host.datacenter)
      ∷ ("blocks", show_value python parent)
      ∷ (job_items ++ option_items options ++ (("api_key", settings.bugzilla_api_key) ∷ []))

  -- The text of the bug about the host.
  unfoldable pub reboot_payload : Host → Value → Value → Options → M String
  unfolding mapping_items keywords safe_substitute
  reboot_payload host parent job_data options = do
    job_items ← mapping_items job_data
    mapping ← keywords [] (mapping_of host parent job_items options)
    pure (safe_substitute mapping settings.bugzilla_reboot_template)

  unfoldable pub loads_or_raise : String → M Value
  unfolding loads
  loads_or_raise text = elim (loads text) [
    | some v ↦ pure v
    | none ↦ raise (exn (other "JSONDecodeError") "")
  ]

  unfoldable pub keep : List String → Fields → Fields
  keep keys no_fields = no_fields
  keep keys (field k v fields) =
      if contains keys k then field k v (keep keys fields) else keep keys fields

  -- The parameters of the search.
  unfoldable pub search_params : String → M Fields
  unfolding loads_or_raise get_items keep update
  search_params payload = do
    value ← loads_or_raise payload
    fields ← get_items value
    pure (
        update (keep ("summary" ∷ "product" ∷ "component" ∷ []) fields)
          (field "resolution" (str "---") no_fields))

  abbrev pub comment_of : Value → Fields
  comment_of description = field "comment" (object (field "body" description no_fields)) no_fields

  -- The body of the second `try`: `bug_id` and `updates`.
  unfoldable pub find_bug : String → M (Value × Fields)
  unfolding search_params get_key first_bug loads_or_raise
  find_bug payload = do
    params ← search_params payload
    response ← call_http env (http_get (bug_url settings) params (basic_payload settings))
    bug ← first_bug response
    bug_id ← get_key "id" bug
    content ← loads_or_raise payload
    description ← get_key "description" content
    pure (bug_id, comment_of description)

  unfoldable pub file_bug : String → M (Value × Fields)
  unfolding get_key
  file_bug payload = do
    response ← call_http env (http_post (bug_url settings) payload)
    reply response.raise_for_status
    created ← reply response.json
    bug_id ← get_key "id" created
    pure (bug_id, no_fields)

  unfoldable pub find_or_file_bug : String → M (Value × Fields)
  unfolding find_bug file_bug
  find_or_file_bug payload = try find_bug payload except λ e. file_bug payload
