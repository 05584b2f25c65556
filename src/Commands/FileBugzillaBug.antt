-- ===== src/Commands/FileBugzillaBug.antt =====
-- relops_hardware_controller/api/management/commands/file_bugzilla_bug.py
mod Values
mod Setup
mod Tracker
mod Report
pub mod Laws
unfoldable pub use Values.*
unfoldable pub use Setup.*
unfoldable pub use Tracker.*
unfoldable pub use Report.*
use relops_hardware_controll.Prelude.{
  ℕ, String, ◌<>◌, Option, none, some, List, [], ◌∷◌, ◌++◌, map, Bool, not, ◌&&◌, includes, split,
  upper, replace_text, contains, get_elem?, is_empty, if◌then◌else◌,
}
use relops_hardware_controll.Json.Value.{
  Value, null, str, array, object, no_items, item, Fields, no_fields, field, get,
}
use relops_hardware_controll.Json.Reader.{loads}
use relops_hardware_controll.Template.{safe_substitute}
use relops_hardware_controll.Settings.{Settings}
use relops_hardware_controll.Effects.{
  Env, index_error, type_error, other, exn, HttpAnswer, http_get, http_put, http_post, M, of_reply,
  Reply, pure, raise, ◌>>=◌, ◌>>◌, try◌except◌, when, call_http,
}

module _ (python : Python) (env : Env) (settings : Settings) where
  -- The update that says which bug is blocked.
  unfoldable pub blocking : Value → Fields → Fields
  unfolding update
  blocking parent updates = update (basic_payload settings) (
      update
        (field "blocks" (object (field "add" (array (item parent no_items)) no_fields)) no_fields)
        updates)

  abbrev pub message_of : Value → String
  message_of bug_id = settings.bugzilla_url <> "/show_bug.cgi?id=" <> show_value python bug_id

  unfoldable pub confirm : Value → Value × Fields → M String
  unfolding blocking show_value
  confirm parent bug = do
    call_http env (http_put (url_of settings (show_value python bug.0)) (blocking parent bug.1))
    pure (message_of bug.0)

  unfoldable pub handle : String → Value → Options → M String
  unfolding host_of find_tracker reboot_payload find_or_file_bug confirm
  handle hostname job_data options = do
    host ← host_of settings hostname
    parent ← find_tracker python env settings host
    payload ← reboot_payload python env settings host parent job_data options
    bug ← find_or_file_bug python env settings payload
    confirm parent bug
