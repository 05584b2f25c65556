-- ===== src/Commands/RegisterTcActions.antt =====
-- relops_hardware_controller/api/management/commands/register_tc_actions.py
pub mod Laws
use relops_hardware_controll.Prelude.{
  ℕ, String, ◌<>◌, count, Option, none, some, List, [], ◌∷◌, Bool, true, false, not, ◌&&◌, ◌||◌,
  ◌==◌, leb, eqb, all_chars, is_empty, includes, chomp, replace_text, lookup, if◌then◌else◌,
}
use relops_hardware_controll.Settings.{Settings}
use relops_hardware_controll.Api.Routes.{Pattern, job_list_pattern}
use relops_hardware_controll.Effects.{
  Env, validation_error, module_not_found, exn, TaskAction, declare_provisioner, Reply, M, reply,
  pure, raise, ◌>>=◌, ◌>>◌, when, call_unit,
}

-- What the command uses of Django: `URLValidator(schemes=['http', 'https'])`, `urlencode`, and
-- `reverse` of a name that one pattern has, with its keyword arguments.
pub record Django : Type 0 where
  pub validate_url : String → Reply (Unit {0})
  pub urlencode : List (String × String) → String
  pub reverse : Pattern → List (String × String) → Reply String

-- The `help` of the commands' classes.
abbrev pub helps : List (String × String)
helps =
    (
      "file_bugzilla_bug",
      "Files a new bugzilla bug for the host. Raises for exceptions for bad or invalid responses.",
    )
    ∷ ("ilo_reboot", "Reboots a server using HP's iLO interface.")
    ∷ ("ipmi", "Use ipmitool to perform command.")
    ∷ ("ipmitool", "Runs a command with ipmitool. Raises exception on timeout.")
    ∷ ("ping", "Tries to ICMP ping the host. Raises for exceptions for a lost packet or timeout.")
    ∷ ("reboot", "Tries reboot actions from REBOOT_METHODS environment var.")
    ∷ (
      "register_tc_actions",
      "Registers actions on a TC provisioner for HW management API tasks. Requires\nTASKCLUSTER_CLIENT_ID and TASKCLUSTER_ACCESS_TOKEN in settings or env vars with\nTC scope: queue:declare-provisioner:<my_provisioner_id>#actions.\n\nExample usage:\n\n./manage.py register_tc_actions --settings relops_hardware_controller.settings\nhttp://localhost:8000 test-dummy-provisioner",
    )
    ∷ ("snmp_reboot", "Reboots a server using snmp to powercycle its PDU.")
    ∷ (
      "ssh_reboot",
      "Reboots a server with ssh. The account it uses should use\n    ForceCommand to only run the reboot command. Raises an exception on\n    timeout.",
    )
    ∷ ("xenapi_reboot", "Reboots a server using XenAPI.")
    ∷ []

unfoldable pub help_text : String → Option String
help_text task_name = lookup task_name helps

-- `load_command_class('relops_hardware_controller.api', task_name).help`
unfoldable pub help_of : String → M String
unfolding help_text
help_of task_name = elim (help_text task_name) [
  | some help ↦ pure help
  | none ↦ raise (
      exn module_not_found (
        "No module named 'relops_hardware_controller.api.management.commands." <> task_name <> "'"))
]

-- `^[…]{1,256}$` for a set of characters.
abbrev pub fits : (ℕ → Bool) → String → Bool
fits allowed s = leb 1 (count s) && leb (count s) 256 && all_chars allowed s

unfoldable pub matches : (ℕ → Bool) → String → Bool
unfolding all_chars chomp
matches allowed s = fits allowed s || fits allowed (chomp s)

-- `[-_a-zA-Z0-9]`
abbrev pub is_word : ℕ → Bool
is_word c =
    eqb c b'-'
    || eqb c b'_'
    || (leb b'a' c && leb c b'z')
    || (leb b'A' c && leb c b'Z')
    || (leb b'0' c && leb c b'9')

-- `[-@_a-zA-Z0-9/\.]`
abbrev pub is_client_id_char : ℕ → Bool
is_client_id_char c = is_word c || eqb c b'@' || eqb c b'/' || eqb c b'.'

-- `[^ ;,]`
abbrev pub is_token_char : ℕ → Bool
is_token_char c = not (eqb c b' ' || eqb c b';' || eqb c b',')

-- `if test: raise ValidationError(message)`
abbrev pub refuse_if : Bool → String → M (Unit {0})
refuse_if test message = when test (raise (exn validation_error message))

unfoldable pub validate_credentials : Settings → M (Unit {0})
unfolding matches is_empty
validate_credentials settings = do
  refuse_if (is_empty settings.taskcluster_client_id) "No TASKCLUSTER_CLIENT_ID in env."
  refuse_if (is_empty settings.taskcluster_access_token) "No TASKCLUSTER_ACCESS_TOKEN in env."
  refuse_if (not (matches is_client_id_char settings.taskcluster_client_id))
      "Invalid TASKCLUSTER_CLIENT_ID in env."
  refuse_if (not (matches is_token_char settings.taskcluster_access_token))
      "Invalid TASKCLUSTER_ACCESS_TOKEN in env."

-- `'workerId' in s or 'workerGroup' in s`
unfoldable pub has_parameter : String → Bool
unfolding includes
has_parameter s = includes "workerId" s || includes "workerGroup" s

unfoldable pub validate_base_url : Django → String → M (Unit {0})
unfolding has_parameter
validate_base_url django base_url = do
  refuse_if (has_parameter base_url)
      "Invalid base_url. It cannnot include \"workerId\" or \"workerGroup\"."
  reply (django.validate_url base_url)

unfoldable pub validate_provisioner_id : String → M (Unit {0})
unfolding has_parameter matches
validate_provisioner_id provisioner_id = do
  refuse_if (has_parameter provisioner_id)
      "Invalid provisioner_id. It cannnot include \"workerId\" or \"workerGroup\"."
  refuse_if (not (matches is_word provisioner_id))
      "Invalid provisioner_id. Does not match regex for alphanumeric dash and underscore characters."

-- `url.replace('workerId', '<workerId>').replace('workerGroup', '<workerGroup>') + '?' + query_params`
unfoldable pub action_url : Django → String → String → String → String
unfolding replace_text
action_url django base_url uri task_name =
    replace_text "workerGroup" "<workerGroup>"
      (replace_text "workerId" "<workerId>" (base_url <> uri))
    <> "?"
    <> django.urlencode (("task_name", task_name) ∷ [])

abbrev pub job_list_kwargs : List (String × String)
job_list_kwargs = ("worker_id", "workerId") ∷ ("worker_group", "workerGroup") ∷ []

-- One round of the loop.
unfoldable pub action : Django → String → String → M TaskAction
unfolding help_of action_url
action django base_url task_name = do
  help ← help_of task_name
  uri ← reply (django.reverse job_list_pattern job_list_kwargs)
  pure (record {
    name = task_name;
    title = task_name;
    url = action_url django base_url uri task_name;
    description = help;
  })

unfoldable pub actions_of : Django → String → List String → M (List TaskAction)
unfolding action
actions_of django base_url [] = pure []
actions_of django base_url (task_name ∷ task_names) = do
  first ← action django base_url task_name
  more ← actions_of django base_url task_names
  pure (first ∷ more)

unfoldable pub handle : Django → Env → Settings → String → String → M (Unit {0})
unfolding validate_base_url validate_provisioner_id validate_credentials actions_of
handle django env settings base_url provisioner_id = do
  validate_base_url django base_url
  validate_provisioner_id provisioner_id
  validate_credentials settings
  actions ← actions_of django base_url settings.task_names
  call_unit env (declare_provisioner provisioner_id actions)
