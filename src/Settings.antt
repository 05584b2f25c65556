-- ===== src/Settings.antt =====
-- relops_hardware_controller/settings.py: the values that the program reads, and the parsed
-- WORKER_CONFIG file. A dictionary that may lack a key has an `Option` for it.
pub mod Classes
pub mod Services
use relops_hardware_controll.Prelude.{ℕ, String, ◌<>◌, Bool, true, Option, List, [], ◌∷◌, map}
use relops_hardware_controll.Json.Printer.{dumps}

pub record Ssh : Type 0 where
  pub user : Option String
  pub key_file : Option String

-- An entry of `servers`.
pub record Server : Type 0 where
  pub parent : Option String
  pub addr : Option String
  pub hwtype : Option String
  pub user : Option String
  pub password : Option String
  pub bug_cc : Option String
  pub ssh : Option Ssh
  pub pdu : Option String
  -- `server['xen']` and its key `reboot`
  pub xen : Option (Option (List String))
  pub ilo : Option (String × List String)

-- An entry of `types`.
pub record HwType : Type 0 where
  pub args : Option (List String)
  pub addr_map : Option (List (String × List String))
  pub commands : Option (List (String × List String))

pub record Config : Type 0 where
  pub servers : List (String × Server)
  pub types : List (String × HwType)
  pub snmp_community_string : Option String

pub record Settings : Type 0 where
  pub task_names : List String
  pub required_scope_sets : List (List String)
  -- the match of VALID_WORKER_ID_REGEX
  pub valid_worker_id : String → Bool
  pub cors_origin : String
  pub notify_email : String
  pub notify_irc_channel : String
  pub taskcluster_client_id : String
  pub taskcluster_access_token : String
  pub bugzilla_url : String
  pub bugzilla_api_key : String
  pub bugzilla_reopen_state : String
  pub bugzilla_reboot_template : String
  pub bugzilla_worker_tracker_template : String
  pub xen_url : String
  pub xen_username : String
  pub xen_password : String
  pub ilo_username : String
  pub ilo_password : String
  pub worker_config : Config
  pub down_timeout : ℕ
  pub up_timeout : ℕ
  pub reboot_methods : List String

-- TASK_NAMES of the class `Base`.
abbrev pub base_task_names : List String
base_task_names =
    "ping" ∷ "status" ∷ "reboot" ∷ "ipmi_off" ∷ "ipmi_on" ∷ "ipmi_list" ∷ "ipmi_cycle"
    ∷ "ipmi_reset" ∷ "reimage" ∷ "loan" ∷ "return_loan" ∷ []

-- REQUIRED_TASKCLUSTER_SCOPE_SETS of the class `Base`: one set for each task, with one scope.
abbrev pub scope_sets : List String → List (List String)
scope_sets = map (λ task_name. ("project:releng:roller:" <> task_name) ∷ [])

-- REBOOT_METHODS of the class `Base`.
abbrev pub base_reboot_methods : List String
base_reboot_methods =
    "ssh_reboot" ∷ "ipmi_reset" ∷ "ipmi_cycle" ∷ "snmp_reboot" ∷ "file_bugzilla_bug" ∷ []

-- BUGZILLA_REBOOT_TEMPLATE of the class `Base`.
unfoldable pub base_reboot_template : String
unfolding dumps
base_reboot_template = dumps (
    ("api_key", "${api_key}")
    ∷ ("product", "Infrastructure & Operations")
    ∷ ("component", "DCOps")
    ∷ ("cc", "${cc}")
    ∷ ("summary", "${hostname} is unreachable")
    ∷ ("version", "unspecified")
    ∷ (
      "description",
      "Reboot ${hostname} ${ip}\nRequested by ${client_id}\nRelops controller action failed:${log}",
    )
    ∷ ("blocks", "${blocks}")
    ∷ [])

-- BUGZILLA_WORKER_TRACKER_TEMPLATE of the class `Base`.
unfoldable pub base_tracker_template : String
unfolding dumps
base_tracker_template = dumps (
    ("api_key", "${api_key}")
    ∷ ("product", "Infrastructure & Operations")
    ∷ ("component", "CIDuty")
    ∷ ("summary", "[${DC}] ${alias} problem tracking")
    ∷ ("version", "unspecified")
    ∷ ("alias", "${alias}")
    ∷ [])

-- The class `Base` with a WORKER_CONFIG_PATH, the file's parsed content, and no other environment
-- variable set; secrets, which have no default, are empty. VALID_WORKER_ID_REGEX is `^.*`.
abbrev pub base_settings : Config → Settings
base_settings worker_config = record {
  task_names = base_task_names;
  required_scope_sets = scope_sets base_task_names;
  valid_worker_id = λ _. true;
  cors_origin = "";
  notify_email = "";
  notify_irc_channel = "#roller";
  taskcluster_client_id = "";
  taskcluster_access_token = "";
  bugzilla_url = "https://bugzilla.mozilla.org";
  bugzilla_api_key = "";
  bugzilla_reopen_state = "REOPENED";
  bugzilla_reboot_template = base_reboot_template;
  bugzilla_worker_tracker_template = base_tracker_template;
  xen_url = "";
  xen_username = "";
  xen_password = "";
  ilo_username = "";
  ilo_password = "";
  worker_config = worker_config;
  down_timeout = 60;
  up_timeout = 300;
  reboot_methods = base_reboot_methods;
}
