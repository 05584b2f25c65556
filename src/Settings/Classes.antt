-- ===== src/Settings/Classes.antt =====
-- relops_hardware_controller/settings.py: the configurations `Dev`, `Prod` and `Test`, with a
-- WORKER_CONFIG_PATH and no other environment variable set.
use relops_hardware_controll.Prelude.{String, ◌<>◌, List, [], ◌∷◌, map}
use relops_hardware_controll.Settings.{Config, Settings, base_settings}

abbrev pub dev_settings : Config → Settings
dev_settings worker_config = record (base_settings worker_config) {
  cors_origin = "*";
  bugzilla_url = "https://landfill.bugzilla.org/bugzilla-5.0-branch/rest/";
}

abbrev pub prod_settings : Config → Settings
prod_settings worker_config = record (base_settings worker_config) {
  cors_origin = "tools.taskcluster.net";
}

abbrev pub test_task_names : List String
test_task_names = "ping" ∷ []

-- The scopes have another prefix than those of `Base`.
abbrev pub test_scope_sets : List (List String)
test_scope_sets =
    map (λ task_name. ("project:relops-hardware-controller:" <> task_name) ∷ []) test_task_names

abbrev pub test_settings : Config → Settings
test_settings worker_config = record (base_settings worker_config) {
  cors_origin = "localhost";
  bugzilla_url = "https://landfill.bugzilla.org/bugzilla-5.0-branch/rest/";
  bugzilla_api_key = "anything";
  xen_url = "https://xenapiserver/";
  xen_username = "xen_dev_username";
  xen_password = "anything_zen_password";
  ilo_username = "ilo_dev_username";
  ilo_password = "anything_ilo_password";
  taskcluster_client_id = "test-tc-client-id";
  taskcluster_access_token = "test-tc-access-token";
  task_names = test_task_names;
  required_scope_sets = test_scope_sets;
}
