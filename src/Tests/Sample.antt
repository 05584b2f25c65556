-- ===== src/Tests/Sample.antt =====
-- A small world: a host that answers pings but not right after a reboot over ssh, and services that
-- are up.
use relops_hardware_controll.Prelude.{
  ◌≡◌, refl, ℕ, ◌+◌, ◌*◌, String, ◌<>◌, Option, none, some, List, [], ◌∷◌, Bool, false, ◌≤◌, ◌==◌,
  if◌then◌else◌, arith,
}
use relops_hardware_controll.Effects.{
  Env, Event, Trace, exn, called_process, sleep, process, returns, raises, Outcome, ok, err,
  HawkAnswer, level, key_error,
}
use relops_hardware_controll.Effects.Clock.{second, IsSteady}
use relops_hardware_controll.Settings.{Settings, Server, Config, base_settings}
use relops_hardware_controll.Job.{JobData}
use relops_hardware_controll.Json.Value.{null}
use relops_hardware_controll.Commands.Runner.{Runner, IsSound}

-- The seconds slept so far.
abbrev pub clock : Trace → ℕ
clock [] = 0
clock (sleep n ∷ t) = clock t + n * second
clock (_ ∷ t) = clock t

abbrev pub accepted_answer : HawkAnswer
accepted_answer = record {
  client_id = some "mozilla-ldap/jdoe@mozilla.com";
  status = some "auth-success";
  message = none;
  scopes = some ("project:releng:roller:ping" ∷ []);
}

abbrev pub env : Env
env = record {
  unit_reply = λ _. returns tt;
  text_reply = λ _. returns "done";
  hawk_reply = λ _. returns accepted_answer;
  http_reply = λ _. returns (record { raise_for_status = returns tt; json = returns null });
  dns_reply = λ _. returns ("t-1.test.releng.mdc1.mozilla.com", "10.0.0.1");
  now = clock;
  validate_ipv46_address =
      λ s. if s == "10.0.0.1" then returns tt else raises (exn key_error "address");
  first_level = 20;
  utc_iso = λ _. "2018-01-01T00:00:00";
  utc_hms = λ _. "00:00:00";
  three_digits = λ start end. "0";
}

abbrev pub offline_env : Env
offline_env = record env {
  dns_reply = λ _. raises (exn key_error "NXDOMAIN");
  text_reply = λ _. raises (exn called_process "failed");
}

pub env-IsSteady : IsSteady env
env-IsSteady = record { monotone = λ e t. later e t; slept = λ n t. omega arith }
  where
    later : (e : Event) (t : Trace) → clock t ≤ clock (e ∷ t)
    later (sleep n) t = omega arith
    later _ t = omega arith

abbrev pub is_ssh : Trace → Bool
is_ssh (process (name ∷ _) _ ∷ t) = name == "ssh_reboot"
is_ssh _ = false

-- `ipmi` fails; a ping fails right behind `ssh_reboot`.
abbrev pub answer : String → Trace → Outcome (Option String)
answer name t =
    if name == "ipmi"
    then err (exn called_process "no ipmi")
    else if name == "ping"
    then (if is_ssh t then err (exn called_process "no answer") else ok (some "alive"))
    else ok (some "done")

abbrev pub runner : Runner
runner = record {
  call = λ name args t. (answer name t, process (name ∷ args) 0 ∷ t);
  written = λ output. elim output [ some s ↦ s <> "\n" | none ↦ "" ];
}

pub runner-IsSound : IsSound runner
runner-IsSound = record {
  grows = λ name args t. (process (name ∷ args) 0 ∷ [], refl);
  finishes = λ name args t. ground arith;
}

pub runner_level :
    (name : String) (args : List String) (s : Trace)
    → level env (runner.call name args s).1 ≡ level env s
runner_level name args s = refl

abbrev pub no_server : Server
no_server = record {
  parent = none;
  addr = none;
  hwtype = none;
  user = none;
  password = none;
  bug_cc = none;
  ssh = none;
  pdu = none;
  xen = none;
  ilo = none;
}

abbrev pub config : Config
config = record {
  servers = ("t-1", no_server) ∷ [];
  types = [];
  snmp_community_string = some "public";
}

abbrev pub settings : Settings
settings = record (base_settings config) {
  worker_config = config;
  reboot_methods = "ipmi_reset" ∷ "ssh_reboot" ∷ "file_bugzilla_bug" ∷ [];
}

abbrev pub job : JobData
job = record {
  http_origin = "https://tools.taskcluster.net";
  client_id = "mozilla-ldap/jdoe@mozilla.com";
  provisioner_id = "releng";
  worker_type = "t-linux";
  worker_group = "mdc1";
  worker_id = "t-1";
  task_name = "ping";
  ip = "";
}
