-- ===== src/Commands/SshReboot.antt =====
-- relops_hardware_controller/api/management/commands/ssh_reboot.py
pub mod Laws
use relops_hardware_controll.Prelude.{ℕ, String, ◌<>◌, List, [], ◌∷◌, ◌++◌, show}
use relops_hardware_controll.Effects.{
  Env, ExnClass, called_process, command_error, Exn, exn, Outcome, ok, err, pending, Trace, M,
  raise, ◌>>=◌, ◌>>◌, process, call_text, try◌except◌,
}
use relops_hardware_controll.Validators.{validate_host}

pub record Options : Type 0 where
  pub login_name : String
  pub identity_file : String
  pub port : ℕ
  pub timeout : ℕ

-- `-l` and `-i` are required, `-p` and `--timeout` have defaults.
abbrev pub default_options : String → String → Options
default_options login_name identity_file = record {
  login_name = login_name;
  identity_file = identity_file;
  port = 22;
  timeout = 5;
}

unfoldable pub base_args : String → Options → List String
base_args hostname o =
    "ssh"
    ∷ "-o"
    ∷ "PasswordAuthentication=no"
    ∷ "-o"
    ∷ "ServerAliveInterval=2"
    ∷ "-o"
    ∷ "LogLevel=ERROR"
    ∷ "-o"
    ∷ "StrictHostKeyChecking=no"
    ∷ "-o"
    ∷ "UserKnownHostsFile=/dev/null"
    ∷ "-i"
    ∷ o.identity_file
    ∷ "-l"
    ∷ o.login_name
    ∷ "-p"
    ∷ show o.port
    ∷ hostname
    ∷ []

abbrev pub reboot_cmds : List String
reboot_cmds = "reboot" ∷ "shutdown -f -t 3 -r" ∷ []

-- `except subprocess.CalledProcessError`: any other exception goes on.
abbrev pub on_called_process : Exn → M String → M String
on_called_process e next = elim e.cls [ called_process ↦ next | _ ↦ raise e ]

-- The loop over the commands, and the exception behind it.
unfoldable pub try_cmds : Env → String → Options → List String → M String
unfolding base_args
try_cmds env hostname o [] =
    raise (exn command_error (hostname <> " All ssh reboot commands failed."))
try_cmds env hostname o (reboot_cmd ∷ cmds) =
    try call_text env (process (base_args hostname o ++ (reboot_cmd ∷ [])) o.timeout) except λ e.
    on_called_process e (try_cmds env hostname o cmds)

unfoldable pub handle : Env → String → Options → M String
unfolding try_cmds
handle env hostname o = do validate_host env hostname; try_cmds env hostname o reboot_cmds
