-- ===== src/Commands/Ipmitool.antt =====
-- relops_hardware_controller/api/management/commands/ipmitool.py
pub mod Laws
use relops_hardware_controll.Prelude.{
  ℕ, String, Bool, not, Option, none, some, List, [], ◌∷◌, ◌++◌, show, contains, if◌then◌else◌,
}
use relops_hardware_controll.Effects.{
  Env, ExnClass, soft_time_limit, validation_error, Exn, exn, M, pure, raise, ◌>>=◌, ◌>>◌,
  try◌except◌, process, call_text, when,
}
use relops_hardware_controll.Validators.{validate_host}

pub record Options : Type 0 where
  pub address : String
  pub password : String
  pub username : String
  pub interface : String
  pub privlvl : String
  pub port : ℕ
  pub timeout : ℕ

-- `-H`, `-U` and `-P` are required.
abbrev pub default_options : String → String → String → Options
default_options address username password = record {
  address = address;
  password = password;
  username = username;
  interface = "lanplus";
  privlvl = "OPERATOR";
  port = 623;
  timeout = 15;
}

abbrev pub privlvls : List String
privlvls = "CALLBACK" ∷ "USER" ∷ "OPERATOR" ∷ "ADMINISTRATOR" ∷ []

unfoldable pub validate_privlvl : String → M (Unit {0})
validate_privlvl privlvl = when (not (contains privlvls privlvl)) (
    raise (
      exn validation_error
        "Invalid privlvl must be one of CALLBACK, USER, OPERATOR, or ADMINISTRATOR"))

-- `if not len(command): raise`
unfoldable pub validate_command : List String → M (Unit {0})
validate_command [] = raise (exn validation_error "ipmitool requires a list of command args.")
validate_command (_ ∷ _) = pure tt

unfoldable pub call_args : List String → Options → List String
call_args command o =
    ("ipmitool"
      ∷ "-H"
      ∷ o.address
      ∷ "-I"
      ∷ o.interface
      ∷ "-L"
      ∷ o.privlvl
      ∷ "-p"
      ∷ show o.port
      ∷ "-U"
      ∷ o.username
      ∷ "-P"
      ∷ o.password
      ∷ [])
    ++ command

-- `except SoftTimeLimitExceeded as e: raise e`; any other exception is only logged, and the method
-- ends without a result.
abbrev pub ignore_failure : Exn → M (Option String)
ignore_failure e = elim e.cls [ soft_time_limit ↦ raise e | _ ↦ pure none ]

unfoldable pub run_tool : Env → List String → Options → M (Option String)
run_tool env command o = do
  output ← call_text env (process (call_args command o) o.timeout)
  pure (some output)

unfoldable pub handle : Env → List String → Options → M (Option String)
unfolding validate_privlvl validate_command call_args run_tool
handle env command o = do
  validate_command command
  validate_host env o.address
  validate_privlvl o.privlvl
  try run_tool env command o except ignore_failure
