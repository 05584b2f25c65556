-- ===== src/Commands/Ping.antt =====
-- relops_hardware_controller/api/management/commands/ping.py
pub mod Laws
use relops_hardware_controll.Prelude.{ℕ, ◌+◌, String, [], ◌∷◌, show, join}
use relops_hardware_controll.Effects.{Env, M, ◌>>◌, shell, call_text}
use relops_hardware_controll.Validators.{validate_host}

-- The arguments `-c` and `-w`.
pub record Options : Type 0 where
  pub count : ℕ
  pub timeout : ℕ

abbrev pub default_options : Options
default_options = record { count = 4; timeout = 5 }

unfoldable pub command_line : String → Options → String
command_line host o = join " " (
    "set -e; ret=0; out=$(ping"
    ∷ "-q"
    ∷ "-c"
    ∷ show o.count
    ∷ "-w"
    ∷ show o.timeout
    ∷ host
    ∷ " 2>&1) || ret=$?; echo $out|tail -2|tr '\n' '\t'; exit $ret"
    ∷ [])

unfoldable pub handle : Env → String → Options → M String
handle env host o = do
  validate_host env host
  call_text env (shell (command_line host o) (2 + o.timeout))
