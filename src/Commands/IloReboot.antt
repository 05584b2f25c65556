-- ===== src/Commands/IloReboot.antt =====
-- relops_hardware_controller/api/management/commands/ilo_reboot.py
pub mod Laws
use relops_hardware_controll.Prelude.{
  ℕ, String, Option, none, some, true, false, is_empty, if◌then◌else◌,
}
use relops_hardware_controll.Effects.{
  Env, M, ◌>>=◌, ◌>>◌, try◌except◌, IloCall, connect, get_host_power_status, reset_server,
  set_host_power, ilo, sleep, call_unit, call_text,
}
use relops_hardware_controll.Settings.{Settings}
use relops_hardware_controll.Validators.{validate_host}

pub record Options : Type 0 where
  pub login : Option String
  pub password : Option String
  pub timeout : ℕ
  pub delay : ℕ

abbrev pub default_options : Options
default_options = record { login = none; password = none; timeout = 60; delay = 5 }

-- `options.get(name, None) or default`: an empty text is false too.
unfoldable pub or_default : Option String → String → String
unfolding is_empty
or_default none default = default
or_default (some s) default = if is_empty s then default else s

module _ (env : Env) where
  -- The handler of a failed soft reset.
  unfoldable pub hard_cycle : ℕ → M (Unit {0})
  hard_cycle delay = do
    call_unit env (ilo (set_host_power false))
    call_unit env (sleep delay)
    call_unit env (ilo (set_host_power true))

  unfoldable pub handle : Settings → String → Options → M (Unit {0})
  unfolding or_default
  handle settings hostname o = do
    validate_host env hostname
    call_unit env (
        ilo (
          connect hostname (or_default o.login settings.ilo_username)
            (or_default o.password settings.ilo_password) o.timeout))
    _ ← call_text env (ilo get_host_power_status)
    try call_unit env (ilo reset_server) except λ _. hard_cycle o.delay
