-- ===== src/Commands/XenapiReboot.antt =====
-- relops_hardware_controller/api/management/commands/xenapi_reboot.py. The calls of the vendored
-- XenAPI client are calls to the outside.
pub mod Laws
use relops_hardware_controll.Prelude.{ℕ, String, false}
use relops_hardware_controll.Effects.{
  Env, Exn, Outcome, ok, err, pending, Trace, M, pure, raise, ◌>>=◌, ◌>>◌, try◌except◌, XenCall,
  new_session, login_with_password, logout, get_by_uuid, clean_shutdown, hard_shutdown, start, xen,
  sleep, call_unit, call_text,
}
use relops_hardware_controll.Settings.{Settings}

pub record Options : Type 0 where
  pub delay : ℕ

abbrev pub default_options : Options
default_options = record { delay = 5 }

-- `try: body finally: last`. An exception of `last` replaces the body's.
abbrev pub finish : Outcome (Unit {0}) × Trace → M (Unit {0}) → Outcome (Unit {0}) × Trace
finish (ok a, t) last = last t
finish (err e, t) last = (last >>= λ _. raise e) t
finish (pending, t) last = (pending, t)

module _ (env : Env) where
  -- The context manager around a body.
  unfoldable pub xen_session : String → String → String → M (Unit {0}) → M (Unit {0})
  xen_session uri username password body = do
    call_unit env (xen (new_session uri))
    try call_unit env (xen (login_with_password username password)) except λ _. pure tt
    λ t. finish (body t) (call_unit env (xen logout))

  -- The body of the `with` block.
  unfoldable pub power_cycle : String → Options → M (Unit {0})
  power_cycle host_uuid o = do
    vm ← call_text env (xen (get_by_uuid host_uuid))
    try call_unit env (xen (clean_shutdown vm)) except λ _. call_unit env (xen (hard_shutdown vm))
    call_unit env (sleep o.delay)
    call_unit env (xen (start vm false false))

  unfoldable pub handle : Settings → String → Options → M (Unit {0})
  unfolding xen_session power_cycle
  handle settings host_uuid o =
      xen_session settings.xen_url settings.xen_username settings.xen_password
        (power_cycle host_uuid o)
