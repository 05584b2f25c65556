-- ===== src/Reboot/Wait.antt =====
-- reboot.py: `can_ping`, `wait_for_state` and `reboot_succeeded`.
pub mod Laws
pub mod Cycle
pub mod Settles
pub mod Timing
use relops_hardware_controll.Prelude.{
  ℕ, zero, suc, ◌+◌, ◌*◌, String, List, [], ◌∷◌, show, Bool, true, false, not, leb, if◌then◌else◌,
}
use relops_hardware_controll.Effects.{
  Env, soft_time_limit, pending, M, pure, raise, ◌>>=◌, ◌>>◌, try◌except◌, sleep, call_unit,
  get_time,
}
use relops_hardware_controll.Effects.Clock.{second}
use relops_hardware_controll.Settings.{Settings}
use relops_hardware_controll.Commands.Runner.{Runner}

abbrev pub ping_args : String → ℕ → ℕ → List String
ping_args fqdn count timeout = fqdn ∷ "ping" ∷ "-c" ∷ show count ∷ "-w" ∷ show timeout ∷ []

unfoldable pub can_ping : Runner → String → ℕ → ℕ → M Bool
can_ping runner fqdn count timeout =
    try runner.call "ping" (ping_args fqdn count timeout) >> pure true except λ e. elim e.cls [
      | soft_time_limit ↦ raise e
      | _ ↦ pure false
    ]

module _ (env : Env) (fn : M Bool) (timeout interval : ℕ) where
  -- What follows one poll; `elapsed >= timeout` without the subtraction.
  unfoldable pub after_poll : ℕ → M Bool → Bool → M Bool
  after_poll start rest true = pure true
  after_poll start rest false = do
    call_unit env (sleep interval)
    now ← get_time env
    if leb (start + timeout * second) now then pure false else rest

  -- `while True`, for a number of rounds.
  unfoldable pub wait_loop : ℕ → ℕ → M Bool
  unfolding after_poll
  wait_loop start zero = λ t. (pending, t)
  wait_loop start (suc rounds) = fn >>= after_poll start (wait_loop start rounds)

  -- Each round takes a second or more, so `timeout + 1` rounds are enough.
  unfoldable pub wait_for_state : M Bool
  unfolding wait_loop
  wait_for_state = do start ← get_time env; wait_loop start (suc timeout)

module _ (runner : Runner) (fqdn : String) where
  unfoldable pub is_down : M Bool
  unfolding can_ping
  is_down = do up ← can_ping runner fqdn 1 4; pure (not up)

  unfoldable pub is_up : M Bool
  unfolding can_ping
  is_up = can_ping runner fqdn 1 60

unfoldable pub reboot_succeeded : Env → Runner → Settings → String → M Bool
unfolding wait_for_state is_down is_up
reboot_succeeded env runner settings fqdn = do
  powered_down ← wait_for_state env (is_down runner fqdn) settings.down_timeout 1
  if powered_down then wait_for_state env (is_up runner fqdn) settings.up_timeout 5 else pure false
