-- ===== src/Reboot/Wait/Cycle.antt =====
-- reboot.py: what `can_ping` and `reboot_succeeded` have seen.
use relops_hardware_controll.Prelude.{
  ◌≡◌, refl, ℕ, String, Option, Bool, true, false, if◌then◌else◌, arith,
}
use relops_hardware_controll.Effects.{
  Env, Trace, Exn, soft_time_limit, Outcome, ok, err, pending, continue, rescue, raise, pure,
}
use relops_hardware_controll.Effects.Laws.{continue-eq-ok}
use relops_hardware_controll.Settings.{Settings}
use relops_hardware_controll.Commands.Runner.{Runner}
use relops_hardware_controll.Reboot.Wait.{
  ping_args, can_ping, is_down, is_up, wait_for_state, reboot_succeeded,
}
use relops_hardware_controll.Reboot.Wait.Laws.{wait_for_state-Answered}

module _ (runner : Runner) (fqdn : String) (count timeout : ℕ) where
  -- `can_ping` is true if the command returned, and false if it raised an exception.
  abbrev pub Pinged : Bool → Trace → Trace → Type 0
  Pinged true s u =
      (output : Option String) × (runner.call "ping" (ping_args fqdn count timeout) s
        ≡ (ok output, u))
  Pinged false s u = (e : Exn) × (runner.call "ping" (ping_args fqdn count timeout) s ≡ (err e, u))

  can_ping-step :
      (r : Outcome (Option String) × Trace) (b : Bool) (s u : Trace)
      → runner.call "ping" (ping_args fqdn count timeout) s ≡ r
      → rescue
          (continue r (λ _. pure true))
          (λ e. elim e.cls [ soft_time_limit ↦ raise e | _ ↦ pure false ])
        ≡ (ok b, u)
      → Pinged b s u
  can_ping-step (ok output, t) true s u called h = (output, ground arith)
  can_ping-step (ok output, t) false s u called h = ground arith
  can_ping-step (err e, t) true s u called h = ground arith
  can_ping-step (err e, t) false s u called h = (e, ground arith)
  can_ping-step (pending, t) b s u called h = ground arith

  pub can_ping-Pinged :
      (b : Bool) (s u : Trace) → can_ping runner fqdn count timeout s ≡ (ok b, u) → Pinged b s u
  unfolding can_ping
  can_ping-Pinged b s u h =
      can_ping-step (runner.call "ping" (ping_args fqdn count timeout) s) b s u refl h

module _ (env : Env) (runner : Runner) (settings : Settings) (fqdn : String) where
  -- A wait from `t` on ended with a ping that failed, and a wait from there on with one that was
  -- answered.
  pub record Cycled (t u : Trace) : Type 0 where
    pub down_from : Trace
    pub down : Trace
    pub up_from : Trace
    pub went_down : Pinged runner fqdn 1 4 false down_from down
    pub waited_down :
        wait_for_state env (is_down runner fqdn) settings.down_timeout 1 t ≡ (ok true, down)
    pub waited : wait_for_state env (is_up runner fqdn) settings.up_timeout 5 down ≡ (ok true, u)
    pub came_up : Pinged runner fqdn 1 60 true up_from u

  pub is_down-Pinged :
      (s u : Trace) → is_down runner fqdn s ≡ (ok true, u) → Pinged runner fqdn 1 4 false s u
  unfolding is_down
  is_down-Pinged s u h =
      let (b, t, pinged, ended) = continue-eq-ok (can_ping runner fqdn 1 4 s) _ h in
      can_ping-Pinged runner fqdn 1 4 false s u (ground arith)

  went_down-Cycled :
      (b : Bool) (t s u : Trace)
      → wait_for_state env (is_down runner fqdn) settings.down_timeout 1 t ≡ (ok b, s)
      → (if b then wait_for_state env (is_up runner fqdn) settings.up_timeout 5 else pure false) s
        ≡ (ok true, u)
      → Cycled t u
  unfolding is_up
  went_down-Cycled false t s u waited_down h = ground arith
  went_down-Cycled true t s u waited_down h =
      let (down_from, down) =
        wait_for_state-Answered env _ settings.down_timeout 1 t s true waited_down in
      let (up_from, up) = wait_for_state-Answered env _ settings.up_timeout 5 s u true h in
      record {
        down_from = down_from;
        down = s;
        up_from = up_from;
        went_down = is_down-Pinged down_from s down;
        waited_down = waited_down;
        waited = h;
        came_up = can_ping-Pinged runner fqdn 1 60 true up_from u up;
      }

  -- The check holds only if a wait from its start on ended with a failed ping, and a wait from there
  -- on with an answered one.
  pub reboot_succeeded-Cycled :
      (t u : Trace) → reboot_succeeded env runner settings fqdn t ≡ (ok true, u) → Cycled t u
  unfolding reboot_succeeded
  reboot_succeeded-Cycled t u h =
      let (b, s, waited_down, ended) =
        continue-eq-ok (wait_for_state env (is_down runner fqdn) settings.down_timeout 1 t) _ h in
      went_down-Cycled b t s u waited_down ended
