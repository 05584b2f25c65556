-- ===== src/Reboot/Wait/Settles.antt =====
-- reboot.py: the check of a reboot ends, and only adds to the trace.
use relops_hardware_controll.Prelude.{
  ℕ, zero, suc, ◌+◌, ◌*◌, String, List, Bool, true, false, not, leb, ◌≤◌, if◌then◌else◌, arith,
}
use relops_hardware_controll.Effects.{
  Env, ExnClass, soft_time_limit, Exn, M, pure, raise, ◌>>=◌, sleep, call_unit, get_time,
}
use relops_hardware_controll.Effects.Growth.{
  Extends-refl, Grows, Grows-pure, Grows-bind, Grows-call_unit, Grows-get_time,
}
use relops_hardware_controll.Effects.Settles.{
  Settles, Settles-pure, Settles-raise, Settles-bind, Settles-try,
}
use relops_hardware_controll.Effects.Clock.{second, IsSteady}
use relops_hardware_controll.Settings.{Settings}
use relops_hardware_controll.Commands.Runner.{Runner, IsSound}
use relops_hardware_controll.Reboot.Wait.{
  can_ping, is_down, is_up, after_poll, wait_loop, wait_for_state, reboot_succeeded,
}
use relops_hardware_controll.Reboot.Wait.Laws.{wait_for_state-Finishes}

module _ (env : Env) (steady : IsSteady env) (fn : M Bool) (settles : Settles fn)
    (timeout interval : ℕ) (pause : 1 ≤ interval) where
  fn-Grows : Grows fn
  fn-Grows t = (settles t).0

  after_poll-Grows :
      (start : ℕ) (rest : M Bool) (b : Bool)
      → Grows rest
      → Grows (after_poll env fn timeout interval start rest b)
  unfolding after_poll
  after_poll-Grows start rest true g = Grows-pure true
  after_poll-Grows start rest false g =
      Grows-bind (call_unit env (sleep interval)) (λ _. get_time env >>= decision)
        (Grows-call_unit env (sleep interval))
        λ _.
          Grows-bind (get_time env) decision (Grows-get_time env)
            λ now. decided (leb (start + timeout * second) now)
    where
      decision : ℕ → M Bool
      decision now = if leb (start + timeout * second) now then pure false else rest

      decided : (late : Bool) → Grows (if late then pure false else rest)
      decided true = Grows-pure false
      decided false = g

  wait_loop-Grows : (start rounds : ℕ) → Grows (wait_loop env fn timeout interval start rounds)
  unfolding wait_loop
  wait_loop-Grows start zero t = Extends-refl t
  wait_loop-Grows start (suc rounds) t =
      Grows-bind fn
        (after_poll env fn timeout interval start (wait_loop env fn timeout interval start rounds))
        fn-Grows (λ b. after_poll-Grows start _ b (wait_loop-Grows start rounds)) t

  pub wait_for_state-Settles : Settles (wait_for_state env fn timeout interval)
  unfolding wait_for_state
  wait_for_state-Settles t = (
    wait_loop-Grows (env.now t) (suc timeout) t,
    wait_for_state-Finishes env steady fn fn-Grows (λ s. (settles s).1) timeout interval pause t,
  )

module _ (env : Env) (steady : IsSteady env) (runner : Runner) (sound : IsSound runner)
    (settings : Settings) where
  pub call-Settles : (name : String) (args : List String) → Settles (runner.call name args)
  call-Settles name args t = (sound.grows name args t, sound.finishes name args t)

  can_ping-Settles :
      (fqdn : String) (count timeout : ℕ) → Settles (can_ping runner fqdn count timeout)
  unfolding can_ping
  can_ping-Settles fqdn count timeout =
      Settles-try _ _ (Settles-bind _ _ (call-Settles "ping" _) λ _. Settles-pure true)
        λ e. by_class e e.cls
    where
      by_class :
          (e : Exn) (c : ExnClass)
          → Settles {A = Bool} (elim c [ soft_time_limit ↦ raise e | _ ↦ pure false ])
      by_class e soft_time_limit = Settles-raise Bool e
      by_class e _ = Settles-pure false

  pub is_down-Settles : (fqdn : String) → Settles (is_down runner fqdn)
  unfolding is_down
  is_down-Settles fqdn = Settles-bind _ _ (can_ping-Settles fqdn 1 4) λ up. Settles-pure (not up)

  is_up-Settles : (fqdn : String) → Settles (is_up runner fqdn)
  unfolding is_up
  is_up-Settles fqdn = can_ping-Settles fqdn 1 60

  pub reboot_succeeded-Settles :
      (fqdn : String) → Settles (reboot_succeeded env runner settings fqdn)
  unfolding reboot_succeeded
  reboot_succeeded-Settles fqdn =
      Settles-bind _ _
        (wait_for_state-Settles env steady (is_down runner fqdn) (is_down-Settles fqdn)
          settings.down_timeout 1 (omega arith))
        (elim [
          | true ↦
              wait_for_state-Settles env steady (is_up runner fqdn) (is_up-Settles fqdn)
                settings.up_timeout 5 (omega arith)
          | false ↦ Settles-pure false
        ])
