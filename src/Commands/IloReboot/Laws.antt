-- ===== src/Commands/IloReboot/Laws.antt =====
-- ilo_reboot.py: the power commands of `Command.handle`.
use relops_hardware_controll.Prelude.{◌≡◌, ◌⊎◌, ℕ, String, true, false, ◌∷◌, inl, inr, arith, refl}
use relops_hardware_controll.Effects.{
  Env, Trace, ok, Exn, raises, returns, ilo, connect, get_host_power_status, reset_server,
  set_host_power, sleep, call_unit, call_text, rescue, Reply, of_reply,
}
use relops_hardware_controll.Effects.Laws.{continue-eq-ok}
use relops_hardware_controll.Settings.{Settings}
use relops_hardware_controll.Validators.{validate_host}
use relops_hardware_controll.Validators.Laws.{validate_host_silent}
use relops_hardware_controll.Commands.IloReboot.{Options, or_default, hard_cycle, handle}

module _ (env : Env) where
  -- After a failed soft reset, a success means off, the delay, and on again, in this order.
  hard_cycle-eq-ok :
      (delay : ℕ) (t u : Trace)
      → hard_cycle env delay t ≡ (ok tt, u)
      → u ≡ ilo (set_host_power true) ∷ sleep delay ∷ ilo (set_host_power false) ∷ t
  unfolding hard_cycle
  hard_cycle-eq-ok delay t u h = ground arith

  module _ (settings : Settings) (hostname : String) (o : Options) where
    -- The trace behind the login and the first query.
    abbrev pub connected : Trace → Trace
    connected t =
        ilo get_host_power_status
        ∷ ilo (
            connect hostname (or_default o.login settings.ilo_username)
              (or_default o.password settings.ilo_password) o.timeout)
        ∷ t

    abbrev pub Restarted : Trace → Trace → Type 0
    Restarted s u =
        (u ≡ ilo reset_server ∷ s)
        ⊎ ((e : Exn) × (env.unit_reply (ilo reset_server ∷ s) ≡ raises e)
            × (u
                ≡ ilo (set_host_power true)
                  ∷ sleep o.delay
                  ∷ ilo (set_host_power false)
                  ∷ ilo reset_server
                  ∷ s))

    reset-Restarted :
        (s u : Trace) (r : Reply (Unit {0}))
        → env.unit_reply (ilo reset_server ∷ s) ≡ r
        → rescue (of_reply r, ilo reset_server ∷ s) (λ _. hard_cycle env o.delay) ≡ (ok tt, u)
        → Restarted s u
    reset-Restarted s u (returns tt') same h = inl (ground arith)
    reset-Restarted s u (raises e) same h = inr (e, same, hard_cycle-eq-ok o.delay _ u h)

    -- A success means a soft reset behind the login, or, when that failed, power off, the delay, and
    -- power on, in this order.
    pub handle-Restarted :
        (t u : Trace) → handle env settings hostname o t ≡ (ok tt, u) → Restarted (connected t) u
    unfolding handle
    handle-Restarted t u h =
        let (_, s, valid, h₁) = continue-eq-ok (validate_host env hostname t) _ h in
        let (_, s', logged_in, h₂) = continue-eq-ok (call_unit env _ s) _ h₁ in
        let (_, s'', asked, h₃) = continue-eq-ok (call_text env _ s') _ h₂ in
        let silent : s ≡ t = validate_host_silent env hostname t s valid in
        let here : s'' ≡ connected t = ground arith in
        reset-Restarted (connected t) u _ refl (rw here at h₃)
