-- ===== src/Reboot/Wait/Timing.antt =====
-- reboot.py: the time that a check takes which does not hold.
use relops_hardware_controll.Prelude.{
  ◌≡◌, ◌+◌, ◌*◌, ◌≤◌, ◌⊎◌, inl, inr, String, Bool, true, false, if◌then◌else◌, arith,
}
use relops_hardware_controll.Effects.{Env, Trace, ok, pure}
use relops_hardware_controll.Effects.Laws.{continue-eq-ok}
use relops_hardware_controll.Effects.Clock.{second, IsSteady, now-Extends}
use relops_hardware_controll.Settings.{Settings}
use relops_hardware_controll.Commands.Runner.{Runner, IsSound}
use relops_hardware_controll.Reboot.Wait.{is_down, is_up, wait_for_state, reboot_succeeded}
use relops_hardware_controll.Reboot.Wait.Laws.{wait_for_state-Answered}
use relops_hardware_controll.Reboot.Wait.Cycle.{Pinged, is_down-Pinged}
use relops_hardware_controll.Reboot.Wait.Settles.{wait_for_state-Settles, is_down-Settles}

module _ (env : Env) (runner : Runner) (settings : Settings) (fqdn : String) where
  -- A ping failed, and since then the time for the way up has passed.
  pub record StayedDown (t u : Trace) : Type 0 where
    pub down_from : Trace
    pub down : Trace
    pub went_down : Pinged runner fqdn 1 4 false down_from down
    pub later : env.now t ≤ env.now down
    pub waited : env.now down + settings.up_timeout * second ≤ env.now u

  -- The time for the way down has passed.
  abbrev pub StayedUp : Trace → Trace → Type 0
  StayedUp t u = env.now t + settings.down_timeout * second ≤ env.now u

  module _ (steady : IsSteady env) (sound : IsSound runner) where
    down-before :
        (t s : Trace) (b : Bool)
        → wait_for_state env (is_down runner fqdn) settings.down_timeout 1 t ≡ (ok b, s)
        → env.now t ≤ env.now s
    down-before t s b h =
        let settled =
          wait_for_state-Settles env steady (is_down runner fqdn)
            (is_down-Settles env steady runner sound settings fqdn) settings.down_timeout 1
            (omega arith) t in
        now-Extends env steady t s (rw h at settled.0)

    waited_down-cases :
        (b : Bool) (t s u : Trace)
        → wait_for_state env (is_down runner fqdn) settings.down_timeout 1 t ≡ (ok b, s)
        → (if b then wait_for_state env (is_up runner fqdn) settings.up_timeout 5 else pure false) s
          ≡ (ok false, u)
        → StayedUp t u ⊎ StayedDown t u
    waited_down-cases false t s u waited h =
        let late = wait_for_state-Answered env _ settings.down_timeout 1 t s false waited in
        inl (ground arith)
    waited_down-cases true t s u waited h =
        let (down_from, down) =
          wait_for_state-Answered env _ settings.down_timeout 1 t s true waited in
        inr (record {
          down_from = down_from;
          down = s;
          went_down = is_down-Pinged env runner settings fqdn down_from s down;
          later = down-before t s true waited;
          waited = wait_for_state-Answered env _ settings.up_timeout 5 s u false h;
        })

    -- With a steady clock and commands that end, a check that does not hold has taken the whole
    -- DOWN_TIMEOUT, or, from a failed ping on, the whole UP_TIMEOUT.
    pub reboot_succeeded-eq-false :
        (t u : Trace)
        → reboot_succeeded env runner settings fqdn t ≡ (ok false, u)
        → StayedUp t u ⊎ StayedDown t u
    unfolding reboot_succeeded
    reboot_succeeded-eq-false t u h =
        let (b, s, waited, ended) =
          continue-eq-ok (wait_for_state env (is_down runner fqdn) settings.down_timeout 1 t) _ h in
        waited_down-cases b t s u waited ended
