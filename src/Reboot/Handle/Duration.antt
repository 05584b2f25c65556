-- ===== src/Reboot/Handle/Duration.antt =====
-- reboot.py: the time that the loop takes before it gives up.
use relops_hardware_controll.Prelude.{
  ◌≡◌, ℕ, ◌+◌, ◌*◌, ◌≤◌, inl, inr, String, none, List, [], ◌∷◌, false, Bool-cases, arith,
}
use relops_hardware_controll.Effects.{Env, Trace, ok}
use relops_hardware_controll.Effects.Clock.{second, IsSteady, now-Extends}
use relops_hardware_controll.Settings.{Settings, Server}
use relops_hardware_controll.Job.{JobData}
use relops_hardware_controll.Commands.Runner.{Runner, IsSound}
use relops_hardware_controll.Reboot.Wait.Timing.{reboot_succeeded-eq-false}
use relops_hardware_controll.Reboot.Wait.Settles.{call-Settles}
use relops_hardware_controll.Reboot.Methods.{Progress, Attempt, Prepared, prepare}
use relops_hardware_controll.Reboot.Handle.{check, attempts}
use relops_hardware_controll.Reboot.Handle.Termination.{try_method-Settles}
use relops_hardware_controll.Reboot.Handle.Rounds.{
  Round, skipped, unprepared, call_failed, check_failed, not_cycled, Round-try_method, GaveUp,
  attempts_iff,
}

module _ (env : Env) (runner : Runner) (settings : Settings) where
  -- The rounds in which the check did not hold.
  abbrev failed_check :
      {x : Prepared} {name : String} {p : Progress} {t : Trace} {p' : Progress} {u : Trace}
      → Round env runner settings x name p t p' u
      → ℕ
  failed_check (not_cycled _ _ _ _ _ _ _ _) = 1
  failed_check (skipped _ _ _) = 0
  failed_check (unprepared _ _ _ _ _) = 0
  failed_check (call_failed _ _ _ _ _ _ _) = 0
  failed_check (check_failed _ _ _ _ _ _ _ _ _ _) = 0

  module _ (steady : IsSteady env) (sound : IsSound runner) (least : ℕ)
      (least_down : least ≤ settings.down_timeout) (least_up : least ≤ settings.up_timeout) where
    Round-later :
        (x : Prepared) (name : String) (p p' : Progress) (t u : Trace)
        → Round env runner settings x name p t p' u
        → env.now t ≤ env.now u
    Round-later x name p p' t u round =
        let settled = try_method-Settles env steady runner sound settings x name p t in
        now-Extends env steady t u
          (rw (Round-try_method env runner settings x name p p' t u round) at settled.0)

    check-duration :
        (a : Attempt) (hostname : String) (s u : Trace)
        → check env runner settings a hostname s ≡ (ok false, u)
        → env.now s + least * second ≤ env.now u
    check-duration a hostname s u h = elim (Bool-cases a.checked) [
      | inr unchecked ↦ let h' = rw unchecked at h in ground arith
      | inl checked ↦
          elim (reboot_succeeded-eq-false env runner settings hostname steady sound s u
            (rw checked at h)) [
              | inl up ↦ omega arith
              | inr down ↦ let later = down.later in let waited = down.waited in omega arith
            ]
    ]

    Round-duration :
        (x : Prepared) (name : String) (p p' : Progress) (t u : Trace)
        (round : Round env runner settings x name p t p' u)
        → env.now t + failed_check round * (least * second) ≤ env.now u
    Round-duration x name p p' t u (not_cycled a q output s given called checked same) =
        let settled =
          call-Settles env steady runner sound settings a.command (q.hostname ∷ a.args) t in
        let later = now-Extends env steady t s (rw called at settled.0) in
        let waited = check-duration a q.hostname s u checked in omega arith
    Round-duration x name p p' t u (skipped given same at) =
        omega (arith, Round-later x name p p' t u (skipped given same at))
    Round-duration x name p p' t u (unprepared e given caught same at) =
        omega (arith, Round-later x name p p' t u (unprepared e given caught same at))
    Round-duration x name p p' t u (call_failed a q e given called caught same) =
        omega (arith, Round-later x name p p' t u (call_failed a q e given called caught same))
    Round-duration x name p p' t u (check_failed a q o e s given called checked caught same) =
        omega (
          arith,
          Round-later x name p p' t u (check_failed a q o e s given called checked caught same),
        )

  module _ (server : Server) (job_data : JobData) (bug_cc : String) where
    abbrev pub failed_checks :
        (names : List String) (p : Progress) (t : Trace) (q : Progress) (u : Trace)
        → GaveUp env runner settings server job_data bug_cc names p t q u
        → ℕ
    failed_checks [] p t q u done = 0
    failed_checks (name ∷ names) p t q u (p', s, round, more) =
        failed_check round + failed_checks names p' s q u more

    module _ (steady : IsSteady env) (sound : IsSound runner) (least : ℕ)
        (least_down : least ≤ settings.down_timeout) (least_up : least ≤ settings.up_timeout) where
      GaveUp-duration :
          (names : List String) (p q : Progress) (t u : Trace)
          (g : GaveUp env runner settings server job_data bug_cc names p t q u)
          → env.now t + failed_checks names p t q u g * (least * second) ≤ env.now u
      GaveUp-duration [] p q t u (same, at) = rw at (omega arith)
      GaveUp-duration (name ∷ names) p q t u (p', s, round, more) =
          let first =
            Round-duration steady sound least least_down least_up
              (prepare server job_data bug_cc name p) name p p' t s round in
          let rest = GaveUp-duration names p' q s u more in grind arith

      -- With a steady clock and commands that end, a loop that gives up has done so in rounds of which
      -- each one with a check that did not hold has taken the smaller of DOWN_TIMEOUT and UP_TIMEOUT
      -- or more.
      pub attempts_duration :
          (names : List String) (p q : Progress) (t u : Trace)
          → attempts env runner settings server job_data bug_cc names p t ≡ (ok (none, q), u)
          → (g : GaveUp env runner settings server job_data bug_cc names p t q u) × (env.now t
                + failed_checks names p t q u g * (least * second)
              ≤ env.now u)
      attempts_duration names p q t u h =
          let g = (attempts_iff env runner settings server job_data bug_cc names p q t u).0 h in
          (g, GaveUp-duration names p q t u g)
