-- ===== src/Reboot/Handle/Termination.antt =====
-- reboot.py: the termination of `Command.handle`.
use relops_hardware_controll.Prelude.{
  Bool-cases, inl, inr, ℕ, String, Option, none, some, List, [], ◌∷◌, Bool, true, false, arith,
}
use relops_hardware_controll.Effects.{
  Env, Trace, Exn, Reply, returns, raises, Outcome, ok, err, pending, M,
}
use relops_hardware_controll.Effects.Laws.{Finishes}
use relops_hardware_controll.Effects.Growth.{Extends-refl}
use relops_hardware_controll.Effects.Settles.{SettledFrom, Settles, Settles-pure, Settles-bind}
use relops_hardware_controll.Effects.Clock.{IsSteady}
use relops_hardware_controll.Settings.{Settings, Server, Config}
use relops_hardware_controll.Job.{JobData}
use relops_hardware_controll.Commands.Runner.{Runner, IsSound}
use relops_hardware_controll.Commands.Ipmi.{find_server}
use relops_hardware_controll.Reboot.Wait.Settles.{call-Settles, reboot_succeeded-Settles}
use relops_hardware_controll.Reboot.Methods.{
  Progress, Attempt, Prepared, skip, failed, ready, prepare,
}
use relops_hardware_controll.Reboot.Handle.{
  rebooted, next, reify, reified, on_exception, check, go_on, after_check, after_call, run_attempt,
  try_method, attempts, report, start_progress, bug_cc_of, handle,
}

reified-Settled :
    {A : Type 0} (t : Trace) (r : Outcome A × Trace) → SettledFrom t r → SettledFrom t (reified r)
reified-Settled t (ok a, s) h = h
reified-Settled t (err e, s) h = (h.0, tt)
reified-Settled t (pending, s) h = h

Settles-reify : {A : Type 0} (m : M A) → Settles m → Settles (reify m)
Settles-reify m h t = reified-Settled t (m t) (h t)

pub find_server-Settles :
    (config : Config) (hostname : String) → Settles (find_server config hostname)
unfolding find_server
find_server-Settles config hostname t = (([], ground arith), ground arith)

module _ (env : Env) (steady : IsSteady env) (runner : Runner) (sound : IsSound runner)
    (settings : Settings) where
  check-Settles : (a : Attempt) (hostname : String) → Settles (check env runner settings a hostname)
  check-Settles a hostname t = elim (Bool-cases a.checked) [
    | inl e ↦ rw e (reboot_succeeded-Settles env steady runner sound settings hostname t)
    | inr e ↦ rw e (Settles-pure true t)
  ]

  on_exception-Settles :
      (method : String) (args : List String) (p : Progress) (e : Exn)
      → Settles (on_exception env method args p e)
  unfolding on_exception
  on_exception-Settles method args p e t = (([], ground arith), ground arith)

  go_on-Settles : (a : Attempt) (p : Progress) (e : Exn) → Settles (go_on env runner settings a p e)
  go_on-Settles a p e = Settles-bind _ _ (on_exception-Settles _ _ p e) λ p'. Settles-pure (next p')

  after_check-Settles :
      (a : Attempt) (p : Progress) (r : Reply Bool)
      → Settles (after_check env runner settings a p r)
  after_check-Settles a p (returns true) = Settles-pure (rebooted p)
  after_check-Settles a p (returns false) = go_on-Settles a p _
  after_check-Settles a p (raises e) = go_on-Settles a p e

  after_call-Settles :
      (a : Attempt) (p : Progress) (r : Reply (Option String))
      → Settles (after_call env runner settings a p r)
  after_call-Settles a p (raises e) = go_on-Settles a p e
  after_call-Settles a p (returns output) =
      Settles-bind _ _ (Settles-reify _ (check-Settles a p.hostname)) (after_check-Settles a _)

  pub try_method-Settles :
      (prepared : Prepared) (name : String) (p : Progress)
      → Settles (try_method env runner settings prepared name p)
  unfolding try_method run_attempt
  try_method-Settles skip name p = Settles-pure (next p)
  try_method-Settles (failed e) name p =
      Settles-bind _ _ (on_exception-Settles name [] p e) λ p'. Settles-pure (next p')
  try_method-Settles (ready a p') name p =
      Settles-bind _ _ (Settles-reify _ (call-Settles env steady runner sound settings a.command _))
        (after_call-Settles a p')

  module _ (server : Server) (job_data : JobData) (bug_cc : String) where
    attempts-Settles :
        (names : List String) (p : Progress)
        → Settles (attempts env runner settings server job_data bug_cc names p)
    unfolding attempts
    attempts-Settles [] p t = (Extends-refl t, tt)
    attempts-Settles (name ∷ names) p t =
        Settles-bind _ _ (try_method-Settles (prepare server job_data bug_cc name p) name p)
          (elim [ rebooted q ↦ λ s. (Extends-refl s, tt) | next q ↦ attempts-Settles names q ]) t

  report-Settles :
      (start : ℕ) (done : Option String × Progress)
      → Settles (report env runner settings start done)
  unfolding report
  report-Settles start (none, p) t = (Extends-refl t, tt)
  report-Settles start (some name, p) t = (Extends-refl t, tt)

  pub handle-Settles :
      (hostname : String) (job_data : JobData)
      → Settles (handle env runner settings hostname job_data)
  unfolding handle
  handle-Settles hostname job_data t =
      Settles-bind _ _ (find_server-Settles settings.worker_config hostname)
        (λ found.
          Settles-bind _ _
            (attempts-Settles found.0 job_data (bug_cc_of env runner settings found.0)
              settings.reboot_methods (start_progress env runner settings hostname))
            λ done. report-Settles (env.now t) done)
        t

  -- With a steady clock, and commands that end, `reboot` ends: it gives a result or raises, and
  -- never uses up the rounds of a polling loop.
  pub handle-Finishes :
      (hostname : String) (job_data : JobData) (t : Trace)
      → Finishes (handle env runner settings hostname job_data t).0
  handle-Finishes hostname job_data t = (handle-Settles hostname job_data t).1
