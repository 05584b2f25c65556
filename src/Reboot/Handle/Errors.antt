-- ===== src/Reboot/Handle/Errors.antt =====
-- reboot.py: the exceptions that `Command.handle` lets out.
use relops_hardware_controll.Prelude.{
  ◌≡◌, ◌<>◌, inl, inr, String, Option, none, some, List, [], ◌∷◌, lookup, true, false, Bool, arith,
}
use relops_hardware_controll.Effects.{
  Env, Trace, soft_time_limit, key_error, exception, Exn, exn, text, Reply, returns, raises,
  Outcome, ok, err, pending, pure, ◌>>=◌,
}
use relops_hardware_controll.Effects.Errors.{continue-eq-err}
use relops_hardware_controll.Settings.{Settings, Server}
use relops_hardware_controll.Job.{JobData}
use relops_hardware_controll.Commands.Runner.{Runner}
use relops_hardware_controll.Commands.Ipmi.{short_name, find_server}
use relops_hardware_controll.Reboot.Methods.{
  Progress, Attempt, Prepared, skip, failed, ready, prepare,
}
use relops_hardware_controll.Reboot.Handle.Success.{find_server_silent}
use relops_hardware_controll.Reboot.Handle.{
  rebooted, next, short_note, reify, reified, on_exception, check, after_check, after_call,
  run_attempt, try_method, attempts, report, start_progress, bug_cc_of, handle,
}

-- Celery's time limit, with a log of the attempts as its output.
abbrev pub IsTimeLimit : Exn → Type 0
IsTimeLimit e = (e.cls ≡ soft_time_limit) × (log : String) × (e.output ≡ text log)

reified-ne-err :
    {A : Type 0} (r : Outcome A × Trace) (e : Exn) (u : Trace) → ¬ (reified r ≡ (err e, u))
reified-ne-err (ok a, t) e u h = ground arith
reified-ne-err (err f, t) e u h = ground arith
reified-ne-err (pending, t) e u h = ground arith

module _ (env : Env) (e : Exn) (u : Trace) where
  on_exception-IsTimeLimit :
      (method : String) (args : List String) (p : Progress) (f : Exn) (t : Trace)
      → on_exception env method args p f t ≡ (err e, u)
      → IsTimeLimit e
  unfolding on_exception
  on_exception-IsTimeLimit method args p f t h =
      (ground arith, p.log_short <> short_note env method f t, ground arith)

  next-IsTimeLimit :
      (method : String) (args : List String) (p : Progress) (f : Exn) (t : Trace)
      → ((on_exception env method args p f >>= λ p'. pure (next p')) t) ≡ (err e, u)
      → IsTimeLimit e
  next-IsTimeLimit method args p f t h =
      elim (continue-eq-err (on_exception env method args p f t) _ h) [
        | inl raised ↦ on_exception-IsTimeLimit method args p f t raised
        | inr (p', s, _, ended) ↦ ground arith
      ]

module _ (env : Env) (runner : Runner) (settings : Settings) (e : Exn) (u : Trace) where
  after_check-IsTimeLimit :
      (a : Attempt) (p : Progress) (r : Reply Bool) (t : Trace)
      → after_check env runner settings a p r t ≡ (err e, u)
      → IsTimeLimit e
  after_check-IsTimeLimit a p (returns true) t h = ground arith
  after_check-IsTimeLimit a p (returns false) t h = next-IsTimeLimit env e u _ _ p _ t h
  after_check-IsTimeLimit a p (raises f) t h = next-IsTimeLimit env e u _ _ p f t h

  after_call-IsTimeLimit :
      (a : Attempt) (p : Progress) (r : Reply (Option String)) (t : Trace)
      → after_call env runner settings a p r t ≡ (err e, u)
      → IsTimeLimit e
  after_call-IsTimeLimit a p (raises f) t h = next-IsTimeLimit env e u _ _ p f t h
  after_call-IsTimeLimit a p (returns output) t h =
      elim (continue-eq-err (reify (check env runner settings a p.hostname) t) _ h) [
        | inl raised ↦ absurd (reified-ne-err _ e u raised)
        | inr (r, s, _, ended) ↦ after_check-IsTimeLimit a _ r s ended
      ]

  try_method-IsTimeLimit :
      (prepared : Prepared) (name : String) (p : Progress) (t : Trace)
      → try_method env runner settings prepared name p t ≡ (err e, u)
      → IsTimeLimit e
  unfolding try_method run_attempt
  try_method-IsTimeLimit skip name p t h = ground arith
  try_method-IsTimeLimit (failed f) name p t h = next-IsTimeLimit env e u name [] p f t h
  try_method-IsTimeLimit (ready a p') name p t h =
      elim (continue-eq-err (reify (runner.call a.command (p'.hostname ∷ a.args)) t) _ h) [
        | inl raised ↦ absurd (reified-ne-err _ e u raised)
        | inr (r, s, _, ended) ↦ after_call-IsTimeLimit a p' r s ended
      ]

  module _ (server : Server) (job_data : JobData) (bug_cc : String) where
    attempts-IsTimeLimit :
        (names : List String) (p : Progress) (t : Trace)
        → attempts env runner settings server job_data bug_cc names p t ≡ (err e, u)
        → IsTimeLimit e
    unfolding attempts
    attempts-IsTimeLimit [] p t h = ground arith
    attempts-IsTimeLimit (name ∷ names) p t h =
        elim (continue-eq-err
          (try_method env runner settings (prepare server job_data bug_cc name p) name p t) _ h) [
            | inl raised ↦ try_method-IsTimeLimit _ name p t raised
            | inr (rebooted q, s, _, ended) ↦ ground arith
            | inr (next q, s, _, ended) ↦ attempts-IsTimeLimit names q s ended
          ]

-- Why `reboot` raises.
pub data Failed (env : Env) (runner : Runner) (settings : Settings) (hostname : String)
    (job_data : JobData) (t : Trace) (e : Exn) (u : Trace) : Type 0 where
  -- The server is not in the configuration; nothing was called.
  unknown :
      lookup (short_name hostname) settings.worker_config.servers ≡ none
      → lookup hostname settings.worker_config.servers ≡ none
      → e ≡ exn key_error ("'" <> hostname <> "'")
      → u ≡ t
      → Failed env runner settings hostname job_data t e u
  timed_out : IsTimeLimit e → Failed env runner settings hostname job_data t e u
  -- All methods gave up.
  gave_up :
      (server : Server) (q : Progress)
      → attempts env runner settings server job_data
          (bug_cc_of env runner settings server)
          settings.reboot_methods
          (start_progress env runner settings hostname)
          t
        ≡ (ok (none, q), u)
      → e ≡ exn exception ("failed:" <> q.log_short)
      → Failed env runner settings hostname job_data t e u

module _ (env : Env) (runner : Runner) (settings : Settings) (hostname : String)
    (job_data : JobData) (t : Trace) (e : Exn) (u : Trace) where
  find_server-Failed :
      find_server settings.worker_config hostname t ≡ (err e, u)
      → Failed env runner settings hostname job_data t e u
  unfolding find_server
  find_server-Failed h = unknown (ground arith) (ground arith) (ground arith) (ground arith)

  report-Failed :
      (server : Server) (done : Option String × Progress) (s : Trace)
      → attempts env runner settings server job_data
          (bug_cc_of env runner settings server)
          settings.reboot_methods
          (start_progress env runner settings hostname)
          t
        ≡ (ok done, s)
      → report env runner settings (env.now t) done s ≡ (err e, u)
      → Failed env runner settings hostname job_data t e u
  unfolding report
  report-Failed server (none, q) s looped h =
      let same : Path Trace s u = ground arith in
      gave_up server q (rw same at looped) (ground arith)
  report-Failed server (some name, q) s looped h = ground arith

  -- `reboot` raises only for an unknown server, with `KeyError` and no call made; for Celery's time
  -- limit, with a log as its output; or when every method gave up, with the short log as its
  -- message.
  pub handle-Failed :
      handle env runner settings hostname job_data t ≡ (err e, u)
      → Failed env runner settings hostname job_data t e u
  unfolding handle
  handle-Failed h = elim (continue-eq-err (find_server settings.worker_config hostname t) _ h) [
    | inl raised ↦ find_server-Failed raised
    | inr (found, s, known, followed) ↦
        let silent : s ≡ t = find_server_silent env runner settings hostname t s found known in
        elim (continue-eq-err
          (attempts env runner settings found.0 job_data (bug_cc_of env runner settings found.0)
            settings.reboot_methods (start_progress env runner settings hostname) s)
          _ followed) [
            | inl raised ↦ timed_out (
                attempts-IsTimeLimit env runner settings e u found.0 job_data
                  (bug_cc_of env runner settings found.0) settings.reboot_methods
                  (start_progress env runner settings hostname) s raised)
            | inr (done, v, looped, reported) ↦
                report-Failed found.0 done v (rw silent at looped) reported
          ]
  ]
