-- ===== src/Reboot/Handle.antt =====
-- reboot.py: `Command.handle`.
pub mod Laws
pub mod Success
pub mod Errors
pub mod Termination
pub mod Callees
pub mod Rounds
pub mod Duration
use relops_hardware_controll.Prelude.{
  ℕ, String, ◌<>◌, Option, none, some, List, [], ◌∷◌, join, replace, Bool, true, false,
  if◌then◌else◌,
}
use relops_hardware_controll.Effects.{
  Env, Trace, soft_time_limit, exception, class_name, Exn, exn, text, Reply, returns, raises,
  Outcome, ok, err, pending, M, pure, raise, ◌>>=◌, get_time,
}
use relops_hardware_controll.Settings.{Settings, Server}
use relops_hardware_controll.Job.{JobData}
use relops_hardware_controll.Commands.Runner.{Runner}
use relops_hardware_controll.Commands.Ipmi.{find_server}
use relops_hardware_controll.Reboot.Wait.{reboot_succeeded}
use relops_hardware_controll.Reboot.Methods.{
  Progress, Attempt, Prepared, skip, failed, ready, prepare,
}

-- A program whose exception is a value.
abbrev pub reified : {A : Type 0} → Outcome A × Trace → Outcome (Reply A) × Trace
reified (ok a, t) = (ok (returns a), t)
reified (err e, t) = (ok (raises e), t)
reified (pending, t) = (pending, t)

abbrev pub reify : {A : Type 0} → M A → M (Reply A)
reify m t = reified (m t)

-- How the body of the loop ends: by `break`, or in the next round.
pub data Verdict : Type 0 where
  rebooted next : Progress → Verdict

module _ (env : Env) where
  abbrev pub short_note : String → Exn → Trace → String
  short_note method e t = env.utc_hms t <> " " <> method <> " " <> class_name e.cls <> ". "

  abbrev pub long_note : String → List String → Exn → Trace → String
  long_note method args e t =
      env.utc_iso t <> " " <> method <> " " <> join " " args <> " " <> class_name e.cls <> "\\n"

  -- The two handlers of the loop's body.
  unfoldable pub on_exception : String → List String → Progress → Exn → M Progress
  unfolding class_name join
  on_exception method args p e t = elim e.cls [
    | soft_time_limit ↦ raise (record e { output = text (p.log_short <> short_note method e t) }) t
    | _ ↦
        pure
          (record p {
            log = p.log <> long_note method args e t;
            log_short = p.log_short <> short_note method e t;
          })
          t
  ]

module _ (env : Env) (runner : Runner) (settings : Settings) where
  abbrev pub check : Attempt → String → M Bool
  check a hostname = if a.checked then reboot_succeeded env runner settings hostname else pure true

  abbrev pub did_not_cycle : Exn
  did_not_cycle = exn exception "Reboot did not cycle power."

  abbrev pub go_on : Attempt → Progress → Exn → M Verdict
  go_on a p e = do p' ← on_exception env a.command a.args p e; pure (next p')

  abbrev pub after_check : Attempt → Progress → Reply Bool → M Verdict
  after_check a p (returns true) = pure (rebooted p)
  after_check a p (returns false) = go_on a p did_not_cycle
  after_check a p (raises e) = go_on a p e

  abbrev pub after_call : Attempt → Progress → Reply (Option String) → M Verdict
  after_call a p (raises e) = go_on a p e
  after_call a p (returns output) =
      let p' = record p { stdout = p.stdout <> runner.written output } in
      reify (check a p'.hostname) >>= after_check a p'

  -- `call_command` and the check behind it.
  unfoldable pub run_attempt : Attempt → Progress → M Verdict
  unfolding on_exception
  run_attempt a p = reify (runner.call a.command (p.hostname ∷ a.args)) >>= after_call a p

  unfoldable pub try_method : Prepared → String → Progress → M Verdict
  unfolding run_attempt
  try_method skip name p = pure (next p)
  try_method (failed e) name p = do p' ← on_exception env name [] p e; pure (next p')
  try_method (ready a p') name p = run_attempt a p'

  module _ (server : Server) (job_data : JobData) (bug_cc : String) where
    -- `break`, or the next round.
    abbrev pub proceed :
        String → (Progress → M (Option String × Progress)) → Verdict → M (Option String × Progress)
    proceed name rest (rebooted q) = pure (some name, q)
    proceed name rest (next q) = rest q

    -- The loop over REBOOT_METHODS: the method that worked, if one did, and the last state.
    unfoldable pub attempts : List String → Progress → M (Option String × Progress)
    unfolding prepare try_method
    attempts [] p = pure (none, p)
    attempts (name ∷ names) p =
        try_method (prepare server job_data bug_cc name p) name p >>= proceed name (attempts names)

  -- `result_template.format(...)`
  unfoldable pub result_text : String → Progress → ℕ → ℕ → String
  unfolding replace
  result_text command p start now =
      let stdout = replace 10 "\r" p.stdout in
      if p.bug
      then "failed. " <> stdout
      else command <> ": " <> stdout <> " Completed in " <> env.three_digits start now <> " seconds"

  abbrev pub start_progress : String → Progress
  start_progress hostname = record {
    hostname = hostname;
    log = "\\n";
    log_short = " ";
    stdout = "";
    bug = false;
  }

  unfoldable pub report : ℕ → Option String × Progress → M String
  unfolding result_text
  report start (none, p) = raise (exn exception ("failed:" <> p.log_short))
  report start (some command, p) = do now ← get_time env; pure (result_text command p start now)

  abbrev pub bug_cc_of : Server → String
  bug_cc_of server = elim server.bug_cc [ some cc ↦ cc | none ↦ "" ]

  unfoldable pub handle : String → JobData → M String
  unfolding attempts report find_server
  handle hostname job_data = do
    start ← get_time env
    found ← find_server settings.worker_config hostname
    done ←
        attempts found.0 job_data (bug_cc_of found.0) settings.reboot_methods
          (start_progress hostname)
    report start done
