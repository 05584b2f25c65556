-- ===== src/Celery/Task/Laws.antt =====
-- celery.py: the task from the command's call on.
use relops_hardware_controll.Prelude.{◌≡◌, refl, String, ◌<>◌, [], ◌∷◌, count, replace, arith, suc}
use relops_hardware_controll.Effects.{
  Env, Trace, Mail, Reply, returns, raises, Outcome, ok, err, pending, pure, rescue, set_level,
  call_unit, email, level,
}
use relops_hardware_controll.Effects.Laws.{Finishes, continue-Finishes, call_unit-Finishes}
use relops_hardware_controll.Settings.{Settings}
use relops_hardware_controll.Job.{JobData, items, dumps}
use relops_hardware_controll.Commands.Runner.{Runner}
use relops_hardware_controll.Reboot.Handle.{reified}
use relops_hardware_controll.Celery.Notify.{
  Message, words, error, nothing, irc_body, send_irc, send_mails,
}
use relops_hardware_controll.Celery.Notify.Laws.{send_chunks-Finishes}
use relops_hardware_controll.Celery.Task.{mail_of, message_of_reply, critical, run_and_report}

rescue_all :
    (r : Outcome (Unit {0}) × Trace)
    → Finishes r.0
    → (u : Trace) × (rescue r (λ _. pure tt) ≡ (ok tt, u))
rescue_all (ok a, t) h = (t, refl)
rescue_all (err e, t) h = (t, refl)
rescue_all (pending, t) h = absurd h

irc_body-Finishes :
    (env : Env) (channel subject : String) (message : Message) (t : Trace)
    → Finishes (irc_body env channel subject message t).0
unfolding irc_body
irc_body-Finishes env channel subject (words s) t =
    send_chunks-Finishes env channel (suc (count (subject <> ": " <> replace 13 "\t" s))) _ t
      (omega arith)
irc_body-Finishes env channel subject (error e) t = tt
irc_body-Finishes env channel subject nothing t = tt

send_irc_total :
    (env : Env) (channel subject : String) (message : Message) (t : Trace)
    → (u : Trace) × (send_irc env channel subject message t ≡ (ok tt, u))
unfolding send_irc
send_irc_total env channel subject message t =
    rescue_all (irc_body env channel subject message t)
      (irc_body-Finishes env channel subject message t)

send_mails_total :
    (env : Env) (mail : Mail) (name : String) (t : Trace)
    → (u : Trace) × (send_mails env mail name t ≡ (ok tt, u))
unfolding send_mails
send_mails_total env mail name t = rescue_all _ (
    continue-Finishes (call_unit env (email mail) t) _ (call_unit-Finishes env (email mail) t)
      λ _. call_unit-Finishes env _ _)

reified_total :
    {A : Type 0} (r : Outcome A × Trace)
    → Finishes r.0
    → (reply : Reply A) × (reified r ≡ (ok reply, r.1))
reified_total (ok a, t) h = (returns a, refl)
reified_total (err e, t) h = (raises e, refl)
reified_total (pending, t) h = absurd h

module _ (env : Env) (runner : Runner) (settings : Settings) where
  -- If the command ends, the task from its call on gives its result, whatever the command and the
  -- notifications raise, and it leaves the log level that it found after the command.
  pub run_and_report_total :
      (task hostname subject name start_time : String) (job : JobData) (t : Trace)
      → Finishes (runner.call task (hostname ∷ dumps (items job) ∷ []) t).0
      → (u : Trace) × (run_and_report env runner settings task hostname subject name start_time job
            t
          ≡ (ok tt, u))
        × (level env u ≡ level env (runner.call task (hostname ∷ dumps (items job) ∷ []) t).1)
  unfolding run_and_report
  run_and_report_total task hostname subject name start_time job t h =
      let called = runner.call task (hostname ∷ dumps (items job) ∷ []) t in
      let (reply, replied) = reified_total called h in
      let message = message_of_reply env runner settings reply in
      let mail = mail_of settings subject message start_time job in
      let (s, mailed) = send_mails_total env mail name (set_level critical ∷ called.1) in
      let (u, chatted) = send_irc_total env settings.notify_irc_channel subject message s in
      (set_level (level env called.1) ∷ u, rw (replied, mailed, chatted), refl)
