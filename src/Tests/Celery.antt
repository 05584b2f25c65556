-- ===== src/Tests/Celery.antt =====
-- The task on a ping that is resolved, on one that is not, and on a task without a module.
use relops_hardware_controll.Prelude.{
  ◌≡◌, ◌↔◌, refl, all_chars, inr, String, none, some, [], ◌∷◌, split,
}
use relops_hardware_controll.Effects.{
  Trace, Exn, exn, index_error, key_error, ok, err, dns, irc, level,
}
use relops_hardware_controll.Celery.Username.{username}
use relops_hardware_controll.Celery.Username.Laws.{Names, username_iff}
use relops_hardware_controll.Celery.Notify.{send_chunks}
use relops_hardware_controll.Celery.Notify.Laws.{Pieces, send_chunks-Pieces}
use relops_hardware_controll.Celery.Task.{task_of, celery_call_command}
use relops_hardware_controll.Celery.Task.Start.{
  celery_call_command_unresolved, celery_call_command_refused, celery_call_command-level,
  celery_call_command_total,
}
use relops_hardware_controll.Tests.Sample.{
  env, offline_env, runner, runner-IsSound, runner_level, settings, job,
}

username_ldap : username "mozilla-ldap/jdoe@mozilla.com" ≡ some "jdoe"
unfolding username
username_ldap = refl

username_iff_example :
    (username "mozilla-ldap/jdoe@mozilla.com" ≡ some "jdoe")
    ↔ Names "mozilla-ldap/jdoe@mozilla.com" "jdoe"
username_iff_example = username_iff "mozilla-ldap/jdoe@mozilla.com" "jdoe"

username_auth0 : username "mozilla-auth0/ad|Mozilla-LDAP|jdoe" ≡ some "jdoe"
unfolding username
username_auth0 = refl

username_other : username "mozilla-ldap/jdoe@example.com" ≡ none
unfolding username
username_other = refl

abbrev resolved : String
resolved = "t-1.test.releng.mdc1.mozilla.com"

celery_call_command_total_example :
    (u : Trace) × (celery_call_command env runner settings job [] ≡ (ok tt, u))
unfolding task_of username split
celery_call_command_total_example =
    celery_call_command_total env runner settings job resolved "10.0.0.1" "mdc1" "jdoe" []
      runner-IsSound refl refl refl refl

celery_call_command-level_example :
    level env (celery_call_command env runner settings job []).1 ≡ 20
celery_call_command-level_example =
    celery_call_command-level env runner settings job [] runner-IsSound runner_level

celery_call_command_unresolved_example :
    celery_call_command offline_env runner settings job []
    ≡ (err (exn index_error "list index out of range"), dns "t-1" ∷ [])
unfolding split all_chars
celery_call_command_unresolved_example =
    celery_call_command_unresolved offline_env runner settings job (exn key_error "NXDOMAIN") []
      refl refl

-- The task `reimage` has no module.
celery_call_command_refused_example :
    (e : Exn) × (celery_call_command env runner settings (record job { task_name = "reimage" }) []
      ≡ (err e, dns "t-1" ∷ []))
unfolding task_of
celery_call_command_refused_example =
    celery_call_command_refused env runner settings (record job { task_name = "reimage" }) []
      (inr refl)

send_chunks-Pieces_example : Pieces "#roller" "hello" [] (irc "#roller" "hello" ∷ [])
unfolding send_chunks
send_chunks-Pieces_example =
    send_chunks-Pieces env "#roller" 6 "hello" [] (irc "#roller" "hello" ∷ []) refl
