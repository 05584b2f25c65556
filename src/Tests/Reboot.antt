-- ===== src/Tests/Reboot.antt =====
-- `reboot` of a host whose `ipmi` fails and whose `ssh_reboot` works.
use relops_hardware_controll.Prelude.{
  ◌≡◌, ◌↔◌, none, refl, String, some, [], ◌∷◌, false, arith, ◌≤◌, ◌+◌, ◌*◌,
}
use relops_hardware_controll.Effects.{Event, Trace, exn, key_error, ok, process, sleep, pure}
use relops_hardware_controll.Effects.Laws.{Finishes}
use relops_hardware_controll.Effects.Clock.{second}
use relops_hardware_controll.Reboot.Wait.{ping_args, wait_for_state, reboot_succeeded}
use relops_hardware_controll.Reboot.Wait.Laws.{wait_for_state-Finishes}
use relops_hardware_controll.Settings.{Settings, Server}
use relops_hardware_controll.Reboot.Wait.Cycle.{Cycled, reboot_succeeded-Cycled}
use relops_hardware_controll.Reboot.Methods.{Progress}
use relops_hardware_controll.Reboot.Handle.{attempts, start_progress, handle}
use relops_hardware_controll.Reboot.Handle.Laws.{FirstWorked, attempts-eq-some}
use relops_hardware_controll.Reboot.Handle.Rounds.{GaveUp, attempts_iff}
use relops_hardware_controll.Reboot.Handle.Duration.{failed_checks, attempts_duration}
use relops_hardware_controll.Reboot.Handle.Success.{Rebooted, handle-Rebooted}
use relops_hardware_controll.Reboot.Handle.Errors.{Failed, handle-Failed}
use relops_hardware_controll.Reboot.Handle.Termination.{handle-Finishes}
use relops_hardware_controll.Tests.Sample.{
  env, env-IsSteady, runner, runner-IsSound, settings, job, no_server,
}

abbrev host : String
host = "t-1.test.releng.mdc1.mozilla.com"

abbrev ssh_call : Event
ssh_call = process ("ssh_reboot" ∷ host ∷ "-l" ∷ "roller" ∷ "-i" ∷ "ssh.key" ∷ []) 0

abbrev cycled_trace : Trace
cycled_trace =
    process ("ping" ∷ ping_args host 1 60) 0
    ∷ process ("ping" ∷ ping_args host 1 4) 0
    ∷ ssh_call
    ∷ process ("ipmi" ∷ host ∷ "ipmi_reset" ∷ []) 0
    ∷ []

abbrev reached : Progress
reached = record (start_progress env runner settings host) {
  log = "\\n2018-01-01T00:00:00 ipmi ipmi_reset CalledProcessError\\n";
  log_short = " 00:00:00 ipmi CalledProcessError. ";
  stdout = "done\n";
}

abbrev ipmi_trace : Trace
ipmi_trace = process ("ipmi" ∷ host ∷ "ipmi_reset" ∷ []) 0 ∷ []

abbrev gave_up : Progress
gave_up = record (start_progress env runner settings host) {
  log = "\\n2018-01-01T00:00:00 ipmi ipmi_reset CalledProcessError\\n";
  log_short = " 00:00:00 ipmi CalledProcessError. ";
}

handle-Rebooted_example :
    Rebooted env runner settings host job "ssh_reboot: done\r Completed in 0 seconds" []
      cycled_trace
unfolding handle reboot_succeeded
handle-Rebooted_example =
    handle-Rebooted env runner settings host job "ssh_reboot: done\r Completed in 0 seconds" []
      cycled_trace refl

handle-Failed_example : Failed env runner settings "unknown" job [] (exn key_error "'unknown'") []
unfolding handle
handle-Failed_example =
    handle-Failed env runner settings "unknown" job [] (exn key_error "'unknown'") [] refl

handle-Finishes_example : Finishes (handle env runner settings host job []).0
handle-Finishes_example =
    handle-Finishes env env-IsSteady runner runner-IsSound settings host job []

attempts-eq-some_example :
    FirstWorked env runner settings no_server job "" settings.reboot_methods
      (start_progress env runner settings host)
      []
      "ssh_reboot"
      reached
      cycled_trace
unfolding attempts reboot_succeeded
attempts-eq-some_example =
    attempts-eq-some env runner settings no_server job "" settings.reboot_methods
      (start_progress env runner settings host) [] "ssh_reboot" reached cycled_trace refl

-- `ipmi` raises: the one method is given up.
attempts_iff_example :
    (attempts env runner settings no_server job ""
        ("ipmi_reset" ∷ [])
        (start_progress env runner settings host)
        []
      ≡ (ok (none, gave_up), ipmi_trace))
    ↔ GaveUp env runner settings no_server job ""
        ("ipmi_reset" ∷ [])
        (start_progress env runner settings host)
        []
        gave_up
        ipmi_trace
attempts_iff_example =
    attempts_iff env runner settings no_server job "" ("ipmi_reset" ∷ [])
      (start_progress env runner settings host) gave_up [] ipmi_trace

reboot_succeeded-Cycled_example :
    Cycled env runner settings host
      (ssh_call ∷ process ("ipmi" ∷ host ∷ "ipmi_reset" ∷ []) 0 ∷ [])
      cycled_trace
unfolding reboot_succeeded
reboot_succeeded-Cycled_example =
    reboot_succeeded-Cycled env runner settings host
      (ssh_call ∷ process ("ipmi" ∷ host ∷ "ipmi_reset" ∷ []) 0 ∷ []) cycled_trace refl

-- The host answers both pings for two seconds: it has not gone down.
abbrev hasty : Settings
hasty = record settings { down_timeout = 2 }

abbrev poll : Event
poll = process ("ping" ∷ ping_args host 1 4) 0

abbrev stayed_up : Trace
stayed_up =
    sleep 1 ∷ poll ∷ sleep 1 ∷ poll ∷ process ("snmp_reboot" ∷ host ∷ "pdu1" ∷ "2b13" ∷ []) 0 ∷ []

abbrev pdu_server : Server
pdu_server = record no_server { pdu = some "pdu1:2b13" }

abbrev tired : Progress
tired = record (start_progress env runner hasty host) {
  log = "\\n2018-01-01T00:00:00 snmp_reboot pdu1 2b13 Exception\\n";
  log_short = " 00:00:00 snmp_reboot Exception. ";
  stdout = "done\n";
}

attempts_duration_example :
    (g : GaveUp env runner hasty pdu_server job ""
      ("snmp_reboot" ∷ [])
      (start_progress env runner hasty host)
      []
      tired
      stayed_up)
    × (0
          + failed_checks env runner hasty pdu_server job ""
              ("snmp_reboot" ∷ [])
              (start_progress env runner hasty host)
              []
              tired
              stayed_up
              g
            * (2 * second)
        ≤ env.now stayed_up)
unfolding attempts reboot_succeeded
attempts_duration_example =
    attempts_duration env runner hasty pdu_server job "" env-IsSteady runner-IsSound 2 (omega arith)
      (omega arith) ("snmp_reboot" ∷ []) (start_progress env runner hasty host) tired [] stayed_up
      refl

wait_for_state-Finishes_example : Finishes (wait_for_state env (pure false) 2 1 []).0
wait_for_state-Finishes_example =
    wait_for_state-Finishes env env-IsSteady (pure false) (λ t. ([], refl)) (λ t. tt) 2 1
      (omega arith) []
