-- ===== src/Reboot/Handle/Success.antt =====
-- reboot.py: the result of `Command.handle`.
use relops_hardware_controll.Prelude.{◌≡◌, String, Option, none, some, true, arith}
use relops_hardware_controll.Effects.{Env, Trace, ok}
use relops_hardware_controll.Effects.Laws.{continue-eq-ok}
use relops_hardware_controll.Settings.{Settings, Server}
use relops_hardware_controll.Job.{JobData}
use relops_hardware_controll.Commands.Runner.{Runner}
use relops_hardware_controll.Commands.Ipmi.{find_server}
use relops_hardware_controll.Reboot.Wait.Cycle.{Cycled, reboot_succeeded-Cycled}
use relops_hardware_controll.Reboot.Methods.{Progress, Prepared}
use relops_hardware_controll.Reboot.Handle.{
  attempts, report, result_text, start_progress, bug_cc_of, handle,
}
use relops_hardware_controll.Reboot.Handle.Laws.{Worked, FirstWorked, attempts-eq-some}

module _ (env : Env) (runner : Runner) (settings : Settings) where
  -- The server is known; a method worked, the methods in front of it gave up, and those behind it
  -- were not tried; a method other than the filing of a bug was seen to cycle the machine's power.
  pub record Rebooted (hostname : String) (job_data : JobData) (message : String) (t u : Trace)
      : Type 0 where
    pub server : Server
    pub key : String
    pub known : find_server settings.worker_config hostname t ≡ (ok (server, key), t)
    pub name : String
    pub last : Progress
    pub first :
        FirstWorked env runner settings server job_data
          (bug_cc_of env runner settings server)
          settings.reboot_methods
          (start_progress env runner settings hostname)
          t
          name
          last
          u
    pub cycled :
        first.worked.call.checked ≡ true
        → Cycled env runner settings first.worked.before.hostname first.worked.called u
    pub text : message ≡ result_text env runner settings name last (env.now t) (env.now u)

  pub find_server_silent :
      (hostname : String) (t s : Trace) (found : Server × String)
      → find_server settings.worker_config hostname t ≡ (ok found, s)
      → s ≡ t
  unfolding find_server
  find_server_silent hostname t s found h = ground arith

  Worked-Cycled :
      {prepared : Prepared} {q : Progress} {s u : Trace}
      (w : Worked env runner settings prepared q s u)
      → w.call.checked ≡ true
      → Cycled env runner settings w.before.hostname w.called u
  Worked-Cycled w h = reboot_succeeded-Cycled env runner settings _ w.called _ (rw h at w.checked)

  module _ (hostname : String) (job_data : JobData) (message : String) (t u : Trace) where
    handle_reported :
        (server : Server) (key : String) (done : Option String × Progress) (s : Trace)
        → find_server settings.worker_config hostname t ≡ (ok (server, key), t)
        → attempts env runner settings server job_data
            (bug_cc_of env runner settings server)
            settings.reboot_methods
            (start_progress env runner settings hostname)
            t
          ≡ (ok done, s)
        → report env runner settings (env.now t) done s ≡ (ok message, u)
        → Rebooted hostname job_data message t u
    unfolding report
    handle_reported server key (none, p) s known looped h = ground arith
    handle_reported server key (some name, p) s known looped h =
        let same : Path Trace s u = ground arith in
        let first =
          attempts-eq-some env runner settings server job_data _ settings.reboot_methods _ t name p
            u (rw same at looped) in
        record {
          server = server;
          key = key;
          known = known;
          name = name;
          last = p;
          first = first;
          cycled = Worked-Cycled first.worked;
          text = ground arith;
        }

    -- When `reboot` gives a result, the server is known; the call of one method returned and its check
    -- held, the methods in front of it gave up and those behind it were not tried; the text is made for
    -- this method; and if the method is checked, a wait from its call on ended with a failed ping, and
    -- a wait from there on with an answered one.
    pub handle-Rebooted :
        handle env runner settings hostname job_data t ≡ (ok message, u)
        → Rebooted hostname job_data message t u
    unfolding handle
    handle-Rebooted h =
        let (found, s, known, followed) =
          continue-eq-ok (find_server settings.worker_config hostname t) _ h in
        let (done, v, looped, reported) =
          continue-eq-ok
            (attempts env runner settings found.0 job_data (bug_cc_of env runner settings found.0)
              settings.reboot_methods (start_progress env runner settings hostname) s)
            _ followed in
        let silent : s ≡ t = find_server_silent hostname t s found known in
        handle_reported found.0 found.1 done v (rw silent at known) (rw silent at looped) reported
