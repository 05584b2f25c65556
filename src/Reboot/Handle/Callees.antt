-- ===== src/Reboot/Handle/Callees.antt =====
-- reboot.py: the commands that it calls.
use relops_hardware_controll.Prelude.{
  ◌≡◌, fun_ext, refl, ap, ◌∙◌, String, ◌<>◌, List, [], ◌∷◌, Option, All, arith,
}
use relops_hardware_controll.Settings.{Settings, Server}
use relops_hardware_controll.Effects.{Env, Reply, returns, raises, M, ◌>>=◌, get_time}
use relops_hardware_controll.Job.{JobData}
use relops_hardware_controll.Commands.Runner.{Runner}
use relops_hardware_controll.Commands.Ipmi.{find_server}
use relops_hardware_controll.Reboot.Wait.{reboot_succeeded}
use relops_hardware_controll.Reboot.Methods.{
  Progress, Attempt, Prepared, skip, failed, ready, prepare,
}
use relops_hardware_controll.Reboot.Handle.{
  Verdict, reify, check, after_check, after_call, run_attempt, try_method, proceed, attempts,
  report, start_progress, bug_cc_of, handle,
}

abbrev pub Call : Type 0
Call = List String → M (Option String)

abbrev pub callees : List String
callees =
    "ping" ∷ "ssh_reboot" ∷ "ipmi" ∷ "snmp_reboot" ∷ "xenapi_reboot" ∷ "ilo_reboot"
    ∷ "file_bugzilla_bug" ∷ []

module _ (env : Env) (settings : Settings) (written : Option String → String)
    (f g : String → Call) where
  abbrev by : (String → Call) → Runner
  by call = record { call = call; written = written }

  module _ (pings : f "ping" ≡ g "ping") where
    check-eq :
        (a : Attempt) (hostname : String)
        → check env (by f) settings a hostname ≡ check env (by g) settings a hostname
    unfolding reboot_succeeded
    check-eq a hostname =
        ap (λ (call : Call). check env (by (λ name. call)) settings a hostname) pings

    after_call-eq :
        (a : Attempt) (p : Progress) (r : Reply (Option String))
        → after_call env (by f) settings a p r ≡ after_call env (by g) settings a p r
    after_call-eq a p (raises e) = refl
    after_call-eq a p (returns output) =
        let q = record p { stdout = p.stdout <> written output } in
        ap (λ m. reify m >>= after_check env (by f) settings a q) (check-eq a q.hostname)

    run_attempt-eq :
        (a : Attempt) (p : Progress)
        → f a.command ≡ g a.command
        → run_attempt env (by f) settings a p ≡ run_attempt env (by g) settings a p
    unfolding run_attempt
    run_attempt-eq a p same =
        ap
          (λ (call : Call).
            reify (call (p.hostname ∷ a.args)) >>= after_call env (by f) settings a p)
          same
        ∙ ap
            (λ (rest : Reply (Option String) → M Verdict).
              reify (g a.command (p.hostname ∷ a.args)) >>= rest)
            (fun_ext (after_call-eq a p))

    -- The command that is called, if one is.
    abbrev IsSame : Prepared → Type 0
    IsSame skip = Unit {0}
    IsSame (failed e) = Unit {0}
    IsSame (ready a p) = f a.command ≡ g a.command

    try_method-eq :
        (x : Prepared) (name : String) (p : Progress)
        → IsSame x
        → try_method env (by f) settings x name p ≡ try_method env (by g) settings x name p
    unfolding try_method
    try_method-eq skip name p same = refl
    try_method-eq (failed e) name p same = refl
    try_method-eq (ready a q) name p same = run_attempt-eq a q same

  module _ (same : All (λ name. f name ≡ g name) callees) where
    prepare-IsSame :
        (server : Server) (job_data : JobData) (bug_cc name : String) (p : Progress)
        → IsSame same.0 (prepare server job_data bug_cc name p)
    unfolding prepare
    prepare-IsSame server job_data bug_cc name p =
        let (ping_same, (ssh, (ipmi_same, (snmp, (xen, (ilo, (bug, _))))))) = same in ground arith

    attempts-eq :
        (server : Server) (job_data : JobData) (bug_cc : String) (names : List String)
        (p : Progress)
        → attempts env (by f) settings server job_data bug_cc names p
          ≡ attempts env (by g) settings server job_data bug_cc names p
    unfolding attempts
    attempts-eq server job_data bug_cc [] p = refl
    attempts-eq server job_data bug_cc (name ∷ names) p =
        let x = prepare server job_data bug_cc name p in
        ap
          (λ m.
            m
            >>= proceed env (by f) settings server job_data bug_cc name
                (attempts env (by f) settings server job_data bug_cc names))
          (try_method-eq same.0 x name p (prepare-IsSame server job_data bug_cc name p))
        ∙ ap
            (λ (rest : Progress → M (Option String × Progress)).
              try_method env (by g) settings x name p
              >>= proceed env (by f) settings server job_data bug_cc name rest)
            (fun_ext (attempts-eq server job_data bug_cc names))

    pub handle-callees :
        (hostname : String) (job_data : JobData)
        → handle env (by f) settings hostname job_data
          ≡ handle env (by g) settings hostname job_data
    unfolding handle
    handle-callees hostname job_data =
        ap
          (λ (loop : Server → M (Option String × Progress)). get_time env >>= λ start.
            find_server settings.worker_config hostname >>= λ found.
            loop found.0 >>= report env (by f) settings start)
          (fun_ext λ server.
            attempts-eq server job_data (bug_cc_of env (by f) settings server)
              settings.reboot_methods (start_progress env (by f) settings hostname))
