-- ===== src/Dispatch/Layers.antt =====
-- The commands that call commands: `ipmi` and `reboot`.
use relops_hardware_controll.Prelude.{◌≡◌, fun_ext, refl, ap, String, List, Option, none, some, All}
use relops_hardware_controll.Argparse.{Namespace, Checked, ok, refused, parse_args}
use relops_hardware_controll.Settings.{Settings}
use relops_hardware_controll.Effects.{Env, M, ◌>>=◌}
use relops_hardware_controll.Job.{JobData}
use relops_hardware_controll.Commands.Runner.{Runner}
use relops_hardware_controll.Commands.Arguments.{
  Command, ping, ssh_reboot, snmp_reboot, ilo_reboot, xenapi_reboot, ipmitool, file_bugzilla_bug,
  register_tc_actions, ipmi, reboot, parser_of, the_text, the_json,
}
use relops_hardware_controll.Commands.Ipmi
use relops_hardware_controll.Reboot.Handle.Callees.{Call, callees, handle-callees}
use relops_hardware_controll.Dispatch.{
  Host, find_command, command_names, with_text, the_job, run, run_parsed, run_command, call_found,
  call_command, over, nothing, commands,
}

module _ (host : Host) (env : Env) (settings : Settings) (f g : String → Call) where
  abbrev by : (String → Call) → Runner
  by call = record { call = call; written = host.written }

  ipmi-callee :
      (hostname command : String)
      → f "ipmitool" ≡ g "ipmitool"
      → Ipmi.handle (by f) settings.worker_config hostname command
        ≡ Ipmi.handle (by g) settings.worker_config hostname command
  unfolding Ipmi.handle
  ipmi-callee hostname command same =
      ap (λ (call : Call). Ipmi.handle (by (λ name. call)) settings.worker_config hostname command)
        same

  -- The two agree on what the command calls.
  abbrev IsSame : Command → Type 0
  IsSame ipmi = f "ipmitool" ≡ g "ipmitool"
  IsSame reboot = All (λ name. f name ≡ g name) callees
  IsSame _ = Unit {0}

  abbrev run_by : (String → Call) → Command → Namespace → M (Option String)
  run_by call = run host env settings (by call)

  run-IsSame :
      (command : Command) (v : Namespace) → IsSame command → run_by f command v ≡ run_by g command v
  unfolding run
  run-IsSame ping v same = refl
  run-IsSame ssh_reboot v same = refl
  run-IsSame snmp_reboot v same = refl
  run-IsSame ilo_reboot v same = refl
  run-IsSame xenapi_reboot v same = refl
  run-IsSame ipmitool v same = refl
  run-IsSame file_bugzilla_bug v same = refl
  run-IsSame register_tc_actions v same = refl
  run-IsSame ipmi v same = ipmi-callee (the_text v "hostname") (the_text v "command") same
  run-IsSame reboot v same =
      ap
        (λ (body : JobData → M String).
          the_job host env settings (the_json v "job_data") >>= λ job. with_text (body job))
        (fun_ext
          λ job. handle-callees env settings host.written f g same (the_text v "hostname") job)

  run_parsed-IsSame :
      (command : Command) (parsed : Checked Namespace)
      → IsSame command
      → run_parsed host env settings (by f) command parsed
        ≡ run_parsed host env settings (by g) command parsed
  unfolding run_parsed
  run_parsed-IsSame command (ok v) same = run-IsSame command v same
  run_parsed-IsSame command (refused e) same = refl

  call_found-IsSame :
      (name : String) (found : Option Command) (args : List String)
      → ((command : Command) → IsSame command)
      → call_found host env settings (by f) name found args
        ≡ call_found host env settings (by g) name found args
  unfolding call_found run_command
  call_found-IsSame name none args same = refl
  call_found-IsSame name (some command) args same = run_parsed-IsSame command _ (same command)

  -- A call of a command by name.
  call-IsSame :
      (name : String) (command : Command)
      → find_command command_names name ≡ some command
      → IsSame command
      → call_command host env settings (by f) name ≡ call_command host env settings (by g) name
  unfolding call_command call_found run_command
  call-IsSame name command found same = fun_ext λ args.
      rw found (run_parsed-IsSame command (parse_args (parser_of host.options command) args) same)

module _ (host : Host) (env : Env) (settings : Settings) where
  abbrev pub based_on : (String → Call) → Runner
  based_on calls = record { call = calls; written = host.written }

  abbrev upon : (String → Call) → String → Call
  upon calls = call_command host env settings (based_on calls)

  one_layer : (f g : String → Call) → upon f "ipmitool" ≡ upon g "ipmitool"
  unfolding find_command
  one_layer f g = call-IsSame host env settings f g "ipmitool" ipmitool refl tt

  two_layers : (f g : String → Call) → All (λ name. upon (upon f) name ≡ upon (upon g) name) callees
  unfolding find_command
  two_layers f g =
      let same = call-IsSame host env settings (upon f) (upon g) in
      (
        same "ping" ping refl tt,
        (
          same "ssh_reboot" ssh_reboot refl tt,
          (
            same "ipmi" ipmi refl (one_layer f g),
            (
              same "snmp_reboot" snmp_reboot refl tt,
              (
                same "xenapi_reboot" xenapi_reboot refl tt,
                (
                  same "ilo_reboot" ilo_reboot refl tt,
                  (same "file_bugzilla_bug" file_bugzilla_bug refl tt, tt),
                ),
              ),
            ),
          ),
        ),
      )

  ipmitool_layers : (f g : String → Call) → upon (upon f) "ipmitool" ≡ upon (upon g) "ipmitool"
  ipmitool_layers f g = one_layer (upon f) (upon g)

  commands_upon :
      (f g : String → Call) (name : String) (args : List String)
      → upon (upon (upon f)) name args ≡ upon (upon (upon g)) name args
  unfolding call_command
  commands_upon f g name args =
      call_found-IsSame host env settings (upon (upon f)) (upon (upon g)) name
        (find_command command_names name) args
        (same (upon (upon f)) (upon (upon g)) (ipmitool_layers f g) (two_layers f g))
    where
      same :
          (f g : String → Call)
          → f "ipmitool" ≡ g "ipmitool"
          → All (λ name. f name ≡ g name) callees
          → (command : Command) → IsSame host env settings f g command
      same f g tool all ipmi = tool
      same f g tool all reboot = all
      same f g tool all ping = tt
      same f g tool all ssh_reboot = tt
      same f g tool all snmp_reboot = tt
      same f g tool all ilo_reboot = tt
      same f g tool all xenapi_reboot = tt
      same f g tool all ipmitool = tt
      same f g tool all file_bugzilla_bug = tt
      same f g tool all register_tc_actions = tt

  -- Three layers of commands are all: whatever a call below them does, nothing of it is seen, and
  -- the dispatch is its own next layer, so each command calls the others through the same dispatch.
  pub commands-layers :
      (calls : String → Call)
      → (over host env settings (over host env settings (over host env settings (based_on calls)))
          ≡ commands host env settings)
        × (over host env settings (commands host env settings) ≡ commands host env settings)
  unfolding commands
  commands-layers calls =
      let base = (nothing host env settings).call in
      let lift = λ (f g : String → Call).
        ap based_on (fun_ext λ name. fun_ext λ args. commands_upon f g name args) in
      (lift calls base, lift (upon base) base)
