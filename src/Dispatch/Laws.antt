-- ===== src/Dispatch/Laws.antt =====
-- The dispatch of the commands is the interface that `reboot`, `ipmi` and the worker call.
use relops_hardware_controll.Prelude.{
  String, List, [], ◌∷◌, ◌++◌, Option, none, some, lookup, refl, arith,
}
use relops_hardware_controll.Json.Value.{Value}
use relops_hardware_controll.Argparse.{Namespace, Checked, ok, refused}
use relops_hardware_controll.Settings.{Settings, Config, HwType}
use relops_hardware_controll.Effects.{Env, M}
use relops_hardware_controll.Effects.Clock.{IsSteady}
use relops_hardware_controll.Effects.Settles.{
  Settles, Bounded-Settles, IsQuiet-Settles, Settles-raise, Settles-pure, Settles-bind,
  Settles-call_unit,
}
use relops_hardware_controll.Commands.Runner.{Runner, IsSound}
use relops_hardware_controll.Commands.Arguments.{
  Command, ping, ssh_reboot, snmp_reboot, ilo_reboot, xenapi_reboot, ipmitool, file_bugzilla_bug,
  register_tc_actions, ipmi, reboot, the_text, the_json,
}
use relops_hardware_controll.Commands.Ipmi
use relops_hardware_controll.Commands.Ipmi.{
  get_key, base_args, addr_args, remapped, find_type, via_parent, splat,
}
use relops_hardware_controll.Commands.FileBugzillaBug.Laws.{handle-Bounded}
use relops_hardware_controll.Commands.RegisterTcActions.{Django}
use relops_hardware_controll.Commands.RegisterTcActions
use relops_hardware_controll.Commands.RegisterTcActions.Laws.Unknown.{
  actions_of-IsQuiet, validate_base_url-IsQuiet, validate_provisioner_id-IsQuiet,
  validate_credentials-IsQuiet,
}
use relops_hardware_controll.Reboot.Handle.Termination.{find_server-Settles, handle-Settles}
use relops_hardware_controll.Dispatch.{
  Host, with_text, without_text, the_job, run, run_parsed, run_command, call_found, call_command,
  over, nothing, commands,
}
use relops_hardware_controll.Dispatch.Leaves.{
  ping-Settles, ssh_reboot-Settles, snmp_reboot-Settles, ilo_reboot-Settles, xenapi_reboot-Settles,
  ipmitool-Settles,
}

register-Settles :
    (django : Django) (env : Env) (settings : Settings) (base_url provisioner_id : String)
    → Settles (RegisterTcActions.handle django env settings base_url provisioner_id)
unfolding RegisterTcActions.handle
register-Settles django env settings base_url provisioner_id =
    Settles-bind _ _ (IsQuiet-Settles _ (validate_base_url-IsQuiet django base_url)) λ _.
      Settles-bind _ _ (IsQuiet-Settles _ (validate_provisioner_id-IsQuiet provisioner_id)) λ _.
        Settles-bind _ _ (IsQuiet-Settles _ (validate_credentials-IsQuiet settings)) λ _.
          Settles-bind _ _
            (IsQuiet-Settles _ (actions_of-IsQuiet django base_url settings.task_names))
            λ actions. Settles-call_unit env _

get_key-Settles : {A : Type 0} (o : Option A) (key : String) → Settles (get_key o key)
get_key-Settles none key = search Settles-raise
get_key-Settles (some a) key = Settles-pure a

addr_args-Settles : (remap : HwType) (addr : Option String) → Settles (addr_args remap addr)
unfolding addr_args
addr_args-Settles remap none = search Settles-pure
addr_args-Settles remap (some addr) =
    Settles-bind _ _ (get_key-Settles remap.addr_map "map") λ addr_map. get_key-Settles _ addr

base_args-Settles : (remap : HwType) → Settles (base_args remap)
base_args-Settles remap t = (([], ground arith), ground arith)

remapped-Settles :
    (remap : Option HwType) (addr : Option String) (command : String)
    → Settles (remapped remap addr command)
unfolding remapped
remapped-Settles none addr command = search Settles-pure
remapped-Settles (some remap) addr command = Settles-bind _ _ (base_args-Settles remap) λ args.
    Settles-bind _ _ (addr_args-Settles remap addr) λ more.
      Settles-bind _ _ (get_key-Settles remap.commands "commands") λ commands. search Settles-pure

ipmi-Settles :
    (runner : Runner) (config : Config) (hostname command : String)
    → IsSound runner
    → Settles (Ipmi.handle runner config hostname command)
unfolding Ipmi.handle
ipmi-Settles runner config hostname command sound =
    Settles-bind _ _ (find_server-Settles config hostname) λ found.
      let target = via_parent found.0 found.1 in
      Settles-bind _ _ (get_key-Settles (lookup target.0 config.servers) target.0) λ machine.
        Settles-bind _ _ (remapped-Settles (find_type config machine.hwtype) target.1 command)
          λ sent. Settles-bind _ _ (get_key-Settles machine.user "user") λ user.
            Settles-bind _ _ (get_key-Settles machine.password "password") λ password t.
              let args =
                ("-H" ∷ target.0 ∷ "-U" ∷ user ∷ "-P" ∷ password ∷ []) ++ sent.0 ++ splat sent.1 in
              (sound.grows "ipmitool" args t, sound.finishes "ipmitool" args t)

with_text-Settles : (m : M String) → Settles m → Settles (with_text m)
with_text-Settles m h = Settles-bind _ _ h λ s. search Settles-pure

without_text-Settles : (m : M (Unit {0})) → Settles m → Settles (without_text m)
without_text-Settles m h = Settles-bind _ _ h λ _. search Settles-pure

module _ (host : Host) (env : Env) (steady : IsSteady env) (settings : Settings) where
  the_job-Settles : (v : Value) → Settles (the_job host env settings v)
  unfolding the_job
  the_job-Settles v t = (([], ground arith), ground arith)

  run-Settles :
      (runner : Runner) (command : Command) (v : Namespace)
      → IsSound runner
      → Settles (run host env settings runner command v)
  unfolding run
  run-Settles runner ping v sound = with_text-Settles _ (ping-Settles env _ _)
  run-Settles runner ssh_reboot v sound = with_text-Settles _ (ssh_reboot-Settles env _ _)
  run-Settles runner snmp_reboot v sound =
      with_text-Settles _ (snmp_reboot-Settles env settings _ _ _ _)
  run-Settles runner ilo_reboot v sound =
      without_text-Settles _ (ilo_reboot-Settles env settings _ _)
  run-Settles runner xenapi_reboot v sound =
      without_text-Settles _ (xenapi_reboot-Settles env settings _ _)
  run-Settles runner ipmitool v sound = ipmitool-Settles env _ _
  run-Settles runner file_bugzilla_bug v sound =
      with_text-Settles _ (Bounded-Settles 6 _ (handle-Bounded host.python env settings _ _ _))
  run-Settles runner register_tc_actions v sound =
      without_text-Settles _ (register-Settles host.django env settings _ _)
  run-Settles runner ipmi v sound = ipmi-Settles runner settings.worker_config _ _ sound
  run-Settles runner reboot v sound =
      Settles-bind _ _ (the_job-Settles (the_json v "job_data")) λ job.
        with_text-Settles _
          (handle-Settles env steady runner sound settings (the_text v "hostname") job)

  run_parsed-Settles :
      (runner : Runner) (command : Command) (parsed : Checked Namespace)
      → IsSound runner
      → Settles (run_parsed host env settings runner command parsed)
  unfolding run_parsed
  run_parsed-Settles runner command (ok v) sound = run-Settles runner command v sound
  run_parsed-Settles runner command (refused e) sound = search Settles-raise

  call_found-Settles :
      (runner : Runner) (name : String) (found : Option Command) (args : List String)
      → IsSound runner
      → Settles (call_found host env settings runner name found args)
  unfolding call_found run_command
  call_found-Settles runner name (some command) args sound =
      run_parsed-Settles runner command _ sound
  call_found-Settles runner name none args sound = search Settles-raise

  over-IsSound : (runner : Runner) → IsSound runner → IsSound (over host env settings runner)
  unfolding call_command
  over-IsSound runner sound = record {
    grows = λ name args t. (call_found-Settles runner name _ args sound t).0;
    finishes = λ name args t. (call_found-Settles runner name _ args sound t).1;
  }

  nothing-IsSound : IsSound (nothing host env settings)
  nothing-IsSound = record { grows = λ name args t. ([], refl); finishes = λ name args t. tt }

  -- With a steady clock, the concrete dispatch of the commands meets the interface that `reboot`,
  -- `ipmi` and the worker use: whatever name and arguments it is given, a call ends with a result or
  -- an exception, and keeps the calls that were made before it.
  pub commands-IsSound : IsSound (commands host env settings)
  unfolding commands
  commands-IsSound = over-IsSound _ (over-IsSound _ (over-IsSound _ nothing-IsSound))
