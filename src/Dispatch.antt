-- ===== src/Dispatch.antt =====
-- Django's `call_command(load_command_class('relops_hardware_controller.api', name), *args)` over the
-- modelled commands: it finds the command, parses the arguments, and runs `handle`.
mod Leaves
pub mod Reaches
pub mod Calls
pub mod Words
pub mod Tool
pub mod Layers
pub mod Worker
pub mod Laws
use relops_hardware_controll.Prelude.{
  String, ◌<>◌, ◌==◌, List, [], ◌∷◌, Option, none, some, if◌then◌else◌,
}
use relops_hardware_controll.Json.Value.{Value, object}
use relops_hardware_controll.Argparse.{
  Optional, Namespace, ParseError, Checked, ok, refused, parse_args, words_at,
}
use relops_hardware_controll.Settings.{Settings}
use relops_hardware_controll.Effects.{
  Env, module_not_found, command_error, exception, exn, M, pure, raise, ◌>>=◌, ◌>>◌,
}
use relops_hardware_controll.Job.{JobData, job_of}
use relops_hardware_controll.Commands.Runner.{Runner}
use relops_hardware_controll.Commands.Arguments.{
  Command, ping, ssh_reboot, snmp_reboot, ilo_reboot, xenapi_reboot, ipmitool, file_bugzilla_bug,
  register_tc_actions, ipmi, reboot, parser_of, the_text, the_json, ping_options, ssh_options,
  snmp_options, ilo_options, xen_options, tool_options, bug_options,
}
use relops_hardware_controll.Commands.Ping
use relops_hardware_controll.Commands.SshReboot
use relops_hardware_controll.Commands.SnmpReboot
use relops_hardware_controll.Commands.IloReboot
use relops_hardware_controll.Commands.XenapiReboot
use relops_hardware_controll.Commands.Ipmitool
use relops_hardware_controll.Commands.Ipmi
use relops_hardware_controll.Commands.FileBugzillaBug
use relops_hardware_controll.Commands.FileBugzillaBug.{Python}
use relops_hardware_controll.Commands.RegisterTcActions
use relops_hardware_controll.Commands.RegisterTcActions.{Django}
use relops_hardware_controll.Reboot.Handle

-- The modules of management/commands.
abbrev pub command_names : List (String × Command)
command_names =
    ("ping", ping)
    ∷ ("ssh_reboot", ssh_reboot)
    ∷ ("snmp_reboot", snmp_reboot)
    ∷ ("ilo_reboot", ilo_reboot)
    ∷ ("xenapi_reboot", xenapi_reboot)
    ∷ ("ipmitool", ipmitool)
    ∷ ("file_bugzilla_bug", file_bugzilla_bug)
    ∷ ("register_tc_actions", register_tc_actions)
    ∷ ("ipmi", ipmi)
    ∷ ("reboot", reboot)
    ∷ []

unfoldable pub find_command : List (String × Command) → String → Option Command
find_command [] name = none
find_command ((n, command) ∷ commands) name =
    if n == name then some command else find_command commands name

-- What Django and Python give: the options of every command, their values as texts, the text of
-- argparse's error, and what `BaseCommand.execute` writes for a returned value.
pub record Host : Type 0 where
  pub django : Django
  pub python : Python
  pub options : List Optional
  pub rest : Namespace → List (String × String)
  pub show_error : ParseError → String
  pub written : Option String → String

-- `handle` with and without a text as its result.
abbrev pub with_text : M String → M (Option String)
with_text m = m >>= λ s. pure (some s)

abbrev pub without_text : M (Unit {0}) → M (Option String)
without_text m = m >> pure none

module _ (host : Host) (env : Env) (settings : Settings) where
  -- The job that the worker gives as JSON text. Another value is outside of the model.
  unfoldable pub the_job : Value → M JobData
  unfolding job_of
  the_job (object fields) = elim (job_of fields) [
    | some job ↦ pure job
    | none ↦ raise (exn exception "job_data")
  ]
  the_job _ = raise (exn exception "job_data")

  -- `handle` of the command; the commands that it calls are the runner's.
  unfoldable pub run : Runner → Command → Namespace → M (Option String)
  unfolding ping_options ssh_options snmp_options ilo_options xen_options tool_options bug_options
      words_at the_job
  run runner ping v = with_text (Ping.handle env (the_text v "host") (ping_options v))
  run runner ssh_reboot v = with_text (SshReboot.handle env (the_text v "hostname") (ssh_options v))
  run runner snmp_reboot v = with_text (
      SnmpReboot.handle env settings (snmp_options v) (the_text v "fqdn") (the_text v "pdu")
        (the_text v "port"))
  run runner ilo_reboot v =
      without_text (IloReboot.handle env settings (the_text v "hostname") (ilo_options v))
  run runner xenapi_reboot v =
      without_text (XenapiReboot.handle env settings (the_text v "host_uuid") (xen_options v))
  run runner ipmitool v = Ipmitool.handle env (words_at v "command") (tool_options v)
  run runner file_bugzilla_bug v = with_text (
      FileBugzillaBug.handle host.python env settings (the_text v "host") (the_json v "job_data")
        (bug_options v (host.rest v)))
  run runner register_tc_actions v = without_text (
      RegisterTcActions.handle host.django env settings (the_text v "base_url")
        (the_text v "provisioner_id"))
  run runner ipmi v =
      Ipmi.handle runner settings.worker_config (the_text v "hostname") (the_text v "command")
  run runner reboot v = do
    job ← the_job (the_json v "job_data")
    with_text (Handle.handle env runner settings (the_text v "hostname") job)

  unfoldable pub run_parsed : Runner → Command → Checked Namespace → M (Option String)
  unfolding run
  run_parsed runner command (ok values) = run runner command values
  run_parsed runner command (refused e) = raise (exn command_error ("Error: " <> host.show_error e))

  unfoldable pub run_command : Runner → Command → List String → M (Option String)
  unfolding run_parsed parse_args
  run_command runner command args =
      run_parsed runner command (parse_args (parser_of host.options command) args)

  unfoldable pub call_found : Runner → String → Option Command → List String → M (Option String)
  unfolding run_command
  call_found runner name (some command) args = run_command runner command args
  call_found runner name none args = raise (
      exn module_not_found
        ("No module named 'relops_hardware_controller.api.management.commands." <> name <> "'"))

  unfoldable pub call_command : Runner → String → List String → M (Option String)
  unfolding find_command call_found
  call_command runner name args = call_found runner name (find_command command_names name) args

  abbrev pub over : Runner → Runner
  over runner = record { call = call_command runner; written = host.written }

  -- Below the commands that call no other.
  abbrev pub nothing : Runner
  nothing = record { call = λ name args. raise (exn exception ""); written = host.written }

  -- `reboot` calls `ipmi`, and that calls `ipmitool`, which calls no command: three layers are all.
  unfoldable pub commands : Runner
  unfolding call_command
  commands = over (over (over nothing))
