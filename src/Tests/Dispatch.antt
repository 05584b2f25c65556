-- ===== src/Tests/Dispatch.antt =====
-- The commands under the dispatch, on concrete arguments.
use relops_hardware_controll.Prelude.{◌≡◌, refl, String, ◌<>◌, Option, none, some, List, [], ◌∷◌}
use relops_hardware_controll.Json.Value.{object}
use relops_hardware_controll.Json.RoundTrip.{fields_of}
use relops_hardware_controll.Argparse.{number, optional_option, extra}
use relops_hardware_controll.Argparse.Tokens.{is_dashed, classify}
use relops_hardware_controll.Settings.{Settings, Ssh, Server, HwType}
use relops_hardware_controll.Effects.{exn, command_error, M, raise}
use relops_hardware_controll.Job.{items, dumps}
use relops_hardware_controll.Commands.Runner.{Runner, IsSound}
use relops_hardware_controll.Commands.Ping
use relops_hardware_controll.Commands.SshReboot
use relops_hardware_controll.Commands.SnmpReboot
use relops_hardware_controll.Commands.Ipmi
use relops_hardware_controll.Commands.Ipmi.{words, short_name, remapped, splat}
use relops_hardware_controll.Commands.Ipmitool
use relops_hardware_controll.Commands.FileBugzillaBug
use relops_hardware_controll.Reboot.Wait.{ping_args}
use relops_hardware_controll.Reboot.Methods.{ssh_args}
use relops_hardware_controll.Commands.XenapiReboot
use relops_hardware_controll.Dispatch.{Host, call_command, over, commands, with_text, without_text}
use relops_hardware_controll.Dispatch.Laws.{commands-IsSound}
use relops_hardware_controll.Dispatch.Calls.{reboot_calls, xen_calls}
use relops_hardware_controll.Dispatch.Tool.{ipmi_call}
use relops_hardware_controll.Dispatch.Worker.{worker_calls}
use relops_hardware_controll.Reboot.Handle
use relops_hardware_controll.Tests.Sample.{
  env, env-IsSteady, settings, no_server, config, job, runner,
}
use relops_hardware_controll.Tests.Bugzilla.{python}
use relops_hardware_controll.Tests.Actions.{django}

abbrev account : Ssh
account = record { user = some "root"; key_file = some "id_rsa" }

-- Of Django's options, the first.
abbrev host : Host
host = record {
  django = django;
  python = python;
  options = optional_option "--verbosity" "verbosity" number ∷ [];
  rest = λ values. [];
  show_error = λ e. elim e [ extra (s ∷ _) ↦ "unrecognized arguments: " <> s | _ ↦ "" ];
  written = runner.written;
}

commands-IsSound_example : IsSound (commands host env settings)
commands-IsSound_example = commands-IsSound host env env-IsSteady settings

xen_calls_example :
    (call_command host env settings runner "xenapi_reboot" ("t-1" ∷ [])
      ≡ without_text (XenapiReboot.handle env settings "t-1" XenapiReboot.default_options))
    × (call_command host env settings runner "xenapi_reboot" ("t-1" ∷ "6b8d" ∷ [])
        ≡ raise (exn command_error "Error: unrecognized arguments: 6b8d"))
unfolding is_dashed
xen_calls_example = xen_calls host env settings runner (refl, tt) "t-1" "6b8d" refl refl

-- The machine `c1n1` of ipmi.json, with an account for its chassis.
abbrev cartridge : Server
cartridge = record no_server { parent = some "chassis"; addr = some "c1n1" }

abbrev chassis : Server
chassis = record no_server { hwtype = some "moonshot"; user = some "admin"; password = some "pass" }

abbrev moonshot : HwType
moonshot = record {
  args = some ("-B 0" ∷ "-b 7" ∷ []);
  addr_map = some (("c1n1", "-T 0x82" ∷ "-t 0x72" ∷ []) ∷ []);
  commands = some (("ipmi_reset", "chassis" ∷ "power" ∷ "reset" ∷ []) ∷ []);
}

abbrev racks : Settings
racks = record settings {
  worker_config = record config {
    servers = ("t-2", cartridge) ∷ ("chassis", chassis) ∷ [];
    types = ("moonshot", moonshot) ∷ [];
  };
}

abbrev tool_args : List String
tool_args = "-B 0" ∷ "-b 7" ∷ "-T 0x82" ∷ "-t 0x72" ∷ "chassis" ∷ "power" ∷ "reset" ∷ []

ipmi_call_example :
    call_command host env racks (over host env racks runner) "ipmi" ("t-2" ∷ "ipmi_reset" ∷ [])
    ≡ Ipmitool.handle env tool_args (Ipmitool.default_options "chassis" "admin" "pass")
unfolding is_dashed classify short_name remapped splat
ipmi_call_example =
    ipmi_call host env racks (refl, tt) runner "t-2" "ipmi_reset" "admin" "pass" "-B 0"
      ("-b 7" ∷ "-T 0x82" ∷ "-t 0x72" ∷ "chassis" ∷ "power" ∷ "reset" ∷ [])
      ("-B 0" ∷ "-b 7" ∷ "-T 0x82" ∷ "-t 0x72" ∷ []) cartridge chassis
      (words ("chassis" ∷ "power" ∷ "reset" ∷ [])) refl refl refl refl refl refl
      (refl, (refl, (refl, (refl, (refl, tt)))))
      (
        (refl, refl),
        (
          (refl, refl),
          ((refl, refl), ((refl, refl), ((refl, refl), ((refl, refl), ((refl, refl), tt))))),
        ),
      )

abbrev called : String → List String → M (Option String)
called = call_command host env settings runner

reboot_calls_example :
    (called "ping" (ping_args "t-1" 1 4)
      ≡ with_text (Ping.handle env "t-1" (record { count = 1; timeout = 4 })))
    × (called "ping" (ping_args "t-1" 1 60)
        ≡ with_text (Ping.handle env "t-1" (record { count = 1; timeout = 60 })))
    × (called "ssh_reboot" ("t-1" ∷ ssh_args (some account))
        ≡ with_text (SshReboot.handle env "t-1" (SshReboot.default_options "root" "id_rsa")))
    × (called "ssh_reboot" ("t-1" ∷ ssh_args none)
        ≡ with_text (SshReboot.handle env "t-1" (SshReboot.default_options "roller" "ssh.key")))
    × (called "ipmi" ("t-1" ∷ "ipmi_reset" ∷ [])
        ≡ Ipmi.handle runner settings.worker_config "t-1" "ipmi_reset")
    × (called "snmp_reboot" ("t-1" ∷ "pdu1" ∷ "2b13" ∷ [])
        ≡ with_text (SnmpReboot.handle env settings SnmpReboot.default_options "t-1" "pdu1" "2b13"))
    × (called "snmp_reboot" ("t-1" ∷ "pdu1" ∷ "2b13" ∷ "--delay" ∷ "60" ∷ [])
        ≡ with_text (
            SnmpReboot.handle env settings
              (record SnmpReboot.default_options { delay = 60 })
              "t-1"
              "pdu1"
              "2b13"))
    × ((rest : List (String × String)) × (called "file_bugzilla_bug"
            ("t-1" ∷ dumps (items job) ∷ "--cc" ∷ "jdoe" ∷ "--log" ∷ "\\n" ∷ [])
          ≡ with_text (
              FileBugzillaBug.handle python env settings "t-1"
                (object (fields_of (items job)))
                (record { cc = "jdoe"; log = "\\n"; rest = rest }))))
unfolding is_dashed
reboot_calls_example =
    reboot_calls host env settings runner (refl, tt) "t-1" "root" "id_rsa" "ipmi_reset" "pdu1"
      "2b13" "jdoe" "\\n" job (refl, (refl, (refl, (refl, (refl, (refl, (refl, (refl, tt))))))))

abbrev dispatched : Runner
dispatched = commands host env settings

abbrev job_args : List String
job_args = "t-1" ∷ dumps (items job) ∷ []

worker_calls_example :
    (dispatched.call "ping" job_args ≡ with_text (Ping.handle env "t-1" Ping.default_options))
    × (dispatched.call "reboot" job_args
        ≡ with_text (Handle.handle env dispatched settings "t-1" job))
    × (dispatched.call "ipmi" job_args
        ≡ Ipmi.handle dispatched settings.worker_config "t-1" (dumps (items job)))
unfolding is_dashed
worker_calls_example = worker_calls host env settings "t-1" job (refl, tt) refl
