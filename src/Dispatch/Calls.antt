-- ===== src/Dispatch/Calls.antt =====
-- What the calls of reboot.py run: the command's `handle`, with the options that are meant.
use relops_hardware_controll.Prelude.{
  ◌≡◌, refl, String, ◌<>◌, List, [], ◌∷◌, ◌++◌, Option, none, some, All, show,
}
use relops_hardware_controll.Json.Value.{object}
use relops_hardware_controll.Json.RoundTrip.{fields_of}
use relops_hardware_controll.Argparse.{
  extra, text_value, json_value, parse_args, text_at, number_at, json_at,
}
use relops_hardware_controll.Argparse.Laws.{IsWord, IsOptional, classify_all-word, unset-optional}
use relops_hardware_controll.Argparse.Numbers.{read_int}
use relops_hardware_controll.Argparse.Tokens.{is_dashed}
use relops_hardware_controll.Settings.{Settings}
use relops_hardware_controll.Effects.{Env, command_error, exn, M, raise}
use relops_hardware_controll.Job.{JobData, items, dumps}
use relops_hardware_controll.Commands.Runner.{Runner}
use relops_hardware_controll.Commands.Arguments.{
  xenapi_reboot, options, ping_options, ssh_options, snmp_options, xen_options, bug_options,
}
use relops_hardware_controll.Commands.Ping
use relops_hardware_controll.Commands.SshReboot
use relops_hardware_controll.Commands.SnmpReboot
use relops_hardware_controll.Commands.XenapiReboot
use relops_hardware_controll.Commands.Ipmi
use relops_hardware_controll.Commands.FileBugzillaBug
use relops_hardware_controll.Reboot.Wait.{ping_args}
use relops_hardware_controll.Reboot.Methods.{ssh_args}
use relops_hardware_controll.Dispatch.{
  Host, find_command, with_text, without_text, run, run_parsed, run_command, call_found,
  call_command,
}
use relops_hardware_controll.Dispatch.Reaches.{
  parse_ssh, parse_ipmi, parse_snmp, parse_snmp_delay, parse_ping, parse_bug,
}

four : IsWord "4"
unfolding is_dashed
four = refl

four_read : read_int "4" ≡ some 4
unfolding read_int
four_read = refl

sixty : IsWord "60"
unfolding is_dashed
sixty = refl

sixty_read : read_int "60" ≡ some 60
unfolding read_int
sixty_read = refl

roller : IsWord "roller"
unfolding is_dashed
roller = refl

ssh_key : IsWord "ssh.key"
unfolding is_dashed
ssh_key = refl

module _ (host : Host) (env : Env) (settings : Settings) (runner : Runner)
    (optional : All IsOptional host.options) where
  abbrev pub call : String → List String → M (Option String)
  call = call_command host env settings runner

  calls_ssh :
      (hostname user key_file : String)
      → IsWord hostname
      → IsWord user
      → IsWord key_file
      → call "ssh_reboot" (hostname ∷ "-l" ∷ user ∷ "-i" ∷ key_file ∷ [])
        ≡ with_text (SshReboot.handle env hostname (SshReboot.default_options user key_file))
  unfolding call_command find_command call_found run_command run_parsed run ssh_options text_at
      number_at
  calls_ssh hostname user key_file h u k =
      rw (parse_ssh host.options optional hostname user key_file h u k) refl

  pub calls_ipmi :
      (hostname command : String)
      → IsWord hostname
      → IsWord command
      → call "ipmi" (hostname ∷ command ∷ [])
        ≡ Ipmi.handle runner settings.worker_config hostname command
  unfolding call_command find_command call_found run_command run_parsed run text_at
  calls_ipmi hostname command h c = rw (parse_ipmi host.options optional hostname command h c) refl

  calls_ping :
      (fqdn : String)
      → IsWord fqdn
      → (call "ping" (ping_args fqdn 1 4)
          ≡ with_text (Ping.handle env fqdn (record { count = 1; timeout = 4 })))
        × (call "ping" (ping_args fqdn 1 60)
            ≡ with_text (Ping.handle env fqdn (record { count = 1; timeout = 60 })))
  unfolding call_command find_command call_found run_command run_parsed run ping_options text_at
      number_at show Ping.handle
  calls_ping fqdn f = (
    rw (parse_ping host.options optional fqdn "4" 4 f four four_read) refl,
    rw (parse_ping host.options optional fqdn "60" 60 f sixty sixty_read) refl,
  )

  calls_snmp :
      (hostname pdu port : String)
      → IsWord hostname
      → IsWord pdu
      → IsWord port
      → (call "snmp_reboot" (hostname ∷ pdu ∷ port ∷ [])
          ≡ with_text (SnmpReboot.handle env settings SnmpReboot.default_options hostname pdu port))
        × (call "snmp_reboot" (hostname ∷ pdu ∷ port ∷ "--delay" ∷ "60" ∷ [])
            ≡ with_text (
                SnmpReboot.handle env settings
                  (record SnmpReboot.default_options { delay = 60 })
                  hostname
                  pdu
                  port))
  unfolding call_command find_command call_found run_command run_parsed run snmp_options text_at
      number_at
  calls_snmp hostname pdu port h p q = (
    rw (parse_snmp host.options optional hostname pdu port h p q) refl,
    rw (parse_snmp_delay host.options optional hostname pdu port h p q) refl,
  )

  -- The values of Django's options are those of the parsed arguments.
  calls_bug :
      (hostname : String) (job : JobData) (bug_cc log : String)
      → IsWord hostname
      → IsWord bug_cc
      → IsWord log
      → (rest : List (String × String)) × (call "file_bugzilla_bug"
            (hostname ∷ dumps (items job) ∷ "--cc" ∷ bug_cc ∷ "--log" ∷ log ∷ [])
          ≡ with_text (
              FileBugzillaBug.handle host.python env settings hostname
                (object (fields_of (items job)))
                (record { cc = bug_cc; log = log; rest = rest })))
  unfolding call_command find_command call_found run_command run_parsed run bug_options text_at
      json_at
  calls_bug hostname job bug_cc log h c l = (
    host.rest (
        ("log", text_value log)
        ∷ ("cc", text_value bug_cc)
        ∷ ("job_data", json_value (object (fields_of (items job))))
        ∷ ("host", text_value hostname)
        ∷ []),
    rw (parse_bug host.options optional hostname job bug_cc log h c l) refl,
  )

  -- When Django requires none of its own options and no text that is passed begins with a dash, each
  -- of these calls of reboot.py runs the `handle` of its command, with the values that were given and
  -- the defaults for the others: the pings of the check, the reboot over ssh with the server's account
  -- and with the default one, the ipmi command, the power outlet without and with a delay, and the
  -- report of a bug, whose values for Django's options are not said.
  pub reboot_calls :
      (hostname user key_file command pdu port bug_cc log : String) (job : JobData)
      → All IsWord (hostname ∷ user ∷ key_file ∷ command ∷ pdu ∷ port ∷ bug_cc ∷ log ∷ [])
      → (call "ping" (ping_args hostname 1 4)
          ≡ with_text (Ping.handle env hostname (record { count = 1; timeout = 4 })))
        × (call "ping" (ping_args hostname 1 60)
            ≡ with_text (Ping.handle env hostname (record { count = 1; timeout = 60 })))
        × (call "ssh_reboot"
              (hostname ∷ ssh_args (some (record { user = some user; key_file = some key_file })))
            ≡ with_text (SshReboot.handle env hostname (SshReboot.default_options user key_file)))
        × (call "ssh_reboot" (hostname ∷ ssh_args none)
            ≡ with_text
                (SshReboot.handle env hostname (SshReboot.default_options "roller" "ssh.key")))
        × (call "ipmi" (hostname ∷ command ∷ [])
            ≡ Ipmi.handle runner settings.worker_config hostname command)
        × (call "snmp_reboot" (hostname ∷ pdu ∷ port ∷ [])
            ≡ with_text
                (SnmpReboot.handle env settings SnmpReboot.default_options hostname pdu port))
        × (call "snmp_reboot" (hostname ∷ pdu ∷ port ∷ "--delay" ∷ "60" ∷ [])
            ≡ with_text (
                SnmpReboot.handle env settings
                  (record SnmpReboot.default_options { delay = 60 })
                  hostname
                  pdu
                  port))
        × ((rest : List (String × String)) × (call "file_bugzilla_bug"
                (hostname ∷ dumps (items job) ∷ "--cc" ∷ bug_cc ∷ "--log" ∷ log ∷ [])
              ≡ with_text (
                  FileBugzillaBug.handle host.python env settings hostname
                    (object (fields_of (items job)))
                    (record { cc = bug_cc; log = log; rest = rest }))))
  unfolding ssh_args
  reboot_calls hostname user key_file command pdu port bug_cc log job
        (h, (u, (k, (c, (d, (q, (b, (l, _)))))))) =
      let (soon, later) = calls_ping hostname h in
      let (direct, delayed) = calls_snmp hostname pdu port h d q in
      (
        soon,
        later,
        calls_ssh hostname user key_file h u k,
        calls_ssh hostname "roller" "ssh.key" h roller ssh_key,
        calls_ipmi hostname command h c,
        direct,
        delayed,
        calls_bug hostname job bug_cc log h b l,
      )

  -- When Django requires none of its own options and neither text begins with a dash, `xenapi_reboot`
  -- called with the host name alone takes it for the machine's UUID, and called with the host name
  -- and a UUID it raises CommandError before any call.
  pub xen_calls :
      (hostname uuid : String)
      → IsWord hostname
      → IsWord uuid
      → (call "xenapi_reboot" (hostname ∷ [])
          ≡ without_text (XenapiReboot.handle env settings hostname XenapiReboot.default_options))
        × (call "xenapi_reboot" (hostname ∷ uuid ∷ [])
            ≡ raise (exn command_error ("Error: " <> host.show_error (extra (uuid ∷ [])))))
  unfolding call_command find_command call_found run_command run_parsed run xen_options text_at
      number_at parse_args
  xen_calls hostname uuid h u =
      let os = options xenapi_reboot ++ host.options in
      let unset_none =
        unset-optional host.options (("host_uuid", text_value hostname) ∷ []) optional in
      (
        rw (classify_all-word os hostname [] h, unset_none) refl,
        rw (classify_all-word os hostname (uuid ∷ []) h, classify_all-word os uuid [] u, unset_none)
            refl,
      )
