-- ===== src/Tests/Commands.antt =====
-- The commands and the validator on concrete arguments.
use relops_hardware_controll.Prelude.{
  ◌≡◌, refl, show, subst, sym, ◌⊎◌, inl, inr, ◌↔◌, String, some, [], ◌∷◌, true, false, all_chars,
  chomp, eq_iff, ◌==◌, Bool-cases, arith,
}
use relops_hardware_controll.Effects.{
  Env, Event, Trace, Exn, exn, soft_time_limit, raises, returns, ok, err, ilo, connect,
  get_host_power_status, reset_server, set_host_power, xen, logout, start, clean_shutdown,
  get_by_uuid, login_with_password, new_session, process, shell, sleep, pure,
}
use relops_hardware_controll.Validators.{matches_hostname, validate_host}
use relops_hardware_controll.Validators.Laws.{IsHostText, matches_hostname_iff}
use relops_hardware_controll.Commands.Ping.{
  default_options as ping_options, command_line, handle as ping,
}
use relops_hardware_controll.Commands.Ping.Laws.{is_address_char, is_inert, handle_inert}
use relops_hardware_controll.Commands.SnmpReboot.{
  Options as SnmpOptions, Outlet, on, off, parse_port, handle as snmp_reboot,
}
use relops_hardware_controll.Commands.SnmpReboot.Laws.{sends, PowerCycled, handle-PowerCycled}
use relops_hardware_controll.Commands.XenapiReboot.{
  default_options as xen_options, xen_session, handle as xenapi_reboot,
}
use relops_hardware_controll.Commands.XenapiReboot.Laws.{
  xen_session_logout, Cycled, session, handle-Cycled,
}
use relops_hardware_controll.Commands.IloReboot.{
  default_options as ilo_options, handle as ilo_reboot,
}
use relops_hardware_controll.Commands.IloReboot.Laws.{connected, handle-Restarted}
use relops_hardware_controll.Commands.Ipmitool.{
  Options as IpmitoolOptions, default_options as ipmitool_options, call_args, handle as ipmitool,
}
use relops_hardware_controll.Commands.Ipmitool.Laws.{TimedOut, handle-eq-err}
use relops_hardware_controll.Commands.SshReboot.{
  default_options as ssh_options, reboot_cmds, handle as ssh_reboot,
}
use relops_hardware_controll.Commands.SshReboot.Laws.{Tried, handle-Tried}
use relops_hardware_controll.Tests.Sample.{env, settings}

matches_hostname_iff_example : (matches_hostname "a-b.c\n" ≡ true) ↔ IsHostText (chomp "a-b.c\n")
matches_hostname_iff_example = matches_hostname_iff "a-b.c\n"

-- The line feed at the end is accepted, one inside is not.
matches_hostname_test :
    (matches_hostname "a-b.c\n" ≡ true)
    × (matches_hostname "a\nb" ≡ false)
    × (matches_hostname "" ≡ false)
unfolding matches_hostname
matches_hostname_test = (refl, refl, refl)

address_chars :
    (s : String) → env.validate_ipv46_address s ≡ returns tt → all_chars is_address_char s ≡ true
unfolding all_chars is_address_char
address_chars s h = elim (Bool-cases (s == "10.0.0.1")) [
  | inl same ↦
      subst (λ r. all_chars is_address_char r ≡ true) (sym ((eq_iff s "10.0.0.1").0 same)) refl
  | inr other ↦ let h' = rw other at h in ground arith
]

-- A command behind a semicolon does not reach the shell.
handle_inert_example :
    ((ping env "a;reboot" ping_options []).1 ≡ [])
    ⊎ (((ping env "a;reboot" ping_options []).1
          ≡ shell (command_line "a;reboot" ping_options) 7 ∷ [])
        × (all_chars is_inert (chomp "a;reboot") ≡ true))
handle_inert_example = handle_inert env address_chars "a;reboot" ping_options []

abbrev snmp_options : SnmpOptions
snmp_options = record { delay = 5; timeout = 60 }

abbrev outlet : Outlet
outlet = record { tower = "2"; infeed = "1"; outlet = "13" }

abbrev snmp_trace : Trace
snmp_trace =
    sends env settings snmp_options "public" outlet "pdu1" on
    ∷ sleep 5
    ∷ sends env settings snmp_options "public" outlet "pdu1" off
    ∷ []

handle-PowerCycled_example :
    (p : Outlet) × (parse_port "Ba13" ≡ some p)
    × PowerCycled env settings snmp_options "pdu1" p [] snmp_trace
unfolding snmp_reboot show
handle-PowerCycled_example =
    handle-PowerCycled env settings snmp_options "t-1" "pdu1" "Ba13"
      "SNMP to pdu1: done wait 5s ... done" [] snmp_trace refl

xen_session_logout_example :
    (s : Trace) × ((xen_session env "https://xen" "root" "secret" (pure tt) []).1
      ≡ xen logout ∷ (pure tt s).1)
xen_session_logout_example =
    xen_session_logout env "https://xen" "root" "secret" (pure tt) [] (λ s. tt) refl

abbrev bmc : IpmitoolOptions
bmc = ipmitool_options "10.0.0.1" "admin" "secret"

abbrev slow_env : Env
slow_env = record env { text_reply = λ _. raises (exn soft_time_limit "") }

abbrev reset_call : Event
reset_call = process (call_args ("chassis" ∷ "power" ∷ "reset" ∷ []) bmc) 15

handle-eq-err_example :
    (reset_call ∷ [] ≡ [])
    ⊎ TimedOut slow_env
        ("chassis" ∷ "power" ∷ "reset" ∷ [])
        bmc
        (exn soft_time_limit "")
        []
        (reset_call ∷ [])
unfolding ipmitool validate_host
handle-eq-err_example =
    handle-eq-err slow_env ("chassis" ∷ "power" ∷ "reset" ∷ []) bmc (exn soft_time_limit "") []
      (reset_call ∷ []) refl

abbrev ilo_trace : Trace
ilo_trace = ilo reset_server ∷ ilo get_host_power_status ∷ ilo (connect "t-1-ilo" "" "" 60) ∷ []

-- No host of this world refuses the soft reset.
handle-Restarted_example :
    (ilo_trace ≡ ilo reset_server ∷ connected env settings "t-1-ilo" ilo_options [])
    ⊎ ((e : Exn) × (env.unit_reply
            (ilo reset_server ∷ connected env settings "t-1-ilo" ilo_options [])
          ≡ raises e)
        × (ilo_trace
            ≡ ilo (set_host_power true)
              ∷ sleep 5
              ∷ ilo (set_host_power false)
              ∷ ilo reset_server
              ∷ connected env settings "t-1-ilo" ilo_options []))
unfolding ilo_reboot validate_host
handle-Restarted_example = handle-Restarted env settings "t-1-ilo" ilo_options [] ilo_trace refl

handle-Tried_example :
    ((e : Exn) × (ssh_reboot env "t-1" (ssh_options "roller" "ssh.key") [] ≡ (err e, [])))
    ⊎ Tried env "t-1"
        (ssh_options "roller" "ssh.key")
        reboot_cmds
        []
        (ssh_reboot env "t-1" (ssh_options "roller" "ssh.key") []).0
        (ssh_reboot env "t-1" (ssh_options "roller" "ssh.key") []).1
handle-Tried_example = handle-Tried env "t-1" (ssh_options "roller" "ssh.key") []

ssh_reboot_test : (ssh_reboot env "t-1" (ssh_options "roller" "ssh.key") []).0 ≡ ok "done"
unfolding ssh_reboot validate_host
ssh_reboot_test = refl

abbrev xen_trace : Trace
xen_trace =
    xen logout
    ∷ xen (start "done" false false)
    ∷ sleep 5
    ∷ xen (clean_shutdown "done")
    ∷ xen (get_by_uuid "uuid")
    ∷ xen (login_with_password "" "")
    ∷ xen (new_session "")
    ∷ []

handle-Cycled_example :
    (v : Trace) × Cycled env settings "uuid" xen_options
      (session env settings "uuid" xen_options [])
      v
    × (xen_trace ≡ xen logout ∷ v)
unfolding xenapi_reboot
handle-Cycled_example = handle-Cycled env settings "uuid" xen_options [] xen_trace refl
