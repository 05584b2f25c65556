-- ===== src/Dispatch/Leaves.antt =====
-- The commands that call no other command end, and only make further calls.
use relops_hardware_controll.Prelude.{
  String, List, [], ◌∷◌, Option, none, some, Bool, true, false, ltb, contains, not, replace_text,
  if◌then◌else◌, arith,
}
use relops_hardware_controll.Effects.{
  Env, Trace, Exn, ExnClass, called_process, key_error, index_error, validation_error, exn, M, pure,
  raise, ◌>>=◌, call_text, soft_time_limit, shell, Outcome, ok, err, pending,
}
use relops_hardware_controll.Effects.Settles.{
  SettledFrom, Settles, Settles-raise, Settles-pure, Settles-try, Settles-bind, Settles-when,
  Settles-call_unit, Settles-call_text, continue-Settled,
}
use relops_hardware_controll.Settings.{Settings}
use relops_hardware_controll.Validators.{validate_host}
use relops_hardware_controll.Commands.Ping
use relops_hardware_controll.Commands.SshReboot
use relops_hardware_controll.Commands.SshReboot.{on_called_process, try_cmds, reboot_cmds}
use relops_hardware_controll.Commands.SnmpReboot
use relops_hardware_controll.Commands.SnmpReboot.{
  Outlet, Cmd, on, off, reboot, parse_port, logged_command, run_cmd, delayed_cycle, direct_cycle,
  power_cycle as snmp_cycle,
}
use relops_hardware_controll.Commands.IloReboot
use relops_hardware_controll.Commands.IloReboot.{hard_cycle}
use relops_hardware_controll.Commands.XenapiReboot
use relops_hardware_controll.Commands.XenapiReboot.{finish, xen_session, power_cycle as xen_cycle}
use relops_hardware_controll.Commands.Ipmitool
use relops_hardware_controll.Commands.Ipmitool.{
  privlvls, validate_privlvl, validate_command, run_tool,
}

module _ (env : Env) where
  validate_host-Settles : (host : String) → Settles (validate_host env host)
  unfolding validate_host
  validate_host-Settles host t = (([], ground arith), ground arith)

  pub ping-Settles : (host : String) (o : Ping.Options) → Settles (Ping.handle env host o)
  unfolding Ping.handle
  ping-Settles host o = Settles-bind _ _ (validate_host-Settles host) λ _. Settles-call_text env _

  on_called_process-Settles :
      (e : Exn) (next : M String) → Settles next → Settles (on_called_process e next)
  on_called_process-Settles e next p = by_class e.cls
    where
      by_class :
          (c : ExnClass) → Settles {A = String} (elim c [ called_process ↦ next | _ ↦ raise e ])
      by_class called_process = p
      by_class _ = Settles-raise String e

  try_cmds-Settles :
      (host : String) (o : SshReboot.Options) (cmds : List String)
      → Settles (try_cmds env host o cmds)
  unfolding try_cmds
  try_cmds-Settles host o [] = search Settles-raise
  try_cmds-Settles host o (cmd ∷ cmds) =
      Settles-try _ _ (Settles-call_text env _)
        λ e. on_called_process-Settles e _ (try_cmds-Settles host o cmds)

  pub ssh_reboot-Settles :
      (host : String) (o : SshReboot.Options) → Settles (SshReboot.handle env host o)
  unfolding SshReboot.handle
  ssh_reboot-Settles host o =
      Settles-bind _ _ (validate_host-Settles host) λ _. try_cmds-Settles host o reboot_cmds

  pub ilo_reboot-Settles :
      (settings : Settings) (host : String) (o : IloReboot.Options)
      → Settles (IloReboot.handle env settings host o)
  unfolding IloReboot.handle hard_cycle
  ilo_reboot-Settles settings host o = Settles-bind _ _ (validate_host-Settles host) λ _.
      Settles-bind _ _ (Settles-call_unit env _) λ _.
        Settles-bind _ _ (Settles-call_text env _) λ _.
          Settles-try _ _ (Settles-call_unit env _) λ _.
            Settles-bind _ _ (Settles-call_unit env _)
              λ _. Settles-bind _ _ (Settles-call_unit env _) λ _. Settles-call_unit env _

  module _ (settings : Settings) (o : SnmpReboot.Options) where
    run_cmd-Settles :
        (p : Outlet) (fqdn : String) (cmd : Cmd) → Settles (run_cmd env settings o p fqdn cmd)
    unfolding run_cmd
    run_cmd-Settles p fqdn cmd = with_community settings.worker_config.snmp_community_string
      where
        with_community :
            (c : Option String)
            → Settles {A = String} (elim c [
              | none ↦ raise (exn key_error "'snmp_community_string'")
              | some community ↦ call_text env (
                  shell
                    (replace_text "snmp_community_string" community (logged_command p fqdn cmd))
                    o.timeout)
            ])
        with_community none = search Settles-raise
        with_community (some community) = Settles-call_text env _

    snmp_cycle-Settles : (p : Outlet) (pdu : String) → Settles (snmp_cycle env settings o p pdu)
    unfolding snmp_cycle delayed_cycle direct_cycle
    snmp_cycle-Settles p pdu = by_delay (ltb 0 o.delay)
      where
        by_delay :
            (b : Bool)
            → Settles (
                if b then delayed_cycle env settings o p pdu else direct_cycle env settings o p pdu)
        by_delay true = Settles-bind _ _ (run_cmd-Settles p pdu off) λ down.
            Settles-bind _ _ (Settles-call_unit env _)
              λ _. Settles-bind _ _ (run_cmd-Settles p pdu on) λ up. search Settles-pure
        by_delay false =
            Settles-bind _ _ (run_cmd-Settles p pdu reboot) λ output. search Settles-pure

    pub snmp_reboot-Settles :
        (fqdn pdu port : String) → Settles (SnmpReboot.handle env settings o fqdn pdu port)
    unfolding SnmpReboot.handle
    snmp_reboot-Settles fqdn pdu port = at_outlet (parse_port port)
      where
        at_outlet :
            (outlet : Option Outlet)
            → Settles {A = String} (elim outlet [
              | none ↦ raise (exn index_error "string index out of range")
              | some p ↦ snmp_cycle env settings o p pdu
            ])
        at_outlet none = search Settles-raise
        at_outlet (some p) = snmp_cycle-Settles p pdu

  xen_cycle-Settles : (uuid : String) (o : XenapiReboot.Options) → Settles (xen_cycle env uuid o)
  unfolding xen_cycle
  xen_cycle-Settles uuid o = Settles-bind _ _ (Settles-call_text env _) λ vm.
      Settles-bind _ _ (Settles-try _ _ (Settles-call_unit env _) λ _. Settles-call_unit env _)
        λ _. Settles-bind _ _ (Settles-call_unit env _) λ _. Settles-call_unit env _

  finish-Settled :
      (t : Trace) (r : Outcome (Unit {0}) × Trace) (last : M (Unit {0}))
      → SettledFrom t r
      → Settles last
      → SettledFrom t (finish r last)
  finish-Settled t (ok a, s) last p q = continue-Settled t (ok a, s) (λ _. last) p λ _. q
  finish-Settled t (err e, s) last (grown, _) q =
      continue-Settled t (ok tt, s) (λ _. last >>= λ _. raise e) (grown, tt)
        λ _. Settles-bind _ _ q λ _. Settles-raise (Unit {0}) e
  finish-Settled t (pending, s) last (_, f) q = absurd f

  pub xenapi_reboot-Settles :
      (settings : Settings) (uuid : String) (o : XenapiReboot.Options)
      → Settles (XenapiReboot.handle env settings uuid o)
  unfolding XenapiReboot.handle xen_session
  xenapi_reboot-Settles settings uuid o = Settles-bind _ _ (Settles-call_unit env _) λ _.
      Settles-bind _ _ (Settles-try _ _ (Settles-call_unit env _) λ _. Settles-pure tt)
        λ _ t. finish-Settled t _ _ (xen_cycle-Settles uuid o t) (Settles-call_unit env _)

  validate_privlvl-Settles : (s : String) → Settles (validate_privlvl s)
  unfolding validate_privlvl
  validate_privlvl-Settles s = Settles-when (not (contains privlvls s)) _ (
      Settles-raise (Unit {0}) (
        exn validation_error
          "Invalid privlvl must be one of CALLBACK, USER, OPERATOR, or ADMINISTRATOR"))

  validate_command-Settles : (ws : List String) → Settles (validate_command ws)
  unfolding validate_command
  validate_command-Settles [] = search Settles-raise
  validate_command-Settles (w ∷ ws) = Settles-pure tt

  pub ipmitool-Settles :
      (command : List String) (o : Ipmitool.Options) → Settles (Ipmitool.handle env command o)
  unfolding Ipmitool.handle run_tool
  ipmitool-Settles command o = Settles-bind _ _ (validate_command-Settles command) λ _.
      Settles-bind _ _ (validate_host-Settles o.address) λ _.
        Settles-bind _ _ (validate_privlvl-Settles o.privlvl) λ _.
          Settles-try _ _ (Settles-bind _ _ (Settles-call_text env _) λ output. search Settles-pure)
            λ e. by_class e e.cls
    where
      by_class :
          (e : Exn) (c : ExnClass)
          → Settles {A = Option String}
              (elim c [ soft_time_limit ↦ raise {A = Option String} e | _ ↦ pure none ])
      by_class e soft_time_limit = search Settles-raise
      by_class e _ = search Settles-pure
