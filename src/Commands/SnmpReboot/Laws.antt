-- ===== src/Commands/SnmpReboot/Laws.antt =====
-- snmp_reboot.py: the power commands of `Command.handle`.
use relops_hardware_controll.Prelude.{
  ◌≡◌, String, ◌∷◌, some, replace_text, Bool-cases, inl, inr, ltb, true, false, arith, Option-cases,
  if◌then◌else◌,
}
use relops_hardware_controll.Effects.{Env, Event, Trace, ok, returns, shell, sleep, call_unit}
use relops_hardware_controll.Effects.Laws.{continue-eq-ok}
use relops_hardware_controll.Settings.{Settings}
use relops_hardware_controll.Commands.SnmpReboot.{
  Options, Outlet, Cmd, on, off, reboot, logged_command, run_cmd, delayed_cycle, direct_cycle,
  power_cycle, parse_port, handle,
}

module _ (env : Env) (settings : Settings) (o : Options) where
  -- The call that sends a power command, with the community string in its place.
  abbrev pub sends : String → Outlet → String → Cmd → Event
  sends community p pdu cmd =
      shell (replace_text "snmp_community_string" community (logged_command p pdu cmd)) o.timeout

  run_cmd-eq-ok :
      (p : Outlet) (pdu : String) (cmd : Cmd) (t u : Trace) (output : String)
      → run_cmd env settings o p pdu cmd t ≡ (ok output, u)
      → (community : String) × (settings.worker_config.snmp_community_string ≡ some community)
        × (u ≡ sends community p pdu cmd ∷ t)
        × (env.text_reply u ≡ returns output)
  unfolding run_cmd
  run_cmd-eq-ok p pdu cmd t u output h =
      elim (Option-cases settings.worker_config.snmp_community_string) [
        | inl missing ↦ ground arith
        | inr (community, given) ↦ (community, given, ground arith, ground arith)
      ]

  -- What a run that gave its output has done: with a delay, off, the pause and on, in this order;
  -- without one, the reboot command alone.
  pub record PowerCycled (pdu : String) (p : Outlet) (t u : Trace) : Type 0 where
    pub community : String
    pub given : settings.worker_config.snmp_community_string ≡ some community
    pub trace : u ≡ (
        if ltb 0 o.delay
        then sends community p pdu on ∷ sleep o.delay ∷ sends community p pdu off ∷ t
        else sends community p pdu reboot ∷ t)

  delayed_cycle-eq-ok :
      (p : Outlet) (pdu message : String) (t u : Trace)
      → ltb 0 o.delay ≡ true
      → delayed_cycle env settings o p pdu t ≡ (ok message, u)
      → PowerCycled pdu p t u
  unfolding delayed_cycle
  delayed_cycle-eq-ok p pdu message t u delayed h =
      let (down, s, powered_down, h₁) = continue-eq-ok (run_cmd env settings o p pdu off t) _ h in
      let (_, s', slept, h₂) = continue-eq-ok (call_unit env (sleep o.delay) s) _ h₁ in
      let (up, v, powered_up, h₃) = continue-eq-ok (run_cmd env settings o p pdu on s') _ h₂ in
      let (c, given, off_sent, _) = run_cmd-eq-ok p pdu off t s down powered_down in
      let (c', given', on_sent, _) = run_cmd-eq-ok p pdu on s' v up powered_up in
      let same : c ≡ c' = ground arith in
      record { community = c; given = given; trace = rw delayed (ground arith) }

  direct_cycle-eq-ok :
      (p : Outlet) (pdu message : String) (t u : Trace)
      → ltb 0 o.delay ≡ false
      → direct_cycle env settings o p pdu t ≡ (ok message, u)
      → PowerCycled pdu p t u
  unfolding direct_cycle
  direct_cycle-eq-ok p pdu message t u direct h =
      let (output, s, powered, h₁) = continue-eq-ok (run_cmd env settings o p pdu reboot t) _ h in
      let (c, given, sent, _) = run_cmd-eq-ok p pdu reboot t s output powered in
      record { community = c; given = given; trace = rw direct (ground arith) }

  power_cycle-eq-ok :
      (p : Outlet) (pdu message : String) (t u : Trace)
      → power_cycle env settings o p pdu t ≡ (ok message, u)
      → PowerCycled pdu p t u
  unfolding power_cycle
  power_cycle-eq-ok p pdu message t u h = elim (Bool-cases (ltb 0 o.delay)) [
    | inl delayed ↦ delayed_cycle-eq-ok p pdu message t u delayed (rw delayed at h)
    | inr direct ↦ direct_cycle-eq-ok p pdu message t u direct (rw direct at h)
  ]

  -- If the command gives its output, the port was parsed, and the power commands were sent to the
  -- PDU with the community string of the configuration: with a delay, off, the pause and on, in this
  -- order, else the reboot command alone.
  pub handle-PowerCycled :
      (fqdn pdu port message : String) (t u : Trace)
      → handle env settings o fqdn pdu port t ≡ (ok message, u)
      → (p : Outlet) × (parse_port port ≡ some p) × PowerCycled pdu p t u
  unfolding handle
  handle-PowerCycled fqdn pdu port message t u h = elim (Option-cases (parse_port port)) [
    | inl bad ↦ let h' = rw (bad, handle) at h in ground arith
    | inr (p, parsed) ↦ (p, parsed, power_cycle-eq-ok p pdu message t u (rw (parsed, handle) at h))
  ]
