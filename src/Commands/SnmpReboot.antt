-- ===== src/Commands/SnmpReboot.antt =====
-- relops_hardware_controller/api/management/commands/snmp_reboot.py
pub mod Laws
use relops_hardware_controll.Prelude.{
  ℕ, String, ◌<>◌, [], ◌∷◌, show, join, lower, replace, replace_text, ltb, Option, none, some,
  if◌then◌else◌,
}
use relops_hardware_controll.Effects.{
  Env, index_error, key_error, exn, M, pure, raise, ◌>>=◌, ◌>>◌, shell, sleep, call_text, call_unit,
}
use relops_hardware_controll.Settings.{Settings}

pub record Options : Type 0 where
  pub delay : ℕ
  pub timeout : ℕ

abbrev pub default_options : Options
default_options = record { delay = 0; timeout = 60 }

abbrev pub base_oid : String
base_oid = "1.3.6.1.4.1.1718.3.2.3.1.11"

-- `cmds`
pub data Cmd : Type 0 where
  on off reboot : Cmd

abbrev pub cmd_value : Cmd → String
cmd_value on = "1"
cmd_value off = "2"
cmd_value reboot = "3"

-- What `_parse_port` stores in the command object.
pub record Outlet : Type 0 where
  pub tower : String
  pub infeed : String
  pub outlet : String

-- The replacements of `port_mappings`, in their order.
unfoldable pub map_port : String → String
unfolding replace
map_port s = replace b'c' "3" (replace b'b' "2" (replace b'a' "1" s))

-- `none` where an index is out of range.
unfoldable pub parse_port : String → Option Outlet
unfolding map_port lower
parse_port (String.◌∷◌ t (String.◌∷◌ i outlet)) = some (record {
  tower = map_port (lower (String.◌∷◌ t ""));
  infeed = map_port (lower (String.◌∷◌ i ""));
  outlet = outlet;
})
parse_port _ = none

unfoldable pub oid : Outlet → String
oid p = base_oid <> "." <> p.tower <> "." <> p.infeed <> "." <> p.outlet

-- The command that is logged, with a name in the place of the community string.
unfoldable pub logged_command : Outlet → String → Cmd → String
unfolding oid join
logged_command p fqdn cmd = join " " (
    "snmpset"
    ∷ "-v"
    ∷ "2c"
    ∷ "-c"
    ∷ "snmp_community_string"
    ∷ fqdn
    ∷ oid p
    ∷ "i"
    ∷ cmd_value cmd
    ∷ [])

module _ (env : Env) (settings : Settings) (o : Options) where
  unfoldable pub run_cmd : Outlet → String → Cmd → M String
  run_cmd p fqdn cmd = elim settings.worker_config.snmp_community_string [
    | none ↦ raise (exn key_error "'snmp_community_string'")
    | some community ↦ call_text env (
        shell (replace_text "snmp_community_string" community (logged_command p fqdn cmd))
          o.timeout)
  ]

  abbrev pub delay_note : String
  delay_note = " wait " <> show o.delay <> "s ... "

  abbrev pub prefix : String → String
  prefix pdu = "SNMP to " <> pdu <> ": "

  unfoldable pub delayed_cycle : Outlet → String → M String
  delayed_cycle p pdu = do
    down ← run_cmd p pdu off
    call_unit env (sleep o.delay)
    up ← run_cmd p pdu on
    pure (prefix pdu <> down <> delay_note <> up)

  unfoldable pub direct_cycle : Outlet → String → M String
  direct_cycle p pdu = do output ← run_cmd p pdu reboot; pure (prefix pdu <> output)

  unfoldable pub power_cycle : Outlet → String → M String
  unfolding delayed_cycle direct_cycle
  power_cycle p pdu = if ltb 0 o.delay then delayed_cycle p pdu else direct_cycle p pdu

  unfoldable pub handle : String → String → String → M String
  unfolding power_cycle parse_port run_cmd
  handle fqdn pdu port = elim (parse_port port) [
    | none ↦ raise (exn index_error "string index out of range")
    | some p ↦ power_cycle p pdu
  ]
