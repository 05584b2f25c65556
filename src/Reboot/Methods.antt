-- ===== src/Reboot/Methods.antt =====
-- reboot.py: the part of the loop's body in front of `call_command`, for each reboot method.
use relops_hardware_controll.Prelude.{
  String, ◌<>◌, Option, none, some, List, [], ◌∷◌, ◌++◌, rsplit_once, ◌==◌, ◌||◌, Bool, true, false,
  if◌then◌else◌,
}
use relops_hardware_controll.Effects.{key_error, not_implemented, Exn, exn}
use relops_hardware_controll.Settings.{Ssh, Server}
use relops_hardware_controll.Job.{JobData, items, dumps}

-- The branches of the `if` ladder.
pub data Method : Type 0 where
  ssh_reboot ipmi snmp_reboot snmp_rebootdelay xenapi_reboot ilo_reboot file_bugzilla_bug : Method
  unknown : Method

unfoldable pub method_of : String → Method
method_of name =
    if name == "ssh_reboot"
    then ssh_reboot
    else if name == "ipmi_on" || name == "ipmi_reset" || name == "ipmi_cycle"
    then ipmi
    else if name == "snmp_reboot"
    then snmp_reboot
    else if name == "snmp_rebootdelay"
    then snmp_rebootdelay
    else if name == "xenapi_reboot"
    then xenapi_reboot
    else if name == "ilo_reboot"
    then ilo_reboot
    else if name == "file_bugzilla_bug"
    then file_bugzilla_bug
    else unknown

-- The variables that live through the loop: `hostname`, the texts of the log and of `stdout`, and
-- whether `result_template` is that of a filed bug.
pub record Progress : Type 0 where
  pub hostname : String
  pub log : String
  pub log_short : String
  pub stdout : String
  pub bug : Bool

-- A call to make: the variables `reboot_method` and `reboot_args`, and whether `check` looks at
-- the machine.
pub record Attempt : Type 0 where
  pub command : String
  pub args : List String
  pub checked : Bool

pub data Prepared : Type 0 where
  -- `continue`
  skip : Prepared
  -- an exception
  failed : Exn → Prepared
  ready : Attempt → Progress → Prepared

abbrev pub attempt : String → List String → Attempt
attempt command args = record { command = command; args = args; checked = true }

-- `KeyError` leads to the account `roller`.
unfoldable pub ssh_args : Option Ssh → List String
ssh_args (some ssh) = elim ssh.user [
  | some user ↦ elim ssh.key_file [
    | some key_file ↦ "-l" ∷ user ∷ "-i" ∷ key_file ∷ []
    | none ↦ "-l" ∷ "roller" ∷ "-i" ∷ "ssh.key" ∷ []
  ]
  | none ↦ "-l" ∷ "roller" ∷ "-i" ∷ "ssh.key" ∷ []
]
ssh_args none = "-l" ∷ "roller" ∷ "-i" ∷ "ssh.key" ∷ []

-- `pdu.rsplit(':', 1)`
unfoldable pub pdu_args : String → List String
unfolding rsplit_once
pdu_args pdu = elim (rsplit_once b':' pdu) [
  | some (host, port) ↦ host ∷ port ∷ []
  | none ↦ pdu ∷ []
]

abbrev pub missing : String → Prepared
missing key = failed (exn key_error ("'" <> key <> "'"))

module _ (server : Server) (job_data : JobData) (bug_cc : String) where
  abbrev prepare_pdu : List String → Progress → Prepared
  prepare_pdu more p = elim server.pdu [
    | some pdu ↦ ready (attempt "snmp_reboot" (pdu_args pdu ++ more)) p
    | none ↦ skip
  ]

  abbrev prepare_xen : Option (Option (List String)) → Progress → Prepared
  prepare_xen (some (some args)) p = ready (attempt "xenapi_reboot" args) p
  prepare_xen (some none) p = missing "reboot"
  prepare_xen none p = missing "xen"

  -- `hostname, reboot_args = server['ilo']`: the new host name stays for the methods behind.
  abbrev prepare_ilo : Option (String × List String) → Progress → Prepared
  prepare_ilo (some (hostname, args)) p =
      ready (attempt "ilo_reboot" args) (record p { hostname = hostname })
  prepare_ilo none p = missing "ilo"

  abbrev bug_attempt : Progress → Attempt
  bug_attempt p = record {
    command = "file_bugzilla_bug";
    args = dumps (items job_data) ∷ "--cc" ∷ bug_cc ∷ "--log" ∷ p.log ∷ [];
    checked = false;
  }

  unfoldable pub prepare : String → Progress → Prepared
  unfolding method_of ssh_args pdu_args
  prepare name p = elim (method_of name) [
    | ssh_reboot ↦ ready (attempt "ssh_reboot" (ssh_args server.ssh)) p
    | ipmi ↦ ready (attempt "ipmi" (name ∷ [])) p
    | snmp_reboot ↦ prepare_pdu [] p
    | snmp_rebootdelay ↦ prepare_pdu ("--delay" ∷ "60" ∷ []) p
    | xenapi_reboot ↦ prepare_xen server.xen p
    | ilo_reboot ↦ prepare_ilo server.ilo p
    | file_bugzilla_bug ↦ ready (bug_attempt p) (record p { bug = true })
    | unknown ↦ failed (exn not_implemented "")
  ]
