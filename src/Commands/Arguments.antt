-- ===== src/Commands/Arguments.antt =====
-- The methods `add_arguments` of relops_hardware_controller/api/management/commands, and the options
-- that `handle` gets of the parsed values.
use relops_hardware_controll.Prelude.{String, List, [], ◌∷◌, ◌++◌, Option, none, some, Bool}
use relops_hardware_controll.Json.Value.{Value, null}
use relops_hardware_controll.Argparse.{
  text, number, json, Positional, Optional, Parser, required_option, optional_option, positional_of,
  Namespace, text_at, number_at, json_at,
}
use relops_hardware_controll.Commands.Ping.{
  Options as PingOptions, default_options as ping_defaults,
}
use relops_hardware_controll.Commands.SshReboot.{
  Options as SshOptions, default_options as ssh_defaults,
}
use relops_hardware_controll.Commands.SnmpReboot.{
  Options as SnmpOptions, default_options as snmp_defaults,
}
use relops_hardware_controll.Commands.IloReboot.{
  Options as IloOptions, default_options as ilo_defaults,
}
use relops_hardware_controll.Commands.XenapiReboot.{
  Options as XenOptions, default_options as xen_defaults,
}
use relops_hardware_controll.Commands.Ipmitool.{
  Options as ToolOptions, default_options as tool_defaults,
}
use relops_hardware_controll.Commands.FileBugzillaBug.{
  Options as BugOptions, default_options as bug_defaults,
}

-- The commands, one for each module.
pub data Command : Type 0 where
  ping ssh_reboot snmp_reboot ilo_reboot xenapi_reboot ipmitool file_bugzilla_bug : Command
  register_tc_actions ipmi reboot : Command

abbrev pub texts : List String → List Positional
texts [] = []
texts (dest ∷ dests) = positional_of dest text ∷ texts dests

abbrev pub ping_arguments : Parser
ping_arguments = record {
  positionals = texts ("host" ∷ "command" ∷ []);
  options = optional_option "-c" "count" number ∷ optional_option "-w" "timeout" number ∷ [];
}

abbrev pub ssh_arguments : Parser
ssh_arguments = record {
  positionals = texts ("hostname" ∷ []);
  options =
      required_option "-l" "login_name"
      ∷ required_option "-i" "identity_file"
      ∷ optional_option "-p" "port" number
      ∷ optional_option "--timeout" "timeout" number
      ∷ [];
}

abbrev pub snmp_arguments : Parser
snmp_arguments = record {
  positionals = texts ("fqdn" ∷ "pdu" ∷ "port" ∷ []);
  options =
      optional_option "--delay" "delay" number ∷ optional_option "--timeout" "timeout" number ∷ [];
}

abbrev pub ilo_arguments : Parser
ilo_arguments = record {
  positionals = texts ("hostname" ∷ []);
  options =
      optional_option "--login" "login" text
      ∷ optional_option "--password" "password" text
      ∷ optional_option "--timeout" "timeout" number
      ∷ optional_option "--delay" "delay" number
      ∷ [];
}

abbrev pub xen_arguments : Parser
xen_arguments = record {
  positionals = texts ("host_uuid" ∷ []);
  options = optional_option "--delay" "delay" number ∷ [];
}

abbrev pub tool_arguments : Parser
tool_arguments = record {
  positionals = record { dest = "command"; kind = text; many = Bool.true } ∷ [];
  options =
      required_option "-H" "address"
      ∷ required_option "-P" "password"
      ∷ required_option "-U" "username"
      ∷ optional_option "-I" "interface" text
      ∷ optional_option "-L" "privlvl" text
      ∷ optional_option "-p" "port" number
      ∷ optional_option "--timeout" "timeout" number
      ∷ [];
}

abbrev pub bug_arguments : Parser
bug_arguments = record {
  positionals = positional_of "host" text ∷ positional_of "job_data" json ∷ [];
  options = optional_option "--cc" "cc" text ∷ optional_option "--log" "log" text ∷ [];
}

abbrev pub register_arguments : Parser
register_arguments = record {
  positionals = texts ("base_url" ∷ "provisioner_id" ∷ []);
  options = [];
}

abbrev pub ipmi_arguments : Parser
ipmi_arguments = record { positionals = texts ("hostname" ∷ "command" ∷ []); options = [] }

abbrev pub reboot_arguments : Parser
reboot_arguments = record {
  positionals = positional_of "hostname" text ∷ positional_of "job_data" json ∷ [];
  options = [];
}

abbrev pub arguments : Command → Parser
arguments ping = ping_arguments
arguments ssh_reboot = ssh_arguments
arguments snmp_reboot = snmp_arguments
arguments ilo_reboot = ilo_arguments
arguments xenapi_reboot = xen_arguments
arguments ipmitool = tool_arguments
arguments file_bugzilla_bug = bug_arguments
arguments register_tc_actions = register_arguments
arguments ipmi = ipmi_arguments
arguments reboot = reboot_arguments

abbrev pub positionals : Command → List Positional
positionals command = (arguments command).positionals

abbrev pub options : Command → List Optional
options command = (arguments command).options

-- `django` are the options that Django adds for every command.
abbrev pub parser_of : List Optional → Command → Parser
parser_of django command = record {
  positionals = positionals command;
  options = options command ++ django;
}

abbrev pub or {ℓ} : {A : Type ℓ} → Option A → A → A
or (some a) default = a
or none default = default

-- The value of an argument that every successful parse has.
abbrev pub the_text : Namespace → String → String
the_text values dest = or (text_at values dest) ""

abbrev pub the_json : Namespace → String → Value
the_json values dest = or (json_at values dest) null

module _ (values : Namespace) where
  unfoldable pub ping_options : PingOptions
  unfolding number_at
  ping_options = record {
    count = or (number_at values "count") ping_defaults.count;
    timeout = or (number_at values "timeout") ping_defaults.timeout;
  }

  unfoldable pub ssh_options : SshOptions
  unfolding text_at number_at
  ssh_options =
      let d = ssh_defaults (the_text values "login_name") (the_text values "identity_file") in
      record d {
        port = or (number_at values "port") d.port;
        timeout = or (number_at values "timeout") d.timeout;
      }

  unfoldable pub snmp_options : SnmpOptions
  unfolding number_at
  snmp_options = record {
    delay = or (number_at values "delay") snmp_defaults.delay;
    timeout = or (number_at values "timeout") snmp_defaults.timeout;
  }

  unfoldable pub ilo_options : IloOptions
  unfolding text_at number_at
  ilo_options = record {
    login = text_at values "login";
    password = text_at values "password";
    timeout = or (number_at values "timeout") ilo_defaults.timeout;
    delay = or (number_at values "delay") ilo_defaults.delay;
  }

  unfoldable pub xen_options : XenOptions
  unfolding number_at
  xen_options = record { delay = or (number_at values "delay") xen_defaults.delay }

  unfoldable pub tool_options : ToolOptions
  unfolding text_at number_at
  tool_options =
      let d =
        tool_defaults (the_text values "address") (the_text values "username")
          (the_text values "password") in
      record d {
        interface = or (text_at values "interface") d.interface;
        privlvl = or (text_at values "privlvl") d.privlvl;
        port = or (number_at values "port") d.port;
        timeout = or (number_at values "timeout") d.timeout;
      }

  -- `rest` are the values of Django's own options.
  unfoldable pub bug_options : List (String × String) → BugOptions
  unfolding text_at
  bug_options rest = record {
    cc = or (text_at values "cc") bug_defaults.cc;
    log = or (text_at values "log") bug_defaults.log;
    rest = rest;
  }
