-- ===== src/Dispatch/Reaches.antt =====
-- The arguments that the callers give, as the called command's parser reads them.
use relops_hardware_controll.Prelude.{◌≡◌, refl, ℕ, String, List, [], ◌∷◌, ◌++◌, some, All}
use relops_hardware_controll.Json.Value.{object}
use relops_hardware_controll.Argparse.{
  Optional, text_value, number_value, json_value, convert, ok, parse_args,
}
use relops_hardware_controll.Argparse.Laws.{IsWord, IsOptional, classify_all-word, unset-optional}
use relops_hardware_controll.Commands.Arguments.{
  ping, ssh_reboot, snmp_reboot, file_bugzilla_bug, ipmi, reboot, parser_of, options,
}
use relops_hardware_controll.Job.{JobData, items, dumps}
use relops_hardware_controll.Json.RoundTrip.{fields_of, loads-dumps}
use relops_hardware_controll.Argparse.Numbers.{read_int}
use relops_hardware_controll.Argparse.Tokens.{is_dashed}

pub dumps-IsWord : (job : JobData) → IsWord (dumps (items job))
unfolding dumps is_dashed
dumps-IsWord job = refl

module _ (django : List Optional) (optional : All IsOptional django) where
  pub parse_ssh :
      (hostname user key_file : String)
      → IsWord hostname
      → IsWord user
      → IsWord key_file
      → parse_args (parser_of django ssh_reboot) (hostname ∷ "-l" ∷ user ∷ "-i" ∷ key_file ∷ [])
        ≡ ok (
            ("identity_file", text_value key_file)
            ∷ ("login_name", text_value user)
            ∷ ("hostname", text_value hostname)
            ∷ [])
  unfolding parse_args
  parse_ssh hostname user key_file h u k =
      let os = options ssh_reboot ++ django in
      rw
        (
          classify_all-word os hostname ("-l" ∷ user ∷ "-i" ∷ key_file ∷ []) h,
          classify_all-word os user ("-i" ∷ key_file ∷ []) u,
          classify_all-word os key_file [] k,
          unset-optional django
              (("identity_file", text_value key_file)
                ∷ ("login_name", text_value user)
                ∷ ("hostname", text_value hostname)
                ∷ [])
              optional,
        )
        refl

  pub parse_ipmi :
      (hostname command : String)
      → IsWord hostname
      → IsWord command
      → parse_args (parser_of django ipmi) (hostname ∷ command ∷ [])
        ≡ ok (("command", text_value command) ∷ ("hostname", text_value hostname) ∷ [])
  unfolding parse_args
  parse_ipmi hostname command h c =
      rw
        (
          classify_all-word django hostname (command ∷ []) h,
          classify_all-word django command [] c,
          unset-optional django
              (("command", text_value command) ∷ ("hostname", text_value hostname) ∷ []) optional,
        )
        refl

  pub parse_snmp :
      (fqdn pdu port : String)
      → IsWord fqdn
      → IsWord pdu
      → IsWord port
      → parse_args (parser_of django snmp_reboot) (fqdn ∷ pdu ∷ port ∷ [])
        ≡ ok (("port", text_value port) ∷ ("pdu", text_value pdu) ∷ ("fqdn", text_value fqdn) ∷ [])
  unfolding parse_args
  parse_snmp fqdn pdu port f p q =
      let os = options snmp_reboot ++ django in
      rw
        (
          classify_all-word os fqdn (pdu ∷ port ∷ []) f,
          classify_all-word os pdu (port ∷ []) p,
          classify_all-word os port [] q,
          unset-optional django
              (("port", text_value port) ∷ ("pdu", text_value pdu) ∷ ("fqdn", text_value fqdn) ∷ [])
              optional,
        )
        refl

  pub parse_snmp_delay :
      (fqdn pdu port : String)
      → IsWord fqdn
      → IsWord pdu
      → IsWord port
      → parse_args (parser_of django snmp_reboot) (fqdn ∷ pdu ∷ port ∷ "--delay" ∷ "60" ∷ [])
        ≡ ok (
            ("delay", number_value 60)
            ∷ ("port", text_value port)
            ∷ ("pdu", text_value pdu)
            ∷ ("fqdn", text_value fqdn)
            ∷ [])
  unfolding parse_args
  parse_snmp_delay fqdn pdu port f p q =
      let os = options snmp_reboot ++ django in
      rw
        (
          classify_all-word os fqdn (pdu ∷ port ∷ "--delay" ∷ "60" ∷ []) f,
          classify_all-word os pdu (port ∷ "--delay" ∷ "60" ∷ []) p,
          classify_all-word os port ("--delay" ∷ "60" ∷ []) q,
          unset-optional django
              (("delay", number_value 60)
                ∷ ("port", text_value port)
                ∷ ("pdu", text_value pdu)
                ∷ ("fqdn", text_value fqdn)
                ∷ [])
              optional,
        )
        refl

  pub parse_ping :
      (fqdn : String) (timeout : String) (seconds : ℕ)
      → IsWord fqdn
      → IsWord timeout
      → read_int timeout ≡ some seconds
      → parse_args (parser_of django ping) (fqdn ∷ "ping" ∷ "-c" ∷ "1" ∷ "-w" ∷ timeout ∷ [])
        ≡ ok (
            ("timeout", number_value seconds)
            ∷ ("count", number_value 1)
            ∷ ("command", text_value "ping")
            ∷ ("host", text_value fqdn)
            ∷ [])
  unfolding parse_args
  parse_ping fqdn timeout seconds f t n =
      let os = options ping ++ django in
      rw
        (
          classify_all-word os fqdn ("ping" ∷ "-c" ∷ "1" ∷ "-w" ∷ timeout ∷ []) f,
          classify_all-word os timeout [] t,
          n,
          convert,
          unset-optional django
              (("timeout", number_value seconds)
                ∷ ("count", number_value 1)
                ∷ ("command", text_value "ping")
                ∷ ("host", text_value fqdn)
                ∷ [])
              optional,
        )
        refl

  pub parse_ping_plain :
      (fqdn command : String)
      → IsWord fqdn
      → IsWord command
      → parse_args (parser_of django ping) (fqdn ∷ command ∷ [])
        ≡ ok (("command", text_value command) ∷ ("host", text_value fqdn) ∷ [])
  unfolding parse_args
  parse_ping_plain fqdn command f c =
      let os = options ping ++ django in
      rw
        (
          classify_all-word os fqdn (command ∷ []) f,
          classify_all-word os command [] c,
          unset-optional django (("command", text_value command) ∷ ("host", text_value fqdn) ∷ [])
              optional,
        )
        refl

  pub parse_bug :
      (host : String) (job : JobData) (bug_cc log : String)
      → IsWord host
      → IsWord bug_cc
      → IsWord log
      → parse_args
          (parser_of django file_bugzilla_bug)
          (host ∷ dumps (items job) ∷ "--cc" ∷ bug_cc ∷ "--log" ∷ log ∷ [])
        ≡ ok (
            ("log", text_value log)
            ∷ ("cc", text_value bug_cc)
            ∷ ("job_data", json_value (object (fields_of (items job))))
            ∷ ("host", text_value host)
            ∷ [])
  unfolding parse_args
  parse_bug host job bug_cc log h c l =
      let os = options file_bugzilla_bug ++ django in
      let text = dumps (items job) in
      rw
        (
          classify_all-word os host (text ∷ "--cc" ∷ bug_cc ∷ "--log" ∷ log ∷ []) h,
          classify_all-word os text ("--cc" ∷ bug_cc ∷ "--log" ∷ log ∷ []) (dumps-IsWord job),
          classify_all-word os bug_cc ("--log" ∷ log ∷ []) c,
          classify_all-word os log [] l,
          loads-dumps (items job),
          convert,
          unset-optional django
              (("log", text_value log)
                ∷ ("cc", text_value bug_cc)
                ∷ ("job_data", json_value (object (fields_of (items job))))
                ∷ ("host", text_value host)
                ∷ [])
              optional,
        )
        refl

  pub parse_reboot :
      (hostname : String) (job : JobData)
      → IsWord hostname
      → parse_args (parser_of django reboot) (hostname ∷ dumps (items job) ∷ [])
        ≡ ok (
            ("job_data", json_value (object (fields_of (items job))))
            ∷ ("hostname", text_value hostname)
            ∷ [])
  unfolding parse_args
  parse_reboot hostname job h =
      let text = dumps (items job) in
      rw
        (
          classify_all-word django hostname (text ∷ []) h,
          classify_all-word django text [] (dumps-IsWord job),
          loads-dumps (items job),
          convert,
          unset-optional django
              (("job_data", json_value (object (fields_of (items job))))
                ∷ ("hostname", text_value hostname)
                ∷ [])
              optional,
        )
        refl
