-- ===== src/Tests/Bugzilla.antt =====
-- The bugs that file_bugzilla_bug files.
use relops_hardware_controll.Prelude.{◌≡◌, refl, String, true, split, [], ◌∷◌, length, arith, ◌==◌}
use relops_hardware_controll.Json.Value.{
  Value, bool, num, array, object, no_items, item, no_fields, field,
}
use relops_hardware_controll.Settings.{base_reboot_template, base_settings}
use relops_hardware_controll.Effects.{Env, Trace, index_error, exn, ok, err, returns}
use relops_hardware_controll.Effects.Bounded.{Within}
use relops_hardware_controll.Commands.FileBugzillaBug.{
  Python, Options, default_options, Host, show_value, tracker_data, reboot_payload,
  handle as file_bugzilla_bug,
}
use relops_hardware_controll.Commands.FileBugzillaBug.Laws.{handle-Bounded, handle-short_host}
use relops_hardware_controll.Commands.FileBugzillaBug.Laws.Filled.{
  tracker_data-eq, reboot_payload-eq,
}
use relops_hardware_controll.Job.{items}
use relops_hardware_controll.Json.RoundTrip.{fields_of}
use relops_hardware_controll.Commands.FileBugzillaBug.Laws.Success.{Filed, handle-Filed}
use relops_hardware_controll.Tests.Sample.{env, config, job}

abbrev pub python : Python
python = record {
  repr = λ v. elim v [ num literal ↦ literal | _ ↦ "" ];
  is_zero = λ literal. literal == "0";
}

-- Every search lists one open bug.
abbrev listing : Value
listing = object (
    field "bugs"
      (array
        (item (object (field "id" (num "12") (field "is_open" (bool true) no_fields))) no_items))
      no_fields)

abbrev bugzilla : Env
bugzilla = record env {
  http_reply = λ _. returns (record { raise_for_status = returns tt; json = returns listing });
}

abbrev host : String
host = "t-1.test.releng.mdc1.mozilla.com"

handle-Bounded_example : Within 6 [] (
    file_bugzilla_bug python bugzilla
      (base_settings config)
      host
      (object no_fields)
      default_options
      [])
handle-Bounded_example =
    handle-Bounded python bugzilla (base_settings config) host (object no_fields) default_options []

handle-short_host_example :
    file_bugzilla_bug python bugzilla
      (base_settings config)
      "t-1"
      (object no_fields)
      default_options
      []
    ≡ (err (exn index_error "list index out of range"), [])
unfolding split
handle-short_host_example =
    handle-short_host python bugzilla (base_settings config) "t-1" (object no_fields)
      default_options [] (omega arith)

abbrev host_names : Host
host_names = record { hostname = host; alias = "t-1"; datacenter = "MDC1" }

tracker_data-eq_example :
    tracker_data python env (base_settings config) host_names
    ≡ "{\"api_key\": \"\", \"product\": \"Infrastructure & Operations\", \"component\": \"CIDuty\", \"summary\": \"[MDC1] t-1 problem tracking\", \"version\": \"unspecified\", \"alias\": \"t-1\"}"
tracker_data-eq_example = tracker_data-eq python env (base_settings config) host_names refl

abbrev bug_options : Options
bug_options = record { cc = ""; log = "\\nping"; rest = ("verbosity", "1") ∷ [] }

reboot_payload-eq_example :
    reboot_payload python env
      (base_settings config)
      host_names
      (num "12")
      (object (fields_of (items job)))
      bug_options
      []
    ≡ (
      ok
          "{\"api_key\": \"\", \"product\": \"Infrastructure & Operations\", \"component\": \"DCOps\", \"cc\": \"\", \"summary\": \"t-1.test.releng.mdc1.mozilla.com is unreachable\", \"version\": \"unspecified\", \"description\": \"Reboot t-1.test.releng.mdc1.mozilla.com \\nRequested by mozilla-ldap/jdoe@mozilla.com\\nRelops controller action failed:\\nping\", \"blocks\": \"12\"}",
      [],
    )
unfolding show_value
reboot_payload-eq_example =
    reboot_payload-eq python env (base_settings config) host_names (num "12") job bug_options []
      refl
      (
        refl,
        (
          refl,
          (
            refl,
            (
              refl,
              (
                refl,
                (
                  refl,
                  (
                    refl,
                    (refl, (refl, (refl, (refl, (refl, (refl, (refl, (refl, (refl, tt))))))))),
                  ),
                ),
              ),
            ),
          ),
        ),
      )

abbrev filed : Trace
unfolding file_bugzilla_bug base_reboot_template
filed =
    (file_bugzilla_bug python bugzilla (base_settings config) host (object no_fields)
      default_options []).1

handle-Filed_example :
    Filed python bugzilla
      (base_settings config)
      host
      (object no_fields)
      default_options
      "https://bugzilla.mozilla.org/show_bug.cgi?id=12"
      []
      filed
unfolding file_bugzilla_bug base_reboot_template
handle-Filed_example =
    handle-Filed python bugzilla (base_settings config) host (object no_fields) default_options
      "https://bugzilla.mozilla.org/show_bug.cgi?id=12" [] filed refl

three_calls : length filed ≡ 3
unfolding filed file_bugzilla_bug base_reboot_template
three_calls = refl
