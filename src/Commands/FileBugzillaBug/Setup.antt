-- ===== src/Commands/FileBugzillaBug/Setup.antt =====
-- relops_hardware_controller/api/management/commands/file_bugzilla_bug.py: the options, the host's names and
-- the URLs.
use relops_hardware_controll.Commands.FileBugzillaBug.Values.{get_key, get_first}
use relops_hardware_controll.Prelude.{
  ℕ, String, ◌<>◌, none, some, List, [], ◌∷◌, includes, split, upper, replace_text, get_elem?,
  if◌then◌else◌,
}
use relops_hardware_controll.Json.Value.{Value, str, Fields, no_fields, field}
use relops_hardware_controll.Settings.{Settings}
use relops_hardware_controll.Effects.{reply, HttpAnswer, index_error, exn, M, pure, raise, ◌>>=◌}

-- The options of the command line; `rest` has those that Django adds for every command.
pub record Options : Type 0 where
  pub cc : String
  pub log : String
  pub rest : List (String × String)

abbrev pub default_options : Options
default_options = record { cc = ""; log = ""; rest = [] }

-- `**options`
abbrev pub option_items : Options → List (String × String)
option_items o = ("cc", o.cc) ∷ ("log", o.log) ∷ o.rest

-- `{**fields, **more}`
unfoldable pub update : Fields → Fields → Fields
update no_fields more = more
update (field k v fields) more = field k v (update fields more)

-- `host.split('.')[n]`
unfoldable pub label : String → ℕ → M String
unfolding split
label host n = elim (get_elem? (split b'.' host) n) [
  | some s ↦ pure s
  | none ↦ raise (exn index_error "list index out of range")
]

-- What the code before the calls computes of the host's name.
pub record Host : Type 0 where
  pub hostname : String
  pub alias : String
  pub datacenter : String

abbrev pub bug_url : Settings → String
bug_url settings = settings.bugzilla_url <> "/rest/bug"

-- `'{}/{}'.format(url, key)`
abbrev pub url_of : Settings → String → String
url_of settings key = bug_url settings <> "/" <> key

unfoldable pub host_of : Settings → String → M Host
unfolding label upper includes replace_text
host_of settings host = do
  short_hostname ← label host 0
  datacenter ← label host 3
  pure (record {
    hostname = host;
    alias =
        if includes "bugzilla-dev" (bug_url settings)
        then replace_text "-" "" short_hostname
        else short_hostname;
    datacenter = upper datacenter;
  })

abbrev pub basic_payload : Settings → Fields
basic_payload settings = field "api_key" (str settings.bugzilla_api_key) no_fields

-- `response.json()['bugs'][0]`
unfoldable pub first_bug : HttpAnswer → M Value
unfolding get_key get_first
first_bug response = do found ← reply response.json; bugs ← get_key "bugs" found; get_first bugs
