-- ===== src/Commands/Ipmi.antt =====
-- relops_hardware_controller/api/management/commands/ipmi.py
use relops_hardware_controll.Prelude.{
  String, ◌<>◌, Option, none, some, List, [], ◌∷◌, ◌++◌, split, lookup,
}
use relops_hardware_controll.Effects.{key_error, type_error, exn, M, pure, raise, ◌>>=◌}
use relops_hardware_controll.Settings.{Server, HwType, Config}
use relops_hardware_controll.Commands.Runner.{Runner}

-- `d[key]`
abbrev pub get_key : {A : Type 0} → Option A → String → M A
get_key none key = raise (exn key_error ("'" <> key <> "'"))
get_key (some a) key = pure a

-- `name.split('.')[0]`; `split` gives no empty list.
unfoldable pub short_name : String → String
unfolding split
short_name name = elim (split b'.' name) [ [] ↦ name | first ∷ _ ↦ first ]

-- The entry of `servers` and the name under which it was found: first the short name.
unfoldable pub find_server : Config → String → M (Server × String)
unfolding short_name
find_server config hostname = elim (lookup (short_name hostname) config.servers) [
  | some server ↦ pure (server, short_name hostname)
  | none ↦ (do server ← get_key (lookup hostname config.servers) hostname; pure (server, hostname))
]

-- The chassis through which the server is reached, and the server's address in it.
abbrev pub via_parent : Server → String → String × Option String
via_parent server hostname = elim server.parent [
  | some parent ↦ (parent, server.addr)
  | none ↦ (hostname, none)
]

-- The variable `command`: a text, or the words of the map.
pub data Command : Type 0 where
  one : String → Command
  words : List String → Command

-- `*command`: of a text this passes the characters, one by one.
unfoldable pub characters : String → List String
characters String.[] = []
characters (String.◌∷◌ c s) = String.◌∷◌ c "" ∷ characters s

unfoldable pub splat : Command → List String
unfolding characters
splat (one s) = characters s
splat (words ws) = ws

-- `if addr is not None: args += remap['map'][addr]`
unfoldable pub addr_args : HwType → Option String → M (List String)
addr_args remap none = pure []
addr_args remap (some addr) = do
  addr_map ← get_key remap.addr_map "map"
  get_key (lookup addr addr_map) addr

-- `remap['commands'].get(command, [command])`
abbrev pub remap_command : String → Option (List String) → Command
remap_command command none = words (command ∷ [])
remap_command command (some ws) = words ws

-- `args += remap.get('args', None)`
abbrev pub base_args : HwType → M (List String)
base_args remap = elim remap.args [
  | some args ↦ pure args
  | none ↦ raise (exn type_error "'NoneType' object is not iterable")
]

-- The arguments and the command for a hardware type.
unfoldable pub remapped : Option HwType → Option String → String → M (List String × Command)
unfolding addr_args
remapped none addr command = pure ([], one command)
remapped (some remap) addr command = do
  args ← base_args remap
  more ← addr_args remap addr
  commands ← get_key remap.commands "commands"
  pure (args ++ more, remap_command command (lookup command commands))

-- `config['types'].get(hwtype, None)`
abbrev pub find_type : Config → Option String → Option HwType
find_type config none = none
find_type config (some hwtype) = lookup hwtype config.types

unfoldable pub handle : Runner → Config → String → String → M (Option String)
unfolding find_server remapped splat
handle runner config hostname command = do
  found ← find_server config hostname
  let target = via_parent found.0 found.1
  machine ← get_key (lookup target.0 config.servers) target.0
  sent ← remapped (find_type config machine.hwtype) target.1 command
  user ← get_key machine.user "user"
  password ← get_key machine.password "password"
  runner.call "ipmitool"
      (("-H" ∷ target.0 ∷ "-U" ∷ user ∷ "-P" ∷ password ∷ []) ++ sent.0 ++ splat sent.1)
