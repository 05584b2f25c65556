-- ===== src/Dispatch/Tool.antt =====
-- What the call of ipmi.py runs: the `handle` of ipmitool.py.
use relops_hardware_controll.Prelude.{
  ◌≡◌, refl, ap, ◌∙◌, String, List, [], ◌∷◌, ◌++◌, Option, some, lookup, All,
}
use relops_hardware_controll.Argparse.{text_at, number_at, words_at}
use relops_hardware_controll.Argparse.Laws.{IsWord, IsOptional}
use relops_hardware_controll.Settings.{Settings, Server, Config}
use relops_hardware_controll.Effects.{Env, M, pure, ◌>>=◌}
use relops_hardware_controll.Commands.Runner.{Runner}
use relops_hardware_controll.Commands.Arguments.{ipmitool, options, tool_options}
use relops_hardware_controll.Commands.Ipmi
use relops_hardware_controll.Commands.Ipmi.{
  Command, get_key, short_name, find_server, via_parent, find_type, remapped, splat,
}
use relops_hardware_controll.Commands.Ipmitool
use relops_hardware_controll.Dispatch.{
  Host, find_command, run, run_parsed, run_command, call_found, call_command, over,
}
use relops_hardware_controll.Dispatch.Calls.{calls_ipmi}
use relops_hardware_controll.Dispatch.Words.{IsPlain, parse_tool}

find_server-found :
    (config : Config) (hostname : String) (server : Server)
    → lookup (short_name hostname) config.servers ≡ some server
    → find_server config hostname ≡ pure (server, short_name hostname)
unfolding find_server
find_server-found config hostname server found = rw (found, find_server) refl

pure-bind : {A B : Type 0} {m : M A} (f : A → M B) {a : A} → m ≡ pure a → (m >>= f) ≡ f a
pure-bind f given = ap (λ m. m >>= f) given

get_key-some :
    {A : Type 0} {o : Option A} (key : String) {a : A} → o ≡ some a → get_key o key ≡ pure a
get_key-some key given = ap (λ o. get_key o key) given

module _ (host : Host) (env : Env) (settings : Settings)
    (optional : All IsOptional host.options) where
  abbrev ToolWords : List String → Type 0
  ToolWords ws = All (IsPlain (options ipmitool ++ host.options)) ws

  tool_call :
      (runner : Runner) (address user password w : String) (ws : List String)
      → IsWord address
      → IsWord user
      → IsWord password
      → ToolWords (w ∷ ws)
      → call_command host env settings runner "ipmitool"
          ("-H" ∷ address ∷ "-U" ∷ user ∷ "-P" ∷ password ∷ w ∷ ws)
        ≡ Ipmitool.handle env (w ∷ ws) (Ipmitool.default_options address user password)
  unfolding call_command find_command call_found run_command run_parsed run tool_options text_at
      number_at words_at
  tool_call runner address user password w ws a u p h =
      rw (parse_tool host.options optional address user password w ws a u p h) refl

  -- The one call that the command ends in.
  ipmi_handle :
      (runner : Runner) (hostname command user password : String) (args : List String)
      (server machine : Server) (sent : Command)
      → lookup (short_name hostname) settings.worker_config.servers ≡ some server
      → lookup (via_parent server (short_name hostname)).0 settings.worker_config.servers
        ≡ some machine
      → remapped
          (find_type settings.worker_config machine.hwtype)
          (via_parent server (short_name hostname)).1
          command
        ≡ pure (args, sent)
      → machine.user ≡ some user
      → machine.password ≡ some password
      → Ipmi.handle runner settings.worker_config hostname command
        ≡ runner.call "ipmitool" (
            ("-H"
              ∷ (via_parent server (short_name hostname)).0
              ∷ "-U"
              ∷ user
              ∷ "-P"
              ∷ password
              ∷ [])
            ++ args
            ++ splat sent)
  unfolding Ipmi.handle
  ipmi_handle runner hostname command user password args server machine sent found its_machine
        mapped its_user its_password =
      pure-bind _ (find_server-found settings.worker_config hostname server found)
      ∙ pure-bind _ (get_key-some _ its_machine)
      ∙ pure-bind _ mapped
      ∙ pure-bind _ (get_key-some _ its_user)
      ∙ pure-bind _ (get_key-some _ its_password)

  -- Let a server have an entry under its short name, let it, or its chassis if it has one, be
  -- configured with an account, and let the command be remapped to one or more words. When Django
  -- requires none of its own options, none of the names, the command and the account begins with a
  -- dash, and the words are read as no options of ipmitool.py, the call of `ipmi` runs the tool on
  -- that machine with its account and these words, and the defaults for everything else.
  pub ipmi_call :
      (runner : Runner) (hostname command user password w : String) (ws args : List String)
      (server machine : Server) (sent : Command)
      → lookup (short_name hostname) settings.worker_config.servers ≡ some server
      → lookup (via_parent server (short_name hostname)).0 settings.worker_config.servers
        ≡ some machine
      → remapped
          (find_type settings.worker_config machine.hwtype)
          (via_parent server (short_name hostname)).1
          command
        ≡ pure (args, sent)
      → machine.user ≡ some user
      → machine.password ≡ some password
      → args ++ splat sent ≡ w ∷ ws
      → All IsWord
          (hostname ∷ command ∷ (via_parent server (short_name hostname)).0 ∷ user ∷ password ∷ [])
      → ToolWords (w ∷ ws)
      → call_command host env settings
          (over host env settings runner)
          "ipmi"
          (hostname ∷ command ∷ [])
        ≡ Ipmitool.handle env
            (w ∷ ws)
            (Ipmitool.default_options (via_parent server (short_name hostname)).0 user password)
  ipmi_call runner hostname command user password w ws args server machine sent found its_machine
        mapped its_user its_password all_words (h, (c, (a, (u, (p, _))))) plain =
      let over_tool = over host env settings runner in
      let address = (via_parent server (short_name hostname)).0 in
      calls_ipmi host env settings over_tool optional hostname command h c
      ∙ ipmi_handle over_tool hostname command user password args server machine sent found
          its_machine mapped its_user its_password
      ∙ ap
          (λ (words : List String).
            over_tool.call "ipmitool" ("-H" ∷ address ∷ "-U" ∷ user ∷ "-P" ∷ password ∷ words))
          all_words
      ∙ tool_call runner address user password w ws a u p plain
