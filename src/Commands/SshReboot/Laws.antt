-- ===== src/Commands/SshReboot/Laws.antt =====
-- ssh_reboot.py: the commands that `Command.handle` tries.
use relops_hardware_controll.Prelude.{
  ◌≡◌, ◌≢◌, arith, refl, ◌⊎◌, inl, inr, String, ◌<>◌, List, [], ◌∷◌, ◌++◌,
}
use relops_hardware_controll.Effects.{
  Env, Event, Trace, ExnClass, called_process, command_error, Exn, exn, Reply, returns, raises,
  Outcome, ok, err, of_reply, rescue, raise, M, process,
}
use relops_hardware_controll.Validators.Laws.{validate_host_cases}
use relops_hardware_controll.Commands.SshReboot.{
  Options, base_args, reboot_cmds, on_called_process, try_cmds, handle,
}

module _ (env : Env) (hostname : String) (o : Options) where
  abbrev pub ssh : String → Event
  ssh cmd = process (base_args hostname o ++ (cmd ∷ [])) o.timeout

  -- How the tries of a list of commands end.
  pub data Tried : List String → Trace → Outcome String → Trace → Type 0 where
    exhausted :
        {t : Trace}
        → Tried [] t (err (exn command_error (hostname <> " All ssh reboot commands failed."))) t
    answered :
        {cmd : String} {cmds : List String} {t : Trace} (output : String)
        → env.text_reply (ssh cmd ∷ t) ≡ returns output
        → Tried (cmd ∷ cmds) t (ok output) (ssh cmd ∷ t)
    broken_off :
        {cmd : String} {cmds : List String} {t : Trace} (e : Exn)
        → env.text_reply (ssh cmd ∷ t) ≡ raises e
        → e.cls ≢ called_process
        → Tried (cmd ∷ cmds) t (err e) (ssh cmd ∷ t)
    refused :
        {cmd : String} {cmds : List String} {t : Trace} {r : Outcome String} {u : Trace} (e : Exn)
        → env.text_reply (ssh cmd ∷ t) ≡ raises e
        → e.cls ≡ called_process
        → Tried cmds (ssh cmd ∷ t) r u
        → Tried (cmd ∷ cmds) t r u

  abbrev TriedBy : List String → Trace → Outcome String × Trace → Type 0
  TriedBy cmds t result = Tried cmds t result.0 result.1

  abbrev on_class : ExnClass → Exn → M String → M String
  on_class c e next = elim c [ called_process ↦ next | _ ↦ raise e ]

  failed-Tried :
      (cmd : String) (cmds : List String) (t : Trace) (e : Exn) (c : ExnClass)
      → e.cls ≡ c
      → env.text_reply (ssh cmd ∷ t) ≡ raises e
      → TriedBy cmds (ssh cmd ∷ t) (try_cmds env hostname o cmds (ssh cmd ∷ t))
      → TriedBy (cmd ∷ cmds) t (on_class c e (try_cmds env hostname o cmds) (ssh cmd ∷ t))
  failed-Tried cmd cmds t e called_process same failed later = refused e failed same later
  failed-Tried cmd cmds t e _ same failed later = broken_off e failed (λ k. ground arith)

  answer-Tried :
      (cmd : String) (cmds : List String) (t : Trace) (r : Reply String)
      → env.text_reply (ssh cmd ∷ t) ≡ r
      → TriedBy cmds (ssh cmd ∷ t) (try_cmds env hostname o cmds (ssh cmd ∷ t))
      → TriedBy (cmd ∷ cmds) t (
          rescue
            (of_reply r, ssh cmd ∷ t)
            (λ e. on_called_process e (try_cmds env hostname o cmds)))
  answer-Tried cmd cmds t (returns output) same later = answered output same
  answer-Tried cmd cmds t (raises e) same later = failed-Tried cmd cmds t e e.cls refl same later

  try_cmds-Tried :
      (cmds : List String) (t : Trace) → TriedBy cmds t (try_cmds env hostname o cmds t)
  unfolding try_cmds
  try_cmds-Tried [] t = exhausted
  try_cmds-Tried (cmd ∷ cmds) t =
      answer-Tried cmd cmds t (env.text_reply (ssh cmd ∷ t)) refl
        (try_cmds-Tried cmds (ssh cmd ∷ t))

  -- An invalid host name ends the command before any call. For a valid one the two reboot commands
  -- are sent in their order: the next one only after a `CalledProcessError`, the `CommandError` only
  -- after both, and an answer or any other exception is the result.
  pub handle-Tried :
      (t : Trace)
      → ((e : Exn) × (handle env hostname o t ≡ (err e, t)))
        ⊎ Tried reboot_cmds t (handle env hostname o t).0 (handle env hostname o t).1
  unfolding handle
  handle-Tried t = elim (validate_host_cases env hostname t) [
    | inr (e, raised) ↦ inl (e, rw raised)
    | inl (_, passed) ↦ inr (rw passed (try_cmds-Tried reboot_cmds t))
  ]
