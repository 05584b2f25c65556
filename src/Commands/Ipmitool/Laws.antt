-- ===== src/Commands/Ipmitool/Laws.antt =====
-- ipmitool.py: the exceptions of `Command.handle`.
use relops_hardware_controll.Prelude.{
  Bool-cases, contains, sym, ap, ◌∙◌, ◌≡◌, ◌⊎◌, String, List, ◌∷◌, [], inl, inr, arith, refl,
}
use relops_hardware_controll.Effects.{
  Reply, rescue, ◌>>◌, try◌except◌, Env, Trace, soft_time_limit, ExnClass, err, Exn, process,
  raises, returns,
}
use relops_hardware_controll.Validators.Laws.{validate_host_cases}
use relops_hardware_controll.Commands.Ipmitool.{
  Options, privlvls, validate_command, validate_privlvl, run_tool, call_args, ignore_failure,
  handle,
}

module _ (env : Env) (command : List String) (o : Options) where
  -- What a raising run of the tool has done.
  abbrev pub TimedOut : Exn → Trace → Trace → Type 0
  TimedOut e t u =
      (e.cls ≡ soft_time_limit)
      × (u ≡ process (call_args command o) o.timeout ∷ t)
      × (env.text_reply u ≡ raises e)

  ignored :
      (e f : Exn) (s u : Trace)
      → ignore_failure f s ≡ (err e, u)
      → (f ≡ e) × (f.cls ≡ soft_time_limit) × (u ≡ s)
  ignored e f s u h = go f.cls refl
    where
      go : (c : ExnClass) → f.cls ≡ c → (f ≡ e) × (f.cls ≡ soft_time_limit) × (u ≡ s)
      go soft_time_limit same = let h' = rw same at h in (ground arith, same, ground arith)
      go _ same = let h' = rw same at h in ground arith

  tool-TimedOut :
      (e : Exn) (t u : Trace)
      → rescue (run_tool env command o t) ignore_failure ≡ (err e, u)
      → TimedOut e t u
  unfolding run_tool
  tool-TimedOut e t u h = go (env.text_reply (process (call_args command o) o.timeout ∷ t)) refl
    where
      go :
          (r : Reply String)
          → env.text_reply (process (call_args command o) o.timeout ∷ t) ≡ r
          → TimedOut e t u
      go (returns output) same = let h' = rw (same, run_tool) at h in ground arith
      go (raises f) same =
          let (caught, timed_out, here) = ignored e f _ u (rw (same, run_tool) at h) in
          (
            ap (λ (x : Exn). x.cls) (sym caught) ∙ timed_out,
            here,
            rw here (same ∙ ap raises caught),
          )

  privlvl_checked :
      (e : Exn) (t u : Trace)
      → (validate_privlvl o.privlvl >> (try run_tool env command o except ignore_failure)) t
        ≡ (err e, u)
      → (u ≡ t) ⊎ TimedOut e t u
  unfolding validate_privlvl
  privlvl_checked e t u h = elim (Bool-cases (contains privlvls o.privlvl)) [
    | inl known ↦ inr (tool-TimedOut e t u (rw (known, validate_privlvl) at h))
    | inr unknown ↦ let h' = rw (unknown, validate_privlvl) at h in inl (ground arith)
  ]

module _ (env : Env) where
  -- If the command raises, it has made no call, or the run of the tool, its only call, raised
  -- Celery's time limit.
  pub handle-eq-err :
      (command : List String) (o : Options) (e : Exn) (t u : Trace)
      → handle env command o t ≡ (err e, u)
      → (u ≡ t) ⊎ TimedOut env command o e t u
  unfolding handle validate_command
  handle-eq-err [] o e t u h = inl (ground arith)
  handle-eq-err (word ∷ words) o e t u h = elim (validate_host_cases env o.address t) [
    | inr (f, raised) ↦ let h' = rw (raised, handle, validate_command) at h in inl (ground arith)
    | inl (_, passed) ↦
        privlvl_checked env (word ∷ words) o e t u (rw (passed, handle, validate_command) at h)
  ]
