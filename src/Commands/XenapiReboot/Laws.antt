-- ===== src/Commands/XenapiReboot/Laws.antt =====
-- xenapi_reboot.py: the session and the power commands of `Command.handle`.
use relops_hardware_controll.Prelude.{
  ◌≡◌, ◌⊎◌, String, false, ◌∷◌, inl, inr, arith, refl, sym, ap, subst, ◌∙◌,
}
use relops_hardware_controll.Effects.{
  Env, Trace, M, Outcome, ok, err, pending, Reply, of_reply, raises, xen, new_session,
  login_with_password, logout, clean_shutdown, hard_shutdown, get_by_uuid, start, sleep, Exn,
  returns, call_unit, call_text, rescue, pure, ◌>>◌,
}
use relops_hardware_controll.Effects.Laws.{Finishes, continue-eq-ok, call_unit-Finishes}
use relops_hardware_controll.Settings.{Settings}
use relops_hardware_controll.Commands.XenapiReboot.{
  Options, finish, xen_session, power_cycle, handle,
}

module _ (env : Env) where
  finish_logout :
      (r : Outcome (Unit {0}) × Trace)
      → Finishes r.0
      → (finish r (call_unit env (xen logout))).1 ≡ xen logout ∷ r.1
  finish_logout (ok a, t) h = refl
  finish_logout (err e, t) h = ground arith
  finish_logout (pending, t) h = absurd h

  logged_in :
      (r : Outcome (Unit {0}) × Trace)
      → Finishes r.0
      → (s : Trace) × (rescue r (λ _. pure tt) ≡ (ok tt, s))
  logged_in (ok a, t) h = (t, refl)
  logged_in (err e, t) h = (t, refl)
  logged_in (pending, t) h = absurd h

  -- Once the session object exists, and if the body ends, the last call is the logout: after a
  -- failed login, and whatever the body does or raises.
  pub xen_session_logout :
      (uri username password : String) (body : M (Unit {0})) (t : Trace)
      → ((s : Trace) → Finishes (body s).0)
      → env.unit_reply (xen (new_session uri) ∷ t) ≡ returns tt
      → (s : Trace) × ((xen_session env uri username password body t).1 ≡ xen logout ∷ (body s).1)
  unfolding xen_session
  xen_session_logout uri username password body t finishes created =
      let s = xen (new_session uri) ∷ t in
      let login = xen (login_with_password username password) in
      let (v, entered) = logged_in (call_unit env login s) (call_unit-Finishes env login s) in
      (v, rw (created, entered) (finish_logout (body v) (finishes v)))

module _ (env : Env) (settings : Settings) (host_uuid : String) (o : Options) where
  -- The machine that the lookup of the UUID gave.
  abbrev pub IsFound : String → Trace → Type 0
  IsFound vm t = env.text_reply (xen (get_by_uuid host_uuid) ∷ t) ≡ returns vm

  -- The power commands of a run that succeeded, all for the machine that was found: the shutdown, the
  -- hard one behind a clean one that failed, then the delay and the start, neither paused nor forced.
  pub data Cycled : Trace → Trace → Type 0 where
    cleanly :
        {t : Trace} (vm : String)
        → IsFound vm t
        → Cycled t (
            xen (start vm false false)
            ∷ sleep o.delay
            ∷ xen (clean_shutdown vm)
            ∷ xen (get_by_uuid host_uuid)
            ∷ t)
    hard :
        {t : Trace} (vm : String) (e : Exn)
        → IsFound vm t
        → env.unit_reply (xen (clean_shutdown vm) ∷ xen (get_by_uuid host_uuid) ∷ t) ≡ raises e
        → Cycled t (
            xen (start vm false false)
            ∷ sleep o.delay
            ∷ xen (hard_shutdown vm)
            ∷ xen (clean_shutdown vm)
            ∷ xen (get_by_uuid host_uuid)
            ∷ t)

  restarted :
      (vm : String) (s u : Trace)
      → (call_unit env (sleep o.delay) >> call_unit env (xen (start vm false false))) s ≡ (ok tt, u)
      → u ≡ xen (start vm false false) ∷ sleep o.delay ∷ s
  restarted vm s u h = ground arith

  shut_down :
      (vm : String) (t s : Trace) (r : Reply (Unit {0}))
      → env.unit_reply (xen (clean_shutdown vm) ∷ t) ≡ r
      → rescue
          (of_reply r, xen (clean_shutdown vm) ∷ t)
          (λ _. call_unit env (xen (hard_shutdown vm)))
        ≡ (ok tt, s)
      → (s ≡ xen (clean_shutdown vm) ∷ t)
        ⊎ ((e : Exn) × (env.unit_reply (xen (clean_shutdown vm) ∷ t) ≡ raises e)
            × (s ≡ xen (hard_shutdown vm) ∷ xen (clean_shutdown vm) ∷ t))
  shut_down vm t s (returns tt') same h = inl (ground arith)
  shut_down vm t s (raises e) same h = inr (e, same, ground arith)

  power_cycle-Cycled : (t u : Trace) → power_cycle env host_uuid o t ≡ (ok tt, u) → Cycled t u
  unfolding power_cycle
  power_cycle-Cycled t u h =
      let get = xen (get_by_uuid host_uuid) in
      let (vm, s, found, h₁) = continue-eq-ok (call_text env get t) _ h in
      let there : s ≡ get ∷ t = ground arith in
      let is_found : IsFound vm t = ground arith in
      let (_, v, stopped, h₂) =
        continue-eq-ok
          (rescue (call_unit env (xen (clean_shutdown vm)) s)
            (λ _. call_unit env (xen (hard_shutdown vm))))
          _ h₁ in
      elim (shut_down vm s v _ refl stopped) [
        | inl clean ↦
            subst (Cycled t)
              (sym (
                restarted vm v u h₂
                ∙ ap (λ w. xen (start vm false false) ∷ sleep o.delay ∷ w)
                    (clean ∙ ap (λ w. xen (clean_shutdown vm) ∷ w) there)))
              (cleanly vm is_found)
        | inr (e, failed, forced) ↦
            subst (Cycled t)
              (sym (
                restarted vm v u h₂
                ∙ ap (λ w. xen (start vm false false) ∷ sleep o.delay ∷ w)
                    (forced
                      ∙ ap (λ w. xen (hard_shutdown vm) ∷ xen (clean_shutdown vm) ∷ w) there)))
              (hard vm e is_found
                (subst (λ w. env.unit_reply (xen (clean_shutdown vm) ∷ w) ≡ raises e) there failed))
      ]

  finish-eq-ok :
      (r : Outcome (Unit {0}) × Trace) (u : Trace)
      → finish r (call_unit env (xen logout)) ≡ (ok tt, u)
      → (v : Trace) × (r ≡ (ok tt, v)) × (u ≡ xen logout ∷ v)
  finish-eq-ok (ok a, v) u h = (v, refl, ground arith)
  finish-eq-ok (err e, v) u h = ground arith
  finish-eq-ok (pending, v) u h = ground arith

  -- The trace behind the login, whether it worked or not.
  abbrev pub session : Trace → Trace
  session t =
      xen (login_with_password settings.xen_username settings.xen_password)
      ∷ xen (new_session settings.xen_url)
      ∷ t

  -- A success means that in the session the machine that the lookup of the UUID gave was shut down, cleanly or else hard, that it was
  -- started after the delay, and that the session was closed last.
  pub handle-Cycled :
      (t u : Trace)
      → handle env settings host_uuid o t ≡ (ok tt, u)
      → (v : Trace) × Cycled (session t) v × (u ≡ xen logout ∷ v)
  unfolding handle xen_session
  handle-Cycled t u h =
      let (_, s, created, h₁) =
        continue-eq-ok (call_unit env (xen (new_session settings.xen_url)) t) _ h in
      let login = xen (login_with_password settings.xen_username settings.xen_password) in
      let (_, s', entered, h₂) =
        continue-eq-ok (rescue (call_unit env login s) (λ _. pure tt)) _ h₁ in
      let (v, cycled, closed) = finish-eq-ok (power_cycle env host_uuid o s') u h₂ in
      let there : s' ≡ session t = ground arith in
      (v, power_cycle-Cycled (session t) v (rw there at cycled), closed)
