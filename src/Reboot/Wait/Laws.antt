-- ===== src/Reboot/Wait/Laws.antt =====
-- reboot.py: the polling loop `wait_for_state`.
use relops_hardware_controll.Prelude.{
  ℕ, zero, suc, ◌+◌, ◌*◌, ◌≤◌, ◌<◌, ◌≡◌, Bool, true, false, ◌∷◌, leb, arith,
}
use relops_hardware_controll.Effects.{Env, Trace, ok, M, sleep}
use relops_hardware_controll.Effects.Laws.{Finishes, continue-Finishes, continue-eq-ok}
use relops_hardware_controll.Effects.Growth.{Grows}
use relops_hardware_controll.Effects.Clock.{second, IsSteady, now-Extends}
use relops_hardware_controll.Reboot.Wait.{after_poll, wait_loop, wait_for_state}

module _ (env : Env) (fn : M Bool) (timeout interval : ℕ) where
  -- The answer is the last poll's, or the deadline has passed.
  abbrev pub Answered : ℕ → Bool → Trace → Type 0
  Answered start true u = (s : Trace) × (fn s ≡ (ok true, u))
  Answered start false u = start + timeout * second ≤ env.now u

  after_poll-Answered :
      (start : ℕ) (rest : M Bool)
      → ((t u : Trace) (r : Bool) → rest t ≡ (ok r, u) → Answered start r u)
      → (b : Bool) (s t u : Trace) (r : Bool) → fn s ≡ (ok b, t)
      → after_poll env fn timeout interval start rest b t ≡ (ok r, u)
      → Answered start r u
  unfolding after_poll
  after_poll-Answered start rest ih true s t u true e h = (s, ground arith)
  after_poll-Answered start rest ih true s t u false e h = ground arith
  after_poll-Answered start rest ih false s t u true e h =
      ground (arith, ih (sleep interval ∷ t) u true)
  after_poll-Answered start rest ih false s t u false e h =
      ground (arith, ih (sleep interval ∷ t) u false)

  wait_loop-Answered :
      (start rounds : ℕ) (t u : Trace) (r : Bool)
      → wait_loop env fn timeout interval start rounds t ≡ (ok r, u)
      → Answered start r u
  unfolding wait_loop
  wait_loop-Answered start zero t u r h = ground arith
  wait_loop-Answered start (suc rounds) t u r h =
      let (b, s, polled, followed) = continue-eq-ok (fn t) _ h in
      after_poll-Answered start _ (wait_loop-Answered start rounds) b t s u r polled followed

  -- True is the answer of the last poll, with nothing done behind it. False is given only when the
  -- timeout, counted from the call, has passed.
  pub wait_for_state-Answered :
      (t u : Trace) (r : Bool)
      → wait_for_state env fn timeout interval t ≡ (ok r, u)
      → Answered (env.now t) r u
  unfolding wait_for_state
  wait_for_state-Answered t u r h = wait_loop-Answered (env.now t) (suc timeout) t u r h

module _ (env : Env) (steady : IsSteady env) (fn : M Bool) (grows : Grows fn)
    (finishes : (t : Trace) → Finishes (fn t).0) (timeout interval : ℕ) (pause : 1 ≤ interval) where
  after_poll-Finishes :
      (start : ℕ) (rest : M Bool) (b : Bool) (t : Trace)
      → (leb (start + timeout * second) (env.now (sleep interval ∷ t)) ≡ false
          → Finishes (rest (sleep interval ∷ t)).0)
      → Finishes (after_poll env fn timeout interval start rest b t).0
  unfolding after_poll
  after_poll-Finishes start rest true t h = tt
  after_poll-Finishes start rest false t h = ground arith

  -- Enough rounds are left, if the deadline has not passed when the round begins.
  wait_loop-Finishes :
      (start rounds : ℕ) (t : Trace)
      → env.now t ≤ start + timeout * second
      → start + timeout * second < env.now t + rounds * second
      → Finishes (wait_loop env fn timeout interval start rounds t).0
  unfolding wait_loop
  wait_loop-Finishes start zero t early late = absurd (omega arith)
  wait_loop-Finishes start (suc rounds) t early late =
      let s = (fn t).1 in
      let polled = now-Extends env steady t s (grows t) in
      let slept = steady.slept interval s in
      continue-Finishes (fn t) _ (finishes t) λ b.
        after_poll-Finishes start _ b s
          λ more. wait_loop-Finishes start rounds (sleep interval ∷ s) (ground arith) (grind arith)

  -- With a steady clock, a pause of a second or more and a poll that ends, the loop ends within
  -- `timeout + 1` rounds.
  pub wait_for_state-Finishes : (t : Trace) → Finishes (wait_for_state env fn timeout interval t).0
  unfolding wait_for_state
  wait_for_state-Finishes t =
      wait_loop-Finishes (env.now t) (suc timeout) t (omega arith) (omega arith)
