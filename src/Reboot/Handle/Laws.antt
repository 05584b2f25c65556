-- ===== src/Reboot/Handle/Laws.antt =====
-- reboot.py: the loop of `Command.handle` over the reboot methods.
use relops_hardware_controll.Prelude.{
  ◌≡◌, refl, ap, ◌∙◌, subst, String, ◌<>◌, Option, none, some, List, [], ◌∷◌, ◌++◌, true, false,
  arith, ◌≢◌, Bool,
}
use relops_hardware_controll.Effects.{
  Env, Trace, Exn, Reply, returns, raises, Outcome, ok, err, pending, M, pure, continue, of_reply,
}
use relops_hardware_controll.Effects.Laws.{continue-eq-ok}
use relops_hardware_controll.Settings.{Settings, Server}
use relops_hardware_controll.Job.{JobData}
use relops_hardware_controll.Commands.Runner.{Runner}
use relops_hardware_controll.Reboot.Methods.{
  Progress, Attempt, Prepared, skip, failed, ready, prepare,
}
use relops_hardware_controll.Reboot.Handle.{
  Verdict, rebooted, next, reified, reify, on_exception, check, did_not_cycle, go_on, after_check,
  after_call, run_attempt, try_method, proceed, attempts,
}

reified-eq-returns :
    {A : Type 0} (r : Outcome A × Trace) {a : A} {t : Trace}
    → reified r ≡ (ok (returns a), t)
    → r ≡ (ok a, t)
reified-eq-returns (ok a, t) h = ground arith
reified-eq-returns (err e, t) h = ground arith
reified-eq-returns (pending, t) h = ground arith

pub reified-eq_reply :
    {A : Type 0} (r : Outcome A × Trace) (reply : Reply A) {t : Trace}
    → reified r ≡ (ok reply, t)
    → r ≡ (of_reply reply, t)
reified-eq_reply (ok a, t) (returns b) h = ground arith
reified-eq_reply (ok a, t) (raises e) h = ground arith
reified-eq_reply (err e, t) (returns b) h = ground arith
reified-eq_reply (err e, t) (raises f) h = ground arith
reified-eq_reply (pending, t) reply h = ground arith

module _ (env : Env) (runner : Runner) (settings : Settings) where
  -- A call that returned, and a check that held behind it.
  pub record Worked (prepared : Prepared) (q : Progress) (s u : Trace) : Type 0 where
    pub call : Attempt
    pub before : Progress
    pub output : Option String
    pub called : Trace
    pub is_ready : prepared ≡ ready call before
    pub returned : runner.call call.command (before.hostname ∷ call.args) s ≡ (ok output, called)
    pub checked : check env runner settings call before.hostname called ≡ (ok true, u)
    pub result : q ≡ record before { stdout = before.stdout <> runner.written output }

  go_on-ne-rebooted :
      (a : Attempt) (p q : Progress) (e : Exn) (s u : Trace)
      → go_on env runner settings a p e s ≢ (ok (rebooted q), u)
  go_on-ne-rebooted a p q e s u h =
      let (p', t, _, ended) = continue-eq-ok (on_exception env a.command a.args p e s) _ h in
      ground arith

  after_check-eq-rebooted :
      (a : Attempt) (p q : Progress) (r : Reply Bool) (s u : Trace)
      → after_check env runner settings a p r s ≡ (ok (rebooted q), u)
      → (r ≡ returns true) × (q ≡ p) × (u ≡ s)
  after_check-eq-rebooted a p q (returns true) s u h = (refl, ground arith, ground arith)
  after_check-eq-rebooted a p q (returns false) s u h =
      absurd (go_on-ne-rebooted a p q (did_not_cycle env runner settings) s u h)
  after_check-eq-rebooted a p q (raises e) s u h = absurd (go_on-ne-rebooted a p q e s u h)

  after_call-eq-rebooted :
      (a : Attempt) (p q : Progress) (r : Reply (Option String)) (s t u : Trace)
      → runner.call a.command (p.hostname ∷ a.args) s ≡ (of_reply r, t)
      → after_call env runner settings a p r t ≡ (ok (rebooted q), u)
      → Worked (ready a p) q s u
  after_call-eq-rebooted a p q (raises e) s t u called h = absurd (go_on-ne-rebooted a p q e t u h)
  after_call-eq-rebooted a p q (returns output) s t u called h =
      let (r, v, checked, ended) =
        continue-eq-ok (reify (check env runner settings a p.hostname) t) _ h in
      let (yes', kept, last) = after_check-eq-rebooted a _ q r v u ended in
      record {
        call = a;
        before = p;
        output = output;
        called = t;
        is_ready = refl;
        returned = called;
        checked = reified-eq-returns _ (rw last (rw yes' at checked));
        result = kept;
      }

  run_attempt-eq-rebooted :
      (a : Attempt) (p q : Progress) (s u : Trace)
      → run_attempt env runner settings a p s ≡ (ok (rebooted q), u)
      → Worked (ready a p) q s u
  unfolding run_attempt
  run_attempt-eq-rebooted a p q s u h =
      let (r, t, called, ended) =
        continue-eq-ok (reify (runner.call a.command (p.hostname ∷ a.args)) s) _ h in
      after_call-eq-rebooted a p q r s t u (reified-eq_reply _ r called) ended

  try_method-eq-rebooted :
      (prepared : Prepared) (name : String) (p q : Progress) (s u : Trace)
      → try_method env runner settings prepared name p s ≡ (ok (rebooted q), u)
      → Worked prepared q s u
  unfolding try_method
  try_method-eq-rebooted skip name p q s u h = ground arith
  try_method-eq-rebooted (failed e) name p q s u h =
      let (p', t, _, ended) = continue-eq-ok (on_exception env name [] p e s) _ h in ground arith
  try_method-eq-rebooted (ready a p') name p q s u h = run_attempt-eq-rebooted a p' q s u h

  module _ (server : Server) (job_data : JobData) (bug_cc : String) where
    abbrev Loop : Type 0
    Loop = List String → Progress → Trace → Outcome (Option String × Progress) × Trace

    abbrev pub loop : Loop
    loop = attempts env runner settings server job_data bug_cc

    -- The methods in front of the one that worked all gave up, and those behind it were not tried.
    pub record FirstWorked (names : List String) (p : Progress) (t : Trace) (name : String)
        (q : Progress) (u : Trace) : Type 0 where
      pub before : List String
      pub after : List String
      pub split : names ≡ before ++ (name ∷ after)
      pub reached : Progress
      pub reached_at : Trace
      pub gave_up : loop before p t ≡ (ok (none, reached), reached_at)
      pub worked : Worked (prepare server job_data bug_cc name reached) q reached_at u

    abbrev resume : List String → Option String × Progress → M (Option String × Progress)
    resume names (none, p) = loop names p
    resume names (some name, p) = pure (some name, p)

    proceed-resume :
        (name : String) (xs ys : List String)
        → ((p : Progress) (t : Trace) → loop (xs ++ ys) p t ≡ continue (loop xs p t) (resume ys))
        → (r : Outcome Verdict × Trace)
        → continue r (proceed env runner settings server job_data bug_cc name (loop (xs ++ ys)))
          ≡ continue
              (continue r (proceed env runner settings server job_data bug_cc name (loop xs)))
              (resume ys)
    proceed-resume name xs ys ih (ok (rebooted q), t) = refl
    proceed-resume name xs ys ih (ok (next q), t) = ih q t
    proceed-resume name xs ys ih (err e, t) = refl
    proceed-resume name xs ys ih (pending, t) = refl

    -- The loop over two lists of methods is the loop over the first, and then, if no method worked,
    -- the loop over the second.
    pub attempts-append :
        (xs ys : List String) (p : Progress) (t : Trace)
        → loop (xs ++ ys) p t ≡ continue (loop xs p t) (resume ys)
    unfolding attempts
    attempts-append [] ys p t = refl
    attempts-append (x ∷ xs) ys p t = proceed-resume x xs ys (attempts-append xs ys) _

    FirstWorked-cons :
        {name : String} {names : List String} {p p' : Progress} {t s : Trace} {m : String}
        {q : Progress} {u : Trace}
        → try_method env runner settings (prepare server job_data bug_cc name p) name p t
          ≡ (ok (next p'), s)
        → FirstWorked names p' s m q u
        → FirstWorked (name ∷ names) p t m q u
    unfolding attempts
    FirstWorked-cons {name} gave_up w = record {
      before = name ∷ w.before;
      after = w.after;
      split = ap (λ l. name ∷ l) w.split;
      reached = w.reached;
      reached_at = w.reached_at;
      gave_up = rw gave_up w.gave_up;
      worked = w.worked;
    }

    proceed-eq-some :
        (name : String) (names : List String) (p : Progress) (v : Verdict) (t s : Trace)
        (m : String) (q : Progress) (u : Trace)
        → ((p : Progress) (t : Trace)
            → loop names p t ≡ (ok (some m, q), u)
            → FirstWorked names p t m q u)
        → try_method env runner settings (prepare server job_data bug_cc name p) name p t
          ≡ (ok v, s)
        → proceed env runner settings server job_data bug_cc name (loop names) v s
          ≡ (ok (some m, q), u)
        → FirstWorked (name ∷ names) p t m q u
    unfolding attempts
    proceed-eq-some name names p (next p') t s m q u ih tried h = FirstWorked-cons tried (ih p' s h)
    proceed-eq-some name names p (rebooted q') t s m q u ih tried h =
        let same : name ≡ m = ground arith in
        let last : Path (Outcome Verdict × Trace) (ok (rebooted q'), s) (ok (rebooted q), u) =
          ground arith in
        record {
          before = [];
          after = names;
          split = ap (λ n. n ∷ names) same;
          reached = p;
          reached_at = t;
          gave_up = refl;
          worked =
              subst (λ n. Worked (prepare server job_data bug_cc n p) q t u) same
                (try_method-eq-rebooted _ name p q t u (tried ∙ last));
        }

    -- If the loop reports a method, then it was called, returned and passed its check, and every
    -- method in front of it gave up.
    pub attempts-eq-some :
        (names : List String) (p : Progress) (t : Trace) (m : String) (q : Progress) (u : Trace)
        → loop names p t ≡ (ok (some m, q), u)
        → FirstWorked names p t m q u
    unfolding attempts
    attempts-eq-some [] p t m q u h = ground arith
    attempts-eq-some (name ∷ names) p t m q u h =
        let (v, s, tried, ended) =
          continue-eq-ok
            (try_method env runner settings (prepare server job_data bug_cc name p) name p t) _ h in
        proceed-eq-some name names p v t s m q u (λ p t. attempts-eq-some names p t m q u) tried
          ended
