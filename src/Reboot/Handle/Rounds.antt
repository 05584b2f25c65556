-- ===== src/Reboot/Handle/Rounds.antt =====
-- reboot.py: the rounds of the loop in which a reboot method is given up.
use relops_hardware_controll.Prelude.{
  ◌≡◌, ◌≢◌, ◌↔◌, refl, ◌∙◌, String, ◌<>◌, Option, none, List, [], ◌∷◌, Bool, true, false, arith,
}
use relops_hardware_controll.Effects.{
  Env, Trace, soft_time_limit, Exn, Reply, returns, raises, Outcome, ok, err, of_reply,
}
use relops_hardware_controll.Effects.Laws.{continue-eq-ok}
use relops_hardware_controll.Settings.{Settings, Server}
use relops_hardware_controll.Job.{JobData}
use relops_hardware_controll.Commands.Runner.{Runner}
use relops_hardware_controll.Reboot.Methods.{
  Progress, Attempt, Prepared, skip, failed, ready, prepare,
}
use relops_hardware_controll.Reboot.Handle.{
  Verdict, rebooted, next, short_note, long_note, reify, on_exception, check, did_not_cycle, go_on,
  after_check, after_call, run_attempt, try_method, proceed, attempts,
}
use relops_hardware_controll.Reboot.Handle.Laws.{reified-eq_reply}

-- Celery's time limit is the one exception that is not logged and left behind.
abbrev IsCaught : Exn → Type 0
IsCaught e = e.cls ≢ soft_time_limit

abbrev with_output : Runner → Progress → Option String → Progress
with_output runner p output = record p { stdout = p.stdout <> runner.written output }

-- Both logs get a note on the exception.
abbrev pub logged : Env → String → List String → Progress → Exn → Trace → Progress
logged env method args p e t = record p {
  log = p.log <> long_note env method args e t;
  log_short = p.log_short <> short_note env method e t;
}

on_exception-logged :
    (env : Env) (method : String) (args : List String) (p q : Progress) (e : Exn) (t u : Trace)
    → on_exception env method args p e t ≡ (ok q, u)
    → IsCaught e × (q ≡ logged env method args p e t) × (u ≡ t)
unfolding on_exception
on_exception-logged env method args p q e t u h =
    (λ limit. let h' = rw (limit, on_exception) at h in ground arith, ground arith, ground arith)

logged-on_exception :
    (env : Env) (method : String) (args : List String) (p : Progress) (e : Exn) (t : Trace)
    → IsCaught e
    → on_exception env method args p e t ≡ (ok (logged env method args p e t), t)
unfolding on_exception
logged-on_exception env method args p e t caught = ground arith

module _ (env : Env) (runner : Runner) (settings : Settings) where
  -- Why the loop goes on behind a method: it has no power outlet; or its preparation, its call or its
  -- check raised an exception; or its check did not hold. The exception and that are logged.
  pub data Round (x : Prepared) (name : String) (p : Progress) (t : Trace) (p' : Progress)
      (u : Trace) : Type 0 where
    skipped : x ≡ skip → p' ≡ p → u ≡ t → Round x name p t p' u
    unprepared :
        (e : Exn)
        → x ≡ failed e
        → IsCaught e
        → p' ≡ logged env name [] p e t
        → u ≡ t
        → Round x name p t p' u
    call_failed :
        (a : Attempt) (q : Progress) (e : Exn)
        → x ≡ ready a q
        → runner.call a.command (q.hostname ∷ a.args) t ≡ (err e, u)
        → IsCaught e
        → p' ≡ logged env a.command a.args q e u
        → Round x name p t p' u
    check_failed :
        (a : Attempt) (q : Progress) (output : Option String) (e : Exn) (s : Trace)
        → x ≡ ready a q
        → runner.call a.command (q.hostname ∷ a.args) t ≡ (ok output, s)
        → check env runner settings a q.hostname s ≡ (err e, u)
        → IsCaught e
        → p' ≡ logged env a.command a.args (with_output runner q output) e u
        → Round x name p t p' u
    not_cycled :
        (a : Attempt) (q : Progress) (output : Option String) (s : Trace)
        → x ≡ ready a q
        → runner.call a.command (q.hostname ∷ a.args) t ≡ (ok output, s)
        → check env runner settings a q.hostname s ≡ (ok false, u)
        → p'
          ≡ logged env a.command a.args
              (with_output runner q output)
              (did_not_cycle env runner settings)
              u
        → Round x name p t p' u

  go_on-logged :
      (a : Attempt) (p p' : Progress) (e : Exn) (s u : Trace)
      → go_on env runner settings a p e s ≡ (ok (next p'), u)
      → IsCaught e × (p' ≡ logged env a.command a.args p e s) × (u ≡ s)
  go_on-logged a p p' e s u h =
      let (q, t, caught, ended) = continue-eq-ok (on_exception env a.command a.args p e s) _ h in
      let (known, same, at) = on_exception-logged env a.command a.args p q e s t caught in
      let same' : p' ≡ q = ground arith in
      let at' : u ≡ t = ground arith in (known, same' ∙ same, at' ∙ at)

  module _ (a : Attempt) (q : Progress) (name : String) (p p' : Progress) (t u : Trace) where
    after_check-Round :
        (output : Option String) (s v : Trace) (r : Reply Bool)
        → runner.call a.command (q.hostname ∷ a.args) t ≡ (ok output, s)
        → check env runner settings a q.hostname s ≡ (of_reply r, v)
        → after_check env runner settings a (with_output runner q output) r v ≡ (ok (next p'), u)
        → Round (ready a q) name p t p' u
    after_check-Round output s v (returns true) called checked h = ground arith
    after_check-Round output s v (returns false) called checked h =
        let (_, same, at) = go_on-logged a _ p' _ v u h in
        not_cycled a q output s refl called (rw at checked) (rw at same)
    after_check-Round output s v (raises e) called checked h =
        let (caught, same, at) = go_on-logged a _ p' e v u h in
        check_failed a q output e s refl called (rw at checked) caught (rw at same)

    after_call-Round :
        (s : Trace) (r : Reply (Option String))
        → runner.call a.command (q.hostname ∷ a.args) t ≡ (of_reply r, s)
        → after_call env runner settings a q r s ≡ (ok (next p'), u)
        → Round (ready a q) name p t p' u
    after_call-Round s (raises e) called h =
        let (caught, same, at) = go_on-logged a q p' e s u h in
        call_failed a q e refl (rw at called) caught (rw at same)
    after_call-Round s (returns output) called h =
        let (r, v, checked, ended) =
          continue-eq-ok (reify (check env runner settings a q.hostname) s) _ h in
        after_check-Round output s v r called (reified-eq_reply _ r checked) ended

  try_method-Round :
      (x : Prepared) (name : String) (p p' : Progress) (t u : Trace)
      → try_method env runner settings x name p t ≡ (ok (next p'), u)
      → Round x name p t p' u
  unfolding try_method run_attempt
  try_method-Round skip name p p' t u h = skipped refl (ground arith) (ground arith)
  try_method-Round (failed e) name p p' t u h =
      let (q, s, caught, ended) = continue-eq-ok (on_exception env name [] p e t) _ h in
      let (known, same, at) = on_exception-logged env name [] p q e t s caught in
      let same' : p' ≡ q = ground arith in
      let at' : u ≡ s = ground arith in unprepared e refl known (same' ∙ same) (at' ∙ at)
  try_method-Round (ready a q) name p p' t u h =
      let (r, s, called, ended) =
        continue-eq-ok (reify (runner.call a.command (q.hostname ∷ a.args)) t) _ h in
      after_call-Round a q name p p' t u s r (reified-eq_reply _ r called) ended

  go_on-eq :
      (a : Attempt) (p : Progress) (e : Exn) (s : Trace)
      → IsCaught e
      → go_on env runner settings a p e s ≡ (ok (next (logged env a.command a.args p e s)), s)
  go_on-eq a p e s caught = rw (logged-on_exception env a.command a.args p e s caught) refl

  call-eq :
      (a : Attempt) (q : Progress) (t s : Trace) (r : Reply (Option String))
      → runner.call a.command (q.hostname ∷ a.args) t ≡ (of_reply r, s)
      → run_attempt env runner settings a q t ≡ after_call env runner settings a q r s
  unfolding run_attempt
  call-eq a q t s (returns output) called = rw called refl
  call-eq a q t s (raises e) called = rw called refl

  check-eq :
      (a : Attempt) (q : Progress) (output : Option String) (s u : Trace) (r : Reply Bool)
      → check env runner settings a q.hostname s ≡ (of_reply r, u)
      → after_call env runner settings a q (returns output) s
        ≡ after_check env runner settings a (with_output runner q output) r u
  check-eq a q output s u (returns b) checked = rw checked refl
  check-eq a q output s u (raises e) checked = rw checked refl

  pub Round-try_method :
      (x : Prepared) (name : String) (p p' : Progress) (t u : Trace)
      → Round x name p t p' u
      → try_method env runner settings x name p t ≡ (ok (next p'), u)
  unfolding try_method
  Round-try_method x name p p' t u (skipped given same at) = rw (given, same, at) refl
  Round-try_method x name p p' t u (unprepared e given caught same at) =
      rw (given, same, at, logged-on_exception env name [] p e t caught) refl
  Round-try_method x name p p' t u (call_failed a q e given called caught same) =
      rw (given, same, call-eq a q t u (raises e) called) (go_on-eq a q e u caught)
  Round-try_method x name p p' t u (check_failed a q output e s given called checked caught same) =
      rw
        (
          given,
          same,
          call-eq a q t s (returns output) called,
          check-eq a q output s u (raises e) checked,
        )
        (go_on-eq a _ e u caught)
  Round-try_method x name p p' t u (not_cycled a q output s given called checked same) =
      rw
        (
          given,
          same,
          call-eq a q t s (returns output) called,
          check-eq a q output s u (returns false) checked,
        )
        (go_on-eq a _ (did_not_cycle env runner settings) u λ h. ground arith)

  module _ (server : Server) (job_data : JobData) (bug_cc : String) where
    -- A round for each method, one behind the other.
    abbrev pub GaveUp : List String → Progress → Trace → Progress → Trace → Type 0
    GaveUp [] p t q u = (q ≡ p) × (u ≡ t)
    GaveUp (name ∷ names) p t q u =
        (p' : Progress) × (s : Trace) × Round (prepare server job_data bug_cc name p) name p t p' s
        × GaveUp names p' s q u

    abbrev loop : List String → Progress → Trace → Outcome (Option String × Progress) × Trace
    loop = attempts env runner settings server job_data bug_cc

    proceed-GaveUp :
        (name : String) (names : List String) (p q : Progress) (v : Verdict) (t s u : Trace)
        → ((p' : Progress) → loop names p' s ≡ (ok (none, q), u) → GaveUp names p' s q u)
        → try_method env runner settings (prepare server job_data bug_cc name p) name p t
          ≡ (ok v, s)
        → proceed env runner settings server job_data bug_cc name (loop names) v s
          ≡ (ok (none, q), u)
        → GaveUp (name ∷ names) p t q u
    proceed-GaveUp name names p q (rebooted p') t s u ih tried h = ground arith
    proceed-GaveUp name names p q (next p') t s u ih tried h =
        (p', s, try_method-Round _ name p p' t s tried, ih p' h)

    attempts-GaveUp :
        (names : List String) (p q : Progress) (t u : Trace)
        → loop names p t ≡ (ok (none, q), u)
        → GaveUp names p t q u
    unfolding attempts
    attempts-GaveUp [] p q t u h = (ground arith, ground arith)
    attempts-GaveUp (name ∷ names) p q t u h =
        let (v, s, tried, ended) =
          continue-eq-ok
            (try_method env runner settings (prepare server job_data bug_cc name p) name p t) _ h in
        proceed-GaveUp name names p q v t s u (λ p' h'. attempts-GaveUp names p' q s u h') tried
          ended

    GaveUp-attempts :
        (names : List String) (p q : Progress) (t u : Trace)
        → GaveUp names p t q u
        → loop names p t ≡ (ok (none, q), u)
    unfolding attempts
    GaveUp-attempts [] p q t u (same, at) = rw (same, at) refl
    GaveUp-attempts (name ∷ names) p q t u (p', s, round, more) =
        rw (Round-try_method _ name p p' t s round) (GaveUp-attempts names p' q s u more)

    -- The loop ends without a method that worked exactly if every method was given up in a round of
    -- its own, one behind the other: it was skipped, or its preparation, its call or its check raised
    -- an exception other than Celery's time limit, or its check did not hold. All but the skipping are
    -- noted in both logs.
    pub attempts_iff :
        (names : List String) (p q : Progress) (t u : Trace)
        → (loop names p t ≡ (ok (none, q), u)) ↔ GaveUp names p t q u
    attempts_iff names p q t u = (attempts-GaveUp names p q t u, GaveUp-attempts names p q t u)
