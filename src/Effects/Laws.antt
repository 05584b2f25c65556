-- ===== src/Effects/Laws.antt =====
-- Inversion of composed programs: what their parts gave.
use relops_hardware_controll.Prelude.{◌≡◌, refl, arith}
use relops_hardware_controll.Effects.World.{Event, Trace, Env, Reply, returns, raises}
use relops_hardware_controll.Effects.Monad.{
  Outcome, ok, err, pending, M, continue, pure, reply, call_unit,
}

-- A sequence that gives a result: both parts do.
pub continue-eq-ok :
    {A B : Type 0} (r : Outcome A × Trace) (f : A → M B) {b : B} {u : Trace}
    → continue r f ≡ (ok b, u)
    → (a : A) × (s : Trace) × (r ≡ (ok a, s)) × (f a s ≡ (ok b, u))
continue-eq-ok (ok a, s) f h = (a, s, refl, h)
continue-eq-ok (err e, s) f h = ground arith
continue-eq-ok (pending, s) f h = ground arith

pub pure-eq-ok : {A : Type 0} (a b : A) (t u : Trace) → pure a t ≡ (ok b, u) → (b ≡ a) × (u ≡ t)
pure-eq-ok a b t u h = ground arith

pub reply-eq-ok :
    {A : Type 0} (r : Reply A) (a : A) (t u : Trace)
    → reply r t ≡ (ok a, u)
    → (r ≡ returns a) × (u ≡ t)
reply-eq-ok (returns a) b t u h = ground arith
reply-eq-ok (raises e) b t u h = ground arith

-- A program that does not run out of rounds.
abbrev pub Finishes : {A : Type 0} → Outcome A → Type 0
Finishes (ok a) = Unit
Finishes (err e) = Unit
Finishes pending = ⊥

pub continue-Finishes :
    {A B : Type 0} (r : Outcome A × Trace) (f : A → M B)
    → Finishes r.0
    → ((a : A) → Finishes (f a r.1).0)
    → Finishes (continue r f).0
continue-Finishes (ok a, s) f h k = k a
continue-Finishes (err e, s) f h k = tt
continue-Finishes (pending, s) f h k = h

pub call_unit-Finishes : (env : Env) (e : Event) (t : Trace) → Finishes (call_unit env e t).0
call_unit-Finishes env e t = ground arith
