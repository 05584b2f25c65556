-- ===== src/Effects/Settles.antt =====
-- Programs that end, and only add to the trace.
use relops_hardware_controll.Prelude.{refl, [], ◌∷◌, ℕ, Bool, true, false, arith}
use relops_hardware_controll.Effects.World.{Event, Exn, Trace, Env, Reply, returns, raises}
use relops_hardware_controll.Effects.Monad.{
  Outcome, ok, err, pending, M, pure, raise, rescue, try◌except◌, continue, ◌>>=◌, when, call_unit,
  call_text, get_time, reply,
}
use relops_hardware_controll.Effects.Laws.{Finishes}
use relops_hardware_controll.Effects.Growth.{Extends, Extends-refl, Extends-trans}
use relops_hardware_controll.Effects.Bounded.{Bounded, IsQuiet}

abbrev pub SettledFrom : {A : Type 0} → Trace → Outcome A × Trace → Type 0
SettledFrom t r = Extends t r.1 × Finishes r.0

abbrev pub Settles : {A : Type 0} → M A → Type 0
Settles m = (t : Trace) → SettledFrom t (m t)

pub Bounded-Settles : {A : Type 0} (n : ℕ) (m : M A) → Bounded n m → Settles m
Bounded-Settles n m h t = let (new, e, _, f) = h t in ((new, e), f)

pub IsQuiet-Settles : {A : Type 0} (m : M A) → IsQuiet m → Settles m
IsQuiet-Settles m h t = (([], (h t).0), (h t).1)

pub Settles-raise : (A : Type 0) (e : Exn) → Settles {A = A} (raise e)
Settles-raise A e t = (Extends-refl t, tt)

module _ {A : Type 0} where
  pub Settles-pure : (a : A) → Settles (pure a)
  Settles-pure a t = (Extends-refl t, tt)

  rescue-Settled :
      (t : Trace) (r : Outcome A × Trace) (h : Exn → M A)
      → SettledFrom t r
      → ((e : Exn) → Settles (h e))
      → SettledFrom t (rescue r h)
  rescue-Settled t (ok a, s) h p g = p
  rescue-Settled t (err e, s) h (grown, _) g = (Extends-trans _ _ _ grown (g e s).0, (g e s).1)
  rescue-Settled t (pending, s) h (_, f) g = absurd f

  pub Settles-try :
      (m : M A) (h : Exn → M A) → Settles m → ((e : Exn) → Settles (h e)) → Settles (try m except h)
  Settles-try m h p g t = rescue-Settled t (m t) h (p t) g

module _ {A B : Type 0} where
  pub continue-Settled :
      (t : Trace) (r : Outcome A × Trace) (f : A → M B)
      → SettledFrom t r
      → ((a : A) → Settles (f a))
      → SettledFrom t (continue r f)
  continue-Settled t (ok a, s) f (grown, _) g = (Extends-trans _ _ _ grown (g a s).0, (g a s).1)
  continue-Settled t (err e, s) f p g = p
  continue-Settled t (pending, s) f (_, h) g = absurd h

  pub Settles-bind :
      (m : M A) (f : A → M B) → Settles m → ((a : A) → Settles (f a)) → Settles (m >>= f)
  Settles-bind m f p g t = continue-Settled t (m t) f (p t) g

pub Settles-when : (b : Bool) (m : M (Unit {0})) → Settles m → Settles (when b m)
Settles-when true m p t = p t
Settles-when false m p t = (Extends-refl t, tt)

module _ (env : Env) where
  pub Settles-call_unit : (e : Event) → Settles (call_unit env e)
  Settles-call_unit e t = ((e ∷ [], refl), ground arith)

  pub Settles-call_text : (e : Event) → Settles (call_text env e)
  Settles-call_text e t = ((e ∷ [], refl), ground arith)

  pub Settles-reply : {A : Type 0} (r : Reply A) → Settles (reply r)
  Settles-reply (returns a) t = (Extends-refl t, tt)
  Settles-reply (raises e) t = (Extends-refl t, tt)

  pub Settles-get_time : Settles (get_time env)
  Settles-get_time t = (Extends-refl t, tt)
