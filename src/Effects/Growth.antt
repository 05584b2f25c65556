-- ===== src/Effects/Growth.antt =====
-- Programs that only add to the trace.
use relops_hardware_controll.Prelude.{
  ◌≡◌, refl, sym, ◌∙◌, ap, [], ◌∷◌, ◌++◌, append_assoc, Bool, true, false,
}
use relops_hardware_controll.Effects.World.{Event, Exn, Trace, Env}
use relops_hardware_controll.Effects.Monad.{
  Outcome, ok, err, pending, M, pure, raise, rescue, try◌except◌, continue, ◌>>=◌, when, call_unit,
  call_text, call_dns, get_time,
}

-- The later trace has the earlier one as its past.
abbrev pub Extends : Trace → Trace → Type 0
Extends t u = (new : Trace) × (u ≡ new ++ t)

pub Extends-refl : (t : Trace) → Extends t t
Extends-refl t = ([], refl)

pub Extends-trans : (t u v : Trace) → Extends t u → Extends u v → Extends t v
Extends-trans t u v (new, e) (newer, e') =
    (newer ++ new, e' ∙ ap (λ s. newer ++ s) e ∙ sym (append_assoc newer new t))

abbrev pub Grows : {A : Type 0} → M A → Type 0
Grows m = (t : Trace) → Extends t (m t).1

pub Grows-raise : (A : Type 0) (e : Exn) → Grows {A = A} (raise e)
Grows-raise A e t = Extends-refl t

module _ {A : Type 0} where
  pub Grows-pure : (a : A) → Grows (pure a)
  Grows-pure a t = Extends-refl t

  rescue-Extends :
      (r : Outcome A × Trace) (h : Exn → M A)
      → ((e : Exn) → Grows (h e))
      → Extends r.1 (rescue r h).1
  rescue-Extends (ok a, t) h g = Extends-refl t
  rescue-Extends (err e, t) h g = g e t
  rescue-Extends (pending, t) h g = Extends-refl t

  pub Grows-try :
      (m : M A) (h : Exn → M A) → Grows m → ((e : Exn) → Grows (h e)) → Grows (try m except h)
  Grows-try m h p g t = Extends-trans _ _ _ (p t) (rescue-Extends (m t) h g)

module _ {A B : Type 0} where
  pub continue-Extends :
      (r : Outcome A × Trace) (f : A → M B) → ((a : A) → Grows (f a)) → Extends r.1 (continue r f).1
  continue-Extends (ok a, t) f g = g a t
  continue-Extends (err e, t) f g = Extends-refl t
  continue-Extends (pending, t) f g = Extends-refl t

  pub Grows-bind : (m : M A) (f : A → M B) → Grows m → ((a : A) → Grows (f a)) → Grows (m >>= f)
  Grows-bind m f p g t = Extends-trans _ _ _ (p t) (continue-Extends (m t) f g)

pub Grows-when : (b : Bool) (m : M (Unit {0})) → Grows m → Grows (when b m)
Grows-when true m p = p
Grows-when false m p = Grows-pure tt

module _ (env : Env) where
  pub Grows-call_unit : (e : Event) → Grows (call_unit env e)
  Grows-call_unit e t = (e ∷ [], refl)

  pub Grows-call_text : (e : Event) → Grows (call_text env e)
  Grows-call_text e t = (e ∷ [], refl)

  pub Grows-call_dns : (e : Event) → Grows (call_dns env e)
  Grows-call_dns e t = (e ∷ [], refl)

  pub Grows-get_time : Grows (get_time env)
  Grows-get_time t = Extends-refl t
