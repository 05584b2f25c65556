-- ===== src/Effects/Bounded.antt =====
-- Programs that end, with at most so many calls.
use relops_hardware_controll.Prelude.{
  ℕ, ◌+◌, ◌≤◌, ◌≡◌, refl, sym, ◌∙◌, ap, [], ◌∷◌, ◌++◌, append_assoc, length, length-append, Bool,
  true, false, arith,
}
use relops_hardware_controll.Effects.World.{Exn, Trace, Env, Reply, returns, raises, HttpCall, http}
use relops_hardware_controll.Effects.Monad.{
  Outcome, ok, err, pending, M, pure, reply, raise, rescue, try◌except◌, continue, ◌>>=◌, when,
  call_http,
}
use relops_hardware_controll.Effects.Laws.{Finishes}

-- At most `n` calls lead from the trace to the result's, and there is a result.
abbrev pub Within : {A : Type 0} → ℕ → Trace → Outcome A × Trace → Type 0
Within n t r = (new : Trace) × (r.1 ≡ new ++ t) × (length new ≤ n) × Finishes r.0

abbrev pub Bounded : {A : Type 0} → ℕ → M A → Type 0
Bounded n m = (t : Trace) → Within n t (m t)

-- More calls behind some calls.
pub Within-more :
    {A : Type 0} (n k : ℕ) (t u new : Trace) (r : Outcome A × Trace)
    → u ≡ new ++ t
    → length new ≤ n
    → Within k u r
    → Within (n + k) t r
Within-more n k t u new r e le (newer, e', le', f) =
    (newer ++ new, e' ∙ ap (λ s. newer ++ s) e ∙ sym (append_assoc newer new t), long, f)
  where
    long : length (newer ++ new) ≤ n + k
    long = omega (arith, length-append newer new)

pub Bounded-raise : (A : Type 0) (e : Exn) → Bounded {A = A} 0 (raise e)
Bounded-raise A e t = ([], refl, omega arith, tt)

module _ {A : Type 0} where
  pub Bounded-pure : (a : A) → Bounded 0 (pure a)
  Bounded-pure a t = ([], refl, omega arith, tt)

  pub Bounded-reply : (r : Reply A) → Bounded 0 (reply r)
  Bounded-reply (returns a) t = ([], refl, omega arith, tt)
  Bounded-reply (raises e) t = ([], refl, omega arith, tt)

  rescue-Within :
      (n k : ℕ) (t : Trace) (r : Outcome A × Trace) (h : Exn → M A)
      → Within n t r
      → ((e : Exn) → Bounded k (h e))
      → Within (n + k) t (rescue r h)
  rescue-Within n k t (ok a, u) h (new, e, le, f) g = (new, e, omega arith, tt)
  rescue-Within n k t (err x, u) h (new, e, le, f) g = Within-more n k t u new (h x u) e le (g x u)
  rescue-Within n k t (pending, u) h (new, e, le, f) g = absurd f

  pub Bounded-try :
      (n k : ℕ) (m : M A) (h : Exn → M A)
      → Bounded n m
      → ((e : Exn) → Bounded k (h e))
      → Bounded (n + k) (try m except h)
  Bounded-try n k m h p g t = rescue-Within n k t (m t) h (p t) g

module _ {A B : Type 0} where
  continue-Within :
      (n k : ℕ) (t : Trace) (r : Outcome A × Trace) (f : A → M B)
      → Within n t r
      → ((a : A) → Bounded k (f a))
      → Within (n + k) t (continue r f)
  continue-Within n k t (ok a, u) f (new, e, le, _) g = Within-more n k t u new (f a u) e le (g a u)
  continue-Within n k t (err x, u) f (new, e, le, _) g = (new, e, omega arith, tt)
  continue-Within n k t (pending, u) f (new, e, le, p) g = absurd p

  pub Bounded-bind :
      (n k : ℕ) (m : M A) (f : A → M B)
      → Bounded n m
      → ((a : A) → Bounded k (f a))
      → Bounded (n + k) (m >>= f)
  Bounded-bind n k m f p g t = continue-Within n k t (m t) f (p t) g

pub Bounded-when : (n : ℕ) (b : Bool) (m : M (Unit {0})) → Bounded n m → Bounded n (when b m)
Bounded-when n true m p t = p t
Bounded-when n false m p t = ([], refl, omega arith, tt)

pub Bounded-call_http : (env : Env) (c : HttpCall) → Bounded 1 (call_http env c)
Bounded-call_http env c t = (http c ∷ [], refl, omega arith, ground arith)

-- A program that makes no call.
abbrev pub IsQuiet : {A : Type 0} → M A → Type 0
IsQuiet m = (t : Trace) → ((m t).1 ≡ t) × Finishes (m t).0

pub IsQuiet-Bounded : {A : Type 0} (m : M A) → IsQuiet m → Bounded 0 m
IsQuiet-Bounded m q t = ([], (q t).0, omega arith, (q t).1)

pub IsQuiet-pure : {A : Type 0} (a : A) → IsQuiet (pure a)
IsQuiet-pure a t = (refl, tt)

pub IsQuiet-reply : {A : Type 0} (r : Reply A) → IsQuiet (reply r)
IsQuiet-reply (returns a) t = (refl, tt)
IsQuiet-reply (raises e) t = (refl, tt)

module _ {A B : Type 0} where
  continue-quiet :
      (t : Trace) (r : Outcome A × Trace) (f : A → M B)
      → (r.1 ≡ t) × Finishes r.0
      → ((a : A) → IsQuiet (f a))
      → ((continue r f).1 ≡ t) × Finishes (continue r f).0
  continue-quiet t (ok a, s) f (at, _) q = ((q a s).0 ∙ at, (q a s).1)
  continue-quiet t (err e, s) f (at, _) q = (at, tt)
  continue-quiet t (pending, s) f (at, p) q = absurd p

  pub IsQuiet-bind :
      (m : M A) (f : A → M B) → IsQuiet m → ((a : A) → IsQuiet (f a)) → IsQuiet (m >>= f)
  IsQuiet-bind m f p q t = continue-quiet t (m t) f (p t) q
