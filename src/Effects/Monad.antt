-- ===== src/Effects/Monad.antt =====
-- Programs: state, exceptions and loops that may be cut short.
use relops_hardware_controll.Prelude.{ℕ, Bool, true, false, [], ◌∷◌}
use relops_hardware_controll.Effects.World.{
  Event, HawkAnswer, HttpCall, HttpAnswer, http, set_level, Exn, Trace, Reply, returns, raises, Env,
}
use relops_hardware_controll.Prelude.{String}

-- `pending`: a loop used up the rounds that the model gives it.
pub data Outcome (A : Type 0) : Type 0 where
  ok : A → Outcome A
  err : Exn → Outcome A
  pending : Outcome A

abbrev pub M : Type 0 → Type 0
M A = Trace → Outcome A × Trace

abbrev pub of_reply : {A : Type 0} → Reply A → Outcome A
of_reply (returns a) = ok a
of_reply (raises e) = err e

-- What a function gives that makes no call.
abbrev pub reply : {A : Type 0} → Reply A → M A
reply r t = (of_reply r, t)

module _ {A : Type 0} where
  abbrev pub pure : A → M A
  pure a t = (ok a, t)

  abbrev pub raise : Exn → M A
  raise e t = (err e, t)

  -- The handler of `except Exception`.
  abbrev pub rescue : Outcome A × Trace → (Exn → M A) → Outcome A × Trace
  rescue (ok a, t) h = (ok a, t)
  rescue (err e, t) h = h e t
  rescue (pending, t) h = (pending, t)

  infix 4 try◌except◌
  abbrev pub try◌except◌ : M A → (Exn → M A) → M A
  try◌except◌ m h t = rescue (m t) h

module _ {A B : Type 0} where
  abbrev pub continue : Outcome A × Trace → (A → M B) → Outcome B × Trace
  continue (ok a, t) f = f a t
  continue (err e, t) f = (err e, t)
  continue (pending, t) f = (pending, t)

  infixl 5 ◌>>=◌ ◌>>◌
  abbrev pub ◌>>=◌ : M A → (A → M B) → M B
  ◌>>=◌ m f t = continue (m t) f

  abbrev pub ◌>>◌ : M A → M B → M B
  m >> n = m >>= λ _. n

-- `if test: action`
abbrev pub when : Bool → M (Unit {0}) → M (Unit {0})
when true m = m
when false m = pure tt

-- `logging.getLogger().setLevel(n)`
abbrev pub put_level : ℕ → M (Unit {0})
put_level n t = (ok tt, set_level n ∷ t)

-- The calls, and what the code reads without one.
module _ (env : Env) where
  abbrev pub call_unit : Event → M (Unit {0})
  call_unit e t = (of_reply (env.unit_reply (e ∷ t)), e ∷ t)

  abbrev pub call_text : Event → M String
  call_text e t = (of_reply (env.text_reply (e ∷ t)), e ∷ t)

  abbrev pub call_dns : Event → M (String × String)
  call_dns e t = (of_reply (env.dns_reply (e ∷ t)), e ∷ t)

  abbrev pub call_hawk : Event → M HawkAnswer
  call_hawk e t = (of_reply (env.hawk_reply (e ∷ t)), e ∷ t)

  abbrev pub call_http : HttpCall → M HttpAnswer
  call_http c t = (of_reply (env.http_reply (http c ∷ t)), http c ∷ t)

  abbrev pub get_time : M ℕ
  get_time t = (ok (env.now t), t)

  -- `logging.getLogger().level`
  abbrev pub level : Trace → ℕ
  level [] = env.first_level
  level (set_level n ∷ t) = n
  level (e ∷ t) = level t

  abbrev pub get_level : M ℕ
  get_level t = (ok (level t), t)
