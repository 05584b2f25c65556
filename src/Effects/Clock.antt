-- ===== src/Effects/Clock.antt =====
-- What the source relies on of the clock.
use relops_hardware_controll.Prelude.{ℕ, ◌+◌, ◌*◌, ◌≤◌, [], ◌∷◌, ◌++◌, arith}
use relops_hardware_controll.Effects.World.{Event, sleep, Trace, Env}
use relops_hardware_controll.Effects.Growth.{Extends}

-- Microseconds.
abbrev pub second : ℕ
second = 1000000

-- The clock never goes back, and `time.sleep(n)` takes n seconds or more.
pub record IsSteady (env : Env) : Type 0 where
  pub monotone : (e : Event) (t : Trace) → env.now t ≤ env.now (e ∷ t)
  pub slept : (n : ℕ) (t : Trace) → env.now t + n * second ≤ env.now (sleep n ∷ t)

module _ (env : Env) (steady : IsSteady env) where
  now-append : (new t : Trace) → env.now t ≤ env.now (new ++ t)
  now-append [] t = omega arith
  now-append (e ∷ new) t = omega (arith, now-append new t, steady.monotone e (new ++ t))

  pub now-Extends : (t u : Trace) → Extends t u → env.now t ≤ env.now u
  now-Extends t u (new, e) = rw e (now-append new t)
