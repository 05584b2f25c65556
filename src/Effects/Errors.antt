-- ===== src/Effects/Errors.antt =====
-- Inversion of programs that raise.
use relops_hardware_controll.Prelude.{◌≡◌, refl, ◌⊎◌, inl, inr, arith}
use relops_hardware_controll.Effects.World.{Exn, Trace}
use relops_hardware_controll.Effects.Monad.{Outcome, ok, err, pending, M, continue}

-- A sequence that raises: its first part does, or it gives a result and the second part raises.
pub continue-eq-err :
    {A B : Type 0} (r : Outcome A × Trace) (f : A → M B) {e : Exn} {u : Trace}
    → continue r f ≡ (err e, u)
    → (r ≡ (err e, u)) ⊎ ((a : A) × (s : Trace) × (r ≡ (ok a, s)) × (f a s ≡ (err e, u)))
continue-eq-err (ok a, s) f h = inr (a, s, refl, h)
continue-eq-err (err e, s) f h = inl (ground arith)
continue-eq-err (pending, s) f h = ground arith
