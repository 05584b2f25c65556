-- ===== src/Argparse/Laws.antt =====
-- Texts without a dash in front are words, and options that are not required may be left out.
use relops_hardware_controll.Prelude.{
  ◌≡◌, refl, sym, ap, ◌∙◌, String, List, [], ◌∷◌, true, false, Bool-cases, inl, inr, ◌==◌, eq_iff,
  All, arith,
}
use relops_hardware_controll.Argparse.{Optional, word, ok, ◌>>=◌, classify_all, Namespace, unset}
use relops_hardware_controll.Argparse.Tokens.{is_dashed, classify}

-- The text does not begin with a dash.
abbrev pub IsWord : String → Type 0
IsWord s = is_dashed s ≡ false

IsWord-ne-dashes : (s : String) → IsWord s → (s == "--") ≡ false
unfolding is_dashed
IsWord-ne-dashes s h = elim (Bool-cases (s == "--")) [
  | inr e ↦ e
  | inl e ↦ absurd (dash s h ((eq_iff s "--").0 e))
]
  where
    dash : (s : String) → IsWord s → s ≡ "--" → ⊥
    dash s h e = let d : true ≡ false = sym (ap (λ s. is_dashed s) e) ∙ h in ground arith

pub classify_all-word :
    (os : List Optional) (s : String) (ss : List String)
    → IsWord s
    → classify_all os (s ∷ ss) ≡ (classify_all os ss >>= λ tokens. ok (word s ∷ tokens))
unfolding classify_all classify
classify_all-word os s ss h = rw (IsWord-ne-dashes s h, h) refl

abbrev pub IsOptional : Optional → Type 0
IsOptional o = o.required ≡ false

pub unset-optional :
    (os : List Optional) (values : Namespace) → All IsOptional os → unset os values ≡ []
unfolding unset
unset-optional [] values h = refl
unset-optional (o ∷ os) values (h, hs) = rw h (unset-optional os values hs)
