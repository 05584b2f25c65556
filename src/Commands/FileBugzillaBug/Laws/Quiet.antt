-- ===== src/Commands/FileBugzillaBug/Laws/Quiet.antt =====
-- file_bugzilla_bug.py: the parts that make no call.
use relops_hardware_controll.Prelude.{
  ℕ, ◌≤◌, ◌≡◌, ◌⊎◌, refl, String, none, List, [], ◌∷◌, split, length, get_elem?, inl, inr,
  Option-cases, arith,
}
use relops_hardware_controll.Json.Value.{Value, object, str, Fields}
use relops_hardware_controll.Settings.{Settings}
use relops_hardware_controll.Effects.{Env, HttpAnswer, Trace, index_error, exn, ok, err}
use relops_hardware_controll.Effects.Bounded.{
  IsQuiet, IsQuiet-Bounded, Bounded, Bounded-reply, Bounded-bind,
}
use relops_hardware_controll.Commands.FileBugzillaBug.{
  Python, label, get_field, not_subscriptable, get_key, get_first, first_bug, get_or_none,
  get_items, mapping_items,
}

pub get_elem?-past : {A : Type 0} (xs : List A) (n : ℕ) → length xs ≤ n → get_elem? xs n ≡ none
get_elem?-past [] n h = refl
get_elem?-past (x ∷ xs) ℕ.zero h = absurd (omega arith)
get_elem?-past (x ∷ xs) (ℕ.suc n) h = get_elem?-past xs n (omega arith)

pub label-none :
    (host : String) (n : ℕ) (t : Trace)
    → get_elem? (split b'.' host) n ≡ none
    → label host n t ≡ (err (exn index_error "list index out of range"), t)
unfolding label
label-none host n t h = rw (h, label) refl

pub label-cases :
    (host : String) (n : ℕ) (t : Trace)
    → (label host n t ≡ (err (exn index_error "list index out of range"), t))
      ⊎ ((s : String) × (label host n t ≡ (ok s, t)))
unfolding label
label-cases host n t = elim (Option-cases (get_elem? (split b'.' host) n)) [
  | inl e ↦ inl (rw (e, label) refl)
  | inr (s, e) ↦ inr (s, rw (e, label) refl)
]

pub label-IsQuiet : (host : String) (n : ℕ) → IsQuiet (label host n)
unfolding label
label-IsQuiet host n t = ground arith

get_field-IsQuiet : (key : String) (kvs : Fields) → IsQuiet (get_field key kvs)
unfolding get_field
get_field-IsQuiet key kvs t = ground arith

pub get_key-IsQuiet : (key : String) (v : Value) → IsQuiet (get_key key v)
unfolding get_key not_subscriptable
get_key-IsQuiet key (object kvs) t = get_field-IsQuiet key kvs t
get_key-IsQuiet key _ t = (refl, tt)

get_first-IsQuiet : (v : Value) → IsQuiet (get_first v)
unfolding get_first not_subscriptable
get_first-IsQuiet (str String.[]) t = (refl, tt)
get_first-IsQuiet (str (String.◌∷◌ c s)) t = (refl, tt)
get_first-IsQuiet v t = ground arith

pub get_or_none-IsQuiet : (key : String) (v : Value) → IsQuiet (get_or_none key v)
unfolding get_or_none
get_or_none-IsQuiet key v t = ground arith

pub get_items-IsQuiet : (v : Value) → IsQuiet (get_items v)
unfolding get_items
get_items-IsQuiet v t = ground arith

pub first_bug-Bounded : (response : HttpAnswer) → Bounded 0 (first_bug response)
unfolding first_bug
first_bug-Bounded response = Bounded-bind 0 0 _ _ (Bounded-reply response.json) (λ found.
    Bounded-bind 0 0 _ _ (IsQuiet-Bounded _ (get_key-IsQuiet "bugs" found))
      (λ bugs. IsQuiet-Bounded _ (get_first-IsQuiet bugs)))

pub mapping_items-IsQuiet :
    (python : Python) (env : Env) (settings : Settings) (v : Value)
    → IsQuiet (mapping_items python env settings v)
unfolding mapping_items
mapping_items-IsQuiet python env settings v t = ground arith
