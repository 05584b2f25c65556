-- ===== src/Commands/FileBugzillaBug/Laws/Inversion.antt =====
-- file_bugzilla_bug.py: what a value or an answer was, when it was read without an exception.
use relops_hardware_controll.Prelude.{
  ◌≡◌, ◌≢◌, ◌⊎◌, inl, inr, refl, sym, ap, ◌∙◌, String, some, ◌∷◌, arith,
}
use relops_hardware_controll.Json.Value.{Value, str, array, object, Items, item, Fields, get}
use relops_hardware_controll.Json.Reader.{loads}
use relops_hardware_controll.Settings.{Settings}
use relops_hardware_controll.Effects.{
  Env, Exn, Trace, Outcome, ok, err, pending, M, returns, HttpCall, HttpAnswer, http, call_http,
  reply, rescue,
}
use relops_hardware_controll.Effects.Laws.{continue-eq-ok, reply-eq-ok}
use relops_hardware_controll.Commands.FileBugzillaBug.{
  Python, loads_or_raise, get_field, get_key, not_subscriptable, get_first, first_bug,
}

-- The bug is the first one that the answer of a search lists.
abbrev pub IsListed : HttpAnswer → Value → Type 0
IsListed answer bug_id =
    (found : Fields) × (bug : Fields) × (more : Items) × (answer.json ≡ returns (object found))
    × (get "bugs" found ≡ some (array (item (object bug) more)))
    × (get "id" bug ≡ some bug_id)

pub rescue-eq-ok :
    {A : Type 0} (r : Outcome A × Trace) (h : Exn → M A) {a : A} {u : Trace}
    → rescue r h ≡ (ok a, u)
    → (r ≡ (ok a, u)) ⊎ ((e : Exn) × (s : Trace) × (r ≡ (err e, s)) × (h e s ≡ (ok a, u)))
rescue-eq-ok (ok a, t) h e = inl e
rescue-eq-ok (err x, t) h e = inr (x, t, refl, e)
rescue-eq-ok (pending, t) h e = ground arith

pub object-ne-str : (kvs : Fields) (s : String) → object kvs ≢ str s
object-ne-str kvs s h = ground arith

pub call_http-eq-ok :
    (env : Env) (c : HttpCall) (a : HttpAnswer) (t u : Trace)
    → call_http env c t ≡ (ok a, u)
    → (u ≡ http c ∷ t) × (env.http_reply (http c ∷ t) ≡ returns a)
call_http-eq-ok env c a t u h = ground arith

pub loads_or_raise-eq-ok :
    (python : Python) (env : Env) (settings : Settings) (text : String) (v : Value) (t u : Trace)
    → loads_or_raise python env settings text t ≡ (ok v, u)
    → (loads text ≡ some v) × (u ≡ t)
unfolding loads_or_raise
loads_or_raise-eq-ok python env settings text v t u h = (ground arith, ground arith)

get_field-eq-ok :
    (key : String) (kvs : Fields) (w : Value) (t u : Trace)
    → get_field key kvs t ≡ (ok w, u)
    → (get key kvs ≡ some w) × (u ≡ t)
unfolding get_field
get_field-eq-ok key kvs w t u h = ground arith

pub get_key-eq-ok :
    (key : String) (v w : Value) (t u : Trace)
    → get_key key v t ≡ (ok w, u)
    → (kvs : Fields) × (v ≡ object kvs) × (get key kvs ≡ some w) × (u ≡ t)
unfolding get_key not_subscriptable
get_key-eq-ok key (object kvs) w t u h =
    let found = get_field-eq-ok key kvs w t u h in (kvs, refl, found.0, found.1)
get_key-eq-ok key v w t u h = absurd (ground arith)

get_first-eq-ok :
    (v w : Value) (t u : Trace)
    → get_first v t ≡ (ok w, u)
    → (((vs : Items) × (v ≡ array (item w vs))) ⊎ ((s : String) × (w ≡ str s))) × (u ≡ t)
unfolding get_first not_subscriptable
get_first-eq-ok (array (item v vs)) w t u h = (inl (vs, ground arith), ground arith)
get_first-eq-ok (str (String.◌∷◌ c s)) w t u h = (inr (String.◌∷◌ c "", ground arith), ground arith)
get_first-eq-ok (str String.[]) w t u h = absurd (ground arith)
get_first-eq-ok v w t u h = absurd (ground arith)

pub first_bug-eq-ok :
    (answer : HttpAnswer) (bug : Value) (t u : Trace)
    → first_bug answer t ≡ (ok bug, u)
    → (((found : Fields) × (more : Items) × (answer.json ≡ returns (object found))
          × (get "bugs" found ≡ some (array (item bug more))))
        ⊎ ((s : String) × (bug ≡ str s)))
      × (u ≡ t)
unfolding first_bug
first_bug-eq-ok answer bug t u h =
    let (found, s, read, h₁) = continue-eq-ok (reply answer.json t) _ h in
    let (bugs, s₁, taken, chosen) = continue-eq-ok (get_key "bugs" found s) _ h₁ in
    let (is_json, at) = reply-eq-ok answer.json found t s read in
    let (kvs, is_object, has_bugs, at₁) = get_key-eq-ok "bugs" found bugs s s₁ taken in
    let (first, at₂) = get_first-eq-ok bugs bug s₁ u chosen in
    (
      elim first [
        | inl (more, is_array) ↦
            inl (kvs, more, is_json ∙ ap returns is_object, has_bugs ∙ ap some is_array)
        | inr is_str ↦ inr is_str
      ],
      at₂ ∙ at₁ ∙ at,
    )

pub first_id-IsListed :
    (answer : HttpAnswer) (bug bug_id : Value) (t u v : Trace)
    → first_bug answer t ≡ (ok bug, u)
    → get_key "id" bug u ≡ (ok bug_id, v)
    → IsListed answer bug_id × (v ≡ t)
first_id-IsListed answer bug bug_id t u v chosen named =
    let (first, at) = first_bug-eq-ok answer bug t u chosen in
    let (kvs, is_bug, has_id, at₁) = get_key-eq-ok "id" bug bug_id u v named in
    elim first [
      | inl (found, more, is_object, has_bugs) ↦ (
        (
          found,
          kvs,
          more,
          is_object,
          has_bugs ∙ ap (λ b. some (array (item b more))) is_bug,
          has_id,
        ),
        at₁ ∙ at,
      )
      | inr (s, is_str) ↦ absurd (object-ne-str kvs s (sym is_bug ∙ is_str))
    ]
