-- ===== src/Commands/FileBugzillaBug/Laws/Written.antt =====
-- file_bugzilla_bug.py: what the text of the bug about the host is, and what is searched for.
use relops_hardware_controll.Commands.FileBugzillaBug.Laws.Inversion.{loads_or_raise-eq-ok}
use relops_hardware_controll.Prelude.{
  ◌≡◌, inl, inr, sym, ap, ◌∙◌, refl, String, some, List, [], ◌∷◌, ◌++◌, contains, Bool-cases, arith,
}
use relops_hardware_controll.Json.Value.{Value, str, object, Fields, no_fields, field}
use relops_hardware_controll.Json.Reader.{loads}
use relops_hardware_controll.Template.{safe_substitute}
use relops_hardware_controll.Settings.{Settings}
use relops_hardware_controll.Effects.{Env, Trace, ok}
use relops_hardware_controll.Effects.Laws.{continue-eq-ok, pure-eq-ok}
use relops_hardware_controll.Commands.FileBugzillaBug.{
  Python, Options, Host, option_items, show_value, update, get_items, keywords, dict_items,
  mapping_items, mapping_of, reboot_payload, loads_or_raise, keep, search_params,
}

get_items-eq-ok :
    (v : Value) (content : Fields) (t u : Trace)
    → get_items v t ≡ (ok content, u)
    → (v ≡ object content) × (u ≡ t)
unfolding get_items
get_items-eq-ok (object kvs) content t u h =
    let (same, at) = pure-eq-ok kvs content t u h in (ap object (sym same), at)
get_items-eq-ok v content t u h = absurd (ground arith)

module _ (python : Python) (env : Env) (settings : Settings) where
  keywords-eq-ok :
      (seen : List String) (kvs mapping : List (String × String)) (t u : Trace)
      → keywords python env settings seen kvs t ≡ (ok mapping, u)
      → (mapping ≡ kvs) × (u ≡ t)
  unfolding keywords
  keywords-eq-ok seen [] mapping t u h = pure-eq-ok [] mapping t u h
  keywords-eq-ok seen (kv ∷ kvs) mapping t u h = elim (Bool-cases (contains seen kv.0)) [
    | inl repeated ↦ absurd (ground arith)
    | inr new ↦
        let (more, s, rest, gave) =
          continue-eq-ok (keywords python env settings (kv.0 ∷ seen) kvs t) _ (rw new at h) in
        let (same, at) = keywords-eq-ok (kv.0 ∷ seen) kvs more t s rest in
        let (whole, at₁) = pure-eq-ok (kv ∷ more) mapping s u gave in
        (whole ∙ ap (λ m. kv ∷ m) same, at₁ ∙ at)
  ]

  mapping_items-eq-ok :
      (job_data : Value) (items : List (String × String)) (t u : Trace)
      → mapping_items python env settings job_data t ≡ (ok items, u)
      → (fields : Fields) × (job_data ≡ object fields)
        × (items ≡ dict_items python env settings fields)
        × (u ≡ t)
  unfolding mapping_items
  mapping_items-eq-ok (object fields) items t u h =
      let (same, at) = pure-eq-ok (dict_items python env settings fields) items t u h in
      (fields, refl, same, at)
  mapping_items-eq-ok v items t u h = absurd (ground arith)

  -- The template, filled in with the host, the tracker, the job, the options and the key.
  pub record Written (host : Host) (parent job_data : Value) (options : Options) (payload : String)
      : Type 0 where
    pub fields : Fields
    pub is_job : job_data ≡ object fields
    pub filled :
        payload
        ≡ safe_substitute
            (("hostname", host.hostname)
              ∷ ("alias", host.alias)
              ∷ ("DC", host.datacenter)
              ∷ ("blocks", show_value python parent)
              ∷ (dict_items python env settings fields
                  ++ option_items options
                  ++ (("api_key", settings.bugzilla_api_key) ∷ [])))
            settings.bugzilla_reboot_template

  pub reboot_payload-Written :
      (host : Host) (parent job_data : Value) (options : Options) (payload : String) (t u : Trace)
      → reboot_payload python env settings host parent job_data options t ≡ (ok payload, u)
      → Written host parent job_data options payload × (u ≡ t)
  unfolding reboot_payload
  reboot_payload-Written host parent job_data options payload t u h =
      let (items, s, read, h₁) =
        continue-eq-ok (mapping_items python env settings job_data t) _ h in
      let all = mapping_of python env settings host parent items options in
      let (mapping, s₁, passed, h₂) = continue-eq-ok (keywords python env settings [] all s) _ h₁ in
      let (fields, is_job, same, at) = mapping_items-eq-ok job_data items t s read in
      let (is_all, at₁) = keywords-eq-ok [] all mapping s s₁ passed in
      let fill =
        λ (m : List (String × String)). safe_substitute m settings.bugzilla_reboot_template in
      let (filled, at₂) = pure-eq-ok (fill mapping) payload s₁ u h₂ in
      let of_job = λ (i : List (String × String)).
        fill (mapping_of python env settings host parent i options) in
      (
        record {
          fields = fields;
          is_job = is_job;
          filled = filled ∙ ap fill is_all ∙ ap of_job same;
        },
        at₂ ∙ at₁ ∙ at,
      )

  -- What is searched for: an open bug with the summary, the product and the component of the text.
  abbrev pub Searched : String → Fields → Type 0
  Searched payload params =
      (content : Fields) × (loads payload ≡ some (object content))
      × (params
          ≡ update (keep python env settings ("summary" ∷ "product" ∷ "component" ∷ []) content)
              (field "resolution" (str "---") no_fields))

  pub search_params-Searched :
      (payload : String) (params : Fields) (t u : Trace)
      → search_params python env settings payload t ≡ (ok params, u)
      → Searched payload params × (u ≡ t)
  unfolding search_params
  search_params-Searched payload params t u h =
      let (v, s, parsed, h₁) = continue-eq-ok (loads_or_raise python env settings payload t) _ h in
      let (content, s₁, read, h₂) = continue-eq-ok (get_items v s) _ h₁ in
      let (is_v, at) = loads_or_raise-eq-ok python env settings payload v t s parsed in
      let (is_object, at₁) = get_items-eq-ok v content s s₁ read in
      let (same, at₂) = pure-eq-ok _ params s₁ u h₂ in
      ((content, is_v ∙ ap some is_object, same), at₂ ∙ at₁ ∙ at)
