-- ===== src/Commands/FileBugzillaBug/Laws/Filled.antt =====
-- file_bugzilla_bug.py with the templates of relops_hardware_controller/settings.py: the texts of the
-- bugs.
use relops_hardware_controll.Prelude.{
  ◌≡◌, refl, ap, ◌∙◌, String, ◌<>◌, ◌==◌, ◌||◌, Bool, false, some, List, [], ◌∷◌, ◌++◌, all_chars,
  contains, lookup, eq_refl, arith,
}
use relops_hardware_controll.Json.Value.{Value, object}
use relops_hardware_controll.Json.RoundTrip.{fields_of}
use relops_hardware_controll.Template.{safe_substitute}
use relops_hardware_controll.Template.Laws.{
  Piece, words, slot, source, fill, safe_substitute-source,
}
use relops_hardware_controll.Settings.{Settings, base_reboot_template, base_tracker_template}
use relops_hardware_controll.Job.{JobData, items}
use relops_hardware_controll.Effects.{Env, Trace, ok}
use relops_hardware_controll.Commands.FileBugzillaBug.{
  Python, Options, Host, option_items, show_value, keywords, dict_items, mapping_items, mapping_of,
  tracker_data, reboot_payload,
}

abbrev tracker_pieces : List Piece
tracker_pieces =
    words "{\"api_key\": \""
    ∷ slot "api_key"
    ∷ words
        "\", \"product\": \"Infrastructure & Operations\", \"component\": \"CIDuty\", \"summary\": \"["
    ∷ slot "DC"
    ∷ words "] "
    ∷ slot "alias"
    ∷ words " problem tracking\", \"version\": \"unspecified\", \"alias\": \""
    ∷ slot "alias"
    ∷ words "\"}"
    ∷ []

abbrev reboot_pieces : List Piece
reboot_pieces =
    words "{\"api_key\": \""
    ∷ slot "api_key"
    ∷ words "\", \"product\": \"Infrastructure & Operations\", \"component\": \"DCOps\", \"cc\": \""
    ∷ slot "cc"
    ∷ words "\", \"summary\": \""
    ∷ slot "hostname"
    ∷ words " is unreachable\", \"version\": \"unspecified\", \"description\": \"Reboot "
    ∷ slot "hostname"
    ∷ words " "
    ∷ slot "ip"
    ∷ words "\\nRequested by "
    ∷ slot "client_id"
    ∷ words "\\nRelops controller action failed:"
    ∷ slot "log"
    ∷ words "\", \"blocks\": \""
    ∷ slot "blocks"
    ∷ words "\"}"
    ∷ []

tracker_source : base_tracker_template ≡ source tracker_pieces
unfolding base_tracker_template
tracker_source = refl

reboot_source : base_reboot_template ≡ source reboot_pieces
unfolding base_reboot_template
reboot_source = refl

tracker_filled :
    (mapping : List (String × String))
    → safe_substitute mapping (source tracker_pieces) ≡ fill mapping tracker_pieces
unfolding all_chars
tracker_filled mapping = safe_substitute-source mapping tracker_pieces (
  refl,
  (
    (refl, refl),
    (refl, ((refl, refl), (refl, ((refl, refl), (refl, ((refl, refl), (refl, tt))))))),
  ),
)

reboot_filled :
    (mapping : List (String × String))
    → safe_substitute mapping (source reboot_pieces) ≡ fill mapping reboot_pieces
unfolding all_chars
reboot_filled mapping = safe_substitute-source mapping reboot_pieces (
  refl,
  (
    (refl, refl),
    (
      refl,
      (
        (refl, refl),
        (
          refl,
          (
            (refl, refl),
            (
              refl,
              (
                (refl, refl),
                (
                  refl,
                  (
                    (refl, refl),
                    (
                      refl,
                      ((refl, refl), (refl, ((refl, refl), (refl, ((refl, refl), (refl, tt)))))),
                    ),
                  ),
                ),
              ),
            ),
          ),
        ),
      ),
    ),
  ),
)

-- No keyword is given twice, nor one of those seen before.
abbrev pub Fresh : List String → List (String × String) → Type 0
Fresh seen [] = Unit
Fresh seen (kv ∷ kvs) = (contains seen kv.0 ≡ false) × Fresh (kv.0 ∷ seen) kvs

apart : (j k : String) (b : Bool) → (j == k || b) ≡ false → (j == k ≡ false) × (b ≡ false)
apart j k b h = (ground arith, ground arith)

Fresh-last :
    (seen : List String) (kvs : List (String × String)) (k v : String)
    → Fresh seen (kvs ++ ((k, v) ∷ []))
    → contains seen k ≡ false
Fresh-last seen [] k v fresh = fresh.0
Fresh-last seen (kv ∷ kvs) k v fresh =
    (apart kv.0 k (contains seen k) (Fresh-last (kv.0 ∷ seen) kvs k v fresh.1)).1

-- The value of the last keyword is found.
lookup-last :
    (seen : List String) (kvs : List (String × String)) (k v : String)
    → Fresh seen (kvs ++ ((k, v) ∷ []))
    → lookup k (kvs ++ ((k, v) ∷ [])) ≡ some v
lookup-last seen [] k v fresh = rw (eq_refl k) refl
lookup-last seen (kv ∷ kvs) k v fresh =
    rw (apart kv.0 k (contains seen k) (Fresh-last (kv.0 ∷ seen) kvs k v fresh.1)).0
      (lookup-last (kv.0 ∷ seen) kvs k v fresh.1)

module _ (python : Python) (env : Env) (settings : Settings) where
  keywords-Fresh :
      (seen : List String) (kvs : List (String × String)) (t : Trace)
      → Fresh seen kvs
      → keywords python env settings seen kvs t ≡ (ok kvs, t)
  unfolding keywords
  keywords-Fresh seen [] t fresh = refl
  keywords-Fresh seen (kv ∷ kvs) t fresh =
      rw (fresh.0, keywords-Fresh (kv.0 ∷ seen) kvs t fresh.1) refl

module _ (python : Python) (env : Env) (settings : Settings) (host : Host) where
  -- With the template of the class `Base`, the text of a tracker bug is the template's with the key,
  -- the datacenter and the alias put in as they are: no slot is left.
  pub tracker_data-eq :
      settings.bugzilla_worker_tracker_template ≡ base_tracker_template
      → tracker_data python env settings host
        ≡ "{\"api_key\": \"" <> settings.bugzilla_api_key
          <> "\", \"product\": \"Infrastructure & Operations\", \"component\": \"CIDuty\", \"summary\": \"["
          <> host.datacenter <> "] " <> host.alias
          <> " problem tracking\", \"version\": \"unspecified\", \"alias\": \"" <> host.alias
          <> "\"}"
  unfolding tracker_data
  tracker_data-eq base =
      let mapping : List (String × String) =
        ("hostname", host.hostname)
        ∷ ("alias", host.alias)
        ∷ ("DC", host.datacenter)
        ∷ ("api_key", settings.bugzilla_api_key)
        ∷ [] in
      ap (safe_substitute mapping) (base ∙ tracker_source) ∙ tracker_filled mapping

  -- With the template of the class `Base`, and if no option of Django has a keyword that is given
  -- already, the text of the bug about a host is, for the worker's job, the template's with the key,
  -- the addresses for copies, the host, its address, the client, the log and the tracker put in as they
  -- are: no slot is left, and nothing is raised.
  pub reboot_payload-eq :
      (parent : Value) (job : JobData) (options : Options) (t : Trace)
      → settings.bugzilla_reboot_template ≡ base_reboot_template
      → Fresh [] (mapping_of python env settings host parent (items job) options)
      → reboot_payload python env settings host parent (object (fields_of (items job))) options t
        ≡ (
          ok (
              "{\"api_key\": \""
              <> settings.bugzilla_api_key
              <> "\", \"product\": \"Infrastructure & Operations\", \"component\": \"DCOps\", \"cc\": \""
              <> options.cc
              <> "\", \"summary\": \""
              <> host.hostname
              <> " is unreachable\", \"version\": \"unspecified\", \"description\": \"Reboot "
              <> host.hostname
              <> " "
              <> job.ip
              <> "\\nRequested by "
              <> job.client_id
              <> "\\nRelops controller action failed:"
              <> options.log
              <> "\", \"blocks\": \""
              <> show_value python parent
              <> "\"}"),
          t,
        )
  unfolding reboot_payload mapping_items dict_items show_value
  reboot_payload-eq parent job options t base fresh =
      let mapping = mapping_of python env settings host parent (items job) options in
      let others : List (String × String) =
        ("hostname", host.hostname)
        ∷ ("alias", host.alias)
        ∷ ("DC", host.datacenter)
        ∷ ("blocks", show_value python parent)
        ∷ (items job ++ option_items options) in
      let key = lookup-last [] others "api_key" settings.bugzilla_api_key fresh in
      rw (keywords-Fresh python env settings [] mapping t fresh, base)
        (ap (λ text. (ok text, t))
          (ap (safe_substitute mapping) reboot_source ∙ reboot_filled mapping ∙ rw key refl))
