-- ===== src/Commands/FileBugzillaBug/Laws.antt =====
-- Theorems on relops_hardware_controller/api/management/commands/file_bugzilla_bug.py: how many
-- calls it makes, and the names that it refuses.
mod Quiet
mod Inversion
pub mod Tracked
pub mod Written
pub mod Reported
pub mod Filled
pub mod Success
use relops_hardware_controll.Commands.FileBugzillaBug.Laws.Quiet.{
  get_elem?-past, label-none, label-cases, label-IsQuiet, get_key-IsQuiet, get_or_none-IsQuiet,
  get_items-IsQuiet, first_bug-Bounded, mapping_items-IsQuiet,
}
use relops_hardware_controll.Prelude.{
  ◌<◌, ◌≤◌, ◌≡◌, refl, String, List, [], ◌∷◌, Bool, false, split, length, is_empty, inl, inr,
  Bool-cases, arith,
}
use relops_hardware_controll.Json.Value.{Value, Fields}
use relops_hardware_controll.Settings.{Settings}
use relops_hardware_controll.Effects.{Env, Trace, index_error, exn, err}
use relops_hardware_controll.Effects.Bounded.{
  IsQuiet, IsQuiet-Bounded, Within, Bounded, Bounded-pure, Bounded-reply, Bounded-try, Bounded-bind,
  Bounded-when, Bounded-call_http,
}
use relops_hardware_controll.Commands.FileBugzillaBug.{
  Python, Options, Host, host_of, is_closed, update_bug, create_bug, create_or_update_bug,
  find_tracker, keywords, mapping_of, reboot_payload, loads_or_raise, search_params, find_bug,
  file_bug, find_or_file_bug, confirm, handle,
}

module _ (python : Python) (env : Env) (settings : Settings) where
  host_of-Bounded : (host : String) → Bounded 0 (host_of settings host)
  unfolding host_of
  host_of-Bounded host = Bounded-bind 0 0 _ _ (IsQuiet-Bounded _ (label-IsQuiet host 0)) (λ s.
      Bounded-bind 0 0 _ _ (IsQuiet-Bounded _ (label-IsQuiet host 3)) (λ s. search Bounded-pure))

  is_closed-Bounded :
      (reopen_state : String) (bug : Value)
      → Bounded 0 (is_closed python env settings reopen_state bug)
  unfolding is_closed
  is_closed-Bounded reopen_state bug with_state = elim (Bool-cases (is_empty reopen_state)) [
    | inl no_state ↦ rw no_state (Bounded-pure Bool.false with_state)
    | inr state ↦ rw state (
        Bounded-bind 0 0 _ _ (IsQuiet-Bounded _ (get_key-IsQuiet "is_open" bug))
          (λ v. search Bounded-pure) with_state)
  ]

  pub update_bug-Bounded :
      (key reopen_state : String) → Bounded 2 (update_bug python env settings key reopen_state)
  unfolding update_bug
  update_bug-Bounded key reopen_state = Bounded-bind 1 1 _ _ (Bounded-call_http env _) (λ response.
      Bounded-bind 0 1 _ _ (first_bug-Bounded response) (λ bug.
        Bounded-bind 0 1 _ _ (IsQuiet-Bounded _ (get_or_none-IsQuiet "id" bug)) (λ parent.
          Bounded-bind 0 1 _ _ (is_closed-Bounded reopen_state bug) (λ closed.
            Bounded-bind 1 0 _ _
              (Bounded-when 1 closed _
                (Bounded-bind 1 0 _ _ (Bounded-call_http env _) (λ answer. Bounded-pure tt)))
              (λ done. Bounded-pure parent)))))

  create_bug-Bounded : (content : String) → Bounded 1 (create_bug python env settings content)
  unfolding create_bug
  create_bug-Bounded content = Bounded-bind 1 0 _ _ (Bounded-call_http env _) (λ response.
      Bounded-bind 0 0 _ _ (Bounded-reply response.json)
        (λ created. IsQuiet-Bounded _ (get_or_none-IsQuiet "id" created)))

  find_tracker-Bounded : (host : Host) → Bounded 3 (find_tracker python env settings host)
  unfolding find_tracker create_or_update_bug
  find_tracker-Bounded host =
      Bounded-try 2 1 _ _ (update_bug-Bounded _ _) (λ e. create_bug-Bounded _)

  -- The keywords that were accepted are the pairs themselves, in their order.
  keywords-IsQuiet :
      (seen : List String) (kvs : List (String × String))
      → IsQuiet (keywords python env settings seen kvs)
  unfolding keywords
  keywords-IsQuiet seen [] t = (refl, tt)
  keywords-IsQuiet seen (kv ∷ kvs) t = ground (arith, keywords-IsQuiet (kv.0 ∷ seen) kvs t)

  reboot_payload-Bounded :
      (host : Host) (parent job_data : Value) (options : Options)
      → Bounded 0 (reboot_payload python env settings host parent job_data options)
  unfolding reboot_payload
  reboot_payload-Bounded host parent job_data options =
      Bounded-bind 0 0 _ _ (IsQuiet-Bounded _ (mapping_items-IsQuiet python env settings job_data))
        (λ job_items.
          Bounded-bind 0 0 _ _
            (IsQuiet-Bounded _
              (keywords-IsQuiet [] (mapping_of python env settings host parent job_items options)))
            (λ mapping. search Bounded-pure))

  loads_or_raise-IsQuiet : (text : String) → IsQuiet (loads_or_raise python env settings text)
  unfolding loads_or_raise
  loads_or_raise-IsQuiet text t = ground arith

  search_params-Bounded : (payload : String) → Bounded 0 (search_params python env settings payload)
  unfolding search_params
  search_params-Bounded payload =
      Bounded-bind 0 0 _ _ (IsQuiet-Bounded _ (loads_or_raise-IsQuiet payload)) (λ value.
        Bounded-bind 0 0 _ _ (IsQuiet-Bounded _ (get_items-IsQuiet value))
          (λ kvs. search Bounded-pure))

  pub find_bug-Bounded : (payload : String) → Bounded 1 (find_bug python env settings payload)
  unfolding find_bug
  find_bug-Bounded payload = Bounded-bind 0 1 _ _ (search_params-Bounded payload) (λ params.
      Bounded-bind 1 0 _ _ (Bounded-call_http env _) (λ response.
        Bounded-bind 0 0 _ _ (first_bug-Bounded response) (λ bug.
          Bounded-bind 0 0 _ _ (IsQuiet-Bounded _ (get_key-IsQuiet "id" bug)) (λ bug_id.
            Bounded-bind 0 0 _ _ (IsQuiet-Bounded _ (loads_or_raise-IsQuiet payload)) (λ content.
              Bounded-bind 0 0 _ _ (IsQuiet-Bounded _ (get_key-IsQuiet "description" content))
                (λ description. search Bounded-pure))))))

  file_bug-Bounded : (payload : String) → Bounded 1 (file_bug python env settings payload)
  unfolding file_bug
  file_bug-Bounded payload = Bounded-bind 1 0 _ _ (Bounded-call_http env _) (λ response.
      Bounded-bind 0 0 _ _ (Bounded-reply response.raise_for_status) (λ accepted.
        Bounded-bind 0 0 _ _ (Bounded-reply response.json) (λ created.
          Bounded-bind 0 0 _ _ (IsQuiet-Bounded _ (get_key-IsQuiet "id" created))
            (λ bug_id. search Bounded-pure))))

  confirm-Bounded :
      (parent : Value) (bug : Value × Fields) → Bounded 1 (confirm python env settings parent bug)
  unfolding confirm
  confirm-Bounded parent bug =
      Bounded-bind 1 0 _ _ (Bounded-call_http env _) (λ answer. search Bounded-pure)

  -- The command ends, with a message or an exception, and has made at most six calls: for the
  -- tracker a query, an update and a report, for the bug a query and a report, and one update.
  pub handle-Bounded :
      (hostname : String) (job_data : Value) (options : Options) (t : Trace)
      → Within 6 t (handle python env settings hostname job_data options t)
  unfolding handle find_or_file_bug
  handle-Bounded hostname job_data options t =
      Bounded-bind 0 6 _ _ (host_of-Bounded hostname)
        (λ host. Bounded-bind 3 3 _ _ (find_tracker-Bounded host) (λ parent.
          Bounded-bind 0 3 _ _ (reboot_payload-Bounded host parent job_data options) (λ payload.
            Bounded-bind 2 1 _ _
              (Bounded-try 1 1 _ _ (find_bug-Bounded payload) (λ e. file_bug-Bounded payload))
              (confirm-Bounded parent))))
        t

  host_of-short :
      (hostname : String) (t : Trace)
      → length (split b'.' hostname) ≤ 3
      → host_of settings hostname t ≡ (err (exn index_error "list index out of range"), t)
  unfolding host_of
  host_of-short hostname t h = elim (label-cases hostname 0 t) [
    | inl e ↦ rw e refl
    | inr (s, e) ↦ rw (e, label-none hostname 3 t (get_elem?-past (split b'.' hostname) 3 h)) refl
  ]

  -- A host name with fewer than four parts is refused before any call.
  pub handle-short_host :
      (hostname : String) (job_data : Value) (options : Options) (t : Trace)
      → length (split b'.' hostname) < 4
      → handle python env settings hostname job_data options t
        ≡ (err (exn index_error "list index out of range"), t)
  unfolding handle
  handle-short_host hostname job_data options t h = rw (host_of-short hostname t (omega arith)) refl
