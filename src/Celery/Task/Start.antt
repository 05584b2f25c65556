-- ===== src/Celery/Task/Start.antt =====
-- celery.py: the task up to the command's call, and as a whole.
use relops_hardware_controll.Prelude.{
  ◌≡◌, refl, ◌∙◌, upper, Option-cases, Bool-cases, ◌⊎◌, inl, inr, String, ◌<>◌, List, [], ◌∷◌,
  Option, none, some, true, false, not, eqb, all_chars, split, contains, get_elem?, arith,
}
use relops_hardware_controll.Effects.{
  Env, Trace, Exn, exn, index_error, attribute_error, module_not_found, Reply, ok, err, Outcome,
  dns, level, returns, raises,
}
use relops_hardware_controll.Settings.{Settings}
use relops_hardware_controll.Job.{JobData}
use relops_hardware_controll.Commands.Runner.{Runner, IsSound}
use relops_hardware_controll.Celery.Username.{username}
use relops_hardware_controll.Celery.Task.{
  command_modules, task_of, datacenter_of, load_command_class, username_of, show_ip, dns_lookup,
  announce, subject_of, celery_call_command,
}
use relops_hardware_controll.Celery.Task.Laws.{run_and_report_total}

-- A step that makes no call gives a result or raises.
abbrev Settled : {A : Type 0} → Outcome A × Trace → Trace → Type 0
Settled {A} r t = ((a : A) × (r ≡ (ok a, t))) ⊎ ((e : Exn) × (r ≡ (err e, t)))

module _ (env : Env) (worker_id : String) (t : Trace) where
  dns_lookup_failed :
      (e : Exn)
      → env.dns_reply (dns worker_id ∷ t) ≡ raises e
      → dns_lookup env worker_id t ≡ (ok (worker_id, none), dns worker_id ∷ t)
  unfolding dns_lookup
  dns_lookup_failed e h = rw h

  dns_lookup_found :
      (hostname ip : String)
      → env.dns_reply (dns worker_id ∷ t) ≡ returns (hostname, ip)
      → dns_lookup env worker_id t ≡ (ok (hostname, some ip), dns worker_id ∷ t)
  unfolding dns_lookup
  dns_lookup_found hostname ip h = rw h

  dns_lookup_total :
      (found : String × Option String) × (dns_lookup env worker_id t
        ≡ (ok found, dns worker_id ∷ t))
  dns_lookup_total = go (env.dns_reply (dns worker_id ∷ t)) refl
    where
      go :
          (r : Reply (String × String))
          → env.dns_reply (dns worker_id ∷ t) ≡ r
          → (found : String × Option String) × (dns_lookup env worker_id t
              ≡ (ok found, dns worker_id ∷ t))
      go (returns (hostname, ip)) h = ((hostname, some ip), dns_lookup_found hostname ip h)
      go (raises e) h = ((worker_id, none), dns_lookup_failed e h)

datacenter_of_found :
    (hostname label : String) (t : Trace)
    → get_elem? (split b'.' hostname) 3 ≡ some label
    → datacenter_of hostname t ≡ (ok (upper label), t)
unfolding datacenter_of
datacenter_of_found hostname label t h = rw (h, datacenter_of)

datacenter_of_missing :
    (hostname : String) (t : Trace)
    → get_elem? (split b'.' hostname) 3 ≡ none
    → datacenter_of hostname t ≡ (err (exn index_error "list index out of range"), t)
unfolding datacenter_of
datacenter_of_missing hostname t h = rw (h, datacenter_of)

datacenter_of-Settled : (hostname : String) (t : Trace) → Settled (datacenter_of hostname t) t
datacenter_of-Settled hostname t = elim (Option-cases (get_elem? (split b'.' hostname) 3)) [
  | inl h ↦ inr (_, datacenter_of_missing hostname t h)
  | inr (label, h) ↦ inl (_, datacenter_of_found hostname label t h)
]

load_known :
    (task : String) (t : Trace)
    → contains command_modules task ≡ true
    → load_command_class task t ≡ (ok tt, t)
unfolding load_command_class
load_known task t h = ground arith

load_unknown :
    (task : String) (t : Trace)
    → contains command_modules task ≡ false
    → (e : Exn) × (load_command_class task t ≡ (err e, t))
unfolding load_command_class
load_unknown task t h = (
  exn module_not_found
      ("No module named 'relops_hardware_controller.api.management.commands." <> task <> "'"),
  ground arith,
)

load_command_class-Settled : (task : String) (t : Trace) → Settled (load_command_class task t) t
load_command_class-Settled task t = elim (Bool-cases (contains command_modules task)) [
  | inl h ↦ inl (tt, load_known task t h)
  | inr h ↦ inr (load_unknown task t h)
]

username_of_known :
    (job : JobData) (name : String) (t : Trace)
    → username job.client_id ≡ some name
    → username_of job t ≡ (ok name, t)
unfolding username_of
username_of_known job name t h = rw (h, username_of)

username_of_unknown :
    (job : JobData) (t : Trace)
    → username job.client_id ≡ none
    → (e : Exn) × (username_of job t ≡ (err e, t))
unfolding username_of
username_of_unknown job t h =
    (exn attribute_error "'NoneType' object has no attribute 'group'", rw (h, username_of))

username_of-Settled : (job : JobData) (t : Trace) → Settled (username_of job t) t
username_of-Settled job t = elim (Option-cases (username job.client_id)) [
  | inl h ↦ inr (username_of_unknown job t h)
  | inr (name, h) ↦ inl (name, username_of_known job name t h)
]

split_plain : (s : String) → all_chars (λ c. not (eqb c b'.')) s ≡ true → split b'.' s ≡ s ∷ []
unfolding split all_chars
split_plain String.[] h = refl
split_plain (String.◌∷◌ c s) h = ground (arith, split_plain s)

module _ (env : Env) (runner : Runner) (settings : Settings) where
  announce_total :
      (task subject name : String) (t : Trace)
      → (u : Trace) × (announce env runner settings task subject name t ≡ (ok tt, u))
        × (level env u ≡ level env t)
  unfolding announce
  announce_total task subject name t =
      ((announce env runner settings task subject name t).1, ground arith, ground arith)

  -- If the DNS lookup fails, the fallback to the worker id never helps: a worker id without a dot
  -- has no fourth label, so the task raises `IndexError`, with no message sent and no command run.
  pub celery_call_command_unresolved :
      (job : JobData) (e : Exn) (t : Trace)
      → all_chars (λ c. not (eqb c b'.')) job.worker_id ≡ true
      → env.dns_reply (dns job.worker_id ∷ t) ≡ raises e
      → celery_call_command env runner settings job t
        ≡ (err (exn index_error "list index out of range"), dns job.worker_id ∷ t)
  unfolding celery_call_command
  celery_call_command_unresolved job e t plain failed =
      let short : get_elem? (split b'.' job.worker_id) 3 ≡ none =
        rw (split_plain job.worker_id plain) in
      rw (
        dns_lookup_failed env job.worker_id t e failed,
        datacenter_of_missing job.worker_id _ short,
      )

  -- A job whose client id the regular expression does not match, or whose task has no module, raises
  -- after the DNS lookup, with no message sent and no command run.
  pub celery_call_command_refused :
      (job : JobData) (t : Trace)
      → (username job.client_id ≡ none) ⊎ (contains command_modules (task_of job.task_name) ≡ false)
      → (e : Exn) × (celery_call_command env runner settings job t ≡ (err e, dns job.worker_id ∷ t))
  unfolding celery_call_command
  celery_call_command_refused job t reason =
      let u = dns job.worker_id ∷ t in
      let (found, looked_up) = dns_lookup_total env job.worker_id t in
      elim (datacenter_of-Settled found.0 u) [
        | inr (e, unlabelled) ↦ (e, rw (looked_up, unlabelled))
        | inl (label, labelled) ↦ elim (load_command_class-Settled (task_of job.task_name) u) [
          | inr (e, unloaded) ↦ (e, rw (looked_up, labelled, unloaded))
          | inl (_, loaded) ↦ elim reason [
            | inl unmatched ↦
                let (e, unnamed) =
                  username_of_unknown (record job { ip = show_ip found.1 }) u unmatched in
                (e, rw (looked_up, labelled, loaded, unnamed))
            | inr unknown ↦
                let (e, unloaded) = load_unknown (task_of job.task_name) u unknown in
                (e, rw (looked_up, labelled, unloaded))
          ]
        ]
      ]

  -- If the commands end, and leave the log level as it is, then the log level is the same at the end
  -- as at the start, whether the task gives its result or raises.
  pub celery_call_command-level :
      (job : JobData) (t : Trace)
      → IsSound runner
      → ((name : String) (args : List String) (s : Trace)
          → level env (runner.call name args s).1 ≡ level env s)
      → level env (celery_call_command env runner settings job t).1 ≡ level env t
  unfolding celery_call_command
  celery_call_command-level job t sound keeps =
      let u = dns job.worker_id ∷ t in
      let task = task_of job.task_name in
      let (found, looked_up) = dns_lookup_total env job.worker_id t in
      let job' = record job { ip = show_ip found.1 } in
      elim (datacenter_of-Settled found.0 u) [
        | inr (e, unlabelled) ↦ rw (looked_up, unlabelled)
        | inl (label, labelled) ↦ elim (load_command_class-Settled task u) [
          | inr (e, unloaded) ↦ rw (looked_up, labelled, unloaded)
          | inl (_, loaded) ↦ elim (username_of-Settled job' u) [
            | inr (e, unnamed) ↦ rw (looked_up, labelled, loaded, unnamed)
            | inl (name, named) ↦
                let subject = subject_of label job' job.task_name in
                let (announced, told, kept) = announce_total task subject name u in
                let (done, ran, restored) =
                  run_and_report_total env runner settings task found.0 subject name (env.utc_iso u)
                    job' announced (sound.finishes _ _ _) in
                rw (looked_up, labelled, loaded, named, told, ran) (restored ∙ keeps _ _ _ ∙ kept)
          ]
        ]
      ]

  -- If the commands end, a job whose host name is resolved and has four labels or more, whose task
  -- has a module and whose client id the regular expression matches is done: the task gives its
  -- result, whatever the command or a notification raises.
  pub celery_call_command_total :
      (job : JobData) (hostname ip label name : String) (t : Trace)
      → IsSound runner
      → env.dns_reply (dns job.worker_id ∷ t) ≡ returns (hostname, ip)
      → get_elem? (split b'.' hostname) 3 ≡ some label
      → contains command_modules (task_of job.task_name) ≡ true
      → username job.client_id ≡ some name
      → (u : Trace) × (celery_call_command env runner settings job t ≡ (ok tt, u))
  unfolding celery_call_command
  celery_call_command_total job hostname ip label name t sound found labelled known named =
      let u = dns job.worker_id ∷ t in
      let named' = record job { ip = ip } in
      let task = task_of job.task_name in
      let subject = subject_of (upper label) named' job.task_name in
      let (announced, told, kept) = announce_total task subject name u in
      let (done, ran, restored) =
        run_and_report_total env runner settings task hostname subject name (env.utc_iso u) named'
          announced (sound.finishes _ _ _) in
      (
        done,
        rw
            (
              dns_lookup_found env job.worker_id t hostname ip found,
              datacenter_of_found hostname label u labelled,
              load_known task u known,
              username_of_known named' name u named,
              told,
            )
            ran,
      )
