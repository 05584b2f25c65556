-- ===== src/Api/Views/Laws.antt =====
-- views.py: which requests queue a job.
use relops_hardware_controll.Prelude.{
  ◌≡◌, ◌≢◌, ◌≤◌, ◌∙◌, ◌⊎◌, inl, inr, refl, ap, sym, subst, ℕ, String, ◌==◌, eq_iff, ◌&&◌, not, Bool,
  true, false, Bool-cases, Option, some, List, [], ◌∷◌, arith,
}
use relops_hardware_controll.Effects.{
  Env, Trace, Exn, Reply, returns, raises, Outcome, ok, err, pending, M, pure, delay,
}
use relops_hardware_controll.Settings.{Settings}
use relops_hardware_controll.Job.{JobData}
use relops_hardware_controll.Api.Authentication.{Request, TaskclusterUser, authenticate}
use relops_hardware_controll.Api.Authentication.Laws.{Accepted, authenticate-Accepted}
use relops_hardware_controll.Api.Decorators.{Response}
use relops_hardware_controll.Api.Serializers.{fields_hold}
use relops_hardware_controll.Api.Permissions.{has_permission}
use relops_hardware_controll.Api.Views.{
  Framework, response, job_of, queue, queue_if_valid, create_body, create_handler, is_authenticated,
  has_scopes, queue_job_create,
}

-- Every permission class lets the user in.
abbrev pub all_allow : List (Option TaskclusterUser → Bool) → Option TaskclusterUser → Bool
all_allow [] user = true
all_allow (p ∷ ps) user = p user && all_allow ps user

-- What the source relies on of Django REST framework.
pub record IsLawful (settings : Settings) (framework : Framework) : Type 0 where
  -- the handler runs for a user whom all permission classes let in
  pub allowed :
      (auth : M (Option TaskclusterUser)) (permissions : List (Option TaskclusterUser → Bool))
      (handler : Option TaskclusterUser → M Response) (user : Option TaskclusterUser) (t s : Trace)
      → auth t ≡ (ok user, s)
      → all_allow permissions user ≡ true
      → framework.dispatch auth permissions handler t ≡ handler user s
  -- any other user gets an error response, and the handler does not run
  pub denied :
      (auth : M (Option TaskclusterUser)) (permissions : List (Option TaskclusterUser → Bool))
      (handler : Option TaskclusterUser → M Response) (user : Option TaskclusterUser) (t s : Trace)
      → auth t ≡ (ok user, s)
      → all_allow permissions user ≡ false
      → (r : Response) × (framework.dispatch auth permissions handler t ≡ (ok r, s))
        × (400 ≤ r.status)
  -- an exception of the authenticator leads to an error response or to a server error
  pub unauthenticated :
      (auth : M (Option TaskclusterUser)) (permissions : List (Option TaskclusterUser → Bool))
      (handler : Option TaskclusterUser → M Response) (e : Exn) (t s : Trace)
      → auth t ≡ (err e, s)
      → ((r : Response) × (framework.dispatch auth permissions handler t ≡ (ok r, s))
          × (400 ≤ r.status))
        ⊎ (framework.dispatch auth permissions handler t ≡ (err e, s))
  -- a view with neither authenticator nor permission class runs its handler
  pub plain : (handler : M Response) (t : Trace) → framework.plain_dispatch handler t ≡ handler t
  -- validated data satisfies the validators of the fields
  pub validated :
      (d d' : JobData)
      → framework.validate d ≡ returns d'
      → fields_hold settings.task_names d' ≡ true

-- Why a job was queued, and that nothing else was done.
pub record Queued (env : Env) (settings : Settings) (framework : Framework) (request : Request)
    (worker_id : String) (t u : Trace) : Type 0 where
  pub user : TaskclusterUser
  pub asked : Trace
  pub accepted : Accepted env request user t asked
  pub in_scope : framework.scope_match user.scopes settings.required_scope_sets ≡ true
  pub managed :
      ((job_of request worker_id user).task_name ≡ "ping")
      ⊎ (settings.valid_worker_id worker_id ≡ true)
  pub job : JobData
  pub valid : framework.validate (job_of request worker_id user) ≡ returns job
  pub fields : fields_hold settings.task_names job ≡ true
  pub queued : u ≡ delay job ∷ asked

-- No call was made behind a trace, and the answer does not say that a job was created.
abbrev pub Refused : Outcome Response × Trace → Trace → Type 0
Refused o s = (o.1 ≡ s) × ((r : Response) → o.0 ≡ ok r → r.status ≢ 201)

pub response-Refused :
    (status : ℕ) (body : String) (s : Trace)
    → status ≢ 201
    → Refused (ok (response status body), s) s
response-Refused status body s h = (refl, λ r e. ground arith)

pub authenticate-ne-pending :
    (env : Env) (request : Request) (t s : Trace) → authenticate env request t ≢ (pending, s)
unfolding authenticate
authenticate-ne-pending env request t s h = ground arith

module _ (env : Env) (settings : Settings) (framework : Framework) (request : Request)
    (worker_id : String) where
  IsManaged : TaskclusterUser → Type 0
  IsManaged user =
      ((job_of request worker_id user).task_name ≡ "ping")
      ⊎ (settings.valid_worker_id worker_id ≡ true)

  guard-IsManaged :
      (user : TaskclusterUser)
      → (not ((job_of request worker_id user).task_name == "ping")
          && not (settings.valid_worker_id worker_id))
        ≡ false
      → IsManaged user
  unfolding IsManaged
  guard-IsManaged user h = elim (Bool-cases (settings.valid_worker_id worker_id)) [
    | inl valid ↦ inr valid
    | inr invalid ↦ inl (ground (arith, eq_iff (job_of request worker_id user).task_name "ping"))
  ]

  BodyQueued : TaskclusterUser → Trace → Trace → Type 0
  BodyQueued user s u =
      IsManaged user
      × ((job : JobData) × (framework.validate (job_of request worker_id user) ≡ returns job)
          × (u ≡ delay job ∷ s))

  queue_if_valid_cases :
      (user : TaskclusterUser) (s : Trace) (reply : Reply JobData)
      → IsManaged user
      → framework.validate (job_of request worker_id user) ≡ reply
      → BodyQueued user s (queue_if_valid env settings framework reply s).1
        ⊎ Refused (queue_if_valid env settings framework reply s) s
  unfolding BodyQueued queue
  queue_if_valid_cases user s (returns job) managed h = inl (managed, (job, h, ground arith))
  queue_if_valid_cases user s (raises e) managed h =
      inr (response-Refused 400 e.message s (omega arith))

  create_body_cases :
      (user : TaskclusterUser) (s : Trace)
      → BodyQueued user s (create_body env settings framework request worker_id user s).1
        ⊎ Refused (create_body env settings framework request worker_id user s) s
  unfolding create_body
  create_body_cases user s =
      let job = job_of request worker_id user in
      elim (Bool-cases
        (not (job.task_name == "ping") && not (settings.valid_worker_id worker_id))) [
          | inl unmanaged ↦
              rw unmanaged (inr (response-Refused 404 "Not a managed host." s (omega arith)))
          | inr managed ↦ rw managed (
              queue_if_valid_cases user s (framework.validate job) (guard-IsManaged user managed)
                refl)
        ]

  permissions : List (Option TaskclusterUser → Bool)
  permissions = is_authenticated env settings framework ∷ has_scopes env settings framework ∷ []

  scopes_of :
      (user : TaskclusterUser)
      → all_allow permissions (some user) ≡ true
      → framework.scope_match user.scopes settings.required_scope_sets ≡ true
  unfolding permissions has_permission
  scopes_of user h = ground arith

  module _ (lawful : IsLawful settings framework) (t s : Trace)
      (other : request.method ≢ "OPTIONS") where
    abbrev run : Option TaskclusterUser → Outcome Response × Trace
    run user = queue_job_create env settings framework request worker_id user s

    abbrev Verdict : Option TaskclusterUser → Type 0
    Verdict user =
        Queued env settings framework request worker_id t (run user).1 ⊎ Refused (run user) s

    let_in :
        (user : TaskclusterUser)
        → Accepted env request user t s
        → all_allow permissions (some user) ≡ true
        → Verdict (some user)
    unfolding queue_job_create permissions BodyQueued IsManaged
    let_in user accepted allow =
        let ran =
          lawful.allowed (pure (some user)) permissions
            (create_handler env settings framework request worker_id) (some user) s s refl allow in
        elim (create_body_cases user s) [
          | inl (managed, (job, valid, queued)) ↦ inl (record {
            user = user;
            asked = s;
            accepted = accepted;
            in_scope = scopes_of user allow;
            managed = managed;
            job = job;
            valid = valid;
            fields = lawful.validated _ job valid;
            queued = ap (λ (o : Outcome Response × Trace). o.1) ran ∙ queued;
          })
          | inr (silent, refused) ↦ inr (rw ran (silent, refused))
        ]

    -- For a user whom Taskcluster accepted and whose scopes cover the required ones, on a managed host
    -- or for a ping, with valid data, exactly one job is queued; for any other no call is made, and
    -- the answer is not 201.
    pub queue_job_create-Queued :
        (user : Option TaskclusterUser) → authenticate env request t ≡ (ok user, s) → Verdict user
    unfolding queue_job_create permissions
    queue_job_create-Queued user auth = elim (Bool-cases (all_allow permissions user)) [
      | inl allow ↦
          let (v, is_v, accepted) = authenticate-Accepted env request t s user other auth in
          subst Verdict (sym is_v) (let_in v accepted (rw is_v at allow))
      | inr deny ↦
          let (r, ran, refused) =
            lawful.denied (pure user) permissions
              (create_handler env settings framework request worker_id) user s s refl deny in
          inr (rw ran (refl, λ q e. ground arith))
    ]
