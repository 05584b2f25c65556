-- ===== src/Api/Server/Laws.antt =====
-- Which requests to the server queue a job.
use relops_hardware_controll.Prelude.{
  ◌≡◌, ◌≢◌, ◌⊎◌, inl, inr, refl, ap, sym, ◌∙◌, String, ◌==◌, eq_iff, Bool-cases, Option, none, some,
  [], ◌∷◌, arith,
}
use relops_hardware_controll.Settings.{Settings}
use relops_hardware_controll.Effects.{Env, Trace, Outcome, ok, err, pending, M}
use relops_hardware_controll.Api.Authentication.{Request, TaskclusterUser, authenticate}
use relops_hardware_controll.Api.Decorators.{Response, add_cors, set_cors_headers}
use relops_hardware_controll.Api.Views.{
  Framework, queue_job_options, queue_job_create, queue_job_body, queue_job,
}
use relops_hardware_controll.Api.Views.Laws.{
  IsLawful, Queued, response-Refused, authenticate-ne-pending, queue_job_create-Queued,
}
use relops_hardware_controll.Api.Routes.{route}
use relops_hardware_controll.Api.Routes.Laws.{IsRoute, route_iff}
use relops_hardware_controll.Api.Server.{path_of, view_of, serve}

module _ (env : Env) (settings : Settings) (framework : Framework) (request : Request) where
  -- The trace behind the authentication.
  abbrev asked : Trace → Trace
  asked t = (authenticate env request t).1

  -- No call but the one to Taskcluster, and no answer 201.
  pub record Idle (o : Outcome Response × Trace) (t : Trace) : Type 0 where
    pub silent : (o.1 ≡ t) ⊎ (o.1 ≡ asked t)
    pub refused : (r : Response) → o.0 ≡ ok r → r.status ≢ 201

  -- A POST to the path of a worker, behind one authentication.
  pub record Served (t u : Trace) : Type 0 where
    pub worker_id : String
    pub routed : IsRoute (path_of request) worker_id
    pub post : request.method ≡ "POST"
    pub queued : Queued env settings framework request worker_id t u

  module _ (lawful : IsLawful settings framework) (worker_id : String) (t : Trace) where
    abbrev Verdict : Outcome Response × Trace → Type 0
    Verdict o =
        ((request.method ≡ "POST") × Queued env settings framework request worker_id t o.1)
        ⊎ Idle o t

    module _ (user : Option TaskclusterUser) (s : Trace)
        (auth : authenticate env request t ≡ (ok user, s)) where
      abbrev at : asked t ≡ s
      at = ap (λ (o : Outcome (Option TaskclusterUser) × Trace). o.1) auth

      Refused-Verdict :
          (o : Outcome Response × Trace)
          → (o.1 ≡ s) × ((r : Response) → o.0 ≡ ok r → r.status ≢ 201)
          → Verdict o
      Refused-Verdict o (silent, refused) =
          inr (record { silent = inr (silent ∙ sym at); refused = refused })

      create-Verdict :
          request.method ≡ "POST"
          → Verdict (queue_job_create env settings framework request worker_id user s)
      create-Verdict post =
          let other : request.method ≢ "OPTIONS" = λ options.
            (let same = (eq_iff "POST" "OPTIONS").1 (sym post ∙ options) in ground arith) in
          elim (queue_job_create-Queued env settings framework request worker_id lawful t s other
            user auth) [ inl queued ↦ inl (post, queued) | inr refused ↦ Refused-Verdict _ refused ]

      body-Verdict : Verdict (queue_job_body env settings framework request worker_id user s)
      unfolding queue_job_body queue_job_options
      body-Verdict = elim (Bool-cases (request.method == "OPTIONS")) [
        | inl options ↦
            rw (options, lawful.plain)
              (Refused-Verdict _ (response-Refused 200 "{}" s (omega arith)))
        | inr no_options ↦ elim (Bool-cases (request.method == "POST")) [
          | inl post ↦
              rw (no_options, post) (create-Verdict ((eq_iff request.method "POST").0 post))
          | inr no_post ↦
              rw (no_options, no_post)
                (Refused-Verdict _ (response-Refused 405 "{}" s (omega arith)))
        ]
      ]

    -- The headers change neither the trace nor the status.
    headers-Verdict :
        (func : M Response) (o : Outcome Response × Trace)
        → func t ≡ o
        → Verdict o
        → Verdict (set_cors_headers settings.cors_origin ("OPTIONS" ∷ "POST" ∷ []) func t)
    unfolding set_cors_headers add_cors
    headers-Verdict func (ok r, s) ran (inl served) = rw ran (inl served)
    headers-Verdict func (ok r, s) ran (inr idle) = rw ran (
        inr (record {
          silent = idle.silent;
          refused = λ q e. let h = idle.refused r refl in ground arith;
        }))
    headers-Verdict func (err e, s) ran (inl served) = rw ran (inl served)
    headers-Verdict func (err e, s) ran (inr idle) =
        rw ran (inr (record { silent = idle.silent; refused = λ q h. ground arith }))
    headers-Verdict func (pending, s) ran (inl served) = rw ran (inl served)
    headers-Verdict func (pending, s) ran (inr idle) =
        rw ran (inr (record { silent = idle.silent; refused = λ q h. ground arith }))

    abbrev view : M Response
    view =
        framework.dispatch (authenticate env request) []
          (queue_job_body env settings framework request worker_id)

    view-Verdict :
        (o : Outcome (Option TaskclusterUser) × Trace)
        → authenticate env request t ≡ o
        → Verdict (view t)
    view-Verdict (ok user, s) auth =
        let ran =
          lawful.allowed (authenticate env request) []
            (queue_job_body env settings framework request worker_id) user t s auth refl in
        rw ran (body-Verdict user s auth)
    view-Verdict (err e, s) auth =
        let at : asked t ≡ s = ap (λ (o : Outcome (Option TaskclusterUser) × Trace). o.1) auth in
        elim (lawful.unauthenticated (authenticate env request) []
          (queue_job_body env settings framework request worker_id) e t s auth) [
            | inl (r, ran, refused) ↦
                rw ran (inr (record { silent = inr (sym at); refused = λ q h. ground arith }))
            | inr raised ↦
                rw raised (inr (record { silent = inr (sym at); refused = λ q h. ground arith }))
          ]
    view-Verdict (pending, s) auth = absurd (authenticate-ne-pending env request t s auth)

    queue_job-Verdict : Verdict (queue_job env settings framework request worker_id t)
    unfolding queue_job
    queue_job-Verdict =
        headers-Verdict view (view t) refl (view-Verdict (authenticate env request t) refl)

  module _ (lawful : IsLawful settings framework) (not_found : String) (t : Trace) where
    view_of-Served :
        (found : Option String)
        → route (path_of request) ≡ found
        → Served t (view_of env settings framework not_found request found t).1
          ⊎ Idle (view_of env settings framework not_found request found t) t
    view_of-Served none missed =
        let (at, refused) = response-Refused 404 not_found t (omega arith) in
        inr (record { silent = inl at; refused = refused })
    view_of-Served (some worker_id) found = elim (queue_job-Verdict lawful worker_id t) [
      | inl (post, queued) ↦ inl (record {
        worker_id = worker_id;
        routed = (route_iff (path_of request) worker_id).0 found;
        post = post;
        queued = queued;
      })
      | inr idle ↦ inr idle
    ]

    -- Under a lawful framework, a request of any method to any path queues exactly one job, behind one
    -- authentication: a POST to the job list of a worker whose id has 1 to 128 allowed characters, by
    -- a user whom Taskcluster accepted and whose scopes cover the required ones, on a managed host or
    -- for a ping, with valid data. Or it makes no call but for one authentication at most, and is not
    -- answered by 201.
    pub serve-Served :
        Served t (serve env settings framework not_found request t).1
        ⊎ Idle (serve env settings framework not_found request t) t
    unfolding serve
    serve-Served = view_of-Served (route (path_of request)) refl
