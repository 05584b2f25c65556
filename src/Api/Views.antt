-- ===== src/Api/Views.antt =====
-- relops_hardware_controller/api/views.py. Django REST framework's dispatch and the run of a
-- serializer's validators are parameters.
pub mod Laws
pub mod Cors
use relops_hardware_controll.Prelude.{
  ℕ, String, ◌<>◌, ◌==◌, Bool, true, false, not, ◌&&◌, Option, none, some, List, [], ◌∷◌, lower,
  lookup_last, if◌then◌else◌,
}
use relops_hardware_controll.Effects.{
  Env, attribute_error, Reply, returns, raises, exn, M, pure, raise, ◌>>=◌, delay, call_text,
}
use relops_hardware_controll.Settings.{Settings}
use relops_hardware_controll.Job.{JobData}
use relops_hardware_controll.Api.Authentication.{
  Request, TaskclusterUser, authenticate, get_default,
}
use relops_hardware_controll.Api.Permissions.{ScopeMatch, has_permission}
use relops_hardware_controll.Api.Decorators.{Response, set_cors_headers}

-- The libraries that the views stand on.
pub record Framework : Type 0 where
  -- `APIView.dispatch`: the authenticator, the permission classes and the handler
  pub dispatch :
      M (Option TaskclusterUser)
      → List (Option TaskclusterUser → Bool)
      → (Option TaskclusterUser → M Response)
      → M Response
  -- the same for a view with no authenticator
  pub plain_dispatch : M Response → M Response
  -- `JobSerializer(data=...)`: the validated data, or the errors
  pub validate : JobData → Reply JobData
  -- the text of `serializer.data` with the task's id
  pub render : JobData → String → String
  pub scope_match : ScopeMatch

abbrev pub response : ℕ → String → Response
response status body = record { status = status; body = body; headers = [] }

-- The serializer's data. `QueryDict.get` gives the last value of a key.
unfoldable pub job_of : Request → String → TaskclusterUser → JobData
unfolding lower
job_of request worker_id user = record {
  http_origin = get_default request.http_origin "";
  client_id = user.client_id;
  provisioner_id = get_default (lookup_last "provisioner_id" request.params) "";
  worker_type = get_default (lookup_last "worker_type" request.params) "";
  worker_group = get_default (lookup_last "worker_group" request.params) "none";
  worker_id = lower worker_id;
  task_name = get_default (lookup_last "task_name" request.params) "";
  ip = "";
}

module _ (env : Env) (settings : Settings) (framework : Framework) where
  -- `celery_call_command.delay` and the response.
  unfoldable pub queue : JobData → M Response
  queue job = do
    task_id ← call_text env (delay job)
    pure (response 201 (framework.render job task_id))

  abbrev pub queue_if_valid : Reply JobData → M Response
  queue_if_valid (returns job) = queue job
  queue_if_valid (raises errors) = pure (response 400 errors.message)

  -- The match of VALID_WORKER_ID_REGEX.
  abbrev pub is_managed_host : String → Bool
  is_managed_host worker_id = settings.valid_worker_id worker_id

  -- The body of `queue_job_create`.
  unfoldable pub create_body : Request → String → TaskclusterUser → M Response
  unfolding queue job_of
  create_body request worker_id user =
      let job = job_of request worker_id user in
      if not (job.task_name == "ping") && not (is_managed_host worker_id)
      then pure (response 404 "Not a managed host.")
      else queue_if_valid (framework.validate job)

  -- `request.user` is `None` only for a request with the method OPTIONS.
  abbrev pub create_handler : Request → String → Option TaskclusterUser → M Response
  create_handler request worker_id none =
      raise (exn attribute_error "'NoneType' object has no attribute 'client_id'")
  create_handler request worker_id (some user) = create_body request worker_id user

  -- `IsAuthenticated`
  abbrev pub is_authenticated : Option TaskclusterUser → Bool
  is_authenticated none = false
  is_authenticated (some user) = user.is_authenticated

  -- `HasTaskclusterScopes`; it stands behind `IsAuthenticated`, which refuses `None`.
  abbrev pub has_scopes : Option TaskclusterUser → Bool
  has_scopes none = false
  has_scopes (some user) = has_permission framework.scope_match user settings.required_scope_sets

  -- The view is called with the request of the outer view. The one that Django REST framework wraps
  -- around it has the user of the inner one, so nobody is authenticated again.
  unfoldable pub queue_job_create : Request → String → Option TaskclusterUser → M Response
  unfolding create_body has_permission
  queue_job_create request worker_id user =
      framework.dispatch (pure user) (is_authenticated ∷ has_scopes ∷ [])
        (create_handler request worker_id)

  unfoldable pub queue_job_options : M Response
  queue_job_options = framework.plain_dispatch (pure (response 200 "{}"))

  -- The outer view's body, then the header decorator.
  unfoldable pub queue_job_body : Request → String → Option TaskclusterUser → M Response
  unfolding queue_job_create queue_job_options
  queue_job_body request worker_id user =
      if request.method == "OPTIONS"
      then queue_job_options
      else if request.method == "POST"
      then queue_job_create request worker_id user
      else pure (response 405 "{}")

  -- The outer view authenticates, and has no permission class of its own.
  unfoldable pub queue_job : Request → String → M Response
  unfolding queue_job_body set_cors_headers authenticate
  queue_job request worker_id =
      set_cors_headers settings.cors_origin ("OPTIONS" ∷ "POST" ∷ [])
        (framework.dispatch (authenticate env request) [] (queue_job_body request worker_id))
