-- ===== src/Api/Views/Cors.antt =====
-- views.py: what a browser gets that asks from another origin.
use relops_hardware_controll.Prelude.{◌≡◌, String, [], ◌∷◌}
use relops_hardware_controll.Effects.{Env, Trace, ok}
use relops_hardware_controll.Settings.{Settings}
use relops_hardware_controll.Api.Authentication.{Request, authenticate}
use relops_hardware_controll.Api.Decorators.{Response}
use relops_hardware_controll.Api.Decorators.Laws.{HasCors, set_cors_headers-HasCors}
use relops_hardware_controll.Api.Views.{Framework, queue_job_body, queue_job}

module _ (env : Env) (settings : Settings) (framework : Framework) (request : Request)
    (worker_id : String) (t : Trace) where
  -- Every answer of the API has the headers, errors included.
  pub queue_job-HasCors :
      (u : Trace) (answer : Response)
      → queue_job env settings framework request worker_id t ≡ (ok answer, u)
      → HasCors settings.cors_origin ("OPTIONS" ∷ "POST" ∷ []) answer
  unfolding queue_job
  queue_job-HasCors u answer h =
      (set_cors_headers-HasCors settings.cors_origin ("OPTIONS" ∷ "POST" ∷ [])
        (framework.dispatch (authenticate env request) []
          (queue_job_body env settings framework request worker_id))
        t u answer h).0
