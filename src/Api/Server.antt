-- ===== src/Api/Server.antt =====
-- relops_hardware_controller/urls.py and relops_hardware_controller/api/urls.py: the route's view for
-- a request.
pub mod Laws
use relops_hardware_controll.Prelude.{String, Option, none, some, drop}
use relops_hardware_controll.Settings.{Settings}
use relops_hardware_controll.Effects.{Env, M, pure}
use relops_hardware_controll.Api.Authentication.{Request}
use relops_hardware_controll.Api.Decorators.{Response}
use relops_hardware_controll.Api.Views.{Framework, response, queue_job}
use relops_hardware_controll.Api.Routes.{route}

-- The path without its first slash.
unfoldable pub path_of : Request → String
unfolding drop
path_of request = drop 1 request.path_info

module _ (env : Env) (settings : Settings) (framework : Framework) where
  -- `not_found` is the text of Django's answer to a path that no route matches.
  abbrev pub view_of : String → Request → Option String → M Response
  view_of not_found request none = pure (response 404 not_found)
  view_of not_found request (some worker_id) = queue_job env settings framework request worker_id

  unfoldable pub serve : String → Request → M Response
  unfolding path_of route queue_job
  serve not_found request = view_of not_found request (route (path_of request))
