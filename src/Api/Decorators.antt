-- ===== src/Api/Decorators.antt =====
-- relops_hardware_controller/api/decorators.py
pub mod Laws
use relops_hardware_controll.Prelude.{
  ℕ, String, ◌==◌, List, [], ◌∷◌, join, some, Option, none, if◌then◌else◌, contains,
}
use relops_hardware_controll.Effects.{M, pure, ◌>>=◌}

-- A response; the body is the payload's text.
pub record Response : Type 0 where
  pub status : ℕ
  pub body : String
  pub headers : List (String × String)

-- `response[name] = value`
unfoldable pub set_header : String → String → List (String × String) → List (String × String)
set_header name value [] = (name, value) ∷ []
set_header name value ((n, v) ∷ headers) =
    if n == name then (name, value) ∷ headers else (n, v) ∷ set_header name value headers

unfoldable pub add_cors : String → List String → Response → Response
unfolding set_header join
add_cors origin methods response = record response {
  headers = set_header "Access-Control-Allow-Methods" (join "," methods) (
      set_header "Access-Control-Allow-Headers" "Authorization,Content-Type"
        (set_header "Access-Control-Allow-Origin" origin response.headers));
}

unfoldable pub set_cors_headers : String → List String → M Response → M Response
unfolding add_cors
set_cors_headers origin methods func = do response ← func; pure (add_cors origin methods response)

-- The attributes of a view's class.
pub record ViewClass : Type 0 where
  pub authentication_classes : List String
  pub required_taskcluster_scope_sets : List (List String)

-- `none` where the assertion fails.
unfoldable pub require_taskcluster_scope_sets : List (List String) → ViewClass → Option ViewClass
require_taskcluster_scope_sets scope_sets view =
    if contains view.authentication_classes "TaskclusterAuthentication"
    then some (record view { required_taskcluster_scope_sets = scope_sets })
    else none
