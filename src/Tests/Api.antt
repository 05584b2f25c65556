-- ===== src/Tests/Api.antt =====
-- A POST request for a ping, under a framework that is written out.
use relops_hardware_controll.Prelude.{
  ◌≡◌, ◌≢◌, refl, subst, eq_iff, ◌⊎◌, inl, Bool, true, false, Option, some, List, [], ◌∷◌,
  if◌then◌else◌, arith, contains, length,
}
use relops_hardware_controll.Effects.{
  Trace, exn, exception, Reply, raises, returns, Outcome, ok, err, pending, M, hawk,
}
use relops_hardware_controll.Job.{JobData}
use relops_hardware_controll.Api.Authentication.{Request, TaskclusterUser, payload_of, authenticate}
use relops_hardware_controll.Api.Authentication.Laws.{Accepted, authenticate-Accepted}
use relops_hardware_controll.Api.Decorators.{Response, add_cors}
use relops_hardware_controll.Api.Serializers.{fields_hold}
use relops_hardware_controll.Api.Views.{Framework, response, job_of, queue_job}
use relops_hardware_controll.Api.Views.Laws.{all_allow, IsLawful}
use relops_hardware_controll.Api.Server.{serve}
use relops_hardware_controll.Api.Server.Laws.{Served, Idle, serve-Served}
use relops_hardware_controll.Api.Decorators.Laws.{HasCors}
use relops_hardware_controll.Api.Views.Cors.{queue_job-HasCors}
use relops_hardware_controll.Tests.Sample.{env, settings}

abbrev judge :
    List (Option TaskclusterUser → Bool)
    → (Option TaskclusterUser → M Response)
    → Outcome (Option TaskclusterUser) × Trace
    → Outcome Response × Trace
judge permissions handler (ok user, s) =
    if all_allow permissions user then handler user s else (ok (response 403 "{}"), s)
judge permissions handler (err e, s) = (ok (response 401 "{}"), s)
judge permissions handler (pending, s) = (pending, s)

abbrev validate : JobData → Bool → Reply JobData
validate d true = returns d
validate d false = raises (exn exception "{}")

abbrev framework : Framework
framework = record {
  dispatch = λ auth permissions handler t. judge permissions handler (auth t);
  plain_dispatch = λ handler. handler;
  validate = λ d. validate d (fields_hold settings.task_names d);
  render = λ d task_id. task_id;
  scope_match = λ scopes sets. contains scopes "project:releng:roller:ping";
}

validate_holds :
    (d d' : JobData) (b : Bool)
    → fields_hold settings.task_names d ≡ b
    → validate d b ≡ returns d'
    → fields_hold settings.task_names d' ≡ true
validate_holds d d' true h e =
    let same : d ≡ d' = ground arith in subst (λ x. fields_hold settings.task_names x ≡ true) same h
validate_holds d d' false h e = ground arith

framework-IsLawful : IsLawful settings framework
framework-IsLawful = record {
  allowed = λ auth permissions handler user t s h allow. rw (h, allow) refl;
  denied = λ auth permissions handler user t s h deny.
      (response 403 "{}", rw (h, deny) refl, omega arith);
  unauthenticated =
      λ auth permissions handler e t s h. inl (response 401 "{}", rw h refl, omega arith);
  plain = λ handler t. refl;
  validated = λ d d' h. validate_holds d d' (fields_hold settings.task_names d) refl h;
}

abbrev request : Request
request = record {
  method = "POST";
  path_info = "/api/v1/workers/t-1/jobs";
  full_path = "/api/v1/workers/t-1/jobs?task_name=ping";
  host = "roller.example";
  port = 8000;
  authorization = some "Hawk id";
  forwarded_proto = some "https";
  http_origin = some "https://tools.taskcluster.net";
  params = ("task_name", "ping") ∷ [];
}

post-ne-options : request.method ≢ "OPTIONS"
post-ne-options h = let same : false ≡ true = (eq_iff "POST" "OPTIONS").1 h in ground arith

serve-Served_example :
    Served env settings framework request [] (serve env settings framework "gone" request []).1
    ⊎ Idle env settings framework request (serve env settings framework "gone" request []) []
serve-Served_example = serve-Served env settings framework request framework-IsLawful "gone" []

-- The request above is answered by 201.
serve_test :
    (serve env settings framework "gone" request []).0
    ≡ ok (add_cors "" ("OPTIONS" ∷ "POST" ∷ []) (response 201 "done"))
unfolding serve fields_hold
serve_test = refl

-- It is authenticated once, then queued.
serve_calls : length (serve env settings framework "gone" request []).1 ≡ 2
unfolding serve fields_hold
serve_calls = refl

abbrev user : TaskclusterUser
user = record {
  client_id = "mozilla-ldap/jdoe@mozilla.com";
  scopes = "project:releng:roller:ping" ∷ [];
  is_authenticated = true;
}

-- Of a key that stands twice the last value counts.
repeated_key :
    (job_of
      (record request { params = ("task_name", "reboot") ∷ ("task_name", "ping") ∷ [] })
      "T-1"
      user).task_name
    ≡ "ping"
unfolding job_of
repeated_key = refl

authenticate-Accepted_example :
    (v : TaskclusterUser) × (some user ≡ some v)
    × Accepted env request v [] (hawk (payload_of request) ∷ [])
unfolding authenticate
authenticate-Accepted_example =
    authenticate-Accepted env request [] (hawk (payload_of request) ∷ []) (some user)
      post-ne-options refl

abbrev preflight : Request
preflight = record request { method = "OPTIONS" }

-- A method that the view does not know is answered by 405, with the headers.
abbrev unknown_answer : Response
unknown_answer = add_cors "" ("OPTIONS" ∷ "POST" ∷ []) (response 405 "{}")

queue_job-HasCors_example : HasCors "" ("OPTIONS" ∷ "POST" ∷ []) unknown_answer
unfolding queue_job
queue_job-HasCors_example =
    queue_job-HasCors env settings framework (record request { method = "PUT" }) "t-1" []
      (hawk (payload_of (record request { method = "PUT" })) ∷ []) unknown_answer refl
