-- ===== src/Tests/Config.antt =====
-- The routes, the resolver's domains and the configurations.
use relops_hardware_controll.Prelude.{
  ◌≡◌, ◌↔◌, refl, some, none, [], ◌∷◌, is_empty, ◌≤◌, ◌*◌, arith,
}
use relops_hardware_controll.Api.Routes.{route}
use relops_hardware_controll.Api.Routes.Laws.{IsRoute, route_iff}
use relops_hardware_controll.Celery.Search.{search_domains}
use relops_hardware_controll.Settings.{base_settings}
use relops_hardware_controll.Settings.Classes.{test_settings}
use relops_hardware_controll.Settings.Services.{Cache, default_redis_url, celery_settings, caches}
use relops_hardware_controll.Effects.{ok, redis_connection, redis_info}
use relops_hardware_controll.Apps.{ready}
use relops_hardware_controll.Tests.Sample.{env, config}

abbrev fake_cache : Cache
fake_cache = record {
  backend = "django.core.cache.backends.locmem.LocMemCache";
  location = "";
  compressor = "";
  serializer = "";
}

routes :
    (route "api/v1/workers/t-linux64-ms-001/jobs" ≡ some "t-linux64-ms-001")
    × (route "api/v1/workers/t-1/jobs\n" ≡ some "t-1")
    × (route "api/v1/workers/t-1/jobs/" ≡ none)
    × (route "api/v1/workers//jobs" ≡ none)
    × (route "workers/t-1/jobs" ≡ none)
    × (route "api/v1/workers/t-1.mozilla.com/jobs" ≡ none)
    × (route "api/v1/workers/dummy-worker-id/group/dummy-worker-group/jobs" ≡ none)
unfolding route is_empty
routes = (refl, refl, refl, refl, refl, refl, refl)

route_iff_example :
    (route "api/v1/workers/t-1/jobs" ≡ some "t-1") ↔ IsRoute "api/v1/workers/t-1/jobs" "t-1"
route_iff_example = route_iff "api/v1/workers/t-1/jobs" "t-1"

seven_domains :
    search_domains
    ≡ "" ∷ "test.releng.mdc1.mozilla.com" ∷ "test.releng.mdc2.mozilla.com"
      ∷ "test.releng.scl3.mozilla.com" ∷ "wintest.releng.mdc1.mozilla.com"
      ∷ "wintest.releng.mdc2.mozilla.com" ∷ "wintest.releng.scl3.mozilla.com" ∷ []
seven_domains = refl

-- Not the scope of `Base`.
ping_scopes :
    (test_settings config).required_scope_sets
    ≡ ("project:relops-hardware-controller:ping" ∷ []) ∷ []
ping_scopes = refl

-- The real cache is read once, the tests' fake one is not.
started :
    (ready env (caches default_redis_url) []
      ≡ (ok tt, redis_info ∷ redis_connection "default" ∷ []))
    × (ready env (("default", fake_cache) ∷ []) [] ≡ (ok tt, []))
unfolding ready
started = (refl, refl)

-- Two waits for a machine that stays down use up the time limit of a task.
two_waits :
    (celery_settings default_redis_url).task_soft_time_limit ≤ 2 * (base_settings config).up_timeout
two_waits = omega arith
