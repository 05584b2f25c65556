-- ===== src/Apps.antt =====
-- relops_hardware_controller/apps.py: what is done when the application is ready.
use relops_hardware_controll.Prelude.{String, List, lookup, not, includes}
use relops_hardware_controll.Effects.{
  Env, M, ◌>>=◌, ◌>>◌, when, redis_connection, redis_info, call_unit,
}
use relops_hardware_controll.Settings.Services.{Cache}
use relops_hardware_controll.Commands.Ipmi.{get_key}

module _ (env : Env) where
  -- One read from Redis.
  unfoldable pub read_redis : M (Unit {0})
  read_redis = call_unit env (redis_connection "default") >> call_unit env redis_info

  unfoldable pub ready : List (String × Cache) → M (Unit {0})
  unfolding includes read_redis
  ready caches = do
    cache ← get_key (lookup "default" caches) "default"
    when (not (includes "LocMemCache" cache.backend)) read_redis
