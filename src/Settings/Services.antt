-- ===== src/Settings/Services.antt =====
-- relops_hardware_controller/settings.py: the class `Celery` and the caches, without an environment
-- variable set but for REDIS_URL.
use relops_hardware_controll.Prelude.{ℕ, ◌*◌, String, Bool, true, List, [], ◌∷◌}

pub record Cache : Type 0 where
  pub backend : String
  pub location : String
  pub compressor : String
  pub serializer : String

-- The limits are in seconds.
pub record CelerySettings : Type 0 where
  pub broker_url : String
  pub result_backend : String
  pub task_track_started : Bool
  pub task_soft_time_limit : ℕ
  pub task_time_limit : ℕ

abbrev pub default_redis_url : String
default_redis_url = "redis://redis:6379/0"

abbrev pub celery_settings : String → CelerySettings
celery_settings redis_url = record {
  broker_url = redis_url;
  result_backend = "django-cache";
  task_track_started = true;
  task_soft_time_limit = 60 * 10;
  task_time_limit = 60 * 20;
}

-- `CACHES`, a dictionary by alias.
abbrev pub caches : String → List (String × Cache)
caches redis_url =
    (
      "default",
      record {
        backend = "django_redis.cache.RedisCache";
        location = redis_url;
        compressor = "django_redis.compressors.zlib.ZlibCompressor";
        serializer = "django_redis.serializers.json.JSONSerializer";
      },
    )
    ∷ []
