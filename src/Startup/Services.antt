-- ===== src/Startup/Services.antt =====
-- prism-api/main.go, read-model-updater/main.go and stream-service/main.go. What a library does with
-- the settings (the clients of Azure, the keys of Auth0, the URL of Redis) is a parameter.
use prism_plan.Shared.{
  ◌++◌, ℕ, ◌*◌, ◌^◌, [], ◌∷◌, Option, none, some, Bool, Str, lit, is_empty, Result, ok, err, ℤ, pos,
  wrap_int32, if◌then◌else◌,
}
use prism_plan.Api.Pool.{Env, lookup_positive_int}
use prism_plan.Auth.{Auth}
use prism_plan.Storage.Clients.{
  AzureClients, ApiStorage, queue_concurrency, with_cache, new, new_updater_storage,
}
use prism_plan.Storage.{Sizing, queue_concurrency_for_cpu}
use prism_plan.ReadModel.Cache.{Limits, new_cache_updater}
use prism_plan.Startup.Redis.{RedisOptions}
use prism_plan.Startup.Settings.{
  and_then, require, positive_setting, duration_setting, redis_setting, auth_setting,
}

-- The libraries that the services call while they start.
pub record Libraries : Type 0 where
  pub parse_url : Str → Option RedisOptions
  pub parse_duration : Str → Option ℤ
  pub fetch_keys : Str → Bool
  pub clients : AzureClients

pub record ApiConfig : Type 0 where
  pub task_page_size : ℤ
  pub redis : RedisOptions
  pub sizing : Sizing
  pub auth : Auth
  pub port : Str

abbrev pub started : {A B : Type 0} → (A → B) → Result Str A → Result Str B
started f (ok a) = ok (f a)
started f (err e) = err (lit "storage: " ++ e)

-- The call of `storage.New`, with the tables and the queue that the environment names.
abbrev pub new_storage : Libraries → Env → ℤ → ℤ → RedisOptions → Result Str Sizing
new_storage libs env task_page_size concurrency redis =
    started (λ (s : ApiStorage RedisOptions). s.sizing)
      (new libs.clients (env (lit "STORAGE_CONNECTION_STRING")) (env (lit "TASKS_TABLE"))
        (env (lit "SETTINGS_TABLE")) (env (lit "COMMAND_QUEUE")) task_page_size
        (queue_concurrency concurrency ∷ with_cache (some redis) ∷ []))

-- `main` of prism-api.
unfoldable pub api_config : Libraries → Env → ℤ → Result Str ApiConfig
unfolding new
api_config libs env num_cpu =
    and_then
      (require env
        (lit "STORAGE_CONNECTION_STRING"
          ∷ lit "TASKS_TABLE"
          ∷ lit "SETTINGS_TABLE"
          ∷ lit "COMMAND_QUEUE"
          ∷ [])
        (lit "missing storage config"))
      λ _. and_then (positive_setting env (lit "TASKS_PAGE_SIZE") (pos 10)) λ task_page_size.
        and_then
          (positive_setting env (lit "COMMAND_QUEUE_CONCURRENCY")
            (queue_concurrency_for_cpu num_cpu))
          λ concurrency. and_then (redis_setting libs.parse_url env) λ redis.
            and_then (new_storage libs env task_page_size concurrency redis) λ sizing.
              and_then (auth_setting libs.fetch_keys env) λ auth.
                if is_empty (env (lit "PORT"))
                then err (lit "PORT is empty")
                else ok (record {
                  task_page_size = task_page_size;
                  redis = redis;
                  sizing = sizing;
                  auth = auth;
                  port = env (lit "PORT");
                })

-- The address to listen on: of the port that is set, or the default.
abbrev pub listen_on : Str → Option Str → Str
listen_on default none = default
listen_on default (some port) = b':' ∷ port

pub record UpdaterConfig : Type 0 where
  pub redis : RedisOptions
  pub limits : Limits
  pub task_channel : Str
  pub settings_channel : Str
  pub listen_addr : Str

-- In nanoseconds.
abbrev pub hour : ℕ
hour = 3600 * 10 ^ 9

-- `main` of read-model-updater; `lookup` is `os.LookupEnv`.
unfoldable pub updater_config : Libraries → Env → (Str → Option Str) → Result Str UpdaterConfig
unfolding new_updater_storage
updater_config libs env lookup =
    and_then
      (require env
        (lit "STORAGE_CONNECTION_STRING"
          ∷ lit "DOMAIN_EVENTS_QUEUE"
          ∷ lit "TASKS_TABLE"
          ∷ lit "USERS_TABLE"
          ∷ lit "SETTINGS_TABLE"
          ∷ [])
        (lit "missing storage config"))
      λ _.
        and_then
          (started (λ s. s)
            (new_updater_storage libs.clients (env (lit "STORAGE_CONNECTION_STRING"))
              (env (lit "DOMAIN_EVENTS_QUEUE")) (env (lit "TASKS_TABLE")) (env (lit "USERS_TABLE"))
              (env (lit "SETTINGS_TABLE"))))
          λ _. and_then (redis_setting libs.parse_url env) λ redis.
            and_then
              (duration_setting libs.parse_duration env (lit "TASKS_CACHE_TTL") (pos (12 * hour)))
              λ tasks_ttl.
                and_then
                  (duration_setting libs.parse_duration env (lit "SETTINGS_CACHE_TTL")
                    (pos (4 * hour)))
                  λ settings_ttl.
                    and_then (positive_setting env (lit "NUM_CACHED_PAGES") (pos 1)) λ cached_pages.
                      and_then
                        (require env
                          (lit "TASK_UPDATES_CHANNEL" ∷ lit "SETTINGS_UPDATES_CHANNEL" ∷ [])
                          (lit "missing redis channel config"))
                        λ _. ok (record {
                          redis = redis;
                          limits =
                              new_cache_updater
                                (wrap_int32
                                  (lookup_positive_int env (lit "TASKS_PAGE_SIZE") (pos 10)))
                                cached_pages tasks_ttl settings_ttl;
                          task_channel = env (lit "TASK_UPDATES_CHANNEL");
                          settings_channel = env (lit "SETTINGS_UPDATES_CHANNEL");
                          listen_addr =
                              listen_on (lit ":8080") (lookup (lit "FUNCTIONS_CUSTOMHANDLER_PORT"));
                        })

pub record StreamConfig : Type 0 where
  pub redis : RedisOptions
  pub task_channel : Str
  pub settings_channel : Str
  pub auth : Auth
  pub listen_addr : Str

-- `main` of stream-service; `lookup` is `os.LookupEnv`.
unfoldable pub stream_config : Libraries → Env → (Str → Option Str) → Result Str StreamConfig
stream_config libs env lookup = and_then (redis_setting libs.parse_url env) λ redis.
    and_then
      (require env (lit "TASK_UPDATES_CHANNEL" ∷ lit "SETTINGS_UPDATES_CHANNEL" ∷ [])
        (lit "missing redis channel config"))
      λ _. and_then (auth_setting libs.fetch_keys env) λ auth. ok (record {
        redis = redis;
        task_channel = env (lit "TASK_UPDATES_CHANNEL");
        settings_channel = env (lit "SETTINGS_UPDATES_CHANNEL");
        auth = auth;
        listen_addr = listen_on (lit ":9000") (lookup (lit "STREAM_SERVICE_PORT"));
      })
