-- ===== src/Examples/Startup.antt =====
-- Two services that start with a page size of 1500.
use prism_plan.Shared.{
  Option, Str, ◌≡◌, refl, ◌↔◌, [], none, some, true, false, lit, str_eq, is_empty, ok, pos, ◌≤ℤ◌,
  wrap_int32, atoi, arith, if◌then◌else◌,
}
use prism_plan.Api.Pool.{Env, lookup_positive_int}
use prism_plan.Storage.{CachedTasks, new_sizing, with_queue_concurrency}
use prism_plan.Storage.Fetch.{checked_entry}
use prism_plan.ReadModel.Cache.{new_cache_updater}
use prism_plan.Startup.Redis.Hosted.{redis_options-hosted}
use prism_plan.Startup.Redis.{RedisOptions, redis_options, cut, split, to_lower}
use prism_plan.Startup.Settings.{
  and_then, positive_setting, duration_setting, redis_setting, auth_setting, new_auth,
}
use prism_plan.Startup.Services.{Libraries, ApiConfig, UpdaterConfig, api_config, updater_config}
use prism_plan.Startup.Sizes.{entry_accepted}

abbrev large_pages : Env
large_pages key = if str_eq key (lit "TASKS_PAGE_SIZE") then lit "1500" else lit "1"

abbrev no_port : Str → Option Str
no_port key = none

abbrev willing : Libraries
willing = record {
  parse_url = λ s. none;
  parse_duration = λ s. some (pos 60);
  fetch_keys = λ s. true;
  clients = record { tables_client = λ conn retry. none; queue_client = λ conn name retry. none };
}

abbrev host : RedisOptions
host = record { addr = lit "1"; password = []; tls = false }

abbrev api_started : ApiConfig
api_started = record {
  task_page_size = pos 1500;
  redis = host;
  sizing = record { task_page_size = 1000; queue_concurrency = pos 1 };
  auth = record { audience = []; issuer = []; test_mode = true };
  port = lit "1";
}

abbrev updater_started : UpdaterConfig
updater_started = record {
  redis = host;
  limits = record { per_page = 1500; pages = 1; tasks_ttl = pos 60; settings_ttl = pos 60 };
  task_channel = lit "1";
  settings_channel = lit "1";
  listen_addr = lit ":8080";
}

starts : api_config willing large_pages (pos 4) ≡ ok api_started
unfolding api_config and_then positive_setting redis_setting redis_options cut split to_lower
    auth_setting new_auth new_sizing with_queue_concurrency atoi str_eq is_empty wrap_int32
starts = refl

updater_starts : updater_config willing large_pages no_port ≡ ok updater_started
unfolding updater_config and_then positive_setting duration_setting redis_setting redis_options cut
    split to_lower new_cache_updater lookup_positive_int atoi str_eq is_empty wrap_int32
updater_starts = refl

abbrev entry : CachedTasks
entry = record {
  version = pos 1;
  cached_at = pos 0;
  last_updated_at = pos 0;
  page_size = pos 1500;
  cached_pages = pos 0;
  page_tokens = [];
  next_page_token = [];
  tasks = [];
}

entry_accepted_example : (checked_entry 1000 (some entry) ≡ some entry) ↔ (pos 1500 ≤ℤ pos 1000)
entry_accepted_example =
    entry_accepted willing willing large_pages large_pages no_port (pos 4) api_started
      updater_started entry starts updater_starts refl (omega arith) refl

abbrev azure_redis : RedisOptions
azure_redis = record { addr = lit "h:6380"; password = lit "k=y="; tls = true }

redis_options-hosted_example :
    redis_options (λ s. none) (lit "h:6380,password=k=y=,ssl=True,abortConnect=False") ≡ azure_redis
redis_options-hosted_example =
    redis_options-hosted (λ s. none) azure_redis refl
      (omega arith, (omega arith, (omega arith, (omega arith, (omega arith, (omega arith, tt))))))
      (omega arith, (omega arith, (omega arith, (omega arith, tt))))
