-- ===== src/Storage/Clients.antt =====
-- How the storages of prism-api and read-model-updater are made: `New` of prism-api/storage/storage.go
-- and of read-model-updater/storage/storage.go. The Azure clients are parameters.
use prism_plan.Shared.{
  ℕ, ◌*◌, ◌^◌, List, [], ◌∷◌, ◌++◌, Option, none, some, Str, lit, Result, ok, err, ℤ, format_int,
}
use prism_plan.Storage.{Sizing, new_sizing}

-- `policy.RetryOptions`, with durations in nanoseconds.
pub record Retry : Type 0 where
  pub max_retries : ℕ
  pub try_timeout : ℕ
  pub retry_delay : ℕ
  pub max_retry_delay : ℕ
  pub status_codes : List ℕ

abbrev second : ℕ
second = 10 ^ 9

abbrev minute : ℕ
minute = 60 * 10 ^ 9

abbrev pub tables_retry : Retry
tables_retry = record {
  max_retries = 3;
  try_timeout = minute * 3;
  retry_delay = second * 1;
  max_retry_delay = second * 15;
  status_codes = 408 ∷ 429 ∷ 500 ∷ 502 ∷ 503 ∷ 504 ∷ [];
}

abbrev pub queue_retry : Retry
queue_retry = record {
  max_retries = 5;
  try_timeout = minute * 5;
  retry_delay = second * 1;
  max_retry_delay = second * 60;
  status_codes = 408 ∷ 429 ∷ 500 ∷ 502 ∷ 503 ∷ 504 ∷ [];
}

-- `NewServiceClientFromConnectionString` and `NewQueueClientFromConnectionString`, with their errors.
pub record AzureClients : Type 0 where
  pub tables_client : Str → Retry → Option Str
  pub queue_client : Str → Str → Retry → Option Str

-- `Option` of prism-api, for a cache of the type `C`: `WithQueueConcurrency` or `WithCache`.
pub data StorageOption (C : Type 0) : Type 0 where
  queue_concurrency : ℤ → StorageOption C
  with_cache : Option C → StorageOption C

-- The numbers of `WithQueueConcurrency`, in turn.
abbrev pub concurrencies : {C : Type 0} → List (StorageOption C) → List ℤ
concurrencies [] = []
concurrencies (queue_concurrency n ∷ options) = n ∷ concurrencies options
concurrencies (with_cache c ∷ options) = concurrencies options

-- The last cache that is not nil.
abbrev pub cache_of : {C : Type 0} → List (StorageOption C) → Option C → Option C
cache_of [] current = current
cache_of (queue_concurrency n ∷ options) current = cache_of options current
cache_of (with_cache none ∷ options) current = cache_of options current
cache_of (with_cache (some c) ∷ options) current = cache_of options (some c)

-- `Storage` of prism-api: the names under its clients, and its settings.
pub record ApiStorage (C : Type 0) : Type 0 where
  pub task_table : Str
  pub settings_table : Str
  pub command_queue : Str
  pub select_clause : Str
  pub sizing : Sizing
  pub cache : Option C

-- The next step, where the last has returned no error.
abbrev pub unless_error : {A : Type 0} → Option Str → Result Str A → Result Str A
unless_error none rest = rest
unless_error (some e) rest = err e

abbrev pub sized :
    {C : Type 0} → Str → Str → Str → ℤ → Option C → Option Sizing → Result Str (ApiStorage C)
sized tasks settings queue task_page_size cache none =
    err (lit "invalid task page size: " ++ format_int task_page_size)
sized tasks settings queue task_page_size cache (some sizing) = ok (record {
  task_table = tasks;
  settings_table = settings;
  command_queue = queue;
  select_clause = lit "RowKey,Title,Notes,Category,Order,Done";
  sizing = sizing;
  cache = cache;
})

-- `New` of prism-api.
unfoldable pub new :
    {C : Type 0}
    → AzureClients
    → Str
    → Str
    → Str
    → Str
    → ℤ
    → List (StorageOption C)
    → Result Str (ApiStorage C)
new clients conn tasks settings queue task_page_size options =
    unless_error (clients.tables_client conn tables_retry) (
      unless_error (clients.queue_client conn queue queue_retry) (
        sized tasks settings queue task_page_size (cache_of options none)
          (new_sizing task_page_size (concurrencies options))))

-- `Storage` of read-model-updater: the names under its clients.
pub record UpdaterStorage : Type 0 where
  pub queue : Str
  pub task_table : Str
  pub user_table : Str
  pub settings_table : Str

-- `New` of read-model-updater.
unfoldable pub new_updater_storage :
    AzureClients → Str → Str → Str → Str → Str → Result Str UpdaterStorage
new_updater_storage clients conn events_queue tasks users settings =
    unless_error (clients.queue_client conn events_queue queue_retry) (
      unless_error (clients.tables_client conn tables_retry) (
        ok (record {
          queue = events_queue;
          task_table = tasks;
          user_table = users;
          settings_table = settings;
        })))
