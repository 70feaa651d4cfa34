-- ===== src/Storage.antt =====
-- prism-api/storage/storage.go: the read side, from the Redis cache or from the tables, and the
-- queue of commands.
pub mod Clients
pub mod Sizes
pub mod Pages
pub mod Fetch
pub mod Enqueue
use prism_plan.Shared.{
  ℕ, zero, suc, ◌+◌, ◌-◌, ◌*◌, ◌/◌, ◌%◌, ◌^◌, ◌≤◌, ◌<◌, ◌≡◌, ◌≢◌, refl, sym, ap, ◌∙◌, subst, ◌↔◌,
  ◌⊎◌, inl, inr, List, [], ◌∷◌, ◌++◌, map, Option, none, some, Bool, true, false, not, ◌&&◌, ◌||◌,
  Str, lit, IsByte, str_eq, is_empty, str_eq_refl, str_eq_iff, str_eq_ne, is_empty_iff, Result, ok,
  err, ℤ, pos, negsuc, neg_part, pos_part, ◌+ℤ◌, ◌≤ℤ◌, ◌<ℤ◌, leb_ℤ, ltb_ℤ, eqb_ℤ, wrap_int64,
  wrap_int32, wrap_int64_self, wrap_int32_self, IsInt64, is_int64, scale, atoi, arith, ltb, leb,
  ◌==◌, ==_iff, ==_refl, Bool-cases, if_cases, Option-cases, if◌then◌else◌, length, get_elem?, take,
  drop, length-append, length-take, length-drop, length-map, take-append_left, drop-append_left,
  take-length, All,
}
use prism_plan.Tokens.{
  Keys, TokenError, LegacyDecoder, decode_continuation_token, encode_continuation_token,
}

abbrev pub default_queue_concurrency : ℕ
default_queue_concurrency = 8

abbrev pub max_queue_concurrency : ℕ
max_queue_concurrency = 64

abbrev pub queue_per_cpu : ℕ
queue_per_cpu = 10

abbrev pub max_task_page_size : ℕ
max_task_page_size = 1000

-- `queueConcurrencyForCPU`
pub queue_concurrency_for_cpu : ℤ → ℤ
queue_concurrency_for_cpu num_cpu =
    let conc = wrap_int64 (scale queue_per_cpu num_cpu) in
    let raised =
      if ltb_ℤ conc (pos default_queue_concurrency) then pos default_queue_concurrency else conc in
    if ltb_ℤ num_cpu (pos 1)
    then pos default_queue_concurrency
    else if ltb_ℤ (pos max_queue_concurrency) raised
    then pos max_queue_concurrency
    else raised

-- The options that `New` applies: `WithQueueConcurrency` changes a positive number only.
unfoldable pub with_queue_concurrency : ℤ → ℤ → ℤ
with_queue_concurrency n current = if ltb_ℤ (pos 0) n then n else current

abbrev pub apply_options : List ℤ → ℤ → ℤ
apply_options [] current = current
apply_options (n ∷ ns) current = apply_options ns (with_queue_concurrency n current)

-- The configuration that `New` leaves, or nothing where it returns an error for the page size.
pub record Sizing : Type 0 where
  pub task_page_size : ℕ
  pub queue_concurrency : ℤ

abbrev pub page_size_of : ℤ → ℕ
page_size_of (negsuc n) = 1
page_size_of (pos n) =
    if n == 0 then 1 else if ltb max_task_page_size n then max_task_page_size else n

unfoldable pub new_sizing : ℤ → List ℤ → Option Sizing
unfolding with_queue_concurrency
new_sizing task_page_size options =
    let chosen = apply_options options (pos default_queue_concurrency) in
    if leb_ℤ task_page_size (pos 0)
    then none
    else some (record {
      task_page_size = page_size_of (wrap_int32 task_page_size);
      queue_concurrency = if leb_ℤ chosen (pos 0) then pos default_queue_concurrency else chosen;
    })

-- `resolveTaskPageSize`: the requested size within its limits, or the default.
abbrev pub default_size_of : ℤ → ℕ
default_size_of (negsuc n) = 1
default_size_of (pos n) =
    if n == 0 then 1 else if ltb max_task_page_size n then max_task_page_size else n

unfoldable pub resolve_task_page_size : ℤ → ℤ → ℕ
resolve_task_page_size (negsuc n) default = default_size_of default
resolve_task_page_size (pos n) default =
    if n == 0
    then default_size_of default
    else if ltb max_task_page_size n
    then max_task_page_size
    else n

-- domain/task.go
pub record Task : Type 0 where
  pub id : Str
  pub title : Str
  pub notes : Str
  pub category : Str
  pub order : ℤ
  pub done : Bool

-- domain/settings.go
pub record Settings : Type 0 where
  pub tasks_per_category : ℤ
  pub show_done_tasks : Bool

-- `cachedTasks`, also of read-model-updater/cache.go
pub record CachedTasks : Type 0 where
  pub version : ℤ
  pub cached_at : ℤ
  pub last_updated_at : ℤ
  pub page_size : ℤ
  pub cached_pages : ℤ
  pub page_tokens : List Str
  pub next_page_token : Str
  pub tasks : List Task

-- `cachedSettings`, also of read-model-updater/cache.go
pub record CachedSettings : Type 0 where
  pub version : ℤ
  pub cached_at : ℤ
  pub last_updated_at : ℤ
  pub settings : Settings

-- `cacheKey`, also of read-model-updater/cache.go
unfoldable pub cache_key : Str → Str → Str
cache_key user_id prefix = user_id ++ (b':' ∷ prefix)

abbrev pub tasks_cache_prefix : Str
tasks_cache_prefix = lit "ts"

abbrev pub settings_cache_prefix : Str
settings_cache_prefix = lit "us"
