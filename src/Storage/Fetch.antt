-- ===== src/Storage/Fetch.antt =====
-- `FetchTasks`, `FetchSettings` and their helpers of prism-api/storage/storage.go. Redis, the Azure
-- tables and the sonic decoder are parameters: functions of what they are asked.
pub mod Paging
pub mod Cached
use prism_plan.Shared.{
  ℕ, zero, suc, ◌+◌, ◌-◌, ◌*◌, ◌/◌, ◌%◌, ◌^◌, ◌≤◌, ◌<◌, ◌≡◌, ◌≢◌, refl, sym, ap, ◌∙◌, subst, ◌↔◌,
  ◌⊎◌, inl, inr, List, [], ◌∷◌, ◌++◌, map, Option, none, some, Bool, true, false, not, ◌&&◌, ◌||◌,
  Str, lit, IsByte, str_eq, is_empty, str_eq_refl, str_eq_iff, str_eq_ne, is_empty_iff, Result, ok,
  err, ℤ, pos, negsuc, neg_part, pos_part, ◌+ℤ◌, ◌≤ℤ◌, ◌<ℤ◌, leb_ℤ, ltb_ℤ, eqb_ℤ, wrap_int64,
  wrap_int32, wrap_int64_self, wrap_int32_self, IsInt64, is_int64, scale, atoi, arith, ltb, leb,
  ◌==◌, ==_iff, ==_refl, Bool-cases, if_cases, Option-cases, if◌then◌else◌, length, get_elem?, take,
  drop, length-append, length-take, length-drop, length-map, take-append_left, drop-append_left,
  take-length, All,
}
use mathlib.Core.Option
use prism_plan.Tokens.{
  Keys, TokenError, LegacyDecoder, decode_continuation_token, encode_continuation_token,
}
use prism_plan.Storage.{
  Task, Settings, CachedTasks, CachedSettings, resolve_task_page_size, cache_key,
  tasks_cache_prefix, settings_cache_prefix,
}
use prism_plan.Storage.Pages.{serve_page}

-- What `redisGetter.Get` answers: `redis.Nil`, another error, or a value.
pub data CacheReply : Type 0 where
  missing : CacheReply
  failed : Str → CacheReply
  value : Str → CacheReply

-- The options of one listing: `Filter`, `Top`, and the keys to go on from.
pub record Query : Type 0 where
  pub filter : Str
  pub top : ℕ
  pub next_keys : Option Keys

-- One page of a listing: raw entities and the keys of the next page.
pub record TablePage : Type 0 where
  pub entities : List Str
  pub next_partition_key : Option Str
  pub next_row_key : Option Str

-- An entity of the settings table, an error status such as 404, or another error.
pub data EntityReply : Type 0 where
  entity : Str → EntityReply
  status : ℕ → EntityReply
  broken : Str → EntityReply

-- The services and decoders that the storage calls.
pub record Backend : Type 0 where
  pub cache : Option (Str → CacheReply)
  pub decode_cached_tasks : Str → Option CachedTasks
  pub decode_cached_settings : Str → Option CachedSettings
  -- `NewListEntitiesPager(...).More()` and `NextPage`
  pub more : Query → Bool
  pub next_page : Query → Result Str TablePage
  pub decode_task : Str → Option Task
  pub get_settings_entity : Str → Str → EntityReply
  pub decode_settings : Str → Option Settings
  pub legacy : LegacyDecoder

pub data FetchError : Type 0 where
  invalid_continuation_token : TokenError → FetchError
  table_failed : Str → FetchError
  entity_status : ℕ → FetchError
  bad_entity : FetchError

-- `Error` of `invalidContinuationTokenError`: of none where the receiver is nil, and of its cause,
-- which may be nil.
unfoldable pub invalid_token_text : Option (Option Str) → Str
invalid_token_text (some (some cause)) = lit "invalid continuation token: " ++ cause
invalid_token_text (some none) = lit "invalid continuation token"
invalid_token_text none = lit "invalid continuation token"

-- `Unwrap`
unfoldable pub invalid_token_cause : Option (Option Str) → Option Str
invalid_token_cause none = none
invalid_token_cause (some cause) = cause

-- The page size in the entry, where it gives one, must be the configured one.
abbrev pub checked_entry : ℕ → Option CachedTasks → Option CachedTasks
checked_entry task_page_size none = none
checked_entry task_page_size (some payload) =
    if ltb_ℤ (pos 0) payload.page_size
      && not (eqb_ℤ (wrap_int32 payload.page_size) (pos task_page_size))
    then none
    else some payload

abbrev pub read_reply : Backend → ℕ → CacheReply → Option CachedTasks
read_reply b task_page_size missing = none
read_reply b task_page_size (failed e) = none
read_reply b task_page_size (value raw) = checked_entry task_page_size (b.decode_cached_tasks raw)

abbrev pub read_through : Backend → ℕ → Str → Option (Str → CacheReply) → Option CachedTasks
read_through b task_page_size user_id none = none
read_through b task_page_size user_id (some get) =
    read_reply b task_page_size (get (cache_key user_id tasks_cache_prefix))

-- `loadTasksFromCache`
pub load_tasks_from_cache : Backend → ℕ → Str → Option CachedTasks
load_tasks_from_cache b task_page_size user_id = read_through b task_page_size user_id b.cache

abbrev pub serve_entry : Option CachedTasks → Str → ℕ → Option (List Task × Str)
serve_entry none token page_size = none
serve_entry (some cached) token page_size = serve_page cached token page_size

-- `fetchTasksFromCache`
pub fetch_tasks_from_cache : Backend → ℕ → Str → Str → ℕ → Option (List Task × Str)
fetch_tasks_from_cache b task_page_size user_id token page_size =
    serve_entry (load_tasks_from_cache b task_page_size user_id) token page_size

unfoldable pub decode_tasks : Backend → List Str → Option (List Task)
decode_tasks b [] = some []
decode_tasks b (e ∷ es) = elim (b.decode_task e) [
  | none ↦ none
  | some task ↦ elim (decode_tasks b es) [ none ↦ none | some tasks ↦ some (task ∷ tasks) ]
]

-- "PartitionKey eq '" + userID + "'"
pub partition_filter : Str → Str
partition_filter user_id = lit "PartitionKey eq '" ++ (user_id ++ lit "'")

abbrev pub page_result : TablePage → Option (List Task) → Result FetchError (List Task × Str)
page_result page none = err bad_entity
page_result page (some tasks) =
    ok (tasks, encode_continuation_token page.next_partition_key page.next_row_key)

abbrev pub read_page : Backend → Result Str TablePage → Result FetchError (List Task × Str)
read_page b (err e) = err (table_failed e)
read_page b (ok page) = page_result page (decode_tasks b page.entities)

-- One listing of the table, from the given keys on.
pub fetch_page : Backend → Str → ℕ → Option Keys → Result FetchError (List Task × Str)
unfolding decode_tasks partition_filter
fetch_page b user_id page_size keys =
    let query : Query = record {
      filter = partition_filter user_id;
      top = page_size;
      next_keys = keys;
    } in
    if b.more query then read_page b (b.next_page query) else ok ([], [])

abbrev pub fetch_from_keys :
    Backend → Str → ℕ → Result TokenError (Option Keys) → Result FetchError (List Task × Str)
fetch_from_keys b user_id page_size (err e) = err (invalid_continuation_token e)
fetch_from_keys b user_id page_size (ok keys) = fetch_page b user_id page_size keys

-- The part of `FetchTasks` behind the cache.
pub fetch_from_table : Backend → Str → Str → ℕ → Result FetchError (List Task × Str)
fetch_from_table b user_id token page_size =
    fetch_from_keys b user_id page_size (decode_continuation_token b.legacy token)

abbrev pub hit_or :
    Option (List Task × Str)
    → Result FetchError (List Task × Str)
    → Result FetchError (List Task × Str)
hit_or none table = table
hit_or (some page) table = ok page

-- `FetchTasks`: the cache is asked only for pages of the configured size.
pub fetch_tasks : Backend → ℕ → Str → Str → ℤ → Result FetchError (List Task × Str)
unfolding fetch_tasks_from_cache load_tasks_from_cache fetch_from_table
fetch_tasks b task_page_size user_id token limit =
    let page_size = resolve_task_page_size limit (pos task_page_size) in
    if page_size == task_page_size
    then hit_or (fetch_tasks_from_cache b task_page_size user_id token page_size)
        (fetch_from_table b user_id token page_size)
    else fetch_from_table b user_id token page_size

-- `loadSettingsFromCache`
pub load_settings_from_cache : Backend → Str → Option Settings
load_settings_from_cache b user_id = elim b.cache [
  | none ↦ none
  | some get ↦ elim (get (cache_key user_id settings_cache_prefix)) [
    | missing ↦ none
    | failed e ↦ none
    | value raw ↦
        Option.map (λ (payload : CachedSettings). payload.settings) (b.decode_cached_settings raw)
  ]
]

abbrev read_entity : Backend → EntityReply → Result FetchError Settings
read_entity b (status code) = err (entity_status code)
read_entity b (broken e) = err (table_failed e)
read_entity b (entity raw) = elim (b.decode_settings raw) [ none ↦ err bad_entity | some s ↦ ok s ]

-- `FetchSettings`
pub fetch_settings : Backend → Str → Result FetchError Settings
unfolding load_settings_from_cache
fetch_settings b user_id = elim (load_settings_from_cache b user_id) [
  | none ↦ read_entity b (b.get_settings_entity user_id user_id)
  | some settings ↦ ok settings
]

-- `Warmup`: the first error of the three probes, a missing settings row being none.
pub warmup : Backend → ℕ → Option Str → Option FetchError
unfolding fetch_tasks fetch_settings
warmup b task_page_size properties_error =
    let user = lit "__warmup__" in
    elim (fetch_tasks b task_page_size user [] (pos 0)) [
      | err e ↦ some e
      | ok page ↦ elim (fetch_settings b user) [
        | ok s ↦ Option.map table_failed properties_error
        | err (entity_status code) ↦
            if code == 404
            then Option.map table_failed properties_error
            else some (entity_status code)
        | err e ↦ some e
      ]
    ]
