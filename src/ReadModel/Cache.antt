-- ===== src/ReadModel/Cache.antt =====
-- read-model-updater/cache.go: the cache entries that are written anew after an event. Marshalling an
-- entry and the request to Redis are left to the caller; what is decided here is which request to make.
pub mod Scans
pub mod Listing
pub mod Placed
pub mod Served
pub mod Listed
pub mod Successive
pub mod Transparent
pub mod Fresh
use prism_plan.Shared.{
  ℕ, zero, suc, ◌+◌, ◌-◌, ◌*◌, ◌/◌, ◌%◌, ◌^◌, ◌≤◌, ◌<◌, ◌≡◌, ◌≢◌, refl, sym, ap, ◌∙◌, subst, ◌↔◌,
  ◌⊎◌, inl, inr, List, [], ◌∷◌, ◌++◌, map, Option, none, some, Bool, true, false, not, ◌&&◌, ◌||◌,
  Str, lit, IsByte, str_eq, is_empty, str_eq_refl, str_eq_iff, str_eq_ne, is_empty_iff, Result, ok,
  err, ℤ, pos, negsuc, neg_part, pos_part, ◌+ℤ◌, ◌≤ℤ◌, ◌<ℤ◌, leb_ℤ, ltb_ℤ, eqb_ℤ, wrap_int64,
  wrap_int32, wrap_int64_self, wrap_int32_self, IsInt64, is_int64, scale, atoi, arith, ltb, leb,
  ◌==◌, ==_iff, ==_refl, Bool-cases, if_cases, if_cases_both, Option-cases, if◌then◌else◌, length,
  get_elem?, take, drop, length-append, length-take, length-drop, length-map, take-append_left,
  drop-append_left, take-length, All,
}
use prism_plan.Tokens.{Keys, encode_continuation_token}
use prism_plan.Storage.{
  Task, Settings, CachedTasks, CachedSettings, cache_key, tasks_cache_prefix, settings_cache_prefix,
}
use prism_plan.Storage.Pages.{page_count}
use prism_plan.ReadModel.Events.{TaskEntity, UserSettingsEntity}

-- What `newCacheUpdater` settles on: tasks for a page, pages, and two durations in nanoseconds.
pub record Limits : Type 0 where
  pub per_page : ℕ
  pub pages : ℕ
  pub tasks_ttl : ℤ
  pub settings_ttl : ℤ

abbrev positive : ℤ → ℕ
positive (negsuc n) = 1
positive (pos n) = if n == 0 then 1 else n

abbrev positive_or : ℕ → ℤ → ℤ
positive_or default (negsuc n) = pos default
positive_or default (pos n) = if n == 0 then pos default else pos n

abbrev hour : ℕ
hour = 60 * 60 * 10 ^ 9

-- `newCacheUpdater`
unfoldable pub new_cache_updater : ℤ → ℤ → ℤ → ℤ → Limits
new_cache_updater tasks_per_page cached_pages tasks_ttl settings_ttl = record {
  per_page = positive tasks_per_page;
  pages = positive cached_pages;
  tasks_ttl = positive_or (12 * hour) tasks_ttl;
  settings_ttl = positive_or (4 * hour) settings_ttl;
}

pub record ListedPage : Type 0 where
  pub tasks : List TaskEntity
  pub next_partition_key : Option Str
  pub next_row_key : Option Str

-- `cacheUpdater`. The table may change between two requests: `list_tasks_page` is given the number of
-- the request too.
pub record CacheUpdater : Type 0 where
  pub limits : Limits
  pub list_tasks_page : ℕ → Str → ℕ → Option Keys → Result Str ListedPage
  pub get_user_settings : Str → Result Str (Option UserSettingsEntity)
  pub now : ℤ

abbrev pub cached_task : TaskEntity → Task
cached_task t = record {
  id = t.row_key;
  title = t.title;
  notes = t.notes;
  category = t.category;
  order = t.order;
  done = t.done;
}

-- The variables of the loop.
pub record Scan : Type 0 where
  pub page_tokens : List Str
  pub entries : List Task
  pub max_ts : ℤ
  pub found : Bool
  pub next_token : Str
  pub next_keys : Option Keys

abbrev pub token_of : ListedPage → Str
token_of p = encode_continuation_token p.next_partition_key p.next_row_key

abbrev pub keys_of : Option Str → Option Str → Option Keys
keys_of none rk = none
keys_of (some pk) none = none
keys_of (some pk) (some rk) = some (pk, rk)

abbrev newest : ℤ → List TaskEntity → ℤ
newest ts [] = ts
newest ts (t ∷ tasks) = newest (if ltb_ℤ ts t.event_timestamp then t.event_timestamp else ts) tasks

abbrev pub has_key : Str → List TaskEntity → Bool
has_key id [] = false
has_key id (t ∷ tasks) = str_eq t.row_key id || has_key id tasks

abbrev tokens_after : CacheUpdater → ℕ → ListedPage → List Str → List Str
tokens_after u page p tokens =
    if ltb (suc page) u.limits.pages
      && (not (is_empty (token_of p)) && length p.tasks == u.limits.per_page)
    then tokens ++ (token_of p ∷ [])
    else tokens

-- The variables after a page with tasks.
unfoldable pub scan_page : CacheUpdater → Str → ℕ → ListedPage → Scan → Scan
scan_page u entity_id page p s = record s {
  page_tokens = tokens_after u page p s.page_tokens;
  entries = s.entries ++ map cached_task p.tasks;
  max_ts = newest s.max_ts p.tasks;
  found = s.found || has_key entity_id p.tasks;
  next_token = token_of p;
}

abbrev pub go_on : (Scan → Option Scan) → Option Keys → Scan → Option Scan
go_on rest none s = some s
go_on rest (some k) s = rest (record s { next_keys = some k })

-- The body of the loop; `rest` is the loop from the next page on, and nothing is the return on an error.
abbrev pub after_list :
    (Scan → Option Scan) → CacheUpdater → Str → ℕ → Scan → Result Str ListedPage → Option Scan
after_list rest u entity_id page s (err e) = none
after_list rest u entity_id page s (ok p) =
    if length p.tasks == 0
    then some (record s { next_token = token_of p })
    else if ltb (length p.tasks) u.limits.per_page
    then some (scan_page u entity_id page p s)
    else go_on rest (keys_of p.next_partition_key p.next_row_key) (scan_page u entity_id page p s)

-- The loop over the pages, of which `left` are still allowed.
unfoldable pub scan : CacheUpdater → Str → Str → ℕ → ℕ → Scan → Option Scan
unfolding scan_page
scan u user_id entity_id zero page s = some s
scan u user_id entity_id (suc left) page s =
    after_list (scan u user_id entity_id left (suc page)) u entity_id page s
      (u.list_tasks_page page user_id u.limits.per_page s.next_keys)

abbrev pub first_scan : Str → ℤ → Scan
first_scan entity_id last_updated = record {
  page_tokens = [];
  entries = [];
  max_ts = last_updated;
  found = is_empty entity_id;
  next_token = [];
  next_keys = none;
}

abbrev pub cached_pages_of : CacheUpdater → ℕ → ℕ
cached_pages_of u n =
    let count = page_count n u.limits.per_page in
    if ltb 0 n && ltb 0 u.limits.per_page
    then (if ltb u.limits.pages count then u.limits.pages else count)
    else 0

-- `payload`
unfoldable pub payload_of : CacheUpdater → Scan → CachedTasks
payload_of u s = record {
  version = pos 1;
  cached_at = u.now;
  last_updated_at = s.max_ts;
  page_size = pos u.limits.per_page;
  cached_pages = pos (cached_pages_of u (length s.entries));
  page_tokens = s.page_tokens;
  next_page_token = s.next_token;
  tasks = s.entries;
}

-- The request to Redis, with the key and the time to live.
pub data CacheWrite : Type 0 where
  leave_it : CacheWrite
  del : Str → CacheWrite
  set_tasks : Str → CachedTasks → ℤ → CacheWrite
  set_settings : Str → CachedSettings → ℤ → CacheWrite

abbrev pub write_scan : CacheUpdater → Str → Option Scan → CacheWrite
write_scan u user_id none = leave_it
write_scan u user_id (some s) =
    if s.found
    then set_tasks (cache_key user_id tasks_cache_prefix) (payload_of u s) u.limits.tasks_ttl
    else del (cache_key user_id tasks_cache_prefix)

-- `RefreshTasks`
unfoldable pub refresh_tasks : CacheUpdater → Str → Str → ℤ → CacheWrite
unfolding scan payload_of
refresh_tasks u user_id entity_id last_updated =
    write_scan u user_id
      (scan u user_id entity_id u.limits.pages 0 (first_scan entity_id last_updated))

abbrev write_settings : CacheUpdater → Str → ℤ → Result Str (Option UserSettingsEntity) → CacheWrite
write_settings u user_id last_updated (err e) = leave_it
write_settings u user_id last_updated (ok none) = del (cache_key user_id settings_cache_prefix)
write_settings u user_id last_updated (ok (some ent)) =
    set_settings (cache_key user_id settings_cache_prefix)
      (record {
        version = pos 1;
        cached_at = u.now;
        last_updated_at =
            if ltb_ℤ ent.event_timestamp last_updated then last_updated else ent.event_timestamp;
        settings = record {
          tasks_per_category = ent.tasks_per_category;
          show_done_tasks = ent.show_done_tasks;
        };
      })
      u.limits.settings_ttl

-- `RefreshSettings`
unfoldable pub refresh_settings : CacheUpdater → Str → ℤ → CacheWrite
refresh_settings u user_id last_updated =
    write_settings u user_id last_updated (u.get_user_settings user_id)
