-- ===== src/Examples/Cache.antt =====
-- `RefreshTasks` at a table of two pages of one task each.
use prism_plan.Shared.{
  ◌≤◌, ◌≡◌, ◌≢◌, ◌⊎◌, refl, ap, subst, [], ◌∷◌, Option, none, some, true, false, Str, lit, str_eq,
  is_empty, Result, ok, err, pos, arith, length, List, map,
}
use prism_plan.Tokens.{Keys, encode_continuation_token, frame, put_uint32}
use prism_plan.Tokens.Base64.{encode_string}
use prism_plan.Tokens.RoundTrip.{Both}
use prism_plan.Storage.{CachedTasks, cache_key, tasks_cache_prefix, resolve_task_page_size}
use prism_plan.Storage.Fetch.{
  Backend, TablePage, value, status, decode_tasks, partition_filter, fetch_tasks, fetch_from_table,
}
use prism_plan.Storage.Fetch.Paging.{KeysFit}
use prism_plan.ReadModel.Cache.Fresh.{is_in, refresh_tasks-is_in}
use prism_plan.ReadModel.Cache.Transparent.{Answers, SameTable, fetch_tasks-cached}
use prism_plan.Storage.Pages.{page_at, page_count}
use prism_plan.ReadModel.Events.{TaskEntity}
use prism_plan.ReadModel.Cache.{
  CacheUpdater, ListedPage, set_tasks, cached_task, token_of, keys_of, scan, scan_page, payload_of,
  refresh_tasks,
}
use prism_plan.ReadModel.Cache.Listing.{ListingLaws, nth_page}
use prism_plan.ReadModel.Cache.Served.{refresh_tasks-serves}

abbrev row : Str → TaskEntity
row id = record {
  partition_key = lit "u";
  row_key = id;
  title = [];
  notes = [];
  category = [];
  order = pos 0;
  done = false;
  event_timestamp = pos 3;
  etag = [];
}

abbrev first_page : ListedPage
first_page = record {
  tasks = row (lit "1") ∷ [];
  next_partition_key = some (lit "u");
  next_row_key = some (lit "2");
}

abbrev second_page : ListedPage
second_page = record { tasks = row (lit "2") ∷ []; next_partition_key = none; next_row_key = none }

abbrev listed_by : Option Keys → ListedPage
listed_by none = first_page
listed_by (some k) = second_page

abbrev updater : CacheUpdater
updater = record {
  limits = record { per_page = 1; pages = 3; tasks_ttl = pos 60; settings_ttl = pos 60 };
  list_tasks_page = λ page user_id limit keys. ok (listed_by keys);
  get_user_settings = λ id. ok none;
  now = pos 100;
}

page_in : ListedPage → Result Str ListedPage → ListedPage
page_in default (ok p) = p
page_in default (err e) = default

first_page-token : is_empty (token_of first_page) ≡ false
unfolding encode_continuation_token frame put_uint32 encode_string is_empty
first_page-token = refl

short_pages : (keys : Option Keys) → length (listed_by keys).tasks ≤ 1
short_pages none = omega arith
short_pages (some k) = omega arith

token_where_keys :
    (keys : Option Keys)
    → keys_of (listed_by keys).next_partition_key (listed_by keys).next_row_key ≢ none
    → is_empty (token_of (listed_by keys)) ≡ false
token_where_keys none h = first_page-token
token_where_keys (some k) h = absurd (h refl)

updater-ListingLaws : ListingLaws updater (lit "u")
unfolding page_in
updater-ListingLaws = record {
  some_limit = omega arith;
  fits = λ page keys p e. subst (λ q. length q.tasks ≤ 1) (ap (page_in p) e) (short_pages keys);
  keys_given = λ page keys p e.
      subst
        (λ q. keys_of q.next_partition_key q.next_row_key ≢ none → is_empty (token_of q) ≡ false)
        (ap (page_in p) e) (token_where_keys keys);
}

abbrev both_tasks : CachedTasks
both_tasks = record {
  version = pos 1;
  cached_at = pos 100;
  last_updated_at = pos 7;
  page_size = pos 1;
  cached_pages = pos 2;
  page_tokens = token_of first_page ∷ [];
  next_page_token = [];
  tasks = cached_task (row (lit "1")) ∷ cached_task (row (lit "2")) ∷ [];
}

refreshed :
    refresh_tasks updater (lit "u") (lit "2") (pos 7)
    ≡ set_tasks (cache_key (lit "u") tasks_cache_prefix) both_tasks (pos 60)
unfolding refresh_tasks scan scan_page payload_of page_count encode_continuation_token frame
    put_uint32 encode_string is_empty str_eq
refreshed = refl

refresh_tasks-serves_example :
    (cache_key (lit "u") tasks_cache_prefix ≡ cache_key (lit "u") tasks_cache_prefix)
    × (page_at both_tasks 1 1 ≡ some (cached_task (row (lit "2")) ∷ [], token_of second_page))
unfolding nth_page
refresh_tasks-serves_example =
    refresh_tasks-serves updater (lit "u") (lit "2") (cache_key (lit "u") tasks_cache_prefix)
      (pos 7) (pos 60) both_tasks 1 second_page updater-ListingLaws refreshed refl (omega arith)

abbrev ids_of : Option Keys → List Str
ids_of none = lit "1" ∷ []
ids_of (some k) = lit "2" ∷ []

abbrev listing : Option Keys → TablePage
listing keys = record {
  entities = ids_of keys;
  next_partition_key = (listed_by keys).next_partition_key;
  next_row_key = (listed_by keys).next_row_key;
}

-- prism-api over the same table, with the entry in Redis.
abbrev over_redis : Backend
over_redis = record {
  cache = some (λ key. value (lit "entry"));
  decode_cached_tasks = λ raw. some both_tasks;
  decode_cached_settings = λ raw. none;
  more = λ q. true;
  next_page = λ q. ok (listing q.next_keys);
  decode_task = λ id. some (cached_task (row id));
  get_settings_entity = λ pk rk. status 404;
  decode_settings = λ raw. none;
  legacy = λ bytes. none;
}

page_of : TablePage → Result Str TablePage → TablePage
page_of default (ok p) = p
page_of default (err e) = default

listing-Both :
    (keys : Option Keys) → Both (listing keys).next_partition_key (listing keys).next_row_key
listing-Both none = (((omega arith, tt), omega arith), ((omega arith, tt), omega arith))
listing-Both (some k) = tt

over_redis-KeysFit : KeysFit over_redis
unfolding page_of
over_redis-KeysFit = record {
  fit = λ q page e.
      subst (λ (p : TablePage). Both p.next_partition_key p.next_row_key)
        (ap (page_of (listing none)) e) (listing-Both q.next_keys);
}

decoded_ids :
    (keys : Option Keys)
    → decode_tasks over_redis (ids_of keys) ≡ some (map cached_task (listed_by keys).tasks)
unfolding decode_tasks
decoded_ids none = refl
decoded_ids (some k) = refl

same_listing : SameTable updater over_redis (lit "u")
unfolding page_in
same_listing = record {
  same = λ n keys q e.
      subst
        (λ q.
          Answers over_redis
            (record { filter = partition_filter (lit "u"); top = 1; next_keys = keys }) q)
        (ap (page_in first_page) e)
        (record {
          more = refl;
          page = listing keys;
          answered = refl;
          decoded = decoded_ids keys;
          partition_key = refl;
          row_key = refl;
        });
}

fetch_tasks-cached_example :
    fetch_tasks over_redis 1 (lit "u") (token_of first_page) (pos 0)
    ≡ fetch_from_table over_redis
        (lit "u")
        (token_of first_page)
        (resolve_task_page_size (pos 0) (pos 1))
fetch_tasks-cached_example =
    fetch_tasks-cached updater over_redis (lit "u") (lit "2")
      (cache_key (lit "u") tasks_cache_prefix) (token_of first_page) (pos 7) (pos 60) (pos 0)
      both_tasks updater-ListingLaws over_redis-KeysFit same_listing refreshed
      λ get raw at found. refl

refresh_tasks-is_in_example :
    (is_empty (lit "2") ≡ true) ⊎ (is_in (lit "2") both_tasks.tasks ≡ true)
refresh_tasks-is_in_example =
    refresh_tasks-is_in updater (lit "u") (lit "2") (cache_key (lit "u") tasks_cache_prefix) (pos 7)
      (pos 60) both_tasks refreshed
