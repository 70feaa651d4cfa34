-- ===== src/Storage/Fetch/Cached.antt =====
-- `FetchTasks` with an entry in the cache that says what the table says.
use prism_plan.Shared.{
  ℕ, ◌≡◌, refl, sym, ap, ◌∙◌, subst, List, Option, none, some, true, Str, Result, ok, ℤ, pos, ◌==◌,
  ==_iff, if_cases,
}
use mathlib.Core.Option.{some-injective}
use prism_plan.Tokens.{Keys, encode_continuation_token, decode_continuation_token}
use prism_plan.Storage.{Task, CachedTasks, resolve_task_page_size, cache_key, tasks_cache_prefix}
use prism_plan.Storage.Pages.{serve_page}
use prism_plan.Storage.Fetch.{
  CacheReply, missing, failed, value, Backend, TablePage, FetchError, read_reply,
  load_tasks_from_cache, fetch_tasks_from_cache, fetch_tasks, read_through, serve_entry,
  fetch_from_table, fetch_page, decode_tasks, partition_filter, hit_or, checked_entry,
}

pub fetch_page-answered :
    (b : Backend) (user_id : Str) (top : ℕ) (keys : Option Keys) (page : TablePage)
    (tasks : List Task)
    → b.more (record { filter = partition_filter user_id; top = top; next_keys = keys }) ≡ true
    → b.next_page (record { filter = partition_filter user_id; top = top; next_keys = keys })
      ≡ ok page
    → decode_tasks b page.entities ≡ some tasks
    → fetch_page b user_id top keys
      ≡ ok (tasks, encode_continuation_token page.next_partition_key page.next_row_key)
unfolding fetch_page
fetch_page-answered b user_id top keys page tasks em ep ed = rw (em, ep, ed) refl

pub fetch_from_table-keys :
    (b : Backend) (user_id token : Str) (size : ℕ) (keys : Option Keys)
    → decode_continuation_token b.legacy token ≡ ok keys
    → fetch_from_table b user_id token size ≡ fetch_page b user_id size keys
unfolding fetch_from_table
fetch_from_table-keys b user_id token size keys e = rw e refl

Kept : CachedTasks → Option CachedTasks → Type 0
Kept cached o = (entry : CachedTasks) → o ≡ some entry → entry ≡ cached

checked_entry-Kept :
    (size : ℕ) (o : Option CachedTasks) (cached : CachedTasks)
    → Kept cached o
    → Kept cached (checked_entry size o)
checked_entry-Kept size none cached h = h
checked_entry-Kept size (some entry) cached h =
    if_cases (Kept cached) _ none (some entry) (λ (_ : _ ≡ true). unfold Kept in λ x e. cc) (λ _. h)

-- The entry of the cache, if it has one, is this one.
module _ (b : Backend) (user_id : Str) (cached : CachedTasks) (size : ℕ) where
  abbrev Stored : Option (Str → CacheReply) → Type 0
  Stored cache =
      (get : Str → CacheReply) (raw : Str)
      → cache ≡ some get
      → get (cache_key user_id tasks_cache_prefix) ≡ value raw
      → b.decode_cached_tasks raw ≡ some cached

  read_reply-Kept :
      (reply : CacheReply)
      → ((raw : Str) → reply ≡ value raw → b.decode_cached_tasks raw ≡ some cached)
      → Kept cached (read_reply b size reply)
  unfolding Kept
  read_reply-Kept missing stored entry e = cc
  read_reply-Kept (failed x) stored entry e = cc
  read_reply-Kept (value raw) stored entry e =
      checked_entry-Kept size (b.decode_cached_tasks raw) cached
        (λ x h. sym (some-injective cached x (sym (stored raw refl) ∙ h))) entry e

  read_through-Kept :
      (cache : Option (Str → CacheReply))
      → Stored cache
      → Kept cached (read_through b size user_id cache)
  unfolding Kept
  read_through-Kept none stored entry e = cc
  read_through-Kept (some get) stored entry e =
      read_reply-Kept (get (cache_key user_id tasks_cache_prefix)) (λ raw h. stored get raw refl h)
        entry e

  serve_entry-Kept :
      (o : Option CachedTasks) (token : Str) (page_size : ℕ) (r : List Task × Str)
      → Kept cached o
      → serve_entry o token page_size ≡ some r
      → serve_page cached token page_size ≡ some r
  unfolding Kept
  serve_entry-Kept none token page_size r kept e = cc
  serve_entry-Kept (some entry) token page_size r kept e =
      ap (λ c. serve_page c token page_size) (sym (kept entry refl)) ∙ e

  hit_or-same :
      (o : Option (List Task × Str)) (table : Result FetchError (List Task × Str))
      → ((r : List Task × Str) → o ≡ some r → table ≡ ok r)
      → hit_or o table ≡ table
  hit_or-same none table same = refl
  hit_or-same (some r) table same = sym (same r refl)

  -- Where every page that the entry serves is what the table has, the answers are those of the table.
  pub fetch_tasks-fetch_from_table :
      (token : Str) (limit : ℤ)
      → Stored b.cache
      → ((r : List Task × Str)
          → serve_page cached token size ≡ some r
          → fetch_from_table b user_id token size ≡ ok r)
      → fetch_tasks b size user_id token limit
        ≡ fetch_from_table b user_id token (resolve_task_page_size limit (pos size))
  unfolding fetch_tasks fetch_tasks_from_cache load_tasks_from_cache
  fetch_tasks-fetch_from_table token limit stored same =
      if_cases (λ x. x ≡ fetch_from_table b user_id token page_size) (page_size == size) _ _
        (λ h.
          let sizes : size ≡ page_size = sym ((==_iff page_size size).0 h) in
          hit_or-same (fetch_tasks_from_cache b size user_id token page_size) _ (
            subst
              (λ n.
                (r : List Task × Str)
                → fetch_tasks_from_cache b size user_id token n ≡ some r
                → fetch_from_table b user_id token n ≡ ok r)
              sizes
              (λ r e. same r (
                serve_entry-Kept (load_tasks_from_cache b size user_id) token size r
                  (read_through-Kept b.cache stored) e))))
        (λ h. refl)
    where
      page_size : ℕ
      page_size = resolve_task_page_size limit (pos size)
