-- ===== src/ReadModel/Cache/Transparent.antt =====
-- The cache in front of the table: with an entry that `RefreshTasks` has written, `FetchTasks` answers
-- as the table does.
use prism_plan.Shared.{
  ℕ, suc, ◌*◌, ◌≤◌, ◌<◌, ◌≡◌, sym, ap, ◌∙◌, subst, List, [], map, Option, none, some, true, false,
  Str, is_empty, ok, ℤ, pos, arith, length, get_elem?,
}
use mathlib.Core.Option.{some-injective}
use prism_plan.Tokens.{Keys, encode_continuation_token, decode_continuation_token}
use prism_plan.Tokens.RoundTrip.{Both, decode_continuation_token-nil, decode-encode_both}
use prism_plan.Storage.{Task, CachedTasks, resolve_task_page_size}
use prism_plan.Storage.Pages.{page_at}
use prism_plan.Storage.Pages.Serve.{page_at-eq_some}
use prism_plan.Storage.Pages.Named.{Named, first_named, later_named, serve_page-Named, page_at-next}
use prism_plan.Storage.Fetch.Cached.{
  fetch_page-answered, fetch_from_table-keys, fetch_tasks-fetch_from_table,
}
use prism_plan.Storage.Fetch.{
  CacheReply, value, Backend, Query, TablePage, fetch_tasks, fetch_from_table, decode_tasks,
  partition_filter,
}
use prism_plan.Storage.Fetch.Paging.{KeysFit}
use prism_plan.ReadModel.Cache.{
  CacheUpdater, ListedPage, cached_task, token_of, keys_of, first_scan, payload_of, set_tasks,
  refresh_tasks,
}
use prism_plan.ReadModel.Cache.Listing.{ListingLaws, nth_page}
use prism_plan.ReadModel.Cache.Listed.{scan-Listed}
use prism_plan.ReadModel.Cache.Successive.{nth_page-listed, nth_page-zero, nth_page-After}
use prism_plan.ReadModel.Cache.Served.{refresh_tasks-serves, written}

-- The query of prism-api answers the page that read-model-updater has listed.
pub record Answers (b : Backend) (query : Query) (q : ListedPage) : Type 0 where
  pub more : b.more query ≡ true
  pub page : TablePage
  pub answered : b.next_page query ≡ ok page
  pub decoded : decode_tasks b page.entities ≡ some (map cached_task q.tasks)
  pub partition_key : page.next_partition_key ≡ q.next_partition_key
  pub row_key : page.next_row_key ≡ q.next_row_key

-- Both services list the same table, which does not change meanwhile.
pub record SameTable (u : CacheUpdater) (b : Backend) (user_id : Str) : Type 0 where
  pub same :
      (n : ℕ) (keys : Option Keys) (q : ListedPage)
      → u.list_tasks_page n user_id u.limits.per_page keys ≡ ok q
      → Answers b
          (record { filter = partition_filter user_id; top = u.limits.per_page; next_keys = keys })
          q

-- The request with the keys of the page before, where that page has any.
decode-token_of :
    (b : Backend) (pk rk : Option Str) (k : Keys)
    → Both pk rk
    → keys_of pk rk ≡ some k
    → is_empty (encode_continuation_token pk rk) ≡ false
    → decode_continuation_token b.legacy (encode_continuation_token pk rk) ≡ ok (some k)
decode-token_of b none rk k fit e h = cc
decode-token_of b (some pk) none k fit e h = cc
decode-token_of b (some pk) (some rk) k fit e h = decode-encode_both b.legacy pk rk fit h ∙ ap ok e

module _ (u : CacheUpdater) (b : Backend) (user_id entity_id key : Str) (last_updated ttl : ℤ)
    (cached : CachedTasks) (laws : ListingLaws u user_id) (fits : KeysFit b)
    (table : SameTable u b user_id)
    (wrote : refresh_tasks u user_id entity_id last_updated ≡ set_tasks key cached ttl) where
  abbrev size : ℕ
  size = u.limits.per_page

  abbrev nth : ℕ → Option ListedPage
  nth = nth_page u user_id u.limits.pages 0 none

  -- A page that was listed is what prism-api would list with the same keys.
  listed-fetched :
      (n : ℕ) (keys : Option Keys) (token : Str) (q : ListedPage)
      → decode_continuation_token b.legacy token ≡ ok keys
      → u.list_tasks_page n user_id size keys ≡ ok q
      → fetch_from_table b user_id token size ≡ ok (map cached_task q.tasks, token_of q)
  listed-fetched n keys token q ed el =
      let a = table.same n keys q el in
      fetch_from_table-keys b user_id token size keys ed
      ∙ fetch_page-answered b user_id size keys a.page (map cached_task q.tasks) a.more a.answered
          a.decoded
      ∙ ap (λ pk. ok (map cached_task q.tasks, encode_continuation_token pk a.page.next_row_key))
          a.partition_key
      ∙ ap (λ rk. ok (map cached_task q.tasks, encode_continuation_token q.next_partition_key rk))
          a.row_key

  keys_fit :
      (n : ℕ) (keys : Option Keys) (q : ListedPage)
      → u.list_tasks_page n user_id size keys ≡ ok q
      → Both q.next_partition_key q.next_row_key
  keys_fit n keys q el =
      let a = table.same n keys q el in
      subst (λ pk. Both pk q.next_row_key) a.partition_key
        (subst (λ rk. Both a.page.next_partition_key rk) a.row_key (fits.fit _ a.page a.answered))

  -- The pages that start within the entry have been listed.
  entry-listed :
      (i : ℕ)
      → i * size < length cached.tasks
      → (p : ListedPage) × (nth i ≡ some p) × (1 ≤ length p.tasks)
  unfolding refresh_tasks payload_of
  entry-listed i inside =
      let (s, es, ek, ec) = written u user_id key ttl cached _ wrote in
      scan-Listed u user_id entity_id laws u.limits.pages 0 i (first_scan entity_id last_updated) s
        (omega arith) es
        (subst (λ n. n * size < length s.entries) (omega arith)
          (subst (λ (c : CachedTasks). i * size < length c.tasks) ec inside))

  -- What the entry has at a place, where that page was listed.
  served :
      (i : ℕ) (p : ListedPage) (r : List Task × Str)
      → nth i ≡ some p
      → 1 ≤ length p.tasks
      → page_at cached size i ≡ some r
      → ◌≡◌ {A = List Task × Str} (map cached_task p.tasks, token_of p) r
  served i p r at some_task e =
      let (ek, ep) =
        refresh_tasks-serves u user_id entity_id key last_updated ttl cached i p laws wrote at
          some_task in
      some-injective _ r (sym ep ∙ e)

  token_before :
      (j : ℕ) (q : ListedPage) (token : Str)
      → nth j ≡ some q
      → 1 ≤ length q.tasks
      → get_elem? cached.page_tokens j ≡ some token
      → token_of q ≡ token
  token_before j q token at some_task et =
      let (ek, ep) =
        refresh_tasks-serves u user_id entity_id key last_updated ttl cached j q laws wrote at
          some_task in
      page_at-next cached size j (map cached_task q.tasks) (token_of q) token ep et

  nth-keys_fit :
      (i : ℕ) (q : ListedPage) → nth i ≡ some q → Both q.next_partition_key q.next_row_key
  nth-keys_fit i q at =
      let (n, keys, el) = nth_page-listed u user_id u.limits.pages 0 none i q at in
      keys_fit n keys q el

  first-fetched :
      (token : Str) (r : List Task × Str)
      → token ≡ []
      → page_at cached size 0 ≡ some r
      → fetch_from_table b user_id token size ≡ ok r
  first-fetched token r none_given e =
      let (p, at, some_task) = entry-listed 0 (page_at-eq_some cached size 0 r.0 r.1 e).1 in
      listed-fetched 0 none token p
        (ap (decode_continuation_token b.legacy) none_given
          ∙ decode_continuation_token-nil b.legacy)
        (nth_page-zero u user_id u.limits.pages 0 none p at)
      ∙ ap ok (served 0 p r at some_task e)

  later-fetched :
      (token : Str) (r : List Task × Str) (j : ℕ)
      → is_empty token ≡ false
      → get_elem? cached.page_tokens j ≡ some token
      → page_at cached size (suc j) ≡ some r
      → fetch_from_table b user_id token size ≡ ok r
  later-fetched token r j given et e =
      let inside = (page_at-eq_some cached size (suc j) r.0 r.1 e).1 in
      let (p, at, some_task) = entry-listed (suc j) inside in
      let (q, at_q, some_before) = entry-listed j (omega arith) in
      let after = nth_page-After u user_id u.limits.pages 0 j none q p at_q at in
      let same = token_before j q token at_q some_before et in
      let decoded =
        decode-token_of b q.next_partition_key q.next_row_key after.keys (nth-keys_fit j q at_q)
          after.given (ap is_empty same ∙ given) in
      listed-fetched _ (some after.keys) token p
        (ap (decode_continuation_token b.legacy) (sym same) ∙ decoded) after.answered
      ∙ ap ok (served (suc j) p r at some_task e)

  Named-fetched :
      (token : Str) (r : List Task × Str)
      → Named cached token size r
      → fetch_from_table b user_id token size ≡ ok r
  Named-fetched token r (first_named none_given e) = first-fetched token r none_given e
  Named-fetched token r (later_named j given et e) = later-fetched token r j given et e

-- While the cache has an entry that `RefreshTasks` has written, or has none, or does not answer,
-- `FetchTasks` answers as the table behind it does, for every token and limit: the cache saves requests
-- and changes no answer. Both services are set to the same page size and list the same table, which does
-- not change meanwhile, gives at most as many tasks as asked for and no empty keys; an entry that is
-- read back decodes to what was written, and keys are byte strings shorter than 2^32.
pub fetch_tasks-cached :
    (u : CacheUpdater) (b : Backend) (user_id entity_id key token : Str)
    (last_updated ttl limit : ℤ) (cached : CachedTasks)
    → ListingLaws u user_id
    → KeysFit b
    → SameTable u b user_id
    → refresh_tasks u user_id entity_id last_updated ≡ set_tasks key cached ttl
    → ((get : Str → CacheReply) (raw : Str)
        → b.cache ≡ some get
        → get key ≡ value raw
        → b.decode_cached_tasks raw ≡ some cached)
    → fetch_tasks b u.limits.per_page user_id token limit
      ≡ fetch_from_table b user_id token (resolve_task_page_size limit (pos u.limits.per_page))
unfolding refresh_tasks
fetch_tasks-cached u b user_id entity_id key token last_updated ttl limit cached laws fits table
      wrote stored =
    let (s, es, ek, ec) = written u user_id key ttl cached _ wrote in
    fetch_tasks-fetch_from_table b user_id cached u.limits.per_page token limit
      (λ get raw at found. stored get raw at (ap get ek ∙ found))
      (λ r e.
        Named-fetched u b user_id entity_id key last_updated ttl cached laws fits table wrote token
          r (serve_page-Named cached token u.limits.per_page r e))
