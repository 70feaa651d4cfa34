-- ===== src/ReadModel/Cache/Served.antt =====
-- The entry that `RefreshTasks` writes is served by prism-api as the table was listed.
use prism_plan.Shared.{
  ℕ, zero, suc, ◌+◌, ◌-◌, ◌*◌, ◌≤◌, ◌<◌, ◌≡◌, refl, sym, ap, ◌∙◌, subst, inl, inr, [], map, Option,
  none, some, false, Str, is_empty, ok, ℤ, arith, leb, if_cases, length,
}
use mathlib.Core.Option.{some-injective}
use native.Mathlib.Nat.{le-div_iff_mul-le}
use prism_plan.Tokens.{Keys}
use prism_plan.Storage.{CachedTasks, cache_key, tasks_cache_prefix}
use prism_plan.Storage.Pages.{page_count, pages_of, page_at}
use prism_plan.ReadModel.Cache.{
  CacheUpdater, ListedPage, Scan, cached_task, token_of, keys_of, scan_page, scan, first_scan,
  payload_of, CacheWrite, leave_it, del, set_tasks, set_settings, write_scan, refresh_tasks,
}
use prism_plan.ReadModel.Cache.Scans.{
  Round, nothing_listed, last_page, next_page, scan-Round, scan-Extends, Result-cases,
}
use prism_plan.ReadModel.Cache.Listing.{
  ListingLaws, then_page, nth_page, nth_page-lt, short-none, no_keys-none, listed_on, keys_of-none,
  scan-zero,
}
use prism_plan.ReadModel.Cache.Placed.{Aligned, Holds, last-Holds, next-Holds, next-Aligned}

module _ (u : CacheUpdater) (user_id id : Str) (laws : ListingLaws u user_id) where
  abbrev size : ℕ
  size = u.limits.per_page

  token_given :
      (page : ℕ) (keys : Option Keys) (q : ListedPage) (k : Keys)
      → u.list_tasks_page page user_id size keys ≡ ok q
      → keys_of q.next_partition_key q.next_row_key ≡ some k
      → is_empty (token_of q) ≡ false
  token_given page keys q k el ek = laws.keys_given page keys q el (λ e. cc)

  -- The page that this round reads.
  first-Holds :
      (left page : ℕ) (s t : Scan) (q : ListedPage)
      → Aligned size page s
      → suc left + page ≡ u.limits.pages
      → u.list_tasks_page page user_id size s.next_keys ≡ ok q
      → 1 ≤ length q.tasks
      → Round (scan u user_id id left (suc page)) u id page s q t
      → Holds size page q t
  first-Holds left page s t q al budget el some_task (nothing_listed none_listed same) =
      absurd (omega arith)
  first-Holds left page s t q al budget el some_task (last_page h (inl short) et) =
      subst (Holds size page q) (sym et) (
        last-Holds u user_id id laws page q s al (laws.fits page s.next_keys q el) some_task
          (inl (inl short)))
  first-Holds left page s t q al budget el some_task (last_page h (inr ek) et) =
      subst (Holds size page q) (sym et) (
        last-Holds u user_id id laws page q s al (laws.fits page s.next_keys q el) some_task
          (inl (inr (keys_of-none q.next_partition_key q.next_row_key ek))))
  first-Holds zero page s t q al budget el some_task (next_page k full h ek er) =
      let held =
        last-Holds u user_id id laws page q s al (laws.fits page s.next_keys q el) some_task
          (inr (omega arith)) in
      subst (Holds size page q) (scan-zero u user_id id (suc page) _ t er)
        (record { tasks = held.tasks; token = held.token; inside = held.inside })
  first-Holds (suc left) page s t q al budget el some_task (next_page k full h ek er) =
      let ext = scan-Extends u user_id id (suc left) (suc page) _ t er in
      next-Holds u user_id id laws page q s t al
        (omega (arith, laws.fits page s.next_keys q el, full))
        (token_given page s.next_keys q k el ek) (omega arith)
        (record {
          more_entries = ext.more_entries;
          more_tokens = ext.more_tokens;
          entries = ext.entries;
          tokens = ext.tokens;
        })

  later-Holds :
      (left page : ℕ) (s t : Scan) (q p : ListedPage) (i : ℕ)
      → ((on : Scan)
          → Aligned size (suc page) on
          → scan u user_id id left (suc page) on ≡ some t
          → nth_page u user_id left (suc page) on.next_keys i ≡ some p
          → Holds size (suc page + i) p t)
      → Aligned size page s
      → suc left + page ≡ u.limits.pages
      → u.list_tasks_page page user_id size s.next_keys ≡ ok q
      → then_page (λ k. nth_page u user_id left (suc page) (some k)) size (suc i) (ok q) ≡ some p
      → Round (scan u user_id id left (suc page)) u id page s q t
      → Holds size (suc page + i) p t
  later-Holds left page s t q p i later al budget el en (nothing_listed none_listed same) = absurd (
      short-none (λ k. nth_page u user_id left (suc page) (some k)) size i q p
        (omega (arith, laws.some_limit)) en)
  later-Holds left page s t q p i later al budget el en (last_page h (inl short) et) =
      absurd (short-none (λ k. nth_page u user_id left (suc page) (some k)) size i q p short en)
  later-Holds left page s t q p i later al budget el en (last_page h (inr ek) et) =
      absurd (no_keys-none (λ k. nth_page u user_id left (suc page) (some k)) size i q p ek en)
  later-Holds left page s t q p i later al budget el en (next_page k full h ek er) =
      let on_keys : nth_page u user_id left (suc page) (some k) i ≡ some p =
        listed_on (λ k. nth_page u user_id left (suc page) (some k)) size i q p full ek en in
      let more = nth_page-lt u user_id left (suc page) (some k) i p on_keys in
      later (record (scan_page u id page q s) { next_keys = some k })
        (next-Aligned u user_id id laws page q s k al
          (omega (arith, laws.fits page s.next_keys q el, full))
          (token_given page s.next_keys q k el ek) (omega (arith, more)))
        er on_keys

  page_of : (a b : ListedPage) → ◌≡◌ {A = Option ListedPage} (some a) (some b) → a ≡ b
  page_of a b e = some-injective a b e

  scan-Holds :
      (left page : ℕ) (s t : Scan) (i : ℕ) (p : ListedPage)
      → Aligned size page s
      → left + page ≡ u.limits.pages
      → scan u user_id id left page s ≡ some t
      → nth_page u user_id left page s.next_keys i ≡ some p
      → 1 ≤ length p.tasks
      → Holds size (page + i) p t
  unfolding nth_page
  scan-Holds zero page s t i p al budget e en some_task = cc
  scan-Holds (suc left) page s t zero p al budget e en some_task =
      elim (Result-cases (u.list_tasks_page page user_id size s.next_keys)) [
        | inl (x, el) ↦
            cc (
              ap (then_page (λ k. nth_page u user_id left (suc page) (some k)) size 0) (sym el)
              ∙ en)
        | inr (q, el) ↦
            let same : q ≡ p = page_of q p (
              ap (then_page (λ k. nth_page u user_id left (suc page) (some k)) size 0) (sym el)
              ∙ en) in
            subst (λ n. Holds size n p t) (omega arith)
              (subst (λ x. Holds size page x t) same
                (first-Holds left page s t q al budget el
                  (subst (λ x. 1 ≤ length x.tasks) (sym same) some_task)
                  (scan-Round u user_id id left page s t q el e)))
      ]
  scan-Holds (suc left) page s t (suc i) p al budget e en some_task =
      elim (Result-cases (u.list_tasks_page page user_id size s.next_keys)) [
        | inl (x, el) ↦ cc (
            ap (then_page (λ k. nth_page u user_id left (suc page) (some k)) size (suc i)) (sym el)
            ∙ en)
        | inr (q, el) ↦
            subst (λ n. Holds size n p t) (omega arith)
              (later-Holds left page s t q p i
                (λ on al' e' en'.
                  scan-Holds left (suc page) on t i p al' (omega arith) e' en' some_task)
                al budget el
                (ap (then_page (λ k. nth_page u user_id left (suc page) (some k)) size (suc i))
                    (sym el)
                  ∙ en)
                (scan-Round u user_id id left page s t q el e))
      ]

abbrev key_of : CacheWrite → Str
key_of leave_it = []
key_of (del key) = key
key_of (set_tasks key cached ttl) = key
key_of (set_settings key cached ttl) = key

abbrev pub cached_of : CachedTasks → CacheWrite → CachedTasks
cached_of default leave_it = default
cached_of default (del key) = default
cached_of default (set_tasks key cached ttl) = cached
cached_of default (set_settings key cached ttl) = default

-- The rounded-up count of pages is above every index whose page starts within the entries.
page_count-above : (n l i : ℕ) → 1 ≤ l → i * l < n → i < page_count n l
unfolding page_count
page_count-above n l i some_limit h =
    let counted = le-div_iff_mul-le {k = l} {x = suc i} {y = n + l - 1} some_limit in
    counted.1 (omega arith)

pub written :
    (u : CacheUpdater) (user_id key : Str) (ttl : ℤ) (cached : CachedTasks) (o : Option Scan)
    → write_scan u user_id o ≡ set_tasks key cached ttl
    → (s : Scan) × (o ≡ some s)
      × (key ≡ cache_key user_id tasks_cache_prefix)
      × (cached ≡ payload_of u s)
written u user_id key ttl cached none = λ e. cc
written u user_id key ttl cached (some s) =
    if_cases P s.found _ _
      (λ h e. (s, refl, sym (ap key_of e), sym (ap (cached_of (payload_of u s)) e))) λ h e. cc
  where
    P : CacheWrite → Type 0
    P w =
        w ≡ set_tasks key cached ttl
        → (s' : Scan) × (some s ≡ some s')
          × (key ≡ cache_key user_id tasks_cache_prefix)
          × (cached ≡ payload_of u s')

payload_of-page :
    (u : CacheUpdater) (s : Scan) (i : ℕ) (p : ListedPage)
    → 1 ≤ u.limits.per_page
    → i < u.limits.pages
    → Holds u.limits.per_page i p s
    → page_at (payload_of u s) u.limits.per_page i ≡ some (map cached_task p.tasks, token_of p)
unfolding page_at pages_of payload_of page_count
payload_of-page u s i p some_limit early held =
    let counted = page_count-above (length s.entries) u.limits.per_page i some_limit held.inside in
    let in_pages : leb (pages_of (payload_of u s) u.limits.per_page) i ≡ false =
      ground (arith, counted, early, some_limit, held.inside) in
    let in_tasks : leb (length s.entries) (i * u.limits.per_page) ≡ false =
      ground (arith, held.inside) in
    rw (in_pages, in_tasks, held.tasks, held.token) refl

-- The entry that `RefreshTasks` writes is served by prism-api as the table was listed: the `i`-th page
-- of the entry has the tasks of the `i`-th page of the table and the token that prism-api makes at its
-- end, for every page with a task that the refresh has read. The table gives at most as many tasks as
-- asked for, and no empty keys.
pub refresh_tasks-serves :
    (u : CacheUpdater) (user_id entity_id key : Str) (last_updated ttl : ℤ) (cached : CachedTasks)
    (i : ℕ) (p : ListedPage)
    → ListingLaws u user_id
    → refresh_tasks u user_id entity_id last_updated ≡ set_tasks key cached ttl
    → nth_page u user_id u.limits.pages 0 none i ≡ some p
    → 1 ≤ length p.tasks
    → (key ≡ cache_key user_id tasks_cache_prefix)
      × (page_at cached u.limits.per_page i ≡ some (map cached_task p.tasks, token_of p))
unfolding refresh_tasks
refresh_tasks-serves u user_id entity_id key last_updated ttl cached i p laws e en some_task =
    let (s, es, ek, ec) = written u user_id key ttl cached _ e in
    let held =
      scan-Holds u user_id entity_id laws u.limits.pages 0 (first_scan entity_id last_updated) s i p
        (record { entries = omega arith; tokens = refl }) (omega arith) es en some_task in
    (
      ek,
      ap (λ c. page_at c u.limits.per_page i) ec
          ∙ payload_of-page u s i p laws.some_limit
              (nth_page-lt u user_id u.limits.pages 0 none i p en)
              (subst (λ n. Holds u.limits.per_page n p s) (omega arith) held),
    )
