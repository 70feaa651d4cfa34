-- ===== src/ReadModel/Cache/Fresh.antt =====
-- What an entry that `RefreshTasks` writes after an event of a task has of that task.
use prism_plan.Shared.{
  ℕ, zero, suc, ◌≡◌, refl, sym, ap, ◌∙◌, subst, ◌⊎◌, inl, inr, List, [], ◌∷◌, ◌++◌, map, Option,
  none, some, Bool, true, false, ◌||◌, Str, str_eq, is_empty, Result, ok, err, ℤ, arith, ltb, ◌==◌,
  if_cases, length,
}
use prism_plan.Tokens.{Keys}
use prism_plan.Storage.{Task, CachedTasks, cache_key, tasks_cache_prefix}
use prism_plan.ReadModel.Events.{TaskEntity}
use prism_plan.ReadModel.Cache.{
  CacheUpdater, ListedPage, Scan, cached_task, keys_of, has_key, scan_page, go_on, after_list, scan,
  first_scan, payload_of, CacheWrite, del, set_tasks, write_scan, refresh_tasks,
}
use prism_plan.ReadModel.Cache.Served.{cached_of}

-- A task with this id is among them.
unfoldable pub is_in : Str → List Task → Bool
is_in id [] = false
is_in id (t ∷ tasks) = str_eq t.id id || is_in id tasks

is_in-append : (id : Str) (xs ys : List Task) → is_in id (xs ++ ys) ≡ (is_in id xs || is_in id ys)
unfolding is_in
is_in-append id [] ys = refl
is_in-append id (t ∷ xs) ys = ground (arith, is_in-append id xs ys)

has_key-is_in :
    (id : Str) (tasks : List TaskEntity) → has_key id tasks ≡ is_in id (map cached_task tasks)
unfolding is_in
has_key-is_in id [] = refl
has_key-is_in id (t ∷ tasks) = ap (λ b. str_eq t.row_key id || b) (has_key-is_in id tasks)

module _ (u : CacheUpdater) (user_id id : Str) where
  -- What has been found is among the entries, where anything was looked for.
  Has : Scan → Type 0
  Has s = s.found ≡ true → (is_empty id ≡ true) ⊎ (is_in id s.entries ≡ true)

  found_in :
      (b c d : Bool) (E : Type 0)
      → (b ≡ true → E ⊎ (c ≡ true))
      → (b || d) ≡ true
      → E ⊎ ((c || d) ≡ true)
  found_in true true d E h e = inr refl
  found_in true false d E h e = elim (h refl) [ inl x ↦ inl x | inr q ↦ cc ]
  found_in false true d E h e = inr refl
  found_in false false d E h e = inr e

  scan_page-Has : (page : ℕ) (p : ListedPage) (s : Scan) → Has s → Has (scan_page u id page p s)
  unfolding Has scan_page
  scan_page-Has page p s h e =
      subst (λ b. (is_empty id ≡ true) ⊎ (b ≡ true))
        (sym (
          is_in-append id s.entries (map cached_task p.tasks)
          ∙ ap (λ b. is_in id s.entries || b) (sym (has_key-is_in id p.tasks))))
        (found_in s.found (is_in id s.entries) (has_key id p.tasks) (is_empty id ≡ true) h e)

  HasAll : Option Scan → Type 0
  HasAll none = Unit {0}
  HasAll (some s) = Has s

  go_on-HasAll :
      (rest : Scan → Option Scan) (keys : Option Keys) (s : Scan)
      → ((t : Scan) → Has t → HasAll (rest t))
      → Has s
      → HasAll (go_on rest keys s)
  unfolding HasAll Has
  go_on-HasAll rest none s later h = h
  go_on-HasAll rest (some k) s later h = later (record s { next_keys = some k }) h

  after_list-HasAll :
      (rest : Scan → Option Scan) (page : ℕ) (s : Scan) (r : Result Str ListedPage)
      → ((t : Scan) → Has t → HasAll (rest t))
      → Has s
      → HasAll (after_list rest u id page s r)
  unfolding HasAll Has
  after_list-HasAll rest page s (err x) later h = tt
  after_list-HasAll rest page s (ok p) later h =
      if_cases HasAll (length p.tasks == 0) _ _ (λ c. h)
        (λ c.
          if_cases HasAll (ltb (length p.tasks) u.limits.per_page) _ _
            (λ short. scan_page-Has page p s h)
            (λ full.
              go_on-HasAll rest (keys_of p.next_partition_key p.next_row_key)
                (scan_page u id page p s) later (scan_page-Has page p s h)))

  scan-HasAll : (left page : ℕ) (s : Scan) → Has s → HasAll (scan u user_id id left page s)
  unfolding HasAll scan
  scan-HasAll zero page s h = h
  scan-HasAll (suc left) page s h =
      after_list-HasAll (scan u user_id id left (suc page)) page s
        (u.list_tasks_page page user_id u.limits.per_page s.next_keys)
        (λ t k. scan-HasAll left (suc page) t k) h

  write_scan-has :
      (o : Option Scan) (key : Str) (ttl : ℤ) (cached : CachedTasks)
      → HasAll o
      → write_scan u user_id o ≡ set_tasks key cached ttl
      → (is_empty id ≡ true) ⊎ (is_in id cached.tasks ≡ true)
  unfolding HasAll Has payload_of
  write_scan-has none key ttl cached h = λ e. cc
  write_scan-has (some s) key ttl cached h =
      if_cases P s.found
        (set_tasks (cache_key user_id tasks_cache_prefix) (payload_of u s) u.limits.tasks_ttl)
        (del (cache_key user_id tasks_cache_prefix))
        (λ found e.
          let entry : payload_of u s ≡ cached = ap (cached_of cached) e in
          subst (λ (c : CachedTasks). (is_empty id ≡ true) ⊎ (is_in id c.tasks ≡ true)) entry
            (h found))
        (λ absent e. cc)
    where
      P : CacheWrite → Type 0
      P w = w ≡ set_tasks key cached ttl → (is_empty id ≡ true) ⊎ (is_in id cached.tasks ≡ true)

-- An entry that is written after an event of a task has that task: where the refresh does not find the
-- task of the event on the pages that it reads, it writes no entry.
pub refresh_tasks-is_in :
    (u : CacheUpdater) (user_id entity_id key : Str) (last_updated ttl : ℤ) (cached : CachedTasks)
    → refresh_tasks u user_id entity_id last_updated ≡ set_tasks key cached ttl
    → (is_empty entity_id ≡ true) ⊎ (is_in entity_id cached.tasks ≡ true)
unfolding refresh_tasks
refresh_tasks-is_in u user_id entity_id key last_updated ttl cached e =
    write_scan-has u user_id entity_id _ key ttl cached
      (scan-HasAll u user_id entity_id u.limits.pages 0 (first_scan entity_id last_updated)
        (unfold Has in λ h. inl h))
      e
