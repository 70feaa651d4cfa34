-- ===== src/ReadModel/Cache/Listed.antt =====
-- Which pages of the table the entry of `RefreshTasks` is made of.
use prism_plan.Shared.{
  ℕ, zero, suc, ◌+◌, ◌*◌, ◌≤◌, ◌<◌, ◌≡◌, refl, sym, ap, ◌∙◌, inl, inr, map, Option, some, false,
  Str, Result, ok, arith, ltb, length, length-append, length-map,
}
use prism_plan.Tokens.{Keys}
use prism_plan.ReadModel.Cache.{
  CacheUpdater, ListedPage, Scan, cached_task, keys_of, scan_page, after_list, scan,
}
use prism_plan.ReadModel.Cache.Scans.{
  Round, nothing_listed, last_page, next_page, scan-Round, Result-cases,
}
use prism_plan.ReadModel.Cache.Listing.{ListingLaws, then_page, nth_page, scan-zero}

distribute : (page i size : ℕ) → (page + suc i) * size ≡ page * size + size + i * size
distribute page i size = omega arith

module _ (u : CacheUpdater) (user_id id : Str) where
  abbrev size : ℕ
  size = u.limits.per_page

  abbrev list : ℕ → Option Keys → Result Str ListedPage
  list page keys = u.list_tasks_page page user_id size keys

  -- The page with this index is listed, and has a task.
  abbrev Listed : ℕ → ℕ → Option Keys → ℕ → Type 0
  Listed left page keys i =
      (p : ListedPage) × (nth_page u user_id left page keys i ≡ some p) × (1 ≤ length p.tasks)

  first_listed :
      (left page : ℕ) (keys : Option Keys) (q : ListedPage)
      → list page keys ≡ ok q
      → nth_page u user_id (suc left) page keys 0 ≡ some q
  unfolding nth_page
  first_listed left page keys q el =
      ap (then_page (λ k. nth_page u user_id left (suc page) (some k)) size 0) el

  later_listed :
      (left page : ℕ) (keys : Option Keys) (q : ListedPage) (k : Keys) (i : ℕ)
      → list page keys ≡ ok q
      → size ≤ length q.tasks
      → keys_of q.next_partition_key q.next_row_key ≡ some k
      → nth_page u user_id (suc left) page keys (suc i)
        ≡ nth_page u user_id left (suc page) (some k) i
  unfolding nth_page
  later_listed left page keys q k i el full ek =
      let full_test : ltb (length q.tasks) size ≡ false = ground arith in
      ap (then_page (λ k. nth_page u user_id left (suc page) (some k)) size (suc i)) el
      ∙ rw (full_test, ek) refl

  entries_after :
      (page : ℕ) (s : Scan) (q : ListedPage)
      → length (scan_page u id page q s).entries ≡ length s.entries + length q.tasks
  unfolding scan_page
  entries_after page s q =
      omega
        (arith, length-append s.entries (map cached_task q.tasks), length-map cached_task q.tasks)

  -- Where the scan ends with this page, no later one starts within the entries.
  last-Listed :
      (left page i : ℕ) (s t : Scan) (q : ListedPage)
      → length s.entries ≡ page * size
      → list page s.next_keys ≡ ok q
      → length q.tasks ≤ size
      → 1 ≤ length q.tasks
      → t ≡ scan_page u id page q s
      → (page + i) * size < length t.entries
      → Listed (suc left) page s.next_keys i
  last-Listed left page zero s t q al el fit some_task et inside =
      (q, first_listed left page s.next_keys q el, some_task)
  last-Listed left page (suc i) s t q al el fit some_task et inside =
      let count = ap (λ (s : Scan). length s.entries) et ∙ entries_after page s q in
      absurd (omega (arith, distribute page i size))

  next-Listed :
      (left page i : ℕ) (s t : Scan) (q : ListedPage) (k : Keys)
      → ((i : ℕ) → (suc page + i) * size < length t.entries → Listed left (suc page) (some k) i)
      → list page s.next_keys ≡ ok q
      → size ≤ length q.tasks
      → 1 ≤ length q.tasks
      → keys_of q.next_partition_key q.next_row_key ≡ some k
      → (page + i) * size < length t.entries
      → Listed (suc left) page s.next_keys i
  next-Listed left page zero s t q k later el full some_task ek inside =
      (q, first_listed left page s.next_keys q el, some_task)
  next-Listed left page (suc i) s t q k later el full some_task ek inside =
      let (p, at, h) = later i (omega arith) in
      (p, later_listed left page s.next_keys q k i el full ek ∙ at, h)

  Round-Listed :
      (left page i : ℕ) (s t : Scan) (q : ListedPage)
      → ((on : Scan)
          → length on.entries ≡ suc page * size
          → scan u user_id id left (suc page) on ≡ some t
          → (i : ℕ) → (suc page + i) * size < length t.entries
          → Listed left (suc page) on.next_keys i)
      → length s.entries ≡ page * size
      → list page s.next_keys ≡ ok q
      → length q.tasks ≤ size
      → (page + i) * size < length t.entries
      → Round (scan u user_id id left (suc page)) u id page s q t
      → Listed (suc left) page s.next_keys i
  Round-Listed left page i s t q later al el fit inside (nothing_listed h same) =
      let count = ap (λ xs. length xs) same.0 in absurd (omega arith)
  Round-Listed left page i s t q later al el fit inside (last_page h stop et) =
      last-Listed left page i s t q al el fit h et inside
  Round-Listed left page i s t q later al el fit inside (next_page k full h ek er) =
      next-Listed left page i s t q k
        (later (record (scan_page u id page q s) { next_keys = some k })
          (omega (arith, entries_after page s q)) er)
        el full h ek inside

  -- Every page that starts within the entries of a scan has been listed.
  pub scan-Listed :
      ListingLaws u user_id
      → (left page i : ℕ) (s t : Scan) → length s.entries ≡ page * size
      → scan u user_id id left page s ≡ some t
      → (page + i) * size < length t.entries
      → Listed left page s.next_keys i
  unfolding scan
  scan-Listed laws zero page i s t al e inside =
      let same = ap (λ (s : Scan). length s.entries) (scan-zero u user_id id page s t e) in
      absurd (omega arith)
  scan-Listed laws (suc left) page i s t al e inside = elim (Result-cases (list page s.next_keys)) [
    | inl (x, el) ↦
        cc (ap (after_list (scan u user_id id left (suc page)) u id page s) (sym el) ∙ e)
    | inr (q, el) ↦
        Round-Listed left page i s t q
          (λ on al' e' i' inside'. scan-Listed laws left (suc page) i' on t al' e' inside') al el
          (laws.fits page s.next_keys q el) inside (scan-Round u user_id id left page s t q el e)
  ]
