-- ===== src/ReadModel/Cache/Listing.antt =====
-- The pages of the table as `RefreshTasks` lists them.
use prism_plan.Shared.{
  ℕ, zero, suc, ◌≤◌, ◌<◌, ◌≡◌, ◌≢◌, refl, sym, ap, ◌∙◌, Option, none, some, true, false, Str,
  is_empty, Result, ok, err, arith, ltb, if_cases, if◌then◌else◌, length,
}
use mathlib.Core.Option.{some-injective}
use prism_plan.Tokens.{Keys, encode_continuation_token}
use prism_plan.ReadModel.Cache.{CacheUpdater, ListedPage, Scan, token_of, keys_of, scan}

-- The table gives a page at most the tasks that were asked for, and no empty key to go on with.
pub record ListingLaws (u : CacheUpdater) (user_id : Str) : Type 0 where
  pub some_limit : 1 ≤ u.limits.per_page
  pub fits :
      (page : ℕ) (keys : Option Keys) (p : ListedPage)
      → u.list_tasks_page page user_id u.limits.per_page keys ≡ ok p
      → length p.tasks ≤ u.limits.per_page
  pub keys_given :
      (page : ℕ) (keys : Option Keys) (p : ListedPage)
      → u.list_tasks_page page user_id u.limits.per_page keys ≡ ok p
      → keys_of p.next_partition_key p.next_row_key ≢ none
      → is_empty (token_of p) ≡ false

abbrev pub with_keys : (Keys → Option ListedPage) → Option Keys → Option ListedPage
with_keys rest none = none
with_keys rest (some k) = rest k

abbrev pub then_page :
    (Keys → ℕ → Option ListedPage) → ℕ → ℕ → Result Str ListedPage → Option ListedPage
then_page rest per_page i (err e) = none
then_page rest per_page zero (ok p) = some p
then_page rest per_page (suc i) (ok p) =
    if ltb (length p.tasks) per_page
    then none
    else with_keys (λ k. rest k i) (keys_of p.next_partition_key p.next_row_key)

-- The `i`-th of at most `left` pages from `page` on, as a client of the table itself would list them:
-- each page is asked for with the keys that the one before gave, and a page that is not full is the last.
unfoldable pub nth_page : CacheUpdater → Str → ℕ → ℕ → Option Keys → ℕ → Option ListedPage
nth_page u user_id zero page keys i = none
nth_page u user_id (suc left) page keys i =
    then_page (λ k. nth_page u user_id left (suc page) (some k)) u.limits.per_page i
      (u.list_tasks_page page user_id u.limits.per_page keys)

pub keys_of-none :
    (pk rk : Option Str) → keys_of pk rk ≡ none → is_empty (encode_continuation_token pk rk) ≡ true
unfolding encode_continuation_token is_empty
keys_of-none none rk e = refl
keys_of-none (some pk) none e = refl
keys_of-none (some pk) (some rk) e = cc

listed_then :
    (rest : Keys → ℕ → Option ListedPage) (i : ℕ) (p : ListedPage) (keys : Option Keys)
    → with_keys (λ k. rest k i) keys ≡ some p
    → (k : Keys) × (rest k i ≡ some p)
listed_then rest i p none e = cc
listed_then rest i p (some k) e = (k, e)

pub then_page-rest :
    (rest : Keys → ℕ → Option ListedPage) (size i : ℕ) (p : ListedPage) (r : Result Str ListedPage)
    → then_page rest size (suc i) r ≡ some p
    → (k : Keys) × (rest k i ≡ some p)
then_page-rest rest size i p (err x) = λ e. cc
then_page-rest rest size i p (ok q) =
    if_cases (λ o. o ≡ some p → (k : Keys) × (rest k i ≡ some p)) (ltb (length q.tasks) size) _ _
      (λ h e. cc) λ h e. listed_then rest i p (keys_of q.next_partition_key q.next_row_key) e

pub nth_page-lt :
    (u : CacheUpdater) (user_id : Str) (left page : ℕ) (keys : Option Keys) (i : ℕ) (p : ListedPage)
    → nth_page u user_id left page keys i ≡ some p
    → i < left
unfolding nth_page
nth_page-lt u user_id zero page keys i p e = cc
nth_page-lt u user_id (suc left) page keys zero p e = omega arith
nth_page-lt u user_id (suc left) page keys (suc i) p e =
    let (k, inner) =
      then_page-rest (λ k. nth_page u user_id left (suc page) (some k)) u.limits.per_page i p _ e in
    omega (arith, nth_page-lt u user_id left (suc page) (some k) i p inner)

pub scan-zero :
    (u : CacheUpdater) (user_id id : Str) (page : ℕ) (s t : Scan)
    → scan u user_id id zero page s ≡ some t
    → s ≡ t
unfolding scan
scan-zero u user_id id page s t e = some-injective s t e

module _ (rest : Keys → ℕ → Option ListedPage) (size i : ℕ) (q p : ListedPage) where
  pub short-none : length q.tasks < size → then_page rest size (suc i) (ok q) ≢ some p
  short-none short e = ground arith

  pub no_keys-none :
      keys_of q.next_partition_key q.next_row_key ≡ none
      → then_page rest size (suc i) (ok q) ≢ some p
  no_keys-none ek =
      if_cases (λ o. o ≢ some p) (ltb (length q.tasks) size) _ _ (λ h e. cc) λ h. rw ek (λ e. cc)

  pub listed_on :
      {k : Keys}
      → size ≤ length q.tasks
      → keys_of q.next_partition_key q.next_row_key ≡ some k
      → then_page rest size (suc i) (ok q) ≡ some p
      → rest k i ≡ some p
  listed_on {k} full ek =
      if_cases (λ o. o ≡ some p → rest k i ≡ some p) (ltb (length q.tasks) size) _ _
        (λ h e. absurd (ground arith)) λ h e. ap (with_keys (λ k. rest k i)) (sym ek) ∙ e
