-- ===== src/ReadModel/Cache/Successive.antt =====
-- The pages of the table one after another: what the request for each is given.
use prism_plan.Shared.{
  ℕ, zero, suc, ◌+◌, ◌≡◌, refl, sym, ap, ◌∙◌, subst, inl, inr, Option, none, some, Str, Result, ok,
  err, arith, ltb, Bool-cases, if_cases, if◌then◌else◌, length,
}
use mathlib.Core.Option.{some-injective}
use prism_plan.Tokens.{Keys}
use prism_plan.ReadModel.Cache.{CacheUpdater, ListedPage, keys_of}
use prism_plan.ReadModel.Cache.Listing.{with_keys, then_page, nth_page, then_page-rest}

module _ (u : CacheUpdater) (user_id : Str) where
  abbrev size : ℕ
  size = u.limits.per_page

  abbrev list : ℕ → Option Keys → Result Str ListedPage
  list page keys = u.list_tasks_page page user_id size keys

  listed_here :
      (left page : ℕ) (keys : Option Keys) (p : ListedPage) (r : Result Str ListedPage)
      → list page keys ≡ r
      → then_page (λ k. nth_page u user_id left (suc page) (some k)) size 0 r ≡ some p
      → list page keys ≡ ok p
  listed_here left page keys p (err x) el e = cc
  listed_here left page keys p (ok q) el e = el ∙ ap ok (some-injective q p e)

  -- The first page is what the request without keys answers.
  pub nth_page-zero :
      (left page : ℕ) (keys : Option Keys) (p : ListedPage)
      → nth_page u user_id left page keys 0 ≡ some p
      → list page keys ≡ ok p
  unfolding nth_page
  nth_page-zero zero page keys p e = cc
  nth_page-zero (suc left) page keys p e = listed_here left page keys p _ refl e

  -- What the request for the page after `q` is given, and answers.
  pub record After (page : ℕ) (q p : ListedPage) : Type 0 where
    pub keys : Keys
    pub given : keys_of q.next_partition_key q.next_row_key ≡ some keys
    pub answered : list page (some keys) ≡ ok p

  keys-After :
      (left page : ℕ) (q p : ListedPage) (keys : Option Keys)
      → keys_of q.next_partition_key q.next_row_key ≡ keys
      → with_keys (λ k. nth_page u user_id left page (some k) 0) keys ≡ some p
      → After page q p
  keys-After left page q p none ek e = cc
  keys-After left page q p (some k) ek e = record {
    keys = k;
    given = ek;
    answered = nth_page-zero left page (some k) p e;
  }

  ok-After :
      (left page : ℕ) (q p : ListedPage)
      → then_page (λ k. nth_page u user_id left page (some k)) size 1 (ok q) ≡ some p
      → After page q p
  ok-After left page q p =
      if_cases (λ o. o ≡ some p → After page q p) (ltb (length q.tasks) size) _ _ (λ h e. cc)
        (λ h e. keys-After left page q p _ refl e)

  -- Two pages after the same one are listed with the same keys.
  BothFrom : (Keys → ℕ → Option ListedPage) → ℕ → ℕ → ListedPage → ListedPage → Type 0
  BothFrom rest i j p q = (k : Keys) × (rest k i ≡ some p) × (rest k j ≡ some q)

  keys-BothFrom :
      (rest : Keys → ℕ → Option ListedPage) (i j : ℕ) (p q : ListedPage) (keys : Option Keys)
      → with_keys (λ k. rest k i) keys ≡ some p
      → with_keys (λ k. rest k j) keys ≡ some q
      → BothFrom rest i j p q
  unfolding BothFrom
  keys-BothFrom rest i j p q none ei ej = cc
  keys-BothFrom rest i j p q (some k) ei ej = (k, ei, ej)

  then_page-BothFrom :
      (rest : Keys → ℕ → Option ListedPage) (i j : ℕ) (p q : ListedPage) (r : Result Str ListedPage)
      → then_page rest size (suc i) r ≡ some p
      → then_page rest size (suc j) r ≡ some q
      → BothFrom rest i j p q
  then_page-BothFrom rest i j p q (err x) ei ej = cc
  then_page-BothFrom rest i j p q (ok page) ei ej =
      elim (Bool-cases (ltb (length page.tasks) size)) [
        | inl h ↦ cc (ap (λ b. if b then none else with_keys (λ k. rest k i) keys) (sym h) ∙ ei)
        | inr h ↦
            keys-BothFrom rest i j p q keys
              (ap (λ b. if b then none else with_keys (λ k. rest k i) keys) (sym h) ∙ ei)
              (ap (λ b. if b then none else with_keys (λ k. rest k j) keys) (sym h) ∙ ej)
      ]
    where
      keys : Option Keys
      keys = keys_of page.next_partition_key page.next_row_key

  first-After :
      (left page : ℕ) (q p : ListedPage) (r : Result Str ListedPage)
      → then_page (λ k. nth_page u user_id left page (some k)) size 0 r ≡ some q
      → then_page (λ k. nth_page u user_id left page (some k)) size 1 r ≡ some p
      → After page q p
  first-After left page q p (err x) e e' = cc
  first-After left page q p (ok page_read) e e' =
      subst (λ q. After page q p) (some-injective page_read q e) (ok-After left page page_read p e')

  -- A page after the first is what the request with the keys of the page before it answers.
  pub nth_page-After :
      (left page i : ℕ) (keys : Option Keys) (q p : ListedPage)
      → nth_page u user_id left page keys i ≡ some q
      → nth_page u user_id left page keys (suc i) ≡ some p
      → After (page + suc i) q p
  unfolding nth_page BothFrom
  nth_page-After zero page i keys q p e e' = cc
  nth_page-After (suc left) page zero keys q p e e' =
      subst (λ n. After n q p) (omega arith) (first-After left (suc page) q p _ e e')
  nth_page-After (suc left) page (suc i) keys q p e e' =
      let (k, at, at') =
        then_page-BothFrom (λ k. nth_page u user_id left (suc page) (some k)) i (suc i) q p _ e
          e' in
      subst (λ n. After n q p) (omega arith) (nth_page-After left (suc page) i (some k) q p at at')

  ok-listed :
      (left page : ℕ) (keys : Option Keys) (i : ℕ) (p : ListedPage) (r : Result Str ListedPage)
      → ((k : Keys) (i : ℕ)
          → nth_page u user_id left (suc page) (some k) i ≡ some p
          → (n : ℕ) × (given : Option Keys) × (list n given ≡ ok p))
      → list page keys ≡ r
      → then_page (λ k. nth_page u user_id left (suc page) (some k)) size i r ≡ some p
      → (n : ℕ) × (given : Option Keys) × (list n given ≡ ok p)
  ok-listed left page keys zero p r later el e = (page, keys, listed_here left page keys p r el e)
  ok-listed left page keys (suc i) p r later el e =
      let (k, at) =
        then_page-rest (λ k. nth_page u user_id left (suc page) (some k)) size i p r e in
      later k i at

  pub nth_page-listed :
      (left page : ℕ) (keys : Option Keys) (i : ℕ) (p : ListedPage)
      → nth_page u user_id left page keys i ≡ some p
      → (n : ℕ) × (given : Option Keys) × (list n given ≡ ok p)
  unfolding nth_page
  nth_page-listed zero page keys i p e = cc
  nth_page-listed (suc left) page keys i p e =
      ok-listed left page keys i p _ (λ k i. nth_page-listed left (suc page) (some k) i p) refl e
