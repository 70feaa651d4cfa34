-- ===== src/Storage/Pages/Serve.antt =====
-- What the cached pages contain.
use prism_plan.Shared.{
  ℕ, zero, suc, ◌+◌, ◌*◌, ◌≤◌, ◌<◌, ◌≡◌, ◌≢◌, ap, subst, ◌⊎◌, List, [], ◌∷◌, Option, some, Str,
  is_empty, str_eq_iff, str_eq_ne, is_empty_iff, arith, length, get_elem?, take, drop, length-take,
  length-drop, All,
}
use mathlib.Core.Option.{some-injective}
use prism_plan.Storage.{Task, CachedTasks}
use prism_plan.Storage.Pages.{index_of, page_at, serve_page}

pub page_at-eq_some :
    (cached : CachedTasks) (page_size i : ℕ) (page : List Task) (next : Str)
    → page_at cached page_size i ≡ some (page, next)
    → (page ≡ take page_size (drop (i * page_size) cached.tasks))
      × (i * page_size < length cached.tasks)
unfolding page_at
page_at-eq_some cached page_size i page next e = ground arith

-- A page that the cache serves is the run of cached tasks that starts at its index times the page
-- size: full, or the last one, and never empty.
pub page_at_bounds :
    (cached : CachedTasks) (page_size i : ℕ) (page : List Task) (next : Str)
    → 1 ≤ page_size
    → page_at cached page_size i ≡ some (page, next)
    → (page ≡ take page_size (drop (i * page_size) cached.tasks))
      × (1 ≤ length page)
      × (length page ≤ page_size)
      × ((length page ≡ page_size) ⊎ (i * page_size + length page ≡ length cached.tasks))
page_at_bounds cached page_size i page next p e =
    let inv = page_at-eq_some cached page_size i page next e in
    let rest : List Task = drop (i * page_size) cached.tasks in
    let size : length page ≡ length (take page_size rest) = ap length inv.0 in
    (
      inv.0,
      omega (
        arith,
        inv.1,
        size,
        length-take page_size rest,
        length-drop (i * page_size) cached.tasks,
      ),
      omega (arith, size, length-take page_size rest),
      ground (
        arith,
        inv.1,
        size,
        length-take page_size rest,
        length-drop (i * page_size) cached.tasks,
      ),
    )

-- The token that names a page: the empty one for the first, and those of `page_tokens` in turn.
abbrev pub token_of : CachedTasks → ℕ → Option Str
token_of cached zero = some []
token_of cached (suc i) = get_elem? cached.page_tokens i

abbrev pub Distinct : List Str → Type 0
Distinct [] = Unit {0}
Distinct (t ∷ ts) = All (λ u. t ≢ u) ts × Distinct ts

abbrev pub NonEmpty : Str → Type 0
NonEmpty t = t ≢ []

All-get_elem? {κ} :
    (P : Str → Type κ) (ts : List Str) (i : ℕ) (t : Str) → All P ts → get_elem? ts i ≡ some t → P t
All-get_elem? P [] i t all e = cc
All-get_elem? P (u ∷ ts) zero t all e = subst P (some-injective u t e) all.0
All-get_elem? P (u ∷ ts) (suc i) t all e = All-get_elem? P ts i t all.1 e

index_of-get_elem? :
    (ts : List Str) (i : ℕ) (t : Str)
    → Distinct ts
    → get_elem? ts i ≡ some t
    → index_of t ts ≡ some i
unfolding index_of
index_of-get_elem? [] i t d e = cc
index_of-get_elem? (u ∷ ts) zero t d e = ground (arith, str_eq_iff u t)
index_of-get_elem? (u ∷ ts) (suc i) t d e =
    rw (str_eq_ne u t (All-get_elem? (λ v. u ≢ v) ts i t d.0 e), index_of-get_elem? ts i t d.1 e)

-- The tokens lead to the pages in order: the token that names the i-th page is answered with the i-th
-- page, where the page tokens are distinct and not empty and some task is cached.
pub serve_page-token_of :
    (cached : CachedTasks) (page_size i : ℕ) (token : Str)
    → Distinct cached.page_tokens
    → All NonEmpty cached.page_tokens
    → 1 ≤ length cached.tasks
    → token_of cached i ≡ some token
    → serve_page cached token page_size ≡ page_at cached page_size i
unfolding serve_page is_empty
serve_page-token_of cached page_size zero token d ne some_task e = ground arith
serve_page-token_of cached page_size (suc i) token d ne some_task e = ground (
  arith,
  (is_empty_iff token).0,
  All-get_elem? NonEmpty cached.page_tokens i token ne e,
  index_of-get_elem? cached.page_tokens i token d e,
)
