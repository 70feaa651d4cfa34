-- ===== src/Storage/Pages.antt =====
-- `fetchTasksFromCache` of prism-api/storage/storage.go, after the entry is loaded: which page of the
-- cached tasks a token names.
pub mod Serve
pub mod Named
use prism_plan.Shared.{
  ℕ, zero, suc, ◌+◌, ◌-◌, ◌*◌, ◌/◌, ◌%◌, ◌^◌, ◌≤◌, ◌<◌, ◌≡◌, ◌≢◌, refl, sym, ap, ◌∙◌, subst, ◌↔◌,
  ◌⊎◌, inl, inr, List, [], ◌∷◌, ◌++◌, map, Option, none, some, Bool, true, false, not, ◌&&◌, ◌||◌,
  Str, lit, IsByte, str_eq, is_empty, str_eq_refl, str_eq_iff, str_eq_ne, is_empty_iff, Result, ok,
  err, ℤ, pos, negsuc, neg_part, pos_part, ◌+ℤ◌, ◌≤ℤ◌, ◌<ℤ◌, leb_ℤ, ltb_ℤ, eqb_ℤ, wrap_int64,
  wrap_int32, wrap_int64_self, wrap_int32_self, IsInt64, is_int64, scale, atoi, arith, ltb, leb,
  ◌==◌, ==_iff, ==_refl, Bool-cases, if_cases, Option-cases, if◌then◌else◌, length, get_elem?, take,
  drop, length-append, length-take, length-drop, length-map, take-append_left, drop-append_left,
  take-length, All,
}
use mathlib.Core.Option
use prism_plan.Storage.{Task, CachedTasks}

-- The first place of a token in the list, as the loop over `cached.PageTokens` finds it.
pub index_of : Str → List Str → Option ℕ
index_of token [] = none
index_of token (tkn ∷ tokens) =
    if str_eq tkn token then some 0 else Option.map suc (index_of token tokens)

-- `pageIndex`, or nothing for -1.
pub page_index : Str → List Str → Option ℕ
unfolding index_of
page_index token tokens = if is_empty token then some 0 else Option.map suc (index_of token tokens)

-- The rounded-up number of pages of `n` tasks; a page holds at least one.
unfoldable pub page_count : ℕ → ℕ → ℕ
page_count n page_size = (n + page_size - 1) / page_size

-- `cachedPages`: that of the entry, or computed where it is not positive.
unfoldable pub pages_of : CachedTasks → ℕ → ℕ
unfolding page_count
pages_of cached page_size = elim cached.cached_pages [
  | negsuc n ↦ page_count (length cached.tasks) page_size
  | pos n ↦ if n == 0 then page_count (length cached.tasks) page_size else n
]

abbrev pub or_else {ℓ} : {A : Type ℓ} → Option A → A → A
or_else none d = d
or_else (some a) d = a

-- The page at an index: its tasks and the token of the next page.
unfoldable pub page_at : CachedTasks → ℕ → ℕ → Option (List Task × Str)
unfolding pages_of
page_at cached page_size i =
    let start = i * page_size in
    if leb (pages_of cached page_size) i
    then none
    else if leb (length cached.tasks) start
    then none
    else some (
      take page_size (drop start cached.tasks),
      or_else (get_elem? cached.page_tokens i) cached.next_page_token,
    )

abbrev pub at_index : CachedTasks → ℕ → Option ℕ → Option (List Task × Str)
at_index cached page_size none = none
at_index cached page_size (some i) = page_at cached page_size i

-- `fetchTasksFromCache` on the loaded entry: the page and the next token, or a miss.
pub serve_page : CachedTasks → Str → ℕ → Option (List Task × Str)
unfolding page_index page_at
serve_page cached token page_size =
    if leb (length cached.tasks) 0
    then none
    else at_index cached page_size (page_index token cached.page_tokens)
