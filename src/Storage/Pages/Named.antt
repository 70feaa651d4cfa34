-- ===== src/Storage/Pages/Named.antt =====
-- The page that a token names in an entry.
use prism_plan.Shared.{
  ℕ, suc, ◌≡◌, refl, sym, ap, subst, List, [], ◌∷◌, Option, none, some, false, Str, str_eq,
  is_empty, str_eq_iff, is_empty_iff, arith, leb, if_cases, length, get_elem?,
}
use mathlib.Core.Option
use mathlib.Core.Option.{some-injective}
use prism_plan.Storage.{Task, CachedTasks}
use prism_plan.Storage.Pages.{index_of, page_index, page_at, serve_page, at_index, or_else}

map-suc-eq_some :
    (o : Option ℕ) (j : ℕ) → Option.map suc o ≡ some j → (i : ℕ) × (o ≡ some i) × (j ≡ suc i)
map-suc-eq_some none j e = cc
map-suc-eq_some (some i) j e = (i, refl, sym (some-injective (suc i) j e))

index_of-eq_some :
    (token : Str) (tokens : List Str) (j : ℕ)
    → index_of token tokens ≡ some j
    → get_elem? tokens j ≡ some token
unfolding index_of
index_of-eq_some token [] j = λ e. cc
index_of-eq_some token (tkn ∷ tokens) j =
    if_cases (λ o. o ≡ some j → get_elem? (tkn ∷ tokens) j ≡ some token) (str_eq tkn token) _ _
      (λ h e.
        subst (λ j. get_elem? (tkn ∷ tokens) j ≡ some token) (some-injective 0 j e)
          (ap some ((str_eq_iff tkn token).0 h)))
      (λ h e.
        let (i, ei, ej) = map-suc-eq_some (index_of token tokens) j e in
        subst (λ j. get_elem? (tkn ∷ tokens) j ≡ some token) (sym ej)
          (index_of-eq_some token tokens i ei))

-- The empty token names the first page, and each of the page tokens the page after its own.
pub data Named (cached : CachedTasks) (token : Str) (size : ℕ) (r : List Task × Str) : Type 0 where
  first_named : token ≡ [] → page_at cached size 0 ≡ some r → Named cached token size r
  later_named :
      (j : ℕ)
      → is_empty token ≡ false
      → get_elem? cached.page_tokens j ≡ some token
      → page_at cached size (suc j) ≡ some r
      → Named cached token size r

suc-Named :
    (cached : CachedTasks) (token : Str) (size : ℕ) (r : List Task × Str) (o : Option ℕ)
    → is_empty token ≡ false
    → index_of token cached.page_tokens ≡ o
    → at_index cached size (Option.map suc o) ≡ some r
    → Named cached token size r
suc-Named cached token size r none ne ei e = cc
suc-Named cached token size r (some j) ne ei e =
    later_named j ne (index_of-eq_some token cached.page_tokens j ei) e

index-Named :
    (cached : CachedTasks) (token : Str) (size : ℕ) (r : List Task × Str)
    → at_index cached size (page_index token cached.page_tokens) ≡ some r
    → Named cached token size r
unfolding page_index
index-Named cached token size r =
    if_cases (λ o. at_index cached size o ≡ some r → Named cached token size r) (is_empty token) _ _
      (λ h e. first_named ((is_empty_iff token).0 h) e)
      (λ h e. suc-Named cached token size r _ h refl e)

pub serve_page-Named :
    (cached : CachedTasks) (token : Str) (size : ℕ) (r : List Task × Str)
    → serve_page cached token size ≡ some r
    → Named cached token size r
unfolding serve_page
serve_page-Named cached token size r =
    if_cases (λ o. o ≡ some r → Named cached token size r) (leb (length cached.tasks) 0) _ _
      (λ h e. cc) (λ h e. index-Named cached token size r e)

pub page_at-next :
    (cached : CachedTasks) (size i : ℕ) (page : List Task) (next token : Str)
    → page_at cached size i ≡ some (page, next)
    → get_elem? cached.page_tokens i ≡ some token
    → next ≡ token
unfolding page_at
page_at-next cached size i page next token e t =
    ground (arith, ap (λ o. or_else o cached.next_page_token) t)
