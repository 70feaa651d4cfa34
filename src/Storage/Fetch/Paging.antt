-- ===== src/Storage/Fetch/Paging.antt =====
-- How `FetchTasks` pages through a user's tasks.
use prism_plan.Shared.{
  ℕ, zero, suc, ◌≡◌, ◌≢◌, refl, ap, ◌∙◌, inl, inr, List, [], ◌∷◌, Option, none, some, false, Str,
  is_empty, Result, ok, err, ℤ, pos, arith, ◌==◌, Bool-cases, Option-cases, if◌then◌else◌,
}
use prism_plan.Tokens.{Keys, encode_continuation_token, decode_continuation_token}
use prism_plan.Tokens.RoundTrip.{
  present, Both, decode_continuation_token-nil, is_empty-encode_continuation_token,
  decode-encode_continuation_token,
}
use prism_plan.Storage.{Task, resolve_task_page_size}
use prism_plan.Storage.Fetch.{
  Backend, Query, TablePage, FetchError, table_failed, bad_entity, fetch_tasks, fetch_page,
  decode_tasks, partition_filter, read_page, page_result,
}

-- The keys that the table hands out for the next page fit the token's length prefixes.
pub record KeysFit (b : Backend) : Type 0 where
  pub fit :
      (q : Query) (page : TablePage)
      → b.next_page q ≡ ok page
      → Both page.next_partition_key page.next_row_key

abbrev PageResult : Type 0
PageResult = Result FetchError (List Task)

abbrev go_on : (Str → List PageResult) → Result FetchError (List Task × Str) → List PageResult
go_on rest (err e) = err e ∷ []
go_on rest (ok (tasks, next)) = ok tasks ∷ (if is_empty next then [] else rest next)

-- The pages of a client that starts with a token and asks again with each token it is given.
pub walk_tokens : Backend → ℕ → Str → ℤ → ℕ → Str → List PageResult
walk_tokens b page_size user_id limit zero token = []
walk_tokens b page_size user_id limit (suc rounds) token =
    go_on (walk_tokens b page_size user_id limit rounds)
      (fetch_tasks b page_size user_id token limit)

abbrev from_next : (Keys → List PageResult) → Option Keys → List PageResult
from_next rest none = []
from_next rest (some next) = rest next

abbrev from_tasks : (Keys → List PageResult) → TablePage → Option (List Task) → List PageResult
from_tasks rest page none = err bad_entity ∷ []
from_tasks rest page (some tasks) =
    ok tasks ∷ from_next rest (present page.next_partition_key page.next_row_key)

abbrev from_page : (Keys → List PageResult) → Backend → Result Str TablePage → List PageResult
from_page rest b (err e) = err (table_failed e) ∷ []
from_page rest b (ok page) = from_tasks rest page (decode_tasks b page.entities)

-- The pages of the table itself, each listing going on from the keys of the one before.
pub walk_keys : Backend → ℕ → Str → ℕ → Option Keys → List PageResult
walk_keys b top user_id zero keys = []
walk_keys b top user_id (suc rounds) keys =
    let query : Query = record { filter = partition_filter user_id; top = top; next_keys = keys } in
    if b.more query
    then from_page (λ next. walk_keys b top user_id rounds (some next)) b (b.next_page query)
    else ok [] ∷ []

not_equal : (a b : ℕ) → a ≢ b → (a == b) ≡ false
not_equal a b h = ground arith

fetch_tasks-eq :
    (b : Backend) (page_size : ℕ) (user_id token : Str) (limit : ℤ) (keys : Option Keys)
    → resolve_task_page_size limit (pos page_size) ≢ page_size
    → decode_continuation_token b.legacy token ≡ ok keys
    → fetch_tasks b page_size user_id token limit
      ≡ fetch_page b user_id (resolve_task_page_size limit (pos page_size)) keys
unfolding fetch_tasks
fetch_tasks-eq b page_size user_id token limit keys other e = rw (not_equal _ _ other, e)

-- The client's step and the table's agree, where the client's later walks do.
module _ (b : Backend) (rest : Str → List PageResult) (rest_keys : Keys → List PageResult)
    (agree : (token : Str) (next : Keys)
      → decode_continuation_token b.legacy token ≡ ok (some next)
      → rest token ≡ rest_keys next) where
  go_on-token :
      (pk rk : Option Str)
      → Both pk rk
      → (if is_empty (encode_continuation_token pk rk)
          then []
          else rest (encode_continuation_token pk rk))
        ≡ from_next rest_keys (present pk rk)
  go_on-token pk rk fit = elim (Option-cases (present pk rk)) [
    | inl e ↦ rw (is_empty-encode_continuation_token pk rk, e) refl
    | inr (next, e) ↦
        rw (is_empty-encode_continuation_token pk rk, e)
          (agree _ next (decode-encode_continuation_token b.legacy pk rk fit ∙ ap ok e))
  ]

  go_on-tasks :
      (page : TablePage) (tasks : Option (List Task))
      → Both page.next_partition_key page.next_row_key
      → go_on rest (page_result page tasks) ≡ from_tasks rest_keys page tasks
  go_on-tasks page none fit = refl
  go_on-tasks page (some tasks) fit =
      ap (◌∷◌ (ok tasks)) (go_on-token page.next_partition_key page.next_row_key fit)

  go_on-page :
      (r : Result Str TablePage)
      → ((page : TablePage) → r ≡ ok page → Both page.next_partition_key page.next_row_key)
      → go_on rest (read_page b r) ≡ from_page rest_keys b r
  go_on-page (err e) fit = refl
  go_on-page (ok page) fit = go_on-tasks page (decode_tasks b page.entities) (fit page refl)

go_on-fetch_page :
    (b : Backend) (user_id : Str) (top : ℕ) (keys : Option Keys) (rest : Str → List PageResult)
    (rest_keys : Keys → List PageResult)
    → KeysFit b
    → ((token : Str) (next : Keys)
        → decode_continuation_token b.legacy token ≡ ok (some next)
        → rest token ≡ rest_keys next)
    → go_on rest (fetch_page b user_id top keys) ≡ (
        if b.more (record { filter = partition_filter user_id; top = top; next_keys = keys })
        then from_page rest_keys b (
            b.next_page (record { filter = partition_filter user_id; top = top; next_keys = keys }))
        else ok [] ∷ [])
unfolding fetch_page
go_on-fetch_page b user_id top keys rest rest_keys fit agree = elim (Bool-cases (b.more query)) [
  | inl e ↦
      rw (e, go_on-page b rest rest_keys agree (b.next_page query) (λ page. fit.fit query page))
  | inr e ↦ rw e (unfold is_empty in refl)
]
  where
    query : Query
    query = record { filter = partition_filter user_id; top = top; next_keys = keys }

walk_from :
    (b : Backend) (page_size : ℕ) (user_id : Str) (limit : ℤ)
    → KeysFit b
    → resolve_task_page_size limit (pos page_size) ≢ page_size
    → (rounds : ℕ) (token : Str) (keys : Option Keys)
    → decode_continuation_token b.legacy token ≡ ok keys
    → walk_tokens b page_size user_id limit rounds token
      ≡ walk_keys b (resolve_task_page_size limit (pos page_size)) user_id rounds keys
unfolding walk_tokens walk_keys
walk_from b page_size user_id limit fit other zero token keys e = refl
walk_from b page_size user_id limit fit other (suc rounds) token keys e =
    ap (go_on (walk_tokens b page_size user_id limit rounds))
      (fetch_tasks-eq b page_size user_id token limit keys other e)
    ∙ go_on-fetch_page b user_id (resolve_task_page_size limit (pos page_size)) keys
        (walk_tokens b page_size user_id limit rounds)
        (λ next.
          walk_keys b (resolve_task_page_size limit (pos page_size)) user_id rounds (some next))
        fit λ t next. walk_from b page_size user_id limit fit other rounds t (some next)

-- A client that asks for pages of a size of its own, and goes on with each token it is given, sees
-- the pages of the table in order, none skipped or repeated, and the errors where the table has them.
-- The size is not the configured one, so that the cache is out of play, and the table's keys are byte
-- strings shorter than 2^32.
pub walk_tokens-walk_keys :
    (b : Backend) (page_size : ℕ) (user_id : Str) (limit : ℤ) (rounds : ℕ)
    → KeysFit b
    → resolve_task_page_size limit (pos page_size) ≢ page_size
    → walk_tokens b page_size user_id limit rounds []
      ≡ walk_keys b (resolve_task_page_size limit (pos page_size)) user_id rounds none
walk_tokens-walk_keys b page_size user_id limit rounds fit other =
    walk_from b page_size user_id limit fit other rounds [] none
      (decode_continuation_token-nil b.legacy)
