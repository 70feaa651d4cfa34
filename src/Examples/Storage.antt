-- ===== src/Examples/Storage.antt =====
-- prism-api/storage at concrete inputs.
use prism_plan.Shared.{
  ℕ, ◌≡◌, ◌≢◌, refl, subst, [], ◌∷◌, Option, none, some, true, false, Str, lit, Result, ok, err,
  pos, arith,
}
use prism_plan.Tokens.{Keys}
use prism_plan.Tokens.RoundTrip.{Both}
use prism_plan.Storage.{Task, CachedTasks, resolve_task_page_size}
use prism_plan.Storage.Pages.{page_at}
use prism_plan.Storage.Fetch.{Backend, TablePage, status}
use prism_plan.Storage.Fetch.Paging.{KeysFit, walk_tokens, walk_keys, walk_tokens-walk_keys}

abbrev task : ℕ → Task
task n = record {
  id = n ∷ [];
  title = lit "t";
  notes = [];
  category = lit "c";
  order = pos n;
  done = false;
}

abbrev three_tasks : CachedTasks
three_tasks = record {
  version = pos 1;
  cached_at = pos 0;
  last_updated_at = pos 9;
  page_size = pos 2;
  cached_pages = pos 2;
  page_tokens = lit "tok" ∷ [];
  next_page_token = [];
  tasks = task 1 ∷ task 2 ∷ task 3 ∷ [];
}

last_page : page_at three_tasks 2 1 ≡ some (task 3 ∷ [], [])
unfolding page_at
last_page = refl

-- A table with two pages, of one raw entity each.
abbrev listed : Option Keys → Result Str TablePage
listed none = ok (record {
  entities = lit "e1" ∷ [];
  next_partition_key = some (lit "u");
  next_row_key = some (lit "2");
})
listed (some k) =
    ok (record { entities = lit "e2" ∷ []; next_partition_key = none; next_row_key = none })

abbrev two_pages : Backend
two_pages = record {
  cache = none;
  decode_cached_tasks = λ s. none;
  decode_cached_settings = λ s. none;
  more = λ q. true;
  next_page = λ q. listed q.next_keys;
  decode_task = λ s. some (record (task 0) { id = s });
  get_settings_entity = λ pk rk. status 404;
  decode_settings = λ s. none;
  legacy = λ s. none;
}

abbrev BothOf : Result Str TablePage → Type 0
BothOf (ok page) = Both page.next_partition_key page.next_row_key
BothOf (err e) = Unit

listed-BothOf : (keys : Option Keys) → BothOf (listed keys)
listed-BothOf none = omega arith
listed-BothOf (some k) = tt

two_pages-KeysFit : KeysFit two_pages
two_pages-KeysFit = record { fit = λ q page e. subst BothOf e (listed-BothOf q.next_keys) }

other_size : resolve_task_page_size (pos 1) (pos 10) ≢ 10
unfolding resolve_task_page_size
other_size = omega arith

walk_tokens-walk_keys_example :
    walk_tokens two_pages 10 (lit "u") (pos 1) 5 []
    ≡ walk_keys two_pages (resolve_task_page_size (pos 1) (pos 10)) (lit "u") 5 none
walk_tokens-walk_keys_example =
    walk_tokens-walk_keys two_pages 10 (lit "u") (pos 1) 5 two_pages-KeysFit other_size
