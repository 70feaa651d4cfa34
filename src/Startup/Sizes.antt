-- ===== src/Startup/Sizes.antt =====
-- The page size that prism-api and read-model-updater settle on, from the same setting.
use prism_plan.Shared.{
  ℕ, ◌^◌, ◌≤◌, ◌<◌, ◌≡◌, refl, sym, ap, ◌∙◌, subst, ◌↔◌, inl, inr, [], ◌∷◌, Option, none, some,
  Bool, true, false, not, ◌&&◌, Str, lit, is_empty, Result, ok, err, ℤ, pos, negsuc, ◌≤ℤ◌, ◌<ℤ◌,
  leb_ℤ, ltb_ℤ, eqb_ℤ, wrap_int32, wrap_int32_self, atoi, arith, Bool-cases, if_cases,
  if◌then◌else◌,
}
use prism_plan.Api.Pool.{Env, positive_or, lookup_positive_int}
use prism_plan.Storage.{CachedTasks, Sizing, new_sizing, page_size_of}
use prism_plan.Storage.Fetch.{checked_entry}
use prism_plan.ReadModel.Cache.{new_cache_updater}
use prism_plan.Startup.Settings.{and_then, positive_setting, positive_number}
use prism_plan.Startup.Redis.{RedisOptions}
use prism_plan.Storage.Clients.{ApiStorage, unless_error, sized, new, tables_retry, queue_retry}
use prism_plan.Startup.Services.{
  started, Libraries, ApiConfig, UpdaterConfig, api_config, updater_config, new_storage,
}

-- What holds of the value, where there is one.
abbrev Holds : {A : Type 0} → (A → Type 0) → Result Str A → Type 0
Holds P (err e) = Unit {0}
Holds P (ok a) = P a

and_then-Holds :
    {A B : Type 0} (P : B → Type 0) (r : Result Str A) (rest : A → Result Str B)
    → ((a : A) → r ≡ ok a → Holds P (rest a))
    → Holds P (and_then r rest)
unfolding and_then
and_then-Holds P (err x) rest h = tt
and_then-Holds P (ok a) rest h = h a refl

if-Holds :
    {A : Type 0} (P : A → Type 0) (b : Bool) (message : Str) (a : A)
    → P a
    → Holds P (if b then err message else ok a)
if-Holds P true message a h = tt
if-Holds P false message a h = h

held : {A : Type 0} (P : A → Type 0) (r : Result Str A) (a : A) → Holds P r → r ≡ ok a → P a
held P r a h e = subst (Holds P) e h

Took : Option Sizing → Sizing → Type 0
Took o s = o ≡ some s

sized-Took :
    {C : Type 0} (tasks settings queue : Str) (n : ℤ) (cache : Option C)
    (no_tables no_queue : Option Str) (o : Option Sizing)
    → Holds (Took o) (
        started
          (λ (s : ApiStorage C). s.sizing)
          (unless_error no_tables (unless_error no_queue (sized tasks settings queue n cache o))))
unfolding Took
sized-Took tasks settings queue n cache (some e) no_queue o = tt
sized-Took tasks settings queue n cache none (some e) o = tt
sized-Took tasks settings queue n cache none none none = tt
sized-Took tasks settings queue n cache none none (some s) = refl

new_storage-Took :
    (libs : Libraries) (env : Env) (n conc : ℤ) (redis : RedisOptions)
    → Holds (Took (new_sizing n (conc ∷ []))) (new_storage libs env n conc redis)
unfolding new
new_storage-Took libs env n conc redis =
    let conn = env (lit "STORAGE_CONNECTION_STRING") in
    let queue = env (lit "COMMAND_QUEUE") in
    sized-Took (env (lit "TASKS_TABLE")) (env (lit "SETTINGS_TABLE")) queue n (some redis)
      (libs.clients.tables_client conn tables_retry)
      (libs.clients.queue_client conn queue queue_retry) (new_sizing n (conc ∷ []))

-- What a configuration of prism-api has taken from the setting.
record TakesSize (env : Env) (a : ApiConfig) : Type 0 where
  from_env : positive_setting env (lit "TASKS_PAGE_SIZE") (pos 10) ≡ ok a.task_page_size
  concurrency : ℤ
  to_storage : new_sizing a.task_page_size (concurrency ∷ []) ≡ some a.sizing

api_config-TakesSize :
    (libs : Libraries) (env : Env) (num_cpu : ℤ)
    → Holds (TakesSize env) (api_config libs env num_cpu)
unfolding api_config Took
api_config-TakesSize libs env num_cpu = and_then-Holds (TakesSize env) _ _ λ u e0.
    and_then-Holds (TakesSize env) _ _ λ size e1. and_then-Holds (TakesSize env) _ _ λ conc e2.
      and_then-Holds (TakesSize env) _ _ λ redis e3. and_then-Holds (TakesSize env) _ _ λ sizing e4.
        and_then-Holds (TakesSize env) _ _ λ auth e5.
          if-Holds (TakesSize env) (is_empty (env (lit "PORT"))) _ _ (record {
            from_env = e1;
            concurrency = conc;
            to_storage =
                held (Took (new_sizing size (conc ∷ []))) _ sizing
                  (new_storage-Took libs env size conc redis) e4;
          })

-- The read model takes the same variable, without an error.
abbrev UpdaterSize : Env → UpdaterConfig → Type 0
UpdaterSize env u =
    u.limits.per_page
    ≡ (new_cache_updater (wrap_int32 (lookup_positive_int env (lit "TASKS_PAGE_SIZE") (pos 10)))
        (pos 1) (pos 1) (pos 1)).per_page

updater_config-UpdaterSize :
    (libs : Libraries) (env : Env) (lookup : Str → Option Str)
    → Holds (UpdaterSize env) (updater_config libs env lookup)
unfolding updater_config new_cache_updater
updater_config-UpdaterSize libs env lookup = and_then-Holds (UpdaterSize env) _ _ λ u0 e0.
    and_then-Holds (UpdaterSize env) _ _ λ u1 e1. and_then-Holds (UpdaterSize env) _ _ λ redis e2.
      and_then-Holds (UpdaterSize env) _ _ λ tasks_ttl e3.
        and_then-Holds (UpdaterSize env) _ _ λ settings_ttl e4.
          and_then-Holds (UpdaterSize env) _ _
            λ pages e5. and_then-Holds (UpdaterSize env) _ _ λ u2 e6. refl

-- The setting is `l`, and positive.
abbrev SetTo : ℤ → ℤ → Type 0
SetTo l n = (l ≡ n) × (pos 1 ≤ℤ n)

positive_number-SetTo :
    (key : Str) (o : Option ℤ) (default l : ℤ)
    → l ≡ positive_or o default
    → Holds (SetTo l) (positive_number key o)
positive_number-SetTo key none default l e = tt
positive_number-SetTo key (some m) default l e = elim (Bool-cases (leb_ℤ m (pos 0))) [
  | inl h ↦ rw h tt
  | inr h ↦
      let above : pos 1 ≤ℤ m = ground arith in
      let test : ltb_ℤ (pos 0) m ≡ true = ground arith in
      rw h (e ∙ ap (λ (b : Bool). if b then m else default) test, above)
]

-- Where prism-api accepts the setting, read-model-updater takes the same number.
positive_setting-SetTo :
    (env env' : Env) (key : Str) (default : ℤ)
    → env' key ≡ env key
    → pos 1 ≤ℤ default
    → Holds (SetTo (lookup_positive_int env' key default)) (positive_setting env key default)
unfolding positive_setting lookup_positive_int
positive_setting-SetTo env env' key default same p =
    if_cases (Holds (SetTo (lookup_positive_int env' key default))) (is_empty (env key)) _ _
      (λ h. (rw (same, h) refl, p))
      (λ h. positive_number-SetTo key (atoi (env key)) default _ (rw (same, h) refl))

sizes_match :
    (n conc : ℤ) (s : Sizing) (per_page : ℕ)
    → pos 1 ≤ℤ n
    → n <ℤ pos (2 ^ 31)
    → new_sizing n (conc ∷ []) ≡ some s
    → per_page ≡ (new_cache_updater (wrap_int32 n) (pos 1) (pos 1) (pos 1)).per_page
    → (s.task_page_size ≡ page_size_of n) × (pos per_page ≡ n)
unfolding new_sizing new_cache_updater
sizes_match (pos n) conc s per_page p small e1 e2 =
    let self = wrap_int32_self n (omega (arith, small)) in
    (ground (arith, self), ground (arith, self))
sizes_match (negsuc n) conc s per_page p small e1 e2 = absurd (omega (arith, p))

unless-refused :
    (refused : Bool) (payload : CachedTasks)
    → ((if refused then none else some payload) ≡ some payload) ↔ (refused ≡ false)
unless-refused true payload = (λ e. cc, λ e. cc)
unless-refused false payload = (λ e. refl, λ e. refl)

-- The test of `loadTasksFromCache` on the size in an entry.
abbrev refuses : ℕ → ℤ → Bool
refuses size z = ltb_ℤ (pos 0) z && not (eqb_ℤ (wrap_int32 z) (pos size))

refuses_iff :
    (n size : ℕ)
    → 1 ≤ n
    → n < 2 ^ 31
    → size ≡ page_size_of (pos n)
    → (refuses size (pos n) ≡ false) ↔ (pos n ≤ℤ pos 1000)
refuses_iff n size p small e = rw (wrap_int32_self n small, e) (ground arith)

accepted_size :
    (n : ℤ) (size per_page : ℕ) (payload : CachedTasks)
    → pos 1 ≤ℤ n
    → n <ℤ pos (2 ^ 31)
    → size ≡ page_size_of n
    → pos per_page ≡ n
    → payload.page_size ≡ pos per_page
    → (checked_entry size (some payload) ≡ some payload) ↔ (n ≤ℤ pos 1000)
accepted_size (pos n) size per_page payload p small e1 e2 e3 =
    let size_of : payload.page_size ≡ pos n = e3 ∙ e2 in
    let entry = unless-refused (refuses size payload.page_size) payload in
    let test = refuses_iff n size (omega (arith, p)) (omega (arith, small)) e1 in
    (
      λ e. test.0 (sym (ap (refuses size) size_of) ∙ entry.0 e),
      λ h. entry.1 (ap (refuses size) size_of ∙ test.1 h),
    )
accepted_size (negsuc n) size per_page payload p small e1 e2 e3 = absurd (omega (arith, p))

-- Where both services start with the same TASKS_PAGE_SIZE, below 2^31, prism-api serves from the
-- entries that read-model-updater writes, which give the latter's page size, exactly where the setting
-- is at most 1000.
pub entry_accepted :
    (libs libs' : Libraries) (env env' : Env) (lookup : Str → Option Str) (num_cpu : ℤ)
    (a : ApiConfig) (u : UpdaterConfig) (payload : CachedTasks)
    → api_config libs env num_cpu ≡ ok a
    → updater_config libs' env' lookup ≡ ok u
    → env' (lit "TASKS_PAGE_SIZE") ≡ env (lit "TASKS_PAGE_SIZE")
    → a.task_page_size <ℤ pos (2 ^ 31)
    → payload.page_size ≡ pos u.limits.per_page
    → (checked_entry a.sizing.task_page_size (some payload) ≡ some payload)
      ↔ (a.task_page_size ≤ℤ pos 1000)
entry_accepted libs libs' env env' lookup num_cpu a u payload ea eu same small written =
    let t = held (TakesSize env) _ a (api_config-TakesSize libs env num_cpu) ea in
    let w = held (UpdaterSize env') _ u (updater_config-UpdaterSize libs' env' lookup) eu in
    let n =
      held _ _ a.task_page_size
        (positive_setting-SetTo env env' (lit "TASKS_PAGE_SIZE") (pos 10) same (omega arith))
        t.from_env in
    let m =
      sizes_match a.task_page_size t.concurrency a.sizing u.limits.per_page n.1 small t.to_storage
        (w ∙ ap (λ z. (new_cache_updater (wrap_int32 z) (pos 1) (pos 1) (pos 1)).per_page) n.0) in
    accepted_size a.task_page_size a.sizing.task_page_size u.limits.per_page payload n.1 small m.0
      m.1 written
