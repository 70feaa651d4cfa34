-- ===== src/Storage/Enqueue.antt =====
-- `EnqueueCommands` of prism-api/storage/storage.go: the marshalled commands go to the queue one by
-- one, or through a channel to several goroutines that send at the same time.
pub mod Counting
pub mod Invariant
pub mod Delivery
pub mod Progress
use prism_plan.Shared.{
  ℕ, zero, suc, ◌+◌, ◌-◌, ◌*◌, ◌/◌, ◌%◌, ◌^◌, ◌≤◌, ◌<◌, ◌≡◌, ◌≢◌, refl, sym, ap, ◌∙◌, subst, ◌↔◌,
  ◌⊎◌, inl, inr, List, [], ◌∷◌, ◌++◌, map, Option, none, some, Bool, true, false, not, ◌&&◌, ◌||◌,
  Str, lit, IsByte, str_eq, is_empty, str_eq_refl, str_eq_iff, str_eq_ne, is_empty_iff, Result, ok,
  err, ℤ, pos, negsuc, neg_part, pos_part, ◌+ℤ◌, ◌≤ℤ◌, ◌<ℤ◌, leb_ℤ, ltb_ℤ, eqb_ℤ, wrap_int64,
  wrap_int32, wrap_int64_self, wrap_int32_self, IsInt64, is_int64, scale, atoi, arith, ltb, leb,
  ◌==◌, ==_iff, ==_refl, Bool-cases, if_cases, Option-cases, if◌then◌else◌, length, get_elem?, take,
  drop, length-append, length-take, length-drop, length-map, take-append_left, drop-append_left,
  take-length, All,
}
use prism_plan.Api.Commands.{Command}

-- The loop that fills `payloads`; `sonic.Marshal` is a parameter, and nothing is its error.
pub marshal_all : (Str → Command → Option Str) → Str → List Command → Option (List Str)
marshal_all marshal user_id [] = some []
marshal_all marshal user_id (cmd ∷ cmds) = elim (marshal user_id cmd) [
  | none ↦ none
  | some payload ↦ elim (marshal_all marshal user_id cmds) [
    | none ↦ none
    | some payloads ↦ some (payload ∷ payloads)
  ]
]

-- The loop for one worker: the answers of the queue in turn, nothing for a success. The result is
-- what was sent, and the first error.
pub send_in_order : (Str → Option Str) → List Str → List Str × Option Str
send_in_order enqueue_message [] = ([], none)
send_in_order enqueue_message (payload ∷ payloads) = elim (enqueue_message payload) [
  | some e ↦ ([], some e)
  | none ↦ let (sent, failure) = send_in_order enqueue_message payloads in (payload ∷ sent, failure)
]

-- The number of goroutines: at most one for each payload.
pub worker_count : ℤ → List Str → ℕ
worker_count (negsuc n) payloads = 1
worker_count (pos n) payloads =
    if leb n 1 then 1 else if ltb (length payloads) n then length payloads else n

-- A goroutine: at its `select`, inside `EnqueueMessage`, or returned.
pub data Worker : Type 0 where
  waiting : Worker
  sending : Str → Worker
  stopped : Worker

-- The whole call between `go worker()` and `wg.Wait()`. `todo` is what the loop has still to hand
-- over, `sent` what the queue has accepted, `lost` what it has refused.
pub record Run : Type 0 where
  pub todo : List Str
  pub channel : List Str
  pub capacity : ℕ
  pub closed : Bool
  pub workers : List Worker
  pub cancelled : Bool
  pub parent_done : Bool
  pub first_err : Option Str
  pub sent : List Str
  pub lost : List Str

unfoldable pub waiters : ℕ → List Worker
waiters zero = []
waiters (suc n) = waiting ∷ waiters n

unfoldable pub start : ℕ → List Str → Run
unfolding waiters
start workers payloads = record {
  todo = payloads;
  channel = [];
  capacity = workers;
  closed = false;
  workers = waiters workers;
  cancelled = false;
  parent_done = false;
  first_err = none;
  sent = [];
  lost = [];
}

abbrev pub set_worker : List Worker → ℕ → Worker → List Worker
set_worker [] i w = []
set_worker (x ∷ xs) zero w = w ∷ xs
set_worker (x ∷ xs) (suc i) w = x ∷ set_worker xs i w

-- `once.Do`: the first error stays.
abbrev pub first : Option Str → Str → Option Str
first none e = some e
first (some old) e = some old

pub data Step (r : Run) : Run → Type 0 where
  -- `jobs <- payload`
  produce :
      (p : Str) (ps : List Str)
      → r.todo ≡ p ∷ ps
      → r.closed ≡ false
      → length r.channel < r.capacity
      → Step r (record r { todo = ps; channel = r.channel ++ (p ∷ []) })
  -- `<-ctx.Done()` in the loop, then `close(jobs)`
  abort : r.closed ≡ false → r.cancelled ≡ true → Step r (record r { closed = true })
  -- the loop is through, then `close(jobs)`
  finish : r.todo ≡ [] → r.closed ≡ false → Step r (record r { closed = true })
  -- `payload, ok := <-jobs`
  take_job :
      (i : ℕ) (p : Str) (ps : List Str)
      → get_elem? r.workers i ≡ some waiting
      → r.channel ≡ p ∷ ps
      → Step r (record r { channel = ps; workers = set_worker r.workers i (sending p) })
  -- `!ok`
  drained :
      (i : ℕ)
      → get_elem? r.workers i ≡ some waiting
      → r.channel ≡ []
      → r.closed ≡ true
      → Step r (record r { workers = set_worker r.workers i stopped })
  -- `<-ctx.Done()` in a worker
  give_up :
      (i : ℕ)
      → get_elem? r.workers i ≡ some waiting
      → r.cancelled ≡ true
      → Step r (record r { workers = set_worker r.workers i stopped })
  -- `EnqueueMessage` returns no error
  deliver :
      (i : ℕ) (p : Str)
      → get_elem? r.workers i ≡ some (sending p)
      → Step r (record r { sent = p ∷ r.sent; workers = set_worker r.workers i waiting })
  -- `EnqueueMessage` returns an error
  refuse :
      (i : ℕ) (p e : Str)
      → get_elem? r.workers i ≡ some (sending p)
      → Step r (record r {
        lost = p ∷ r.lost;
        workers = set_worker r.workers i stopped;
        first_err = first r.first_err e;
        cancelled = true;
      })
  -- the caller's context is done: no step of the call, and one that may never come
  parent : r.parent_done ≡ false → Step r (record r { parent_done = true; cancelled = true })

pub data Reach (workers : ℕ) (payloads : List Str) : Run → Type 0 where
  here : Reach workers payloads (start workers payloads)
  next : {r s : Run} → Reach workers payloads r → Step r s → Reach workers payloads s

abbrev pub IsStopped : Worker → Type 0
IsStopped w = w ≡ stopped

-- `wg.Wait()` has returned: the channel is closed and every goroutine has ended.
pub record Returned (r : Run) : Type 0 where
  pub closed : r.closed ≡ true
  pub all_stopped : All IsStopped r.workers

pub data EnqueueError : Type 0 where
  queue_error : Str → EnqueueError
  context_error : EnqueueError

-- What `EnqueueCommands` returns then; nothing for nil.
unfoldable pub outcome : Run → Option EnqueueError
outcome r = elim r.first_err [
  | some e ↦ some (queue_error e)
  | none ↦ if r.parent_done then some context_error else none
]
