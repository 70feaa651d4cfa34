-- ===== src/Api/Pool.antt =====
-- prism-api/api/pool.go: the bounded buffer between the HTTP handlers and the enqueue workers.
pub mod Sizing
pub mod Handoff
pub mod Workers
use prism_plan.Shared.{
  ℕ, zero, suc, ◌+◌, ◌-◌, ◌*◌, ◌/◌, ◌%◌, ◌^◌, ◌≤◌, ◌<◌, ◌≡◌, ◌≢◌, refl, sym, ap, ◌∙◌, subst, ◌↔◌,
  ◌⊎◌, inl, inr, List, [], ◌∷◌, ◌++◌, map, Option, none, some, Bool, true, false, not, ◌&&◌, ◌||◌,
  Str, lit, IsByte, str_eq, is_empty, str_eq_refl, str_eq_iff, str_eq_ne, is_empty_iff, Result, ok,
  err, ℤ, pos, negsuc, neg_part, pos_part, ◌+ℤ◌, ◌≤ℤ◌, ◌<ℤ◌, leb_ℤ, ltb_ℤ, eqb_ℤ, wrap_int64,
  wrap_int32, wrap_int64_self, wrap_int32_self, IsInt64, is_int64, scale, atoi, arith, ltb, leb,
  ◌==◌, ==_iff, ==_refl, Bool-cases, Option-cases, if◌then◌else◌, length, get_elem?, take, drop,
  length-append, length-take, length-drop, length-map, take-append_left, drop-append_left,
  take-length, All,
}
use prism_plan.Api.Commands.{Command}

pub record EnqueueJob : Type 0 where
  pub user_id : Str
  pub cmds : List Command

abbrev pub min_enqueue_workers : ℕ
min_enqueue_workers = 32

abbrev pub max_enqueue_workers : ℕ
max_enqueue_workers = 192

abbrev pub workers_per_cpu : ℕ
workers_per_cpu = 32

abbrev pub workers_per_queue_unit : ℕ
workers_per_queue_unit = 4

abbrev pub buffer_per_worker : ℕ
buffer_per_worker = 128

abbrev pub min_enqueue_buffer : ℕ
min_enqueue_buffer = min_enqueue_workers * buffer_per_worker

abbrev pub max_enqueue_buffer : ℕ
max_enqueue_buffer = 64 * 1024

-- In nanoseconds.
abbrev pub default_handoff_timeout : ℕ
default_handoff_timeout = 50 * 1000000

abbrev pub default_queue_parallel : ℕ
default_queue_parallel = 8

-- `os.Getenv`: the empty string for a variable that is not set.
abbrev pub Env : Type 0
Env = Str → Str

abbrev pub positive_or : Option ℤ → ℤ → ℤ
positive_or none fallback = fallback
positive_or (some n) fallback = if ltb_ℤ (pos 0) n then n else fallback

-- `lookupPositiveInt`; `envInt` of prism-api/api/utils.go has the same text.
unfoldable pub lookup_positive_int : Env → Str → ℤ → ℤ
lookup_positive_int env key fallback =
    if is_empty (env key) then fallback else positive_or (atoi (env key)) fallback

-- `deriveQueueConcurrency`
pub derive_queue_concurrency : Env → ℤ
derive_queue_concurrency env =
    if is_empty (env (lit "COMMAND_QUEUE_CONCURRENCY"))
    then pos default_queue_parallel
    else positive_or (atoi (env (lit "COMMAND_QUEUE_CONCURRENCY"))) (pos default_queue_parallel)

abbrev pub at_least_one_of : ℤ → ℕ → ℤ
at_least_one_of n default = if leb_ℤ n (pos 0) then pos default else n

abbrev pub larger : ℤ → ℤ → ℤ
larger a b = if ltb_ℤ a b then b else a

abbrev pub clamp : ℕ → ℕ → ℤ → ℤ
clamp lo hi x = if ltb_ℤ x (pos lo) then pos lo else if ltb_ℤ (pos hi) x then pos hi else x

-- The workers asked for, before the limits.
pub scaled_demand : ℤ → ℤ → ℤ
unfolding wrap_int64
scaled_demand queue_concurrency num_cpu =
    larger
      (wrap_int64
        (scale workers_per_queue_unit (at_least_one_of queue_concurrency default_queue_parallel)))
      (wrap_int64 (scale workers_per_cpu (at_least_one_of num_cpu 1)))

-- `computeWorkerDefaults`: workers and buffer, from the queue's concurrency and the number of CPUs.
pub compute_worker_defaults : ℤ → ℤ → ℤ × ℤ
compute_worker_defaults queue_concurrency num_cpu =
    let workers =
      clamp min_enqueue_workers max_enqueue_workers (scaled_demand queue_concurrency num_cpu) in
    (
      workers,
      clamp min_enqueue_buffer max_enqueue_buffer (wrap_int64 (scale buffer_per_worker workers)),
    )

-- The sizes that `initCommandSender` settles on: `workerCount` and `jobBuf`.
unfoldable pub sender_sizes : Env → ℤ → ℤ × ℤ
unfolding lookup_positive_int
sender_sizes env num_cpu =
    let defaults = compute_worker_defaults (derive_queue_concurrency env) num_cpu in
    let worker_count = lookup_positive_int env (lit "ENQUEUE_WORKERS") defaults.0 in
    let job_buf = lookup_positive_int env (lit "ENQUEUE_BUFFER") defaults.1 in
    (worker_count, if ltb_ℤ job_buf worker_count then worker_count else job_buf)

-- A Go channel of jobs: what it buffers, oldest first.
pub record Jobs : Type 0 where
  pub buffer : List EnqueueJob
  pub capacity : ℕ
  pub closed : Bool

-- What a send reports: sent, refused, or the recovered panic of a send on a closed channel.
pub data Send : Type 0 where
  sent refused closed_channel : Send

abbrev pub has_room : Jobs → Bool
has_room ch = ltb (length ch.buffer) ch.capacity

abbrev pub put_job : Jobs → EnqueueJob → Jobs
put_job ch job = record ch { buffer = ch.buffer ++ (job ∷ []) }

-- `trySendNonBlocking`
unfoldable pub try_send_non_blocking : Jobs → EnqueueJob → Send × Jobs
try_send_non_blocking ch job =
    if ch.closed
    then (closed_channel, ch)
    else if has_room ch
    then (sent, put_job ch job)
    else (refused, ch)

-- What happens while a send waits: a worker takes the oldest job, the timer fires, or the channel
-- is closed by `shutdownCommandSender`. A place that another waiting handler is given is left out.
pub data Event : Type 0 where
  taken fired shut : Event

-- `sendWithTimer` against what happens while it waits; it goes on waiting where nothing more does.
unfoldable pub send_with_timer : Jobs → EnqueueJob → List Event → Option (Send × Jobs)
send_with_timer ch job [] =
    if ch.closed
    then some (closed_channel, ch)
    else if has_room ch
    then some (sent, put_job ch job)
    else none
send_with_timer ch job (fired ∷ events) =
    if ch.closed
    then some (closed_channel, ch)
    else if has_room ch
    then some (sent, put_job ch job)
    else some (refused, ch)
send_with_timer ch job (shut ∷ events) =
    let rest = send_with_timer (record ch { closed = true }) job events in
    if ch.closed
    then some (closed_channel, ch)
    else if has_room ch
    then some (sent, put_job ch job)
    else rest
send_with_timer ch job (taken ∷ events) =
    let rest = send_with_timer (record ch { buffer = drop 1 ch.buffer }) job events in
    if ch.closed
    then some (closed_channel, ch)
    else if has_room ch
    then some (sent, put_job ch job)
    else rest

abbrev pub accepted : Send × Jobs → Bool × Option Jobs
accepted (sent, ch) = (true, some ch)
accepted (refused, ch) = (false, some ch)
accepted (closed_channel, ch) = (false, some ch)

abbrev pub wait_for : Option (Send × Jobs) → Option (Bool × Option Jobs)
wait_for none = none
wait_for (some r) = some (accepted r)

abbrev pub after_first_try : ℤ → EnqueueJob → List Event → Send × Jobs → Option (Bool × Option Jobs)
after_first_try handoff_timeout job events (sent, ch) = some (true, some ch)
after_first_try handoff_timeout job events (closed_channel, ch) = some (false, some ch)
after_first_try handoff_timeout job events (refused, ch) =
    if leb_ℤ handoff_timeout (pos 0)
    then some (false, some ch)
    else wait_for (send_with_timer ch job events)

-- `tryEnqueueJob`: whether the job was handed over, and the channel after; no channel is a nil one.
unfoldable pub try_enqueue_job :
    Option Jobs → ℤ → EnqueueJob → List Event → Option (Bool × Option Jobs)
unfolding try_send_non_blocking send_with_timer
try_enqueue_job none handoff_timeout job events = some (false, none)
try_enqueue_job (some ch) handoff_timeout job events =
    after_first_try handoff_timeout job events (try_send_non_blocking ch job)
