-- ===== src/Api/Pool/Workers/Drained.antt =====
-- What becomes of the jobs that the pool has accepted, and of its workers.
use prism_plan.Shared.{
  ℕ, zero, suc, ◌+◌, ◌*◌, ◌≤◌, ◌<◌, ◌≡◌, refl, ap, subst, ◌⊎◌, inl, inr, List, [], ◌∷◌, ◌++◌,
  Option, none, Bool, true, false, Str, ℤ, pos_part, arith, if_cases, if◌then◌else◌, length,
  length-append,
}
use prism_plan.Api.Pool.Sizing.{sender_sizes_bounds}
use prism_plan.Api.Pool.{
  Env, sender_sizes, EnqueueJob, Jobs, Send, sent, try_send_non_blocking, has_room, put_job,
}
use prism_plan.Api.Pool.Workers.{
  Pool, Sender, init_command_sender, init_pool, Step, send, take_job, enqueue, close_jobs,
  worker_done, Reach, here, next,
}

-- How many of the jobs pass a test.
abbrev pub count_of : (EnqueueJob → Bool) → List EnqueueJob → ℕ
count_of test [] = 0
count_of test (job ∷ jobs) = (if test job then 1 else 0) + count_of test jobs

count_of-append :
    (test : EnqueueJob → Bool) (jobs more : List EnqueueJob)
    → count_of test (jobs ++ more) ≡ count_of test jobs + count_of test more
count_of-append test [] more = omega arith
count_of-append test (job ∷ jobs) more = omega (arith, count_of-append test jobs more)

count_of-middle :
    (test : EnqueueJob → Bool) (before : List EnqueueJob) (job : EnqueueJob)
    (after : List EnqueueJob)
    → count_of test (before ++ (job ∷ after))
      ≡ count_of test (job ∷ []) + count_of test (before ++ after)
count_of-middle test [] job after = omega arith
count_of-middle test (x ∷ before) job after = omega (arith, count_of-middle test before job after)

-- A send that succeeds puts the job at the end of an open channel.
Puts : Jobs → EnqueueJob → Send × Jobs → Type 0
Puts ch job r = r.0 ≡ sent → (r.1 ≡ put_job ch job) × (ch.closed ≡ false)

try_send_non_blocking-Puts :
    (ch : Jobs) (job : EnqueueJob) → Puts ch job (try_send_non_blocking ch job)
unfolding try_send_non_blocking Puts
try_send_non_blocking-Puts ch job =
    if_cases (Puts ch job) ch.closed _ _ (λ closed q. cc)
      λ opened. if_cases (Puts ch job) (has_room ch) _ _ (λ room q. (refl, opened)) (λ full q. cc)

sent_job :
    (ch : Jobs) (job : EnqueueJob) (ch' : Jobs)
    → try_send_non_blocking ch job ≡ (sent, ch')
    → (ch' ≡ put_job ch job) × (ch.closed ≡ false)
unfolding Puts
sent_job ch job ch' e = subst (Puts ch job) e (try_send_non_blocking-Puts ch job) refl

-- Every accepted job is in the buffer, with one worker, or has been enqueued; and no worker is lost.
record Accounted (worker_count : ℕ) (p : Pool) : Type 0 where
  jobs :
      (test : EnqueueJob → Bool)
      → count_of test p.sent_jobs
        ≡ count_of test p.ch.buffer + count_of test p.held + count_of test p.enqueued
  workers : p.idle + length p.held + p.returned ≡ worker_count
  ended : (p.returned ≡ 0) ⊎ ((p.ch.closed ≡ true) × (p.ch.buffer ≡ []))

Step-Accounted :
    (worker_count : ℕ) (p q : Pool) → Accounted worker_count p → Step p q → Accounted worker_count q
Step-Accounted n p q v (send job ch e) =
    let put = sent_job p.ch job ch e in
    record {
      jobs = λ test. omega (
        arith,
        v.jobs test,
        count_of-append test p.sent_jobs (job ∷ []),
        count_of-append test p.ch.buffer (job ∷ []),
        ap (λ (c : Jobs). count_of test c.buffer) put.0,
      );
      workers = v.workers;
      ended = elim v.ended [ inl z ↦ inl z | inr (c, b) ↦ cc (c, put.1) ];
    }
Step-Accounted n p q v (take_job i job rest ei eb) = record {
  jobs = λ test. omega (arith, v.jobs test, ap (count_of test) eb);
  workers = omega (arith, v.workers);
  ended = elim v.ended [ inl z ↦ inl z | inr (c, b) ↦ cc (b, eb) ];
}
Step-Accounted n p q v (enqueue before job after e eh) = record {
  jobs = λ test. omega (
    arith,
    v.jobs test,
    ap (count_of test) eh,
    count_of-middle test before job after,
    count_of-append test p.enqueued (job ∷ []),
  );
  workers = omega (
    arith,
    v.workers,
    ap (λ (l : List EnqueueJob). length l) eh,
    length-append before (job ∷ after),
    length-append before after,
  );
  ended = v.ended;
}
Step-Accounted n p q v (close_jobs ec) = record {
  jobs = v.jobs;
  workers = v.workers;
  ended = elim v.ended [ inl z ↦ inl z | inr (c, b) ↦ inr (refl, b) ];
}
Step-Accounted n p q v (worker_done i ei eb ec) = record {
  jobs = v.jobs;
  workers = omega (arith, v.workers);
  ended = inr (ec, eb);
}

Reach-Accounted :
    (worker_count job_buf : ℕ) (p : Pool) → Reach worker_count job_buf p → Accounted worker_count p
unfolding init_pool
Reach-Accounted n buf p here = record {
  jobs = λ test. omega arith;
  workers = omega arith;
  ended = inl refl;
}
Reach-Accounted n buf s (next {p} {q} r st) = Step-Accounted n p q (Reach-Accounted n buf p r) st

length-zero : (jobs : List EnqueueJob) → length jobs ≡ 0 → jobs ≡ []
length-zero [] h = refl
length-zero (job ∷ jobs) h = absurd (omega (arith, h))

all_returned-drained :
    (worker_count job_buf : ℕ) (p : Pool)
    → Reach worker_count job_buf p
    → 1 ≤ worker_count
    → p.returned ≡ worker_count
    → (p.ch.closed ≡ true)
      × (p.ch.buffer ≡ [])
      × ((test : EnqueueJob → Bool) → count_of test p.enqueued ≡ count_of test p.sent_jobs)
all_returned-drained n buf p r some_worker all =
    let v = Reach-Accounted n buf p r in
    let none_held = length-zero p.held (omega (arith, v.workers)) in
    elim v.ended [
      | inl z ↦ absurd (omega (arith, z))
      | inr (c, b) ↦ (
        c,
        b,
        λ test. omega (arith, v.jobs test, ap (count_of test) b, ap (count_of test) none_held),
      )
    ]

-- A run of the pool that `initCommandSender` starts.
abbrev pub Runs : Sender → Pool → Type 0
Runs s p = Reach (pos_part s.worker_count) (pos_part s.job_buf) p

-- Whatever the environment holds, once every worker of the pool that `initCommandSender` started has
-- returned, the channel is closed, no job is left in it, and every job that it had accepted has been
-- through `EnqueueCommands` as often as it was accepted.
pub sender_drained :
    (parse_duration : Str → Option ℤ) (env : Env) (num_cpu : ℤ) (p : Pool)
    → Runs (init_command_sender parse_duration env num_cpu) p
    → p.returned ≡ pos_part (init_command_sender parse_duration env num_cpu).worker_count
    → (p.ch.closed ≡ true)
      × (p.ch.buffer ≡ [])
      × ((test : EnqueueJob → Bool) → count_of test p.enqueued ≡ count_of test p.sent_jobs)
unfolding init_command_sender
sender_drained parse_duration env num_cpu p r all =
    all_returned-drained (pos_part (sender_sizes env num_cpu).0)
      (pos_part (sender_sizes env num_cpu).1) p r
      (omega (arith, (sender_sizes_bounds env num_cpu).0)) all

-- A bound on the steps that a closed pool has left.
pub steps_left : Pool → ℕ
steps_left p = 3 * length p.ch.buffer + 2 * length p.held + p.idle

abbrev pub CanStep : Pool → Type 0
CanStep p = (q : Pool) × Step p q

Step-steps_left :
    (p q : Pool)
    → p.ch.closed ≡ true
    → Step p q
    → (q.ch.closed ≡ true) × (steps_left q < steps_left p)
unfolding steps_left
Step-steps_left p q c (send job ch e) = cc (c, (sent_job p.ch job ch e).1)
Step-steps_left p q c (take_job i job rest ei eb) =
    (c, omega (arith, ap (λ (l : List EnqueueJob). length l) eb))
Step-steps_left p q c (enqueue before job after e eh) = (
  c,
  omega (
    arith,
    ap (λ (l : List EnqueueJob). length l) eh,
    length-append before (job ∷ after),
    length-append before after,
  ),
)
Step-steps_left p q c (close_jobs ec) = cc
Step-steps_left p q c (worker_done i ei eb ec) = (c, omega arith)

List-cases :
    (xs : List EnqueueJob) → (xs ≡ []) ⊎ ((x : EnqueueJob) × (ys : List EnqueueJob) × (xs ≡ x ∷ ys))
List-cases [] = inl refl
List-cases (x ∷ ys) = inr (x, ys, refl)

ℕ-cases : (n : ℕ) → (n ≡ 0) ⊎ ((i : ℕ) × (n ≡ suc i))
ℕ-cases zero = inl refl
ℕ-cases (suc i) = inr (i, refl)

closed_moves :
    (n : ℕ) (p : Pool) → Accounted n p → p.ch.closed ≡ true → (p.returned ≡ n) ⊎ CanStep p
closed_moves n p v c = elim (List-cases p.held) [
  | inr (job, jobs, eh) ↦ inr (_, enqueue [] job jobs none eh)
  | inl eh ↦ elim (ℕ-cases p.idle) [
    | inl z ↦ inl (omega (arith, v.workers, ap (λ (l : List EnqueueJob). length l) eh))
    | inr (i, ei) ↦ elim (List-cases p.ch.buffer) [
      | inl eb ↦ inr (_, worker_done i ei eb c)
      | inr (job, jobs, eb) ↦ inr (_, take_job i job jobs ei eb)
    ]
  ]
]

-- `workerWG.Wait()` comes to its end: once the channel is closed, either every worker has returned or
-- something can move; and every move leaves the channel closed and brings the end nearer.
pub shutdown_ends :
    (worker_count job_buf : ℕ) (p : Pool)
    → Reach worker_count job_buf p
    → p.ch.closed ≡ true
    → ((p.returned ≡ worker_count) ⊎ CanStep p)
      × ((q : Pool) → Step p q → (q.ch.closed ≡ true) × (steps_left q < steps_left p))
shutdown_ends n buf p r c =
    (closed_moves n p (Reach-Accounted n buf p r) c, λ q st. Step-steps_left p q c st)
