-- ===== src/Api/Pool/Workers.antt =====
-- The workers of prism-api/api/pool.go, from `initCommandSender` to the end of
-- `shutdownCommandSender`. A worker is idle at its `range` over the channel, holds a job inside
-- `EnqueueCommands`, or has returned.
pub mod Drained
use prism_plan.Shared.{
  ℕ, zero, suc, ◌+◌, ◌-◌, ◌*◌, ◌/◌, ◌%◌, ◌^◌, ◌≤◌, ◌<◌, ◌≡◌, ◌≢◌, refl, sym, ap, ◌∙◌, subst, ◌↔◌,
  ◌⊎◌, inl, inr, List, [], ◌∷◌, ◌++◌, map, Option, none, some, Bool, true, false, not, ◌&&◌, ◌||◌,
  Str, lit, IsByte, str_eq, is_empty, str_eq_refl, str_eq_iff, str_eq_ne, is_empty_iff, Result, ok,
  err, ℤ, pos, negsuc, neg_part, pos_part, ◌+ℤ◌, ◌≤ℤ◌, ◌<ℤ◌, leb_ℤ, ltb_ℤ, eqb_ℤ, wrap_int64,
  wrap_int32, wrap_int64_self, wrap_int32_self, IsInt64, is_int64, scale, atoi, format_int,
  atoi-format_int, arith, ltb, leb, ◌==◌, ==_iff, ==_refl, Bool-cases, if_cases, if_cases_both,
  Option-cases, if◌then◌else◌, length, get_elem?, take, drop, length-append, length-take,
  length-drop, length-map, take-append_left, drop-append_left, take-length, All,
}
use prism_plan.Api.Pool.{
  Env, positive_or, default_handoff_timeout, sender_sizes, EnqueueJob, Jobs, Send, sent,
  try_send_non_blocking,
}

-- The line of the log for a job that was not enqueued: the error, the user and the number of commands.
pub record ErrorLine : Type 0 where
  pub error : Str
  pub user : Str
  pub count : ℕ

-- `sent_jobs` are the jobs that the channel has accepted, and `enqueued` those that a call of
-- `EnqueueCommands` has returned for, oldest first.
pub record Pool : Type 0 where
  pub ch : Jobs
  pub idle : ℕ
  pub held : List EnqueueJob
  pub returned : ℕ
  pub sent_jobs : List EnqueueJob
  pub enqueued : List EnqueueJob
  pub log : List ErrorLine

-- The pool that `initCommandSender` starts, with `worker_count` workers.
unfoldable pub init_pool : ℕ → ℕ → Pool
init_pool worker_count job_buf = record {
  ch = record { buffer = []; capacity = job_buf; closed = false };
  idle = worker_count;
  held = [];
  returned = 0;
  sent_jobs = [];
  enqueued = [];
  log = [];
}

-- `envDur`; `parse_duration` is `time.ParseDuration`, in nanoseconds.
unfoldable pub env_dur : (Str → Option ℤ) → Env → Str → ℤ → ℤ
env_dur parse_duration env key fallback =
    if is_empty (env key) then fallback else positive_or (parse_duration (env key)) fallback

-- What `initCommandSender` sets up.
pub record Sender : Type 0 where
  pub worker_count : ℤ
  pub job_buf : ℤ
  pub enqueue_timeout : ℤ
  pub handoff_timeout : ℤ
  pub pool : Pool

-- `initCommandSender`, with a logger, on its first call.
unfoldable pub init_command_sender : (Str → Option ℤ) → Env → ℤ → Sender
unfolding init_pool env_dur
init_command_sender parse_duration env num_cpu =
    let sizes = sender_sizes env num_cpu in
    record {
      worker_count = sizes.0;
      job_buf = sizes.1;
      enqueue_timeout = env_dur parse_duration env (lit "ENQUEUE_TIMEOUT") (pos 60000000000);
      handoff_timeout =
          env_dur parse_duration env (lit "ENQUEUE_HANDOFF_TIMEOUT") (pos default_handoff_timeout);
      pool = init_pool (pos_part sizes.0) (pos_part sizes.1);
    }

-- What a worker logs after `EnqueueCommands`.
abbrev pub logged : EnqueueJob → Option Str → List ErrorLine
logged job none = []
logged job (some e) = record { error = e; user = job.user_id; count = length job.cmds } ∷ []

pub data Step (p : Pool) : Pool → Type 0 where
  -- a handler sends
  send :
      (job : EnqueueJob) (ch : Jobs)
      → try_send_non_blocking p.ch job ≡ (sent, ch)
      → Step p (record p { ch = ch; sent_jobs = p.sent_jobs ++ (job ∷ []) })
  -- `for j := range jobCh`
  take_job :
      (i : ℕ) (job : EnqueueJob) (rest : List EnqueueJob)
      → p.idle ≡ suc i
      → p.ch.buffer ≡ job ∷ rest
      → Step p (record p { ch = record p.ch { buffer = rest }; idle = i; held = job ∷ p.held })
  -- `EnqueueCommands` returns, with an error or without
  enqueue :
      (before : List EnqueueJob) (job : EnqueueJob) (after : List EnqueueJob) (e : Option Str)
      → p.held ≡ before ++ (job ∷ after)
      → Step p (record p {
        held = before ++ after;
        idle = suc p.idle;
        enqueued = p.enqueued ++ (job ∷ []);
        log = p.log ++ logged job e;
      })
  -- `close(jobs)`
  close_jobs : p.ch.closed ≡ false → Step p (record p { ch = record p.ch { closed = true } })
  -- the channel is closed and empty: `workerWG.Done()`
  worker_done :
      (i : ℕ)
      → p.idle ≡ suc i
      → p.ch.buffer ≡ []
      → p.ch.closed ≡ true
      → Step p (record p { idle = i; returned = suc p.returned })

pub data Reach (worker_count job_buf : ℕ) : Pool → Type 0 where
  here : Reach worker_count job_buf (init_pool worker_count job_buf)
  next : {p q : Pool} → Reach worker_count job_buf p → Step p q → Reach worker_count job_buf q
