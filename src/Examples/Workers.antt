-- ===== src/Examples/Workers.antt =====
-- A pool with one worker.
use prism_plan.Shared.{
  ◌<◌, ◌≡◌, refl, ◌⊎◌, [], ◌∷◌, none, some, Bool, true, lit, str_eq, is_empty, pos, atoi,
  if◌then◌else◌,
}
use prism_plan.Api.Pool.{Env, sender_sizes, lookup_positive_int, EnqueueJob, try_send_non_blocking}
use prism_plan.Api.Pool.Workers.{
  Pool, init_command_sender, init_pool, Step, send, take_job, enqueue, close_jobs, worker_done,
  Reach, here, next,
}
use prism_plan.Api.Pool.Workers.Drained.{
  count_of, CanStep, steps_left, Runs, sender_drained, shutdown_ends,
}

abbrev a_job : EnqueueJob
a_job = record { user_id = lit "u"; cmds = [] }

abbrev closing : Pool
closing = record {
  ch = record { buffer = a_job ∷ []; capacity = 2; closed = true };
  idle = 1;
  held = [];
  returned = 0;
  sent_jobs = a_job ∷ [];
  enqueued = [];
  log = [];
}

abbrev ended : Pool
ended = record {
  ch = record { buffer = []; capacity = 2; closed = true };
  idle = 0;
  held = [];
  returned = 1;
  sent_jobs = a_job ∷ [];
  enqueued = a_job ∷ [];
  log = record { error = lit "down"; user = lit "u"; count = 0 } ∷ [];
}

Reach-closing : Reach 1 2 closing
unfolding init_pool try_send_non_blocking
Reach-closing = next (next here (send a_job _ refl)) (close_jobs refl)

Reach-ended : Reach 1 2 ended
Reach-ended =
    next
      (next (next Reach-closing (take_job 0 a_job [] refl refl))
        (enqueue [] a_job [] (some (lit "down")) refl))
      (worker_done 0 refl refl refl)

-- One worker, and room for two jobs.
abbrev small_pool : Env
small_pool key =
    if str_eq key (lit "ENQUEUE_WORKERS")
    then lit "1"
    else if str_eq key (lit "ENQUEUE_BUFFER")
    then lit "2"
    else []

Runs-ended : Runs (init_command_sender (λ s. none) small_pool (pos 4)) ended
unfolding init_command_sender sender_sizes lookup_positive_int atoi str_eq is_empty
Runs-ended = Reach-ended

sender_drained_example :
    (ended.ch.closed ≡ true)
    × (ended.ch.buffer ≡ [])
    × ((test : EnqueueJob → Bool) → count_of test ended.enqueued ≡ count_of test ended.sent_jobs)
unfolding init_command_sender sender_sizes lookup_positive_int atoi str_eq is_empty
sender_drained_example = sender_drained (λ s. none) small_pool (pos 4) ended Runs-ended refl

shutdown_ends_example :
    ((closing.returned ≡ 1) ⊎ CanStep closing)
    × ((q : Pool) → Step closing q → (q.ch.closed ≡ true) × (steps_left q < steps_left closing))
shutdown_ends_example = shutdown_ends 1 2 closing Reach-closing refl
