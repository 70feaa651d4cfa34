-- ===== src/Examples/Api.antt =====
-- prism-api/api at concrete inputs.
use prism_plan.Shared.{
  ◌≡◌, refl, inl, inr, [], ◌∷◌, some, false, Str, lit, str_eq, pos, wrap_int64, arith,
  if◌then◌else◌,
}
use prism_plan.Api.Timestamps.{reserve}
use prism_plan.Api.Timestamps.Reservations.{
  returned, Grant, grant, set_call, enter, load, swap, retry, Reach, here, next, Increasing,
  Reach-Increasing,
}
use prism_plan.Api.Commands.{Command, finalize_commands}
use prism_plan.Api.Commands.Keys.{
  AllStamped, Distinct, finalize_commands-AllStamped, finalize_commands-Distinct,
}
use prism_plan.Api.Pool.{
  Env, Jobs, EnqueueJob, taken, fired, compute_worker_defaults, try_enqueue_job,
}
use prism_plan.Api.Pool.Sizing.{Fewest, compute_worker_defaults-Fewest}
use prism_plan.Api.Pool.Handoff.{Returns, try_enqueue_job-Returns}

-- Two calls load the same value; the first swaps, the second has to load again.
abbrev first_grant : Grant
first_grant = grant 1 (pos 50) (pos 0)

abbrev second_grant : Grant
second_grant = grant 0 (pos 40) first_grant.end

raced : Reach (record {
  last = second_grant.end;
  calls = returned 1 first_grant.start ∷ returned 0 second_grant.start ∷ [];
  grants = second_grant ∷ first_grant ∷ [];
})
unfolding reserve wrap_int64 set_call
raced =
    next
      (next
        (next
          (next
            (next
              (next (next (next here (enter 0 (omega arith))) (enter 1 (omega arith)))
                (load 0 1 (pos 50) refl))
              (load 1 0 (pos 40) refl))
            (swap 0 1 (pos 50) (pos 0) refl refl))
          (retry 1 0 (pos 40) (pos 0) refl (λ e. cc)))
        (load 1 0 (pos 40) refl))
      (swap 1 0 (pos 40) first_grant.end refl refl)

Reach-Increasing_example : Increasing (second_grant ∷ first_grant ∷ [])
unfolding reserve wrap_int64 set_call
Reach-Increasing_example = Reach-Increasing raced (omega arith)

abbrev bare : Command
bare = record {
  id = [];
  idempotency_key = [];
  entity_type = lit "task";
  type = lit "create-task";
  payload = lit "{}";
  timestamp = pos 0;
}

abbrev keyed : Command
keyed = record bare { idempotency_key = lit "k1" }

finalize_commands-AllStamped_example :
    AllStamped 101
      (bare ∷ keyed ∷ [])
      (finalize_commands (pos 90) (pos 100) (bare ∷ keyed ∷ [])).0.0
      (finalize_commands (pos 90) (pos 100) (bare ∷ keyed ∷ [])).0.1
    × ((finalize_commands (pos 90) (pos 100) (bare ∷ keyed ∷ [])).1 ≡ pos 102)
finalize_commands-AllStamped_example =
    finalize_commands-AllStamped 90 100 bare (keyed ∷ []) (omega arith)

finalize_commands-Distinct_example :
    Distinct (finalize_commands (pos 90) (pos 100) (bare ∷ bare ∷ [])).0.1
finalize_commands-Distinct_example =
    finalize_commands-Distinct 90 100 bare (bare ∷ []) (omega arith) (refl, (refl, tt))

-- The setting is not positive: 8 units ask for 32 workers, and 4 CPUs for 128.
compute_worker_defaults-Fewest_example : Fewest 8 4 (compute_worker_defaults (pos 0) (pos 4))
compute_worker_defaults-Fewest_example =
    compute_worker_defaults-Fewest (pos 0) (pos 4) 8 4 (inl (omega arith, refl))
      (inr (refl, omega arith)) (omega arith) (omega arith)

abbrev small_buffer : Env
small_buffer key = if str_eq key (lit "ENQUEUE_BUFFER") then lit "3" else []

abbrev job : Str → EnqueueJob
job user = record { user_id = user; cmds = bare ∷ [] }

abbrev full : Jobs
full = record { buffer = job (lit "a") ∷ []; capacity = 1; closed = false }

try_enqueue_job-Returns_example :
    Returns full
      (job (lit "b"))
      (try_enqueue_job (some full) (pos 50) (job (lit "b")) (taken ∷ fired ∷ []))
try_enqueue_job-Returns_example =
    try_enqueue_job-Returns full (pos 50) (job (lit "b")) (taken ∷ fired ∷ []) tt
