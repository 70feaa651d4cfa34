-- ===== src/Examples/Handlers.antt =====
-- The handlers at concrete inputs.
use prism_plan.Shared.{
  ◌≡◌, refl, List, [], ◌∷◌, none, some, true, false, Str, lit, Result, ok, err, ℤ, pos,
}
use prism_plan.Storage.{Task}
use prism_plan.Storage.Fetch.{FetchError, bad_entity}
use prism_plan.Api.Commands.{Command, finalize_commands}
use prism_plan.Api.Pool.{Jobs, fired, try_enqueue_job, send_with_timer}
use prism_plan.Api.Metrics.{Span, new_task_request_metrics}
use prism_plan.Api.Handlers.{
  Durations, Posted, accepted_with, requested_size, get_tasks, post_commands,
}
use prism_plan.Api.Handlers.Answers.{Tells, Kept, get_tasks-Tells, post_commands-Kept}

abbrev no_rows : Str → Str → ℤ → Result FetchError (List Task × Str)
no_rows user_id token size = err bad_entity

abbrev durations : Durations
durations = record { auth = pos 3; fetch = pos 0; encode = pos 7 }

abbrev some_span : Span
some_span = record { trace_id = lit "t"; span_id = lit "s" }

get_tasks-Tells_example :
    Tells
      (λ e. lit "broken")
      (λ tasks next. true)
      (ok (lit "u"))
      (requested_size (lit "20"))
      (λ user. no_rows user [])
      (get_tasks
        (λ e. lit "broken")
        (λ tasks next. true)
        durations
        (new_task_request_metrics true some_span (pos 5))
        (ok (lit "u"))
        []
        (lit "20")
        no_rows)
get_tasks-Tells_example =
    get_tasks-Tells (λ e. lit "broken") (λ tasks next. true) durations true some_span (pos 5)
      (ok (lit "u")) [] (lit "20") no_rows

abbrev command : Command
command = record {
  id = [];
  idempotency_key = lit "k";
  entity_type = lit "task";
  type = lit "create-task";
  payload = lit "{}";
  timestamp = pos 0;
}

-- The buffer is full, and the timer fires before a worker takes a job.
abbrev full : Jobs
full = record {
  buffer = record { user_id = lit "a"; cmds = [] } ∷ [];
  capacity = 1;
  closed = false;
}

abbrev stamped : List Command
stamped = (finalize_commands (pos 9) (pos 3) (command ∷ [])).0.0

abbrev posted : Posted
posted = record {
  answer = accepted_with (finalize_commands (pos 9) (pos 3) (command ∷ [])).0.1;
  jobs = some full;
  inline = some (record { user_id = lit "u"; cmds = stamped });
  last = (finalize_commands (pos 9) (pos 3) (command ∷ [])).1;
}

post_commands-Kept_example :
    Kept full (λ job. none) (record { user_id = lit "u"; cmds = stamped }) posted
    × (posted.answer ≡ accepted_with (finalize_commands (pos 9) (pos 3) (command ∷ [])).0.1)
unfolding post_commands try_enqueue_job send_with_timer
post_commands-Kept_example =
    post_commands-Kept (lit "u") (command ∷ []) (pos 9) (pos 3) full (pos 50) (fired ∷ [])
      (λ job. none) posted refl refl
