-- ===== src/Api/Handlers.antt =====
-- prism-api/api/handlers.go: the three handlers, given what authentication, the decoder of the body and
-- the storage answer. A text and an answer in JSON are taken to reach the response, but for the page of
-- tasks, whose error `getTasks` looks at.
pub mod Answers
use prism_plan.Shared.{
  ℕ, zero, suc, ◌+◌, ◌-◌, ◌*◌, ◌/◌, ◌%◌, ◌^◌, ◌≤◌, ◌<◌, ◌≡◌, ◌≢◌, refl, sym, ap, ◌∙◌, subst, ◌↔◌,
  ◌⊎◌, inl, inr, List, [], ◌∷◌, ◌++◌, map, Option, none, some, Bool, true, false, not, ◌&&◌, ◌||◌,
  Str, lit, IsByte, str_eq, is_empty, str_eq_refl, str_eq_iff, str_eq_ne, is_empty_iff, Result, ok,
  err, ℤ, pos, negsuc, neg_part, pos_part, ◌+ℤ◌, ◌≤ℤ◌, ◌<ℤ◌, leb_ℤ, ltb_ℤ, eqb_ℤ, wrap_int64,
  wrap_int32, wrap_int64_self, wrap_int32_self, IsInt64, is_int64, scale, atoi, arith, ltb, leb,
  ◌==◌, ==_iff, ==_refl, Bool-cases, if_cases, if_cases_both, Option-cases, if◌then◌else◌, length,
  get_elem?, take, drop, length-append, length-take, length-drop, length-map, take-append_left,
  drop-append_left, take-length, All,
}
use prism_plan.Storage.{Task, Settings}
use prism_plan.Storage.Fetch.{
  FetchError, invalid_continuation_token, table_failed, entity_status, bad_entity,
}
use prism_plan.Api.Commands.{Command, finalize_commands}
use prism_plan.Api.Metrics.{
  TaskRequestMetrics, observe_auth, observe_fetch, observe_encode, set_page_token_provided,
  set_tasks_returned, set_has_next_page, set_error_stage,
}
use prism_plan.Api.Pool.{EnqueueJob, Jobs, Event, try_enqueue_job}

pub data Body : Type 0 where
  plain : Str → Body
  tasks_response : List Task → Str → Body
  settings_response : Settings → Body
  keys_response : List Str → Body

-- The status and the body that a handler writes.
pub record Answer : Type 0 where
  pub status : ℕ
  pub body : Body

-- How long the steps of `getTasks` take.
pub record Durations : Type 0 where
  pub auth : ℤ
  pub fetch : ℤ
  pub encode : ℤ

abbrev pub page_size_of : Option ℤ → Option ℤ
page_size_of none = none
page_size_of (some (negsuc n)) = none
page_size_of (some (pos n)) = if n == 0 then none else some (pos n)

-- The page size that a query asks for: 0 where it has none, nothing where it is invalid. The text has
-- been through `strings.TrimSpace`.
unfoldable pub requested_size : Str → Option ℤ
requested_size param = if is_empty param then some (pos 0) else page_size_of (atoi param)

module _ (error_text : FetchError → Str) (encodes : List Task → Str → Bool) where
  -- `next` is empty on the last page.
  abbrev pub count_page : List Task → Str → TaskRequestMetrics → TaskRequestMetrics
  count_page tasks next m =
      let counted = set_tasks_returned (pos (length tasks)) m in
      if is_empty next then counted else set_has_next_page true counted

  -- The handler returns the error of `c.JSON`, and leaves the answer to echo's error handler: nothing.
  abbrev pub answer_page :
      Durations → TaskRequestMetrics → List Task → Str → Option Answer × TaskRequestMetrics
  answer_page d m tasks next =
      let seen = observe_encode d.encode (count_page tasks next m) in
      if encodes tasks next
      then (some (record { status = 200; body = tasks_response tasks next }), seen)
      else (none, set_error_stage (lit "encode_response") seen)

  abbrev pub answer_fetch :
      Durations
      → TaskRequestMetrics
      → Result FetchError (List Task × Str)
      → Option Answer × TaskRequestMetrics
  answer_fetch d m (err (invalid_continuation_token e)) = (
    some (record { status = 400; body = plain (lit "invalid page token") }),
    set_error_stage (lit "invalid_page_token") m,
  )
  answer_fetch d m (err (table_failed e)) = (
    some (record { status = 500; body = plain (error_text (table_failed e)) }),
    set_error_stage (lit "storage") m,
  )
  answer_fetch d m (err (entity_status n)) = (
    some (record { status = 500; body = plain (error_text (entity_status n)) }),
    set_error_stage (lit "storage") m,
  )
  answer_fetch d m (err bad_entity) = (
    some (record { status = 500; body = plain (error_text bad_entity) }),
    set_error_stage (lit "storage") m,
  )
  answer_fetch d m (ok (tasks, next)) = answer_page d m tasks next

  abbrev pub answer_size :
      Durations
      → TaskRequestMetrics
      → (ℤ → Result FetchError (List Task × Str))
      → Option ℤ
      → Option Answer × TaskRequestMetrics
  answer_size d m fetch none = (
    some (record { status = 400; body = plain (lit "invalid page size") }),
    set_error_stage (lit "invalid_page_size") m,
  )
  answer_size d m fetch (some size) = answer_fetch d (observe_fetch d.fetch m) (fetch size)

  -- `getTasks`, with the metrics that its deferred `Log` is called with.
  unfoldable pub get_tasks :
      Durations
      → TaskRequestMetrics
      → Result Str Str
      → Str
      → Str
      → (Str → Str → ℤ → Result FetchError (List Task × Str))
      → Option Answer × TaskRequestMetrics
  unfolding requested_size
  get_tasks d m (err e) page_token page_size_param fetch = (
    some (record { status = 401; body = plain e }),
    set_error_stage (lit "auth") (observe_auth d.auth m),
  )
  get_tasks d m (ok user_id) page_token page_size_param fetch =
      answer_size d (set_page_token_provided (not (is_empty page_token)) (observe_auth d.auth m))
        (fetch user_id page_token) (requested_size page_size_param)

abbrev answer_settings : (FetchError → Str) → Result FetchError Settings → Answer
answer_settings error_text (err e) = record { status = 500; body = plain (error_text e) }
answer_settings error_text (ok s) = record { status = 200; body = settings_response s }

-- `getSettings`
unfoldable pub get_settings :
    (FetchError → Str) → Result Str Str → (Str → Result FetchError Settings) → Answer
get_settings error_text (err e) fetch = record { status = 401; body = plain e }
get_settings error_text (ok user_id) fetch = answer_settings error_text (fetch user_id)

-- What `postCommands` leaves: the answer, the channel of the pool, the commands that the queue was
-- given inline, and `lastTimestamp`.
pub record Posted : Type 0 where
  pub answer : Answer
  pub jobs : Option Jobs
  pub inline : Option EnqueueJob
  pub last : ℤ

abbrev pub accepted_with : List Str → Answer
accepted_with keys = record { status = 202; body = keys_response keys }

abbrev pub inline_answer : List Str → Option Str → Answer
inline_answer keys none = accepted_with keys
inline_answer keys (some e) = record {
  status = 500;
  body = plain (lit "failed to enqueue commands");
}

-- After `tryEnqueueJob`; `enqueue` is `EnqueueCommands`, with nothing for nil. The call goes on waiting
-- where `tryEnqueueJob` does.
abbrev pub after_try :
    (EnqueueJob → Option Str)
    → EnqueueJob
    → List Str
    → ℤ
    → Option (Bool × Option Jobs)
    → Option Posted
after_try enqueue job keys last none = none
after_try enqueue job keys last (some (true, jobs)) =
    some (record { answer = accepted_with keys; jobs = jobs; inline = none; last = last })
after_try enqueue job keys last (some (false, jobs)) = some (record {
  answer = inline_answer keys (enqueue job);
  jobs = jobs;
  inline = some job;
  last = last;
})

-- `postCommands`, with the clock at `now` and no other request between; a body that does not decode is
-- nothing.
unfoldable pub post_commands :
    Result Str Str
    → Option (List Command)
    → ℤ
    → ℤ
    → Option Jobs
    → ℤ
    → List Event
    → (EnqueueJob → Option Str)
    → Option Posted
post_commands (err e) body now last jobs handoff_timeout events enqueue = some (record {
  answer = record { status = 401; body = plain e };
  jobs = jobs;
  inline = none;
  last = last;
})
post_commands (ok user_id) none now last jobs handoff_timeout events enqueue = some (record {
  answer = record { status = 400; body = plain (lit "invalid body") };
  jobs = jobs;
  inline = none;
  last = last;
})
post_commands (ok user_id) (some cmds) now last jobs handoff_timeout events enqueue =
    let finalized = finalize_commands now last cmds in
    let job : EnqueueJob = record { user_id = user_id; cmds = finalized.0.0 } in
    after_try enqueue job finalized.0.1 finalized.1
      (try_enqueue_job jobs handoff_timeout job events)
