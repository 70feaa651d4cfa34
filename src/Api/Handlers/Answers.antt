-- ===== src/Api/Handlers/Answers.antt =====
-- What the answers of the handlers promise.
use prism_plan.Shared.{
  ℕ, ◌+◌, ltb, pos, is_empty, ◌≡◌, ◌≢◌, refl, sym, ap, ◌∙◌, subst, ◌⊎◌, inl, inr, List, [], ◌∷◌,
  Option, none, some, Bool, true, false, not, Str, lit, str_eq, Result, ok, err, ℤ, arith, length,
  if_cases, if◌then◌else◌,
}
use mathlib.Core.Option.{some-injective}
use prism_plan.Tokens.{TokenError}
use prism_plan.Storage.{Task}
use prism_plan.Storage.Fetch.{
  FetchError, invalid_continuation_token, table_failed, entity_status, bad_entity,
}
use prism_plan.Api.Commands.{Command, finalize_commands}
use prism_plan.Api.Pool.{EnqueueJob, Jobs, Event, try_enqueue_job}
use prism_plan.Api.Pool.Handoff.{Handed, Hands, try_enqueue_job-Hands}
use prism_plan.Api.Metrics.{Span, TaskRequestMetrics, new_task_request_metrics, observe_fetch}
use prism_plan.Api.Handlers.{
  plain, tasks_response, Answer, Durations, Posted, get_tasks, count_page, answer_page,
  answer_fetch, answer_size, requested_size, after_try, inline_answer, accepted_with, post_commands,
}

-- What can go wrong with a request for tasks.
pub data Fault : Type 0 where
  no_fault bad_auth bad_size bad_token bad_storage bad_encoding : Fault

-- The stage that the metrics give for a fault.
abbrev pub stage_name : Fault → Str
stage_name no_fault = []
stage_name bad_auth = lit "auth"
stage_name bad_size = lit "invalid_page_size"
stage_name bad_token = lit "invalid_page_token"
stage_name bad_storage = lit "storage"
stage_name bad_encoding = lit "encode_response"

-- The fault that a stage stands for.
fault_named : Str → Fault
fault_named s =
    if is_empty s
    then no_fault
    else if str_eq s (lit "auth")
    then bad_auth
    else if str_eq s (lit "invalid_page_size")
    then bad_size
    else if str_eq s (lit "invalid_page_token")
    then bad_token
    else if str_eq s (lit "storage")
    then bad_storage
    else bad_encoding

fault_named-stage_name : (f : Fault) → fault_named (stage_name f) ≡ f
unfolding fault_named str_eq is_empty
fault_named-stage_name no_fault = refl
fault_named-stage_name bad_auth = refl
fault_named-stage_name bad_size = refl
fault_named-stage_name bad_token = refl
fault_named-stage_name bad_storage = refl
fault_named-stage_name bad_encoding = refl

stage_name-injective : (f g : Fault) → stage_name f ≡ stage_name g → f ≡ g
stage_name-injective f g e =
    sym (fault_named-stage_name f) ∙ ap fault_named e ∙ fault_named-stage_name g

abbrev Fetched : Type 0
Fetched = Result FetchError (List Task × Str)

-- No tasks are counted, and no further page.
abbrev pub Uncounted : TaskRequestMetrics → Type 0
Uncounted m = (m.tasks_returned ≡ pos 0) × (m.has_next_page ≡ false)

-- The tasks of the page are counted, and whether there is a further one.
abbrev pub Counted : List Task → Str → TaskRequestMetrics → Type 0
Counted tasks next m =
    (m.tasks_returned ≡ pos (length tasks)) × (m.has_next_page ≡ not (is_empty next))

-- The answer of a status with a text.
abbrev pub Texted : ℕ → Str → Option Answer → Type 0
Texted status s o = o ≡ some (record { status = status; body = plain s })

module _ (error_text : FetchError → Str) (encodes : List Task → Str → Bool) (auth : Result Str Str)
    (size : Option ℤ) (fetch : Str → ℤ → Result FetchError (List Task × Str)) where
  -- The storage has been asked, and its answer is `r`.
  abbrev pub Fetches : Result FetchError (List Task × Str) → Type 0
  Fetches r = (user : Str) × (n : ℤ) × (auth ≡ ok user) × (size ≡ some n) × (fetch user n ≡ r)

  -- Where the fault lies, what the client is answered, and what the metrics count.
  abbrev pub Means : Fault → Option Answer × TaskRequestMetrics → Type 0
  Means bad_auth (o, m) = (e : Str) × (auth ≡ err e) × Texted 401 e o × Uncounted m
  Means bad_size (o, m) =
      (user : Str) × (auth ≡ ok user)
      × (size ≡ none)
      × Texted 400 (lit "invalid page size") o
      × Uncounted m
  Means bad_token (o, m) =
      (e : TokenError) × Fetches (err (invalid_continuation_token e))
      × Texted 400 (lit "invalid page token") o
      × Uncounted m
  Means bad_storage (o, m) =
      (x : FetchError) × Fetches (err x)
      × ((e : TokenError) → x ≢ invalid_continuation_token e)
      × Texted 500 (error_text x) o
      × Uncounted m
  Means bad_encoding (o, m) =
      (tasks : List Task) × (next : Str) × Fetches (ok (tasks, next))
      × (encodes tasks next ≡ false)
      × (o ≡ none)
      × Counted tasks next m
  Means no_fault (o, m) =
      (tasks : List Task) × (next : Str) × Fetches (ok (tasks, next))
      × (encodes tasks next ≡ true)
      × (o ≡ some (record { status = 200; body = tasks_response tasks next }))
      × Counted tasks next m

  -- The stage is the name of a fault; and whatever fault has that name is the one that the request met.
  abbrev pub Tells : Option Answer × TaskRequestMetrics → Type 0
  Tells p =
      ((f : Fault) × (p.1.error_stage ≡ stage_name f))
      × ((g : Fault) → p.1.error_stage ≡ stage_name g → Means g p)

  Means-Tells :
      (f : Fault) (p : Option Answer × TaskRequestMetrics)
      → p.1.error_stage ≡ stage_name f
      → Means f p
      → Tells p
  Means-Tells f p e h =
      ((f, e), λ g q. subst (λ x. Means x p) (stage_name-injective f g (sym e ∙ q)) h)

-- Nothing is counted, and no stage is named.
abbrev Blank : TaskRequestMetrics → Type 0
Blank m = Uncounted m × (m.error_stage ≡ [])

counted_tasks :
    (tasks : List Task)
    → (if ltb (length tasks + 0) 0 then pos 0 else pos (length tasks)) ≡ pos (length tasks)
counted_tasks tasks = ground arith

module _ (error_text : FetchError → Str) (encodes : List Task → Str → Bool) (d : Durations) where
  count_page-Counted :
      (tasks : List Task) (next : Str) (m : TaskRequestMetrics)
      → Blank m
      → Counted tasks next (count_page error_text encodes tasks next m)
        × ((count_page error_text encodes tasks next m).error_stage ≡ [])
  unfolding is_empty
  count_page-Counted tasks [] m h = ((counted_tasks tasks, h.0.1), h.1)
  count_page-Counted tasks (c ∷ next) m h = ((counted_tasks tasks, refl), h.1)

  answer_page-Tells :
      (m : TaskRequestMetrics) (user : Str) (n : ℤ) (fetch : Str → ℤ → Fetched) (tasks : List Task)
      (next : Str)
      → fetch user n ≡ ok (tasks, next)
      → Blank m
      → Tells error_text encodes
          (ok user)
          (some n)
          fetch
          (answer_page error_text encodes d m tasks next)
  unfolding is_empty
  answer_page-Tells m user n fetch tasks next q h =
      let counted = count_page-Counted tasks next m h in
      if_cases (Tells error_text encodes (ok user) (some n) fetch) (encodes tasks next) _ _
        (λ e.
          Means-Tells error_text encodes (ok user) (some n) fetch no_fault _ counted.1
            (tasks, next, (user, n, refl, refl, q), e, refl, counted.0))
        (λ e.
          Means-Tells error_text encodes (ok user) (some n) fetch bad_encoding _ refl
            (tasks, next, (user, n, refl, refl, q), e, refl, counted.0))

  answer_fetch-Tells :
      (m : TaskRequestMetrics) (user : Str) (n : ℤ) (fetch : Str → ℤ → Fetched) (r : Fetched)
      → fetch user n ≡ r
      → Blank m
      → Tells error_text encodes (ok user) (some n) fetch (answer_fetch error_text encodes d m r)
  unfolding is_empty
  answer_fetch-Tells m user n fetch (err (invalid_continuation_token e)) q h =
      Means-Tells error_text encodes (ok user) (some n) fetch bad_token _ refl
        (e, (user, n, refl, refl, q), refl, h.0)
  answer_fetch-Tells m user n fetch (err (table_failed x)) q h =
      Means-Tells error_text encodes (ok user) (some n) fetch bad_storage _ refl
        (table_failed x, (user, n, refl, refl, q), (λ e p. cc), refl, h.0)
  answer_fetch-Tells m user n fetch (err (entity_status x)) q h =
      Means-Tells error_text encodes (ok user) (some n) fetch bad_storage _ refl
        (entity_status x, (user, n, refl, refl, q), (λ e p. cc), refl, h.0)
  answer_fetch-Tells m user n fetch (err bad_entity) q h =
      Means-Tells error_text encodes (ok user) (some n) fetch bad_storage _ refl
        (bad_entity, (user, n, refl, refl, q), (λ e p. cc), refl, h.0)
  answer_fetch-Tells m user n fetch (ok (tasks, next)) q h =
      answer_page-Tells m user n fetch tasks next q h

  answer_size-Tells :
      (m : TaskRequestMetrics) (user : Str) (fetch : Str → ℤ → Fetched) (size : Option ℤ)
      → Blank m
      → Tells error_text encodes
          (ok user)
          size
          fetch
          (answer_size error_text encodes d m (fetch user) size)
  unfolding is_empty
  answer_size-Tells m user fetch none h =
      Means-Tells error_text encodes (ok user) none fetch bad_size _ refl
        (user, refl, refl, refl, h.0)
  answer_size-Tells m user fetch (some n) h =
      answer_fetch-Tells (observe_fetch d.fetch m) user n fetch (fetch user n) refl h

  -- The stage in the metrics of a request for tasks, which start new, tells exactly what happened: each of
  -- the six names stands for one cause, the client's answer to it, and the counts. "auth": authentication
  -- failed, 401 with its text. "invalid_page_size": 400. "invalid_page_token": the storage refused the
  -- token, 400. "storage": it failed otherwise, 500 with its text. "encode_response": the page was
  -- counted, but not encoded, and the handler itself answers nothing. No stage: 200 with the page, whose
  -- tasks, and whether a next one follows, are counted. Without a page nothing is counted.
  pub get_tasks-Tells :
      (has_logger : Bool) (span : Span) (start : ℤ) (auth : Result Str Str)
      (page_token page_size_param : Str)
      (fetch : Str → Str → ℤ → Result FetchError (List Task × Str))
      → Tells error_text encodes auth
          (requested_size page_size_param)
          (λ user. fetch user page_token)
          (get_tasks error_text encodes d
            (new_task_request_metrics has_logger span start)
            auth
            page_token
            page_size_param
            fetch)
  unfolding get_tasks is_empty
  get_tasks-Tells has_logger span start (err e) page_token page_size_param fetch =
      Means-Tells error_text encodes (err e) (requested_size page_size_param)
        (λ user. fetch user page_token) bad_auth _ refl (e, refl, refl, (refl, refl))
  get_tasks-Tells has_logger span start (ok user_id) page_token page_size_param fetch =
      answer_size-Tells _ user_id (λ user. fetch user page_token) (requested_size page_size_param)
        ((refl, refl), refl)

-- Where the commands of an accepted request are: at the end of the buffer, or in the queue, which has
-- accepted them inline; and never in both.
abbrev pub Kept : Jobs → (EnqueueJob → Option Str) → EnqueueJob → Posted → Type 0
Kept before enqueue job r =
    ((after : Jobs) × (r.jobs ≡ some after) × Handed before job true after × (r.inline ≡ none))
    ⊎ ((after : Jobs) × (r.jobs ≡ some after)
        × Handed before job false after
        × (r.inline ≡ some job)
        × (enqueue job ≡ none))

inline_answer-status :
    (keys : List Str) (o : Option Str)
    → (inline_answer keys o).status ≡ 202
    → (o ≡ none) × (inline_answer keys o ≡ accepted_with keys)
inline_answer-status keys none e = (refl, refl)
inline_answer-status keys (some x) e = absurd (omega (arith, e))

after_try-Kept :
    (before : Jobs) (enqueue : EnqueueJob → Option Str) (job : EnqueueJob) (keys : List Str)
    (last : ℤ) (t : Option (Bool × Option Jobs)) (r : Posted)
    → Hands before job t
    → after_try enqueue job keys last t ≡ some r
    → r.answer.status ≡ 202
    → Kept before enqueue job r × (r.answer ≡ accepted_with keys)
after_try-Kept before enqueue job keys last none r h e = λ st. cc
after_try-Kept before enqueue job keys last (some (b, none)) r h e = elim h [ ]
after_try-Kept before enqueue job keys last (some (true, some after)) r h e =
    subst
      (λ (x : Posted).
        x.answer.status ≡ 202 → Kept before enqueue job x × (x.answer ≡ accepted_with keys))
      (some-injective _ r e) (λ st. (inl (after, refl, h, refl), refl))
after_try-Kept before enqueue job keys last (some (false, some after)) r h e =
    subst
      (λ (x : Posted).
        x.answer.status ≡ 202 → Kept before enqueue job x × (x.answer ≡ accepted_with keys))
      (some-injective _ r e)
      λ st.
        let took = inline_answer-status keys (enqueue job) st in
        (inr (after, refl, h, refl, took.0), took.1)

-- Where `postCommands` answers 202, the commands of the request, stamped and in order, stand at the
-- end of the buffer, or the queue has accepted them inline, and not both; and the answer has their keys.
pub post_commands-Kept :
    (user_id : Str) (cmds : List Command) (now last : ℤ) (before : Jobs) (handoff_timeout : ℤ)
    (events : List Event) (enqueue : EnqueueJob → Option Str) (r : Posted)
    → post_commands (ok user_id) (some cmds) now last (some before) handoff_timeout events enqueue
      ≡ some r
    → r.answer.status ≡ 202
    → Kept before enqueue
        (record { user_id = user_id; cmds = (finalize_commands now last cmds).0.0 })
        r
      × (r.answer ≡ accepted_with (finalize_commands now last cmds).0.1)
unfolding post_commands
post_commands-Kept user_id cmds now last before handoff_timeout events enqueue r e st =
    let job : EnqueueJob = record {
      user_id = user_id;
      cmds = (finalize_commands now last cmds).0.0;
    } in
    after_try-Kept before enqueue job (finalize_commands now last cmds).0.1
      (finalize_commands now last cmds).1 (try_enqueue_job (some before) handoff_timeout job events)
      r (try_enqueue_job-Hands before handoff_timeout job events) e st
