-- ===== src/Api/Metrics/Log.antt =====
-- prism-api/api/metrics.go: the report of a request to its span and to the log. The clock, the tracer and
-- the names of the HTTP statuses are parameters.
use prism_plan.Shared.{
  ℕ, List, [], ◌∷◌, ◌++◌, Option, none, some, Bool, true, false, not, ◌||◌, Str, lit, is_empty, ℤ,
  pos, leb_ℤ, ltb_ℤ, wrap_int64, scale, ltb, leb, if◌then◌else◌, length,
}
use prism_plan.Api.Pool.{Env, lookup_positive_int}
use prism_plan.Api.Metrics.{
  Span, TaskRequestMetrics, TaskLogRecord, KeyValue, severity_for_status, key_values, AttributesMap,
  attributes_map, text, number,
}

-- `taskLogEvent`
pub record TaskLogEvent : Type 0 where
  pub has_logger : Bool
  pub record_of : TaskLogRecord
  pub event_time : ℤ
  pub severity_text : Str
  pub severity_number : ℕ
  pub trace_id : Str
  pub span_id : Str

-- A field of the line that the logger is given.
pub data Field : Type 0 where
  text_field : Str → Field
  number_field : ℤ → Field
  attributes_field : AttributesMap → Field

abbrev id_field : Str → Str → List (Str × Field)
id_field key id = if is_empty id then [] else (key, text_field id) ∷ []

-- `fields`
unfoldable pub fields : TaskLogEvent → List (Str × Field)
unfolding attributes_map
fields e =
    ((lit "time_unix_nano", number_field e.event_time)
      ∷ (lit "observed_time_unix_nano", number_field e.event_time)
      ∷ (lit "severity_text", text_field e.severity_text)
      ∷ (lit "severity_number", number_field (pos e.severity_number))
      ∷ (lit "body", text_field (lit "tasks request completed"))
      ∷ (lit "event.name", text_field (lit "prism.api.tasks.request"))
      ∷ (lit "event.domain", text_field (lit "app"))
      ∷ (lit "attributes", attributes_field (attributes_map e.record_of))
      ∷ [])
    ++ (id_field (lit "trace_id") e.trace_id ++ id_field (lit "span_id") e.span_id)

-- `log` of an event: the line, where there is a logger.
unfoldable pub log_line : TaskLogEvent → Option (List (Str × Field))
unfolding fields
log_line e = if e.has_logger then some (fields e) else none

-- `taskLogQueue`: what the channel buffers, oldest first.
pub record LogQueue : Type 0 where
  pub events : List TaskLogEvent
  pub capacity : ℕ

-- `initTaskLogQueue`: the goroutines that log, and the room in the queue.
unfoldable pub init_task_log_queue : Env → ℤ → ℤ × ℤ
unfolding lookup_positive_int
init_task_log_queue env num_cpu =
    let given = lookup_positive_int env (lit "TASK_METRICS_LOG_WORKERS") num_cpu in
    let workers = if ltb_ℤ given (pos 1) then pos 1 else given in
    let room = wrap_int64 (scale 1024 workers) in
    let buffer = lookup_positive_int env (lit "TASK_METRICS_LOG_QUEUE") room in
    (workers, if ltb_ℤ buffer (pos 1) then room else buffer)

-- `enqueueTaskLogEvent`
unfoldable pub enqueue_task_log_event : TaskLogEvent → LogQueue → Bool × LogQueue
enqueue_task_log_event event q =
    if not event.has_logger
    then (true, q)
    else if ltb (length q.events) q.capacity
    then (true, record q { events = q.events ++ (event ∷ []) })
    else (false, q)

-- A call on the span, in the order of the calls.
pub data SpanCall : Type 0 where
  record_error : Str → SpanCall
  set_status_error : Str → SpanCall
  set_status_ok : SpanCall
  set_attributes : List KeyValue → SpanCall
  add_event : List KeyValue → SpanCall
  end_span : SpanCall

-- What a report leaves: the metrics, the calls on the span, the queue, and what it logged by itself.
pub record Report : Type 0 where
  pub metrics : TaskRequestMetrics
  pub calls : List SpanCall
  pub queue : LogQueue
  pub inline : List TaskLogEvent

abbrev pub error_text : Option Str → Str
error_text none = []
error_text (some e) = e

abbrev pub record_of_request : TaskRequestMetrics → ℤ → ℤ → Option Str → TaskLogRecord
record_of_request m status total e = record {
  status = status;
  total = total;
  auth = m.auth_duration;
  fetch = m.fetch_duration;
  encode = m.encode_duration;
  request_start_ns = m.start;
  tasks_returned = m.tasks_returned;
  page_token_provided = m.page_token_provided;
  has_next_page = m.has_next_page;
  error_stage = m.error_stage;
  error_message = error_text e;
}

abbrev recorded_error : Option Str → List SpanCall
recorded_error none = []
recorded_error (some e) = record_error e ∷ []

abbrev pub is_some {ℓ} : {A : Type ℓ} → Option A → Bool
is_some none = false
is_some (some x) = true

-- The message of a span's status: the name of the HTTP status, or else the error.
abbrev status_message : Str → Option Str → Str
status_message name none = name
status_message name (some e) = if is_empty name then e else name

abbrev pub event_of : TaskRequestMetrics → TaskLogRecord → ℤ → Str × ℕ → TaskLogEvent
event_of m r now severity = record {
  has_logger = m.has_logger;
  record_of = r;
  event_time = now;
  severity_text = severity.0;
  severity_number = severity.1;
  trace_id = m.span_context.trace_id;
  span_id = m.span_context.span_id;
}

abbrev pub enqueue_or_log : TaskLogEvent → LogQueue → LogQueue × List TaskLogEvent
enqueue_or_log event q =
    let (enqueued, q') = enqueue_task_log_event event q in (q', if enqueued then [] else event ∷ [])

-- Without a logger, `Log` returns before the queue.
abbrev pub finish :
    Bool → TaskRequestMetrics → List SpanCall → LogQueue → LogQueue × List TaskLogEvent → Report
finish false m calls q logged = record { metrics = m; calls = calls; queue = q; inline = [] }
finish true m calls q (q', inline) = record {
  metrics = m;
  calls = calls;
  queue = q';
  inline = inline;
}

module _ (status_text : ℤ → Str) where
  unfoldable pub span_calls : TaskLogRecord → Str × ℕ → ℤ → Option Str → List SpanCall
  unfolding key_values
  span_calls r severity status e =
      recorded_error e
      ++ (if leb 17 severity.1 || (leb_ℤ (pos 400) status || is_some e)
          then set_status_error (status_message (status_text status) e)
          else set_status_ok)
        ∷ set_attributes (key_values r)
        ∷ add_event (
            key_values r
            ++ ((lit "event.name", text (lit "prism.api.tasks.request"))
                ∷ (lit "event.domain", text (lit "app"))
                ∷ (lit "body", text (lit "tasks request completed"))
                ∷ (lit "severity_text", text severity.0)
                ∷ (lit "severity_number", number (pos severity.1))
                ∷ []))
        ∷ end_span
        ∷ []

  -- The part of `Log` that the span is for: the calls on it, and the metrics without it.
  abbrev pub close_span :
      TaskRequestMetrics
      → TaskLogRecord
      → ℤ
      → Option Str
      → Option Span
      → TaskRequestMetrics × List SpanCall
  close_span m r status e none = (m, [])
  close_span m r status e (some span) = (
    record m { span = none; span_context = span },
    span_calls r (severity_for_status status e) status e,
  )

  -- `Log`, where the request has taken `total` at the time `now`.
  unfoldable pub log : ℤ → Option Str → ℤ → ℤ → TaskRequestMetrics → LogQueue → Report
  unfolding severity_for_status span_calls enqueue_task_log_event
  log status e total now m q =
      let r = record_of_request m status total e in
      let (m', calls) = close_span m r status e m.span in
      let (q', inline) = enqueue_or_log (event_of m' r now (severity_for_status status e)) q in
      finish m'.has_logger m' calls q (q', inline)
