-- ===== src/Api/Metrics.antt =====
-- prism-api/api/metrics.go: what a request for tasks is measured by, and the attributes that its report
-- has. A duration in milliseconds is kept as its nanoseconds.
pub mod Log
pub mod Attributes
pub mod Reports
use prism_plan.Shared.{
  ℕ, zero, suc, ◌+◌, ◌-◌, ◌*◌, ◌/◌, ◌%◌, ◌^◌, ◌≤◌, ◌<◌, ◌≡◌, ◌≢◌, refl, sym, ap, ◌∙◌, subst, ◌↔◌,
  ◌⊎◌, inl, inr, List, [], ◌∷◌, ◌++◌, map, Option, none, some, Bool, true, false, not, ◌&&◌, ◌||◌,
  Str, lit, IsByte, str_eq, is_empty, str_eq_refl, str_eq_iff, str_eq_ne, is_empty_iff, Result, ok,
  err, ℤ, pos, negsuc, neg_part, pos_part, ◌+ℤ◌, ◌≤ℤ◌, ◌<ℤ◌, leb_ℤ, ltb_ℤ, eqb_ℤ, wrap_int64,
  wrap_int32, wrap_int64_self, wrap_int32_self, IsInt64, is_int64, scale, atoi, format_int,
  atoi-format_int, arith, ltb, leb, ◌==◌, ==_iff, ==_refl, Bool-cases, if_cases, if_cases_both,
  Option-cases, if◌then◌else◌, length, get_elem?, take, drop, length-append, length-take,
  length-drop, length-map, take-append_left, drop-append_left, take-length, All,
}

-- `trace.Span`, with the ids of its context; an id that is not there is empty.
pub record Span : Type 0 where
  pub trace_id : Str
  pub span_id : Str

-- `taskRequestMetrics`; durations and times are int64 nanoseconds.
pub record TaskRequestMetrics : Type 0 where
  pub has_logger : Bool
  pub span : Option Span
  pub span_context : Span
  pub start : ℤ
  pub auth_duration : ℤ
  pub fetch_duration : ℤ
  pub encode_duration : ℤ
  pub page_token_provided : Bool
  pub tasks_returned : ℤ
  pub has_next_page : Bool
  pub error_stage : Str

-- `newTaskRequestMetrics`
abbrev pub new_task_request_metrics : Bool → Span → ℤ → TaskRequestMetrics
new_task_request_metrics has_logger span start = record {
  has_logger = has_logger;
  span = some span;
  span_context = span;
  start = start;
  auth_duration = pos 0;
  fetch_duration = pos 0;
  encode_duration = pos 0;
  page_token_provided = false;
  tasks_returned = pos 0;
  has_next_page = false;
  error_stage = [];
}

-- `ObserveAuth`, `ObserveFetch` and `ObserveEncode`
abbrev pub observe_auth : ℤ → TaskRequestMetrics → TaskRequestMetrics
observe_auth d m = record m { auth_duration = if leb_ℤ d (pos 0) then m.auth_duration else d }

abbrev pub observe_fetch : ℤ → TaskRequestMetrics → TaskRequestMetrics
observe_fetch d m = record m { fetch_duration = if leb_ℤ d (pos 0) then m.fetch_duration else d }

abbrev pub observe_encode : ℤ → TaskRequestMetrics → TaskRequestMetrics
observe_encode d m = record m { encode_duration = if leb_ℤ d (pos 0) then m.encode_duration else d }

abbrev pub set_page_token_provided : Bool → TaskRequestMetrics → TaskRequestMetrics
set_page_token_provided provided m = record m { page_token_provided = provided }

abbrev pub set_tasks_returned : ℤ → TaskRequestMetrics → TaskRequestMetrics
set_tasks_returned count m = record m {
  tasks_returned = if ltb_ℤ count (pos 0) then pos 0 else count;
}

abbrev pub set_has_next_page : Bool → TaskRequestMetrics → TaskRequestMetrics
set_has_next_page has_next m = record m { has_next_page = has_next }

abbrev pub set_error_stage : Str → TaskRequestMetrics → TaskRequestMetrics
set_error_stage stage m = record m { error_stage = if is_empty stage then m.error_stage else stage }

pub record TaskLogRecord : Type 0 where
  pub status : ℤ
  pub total : ℤ
  pub auth : ℤ
  pub fetch : ℤ
  pub encode : ℤ
  pub request_start_ns : ℤ
  pub tasks_returned : ℤ
  pub page_token_provided : Bool
  pub has_next_page : Bool
  pub error_stage : Str
  pub error_message : Str

-- The value of an attribute. A number of milliseconds is the float of its nanoseconds over 10^6.
pub data Value : Type 0 where
  text : Str → Value
  number : ℤ → Value
  flag : Bool → Value
  millis : ℕ → Value

abbrev pub KeyValue : Type 0
KeyValue = Str × Value

-- `durationToMillis`
abbrev pub duration_to_millis : ℤ → Value
duration_to_millis d = millis (pos_part d)

-- `severityForStatus`
unfoldable pub severity_for_status : ℤ → Option Str → Str × ℕ
severity_for_status status (some e) = (lit "ERROR", 17)
severity_for_status status none =
    if leb_ℤ (pos 500) status
    then (lit "ERROR", 17)
    else if leb_ℤ (pos 400) status
    then (lit "WARN", 13)
    else (lit "INFO", 9)

abbrev pub positive : ℤ → Bool
positive = ltb_ℤ (pos 0)

abbrev pub when : Bool → KeyValue → List KeyValue
when b kv = if b then kv ∷ [] else []

-- `keyValues`
unfoldable pub key_values : TaskLogRecord → List KeyValue
key_values r =
    ((lit "http.route", text (lit "/api/tasks"))
      ∷ (lit "http.status_code", number r.status)
      ∷ (lit "prism.tasks.total_ms", duration_to_millis r.total)
      ∷ (lit "prism.tasks.page_token_provided", flag r.page_token_provided)
      ∷ (lit "prism.tasks.tasks_returned", number r.tasks_returned)
      ∷ (lit "prism.tasks.has_next_page", flag r.has_next_page)
      ∷ (lit "prism.tasks.request_start_ns", number r.request_start_ns)
      ∷ [])
    ++ (when (positive r.auth) (lit "prism.tasks.auth_ms", duration_to_millis r.auth)
        ++ (when (positive r.fetch) (lit "prism.tasks.fetch_ms", duration_to_millis r.fetch)
            ++ (when (positive r.encode) (lit "prism.tasks.encode_ms", duration_to_millis r.encode)
                ++ (when (not (is_empty r.error_stage))
                      (lit "prism.tasks.error_stage", text r.error_stage)
                    ++ when (not (is_empty r.error_message))
                        (lit "error.message", text r.error_message)))))

-- `map[string]any`: an assignment replaces the value of its key.
abbrev pub AttributesMap : Type 0
AttributesMap = Str → Option Value

abbrev pub empty_map : AttributesMap
empty_map key = none

abbrev pub assign : KeyValue → AttributesMap → AttributesMap
assign (k, v) attrs key = if str_eq k key then some v else attrs key

abbrev pub assign_when : Bool → KeyValue → AttributesMap → AttributesMap
assign_when b kv attrs = if b then assign kv attrs else attrs

-- `attributesMap`
unfoldable pub attributes_map : TaskLogRecord → AttributesMap
attributes_map r =
    let literal : AttributesMap =
      assign (lit "prism.tasks.request_start_ns", number r.request_start_ns)
        (assign (lit "prism.tasks.has_next_page", flag r.has_next_page)
          (assign (lit "prism.tasks.tasks_returned", number r.tasks_returned)
            (assign (lit "prism.tasks.page_token_provided", flag r.page_token_provided)
              (assign (lit "prism.tasks.total_ms", duration_to_millis r.total)
                (assign (lit "http.status_code", number r.status)
                  (assign (lit "http.route", text (lit "/api/tasks")) empty_map)))))) in
    assign_when (not (is_empty r.error_message)) (lit "error.message", text r.error_message)
      (assign_when (not (is_empty r.error_stage))
        (lit "prism.tasks.error_stage", text r.error_stage)
        (assign_when (positive r.encode) (lit "prism.tasks.encode_ms", duration_to_millis r.encode)
          (assign_when (positive r.fetch) (lit "prism.tasks.fetch_ms", duration_to_millis r.fetch)
            (assign_when (positive r.auth) (lit "prism.tasks.auth_ms", duration_to_millis r.auth)
              literal))))
