-- ===== src/Examples/Metrics.antt =====
-- The report of a request for tasks, at concrete inputs.
use prism_plan.Shared.{◌+◌, ◌≡◌, [], ◌∷◌, none, some, true, false, lit, pos, length}
use prism_plan.Api.Metrics.{TaskLogRecord, TaskRequestMetrics, new_task_request_metrics}
use prism_plan.Api.Metrics.Log.{LogQueue, Report}
use prism_plan.Api.Metrics.Reports.{Call, ends, left_with, reports, reports-Accounted}

abbrev request_record : TaskLogRecord
request_record = record {
  status = pos 200;
  total = pos 5000000;
  auth = pos 1000;
  fetch = pos 0;
  encode = pos 10;
  request_start_ns = pos 77;
  tasks_returned = pos 3;
  page_token_provided = true;
  has_next_page = false;
  error_stage = lit "encode_response";
  error_message = [];
}

abbrev traced : TaskRequestMetrics
traced = new_task_request_metrics true (record { trace_id = lit "t"; span_id = lit "s" }) (pos 5)

-- There is room for one event.
abbrev short_queue : LogQueue
short_queue = record { events = []; capacity = 1 }

abbrev broken : Call
broken = record { status = pos 200; error = some (lit "broken pipe"); total = pos 9; now = pos 14 }

abbrev again : Call
again = record { status = pos 200; error = none; total = pos 10; now = pos 15 }

abbrev two_reports : Report
two_reports = reports (λ status. lit "OK") (broken ∷ again ∷ []) traced short_queue

reports-Accounted_example :
    (ends two_reports.calls ≡ 1)
    × (left_with two_reports.calls ≡ some true)
    × (length two_reports.queue.events + length two_reports.inline ≡ 2)
reports-Accounted_example =
    reports-Accounted (λ status. lit "OK") broken (again ∷ []) traced short_queue
