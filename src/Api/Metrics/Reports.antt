-- ===== src/Api/Metrics/Reports.antt =====
-- What the reports of a request come to, however often `Log` is called.
use prism_plan.Shared.{
  ℕ, suc, ◌+◌, ◌≡◌, refl, sym, ap, ◌∙◌, subst, inl, inr, List, [], ◌∷◌, ◌++◌, Option, none, some,
  Bool, true, false, ◌||◌, Str, ℤ, pos, leb_ℤ, arith, Bool-cases, if◌then◌else◌, length,
  length-append,
}
use prism_plan.Api.Metrics.{Span, TaskRequestMetrics, TaskLogRecord, severity_for_status}
use prism_plan.Api.Metrics.Log.{
  is_some, TaskLogEvent, LogQueue, SpanCall, record_error, set_status_error, set_status_ok,
  set_attributes, add_event, end_span, Report, log, span_calls, close_span, enqueue_or_log,
  enqueue_task_log_event, record_of_request, event_of, finish,
}

-- One call of `Log`, and what the clock said.
pub record Call : Type 0 where
  pub status : ℤ
  pub error : Option Str
  pub total : ℤ
  pub now : ℤ

abbrev pub has_span : TaskRequestMetrics → Bool
has_span m = is_some m.span

abbrev pub ends : List SpanCall → ℕ
ends [] = 0
ends (end_span ∷ calls) = suc (ends calls)
ends (record_error e ∷ calls) = ends calls
ends (set_status_error e ∷ calls) = ends calls
ends (set_status_ok ∷ calls) = ends calls
ends (set_attributes kvs ∷ calls) = ends calls
ends (add_event kvs ∷ calls) = ends calls

-- The status that a call sets, if it sets one: whether it is an error.
abbrev sets : SpanCall → Option Bool
sets (set_status_error e) = some true
sets set_status_ok = some false
sets (record_error e) = none
sets (set_attributes kvs) = none
sets (add_event kvs) = none
sets end_span = none

abbrev later_or : Option Bool → Option Bool → Option Bool
later_or none earlier = earlier
later_or (some b) earlier = some b

-- The status that was set last.
abbrev pub left_with : List SpanCall → Option Bool
left_with [] = none
left_with (c ∷ calls) = later_or (left_with calls) (sets c)

-- The request has failed: an error, or a status that is one.
abbrev pub has_failed : Call → Bool
has_failed c = is_some c.error || leb_ℤ (pos 400) c.status

ends-append : (calls more : List SpanCall) → ends (calls ++ more) ≡ ends calls + ends more
ends-append [] more = omega arith
ends-append (end_span ∷ calls) more = omega (arith, ends-append calls more)
ends-append (record_error e ∷ calls) more = ends-append calls more
ends-append (set_status_error e ∷ calls) more = ends-append calls more
ends-append (set_status_ok ∷ calls) more = ends-append calls more
ends-append (set_attributes kvs ∷ calls) more = ends-append calls more
ends-append (add_event kvs ∷ calls) more = ends-append calls more

left_with-append_none :
    (calls more : List SpanCall)
    → left_with more ≡ none
    → left_with (calls ++ more) ≡ left_with calls
left_with-append_none [] more h = h
left_with-append_none (c ∷ calls) more h =
    ap (λ o. later_or o (sets c)) (left_with-append_none calls more h)

enqueue_or_log-keeps :
    (event : TaskLogEvent) (q : LogQueue)
    → event.has_logger ≡ true
    → length (enqueue_or_log event q).0.events + length (enqueue_or_log event q).1
      ≡ length q.events + 1
unfolding enqueue_task_log_event
enqueue_or_log-keeps event q h = ground (arith, length-append q.events (event ∷ []))

module _ (status_text : ℤ → Str) where
  -- The calls of `Log` one after another.
  abbrev pub reports : List Call → TaskRequestMetrics → LogQueue → Report
  reports [] m q = record { metrics = m; calls = []; queue = q; inline = [] }
  reports (c ∷ cs) m q =
      let first = log status_text c.status c.error c.total c.now m q in
      let rest = reports cs first.metrics first.queue in
      record {
        metrics = rest.metrics;
        calls = first.calls ++ rest.calls;
        queue = rest.queue;
        inline = first.inline ++ rest.inline;
      }

  span_calls-status :
      (r : TaskLogRecord) (status : ℤ) (e : Option Str)
      → (ends (span_calls status_text r (severity_for_status status e) status e) ≡ 1)
        × (left_with (span_calls status_text r (severity_for_status status e) status e)
            ≡ some (is_some e || leb_ℤ (pos 400) status))
  unfolding span_calls severity_for_status
  span_calls-status r status (some e) = (refl, refl)
  span_calls-status r status none = elim (Bool-cases (leb_ℤ (pos 500) status)) [
    | inl h ↦ let h' : leb_ℤ (pos 400) status ≡ true = ground arith in rw (h, h') (refl, refl)
    | inr h ↦ elim (Bool-cases (leb_ℤ (pos 400) status)) [
      | inl h' ↦ rw (h, h') (refl, refl)
      | inr h' ↦ rw (h, h') (refl, refl)
    ]
  ]

  close_span-once :
      (m : TaskRequestMetrics) (r : TaskLogRecord) (status : ℤ) (e : Option Str) (s : Option Span)
      → m.span ≡ s
      → (ends (close_span status_text m r status e s).1 ≡ (if is_some s then 1 else 0))
        × (left_with (close_span status_text m r status e s).1
            ≡ (if is_some s then some (is_some e || leb_ℤ (pos 400) status) else none))
        × (has_span (close_span status_text m r status e s).0 ≡ false)
        × ((close_span status_text m r status e s).0.has_logger ≡ m.has_logger)
  close_span-once m r status e none h = (refl, refl, ap is_some h, refl)
  close_span-once m r status e (some span) h =
      ((span_calls-status r status e).0, (span_calls-status r status e).1, refl, refl)

  -- What one call of `Log` with `m` and `q` leaves.
  record LogsOnce (c : Call) (m : TaskRequestMetrics) (q : LogQueue) (r : Report) : Type 0 where
    ended : ends r.calls ≡ (if has_span m then 1 else 0)
    left : left_with r.calls ≡ (if has_span m then some (has_failed c) else none)
    no_span : has_span r.metrics ≡ false
    same_logger : r.metrics.has_logger ≡ m.has_logger
    kept :
        length r.queue.events + length r.inline ≡ length q.events + (if m.has_logger then 1 else 0)

  finish-LogsOnce :
      (b : Bool) (c : Call) (m m' : TaskRequestMetrics) (calls : List SpanCall) (q : LogQueue)
      (logged : LogQueue × List TaskLogEvent)
      → b ≡ m.has_logger
      → m'.has_logger ≡ m.has_logger
      → has_span m' ≡ false
      → ends calls ≡ (if has_span m then 1 else 0)
      → left_with calls ≡ (if has_span m then some (has_failed c) else none)
      → (b ≡ true → length logged.0.events + length logged.1 ≡ length q.events + 1)
      → LogsOnce c m q (finish b m' calls q logged)
  finish-LogsOnce true c m m' calls q logged hb hl hs he hf hk = record {
    ended = he;
    left = hf;
    no_span = hs;
    same_logger = hl;
    kept = rw (sym hb) (hk refl);
  }
  finish-LogsOnce false c m m' calls q logged hb hl hs he hf hk = record {
    ended = he;
    left = hf;
    no_span = hs;
    same_logger = hl;
    kept = rw (sym hb) refl;
  }

  log-LogsOnce :
      (c : Call) (m : TaskRequestMetrics) (q : LogQueue)
      → LogsOnce c m q (log status_text c.status c.error c.total c.now m q)
  unfolding log
  log-LogsOnce c m q =
      let r = record_of_request m c.status c.total c.error in
      let closed = close_span-once m r c.status c.error m.span refl in
      let m' = (close_span status_text m r c.status c.error m.span).0 in
      let event = event_of m' r c.now (severity_for_status c.status c.error) in
      finish-LogsOnce m'.has_logger c m m' _ q (enqueue_or_log event q) closed.3 closed.3 closed.2
        closed.0 closed.1 (enqueue_or_log-keeps event q)

  -- Without a span, nothing is told to one.
  reports-quiet :
      (cs : List Call) (m : TaskRequestMetrics) (q : LogQueue)
      → has_span m ≡ false
      → (ends (reports cs m q).calls ≡ 0) × (left_with (reports cs m q).calls ≡ none)
  reports-quiet [] m q h = (refl, refl)
  reports-quiet (c ∷ cs) m q h =
      let first = log-LogsOnce c m q in
      let r = log status_text c.status c.error c.total c.now m q in
      let rest = reports-quiet cs r.metrics r.queue first.no_span in
      (
        ends-append r.calls _
            ∙ omega (arith, rest.0, first.ended ∙ ap (λ (b : Bool). if b then 1 else 0) h),
        left_with-append_none r.calls _ rest.1
            ∙ first.left
            ∙ ap (λ b. if b then some (has_failed c) else none) h,
      )

  -- The events that are logged are in the queue or were logged inline.
  reports-keep :
      (cs : List Call) (m : TaskRequestMetrics) (q : LogQueue)
      → length (reports cs m q).queue.events + length (reports cs m q).inline
        ≡ length q.events + (if m.has_logger then length cs else 0)
  reports-keep [] m q = ground arith
  reports-keep (c ∷ cs) m q =
      let first = log-LogsOnce c m q in
      let r = log status_text c.status c.error c.total c.now m q in
      let rest = reports cs r.metrics r.queue in
      ground (
        arith,
        length-append r.inline rest.inline,
        first.kept,
        subst
            (λ b.
              length rest.queue.events + length rest.inline
              ≡ length r.queue.events + (if b then length cs else 0))
            first.same_logger (reports-keep cs r.metrics r.queue),
      )

  -- However often a request is reported, its span, if it has one, is ended once, with the status of the
  -- first report: an error where the request had failed, with an error or with a status from 400 on;
  -- and each report is one event for the log, where there is a logger, which waits in the queue or is
  -- logged inline.
  pub reports-Accounted :
      (c : Call) (cs : List Call) (m : TaskRequestMetrics) (q : LogQueue)
      → (ends (reports (c ∷ cs) m q).calls ≡ (if has_span m then 1 else 0))
        × (left_with (reports (c ∷ cs) m q).calls
            ≡ (if has_span m then some (has_failed c) else none))
        × (length (reports (c ∷ cs) m q).queue.events + length (reports (c ∷ cs) m q).inline
            ≡ length q.events + (if m.has_logger then length (c ∷ cs) else 0))
  reports-Accounted c cs m q =
      let first = log-LogsOnce c m q in
      let r = log status_text c.status c.error c.total c.now m q in
      let rest = reports-quiet cs r.metrics r.queue first.no_span in
      (
        ends-append r.calls _ ∙ omega (arith, rest.0, first.ended),
        left_with-append_none r.calls _ rest.1 ∙ first.left,
        reports-keep (c ∷ cs) m q,
      )
