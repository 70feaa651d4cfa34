-- ===== src/Stream/Sse.antt =====
-- The handler `stream` of stream-service/api/handlers.go after authentication: what it writes to the
-- response. Redis, the encoder and the response writer are parameters.
pub mod Parser
pub mod Delivery
use prism_plan.Shared.{
  ℕ, zero, suc, ◌+◌, ◌-◌, ◌*◌, ◌/◌, ◌%◌, ◌^◌, ◌≤◌, ◌<◌, ◌≡◌, ◌≢◌, refl, sym, ap, ◌∙◌, subst, ◌↔◌,
  ◌⊎◌, inl, inr, List, [], ◌∷◌, ◌++◌, map, Option, none, some, Bool, true, false, not, ◌&&◌, ◌||◌,
  Str, lit, IsByte, str_eq, is_empty, str_eq_refl, str_eq_iff, str_eq_ne, is_empty_iff, Result, ok,
  err, ℤ, pos, negsuc, neg_part, pos_part, ◌+ℤ◌, ◌≤ℤ◌, ◌<ℤ◌, leb_ℤ, ltb_ℤ, eqb_ℤ, wrap_int64,
  wrap_int32, wrap_int64_self, wrap_int32_self, IsInt64, is_int64, scale, atoi, format_int,
  atoi-format_int, arith, ltb, leb, ◌==◌, ==_iff, ==_refl, Bool-cases, if_cases, if_cases_both,
  Option-cases, if◌then◌else◌, length, get_elem?, take, drop, length-append, length-take,
  length-drop, length-map, take-append_left, drop-append_left, take-length, All,
}
use prism_plan.Stream.Keys.{tasks_key, settings_key}

-- The response: what has been written, how many writes there were, and how many flushes.
pub record Response : Type 0 where
  pub body : Str
  pub writes : ℕ
  pub flushes : ℕ

abbrev pub new_response : Response
new_response = record { body = []; writes = 0; flushes = 0 }

-- What the `select` of the loop finds.
pub data Signal : Type 0 where
  done tick : Signal
  message : Str → Signal

-- How the handler ends: the request is over, a write failed, or it waits for more.
pub data End : Type 0 where
  request_over write_failed waiting : End

abbrev pub data_prefix : Str
data_prefix = lit "data: "

abbrev pub keep_alive : Str
keep_alive = lit ": keep-alive\n\n"

-- `fails n` tells whether the write after `n` writes returns an error, and then how many bytes of it the
-- response has taken.
module _ (fails : ℕ → Option ℕ) where
  abbrev pub write_upto : Str → Response → Option ℕ → Bool × Response
  write_upto chunk r (some k) =
      (false, record r { body = r.body ++ take k chunk; writes = suc r.writes })
  write_upto chunk r none = (true, record r { body = r.body ++ chunk; writes = suc r.writes })

  abbrev pub write : Str → Response → Bool × Response
  write chunk r = write_upto chunk r (fails r.writes)

  abbrev pub flush : Response → Bool × Response
  flush r = (true, record r { flushes = suc r.flushes })

  -- The rest of a helper, where the write before it was accepted.
  abbrev pub then_write : (Response → Bool × Response) → Bool × Response → Bool × Response
  then_write rest (false, r) = (false, r)
  then_write rest (true, r) = rest r

  -- `writeSSE`
  unfoldable pub write_sse : Str → Response → Bool × Response
  write_sse payload r =
      then_write
        (λ r1. then_write (λ r2. then_write flush (write (lit "\n\n") r2)) (write payload r1))
        (write data_prefix r)

  -- `writeKeepAlive`
  unfoldable pub write_keep_alive : Response → Bool × Response
  write_keep_alive r = then_write flush (write keep_alive r)

  abbrev pub unless_failed : (Response → End × Response) → Bool × Response → End × Response
  unless_failed rest (false, r) = (write_failed, r)
  unless_failed rest (true, r) = rest r

  -- The loop over `select`.
  unfoldable pub stream_loop : List Signal → Response → End × Response
  unfolding write_sse write_keep_alive
  stream_loop [] r = (waiting, r)
  stream_loop (done ∷ signals) r = (request_over, r)
  stream_loop (tick ∷ signals) r = unless_failed (stream_loop signals) (write_keep_alive r)
  stream_loop (message payload ∷ signals) r =
      unless_failed (stream_loop signals) (write_sse payload r)

  -- From the initial payloads on.
  unfoldable pub serve : Str → Str → List Signal → Response → End × Response
  serve tasks settings signals r =
      unless_failed (λ r1. unless_failed (stream_loop signals) (write_sse settings r1))
        (write_sse tasks r)

-- `getOrDefault`; `redis` is a read, with nothing for an error.
abbrev pub get_or_default : (Str → Option Str) → Str → Str → Str
get_or_default redis key default = elim (redis key) [ none ↦ default | some b ↦ b ]

-- What `stream` answers: a plain error, or the stream.
pub data StreamAnswer : Type 0 where
  plain : ℕ → Str → StreamAnswer
  streamed : End → Response → StreamAnswer

-- `stream`; `marshal` is `json.Marshal` of an `initialMsg`, whose error leaves nothing to write.
unfoldable pub stream :
    (ℕ → Option ℕ)
    → (Str → Option Str)
    → (Str → Str → Option Str)
    → Bool
    → Result Str Str
    → List Signal
    → StreamAnswer
unfolding serve
stream fails redis marshal can_flush (err e) signals = plain 401 e
stream fails redis marshal can_flush (ok user_id) signals =
    let payload : Str → Str → Str =
      λ type content. elim (marshal type content) [ none ↦ [] | some s ↦ s ] in
    let (end, r) =
      serve fails (payload (lit "task") (get_or_default redis (tasks_key user_id) (lit "[]")))
        (payload (lit "user-settings") (get_or_default redis (settings_key user_id) (lit "{}")))
        signals new_response in
    if can_flush then streamed end r else plain 500 (lit "stream unsupported")
