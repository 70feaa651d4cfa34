-- ===== src/Stream/Sse/Delivery.antt =====
-- What a browser is given, whatever writes fail.
use prism_plan.Shared.{
  ℕ, suc, ◌≡◌, refl, sym, ap, ◌∙◌, subst, ◌⊎◌, inl, inr, List, [], ◌∷◌, ◌++◌, Option, Bool, true,
  false, Str, lit, Option-cases, take, All,
}
use mathlib.Core.List.{append_assoc}
use prism_plan.Stream.Sse.{
  Response, new_response, Signal, done, tick, message, End, write_failed, data_prefix, keep_alive,
  write, write_upto, then_write, write_sse, write_keep_alive, unless_failed, stream_loop, serve,
}
use prism_plan.Stream.Sse.Parser.{
  Reader, new_reader, feed, events_of, IsLine, feed-append, feed-part, between, in_data,
  feed-data_prefix, feed-payload, feed-prefix_part, feed-end_of_event, feed-end_part,
  feed-keep_alive, feed-keep_alive_part,
}

-- The messages that the loop takes before the request is over.
abbrev pub messages_of : List Signal → List Str
messages_of [] = []
messages_of (done ∷ signals) = []
messages_of (tick ∷ signals) = messages_of signals
messages_of (message payload ∷ signals) = payload ∷ messages_of signals

abbrev reader_of : Response → Reader
reader_of r = feed r.body new_reader

-- After a write of an event that was accepted, the reader has the event; after one that failed, it has
-- the events before, or this one too.
abbrev Wrote : List Str → List Str → Bool × Response → Type 0
Wrote before after (true, r) = reader_of r ≡ between after
Wrote before after (false, r) = ((reader_of r).events ≡ before) ⊎ ((reader_of r).events ≡ after)

module _ (fails : ℕ → Option ℕ) where
  write-cases :
      (P : Bool × Response → Type 0) (rest : Response → Bool × Response) (chunk : Str)
      (r : Response)
      → ((k : ℕ) → P (false, record r { body = r.body ++ take k chunk; writes = suc r.writes }))
      → P (rest (record r { body = r.body ++ chunk; writes = suc r.writes }))
      → P (then_write fails rest (write fails chunk r))
  write-cases P rest chunk r failed wrote = elim (Option-cases (fails r.writes)) [
    | inl e ↦
        subst (λ (o : Option ℕ). P (then_write fails rest (write_upto fails chunk r o))) (sym e)
          wrote
    | inr (k, e) ↦
        subst (λ (o : Option ℕ). P (then_write fails rest (write_upto fails chunk r o))) (sym e)
          (failed k)
  ]

  -- A chunk takes the reader on.
  reads :
      (body chunk : Str) (r r' : Reader)
      → feed body new_reader ≡ r
      → feed chunk r ≡ r'
      → feed (body ++ chunk) new_reader ≡ r'
  reads body chunk r r' h k = feed-append body chunk new_reader ∙ ap (feed chunk) h ∙ k

  -- The events after a part of a chunk.
  reads_part :
      (body part : Str) (r : Reader)
      → feed body new_reader ≡ r
      → (feed (body ++ part) new_reader).events ≡ (feed part r).events
  reads_part body part r h =
      ap (λ (x : Reader). x.events) (feed-append body part new_reader ∙ ap (feed part) h)

  write_sse-Wrote :
      (payload : Str) (r : Response) (events : List Str)
      → IsLine payload
      → reader_of r ≡ between events
      → Wrote events (events ++ (payload ∷ [])) (write_sse fails payload r)
  unfolding write_sse
  write_sse-Wrote payload r events one_line h =
      let P = Wrote events (events ++ (payload ∷ [])) in
      let h1 = reads r.body data_prefix _ _ h (feed-data_prefix events) in
      let h2 =
        reads (r.body ++ data_prefix) payload _ _ h1 (feed-payload events payload one_line) in
      let h3 =
        reads (r.body ++ data_prefix ++ payload) (lit "\n\n") _ _ h2
          (feed-end_of_event events payload) in
      write-cases P _ data_prefix r
        (λ k. inl (reads_part r.body (take k data_prefix) _ h ∙ feed-prefix_part events k))
        (write-cases P _ payload _
          (λ k. inl (
            reads_part (r.body ++ data_prefix) (take k payload) _ h1
            ∙ feed-part k payload (in_data events []) one_line))
          (write-cases P _ (lit "\n\n") _
            (λ k.
              let start =
                reads_part (r.body ++ data_prefix ++ payload) (take k (lit "\n\n")) _ h2 in
              elim (feed-end_part events payload k) [
                | inl e ↦ inl (start ∙ e)
                | inr e ↦ inr (start ∙ e)
              ])
            h3))

  write_keep_alive-Wrote :
      (r : Response) (events : List Str)
      → reader_of r ≡ between events
      → Wrote events events (write_keep_alive fails r)
  unfolding write_keep_alive
  write_keep_alive-Wrote r events h =
      write-cases (Wrote events events) _ keep_alive r
        (λ k. inl (reads_part r.body (take k keep_alive) _ h ∙ feed-keep_alive_part events k))
        (reads r.body keep_alive _ _ h (feed-keep_alive events))

  -- The reader has the first of the events, and all of them unless a write failed.
  abbrev pub Delivered : List Str → End × Response → Type 0
  Delivered all r =
      (missed : List Str) × (events_of r.1.body ++ missed ≡ all)
      × ((r.0 ≡ write_failed) ⊎ (missed ≡ []))

  unless_failed-Delivered :
      (rest : Response → End × Response) (before after all : List Str) (missed later : List Str)
      (w : Bool × Response)
      → Wrote before after w
      → before ++ missed ≡ all
      → after ++ later ≡ all
      → ((r : Response) → reader_of r ≡ between after → Delivered all (rest r))
      → Delivered all (unless_failed fails rest w)
  unless_failed-Delivered rest before after all missed later (true, r) h e e' k = k r h
  unless_failed-Delivered rest before after all missed later (false, r) (inl h) e e' k =
      (missed, ap (λ l. l ++ missed) h ∙ e, inl refl)
  unless_failed-Delivered rest before after all missed later (false, r) (inr h) e e' k =
      (later, ap (λ l. l ++ later) h ∙ e', inl refl)

  stream_loop-Delivered :
      (signals : List Signal) (r : Response) (events : List Str)
      → All IsLine (messages_of signals)
      → reader_of r ≡ between events
      → Delivered (events ++ messages_of signals) (stream_loop fails signals r)
  unfolding stream_loop
  stream_loop-Delivered [] r events lines h = ([], ap (λ (x : Reader). x.events ++ []) h, inr refl)
  stream_loop-Delivered (done ∷ signals) r events lines h =
      ([], ap (λ (x : Reader). x.events ++ []) h, inr refl)
  stream_loop-Delivered (tick ∷ signals) r events lines h =
      unless_failed-Delivered (stream_loop fails signals) events events _ (messages_of signals)
        (messages_of signals) (write_keep_alive fails r) (write_keep_alive-Wrote r events h) refl
        refl λ r' h'. stream_loop-Delivered signals r' events lines h'
  stream_loop-Delivered (message payload ∷ signals) r events lines h =
      unless_failed-Delivered (stream_loop fails signals) events (events ++ (payload ∷ [])) _
        (payload ∷ messages_of signals) (messages_of signals) (write_sse fails payload r)
        (write_sse-Wrote payload r events lines.0 h) refl
        (append_assoc events (payload ∷ []) (messages_of signals))
        λ r' h'.
          subst (λ all. Delivered all (stream_loop fails signals r'))
            (append_assoc events (payload ∷ []) (messages_of signals))
            (stream_loop-Delivered signals r' (events ++ (payload ∷ [])) lines.1 h')

  -- What is written reads as an event stream: the browser is given the initial tasks, the initial
  -- settings and the messages, each once, unchanged and in order, whatever keep-alives come between,
  -- where no payload has a newline or a carriage return; and if a write fails, whatever part of its bytes
  -- was taken, it has been given the first of them.
  pub serve-Delivered :
      (tasks settings : Str) (signals : List Signal)
      → All IsLine (tasks ∷ settings ∷ messages_of signals)
      → Delivered
          (tasks ∷ settings ∷ messages_of signals)
          (serve fails tasks settings signals new_response)
  unfolding serve feed
  serve-Delivered tasks settings signals lines =
      unless_failed-Delivered _ [] (tasks ∷ []) _ (tasks ∷ settings ∷ messages_of signals)
        (settings ∷ messages_of signals) (write_sse fails tasks new_response)
        (write_sse-Wrote tasks new_response [] lines.0 refl) refl refl
        λ r1 h1.
          unless_failed-Delivered (stream_loop fails signals) (tasks ∷ []) (tasks ∷ settings ∷ []) _
            (settings ∷ messages_of signals) (messages_of signals) (write_sse fails settings r1)
            (write_sse-Wrote settings r1 (tasks ∷ []) lines.1.0 h1) refl refl
            λ r2 h2. stream_loop-Delivered signals r2 (tasks ∷ settings ∷ []) lines.1.1 h2
