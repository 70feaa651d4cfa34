-- ===== src/Api/Pool/Handoff.antt =====
-- Handing a job over to the workers.
use prism_plan.Shared.{
  ℕ, zero, suc, ◌≤◌, ◌≡◌, ◌≢◌, refl, ap, ◌∙◌, List, [], ◌∷◌, ◌++◌, Option, none, some, Bool, true,
  false, ℤ, pos, leb_ℤ, arith, ltb, if_cases, if◌then◌else◌, length, drop, length-append,
  length-drop,
}
use prism_plan.Api.Pool.{
  EnqueueJob, Jobs, Event, taken, fired, shut, Send, sent, refused, closed_channel, send_with_timer,
  try_enqueue_job, wait_for, after_first_try,
}

abbrev IsBounded : Jobs → Type 0
IsBounded ch = length ch.buffer ≤ ch.capacity

abbrev one_if : Bool → EnqueueJob → List EnqueueJob
one_if true job = job ∷ []
one_if false job = []

-- The channel after a call: workers took some of the oldest jobs, and `job` stands at the end exactly
-- if the call said so; the buffer keeps within its capacity.
pub record Handed (before : Jobs) (job : EnqueueJob) (accepted : Bool) (after : Jobs) : Type 0 where
  pub taken_jobs : ℕ
  pub contents : after.buffer ≡ drop taken_jobs before.buffer ++ one_if accepted job
  pub capacity : after.capacity ≡ before.capacity
  pub bounded : IsBounded before → IsBounded after

append-nil {ℓ} : {A : Type ℓ} (xs : List A) → xs ≡ xs ++ []
append-nil [] = refl
append-nil (x ∷ xs) = ap (◌∷◌ x) (append-nil xs)

drop-one {ℓ} : {A : Type ℓ} (k : ℕ) (xs : List A) → drop k (drop 1 xs) ≡ drop (suc k) xs
drop-one zero [] = refl
drop-one (suc k) [] = refl
drop-one k (x ∷ xs) = refl

untouched : (ch : Jobs) (job : EnqueueJob) → Handed ch job false ch
untouched ch job = record {
  taken_jobs = 0;
  contents = append-nil ch.buffer;
  capacity = refl;
  bounded = λ b. b;
}

placed :
    (ch : Jobs) (job : EnqueueJob)
    → ltb (length ch.buffer) ch.capacity ≡ true
    → Handed ch job true (record ch { buffer = ch.buffer ++ (job ∷ []) })
placed ch job room = record {
  taken_jobs = 0;
  contents = refl;
  capacity = refl;
  bounded = λ b. ground (arith, length-append ch.buffer (job ∷ []));
}

abbrev Sends : Jobs → EnqueueJob → Option (Send × Jobs) → Type 0
Sends ch job none = Unit {0}
Sends ch job (some (sent, after)) = Handed ch job true after
Sends ch job (some (refused, after)) = Handed ch job false after
Sends ch job (some (closed_channel, after)) = Handed ch job false after

Handed-taken :
    (ch after : Jobs) (job : EnqueueJob) (b : Bool)
    → Handed (record ch { buffer = drop 1 ch.buffer }) job b after
    → Handed ch job b after
Handed-taken ch after job b h = record {
  taken_jobs = suc h.taken_jobs;
  contents = h.contents ∙ ap (λ front. front ++ one_if b job) (drop-one h.taken_jobs ch.buffer);
  capacity = h.capacity;
  bounded = λ within. h.bounded (omega (arith, length-drop 1 ch.buffer));
}

Sends-taken :
    (ch : Jobs) (job : EnqueueJob) (r : Option (Send × Jobs))
    → Sends (record ch { buffer = drop 1 ch.buffer }) job r
    → Sends ch job r
Sends-taken ch job none h = tt
Sends-taken ch job (some (sent, after)) h = Handed-taken ch after job true h
Sends-taken ch job (some (refused, after)) h = Handed-taken ch after job false h
Sends-taken ch job (some (closed_channel, after)) h = Handed-taken ch after job false h

Sends-shut :
    (ch : Jobs) (job : EnqueueJob) (r : Option (Send × Jobs))
    → Sends (record ch { closed = true }) job r
    → Sends ch job r
Sends-shut ch job none h = tt
Sends-shut ch job (some (sent, after)) h = record {
  taken_jobs = h.taken_jobs;
  contents = h.contents;
  capacity = h.capacity;
  bounded = h.bounded;
}
Sends-shut ch job (some (refused, after)) h = record {
  taken_jobs = h.taken_jobs;
  contents = h.contents;
  capacity = h.capacity;
  bounded = h.bounded;
}
Sends-shut ch job (some (closed_channel, after)) h = record {
  taken_jobs = h.taken_jobs;
  contents = h.contents;
  capacity = h.capacity;
  bounded = h.bounded;
}

-- What a send does at once, and what it does where it has to wait.
Sends-now :
    (ch : Jobs) (job : EnqueueJob) (rest : Option (Send × Jobs))
    → Sends ch job rest
    → Sends ch job (
        if ch.closed
        then some (closed_channel, ch)
        else if ltb (length ch.buffer) ch.capacity
        then some (sent, record ch { buffer = ch.buffer ++ (job ∷ []) })
        else rest)
Sends-now ch job rest h =
    if_cases (Sends ch job) ch.closed _ _ (λ _. untouched ch job)
      λ _. if_cases (Sends ch job) (ltb (length ch.buffer) ch.capacity) _ _ (placed ch job) (λ _. h)

send_with_timer-Sends :
    (ch : Jobs) (job : EnqueueJob) (events : List Event)
    → Sends ch job (send_with_timer ch job events)
unfolding send_with_timer
send_with_timer-Sends ch job [] = Sends-now ch job none tt
send_with_timer-Sends ch job (fired ∷ events) =
    Sends-now ch job (some (refused, ch)) (untouched ch job)
send_with_timer-Sends ch job (shut ∷ events) =
    Sends-now ch job _
      (Sends-shut ch job _ (send_with_timer-Sends (record ch { closed = true }) job events))
send_with_timer-Sends ch job (taken ∷ events) = Sends-now ch job _ (
    Sends-taken ch job _
      (send_with_timer-Sends (record ch { buffer = drop 1 ch.buffer }) job events))

-- What `tryEnqueueJob` returns on a channel.
abbrev pub Hands : Jobs → EnqueueJob → Option (Bool × Option Jobs) → Type 0
Hands ch job none = Unit {0}
Hands ch job (some (b, none)) = ⊥
Hands ch job (some (b, some after)) = Handed ch job b after

after_first :
    (ch : Jobs) (job : EnqueueJob) (r : Option (Send × Jobs))
    → Sends ch job r
    → Hands ch job (wait_for r)
after_first ch job none h = tt
after_first ch job (some (sent, after)) h = h
after_first ch job (some (refused, after)) h = h
after_first ch job (some (closed_channel, after)) h = h

-- On every branch `tryEnqueueJob` puts the job at the end of the buffer exactly if it returns true;
-- nothing else is added or reordered, and the buffer keeps within its capacity.
pub try_enqueue_job-Hands :
    (ch : Jobs) (handoff_timeout : ℤ) (job : EnqueueJob) (events : List Event)
    → Hands ch job (try_enqueue_job (some ch) handoff_timeout job events)
unfolding try_enqueue_job
try_enqueue_job-Hands ch handoff_timeout job events =
    if_cases (λ r. Hands ch job (after_first_try handoff_timeout job events r)) ch.closed _ _
      (λ _. untouched ch job)
      λ _.
        if_cases (λ r. Hands ch job (after_first_try handoff_timeout job events r))
          (ltb (length ch.buffer) ch.capacity) _ _ (placed ch job)
          λ _.
            if_cases (Hands ch job) (leb_ℤ handoff_timeout (pos 0)) _ _ (λ _. untouched ch job)
              λ _.
                after_first ch job (send_with_timer ch job events)
                  (send_with_timer-Sends ch job events)

-- The timer fires or the channel is closed, at last.
abbrev pub Ends : List Event → Type 0
Ends [] = ⊥
Ends (taken ∷ events) = Ends events
Ends (fired ∷ events) = Unit
Ends (shut ∷ events) = Unit

send_on_closed :
    (ch : Jobs) (job : EnqueueJob) (events : List Event)
    → ch.closed ≡ true
    → send_with_timer ch job events ≡ some (closed_channel, ch)
unfolding send_with_timer
send_on_closed ch job [] e = ground arith
send_on_closed ch job (fired ∷ events) e = ground arith
send_on_closed ch job (shut ∷ events) e = ground arith
send_on_closed ch job (taken ∷ events) e = ground arith

send_with_timer-ne-none :
    (ch : Jobs) (job : EnqueueJob) (events : List Event)
    → Ends events
    → send_with_timer ch job events ≢ none
unfolding send_with_timer
send_with_timer-ne-none ch job [] e = elim e [ ]
send_with_timer-ne-none ch job (fired ∷ events) e = ground arith
send_with_timer-ne-none ch job (shut ∷ events) e =
    ground (arith, send_on_closed (record ch { closed = true }) job events)
send_with_timer-ne-none ch job (taken ∷ events) e =
    ground (arith, send_with_timer-ne-none (record ch { buffer = drop 1 ch.buffer }) job events e)

-- The handoff ends: once the timer fires or the channel is closed, `tryEnqueueJob` has returned.
pub try_enqueue_job-ne-none :
    (jobs : Option Jobs) (handoff_timeout : ℤ) (job : EnqueueJob) (events : List Event)
    → Ends events
    → try_enqueue_job jobs handoff_timeout job events ≢ none
unfolding try_enqueue_job
try_enqueue_job-ne-none none handoff_timeout job events e = ground arith
try_enqueue_job-ne-none (some ch) handoff_timeout job events e =
    ground (arith, send_with_timer-ne-none ch job events e)

-- What the return of `tryEnqueueJob` says.
abbrev pub Returns : Jobs → EnqueueJob → Option (Bool × Option Jobs) → Type 0
Returns ch job r = (b : Bool) × (after : Jobs) × (r ≡ some (b, some after)) × Handed ch job b after

Hands-Returns :
    (ch : Jobs) (job : EnqueueJob) (r : Option (Bool × Option Jobs))
    → Hands ch job r
    → r ≢ none
    → Returns ch job r
Hands-Returns ch job none h returned = absurd (returned refl)
Hands-Returns ch job (some (b, none)) h returned = elim h [ ]
Hands-Returns ch job (some (b, some after)) h returned = (b, after, refl, h)

-- Once the timer fires or the channel is closed, `tryEnqueueJob` has returned, and on every branch it
-- has put the job at the end of the buffer exactly if it returns true; nothing else is added or
-- reordered, and the buffer keeps within its capacity.
pub try_enqueue_job-Returns :
    (ch : Jobs) (handoff_timeout : ℤ) (job : EnqueueJob) (events : List Event)
    → Ends events
    → Returns ch job (try_enqueue_job (some ch) handoff_timeout job events)
try_enqueue_job-Returns ch handoff_timeout job events ends =
    Hands-Returns ch job _ (try_enqueue_job-Hands ch handoff_timeout job events)
      (try_enqueue_job-ne-none (some ch) handoff_timeout job events ends)
