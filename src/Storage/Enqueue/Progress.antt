-- ===== src/Storage/Enqueue/Progress.antt =====
-- The goroutines of `EnqueueCommands` never block one another, and end.
use prism_plan.Shared.{
  ℕ, zero, suc, ◌+◌, ◌*◌, ◌≤◌, ◌<◌, ◌≡◌, refl, ap, ◌∙◌, ◌⊎◌, inl, inr, List, [], ◌∷◌, some, Bool,
  true, false, Str, arith, ltb, Bool-cases, length, get_elem?, length-append, All,
}
use mathlib.Core.Option.{some-injective}
use prism_plan.Storage.Enqueue.{
  Worker, waiting, sending, stopped, set_worker, Run, start, Step, produce, abort, finish, take_job,
  drained, give_up, deliver, refuse, parent, Reach, here, next, IsStopped, Returned,
}
use prism_plan.Storage.Enqueue.Invariant.{Inv, Reach-Inv, Ended, some_live}

weight : Worker → ℕ
weight waiting = 1
weight (sending p) = 3
weight stopped = 0

weight_of_all : List Worker → ℕ
weight_of_all [] = 0
weight_of_all (w ∷ ws) = weight w + weight_of_all ws

abbrev open_bit : Bool → ℕ
open_bit true = 0
open_bit false = 1

-- A bound on the steps that are left.
pub steps_left : Run → ℕ
steps_left r =
    4 * length r.todo
    + 3 * length r.channel
    + weight_of_all r.workers
    + open_bit r.closed
    + open_bit r.parent_done

weight_of_all-set_worker :
    (ws : List Worker) (i : ℕ) (old new : Worker)
    → get_elem? ws i ≡ some old
    → weight_of_all (set_worker ws i new) + weight old ≡ weight_of_all ws + weight new
unfolding weight_of_all
weight_of_all-set_worker [] i old new e = cc
weight_of_all-set_worker (w ∷ ws) zero old new e = omega (arith, ap weight (some-injective w old e))
weight_of_all-set_worker (w ∷ ws) (suc i) old new e =
    omega (arith, weight_of_all-set_worker ws i old new e)

Step-steps_left : {r s : Run} → Step r s → steps_left s < steps_left r
unfolding steps_left weight
Step-steps_left {r} (produce p ps et ec room) =
    omega (arith, ap (λ l. length l) et, length-append r.channel (p ∷ []))
Step-steps_left {r} (abort ec e) = omega (arith, ap open_bit ec)
Step-steps_left {r} (finish et ec) = omega (arith, ap open_bit ec)
Step-steps_left {r} (take_job i p ps e ech) =
    omega
      (arith, weight_of_all-set_worker r.workers i waiting (sending p) e, ap (λ l. length l) ech)
Step-steps_left {r} (drained i e ech ec) =
    omega (arith, weight_of_all-set_worker r.workers i waiting stopped e)
Step-steps_left {r} (give_up i e ec) =
    omega (arith, weight_of_all-set_worker r.workers i waiting stopped e)
Step-steps_left {r} (deliver i p e) =
    omega (arith, weight_of_all-set_worker r.workers i (sending p) waiting e)
Step-steps_left {r} (refuse i p x e) =
    omega (arith, weight_of_all-set_worker r.workers i (sending p) stopped e)
Step-steps_left {r} (parent e) = omega (arith, ap open_bit e)

capacity_kept : {r s : Run} → Step r s → s.capacity ≡ r.capacity
capacity_kept (produce p ps et ec room) = refl
capacity_kept (abort ec e) = refl
capacity_kept _ = refl

Reach-capacity :
    {workers : ℕ} {payloads : List Str} {r : Run} → Reach workers payloads r → r.capacity ≡ workers
unfolding start
Reach-capacity here = refl
Reach-capacity (next r st) = capacity_kept st ∙ Reach-capacity r

abbrev Busy : List Worker → Type 0
Busy ws =
    ((i : ℕ) × (get_elem? ws i ≡ some waiting))
    ⊎ ((i : ℕ) × (p : Str) × (get_elem? ws i ≡ some (sending p)))

Busy-or_IsStopped : (ws : List Worker) → All IsStopped ws ⊎ Busy ws
Busy-or_IsStopped [] = inl tt
Busy-or_IsStopped (waiting ∷ ws) = inr (inl (0, refl))
Busy-or_IsStopped (sending p ∷ ws) = inr (inr (0, p, refl))
Busy-or_IsStopped (stopped ∷ ws) = elim (Busy-or_IsStopped ws) [
  | inl all ↦ inl (refl, all)
  | inr (inl (i, e)) ↦ inr (inl (suc i, e))
  | inr (inr (i, p, e)) ↦ inr (inr (suc i, p, e))
]

-- The call's own steps, the answers of the queue to its requests among them: all but the end of the
-- caller's context, which may never come.
abbrev pub is_own : {r s : Run} → Step r s → Bool
is_own (parent e) = false
is_own _ = true

abbrev pub CanStep : Run → Type 0
CanStep r = (s : Run) × (st : Step r s) × (is_own st ≡ true)

List-cases : (xs : List Str) → (xs ≡ []) ⊎ ((x : Str) × (ys : List Str) × (xs ≡ x ∷ ys))
List-cases [] = inl refl
List-cases (x ∷ ys) = inr (x, ys, refl)

-- A worker that has not stopped can move, unless it waits at an open channel that is empty.
Busy-step : (r : Run) → Busy r.workers → CanStep r ⊎ ((r.channel ≡ []) × (r.closed ≡ false))
Busy-step r (inr (i, p, e)) = inl (_, deliver i p e, refl)
Busy-step r (inl (i, e)) = elim (List-cases r.channel) [
  | inr (p, ps, ech) ↦ inl (_, take_job i p ps e ech, refl)
  | inl ech ↦ elim (Bool-cases r.closed) [
    | inl ec ↦ inl (_, drained i e ech ec, refl)
    | inr ec ↦ inr (ech, ec)
  ]
]

-- The loop that hands the payloads over can move, unless the channel is full.
producer_step : (r : Run) → r.closed ≡ false → CanStep r ⊎ (r.capacity ≤ length r.channel)
producer_step r ec = elim (List-cases r.todo) [
  | inl et ↦ inl (_, finish et ec, refl)
  | inr (p, ps, et) ↦ elim (Bool-cases (ltb (length r.channel) r.capacity)) [
    | inl room ↦ inl (_, produce p ps et ec (ground arith), refl)
    | inr full ↦ inr (ground arith)
  ]
]

-- Where all workers have stopped with the channel open, the context is done.
All-stopped_step :
    (r : Run)
    → Ended r
    → 1 ≤ length r.workers
    → All IsStopped r.workers
    → r.closed ≡ false
    → CanStep r
All-stopped_step r (inl live) some_worker all ec = absurd (some_live r.workers some_worker live all)
All-stopped_step r (inr (inl c)) some_worker all ec = (_, abort ec c, refl)
All-stopped_step r (inr (inr d)) some_worker all ec = cc (d.0, ec)

-- As long as the call has not returned, its loop or one of its goroutines can move, or the queue can
-- answer a request of one, without any help of the caller's context; and every step brings the end
-- nearer, cancelled or not. So, where the queue answers, `EnqueueCommands` neither deadlocks nor runs
-- forever, whether requests fail or are cancelled.
pub enqueue_ends :
    (workers : ℕ) (payloads : List Str) (r : Run)
    → 1 ≤ workers
    → Reach workers payloads r
    → (Returned r ⊎ CanStep r) × ((s : Run) → Step r s → steps_left s < steps_left r)
enqueue_ends workers payloads r some_worker reached =
    (moves (Busy-or_IsStopped r.workers), λ s st. Step-steps_left st)
  where
    v : Inv workers r
    v = Reach-Inv reached

    after_busy : CanStep r ⊎ ((r.channel ≡ []) × (r.closed ≡ false)) → Returned r ⊎ CanStep r
    after_busy (inl m) = inr m
    after_busy (inr (ech, ec)) = elim (producer_step r ec) [
      | inl m ↦ inr m
      | inr full ↦ absurd (omega (arith, Reach-capacity reached, ap (λ l. length l) ech))
    ]

    moves : All IsStopped r.workers ⊎ Busy r.workers → Returned r ⊎ CanStep r
    moves (inr busy) = after_busy (Busy-step r busy)
    moves (inl all) = elim (Bool-cases r.closed) [
      | inl ec ↦ inl (record { closed = ec; all_stopped = all })
      | inr ec ↦ inr (All-stopped_step r v.ended (omega (arith, v.size)) all ec)
    ]
