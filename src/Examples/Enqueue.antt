-- ===== src/Examples/Enqueue.antt =====
-- `EnqueueCommands` at a concrete run: two goroutines, two payloads.
use prism_plan.Shared.{◌≤◌, ◌<◌, ◌≡◌, refl, ◌⊎◌, List, [], ◌∷◌, none, true, false, Str, lit, arith}
use prism_plan.Storage.Enqueue.{
  sending, stopped, Run, waiters, start, Step, produce, finish, take_job, drained, deliver, Reach,
  here, next, Returned, outcome,
}
use prism_plan.Storage.Enqueue.Counting.{count}
use prism_plan.Storage.Enqueue.Delivery.{nil_delivers_all, sent_at_most_once}
use prism_plan.Storage.Enqueue.Progress.{steps_left, CanStep, enqueue_ends}

abbrev one : Str
one = lit "{1}"

abbrev two : Str
two = lit "{2}"

abbrev both : List Str
both = one ∷ two ∷ []

-- The second goroutine is served first.
abbrev finished : Run
finished = record {
  todo = [];
  channel = [];
  capacity = 2;
  closed = true;
  workers = stopped ∷ stopped ∷ [];
  cancelled = false;
  parent_done = false;
  first_err = none;
  sent = one ∷ two ∷ [];
  lost = [];
}

abbrev delivering : Run
delivering = record {
  todo = [];
  channel = [];
  capacity = 2;
  closed = true;
  workers = sending one ∷ sending two ∷ [];
  cancelled = false;
  parent_done = false;
  first_err = none;
  sent = [];
  lost = [];
}

Reach-delivering : Reach 2 both delivering
unfolding start waiters
Reach-delivering =
    next
      (next
        (next
          (next (next here (produce one (two ∷ []) refl refl (omega arith)))
            (produce two [] refl refl (omega arith)))
          (finish refl refl))
        (take_job 0 one (two ∷ []) refl refl))
      (take_job 1 two [] refl refl)

Reach-finished : Reach 2 both finished
Reach-finished =
    next
      (next (next (next Reach-delivering (deliver 1 two refl)) (deliver 0 one refl))
        (drained 0 refl refl refl))
      (drained 1 refl refl refl)

finished-Returned : Returned finished
finished-Returned = record { closed = refl; all_stopped = (refl, (refl, tt)) }

nil_delivers_all_example : count two finished.sent ≡ count two both
unfolding outcome
nil_delivers_all_example =
    nil_delivers_all 2 both finished (omega arith) Reach-finished finished-Returned refl two

sent_at_most_once_example : count two delivering.sent ≤ count two both
sent_at_most_once_example = sent_at_most_once 2 both delivering Reach-delivering two

enqueue_ends_example :
    (Returned delivering ⊎ CanStep delivering)
    × ((s : Run) → Step delivering s → steps_left s < steps_left delivering)
enqueue_ends_example = enqueue_ends 2 both delivering (omega arith) Reach-delivering
