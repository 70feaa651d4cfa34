-- ===== src/Storage/Enqueue/Delivery.antt =====
-- What a nil result of `EnqueueCommands` means.
use prism_plan.Shared.{
  ℕ, zero, suc, ◌+◌, ◌≤◌, ◌≡◌, ◌≢◌, refl, ap, ◌∙◌, inl, inr, List, [], ◌∷◌, none, true, false, Str,
  arith, All,
}
use prism_plan.Storage.Enqueue.{
  Worker, waiting, sending, stopped, Run, waiters, start, Step, produce, abort, finish, take_job,
  drained, give_up, deliver, refuse, parent, Reach, here, next, IsStopped, Returned, outcome,
}
use prism_plan.Storage.Enqueue.Counting.{
  count, count-append, held, held_by_all, held_by_all-set_worker,
}
use prism_plan.Storage.Enqueue.Invariant.{Inv, Reach-Inv, some_live}

-- How often a payload is accounted for.
abbrev total : Str → Run → ℕ
total a r =
    count a r.sent + count a r.lost + held_by_all a r.workers + count a r.channel + count a r.todo

-- No step loses a payload or makes a second one.
Step-total : {r s : Run} → Step r s → (a : Str) → total a s ≡ total a r
unfolding count held
Step-total {r} (produce p ps et ec room) a =
    omega (arith, count-append a r.channel (p ∷ []), ap (count a) et, count-append a (p ∷ []) ps)
Step-total (abort ec e) a = refl
Step-total (finish et ec) a = refl
Step-total {r} (take_job i p ps e ech) a = omega (
  arith,
  held_by_all-set_worker a r.workers i waiting (sending p) e,
  ap (count a) ech,
  count-append a (p ∷ []) ps,
)
Step-total {r} (drained i e ech ec) a =
    omega (arith, held_by_all-set_worker a r.workers i waiting stopped e)
Step-total {r} (give_up i e ec) a =
    omega (arith, held_by_all-set_worker a r.workers i waiting stopped e)
Step-total {r} (deliver i p e) a = omega (
  arith,
  held_by_all-set_worker a r.workers i (sending p) waiting e,
  count-append a (p ∷ []) r.sent,
)
Step-total {r} (refuse i p x e) a = omega (
  arith,
  held_by_all-set_worker a r.workers i (sending p) stopped e,
  count-append a (p ∷ []) r.lost,
)
Step-total (parent e) a = refl

held_by_all-waiters : (a : Str) (n : ℕ) → held_by_all a (waiters n) ≡ 0
unfolding waiters held_by_all held
held_by_all-waiters a zero = refl
held_by_all-waiters a (suc n) = omega (arith, held_by_all-waiters a n)

Reach-total :
    {workers : ℕ} {payloads : List Str} {r : Run}
    → Reach workers payloads r
    → (a : Str) → total a r ≡ count a payloads
unfolding start
Reach-total {workers} here a = unfold count in omega (arith, held_by_all-waiters a workers)
Reach-total (next r st) a = Step-total st a ∙ Reach-total r a

held_by_all-stopped : (a : Str) (ws : List Worker) → All IsStopped ws → held_by_all a ws ≡ 0
unfolding held_by_all held
held_by_all-stopped a [] all = refl
held_by_all-stopped a (w ∷ ws) all =
    omega (arith, ap (held a) all.0, held_by_all-stopped a ws all.1)

outcome-none : (r : Run) → outcome r ≡ none → (r.first_err ≡ none) × (r.parent_done ≡ false)
unfolding outcome
outcome-none r e = ground arith

count-nil : (a : Str) → count a [] ≡ 0
unfolding count
count-nil a = refl

module _ {workers : ℕ} {r : Run} (v : Inv workers r) where
  not_cancelled : r.first_err ≡ none → r.parent_done ≡ false → r.cancelled ≢ true
  not_cancelled no_err no_parent c = elim (v.cause c) [
    | inl h ↦ h no_err
    | inr h ↦ cc (h, no_parent)
  ]

  all_handed_over : r.cancelled ≢ true → r.closed ≡ true → r.todo ≡ []
  all_handed_over going shut = elim (v.handed_over shut) [ inl h ↦ h | inr h ↦ absurd (going h) ]

  channel_empty : r.cancelled ≢ true → 1 ≤ workers → All IsStopped r.workers → r.channel ≡ []
  channel_empty going some_worker all = elim v.ended [
    | inl live ↦ absurd (some_live r.workers (omega (arith, v.size)) live all)
    | inr (inl c) ↦ absurd (going c)
    | inr (inr d) ↦ d.1
  ]

-- `EnqueueCommands` has returned nil: the queue has accepted every payload, each exactly as often as
-- it was given, whatever order the goroutines took.
pub nil_delivers_all :
    (workers : ℕ) (payloads : List Str) (r : Run)
    → 1 ≤ workers
    → Reach workers payloads r
    → Returned r
    → outcome r ≡ none
    → (a : Str) → count a r.sent ≡ count a payloads
nil_delivers_all workers payloads r some_worker reached back e a =
    let v = Reach-Inv reached in
    let o = outcome-none r e in
    let going = not_cancelled v o.0 o.1 in
    omega (
      arith,
      Reach-total reached a,
      ap (count a) (v.clean o.0),
      ap (count a) (all_handed_over v going back.closed),
      ap (count a) (channel_empty v going some_worker back.all_stopped),
      held_by_all-stopped a r.workers back.all_stopped,
      count-nil a,
    )

-- Whatever it returns, no payload was sent more often than it was given.
pub sent_at_most_once :
    (workers : ℕ) (payloads : List Str) (r : Run)
    → Reach workers payloads r
    → (a : Str) → count a r.sent ≤ count a payloads
sent_at_most_once workers payloads r reached a = omega (arith, Reach-total reached a)
