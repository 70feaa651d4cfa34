-- ===== src/ReadModel/Process/Replays.antt =====
-- What `processEvent` does when the queue delivers an event again.
use prism_plan.Shared.{
  ℕ, suc, ◌≡◌, ◌≢◌, refl, sym, ap, ◌∙◌, List, [], ◌∷◌, ◌++◌, Str, str_eq, IsInt64, arith,
  if◌then◌else◌,
}
use prism_plan.ReadModel.Events.{Event}
use prism_plan.ReadModel.Tasks.{TaskStorage, Outcome, done, failed, running, apply}
use prism_plan.ReadModel.Tasks.Refinement.{TableLaws}
use prism_plan.ReadModel.Tasks.History.{apply_replay}
use prism_plan.ReadModel.Users.{UserStorage}
use prism_plan.ReadModel.Process.{
  task_type, Effect, refresh_tasks, publish, Wiring, refreshes, channel_of, after_apply,
  apply_event, process_event,
}

after_apply-world :
    {W : Type 0} (wiring : Wiring) (ev : Event) (payload : Str) (r : Outcome × W)
    → (after_apply wiring ev payload r).1 ≡ r.1
unfolding after_apply
after_apply-world wiring ev payload (done, w) = refl
after_apply-world wiring ev payload (failed e, w) = refl
after_apply-world wiring ev payload (running, w) = refl

after_apply-answer :
    {W : Type 0} (wiring : Wiring) (ev : Event) (payload : Str) (r : Outcome × W)
    → (after_apply wiring ev payload r).0.0 ≡ r.0
unfolding after_apply
after_apply-answer wiring ev payload (done, w) = refl
after_apply-answer wiring ev payload (failed e, w) = refl
after_apply-answer wiring ev payload (running, w) = refl

-- Only an accepted event has effects.
after_apply-quiet :
    {W : Type 0} (wiring : Wiring) (ev : Event) (payload : Str) (r : Outcome × W)
    → r.0 ≢ done
    → (after_apply wiring ev payload r).0.1 ≡ []
unfolding after_apply
after_apply-quiet wiring ev payload (done, w) h = absurd (h refl)
after_apply-quiet wiring ev payload (failed e, w) h = refl
after_apply-quiet wiring ev payload (running, w) h = refl

after_apply-loud :
    {W : Type 0} (wiring : Wiring) (ev : Event) (payload : Str) (r : Outcome × W)
    → r.0 ≡ done
    → (after_apply wiring ev payload r).0.1
      ≡ refreshes wiring ev ++ (publish (channel_of wiring ev) payload ∷ [])
unfolding after_apply
after_apply-loud wiring ev payload (done, w) h = refl
after_apply-loud wiring ev payload (failed e, w) h = cc
after_apply-loud wiring ev payload (running, w) h = cc

effects_of_task :
    (wiring : Wiring) (ev : Event) (payload : Str)
    → ev.entity_type ≡ task_type
    → refreshes wiring ev ++ (publish (channel_of wiring ev) payload ∷ []) ≡ (
        if wiring.has_cache
        then refresh_tasks ev.user_id ev.entity_id ev.timestamp
          ∷ publish wiring.task_channel payload
          ∷ []
        else publish wiring.task_channel payload ∷ [])
unfolding refreshes channel_of str_eq
effects_of_task wiring ev payload e = rw e (ground arith)

module _ {W : Type 0} (tasks : TaskStorage W) (users : UserStorage W) (laws : TableLaws tasks)
    (fuel : ℕ) (wiring : Wiring) (ev : Event) (payload : Str) (w : W)
    (sized : IsInt64 ev.timestamp) where
  abbrev first_time : (Outcome × List Effect) × W
  first_time = process_event tasks users (suc fuel) wiring ev payload w

  abbrev again : (Outcome × List Effect) × W
  again = process_event tasks users (suc fuel) wiring ev payload first_time.1

  process_event-eq :
      (v : W)
      → ev.entity_type ≡ task_type
      → process_event tasks users (suc fuel) wiring ev payload v
        ≡ after_apply wiring ev payload (apply tasks (suc fuel) ev v)
  unfolding process_event apply_event str_eq
  process_event-eq v e = rw e refl

  -- A task event, with an int64 timestamp, that was accepted has the cache refreshed, where there is one, and then is published
  -- once; when the queue delivers it again, it is refused, and nothing is refreshed or published.
  pub process_event_replay :
      ev.entity_type ≡ task_type
      → first_time.0.0 ≡ done
      → (first_time.0.1 ≡ (
          if wiring.has_cache
          then refresh_tasks ev.user_id ev.entity_id ev.timestamp
            ∷ publish wiring.task_channel payload
            ∷ []
          else publish wiring.task_channel payload ∷ []))
        × (again.0.0 ≢ done)
        × (again.0.1 ≡ [])
  process_event_replay is_task accepted = (effects, λ q. refused (sym answer2 ∙ q), quiet)
    where
      once : Outcome × W
      once = apply tasks (suc fuel) ev w

      world1 : first_time.1 ≡ once.1
      world1 =
          ap (λ (r : (Outcome × List Effect) × W). r.1) (process_event-eq w is_task)
          ∙ after_apply-world wiring ev payload once

      accepted1 : once.0 ≡ done
      accepted1 =
          sym (after_apply-answer wiring ev payload once)
          ∙ ap (λ (r : (Outcome × List Effect) × W). r.0.0) (sym (process_event-eq w is_task))
          ∙ accepted

      refused : (apply tasks (suc fuel) ev once.1).0 ≢ done
      refused = (apply_replay tasks laws fuel ev w sized accepted1).0

      again-eq : again ≡ after_apply wiring ev payload (apply tasks (suc fuel) ev once.1)
      again-eq =
          process_event-eq first_time.1 is_task
          ∙ ap (λ v. after_apply wiring ev payload (apply tasks (suc fuel) ev v)) world1

      answer2 : again.0.0 ≡ (apply tasks (suc fuel) ev once.1).0
      answer2 =
          ap (λ (r : (Outcome × List Effect) × W). r.0.0) again-eq
          ∙ after_apply-answer wiring ev payload (apply tasks (suc fuel) ev once.1)

      quiet : again.0.1 ≡ []
      quiet =
          ap (λ (r : (Outcome × List Effect) × W). r.0.1) again-eq
          ∙ after_apply-quiet wiring ev payload (apply tasks (suc fuel) ev once.1) refused

      effects : first_time.0.1 ≡ (
          if wiring.has_cache
          then refresh_tasks ev.user_id ev.entity_id ev.timestamp
            ∷ publish wiring.task_channel payload
            ∷ []
          else publish wiring.task_channel payload ∷ [])
      effects =
          ap (λ (r : (Outcome × List Effect) × W). r.0.1) (process_event-eq w is_task)
          ∙ after_apply-loud wiring ev payload once accepted1
          ∙ effects_of_task wiring ev payload is_task
