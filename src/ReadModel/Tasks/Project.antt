-- ===== src/ReadModel/Tasks/Project.antt =====
-- What task events mean for one row of the read model, apart from storage: the specification that
-- `TaskService.Apply` is held to.
use prism_plan.Shared.{
  ◌≡◌, refl, ap, Option, none, some, true, false, str_eq, ◌<ℤ◌, leb_ℤ, arith, if_cases,
  if◌then◌else◌,
}
use mathlib.Core.Option.{some-injective}
use prism_plan.ReadModel.Events.{
  Event, TaskCreatedEventData, TaskUpdatedEventData, TaskEntity, TaskUpdate, decode_task_created,
  decode_task_updated, task_created, task_updated, task_completed, task_reopened,
}
use prism_plan.ReadModel.Tasks.{
  bad_data, already_exists, not_found, no_fields, stale, unknown_event, Outcome, done, failed,
  running, update_of, set_done, new_task, has_no_fields,
}

abbrev pub or_kept {ℓ} : {A : Type ℓ} → Option A → A → A
or_kept none old = old
or_kept (some new) old = new

-- A merge: the fields that the update gives, and the row's others.
unfoldable pub merge : TaskEntity → TaskUpdate → TaskEntity
merge e u = record e {
  title = or_kept u.title e.title;
  notes = or_kept u.notes e.notes;
  category = or_kept u.category e.category;
  order = or_kept u.order e.order;
  done = or_kept u.done e.done;
  event_timestamp = or_kept u.event_timestamp e.event_timestamp;
}

abbrev pub Row : Type 0
Row = Option TaskEntity

unfoldable pub create : Event → Option TaskCreatedEventData → Row → Outcome × Row
create ev none row = (failed bad_data, row)
create ev (some d) (some e) = (failed (already_exists ev.entity_id), some e)
create ev (some d) none = (done, some (new_task ev d))

-- Only a strictly newer event with some field changes a row that is there.
unfoldable pub amend : Event → TaskUpdate → Row → Outcome × Row
unfolding merge
amend ev u none = (failed (not_found ev.entity_id), none)
amend ev u (some e) =
    if has_no_fields u
    then (failed (no_fields ev.entity_id), some e)
    else if leb_ℤ ev.timestamp e.event_timestamp
    then (failed (stale ev.entity_id), some e)
    else (done, some (merge e u))

unfoldable pub amend_with : Event → Option TaskUpdatedEventData → Row → Outcome × Row
unfolding amend
amend_with ev none row = (failed bad_data, row)
amend_with ev (some d) row = amend ev (update_of ev d) row

-- The answer to an event, and the row after it.
unfoldable pub project : Event → Row → Outcome × Row
unfolding create amend_with
project ev row =
    if str_eq ev.type task_created
    then create ev (decode_task_created ev.payload) row
    else if str_eq ev.type task_updated
    then amend_with ev (decode_task_updated ev.payload) row
    else if str_eq ev.type task_completed
    then amend ev (set_done ev true) row
    else if str_eq ev.type task_reopened
    then amend ev (set_done ev false) row
    else (failed (unknown_event ev.type), row)

-- The row carries the timestamp of an event that was accepted, and an event that was not accepted
-- leaves the row as it is.
abbrev pub Sensible : Event → Row → Outcome × Row → Type 0
Sensible ev row (done, none) = ⊥
Sensible ev row (done, some e) =
    (e.event_timestamp ≡ ev.timestamp)
    × ((old : TaskEntity) → row ≡ some old → old.event_timestamp <ℤ ev.timestamp)
Sensible ev row (failed x, row') = row' ≡ row
Sensible ev row (running, row') = ⊥

create-Sensible :
    (ev : Event) (d : Option TaskCreatedEventData) (row : Row) → Sensible ev row (create ev d row)
unfolding create
create-Sensible ev none row = refl
create-Sensible ev (some d) (some e) = refl
create-Sensible ev (some d) none = (refl, λ old q. cc)

amend-Sensible :
    (ev : Event) (u : TaskUpdate) (row : Row)
    → u.event_timestamp ≡ some ev.timestamp
    → Sensible ev row (amend ev u row)
unfolding amend
amend-Sensible ev u none own = refl
amend-Sensible ev u (some e) own =
    if_cases (Sensible ev (some e)) (has_no_fields u) _ _ (λ _. refl)
      λ _.
        if_cases (Sensible ev (some e)) (leb_ℤ ev.timestamp e.event_timestamp) _ _ (λ _. refl)
          λ fresh. (
            ap (λ o. or_kept o e.event_timestamp) own,
            λ old q. ground (arith, some-injective e old q),
          )

amend_with-Sensible :
    (ev : Event) (d : Option TaskUpdatedEventData) (row : Row)
    → Sensible ev row (amend_with ev d row)
unfolding amend_with
amend_with-Sensible ev none row = refl
amend_with-Sensible ev (some d) row = amend-Sensible ev (update_of ev d) row refl

pub project-Sensible : (ev : Event) (row : Row) → Sensible ev row (project ev row)
unfolding project
project-Sensible ev row =
    if_cases P (str_eq ev.type task_created) _ _
      (λ _. create-Sensible ev (decode_task_created ev.payload) row)
      λ _.
        if_cases P (str_eq ev.type task_updated) _ _
          (λ _. amend_with-Sensible ev (decode_task_updated ev.payload) row)
          λ _.
            if_cases P (str_eq ev.type task_completed) _ _
              (λ _. amend-Sensible ev (set_done ev true) row refl)
              λ _.
                if_cases P (str_eq ev.type task_reopened) _ _
                  (λ _. amend-Sensible ev (set_done ev false) row refl) (λ _. refl)
  where
    P : Outcome × Row → Type 0
    P = Sensible ev row
