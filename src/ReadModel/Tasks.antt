-- ===== src/ReadModel/Tasks.antt =====
-- read-model-updater/domain/task_service.go, over the storage interface that it declares. A storage
-- call takes the state of the world `W` and returns the next one.
pub mod Retries
pub mod Project
pub mod Refinement
pub mod History
pub mod Orders
pub mod Ages
use prism_plan.Shared.{
  ℕ, zero, suc, ◌+◌, ◌-◌, ◌*◌, ◌/◌, ◌%◌, ◌^◌, ◌≤◌, ◌<◌, ◌≡◌, ◌≢◌, refl, sym, ap, ◌∙◌, subst, ◌↔◌,
  ◌⊎◌, inl, inr, List, [], ◌∷◌, ◌++◌, map, Option, none, some, Bool, true, false, not, ◌&&◌, ◌||◌,
  Str, lit, IsByte, str_eq, is_empty, str_eq_refl, str_eq_iff, str_eq_ne, is_empty_iff, Result, ok,
  err, ℤ, pos, negsuc, neg_part, pos_part, ◌+ℤ◌, ◌≤ℤ◌, ◌<ℤ◌, leb_ℤ, ltb_ℤ, eqb_ℤ, wrap_int64,
  wrap_int32, wrap_int64_self, wrap_int32_self, IsInt64, is_int64, scale, atoi, arith, ltb, leb,
  ◌==◌, ==_iff, ==_refl, Bool-cases, if_cases, Option-cases, if◌then◌else◌, length, get_elem?, take,
  drop, length-append, length-take, length-drop, length-map, take-append_left, drop-append_left,
  take-length, All,
}
use prism_plan.ReadModel.Events.{
  Event, TaskCreatedEventData, TaskUpdatedEventData, TaskEntity, TaskUpdate, decode_task_created,
  decode_task_updated, task_created, task_updated, task_completed, task_reopened,
}

-- What `UpdateTask` returns: no error, `ErrConcurrencyConflict`, or another error.
pub data UpdateReply : Type 0 where
  updated conflict : UpdateReply
  refused : Str → UpdateReply

-- `TaskStorage`
pub record TaskStorage (W : Type 0) : Type 0 where
  pub get_task : Str → Str → W → Result Str (Option TaskEntity) × W
  pub insert_task : TaskEntity → W → Option Str × W
  pub update_task : TaskUpdate → Str → W → UpdateReply × W

pub data TaskError : Type 0 where
  bad_data : TaskError
  storage_error already_exists not_found no_fields stale unknown_event unknown_entity_type :
      Str → TaskError

-- The loop of a handler may still be running when its fuel is used up.
pub data Outcome : Type 0 where
  done : Outcome
  failed : TaskError → Outcome
  running : Outcome

-- The update that a task-updated event asks for, and whether it has a field at all.
abbrev pub update_of : Event → TaskUpdatedEventData → TaskUpdate
update_of ev d = record {
  partition_key = ev.user_id;
  row_key = ev.entity_id;
  title = d.title;
  notes = d.notes;
  category = d.category;
  order = d.order;
  done = d.done;
  event_timestamp = some ev.timestamp;
}

abbrev pub is_none {ℓ} : {A : Type ℓ} → Option A → Bool
is_none none = true
is_none (some a) = false

abbrev pub has_no_fields : TaskUpdate → Bool
has_no_fields u =
    is_none u.title
    && (is_none u.notes && (is_none u.category && (is_none u.order && is_none u.done)))

-- The update of a task-completed or task-reopened event.
abbrev pub set_done : Event → Bool → TaskUpdate
set_done ev b = record {
  partition_key = ev.user_id;
  row_key = ev.entity_id;
  title = none;
  notes = none;
  category = none;
  order = none;
  done = some b;
  event_timestamp = some ev.timestamp;
}

abbrev pub new_task : Event → TaskCreatedEventData → TaskEntity
new_task ev d = record {
  partition_key = ev.user_id;
  row_key = ev.entity_id;
  title = d.title;
  notes = d.notes;
  category = d.category;
  order = d.order;
  done = false;
  event_timestamp = ev.timestamp;
  etag = [];
}

module _ {W : Type 0} (st : TaskStorage W) where
  -- After a conflict the task is read again, and `retry` goes on with it.
  abbrev pub read_again :
      (TaskEntity → W → Outcome × W) → Event → Result Str (Option TaskEntity) × W → Outcome × W
  read_again retry ev (err e, w) = (failed (storage_error e), w)
  read_again retry ev (ok none, w) = (failed (not_found ev.entity_id), w)
  read_again retry ev (ok (some ent), w) = retry ent w

  abbrev pub after_update : (TaskEntity → W → Outcome × W) → Event → UpdateReply × W → Outcome × W
  after_update retry ev (updated, w) = (done, w)
  after_update retry ev (refused e, w) = (failed (storage_error e), w)
  after_update retry ev (conflict, w) = read_again retry ev (st.get_task ev.user_id ev.entity_id w)

  -- The retry loop, which is the same in all three handlers: it gives up on a stale event, on an
  -- error that is no conflict, and where the task is gone, and reads again after a conflict.
  unfoldable pub update_loop : ℕ → Event → TaskUpdate → TaskEntity → W → Outcome × W
  update_loop zero ev upd ent w = (running, w)
  update_loop (suc fuel) ev upd ent w = elim (leb_ℤ ev.timestamp ent.event_timestamp) [
    | true ↦ (failed (stale ev.entity_id), w)
    | false ↦ after_update (update_loop fuel ev upd) ev (st.update_task upd ent.etag w)
  ]

  abbrev pub inserted : Option Str × W → Outcome × W
  inserted (none, w) = (done, w)
  inserted (some e, w) = (failed (storage_error e), w)

  abbrev pub create_unless :
      Event → TaskCreatedEventData → Result Str (Option TaskEntity) × W → Outcome × W
  create_unless ev d (err e, w) = (failed (storage_error e), w)
  create_unless ev d (ok (some ent), w) = (failed (already_exists ev.entity_id), w)
  create_unless ev d (ok none, w) = inserted (st.insert_task (new_task ev d) w)

  -- `case TaskCreated`
  unfoldable pub apply_created : Event → Option TaskCreatedEventData → W → Outcome × W
  apply_created ev none w = (failed bad_data, w)
  apply_created ev (some d) w = create_unless ev d (st.get_task ev.user_id ev.entity_id w)

  abbrev pub update_if : ℕ → Event → TaskUpdate → Result Str (Option TaskEntity) × W → Outcome × W
  update_if fuel ev upd (err e, w) = (failed (storage_error e), w)
  update_if fuel ev upd (ok none, w) = (failed (not_found ev.entity_id), w)
  update_if fuel ev upd (ok (some ent), w) =
      if has_no_fields upd
      then (failed (no_fields ev.entity_id), w)
      else update_loop fuel ev upd ent w

  -- `case TaskUpdated`
  unfoldable pub apply_updated : ℕ → Event → Option TaskUpdatedEventData → W → Outcome × W
  unfolding update_loop
  apply_updated fuel ev none w = (failed bad_data, w)
  apply_updated fuel ev (some d) w =
      update_if fuel ev (update_of ev d) (st.get_task ev.user_id ev.entity_id w)

  -- `case TaskCompleted` and `case TaskReopened`; their update always has a field.
  unfoldable pub apply_done : ℕ → Event → Bool → W → Outcome × W
  unfolding update_loop
  apply_done fuel ev b w = update_if fuel ev (set_done ev b) (st.get_task ev.user_id ev.entity_id w)

  -- `TaskService.Apply`
  unfoldable pub apply : ℕ → Event → W → Outcome × W
  apply fuel ev w =
      if str_eq ev.type task_created
      then apply_created ev (decode_task_created ev.payload) w
      else if str_eq ev.type task_updated
      then apply_updated fuel ev (decode_task_updated ev.payload) w
      else if str_eq ev.type task_completed
      then apply_done fuel ev true w
      else if str_eq ev.type task_reopened
      then apply_done fuel ev false w
      else (failed (unknown_event ev.type), w)
