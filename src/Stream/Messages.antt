-- ===== src/Stream/Messages.antt =====
-- stream-service/domain/subscription.go, task.go and events.go: the message that an event becomes. The
-- two services declare the data of events alike, so that the decoders are those of the read model.
pub mod Agreement
use prism_plan.Shared.{
  ℕ, zero, suc, ◌+◌, ◌-◌, ◌*◌, ◌/◌, ◌%◌, ◌^◌, ◌≤◌, ◌<◌, ◌≡◌, ◌≢◌, refl, sym, ap, ◌∙◌, subst, ◌↔◌,
  ◌⊎◌, inl, inr, List, [], ◌∷◌, ◌++◌, map, Option, none, some, Bool, true, false, not, ◌&&◌, ◌||◌,
  Str, lit, IsByte, str_eq, is_empty, str_eq_refl, str_eq_iff, str_eq_ne, is_empty_iff, Result, ok,
  err, ℤ, pos, negsuc, neg_part, pos_part, ◌+ℤ◌, ◌≤ℤ◌, ◌<ℤ◌, leb_ℤ, ltb_ℤ, eqb_ℤ, wrap_int64,
  wrap_int32, wrap_int64_self, wrap_int32_self, IsInt64, is_int64, scale, atoi, arith, ltb, leb,
  ◌==◌, ==_iff, ==_refl, Bool-cases, if_cases, if_cases_both, Option-cases, if◌then◌else◌, length,
  get_elem?, take, drop, length-append, length-take, length-drop, length-map, take-append_left,
  drop-append_left, take-length, All,
}
use mathlib.Core.Option
use prism_plan.Json.{Raw}
use prism_plan.ReadModel.Events.{
  TaskCreatedEventData, TaskUpdatedEventData, UserSettingsUpdatedEventData, decode_task_created,
  decode_task_updated, decode_settings_updated, task_created, task_updated, task_completed,
  task_reopened,
}
use prism_plan.ReadModel.Tasks.Project.{or_kept}
use prism_plan.ReadModel.Process.{task_type, settings_type}

-- `Event`
pub record Update : Type 0 where
  pub entity_id : Str
  pub entity_type : Str
  pub type : Str
  pub payload : Raw
  pub user_id : Str

-- `Task`, whose empty texts and absent `done` are left out of the JSON text.
pub record SentTask : Type 0 where
  pub id : Str
  pub title : Str
  pub notes : Str
  pub category : Str
  pub order : ℤ
  pub done : Option Bool

-- `UserSettings`
pub record SentSettings : Type 0 where
  pub tasks_per_category : Option ℤ
  pub show_done_tasks : Option Bool

pub data Payload : Type 0 where
  tasks : List SentTask → Payload
  settings : SentSettings → Payload

abbrev pub bare_task : Update → Option Bool → SentTask
bare_task ev done = record {
  id = ev.entity_id;
  title = [];
  notes = [];
  category = [];
  order = pos 0;
  done = done;
}

abbrev pub sent_created : Update → TaskCreatedEventData → SentTask
sent_created ev d = record {
  id = ev.entity_id;
  title = d.title;
  notes = d.notes;
  category = d.category;
  order = d.order;
  done = none;
}

abbrev pub sent_updated : Update → TaskUpdatedEventData → SentTask
sent_updated ev d = record {
  id = ev.entity_id;
  title = or_kept d.title [];
  notes = or_kept d.notes [];
  category = or_kept d.category [];
  order = or_kept d.order (pos 0);
  done = d.done;
}

abbrev pub sent_settings : UserSettingsUpdatedEventData → SentSettings
sent_settings d = record {
  tasks_per_category = d.tasks_per_category;
  show_done_tasks = d.show_done_tasks;
}

-- The task of a task event; nothing where the loop continues with the next message.
unfoldable pub task_of : Update → Option SentTask
task_of ev =
    if str_eq ev.type task_created
    then Option.map (sent_created ev) (decode_task_created ev.payload)
    else if str_eq ev.type task_updated
    then Option.map (sent_updated ev) (decode_task_updated ev.payload)
    else if str_eq ev.type task_completed
    then some (bare_task ev (some true))
    else if str_eq ev.type task_reopened
    then some (bare_task ev (some false))
    else none

-- `payload`: the entity type and the data.
unfoldable pub message_of : Update → Option (Str × Payload)
unfolding task_of
message_of ev =
    if str_eq ev.entity_type task_type
    then Option.map (λ t. (ev.entity_type, tasks (t ∷ []))) (task_of ev)
    else if str_eq ev.entity_type settings_type
    then Option.map (λ d. (ev.entity_type, settings (sent_settings d)))
        (decode_settings_updated ev.payload)
    else none
