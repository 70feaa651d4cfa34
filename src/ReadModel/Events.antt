-- ===== src/ReadModel/Events.antt =====
-- read-model-updater/domain/events.go and entities.go.
use prism_plan.Shared.{[], Option, none, some, Bool, false, Str, lit, ℤ, pos, if◌then◌else◌}
use mathlib.Core.Option
use prism_plan.Json.{
  Json, Raw, is_field, into_string, into_int, into_bool, into_string_pointer, into_int_pointer,
  into_bool_pointer, unmarshal,
}

abbrev pub task_created : Str
task_created = lit "task-created"

abbrev pub task_updated : Str
task_updated = lit "task-updated"

abbrev pub task_completed : Str
task_completed = lit "task-completed"

abbrev pub task_reopened : Str
task_reopened = lit "task-reopened"

abbrev pub user_created : Str
user_created = lit "user-created"

abbrev pub user_logged_in : Str
user_logged_in = lit "user-logged-in"

abbrev pub user_logged_out : Str
user_logged_out = lit "user-logged-out"

abbrev pub user_settings_created : Str
user_settings_created = lit "user-settings-created"

abbrev pub user_settings_updated : Str
user_settings_updated = lit "user-settings-updated"

pub record Event : Type 0 where
  pub id : Str
  pub entity_id : Str
  pub entity_type : Str
  pub type : Str
  pub payload : Raw
  pub timestamp : ℤ
  pub user_id : Str

pub record UserEventData : Type 0 where
  pub name : Str
  pub email : Str

pub record TaskCreatedEventData : Type 0 where
  pub title : Str
  pub notes : Str
  pub category : Str
  pub order : ℤ

pub record TaskUpdatedEventData : Type 0 where
  pub title : Option Str
  pub notes : Option Str
  pub category : Option Str
  pub order : Option ℤ
  pub done : Option Bool

pub record UserSettingsEventData : Type 0 where
  pub tasks_per_category : ℤ
  pub show_done_tasks : Bool

pub record UserSettingsUpdatedEventData : Type 0 where
  pub tasks_per_category : Option ℤ
  pub show_done_tasks : Option Bool

assign_user : Str → Json → UserEventData → Option UserEventData
assign_user key v d =
    if is_field (lit "name") key
    then Option.map (λ (x : Str). record d { name = x }) (into_string v d.name)
    else if is_field (lit "email") key
    then Option.map (λ (x : Str). record d { email = x }) (into_string v d.email)
    else some d

unfoldable pub decode_user : Raw → Option UserEventData
unfolding assign_user
decode_user = unmarshal assign_user (record { name = []; email = [] })

assign_task_created : Str → Json → TaskCreatedEventData → Option TaskCreatedEventData
assign_task_created key v d =
    if is_field (lit "title") key
    then Option.map (λ (x : Str). record d { title = x }) (into_string v d.title)
    else if is_field (lit "notes") key
    then Option.map (λ (x : Str). record d { notes = x }) (into_string v d.notes)
    else if is_field (lit "category") key
    then Option.map (λ (x : Str). record d { category = x }) (into_string v d.category)
    else if is_field (lit "order") key
    then Option.map (λ (x : ℤ). record d { order = x }) (into_int v d.order)
    else some d

unfoldable pub decode_task_created : Raw → Option TaskCreatedEventData
unfolding assign_task_created
decode_task_created =
    unmarshal assign_task_created (record { title = []; notes = []; category = []; order = pos 0 })

assign_task_updated : Str → Json → TaskUpdatedEventData → Option TaskUpdatedEventData
assign_task_updated key v d =
    if is_field (lit "title") key
    then Option.map (λ (x : Option Str). record d { title = x }) (into_string_pointer v)
    else if is_field (lit "notes") key
    then Option.map (λ (x : Option Str). record d { notes = x }) (into_string_pointer v)
    else if is_field (lit "category") key
    then Option.map (λ (x : Option Str). record d { category = x }) (into_string_pointer v)
    else if is_field (lit "order") key
    then Option.map (λ (x : Option ℤ). record d { order = x }) (into_int_pointer v)
    else if is_field (lit "done") key
    then Option.map (λ (x : Option Bool). record d { done = x }) (into_bool_pointer v)
    else some d

unfoldable pub decode_task_updated : Raw → Option TaskUpdatedEventData
unfolding assign_task_updated
decode_task_updated =
    unmarshal assign_task_updated
      (record { title = none; notes = none; category = none; order = none; done = none })

assign_settings : Str → Json → UserSettingsEventData → Option UserSettingsEventData
assign_settings key v d =
    if is_field (lit "tasksPerCategory") key
    then Option.map (λ (x : ℤ). record d { tasks_per_category = x })
        (into_int v d.tasks_per_category)
    else if is_field (lit "showDoneTasks") key
    then Option.map (λ (x : Bool). record d { show_done_tasks = x }) (into_bool v d.show_done_tasks)
    else some d

unfoldable pub decode_settings : Raw → Option UserSettingsEventData
unfolding assign_settings
decode_settings =
    unmarshal assign_settings (record { tasks_per_category = pos 0; show_done_tasks = false })

assign_settings_updated :
    Str → Json → UserSettingsUpdatedEventData → Option UserSettingsUpdatedEventData
assign_settings_updated key v d =
    if is_field (lit "tasksPerCategory") key
    then Option.map (λ (x : Option ℤ). record d { tasks_per_category = x }) (into_int_pointer v)
    else if is_field (lit "showDoneTasks") key
    then Option.map (λ (x : Option Bool). record d { show_done_tasks = x }) (into_bool_pointer v)
    else some d

unfoldable pub decode_settings_updated : Raw → Option UserSettingsUpdatedEventData
unfolding assign_settings_updated
decode_settings_updated =
    unmarshal assign_settings_updated (record { tasks_per_category = none; show_done_tasks = none })

pub record TaskEntity : Type 0 where
  pub partition_key : Str
  pub row_key : Str
  pub title : Str
  pub notes : Str
  pub category : Str
  pub order : ℤ
  pub done : Bool
  pub event_timestamp : ℤ
  pub etag : Str

-- An absent field is left alone by the merge.
pub record TaskUpdate : Type 0 where
  pub partition_key : Str
  pub row_key : Str
  pub title : Option Str
  pub notes : Option Str
  pub category : Option Str
  pub order : Option ℤ
  pub done : Option Bool
  pub event_timestamp : Option ℤ

pub record UserEntity : Type 0 where
  pub partition_key : Str
  pub row_key : Str
  pub name : Str
  pub email : Str

pub record UserSettingsEntity : Type 0 where
  pub partition_key : Str
  pub row_key : Str
  pub tasks_per_category : ℤ
  pub show_done_tasks : Bool
  pub event_timestamp : ℤ

pub record UserSettingsUpdate : Type 0 where
  pub partition_key : Str
  pub row_key : Str
  pub tasks_per_category : Option ℤ
  pub show_done_tasks : Option Bool
  pub event_timestamp : Option ℤ
