-- ===== src/ReadModel/Users.antt =====
-- read-model-updater/domain/user_service.go, over the storage interface that it declares; the errors are
-- those of the task service. A storage call takes the state of the world `W` and returns the next one.
pub mod Refinement
use prism_plan.Shared.{
  ℕ, zero, suc, ◌+◌, ◌-◌, ◌*◌, ◌/◌, ◌%◌, ◌^◌, ◌≤◌, ◌<◌, ◌≡◌, ◌≢◌, refl, sym, ap, ◌∙◌, subst, ◌↔◌,
  ◌⊎◌, inl, inr, List, [], ◌∷◌, ◌++◌, map, Option, none, some, Bool, true, false, not, ◌&&◌, ◌||◌,
  Str, lit, IsByte, str_eq, is_empty, str_eq_refl, str_eq_iff, str_eq_ne, is_empty_iff, Result, ok,
  err, ℤ, pos, negsuc, neg_part, pos_part, ◌+ℤ◌, ◌≤ℤ◌, ◌<ℤ◌, leb_ℤ, ltb_ℤ, eqb_ℤ, wrap_int64,
  wrap_int32, wrap_int64_self, wrap_int32_self, IsInt64, is_int64, scale, atoi, arith, ltb, leb,
  ◌==◌, ==_iff, ==_refl, Bool-cases, if_cases, if_cases_both, Option-cases, if◌then◌else◌, length,
  get_elem?, take, drop, length-append, length-take, length-drop, length-map, take-append_left,
  drop-append_left, take-length, All,
}
use prism_plan.ReadModel.Events.{
  Event, UserEventData, UserSettingsEventData, UserSettingsUpdatedEventData, UserEntity,
  UserSettingsEntity, UserSettingsUpdate, decode_user, decode_settings, decode_settings_updated,
  user_created, user_logged_in, user_logged_out, user_settings_created, user_settings_updated,
}
use prism_plan.ReadModel.Tasks.{
  is_none, TaskError, bad_data, storage_error, already_exists, no_fields, stale, unknown_event,
  Outcome, done, failed,
}
use prism_plan.ReadModel.Tasks.Project.{or_kept}

-- `UserStorage`
pub record UserStorage (W : Type 0) : Type 0 where
  pub upsert_user : UserEntity → W → Option Str × W
  pub get_user_settings : Str → W → Result Str (Option UserSettingsEntity) × W
  pub upsert_user_settings : UserSettingsEntity → W → Option Str × W
  pub update_user_settings : UserSettingsUpdate → W → Option Str × W

abbrev pub new_user : Event → UserEventData → UserEntity
new_user ev d = record {
  partition_key = ev.entity_id;
  row_key = ev.entity_id;
  name = d.name;
  email = d.email;
}

abbrev pub new_settings : Event → UserSettingsEventData → UserSettingsEntity
new_settings ev d = record {
  partition_key = ev.entity_id;
  row_key = ev.entity_id;
  tasks_per_category = d.tasks_per_category;
  show_done_tasks = d.show_done_tasks;
  event_timestamp = ev.timestamp;
}

-- The settings that an update makes where none are stored.
abbrev pub first_settings : Event → UserSettingsUpdatedEventData → UserSettingsEntity
first_settings ev d = record {
  partition_key = ev.entity_id;
  row_key = ev.entity_id;
  tasks_per_category = or_kept d.tasks_per_category (pos 0);
  show_done_tasks = or_kept d.show_done_tasks false;
  event_timestamp = ev.timestamp;
}

abbrev pub settings_update : Event → UserSettingsUpdatedEventData → UserSettingsUpdate
settings_update ev d = record {
  partition_key = ev.entity_id;
  row_key = ev.entity_id;
  tasks_per_category = d.tasks_per_category;
  show_done_tasks = d.show_done_tasks;
  event_timestamp = some ev.timestamp;
}

abbrev pub changes_nothing : UserSettingsUpdatedEventData → Bool
changes_nothing d = is_none d.tasks_per_category && is_none d.show_done_tasks

module _ {W : Type 0} (st : UserStorage W) where
  abbrev pub returned : Option Str × W → Outcome × W
  returned (none, w) = (done, w)
  returned (some e, w) = (failed (storage_error e), w)

  -- `case UserCreated`
  unfoldable pub apply_user_created : Event → Option UserEventData → W → Outcome × W
  apply_user_created ev none w = (failed bad_data, w)
  apply_user_created ev (some d) w = returned (st.upsert_user (new_user ev d) w)

  abbrev pub create_settings_unless :
      Event → UserSettingsEventData → Result Str (Option UserSettingsEntity) × W → Outcome × W
  create_settings_unless ev d (err e, w) = (failed (storage_error e), w)
  create_settings_unless ev d (ok (some ent), w) = (failed (already_exists ev.entity_id), w)
  create_settings_unless ev d (ok none, w) =
      returned (st.upsert_user_settings (new_settings ev d) w)

  -- `case UserSettingsCreated`
  unfoldable pub apply_settings_created : Event → Option UserSettingsEventData → W → Outcome × W
  apply_settings_created ev none w = (failed bad_data, w)
  apply_settings_created ev (some d) w =
      create_settings_unless ev d (st.get_user_settings ev.entity_id w)

  abbrev pub update_settings_if :
      Event
      → UserSettingsUpdatedEventData
      → Result Str (Option UserSettingsEntity) × W
      → Outcome × W
  update_settings_if ev d (err e, w) = (failed (storage_error e), w)
  update_settings_if ev d (ok none, w) = returned (st.upsert_user_settings (first_settings ev d) w)
  update_settings_if ev d (ok (some ent), w) =
      if leb_ℤ ev.timestamp ent.event_timestamp
      then (failed (stale ev.entity_id), w)
      else if changes_nothing d
      then (failed (no_fields ev.entity_id), w)
      else returned (st.update_user_settings (settings_update ev d) w)

  -- `case UserSettingsUpdated`
  unfoldable pub apply_settings_updated :
      Event → Option UserSettingsUpdatedEventData → W → Outcome × W
  apply_settings_updated ev none w = (failed bad_data, w)
  apply_settings_updated ev (some d) w =
      update_settings_if ev d (st.get_user_settings ev.entity_id w)

  -- `UserService.Apply`
  unfoldable pub apply_user : Event → W → Outcome × W
  apply_user ev w =
      if str_eq ev.type user_created
      then apply_user_created ev (decode_user ev.payload) w
      else if str_eq ev.type user_logged_in
      then (done, w)
      else if str_eq ev.type user_logged_out
      then (done, w)
      else if str_eq ev.type user_settings_created
      then apply_settings_created ev (decode_settings ev.payload) w
      else if str_eq ev.type user_settings_updated
      then apply_settings_updated ev (decode_settings_updated ev.payload) w
      else (failed (unknown_event ev.type), w)
