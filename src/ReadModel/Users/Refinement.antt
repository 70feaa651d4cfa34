-- ===== src/ReadModel/Users/Refinement.antt =====
-- `UserService.Apply` implements a specification of the user's row and the settings' row.
use prism_plan.Shared.{
  ◌≡◌, refl, ◌∙◌, Option, none, some, Str, str_eq, str_eq_iff, ok, leb_ℤ, arith, if_cases_both,
  is_empty, ℤ, IsInt64, if◌then◌else◌,
}
use prism_plan.ReadModel.Events.{
  Event, UserEventData, UserSettingsEventData, UserSettingsUpdatedEventData, UserEntity,
  UserSettingsEntity, UserSettingsUpdate, decode_user, decode_settings, decode_settings_updated,
  user_created, user_logged_in, user_logged_out, user_settings_created, user_settings_updated,
}
use prism_plan.ReadModel.Tasks.{
  bad_data, already_exists, no_fields, stale, unknown_event, Outcome, done, failed,
}
use prism_plan.ReadModel.Tasks.Project.{or_kept}
use prism_plan.ReadModel.Tasks.Refinement.{same_keys}
use mathlib.Core.Path.{ap₂}
use prism_plan.ReadModel.Users.{
  UserStorage, new_user, new_settings, first_settings, settings_update, changes_nothing, returned,
  apply_user_created, create_settings_unless, apply_settings_created, update_settings_if,
  apply_settings_updated, apply_user,
}

unfoldable pub merge_settings : UserSettingsEntity → UserSettingsUpdate → UserSettingsEntity
merge_settings e u = record e {
  tasks_per_category = or_kept u.tasks_per_category e.tasks_per_category;
  show_done_tasks = or_kept u.show_done_tasks e.show_done_tasks;
  event_timestamp = or_kept u.event_timestamp e.event_timestamp;
}

-- A text that is empty is left out of the entity, and the stored one stays.
abbrev pub text_or : Str → Str → Str
text_or new old = if is_empty new then old else new

-- The user's row after an entity is written over it.
unfoldable pub merge_user : Option UserEntity → UserEntity → UserEntity
merge_user none e = e
merge_user (some old) e = record e {
  name = text_or e.name old.name;
  email = text_or e.email old.email;
}

-- The user's row and the settings' row, under the key that an event names.
pub record Rows : Type 0 where
  pub user : Option UserEntity
  pub settings : Option UserSettingsEntity

unfoldable pub put_user : Event → Option UserEventData → Rows → Outcome × Rows
unfolding merge_user
put_user ev none rows = (failed bad_data, rows)
put_user ev (some d) rows =
    (done, record rows { user = some (merge_user rows.user (new_user ev d)) })

unfoldable pub put_settings : Event → Option UserSettingsEventData → Rows → Outcome × Rows
put_settings ev none rows = (failed bad_data, rows)
put_settings ev (some d) rows = elim rows.settings [
  | some e ↦ (failed (already_exists ev.entity_id), rows)
  | none ↦ (done, record rows { settings = some (new_settings ev d) })
]

-- An update of settings that are not there makes them; otherwise a strictly newer event with some
-- field changes them.
unfoldable pub amend_settings : Event → Option UserSettingsUpdatedEventData → Rows → Outcome × Rows
unfolding merge_settings
amend_settings ev none rows = (failed bad_data, rows)
amend_settings ev (some d) rows = elim rows.settings [
  | none ↦ (done, record rows { settings = some (first_settings ev d) })
  | some e ↦
      if leb_ℤ ev.timestamp e.event_timestamp
      then (failed (stale ev.entity_id), rows)
      else if changes_nothing d
      then (failed (no_fields ev.entity_id), rows)
      else (done, record rows { settings = some (merge_settings e (settings_update ev d)) })
]

-- The answer to an event, and the rows after it.
unfoldable pub project_user : Event → Rows → Outcome × Rows
unfolding put_user put_settings amend_settings
project_user ev rows =
    if str_eq ev.type user_created
    then put_user ev (decode_user ev.payload) rows
    else if str_eq ev.type user_logged_in
    then (done, rows)
    else if str_eq ev.type user_logged_out
    then (done, rows)
    else if str_eq ev.type user_settings_created
    then put_settings ev (decode_settings ev.payload) rows
    else if str_eq ev.type user_settings_updated
    then amend_settings ev (decode_settings_updated ev.payload) rows
    else (failed (unknown_event ev.type), rows)

-- Two tables that nobody else writes to, and whose requests succeed.
pub record UserTableLaws {W : Type 0} (st : UserStorage W) : Type 0 where
  pub user : W → Str → Str → Option UserEntity
  pub settings : W → Str → Str → Option UserSettingsEntity
  pub get_reads : (id : Str) (w : W) → st.get_user_settings id w ≡ (ok (settings w id id), w)
  pub upsert_user_succeeds : (e : UserEntity) (w : W) → (st.upsert_user e w).0 ≡ none
  pub upsert_user_merges :
      (e : UserEntity) (w : W) (pk rk : Str)
      → (user (st.upsert_user e w).1 pk rk ≡ (
          if same_keys e.partition_key e.row_key pk rk
          then some (merge_user (user w e.partition_key e.row_key) e)
          else user w pk rk))
        × (settings (st.upsert_user e w).1 pk rk ≡ settings w pk rk)
  pub upsert_settings_succeeds :
      (e : UserSettingsEntity) (w : W) → (st.upsert_user_settings e w).0 ≡ none
  pub upsert_settings_writes :
      (e : UserSettingsEntity) (w : W) (pk rk : Str)
      → IsInt64 e.event_timestamp
      → (user (st.upsert_user_settings e w).1 pk rk ≡ user w pk rk)
        × (settings (st.upsert_user_settings e w).1 pk rk
            ≡ (if same_keys e.partition_key e.row_key pk rk then some e else settings w pk rk))
  pub update_settings_succeeds :
      (u : UserSettingsUpdate) (e : UserSettingsEntity) (w : W)
      → settings w u.partition_key u.row_key ≡ some e
      → (st.update_user_settings u w).0 ≡ none
  pub update_settings_merges :
      (u : UserSettingsUpdate) (e : UserSettingsEntity) (w : W) (t : ℤ) (pk rk : Str)
      → u.event_timestamp ≡ some t
      → IsInt64 t
      → settings w u.partition_key u.row_key ≡ some e
      → (user (st.update_user_settings u w).1 pk rk ≡ user w pk rk)
        × (settings (st.update_user_settings u w).1 pk rk ≡ (
            if same_keys u.partition_key u.row_key pk rk
            then some (merge_settings e u)
            else settings w pk rk))

module _ {W : Type 0} (st : UserStorage W) (laws : UserTableLaws st) where
  abbrev pub rows_of : W → Str → Str → Rows
  rows_of w pk rk = record { user = laws.user w pk rk; settings = laws.settings w pk rk }

  -- The result `r` of a call at `w` answers as `spec` does, and changes the rows of the event's key as
  -- it does, and no other row.
  pub record RefinesRows (ev : Event) (w : W) (r : Outcome × W) (spec : Outcome × Rows)
      : Type 0 where
    pub answer : r.0 ≡ spec.0
    pub users :
        (pk rk : Str)
        → laws.user r.1 pk rk
          ≡ (if same_keys ev.entity_id ev.entity_id pk rk then spec.1.user else laws.user w pk rk)
    pub settings :
        (pk rk : Str)
        → laws.settings r.1 pk rk ≡ (
            if same_keys ev.entity_id ev.entity_id pk rk
            then spec.1.settings
            else laws.settings w pk rk)

  same_user :
      (ev : Event) (w : W) (pk rk : Str)
      → laws.user w pk rk ≡ (
          if same_keys ev.entity_id ev.entity_id pk rk
          then laws.user w ev.entity_id ev.entity_id
          else laws.user w pk rk)
  same_user ev w pk rk = ground (arith, str_eq_iff ev.entity_id pk, str_eq_iff ev.entity_id rk)

  same_settings :
      (ev : Event) (w : W) (pk rk : Str)
      → laws.settings w pk rk ≡ (
          if same_keys ev.entity_id ev.entity_id pk rk
          then laws.settings w ev.entity_id ev.entity_id
          else laws.settings w pk rk)
  same_settings ev w pk rk = ground (arith, str_eq_iff ev.entity_id pk, str_eq_iff ev.entity_id rk)

  abbrev own : Event → W → Rows
  own ev w = rows_of w ev.entity_id ev.entity_id

  kept : (ev : Event) (w : W) (o : Outcome) → RefinesRows ev w (o, w) (o, own ev w)
  kept ev w o = record { answer = refl; users = same_user ev w; settings = same_settings ev w }

  returned-eq_done : (r : Option Str × W) → r.0 ≡ none → returned st r ≡ (done, r.1)
  returned-eq_done (none, w) e = refl
  returned-eq_done (some x, w) e = cc

  user-RefinesRows :
      (ev : Event) (d : Option UserEventData) (w : W)
      → RefinesRows ev w (apply_user_created st ev d w) (put_user ev d (own ev w))
  unfolding apply_user_created put_user
  user-RefinesRows ev none w = kept ev w (failed bad_data)
  user-RefinesRows ev (some d) w =
      rw
        (returned-eq_done (st.upsert_user (new_user ev d) w)
          (laws.upsert_user_succeeds (new_user ev d) w))
        (record {
          answer = refl;
          users = λ pk rk. (laws.upsert_user_merges (new_user ev d) w pk rk).0;
          settings = λ pk rk.
              (laws.upsert_user_merges (new_user ev d) w pk rk).1 ∙ same_settings ev w pk rk;
        })

  written-RefinesRows :
      (ev : Event) (e : UserSettingsEntity) (w : W)
      → e.partition_key ≡ ev.entity_id
      → e.row_key ≡ ev.entity_id
      → IsInt64 e.event_timestamp
      → RefinesRows ev w
          (returned st (st.upsert_user_settings e w))
          (done, record (own ev w) { settings = some e })
  written-RefinesRows ev e w ep er sized =
      rw (returned-eq_done (st.upsert_user_settings e w) (laws.upsert_settings_succeeds e w))
        (record {
          answer = refl;
          users = λ pk rk. (laws.upsert_settings_writes e w pk rk sized).0 ∙ same_user ev w pk rk;
          settings = λ pk rk.
              (laws.upsert_settings_writes e w pk rk sized).1
              ∙ ap₂ (λ p r. if same_keys p r pk rk then some e else laws.settings w pk rk) ep er;
        })

  settings-RefinesRows :
      (ev : Event) (d : UserSettingsEventData) (w : W) (row : Option UserSettingsEntity)
      → IsInt64 ev.timestamp
      → laws.settings w ev.entity_id ev.entity_id ≡ row
      → RefinesRows ev w
          (create_settings_unless st ev d (ok row, w))
          (put_settings ev (some d) (own ev w))
  unfolding put_settings
  settings-RefinesRows ev d w none sized e =
      rw e (written-RefinesRows ev (new_settings ev d) w refl refl sized)
  settings-RefinesRows ev d w (some old) sized e =
      rw e (kept ev w (failed (already_exists ev.entity_id)))

  merged-RefinesRows :
      (ev : Event) (d : UserSettingsUpdatedEventData) (w : W) (old : UserSettingsEntity)
      → IsInt64 ev.timestamp
      → laws.settings w ev.entity_id ev.entity_id ≡ some old
      → RefinesRows ev w
          (returned st (st.update_user_settings (settings_update ev d) w))
          (done, record (own ev w) { settings = some (merge_settings old (settings_update ev d)) })
  merged-RefinesRows ev d w old sized e =
      rw
        (returned-eq_done (st.update_user_settings (settings_update ev d) w)
          (laws.update_settings_succeeds (settings_update ev d) old w e))
        (record {
          answer = refl;
          users = λ pk rk.
              (laws.update_settings_merges (settings_update ev d) old w ev.timestamp pk rk refl
                sized e).0
              ∙ same_user ev w pk rk;
          settings = λ pk rk.
              (laws.update_settings_merges (settings_update ev d) old w ev.timestamp pk rk refl
                sized e).1;
        })

  amended-RefinesRows :
      (ev : Event) (d : UserSettingsUpdatedEventData) (w : W) (row : Option UserSettingsEntity)
      → IsInt64 ev.timestamp
      → laws.settings w ev.entity_id ev.entity_id ≡ row
      → RefinesRows ev w
          (update_settings_if st ev d (ok row, w))
          (amend_settings ev (some d) (own ev w))
  unfolding amend_settings
  amended-RefinesRows ev d w none sized e =
      rw e (written-RefinesRows ev (first_settings ev d) w refl refl sized)
  amended-RefinesRows ev d w (some old) sized e = rw e (
      if_cases_both (RefinesRows ev w) (leb_ℤ ev.timestamp old.event_timestamp) _ _ _ _
        (kept ev w (failed (stale ev.entity_id)))
        (if_cases_both (RefinesRows ev w) (changes_nothing d) _ _ _ _
          (kept ev w (failed (no_fields ev.entity_id))) (merged-RefinesRows ev d w old sized e)))

  created-RefinesRows :
      (ev : Event) (d : Option UserSettingsEventData) (w : W)
      → IsInt64 ev.timestamp
      → RefinesRows ev w (apply_settings_created st ev d w) (put_settings ev d (own ev w))
  unfolding apply_settings_created
  created-RefinesRows ev none w sized = unfold put_settings in kept ev w (failed bad_data)
  created-RefinesRows ev (some d) w sized =
      rw (laws.get_reads ev.entity_id w) (settings-RefinesRows ev d w _ sized refl)

  updated-RefinesRows :
      (ev : Event) (d : Option UserSettingsUpdatedEventData) (w : W)
      → IsInt64 ev.timestamp
      → RefinesRows ev w (apply_settings_updated st ev d w) (amend_settings ev d (own ev w))
  unfolding apply_settings_updated
  updated-RefinesRows ev none w sized = unfold amend_settings in kept ev w (failed bad_data)
  updated-RefinesRows ev (some d) w sized =
      rw (laws.get_reads ev.entity_id w) (amended-RefinesRows ev d w _ sized refl)

  -- On every event with an int64 timestamp, `UserService.Apply` gives the specification's answer, and changes the user's row
  -- and the settings' row of the event's key as the specification does and no other row, where the
  -- tables have no other writer and no request fails.
  pub apply_user-RefinesRows :
      (ev : Event) (w : W)
      → IsInt64 ev.timestamp
      → RefinesRows ev w
          (apply_user st ev w)
          (project_user ev (rows_of w ev.entity_id ev.entity_id))
  unfolding apply_user project_user
  apply_user-RefinesRows ev w sized =
      if_cases_both P (str_eq ev.type user_created) _ _ _ _
        (user-RefinesRows ev (decode_user ev.payload) w)
        (if_cases_both P (str_eq ev.type user_logged_in) _ _ _ _ (kept ev w done) (
          if_cases_both P (str_eq ev.type user_logged_out) _ _ _ _ (kept ev w done) (
            if_cases_both P (str_eq ev.type user_settings_created) _ _ _ _
              (created-RefinesRows ev (decode_settings ev.payload) w sized)
              (if_cases_both P (str_eq ev.type user_settings_updated) _ _ _ _
                (updated-RefinesRows ev (decode_settings_updated ev.payload) w sized)
                (kept ev w (failed (unknown_event ev.type)))))))
    where
      P : Outcome × W → Outcome × Rows → Type 0
      P = RefinesRows ev w
