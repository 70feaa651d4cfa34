-- ===== src/Examples/Process.antt =====
-- `UserService.Apply` and `processEvent` over tables in memory.
use prism_plan.Shared.{
  arith, ◌≡◌, ◌≢◌, refl, ap, List, [], ◌∷◌, Option, none, some, true, Str, lit, str_eq, ok, err,
  pos, if◌then◌else◌,
}
use prism_plan.Json.{object, member, end, integer, unmarshal, is_field, into_string}
use prism_plan.ReadModel.Events.{
  Event, UserEntity, UserSettingsEntity, UserSettingsUpdate, user_settings_updated,
  decode_task_created,
}
use prism_plan.ReadModel.Tasks.{Outcome, done, apply, apply_created}
use prism_plan.ReadModel.Tasks.Refinement.{same_keys}
use prism_plan.ReadModel.Users.{UserStorage, apply_user}
use prism_plan.ReadModel.Users.Refinement.{
  UserTableLaws, merge_user, merge_settings, rows_of, RefinesRows, project_user,
  apply_user-RefinesRows,
}
use prism_plan.ReadModel.Process.{
  Effect, refresh_tasks, publish, Wiring, apply_event, after_apply, process_event,
}
use prism_plan.ReadModel.Process.Replays.{process_event_replay}
use prism_plan.Examples.Tasks.{Table, table, table-TableLaws, empty_table, created}

abbrev Users : Type 0
Users = Str → Str → Option UserEntity

abbrev AllSettings : Type 0
AllSettings = Str → Str → Option UserSettingsEntity

abbrev write_update :
    UserSettingsUpdate
    → Option UserSettingsEntity
    → Users × AllSettings
    → Option Str × (Users × AllSettings)
write_update u none w = (some (lit "ResourceNotFound"), w)
write_update u (some e) (users, settings) = (
  none,
  (
    users,
    λ pk rk.
        if same_keys u.partition_key u.row_key pk rk
        then some (merge_settings e u)
        else settings pk rk,
  ),
)

abbrev user_tables : UserStorage (Users × AllSettings)
user_tables = record {
  upsert_user = λ e w. (
    none,
    (
      λ pk rk.
          if same_keys e.partition_key e.row_key pk rk
          then some (merge_user (w.0 e.partition_key e.row_key) e)
          else w.0 pk rk,
      w.1,
    ),
  );
  get_user_settings = λ id w. (ok (w.1 id id), w);
  upsert_user_settings = λ e w. (
    none,
    (w.0, λ pk rk. if same_keys e.partition_key e.row_key pk rk then some e else w.1 pk rk),
  );
  update_user_settings = λ u w. write_update u (w.1 u.partition_key u.row_key) w;
}

written_update :
    (u : UserSettingsUpdate) (e : UserSettingsEntity) (w : Users × AllSettings)
    (row : Option UserSettingsEntity)
    → row ≡ some e
    → write_update u row w ≡ write_update u (some e) w
written_update u e w row h = ap (λ r. write_update u r w) h

user_tables-UserTableLaws : UserTableLaws user_tables
user_tables-UserTableLaws = record {
  user = λ w pk rk. w.0 pk rk;
  settings = λ w pk rk. w.1 pk rk;
  get_reads = λ id w. refl;
  upsert_user_succeeds = λ e w. refl;
  upsert_user_merges = λ e w pk rk. (refl, refl);
  upsert_settings_succeeds = λ e w. refl;
  upsert_settings_writes = λ e w pk rk sized. (refl, refl);
  update_settings_succeeds =
      λ u e w h. ap (λ (r : Option Str × (Users × AllSettings)). r.0) (written_update u e w _ h);
  update_settings_merges = λ u e w t pk rk et sized h. (
    ap (λ (r : Option Str × (Users × AllSettings)). r.1.0 pk rk) (written_update u e w _ h),
    ap (λ (r : Option Str × (Users × AllSettings)). r.1.1 pk rk) (written_update u e w _ h),
  );
}

abbrev nothing_stored : Users × AllSettings
nothing_stored = (λ pk rk. none, λ pk rk. none)

abbrev pub settings_event : Event
settings_event = record {
  id = lit "e";
  entity_id = lit "u1";
  entity_type = lit "user-settings";
  type = user_settings_updated;
  payload = some (object (member (lit "tasksPerCategory") (integer (pos 5)) end));
  timestamp = pos 9;
  user_id = lit "u1";
}

apply_user-RefinesRows_example :
    RefinesRows user_tables user_tables-UserTableLaws settings_event nothing_stored
      (apply_user user_tables settings_event nothing_stored)
      (project_user settings_event
        (rows_of user_tables user_tables-UserTableLaws nothing_stored (lit "u1") (lit "u1")))
apply_user-RefinesRows_example =
    apply_user-RefinesRows user_tables user_tables-UserTableLaws settings_event nothing_stored
      (omega arith)

-- No user events reach this one.
abbrev no_users : UserStorage Table
no_users = record {
  upsert_user = λ e w. (some (lit "down"), w);
  get_user_settings = λ id w. (err (lit "down"), w);
  upsert_user_settings = λ e w. (some (lit "down"), w);
  update_user_settings = λ u w. (some (lit "down"), w);
}

abbrev wiring : Wiring
wiring = record { has_cache = true; task_channel = lit "tasks"; settings_channel = lit "settings" }

abbrev first_delivery : (Outcome × List Effect) × Table
first_delivery = process_event table no_users 1 wiring created (lit "{}") empty_table

abbrev second_delivery : (Outcome × List Effect) × Table
second_delivery = process_event table no_users 1 wiring created (lit "{}") first_delivery.1

process_event_replay_example :
    (first_delivery.0.1
      ≡ refresh_tasks (lit "u1") (lit "t1") (pos 5) ∷ publish (lit "tasks") (lit "{}") ∷ [])
    × (second_delivery.0.0 ≢ done)
    × (second_delivery.0.1 ≡ [])
unfolding process_event after_apply apply_event apply apply_created decode_task_created str_eq
    unmarshal is_field into_string
process_event_replay_example =
    process_event_replay table no_users table-TableLaws 0 wiring created (lit "{}") empty_table
      (omega arith) refl refl
