-- ===== src/ReadModel/Tables/UserRows.antt =====
-- The users table and the settings table, and their columns, written and read back.
use prism_plan.Shared.{
  ◌≡◌, refl, [], ◌∷◌, is_empty, Option, none, some, Bool, true, false, Str, lit, ok, ℤ, pos,
  IsInt64, if◌then◌else◌,
}
use mathlib.Core.Option
use mathlib.Core.Option.{some-injective}
use prism_plan.ReadModel.Events.{UserEntity, UserSettingsEntity, UserSettingsUpdate}
use prism_plan.ReadModel.Tasks.Project.{or_kept}
use prism_plan.ReadModel.Tasks.Refinement.{same_keys}
use prism_plan.ReadModel.Users.Refinement.{text_or, merge_user, merge_settings}
use prism_plan.ReadModel.Tables.{
  TimeParser, parse_timestamp, stamp_text, unless_empty, UserColumns, columns_of_user,
  SettingsColumns, GetReply, found, accepted, TablesClient, columns_of_settings,
  columns_of_settings_update, settings_of_columns,
}
use prism_plan.ReadModel.Tables.Timestamps.{RejectsIntegers, parse_timestamp-stamp_text}
use prism_plan.ReadModel.Tables.Client.{or_else}
use prism_plan.ReadModel.Tables.Rows.{or_kept-or_else, or_kept-unless_empty}

abbrev pub merge_settings_columns : SettingsColumns → SettingsColumns → SettingsColumns
merge_settings_columns old new = record {
  partition_key = or_else new.partition_key old.partition_key;
  row_key = or_else new.row_key old.row_key;
  tasks_per_category = or_else new.tasks_per_category old.tasks_per_category;
  show_done_tasks = or_else new.show_done_tasks old.show_done_tasks;
  event_timestamp = or_else new.event_timestamp old.event_timestamp;
}

abbrev pub written_over : Option SettingsColumns → SettingsColumns → SettingsColumns
written_over none c = c
written_over (some old) c = merge_settings_columns old c

abbrev pub settings_reply : Str → Str → Option SettingsColumns → GetReply SettingsColumns
settings_reply missing etag none = GetReply.response_error 404 missing
settings_reply missing etag (some c) = found (ok c) etag

abbrev pub SettingsKeyed : SettingsColumns → Str → Str → Type 0
SettingsKeyed c pk rk = (c.partition_key ≡ some pk) × (c.row_key ≡ some rk)

abbrev pub merge_user_columns : UserColumns → UserColumns → UserColumns
merge_user_columns old new = record {
  partition_key = or_else new.partition_key old.partition_key;
  row_key = or_else new.row_key old.row_key;
  name = or_else new.name old.name;
  email = or_else new.email old.email;
}

abbrev pub user_written_over : Option UserColumns → UserColumns → UserColumns
user_written_over none c = c
user_written_over (some old) c = merge_user_columns old c

abbrev pub UserKeyed : UserColumns → Str → Str → Type 0
UserKeyed c pk rk = (c.partition_key ≡ some pk) × (c.row_key ≡ some rk)

-- The documented behaviour of the two tables, where nobody else writes to them and requests succeed: an
-- upsert and an update merge the columns of the body into the row, the update where there is a row.
pub record UserClientLaws {W : Type 0} (client : TablesClient W) : Type 0 where
  pub row : W → Str → Str → Option SettingsColumns
  pub user_row : W → Str → Str → Option UserColumns
  pub etag : W → Str → Str → Str
  pub missing : Str
  pub get_reads :
      (pk rk : Str) (w : W)
      → client.get_settings pk rk w ≡ (settings_reply missing (etag w pk rk) (row w pk rk), w)
  pub row_keyed :
      (pk rk : Str) (w : W) (c : SettingsColumns) → row w pk rk ≡ some c → SettingsKeyed c pk rk
  pub upsert_accepts :
      (c : SettingsColumns) (pk rk : Str) (w : W)
      → SettingsKeyed c pk rk
      → (client.upsert_settings c w).0 ≡ accepted
  pub upsert_merges :
      (c : SettingsColumns) (pk rk pk' rk' : Str) (w : W)
      → SettingsKeyed c pk rk
      → (user_row (client.upsert_settings c w).1 pk' rk' ≡ user_row w pk' rk')
        × (row (client.upsert_settings c w).1 pk' rk' ≡ (
            if same_keys pk rk pk' rk' then some (written_over (row w pk rk) c) else row w pk' rk'))
  pub update_accepts :
      (c old : SettingsColumns) (pk rk : Str) (w : W)
      → SettingsKeyed c pk rk
      → row w pk rk ≡ some old
      → (client.update_settings c (lit "*") w).0 ≡ accepted
  pub update_merges :
      (c old : SettingsColumns) (pk rk pk' rk' : Str) (w : W)
      → SettingsKeyed c pk rk
      → row w pk rk ≡ some old
      → (user_row (client.update_settings c (lit "*") w).1 pk' rk' ≡ user_row w pk' rk')
        × (row (client.update_settings c (lit "*") w).1 pk' rk' ≡ (
            if same_keys pk rk pk' rk' then some (merge_settings_columns old c) else row w pk' rk'))
  pub user_accepts :
      (c : UserColumns) (pk rk : Str) (w : W)
      → UserKeyed c pk rk
      → (client.upsert_user c w).0 ≡ accepted
  pub user_merges :
      (c : UserColumns) (pk rk pk' rk' : Str) (w : W)
      → UserKeyed c pk rk
      → (user_row (client.upsert_user c w).1 pk' rk' ≡ (
          if same_keys pk rk pk' rk'
          then some (user_written_over (user_row w pk rk) c)
          else user_row w pk' rk'))
        × (row (client.upsert_user c w).1 pk' rk' ≡ row w pk' rk')

-- The user that a row stands for: a column that is not there is an empty text.
abbrev pub user_of_columns : UserColumns → UserEntity
user_of_columns c = record {
  partition_key = or_kept c.partition_key [];
  row_key = or_kept c.row_key [];
  name = or_kept c.name [];
  email = or_kept c.email [];
}

abbrev pub user_of : Option UserColumns → Option UserEntity
user_of none = none
user_of (some c) = some (user_of_columns c)

pub user_of-if :
    (b : Bool) (c : UserColumns) (r : Option UserColumns)
    → user_of (if b then some c else r) ≡ (if b then some (user_of_columns c) else user_of r)
user_of-if true c r = refl
user_of-if false c r = refl

-- A text that `omitempty` leaves out keeps what the column had.
left_out :
    (s : Str) (old : Option Str)
    → or_kept (or_else (unless_empty s) old) [] ≡ text_or s (or_kept old [])
unfolding is_empty
left_out [] old = refl
left_out (c ∷ s) old = refl

-- The columns of an entity, written over a row, make the user that the specification has.
pub written_user :
    (o : Option UserColumns) (e : UserEntity)
    → user_of_columns (user_written_over o (columns_of_user e)) ≡ merge_user (user_of o) e
unfolding columns_of_user merge_user
written_user none e = rw (or_kept-unless_empty e.name, or_kept-unless_empty e.email) refl
written_user (some old) e = rw (left_out e.name old.name, left_out e.email old.email) refl

module _ (parse_time : TimeParser) (rejects : RejectsIntegers parse_time) where
  abbrev pub settings_of : Option SettingsColumns → Option UserSettingsEntity
  settings_of none = none
  settings_of (some c) = some (settings_of_columns parse_time c)

  pub settings_of-if :
      (b : Bool) (c : SettingsColumns) (r : Option SettingsColumns)
      → settings_of (if b then some c else r)
        ≡ (if b then some (settings_of_columns parse_time c) else settings_of r)
  settings_of-if true c r = refl
  settings_of-if false c r = refl

  -- Every column of the settings is written, whatever was stored.
  pub written_settings :
      (o : Option SettingsColumns) (e : UserSettingsEntity)
      → IsInt64 e.event_timestamp
      → settings_of_columns parse_time (written_over o (columns_of_settings e)) ≡ e
  unfolding settings_of_columns columns_of_settings
  written_settings none e sized =
      rw (parse_timestamp-stamp_text parse_time e.event_timestamp rejects sized) refl
  written_settings (some old) e sized =
      rw (parse_timestamp-stamp_text parse_time e.event_timestamp rejects sized) refl

  merged_stamp :
      (u : UserSettingsUpdate) (old : SettingsColumns) (t : ℤ)
      → u.event_timestamp ≡ some t
      → IsInt64 t
      → parse_timestamp parse_time
          (or_else (Option.map stamp_text u.event_timestamp) old.event_timestamp)
        ≡ or_kept u.event_timestamp (parse_timestamp parse_time old.event_timestamp)
  merged_stamp u old t et sized = rw et (parse_timestamp-stamp_text parse_time t rejects sized)

  pub merged_settings :
      (u : UserSettingsUpdate) (old : SettingsColumns) (t : ℤ)
      → u.event_timestamp ≡ some t
      → IsInt64 t
      → SettingsKeyed old u.partition_key u.row_key
      → settings_of_columns parse_time (merge_settings_columns old (columns_of_settings_update u))
        ≡ merge_settings (settings_of_columns parse_time old) u
  unfolding settings_of_columns columns_of_settings_update merge_settings
  merged_settings u old t et sized keyed =
      rw
        (
          or_kept-or_else u.tasks_per_category old.tasks_per_category (pos 0),
          or_kept-or_else u.show_done_tasks old.show_done_tasks false,
          merged_stamp u old t et sized,
          keyed.0,
          keyed.1,
        )
        refl
