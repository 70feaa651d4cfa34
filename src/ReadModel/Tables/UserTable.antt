-- ===== src/ReadModel/Tables/UserTable.antt =====
-- The user storage over the users table and the settings table, which this service alone writes to.
use prism_plan.Shared.{
  ◌≡◌, refl, ap, ◌∙◌, subst, Option, none, some, Str, Result, ok, ℤ, IsInt64, if◌then◌else◌,
}
use mathlib.Core.Option.{some-injective}
use prism_plan.ReadModel.Events.{Event, UserEntity, UserSettingsEntity, UserSettingsUpdate}
use prism_plan.ReadModel.Tasks.Refinement.{same_keys}
use prism_plan.ReadModel.Users.{apply_user}
use prism_plan.ReadModel.Users.Refinement.{
  merge_user, merge_settings, UserTableLaws, RefinesRows, project_user, apply_user-RefinesRows,
}
use prism_plan.ReadModel.Tables.{
  TimeParser, SettingsColumns, GetReply, TablesClient, columns_of_user, columns_of_settings,
  columns_of_settings_update, settings_of_columns, read_entity, write_error,
}
use prism_plan.ReadModel.Tables.Methods.{
  get_user_settings, upsert_user, upsert_user_settings, update_user_settings, user_storage,
}
use prism_plan.ReadModel.Tables.Timestamps.{RejectsIntegers}
use prism_plan.ReadModel.Tables.UserRows.{
  settings_reply, UserClientLaws, user_of, user_of-if, written_user, settings_of, settings_of-if,
  written_settings, merged_settings,
}

module _ (parse_time : TimeParser) (rejects : RejectsIntegers parse_time) {W : Type 0}
    (client : TablesClient W) (laws : UserClientLaws client) where
  abbrev pub stored : W → Str → Str → Option UserSettingsEntity
  stored w pk rk = settings_of parse_time rejects (laws.row w pk rk)

  abbrev pub stored_user : W → Str → Str → Option UserEntity
  stored_user w pk rk = user_of (laws.user_row w pk rk)

  pub upsert_user-merges :
      (e : UserEntity) (w : W) (pk rk : Str)
      → stored_user (upsert_user parse_time client e w).1 pk rk ≡ (
          if same_keys e.partition_key e.row_key pk rk
          then some (merge_user (stored_user w e.partition_key e.row_key) e)
          else stored_user w pk rk)
  unfolding upsert_user
  upsert_user-merges e w pk rk =
      ap user_of
        (laws.user_merges (columns_of_user e) e.partition_key e.row_key pk rk w
          (unfold columns_of_user in (refl, refl))).0
      ∙ user_of-if (same_keys e.partition_key e.row_key pk rk) _ _
      ∙ ap (λ x. if same_keys e.partition_key e.row_key pk rk then some x else stored_user w pk rk)
          (written_user (laws.user_row w e.partition_key e.row_key) e)

  read-settings_reply :
      (etag : Str) (r : Option SettingsColumns)
      → read_entity
          (λ c etag. settings_of_columns parse_time c)
          (settings_reply laws.missing etag r)
        ≡ ok (settings_of parse_time rejects r)
  read-settings_reply etag none = refl
  read-settings_reply etag (some c) = refl

  pub get_user_settings-reads :
      (id : Str) (w : W) → get_user_settings parse_time client id w ≡ (ok (stored w id id), w)
  unfolding get_user_settings
  get_user_settings-reads id w =
      ap
        (λ (r : GetReply SettingsColumns × W).
          (read_entity (λ c etag. settings_of_columns parse_time c) r.0, r.1))
        (laws.get_reads id id w)
      ∙ ap (λ (r : Result Str (Option UserSettingsEntity)). (r, w))
          (read-settings_reply (laws.etag w id id) (laws.row w id id))

  pub upsert_user_settings-writes :
      (e : UserSettingsEntity) (w : W) (pk rk : Str)
      → IsInt64 e.event_timestamp
      → stored (upsert_user_settings parse_time client e w).1 pk rk
        ≡ (if same_keys e.partition_key e.row_key pk rk then some e else stored w pk rk)
  unfolding upsert_user_settings
  upsert_user_settings-writes e w pk rk sized =
      ap (settings_of parse_time rejects)
        (laws.upsert_merges (columns_of_settings e) e.partition_key e.row_key pk rk w
          (unfold columns_of_settings in (refl, refl))).1
      ∙ settings_of-if parse_time rejects (same_keys e.partition_key e.row_key pk rk) _ _
      ∙ ap (λ x. if same_keys e.partition_key e.row_key pk rk then some x else stored w pk rk)
          (written_settings parse_time rejects (laws.row w e.partition_key e.row_key) e sized)

  pub update_user_settings-merges :
      (u : UserSettingsUpdate) (old : SettingsColumns) (w : W) (t : ℤ) (pk rk : Str)
      → u.event_timestamp ≡ some t
      → IsInt64 t
      → laws.row w u.partition_key u.row_key ≡ some old
      → stored (update_user_settings parse_time client u w).1 pk rk ≡ (
          if same_keys u.partition_key u.row_key pk rk
          then some (merge_settings (settings_of_columns parse_time old) u)
          else stored w pk rk)
  unfolding update_user_settings
  update_user_settings-merges u old w t pk rk et sized there =
      ap (settings_of parse_time rejects)
        (laws.update_merges (columns_of_settings_update u) old u.partition_key u.row_key pk rk w
          (unfold columns_of_settings_update in (refl, refl)) there).1
      ∙ settings_of-if parse_time rejects (same_keys u.partition_key u.row_key pk rk) _ _
      ∙ ap (λ x. if same_keys u.partition_key u.row_key pk rk then some x else stored w pk rk)
          (merged_settings parse_time rejects u old t et sized
            (laws.row_keyed u.partition_key u.row_key w old there))

  -- Settings that are read as `e` have columns.
  pub row-of_settings {ℓ} :
      (P : UserSettingsEntity → Type ℓ) (r : Option SettingsColumns) (e : UserSettingsEntity)
      → settings_of parse_time rejects r ≡ some e
      → ((c : SettingsColumns) → r ≡ some c → P (settings_of_columns parse_time c))
      → P e
  row-of_settings P none e q h = cc
  row-of_settings P (some c) e q h =
      subst P (some-injective (settings_of_columns parse_time c) e q) (h c refl)

  -- The rows of the two tables, which the storage reads and writes as `UserService.Apply` counts on.
  unfoldable pub user_tables : UserTableLaws (user_storage parse_time client)
  unfolding upsert_user upsert_user_settings update_user_settings columns_of_user
      columns_of_settings columns_of_settings_update
  user_tables = record {
    user = stored_user;
    settings = λ w pk rk. settings_of parse_time rejects (laws.row w pk rk);
    get_reads = get_user_settings-reads;
    upsert_user_succeeds = λ e w.
        ap write_error
          (laws.user_accepts (columns_of_user e) e.partition_key e.row_key w (refl, refl));
    upsert_user_merges = λ e w pk rk. (
      upsert_user-merges e w pk rk,
      ap (settings_of parse_time rejects)
          (laws.user_merges (columns_of_user e) e.partition_key e.row_key pk rk w (refl, refl)).1,
    );
    upsert_settings_succeeds = λ e w.
        ap write_error
          (laws.upsert_accepts (columns_of_settings e) e.partition_key e.row_key w (refl, refl));
    upsert_settings_writes = λ e w pk rk sized. (
      ap user_of
          (laws.upsert_merges (columns_of_settings e) e.partition_key e.row_key pk rk w
            (refl, refl)).0,
      upsert_user_settings-writes e w pk rk sized,
    );
    update_settings_succeeds = λ u e w there.
        row-of_settings (λ x. (update_user_settings parse_time client u w).0 ≡ none) _ e there
          λ c h. ap write_error (
            laws.update_accepts (columns_of_settings_update u) c u.partition_key u.row_key w
              (refl, refl) h);
    update_settings_merges = λ u e w t pk rk et sized there.
        row-of_settings
          (λ x.
            (stored_user (update_user_settings parse_time client u w).1 pk rk ≡ stored_user w pk rk)
            × (stored (update_user_settings parse_time client u w).1 pk rk ≡ (
                if same_keys u.partition_key u.row_key pk rk
                then some (merge_settings x u)
                else stored w pk rk)))
          _ e there
          λ c h. (
            ap user_of
                (laws.update_merges (columns_of_settings_update u) c u.partition_key u.row_key pk rk
                  w (refl, refl) h).0,
            update_user_settings-merges u c w t pk rk et sized h,
          );
  }

  -- `UserService.Apply` over the methods of read-model-updater/storage/storage.go answers every event
  -- with an int64 timestamp as the specification does, and changes the user's row and the settings' row
  -- of the event's key as it does and no other row; a text without a column in a user's row reads as
  -- empty. The tables merge the columns of a request's body into the row of its keys, change no other
  -- row and have no other writer; their requests succeed, and no text of an integer reads as an RFC 3339
  -- time.
  pub apply_user-user_storage-RefinesRows :
      (ev : Event) (w : W)
      → IsInt64 ev.timestamp
      → RefinesRows
          (user_storage parse_time client)
          user_tables
          ev
          w
          (apply_user (user_storage parse_time client) ev w)
          (project_user ev (record {
            user = user_of (laws.user_row w ev.entity_id ev.entity_id);
            settings = settings_of parse_time rejects (laws.row w ev.entity_id ev.entity_id);
          }))
  unfolding user_tables
  apply_user-user_storage-RefinesRows ev w sized =
      apply_user-RefinesRows (user_storage parse_time client) user_tables ev w sized
