-- ===== src/ReadModel/Tables/Methods.antt =====
-- The methods of read-model-updater/storage/storage.go.
use prism_plan.Shared.{
  List, [], ◌∷◌, Option, none, some, Str, lit, Result, ok, err, ℤ, pos, pos_part, leb_ℤ,
  if◌then◌else◌,
}
use prism_plan.Tokens.{Keys}
use prism_plan.Storage.Fetch.{Query, partition_filter}
use prism_plan.ReadModel.Events.{
  TaskEntity, TaskUpdate, UserEntity, UserSettingsEntity, UserSettingsUpdate,
}
use prism_plan.ReadModel.Tasks.{UpdateReply, TaskStorage}
use prism_plan.ReadModel.Users.{UserStorage}
use prism_plan.ReadModel.Cache.{ListedPage}
use prism_plan.ReadModel.Tables.{
  TimeParser, TablesClient, columns_of_task, columns_of_update, columns_of_user,
  columns_of_settings, columns_of_settings_update, task_of_columns, settings_of_columns,
  read_entity, write_error, update_reply, if_match, listed_page,
}

module _ {W : Type 0} (parse_time : TimeParser) (client : TablesClient W) where
  -- `GetTask`
  unfoldable pub get_task : Str → Str → W → Result Str (Option TaskEntity) × W
  unfolding task_of_columns
  get_task pk rk w =
      let (reply, w') = client.get_entity pk rk w in
      (read_entity (task_of_columns parse_time) reply, w')

  -- `InsertTask`
  unfoldable pub insert_task : TaskEntity → W → Option Str × W
  unfolding columns_of_task
  insert_task e w =
      let (reply, w') = client.add_entity (columns_of_task e) w in (write_error reply, w')

  -- `UpdateTask`
  unfoldable pub update_task : TaskUpdate → Str → W → UpdateReply × W
  unfolding columns_of_update
  update_task u etag w =
      let (reply, w') = client.update_entity (columns_of_update u) (if_match etag) w in
      (update_reply reply, w')

  -- `ListTasksPage`
  unfoldable pub list_tasks_page : Str → ℤ → Option Keys → W → Result Str ListedPage
  list_tasks_page user_id limit keys w =
      let query : Query = record {
        filter = partition_filter user_id;
        top = if leb_ℤ limit (pos 0) then 1 else pos_part limit;
        next_keys = keys;
      } in
      if client.more query w
      then listed_page parse_time (client.next_page query w)
      else ok (record { tasks = []; next_partition_key = none; next_row_key = none })

  -- `GetUserSettings`
  unfoldable pub get_user_settings : Str → W → Result Str (Option UserSettingsEntity) × W
  unfolding settings_of_columns
  get_user_settings id w =
      let (reply, w') = client.get_settings id id w in
      (read_entity (λ c etag. settings_of_columns parse_time c) reply, w')

  -- `UpsertUser`
  unfoldable pub upsert_user : UserEntity → W → Option Str × W
  unfolding columns_of_user
  upsert_user e w =
      let (reply, w') = client.upsert_user (columns_of_user e) w in (write_error reply, w')

  -- `UpsertUserSettings`
  unfoldable pub upsert_user_settings : UserSettingsEntity → W → Option Str × W
  unfolding columns_of_settings
  upsert_user_settings e w =
      let (reply, w') = client.upsert_settings (columns_of_settings e) w in (write_error reply, w')

  -- `UpdateUserSettings`, under any version.
  unfoldable pub update_user_settings : UserSettingsUpdate → W → Option Str × W
  unfolding columns_of_settings_update
  update_user_settings u w =
      let (reply, w') = client.update_settings (columns_of_settings_update u) (lit "*") w in
      (write_error reply, w')

  -- The storage as the two services take it.
  abbrev pub task_storage : TaskStorage W
  task_storage = record {
    get_task = get_task;
    insert_task = insert_task;
    update_task = update_task;
  }

  abbrev pub user_storage : UserStorage W
  user_storage = record {
    upsert_user = upsert_user;
    get_user_settings = get_user_settings;
    upsert_user_settings = upsert_user_settings;
    update_user_settings = update_user_settings;
  }

-- `azqueue.QueueClient`, with the calls that the storage makes, for messages of the type `M`.
pub record QueueClient (M W : Type 0) : Type 0 where
  pub dequeue_message : W → Result Str (List M) × W
  pub delete_message : Str → Str → W → Option Str × W

abbrev first_message : {M : Type 0} → Result Str (List M) → Result Str (Option M)
first_message (err e) = err e
first_message (ok []) = ok none
first_message (ok (m ∷ messages)) = ok (some m)

-- `Dequeue`: the first message of the reply, or nothing.
unfoldable pub dequeue : {M W : Type 0} → QueueClient M W → W → Result Str (Option M) × W
dequeue queue w = let (reply, w') = queue.dequeue_message w in (first_message reply, w')

-- `Delete`
unfoldable pub delete_processed : {M W : Type 0} → QueueClient M W → Str → Str → W → Option Str × W
delete_processed queue id receipt w = queue.delete_message id receipt w
