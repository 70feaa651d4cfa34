-- ===== src/ReadModel/Tables/TaskTable.antt =====
-- The task storage over a table that this service alone writes to.
use prism_plan.Shared.{
  ℕ, suc, ◌≡◌, refl, sym, ap, ◌∙◌, subst, [], Option, none, some, false, Str, is_empty, str_eq_refl,
  Result, ok, err, ℤ, IsInt64, if◌then◌else◌,
}
use mathlib.Core.Option.{some-injective}
use mathlib.Core.Path.{ap₂}
use prism_plan.ReadModel.Events.{Event, TaskEntity, TaskUpdate}
use prism_plan.ReadModel.Tasks.{updated, apply}
use prism_plan.ReadModel.Tasks.Project.{merge, Row, project}
use prism_plan.ReadModel.Tasks.Refinement.{forget, same_keys, TableLaws, Refines, apply-Refines}
use prism_plan.ReadModel.Tables.{
  TimeParser, Columns, GetReply, TablesClient, columns_of_task, columns_of_update, task_of_columns,
  if_match, read_entity, write_error, update_reply,
}
use prism_plan.ReadModel.Tables.Methods.{get_task, insert_task, update_task, task_storage}
use prism_plan.ReadModel.Tables.Timestamps.{RejectsIntegers}
use prism_plan.ReadModel.Tables.Client.{ClientLaws, get_reply}
use prism_plan.ReadModel.Tables.Rows.{
  task_of, fresh_task, forget-task_of, fresh_task-if, task_of_columns-columns_of_task,
  merged_columns,
}

-- What a read gives, without the etag.
abbrev pub unversioned : Result Str Row → Result Str Row
unversioned (err e) = err e
unversioned (ok row) = ok (forget row)

module _ (parse_time : TimeParser) (rejects : RejectsIntegers parse_time) {W : Type 0}
    (client : TablesClient W) (laws : ClientLaws client) where
  read-get_reply :
      (r : Option (Columns × Str))
      → read_entity (task_of_columns parse_time) (get_reply laws.missing r)
        ≡ ok (task_of parse_time r)
  read-get_reply none = refl
  read-get_reply (some (c, etag)) = refl

  pub get_task-reads :
      (pk rk : Str) (w : W)
      → get_task parse_time client pk rk w ≡ (ok (task_of parse_time (laws.row w pk rk)), w)
  unfolding get_task
  get_task-reads pk rk w =
      ap (λ (r : GetReply Columns × W). (read_entity (task_of_columns parse_time) r.0, r.1))
        (laws.get_reads pk rk w)
      ∙ ap (λ (r : Result Str Row). (r, w)) (read-get_reply (laws.row w pk rk))

  pub task_of-eq_none : (r : Option (Columns × Str)) → task_of parse_time r ≡ none → r ≡ none
  task_of-eq_none none e = refl
  task_of-eq_none (some (c, etag)) e = cc

  if_match-eq : (etag : Str) → is_empty etag ≡ false → if_match etag ≡ etag
  if_match-eq etag h = rw h refl

  pub insert_task-adds :
      (e : TaskEntity) (w : W) (pk rk : Str)
      → IsInt64 e.event_timestamp
      → laws.row w e.partition_key e.row_key ≡ none
      → forget (task_of parse_time (laws.row (insert_task parse_time client e w).1 pk rk)) ≡ (
          if same_keys e.partition_key e.row_key pk rk
          then forget (some e)
          else forget (task_of parse_time (laws.row w pk rk)))
  unfolding insert_task
  insert_task-adds e w pk rk sized absent =
      forget-task_of parse_time (laws.row (client.add_entity (columns_of_task e) w).1 pk rk)
      ∙ ap (fresh_task parse_time)
          (laws.add_adds (columns_of_task e) e.partition_key e.row_key pk rk w (refl, refl) absent)
      ∙ fresh_task-if parse_time (same_keys e.partition_key e.row_key pk rk) _ _
      ∙ ap₂ (λ (new kept : Row). if same_keys e.partition_key e.row_key pk rk then new else kept)
          (ap (λ x. some x) (task_of_columns-columns_of_task parse_time rejects e [] sized))
          (sym (forget-task_of parse_time (laws.row w pk rk)))

  pub update_task-updates :
      (u : TaskUpdate) (old : Columns) (etag : Str) (w : W)
      → laws.row w u.partition_key u.row_key ≡ some (old, etag)
      → (update_task parse_time client u etag w).0 ≡ updated
  unfolding update_task
  update_task-updates u old etag w e =
      rw (if_match-eq etag (laws.etag_not_empty u.partition_key u.row_key w old etag e)) (
        ap update_reply (
          laws.update_accepts (columns_of_update u) old etag u.partition_key u.row_key w
            (refl, refl) e))

  pub update_task-merges :
      (u : TaskUpdate) (old : Columns) (etag : Str) (w : W) (t : ℤ) (pk rk : Str)
      → u.event_timestamp ≡ some t
      → IsInt64 t
      → laws.row w u.partition_key u.row_key ≡ some (old, etag)
      → forget (task_of parse_time (laws.row (update_task parse_time client u etag w).1 pk rk)) ≡ (
          if same_keys u.partition_key u.row_key pk rk
          then forget (some (merge (task_of_columns parse_time old etag) u))
          else forget (task_of parse_time (laws.row w pk rk)))
  unfolding update_task
  update_task-merges u old etag w t pk rk et sized e =
      rw (if_match-eq etag (laws.etag_not_empty u.partition_key u.row_key w old etag e)) (
        forget-task_of parse_time
          (laws.row (client.update_entity (columns_of_update u) etag w).1 pk rk)
        ∙ ap (fresh_task parse_time) (
            laws.update_merges (columns_of_update u) old etag u.partition_key u.row_key pk rk w
              (refl, refl) e)
        ∙ fresh_task-if parse_time (same_keys u.partition_key u.row_key pk rk) _ _
        ∙ ap₂ (λ (new kept : Row). if same_keys u.partition_key u.row_key pk rk then new else kept)
            (merged_columns parse_time rejects u old etag t et sized
              (laws.row_keyed u.partition_key u.row_key w old etag e))
            (sym (forget-task_of parse_time (laws.row w pk rk))))

  -- A row that is read as the task `e` has columns, and an etag, that of `e`.
  pub row-of_task {ℓ} :
      (P : TaskEntity → Type ℓ) (r : Option (Columns × Str)) (e : TaskEntity)
      → task_of parse_time r ≡ some e
      → ((c : Columns) (etag : Str) → r ≡ some (c, etag) → P (task_of_columns parse_time c etag))
      → P e
  row-of_task P none e q h = cc
  row-of_task P (some (c, etag)) e q h =
      subst P (some-injective (task_of_columns parse_time c etag) e q) (h c etag refl)

  pub insert_task-succeeds :
      (e : TaskEntity) (w : W)
      → laws.row w e.partition_key e.row_key ≡ none
      → (insert_task parse_time client e w).0 ≡ none
  unfolding insert_task
  insert_task-succeeds e w absent =
      ap write_error
        (laws.add_accepts (columns_of_task e) e.partition_key e.row_key w (refl, refl) absent)

  -- The rows of the table, which the storage reads and writes as `TaskService.Apply` counts on.
  unfoldable pub task_table : TableLaws (task_storage parse_time client)
  unfolding task_of_columns
  task_table = record {
    row = λ w pk rk. task_of parse_time (laws.row w pk rk);
    get_reads = get_task-reads;
    insert_succeeds = λ e w absent. insert_task-succeeds e w (task_of-eq_none _ absent);
    insert_adds =
        λ e w pk rk sized absent. insert_task-adds e w pk rk sized (task_of-eq_none _ absent);
    update_succeeds = λ u e w there.
        row-of_task (λ x. (update_task parse_time client u x.etag w).0 ≡ updated) _ e there
          λ c etag h. update_task-updates u c etag w h;
    update_merges = λ u e w t pk rk et sized there.
        row-of_task
          (λ x.
            forget
              (task_of parse_time (laws.row (update_task parse_time client u x.etag w).1 pk rk))
            ≡ (if same_keys u.partition_key u.row_key pk rk
                then forget (some (merge x u))
                else forget (task_of parse_time (laws.row w pk rk))))
          _ e there λ c etag h. update_task-merges u c etag w t pk rk et sized h;
  }

  -- A task that is inserted where there is no row, with an int64 timestamp, is read back with every
  -- field as it was but the etag, over a table with no other writer whose requests succeed, where no
  -- text of an integer reads as an RFC 3339 time.
  pub get_task-insert_task :
      (e : TaskEntity) (w : W)
      → IsInt64 e.event_timestamp
      → laws.row w e.partition_key e.row_key ≡ none
      → ((insert_task parse_time client e w).0 ≡ none)
        × (unversioned
              (get_task parse_time client e.partition_key e.row_key
                (insert_task parse_time client e w).1).0
            ≡ ok (some (record e { etag = [] })))
  get_task-insert_task e w sized absent = (
    insert_task-succeeds e w absent,
    ap (λ (r : Result Str Row × W). unversioned r.0)
          (get_task-reads e.partition_key e.row_key (insert_task parse_time client e w).1)
        ∙ ap ok (
            insert_task-adds e w e.partition_key e.row_key sized absent
            ∙ rw (str_eq_refl e.partition_key, str_eq_refl e.row_key) refl),
  )

  -- `TaskService.Apply` over the methods of read-model-updater/storage/storage.go answers every event
  -- with an int64 timestamp as the specification does, and changes the event's row of the table as it
  -- does and no other row; the table has no other writer, its requests succeed, and no text of an
  -- integer reads as an RFC 3339 time.
  pub apply-task_storage-Refines :
      (fuel : ℕ) (ev : Event) (w : W)
      → IsInt64 ev.timestamp
      → Refines
          (task_storage parse_time client)
          task_table
          ev
          w
          (apply (task_storage parse_time client) (suc fuel) ev w)
          (project ev (task_of parse_time (laws.row w ev.user_id ev.entity_id)))
  unfolding task_table
  apply-task_storage-Refines fuel ev w sized =
      apply-Refines (task_storage parse_time client) task_table fuel ev w sized
