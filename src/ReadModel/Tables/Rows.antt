-- ===== src/ReadModel/Tables/Rows.antt =====
-- The columns of a task, written and read back.
use prism_plan.Shared.{
  ◌≡◌, refl, [], ◌∷◌, Option, none, some, Bool, true, false, Str, is_empty, ℤ, pos, IsInt64,
  if◌then◌else◌,
}
use mathlib.Core.Option.{some-injective}
use mathlib.Core.Option
use prism_plan.ReadModel.Events.{TaskEntity, TaskUpdate}
use prism_plan.ReadModel.Tasks.Project.{or_kept, merge, Row}
use prism_plan.ReadModel.Tasks.Refinement.{forget}
use prism_plan.ReadModel.Tables.{
  TimeParser, parse_timestamp, stamp_text, Columns, columns_of_task, columns_of_update,
  task_of_columns, unless_empty,
}
use prism_plan.ReadModel.Tables.Timestamps.{RejectsIntegers, parse_timestamp-stamp_text}
use prism_plan.ReadModel.Tables.Client.{or_else, merge_columns, stored_columns, Keyed}

pub or_kept-unless_empty : (s : Str) → or_kept (unless_empty s) [] ≡ s
unfolding is_empty
or_kept-unless_empty [] = refl
or_kept-unless_empty (c ∷ s) = refl

pub or_kept-or_else {ℓ} :
    {A : Type ℓ} (new old : Option A) (x : A)
    → or_kept (or_else new old) x ≡ or_kept new (or_kept old x)
or_kept-or_else none old x = refl
or_kept-or_else (some new) old x = refl

module _ (parse_time : TimeParser) where
  abbrev pub task_of : Option (Columns × Str) → Row
  task_of none = none
  task_of (some (c, etag)) = some (task_of_columns parse_time c etag)

  abbrev pub fresh_task : Option Columns → Row
  fresh_task none = none
  fresh_task (some c) = some (task_of_columns parse_time c [])

  pub forget-task_of :
      (r : Option (Columns × Str)) → forget (task_of r) ≡ fresh_task (stored_columns r)
  unfolding task_of_columns
  forget-task_of none = refl
  forget-task_of (some (c, etag)) = refl

  pub fresh_task-if :
      (b : Bool) (x y : Option Columns)
      → fresh_task (if b then x else y) ≡ (if b then fresh_task x else fresh_task y)
  fresh_task-if true x y = refl
  fresh_task-if false x y = refl

module _ (parse_time : TimeParser) (rejects : RejectsIntegers parse_time) where
  -- A task that is written as a new row is read back.
  pub task_of_columns-columns_of_task :
      (e : TaskEntity) (etag : Str)
      → IsInt64 e.event_timestamp
      → task_of_columns parse_time (columns_of_task e) etag ≡ record e { etag = etag }
  unfolding task_of_columns columns_of_task
  task_of_columns-columns_of_task e etag sized =
      rw
        (
          or_kept-unless_empty e.title,
          or_kept-unless_empty e.notes,
          or_kept-unless_empty e.category,
          parse_timestamp-stamp_text parse_time e.event_timestamp rejects sized,
        )
        refl

  merged_timestamp :
      (u : TaskUpdate) (old : Columns) (t : ℤ)
      → u.event_timestamp ≡ some t
      → IsInt64 t
      → parse_timestamp parse_time
          (or_else (Option.map stamp_text u.event_timestamp) old.event_timestamp)
        ≡ or_kept u.event_timestamp (parse_timestamp parse_time old.event_timestamp)
  merged_timestamp u old t et sized = rw et (parse_timestamp-stamp_text parse_time t rejects sized)

  -- The columns after a merge are the columns of the merged task.
  pub merged_columns :
      (u : TaskUpdate) (old : Columns) (etag : Str) (t : ℤ)
      → u.event_timestamp ≡ some t
      → IsInt64 t
      → Keyed old u.partition_key u.row_key
      → fresh_task parse_time (some (merge_columns old (columns_of_update u)))
        ≡ forget (some (merge (task_of_columns parse_time old etag) u))
  unfolding task_of_columns columns_of_update merge
  merged_columns u old etag t et sized keyed =
      rw
        (
          or_kept-or_else u.title old.title [],
          or_kept-or_else u.notes old.notes [],
          or_kept-or_else u.category old.category [],
          or_kept-or_else u.order old.order (pos 0),
          or_kept-or_else u.done old.done false,
          merged_timestamp u old t et sized,
          keyed.0,
          keyed.1,
        )
        refl
