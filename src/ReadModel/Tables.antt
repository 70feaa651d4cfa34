-- ===== src/ReadModel/Tables.antt =====
-- read-model-updater/storage/storage.go over the clients of the Azure tables and of the queue. A body
-- of JSON is the record of the columns that it has: `omitempty` leaves a column out, and a column that
-- is not there is read as the zero value.
pub mod Methods
pub mod Timestamps
pub mod Client
pub mod Rows
pub mod TaskTable
pub mod UserRows
pub mod UserTable
use prism_plan.Shared.{
  ℕ, zero, suc, ◌+◌, ◌-◌, ◌*◌, ◌/◌, ◌%◌, ◌^◌, ◌≤◌, ◌<◌, ◌≡◌, ◌≢◌, refl, sym, ap, ◌∙◌, subst, ◌↔◌,
  ◌⊎◌, inl, inr, List, [], ◌∷◌, ◌++◌, map, Option, none, some, Bool, true, false, not, ◌&&◌, ◌||◌,
  Str, lit, IsByte, str_eq, is_empty, str_eq_refl, str_eq_iff, str_eq_ne, is_empty_iff, Result, ok,
  err, ℤ, pos, negsuc, neg_part, pos_part, ◌+ℤ◌, ◌≤ℤ◌, ◌<ℤ◌, leb_ℤ, ltb_ℤ, eqb_ℤ, wrap_int64,
  wrap_int32, wrap_int64_self, wrap_int32_self, IsInt64, is_int64, scale, atoi, format_int,
  atoi-format_int, arith, ltb, leb, ◌==◌, ==_iff, ==_refl, Bool-cases, if_cases, if_cases_both,
  Option-cases, if◌then◌else◌, length, get_elem?, take, drop, length-append, length-take,
  length-drop, length-map, take-append_left, drop-append_left, take-length, All,
}
use mathlib.Core.Option
use prism_plan.Json.{Json, Raw, null, text, into_int, into_string}
use prism_plan.Tokens.{Keys}
use prism_plan.Storage.Fetch.{Query, partition_filter}
use prism_plan.ReadModel.Events.{
  TaskEntity, TaskUpdate, UserEntity, UserSettingsEntity, UserSettingsUpdate,
}
use prism_plan.ReadModel.Tasks.{UpdateReply, updated, conflict, refused, TaskStorage}
use prism_plan.ReadModel.Tasks.Project.{or_kept}
use prism_plan.ReadModel.Users.{UserStorage}
use prism_plan.ReadModel.Cache.{ListedPage}

-- `time.Parse` with the layout RFC3339Nano, then `UnixNano`.
abbrev pub TimeParser : Type 0
TimeParser = Str → Option ℤ

abbrev pub or_zero : Option ℤ → ℤ
or_zero none = pos 0
or_zero (some z) = z

-- A time, or else an integer, or else 0.
abbrev pub first_of : Option ℤ → Option ℤ → ℤ
first_of (some t) number = t
first_of none number = or_zero number

abbrev pub stamp_in_text : TimeParser → Str → ℤ
stamp_in_text parse_time s = first_of (parse_time s) (atoi s)

abbrev pub stamp_in : TimeParser → Json → Option ℤ → ℤ
stamp_in parse_time v (some i) = i
stamp_in parse_time v none = elim (into_string v []) [
  | none ↦ pos 0
  | some s ↦ stamp_in_text parse_time s
]

-- `parseTimestamp`: an integer, a text that is a time or an integer, or 0.
unfoldable pub parse_timestamp : TimeParser → Raw → ℤ
parse_timestamp parse_time none = pos 0
parse_timestamp parse_time (some v) = stamp_in parse_time v (into_int v (pos 0))

pub record Columns : Type 0 where
  pub partition_key : Option Str
  pub row_key : Option Str
  pub title : Option Str
  pub notes : Option Str
  pub category : Option Str
  pub order : Option ℤ
  pub done : Option Bool
  pub event_timestamp : Raw

pub record SettingsColumns : Type 0 where
  pub partition_key : Option Str
  pub row_key : Option Str
  pub tasks_per_category : Option ℤ
  pub show_done_tasks : Option Bool
  pub event_timestamp : Raw

pub record UserColumns : Type 0 where
  pub partition_key : Option Str
  pub row_key : Option Str
  pub name : Option Str
  pub email : Option Str

-- A read: the columns (or the error of their decoder) with the etag, a response with an error status,
-- or no response.
pub data GetReply (C : Type 0) : Type 0 where
  found : Result Str C → Str → GetReply C
  response_error : ℕ → Str → GetReply C
  no_response : Str → GetReply C

pub data WriteReply : Type 0 where
  accepted : WriteReply
  response_error : ℕ → Str → WriteReply
  no_response : Str → WriteReply

-- One page of a listing, with the columns of each entity.
pub record EntityPage : Type 0 where
  pub entities : List (Result Str Columns)
  pub next_partition_key : Option Str
  pub next_row_key : Option Str

-- `aztables.Client`, with the calls that the storage makes.
pub record TablesClient (W : Type 0) : Type 0 where
  pub get_entity : Str → Str → W → GetReply Columns × W
  pub add_entity : Columns → W → WriteReply × W
  pub update_entity : Columns → Str → W → WriteReply × W
  pub more : Query → W → Bool
  pub next_page : Query → W → Result Str EntityPage
  pub get_settings : Str → Str → W → GetReply SettingsColumns × W
  pub upsert_settings : SettingsColumns → W → WriteReply × W
  pub update_settings : SettingsColumns → Str → W → WriteReply × W
  pub upsert_user : UserColumns → W → WriteReply × W

-- `json:",omitempty"` on a text.
abbrev pub unless_empty : Str → Option Str
unless_empty s = if is_empty s then none else some s

abbrev pub stamp_text : ℤ → Json
stamp_text t = text (format_int t)

-- `json.Marshal` of a `TaskEntity`, a `TaskUpdate`, a `UserEntity`, a
-- `UserSettingsEntity` and a `UserSettingsUpdate`.
unfoldable pub columns_of_task : TaskEntity → Columns
columns_of_task e = record {
  partition_key = some e.partition_key;
  row_key = some e.row_key;
  title = unless_empty e.title;
  notes = unless_empty e.notes;
  category = unless_empty e.category;
  order = some e.order;
  done = some e.done;
  event_timestamp = some (stamp_text e.event_timestamp);
}

unfoldable pub columns_of_update : TaskUpdate → Columns
columns_of_update u = record {
  partition_key = some u.partition_key;
  row_key = some u.row_key;
  title = u.title;
  notes = u.notes;
  category = u.category;
  order = u.order;
  done = u.done;
  event_timestamp = Option.map stamp_text u.event_timestamp;
}

unfoldable pub columns_of_user : UserEntity → UserColumns
columns_of_user e = record {
  partition_key = some e.partition_key;
  row_key = some e.row_key;
  name = unless_empty e.name;
  email = unless_empty e.email;
}

unfoldable pub columns_of_settings : UserSettingsEntity → SettingsColumns
columns_of_settings e = record {
  partition_key = some e.partition_key;
  row_key = some e.row_key;
  tasks_per_category = some e.tasks_per_category;
  show_done_tasks = some e.show_done_tasks;
  event_timestamp = some (stamp_text e.event_timestamp);
}

unfoldable pub columns_of_settings_update : UserSettingsUpdate → SettingsColumns
columns_of_settings_update u = record {
  partition_key = some u.partition_key;
  row_key = some u.row_key;
  tasks_per_category = u.tasks_per_category;
  show_done_tasks = u.show_done_tasks;
  event_timestamp = Option.map stamp_text u.event_timestamp;
}

-- The struct `raw` of `GetTask` and `ListTasksPage`, and the entity made of it.
unfoldable pub task_of_columns : TimeParser → Columns → Str → TaskEntity
unfolding parse_timestamp
task_of_columns parse_time c etag = record {
  partition_key = or_kept c.partition_key [];
  row_key = or_kept c.row_key [];
  title = or_kept c.title [];
  notes = or_kept c.notes [];
  category = or_kept c.category [];
  order = or_kept c.order (pos 0);
  done = or_kept c.done false;
  event_timestamp = parse_timestamp parse_time c.event_timestamp;
  etag = etag;
}

unfoldable pub settings_of_columns : TimeParser → SettingsColumns → UserSettingsEntity
unfolding parse_timestamp
settings_of_columns parse_time c = record {
  partition_key = or_kept c.partition_key [];
  row_key = or_kept c.row_key [];
  tasks_per_category = or_kept c.tasks_per_category (pos 0);
  show_done_tasks = or_kept c.show_done_tasks false;
  event_timestamp = parse_timestamp parse_time c.event_timestamp;
}

-- A status of 404 is no error.
abbrev pub read_entity : {C E : Type 0} → (C → Str → E) → GetReply C → Result Str (Option E)
read_entity make (found (ok c) etag) = ok (some (make c etag))
read_entity make (found (err e) etag) = err e
read_entity make (GetReply.response_error code message) =
    if code == 404 then ok none else err message
read_entity make (GetReply.no_response message) = err message

abbrev pub write_error : WriteReply → Option Str
write_error accepted = none
write_error (WriteReply.response_error code message) = some message
write_error (WriteReply.no_response message) = some message

-- A status of 412 is `ErrConcurrencyConflict`.
abbrev pub update_reply : WriteReply → UpdateReply
update_reply accepted = updated
update_reply (WriteReply.response_error code message) =
    if code == 412 then conflict else refused message
update_reply (WriteReply.no_response message) = refused message

-- `If-Match`: any version where the etag is empty.
abbrev pub if_match : Str → Str
if_match etag = if is_empty etag then lit "*" else etag

abbrev pub listed : TimeParser → List (Result Str Columns) → Result Str (List TaskEntity)
listed parse_time [] = ok []
listed parse_time (err e ∷ entities) = err e
listed parse_time (ok c ∷ entities) = elim (listed parse_time entities) [
  | err e ↦ err e
  | ok tasks ↦ ok (task_of_columns parse_time c [] ∷ tasks)
]

abbrev pub listed_page : TimeParser → Result Str EntityPage → Result Str ListedPage
listed_page parse_time (err e) = err e
listed_page parse_time (ok page) = elim (listed parse_time page.entities) [
  | err e ↦ err e
  | ok tasks ↦ ok (record {
    tasks = tasks;
    next_partition_key = page.next_partition_key;
    next_row_key = page.next_row_key;
  })
]
