-- ===== src/Examples/Tables.antt =====
-- The task storage over a table in memory.
use prism_plan.Shared.{
  ◌≡◌, refl, sym, ◌∙◌, subst, inl, inr, [], Option, none, some, Bool, true, false, ◌||◌, Str, lit,
  str_eq, is_empty, str_eq_iff, ok, err, pos, negsuc, arith, Bool-cases, if◌then◌else◌,
}
use mathlib.Core.Path.{ap₂}
use mathlib.Core.Option.{some-injective}
use prism_plan.ReadModel.Events.{TaskEntity}
use prism_plan.ReadModel.Tasks.{apply}
use prism_plan.ReadModel.Tasks.Project.{or_kept, project}
use prism_plan.ReadModel.Tasks.Refinement.{same_keys, Refines}
use prism_plan.ReadModel.Tables.{TimeParser, Columns, GetReply, WriteReply, accepted, TablesClient}
use prism_plan.ReadModel.Tables.Methods.{task_storage, get_task, insert_task}
use prism_plan.ReadModel.Tables.Client.{ClientLaws, merge_columns, stored_columns, get_reply, Keyed}
use prism_plan.ReadModel.Tables.TaskTable.{
  task_table, unversioned, get_task-insert_task, apply-task_storage-Refines,
}
use prism_plan.Examples.Tasks.{created}

abbrev Memory : Type 0
Memory = Str → Str → Option Columns

-- A row is stored under its keys.
abbrev under : Str → Str → Columns → Columns
under pk rk c = record c { partition_key = some pk; row_key = some rk }

abbrev memory_row : Str → Str → Option Columns → Option (Columns × Str)
memory_row pk rk none = none
memory_row pk rk (some c) = some (under pk rk c, lit "v")

abbrev put_columns : Columns → Columns → Memory → Memory
put_columns keys c w pk rk =
    if same_keys (or_kept keys.partition_key []) (or_kept keys.row_key []) pk rk
    then some c
    else w pk rk

abbrev overwrite : Columns → Str → Option Columns → Memory → WriteReply × Memory
overwrite c etag none w = (WriteReply.response_error 404 (lit "ResourceNotFound"), w)
overwrite c etag (some old) w =
    if str_eq etag (lit "v") || str_eq etag (lit "*")
    then (accepted, put_columns c (merge_columns old c) w)
    else (WriteReply.response_error 412 (lit "UpdateConditionNotSatisfied"), w)

abbrev memory_client : TablesClient Memory
memory_client = record {
  get_entity = λ pk rk w. (get_reply (lit "ResourceNotFound") (memory_row pk rk (w pk rk)), w);
  add_entity = λ c w. (accepted, put_columns c c w);
  update_entity =
      λ c etag w. overwrite c etag (w (or_kept c.partition_key []) (or_kept c.row_key [])) w;
  more = λ query w. false;
  next_page = λ query w. err (lit "no listing");
  get_settings = λ pk rk w. (GetReply.no_response (lit "no settings"), w);
  upsert_settings = λ c w. (WriteReply.no_response (lit "no settings"), w);
  update_settings = λ c etag w. (WriteReply.no_response (lit "no settings"), w);
  upsert_user = λ e w. (WriteReply.no_response (lit "no users"), w);
}

under-Keyed :
    (pk rk : Str) (r : Option Columns) (c : Columns) (etag : Str)
    → memory_row pk rk r ≡ some (c, etag)
    → Keyed c pk rk × (is_empty etag ≡ false)
unfolding is_empty
under-Keyed pk rk none c etag e = cc
under-Keyed pk rk (some x) c etag e =
    subst (λ (y : Columns × Str). Keyed y.0 pk rk × (is_empty y.1 ≡ false))
      (some-injective (under pk rk x, lit "v") (c, etag) e) ((refl, refl), refl)

under-eq : (pk rk : Str) (c : Columns) → Keyed c pk rk → under pk rk c ≡ c
under-eq pk rk c keyed = rw (← keyed.0, ← keyed.1) refl

same_keys-eq : (pk rk pk' rk' : Str) → same_keys pk rk pk' rk' ≡ true → (pk ≡ pk') × (rk ≡ rk')
same_keys-eq pk rk pk' rk' h = ground (arith, str_eq_iff pk pk', str_eq_iff rk rk')

stored-if :
    (pk rk : Str) (b : Bool) (c : Columns) (r : Option Columns)
    → stored_columns (memory_row pk rk (if b then some c else r))
      ≡ (if b then some (under pk rk c) else stored_columns (memory_row pk rk r))
stored-if pk rk true c r = refl
stored-if pk rk false c r = refl

under-if :
    (pk rk pk' rk' : Str) (c : Columns) (o : Option Columns)
    → (if same_keys pk rk pk' rk' then some (under pk' rk' c) else o)
      ≡ (if same_keys pk rk pk' rk' then some (under pk rk c) else o)
under-if pk rk pk' rk' c o = elim (Bool-cases (same_keys pk rk pk' rk')) [
  | inl h ↦ rw ((same_keys-eq pk rk pk' rk' h).0, (same_keys-eq pk rk pk' rk' h).1) refl
  | inr h ↦ rw h refl
]

put-row :
    (keys c : Columns) (pk rk pk' rk' : Str) (w : Memory)
    → Keyed keys pk rk
    → Keyed c pk rk
    → stored_columns (memory_row pk' rk' (put_columns keys c w pk' rk')) ≡ (
        if same_keys pk rk pk' rk' then some c else stored_columns (memory_row pk' rk' (w pk' rk')))
put-row keys c pk rk pk' rk' w keyed own =
    rw (keyed.0, keyed.1)
      (stored-if pk' rk' (same_keys pk rk pk' rk') c (w pk' rk')
        ∙ under-if pk rk pk' rk' c _
        ∙ rw (under-eq pk rk c own) refl)

merge_columns-under :
    (pk rk : Str) (x c : Columns)
    → Keyed c pk rk
    → merge_columns x c ≡ merge_columns (under pk rk x) c
merge_columns-under pk rk x c keyed = rw (keyed.0, keyed.1) refl

merge_columns-Keyed :
    (pk rk : Str) (x c : Columns) → Keyed c pk rk → Keyed (merge_columns x c) pk rk
merge_columns-Keyed pk rk x c keyed = rw (keyed.0, keyed.1) (refl, refl)

-- What a write under the etag of a row does.
record Overwrites (c : Columns) (pk rk : Str) (w : Memory) (old : Columns) (r : WriteReply × Memory)
    : Type 0 where
  reply : r.0 ≡ accepted
  rows :
      (pk' rk' : Str)
      → stored_columns (memory_row pk' rk' (r.1 pk' rk')) ≡ (
          if same_keys pk rk pk' rk'
          then some (merge_columns old c)
          else stored_columns (memory_row pk' rk' (w pk' rk')))

overwrite-Overwrites :
    (c old : Columns) (etag pk rk : Str) (r : Option Columns) (w : Memory)
    → Keyed c pk rk
    → memory_row pk rk r ≡ some (old, etag)
    → Overwrites c pk rk w old (overwrite c etag r w)
unfolding str_eq
overwrite-Overwrites c old etag pk rk none w keyed e = cc
overwrite-Overwrites c old etag pk rk (some x) w keyed e =
    subst (λ (y : Columns × Str). Overwrites c pk rk w y.0 (overwrite c y.1 (some x) w))
      (some-injective (under pk rk x, lit "v") (old, etag) e)
      (record {
        reply = refl;
        rows = λ pk' rk'.
            put-row c (merge_columns x c) pk rk pk' rk' w keyed
              (merge_columns-Keyed pk rk x c keyed)
            ∙ rw (merge_columns-under pk rk x c keyed) refl;
      })

update-Overwrites :
    (c old : Columns) (etag pk rk : Str) (w : Memory)
    → Keyed c pk rk
    → memory_row pk rk (w pk rk) ≡ some (old, etag)
    → Overwrites c pk rk w old (memory_client.update_entity c etag w)
update-Overwrites c old etag pk rk w keyed e =
    subst (λ r. Overwrites c pk rk w old (overwrite c etag r w))
      (ap₂ (λ (a b : Option Str). w (or_kept a []) (or_kept b [])) (sym keyed.0) (sym keyed.1))
      (overwrite-Overwrites c old etag pk rk (w pk rk) w keyed e)

abbrev memory_laws : ClientLaws memory_client
memory_laws = record {
  row = λ w pk rk. memory_row pk rk (w pk rk);
  missing = lit "ResourceNotFound";
  get_reads = λ pk rk w. refl;
  row_keyed = λ pk rk w c etag e. (under-Keyed pk rk (w pk rk) c etag e).0;
  etag_not_empty = λ pk rk w c etag e. (under-Keyed pk rk (w pk rk) c etag e).1;
  add_accepts = λ c pk rk w keyed absent. refl;
  add_adds = λ c pk rk pk' rk' w keyed absent. put-row c c pk rk pk' rk' w keyed keyed;
  update_accepts =
      λ c old etag pk rk w keyed e. (update-Overwrites c old etag pk rk w keyed e).reply;
  update_merges = λ c old etag pk rk pk' rk' w keyed e.
      (update-Overwrites c old etag pk rk w keyed e).rows pk' rk';
}

-- No text is a time.
abbrev no_times : TimeParser
no_times s = none

abbrev no_rows : Memory
no_rows pk rk = none

abbrev milk : TaskEntity
milk = record {
  partition_key = lit "u1";
  row_key = lit "t1";
  title = lit "milk";
  notes = [];
  category = lit "home";
  order = pos 2;
  done = true;
  event_timestamp = negsuc 6;
  etag = lit "old";
}

get_task-insert_task_example :
    ((insert_task no_times memory_client milk no_rows).0 ≡ none)
    × (unversioned
          (get_task no_times memory_client
            (lit "u1")
            (lit "t1")
            (insert_task no_times memory_client milk no_rows).1).0
        ≡ ok (some (record milk { etag = [] })))
get_task-insert_task_example =
    get_task-insert_task no_times (λ t. refl) memory_client memory_laws milk no_rows (omega arith)
      refl

apply-task_storage-Refines_example :
    Refines
      (task_storage no_times memory_client)
      (task_table no_times (λ t. refl) memory_client memory_laws)
      created
      no_rows
      (apply (task_storage no_times memory_client) 1 created no_rows)
      (project created none)
apply-task_storage-Refines_example =
    apply-task_storage-Refines no_times (λ t. refl) memory_client memory_laws 0 created no_rows
      (omega arith)
