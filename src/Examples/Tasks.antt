-- ===== src/Examples/Tasks.antt =====
-- `TaskService.Apply` over two storages in memory.
use prism_plan.Shared.{
  pos_part, List, ℕ, zero, suc, ◌^◌, ◌<◌, ◌≡◌, ◌≢◌, ◌⊎◌, refl, sym, ap, ◌∙◌, subst, [], ◌∷◌, none,
  some, Bool, true, false, Str, lit, str_eq, str_eq_refl, Result, ok, err, pos, ◌<ℤ◌, IsInt64,
  arith, ltb, if_cases, if◌then◌else◌, length,
}
use mathlib.Core.Option.{some-injective}
use prism_plan.Json.{Raw, object, member, end, text, unmarshal, is_field, into_string}
use prism_plan.ReadModel.Events.{
  Event, TaskEntity, TaskUpdate, task_created, task_completed, task_reopened, decode_task_created,
}
use prism_plan.ReadModel.Tasks.{
  TaskStorage, UpdateReply, updated, conflict, refused, done, running, apply, apply_created,
}
use prism_plan.ReadModel.Tasks.Project.{Row, merge, project}
use prism_plan.ReadModel.Tasks.Refinement.{
  forget, same_keys, TableLaws, view, Refines, apply-Refines,
}
use prism_plan.ReadModel.Tasks.Retries.{ConflictLaws, apply-ne-running}
use mathlib.Core.List.Perm
use prism_plan.ReadModel.Tasks.History.{apply_replay}
use prism_plan.ReadModel.Tasks.Orders.{apply_all, Toggles-perm}
use prism_plan.ReadModel.Tasks.Ages.{Older, apply_all-Older}

-- A table in memory, which writes one etag for every version.
abbrev pub Table : Type 0
Table = Str → Str → Row

abbrev put : TaskEntity → Table → Table
put e w pk rk = if same_keys e.partition_key e.row_key pk rk then some e else w pk rk

abbrev write : TaskUpdate → Str → Row → Table → UpdateReply × Table
write u etag none w = (refused (lit "ResourceNotFound"), w)
write u etag (some e) w =
    if str_eq etag e.etag
    then (
      updated,
      λ pk rk. if same_keys u.partition_key u.row_key pk rk then some (merge e u) else w pk rk,
    )
    else (conflict, w)

abbrev pub table : TaskStorage Table
table = record {
  get_task = λ pk rk w. (ok (w pk rk), w);
  insert_task = λ e w. (none, put (record e { etag = lit "v" }) w);
  update_task = λ u etag w. write u etag (w u.partition_key u.row_key) w;
}

written :
    (u : TaskUpdate) (e : TaskEntity) (w : Table) (row : Row)
    → row ≡ some e
    → write u e.etag row w ≡ (
      updated,
      λ pk rk. if same_keys u.partition_key u.row_key pk rk then some (merge e u) else w pk rk,
    )
written u e w row h = rw (h, str_eq_refl e.etag)

forget-if :
    (b : Bool) (x y : Row) → forget (if b then x else y) ≡ (if b then forget x else forget y)
forget-if true x y = refl
forget-if false x y = refl

pub table-TableLaws : TableLaws table
table-TableLaws = record {
  row = λ w pk rk. w pk rk;
  get_reads = λ pk rk w. refl;
  insert_succeeds = λ e w h. refl;
  insert_adds = λ e w pk rk sized h. forget-if (same_keys e.partition_key e.row_key pk rk) _ _;
  update_succeeds = λ u e w h. ap (λ (r : UpdateReply × Table). r.0) (written u e w _ h);
  update_merges = λ u e w t pk rk et sized h.
      ap (λ (r : UpdateReply × Table). forget (r.1 pk rk)) (written u e w _ h)
      ∙ forget-if (same_keys u.partition_key u.row_key pk rk) _ _;
}

abbrev pub empty_table : Table
empty_table pk rk = none

abbrev pub task_event : Str → ℕ → Raw → Event
task_event type t payload = record {
  id = lit "e";
  entity_id = lit "t1";
  entity_type = lit "task";
  type = type;
  payload = payload;
  timestamp = pos t;
  user_id = lit "u1";
}

abbrev pub created : Event
created = task_event task_created 5 (some (object (member (lit "title") (text (lit "milk")) end)))

apply-Refines_example :
    Refines table table-TableLaws created empty_table
      (apply table 1 created empty_table)
      (project created (table-TableLaws.row empty_table created.user_id created.entity_id))
apply-Refines_example = apply-Refines table table-TableLaws 0 created empty_table (omega arith)

apply_replay_example :
    ((apply table 1 created (apply table 1 created empty_table).1).0 ≢ done)
    × ((pk rk : Str)
        → view table table-TableLaws
            (apply table 1 created (apply table 1 created empty_table).1).1
            pk
            rk
          ≡ view table table-TableLaws (apply table 1 created empty_table).1 pk rk)
unfolding apply apply_created decode_task_created str_eq unmarshal is_field into_string
apply_replay_example = apply_replay table table-TableLaws 0 created empty_table (omega arith) refl

-- A table with a busy second writer: it writes the next version before every update of ours, and
-- deletes the row after the ninth. The etag of version `n` has `n` letters.
abbrev pub stamp : ℕ → Str
stamp zero = []
stamp (suc n) = b'v' ∷ stamp n

length-stamp : (n : ℕ) → length (stamp n) ≡ n
length-stamp zero = refl
length-stamp (suc n) = ap suc (length-stamp n)

abbrev pub version : ℕ → TaskEntity
version n = record {
  partition_key = lit "u1";
  row_key = lit "t1";
  title = [];
  notes = [];
  category = [];
  order = pos 0;
  done = false;
  event_timestamp = pos n;
  etag = stamp n;
}

abbrev stored : ℕ → Row
stored n = if ltb n 10 then some (version n) else none

abbrev busy : TaskStorage ℕ
busy = record {
  get_task = λ pk rk n. (ok (stored n), n);
  insert_task = λ e n. (some (lit "EntityAlreadyExists"), n);
  update_task = λ u etag n. (conflict, suc (length etag));
}

abbrev found : Result Str Row × ℕ → Row
found (ok row, n) = row
found (err e, n) = none

stored-eq_version : (n : ℕ) (ent : TaskEntity) → stored n ≡ some ent → (ent ≡ version n) × (n < 10)
stored-eq_version n ent =
    if_cases (λ (r : Row). r ≡ some ent → (ent ≡ version n) × (n < 10)) (ltb n 10) _ _
      (λ h e. (sym (some-injective (version n) ent e), ground arith)) λ h e. cc

busy-ConflictLaws : ConflictLaws busy
busy-ConflictLaws = record {
  version = λ etag. pos (length etag);
  read_version = λ pk rk n n1 ent e.
      let v = stored-eq_version n ent (ap found e) in
      subst (λ x. (pos (length x.etag) ≡ x.event_timestamp) × IsInt64 x.event_timestamp) (sym v.0)
        (ap pos (length-stamp n), omega (arith, v.1));
  conflict_newer = λ u etag n n1 n2 ent c e.
      let at : n1 ≡ suc (length etag) = sym (ap (λ (r : UpdateReply × ℕ). r.1) c) in
      let v = stored-eq_version n1 ent (ap found e) in
      subst (λ x. pos (length etag) <ℤ x.event_timestamp) (sym v.0) (omega (arith, at));
}

abbrev completed : Event
completed = task_event task_completed 6 none

apply-ne-running_example : (apply busy (suc (2 ^ 64)) completed 2).0 ≢ running
apply-ne-running_example =
    apply-ne-running busy busy-ConflictLaws (2 ^ 64) completed 2 (omega arith) (omega arith)

abbrev reopened : Event
reopened = task_event task_reopened 8 none

abbrev row_3 : Table
row_3 = put (version 3) empty_table

abbrev given_order : List Event
given_order = completed ∷ reopened ∷ []

abbrev other_order : List Event
other_order = reopened ∷ completed ∷ []

Toggles-perm_example :
    view table table-TableLaws
      (apply_all table table-TableLaws 0 given_order row_3)
      (lit "u1")
      (lit "t1")
    ≡ view table table-TableLaws
        (apply_all table table-TableLaws 0 other_order row_3)
        (lit "u1")
        (lit "t1")
Toggles-perm_example =
    Toggles-perm table table-TableLaws 0 (lit "u1") (lit "t1") given_order other_order row_3
      (
        record {
          sized = omega arith;
          user_id = refl;
          entity_id = refl;
          side = true;
          toggles = refl;
        },
        (
          record {
            sized = omega arith;
            user_id = refl;
            entity_id = refl;
            side = false;
            toggles = refl;
          },
          tt,
        ),
      )
      (
        (λ e. refl, (λ e. absurd (omega (arith, ap pos_part e)), tt)),
        ((λ e. absurd (omega (arith, ap pos_part e)), (λ e. refl, tt)), tt),
      )
      (Perm.swap reopened completed [])

apply_all-Older_example :
    (view table table-TableLaws
        (apply_all table table-TableLaws 0 other_order row_3)
        (lit "u1")
        (lit "t1")
      ≡ view table table-TableLaws row_3 (lit "u1") (lit "t1"))
    ⊎ Older (view table table-TableLaws row_3 (lit "u1") (lit "t1")) (
        view table table-TableLaws
          (apply_all table table-TableLaws 0 other_order row_3)
          (lit "u1")
          (lit "t1"))
apply_all-Older_example =
    apply_all-Older table table-TableLaws 0 other_order row_3 (lit "u1") (lit "t1")
      (omega arith, (omega arith, tt))
