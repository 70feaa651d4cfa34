-- ===== src/ReadModel/Tasks/Refinement.antt =====
-- `TaskService.Apply` over a task table does to it what the specification does to one row.
use prism_plan.Shared.{
  ℕ, suc, ◌≡◌, refl, sym, subst, inl, inr, [], Option, none, some, Bool, true, false, ◌&&◌, Str,
  str_eq, str_eq_iff, ok, ℤ, leb_ℤ, IsInt64, arith, Bool-cases, if_cases_both, if◌then◌else◌,
}
use prism_plan.ReadModel.Events.{
  Event, TaskCreatedEventData, TaskUpdatedEventData, TaskEntity, TaskUpdate, decode_task_created,
  decode_task_updated, task_created, task_updated, task_completed, task_reopened,
}
use prism_plan.ReadModel.Tasks.{
  TaskStorage, TaskError, UpdateReply, updated, conflict, refused, Outcome, done, failed,
  update_loop, create_unless, inserted, update_if, update_of, set_done, new_task, has_no_fields,
  apply_created, apply_updated, apply_done, apply, after_update, stale, not_found, no_fields,
  already_exists, bad_data, unknown_event,
}
use prism_plan.ReadModel.Tasks.Project.{Row, merge, create, amend, amend_with, project}

-- A row without its etag, which the table makes.
abbrev pub forget : Row → Row
forget none = none
forget (some e) = some (record e { etag = [] })

abbrev pub same_keys : Str → Str → Str → Str → Bool
same_keys pk rk pk' rk' = str_eq pk pk' && str_eq rk rk'

-- A table that nobody else writes to, and whose requests succeed: a read gives the row; an insert of
-- an absent row adds it; and a merge under the row's own etag changes the row, and no other.
pub record TableLaws {W : Type 0} (st : TaskStorage W) : Type 0 where
  pub row : W → Str → Str → Row
  pub get_reads : (pk rk : Str) (w : W) → st.get_task pk rk w ≡ (ok (row w pk rk), w)
  pub insert_succeeds :
      (e : TaskEntity) (w : W)
      → row w e.partition_key e.row_key ≡ none
      → (st.insert_task e w).0 ≡ none
  pub insert_adds :
      (e : TaskEntity) (w : W) (pk rk : Str)
      → IsInt64 e.event_timestamp
      → row w e.partition_key e.row_key ≡ none
      → forget (row (st.insert_task e w).1 pk rk) ≡ (
          if same_keys e.partition_key e.row_key pk rk
          then forget (some e)
          else forget (row w pk rk))
  pub update_succeeds :
      (u : TaskUpdate) (e : TaskEntity) (w : W)
      → row w u.partition_key u.row_key ≡ some e
      → (st.update_task u e.etag w).0 ≡ updated
  pub update_merges :
      (u : TaskUpdate) (e : TaskEntity) (w : W) (t : ℤ) (pk rk : Str)
      → u.event_timestamp ≡ some t
      → IsInt64 t
      → row w u.partition_key u.row_key ≡ some e
      → forget (row (st.update_task u e.etag w).1 pk rk) ≡ (
          if same_keys u.partition_key u.row_key pk rk
          then forget (some (merge e u))
          else forget (row w pk rk))

module _ {W : Type 0} (st : TaskStorage W) (laws : TableLaws st) where
  abbrev pub view : W → Str → Str → Row
  view w pk rk = forget (laws.row w pk rk)

  -- The result `r` of a call at `w` answers as `spec` does, and changes the row of `ev` as it does.
  pub record Refines (ev : Event) (w : W) (r : Outcome × W) (spec : Outcome × Row) : Type 0 where
    pub answer : r.0 ≡ spec.0
    pub rows :
        (pk rk : Str)
        → view r.1 pk rk
          ≡ (if same_keys ev.user_id ev.entity_id pk rk then forget spec.1 else view w pk rk)

  unchanged :
      (ev : Event) (w : W) (x : TaskError) (row : Row)
      → laws.row w ev.user_id ev.entity_id ≡ row
      → Refines ev w (failed x, w) (failed x, row)
  unchanged ev w x row e = record {
    answer = refl;
    rows = λ pk rk. ground (arith, e, str_eq_iff ev.user_id pk, str_eq_iff ev.entity_id rk);
  }

  inserted-eq_done : (r : Option Str × W) → r.0 ≡ none → inserted st r ≡ (done, r.1)
  inserted-eq_done (none, w) e = refl
  inserted-eq_done (some x, w) e = cc

  after_update-eq_done :
      (retry : TaskEntity → W → Outcome × W) (ev : Event) (r : UpdateReply × W)
      → r.0 ≡ updated
      → after_update st retry ev r ≡ (done, r.1)
  after_update-eq_done retry ev (updated, w) e = refl
  after_update-eq_done retry ev (conflict, w) e = cc
  after_update-eq_done retry ev (refused x, w) e = cc

  created-Refines :
      (ev : Event) (d : TaskCreatedEventData) (w : W) (row : Row)
      → IsInt64 ev.timestamp
      → laws.row w ev.user_id ev.entity_id ≡ row
      → Refines ev w (create_unless st ev d (ok row, w)) (create ev (some d) row)
  unfolding create
  created-Refines ev d w (some old) sized e =
      unchanged ev w (already_exists ev.entity_id) (some old) e
  created-Refines ev d w none sized e =
      subst (λ r. Refines ev w r (done, some (new_task ev d)))
        (sym (inserted-eq_done _ (laws.insert_succeeds (new_task ev d) w e)))
        (record { answer = refl; rows = λ pk rk. laws.insert_adds (new_task ev d) w pk rk sized e })

  merged-Refines :
      (retry : TaskEntity → W → Outcome × W) (ev : Event) (u : TaskUpdate) (w : W)
      (old : TaskEntity)
      → u.partition_key ≡ ev.user_id
      → u.row_key ≡ ev.entity_id
      → u.event_timestamp ≡ some ev.timestamp
      → IsInt64 ev.timestamp
      → laws.row w ev.user_id ev.entity_id ≡ some old
      → Refines ev w
          (after_update st retry ev (st.update_task u old.etag w))
          (done, some (merge old u))
  merged-Refines retry ev u w old ep er et sized e =
      let here : laws.row w u.partition_key u.row_key ≡ some old = rw (ep, er) e in
      subst (λ r. Refines ev w r (done, some (merge old u)))
        (sym (after_update-eq_done retry ev _ (laws.update_succeeds u old w here)))
        (record {
          answer = refl;
          rows = λ pk rk.
              rw (← ep, ← er) (laws.update_merges u old w ev.timestamp pk rk et sized here);
        })

  amended-Refines :
      (fuel : ℕ) (ev : Event) (u : TaskUpdate) (w : W) (row : Row)
      → u.partition_key ≡ ev.user_id
      → u.row_key ≡ ev.entity_id
      → u.event_timestamp ≡ some ev.timestamp
      → IsInt64 ev.timestamp
      → laws.row w ev.user_id ev.entity_id ≡ row
      → Refines ev w (update_if st (suc fuel) ev u (ok row, w)) (amend ev u row)
  unfolding amend update_loop
  amended-Refines fuel ev u w none ep er et sized e = unchanged ev w (not_found ev.entity_id) none e
  amended-Refines fuel ev u w (some old) ep er et sized e = elim (Bool-cases (has_no_fields u)) [
    | inl h ↦ rw h (unchanged ev w (no_fields ev.entity_id) (some old) e)
    | inr h ↦ rw h (elim (Bool-cases (leb_ℤ ev.timestamp old.event_timestamp)) [
      | inl late ↦ rw (late, update_loop) (unchanged ev w (stale ev.entity_id) (some old) e)
      | inr fresh ↦
          rw (fresh, update_loop)
            (merged-Refines (update_loop st fuel ev u) ev u w old ep er et sized e)
    ])
  ]

  updated-Refines :
      (fuel : ℕ) (ev : Event) (d : Option TaskUpdatedEventData) (w : W)
      → IsInt64 ev.timestamp
      → Refines ev w
          (apply_updated st (suc fuel) ev d w)
          (amend_with ev d (laws.row w ev.user_id ev.entity_id))
  unfolding apply_updated amend_with
  updated-Refines fuel ev none w sized = unchanged ev w bad_data _ refl
  updated-Refines fuel ev (some d) w sized =
      rw (laws.get_reads ev.user_id ev.entity_id w)
        (amended-Refines fuel ev (update_of ev d) w _ refl refl refl sized refl)

  done-Refines :
      (fuel : ℕ) (ev : Event) (b : Bool) (w : W)
      → IsInt64 ev.timestamp
      → Refines ev w
          (apply_done st (suc fuel) ev b w)
          (amend ev (set_done ev b) (laws.row w ev.user_id ev.entity_id))
  unfolding apply_done
  done-Refines fuel ev b w sized =
      rw (laws.get_reads ev.user_id ev.entity_id w)
        (amended-Refines fuel ev (set_done ev b) w _ refl refl refl sized refl)

  new-Refines :
      (ev : Event) (d : Option TaskCreatedEventData) (w : W)
      → IsInt64 ev.timestamp
      → Refines ev w (apply_created st ev d w) (create ev d (laws.row w ev.user_id ev.entity_id))
  unfolding apply_created
  new-Refines ev none w sized = unfold create in unchanged ev w bad_data _ refl
  new-Refines ev (some d) w sized =
      rw (laws.get_reads ev.user_id ev.entity_id w) (created-Refines ev d w _ sized refl)

  -- On every event whose timestamp is an int64, `TaskService.Apply` gives the specification's answer, and changes the event's row
  -- as the specification does and no other row, where the table has no other writer and no request
  -- fails. One round of the loop is enough.
  pub apply-Refines :
      (fuel : ℕ) (ev : Event) (w : W)
      → IsInt64 ev.timestamp
      → Refines ev w (apply st (suc fuel) ev w) (project ev (laws.row w ev.user_id ev.entity_id))
  unfolding apply project
  apply-Refines fuel ev w sized =
      if_cases_both P (str_eq ev.type task_created) _ _ _ _
        (new-Refines ev (decode_task_created ev.payload) w sized)
        (if_cases_both P (str_eq ev.type task_updated) _ _ _ _
          (updated-Refines fuel ev (decode_task_updated ev.payload) w sized)
          (if_cases_both P (str_eq ev.type task_completed) _ _ _ _
            (done-Refines fuel ev true w sized)
            (if_cases_both P (str_eq ev.type task_reopened) _ _ _ _
              (done-Refines fuel ev false w sized)
              (unchanged ev w (unknown_event ev.type) _ refl))))
    where
      P : Outcome × W → Outcome × Row → Type 0
      P = Refines ev w
