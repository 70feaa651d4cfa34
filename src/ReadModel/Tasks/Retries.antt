-- ===== src/ReadModel/Tasks/Retries.antt =====
-- The retry loop ends.
use prism_plan.Shared.{
  ℕ, zero, suc, ◌+◌, ◌^◌, ◌≤◌, ◌≡◌, ◌≢◌, refl, subst, inl, inr, Option, none, some, Bool, true,
  false, Str, str_eq, Result, ok, err, ℤ, neg_part, pos_part, ◌<ℤ◌, leb_ℤ, IsInt64, arith,
  Bool-cases, if_cases,
}
use prism_plan.ReadModel.Events.{
  Event, TaskCreatedEventData, TaskUpdatedEventData, TaskEntity, TaskUpdate, decode_task_created,
  decode_task_updated, task_created, task_updated, task_completed, task_reopened,
}
use prism_plan.ReadModel.Tasks.{
  TaskStorage, UpdateReply, updated, conflict, refused, Outcome, running, update_loop, update_if,
  update_of, set_done, has_no_fields, apply_created, apply_updated, apply_done, apply, after_update,
  read_again,
}

-- What the storage promises of a conflict, in the words of domain/errors.go: a newer version is
-- stored. An etag names one version of a row, and so one timestamp.
pub record ConflictLaws {W : Type 0} (st : TaskStorage W) : Type 0 where
  pub version : Str → ℤ
  pub read_version :
      (pk rk : Str) (w w1 : W) (ent : TaskEntity)
      → st.get_task pk rk w ≡ (ok (some ent), w1)
      → (version ent.etag ≡ ent.event_timestamp) × IsInt64 ent.event_timestamp
  pub conflict_newer :
      (upd : TaskUpdate) (etag : Str) (w w1 w2 : W) (ent : TaskEntity)
      → st.update_task upd etag w ≡ (conflict, w1)
      → st.get_task upd.partition_key upd.row_key w1 ≡ (ok (some ent), w2)
      → version etag <ℤ ent.event_timestamp

module _ {W : Type 0} (st : TaskStorage W) (retry : TaskEntity → W → Outcome × W) (ev : Event) where
  read_again-ne-running :
      (r : Result Str (Option TaskEntity) × W)
      → ((ent : TaskEntity) (w : W) → r ≡ (ok (some ent), w) → (retry ent w).0 ≢ running)
      → (read_again st retry ev r).0 ≢ running
  read_again-ne-running (err e, w) h = λ q. cc
  read_again-ne-running (ok none, w) h = λ q. cc
  read_again-ne-running (ok (some ent), w) h = h ent w refl

  after_update-ne-running :
      (r : UpdateReply × W)
      → ((w : W)
          → r ≡ (conflict, w)
          → (read_again st retry ev (st.get_task ev.user_id ev.entity_id w)).0 ≢ running)
      → (after_update st retry ev r).0 ≢ running
  after_update-ne-running (updated, w) h = λ q. cc
  after_update-ne-running (refused e, w) h = λ q. cc
  after_update-ne-running (conflict, w) h = h w refl

module _ {W : Type 0} (st : TaskStorage W) (laws : ConflictLaws st) where
  -- The event is at most `fuel` ahead of the version that was read.
  abbrev Near : ℕ → Event → TaskEntity → Type 0
  Near fuel ev ent =
      pos_part ev.timestamp + neg_part ent.event_timestamp
      ≤ fuel + (pos_part ent.event_timestamp + neg_part ev.timestamp)

  -- The update is for the event's own row.
  abbrev ForEvent : Event → TaskUpdate → Type 0
  ForEvent ev upd = (upd.partition_key ≡ ev.user_id) × (upd.row_key ≡ ev.entity_id)

  newer_after_conflict :
      (ev : Event) (upd : TaskUpdate) (ent ent' : TaskEntity) (w w1 w2 : W)
      → ForEvent ev upd
      → laws.version ent.etag ≡ ent.event_timestamp
      → st.update_task upd ent.etag w ≡ (conflict, w1)
      → st.get_task ev.user_id ev.entity_id w1 ≡ (ok (some ent'), w2)
      → ent.event_timestamp <ℤ ent'.event_timestamp
  newer_after_conflict ev upd ent ent' w w1 w2 own ver c g =
      subst (λ v. v <ℤ ent'.event_timestamp) ver
        (laws.conflict_newer upd ent.etag w w1 w2 ent' c (rw (own.0, own.1) g))

  update_loop-ne-running :
      (fuel : ℕ) (ev : Event) (upd : TaskUpdate) (ent : TaskEntity) (w : W)
      → ForEvent ev upd
      → laws.version ent.etag ≡ ent.event_timestamp
      → Near fuel ev ent
      → (update_loop st (suc fuel) ev upd ent w).0 ≢ running
  unfolding update_loop
  update_loop-ne-running zero ev upd ent w own ver near = ground arith
  update_loop-ne-running (suc fuel) ev upd ent w own ver near =
      elim (Bool-cases (leb_ℤ ev.timestamp ent.event_timestamp)) [
        | inl late ↦ rw (late, update_loop) (λ q. cc)
        | inr fresh ↦
            rw (fresh, update_loop)
              (after_update-ne-running st (update_loop st (suc fuel) ev upd) ev
                (st.update_task upd ent.etag w)
                λ w1 c.
                  read_again-ne-running st (update_loop st (suc fuel) ev upd) ev
                    (st.get_task ev.user_id ev.entity_id w1)
                    λ ent' w2 g.
                      update_loop-ne-running fuel ev upd ent' w2 own
                        (laws.read_version ev.user_id ev.entity_id w1 w2 ent' g).0
                        (omega (arith, newer_after_conflict ev upd ent ent' w w1 w2 own ver c g)))
      ]

  Near-enough :
      (fuel : ℕ) (ev : Event) (ent : TaskEntity)
      → IsInt64 ev.timestamp
      → IsInt64 ent.event_timestamp
      → 2 ^ 64 ≤ fuel
      → Near fuel ev ent
  Near-enough fuel ev ent he hn enough = omega arith

  update_if-ne-running :
      (fuel : ℕ) (ev : Event) (upd : TaskUpdate) (w : W) (r : Result Str (Option TaskEntity) × W)
      → st.get_task ev.user_id ev.entity_id w ≡ r
      → ForEvent ev upd
      → IsInt64 ev.timestamp
      → 2 ^ 64 ≤ fuel
      → (update_if st (suc fuel) ev upd r).0 ≢ running
  update_if-ne-running fuel ev upd w (err e, w1) g own he enough = λ q. cc
  update_if-ne-running fuel ev upd w (ok none, w1) g own he enough = λ q. cc
  update_if-ne-running fuel ev upd w (ok (some ent), w1) g own he enough =
      let read = laws.read_version ev.user_id ev.entity_id w w1 ent g in
      if_cases (λ (x : Outcome × W). x.0 ≢ running) (has_no_fields upd) _ _ (λ _ q. cc)
        λ _.
          update_loop-ne-running fuel ev upd ent w1 own read.0
            (Near-enough fuel ev ent he read.1 enough)

  created-ne-running :
      (ev : Event) (d : Option TaskCreatedEventData) (w : W) → (apply_created st ev d w).0 ≢ running
  unfolding apply_created
  created-ne-running ev d w = ground arith

  updated-ne-running :
      (fuel : ℕ) (ev : Event) (d : Option TaskUpdatedEventData) (w : W)
      → IsInt64 ev.timestamp
      → 2 ^ 64 ≤ fuel
      → (apply_updated st (suc fuel) ev d w).0 ≢ running
  unfolding apply_updated
  updated-ne-running fuel ev none w he enough = λ q. cc
  updated-ne-running fuel ev (some d) w he enough =
      update_if-ne-running fuel ev (update_of ev d) w (st.get_task ev.user_id ev.entity_id w) refl
        (refl, refl) he enough

  done-ne-running :
      (fuel : ℕ) (ev : Event) (b : Bool) (w : W)
      → IsInt64 ev.timestamp
      → 2 ^ 64 ≤ fuel
      → (apply_done st (suc fuel) ev b w).0 ≢ running
  unfolding apply_done
  done-ne-running fuel ev b w he enough =
      update_if-ne-running fuel ev (set_done ev b) w (st.get_task ev.user_id ev.entity_id w) refl
        (refl, refl) he enough

  -- Every event with an int64 timestamp is answered, with success or an error: under the storage's
  -- promise that a conflict means a newer version, the retries come to an end, after fewer than
  -- 2^64 + 2 rounds of the loop.
  pub apply-ne-running :
      (fuel : ℕ) (ev : Event) (w : W)
      → IsInt64 ev.timestamp
      → 2 ^ 64 ≤ fuel
      → (apply st (suc fuel) ev w).0 ≢ running
  unfolding apply
  apply-ne-running fuel ev w he enough =
      if_cases P (str_eq ev.type task_created) _ _
        (λ _. created-ne-running ev (decode_task_created ev.payload) w)
        λ _.
          if_cases P (str_eq ev.type task_updated) _ _
            (λ _. updated-ne-running fuel ev (decode_task_updated ev.payload) w he enough)
            λ _.
              if_cases P (str_eq ev.type task_completed) _ _
                (λ _. done-ne-running fuel ev true w he enough)
                λ _.
                  if_cases P (str_eq ev.type task_reopened) _ _
                    (λ _. done-ne-running fuel ev false w he enough) (λ _ q. cc)
    where
      P : Outcome × W → Type 0
      P r = r.0 ≢ running
