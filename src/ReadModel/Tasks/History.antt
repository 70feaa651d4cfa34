-- ===== src/ReadModel/Tasks/History.antt =====
-- What a sequence of task events does: replays and events out of order.
use prism_plan.Shared.{
  Bool-cases, leb_ℤ, inl, inr, ℕ, suc, ◌≡◌, ◌≢◌, refl, sym, ap, ◌∙◌, subst, none, some, Bool, true,
  false, Str, str_eq, str_eq_refl, str_eq_iff, ℤ, IsInt64, neg_part, pos_part, ◌<ℤ◌, arith,
}
use mathlib.Core.Path.{fun_ext, ap₂}
use prism_plan.ReadModel.Events.{Event, task_completed, task_reopened}
use prism_plan.ReadModel.Tasks.{TaskStorage, Outcome, done, failed, running, set_done, apply}
use prism_plan.ReadModel.Tasks.Project.{Row, merge, amend, project, Sensible, project-Sensible}
use prism_plan.ReadModel.Tasks.Refinement.{forget, TableLaws, view, Refines, apply-Refines}

-- The row has the timestamp `t`.
abbrev HasTime : ℤ → Row → Type 0
HasTime t none = ⊥
HasTime t (some e) = e.event_timestamp ≡ t

done-HasTime :
    (ev : Event) (row : Row) (r : Outcome × Row)
    → Sensible ev row r
    → r.0 ≡ done
    → HasTime ev.timestamp (forget r.1)
done-HasTime ev row (done, none) s e = elim s [ ]
done-HasTime ev row (done, some x) s e = s.0
done-HasTime ev row (failed x, row') s e = cc
done-HasTime ev row (running, row') s e = elim s [ ]

-- An event does not move a row that has its timestamp already.
HasTime-rejects :
    (ev : Event) (row : Row) (r : Outcome × Row)
    → Sensible ev row r
    → HasTime ev.timestamp (forget row)
    → (r.0 ≢ done) × (r.1 ≡ row)
HasTime-rejects ev none r s h = elim h [ ]
HasTime-rejects ev (some e) (done, none) s h = elim s [ ]
HasTime-rejects ev (some e) (done, some x) s h =
    absurd (omega (arith, s.1 e refl, ap pos_part h, ap neg_part h))
HasTime-rejects ev (some e) (failed x, row') s h = (λ q. cc, s)
HasTime-rejects ev (some e) (running, row') s h = elim s [ ]

module _ {W : Type 0} (st : TaskStorage W) (laws : TableLaws st) (fuel : ℕ) (ev : Event) (w : W)
    (sized : IsInt64 ev.timestamp) where
  abbrev once : Outcome × W
  once = apply st (suc fuel) ev w

  abbrev twice : Outcome × W
  twice = apply st (suc fuel) ev once.1

  first_call : Refines st laws ev w once (project ev (laws.row w ev.user_id ev.entity_id))
  first_call = apply-Refines st laws fuel ev w sized

  second_call :
      Refines st laws ev once.1 twice (project ev (laws.row once.1 ev.user_id ev.entity_id))
  second_call = apply-Refines st laws fuel ev once.1 sized

  own_row :
      view st laws once.1 ev.user_id ev.entity_id
      ≡ forget (project ev (laws.row w ev.user_id ev.entity_id)).1
  own_row =
      first_call.rows ev.user_id ev.entity_id
      ∙ rw (str_eq_refl ev.user_id, str_eq_refl ev.entity_id)

  here_after : once.0 ≡ done → HasTime ev.timestamp (view st laws once.1 ev.user_id ev.entity_id)
  here_after e = subst (HasTime ev.timestamp) (sym own_row) (
      done-HasTime ev (laws.row w ev.user_id ev.entity_id) _ (project-Sensible ev _)
        (sym first_call.answer ∙ e))

  rejected :
      once.0 ≡ done
      → ((project ev (laws.row once.1 ev.user_id ev.entity_id)).0 ≢ done)
        × ((project ev (laws.row once.1 ev.user_id ev.entity_id)).1
            ≡ laws.row once.1 ev.user_id ev.entity_id)
  rejected e =
      HasTime-rejects ev (laws.row once.1 ev.user_id ev.entity_id) _ (project-Sensible ev _)
        (here_after e)

  -- An event, with an int64 timestamp, that was accepted is refused when it comes again, and changes no row of the table.
  pub apply_replay :
      once.0 ≡ done
      → (twice.0 ≢ done) × ((pk rk : Str) → view st laws twice.1 pk rk ≡ view st laws once.1 pk rk)
  apply_replay e = (
    λ q. (rejected e).0 (sym second_call.answer ∙ q),
    λ pk rk.
        second_call.rows pk rk
        ∙ rw (rejected e).1 (ground (arith, str_eq_iff ev.user_id pk, str_eq_iff ev.entity_id rk)),
  )

-- The row after two events, in the order given.
abbrev pub after_two : Event → Event → Row → Row
after_two e1 e2 row = (project e2 (project e1 row).1).1

-- `ev` completes or reopens a task.
abbrev pub Toggles : Bool → Event → Type 0
Toggles true ev = ev.type ≡ task_completed
Toggles false ev = ev.type ≡ task_reopened

pub project-eq_amend :
    (b : Bool) (ev : Event) (row : Row)
    → Toggles b ev
    → project ev row ≡ amend ev (set_done ev b) row
unfolding project str_eq
project-eq_amend true ev row h = rw h
project-eq_amend false ev row h = rw h

pub amend_commute :
    (b c : Bool) (old new : Event) (row : Row)
    → old.timestamp <ℤ new.timestamp
    → (amend old (set_done old b) (amend new (set_done new c) row).1).1
      ≡ (amend new (set_done new c) (amend old (set_done old b) row).1).1
unfolding amend merge
amend_commute b c old new none lt = refl
amend_commute b c old new (some e) lt = ground arith

amend-forget :
    (ev : Event) (b : Bool) (row : Row)
    → forget (amend ev (set_done ev b) row).1 ≡ forget (amend ev (set_done ev b) (forget row)).1
unfolding amend merge
amend-forget ev b none = refl
amend-forget ev b (some e) = elim (Bool-cases (leb_ℤ ev.timestamp e.event_timestamp)) [
  | inl h ↦ rw h refl
  | inr h ↦ rw h refl
]

pub project-forget :
    (b : Bool) (ev : Event) (row : Row)
    → Toggles b ev
    → forget (project ev row).1 ≡ forget (project ev (forget row)).1
project-forget b ev row h =
    rw (project-eq_amend b ev row h, project-eq_amend b ev (forget row) h) (amend-forget ev b row)

pub project-commute :
    (b c : Bool) (old new : Event) (row : Row)
    → Toggles b old
    → Toggles c new
    → old.timestamp <ℤ new.timestamp
    → after_two new old row ≡ after_two old new row
project-commute b c old new row hb hc lt =
    let eb : project old ≡ amend old (set_done old b) =
      fun_ext (λ r. project-eq_amend b old r hb) in
    let ec : project new ≡ amend new (set_done new c) =
      fun_ext (λ r. project-eq_amend c new r hc) in
    ap₂ (λ (f g : Row → Outcome × Row). (f (g row).1).1) eb ec
    ∙ amend_commute b c old new row lt
    ∙ sym (ap₂ (λ (f g : Row → Outcome × Row). (g (f row).1).1) eb ec)

module _ {W : Type 0} (st : TaskStorage W) (laws : TableLaws st) (fuel : ℕ) where
  abbrev pub both_applied : Event → Event → W → W
  both_applied e1 e2 w = (apply st (suc fuel) e2 (apply st (suc fuel) e1 w).1).1

  -- The event is for the row under the two keys.
  abbrev pub Names : Event → Str → Str → Type 0
  Names ev pk rk = (ev.user_id ≡ pk) × (ev.entity_id ≡ rk)

  pub own-after :
      (ev : Event) (pk rk : Str) (w : W)
      → IsInt64 ev.timestamp
      → Names ev pk rk
      → view st laws (apply st (suc fuel) ev w).1 pk rk ≡ forget (project ev (laws.row w pk rk)).1
  own-after ev pk rk w sized n =
      subst
        (λ p.
          view st laws (apply st (suc fuel) ev w).1 p rk ≡ forget (project ev (laws.row w p rk)).1)
        n.0
        (subst
          (λ r.
            view st laws (apply st (suc fuel) ev w).1 ev.user_id r
            ≡ forget (project ev (laws.row w ev.user_id r)).1)
          n.1
          ((apply-Refines st laws fuel ev w sized).rows ev.user_id ev.entity_id
            ∙ rw (str_eq_refl ev.user_id, str_eq_refl ev.entity_id) refl))

  own-after_two :
      (c : Bool) (e1 e2 : Event) (pk rk : Str) (w : W)
      → IsInt64 e1.timestamp
      → IsInt64 e2.timestamp
      → Toggles c e2
      → Names e1 pk rk
      → Names e2 pk rk
      → view st laws (both_applied e1 e2 w) pk rk ≡ forget (after_two e1 e2 (laws.row w pk rk))
  own-after_two c e1 e2 pk rk w i1 i2 h n1 n2 =
      own-after e2 pk rk (apply st (suc fuel) e1 w).1 i2 n2
      ∙ project-forget c e2 _ h
      ∙ ap (λ r. forget (project e2 r).1) (own-after e1 pk rk w i1 n1)
      ∙ sym (project-forget c e2 (project e1 (laws.row w pk rk)).1 h)

  -- Completing and reopening a task commute: whichever of two such events of a task, with int64
  -- timestamps of which one is earlier, is delivered first, the stored row ends the same, where the table has no other writer and no request fails.
  pub Toggles-commute :
      (b c : Bool) (old new : Event) (pk rk : Str) (w : W)
      → IsInt64 old.timestamp
      → IsInt64 new.timestamp
      → Toggles b old
      → Toggles c new
      → Names old pk rk
      → Names new pk rk
      → old.timestamp <ℤ new.timestamp
      → view st laws (both_applied old new w) pk rk ≡ view st laws (both_applied new old w) pk rk
  Toggles-commute b c old new pk rk w i1 i2 hb hc n1 n2 lt =
      own-after_two c old new pk rk w i1 i2 hc n1 n2
      ∙ ap forget (sym (project-commute b c old new (laws.row w pk rk) hb hc lt))
      ∙ sym (own-after_two b new old pk rk w i2 i1 hb n2 n1)
