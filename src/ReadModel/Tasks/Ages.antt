-- ===== src/ReadModel/Tasks/Ages.antt =====
-- The rows of the tasks over any sequence of events.
use prism_plan.Shared.{
  ℕ, suc, ◌≡◌, refl, sym, ap, ◌∙◌, subst, ◌⊎◌, inl, inr, List, [], ◌∷◌, none, some, Bool, true,
  false, Str, str_eq_iff, neg_part, pos_part, ◌<ℤ◌, IsInt64, arith, if◌then◌else◌, All,
}
use prism_plan.ReadModel.Events.{Event}
use prism_plan.ReadModel.Tasks.{TaskStorage, Outcome, done, failed, running, apply}
use prism_plan.ReadModel.Tasks.Project.{Row, project, Sensible, project-Sensible}
use prism_plan.ReadModel.Tasks.Refinement.{forget, same_keys, TableLaws, view, apply-Refines}
use prism_plan.ReadModel.Tasks.Orders.{apply_all}

-- The second row is there, and newer than the first where that is there too.
abbrev pub Older : Row → Row → Type 0
Older row none = ⊥
Older none (some e) = Unit {0}
Older (some old) (some e) = old.event_timestamp <ℤ e.event_timestamp

abbrev SameOrOlder : Row → Row → Type 0
SameOrOlder row row' = (row' ≡ row) ⊎ Older row row'

Older-trans : (a b c : Row) → Older a b → Older b c → Older a c
Older-trans a b none h k = k
Older-trans none b (some z) h k = tt
Older-trans (some x) none (some z) h k = elim h [ ]
Older-trans (some x) (some y) (some z) h k = omega (arith, h, k)

SameOrOlder-trans : (a b c : Row) → SameOrOlder a b → SameOrOlder b c → SameOrOlder a c
SameOrOlder-trans a b c (inl e) (inl e') = inl (e' ∙ e)
SameOrOlder-trans a b c (inl e) (inr k) = inr (subst (λ r. Older r c) e k)
SameOrOlder-trans a b c (inr h) (inl e') = inr (subst (λ r. Older a r) (sym e') h)
SameOrOlder-trans a b c (inr h) (inr k) = inr (Older-trans a b c h k)

Sensible-SameOrOlder :
    (ev : Event) (row : Row) (r : Outcome × Row)
    → Sensible ev row r
    → SameOrOlder (forget row) (forget r.1)
Sensible-SameOrOlder ev row (done, none) s = elim s [ ]
Sensible-SameOrOlder ev none (done, some x) s = inr tt
Sensible-SameOrOlder ev (some e) (done, some x) s =
    inr (omega (arith, s.1 e refl, ap pos_part s.0, ap neg_part s.0))
Sensible-SameOrOlder ev row (failed x, row') s = inl (ap forget s)
Sensible-SameOrOlder ev row (running, row') s = elim s [ ]

module _ {W : Type 0} (st : TaskStorage W) (laws : TableLaws st) (fuel : ℕ) where
  row-SameOrOlder :
      (ev : Event) (w : W) (pk rk : Str) (b : Bool)
      → same_keys ev.user_id ev.entity_id pk rk ≡ b
      → SameOrOlder (view st laws w pk rk) (
          if b
          then forget (project ev (laws.row w ev.user_id ev.entity_id)).1
          else view st laws w pk rk)
  row-SameOrOlder ev w pk rk false e = inl refl
  row-SameOrOlder ev w pk rk true e =
      let own : view st laws w ev.user_id ev.entity_id ≡ view st laws w pk rk =
        ground (arith, str_eq_iff ev.user_id pk, str_eq_iff ev.entity_id rk) in
      subst (λ r. SameOrOlder r (forget (project ev (laws.row w ev.user_id ev.entity_id)).1)) own
        (Sensible-SameOrOlder ev (laws.row w ev.user_id ev.entity_id) _ (project-Sensible ev _))

  apply-SameOrOlder :
      (ev : Event) (w : W) (pk rk : Str)
      → IsInt64 ev.timestamp
      → SameOrOlder (view st laws w pk rk) (view st laws (apply st (suc fuel) ev w).1 pk rk)
  apply-SameOrOlder ev w pk rk sized =
      subst (λ r. SameOrOlder (view st laws w pk rk) r)
        (sym ((apply-Refines st laws fuel ev w sized).rows pk rk))
        (row-SameOrOlder ev w pk rk _ refl)

  -- Whatever events arrive, in whatever order and however often, no row is ever removed or put back: a
  -- stored row ends as it was, or with a later timestamp than it had. Timestamps are int64, the table
  -- has no other writer and no request fails.
  pub apply_all-Older :
      (evs : List Event) (w : W) (pk rk : Str)
      → All (λ ev. IsInt64 ev.timestamp) evs
      → (view st laws (apply_all st laws fuel evs w) pk rk ≡ view st laws w pk rk)
        ⊎ Older (view st laws w pk rk) (view st laws (apply_all st laws fuel evs w) pk rk)
  apply_all-Older [] w pk rk all = inl refl
  apply_all-Older (ev ∷ evs) w pk rk all =
      SameOrOlder-trans (view st laws w pk rk) _ _ (apply-SameOrOlder ev w pk rk all.0)
        (apply_all-Older evs (apply st (suc fuel) ev w).1 pk rk all.1)
