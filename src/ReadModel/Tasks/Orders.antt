-- ===== src/ReadModel/Tasks/Orders.antt =====
-- Task events that complete or reopen a task, in whatever order they are delivered.
use prism_plan.Shared.{
  ℕ, suc, ◌≡◌, refl, sym, ap, ◌∙◌, subst, ◌⊎◌, inl, inr, List, [], ◌∷◌, none, some, Bool, true,
  false, Str, ℤ, neg_part, pos_part, ◌<ℤ◌, IsInt64, arith, All,
}
use mathlib.Core.List.{Perm, Permᴰ}
use mathlib.Core.Logic.{∥∥₁_elim}
use prism_plan.ReadModel.Events.{Event, TaskEntity}
use prism_plan.ReadModel.Tasks.{TaskStorage, Outcome, set_done, apply}
use prism_plan.ReadModel.Tasks.Project.{Row, merge, amend, project}
use prism_plan.ReadModel.Tasks.Refinement.{forget, TableLaws, view}
use mathlib.Core.Path.{fun_ext, ap₂}
use prism_plan.ReadModel.Tasks.History.{
  own-after, Toggles, after_two, project-eq_amend, project-forget, project-commute,
}

TaskEntity-IsSet : IsSet TaskEntity
TaskEntity-IsSet = hlevel

Row-IsSet : IsSet Row
Row-IsSet = hlevel

-- The row after the events, in their order.
unfoldable pub settle : List Event → Row → Row
settle [] row = row
settle (ev ∷ evs) row = settle evs (project ev row).1

amend_twice :
    (b : Bool) (x y : Event) (row : Row)
    → x.timestamp ≡ y.timestamp
    → (amend x (set_done x b) (amend y (set_done y b) row).1).1
      ≡ (amend y (set_done y b) (amend x (set_done x b) row).1).1
unfolding amend merge
amend_twice b x y none same = refl
amend_twice b x y (some e) same = ground (arith, ap pos_part same, ap neg_part same)

-- An event that completes or reopens the task under the two keys.
pub record IsToggle (pk rk : Str) (ev : Event) : Type 0 where
  pub sized : IsInt64 ev.timestamp
  pub user_id : ev.user_id ≡ pk
  pub entity_id : ev.entity_id ≡ rk
  pub side : Bool
  pub toggles : Toggles side ev

-- Two events that do not ask for opposite things at the same time.
abbrev pub Agree : Event → Event → Type 0
Agree x y = x.timestamp ≡ y.timestamp → x.type ≡ y.type

ℤ-order : (m n : ℤ) → (m <ℤ n) ⊎ ((n <ℤ m) ⊎ (m ≡ n))
ℤ-order m n = ground arith

Toggles-same : (b : Bool) (x y : Event) → x.type ≡ y.type → Toggles b x → Toggles b y
Toggles-same true x y e h = sym e ∙ h
Toggles-same false x y e h = sym e ∙ h

project-twice :
    (b : Bool) (x y : Event) (row : Row)
    → Toggles b x
    → Toggles b y
    → x.timestamp ≡ y.timestamp
    → after_two y x row ≡ after_two x y row
project-twice b x y row hx hy same =
    let ex : project x ≡ amend x (set_done x b) = fun_ext (λ r. project-eq_amend b x r hx) in
    let ey : project y ≡ amend y (set_done y b) = fun_ext (λ r. project-eq_amend b y r hy) in
    ap₂ (λ (f g : Row → Outcome × Row). (f (g row).1).1) ex ey
    ∙ amend_twice b x y row same
    ∙ sym (ap₂ (λ (f g : Row → Outcome × Row). (g (f row).1).1) ex ey)

-- Two events of a task that agree may change places.
swap_two :
    (pk rk : Str) (x y : Event) (row : Row)
    → IsToggle pk rk x
    → IsToggle pk rk y
    → Agree x y
    → after_two x y row ≡ after_two y x row
swap_two pk rk x y row tx ty agree = elim (ℤ-order x.timestamp y.timestamp) [
  | inl lt ↦ sym (project-commute tx.side ty.side x y row tx.toggles ty.toggles lt)
  | inr (inl gt) ↦ project-commute ty.side tx.side y x row ty.toggles tx.toggles gt
  | inr (inr same) ↦ sym (
      project-twice tx.side x y row tx.toggles (Toggles-same tx.side x y (agree same) tx.toggles)
        same)
]

abbrev AllAgree : List Event → Type 0
AllAgree evs = All (λ x. All (Agree x) evs) evs

All-Permᴰ {ℓ κ} : {A : Type ℓ} (P : A → Type κ) (xs ys : List A) → Permᴰ xs ys → All P xs → All P ys
All-Permᴰ P [] [] Permᴰ.nil all = all
All-Permᴰ P (a ∷ l) (b ∷ l') (Permᴰ.cons e p) all = (subst P e all.0, All-Permᴰ P l l' p all.1)
All-Permᴰ P (a ∷ b ∷ l) (a' ∷ b' ∷ _) (Permᴰ.swap e e') all =
    (subst P e' all.1.0, (subst P e all.0, all.1.1))
All-Permᴰ P xs ys (Permᴰ.trans {l₂} p q) all = All-Permᴰ P l₂ ys q (All-Permᴰ P xs l₂ p all)

All-implies {ℓ κ} :
    {A : Type ℓ} (P Q : A → Type κ) (xs : List A) → ((a : A) → P a → Q a) → All P xs → All Q xs
All-implies P Q [] h all = tt
All-implies P Q (x ∷ xs) h all = (h x all.0, All-implies P Q xs h all.1)

AllAgree-tail : (a : Event) (l : List Event) → AllAgree (a ∷ l) → AllAgree l
AllAgree-tail a l all =
    All-implies (λ x. All (Agree x) (a ∷ l)) (λ x. All (Agree x) l) l (λ x h. h.1) all.1

AllAgree-Permᴰ : (xs ys : List Event) → Permᴰ xs ys → AllAgree xs → AllAgree ys
AllAgree-Permᴰ xs ys p all =
    All-Permᴰ (λ x. All (Agree x) ys) xs ys p
      (All-implies (λ x. All (Agree x) xs) (λ x. All (Agree x) ys) xs
        (λ x h. All-Permᴰ (Agree x) xs ys p h) all)

settle-Permᴰ :
    (pk rk : Str) (evs evs' : List Event) (row : Row)
    → All (IsToggle pk rk) evs
    → AllAgree evs
    → Permᴰ evs evs'
    → settle evs row ≡ settle evs' row
unfolding settle
settle-Permᴰ pk rk [] [] row all agree Permᴰ.nil = refl
settle-Permᴰ pk rk (a ∷ l) (b ∷ l') row all agree (Permᴰ.cons e p) =
    settle-Permᴰ pk rk l l' (project a row).1 all.1 (AllAgree-tail a l agree) p
    ∙ ap (λ ev. settle l' (project ev row).1) e
settle-Permᴰ pk rk (a ∷ b ∷ l) (a' ∷ b' ∷ _) row all agree (Permᴰ.swap e e') =
    ap (settle l) (swap_two pk rk a b row all.0 all.1.0 agree.0.1.0)
    ∙ ap₂ (λ (x y : Event). settle l (after_two x y row)) e' e
settle-Permᴰ pk rk evs evs' row all agree (Permᴰ.trans {l₂} p q) =
    settle-Permᴰ pk rk evs l₂ row all agree p
    ∙ settle-Permᴰ pk rk l₂ evs' row (All-Permᴰ (IsToggle pk rk) evs l₂ p all)
        (AllAgree-Permᴰ evs l₂ p agree) q

settle-forget :
    (pk rk : Str) (evs : List Event) (r r' : Row)
    → All (IsToggle pk rk) evs
    → forget r ≡ forget r'
    → forget (settle evs r) ≡ forget (settle evs r')
unfolding settle
settle-forget pk rk [] r r' all e = e
settle-forget pk rk (ev ∷ evs) r r' all e =
    let t = all.0 in
    settle-forget pk rk evs (project ev r).1 (project ev r').1 all.1 (
      project-forget t.side ev r t.toggles
      ∙ ap (λ x. forget (project ev x).1) e
      ∙ sym (project-forget t.side ev r' t.toggles))

module _ {W : Type 0} (st : TaskStorage W) (laws : TableLaws st) (fuel : ℕ) where
  -- The table after the events, in their order.
  abbrev pub apply_all : List Event → W → W
  apply_all [] w = w
  apply_all (ev ∷ evs) w = apply_all evs (apply st (suc fuel) ev w).1

  apply_all-settle :
      (pk rk : Str) (evs : List Event) (w : W)
      → All (IsToggle pk rk) evs
      → view st laws (apply_all evs w) pk rk ≡ forget (settle evs (laws.row w pk rk))
  unfolding settle
  apply_all-settle pk rk [] w all = refl
  apply_all-settle pk rk (ev ∷ evs) w all =
      let t = all.0 in
      apply_all-settle pk rk evs (apply st (suc fuel) ev w).1 all.1
      ∙ settle-forget pk rk evs _ _ all.1
          (own-after st laws fuel ev pk rk w t.sized (t.user_id, t.entity_id))

  -- Completing and reopening a task may come in any order, and more than once: where no two of the
  -- events ask for opposite things at one timestamp, the stored row ends the same for every order of
  -- delivery. Timestamps are int64, the table has no other writer and no request fails.
  pub Toggles-perm :
      (pk rk : Str) (evs evs' : List Event) (w : W)
      → All (IsToggle pk rk) evs
      → All (λ x. All (Agree x) evs) evs
      → Perm evs evs'
      → view st laws (apply_all evs w) pk rk ≡ view st laws (apply_all evs' w) pk rk
  Toggles-perm pk rk evs evs' w all agree p = ∥∥₁_elim p (Row-IsSet _ _) (λ d.
      apply_all-settle pk rk evs w all
      ∙ ap forget (settle-Permᴰ pk rk evs evs' (laws.row w pk rk) all agree d)
      ∙ sym (apply_all-settle pk rk evs' w (All-Permᴰ (IsToggle pk rk) evs evs' d all)))
