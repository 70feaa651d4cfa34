-- ===== src/Stream/Messages/Agreement.antt =====
-- The messages of the stream agree with the rows of the read model.
use prism_plan.Shared.{◌≡◌, ◌⊎◌, [], Option, none, some, Bool, false, Str, pos}
use mathlib.Core.Option
use prism_plan.ReadModel.Events.{Event, TaskEntity}
use prism_plan.ReadModel.Tasks.{Outcome, done}
use prism_plan.ReadModel.Tasks.Project.{or_kept, Row}
use prism_plan.Stream.Messages.{Update, SentTask}

-- What stream-service keeps of an event.
abbrev pub seen : Event → Update
seen ev = record {
  entity_id = ev.entity_id;
  entity_type = ev.entity_type;
  type = ev.type;
  payload = ev.payload;
  user_id = ev.user_id;
}

-- What the message has is the new row's; or the message has the zero value, and the event has not
-- changed what was stored.
abbrev pub Agrees {ℓ} : {A : Type ℓ} → A → A → Option A → A → Type ℓ
Agrees sent zero_value before after = (sent ≡ after) ⊎ ((sent ≡ zero_value) × (before ≡ some after))

-- Likewise for the flag, which may be absent; a row that is new has not been done.
abbrev pub AgreesFlag : Option Bool → Option Bool → Bool → Type 0
AgreesFlag sent before after =
    (sent ≡ some after) ⊎ ((sent ≡ none) × (or_kept before false ≡ after))

-- The message `t` tells of the change from the row `old`, if there was one, to the row `e`.
pub record Carries (id : Str) (old : Row) (e : TaskEntity) (t : SentTask) : Type 0 where
  pub same_id : t.id ≡ id
  pub title : Agrees t.title [] (Option.map (λ (x : TaskEntity). x.title) old) e.title
  pub notes : Agrees t.notes [] (Option.map (λ (x : TaskEntity). x.notes) old) e.notes
  pub category : Agrees t.category [] (Option.map (λ (x : TaskEntity). x.category) old) e.category
  pub order : Agrees t.order (pos 0) (Option.map (λ (x : TaskEntity). x.order) old) e.order
  pub done_flag : AgreesFlag t.done (Option.map (λ (x : TaskEntity). x.done) old) e.done

-- If `r` accepts, the message `o` exists and tells of the change of the row.
abbrev Announces : Str → Row → Outcome × Row → Option SentTask → Type 0
Announces id old r o =
    (e : TaskEntity) → r ≡ (done, some e) → (t : SentTask) × (o ≡ some t) × Carries id old e t
