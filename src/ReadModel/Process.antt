-- ===== src/ReadModel/Process.antt =====
-- read-model-updater/domain/orchestrator.go and processor.go: an event goes to its service, and where
-- that accepts it, the cache is refreshed and the event is published.
pub mod Replays
use prism_plan.Shared.{
  ℕ, zero, suc, ◌+◌, ◌-◌, ◌*◌, ◌/◌, ◌%◌, ◌^◌, ◌≤◌, ◌<◌, ◌≡◌, ◌≢◌, refl, sym, ap, ◌∙◌, subst, ◌↔◌,
  ◌⊎◌, inl, inr, List, [], ◌∷◌, ◌++◌, map, Option, none, some, Bool, true, false, not, ◌&&◌, ◌||◌,
  Str, lit, IsByte, str_eq, is_empty, str_eq_refl, str_eq_iff, str_eq_ne, is_empty_iff, Result, ok,
  err, ℤ, pos, negsuc, neg_part, pos_part, ◌+ℤ◌, ◌≤ℤ◌, ◌<ℤ◌, leb_ℤ, ltb_ℤ, eqb_ℤ, wrap_int64,
  wrap_int32, wrap_int64_self, wrap_int32_self, IsInt64, is_int64, scale, atoi, arith, ltb, leb,
  ◌==◌, ==_iff, ==_refl, Bool-cases, if_cases, if_cases_both, Option-cases, if◌then◌else◌, length,
  get_elem?, take, drop, length-append, length-take, length-drop, length-map, take-append_left,
  drop-append_left, take-length, All,
}
use prism_plan.ReadModel.Events.{Event}
use prism_plan.ReadModel.Tasks.{
  TaskStorage, unknown_entity_type, Outcome, done, failed, running, apply,
}
use prism_plan.ReadModel.Users.{UserStorage, apply_user}

abbrev pub task_type : Str
task_type = lit "task"

abbrev pub user_type : Str
user_type = lit "user"

abbrev pub settings_type : Str
settings_type = lit "user-settings"

-- The calls that `processEvent` makes after `Apply`, with their arguments.
pub data Effect : Type 0 where
  refresh_tasks : Str → Str → ℤ → Effect
  refresh_settings : Str → ℤ → Effect
  publish : Str → Str → Effect

-- `cache` may be nil; the two channels and the text of the event.
pub record Wiring : Type 0 where
  pub has_cache : Bool
  pub task_channel : Str
  pub settings_channel : Str

unfoldable pub refreshes : Wiring → Event → List Effect
refreshes wiring ev =
    if wiring.has_cache
    then (if str_eq ev.entity_type task_type
        then refresh_tasks ev.user_id ev.entity_id ev.timestamp ∷ []
        else if str_eq ev.entity_type settings_type
        then refresh_settings ev.user_id ev.timestamp ∷ []
        else [])
    else []

unfoldable pub channel_of : Wiring → Event → Str
channel_of wiring ev =
    if str_eq ev.entity_type settings_type then wiring.settings_channel else wiring.task_channel

-- What follows the answer of `Apply`.
unfoldable pub after_apply {ℓ} :
    {W : Type ℓ} → Wiring → Event → Str → Outcome × W → (Outcome × List Effect) × W
unfolding refreshes channel_of
after_apply wiring ev payload (failed e, w) = ((failed e, []), w)
after_apply wiring ev payload (running, w) = ((running, []), w)
after_apply wiring ev payload (done, w) =
    ((done, refreshes wiring ev ++ (publish (channel_of wiring ev) payload ∷ [])), w)

module _ {W : Type 0} (tasks : TaskStorage W) (users : UserStorage W) where
  -- `Orchestrator.Apply`
  unfoldable pub apply_event : ℕ → Event → W → Outcome × W
  apply_event fuel ev w =
      if str_eq ev.entity_type task_type
      then apply tasks fuel ev w
      else if str_eq ev.entity_type user_type || str_eq ev.entity_type settings_type
      then apply_user users ev w
      else (failed (unknown_entity_type ev.entity_type), w)

  -- `processEvent`; a publication that fails is only logged.
  unfoldable pub process_event : ℕ → Wiring → Event → Str → W → (Outcome × List Effect) × W
  unfolding after_apply apply_event
  process_event fuel wiring ev payload w = after_apply wiring ev payload (apply_event fuel ev w)
