-- ===== src/Startup/Handler.antt =====
-- The handler of read-model-updater/main.go.
use prism_plan.Shared.{ℕ, List, [], Option, none, some, Str}
use prism_plan.ReadModel.Events.{Event}
use prism_plan.ReadModel.Tasks.{TaskStorage, Outcome, done, failed, running}
use prism_plan.ReadModel.Users.{UserStorage}
use prism_plan.ReadModel.Process.{Effect, Wiring, process_event}

-- The status of the answer to the trigger; nothing while the event is still being applied.
abbrev pub status_of : Outcome → Option ℕ
status_of done = some 200
status_of (failed e) = some 400
status_of running = none

abbrev pub answered : {W : Type 0} → (Outcome × List Effect) × W → (Option ℕ × List Effect) × W
answered ((outcome, effects), w) = ((status_of outcome, effects), w)

-- The event may be quoted once more, as a JSON string; `unquote` is `json.Unmarshal` into a string.
abbrev pub unquoted : (Str → Option Str) → Str → Str
unquoted unquote payload = elim (unquote payload) [ none ↦ payload | some s ↦ s ]

module _ {W : Type 0} (tasks : TaskStorage W) (users : UserStorage W) (unquote : Str → Option Str)
    (decode_event : Str → Option Event) (fuel : ℕ) (wiring : Wiring) where
  abbrev process_decoded : Str → Option Event → W → (Option ℕ × List Effect) × W
  process_decoded payload none w = ((some 400, []), w)
  process_decoded payload (some ev) w =
      answered (process_event tasks users fuel wiring ev payload w)

  -- `handler`, for the event text of a message; nothing where the message does not bind.
  unfoldable pub handle_message : Option Str → W → (Option ℕ × List Effect) × W
  unfolding process_event
  handle_message none w = ((some 400, []), w)
  handle_message (some event) w =
      let payload = unquoted unquote event in process_decoded payload (decode_event payload) w
