-- ===== src/Examples/Stream.antt =====
-- stream-service at concrete inputs.
use prism_plan.Shared.{
  if◌then◌else◌, str_eq_iff, arith, map, ◌++◌, Str, ◌≡◌, ◌≢◌, List, [], ◌∷◌, none, some, lit,
  str_eq,
}
use prism_plan.Storage.{cache_key, tasks_cache_prefix, settings_cache_prefix}
use prism_plan.ReadModel.Events.{Event, task_completed}
use prism_plan.Stream.Registry.{
  Op, enter, leave, Channels, run, broadcast, connected, broadcast-connected,
}
use prism_plan.Stream.Subscription.{
  Codec, cancelled, published, subscribe_updates, broadcast_all, messages_for, holds,
  subscribe_updates-holds,
}
use prism_plan.Stream.Keys.{tasks_key, settings_key, initial_keys-ne-cache_key}
use prism_plan.Examples.Tasks.{task_event}

abbrev empty_channels : Channels
empty_channels c = none

-- Two channels entered, and the first left.
abbrev history : List Op
history = leave (lit "a") 1 ∷ enter (lit "a") 2 ∷ enter (lit "a") 1 ∷ []

broadcast-connected_example :
    (broadcast (run history) (lit "a") (lit "m") empty_channels 2 ≡ some (lit "m"))
    × (run history (lit "a") ≢ some [])
unfolding connected str_eq
broadcast-connected_example = broadcast-connected history (lit "a") (lit "m") empty_channels 2

abbrev finished_task : Event
finished_task = task_event task_completed 6 none

initial_keys-ne-cache_key_example :
    (tasks_key (lit "u") ≢ cache_key (lit "u") tasks_cache_prefix)
    × (settings_key (lit "u") ≢ cache_key (lit "u") settings_cache_prefix)
initial_keys-ne-cache_key_example = initial_keys-ne-cache_key (lit "u")

-- A text is the user that has completed a task, or is not a message.
abbrev users_codec : Codec
users_codec = record {
  decode = λ text.
      if str_eq text (lit "?!")
      then none
      else some (record {
        entity_id = lit "t";
        entity_type = lit "task";
        type = task_completed;
        payload = none;
        user_id = text;
      });
  marshal = λ p. some (lit "{}");
}

abbrev one_connection : List Op
one_connection = enter (lit "u") 1 ∷ []

its_user : (u : Str) → connected one_connection u 1 ≡ str_eq u (lit "u")
unfolding connected
its_user u = ground (arith, str_eq_iff u (lit "u"), str_eq_iff (lit "u") u)

subscribe_updates-holds_example :
    broadcast_all
      (run one_connection)
      (subscribe_updates users_codec
        (map (λ t. published t) (lit "?!" ∷ lit "v" ∷ lit "u" ∷ []) ++ (cancelled ∷ [])))
      (λ c. none)
      1
    ≡ holds none (messages_for users_codec (lit "u") (lit "?!" ∷ lit "v" ∷ lit "u" ∷ []))
subscribe_updates-holds_example =
    subscribe_updates-holds users_codec one_connection (lit "u") 1 its_user (cancelled ∷ []) tt
      (lit "?!" ∷ lit "v" ∷ lit "u" ∷ []) (λ c. none)
