-- ===== src/Stream/Keys.antt =====
-- stream-service/domain/consts.go: the keys under which `stream` looks for the initial payloads, and
-- those under which read-model-updater writes.
use prism_plan.Shared.{◌≢◌, ap, ◌∷◌, ◌++◌, Str, lit, arith, length, length-append}
use prism_plan.Storage.{cache_key, tasks_cache_prefix, settings_cache_prefix}

abbrev pub tasks_key_prefix : Str
tasks_key_prefix = lit "tasks:"

abbrev pub settings_key_prefix : Str
settings_key_prefix = lit "settings:"

-- `domain.TasksKeyPrefix + userID`
pub tasks_key : Str → Str
tasks_key user_id = tasks_key_prefix ++ user_id

-- `domain.SettingsKeyPrefix + userID`
pub settings_key : Str → Str
settings_key user_id = settings_key_prefix ++ user_id

-- For no user does the stream look where the read model's cache is written: the keys of a user's tasks
-- differ, and so do those of the settings.
pub initial_keys-ne-cache_key :
    (user_id : Str)
    → (tasks_key user_id ≢ cache_key user_id tasks_cache_prefix)
      × (settings_key user_id ≢ cache_key user_id settings_cache_prefix)
unfolding tasks_key settings_key cache_key
initial_keys-ne-cache_key user_id = (
  λ q.
      absurd
        (omega (arith, ap (λ s. length s) q, length-append user_id (b':' ∷ tasks_cache_prefix))),
  λ q.
      absurd
        (omega (arith, ap (λ s. length s) q, length-append user_id (b':' ∷ settings_cache_prefix))),
)
