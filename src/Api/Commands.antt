-- ===== src/Api/Commands.antt =====
-- prism-api/domain/command.go and the command metadata of prism-api/api/handlers.go.
pub mod Keys
use prism_plan.Shared.{
  ℕ, zero, suc, ◌+◌, ◌-◌, ◌*◌, ◌/◌, ◌%◌, ◌^◌, ◌≤◌, ◌<◌, ◌≡◌, ◌≢◌, refl, sym, ap, ◌∙◌, subst, ◌↔◌,
  ◌⊎◌, inl, inr, List, [], ◌∷◌, ◌++◌, map, Option, none, some, Bool, true, false, not, ◌&&◌, ◌||◌,
  Str, lit, IsByte, str_eq, is_empty, str_eq_refl, str_eq_iff, str_eq_ne, is_empty_iff, Result, ok,
  err, ℤ, pos, negsuc, neg_part, pos_part, ◌+ℤ◌, ◌≤ℤ◌, ◌<ℤ◌, leb_ℤ, ltb_ℤ, eqb_ℤ, wrap_int64,
  wrap_int32, wrap_int64_self, wrap_int32_self, IsInt64, is_int64, arith, ltb, leb, ◌==◌, ==_iff,
  ==_refl, Bool-cases, Option-cases, if◌then◌else◌, length, get_elem?, take, drop, length-append,
  length-take, length-drop, length-map, take-append_left, drop-append_left, take-length, All,
}
use prism_plan.Api.Base36.{format_int_36}
use prism_plan.Api.Timestamps.{next_timestamp_range}

pub record Command : Type 0 where
  pub id : Str
  pub idempotency_key : Str
  pub entity_type : Str
  pub type : Str
  pub payload : Str
  pub timestamp : ℤ

-- The key that a command keeps, or the one made from its timestamp.
pub key_of : Command → ℤ → Str
key_of cmd ts = if is_empty cmd.idempotency_key then format_int_36 ts else cmd.idempotency_key

-- `applyCommandMetadata`: the changed command and the returned key.
pub apply_command_metadata : Command → ℤ → Command × Str
unfolding key_of
apply_command_metadata cmd ts = (
  record cmd { idempotency_key = key_of cmd ts; id = key_of cmd ts; timestamp = ts },
  key_of cmd ts,
)

-- The loop of `finalizeCommands` from index `i` on.
pub finalize_from : ℤ → ℕ → List Command → List Command × List Str
unfolding apply_command_metadata
finalize_from start i [] = ([], [])
finalize_from start i (cmd ∷ cmds) =
    let (cmd', key) = apply_command_metadata cmd (wrap_int64 (start +ℤ pos i)) in
    let (rest, keys) = finalize_from start (suc i) cmds in (cmd' ∷ rest, key ∷ keys)

-- `finalizeCommands`, given the clock's reading and `lastTimestamp`: the stamped commands, the keys,
-- and the new `lastTimestamp`.
pub finalize_commands : ℤ → ℤ → List Command → (List Command × List Str) × ℤ
unfolding finalize_from
finalize_commands now last [] = (([], []), last)
finalize_commands now last (cmd ∷ cmds) =
    let (start, last') = next_timestamp_range now last (pos (length (cmd ∷ cmds))) in
    (finalize_from start 0 (cmd ∷ cmds), last')
