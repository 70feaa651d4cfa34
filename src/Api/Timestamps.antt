-- ===== src/Api/Timestamps.antt =====
-- prism-api/api/utils.go: the process-wide clock `lastTimestamp` and the ranges that concurrent
-- requests reserve from it by compare-and-swap.
pub mod Reservations
use prism_plan.Shared.{
  ℕ, zero, suc, ◌+◌, ◌-◌, ◌*◌, ◌/◌, ◌%◌, ◌^◌, ◌≤◌, ◌<◌, ◌≡◌, ◌≢◌, refl, sym, ap, ◌∙◌, subst, ◌↔◌,
  ◌⊎◌, inl, inr, List, [], ◌∷◌, ◌++◌, map, Option, none, some, Bool, true, false, not, ◌&&◌, ◌||◌,
  Str, lit, IsByte, str_eq, is_empty, str_eq_refl, str_eq_iff, str_eq_ne, is_empty_iff, Result, ok,
  err, ℤ, pos, negsuc, neg_part, pos_part, ◌+ℤ◌, ◌≤ℤ◌, ◌<ℤ◌, leb_ℤ, ltb_ℤ, eqb_ℤ, wrap_int64,
  wrap_int32, wrap_int64_self, wrap_int32_self, IsInt64, is_int64, arith, ltb, leb, ◌==◌, ==_iff,
  ==_refl, Bool-cases, Option-cases, if◌then◌else◌, length, get_elem?, take, drop, length-append,
  length-take, length-drop, length-map, take-append_left, drop-append_left, take-length, All,
}

-- `lastTimestamp`: one round of the loop of `nextTimestampRange`, given the clock's reading `now`,
-- the loaded value `last` and a positive count. The result is `start`, and the `end` to be stored.
unfoldable pub reserve : ℤ → ℤ → ℤ → ℤ × ℤ
reserve now last n =
    let start = if leb_ℤ now last then wrap_int64 (last +ℤ pos 1) else now in
    (start, wrap_int64 (start +ℤ wrap_int64 (n +ℤ negsuc 0)))

-- `nextTimestampRange n` where no other goroutine intervenes: the result and the new `lastTimestamp`.
pub next_timestamp_range : ℤ → ℤ → ℤ → ℤ × ℤ
unfolding reserve
next_timestamp_range now last n = if leb_ℤ n (pos 0) then (pos 0, last) else reserve now last n

-- `nextTimestamp`
pub next_timestamp : ℤ → ℤ → ℤ × ℤ
unfolding next_timestamp_range
next_timestamp now last = next_timestamp_range now last (pos 1)

-- The first timestamp of a batch: after `last`, and not before `now`.
abbrev pub first_timestamp : ℕ → ℕ → ℕ
first_timestamp now last = if leb now last then last + 1 else now

pub range_pos :
    (now last k : ℕ)
    → first_timestamp now last + suc k < 2 ^ 63
    → next_timestamp_range (pos now) (pos last) (pos (suc k))
      ≡ (pos (first_timestamp now last), pos (first_timestamp now last + k))
unfolding next_timestamp_range reserve
range_pos now last k h = ground (
  arith,
  wrap_int64_self (pos (last + 1)),
  wrap_int64_self (pos k),
  wrap_int64_self (pos (now + k)),
  wrap_int64_self (pos (last + 1 + k)),
)
