-- ===== src/Shared/Atoi.antt =====
-- `strconv.Atoi` on a 64-bit platform: an optional sign and decimal digits, within int64.
use Prim.Native.Nat.{ℕ, ◌+◌, ◌-◌, ◌*◌}
use mathlib.Core.Bool.{Bool, true, false, ◌&&◌}
use mathlib.Core.Option.{Option, none, some}
use mathlib.Core.List.{[], ◌∷◌}
use prism_plan.Shared.Tests.{leb, ◌==◌, if◌then◌else◌}
use prism_plan.Shared.Int.{ℤ, pos, sub_ℕ, is_int64}
use prism_plan.Shared.Text.{Str}

-- The value of a digit string, or nothing where another character stands in it.
unfoldable pub decimal : ℕ → Str → Option ℕ
decimal acc [] = some acc
decimal acc (c ∷ s) =
    let rest = decimal (acc * 10 + (c - 48)) s in if leb b'0' c && leb c b'9' then rest else none

unfoldable pub magnitude : Str → Option ℕ
unfolding decimal
magnitude [] = none
magnitude (c ∷ s) = decimal 0 (c ∷ s)

abbrev in_range : ℤ → Option ℤ
in_range z = if is_int64 z then some z else none

abbrev signed : Bool → Option ℕ → Option ℤ
signed minus none = none
signed true (some n) = in_range (sub_ℕ 0 n)
signed false (some n) = in_range (pos n)

unfoldable pub atoi : Str → Option ℤ
unfolding magnitude
atoi [] = none
atoi (c ∷ s) =
    if c == b'-'
    then signed true (magnitude s)
    else if c == b'+'
    then signed false (magnitude s)
    else signed false (magnitude (c ∷ s))
