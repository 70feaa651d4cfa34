-- ===== src/Storage/Enqueue/Counting.antt =====
-- How often a payload stands in a list, and in the hands of the workers.
use prism_plan.Shared.{
  ℕ, zero, suc, ◌+◌, ◌≡◌, ap, List, [], ◌∷◌, ◌++◌, some, Str, str_eq, arith, if◌then◌else◌,
  get_elem?,
}
use mathlib.Core.Option.{some-injective}
use prism_plan.Storage.Enqueue.{Worker, waiting, sending, stopped, set_worker}

unfoldable pub count : Str → List Str → ℕ
count a [] = 0
count a (x ∷ xs) = if str_eq a x then suc (count a xs) else count a xs

pub count-append : (a : Str) (xs ys : List Str) → count a (xs ++ ys) ≡ count a xs + count a ys
unfolding count
count-append a [] ys = omega arith
count-append a (x ∷ xs) ys = ground (arith, count-append a xs ys)

unfoldable pub held : Str → Worker → ℕ
unfolding count
held a waiting = 0
held a (sending p) = count a (p ∷ [])
held a stopped = 0

unfoldable pub held_by_all : Str → List Worker → ℕ
held_by_all a [] = 0
held_by_all a (w ∷ ws) = held a w + held_by_all a ws

pub held_by_all-set_worker :
    (a : Str) (ws : List Worker) (i : ℕ) (old new : Worker)
    → get_elem? ws i ≡ some old
    → held_by_all a (set_worker ws i new) + held a old ≡ held_by_all a ws + held a new
unfolding held_by_all
held_by_all-set_worker a [] i old new e = cc
held_by_all-set_worker a (w ∷ ws) zero old new e =
    omega (arith, ap (held a) (some-injective w old e))
held_by_all-set_worker a (w ∷ ws) (suc i) old new e =
    omega (arith, held_by_all-set_worker a ws i old new e)
