-- ===== src/Api/Timestamps/Reservations.antt =====
-- prism-api/api/utils.go, `nextTimestampRange` under contention: any number of goroutines, each of
-- which reads the clock, loads `lastTimestamp`, and tries to swap it.
use prism_plan.Shared.{
  ℕ, zero, suc, ◌-◌, ◌^◌, ◌<◌, ◌≡◌, ◌≢◌, subst, List, [], ◌∷◌, some, ℤ, pos, negsuc, ◌≤ℤ◌, ◌<ℤ◌,
  wrap_int64, arith, get_elem?, All,
}
use prism_plan.Api.Timestamps.{reserve}

-- Where a call stands: before the load, with its reading and the loaded value, or returned.
pub data Call : Type 0 where
  pending : ℕ → Call
  loaded : ℕ → ℤ → ℤ → Call
  returned : ℕ → ℤ → Call

-- A range that a swap reserved, with the clock's reading it answers to.
pub record Grant : Type 0 where
  pub now : ℤ
  pub start : ℤ
  pub end : ℤ

pub record World : Type 0 where
  pub last : ℤ
  pub calls : List Call
  pub grants : List Grant

abbrev pub init : World
init = record { last = pos 0; calls = []; grants = [] }

unfoldable pub set_call : List Call → ℕ → Call → List Call
set_call [] i c = []
set_call (x ∷ xs) zero c = c ∷ xs
set_call (x ∷ xs) (suc i) c = x ∷ set_call xs i c

-- The range that a call asks for with `n + 1` timestamps.
abbrev pub grant : ℕ → ℤ → ℤ → Grant
grant n now last = record {
  now = now;
  start = (reserve now last (pos (suc n))).0;
  end = (reserve now last (pos (suc n))).1;
}

-- Go's scheduler picks the next call that moves; the clock may read anything.
pub data Step (w : World) : World → Type 0 where
  enter : (n : ℕ) → suc n < 2 ^ 63 → Step w (record w { calls = pending n ∷ w.calls })
  load :
      (i n : ℕ) (now : ℤ)
      → get_elem? w.calls i ≡ some (pending n)
      → Step w (record w { calls = set_call w.calls i (loaded n now w.last) })
  swap :
      (i n : ℕ) (now last : ℤ)
      → get_elem? w.calls i ≡ some (loaded n now last)
      → w.last ≡ last
      → Step w (record {
        last = (grant n now last).end;
        calls = set_call w.calls i (returned n (grant n now last).start);
        grants = grant n now last ∷ w.grants;
      })
  retry :
      (i n : ℕ) (now last : ℤ)
      → get_elem? w.calls i ≡ some (loaded n now last)
      → w.last ≢ last
      → Step w (record w { calls = set_call w.calls i (pending n) })

pub data Reach : World → Type 0 where
  here : Reach init
  next : {w v : World} → Reach w → Step w v → Reach v

-- The reserved ranges keep clear of the end of the 64-bit range.
abbrev pub Fits : Grant → Type 0
Fits g = (pos 0 ≤ℤ g.start) × (g.end <ℤ pos (2 ^ 63 - 1)) × (g.start ≤ℤ g.end)

-- Newest first: each range starts after all older ones have ended, and not before its clock reading.
abbrev pub Increasing : List Grant → Type 0
Increasing [] = Unit {0}
Increasing (g ∷ gs) = (g.now ≤ℤ g.start) × All (λ h. h.end <ℤ g.start) gs × Increasing gs

All-below :
    (a b : ℤ) (gs : List Grant) → a ≤ℤ b → All (λ h. h.end ≤ℤ a) gs → All (λ h. h.end ≤ℤ b) gs
All-below a b [] h all = tt
All-below a b (g ∷ gs) h all = (omega arith, All-below a b gs h all.1)

All-before :
    (a b : ℤ) (gs : List Grant) → a <ℤ b → All (λ h. h.end ≤ℤ a) gs → All (λ h. h.end <ℤ b) gs
All-before a b [] h all = tt
All-before a b (g ∷ gs) h all = (omega arith, All-before a b gs h all.1)

-- A range starts after the loaded value, and not before the clock reading.
start_after :
    (n : ℕ) (now last : ℤ)
    → pos 0 ≤ℤ last
    → last <ℤ pos (2 ^ 63 - 1)
    → (now ≤ℤ (grant n now last).start) × (last <ℤ (grant n now last).start)
unfolding reserve wrap_int64
start_after n now (pos k) lo hi = ground arith
start_after n now (negsuc k) lo hi = absurd (omega arith)

record Inv (w : World) : Type 0 where
  low : pos 0 ≤ℤ w.last
  high : w.last <ℤ pos (2 ^ 63 - 1)
  below : All (λ h. h.end ≤ℤ w.last) w.grants
  increasing : Increasing w.grants

swap-Inv :
    (w : World) (calls : List Call) (n : ℕ) (now last : ℤ)
    → w.last ≡ last
    → Fits (grant n now last)
    → Inv w
    → Inv (record {
      last = (grant n now last).end;
      calls = calls;
      grants = grant n now last ∷ w.grants;
    })
swap-Inv w calls n now last e fits v =
    let lo : pos 0 ≤ℤ last = subst (λ l. pos 0 ≤ℤ l) e v.low in
    let hi : last <ℤ pos (2 ^ 63 - 1) = subst (λ l. l <ℤ pos (2 ^ 63 - 1)) e v.high in
    let all : All (λ h. h.end ≤ℤ last) w.grants =
      subst (λ l. All (λ h. h.end ≤ℤ l) w.grants) e v.below in
    let after = start_after n now last lo hi in
    record {
      low = omega arith;
      high = fits.1;
      below = (omega arith, All-below last _ w.grants (omega arith) all);
      increasing = (after.0, All-before last _ w.grants after.1 all, v.increasing);
    }

Reach-Inv : {w : World} → Reach w → All Fits w.grants → Inv w
Reach-Inv here fits = record { low = omega arith; high = omega arith; below = tt; increasing = tt }
Reach-Inv (next {w} r (enter n h)) fits =
    let v = Reach-Inv r fits in
    record { low = v.low; high = v.high; below = v.below; increasing = v.increasing }
Reach-Inv (next {w} r (load i n now h)) fits =
    let v = Reach-Inv r fits in
    record { low = v.low; high = v.high; below = v.below; increasing = v.increasing }
Reach-Inv (next {w} r (swap i n now last h e)) fits =
    swap-Inv w _ n now last e fits.0 (Reach-Inv r fits.1)
Reach-Inv (next {w} r (retry i n now last h e)) fits =
    let v = Reach-Inv r fits in
    record { low = v.low; high = v.high; below = v.below; increasing = v.increasing }

-- However the goroutines interleave, the ranges that swaps reserved are pairwise disjoint, each after
-- all older ones and none before its clock reading, as long as no range reaches the end of int64.
pub Reach-Increasing : {w : World} → Reach w → All Fits w.grants → Increasing w.grants
Reach-Increasing r fits = (Reach-Inv r fits).increasing
