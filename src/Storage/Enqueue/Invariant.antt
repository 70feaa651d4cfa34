-- ===== src/Storage/Enqueue/Invariant.antt =====
-- What holds at every point of a run of `EnqueueCommands`, apart from the payloads.
use prism_plan.Shared.{
  ℕ, zero, suc, ◌≤◌, ◌≡◌, ◌≢◌, refl, ap, ◌∙◌, ◌⊎◌, inl, inr, List, [], ◌∷◌, Option, none, some,
  true, Str, arith, length, All,
}
use prism_plan.Storage.Enqueue.{
  Worker, waiting, sending, stopped, set_worker, first, Run, waiters, start, Step, produce, abort,
  finish, take_job, drained, give_up, deliver, refuse, parent, Reach, here, next, IsStopped,
}

abbrev pub IsLive : Worker → Type 0
IsLive w = w ≢ stopped

All-set_worker {κ} :
    (P : Worker → Type κ) (ws : List Worker) (i : ℕ) (w : Worker)
    → P w
    → All P ws
    → All P (set_worker ws i w)
All-set_worker P [] i w h all = tt
All-set_worker P (x ∷ xs) zero w h all = (h, all.1)
All-set_worker P (x ∷ xs) (suc i) w h all = (all.0, All-set_worker P xs i w h all.1)

length-set_worker : (ws : List Worker) (i : ℕ) (w : Worker) → length (set_worker ws i w) ≡ length ws
length-set_worker [] i w = refl
length-set_worker (x ∷ xs) zero w = refl
length-set_worker (x ∷ xs) (suc i) w = ap suc (length-set_worker xs i w)

-- Why the run is where it is.
pub record Inv (workers : ℕ) (r : Run) : Type 0 where
  pub cause : r.cancelled ≡ true → (r.first_err ≢ none) ⊎ (r.parent_done ≡ true)
  pub clean : r.first_err ≡ none → r.lost ≡ []
  pub handed_over : r.closed ≡ true → (r.todo ≡ []) ⊎ (r.cancelled ≡ true)
  pub ended : All IsLive r.workers ⊎ ((r.cancelled ≡ true) ⊎ ((r.closed ≡ true) × (r.channel ≡ [])))
  pub size : length r.workers ≡ workers

abbrev pub Ended : Run → Type 0
Ended r = All IsLive r.workers ⊎ ((r.cancelled ≡ true) ⊎ ((r.closed ≡ true) × (r.channel ≡ [])))

Step-Ended : {r s : Run} → Step r s → Ended r → Ended s
Step-Ended (produce p ps et ec room) (inl live) = inl live
Step-Ended (produce p ps et ec room) (inr (inl c)) = inr (inl c)
Step-Ended (produce p ps et ec room) (inr (inr d)) = cc (d.0, ec)
Step-Ended (abort ec e) d = inr (inl e)
Step-Ended (finish et ec) (inl live) = inl live
Step-Ended (finish et ec) (inr (inl c)) = inr (inl c)
Step-Ended (finish et ec) (inr (inr d)) = inr (inr (refl, d.1))
Step-Ended {r} (take_job i p ps e ech) (inl live) =
    inl (All-set_worker IsLive r.workers i (sending p) (λ q. cc) live)
Step-Ended (take_job i p ps e ech) (inr (inl c)) = inr (inl c)
Step-Ended (take_job i p ps e ech) (inr (inr d)) = cc (d.1, ech)
Step-Ended (drained i e ech ec) d = inr (inr (ec, ech))
Step-Ended (give_up i e ec) d = inr (inl ec)
Step-Ended {r} (deliver i p e) (inl live) =
    inl (All-set_worker IsLive r.workers i waiting (λ q. cc) live)
Step-Ended (deliver i p e) (inr d) = inr d
Step-Ended (refuse i p x e) d = inr (inl refl)
Step-Ended (parent e) d = inr (inl refl)

first-ne-none : (o : Option Str) (e : Str) → first o e ≢ none
first-ne-none none e q = cc
first-ne-none (some x) e q = cc

Step-Inv : {workers : ℕ} {r s : Run} → Step r s → Inv workers r → Inv workers s
Step-Inv {r} (produce p ps et ec room) v = record {
  cause = v.cause;
  clean = v.clean;
  handed_over = λ c. cc (c, ec);
  ended = Step-Ended {r = r} (produce p ps et ec room) v.ended;
  size = v.size;
}
Step-Inv {r} (abort ec e) v = record {
  cause = v.cause;
  clean = v.clean;
  handed_over = λ c. inr e;
  ended = Step-Ended {r = r} (abort ec e) v.ended;
  size = v.size;
}
Step-Inv {r} (finish et ec) v = record {
  cause = v.cause;
  clean = v.clean;
  handed_over = λ c. inl et;
  ended = Step-Ended {r = r} (finish et ec) v.ended;
  size = v.size;
}
Step-Inv {r} (take_job i p ps e ech) v = record {
  cause = v.cause;
  clean = v.clean;
  handed_over = v.handed_over;
  ended = Step-Ended {r = r} (take_job i p ps e ech) v.ended;
  size = length-set_worker r.workers i (sending p) ∙ v.size;
}
Step-Inv {r} (drained i e ech ec) v = record {
  cause = v.cause;
  clean = v.clean;
  handed_over = v.handed_over;
  ended = Step-Ended {r = r} (drained i e ech ec) v.ended;
  size = length-set_worker r.workers i stopped ∙ v.size;
}
Step-Inv {r} (give_up i e ec) v = record {
  cause = v.cause;
  clean = v.clean;
  handed_over = v.handed_over;
  ended = Step-Ended {r = r} (give_up i e ec) v.ended;
  size = length-set_worker r.workers i stopped ∙ v.size;
}
Step-Inv {r} (deliver i p e) v = record {
  cause = v.cause;
  clean = v.clean;
  handed_over = v.handed_over;
  ended = Step-Ended {r = r} (deliver i p e) v.ended;
  size = length-set_worker r.workers i waiting ∙ v.size;
}
Step-Inv {r} (refuse i p x e) v = record {
  cause = λ c. inl (first-ne-none r.first_err x);
  clean = λ c. absurd (first-ne-none r.first_err x c);
  handed_over = λ c. inr refl;
  ended = inr (inl refl);
  size = length-set_worker r.workers i stopped ∙ v.size;
}
Step-Inv {r} (parent e) v = record {
  cause = λ c. inr refl;
  clean = v.clean;
  handed_over = λ c. inr refl;
  ended = inr (inl refl);
  size = v.size;
}

waiters-IsLive : (n : ℕ) → All IsLive (waiters n)
unfolding waiters
waiters-IsLive zero = tt
waiters-IsLive (suc n) = (λ q. cc, waiters-IsLive n)

length-waiters : (n : ℕ) → length (waiters n) ≡ n
unfolding waiters
length-waiters zero = refl
length-waiters (suc n) = ap suc (length-waiters n)

pub Reach-Inv :
    {workers : ℕ} {payloads : List Str} {r : Run} → Reach workers payloads r → Inv workers r
unfolding start
Reach-Inv {workers} here = record {
  cause = λ c. cc;
  clean = λ c. refl;
  handed_over = λ c. cc;
  ended = inl (waiters-IsLive workers);
  size = length-waiters workers;
}
Reach-Inv (next r st) = Step-Inv st (Reach-Inv r)

pub some_live : (ws : List Worker) → 1 ≤ length ws → All IsLive ws → All IsStopped ws → ⊥
some_live [] h live all = absurd (omega arith)
some_live (w ∷ ws) h live all = live.0 all.0
