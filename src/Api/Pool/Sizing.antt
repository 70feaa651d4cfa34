-- ===== src/Api/Pool/Sizing.antt =====
-- The sizes of the worker pool.
use prism_plan.Shared.{
  ℕ, ◌*◌, ◌^◌, ◌≤◌, ◌<◌, ◌≡◌, ap, ◌∙◌, ◌⊎◌, inl, inr, Str, lit, ℤ, pos, negsuc, ◌≤ℤ◌, wrap_int64,
  wrap_int64_self, scale, arith, ltb, if◌then◌else◌,
}
use prism_plan.Api.Pool.{
  at_least_one_of, scaled_demand, Env, clamp, derive_queue_concurrency, compute_worker_defaults,
  lookup_positive_int, sender_sizes,
}

clamp_bounds : (lo hi : ℕ) (x : ℤ) → lo ≤ hi → (pos lo ≤ℤ clamp lo hi x) × (clamp lo hi x ≤ℤ pos hi)
clamp_bounds lo hi x h = ground arith

buffer_of_workers :
    (w : ℤ) → pos 32 ≤ℤ w → w ≤ℤ pos 192 → clamp 4096 65536 (wrap_int64 (scale 128 w)) ≡ scale 128 w
buffer_of_workers (pos n) lo hi = rw (wrap_int64_self (pos (n * 128)) (omega arith)) (ground arith)
buffer_of_workers (negsuc n) lo hi = absurd (omega arith)

-- Whatever the concurrency and the CPU count, a product that overflows included, there are 32 to 192
-- workers, and exactly 128 places in the buffer for each: the upper limit of the buffer never binds.
pub compute_worker_defaults_bounds :
    (queue_concurrency num_cpu : ℤ)
    → (pos 32 ≤ℤ (compute_worker_defaults queue_concurrency num_cpu).0)
      × ((compute_worker_defaults queue_concurrency num_cpu).0 ≤ℤ pos 192)
      × ((compute_worker_defaults queue_concurrency num_cpu).1
          ≡ scale 128 (compute_worker_defaults queue_concurrency num_cpu).0)
unfolding compute_worker_defaults
compute_worker_defaults_bounds queue_concurrency num_cpu =
    let demand : ℤ = scaled_demand queue_concurrency num_cpu in
    let within = clamp_bounds 32 192 demand (omega arith) in
    (within.0, within.1, buffer_of_workers (clamp 32 192 demand) within.0 within.1)

-- `n` is what a setting counts for: itself where it is positive, and otherwise the default.
abbrev pub CountsAs : ℤ → ℕ → ℕ → Type 0
CountsAs z default n = ((z ≤ℤ pos 0) × (n ≡ default)) ⊎ ((z ≡ pos n) × (1 ≤ n))

at_least_one_of-CountsAs :
    (z : ℤ) (default n : ℕ) → CountsAs z default n → at_least_one_of z default ≡ pos n
at_least_one_of-CountsAs (pos m) default n (inl (h, e)) = ground arith
at_least_one_of-CountsAs (negsuc m) default n (inl (h, e)) = ground arith
at_least_one_of-CountsAs z default n (inr (e, h)) = rw e (ground arith)

-- The fewest of 32 to 192 workers that are 4 for each unit of the queue's concurrency and 32 for each
-- CPU, or 192 where that is not enough, with 128 places in the buffer for each.
abbrev pub Fewest : ℕ → ℕ → ℤ × ℤ → Type 0
Fewest queue cpu sizes =
    (w : ℕ) × (sizes ≡ (pos w, pos (w * 128)))
    × (32 ≤ w)
    × (w ≤ 192)
    × ((4 * queue ≤ w) ⊎ (w ≡ 192))
    × ((32 * cpu ≤ w) ⊎ (w ≡ 192))
    × ((w ≤ 4 * queue) ⊎ (w ≤ 32 * cpu) ⊎ (w ≡ 32))

scaled_demand-CountsAs :
    (queue_concurrency num_cpu : ℤ) (queue cpu : ℕ)
    → CountsAs queue_concurrency 8 queue
    → CountsAs num_cpu 1 cpu
    → 4 * queue < 2 ^ 63
    → 32 * cpu < 2 ^ 63
    → scaled_demand queue_concurrency num_cpu
      ≡ pos (if ltb (queue * 4) (cpu * 32) then cpu * 32 else queue * 4)
unfolding scaled_demand
scaled_demand-CountsAs queue_concurrency num_cpu queue cpu hq hc fq fc =
    rw
      (
        at_least_one_of-CountsAs queue_concurrency 8 queue hq,
        at_least_one_of-CountsAs num_cpu 1 cpu hc,
        wrap_int64_self (pos (queue * 4)) (omega arith),
        wrap_int64_self (pos (cpu * 32)) (omega arith),
      )
      (ground arith)

clamp_pos :
    (d : ℕ) → clamp 32 192 (pos d) ≡ pos (if ltb d 32 then 32 else if ltb 192 d then 192 else d)
clamp_pos d = ground arith

-- The defaults that `computeWorkerDefaults` computes are the fewest workers that serve the queue's
-- concurrency, or 8 where it is not positive, and the CPUs, or 1, within 32 and 192; with 128 places in
-- the buffer for each worker. The products with 4 and 32 are within an int64.
pub compute_worker_defaults-Fewest :
    (queue_concurrency num_cpu : ℤ) (queue cpu : ℕ)
    → CountsAs queue_concurrency 8 queue
    → CountsAs num_cpu 1 cpu
    → 4 * queue < 2 ^ 63
    → 32 * cpu < 2 ^ 63
    → Fewest queue cpu (compute_worker_defaults queue_concurrency num_cpu)
unfolding compute_worker_defaults
compute_worker_defaults-Fewest queue_concurrency num_cpu queue cpu hq hc fq fc =
    let d = if ltb (queue * 4) (cpu * 32) then cpu * 32 else queue * 4 in
    let w = if ltb d 32 then 32 else if ltb 192 d then 192 else d in
    (
      w,
      ap (λ x. (x, clamp 4096 65536 (wrap_int64 (scale 128 x))))
            (ap (clamp 32 192)
                (scaled_demand-CountsAs queue_concurrency num_cpu queue cpu hq hc fq fc)
              ∙ clamp_pos d)
          ∙ ap (λ (b : ℤ). (pos w, b)) (buffer_of_workers (pos w) (ground arith) (ground arith)),
      ground arith,
      ground arith,
      ground arith,
      ground arith,
      ground arith,
    )

lookup_positive_int_pos :
    (env : Env) (key : Str) (fallback : ℤ)
    → pos 1 ≤ℤ fallback
    → pos 1 ≤ℤ lookup_positive_int env key fallback
unfolding lookup_positive_int
lookup_positive_int_pos env key fallback h = ground arith

-- Whatever the environment holds, there is at least one worker, and a place in the buffer for each.
pub sender_sizes_bounds :
    (env : Env) (num_cpu : ℤ)
    → (pos 1 ≤ℤ (sender_sizes env num_cpu).0)
      × ((sender_sizes env num_cpu).0 ≤ℤ (sender_sizes env num_cpu).1)
unfolding sender_sizes
sender_sizes_bounds env num_cpu = ground (
  arith,
  compute_worker_defaults_bounds (derive_queue_concurrency env) num_cpu,
  lookup_positive_int_pos env (lit "ENQUEUE_WORKERS")
      (compute_worker_defaults (derive_queue_concurrency env) num_cpu).0,
)
