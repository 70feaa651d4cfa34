-- ===== src/Storage/Sizes.antt =====
-- The sizes that `New` and `resolveTaskPageSize` settle on.
use prism_plan.Shared.{
  ◌≤◌, ◌≡◌, ◌↔◌, List, [], ◌∷◌, Option, none, some, ℤ, pos, negsuc, ◌≤ℤ◌, wrap_int32, arith,
}
use prism_plan.Storage.{
  new_sizing, apply_options, page_size_of, Sizing, resolve_task_page_size,
  queue_concurrency_for_cpu, with_queue_concurrency,
}

-- A page has 1 to 1000 tasks, whatever the request and the default; a request in that range is met.
pub resolve_task_page_size_bounds :
    (requested default : ℤ)
    → (1 ≤ resolve_task_page_size requested default)
      × (resolve_task_page_size requested default ≤ 1000)
      × (pos 1 ≤ℤ requested
          → requested ≤ℤ pos 1000
          → pos (resolve_task_page_size requested default) ≡ requested)
unfolding resolve_task_page_size
resolve_task_page_size_bounds (pos n) (pos d) = ground arith
resolve_task_page_size_bounds (pos n) (negsuc d) = ground arith
resolve_task_page_size_bounds (negsuc n) (pos d) = ground arith
resolve_task_page_size_bounds (negsuc n) (negsuc d) = ground arith

apply_options_pos :
    (options : List ℤ) (current : ℤ) → pos 1 ≤ℤ current → pos 1 ≤ℤ apply_options options current
apply_options_pos [] current h = h
apply_options_pos (n ∷ ns) current h =
    apply_options_pos ns (with_queue_concurrency n current)
      (unfold with_queue_concurrency in ground arith)

page_size_of_bounds : (z : ℤ) → (1 ≤ page_size_of z) × (page_size_of z ≤ 1000)
page_size_of_bounds (pos n) = ground arith
page_size_of_bounds (negsuc n) = ground arith

abbrev pub Sound : Option Sizing → Type 0
Sound none = Unit {0}
Sound (some s) = (1 ≤ s.task_page_size) × (s.task_page_size ≤ 1000) × (pos 1 ≤ℤ s.queue_concurrency)

-- `New` fails exactly on a page size that is not positive; otherwise it settles on a page of 1 to 1000
-- tasks, also where the size does not fit 32 bits, and on at least one concurrent request.
pub new_sizing_bounds :
    (task_page_size : ℤ) (options : List ℤ)
    → Sound (new_sizing task_page_size options)
      × ((new_sizing task_page_size options ≡ none) ↔ (task_page_size ≤ℤ pos 0))
unfolding new_sizing
new_sizing_bounds task_page_size options =
    ground
      (arith, page_size_of_bounds (wrap_int32 task_page_size), apply_options_pos options (pos 8))

-- Eight to 64 concurrent requests, whatever the number of CPUs, an overflow of the product included.
pub queue_concurrency_for_cpu_bounds :
    (num_cpu : ℤ)
    → (pos 8 ≤ℤ queue_concurrency_for_cpu num_cpu) × (queue_concurrency_for_cpu num_cpu ≤ℤ pos 64)
unfolding queue_concurrency_for_cpu
queue_concurrency_for_cpu_bounds num_cpu = ground arith
