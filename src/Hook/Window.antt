-- ===== src/Hook/Window.antt =====
-- `cuLaunchKernel` with its rate control, and the eight `cuMemcpy` functions.
use nvshare.Prelude.{
  refl, true, ℕ, ◌+◌, ◌*◌, ◌/◌, ◌≤◌, ◌<◌, ◌≡◌, min, max, Bool, false, List, [], ◌∷◌, leb,
  if◌then◌else◌, arith, Bool-cases, inl, inr,
}
use nvshare.Common.Clock.{Timespec, timespecsub}
use nvshare.Hook.Memory.{CuResult, cuda_error_not_initialized}

-- The functions of the driver that touch the memory or the processors of the GPU.
pub data Api : Type 0 where
  launch_kernel ctx_synchronize : Api
  memcpy memcpy_async memcpy_dtoh memcpy_dtoh_async : Api
  memcpy_htod memcpy_htod_async memcpy_dtod memcpy_dtod_async : Api

-- What a hook does in order: `continue_with_lock` has returned, or a function of the driver is called.
pub data Call : Type 0 where
  continued_with_lock : Call
  calls : Api → Call

pub record Hooked : Type 0 where
  pub result : CuResult
  pub trace : List Call

-- Each of the eight functions; `found` is whether its `real_` pointer is not NULL, `answer` what the
-- real function returns.
unfoldable pub cu_memcpy : Api → Bool → CuResult → Hooked
cu_memcpy api found answer =
    if found
    then record { result = answer; trace = continued_with_lock ∷ calls api ∷ [] }
    else record { result = cuda_error_not_initialized; trace = [] }

-- `kern_since_sync` and `pending_kernel_window`
pub record Kernels : Type 0 where
  pub kern_since_sync : ℕ
  pub pending_kernel_window : ℕ

abbrev pub initial_kernels : Kernels
initial_kernels = record { kern_since_sync = 0; pending_kernel_window = 1 }

-- KERN_SYNC_DURATION_BIG
abbrev big_duration : ℕ
big_duration = 10

-- KERN_SYNC_WINDOW_STEPDOWN_THRESH
abbrev stepdown_threshold : ℕ
stepdown_threshold = 1

-- KERN_SYNC_WINDOW_MAX
abbrev pub window_max : ℕ
window_max = 2048

-- The window after a synchronization of so many whole seconds.
unfoldable pub next_window : ℕ → ℕ → ℕ
next_window seconds window =
    if leb big_duration seconds
    then 1
    else if leb stepdown_threshold seconds
    then max (window / 2) 1
    else min (window * 2) window_max

-- What the driver and the clock answer to one launch.
pub record Launch : Type 0 where
  pub found : Bool
  pub launch_result : CuResult
  pub sync_result : CuResult
  pub cuda_sync_start_time : Timespec
  pub cuda_sync_complete_time : Timespec

pub record Launched : Type 0 where
  pub hooked : Hooked
  pub kernels : Kernels

-- The part under `kcount_mutex`.
unfoldable pub count_kernel : Launch → Kernels → Launched
unfolding next_window
count_kernel l k =
    let seconds = (timespecsub l.cuda_sync_complete_time l.cuda_sync_start_time).tv_sec in
    if leb k.pending_kernel_window (k.kern_since_sync + 1)
    then record {
      hooked = record {
        result = l.sync_result;
        trace = continued_with_lock ∷ calls launch_kernel ∷ calls ctx_synchronize ∷ [];
      };
      kernels = record {
        kern_since_sync = 0;
        pending_kernel_window = next_window seconds k.pending_kernel_window;
      };
    }
    else record {
      hooked = record {
        result = l.launch_result;
        trace = continued_with_lock ∷ calls launch_kernel ∷ [];
      };
      kernels = record k { kern_since_sync = k.kern_since_sync + 1 };
    }

unfoldable pub cu_launch_kernel : Launch → Kernels → Launched
unfolding count_kernel
cu_launch_kernel l k =
    if l.found
    then count_kernel l k
    else record { hooked = record { result = cuda_error_not_initialized; trace = [] }; kernels = k }

-- A launch, or `cuda_sync_context` of the client, which sets the window to one.
pub data KernelEvent : Type 0 where
  launches : Launch → KernelEvent
  context_synced : KernelEvent

unfoldable pub kernel_event : KernelEvent → Kernels → Kernels
unfolding cu_launch_kernel
kernel_event (launches l) k = (cu_launch_kernel l k).kernels
kernel_event context_synced k = record k { pending_kernel_window = 1 }

abbrev pub run_kernels : List KernelEvent → Kernels → Kernels
run_kernels [] k = k
run_kernels (e ∷ es) k = run_kernels es (kernel_event e k)

pub record IsBounded (k : Kernels) : Type 0 where
  pub positive : 1 ≤ k.pending_kernel_window
  pub limited : k.pending_kernel_window ≤ window_max
  pub pending : k.kern_since_sync < window_max

next_window-bounds :
    (seconds window : ℕ)
    → 1 ≤ window
    → window ≤ window_max
    → (1 ≤ next_window seconds window) × (next_window seconds window ≤ window_max)
unfolding next_window
next_window-bounds seconds window h k = ground arith

leb-lt : (a b : ℕ) → leb a b ≡ false → b < a
leb-lt a b h = ground arith

count_kernel-IsBounded :
    (l : Launch) (k : Kernels) → IsBounded k → IsBounded (count_kernel l k).kernels
unfolding count_kernel
count_kernel-IsBounded l k v =
    let n =
      next_window-bounds (timespecsub l.cuda_sync_complete_time l.cuda_sync_start_time).tv_sec
        k.pending_kernel_window v.positive v.limited in
    elim (Bool-cases (leb k.pending_kernel_window (k.kern_since_sync + 1))) [
      | inl due ↦ rw due (record { positive = n.0; limited = n.1; pending = omega arith })
      | inr room ↦ rw room (record {
        positive = v.positive;
        limited = v.limited;
        pending = omega (arith, v.limited, leb-lt _ _ room);
      })
    ]

kernel_event-IsBounded :
    (e : KernelEvent) (k : Kernels) → IsBounded k → IsBounded (kernel_event e k)
unfolding kernel_event
kernel_event-IsBounded (launches l) k v = elim (Bool-cases l.found) [
  | inl found ↦ rw found (count_kernel-IsBounded l k v)
  | inr missing ↦ rw missing v
]
kernel_event-IsBounded context_synced k v = record {
  positive = omega arith;
  limited = omega arith;
  pending = v.pending;
}

run_kernels-from :
    (es : List KernelEvent) (k : Kernels) → IsBounded k → IsBounded (run_kernels es k)
run_kernels-from [] k v = v
run_kernels-from (e ∷ es) k v =
    run_kernels-from es (kernel_event e k) (kernel_event-IsBounded e k v)

-- After any launches and any synchronizations by the client's threads, the window of pending kernels
-- is from 1 to 2048, and fewer than 2048 kernels were launched since the last synchronization by
-- `cuLaunchKernel`.
pub run_kernels-IsBounded : (es : List KernelEvent) → IsBounded (run_kernels es initial_kernels)
run_kernels-IsBounded es =
    run_kernels-from es initial_kernels
      (record { positive = omega arith; limited = omega arith; pending = omega arith })

-- When the window of pending kernels is full, what `cuLaunchKernel` returns does not depend on what
-- the launch returned, so the error of a launch is lost.
pub cu_launch_kernel-launch_result :
    (l : Launch) (k : Kernels) (other : CuResult)
    → k.pending_kernel_window ≤ k.kern_since_sync + 1
    → (cu_launch_kernel (record l { launch_result = other }) k).hooked.result
      ≡ (cu_launch_kernel l k).hooked.result
unfolding cu_launch_kernel
cu_launch_kernel-launch_result l k other full =
    let due : leb k.pending_kernel_window (k.kern_since_sync + 1) ≡ true = ground arith in
    rw (due, count_kernel) refl
