-- ===== src/Hook/Tests.antt =====
-- Allocations, kernels and symbols on concrete inputs.
use Prim.Native.String.{String}
use text.Mathlib.Text.{◌==◌ as ◌is◌}
use text.Mathlib.TextEquality.{eq_iff}
use nvshare.Prelude.{◌^◌, ◌≡◌, ◌≢◌, refl, sym, ℕ, true, false, Bool, List, [], ◌∷◌, arith}
use nvshare.Hook.Allocations.{
  Allocations, IsAccounted, insert_cuda_allocation, remove_cuda_allocation,
  remove_cuda_allocation-IsAccounted, remove_cuda_allocation-insert_cuda_allocation, total,
}
use nvshare.Hook.Memory.{
  Driver, Memory, cuda_success, is_success, cu_mem_alloc, Within, cu_mem_alloc-Within,
}
use nvshare.Hook.Window.{
  Launch, KernelEvent, launches, context_synced, run_kernels, initial_kernels, IsBounded,
  run_kernels-IsBounded,
}
use nvshare.Hook.Symbols.{
  Hook, hooked, real, mem_alloc, mem_free, mem_get_info, get_proc_address, get_proc_address_v2,
  init, launch_kernel, memcpy, memcpy_async, memcpy_dtoh, memcpy_dtoh_async, memcpy_htod,
  memcpy_htod_async, memcpy_dtod, memcpy_dtod_async, dlsym_225, dlsym_234, cu_get_proc_address,
  cu_get_proc_address_v2,
}
use nvshare.Hook.Bag.{view}
use nvshare.Hook.Bag.Uses.{
  Use, allocates, frees, use_lists, use_bags, StandsFor, use_lists-StandsFor,
}
use nvshare.Hook.Lookup.{exported_name, plain_name, hook_reached, dlsym_others}

abbrev two_allocations : Allocations
two_allocations = record {
  list = record { ptr = 4096; size = 100 } ∷ record { ptr = 8192; size = 50 } ∷ [];
  sum_allocated = 150;
}

two_allocations-IsAccounted : IsAccounted two_allocations
two_allocations-IsAccounted = record { sized = (omega arith, (omega arith, tt)); exact = refl }

-- A block is allocated, one of the first two freed, and one freed that was never there.
abbrev some_uses : List Use
some_uses = allocates 12288 7 ∷ frees 4096 ∷ frees 9 ∷ []

use_lists-StandsFor_example :
    StandsFor (use_bags some_uses (view two_allocations)) (use_lists some_uses two_allocations)
use_lists-StandsFor_example =
    use_lists-StandsFor some_uses two_allocations two_allocations-IsAccounted
      (omega arith, (tt, (tt, tt)))

bytes_used : (use_lists some_uses two_allocations).sum_allocated ≡ 57
unfolding use_lists insert_cuda_allocation remove_cuda_allocation
    nvshare.Hook.Allocations.remove_loop
bytes_used = refl

remove_cuda_allocation-insert_cuda_allocation_example :
    remove_cuda_allocation 12288 (insert_cuda_allocation 12288 7 two_allocations) ≡ two_allocations
remove_cuda_allocation-insert_cuda_allocation_example =
    remove_cuda_allocation-insert_cuda_allocation 12288 7 two_allocations (refl, (refl, tt))
      (omega arith) (omega arith)

-- A device with so much memory, whose driver succeeds.
abbrev device : ℕ → Driver
device memory = record {
  has_mem_get_info = true;
  mem_get_info = cuda_success;
  real_free = memory;
  real_total = memory;
  has_mem_alloc_managed = true;
  mem_alloc_managed = cuda_success;
  allocated_at = 12288;
  has_mem_free = true;
  mem_free = cuda_success;
}

abbrev memory : Memory
memory = record {
  allocations = two_allocations;
  size_mem_allocatable = 0;
  got_max_mem_size = false;
  enable_single_oversub = false;
}

cu_mem_alloc-Within_example :
    let r = cu_mem_alloc (device (2 ^ 34)) 1000 memory in
    Within (is_success r.result) r.memory two_allocations
    × (r.memory.allocations.sum_allocated ≡ total r.memory.allocations.list)
cu_mem_alloc-Within_example =
    cu_mem_alloc-Within (device (2 ^ 34)) 1000 memory refl two_allocations-IsAccounted (omega arith)

abbrev slow_launch : Launch
slow_launch = record {
  found = true;
  launch_result = cuda_success;
  sync_result = cuda_success;
  cuda_sync_start_time = record { tv_sec = 5; tv_nsec = 0 };
  cuda_sync_complete_time = record { tv_sec = 5; tv_nsec = 300 };
}

abbrev kernel_events : List KernelEvent
kernel_events =
    launches slow_launch
    ∷ launches slow_launch
    ∷ launches slow_launch
    ∷ context_synced
    ∷ launches slow_launch
    ∷ []

run_kernels-IsBounded_example : IsBounded (run_kernels kernel_events initial_kernels)
run_kernels-IsBounded_example = run_kernels-IsBounded kernel_events

hook_reached_example :
    (dlsym_225 "cuMemAlloc_v2" ≡ hooked mem_alloc)
    × (dlsym_234 "cuMemAlloc_v2" ≡ hooked mem_alloc)
    × (cu_get_proc_address true "cuMemAlloc" ≡ hooked mem_alloc)
    × (cu_get_proc_address_v2 true "cuMemAlloc" ≡ hooked mem_alloc)
hook_reached_example = hook_reached mem_alloc

different : (s t : String) → (s is t) ≡ false → s ≢ t
different s t h e = apart (sym h) ((eq_iff s t).1 e)
  where
    apart : {b : Bool} → false ≡ b → b ≡ true → ⊥
    apart p q = cc

other_exported : (hook : Hook) → "cuMemAlloc" ≢ exported_name hook
other_exported mem_alloc = different _ _ refl
other_exported mem_free = different _ _ refl
other_exported mem_get_info = different _ _ refl
other_exported get_proc_address = different _ _ refl
other_exported get_proc_address_v2 = different _ _ refl
other_exported init = different _ _ refl
other_exported launch_kernel = different _ _ refl
other_exported memcpy = different _ _ refl
other_exported memcpy_async = different _ _ refl
other_exported memcpy_dtoh = different _ _ refl
other_exported memcpy_dtoh_async = different _ _ refl
other_exported memcpy_htod = different _ _ refl
other_exported memcpy_htod_async = different _ _ refl
other_exported memcpy_dtod = different _ _ refl
other_exported memcpy_dtod_async = different _ _ refl

other_plain : (hook : Hook) → "cuMemAlloc_v2" ≢ plain_name hook
other_plain mem_alloc = different _ _ refl
other_plain mem_free = different _ _ refl
other_plain mem_get_info = different _ _ refl
other_plain get_proc_address = different _ _ refl
other_plain get_proc_address_v2 = different _ _ refl
other_plain init = different _ _ refl
other_plain launch_kernel = different _ _ refl
other_plain memcpy = different _ _ refl
other_plain memcpy_async = different _ _ refl
other_plain memcpy_dtoh = different _ _ refl
other_plain memcpy_dtoh_async = different _ _ refl
other_plain memcpy_htod = different _ _ refl
other_plain memcpy_htod_async = different _ _ refl
other_plain memcpy_dtod = different _ _ refl
other_plain memcpy_dtod_async = different _ _ refl

dlsym_others_example : (dlsym_225 "cuMemAlloc" ≡ real) × (dlsym_234 "cuMemAlloc" ≡ real)
dlsym_others_example = dlsym_others "cuMemAlloc" other_exported

abbrev known_limit : Memory
known_limit = record memory { size_mem_allocatable = 1000; got_max_mem_size = true }
