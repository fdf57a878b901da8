-- ===== src/Hook/Memory.antt =====
-- `cuMemGetInfo`, `cuMemAlloc` and `cuMemFree`.
use nvshare.Prelude.{
  ℕ, ◌+◌, ◌-◌, ◌*◌, ◌%◌, ◌^◌, ◌≤◌, ◌<◌, ◌≡◌, refl, ◌∙◌, sym, Bool, true, false, ltb, ltb-le, ◌&&◌,
  not, if◌then◌else◌, arith, Bool-cases, inl, inr,
}
use nvshare.Hook.Allocations.{
  Allocations, insert_cuda_allocation, remove_cuda_allocation, total, total-append, IsAccounted,
}

-- `CUresult`
pub data CuResult : Type 0 where
  cuda_success cuda_error_out_of_memory cuda_error_not_initialized : CuResult
  cuda_error : ℕ → CuResult

abbrev pub is_success : CuResult → Bool
is_success cuda_success = true
is_success _ = false

-- What the driver answers: whether the function was found (its `real_` pointer is not NULL), and what
-- the real function returns and stores.
pub record Driver : Type 0 where
  pub has_mem_get_info : Bool
  pub mem_get_info : CuResult
  pub real_free : ℕ
  pub real_total : ℕ
  pub has_mem_alloc_managed : Bool
  pub mem_alloc_managed : CuResult
  pub allocated_at : ℕ
  pub has_mem_free : Bool
  pub mem_free : CuResult

-- The global variables, with the static `got_max_mem_size` of `cuMemAlloc`.
pub record Memory : Type 0 where
  pub allocations : Allocations
  pub size_mem_allocatable : ℕ
  pub got_max_mem_size : Bool
  pub enable_single_oversub : Bool

-- MEMINFO_RESERVE_MIB, in bytes.
abbrev pub meminfo_reserve : ℕ
meminfo_reserve = 1536 * 2 ^ 20

-- The result, and what `*free` and `*total` hold afterwards.
pub record MemInfo : Type 0 where
  pub result : CuResult
  pub free : ℕ
  pub total : ℕ

-- `old_free` and `old_total` are what the caller's variables held before.
unfoldable pub cu_mem_get_info : Driver → ℕ → ℕ → MemInfo
cu_mem_get_info d old_free old_total =
    if d.has_mem_get_info
    then record {
      result = d.mem_get_info;
      free = (d.real_total + 2 ^ 64 - meminfo_reserve) % 2 ^ 64;
      total = d.real_total;
    }
    else record { result = cuda_error_not_initialized; free = old_free; total = old_total }

-- The first allocation asks for the limit, whatever the call's result.
unfoldable pub with_limit : Driver → Memory → Memory
unfolding cu_mem_get_info
with_limit d h = if h.got_max_mem_size then h else record h {
  size_mem_allocatable = (cu_mem_get_info d h.size_mem_allocatable 0).free;
  got_max_mem_size = true;
}

pub record Allocated : Type 0 where
  pub result : CuResult
  pub memory : Memory

unfoldable pub noted : CuResult → ℕ → ℕ → Memory → Memory
noted cuda_success dptr bytesize h = record h {
  allocations = insert_cuda_allocation dptr bytesize h.allocations;
}
noted _ dptr bytesize h = h

-- `CUDA_ERROR_OUT_OF_MEMORY` without a call of the driver, or what the driver says.
unfoldable pub allocate : Driver → ℕ → Memory → Allocated
unfolding noted
allocate d bytesize h =
    if ltb h.size_mem_allocatable ((h.allocations.sum_allocated + bytesize) % 2 ^ 64)
      && not h.enable_single_oversub
    then record { result = cuda_error_out_of_memory; memory = h }
    else record {
      result = d.mem_alloc_managed;
      memory = noted d.mem_alloc_managed d.allocated_at bytesize h;
    }

unfoldable pub cu_mem_alloc : Driver → ℕ → Memory → Allocated
unfolding allocate with_limit
cu_mem_alloc d bytesize h =
    if d.has_mem_alloc_managed
    then allocate d bytesize (with_limit d h)
    else record { result = cuda_error_not_initialized; memory = h }

forgotten : CuResult → ℕ → Memory → Memory
forgotten cuda_success dptr h = record h { allocations = remove_cuda_allocation dptr h.allocations }
forgotten _ dptr h = h

unfoldable pub cu_mem_free : Driver → ℕ → Memory → Allocated
unfolding forgotten
cu_mem_free d dptr h =
    if d.has_mem_free
    then record { result = d.mem_free; memory = forgotten d.mem_free dptr h }
    else record { result = cuda_error_not_initialized; memory = h }

-- On a device with at least as much memory as the reserve, what `cuMemGetInfo` reports as free is the
-- whole memory less the reserve.
pub cu_mem_get_info_free :
    (d : Driver) (old_free old_total : ℕ)
    → d.has_mem_get_info ≡ true
    → d.real_total < 2 ^ 64
    → meminfo_reserve ≤ d.real_total
    → (cu_mem_get_info d old_free old_total).free + meminfo_reserve
      ≡ (cu_mem_get_info d old_free old_total).total
unfolding cu_mem_get_info
cu_mem_get_info_free d old_free old_total h lt le = rw h (omega arith)

-- On a device with less memory than the reserve the difference wraps around: `cuMemGetInfo` reports
-- more memory free than the device has.
pub cu_mem_get_info_wraps :
    (d : Driver) (old_free old_total : ℕ)
    → d.has_mem_get_info ≡ true
    → d.real_total < meminfo_reserve
    → (cu_mem_get_info d old_free old_total).total < (cu_mem_get_info d old_free old_total).free
unfolding cu_mem_get_info
cu_mem_get_info_wraps d old_free old_total h lt = rw h (omega arith)

-- With success the allocations do not exceed the limit; without it they are what they were.
abbrev pub Within : Bool → Memory → Allocations → Type 0
Within true m a = total m.allocations.list ≤ m.size_mem_allocatable
Within false m a = m.allocations ≡ a

-- What the driver's answer makes of the allocations, once the test against the limit has passed.
noted-Within :
    (r : CuResult) (at bytesize : ℕ) (h : Memory)
    → IsAccounted h.allocations
    → ltb h.size_mem_allocatable ((h.allocations.sum_allocated + bytesize) % 2 ^ 64) ≡ false
    → total h.allocations.list + bytesize < 2 ^ 64
    → let m = noted r at bytesize h in
      Within (is_success r) m h.allocations
      × (m.allocations.sum_allocated ≡ total m.allocations.list)
unfolding noted insert_cuda_allocation
noted-Within cuda_success at bytesize h v within fits =
    let le = ltb-le _ _ within in
    let grown = total-append h.allocations.list (record { ptr = at; size = bytesize }) in
    (omega (arith, le, grown, v.exact), omega (arith, grown, v.exact))
noted-Within cuda_error_out_of_memory at bytesize h v within fits = (refl, omega (arith, v.exact))
noted-Within cuda_error_not_initialized at bytesize h v within fits = (refl, omega (arith, v.exact))
noted-Within (cuda_error n) at bytesize h v within fits = (refl, omega (arith, v.exact))

allocate-Within :
    (d : Driver) (bytesize : ℕ) (h : Memory)
    → h.enable_single_oversub ≡ false
    → IsAccounted h.allocations
    → total h.allocations.list + bytesize < 2 ^ 64
    → let r = allocate d bytesize h in
      Within (is_success r.result) r.memory h.allocations
      × (r.memory.allocations.sum_allocated ≡ total r.memory.allocations.list)
unfolding allocate
allocate-Within d bytesize h off v fits =
    elim (Bool-cases
      (ltb h.size_mem_allocatable ((h.allocations.sum_allocated + bytesize) % 2 ^ 64))) [
        | inl over ↦ rw (over, off) (refl, omega (arith, v.exact))
        | inr within ↦
            rw within (noted-Within d.mem_alloc_managed d.allocated_at bytesize h v within fits)
      ]

-- The same for a state whose allocations are known by another name.
allocate-Within_of :
    (d : Driver) (bytesize : ℕ) (h : Memory) (a : Allocations)
    → h.allocations ≡ a
    → h.enable_single_oversub ≡ false
    → IsAccounted a
    → total a.list + bytesize < 2 ^ 64
    → let r = allocate d bytesize h in
      Within (is_success r.result) r.memory a
      × (r.memory.allocations.sum_allocated ≡ total r.memory.allocations.list)
allocate-Within_of d bytesize h a e off v fits =
    rw (sym e) (allocate-Within d bytesize h off (rw e v) (rw e fits))

with_limit-allocations :
    (d : Driver) (h : Memory)
    → ((with_limit d h).allocations ≡ h.allocations)
      × ((with_limit d h).enable_single_oversub ≡ h.enable_single_oversub)
unfolding with_limit
with_limit-allocations d h = elim (Bool-cases h.got_max_mem_size) [
  | inl known ↦ rw known (refl, refl)
  | inr first ↦ rw first (refl, refl)
]

-- With single-process oversubscription off, and as long as the total of the allocations and the new
-- one fits a size_t: after a successful `cuMemAlloc` the allocations do not exceed the limit; after
-- any other result they are what they were. The sum stays the exact total of the list.
pub cu_mem_alloc-Within :
    (d : Driver) (bytesize : ℕ) (h : Memory)
    → h.enable_single_oversub ≡ false
    → IsAccounted h.allocations
    → total h.allocations.list + bytesize < 2 ^ 64
    → let r = cu_mem_alloc d bytesize h in
      Within (is_success r.result) r.memory h.allocations
      × (r.memory.allocations.sum_allocated ≡ total r.memory.allocations.list)
unfolding cu_mem_alloc
cu_mem_alloc-Within d bytesize h off v fits = elim (Bool-cases d.has_mem_alloc_managed) [
  | inl found ↦
      let k = with_limit-allocations d h in
      rw found (allocate-Within_of d bytesize (with_limit d h) h.allocations k.0 (k.1 ∙ off) v fits)
  | inr missing ↦ rw missing (refl, omega (arith, v.exact))
]

no_overflow :
    (limit sum : ℕ)
    → limit < 2 ^ 64
    → 2 ^ 64 ≤ sum
    → sum ≤ 2 ^ 64 + limit
    → ltb limit (sum % 2 ^ 64) ≡ false
no_overflow limit sum small carry low = ground arith

-- The test against the limit adds two words of 64 bits and forgets the carry. Once the limit is
-- known, a request for which the sum wraps around to no more than the limit is passed on to the
-- driver, although it is for more than the limit allows.
pub cu_mem_alloc_wraps :
    (d : Driver) (bytesize : ℕ) (h : Memory)
    → d.has_mem_alloc_managed ≡ true
    → h.got_max_mem_size ≡ true
    → h.size_mem_allocatable < 2 ^ 64
    → 2 ^ 64 ≤ h.allocations.sum_allocated + bytesize
    → h.allocations.sum_allocated + bytesize ≤ 2 ^ 64 + h.size_mem_allocatable
    → ((cu_mem_alloc d bytesize h).result ≡ d.mem_alloc_managed)
      × (h.size_mem_allocatable < h.allocations.sum_allocated + bytesize)
unfolding cu_mem_alloc with_limit allocate
cu_mem_alloc_wraps d bytesize h found known small carry low =
    (rw (found, known, no_overflow _ _ small carry low) refl, omega arith)
