-- ===== src/Hook/Allocations.antt =====
-- The list of CUDA memory allocations and `sum_allocated`. The source takes no mutex for them; each
-- operation here is a whole call, with no call of another thread at the same time.
use nvshare.Prelude.{
  ℕ, ◌+◌, ◌-◌, ◌%◌, ◌^◌, ◌<◌, ◌≡◌, refl, ap, ◌∙◌, false, List, [], ◌∷◌, ◌++◌, All, ◌==◌,
  if◌then◌else◌, arith, Bool-cases, inl, inr,
}

-- `struct cuda_mem_allocation`
pub record Allocation : Type 0 where
  pub ptr : ℕ
  pub size : ℕ

-- `cuda_allocation_list` and `sum_allocated`, a size_t.
pub record Allocations : Type 0 where
  pub list : List Allocation
  pub sum_allocated : ℕ

unfoldable pub insert_cuda_allocation : ℕ → ℕ → Allocations → Allocations
insert_cuda_allocation dptr bytesize h = record {
  list = h.list ++ record { ptr = dptr; size = bytesize } ∷ [];
  sum_allocated = (h.sum_allocated + bytesize) % 2 ^ 64;
}

-- Every entry that starts at the pointer is deleted, and its size taken off the sum.
unfoldable pub remove_loop : ℕ → ℕ → List Allocation → Allocations
remove_loop rm_ptr sum [] = record { list = []; sum_allocated = sum }
remove_loop rm_ptr sum (a ∷ rest) =
    let deleted = remove_loop rm_ptr ((sum + 2 ^ 64 - a.size) % 2 ^ 64) rest in
    let rest = remove_loop rm_ptr sum rest in
    if a.ptr == rm_ptr then deleted else record rest { list = a ∷ rest.list }

unfoldable pub remove_cuda_allocation : ℕ → Allocations → Allocations
remove_cuda_allocation rm_ptr h = remove_loop rm_ptr h.sum_allocated h.list

-- The bytes that the listed allocations take together.
abbrev pub total : List Allocation → ℕ
total [] = 0
total (a ∷ rest) = a.size + total rest

-- A size is a size_t.
abbrev pub IsSized : List Allocation → Type 0
IsSized = All (λ a. a.size < 2 ^ 64)

pub total-append :
    (rest : List Allocation) (a : Allocation) → total (rest ++ a ∷ []) ≡ total rest + a.size
total-append [] a = omega arith
total-append (b ∷ rest) a = omega (arith, total-append rest a)

IsSized-append :
    (rest : List Allocation) (a : Allocation)
    → IsSized rest
    → a.size < 2 ^ 64
    → IsSized (rest ++ a ∷ [])
IsSized-append [] a s h = (h, tt)
IsSized-append (b ∷ rest) a s h = (s.0, IsSized-append rest a s.1 h)

-- `sum_allocated` is the total of the list, as far as a size_t can hold it.
pub record IsAccounted (h : Allocations) : Type 0 where
  pub sized : IsSized h.list
  pub exact : h.sum_allocated ≡ total h.list % 2 ^ 64

pub insert_cuda_allocation-IsAccounted :
    (dptr bytesize : ℕ) (h : Allocations)
    → bytesize < 2 ^ 64
    → IsAccounted h
    → IsAccounted (insert_cuda_allocation dptr bytesize h)
unfolding insert_cuda_allocation
insert_cuda_allocation-IsAccounted dptr bytesize h lt v = record {
  sized = IsSized-append h.list _ v.sized lt;
  exact = omega (arith, v.exact, total-append h.list (record { ptr = dptr; size = bytesize }));
}

-- `before` is the part of the total that stands in front of the rest of the list.
remove_loop_total :
    (rm_ptr sum before : ℕ) (rest : List Allocation)
    → IsSized rest
    → sum ≡ (before + total rest) % 2 ^ 64
    → let r = remove_loop rm_ptr sum rest in
      IsSized r.list × (r.sum_allocated ≡ (before + total r.list) % 2 ^ 64)
unfolding remove_loop
remove_loop_total rm_ptr sum before [] s e = (tt, e)
remove_loop_total rm_ptr sum before (a ∷ rest) s e = elim (Bool-cases (a.ptr == rm_ptr)) [
  | inl own ↦ rw own (
      remove_loop_total rm_ptr ((sum + 2 ^ 64 - a.size) % 2 ^ 64) before rest s.1
        (omega (arith, s.0)))
  | inr other ↦
      let k = remove_loop_total rm_ptr sum (before + a.size) rest s.1 (omega arith) in
      rw other ((s.0, k.0), omega (arith, k.1))
]

-- If the sum of the sizes is the total of the list, as far as a size_t can hold it, then it is so
-- after a removal, whether the pointer is listed once, several times or not at all.
pub remove_cuda_allocation-IsAccounted :
    (rm_ptr : ℕ) (h : Allocations) → IsAccounted h → IsAccounted (remove_cuda_allocation rm_ptr h)
unfolding remove_cuda_allocation
remove_cuda_allocation-IsAccounted rm_ptr h v =
    let k = remove_loop_total rm_ptr h.sum_allocated 0 h.list v.sized (omega (arith, v.exact)) in
    record { sized = k.0; exact = omega (arith, k.1) }

-- No allocation starts at the pointer.
abbrev pub IsUnused : ℕ → List Allocation → Type 0
IsUnused dptr = All (λ a. (a.ptr == dptr) ≡ false)

remove_loop-append :
    (dptr bytesize sum : ℕ) (rest : List Allocation)
    → IsUnused dptr rest
    → remove_loop dptr sum (rest ++ record { ptr = dptr; size = bytesize } ∷ [])
      ≡ record { list = rest; sum_allocated = (sum + 2 ^ 64 - bytesize) % 2 ^ 64 }
unfolding remove_loop
remove_loop-append dptr bytesize sum [] u = ground arith
remove_loop-append dptr bytesize sum (a ∷ rest) u =
    rw (u.0, remove_loop-append dptr bytesize sum rest u.1) refl

-- An allocation at an unused address that is removed again leaves the list and the sum as they were.
pub remove_cuda_allocation-insert_cuda_allocation :
    (dptr bytesize : ℕ) (h : Allocations)
    → IsUnused dptr h.list
    → h.sum_allocated < 2 ^ 64
    → bytesize < 2 ^ 64
    → remove_cuda_allocation dptr (insert_cuda_allocation dptr bytesize h) ≡ h
unfolding remove_cuda_allocation insert_cuda_allocation
remove_cuda_allocation-insert_cuda_allocation dptr bytesize h u s b =
    let e : ((h.sum_allocated + bytesize) % 2 ^ 64 + 2 ^ 64 - bytesize) % 2 ^ 64 ≡ h.sum_allocated =
      omega arith in
    remove_loop-append dptr bytesize ((h.sum_allocated + bytesize) % 2 ^ 64) h.list u
    ∙ ap (λ n. record h { sum_allocated = n }) e
