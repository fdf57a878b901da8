-- ===== src/Hook/Bag/Uses.antt =====
-- The list of allocations and `sum_allocated` over any run of allocations and frees.
use nvshare.Prelude.{
  ℕ, ◌+◌, ◌-◌, ◌%◌, ◌^◌, ◌<◌, ◌≡◌, refl, subst, ap, List, [], ◌∷◌, All, ◌==◌, Bool-cases, inl, inr,
}
use mathlib.Core.Quot
use mathlib.Core.Quot.{Quot, Quot-set}
use nvshare.Hook.Allocations.{
  Allocation, Allocations, insert_cuda_allocation, remove_loop, remove_cuda_allocation, IsAccounted,
  insert_cuda_allocation-IsAccounted, remove_cuda_allocation-IsAccounted,
}
use nvshare.Hook.Bag.{Bag, without, append_one, put, free, bytes, view}

-- What the program does with its allocations.
pub data Use : Type 0 where
  allocates : ℕ → ℕ → Use
  frees : ℕ → Use

unfoldable pub use_list : Use → Allocations → Allocations
use_list (allocates dptr bytesize) h = insert_cuda_allocation dptr bytesize h
use_list (frees dptr) h = remove_cuda_allocation dptr h

unfoldable pub use_bag : Use → Bag → Bag
use_bag (allocates dptr bytesize) b = put (record { ptr = dptr; size = bytesize }) b
use_bag (frees dptr) b = free dptr b

unfoldable pub use_lists : List Use → Allocations → Allocations
unfolding use_list
use_lists [] h = h
use_lists (u ∷ us) h = use_lists us (use_list u h)

unfoldable pub use_bags : List Use → Bag → Bag
unfolding use_bag
use_bags [] b = b
use_bags (u ∷ us) b = use_bags us (use_bag u b)

abbrev pub IsWord : Use → Type 0
IsWord (allocates dptr bytesize) = bytesize < 2 ^ 64
IsWord (frees dptr) = Unit

remove_loop-list : (p sum : ℕ) (xs : List Allocation) → (remove_loop p sum xs).list ≡ without p xs
unfolding remove_loop
remove_loop-list p sum [] = refl
remove_loop-list p sum (a ∷ rest) = elim (Bool-cases (a.ptr == p)) [
  | inl same ↦ rw same (remove_loop-list p ((sum + 2 ^ 64 - a.size) % 2 ^ 64) rest)
  | inr other ↦ rw other (ap (◌∷◌ a) (remove_loop-list p sum rest))
]

view-use_list : (u : Use) (h : Allocations) → view (use_list u h) ≡ use_bag u (view h)
unfolding view use_list use_bag put free insert_cuda_allocation remove_cuda_allocation
view-use_list (allocates dptr bytesize) h = Quot.sound (append_one h.list _)
view-use_list (frees dptr) h = ap Quot.mk (remove_loop-list dptr h.sum_allocated h.list)

use_list-IsAccounted :
    (u : Use) (h : Allocations) → IsWord u → IsAccounted h → IsAccounted (use_list u h)
unfolding use_list
use_list-IsAccounted (allocates dptr bytesize) h w v =
    insert_cuda_allocation-IsAccounted dptr bytesize h w v
use_list-IsAccounted (frees dptr) h w v = remove_cuda_allocation-IsAccounted dptr h v

-- The list stands for the blocks `b`, and `sum_allocated` is their bytes, as far as a size_t holds it.
pub record StandsFor (b : Bag) (h : Allocations) : Type 0 where
  pub blocks : view h ≡ b
  pub sum : h.sum_allocated ≡ bytes b % 2 ^ 64

-- Over any allocations and frees, in any order, the list and the sum are those of the blocks that are
-- allocated, where a block is an unordered thing: an allocation adds one, a free takes away all blocks
-- that start at its pointer, and `sum_allocated` is the total of what is there, up to 2 ^ 64.
pub use_lists-StandsFor :
    (us : List Use) (h : Allocations)
    → IsAccounted h
    → All IsWord us
    → StandsFor (use_bags us (view h)) (use_lists us h)
unfolding use_lists use_bags
use_lists-StandsFor [] h v w = record { blocks = refl; sum = unfold view bytes in v.exact }
use_lists-StandsFor (u ∷ us) h v w =
    subst (λ b. StandsFor (use_bags us b) (use_lists us (use_list u h))) (view-use_list u h)
      (use_lists-StandsFor us (use_list u h) (use_list-IsAccounted u h w.0 v) w.1)
