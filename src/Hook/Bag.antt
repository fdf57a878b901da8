-- ===== src/Hook/Bag.antt =====
-- What the list of allocations of src/hook.c stands for: which blocks are allocated, in no order.
pub mod Uses
use nvshare.Prelude.{
  ℕ, ◌+◌, ◌-◌, ◌%◌, ◌^◌, ◌<◌, ◌≡◌, refl, sym, subst, ap, ◌∙◌, Bool, true, false, List, [], ◌∷◌,
  ◌++◌, All, ◌==◌, if◌then◌else◌, arith, Bool-cases, inl, inr,
}
use mathlib.Core.List.{Permᴰ}
use mathlib.Core.List.Permᴰ
use mathlib.Core.Quot
use mathlib.Core.Quot.{Quot, Quot-set}
use native.Mathlib.Nat.{ℕ_set}
use nvshare.Hook.Allocations.{
  Allocation, Allocations, insert_cuda_allocation, remove_loop, remove_cuda_allocation, total,
  IsAccounted, insert_cuda_allocation-IsAccounted, remove_cuda_allocation-IsAccounted,
}

abbrev pub Bag : Type 0
Bag = Quot (Permᴰ {A = Allocation})

pub total-Permᴰ : {xs ys : List Allocation} → Permᴰ xs ys → total xs ≡ total ys
total-Permᴰ Permᴰ.nil = refl
total-Permᴰ (Permᴰ.cons e k) = omega (arith, ap (λ (a : Allocation). a.size) e, total-Permᴰ k)
total-Permᴰ (Permᴰ.swap e f) =
    omega (arith, ap (λ (a : Allocation). a.size) e, ap (λ (a : Allocation). a.size) f)
total-Permᴰ (Permᴰ.trans h k) = total-Permᴰ h ∙ total-Permᴰ k

-- The blocks that do not start at the pointer.
abbrev pub without : ℕ → List Allocation → List Allocation
without p [] = []
without p (a ∷ rest) = let k = without p rest in if a.ptr == p then k else a ∷ k

without-cons :
    (p : ℕ) (a : Allocation) (xs ys : List Allocation)
    → Permᴰ (without p xs) (without p ys)
    → Permᴰ (without p (a ∷ xs)) (without p (a ∷ ys))
without-cons p a xs ys k = elim (Bool-cases (a.ptr == p)) [
  | inl same ↦ rw same k
  | inr other ↦ rw other (Permᴰ.cons refl k)
]

without-swap :
    (p : ℕ) (a b : Allocation) (l : List Allocation)
    → Permᴰ (without p (a ∷ b ∷ l)) (without p (b ∷ a ∷ l))
without-swap p a b l = elim (Bool-cases (a.ptr == p)) [
  | inl same ↦ rw same (Permᴰ.refl _)
  | inr other ↦ elim (Bool-cases (b.ptr == p)) [
    | inl same' ↦ rw (other, same') (Permᴰ.refl _)
    | inr other' ↦ rw (other, other') (Permᴰ.swap refl refl)
  ]
]

pub without-Permᴰ :
    (p : ℕ) {xs ys : List Allocation} → Permᴰ xs ys → Permᴰ (without p xs) (without p ys)
without-Permᴰ p Permᴰ.nil = Permᴰ.nil
without-Permᴰ p (Permᴰ.cons {a} {b} {l₁} {l₂} e k) =
    subst (λ b. Permᴰ (without p (a ∷ l₁)) (without p (b ∷ l₂))) e
      (without-cons p a l₁ l₂ (without-Permᴰ p k))
without-Permᴰ p (Permᴰ.swap {a} {b} {a'} {b'} {l} e f) =
    subst (λ b'. Permᴰ (without p (a ∷ b ∷ l)) (without p (a' ∷ b' ∷ l))) e
      (subst (λ a'. Permᴰ (without p (a ∷ b ∷ l)) (without p (a' ∷ a ∷ l))) f
        (without-swap p a b l))
without-Permᴰ p (Permᴰ.trans h k) = Permᴰ.trans (without-Permᴰ p h) (without-Permᴰ p k)

pub append_one : (xs : List Allocation) (a : Allocation) → Permᴰ (xs ++ a ∷ []) (a ∷ xs)
append_one [] a = Permᴰ.refl _
append_one (x ∷ xs) a = Permᴰ.trans (Permᴰ.cons refl (append_one xs a)) (Permᴰ.swap refl refl)

-- A block is allocated; the blocks at a pointer are freed; the bytes of all blocks.
unfoldable pub put : Allocation → Bag → Bag
put a = Quot.lift Quot-set (λ xs. Quot.mk (a ∷ xs)) (λ xs ys h. Quot.sound (Permᴰ.cons refl h))

unfoldable pub free : ℕ → Bag → Bag
free p =
    Quot.lift Quot-set (λ xs. Quot.mk (without p xs)) (λ xs ys h. Quot.sound (without-Permᴰ p h))

unfoldable pub bytes : Bag → ℕ
bytes = Quot.lift ℕ_set total (λ xs ys h. total-Permᴰ h)

-- The blocks that a state of the program stands for.
unfoldable pub view : Allocations → Bag
view h = Quot.mk h.list
