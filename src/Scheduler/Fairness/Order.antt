-- ===== src/Scheduler/Fairness/Order.antt =====
-- Lists that have lost some entries and kept the order of the others, and who is ahead of whom.
use nvshare.Prelude.{
  ℕ, ◌+◌, ◌≤◌, ◌≡◌, refl, true, false, List, [], ◌∷◌, ◌++◌, ◌==◌, if◌then◌else◌, length, arith,
  Bool-cases, inl, inr,
}
use nvshare.Scheduler.Clients.{contains, without}
use nvshare.Scheduler.Lists.{Distinct, without-absent}

-- The first list is the second one without some of its entries.
pub data InOrder : List ℕ → List ℕ → Type 0 where
  none_left : InOrder [] []
  keep : (y : ℕ) {xs ys : List ℕ} → InOrder xs ys → InOrder (y ∷ xs) (y ∷ ys)
  skip : (y : ℕ) {xs ys : List ℕ} → InOrder xs ys → InOrder xs (y ∷ ys)

-- The entries in front of `x`.
unfoldable pub ahead : ℕ → List ℕ → List ℕ
ahead x [] = []
ahead x (y ∷ ys) = let rest = ahead x ys in if y == x then [] else y ∷ rest

pub InOrder-refl : (xs : List ℕ) → InOrder xs xs
InOrder-refl [] = none_left
InOrder-refl (x ∷ xs) = keep x (InOrder-refl xs)

pub InOrder-empty : (ys : List ℕ) → InOrder [] ys
InOrder-empty [] = none_left
InOrder-empty (y ∷ ys) = skip y (InOrder-empty ys)

pub InOrder-trans : {xs ys zs : List ℕ} → InOrder xs ys → InOrder ys zs → InOrder xs zs
InOrder-trans h (skip y k) = skip y (InOrder-trans h k)
InOrder-trans none_left none_left = none_left
InOrder-trans (keep x h) (keep y k) = keep y (InOrder-trans h k)
InOrder-trans (skip x h) (keep y k) = skip y (InOrder-trans h k)

pub without-InOrder : (fd : ℕ) (xs : List ℕ) → InOrder (without fd xs) xs
unfolding without
without-InOrder fd [] = none_left
without-InOrder fd (x ∷ xs) = elim (Bool-cases (x == fd)) [
  | inl same ↦ rw same (skip x (without-InOrder fd xs))
  | inr other ↦ rw other (keep x (without-InOrder fd xs))
]

pub contains-InOrder :
    (x : ℕ) {xs ys : List ℕ} → InOrder xs ys → contains x xs ≡ true → contains x ys ≡ true
unfolding contains
contains-InOrder x none_left h = h
contains-InOrder x (keep y {xs} {ys} k) h = ground (arith, contains-InOrder x k)
contains-InOrder x (skip y {xs} {ys} k) h = ground (arith, contains-InOrder x k)

pub length-InOrder : {xs ys : List ℕ} → InOrder xs ys → length xs ≤ length ys
length-InOrder none_left = omega arith
length-InOrder (keep y k) = omega (arith, length-InOrder k)
length-InOrder (skip y k) = omega (arith, length-InOrder k)

ahead_same : (x y : ℕ) (ys : List ℕ) → (y == x) ≡ true → ahead x (y ∷ ys) ≡ []
unfolding ahead
ahead_same x y ys h = rw h refl

ahead_other : (x y : ℕ) (ys : List ℕ) → (y == x) ≡ false → ahead x (y ∷ ys) ≡ y ∷ ahead x ys
unfolding ahead
ahead_other x y ys h = rw h refl

contains_other :
    (x y : ℕ) (ys : List ℕ) → (y == x) ≡ false → contains x (y ∷ ys) ≡ true → contains x ys ≡ true
unfolding contains
contains_other x y ys h k = ground (arith, h, k)

-- While `x` stays in the list, nobody comes in front of it.
pub ahead-InOrder :
    (x : ℕ) {xs ys : List ℕ}
    → InOrder xs ys
    → Distinct ys
    → contains x xs ≡ true
    → InOrder (ahead x xs) (ahead x ys)
ahead-InOrder x none_left d h = InOrder-refl (ahead x [])
ahead-InOrder x (keep y {xs} {ys} k) d h = elim (Bool-cases (y == x)) [
  | inl same ↦ rw (ahead_same x y xs same, ahead_same x y ys same) none_left
  | inr other ↦
      rw (ahead_other x y xs other, ahead_other x y ys other)
        (keep y (ahead-InOrder x k d.1 (contains_other x y xs other h)))
]
ahead-InOrder x (skip y {xs} {ys} k) d h = elim (Bool-cases (y == x)) [
  | inl same ↦ absurd (ground (arith, same, d.0, contains-InOrder x k h))
  | inr other ↦ rw (ahead_other x y ys other) (skip y (ahead-InOrder x k d.1 h))
]

pub ahead-append : (x : ℕ) (xs ys : List ℕ) → contains x xs ≡ true → ahead x (xs ++ ys) ≡ ahead x xs
ahead-append x [] ys h = unfold contains in cc
ahead-append x (y ∷ xs) ys h = elim (Bool-cases (y == x)) [
  | inl same ↦ rw (ahead_same x y (xs ++ ys) same, ahead_same x y xs same) refl
  | inr other ↦
      rw
        (
          ahead_other x y (xs ++ ys) other,
          ahead_other x y xs other,
          ahead-append x xs ys (contains_other x y xs other h),
        )
        refl
]

-- When the first entry goes, the others are one place nearer.
pub ahead-without_head :
    (x h : ℕ) (rest : List ℕ)
    → (h == x) ≡ false
    → Distinct (h ∷ rest)
    → length (ahead x (without h (h ∷ rest))) + 1 ≡ length (ahead x (h ∷ rest))
ahead-without_head x h rest other d = rw (without_first, ahead_other x h rest other) (omega arith)
  where
    without_first : without h (h ∷ rest) ≡ rest
    without_first = unfold without in ground (arith, without-absent h rest d.0)
