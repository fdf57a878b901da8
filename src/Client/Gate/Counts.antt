-- ===== src/Client/Gate/Counts.antt =====
-- How many threads are at a stage, and what the turns of one thread change of it.
use nvshare.Prelude.{
  ℕ, zero, suc, ◌+◌, ◌≤◌, ◌≡◌, refl, List, [], ◌∷◌, some, get_elem?, set, replicate, ap, arith,
}
use mathlib.Core.Option.{some-injective}
use nvshare.Client.Gate.{Stage, outside, waiting, woken, passed, broadcast}

abbrev pub total : (Stage → ℕ) → List Stage → ℕ
total weight [] = 0
total weight (s ∷ threads) = weight s + total weight threads

abbrev pub waits_here : Stage → ℕ
waits_here waiting = 1
waits_here _ = 0

abbrev pub is_behind : Stage → ℕ
is_behind passed = 1
is_behind _ = 0

pub total-set :
    (weight : Stage → ℕ) (threads : List Stage) (i : ℕ) (old new : Stage)
    → get_elem? threads i ≡ some old
    → total weight (set threads i new) + weight old ≡ total weight threads + weight new
total-set weight [] i old new e = cc
total-set weight (s ∷ threads) zero old new e = omega (arith, ap weight (some-injective _ _ e))
total-set weight (s ∷ threads) (suc i) old new e =
    omega (arith, total-set weight threads i old new e)

pub total-broadcast_waits : (threads : List Stage) → total waits_here (broadcast threads) ≡ 0
total-broadcast_waits [] = refl
total-broadcast_waits (outside ∷ threads) = omega (arith, total-broadcast_waits threads)
total-broadcast_waits (waiting ∷ threads) = omega (arith, total-broadcast_waits threads)
total-broadcast_waits (woken ∷ threads) = omega (arith, total-broadcast_waits threads)
total-broadcast_waits (passed ∷ threads) = omega (arith, total-broadcast_waits threads)

pub total-broadcast_behind :
    (threads : List Stage) → total is_behind (broadcast threads) ≡ total is_behind threads
total-broadcast_behind [] = refl
total-broadcast_behind (outside ∷ threads) = omega (arith, total-broadcast_behind threads)
total-broadcast_behind (waiting ∷ threads) = omega (arith, total-broadcast_behind threads)
total-broadcast_behind (woken ∷ threads) = omega (arith, total-broadcast_behind threads)
total-broadcast_behind (passed ∷ threads) = omega (arith, total-broadcast_behind threads)

-- A thread at a stage is counted.
pub total-get_elem? :
    (weight : Stage → ℕ) (threads : List Stage) (i : ℕ) (s : Stage)
    → get_elem? threads i ≡ some s
    → weight s ≤ total weight threads
total-get_elem? weight [] i s e = cc
total-get_elem? weight (t ∷ threads) zero s e = omega (arith, ap weight (some-injective _ _ e))
total-get_elem? weight (t ∷ threads) (suc i) s e =
    omega (arith, total-get_elem? weight threads i s e)

pub get_elem?-broadcast :
    (threads : List Stage) (i : ℕ)
    → get_elem? threads i ≡ some waiting
    → get_elem? (broadcast threads) i ≡ some woken
get_elem?-broadcast [] i e = cc
get_elem?-broadcast (outside ∷ threads) zero e = cc
get_elem?-broadcast (waiting ∷ threads) zero e = refl
get_elem?-broadcast (woken ∷ threads) zero e = cc
get_elem?-broadcast (passed ∷ threads) zero e = cc
get_elem?-broadcast (outside ∷ threads) (suc i) e = get_elem?-broadcast threads i e
get_elem?-broadcast (waiting ∷ threads) (suc i) e = get_elem?-broadcast threads i e
get_elem?-broadcast (woken ∷ threads) (suc i) e = get_elem?-broadcast threads i e
get_elem?-broadcast (passed ∷ threads) (suc i) e = get_elem?-broadcast threads i e

pub get_elem?-set :
    (threads : List Stage) (i : ℕ) (old new : Stage)
    → get_elem? threads i ≡ some old
    → get_elem? (set threads i new) i ≡ some new
get_elem?-set [] i old new e = cc
get_elem?-set (s ∷ threads) zero old new e = refl
get_elem?-set (s ∷ threads) (suc i) old new e = get_elem?-set threads i old new e

pub total-replicate_outside : (n : ℕ) → total waits_here (replicate n outside) ≡ 0
total-replicate_outside zero = refl
total-replicate_outside (suc n) = omega (arith, total-replicate_outside n)
