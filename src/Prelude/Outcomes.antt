-- ===== src/Prelude/Outcomes.antt =====
-- How a call ends: it returns, the process exits by `log_fatal` or `true_or_exit`, it follows a
-- pointer that is NULL or to a client that is not in the list, or it is still in a loop when the bound
-- of the model is spent. The loop of `delete_client` reads a block that it has freed itself; this is
-- no `fault` here, but gives any number.
use mathlib.Core.Bool.{Bool, true, false}
use nvshare.Prelude.Tests.{if◌then◌else◌}
use mathlib.Core.Path.{◌≡◌, refl}

pub data Outcome {ℓ} (A : Type ℓ) : Type ℓ where
  ok : A → Outcome A
  exited : Outcome A
  fault : Outcome A
  spinning : Outcome A

infixl 5 ◌>>=◌ ◌>>◌
abbrev pub ◌>>=◌ {ℓ κ} : {A : Type ℓ} {B : Type κ} → Outcome A → (A → Outcome B) → Outcome B
ok a >>= f = f a
exited >>= f = exited
fault >>= f = fault
spinning >>= f = spinning

abbrev pub ◌>>◌ {ℓ} : {B : Type ℓ} → Outcome (Unit {0}) → Outcome B → Outcome B
m >> k = m >>= λ _. k

-- `true_or_exit`
abbrev pub true_or_exit : Bool → Outcome (Unit {0})
true_or_exit true = ok tt
true_or_exit false = exited

-- The call returns with `P`, or the process exits by its own will: no fault, and no endless loop.
abbrev pub Ensures {ℓ} : {A : Type ℓ} → (A → Type 0) → Outcome A → Type 0
Ensures P (ok a) = P a
Ensures P exited = Unit
Ensures P fault = ⊥
Ensures P spinning = ⊥

pub Ensures-bind {ℓ κ} :
    {A : Type ℓ} {B : Type κ} (P : A → Type 0) (Q : B → Type 0) (m : Outcome A) (f : A → Outcome B)
    → Ensures P m
    → ((a : A) → P a → Ensures Q (f a))
    → Ensures Q (m >>= f)
Ensures-bind P Q (ok a) f h k = k a h
Ensures-bind P Q exited f h k = tt
Ensures-bind P Q fault f h k = absurd h
Ensures-bind P Q spinning f h k = absurd h

pub Ensures-map {ℓ} :
    {A : Type ℓ} (P Q : A → Type 0) (m : Outcome A)
    → Ensures P m
    → ((a : A) → P a → Q a)
    → Ensures Q m
Ensures-map P Q (ok a) h k = k a h
Ensures-map P Q exited h k = tt
Ensures-map P Q fault h k = absurd h
Ensures-map P Q spinning h k = absurd h

pub Ensures-both {ℓ} :
    {A : Type ℓ} (P Q : A → Type 0) (m : Outcome A)
    → Ensures P m
    → Ensures Q m
    → Ensures (λ a. P a × Q a) m
Ensures-both P Q (ok a) h k = (h, k)
Ensures-both P Q exited h k = tt
Ensures-both P Q fault h k = absurd h
Ensures-both P Q spinning h k = absurd h

-- What a call that returns has returned.
pub Ensures-eq :
    {A : Type 0} (P : A → Type 0) (m : Outcome A) → Ensures P m → Ensures (λ a. P a × (m ≡ ok a)) m
Ensures-eq P (ok a) h = (h, refl)
Ensures-eq P exited h = tt
Ensures-eq P fault h = absurd h
Ensures-eq P spinning h = absurd h

pub Ensures-guard {ℓ} :
    {A : Type ℓ} (P : A → Type 0) (b : Bool) (m : Outcome A)
    → Ensures P m
    → Ensures P (true_or_exit b >> m)
Ensures-guard P true m h = h
Ensures-guard P false m h = tt

pub Ensures-if {ℓ} :
    {A : Type ℓ} (P : A → Type 0) (h : Bool) (x y : Outcome A)
    → (h ≡ true → Ensures P x)
    → (h ≡ false → Ensures P y)
    → Ensures P (if h then x else y)
Ensures-if P true x y f g = f refl
Ensures-if P false x y f g = g refl

-- The call returns with `P`.
abbrev pub Returns {ℓ} : {A : Type ℓ} → (A → Type 0) → Outcome A → Type 0
Returns P (ok a) = P a
Returns P exited = ⊥
Returns P fault = ⊥
Returns P spinning = ⊥

pub Returns-bind {ℓ κ} :
    {A : Type ℓ} {B : Type κ} (P : A → Type 0) (Q : B → Type 0) (m : Outcome A) (f : A → Outcome B)
    → Returns P m
    → ((a : A) → P a → Returns Q (f a))
    → Returns Q (m >>= f)
Returns-bind P Q (ok a) f h k = k a h
Returns-bind P Q exited f h k = absurd h
Returns-bind P Q fault f h k = absurd h
Returns-bind P Q spinning f h k = absurd h

pub Returns-map {ℓ} :
    {A : Type ℓ} (P Q : A → Type 0) (m : Outcome A)
    → Returns P m
    → ((a : A) → P a → Q a)
    → Returns Q m
Returns-map P Q (ok a) h k = k a h
Returns-map P Q exited h k = absurd h
Returns-map P Q fault h k = absurd h
Returns-map P Q spinning h k = absurd h
