-- ===== src/Client/Gate/Waking/Passing.antt =====
-- The threads that a grant wakes up pass the gate.
use nvshare.Prelude.{
  ℕ, zero, suc, ◌≡◌, refl, ◌∙◌, Bool, true, List, [], ◌∷◌, ◌++◌, Option, none, some, get_elem?, set,
  ap, Outcome, ok, ◌>>=◌, Returns-map, ◌⊎◌, inl, inr, Returns, Returns-bind,
}
use nvshare.Comm.Messages.{lock_ok}
use nvshare.Client.Locking.{test_lock}
use nvshare.Client.Listening.{handle_message}
use nvshare.Client.Gate.{
  Stage, outside, waiting, woken, passed, Application, broadcasts, hears, retry_at, step,
}
use nvshare.Client.Gate.Counts.{get_elem?-broadcast, get_elem?-set}

get_elem?-set_passed :
    (threads : List Stage) (i j : ℕ)
    → (get_elem? (set threads j passed) i ≡ get_elem? threads i)
      ⊎ (get_elem? (set threads j passed) i ≡ some passed)
get_elem?-set_passed [] i j = inl refl
get_elem?-set_passed (s ∷ threads) zero zero = inr refl
get_elem?-set_passed (s ∷ threads) (suc i) zero = inl refl
get_elem?-set_passed (s ∷ threads) zero (suc j) = inl refl
get_elem?-set_passed (s ∷ threads) (suc i) (suc j) = get_elem?-set_passed threads i j

-- The process has the lock, and thread `i` is behind the gate, or was woken up in front of it.
abbrev pub Through : ℕ → Application → Type 0
Through i a = (a.process.own_lock ≡ true) × (get_elem? a.threads i ≡ some passed)

abbrev Near : ℕ → Application → Type 0
Near i a =
    (a.process.own_lock ≡ true)
    × ((get_elem? a.threads i ≡ some woken) ⊎ (get_elem? a.threads i ≡ some passed))

-- Thread `i` runs if it was woken up; a thread that sleeps does not wake up by itself here.
unfoldable pub turn_at : Option Stage → ℕ → Bool → Application → Outcome Application
turn_at (some woken) i written a = retry_at (some woken) i written a
turn_at _ i written a = ok a

-- The threads `is` have their turns, one after another.
unfoldable pub run_woken : Bool → List ℕ → Application → Outcome Application
unfolding turn_at
run_woken written [] a = ok a
run_woken written (i ∷ is) a = turn_at (get_elem? a.threads i) i written a >>= run_woken written is

-- A turn of a thread while the process has the lock.
retry_passes :
    (at : Option Stage) (j : ℕ) (written : Bool) (a : Application)
    → a.process.own_lock ≡ true
    → Returns
        (λ b.
          (b.process.own_lock ≡ true)
          × ((b.threads ≡ a.threads) ⊎ (b.threads ≡ set a.threads j passed)))
        (turn_at at j written a)
unfolding turn_at retry_at test_lock
retry_passes none j written a own = (own, inl refl)
retry_passes (some outside) j written a own = (own, inl refl)
retry_passes (some waiting) j written a own = (own, inl refl)
retry_passes (some woken) j written a own = rw own (refl, inr refl)
retry_passes (some passed) j written a own = (own, inl refl)

retry_own :
    (i : ℕ) (written : Bool) (a : Application)
    → Near i a
    → Returns (Through i) (turn_at (get_elem? a.threads i) i written a)
unfolding turn_at retry_at test_lock
retry_own i written a (own, inl e) = rw (e, own) (refl, get_elem?-set a.threads i woken passed e)
retry_own i written a (own, inr e) = rw e (own, e)

-- Where a turn of another thread leaves thread `i`.
stays_or_passes :
    (i j : ℕ) (a b : Application)
    → (b.threads ≡ a.threads) ⊎ (b.threads ≡ set a.threads j passed)
    → (get_elem? b.threads i ≡ get_elem? a.threads i) ⊎ (get_elem? b.threads i ≡ some passed)
stays_or_passes i j a b (inl e) = inl (ap (λ ts. get_elem? ts i) e)
stays_or_passes i j a b (inr e) = rw e (get_elem?-set_passed a.threads i j)

after-Near :
    (i : ℕ) (a b : Application)
    → b.process.own_lock ≡ true
    → (get_elem? b.threads i ≡ get_elem? a.threads i) ⊎ (get_elem? b.threads i ≡ some passed)
    → Near i a
    → Near i b
after-Near i a b own (inr e) v = (own, inr e)
after-Near i a b own (inl e) (_, inl woken_there) = (own, inl (e ∙ woken_there))
after-Near i a b own (inl e) (_, inr passed_there) = (own, inr (e ∙ passed_there))

after-Through :
    (i : ℕ) (a b : Application)
    → b.process.own_lock ≡ true
    → (get_elem? b.threads i ≡ get_elem? a.threads i) ⊎ (get_elem? b.threads i ≡ some passed)
    → Through i a
    → Through i b
after-Through i a b own (inr e) v = (own, e)
after-Through i a b own (inl e) v = (own, e ∙ v.1)

retry-Near :
    (i j : ℕ) (written : Bool) (a : Application)
    → Near i a
    → Returns (Near i) (turn_at (get_elem? a.threads j) j written a)
retry-Near i j written a v =
    Returns-map _ (Near i) _ (retry_passes (get_elem? a.threads j) j written a v.0)
      λ b k. after-Near i a b k.0 (stays_or_passes i j a b k.1) v

retry-Through :
    (i j : ℕ) (written : Bool) (a : Application)
    → Through i a
    → Returns (Through i) (turn_at (get_elem? a.threads j) j written a)
retry-Through i j written a v =
    Returns-map _ (Through i) _ (retry_passes (get_elem? a.threads j) j written a v.0)
      λ b k. after-Through i a b k.0 (stays_or_passes i j a b k.1) v

run_woken-Through :
    (i : ℕ) (written : Bool) (is : List ℕ) (a : Application)
    → Through i a
    → Returns (Through i) (run_woken written is a)
unfolding run_woken
run_woken-Through i written [] a v = v
run_woken-Through i written (j ∷ is) a v =
    Returns-bind (Through i) (Through i) _ (run_woken written is) (retry-Through i j written a v)
      (run_woken-Through i written is)

run_woken-Near :
    (i : ℕ) (written : Bool) (before after : List ℕ) (a : Application)
    → Near i a
    → Returns (Through i) (run_woken written (before ++ i ∷ after) a)
unfolding run_woken
run_woken-Near i written [] after a v =
    Returns-bind (Through i) (Through i) _ (run_woken written after) (retry_own i written a v)
      (run_woken-Through i written after)
run_woken-Near i written (j ∷ before) after a v =
    Returns-bind (Near i) (Through i) _ (run_woken written (before ++ i ∷ after))
      (retry-Near i j written a v) (run_woken-Near i written before after)

-- Whatever state the process is in: after LOCK_OK, when the threads have turns one after another, in
-- any order and any number of times, but only those run that were woken up, each thread that slept
-- passes by its own turn; it is behind the gate, and the process has the lock, after the turns of the
-- others. Nobody needs a spurious wake-up, and no turn exits.
pub lock_ok-passes :
    (sent written : Bool) (a : Application) (i : ℕ) (before after : List ℕ)
    → get_elem? a.threads i ≡ some waiting
    → Returns (Through i) (step (hears sent lock_ok) a >>= run_woken written (before ++ i ∷ after))
unfolding step handle_message broadcasts
lock_ok-passes sent written a i before after e =
    run_woken-Near i written before after _ (refl, inl (get_elem?-broadcast a.threads i e))
