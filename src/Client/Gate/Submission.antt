-- ===== src/Client/Gate/Submission.antt =====
-- Calls of the driver behind the gate, once the lock is given back.
use nvshare.Prelude.{
  ℕ, ◌+◌, ◌≡◌, refl, subst, Bool, true, false, ◌&&◌, List, [], ◌∷◌, Option, none, some, get_elem?,
  Returns, Ensures, Ensures-bind, arith, Bool-cases, inl, inr, if◌then◌else◌,
}
use nvshare.Comm.Messages.{
  MessageType, register, sched_on, sched_off, req_lock, lock_ok, drop_lock, lock_released, set_tq,
  other,
}
use nvshare.Client.State.{Process, sent, received, own_message}
use nvshare.Client.Locking.{Progress, waits, continues, continue_with_lock, test_lock}
use nvshare.Client.Listening.{handle_message, give_back}
use nvshare.Client.EarlyRelease.{
  Turn, Wait, timed_out, wait_failed, signaled, release_early, interval_passed,
}
use nvshare.Client.Gate.{
  Stage, outside, waiting, woken, passed, Application, broadcast, broadcasts, Action, calls,
  retries, submits, hears, times, arrive, call_at, retry_at, submit_at, step, run,
}
use nvshare.Client.Gate.Counts.{total, is_behind, total-set, total-broadcast_behind}

-- Not a message that may give the lock.
abbrev pub IsNoGrant : MessageType → Type 0
IsNoGrant lock_ok = ⊥
IsNoGrant sched_off = ⊥
IsNoGrant _ = Unit

abbrev pub WithoutGrant : List Action → Type 0
WithoutGrant [] = Unit
WithoutGrant (hears written t ∷ xs) = IsNoGrant t × WithoutGrant xs
WithoutGrant (_ ∷ xs) = WithoutGrant xs

abbrev Blocked : Process → Type 0
Blocked s = s.own_lock ≡ false

abbrev Waits : Progress → Type 0
Waits (waits s) = Blocked s
Waits (continues s) = ⊥

test_lock-Waits : (written : Bool) (s : Process) → Blocked s → Ensures Waits (test_lock written s)
unfolding test_lock
test_lock-Waits written s free = elim (Bool-cases s.need_lock) [
  | inl need ↦ rw (free, need) refl
  | inr quiet ↦ elim (Bool-cases written) [
    | inl whole ↦ rw (free, quiet, whole) refl
    | inr broken ↦ rw (free, quiet, broken) tt
  ]
]

continue_with_lock-Waits :
    (found written : Bool) (s : Process)
    → Blocked s
    → Ensures Waits (continue_with_lock found written s)
unfolding continue_with_lock
continue_with_lock-Waits found written s free = elim (Bool-cases s.cuda_ctx_ok) [
  | inl known ↦ rw known (test_lock-Waits written (record s { cuda_ctx_ok = true }) free)
  | inr unknown ↦ elim (Bool-cases found) [
    | inl got ↦ rw (unknown, got) (test_lock-Waits written (record s { cuda_ctx_ok = true }) free)
    | inr failed ↦ rw (unknown, failed) tt
  ]
]

handle_message-Blocked :
    (written : Bool) (t : MessageType) (s : Process)
    → IsNoGrant t
    → Blocked s
    → Ensures Blocked (handle_message written t s)
unfolding handle_message
handle_message-Blocked written lock_ok s x free = absurd x
handle_message-Blocked written sched_off s x free = absurd x
handle_message-Blocked written drop_lock s x free = rw free refl
handle_message-Blocked written sched_on s x free = elim (Bool-cases s.scheduler_on) [
  | inl on ↦ rw on free
  | inr off ↦ rw off refl
]
handle_message-Blocked written register s x free = free
handle_message-Blocked written req_lock s x free = free
handle_message-Blocked written lock_released s x free = free
handle_message-Blocked written set_tq s x free = free
handle_message-Blocked written (other n) s x free = free

no_turn : (a b : Bool) → b ≡ false → (a && b) ≡ false
no_turn true b e = e
no_turn false b e = refl

release_early-Blocked :
    (t : Turn) (w : Wait) (s : Process) → Blocked s → Ensures Blocked (release_early t w s)
unfolding release_early interval_passed
release_early-Blocked t timed_out s free = rw (no_turn s.scheduler_on s.own_lock free) free
release_early-Blocked t wait_failed s free = tt
release_early-Blocked t signaled s free = elim (Bool-cases s.did_work) [
  | inl work ↦ rw work free
  | inr spurious ↦ rw spurious free
]

-- The calls that are late, and those that will be.
abbrev pub late_or_behind : Application → ℕ
late_or_behind a = a.late + total is_behind a.threads

abbrev pub Blocks : ℕ → Application → Type 0
Blocks n a = (a.process.own_lock ≡ false) × (late_or_behind a ≡ n)

arrive-Blocks :
    (i : ℕ) (a : Application) (old : Stage) (r : Progress)
    → get_elem? a.threads i ≡ some old
    → is_behind old ≡ 0
    → Waits r
    → Blocks (late_or_behind a) (arrive i a r)
arrive-Blocks i a old (waits s) e h free =
    (free, omega (arith, total-set is_behind a.threads i old waiting e))
arrive-Blocks i a old (continues s) e h k = absurd k

call_at-Blocks :
    (at : Option Stage) (i : ℕ) (found written : Bool) (a : Application)
    → get_elem? a.threads i ≡ at
    → Blocked a.process
    → Ensures (Blocks (late_or_behind a)) (call_at at i found written a)
unfolding call_at
call_at-Blocks none i found written a e free = (free, refl)
call_at-Blocks (some outside) i found written a e free =
    Ensures-bind Waits (Blocks (late_or_behind a)) _ _
      (continue_with_lock-Waits found written a.process free)
      λ r k. arrive-Blocks i a outside r e refl k
call_at-Blocks (some waiting) i found written a e free = (free, refl)
call_at-Blocks (some woken) i found written a e free = (free, refl)
call_at-Blocks (some passed) i found written a e free = (free, refl)

retry_at-Blocks :
    (at : Option Stage) (i : ℕ) (written : Bool) (a : Application)
    → get_elem? a.threads i ≡ at
    → Blocked a.process
    → Ensures (Blocks (late_or_behind a)) (retry_at at i written a)
unfolding retry_at
retry_at-Blocks none i written a e free = (free, refl)
retry_at-Blocks (some outside) i written a e free = (free, refl)
retry_at-Blocks (some waiting) i written a e free =
    Ensures-bind Waits (Blocks (late_or_behind a)) _ _ (test_lock-Waits written a.process free)
      λ r k. arrive-Blocks i a waiting r e refl k
retry_at-Blocks (some woken) i written a e free =
    Ensures-bind Waits (Blocks (late_or_behind a)) _ _ (test_lock-Waits written a.process free)
      λ r k. arrive-Blocks i a woken r e refl k
retry_at-Blocks (some passed) i written a e free = (free, refl)

submit_at-Blocks :
    (at : Option Stage) (i : ℕ) (a : Application)
    → get_elem? a.threads i ≡ at
    → Blocked a.process
    → Blocks (late_or_behind a) (submit_at at i a)
unfolding submit_at
submit_at-Blocks none i a e free = (free, refl)
submit_at-Blocks (some outside) i a e free = (free, refl)
submit_at-Blocks (some waiting) i a e free = (free, refl)
submit_at-Blocks (some woken) i a e free = (free, refl)
submit_at-Blocks (some passed) i a e free =
    (free, rw free (omega (arith, total-set is_behind a.threads i passed outside e)))

woken_behind :
    (b : Bool) (threads : List Stage)
    → total is_behind (if b then broadcast threads else threads) ≡ total is_behind threads
woken_behind true threads = total-broadcast_behind threads
woken_behind false threads = refl

tail : (x : Action) (xs : List Action) → WithoutGrant (x ∷ xs) → WithoutGrant xs
tail (calls i found written) xs h = h
tail (retries i written) xs h = h
tail (submits i) xs h = h
tail (hears written t) xs h = h.1
tail (times t w) xs h = h

step-Blocks :
    (x : Action) (a : Application)
    → WithoutGrant (x ∷ [])
    → Blocked a.process
    → Ensures (Blocks (late_or_behind a)) (step x a)
unfolding step
step-Blocks (calls i found written) a x free = call_at-Blocks _ i found written a refl free
step-Blocks (retries i written) a x free = retry_at-Blocks _ i written a refl free
step-Blocks (submits i) a x free = submit_at-Blocks _ i a refl free
step-Blocks (hears written t) a x free =
    Ensures-bind Blocked (Blocks (late_or_behind a)) _ _
      (handle_message-Blocked written t a.process x.0 free)
      λ p k. (k, omega (arith, woken_behind (broadcasts t a.process) a.threads))
step-Blocks (times t w) a x free =
    Ensures-bind Blocked (Blocks (late_or_behind a)) _ _ (release_early-Blocked t w a.process free)
      λ p k. (k, refl)

head : (x : Action) (xs : List Action) → WithoutGrant (x ∷ xs) → WithoutGrant (x ∷ [])
head (calls i found written) xs h = tt
head (retries i written) xs h = tt
head (submits i) xs h = tt
head (hears written t) xs h = (h.0, tt)
head (times t w) xs h = tt

-- From a state in which the process does not have the lock, over any turns of its threads and any
-- messages but LOCK_OK and SCHED_OFF: the process does not get the lock, and each call of the driver
-- without the lock is made by a thread that was behind the gate already, one call by each: the calls
-- and the threads behind the gate add up to the same number.
pub run-Blocks :
    (xs : List Action) (a : Application)
    → a.process.own_lock ≡ false
    → WithoutGrant xs
    → Ensures (Blocks (late_or_behind a)) (run xs a)
unfolding run
run-Blocks [] a free h = (free, refl)
run-Blocks (x ∷ xs) a free h =
    Ensures-bind (Blocks (late_or_behind a)) (Blocks (late_or_behind a)) _ (run xs)
      (step-Blocks x a (head x xs h) free)
      λ b k. subst (λ n. Ensures (Blocks n) (run xs b)) k.1 (run-Blocks xs b k.0 (tail x xs h))

-- `n` calls without the lock more than before; the last message that was sent is LOCK_RELEASED.
pub record LateBy (n : ℕ) (a b : Application) : Type 0 where
  pub late : b.late ≡ n + a.late
  pub log :
      b.process.log
      ≡ sent (own_message lock_released a.process) ∷ received drop_lock ∷ a.process.log
  pub free : b.process.own_lock ≡ false

-- A thread that is behind the gate of a process with the lock when DROP_LOCK comes, and calls the
-- driver then, calls it without the lock: LOCK_RELEASED has been sent before.
pub late_after_release :
    (a : Application) (i : ℕ)
    → a.process.own_lock ≡ true
    → get_elem? a.threads i ≡ some passed
    → Returns (LateBy 1 a) (run (hears true drop_lock ∷ submits i ∷ []) a)
unfolding run step handle_message give_back broadcasts submit_at
late_after_release a i own e = rw (own, e) (record { late = omega arith; log = refl; free = refl })
