-- ===== src/Client/Gate/Waking.antt =====
-- No wake-up is lost: a thread sleeps at the gate only while the process has asked for the lock and
-- has no answer yet.
mod Defs
mod Turns
mod Startup
pub mod Passing
use nvshare.Prelude.{
  ℕ, zero, suc, ◌+◌, ◌≤◌, ◌≡◌, refl, subst, sym, ◌∙◌, ap, Bool, true, false, List, [], ◌∷◌,
  replicate, Option, some, none, get_elem?, if◌then◌else◌, Outcome, ok, Ensures, Ensures-bind,
  Ensures-guard, arith, set, Bool-cases, inl, inr,
}
use nvshare.Comm.Messages.{MessageType, lock_ok, sched_on, sched_off}
use nvshare.Client.State.{Process}
use nvshare.Client.Start.{Starting, initialize_client, unstarted, client_fn}
use nvshare.Client.Locking.{Progress, waits, continues, continue_with_lock, test_lock}
use nvshare.Client.Listening.{handle_message}
use nvshare.Client.EarlyRelease.{release_early}
use nvshare.Client.Gate.{
  Stage, outside, waiting, woken, passed, Application, broadcast, broadcasts, Action, calls,
  retries, submits, hears, times, arrive, call_at, retry_at, submit_at, heard, step, run,
}
use nvshare.Client.Gate.Counts.{
  total, waits_here, total-set, total-broadcast_waits, total-get_elem?, get_elem?-broadcast,
  get_elem?-set, total-replicate_outside,
}
use Defs.{Wakeful, Awake, Arriving, IsExpected, pending}
use Startup.{initialize_client-Awake}
use Turns.{
  handle_message-Awake, release_early-Awake, continue_with_lock-Arriving, test_lock-Arriving,
}

abbrev AllAwake : Application → Type 0
AllAwake a = Awake (total waits_here a.threads) a.process

fewer : (m n : ℕ) (s : Process) → m ≤ n → Awake n s → Awake m s
fewer m n s h v = record {
  holding = λ e. omega (arith, v.holding e);
  quiet = λ e. omega (arith, v.quiet e);
  off = v.off;
  outstanding = v.outstanding;
}

-- A thread that arrives was at a stage before.
arrive-AllAwake :
    (i : ℕ) (a : Application) (old : Stage) (r : Progress)
    → get_elem? a.threads i ≡ some old
    → Arriving (total waits_here a.threads) r
    → AllAwake (arrive i a r)
arrive-AllAwake i a old (waits s) e v = v _
arrive-AllAwake i a old (continues s) e v =
    fewer _ _ s (omega (arith, total-set waits_here a.threads i old passed e)) v

call_at-AllAwake :
    (at : Option Stage) (i : ℕ) (found written : Bool) (a : Application)
    → get_elem? a.threads i ≡ at
    → AllAwake a
    → Ensures AllAwake (call_at at i found written a)
unfolding call_at
call_at-AllAwake none i found written a e v = v
call_at-AllAwake (some outside) i found written a e v =
    Ensures-bind (Arriving (total waits_here a.threads)) AllAwake _ _
      (continue_with_lock-Arriving _ found written a.process v)
      λ r k. arrive-AllAwake i a outside r e k
call_at-AllAwake (some waiting) i found written a e v = v
call_at-AllAwake (some woken) i found written a e v = v
call_at-AllAwake (some passed) i found written a e v = v

retry_at-AllAwake :
    (at : Option Stage) (i : ℕ) (written : Bool) (a : Application)
    → get_elem? a.threads i ≡ at
    → AllAwake a
    → Ensures AllAwake (retry_at at i written a)
unfolding retry_at
retry_at-AllAwake none i written a e v = v
retry_at-AllAwake (some outside) i written a e v = v
retry_at-AllAwake (some waiting) i written a e v =
    Ensures-bind (Arriving (total waits_here a.threads)) AllAwake _ _
      (test_lock-Arriving _ written a.process v) λ r k. arrive-AllAwake i a waiting r e k
retry_at-AllAwake (some woken) i written a e v =
    Ensures-bind (Arriving (total waits_here a.threads)) AllAwake _ _
      (test_lock-Arriving _ written a.process v) λ r k. arrive-AllAwake i a woken r e k
retry_at-AllAwake (some passed) i written a e v = v

submit_at-AllAwake :
    (at : Option Stage) (i : ℕ) (a : Application)
    → get_elem? a.threads i ≡ at
    → AllAwake a
    → AllAwake (submit_at at i a)
unfolding submit_at
submit_at-AllAwake none i a e v = v
submit_at-AllAwake (some outside) i a e v = v
submit_at-AllAwake (some waiting) i a e v = v
submit_at-AllAwake (some woken) i a e v = v
submit_at-AllAwake (some passed) i a e v =
    fewer _ _ a.process (omega (arith, total-set waits_here a.threads i passed outside e)) v

heard-AllAwake :
    (b : Bool) (threads : List Stage) (p : Process)
    → Awake (if b then 0 else total waits_here threads) p
    → Awake (total waits_here (if b then broadcast threads else threads)) p
heard-AllAwake true threads p v = rw (total-broadcast_waits threads) v
heard-AllAwake false threads p v = v

-- What the scheduler is expected to send.
abbrev pub IsExpectedAction : Action → Process → Type 0
IsExpectedAction (hears written t) s = IsExpected t s
IsExpectedAction _ s = Unit

step-AllAwake :
    (x : Action) (a : Application)
    → IsExpectedAction x a.process
    → AllAwake a
    → Ensures AllAwake (step x a)
unfolding step
step-AllAwake (calls i found written) a x v = call_at-AllAwake _ i found written a refl v
step-AllAwake (retries i written) a x v = retry_at-AllAwake _ i written a refl v
step-AllAwake (submits i) a x v = submit_at-AllAwake _ i a refl v
step-AllAwake (hears written t) a x v =
    Ensures-bind (Awake (if broadcasts t a.process then 0 else total waits_here a.threads)) AllAwake
      _ _ (handle_message-Awake _ written t a.process x v)
      λ p k. heard-AllAwake (broadcasts t a.process) a.threads p k
step-AllAwake (times t w) a x v =
    Ensures-bind (Awake (total waits_here a.threads)) AllAwake _ _
      (release_early-Awake _ t w a.process v) λ p k. k

-- The states of a client that has started, with `n` application threads that call hooks.
pub data Reach : Application → Type 0 where
  starts :
      (w : Starting) (nvml_ok : Bool) (n : ℕ) (s : Process)
      → initialize_client w (unstarted nvml_ok) ≡ ok s
      → Reach (record { process = s; threads = replicate n outside; late = 0 })
  acts :
      (x : Action) (a b : Application)
      → Reach a
      → IsExpectedAction x a.process
      → step x a ≡ ok b
      → Reach b

Reach-AllAwake : (a : Application) → Reach a → AllAwake a
Reach-AllAwake _ (starts w nvml_ok n s e) =
    rw (total-replicate_outside n) (subst (Ensures (Awake 0)) e (initialize_client-Awake w nvml_ok))
Reach-AllAwake _ (acts x a b r expected e) =
    subst (Ensures AllAwake) e (step-AllAwake x a expected (Reach-AllAwake a r))

-- The process does not have the lock, it has asked for it, and no answer has come.
pub record IsAsking (s : Process) : Type 0 where
  pub free : s.own_lock ≡ false
  pub need : s.need_lock ≡ true
  pub unanswered : pending s.log ≡ true

asking_lem : (n : ℕ) (s : Process) → 1 ≤ n → Awake n s → IsAsking s
asking_lem n s h v = elim (Bool-cases s.own_lock) [
  | inl own ↦ absurd (omega (arith, v.holding own))
  | inr free ↦ elim (Bool-cases s.need_lock) [
    | inl need ↦ record { free = free; need = need; unanswered = v.outstanding ∙ need }
    | inr quiet ↦ absurd (omega (arith, v.quiet quiet))
  ]
]

-- However the application's threads, the messages of the scheduler and the release thread take
-- turns, where the scheduler sends DROP_LOCK only while it is on and its status only when it
-- changes: while a thread sleeps in `pthread_cond_wait`, the process does not have the lock, it has
-- sent a REQ_LOCK, and none of LOCK_OK, SCHED_ON and SCHED_OFF has come since.
pub sleeper-IsAsking :
    (a : Application) (i : ℕ) → Reach a → get_elem? a.threads i ≡ some waiting → IsAsking a.process
sleeper-IsAsking a i r e =
    asking_lem _ a.process (total-get_elem? waits_here a.threads i waiting e) (Reach-AllAwake a r)
