-- ===== src/Client/Gate.antt =====
-- The application's threads at the gate of src/client.c: `continue_with_lock` with the waits on
-- `own_lock_cv`, and the hooks of src/hook.c that call the driver behind it.
mod Counts
pub mod Waking
pub mod Submission
mod Tests
use nvshare.Prelude.{
  ℕ, zero, suc, ◌+◌, Bool, true, false, List, [], ◌∷◌, Option, none, some, get_elem?, set,
  if◌then◌else◌, Outcome, ok, ◌>>=◌,
}
use nvshare.Comm.Messages.{MessageType, lock_ok, sched_off}
use nvshare.Client.State.{Process}
use nvshare.Client.Locking.{Progress, waits, continues, continue_with_lock, test_lock}
use nvshare.Client.Listening.{handle_message}
use nvshare.Client.EarlyRelease.{Turn, Wait, release_early}

-- Where an application thread is: in no hook, in `pthread_cond_wait`, woken up and not yet running,
-- or behind `continue_with_lock`, with the driver's function still to be called.
pub data Stage : Type 0 where
  outside waiting woken passed : Stage

-- `late` is no variable of the program: it counts the calls of the driver that were made while the
-- process did not have the lock.
pub record Application : Type 0 where
  pub process : Process
  pub threads : List Stage
  pub late : ℕ

-- `pthread_cond_broadcast(&own_lock_cv)`
abbrev pub broadcast : List Stage → List Stage
broadcast [] = []
broadcast (waiting ∷ threads) = woken ∷ broadcast threads
broadcast (s ∷ threads) = s ∷ broadcast threads

-- The messages after which `client_fn` broadcasts.
unfoldable pub broadcasts : MessageType → Process → Bool
broadcasts lock_ok s = true
broadcasts sched_off s = s.scheduler_on
broadcasts _ s = false

-- What happens next: a thread calls a hook; a thread that waits runs again, woken up or by itself; a
-- thread that has passed calls the driver; a message of the scheduler; a turn of the release thread.
pub data Action : Type 0 where
  calls : ℕ → Bool → Bool → Action
  retries : ℕ → Bool → Action
  submits : ℕ → Action
  hears : Bool → MessageType → Action
  times : Turn → Wait → Action

abbrev pub arrive : ℕ → Application → Progress → Application
arrive i a (waits p) = record a { process = p; threads = set a.threads i waiting }
arrive i a (continues p) = record a { process = p; threads = set a.threads i passed }

-- What a thread does at its stage; the other stages do not do it.
unfoldable pub call_at : Option Stage → ℕ → Bool → Bool → Application → Outcome Application
call_at (some outside) i found written a =
    continue_with_lock found written a.process >>= λ r. ok (arrive i a r)
call_at _ i found written a = ok a

unfoldable pub retry_at : Option Stage → ℕ → Bool → Application → Outcome Application
retry_at (some waiting) i written a = test_lock written a.process >>= λ r. ok (arrive i a r)
retry_at (some woken) i written a = test_lock written a.process >>= λ r. ok (arrive i a r)
retry_at _ i written a = ok a

unfoldable pub submit_at : Option Stage → ℕ → Application → Application
submit_at (some passed) i a = record a {
  threads = set a.threads i outside;
  late = a.late + (if a.process.own_lock then 0 else 1);
}
submit_at _ i a = a

abbrev pub heard : MessageType → Application → Process → Application
heard t a p = record a {
  process = p;
  threads = if broadcasts t a.process then broadcast a.threads else a.threads;
}

unfoldable pub step : Action → Application → Outcome Application
unfolding call_at retry_at submit_at broadcasts
step (calls i found written) a = call_at (get_elem? a.threads i) i found written a
step (retries i written) a = retry_at (get_elem? a.threads i) i written a
step (submits i) a = ok (submit_at (get_elem? a.threads i) i a)
step (hears written t) a = handle_message written t a.process >>= λ p. ok (heard t a p)
step (times t w) a = release_early t w a.process >>= λ p. ok (record a { process = p })

unfoldable pub run : List Action → Application → Outcome Application
unfolding step
run [] a = ok a
run (x ∷ xs) a = step x a >>= run xs
