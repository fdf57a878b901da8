-- ===== src/Client/Invariant.antt =====
-- Which messages a client sends, whatever the scheduler sends and however its threads take turns.
mod Defs
pub mod Threads
pub mod Startup
pub use Defs.*
use nvshare.Prelude.{
  ℕ, ◌+◌, ◌≤◌, ◌≡◌, refl, subst, Bool, true, false, List, [], ◌∷◌, ap, Option, none, some, ◌&&◌,
  Outcome, ok, Ensures, Ensures-bind, ◌>>◌, true_or_exit, arith, Bool-cases, inl, inr,
}
use nvshare.Comm.Messages.{
  Message, MessageType, register, sched_on, sched_off, req_lock, lock_ok, drop_lock, lock_released,
  set_tq, other,
}
use nvshare.Comm.Ids.{text_as_id}
use nvshare.Client.State.{Process, Logged, sent, received}
use nvshare.Client.Start.{
  Starting, Environment, initialize_client, unstarted, client_fn, initial_status, take_status,
  take_id, with_id, receive, register_message,
}
use nvshare.Client.Locking.{Progress, waits, continues, continue_with_lock, test_lock}
use nvshare.Client.Listening.{handle_message, give_back}
use nvshare.Client.EarlyRelease.{
  Turn, Wait, timed_out, wait_failed, signaled, release_early, interval_passed, without_work,
  check_idle, by_utilization, release, restart,
}
use Threads.{test_lock-Inv, continue_with_lock-Inv, handle_message-Inv, release_early-Inv}
use Startup.{initialize_client-Inv}

-- The states of a client whose threads take turns at its mutex, over any messages.
pub data Reach : Process → Type 0 where
  starts :
      (w : Starting) (nvml_ok : Bool) (s : Process)
      → initialize_client w (unstarted nvml_ok) ≡ ok s
      → Reach s
  enters_and_waits :
      (found written : Bool) (s s' : Process)
      → Reach s
      → continue_with_lock found written s ≡ ok (waits s')
      → Reach s'
  enters_and_continues :
      (found written : Bool) (s s' : Process)
      → Reach s
      → continue_with_lock found written s ≡ ok (continues s')
      → Reach s'
  woken_and_waits :
      (written : Bool) (s s' : Process) → Reach s → test_lock written s ≡ ok (waits s') → Reach s'
  woken_and_continues :
      (written : Bool) (s s' : Process)
      → Reach s
      → test_lock written s ≡ ok (continues s')
      → Reach s'
  gets :
      (written : Bool) (type : MessageType) (s s' : Process)
      → Reach s
      → handle_message written type s ≡ ok s'
      → Reach s'
  times : (t : Turn) (w : Wait) (s s' : Process) → Reach s → release_early t w s ≡ ok s' → Reach s'

-- At every turn of a client's threads, whatever messages the scheduler sends: the client does not
-- both have the lock and ask for it; it has sent at most one REQ_LOCK more than it has received
-- answers (LOCK_OK, SCHED_ON, SCHED_OFF), and none more when it does not wait for one; and it has
-- sent no more LOCK_RELEASED than the times it was given the lock (LOCK_OK, SCHED_OFF), one less
-- while it has the lock.
pub Reach-Fits : (s : Process) → Reach s → Fits s.own_lock s.need_lock s.log
Reach-Fits _ (starts w nvml_ok s e) = subst (Ensures Inv) e (initialize_client-Inv w nvml_ok)
Reach-Fits _ (enters_and_waits found written s s' r e) =
    subst (Ensures (AtProcess Inv)) e (continue_with_lock-Inv found written s (Reach-Fits s r))
Reach-Fits _ (enters_and_continues found written s s' r e) =
    subst (Ensures (AtProcess Inv)) e (continue_with_lock-Inv found written s (Reach-Fits s r))
Reach-Fits _ (woken_and_waits written s s' r e) =
    subst (Ensures (AtProcess Inv)) e (test_lock-Inv written s (Reach-Fits s r))
Reach-Fits _ (woken_and_continues written s s' r e) =
    subst (Ensures (AtProcess Inv)) e (test_lock-Inv written s (Reach-Fits s r))
Reach-Fits _ (gets written type s s' r e) =
    subst (Ensures Inv) e (handle_message-Inv written type s (Reach-Fits s r))
Reach-Fits _ (times t w s s' r e) = subst (Ensures Inv) e (release_early-Inv t w s (Reach-Fits s r))
