-- ===== src/Scheduler/Main.antt =====
-- `main` of src/scheduler.c: what comes before its loop, and the loop over epoll's batches of events.
use nvshare.Prelude.{
  ℕ, ◌≡◌, refl, Bool, true, false, List, [], ◌∷◌, Option, none, some, ◌==◌, if◌then◌else◌, Outcome,
  ok, exited, fault, ◌>>=◌, ◌>>◌, true_or_exit, Ensures, Bool-cases, inl, inr, Ensures-bind,
  Ensures-eq, Ensures-guard,
}
use nvshare.Common.Transfer.{Attempts, retry_intr, Input}
use nvshare.Comm.Messages.{Message}
use nvshare.Comm.Sockets.{Kernel, Status, socket_ok, socket_error, nvshare_bind_and_listen}
use nvshare.Scheduler.State.{Scheduler, World, init, find_client}
use nvshare.Scheduler.Sending.{receive_message}
use nvshare.Scheduler.Clients.{contains, fds_of, delete_client}
use nvshare.Scheduler.Schedule.{Timing, Wake, restart, timer_step}
use nvshare.Scheduler.Dispatch.{Event, readable, hangup, on_gone, handle_event, handle_batch}
use nvshare.Scheduler.Lists.{find_client-absent}
use nvshare.Scheduler.Invariant.{
  Inv, IsBenign, init-Inv, IsHonest, Handled, handle_event-Handled, Woken, timer_step-Woken,
  restart-Woken,
}
pub mod Freed
mod Tests

-- What the system answers before the loop; `none` is success, `some` an error number.
pub record Host : Type 0 where
  pub mkdir : Option ℕ
  pub dir_chmod : Bool
  pub mutex_initialized : Bool
  pub cond_initialized : Bool
  pub timer_created : Bool
  pub epoll_created : Bool
  pub kernel : Kernel
  pub lsock_added : Bool
  pub socket_chmod : Bool

abbrev eexist : ℕ
eexist = 17

-- The directory may be there already.
unfoldable pub make_sock_dir : Option ℕ → Outcome (Unit {0})
make_sock_dir none = ok tt
make_sock_dir (some e) = if e == eexist then ok tt else exited

unfoldable pub listening : Status → Outcome ℕ
listening (socket_ok lsock) = ok lsock
listening (socket_error e) = exited

-- The listening socket, and the scheduler as the first event finds it. The path of the socket is
-- always found.
unfoldable pub set_up : Host → Outcome (ℕ × Scheduler)
unfolding make_sock_dir listening
set_up h = do
  make_sock_dir h.mkdir
  true_or_exit h.dir_chmod
  true_or_exit h.mutex_initialized
  true_or_exit h.cond_initialized
  true_or_exit h.timer_created
  true_or_exit h.epoll_created
  lsock ← listening (nvshare_bind_and_listen h.kernel).status
  true_or_exit h.lsock_added
  true_or_exit h.socket_chmod
  ok (lsock, init)

-- One turn of the loop: `epoll_wait` (`none` is an error), and whether the mutex is locked and
-- unlocked without an error.
pub record Round : Type 0 where
  pub epoll_wait : Attempts (Option (List (World × Event)))
  pub locked : Bool
  pub unlocked : Bool

unfoldable pub events_or_exit : Option (List (World × Event)) → Outcome (List (World × Event))
events_or_exit none = exited
events_or_exit (some events) = ok events

unfoldable pub one_round : Round → Scheduler → Outcome Scheduler
unfolding events_or_exit
one_round r s = do
  events ← events_or_exit (retry_intr r.epoll_wait)
  true_or_exit r.locked
  s' ← handle_batch events s
  true_or_exit r.unlocked
  ok s'

-- Under `global_mutex` either the main thread handles a batch of events, or the timer thread wakes up.
pub data Turn : Type 0 where
  batch_of : Round → Turn
  timer_wakes : World → Wake → Turn

unfoldable pub run_turns : List Turn → Timing → Outcome Timing
run_turns [] t = ok t
run_turns (batch_of r ∷ turns) t = do
  s' ← one_round r t.sched
  run_turns turns (record t { sched = s' })
run_turns (timer_wakes w wake ∷ turns) t = do t' ← timer_step w wake t; run_turns turns t'

-- Both threads, from the start of the process.
unfoldable pub run_scheduler : Host → List Turn → Outcome Timing
unfolding set_up run_turns restart
run_scheduler h turns = do (lsock, s) ← set_up h; run_turns turns (restart false s)

-- Each event of a batch is as the scheduler finds it once it has handled those before it.
abbrev pub AreHonest : List (World × Event) → Scheduler → Type 0
AreHonest [] s = Unit {0}
AreHonest ((w, e) ∷ es) s =
    IsHonest w e s × ((s' : Scheduler) → handle_event w e s ≡ ok s' → AreHonest es s')

abbrev batch : Round → List (World × Event)
batch r = elim (retry_intr r.epoll_wait) [ none ↦ [] | some events ↦ events ]

-- What is assumed at each turn, in the state that the turns before it leave.
abbrev pub IsHonestRun : List Turn → Timing → Type 0
IsHonestRun [] t = Unit {0}
IsHonestRun (batch_of r ∷ turns) t =
    AreHonest (batch r) t.sched
    × ((s' : Scheduler) → one_round r t.sched ≡ ok s' → IsHonestRun turns (record t { sched = s' }))
IsHonestRun (timer_wakes w wake ∷ turns) t =
    IsBenign w t.sched × ((t' : Timing) → timer_step w wake t ≡ ok t' → IsHonestRun turns t')

handle_batch-Inv :
    (events : List (World × Event)) (s : Scheduler)
    → Inv s
    → AreHonest events s
    → Ensures Inv (handle_batch events s)
unfolding handle_batch
handle_batch-Inv [] s v h = v
handle_batch-Inv ((w, e) ∷ es) s v h =
    Ensures-bind (λ s'. Handled e s s' × (handle_event w e s ≡ ok s')) Inv (handle_event w e s) _
      (Ensures-eq (Handled e s) (handle_event w e s) (handle_event-Handled w e s v h.0))
      (λ s' k. handle_batch-Inv es s' k.0.0 (h.1 s' k.1))

one_round-Inv :
    (r : Round) (s : Scheduler) → Inv s → AreHonest (batch r) s → Ensures Inv (one_round r s)
unfolding one_round
one_round-Inv r s v h = go (retry_intr r.epoll_wait) h
  where
    go :
        (answer : Option (List (World × Event)))
        → AreHonest (elim answer [ none ↦ [] | some events ↦ events ]) s
        → Ensures Inv (
            events_or_exit answer >>= λ events.
            true_or_exit r.locked
            >> (handle_batch events s >>= λ s'. true_or_exit r.unlocked >> ok s'))
    go none h = tt
    go (some events) h = Ensures-guard Inv r.locked _ (
        Ensures-bind Inv Inv (handle_batch events s) _ (handle_batch-Inv events s v h)
          (λ s' k. Ensures-guard Inv r.unlocked (ok s') k))

run_turns-Inv :
    (turns : List Turn) (t : Timing)
    → Inv t.sched
    → IsHonestRun turns t
    → Ensures (λ u. Inv u.sched) (run_turns turns t)
unfolding run_turns
run_turns-Inv [] t v h = v
run_turns-Inv (batch_of r ∷ turns) t v h =
    Ensures-bind (λ s'. Inv s' × (one_round r t.sched ≡ ok s')) (λ u. Inv u.sched)
      (one_round r t.sched) _ (Ensures-eq Inv (one_round r t.sched) (one_round-Inv r t.sched v h.0))
      (λ s' k. run_turns-Inv turns (record t { sched = s' }) k.0 (h.1 s' k.1))
run_turns-Inv (timer_wakes w wake ∷ turns) t v h =
    Ensures-bind (λ t'. Woken t.sched t' × (timer_step w wake t ≡ ok t')) (λ u. Inv u.sched)
      (timer_step w wake t) _
      (Ensures-eq (Woken t.sched) (timer_step w wake t) (timer_step-Woken w wake t v h.0))
      (λ t' k. run_turns-Inv turns t' k.0.0 (h.1 t' k.1))

set_up-init : (h : Host) → Ensures (λ r. r.1 ≡ init) (set_up h)
unfolding set_up make_sock_dir listening
set_up-init h =
    Ensures-bind (λ _. Unit {0}) Set (make_sock_dir h.mkdir) _ (made h.mkdir)
      (λ _ _. Ensures-guard Set h.dir_chmod _ (
        Ensures-guard Set h.mutex_initialized _ (
          Ensures-guard Set h.cond_initialized _ (
            Ensures-guard Set h.timer_created _ (
              Ensures-guard Set h.epoll_created _ (
                Ensures-bind (λ _. Unit {0}) Set
                  (listening (nvshare_bind_and_listen h.kernel).status) _
                  (listens (nvshare_bind_and_listen h.kernel).status)
                  (λ lsock _.
                    Ensures-guard Set h.lsock_added _
                      (Ensures-guard Set h.socket_chmod (ok (lsock, init)) refl))))))))
  where
    Set : ℕ × Scheduler → Type 0
    Set r = r.1 ≡ init

    made : (answer : Option ℕ) → Ensures (λ _. Unit {0}) (make_sock_dir answer)
    made none = tt
    made (some e) = elim (Bool-cases (e == eexist)) [
      | inl old ↦ rw old tt
      | inr other ↦ rw other tt
    ]

    listens : (answer : Status) → Ensures (λ _. Unit {0}) (listening answer)
    listens (socket_ok lsock) = tt
    listens (socket_error e) = tt

-- However the calls before the loop end, and in whatever order the main thread handles batches of
-- events and the timer thread wakes up: the process exits, or it goes on, and then the invariant
-- holds between the turns. No loop runs on for ever, and each request that is served is of a client
-- that is in the list. It is assumed of the batches that the client of each event is in the list
-- when the events before it have been handled, that a new connection has a new descriptor, and that
-- an acceptable identifier can be drawn; and of every turn that what `delete_client` reads from a
-- block that it has just freed is not another client's descriptor.
pub run_scheduler-Inv :
    (h : Host) (turns : List Turn)
    → IsHonestRun turns (restart false init)
    → Ensures (λ u. Inv u.sched) (run_scheduler h turns)
unfolding run_scheduler restart
run_scheduler-Inv h turns honest =
    Ensures-bind (λ r. r.1 ≡ init) (λ u. Inv u.sched) (set_up h) _ (set_up-init h)
      (λ (r : ℕ × Scheduler) e. rw e (
        run_turns-Inv turns (restart false init) (restart-Woken false init init init-Inv (λ h. h)).0
          honest))
