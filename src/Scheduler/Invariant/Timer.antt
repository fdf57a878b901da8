-- ===== src/Scheduler/Invariant/Timer.antt =====
-- The timer thread between the events, and the states that the scheduler reaches.
use nvshare.Prelude.{
  Ensures-if, ℕ, ◌≡◌, ◌≢◌, refl, subst, Bool, true, false, List, [], ◌∷◌, ◌==◌, All, ok, Ensures,
  Ensures-bind,
}
use nvshare.Scheduler.State.{Scheduler, World, init}
use nvshare.Scheduler.Sending.{send_message, record_sent}
use nvshare.Scheduler.Clients.{delete_client}
use nvshare.Scheduler.Schedule.{
  Timing, Wake, timed_out, signaled, wait_failed, restart, t_msg, try_schedule, settle_drop,
  send_drop, timer_step,
}
use nvshare.Scheduler.Dispatch.{Event, handle_event}
use nvshare.Scheduler.Invariant.Defs.{Inv, IsBenign, IsOpen, IsRegistered, IsBusy}
use nvshare.Scheduler.Invariant.Broadcast.{send_message-record_sent}
use nvshare.Scheduler.Invariant.Schedule.{Scheduled, try_schedule-Scheduled, IsRegistered-IsOpen}
use nvshare.Scheduler.Invariant.Settled.{Kept-Inv}
use nvshare.Scheduler.Invariant.Handlers.{delete_client-Inv}
use nvshare.Scheduler.Invariant.Events.{IsHonest, Handled, handle_event-Handled}

-- What a wake-up leaves.
abbrev pub Woken : Scheduler → Timing → Type 0
Woken s t = Inv t.sched × (IsBusy s → IsBusy t.sched)

pub restart-Woken :
    (sent : Bool) (s u : Scheduler) → Inv u → (IsBusy s → IsBusy u) → Woken s (restart sent u)
unfolding restart
restart-Woken sent s u v h = (
  record {
    core = record {
      holder = v.holder;
      queued = v.queued;
      once = v.once;
      fds = v.fds;
      clean = v.clean;
    };
    off = v.off;
  },
  h,
)

sent_Inv :
    (fd : ℕ) (s : Scheduler) (sent : Bool)
    → Inv s
    → let s' = record_sent fd t_msg s sent in Inv s' × (IsBusy s → IsBusy s')
unfolding record_sent
sent_Inv fd s true v = (
  record {
    core = record {
      holder = v.holder;
      queued = v.queued;
      once = v.once;
      fds = v.fds;
      clean = v.clean;
    };
    off = v.off;
  },
  λ h. h,
)
sent_Inv fd s false v = (v, λ h. h)

module _ (w : World) (fd : ℕ) (s : Scheduler) (v : Inv s) (b : IsBenign w s)
    (o : IsOpen s.clients fd) where
  settle_drop-Woken :
      (sent : Bool) → Ensures (Woken s) (settle_drop w fd sent (record_sent fd t_msg s sent))
  unfolding settle_drop record_sent
  settle_drop-Woken true = let k = sent_Inv fd s true v in restart-Woken true s _ k.0 k.1
  settle_drop-Woken false =
      Ensures-bind (λ t. Inv t × IsBenign w t × _) (Woken s) (delete_client w fd s) _
        (delete_client-Inv w fd s v b o)
        λ t k.
          Ensures-bind (Scheduled w t) (Woken s) (try_schedule w t) (λ u. ok (restart false u))
            (try_schedule-Scheduled w t k.0.core k.1)
            (λ u r. restart-Woken false s u (Kept-Inv w t u k.0 r.core r.kept) (λ _ _. r.busy))

send_drop-Woken :
    (w : World) (s : Scheduler) (rs : List ℕ)
    → s.requests ≡ rs
    → rs ≢ []
    → Inv s
    → IsBenign w s
    → Ensures (Woken s) (send_drop w s rs)
unfolding send_drop
send_drop-Woken w s [] e ne v b = absurd (ne refl)
send_drop-Woken w s (fd ∷ rest) e ne v b =
    Ensures-bind (λ r. r.1 ≡ record_sent fd t_msg s r.0) (Woken s) (send_message w fd t_msg s)
      (λ (r : Bool × Scheduler). settle_drop w fd r.0 r.1) (send_message-record_sent w fd t_msg s o)
      (λ r q. rw q (settle_drop-Woken w fd s v b o r.0))
  where
    o : IsOpen s.clients fd
    o = IsRegistered-IsOpen s.clients fd (subst (All (IsRegistered s.clients)) e v.queued).0

-- However the timer thread wakes up in a state within the invariant, it comes to its next wait within
-- the invariant, or the process exits: in particular, when it sends DROP_LOCK to the head of the
-- request list there is a head, and it is a client in the list. If the lock is held whenever anybody
-- waits, then it stays so. It is assumed that what `delete_client` reads from the block that it has
-- just freed, when DROP_LOCK or LOCK_OK fails, is not another client's descriptor; that read itself
-- does happen.
pub timer_step-Woken :
    (w : World) (wake : Wake) (t : Timing)
    → Inv t.sched
    → IsBenign w t.sched
    → Ensures (Woken t.sched) (timer_step w wake t)
unfolding timer_step
timer_step-Woken w (wait_failed e) t v b = tt
timer_step-Woken w signaled t v b =
    Ensures-if (Woken t.sched) t.sched.must_reset_timer _ (ok t)
      (λ _. restart-Woken false t.sched t.sched v (λ h. h)) (λ _. (v, λ h. h))
timer_step-Woken w timed_out t v b =
    Ensures-if (Woken s) s.lock_held _ (ok (restart t.timer.drop_lock_sent s))
      (λ held.
        Ensures-if (Woken s) t.timer.drop_lock_sent (ok (restart true s)) _
          (λ _. restart-Woken true s s v (λ h. h))
          (λ _.
            Ensures-if (Woken s) (t.timer.round_at_start == s.scheduling_round)
              (send_drop w s s.requests) (ok (restart false s))
              (λ _. send_drop-Woken w s s.requests refl (v.holder held) v b)
              (λ _. restart-Woken false s s v (λ h. h))))
      (λ _. restart-Woken t.timer.drop_lock_sent s s v (λ h. h))
  where
    s : Scheduler
    s = t.sched

-- The main thread and the timer thread take turns under `global_mutex`, in any order, while the system
-- does what is assumed of it.
pub data Reach : Timing → Type 0 where
  start : Reach (restart false init)
  event :
      {t : Timing} {s : Scheduler} (w : World) (e : Event)
      → Reach t
      → IsHonest w e t.sched
      → handle_event w e t.sched ≡ ok s
      → Reach (record t { sched = s })
  wake_up :
      {t u : Timing} (w : World) (wake : Wake)
      → Reach t
      → IsBenign w t.sched
      → timer_step w wake t ≡ ok u
      → Reach u

pub init-Inv : Inv init
unfolding init
init-Inv = record {
  core = record { holder = λ h. cc; queued = tt; once = tt; fds = tt; clean = refl };
  off = λ h. refl;
}

-- In every state that the scheduler reaches, by events and wake-ups in any order, the invariant holds:
-- the lock is held only while there is a request at the head of the list, each request is of a
-- registered client that is still there, no client has two requests, no two clients have one
-- connection, nobody waits while the scheduler is off, and `out_msg` carries no identifier. The steps
-- of such a run are those for which this holds of the system: an event is of a client that is in the
-- list, a new connection has a new descriptor, an acceptable identifier can be drawn, and what
-- `delete_client` reads from a block that it has just freed is not another client's descriptor.
pub Reach-Inv : {t : Timing} → Reach t → Inv t.sched
unfolding restart
Reach-Inv start = (restart-Woken false init init init-Inv (λ h. h)).0
Reach-Inv (event {t} {s} w e r h q) =
    (subst (Ensures (Handled e t.sched)) q (handle_event-Handled w e t.sched (Reach-Inv r) h)).0
Reach-Inv (wake_up {t} w wake r b q) =
    (subst (Ensures (Woken t.sched)) q (timer_step-Woken w wake t (Reach-Inv r) b)).0
