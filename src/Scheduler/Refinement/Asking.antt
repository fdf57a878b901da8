-- ===== src/Scheduler/Refinement/Asking.antt =====
-- When the timer thread asks for the lock, whom, and what becomes of a holder that is dead.
use nvshare.Prelude.{
  Ensures-if, ℕ, ◌≡◌, ◌≢◌, refl, sym, subst, Bool, true, false, not, ◌&&◌, List, [], ◌∷◌, ◌==◌, All,
  ok, Outcome, ◌>>=◌, Ensures, Ensures-bind, Ensures-both, Ensures-eq,
}
use nvshare.Comm.Messages.{Message}
use nvshare.Scheduler.State.{Scheduler, World}
use nvshare.Scheduler.Sending.{send_message, record_sent}
use nvshare.Scheduler.Clients.{delete_client}
use nvshare.Scheduler.Schedule.{
  Timing, Wake, timed_out, signaled, wait_failed, restart, t_msg, try_schedule, settle_drop,
  send_drop, timer_step,
}
use nvshare.Scheduler.Protocol.{Steps, tells}
use nvshare.Scheduler.Invariant.{
  Inv, IsBenign, IsOpen, IsRegistered, IsRegistered-IsOpen, removed, delete_client-removed,
  removed-After, After, delivery, send_message-open, send_status_ends, Scheduled,
  try_schedule-Scheduled,
}
use nvshare.Scheduler.Refinement.Moves.{Moves, view, closed, view-removed}
use nvshare.Scheduler.Refinement.Schedule.{try_schedule-Moves}
use nvshare.Scheduler.Refinement.Timer.{head_frees-removed}

-- The wait timed out in the round in which it began, the lock is held, and its holder has not been
-- asked yet.
abbrev pub due : Wake → Timing → Bool
due timed_out t =
    t.sched.lock_held
    && (not t.timer.drop_lock_sent && (t.timer.round_at_start == t.sched.scheduling_round))
due _ t = false

-- What a wake-up comes to.
pub data Asks (w : World) (wake : Wake) (t u : Timing) : Type 0 where
  -- Nothing is due, and no message is sent.
  silent :
      due wake t ≡ false
      → view u.sched ≡ view t.sched
      → (u.timer.drop_lock_sent ≡ true → t.timer.drop_lock_sent ≡ true)
      → Asks w wake t u
  -- DROP_LOCK goes to the head of the list, and it is noted that it did.
  asked :
      (fd : ℕ) (rest : List ℕ)
      → due wake t ≡ true
      → t.sched.requests ≡ fd ∷ rest
      → delivery w fd ≡ ok true
      → view u.sched ≡ tells fd t_msg (view t.sched)
      → u.timer.drop_lock_sent ≡ true
      → Asks w wake t u
  -- The head of the list is dead: its connection is closed, and whoever waits has the lock.
  replaced :
      (fd : ℕ) (rest : List ℕ)
      → due wake t ≡ true
      → t.sched.requests ≡ fd ∷ rest
      → delivery w fd ≡ ok false
      → Steps (closed fd (view t.sched)) (view u.sched)
      → (u.sched.requests ≢ [] → u.sched.lock_held ≡ true)
      → u.timer.drop_lock_sent ≡ false
      → Asks w wake t u

send_message-delivery :
    (w : World) (fd : ℕ) (m : Message) (s : Scheduler)
    → IsOpen s.clients fd
    → Ensures
        (λ r. (r.1 ≡ record_sent fd m s r.0) × (delivery w fd ≡ ok r.0))
        (send_message w fd m s)
send_message-delivery w fd m s o = rw (send_message-open w fd m s o) (
    Ensures-bind (λ sent. Unit {0} × (delivery w fd ≡ ok sent))
      (λ r. (r.1 ≡ record_sent fd m s r.0) × (delivery w fd ≡ ok r.0)) (delivery w fd)
      (λ sent. ok (sent, record_sent fd m s sent))
      (Ensures-eq (λ _. Unit {0}) (delivery w fd) (send_status_ends _)) (λ sent k. (refl, k.1)))

module _ (w : World) (wake : Wake) (t : Timing) (v : Inv t.sched) (b : IsBenign w t.sched)
    (now : due wake t ≡ true) (held : t.sched.lock_held ≡ true) (fd : ℕ) (rest : List ℕ)
    (e : t.sched.requests ≡ fd ∷ rest) where
  settle_drop-Asks :
      (sent : Bool)
      → delivery w fd ≡ ok sent
      → Ensures (Asks w wake t) (settle_drop w fd sent (record_sent fd t_msg t.sched sent))
  unfolding settle_drop record_sent restart
  settle_drop-Asks true good = asked fd rest now e good refl refl
  settle_drop-Asks false bad =
      Ensures-bind (λ s'. s' ≡ t0) (Asks w wake t) (delete_client w fd t.sched) _
        (delete_client-removed w fd t.sched (
          IsRegistered-IsOpen t.sched.clients fd
            (subst (All (IsRegistered t.sched.clients)) e v.queued).0))
        (λ s' q. subst (λ s'. Ensures (Asks w wake t) (next s')) (sym q) last)
    where
      t0 : Scheduler
      t0 = removed w fd t.sched

      next : Scheduler → Outcome Timing
      next s' = try_schedule w s' >>= λ u. ok (restart false u)

      gone : After w fd t.sched t0
      gone = removed-After w fd t.sched v.core b

      last : Ensures (Asks w wake t) (next t0)
      last =
          Ensures-bind (λ u. Moves t0 u × Scheduled w t0 u) (Asks w wake t) (try_schedule w t0)
            (λ u. ok (restart false u))
            (Ensures-both (Moves t0) (Scheduled w t0) (try_schedule w t0)
              (try_schedule-Moves w t0 (head_frees-removed w fd rest t.sched e) gone.core
                gone.kept.benign)
              (try_schedule-Scheduled w t0 gone.core gone.kept.benign))
            (λ u k.
              replaced fd rest now e bad
                (subst (λ p. Steps p (view u)) (view-removed w fd t.sched v.core b) k.0) k.1.busy
                refl)

  head-Asks : Ensures (Asks w wake t) (send_drop w t.sched (fd ∷ rest))
  unfolding send_drop
  head-Asks =
      Ensures-bind (λ r. (r.1 ≡ record_sent fd t_msg t.sched r.0) × (delivery w fd ≡ ok r.0))
        (Asks w wake t) (send_message w fd t_msg t.sched)
        (λ (r : Bool × Scheduler). settle_drop w fd r.0 r.1)
        (send_message-delivery w fd t_msg t.sched (
          IsRegistered-IsOpen t.sched.clients fd
            (subst (All (IsRegistered t.sched.clients)) e v.queued).0))
        (λ r q. rw (q.0) (settle_drop-Asks r.0 q.1))

send_drop-Asks :
    (w : World) (wake : Wake) (t : Timing) (rs : List ℕ)
    → t.sched.requests ≡ rs
    → Inv t.sched
    → IsBenign w t.sched
    → due wake t ≡ true
    → t.sched.lock_held ≡ true
    → Ensures (Asks w wake t) (send_drop w t.sched rs)
send_drop-Asks w wake t [] e v b now held = absurd (v.holder held e)
send_drop-Asks w wake t (fd ∷ rest) e v b now held = head-Asks w wake t v b now held fd rest e

-- The timer sends DROP_LOCK when its wait times out in the round in which it began, the lock is held,
-- and DROP_LOCK is not noted as sent, and at no other wake-up. It goes to the head of the list, once,
-- and is noted. When it cannot be delivered, this client's connection is
-- closed, by no steps but the protocol's, and the lock is held again if anybody waits. At every other
-- wake-up the lock, the list and the connections stay as they are, and no message is sent. In each
-- case the timer comes to its next wait, or the process exits. This is for a scheduler within the
-- invariant, and provided that what `delete_client` reads from a block that it has just freed is not
-- another client's descriptor.
pub timer_step-Asks :
    (w : World) (wake : Wake) (t : Timing)
    → Inv t.sched
    → IsBenign w t.sched
    → Ensures (Asks w wake t) (timer_step w wake t)
unfolding timer_step restart
timer_step-Asks w (wait_failed e) t v b = tt
timer_step-Asks w signaled t v b =
    Ensures-if (Asks w signaled t) t.sched.must_reset_timer _ (ok t)
      (λ _. silent refl refl (λ h. cc)) (λ _. silent refl refl (λ h. h))
timer_step-Asks w timed_out t v b =
    Ensures-if (Asks w timed_out t) t.sched.lock_held _
      (ok (restart t.timer.drop_lock_sent t.sched))
      (λ held.
        Ensures-if (Asks w timed_out t) t.timer.drop_lock_sent (ok (restart true t.sched)) _
          (λ noted. silent (rw (held, noted) refl) refl (λ _. noted))
          (λ fresh.
            Ensures-if (Asks w timed_out t) (t.timer.round_at_start == t.sched.scheduling_round)
              (send_drop w t.sched t.sched.requests) (ok (restart false t.sched))
              (λ same.
                send_drop-Asks w timed_out t t.sched.requests refl v b (rw (held, fresh, same) refl)
                  held)
              (λ passed. silent (rw (held, fresh, passed) refl) refl (λ h. cc))))
      (λ free. silent (rw free refl) refl (λ h. h))
