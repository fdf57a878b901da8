-- ===== src/Scheduler/Refinement/Timer.antt =====
-- The timer thread takes steps of the protocol.
use nvshare.Prelude.{
  Ensures-if, arith, ℕ, ◌≡◌, ◌≢◌, refl, sym, subst, Bool, true, false, List, [], ◌∷◌, ◌==◌, All, ok,
  Outcome, ◌>>=◌, if◌then◌else◌, Ensures, Ensures-bind,
}
use nvshare.Scheduler.State.{Scheduler, World}
use nvshare.Scheduler.Sending.{send_message, record_sent}
use nvshare.Scheduler.Clients.{delete_client, is_head, remove_req}
use nvshare.Scheduler.Schedule.{
  Timing, Wake, timed_out, signaled, wait_failed, restart, t_msg, try_schedule, settle_drop,
  send_drop, timer_step,
}
use nvshare.Scheduler.Protocol.{Steps-trans, one, done, ask_back}
use nvshare.Scheduler.Invariant.{
  Inv, IsBenign, IsOpen, IsRegistered, send_message-record_sent, IsRegistered-IsOpen, removed,
  delete_client-removed, removed-After, After,
}
use nvshare.Scheduler.Refinement.Moves.{Moves, removed-Moves}
use nvshare.Scheduler.Refinement.Schedule.{try_schedule-Moves}

head_frees :
    (fd : ℕ) (rest rs : List ℕ) (held : Bool)
    → rs ≡ fd ∷ rest
    → (if is_head fd rs then false else held) ≡ false
head_frees fd rest [] held e = cc
head_frees fd rest (r ∷ rs) held e = ground arith

-- The lock of a head that is removed is free.
pub head_frees-removed :
    (w : World) (fd : ℕ) (rest : List ℕ) (s : Scheduler)
    → s.requests ≡ fd ∷ rest
    → (removed w fd s).lock_held ≡ false
unfolding remove_req
head_frees-removed w fd rest s e = head_frees fd rest s.requests s.lock_held e

module _ (w : World) (fd : ℕ) (rest : List ℕ) (s : Scheduler) (v : Inv s) (b : IsBenign w s)
    (e : s.requests ≡ fd ∷ rest) (held : s.lock_held ≡ true) where
  o : IsOpen s.clients fd
  o = IsRegistered-IsOpen s.clients fd (subst (All (IsRegistered s.clients)) e v.queued).0

  settle_drop-Moves :
      (sent : Bool)
      → Ensures (λ u. Moves s u.sched) (settle_drop w fd sent (record_sent fd t_msg s sent))
  unfolding settle_drop record_sent restart
  settle_drop-Moves true = one (ask_back fd rest t_msg e held refl)
  settle_drop-Moves false =
      Ensures-bind (λ t. (t ≡ removed w fd s)) (λ u. Moves s u.sched) (delete_client w fd s) _
        (delete_client-removed w fd s o)
        (λ t q. subst (λ t. Ensures (λ u. Moves s u.sched) (next t)) (sym q) last)
    where
      next : Scheduler → Outcome Timing
      next t = try_schedule w t >>= λ u. ok (restart false u)

      gone : After w fd s (removed w fd s)
      gone = removed-After w fd s v.core b

      last : Ensures (λ u. Moves s u.sched) (next (removed w fd s))
      last =
          Ensures-bind (Moves (removed w fd s)) (λ u. Moves s u.sched)
            (try_schedule w (removed w fd s)) (λ u. ok (restart false u))
            (try_schedule-Moves w (removed w fd s) (head_frees-removed w fd rest s e) gone.core
              gone.kept.benign)
            (λ u k. Steps-trans (removed-Moves w fd s v.core b) k)

send_drop-Moves :
    (w : World) (s : Scheduler) (rs : List ℕ)
    → s.requests ≡ rs
    → rs ≢ []
    → s.lock_held ≡ true
    → Inv s
    → IsBenign w s
    → Ensures (λ u. Moves s u.sched) (send_drop w s rs)
unfolding send_drop
send_drop-Moves w s [] e ne held v b = absurd (ne refl)
send_drop-Moves w s (fd ∷ rest) e ne held v b =
    Ensures-bind (λ r. r.1 ≡ record_sent fd t_msg s r.0) (λ u. Moves s u.sched)
      (send_message w fd t_msg s) (λ (r : Bool × Scheduler). settle_drop w fd r.0 r.1)
      (send_message-record_sent w fd t_msg s (o w fd rest s v b e held))
      (λ r q. rw q (settle_drop-Moves w fd rest s v b e held r.0))

-- However the timer thread wakes up, it takes steps of the protocol only.
pub timer_step-Moves :
    (w : World) (wake : Wake) (t : Timing)
    → Inv t.sched
    → IsBenign w t.sched
    → Ensures (λ u. Moves t.sched u.sched) (timer_step w wake t)
unfolding timer_step restart
timer_step-Moves w (wait_failed e) t v b = tt
timer_step-Moves w signaled t v b =
    Ensures-if (λ u. Moves t.sched u.sched) t.sched.must_reset_timer _ (ok t) (λ _. done)
      (λ _. done)
timer_step-Moves w timed_out t v b =
    Ensures-if (λ u. Moves s u.sched) s.lock_held _ (ok (restart t.timer.drop_lock_sent s))
      (λ held.
        Ensures-if (λ u. Moves s u.sched) t.timer.drop_lock_sent (ok (restart true s)) _ (λ _. done)
          (λ _.
            Ensures-if (λ u. Moves s u.sched) (t.timer.round_at_start == s.scheduling_round)
              (send_drop w s s.requests) (ok (restart false s))
              (λ _. send_drop-Moves w s s.requests refl (v.holder held) held v b) (λ _. done)))
      (λ _. done)
  where
    s : Scheduler
    s = t.sched
