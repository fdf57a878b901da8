-- ===== src/System/Preemption/Asking.antt =====
-- The timer of src/scheduler.c sends DROP_LOCK to the client at the head of the list.
use nvshare.Prelude.{ℕ, ◌≡◌, refl, ◌∙◌, ap, true, false, List, ◌∷◌, ◌==◌, ok}
use nvshare.Scheduler.State.{Scheduler, World}
use nvshare.Scheduler.Sending.{record_sent}
use nvshare.Scheduler.Schedule.{
  Timing, timed_out, restart, t_msg, timer_step, send_drop, settle_drop,
}
use nvshare.Scheduler.Invariant.{IsOpen, delivery, send_message-open}

drop_asks :
    (w : World) (s : Scheduler) (fd : ℕ) (rest : List ℕ)
    → IsOpen s.clients fd
    → delivery w fd ≡ ok true
    → send_drop w s (fd ∷ rest) ≡ ok (restart true (record_sent fd t_msg s true))
unfolding send_drop settle_drop
drop_asks w s fd rest o good = rw (send_message-open w fd t_msg s o, good) refl

-- The quantum of the client at the head is over, and it has not been asked yet.
pub record IsOver (fd : ℕ) (rest : List ℕ) (t : Timing) : Type 0 where
  pub queue : t.sched.requests ≡ fd ∷ rest
  pub held : t.sched.lock_held ≡ true
  pub not_asked : t.timer.drop_lock_sent ≡ false
  pub same_round : (t.timer.round_at_start == t.sched.scheduling_round) ≡ true

pub timer_asks :
    (w : World) (t : Timing) (fd : ℕ) (rest : List ℕ)
    → IsOver fd rest t
    → IsOpen t.sched.clients fd
    → delivery w fd ≡ ok true
    → timer_step w timed_out t ≡ ok (restart true (record_sent fd t_msg t.sched true))
timer_asks w t fd rest v o good =
    to_drop ∙ ap (send_drop w t.sched) v.queue ∙ drop_asks w t.sched fd rest o good
  where
    to_drop : timer_step w timed_out t ≡ send_drop w t.sched t.sched.requests
    to_drop = unfold timer_step in simp (v.held, v.not_asked, v.same_round) refl
