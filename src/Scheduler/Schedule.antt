-- ===== src/Scheduler/Schedule.antt =====
-- `try_schedule`, which gives the lock away, and the timer thread, which asks for it back.
use nvshare.Prelude.{
  List, ℕ, zero, suc, ◌+◌, ◌%◌, ◌^◌, Bool, true, false, ◌∷◌, [], ◌==◌, if◌then◌else◌, Outcome, ok,
  exited, fault, spinning, ◌>>=◌, length, ℤ,
}
use nvshare.Comm.Messages.{Message, lock_ok, drop_lock, zero_message}
use nvshare.Scheduler.State.{Scheduler, World}
use nvshare.Scheduler.Sending.{send_message}
use nvshare.Scheduler.Clients.{delete_client, with_type}

-- `scheduling_round++` and the flags, when the head of the list has its LOCK_OK.
abbrev pub granted : Scheduler → Scheduler
granted s = record s {
  scheduling_round = (s.scheduling_round + 1) % 2 ^ 32;
  lock_held = true;
  must_reset_timer = true;
}

-- After LOCK_OK: the lock is the client's, or the client is dead and the next one is tried.
unfoldable pub settle :
    World → ℕ → (Scheduler → Outcome Scheduler) → Bool → Scheduler → Outcome Scheduler
settle w fd again true s = ok (granted s)
settle w fd again false s = do s' ← delete_client w fd s; again s'

-- What a round does with the list: `again` is `goto try_again`.
unfoldable pub try_head :
    World → (Scheduler → Outcome Scheduler) → Scheduler → List ℕ → Outcome Scheduler
try_head w again s [] = ok s
try_head w again s (fd ∷ rest) = do
  let s1 = with_type lock_ok s
  (sent, s2) ← send_message w fd s1.out_msg s1
  settle w fd again sent s2

-- Each round either ends the loop or takes a client's requests off the list.
unfoldable pub try_loop : ℕ → World → Scheduler → Outcome Scheduler
try_loop zero w s = spinning
try_loop (suc fuel) w s = try_head w (try_loop fuel w) s s.requests

-- One round for each request, and one to see the empty list.
unfoldable pub try_schedule : World → Scheduler → Outcome Scheduler
try_schedule w s = try_loop (suc (length s.requests)) w s

-- The local variables of `timer_thr_fn`; `quantum` is the `tq` that the deadline was set with.
pub record Timer : Type 0 where
  pub round_at_start : ℕ
  pub drop_lock_sent : Bool
  pub quantum : ℤ

-- What pthread_cond_timedwait comes back with: ETIMEDOUT, 0, or another error number.
pub data Wake : Type 0 where
  timed_out signaled : Wake
  wait_failed : ℕ → Wake

pub record Timing : Type 0 where
  pub timer : Timer
  pub sched : Scheduler

-- `continue`: the head of the `while (1)`, up to the next wait.
unfoldable pub restart : Bool → Scheduler → Timing
restart drop_sent s = record {
  timer = record {
    round_at_start = s.scheduling_round;
    drop_lock_sent = drop_sent;
    quantum = s.tq;
  };
  sched = record s { must_reset_timer = false };
}

abbrev pub t_msg : Message
t_msg = record zero_message { type = drop_lock; id = 1337 }

-- After DROP_LOCK: it is noted as sent, or the client is dead and the lock passes on.
unfoldable pub settle_drop : World → ℕ → Bool → Scheduler → Outcome Timing
unfolding restart
settle_drop w fd true s = ok (restart true s)
settle_drop w fd false s = do
  s' ← delete_client w fd s
  s'' ← try_schedule w s'
  ok (restart false s'')

-- The quantum of the client at the head of the list has run out: DROP_LOCK.
unfoldable pub send_drop : World → Scheduler → List ℕ → Outcome Timing
send_drop w s [] = fault
send_drop w s (fd ∷ rest) = do (sent, s') ← send_message w fd t_msg s; settle_drop w fd sent s'

-- From one wake-up with the mutex held to the next wait.
unfoldable pub timer_step : World → Wake → Timing → Outcome Timing
unfolding restart
timer_step w (wait_failed e) t = exited
timer_step w signaled t = if t.sched.must_reset_timer then ok (restart false t.sched) else ok t
timer_step w timed_out t =
    if t.sched.lock_held
    then if t.timer.drop_lock_sent
      then ok (restart true t.sched)
      else if t.timer.round_at_start == t.sched.scheduling_round
      then send_drop w t.sched t.sched.requests
      else ok (restart false t.sched)
    else ok (restart t.timer.drop_lock_sent t.sched)

-- The timer thread alone, for a while.
unfoldable pub run_timer : List (World × Wake) → Timing → Outcome Timing
run_timer [] t = ok t
run_timer ((w, wake) ∷ wakes) t = do t' ← timer_step w wake t; run_timer wakes t'
