-- ===== src/Scheduler/Missed.antt =====
-- A change of hands that the timer thread misses.
use nvshare.Prelude.{
  ℕ, ◌≡◌, refl, sym, ap, subst, ◌∙◌, true, false, List, [], ◌∷◌, if◌then◌else◌, All, arith, Bool,
  Outcome, ok, ◌>>=◌, Returns, Returns-bind, Returns-map, length,
}
use nvshare.Comm.Messages.{lock_ok}
use nvshare.Scheduler.State.{Scheduler, World, Client, has_registered}
use nvshare.Scheduler.Sending.{record_sent}
use nvshare.Scheduler.Clients.{is_head, without, remove_req, with_type}
use nvshare.Scheduler.Schedule.{
  try_head, try_loop, try_schedule, settle, Timing, Wake, timed_out, signaled, wait_failed,
  timer_step, run_timer, restart,
}
use nvshare.Scheduler.Dispatch.{schedule_if_free, on_lock_released}
use nvshare.Scheduler.Lists.{Distinct}
use nvshare.Scheduler.Invariant.{
  Core, Inv, IsOpen, IsRegistered, IsRegistered-IsOpen, delivery, send_message-open,
  remove_req-Core,
}
use nvshare.Scheduler.Policy.{GivenTo, without_first}

-- `drop_lock_sent` is set and there is nothing to reset; the lock, the list and the messages are as
-- in `s`.
record IsDeaf (s : Scheduler) (t : Timing) : Type 0 where
  marked : t.timer.drop_lock_sent ≡ true
  reset : t.sched.must_reset_timer ≡ false
  silent : t.sched.sent ≡ s.sent
  queue : t.sched.requests ≡ s.requests
  kept_lock : t.sched.lock_held ≡ true

-- Wake-ups by the clock and wake-ups with nothing to reset.
abbrev pub Idles : List (World × Wake) → Type 0
Idles [] = Unit
Idles ((w, timed_out) ∷ wakes) = Idles wakes
Idles ((w, signaled) ∷ wakes) = Idles wakes
Idles ((w, wait_failed e) ∷ wakes) = ⊥

timed_out_marked :
    (w : World) (t : Timing)
    → t.sched.lock_held ≡ true
    → t.timer.drop_lock_sent ≡ true
    → timer_step w timed_out t ≡ ok (restart true t.sched)
unfolding timer_step
timed_out_marked w t held marked = ground arith

signaled_still :
    (w : World) (t : Timing) → t.sched.must_reset_timer ≡ false → timer_step w signaled t ≡ ok t
unfolding timer_step
signaled_still w t still = ground arith

restart-IsDeaf :
    (s : Scheduler) (t : Timing)
    → t.sched.sent ≡ s.sent
    → t.sched.requests ≡ s.requests
    → t.sched.lock_held ≡ true
    → IsDeaf s (restart true t.sched)
unfolding restart
restart-IsDeaf s t silent queue held = record {
  marked = refl;
  reset = refl;
  silent = silent;
  queue = queue;
  kept_lock = held;
}

run_timer-IsDeaf :
    (s : Scheduler) (wakes : List (World × Wake)) (t : Timing)
    → Idles wakes
    → IsDeaf s t
    → Returns (IsDeaf s) (run_timer wakes t)
unfolding run_timer
run_timer-IsDeaf s [] t i d = d
run_timer-IsDeaf s ((w, timed_out) ∷ wakes) t i d = rw (timed_out_marked w t d.kept_lock d.marked) (
    run_timer-IsDeaf s wakes (restart true t.sched) i
      (restart-IsDeaf s t d.silent d.queue d.kept_lock))
run_timer-IsDeaf s ((w, signaled) ∷ wakes) t i d =
    rw (signaled_still w t d.reset) (run_timer-IsDeaf s wakes t i d)
run_timer-IsDeaf s ((w, wait_failed e) ∷ wakes) t i d = absurd i

Returns-then :
    (P : Scheduler → Type 0) {h : Bool} (x y : Outcome Scheduler)
    → h ≡ true
    → Returns P x
    → Returns P (if h then x else y)
Returns-then P {h} x y e k = rw e k

Returns-else :
    (P : Scheduler → Type 0) {h : Bool} (x y : Outcome Scheduler)
    → h ≡ false
    → Returns P y
    → Returns P (if h then x else y)
Returns-else P {h} x y e k = rw e k

module _ (w : World) (s : Scheduler) (fd next : ℕ) (rest : List ℕ) (v : Core s)
    (e : s.requests ≡ fd ∷ next ∷ rest) (good : delivery w next ≡ ok true) where
  behind : (remove_req fd s).requests ≡ next ∷ rest
  unfolding remove_req
  behind = ap (without fd) e ∙ without_first fd (next ∷ rest) (subst Distinct e v.once)

  given : Returns (GivenTo next rest (remove_req fd s)) (try_schedule w (remove_req fd s))
  unfolding try_schedule try_loop try_head settle record_sent
  given =
      subst
        (λ rs. Returns (GivenTo next rest s1) (try_head w (try_loop (length s1.requests) w) s1 rs))
        (sym behind)
        (rw (send_message-open w next (with_type lock_ok s1).out_msg (with_type lock_ok s1) o, good)
          (record { queue = behind; held = refl; round = refl; rearmed = refl; told = refl }))
    where
      s1 : Scheduler
      s1 = remove_req fd s

      o : IsOpen s1.clients next
      o =
          IsRegistered-IsOpen s1.clients next
            (subst (All (IsRegistered s1.clients)) behind (remove_req-Core fd s v).queued).0

  freed : (remove_req fd s).lock_held ≡ false
  unfolding remove_req
  freed =
      subst (λ rs. (if is_head fd rs then false else s.lock_held) ≡ false) (sym e) (ground arith)

  passed_on :
      (c : Client)
      → has_registered c ≡ true
      → s.scheduler_on ≡ true
      → Returns (GivenTo next rest (remove_req fd s)) (on_lock_released w fd c s)
  unfolding on_lock_released schedule_if_free
  passed_on c known on =
      Returns-then P _ _ known (Returns-then P _ _ on (Returns-else P _ _ freed given))
    where
      P : Scheduler → Type 0
      P = GivenTo next rest (remove_req fd s)

-- From a state within the invariant, with the scheduler on: DROP_LOCK is noted as sent when the
-- client at the head of the list gives the lock back, and LOCK_OK can be delivered to the next
-- client, which is given the lock. If the timer's wait then times out before the timer has noticed,
-- it does not ask the new holder: as long as the timer only wakes up by the clock or with nothing
-- to reset, and the scheduler has no other event to handle, LOCK_OK to the new holder is the last
-- message that is sent, and the lock stays this client's. Nothing exits.
pub next_holder_forgotten :
    (w w' : World) (wakes : List (World × Wake)) (t : Timing) (fd next : ℕ) (rest : List ℕ)
    (c : Client)
    → Inv t.sched
    → t.sched.scheduler_on ≡ true
    → has_registered c ≡ true
    → t.sched.requests ≡ fd ∷ next ∷ rest
    → t.timer.drop_lock_sent ≡ true
    → delivery w next ≡ ok true
    → Idles wakes
    → Returns
        (λ u.
          (u.sched.lock_held ≡ true)
          × (u.sched.requests ≡ next ∷ rest)
          × (u.sched.sent
              ≡ record { to = next; message = record t.sched.out_msg { type = lock_ok } }
                ∷ t.sched.sent))
        (on_lock_released w fd c t.sched >>= λ s.
          run_timer ((w', timed_out) ∷ wakes) (record t { sched = s }))
unfolding run_timer remove_req
next_holder_forgotten w w' wakes t fd next rest c v on known e marked good idles =
    Returns-bind (GivenTo next rest (remove_req fd t.sched)) _ (on_lock_released w fd c t.sched) _
      (passed_on w t.sched fd next rest v.core e good c known on)
      (λ s g. rw (timed_out_marked w' (record t { sched = s }) g.held marked) (
        Returns-map (IsDeaf s) _ (run_timer wakes (restart true s))
          (run_timer-IsDeaf s wakes (restart true s) idles
            (restart-IsDeaf s (record t { sched = s }) refl refl g.held))
          (λ u d. (d.kept_lock, d.queue ∙ g.queue, d.silent ∙ g.told))))
