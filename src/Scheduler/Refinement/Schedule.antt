-- ===== src/Scheduler/Refinement/Schedule.antt =====
-- `try_schedule` gives a free lock away by steps of the protocol.
use nvshare.Prelude.{
  Ensures-if, ℕ, zero, suc, ◌≤◌, ◌<◌, ◌≡◌, refl, sym, ap, subst, Bool, true, false, List, [], ◌∷◌,
  if◌then◌else◌, All, arith, length, Outcome, ok, Ensures, Ensures-bind, Ensures-map,
}
use nvshare.Comm.Messages.{lock_ok}
use nvshare.Scheduler.State.{Scheduler, World}
use nvshare.Scheduler.Sending.{send_message, record_sent}
use nvshare.Scheduler.Clients.{without, is_head, delete_client, with_type, remove_req}
use nvshare.Scheduler.Schedule.{settle, try_head, try_loop, try_schedule}
use nvshare.Scheduler.Dispatch.{schedule_if_free}
use nvshare.Scheduler.Protocol.{Steps-trans, one, done, grant}
use nvshare.Scheduler.Invariant.{
  Core, IsBenign, IsOpen, IsRegistered, After, removed, delete_client-removed, removed-After,
  record_sent-After, send_message-record_sent, IsRegistered-IsOpen, length-without_head,
}
use nvshare.Scheduler.Refinement.Moves.{Moves, removed-Moves}

-- A free lock stays free when a client quits.
still_free : (h held : Bool) → held ≡ false → (if h then false else held) ≡ false
still_free true held e = refl
still_free false held e = e

after_send-Moves :
    (w : World) (s : Scheduler) (fd : ℕ) (rest : List ℕ) (again : Scheduler → Outcome Scheduler)
    → s.requests ≡ fd ∷ rest
    → s.lock_held ≡ false
    → Core s
    → IsBenign w s
    → IsOpen s.clients fd
    → ((t : Scheduler)
        → Core t
        → IsBenign w t
        → t.lock_held ≡ false
        → length t.requests ≤ length rest
        → Ensures (Moves t) (again t))
    → (sent : Bool)
    → let s1 = with_type lock_ok s in
      Ensures (Moves s) (settle w fd again sent (record_sent fd s1.out_msg s1 sent))
unfolding record_sent remove_req without settle
after_send-Moves w s fd rest again e free v b o ih true =
    one (grant fd rest (with_type lock_ok s).out_msg e free refl)
after_send-Moves w s fd rest again e free v b o ih false =
    Ensures-bind (λ s3. s3 ≡ removed w fd s2) (Moves s) (delete_client w fd s2) again
      (delete_client-removed w fd s2 o)
      (λ s3 q. subst (λ t. Ensures (Moves s) (again t)) (sym q) last)
  where
    s2 : Scheduler
    s2 = with_type lock_ok s

    a : After w fd s s2
    a = record_sent-After w fd (with_type lock_ok s).out_msg s lock_ok false v b

    gone : After w fd s2 (removed w fd s2)
    gone = removed-After w fd s2 a.core b

    shorter : length (removed w fd s2).requests ≤ length rest
    shorter =
        subst (λ rs. length (without fd rs) ≤ length rest) (sym e) (length-without_head fd rest)

    last : Ensures (Moves s) (again (removed w fd s2))
    last =
        Ensures-map (Moves (removed w fd s2)) (Moves s) (again (removed w fd s2))
          (ih (removed w fd s2) gone.core gone.kept.benign
            (still_free (is_head fd s.requests) s.lock_held free) shorter)
          (λ u r. Steps-trans (removed-Moves w fd s2 a.core b) r)

pub try_loop-Moves :
    (fuel : ℕ) (w : World) (s : Scheduler)
    → length s.requests < fuel
    → s.lock_held ≡ false
    → Core s
    → IsBenign w s
    → Ensures (Moves s) (try_loop fuel w s)
unfolding try_loop try_head
try_loop-Moves zero w s h free v b = absurd (omega arith)
try_loop-Moves (suc fuel) w s h free v b =
    turn s.requests refl (λ t vt bt ft lt. try_loop-Moves fuel w t (omega (arith, h, lt)) ft vt bt)
  where
    turn :
        (rs : List ℕ)
        → s.requests ≡ rs
        → ((t : Scheduler)
            → Core t
            → IsBenign w t
            → t.lock_held ≡ false
            → length t.requests < length s.requests
            → Ensures (Moves t) (try_loop fuel w t))
        → Ensures (Moves s) (try_head w (try_loop fuel w) s rs)
    turn [] e ih = done
    turn (fd ∷ rest) e ih =
        Ensures-bind (λ r. r.1 ≡ record_sent fd s1.out_msg s1 r.0) (Moves s)
          (send_message w fd s1.out_msg s1)
          (λ (r : Bool × Scheduler). settle w fd (try_loop fuel w) r.0 r.1)
          (send_message-record_sent w fd s1.out_msg s1 here)
          (λ r q. rw q (
            after_send-Moves w s fd rest (try_loop fuel w) e free v b here
              (λ t vt bt ft lt. ih t vt bt ft (omega (arith, lt, ap length e))) r.0))
      where
        s1 : Scheduler
        s1 = with_type lock_ok s

        here : IsOpen s.clients fd
        here = IsRegistered-IsOpen s.clients fd (subst (All (IsRegistered s.clients)) e v.queued).0

pub try_schedule-Moves :
    (w : World) (s : Scheduler)
    → s.lock_held ≡ false
    → Core s
    → IsBenign w s
    → Ensures (Moves s) (try_schedule w s)
unfolding try_schedule
try_schedule-Moves w s free v b =
    try_loop-Moves (suc (length s.requests)) w s (omega arith) free v b

pub schedule_if_free-Moves :
    (w : World) (s : Scheduler) → Core s → IsBenign w s → Ensures (Moves s) (schedule_if_free w s)
unfolding schedule_if_free
schedule_if_free-Moves w s v b =
    Ensures-if (Moves s) s.lock_held (ok s) (try_schedule w s) (λ held. done)
      (λ free. try_schedule-Moves w s free v b)
