-- ===== src/Scheduler/Invariant/Schedule.antt =====
-- `try_schedule` ends, keeps the invariant, and leaves nobody waiting for a free lock.
use nvshare.Prelude.{
  ℕ, zero, suc, ◌≤◌, ◌<◌, ◌≡◌, ◌≢◌, refl, sym, ap, subst, Bool, true, false, List, [], ◌∷◌, All,
  arith, length, Outcome, Ensures, Ensures-bind, Ensures-map, inl, inr, Bool-cases,
}
use nvshare.Comm.Messages.{lock_ok}
use nvshare.Scheduler.State.{Scheduler, World, Client}
use nvshare.Scheduler.Sending.{send_message, record_sent}
use nvshare.Scheduler.Clients.{contains, without, fds_of, delete_client, with_type, remove_req}
use nvshare.Scheduler.Schedule.{settle, try_head, try_loop, try_schedule, granted}
use nvshare.Scheduler.Lists.{length-without-le, find_client-absent}
use nvshare.Scheduler.Invariant.Defs.{Core, Kept, IsBenign, IsOpen, IsRegistered}
use nvshare.Scheduler.Invariant.Clients.{removed, delete_client-removed}
use nvshare.Scheduler.Invariant.Broadcast.{
  After, Kept-refl, Kept-trans, removed-After, record_sent-After, send_message-record_sent,
}

-- A registered client is there.
pub IsRegistered-IsOpen : (cs : List Client) (fd : ℕ) → IsRegistered cs fd → IsOpen cs fd
IsRegistered-IsOpen cs fd r = elim (Bool-cases (contains fd (fds_of cs))) [
  | inl there ↦ there
  | inr gone ↦ ground (arith, find_client-absent fd cs gone)
]

-- The head of the list has its message.
granted-Core :
    (s : Scheduler) (fd : ℕ) (rest : List ℕ) → s.requests ≡ fd ∷ rest → Core s → Core (granted s)
granted-Core s fd rest e v = record {
  holder = λ h. ground arith;
  queued = v.queued;
  once = v.once;
  fds = v.fds;
  clean = v.clean;
}

-- What `try_schedule` leaves: within the invariant, and the lock held if anybody waits.
pub record Scheduled (w : World) (s s' : Scheduler) : Type 0 where
  pub core : Core s'
  pub kept : Kept w s s'
  pub busy : s'.requests ≢ [] → s'.lock_held ≡ true

-- A failed send removes the head's requests, so the list gets shorter.
pub length-without_head : (fd : ℕ) (rest : List ℕ) → length (without fd (fd ∷ rest)) ≤ length rest
unfolding without
length-without_head fd rest = ground (arith, length-without-le fd rest)

after_send :
    (w : World) (s : Scheduler) (fd : ℕ) (rest : List ℕ) (again : Scheduler → Outcome Scheduler)
    → s.requests ≡ fd ∷ rest
    → Core s
    → IsBenign w s
    → IsOpen s.clients fd
    → ((t : Scheduler)
        → Core t
        → IsBenign w t
        → length t.requests ≤ length rest
        → Ensures (Scheduled w t) (again t))
    → (sent : Bool)
    → let s1 = with_type lock_ok s in
      Ensures (Scheduled w s) (settle w fd again sent (record_sent fd s1.out_msg s1 sent))
unfolding record_sent remove_req without settle
after_send w s fd rest again e v b o ih true =
    let a = record_sent-After w fd (with_type lock_ok s).out_msg s lock_ok true v b in
    record {
      core = granted-Core _ fd rest e a.core;
      kept = record { benign = a.kept.benign; status = refl; emptied = λ h. h };
      busy = λ _. refl;
    }
after_send w s fd rest again e v b o ih false =
    Ensures-bind (λ s3. s3 ≡ removed w fd s2) (Scheduled w s) (delete_client w fd s2) again
      (delete_client-removed w fd s2 o)
      (λ s3 q. subst (λ t. Ensures (Scheduled w s) (again t)) (sym q) last)
  where
    s2 : Scheduler
    s2 = with_type lock_ok s

    a : After w fd s s2
    a = record_sent-After w fd (with_type lock_ok s).out_msg s lock_ok false v b

    gone : After w fd s2 (removed w fd s2)
    gone = removed-After w fd s2 a.core b

    shorter : length (removed w fd s2).requests ≤ length rest
    shorter =
        subst (λ rs. length (without fd rs) ≤ length rest) (sym e) (length-without_head fd rest)

    last : Ensures (Scheduled w s) (again (removed w fd s2))
    last =
        Ensures-map (Scheduled w (removed w fd s2)) (Scheduled w s) (again (removed w fd s2))
          (ih (removed w fd s2) gone.core gone.kept.benign shorter)
          (λ u r. record {
            core = r.core;
            kept = Kept-trans w s (removed w fd s2) u (Kept-trans w s s2 _ a.kept gone.kept) r.kept;
            busy = r.busy;
          })

try_loop-Scheduled :
    (fuel : ℕ) (w : World) (s : Scheduler)
    → length s.requests < fuel
    → Core s
    → IsBenign w s
    → Ensures (Scheduled w s) (try_loop fuel w s)
unfolding try_loop try_head
try_loop-Scheduled zero w s h v b = absurd (omega arith)
try_loop-Scheduled (suc fuel) w s h v b =
    turn s.requests refl (λ t vt bt lt. try_loop-Scheduled fuel w t (omega (arith, h, lt)) vt bt)
  where
    turn :
        (rs : List ℕ)
        → s.requests ≡ rs
        → ((t : Scheduler)
            → Core t
            → IsBenign w t
            → length t.requests < length s.requests
            → Ensures (Scheduled w t) (try_loop fuel w t))
        → Ensures (Scheduled w s) (try_head w (try_loop fuel w) s rs)
    turn [] e ih = record { core = v; kept = Kept-refl w s b; busy = λ ne. absurd (ne e) }
    turn (fd ∷ rest) e ih =
        Ensures-bind (λ r. r.1 ≡ record_sent fd s1.out_msg s1 r.0) (Scheduled w s)
          (send_message w fd s1.out_msg s1)
          (λ (r : Bool × Scheduler). settle w fd (try_loop fuel w) r.0 r.1)
          (send_message-record_sent w fd s1.out_msg s1 here)
          (λ r q. rw q (
            after_send w s fd rest (try_loop fuel w) e v b here
              (λ t vt bt lt. ih t vt bt (omega (arith, lt, ap length e))) r.0))
      where
        s1 : Scheduler
        s1 = with_type lock_ok s

        here : IsOpen s.clients fd
        here = IsRegistered-IsOpen s.clients fd (subst (All (IsRegistered s.clients)) e v.queued).0

-- `try_schedule` ends.
pub try_schedule-Scheduled :
    (w : World) (s : Scheduler) → Core s → IsBenign w s → Ensures (Scheduled w s) (try_schedule w s)
unfolding try_schedule
try_schedule-Scheduled w s v b = try_loop-Scheduled (suc (length s.requests)) w s (omega arith) v b
