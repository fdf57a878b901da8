-- ===== src/Scheduler/Policy.antt =====
-- Who gets the lock, and a way in which it is not passed on.
use nvshare.Prelude.{
  ℕ, zero, suc, ◌+◌, ◌%◌, ◌^◌, ◌<◌, ◌≡◌, refl, sym, ap, subst, ◌∙◌, true, false, List, [], ◌∷◌,
  ◌++◌, if◌then◌else◌, some, All, arith, length, length-append, Outcome, ok, Ensures, Ensures-bind,
  Ensures-map,
}
use nvshare.Comm.Messages.{Message, lock_ok}
use nvshare.Scheduler.State.{Scheduler, World, Client, find_client, has_registered}
use nvshare.Scheduler.Sending.{record_sent}
use nvshare.Scheduler.Clients.{
  is_head, without, delete_client, remove_req, register_client, with_type,
}
use nvshare.Scheduler.Schedule.{try_head, try_loop, try_schedule, settle}
use nvshare.Scheduler.Dispatch.{on_register}
use nvshare.Scheduler.Lists.{Distinct, without-absent, contains-of_find}
use nvshare.Scheduler.Invariant.{
  Core, IsBenign, IsOpen, IsRegistered, After, delivery, send_message-open, removed,
  delete_client-removed, removed-After, record_sent-After, IsRegistered-IsOpen,
}

-- A lock that was given to the client `fd`, with `rest` waiting behind it.
pub record GivenTo (fd : ℕ) (rest : List ℕ) (s s' : Scheduler) : Type 0 where
  pub queue : s'.requests ≡ fd ∷ rest
  pub held : s'.lock_held ≡ true
  pub round : s'.scheduling_round ≡ (s.scheduling_round + 1) % 2 ^ 32
  pub rearmed : s'.must_reset_timer ≡ true
  pub told : s'.sent ≡ record { to = fd; message = record s.out_msg { type = lock_ok } } ∷ s.sent

pub without_first : (d : ℕ) (rs : List ℕ) → Distinct (d ∷ rs) → without d (d ∷ rs) ≡ rs
unfolding without
without_first d rs h = ground (arith, without-absent d rs h.0)

-- The head's message goes through.
try_head_gives :
    (w : World) (again : Scheduler → Outcome Scheduler) (s : Scheduler) (fd : ℕ) (rest : List ℕ)
    → s.requests ≡ fd ∷ rest
    → IsOpen s.clients fd
    → delivery w fd ≡ ok true
    → Ensures (GivenTo fd rest s) (try_head w again s (fd ∷ rest))
unfolding try_head settle record_sent
try_head_gives w again s fd rest e o good =
    rw (send_message-open w fd (with_type lock_ok s).out_msg (with_type lock_ok s) o, good)
      (record { queue = e; held = refl; round = refl; rearmed = refl; told = refl })

try_loop_first :
    (fuel : ℕ) (w : World) (s : Scheduler) (dead : List ℕ) (fd : ℕ) (rest : List ℕ)
    → length dead < fuel
    → Core s
    → IsBenign w s
    → s.requests ≡ dead ++ fd ∷ rest
    → All (λ d. delivery w d ≡ ok false) dead
    → delivery w fd ≡ ok true
    → Ensures (GivenTo fd rest s) (try_loop fuel w s)
unfolding try_loop try_head settle record_sent remove_req
try_loop_first zero w s dead fd rest lt v b e bad good = absurd (omega arith)
try_loop_first (suc fuel) w s [] fd rest lt v b e bad good =
    subst (λ rs. Ensures (GivenTo fd rest s) (try_head w (try_loop fuel w) s rs)) (sym e)
      (try_head_gives w (try_loop fuel w) s fd rest e
        (IsRegistered-IsOpen s.clients fd (subst (All (IsRegistered s.clients)) e v.queued).0) good)
try_loop_first (suc fuel) w s (d ∷ dead) fd rest lt v b e bad good =
    subst (λ rs. Ensures (GivenTo fd rest s) (try_head w (try_loop fuel w) s rs)) (sym e)
      (skip λ t vt bt et. try_loop_first fuel w t dead fd rest (omega arith) vt bt et bad.1 good)
  where
    s1 : Scheduler
    s1 = with_type lock_ok s

    skip :
        ((t : Scheduler)
          → Core t
          → IsBenign w t
          → t.requests ≡ dead ++ fd ∷ rest
          → Ensures (GivenTo fd rest t) (try_loop fuel w t))
        → Ensures (GivenTo fd rest s) (try_head w (try_loop fuel w) s (d ∷ dead ++ fd ∷ rest))
    skip ih =
        rw (send_message-open w d s1.out_msg s1 o, bad.0)
          (Ensures-bind (λ t. t ≡ t0) (GivenTo fd rest s) (delete_client w d s1) (try_loop fuel w)
            (delete_client-removed w d s1 o)
            (λ t q.
              subst (λ u. Ensures (GivenTo fd rest s) (try_loop fuel w u)) (sym q)
                (Ensures-map (GivenTo fd rest t0) (GivenTo fd rest s) (try_loop fuel w t0)
                  (ih t0 gone.core gone.kept.benign shorter)
                  (λ u g. record {
                    queue = g.queue;
                    held = g.held;
                    round = g.round;
                    rearmed = g.rearmed;
                    told = g.told;
                  }))))
      where
        o : IsOpen s.clients d
        o = IsRegistered-IsOpen s.clients d (subst (All (IsRegistered s.clients)) e v.queued).0

        t0 : Scheduler
        t0 = removed w d s1

        gone : After w d s1 t0
        gone = removed-After w d s1 (record_sent-After w d s1.out_msg s lock_ok false v b).core b

        shorter : t0.requests ≡ dead ++ fd ∷ rest
        shorter = ap (without d) e ∙ without_first d (dead ++ fd ∷ rest) (subst Distinct e v.once)

length-dead_lt :
    (dead : List ℕ) (fd : ℕ) (rest : List ℕ) → length dead < suc (length (dead ++ fd ∷ rest))
length-dead_lt dead fd rest = omega (arith, length-append dead (fd ∷ rest))

-- First come, first served: if the messages to the clients at the front of the request list cannot
-- be delivered, and the one to the client after them can, then `try_schedule` gives the lock to that
-- client and to no other: the dead clients are off the list, the rest of the list keeps its order,
-- one LOCK_OK has been sent, the round has gone up by one, and the timer is to start anew.
pub try_schedule-GivenTo :
    (w : World) (s : Scheduler) (dead : List ℕ) (fd : ℕ) (rest : List ℕ)
    → Core s
    → IsBenign w s
    → s.requests ≡ dead ++ fd ∷ rest
    → All (λ d. delivery w d ≡ ok false) dead
    → delivery w fd ≡ ok true
    → Ensures (GivenTo fd rest s) (try_schedule w s)
unfolding try_schedule
try_schedule-GivenTo w s dead fd rest v b e bad good =
    try_loop_first (suc (length s.requests)) w s dead fd rest
      (subst (λ n. length dead < suc n) (sym (ap length e)) (length-dead_lt dead fd rest)) v b e bad
      good

-- If the client that holds the lock registers once more while another client waits, then it is
-- removed and the lock is free, but it is given to nobody: no message is sent, and the waiting
-- client stays at the head of the list.
pub reregister_stalls :
    (w : World) (fd next : ℕ) (rest : List ℕ) (m : Message) (s : Scheduler) (c : Client)
    → Distinct s.requests
    → s.requests ≡ fd ∷ next ∷ rest
    → find_client fd s.clients ≡ some c
    → has_registered c ≡ true
    → Ensures
        (λ s'.
          (s'.lock_held ≡ false)
          × (s'.requests ≡ next ∷ rest)
          × (s'.sent ≡ s.sent)
          × (s'.scheduler_on ≡ s.scheduler_on))
        (on_register w fd m s)
unfolding on_register register_client remove_req
reregister_stalls w fd next rest m s c d e found known =
    rw (found, register_client, known)
      (Ensures-map (λ t. t ≡ removed w fd s) _ (delete_client w fd s)
        (delete_client-removed w fd s (contains-of_find fd s.clients c found).0)
        (λ t q.
          subst
            (λ u.
              (u.lock_held ≡ false)
              × (u.requests ≡ next ∷ rest)
              × (u.sent ≡ s.sent)
              × (u.scheduler_on ≡ s.scheduler_on))
            (sym q)
            (
              freed,
              ap (without fd) e ∙ without_first fd (next ∷ rest) (subst Distinct e d),
              refl,
              refl,
            )))
  where
    freed : (removed w fd s).lock_held ≡ false
    freed =
        subst (λ rs. (if is_head fd rs then false else s.lock_held) ≡ false) (sym e) (ground arith)
