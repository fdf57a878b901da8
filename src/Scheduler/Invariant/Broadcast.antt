-- ===== src/Scheduler/Invariant/Broadcast.antt =====
-- Messages are sent, and the status is broadcast, within the invariant.
use nvshare.Prelude.{
  ℕ, ◌≡◌, refl, sym, subst, ◌∙◌, Bool, true, false, List, [], ◌∷◌, ◌==◌, if◌then◌else◌, All, arith,
  Outcome, ok, Ensures, Ensures-bind, Ensures-map, ◌>>=◌, inl, inr, Bool-cases,
}
use nvshare.Comm.Messages.{Message, MessageType}
use nvshare.Comm.Sockets.{nvshare_send_noblock}
use nvshare.Scheduler.State.{Scheduler, World, Client, has_registered}
use nvshare.Scheduler.Sending.{send_message, send_status, record_sent}
use nvshare.Common.Transfer.{Io, count, failed}
use nvshare.Scheduler.Clients.{
  contains, fds_of, delete_client, bcast_one, bcast_loop, bcast_status, with_type, status_type,
}
use nvshare.Scheduler.Lists.{Distinct, find_client-present, contains-without}
use nvshare.Scheduler.Invariant.Defs.{Core, Kept, IsBenign, IsOpen}
use nvshare.Scheduler.Invariant.Clients.{
  removed, delete_client-removed, removed-Core, removed-Kept, fds_of-removed,
}

pub Kept-refl : (w : World) (s : Scheduler) → IsBenign w s → Kept w s s
Kept-refl w s b = record { benign = b; status = refl; emptied = λ e. e }

pub Kept-trans : (w : World) (s t u : Scheduler) → Kept w s t → Kept w t u → Kept w s u
Kept-trans w s t u j k = record {
  benign = k.benign;
  status = k.status ∙ j.status;
  emptied = λ e. k.emptied (j.emptied e);
}

-- What `nvshare_send_noblock` on a connection comes to.
abbrev pub delivery : World → ℕ → Outcome Bool
delivery w fd = send_status (nvshare_send_noblock (w.write fd))

pub send_message-open :
    (w : World) (fd : ℕ) (m : Message) (s : Scheduler)
    → IsOpen s.clients fd
    → send_message w fd m s ≡ (do sent ← delivery w fd; ok (sent, record_sent fd m s sent))
unfolding send_message
send_message-open w fd m s o =
    let (c, found, same) = find_client-present fd s.clients o in rw (found, send_message) refl

pub send_status_ends : (io : Io) → Ensures (λ _. Unit {0}) (send_status io)
unfolding send_status
send_status_ends (count n) = ground arith
send_status_ends (failed e) = ground arith

pub send_message-record_sent :
    (w : World) (fd : ℕ) (m : Message) (s : Scheduler)
    → IsOpen s.clients fd
    → Ensures (λ r. r.1 ≡ record_sent fd m s r.0) (send_message w fd m s)
send_message-record_sent w fd m s o = rw (send_message-open w fd m s o) (
    Ensures-bind (λ _. Unit {0}) (λ r. r.1 ≡ record_sent fd m s r.0) (delivery w fd)
      (λ sent. ok (sent, record_sent fd m s sent)) (send_status_ends _) (λ sent _. refl))

pub record_sent-Core :
    (fd : ℕ) (m : Message) (s : Scheduler) (sent : Bool) → Core s → Core (record_sent fd m s sent)
unfolding record_sent
record_sent-Core fd m s true v = ground arith
record_sent-Core fd m s false v = v

pub record_sent-same :
    (fd : ℕ) (m : Message) (s : Scheduler) (sent : Bool)
    → let s' = record_sent fd m s sent in
      (s'.clients ≡ s.clients)
      × (s'.requests ≡ s.requests)
      × (s'.scheduler_on ≡ s.scheduler_on)
      × (s'.lock_held ≡ s.lock_held)
      × (s'.scheduling_round ≡ s.scheduling_round)
unfolding record_sent
record_sent-same fd m s true = (refl, refl, refl, refl, refl)
record_sent-same fd m s false = (refl, refl, refl, refl, refl)

-- What an operation does that may remove one client: the connections of the others stay open.
pub record After (w : World) (fd : ℕ) (s s' : Scheduler) : Type 0 where
  pub core : Core s'
  pub kept : Kept w s s'
  pub others :
      (x : ℕ) → (x == fd) ≡ false → contains x (fds_of s'.clients) ≡ contains x (fds_of s.clients)

pub After-trans :
    (w : World) (fd : ℕ) (s t u : Scheduler) → After w fd s t → After w fd t u → After w fd s u
After-trans w fd s t u a b = record {
  core = b.core;
  kept = Kept-trans w s t u a.kept b.kept;
  others = λ x h. b.others x h ∙ a.others x h;
}

pub record_sent-After :
    (w : World) (fd : ℕ) (m : Message) (s : Scheduler) (t : MessageType) (sent : Bool)
    → Core s
    → IsBenign w s
    → After w fd s (record_sent fd m (with_type t s) sent)
unfolding record_sent
record_sent-After w fd m s t sent v b = record {
  core = record_sent-Core fd m (with_type t s) sent typed;
  kept = same_kept sent;
  others = same_others sent;
}
  where
    typed : Core (with_type t s)
    typed = record {
      holder = v.holder;
      queued = v.queued;
      once = v.once;
      fds = v.fds;
      clean = v.clean;
    }

    same_kept : (sent : Bool) → Kept w s (record_sent fd m (with_type t s) sent)
    same_kept true = record { benign = b; status = refl; emptied = λ e. e }
    same_kept false = record { benign = b; status = refl; emptied = λ e. e }

    same_others :
        (sent : Bool) (x : ℕ)
        → (x == fd) ≡ false
        → contains x (fds_of (record_sent fd m (with_type t s) sent).clients)
          ≡ contains x (fds_of s.clients)
    same_others true x h = refl
    same_others false x h = refl

pub removed-After :
    (w : World) (fd : ℕ) (s : Scheduler) → Core s → IsBenign w s → After w fd s (removed w fd s)
removed-After w fd s v b = record {
  core = removed-Core w fd s v b;
  kept = removed-Kept w fd s v b;
  others = λ x h. rw (fds_of-removed w fd s v b, contains-without x fd (fds_of s.clients), h) refl;
}

pub delete_client-After :
    (w : World) (fd : ℕ) (s : Scheduler)
    → Core s
    → IsBenign w s
    → IsOpen s.clients fd
    → Ensures (After w fd s) (delete_client w fd s)
delete_client-After w fd s v b o =
    Ensures-map (λ s'. s' ≡ removed w fd s) (After w fd s) (delete_client w fd s)
      (delete_client-removed w fd s o)
      (λ s' e. subst (After w fd s) (sym e) (removed-After w fd s v b))

-- The connection that a message went to is still open.
pub record_sent-IsOpen :
    (fd : ℕ) (m : Message) (s : Scheduler) (t : MessageType) (sent : Bool)
    → IsOpen s.clients fd
    → IsOpen (record_sent fd m (with_type t s) sent).clients fd
unfolding record_sent
record_sent-IsOpen fd m s t true o = o
record_sent-IsOpen fd m s t false o = o

-- The pattern of the sources: a message, and if it cannot be sent the client is removed.
pub send_or_delete-After :
    (w : World) (fd : ℕ) (s : Scheduler) (t : MessageType) (sent : Bool)
    → Core s
    → IsBenign w s
    → IsOpen s.clients fd
    → let s' = record_sent fd (with_type t s).out_msg (with_type t s) sent in
      Ensures (After w fd s) (if sent then ok s' else delete_client w fd s')
send_or_delete-After w fd s t true v b o =
    record_sent-After w fd (with_type t s).out_msg s t true v b
send_or_delete-After w fd s t false v b o =
    Ensures-map (After w fd s') (After w fd s) (delete_client w fd s')
      (delete_client-After w fd s' a.core a.kept.benign
        (record_sent-IsOpen fd (with_type t s).out_msg s t false o))
      (λ u. After-trans w fd s s' u a)
  where
    s' : Scheduler
    s' = record_sent fd (with_type t s).out_msg (with_type t s) false

    a : After w fd s s'
    a = record_sent-After w fd (with_type t s).out_msg s t false v b

pub bcast_one-After :
    (w : World) (c : Client) (s : Scheduler)
    → Core s
    → IsBenign w s
    → IsOpen s.clients c.fd
    → Ensures (After w c.fd s) (bcast_one w c s)
unfolding bcast_one
bcast_one-After w c s v b o = elim (Bool-cases (has_registered c)) [
  | inr no_id ↦
      rw (no_id, bcast_one) (record { core = v; kept = Kept-refl w s b; others = λ x h. refl })
  | inl has_id ↦
      rw (has_id, bcast_one)
        (Ensures-bind (λ r. r.1 ≡ record_sent c.fd s1.out_msg s1 r.0) (After w c.fd s)
          (send_message w c.fd s1.out_msg s1)
          (λ (r : Bool × Scheduler). if r.0 then ok r.1 else delete_client w c.fd r.1)
          (send_message-record_sent w c.fd s1.out_msg s1 o)
          (λ r e. rw e (send_or_delete-After w c.fd s (status_type s.scheduler_on) r.0 v b o)))
]
  where
    s1 : Scheduler
    s1 = with_type (status_type s.scheduler_on) s

pub All-IsOpen-After :
    (w : World) (fd : ℕ) (s s' : Scheduler) (rest : List ℕ)
    → After w fd s s'
    → contains fd rest ≡ false
    → All (IsOpen s.clients) rest
    → All (IsOpen s'.clients) rest
unfolding contains
All-IsOpen-After w fd s s' [] a h k = tt
All-IsOpen-After w fd s s' (x ∷ rest) a h k =
    (a.others x (ground arith) ∙ k.0, All-IsOpen-After w fd s s' rest a (ground arith) k.1)

-- Each turn of the loop meets a client that is there, and the loop ends.
bcast_loop-Core :
    (w : World) (fds : List ℕ) (s : Scheduler)
    → Core s
    → IsBenign w s
    → Distinct fds
    → All (IsOpen s.clients) fds
    → Ensures (λ s'. Core s' × Kept w s s') (bcast_loop w fds s)
unfolding bcast_loop
bcast_loop-Core w [] s v b d o = (v, Kept-refl w s b)
bcast_loop-Core w (fd ∷ fds) s v b d o =
    let (c, found, same) = find_client-present fd s.clients o.0 in
    rw (found, bcast_loop)
      (Ensures-bind (After w fd s) (λ s'. Core s' × Kept w s s') (bcast_one w c s)
        (bcast_loop w fds)
        (subst (λ x. Ensures (After w x s) (bcast_one w c s)) same
          (bcast_one-After w c s v b (subst (IsOpen s.clients) (sym same) o.0)))
        λ t a.
          Ensures-map (λ s'. Core s' × Kept w t s') (λ s'. Core s' × Kept w s s')
            (bcast_loop w fds t)
            (bcast_loop-Core w fds t a.core a.kept.benign d.1
              (All-IsOpen-After w fd s t fds a d.0 o.1))
            (λ u k. (k.0, Kept-trans w s t u a.kept k.1)))

pub IsOpen-clients :
    (cs seen : List Client)
    → ((x : ℕ) → contains x (fds_of seen) ≡ true → contains x (fds_of cs) ≡ true)
    → All (IsOpen cs) (fds_of seen)
unfolding contains
IsOpen-clients cs [] h = tt
IsOpen-clients cs (c ∷ seen) h =
    (h c.fd (ground arith), IsOpen-clients cs seen (λ x k. h x (ground arith)))

pub bcast_status-Core :
    (w : World) (s : Scheduler)
    → Core s
    → IsBenign w s
    → Ensures (λ s'. Core s' × Kept w s s') (bcast_status w s)
unfolding bcast_status
bcast_status-Core w s v b =
    bcast_loop-Core w (fds_of s.clients) s v b v.fds (IsOpen-clients s.clients s.clients (λ x h. h))
