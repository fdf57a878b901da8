-- ===== src/Scheduler/Invariant/Clients.antt =====
-- Requests are added and removed, and clients removed, within the invariant.
use nvshare.Scheduler.Clients.{is_head, close_status}
use nvshare.Scheduler.Lists.{find_client-present}
use nvshare.Prelude.{
  true_or_exit, ◌>>◌, ℕ, ◌≡◌, ◌≢◌, refl, Bool, true, false, List, [], ◌∷◌, ◌++◌, ◌==◌,
  if◌then◌else◌, Option, none, some, All, arith, ok, Ensures, inl, inr, Bool-cases,
}
use nvshare.Comm.Messages.{eintr}
use nvshare.Scheduler.State.{Scheduler, World, Client}
use nvshare.Scheduler.Clients.{
  contains, without, unlink_clients, fds_of, insert_req, remove_req, delete_client,
}
use nvshare.Scheduler.Lists.{
  Distinct, Distinct-append, contains-without, Distinct-without, fds_of-unlink_clients,
  find_client-unlink_clients,
}
use nvshare.Scheduler.Invariant.Defs.{Core, Kept, IsBenign, IsRegistered, IsOpen}

All-append :
    (cs : List Client) (fd : ℕ) (rs : List ℕ)
    → All (IsRegistered cs) rs
    → IsRegistered cs fd
    → All (IsRegistered cs) (rs ++ fd ∷ [])
All-append cs fd [] a r = (r, tt)
All-append cs fd (x ∷ rs) a r = (a.0, All-append cs fd rs a.1 r)

All-without :
    (cs : List Client) (fd : ℕ) (rs : List ℕ)
    → All (IsRegistered cs) rs
    → All (IsRegistered cs) (without fd rs)
unfolding without
All-without cs fd [] a = tt
All-without cs fd (x ∷ rs) a = ground (arith, All-without cs fd rs a.1)

-- The requests of the others are still of clients that are there.
All-unlink_clients :
    (cs : List Client) (fd st : ℕ) (rs : List ℕ)
    → Distinct (fds_of cs)
    → contains st (fds_of cs) ≡ false
    → All (IsRegistered cs) rs
    → All (IsRegistered (unlink_clients fd st cs)) (without fd rs)
unfolding without
All-unlink_clients cs fd st [] d b a = tt
All-unlink_clients cs fd st (x ∷ rs) d b a = elim (Bool-cases (x == fd)) [
  | inl own ↦ rw own (All-unlink_clients cs fd st rs d b a.1)
  | inr others ↦ rw others (
    rw (find_client-unlink_clients x fd st cs d b, others) a.0,
    All-unlink_clients cs fd st rs d b a.1,
  )
]

append-ne-nil : (xs : List ℕ) (y : ℕ) → xs ++ y ∷ [] ≢ []
append-ne-nil [] y = λ e. cc
append-ne-nil (x ∷ xs) y = λ e. cc

pub insert_req-Core :
    (fd : ℕ) (s : Scheduler) → Core s → IsRegistered s.clients fd → Core (insert_req fd s)
unfolding insert_req
insert_req-Core fd s v r = elim (Bool-cases (contains fd s.requests)) [
  | inl old ↦ rw old v
  | inr new ↦ rw new (record {
    holder = λ h. append-ne-nil s.requests fd;
    queued = All-append s.clients fd s.requests v.queued r;
    once = Distinct-append fd s.requests v.once new;
    fds = v.fds;
    clean = v.clean;
  })
]

-- If the lock is still held, then the head is another client's request, and it stays.
pub without_holder :
    (fd : ℕ) (held : Bool) (rs : List ℕ)
    → (held ≡ true → rs ≢ [])
    → (if is_head fd rs then false else held) ≡ true
    → without fd rs ≢ []
unfolding without
without_holder fd held [] h k = h k
without_holder fd held (r ∷ rs) h k = ground arith

pub without-nil : (fd : ℕ) (rs : List ℕ) → rs ≡ [] → without fd rs ≡ []
unfolding without
without-nil fd [] e = refl
without-nil fd (r ∷ rs) e = cc

pub remove_req-Core : (fd : ℕ) (s : Scheduler) → Core s → Core (remove_req fd s)
unfolding remove_req
remove_req-Core fd s v = record {
  holder = without_holder fd s.lock_held s.requests v.holder;
  queued = All-without s.clients fd s.requests v.queued;
  once = Distinct-without fd s.requests v.once;
  fds = v.fds;
  clean = v.clean;
}

-- The state after a client is removed.
abbrev pub removed : World → ℕ → Scheduler → Scheduler
removed w fd s =
    let s' = remove_req fd s in record s' { clients = unlink_clients fd (w.stale fd) s'.clients }

pub delete_client-removed :
    (w : World) (fd : ℕ) (s : Scheduler)
    → IsOpen s.clients fd
    → Ensures (λ s'. s' ≡ removed w fd s) (delete_client w fd s)
unfolding delete_client
delete_client-removed w fd s o =
    let (c, found, same) = find_client-present fd s.clients o in
    rw (found, delete_client) (ends (w.epoll_del fd) (w.close fd))
  where
    ends :
        (deleted : Bool) (closed : Option ℕ)
        → Ensures
            (λ s'. s' ≡ removed w fd s)
            (do true_or_exit deleted; close_status closed; ok (removed w fd s))
    ends false closed = tt
    ends true none = refl
    ends true (some e) = elim (Bool-cases (e == eintr)) [
      | inl intr ↦ rw (intr, Ensures) refl
      | inr bad ↦ rw (bad, Ensures) tt
    ]

module _ (w : World) (fd : ℕ) (s : Scheduler) (v : Core s) (b : IsBenign w s) where
  pub fds_of-removed : fds_of (removed w fd s).clients ≡ without fd (fds_of s.clients)
  unfolding remove_req
  fds_of-removed = fds_of-unlink_clients fd (w.stale fd) s.clients v.fds (b fd)

  pub removed-Core : Core (removed w fd s)
  unfolding remove_req
  removed-Core = record {
    holder = without_holder fd s.lock_held s.requests v.holder;
    queued = All-unlink_clients s.clients fd (w.stale fd) s.requests v.fds (b fd) v.queued;
    once = Distinct-without fd s.requests v.once;
    fds = rw fds_of-removed (Distinct-without fd (fds_of s.clients) v.fds);
    clean = v.clean;
  }

  pub removed-Kept : Kept w s (removed w fd s)
  unfolding remove_req
  removed-Kept = record {
    benign = λ d.
        rw (fds_of-removed, contains-without (w.stale d) fd (fds_of s.clients))
          (ground (arith, b d));
    status = refl;
    emptied = without-nil fd s.requests;
  }
