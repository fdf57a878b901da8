-- ===== src/Scheduler/Invariant/Defs.antt =====
-- The invariant, and what is assumed of the system's answers.
use nvshare.Prelude.{ℕ, ◌*◌, ◌<◌, ◌≡◌, ◌≢◌, Bool, true, false, List, [], Option, none, some, All}
use nvshare.Comm.Ids.{generate_id}
use nvshare.Scheduler.State.{Scheduler, World, Client, find_client, has_registered}
use nvshare.Scheduler.Clients.{contains, fds_of, acceptable}
use nvshare.Scheduler.Lists.{Distinct}

abbrev pub registered? : Option Client → Bool
registered? none = false
registered? (some c) = has_registered c

-- The pointer is to a client of the list, which has its identifier.
abbrev pub IsRegistered : List Client → ℕ → Type 0
IsRegistered cs fd = registered? (find_client fd cs) ≡ true

abbrev pub IsOpen : List Client → ℕ → Type 0
IsOpen cs fd = contains fd (fds_of cs) ≡ true

-- `holder`: the lock is held by the head of the request list, so there is one. `queued`: each
-- request is of a client that is still there and has registered. `once`: a client has one request at
-- most. `fds`: no two clients share a connection. `clean`: the text of the global `out_msg` is
-- zeroed, so no client is sent another's identifier.
pub record Core (s : Scheduler) : Type 0 where
  pub holder : s.lock_held ≡ true → s.requests ≢ []
  pub queued : All (IsRegistered s.clients) s.requests
  pub once : Distinct s.requests
  pub fds : Distinct (fds_of s.clients)
  pub clean : s.out_msg.text ≡ []

-- Between two events also: while the scheduler is off nobody waits.
pub record Inv (s : Scheduler) : Type 0 where
  pub core : Core s
  pub open core use *
  pub off : s.scheduler_on ≡ false → s.requests ≡ []

-- While the scheduler is on, the lock is held whenever someone waits for it.
abbrev pub IsBusy : Scheduler → Type 0
IsBusy s = s.scheduler_on ≡ true → s.requests ≢ [] → s.lock_held ≡ true

-- What `delete_client` reads from a client's block after it has freed it is not the descriptor of
-- another client that is there.
abbrev pub IsBenign : World → Scheduler → Type 0
IsBenign w s = (d : ℕ) → contains (w.stale d) (fds_of s.clients) ≡ false

-- One of the identifiers that may be drawn is acceptable.
pub record IsLucky (w : World) (s : Scheduler) : Type 0 where
  pub draw : ℕ
  pub drawn : draw < w.draws
  pub free : acceptable s.clients (generate_id w.rand (draw * 3)) ≡ true

-- What an operation keeps: the connections only become fewer, and the status stays.
pub record Kept (w : World) (s s' : Scheduler) : Type 0 where
  pub benign : IsBenign w s'
  pub status : s'.scheduler_on ≡ s.scheduler_on
  pub emptied : s.requests ≡ [] → s'.requests ≡ []
