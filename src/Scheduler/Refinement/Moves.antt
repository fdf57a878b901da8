-- ===== src/Scheduler/Refinement/Moves.antt =====
-- Messages, and clients that are removed.
use nvshare.Prelude.{ℕ, ◌≡◌, refl, sym, ap, subst, ◌∙◌, Bool, true, false, Ensures, Ensures-map}
use nvshare.Comm.Messages.{Message}
use nvshare.Scheduler.State.{Scheduler, World}
use nvshare.Scheduler.Sending.{record_sent}
use nvshare.Scheduler.Clients.{without, fds_of, remove_req, delete_client, status_type}
use nvshare.Scheduler.Protocol.{Lock, is_status, quits, Steps, inform, close, done, one}
use nvshare.Scheduler.Invariant.{
  Core, IsBenign, IsOpen, removed, fds_of-removed, delete_client-removed,
}

-- The protocol's view of the scheduler.
abbrev pub view : Scheduler → Lock
view s = record {
  on = s.scheduler_on;
  held = s.lock_held;
  queue = s.requests;
  open_fds = fds_of s.clients;
  told = s.sent;
}

-- One state leads to another by steps of the protocol.
abbrev pub Moves : Scheduler → Scheduler → Type 0
Moves s s' = Steps (view s) (view s')

-- A connection is closed, and the client with it.
abbrev pub closed : ℕ → Lock → Lock
closed fd p = record (quits fd p) { open_fds = without fd p.open_fds }

pub view-removed :
    (w : World) (fd : ℕ) (s : Scheduler)
    → Core s
    → IsBenign w s
    → view (removed w fd s) ≡ closed fd (view s)
unfolding remove_req
view-removed w fd s v b =
    ap (λ fds. record (quits fd (view s)) { open_fds = fds }) (fds_of-removed w fd s v b)

pub removed-Moves :
    (w : World) (fd : ℕ) (s : Scheduler) → Core s → IsBenign w s → Moves s (removed w fd s)
removed-Moves w fd s v b = subst (Steps (view s)) (sym (view-removed w fd s v b)) (one (close fd))

pub view-delete_client :
    (w : World) (fd : ℕ) (s : Scheduler)
    → Core s
    → IsBenign w s
    → IsOpen s.clients fd
    → Ensures (λ s'. view s' ≡ closed fd (view s)) (delete_client w fd s)
view-delete_client w fd s v b o =
    Ensures-map (λ s'. s' ≡ removed w fd s) (λ s'. view s' ≡ closed fd (view s))
      (delete_client w fd s) (delete_client-removed w fd s o)
      (λ s' e. ap view e ∙ view-removed w fd s v b)

pub delete_client-Moves :
    (w : World) (fd : ℕ) (s : Scheduler)
    → Core s
    → IsBenign w s
    → IsOpen s.clients fd
    → Ensures (Moves s) (delete_client w fd s)
delete_client-Moves w fd s v b o =
    Ensures-map (λ s'. view s' ≡ closed fd (view s)) (Moves s) (delete_client w fd s)
      (view-delete_client w fd s v b o) (λ s' e. subst (Steps (view s)) (sym e) (one (close fd)))

is_status-status_type : (on : Bool) → is_status on (status_type on) ≡ true
is_status-status_type true = refl
is_status-status_type false = refl

-- A message that tells the status.
pub record_sent-Moves :
    (fd : ℕ) (m : Message) (s : Scheduler) (sent : Bool)
    → m.type ≡ status_type s.scheduler_on
    → Moves s (record_sent fd m s sent)
unfolding record_sent
record_sent-Moves fd m s true e =
    one (inform fd m (ap (is_status s.scheduler_on) e ∙ is_status-status_type s.scheduler_on))
record_sent-Moves fd m s false e = done
