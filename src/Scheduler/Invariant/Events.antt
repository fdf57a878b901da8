-- ===== src/Scheduler/Invariant/Events.antt =====
-- Every event that the system may report is handled within the invariant.
use nvshare.Prelude.{
  Ensures-if, ℕ, ◌≡◌, refl, sym, ap, ◌∙◌, Bool, true, false, List, [], ◌∷◌, ◌++◌, ◌==◌, ◌||◌,
  if◌then◌else◌, some, All, arith, Outcome, ok, exited, Ensures, Ensures-bind, Ensures-map,
}
use nvshare.Common.Transfer.{Attempts, Input, bytes, broken}
use nvshare.Comm.Sockets.{Status, socket_ok, socket_error, nvshare_accept, nvshare_receive_noblock}
use nvshare.Comm.Messages.{
  Message, MessageType, register, sched_on, sched_off, req_lock, lock_ok, drop_lock, lock_released,
  set_tq, other, econnaborted, eagain,
}
use nvshare.Scheduler.State.{Scheduler, World, Client, find_client}
use nvshare.Scheduler.Sending.{receive_message, receive_status}
use nvshare.Scheduler.Clients.{contains, fds_of, delete_client}
use nvshare.Scheduler.Dispatch.{
  Event, connection, readable, hangup, other_event, schedule_if_free, process_msg, dispatch,
  new_client, on_connection, on_gone, handle_event,
}
use nvshare.Scheduler.Lists.{
  find_client-present, find_client-append, fds_of-append, Distinct-append, find_client-absent,
}
use nvshare.Scheduler.Invariant.Defs.{
  Inv, IsBenign, IsLucky, IsOpen, IsRegistered, registered?, IsBusy,
}
use nvshare.Scheduler.Invariant.Settled.{
  Settles, Settled-Settles, Settles-refl, schedule_if_free-Settled,
}
use nvshare.Scheduler.Invariant.Handlers.{
  delete_client-Inv, on_register-Registers, on_sched_on-Settles, on_sched_off-Settles,
  on_set_tq-Settles, on_req_lock-Settles, on_lock_released-Settles,
}

-- A new connection has a descriptor of its own; the client of any other event is still there.
abbrev pub IsLive : Event → Scheduler → Type 0
IsLive (connection call added) s =
    (fd : ℕ) → nvshare_accept call ≡ socket_ok fd → contains fd (fds_of s.clients) ≡ false
IsLive (readable fd call m) s = IsOpen s.clients fd
IsLive (hangup fd) s = IsOpen s.clients fd
IsLive other_event s = Unit

-- The message is no REGISTER of a client that has registered before.
abbrev pub IsFirst : Event → Scheduler → Type 0
IsFirst (readable fd call m) s = m.type ≡ register → registered? (find_client fd s.clients) ≡ false
IsFirst _ s = Unit

-- What is assumed of the system while the event is handled.
pub record IsHonest (w : World) (e : Event) (s : Scheduler) : Type 0 where
  pub benign : IsBenign w s
  pub lucky : IsLucky w s
  pub live : IsLive e s

-- What an event leaves: the invariant, and a lock that is held if anybody waits, as long as the
-- event is no second registration.
abbrev pub Handled : Event → Scheduler → Scheduler → Type 0
Handled e s s' = Inv s' × (IsFirst e s → IsBusy s → IsBusy s')

module _ (w : World) (s : Scheduler) (v : Inv s) (b : IsBenign w s) where
  from_Settles :
      (e : Event) (m : Outcome Scheduler) → Ensures (Settles s) m → Ensures (Handled e s) m
  from_Settles e m h = Ensures-map (Settles s) (Handled e s) m h (λ t r. (r.inv, λ _. r.busy))

  on_gone-Settles : (fd : ℕ) → IsOpen s.clients fd → Ensures (Settles s) (on_gone w fd s)
  unfolding on_gone
  on_gone-Settles fd o =
      Ensures-bind
        (λ t. Inv t × IsBenign w t × (contains fd s.requests ≡ false → IsBusy s → IsBusy t))
        (Settles s) (delete_client w fd s)
        (λ t. if t.scheduler_on then schedule_if_free w t else ok t)
        (delete_client-Inv w fd s v b o)
        λ t k.
          Ensures-if (Settles s) t.scheduler_on (schedule_if_free w t) (ok t)
            (λ on. Settled-Settles s _ (schedule_if_free-Settled w t k.0 k.1))
            (λ off. record { inv = k.0; busy = λ _ on. cc })

  dispatch-Handled :
      (fd : ℕ) (c : Client) (call : Attempts Input) (m : Message) (t : MessageType)
      → m.type ≡ t
      → IsLucky w s
      → find_client fd s.clients ≡ some c
      → Ensures (Handled (readable fd call m) s) (dispatch t w fd c m s)
  unfolding dispatch
  dispatch-Handled fd c call m register e lucky found =
      Ensures-map _ (Handled (readable fd call m) s) (dispatch register w fd c m s)
        (on_register-Registers w fd s v b c found m lucky)
        (λ u k. (k.0, λ first. k.1 (sym (ap registered? found) ∙ first e)))
  dispatch-Handled fd c call m sched_on e lucky found =
      from_Settles (readable fd call m) _ (on_sched_on-Settles w fd s v b)
  dispatch-Handled fd c call m sched_off e lucky found =
      from_Settles (readable fd call m) _ (on_sched_off-Settles w fd s v b)
  dispatch-Handled fd c call m set_tq e lucky found =
      let r = on_set_tq-Settles w fd s v b m in (r.inv, λ _. r.busy)
  dispatch-Handled fd c call m req_lock e lucky found =
      from_Settles (readable fd call m) _ (on_req_lock-Settles w fd s v b c found)
  dispatch-Handled fd c call m lock_released e lucky found =
      from_Settles (readable fd call m) _ (on_lock_released-Settles w fd s v b c found)
  dispatch-Handled fd c call m lock_ok e lucky found = (v, λ _ h. h)
  dispatch-Handled fd c call m drop_lock e lucky found = (v, λ _ h. h)
  dispatch-Handled fd c call m (other n) e lucky found = (v, λ _ h. h)

  process_msg-Handled :
      (fd : ℕ) (call : Attempts Input) (m : Message)
      → IsLucky w s
      → IsOpen s.clients fd
      → Ensures (Handled (readable fd call m) s) (process_msg w fd m s)
  unfolding process_msg
  process_msg-Handled fd call m lucky o =
      let (c, found, same) = find_client-present fd s.clients o in
      rw (found, process_msg) (dispatch-Handled fd c call m m.type refl lucky found)

receive_status_ends : (i : Input) → Ensures (λ _. Unit {0}) (receive_status i)
unfolding receive_status
receive_status_ends (bytes bs) = ground arith
receive_status_ends (broken e) = ground arith

pub receive_message_ends :
    (call : Attempts Input) (fd : ℕ) (s : Scheduler)
    → IsOpen s.clients fd
    → Ensures (λ _. Unit {0}) (receive_message call fd s)
unfolding receive_message
receive_message_ends call fd s o =
    let (c, found, same) = find_client-present fd s.clients o in
    rw (found, receive_message) (receive_status_ends (nvshare_receive_noblock call))

All-append_client :
    (cs : List Client) (c : Client) (rs : List ℕ)
    → contains c.fd (fds_of cs) ≡ false
    → All (IsRegistered cs) rs
    → All (IsRegistered (cs ++ c ∷ [])) rs
All-append_client cs c [] h a = tt
All-append_client cs c (r ∷ rs) h a = (
  ground (arith, find_client-append r cs c h, find_client-absent r cs),
  All-append_client cs c rs h a.1,
)

on_connection-Settles :
    (st : Status) (added : Bool) (s : Scheduler)
    → Inv s
    → ((fd : ℕ) → st ≡ socket_ok fd → contains fd (fds_of s.clients) ≡ false)
    → Ensures (Settles s) (on_connection st added s)
unfolding on_connection
on_connection-Settles (socket_ok fd) true s v new = record {
  inv = record {
    core = record {
      holder = v.holder;
      queued = All-append_client s.clients (new_client fd) s.requests (new fd refl) v.queued;
      once = v.once;
      fds =
          rw (fds_of-append s.clients (new_client fd))
            (Distinct-append fd (fds_of s.clients) v.fds (new fd refl));
      clean = v.clean;
    };
    off = v.off;
  };
  busy = λ h. h;
}
on_connection-Settles (socket_ok fd) false s v new = Settles-refl s v
on_connection-Settles (socket_error e) added s v new =
    Ensures-if (Settles s) (e == econnaborted || e == eagain) (ok s) exited (λ _. Settles-refl s v)
      (λ _. tt)

-- From a state within the invariant, every event whose client is in the list is handled to the end: no
-- loop runs on for ever, each request that is served and each client that a broadcast comes to is in
-- the list when its pointer is followed, and the state is within the invariant again, unless the
-- process chooses to exit. The lock is then held if anybody waits for it, provided that it was so
-- before and that the event is not a REGISTER of a client that has registered already. It is assumed
-- that a new connection has a new descriptor, that an acceptable identifier can be drawn, and that
-- what `delete_client` reads from the block that it has just freed is not another client's
-- descriptor; that read itself does happen.
pub handle_event-Handled :
    (w : World) (e : Event) (s : Scheduler)
    → Inv s
    → IsHonest w e s
    → Ensures (Handled e s) (handle_event w e s)
unfolding handle_event
handle_event-Handled w (connection call added) s v h =
    from_Settles w s v h.benign (connection call added) _
      (on_connection-Settles (nvshare_accept call) added s v h.live)
handle_event-Handled w (readable fd call m) s v h =
    Ensures-bind (λ _. Unit {0}) (Handled (readable fd call m) s) (receive_message call fd s)
      (λ got. if got then process_msg w fd m s else on_gone w fd s)
      (receive_message_ends call fd s h.live)
      λ got _.
        Ensures-if (Handled (readable fd call m) s) got (process_msg w fd m s) (on_gone w fd s)
          (λ _. process_msg-Handled w s v h.benign fd call m h.lucky h.live)
          (λ _.
            from_Settles w s v h.benign (readable fd call m) _
              (on_gone-Settles w s v h.benign fd h.live))
handle_event-Handled w (hangup fd) s v h =
    from_Settles w s v h.benign (hangup fd) _ (on_gone-Settles w s v h.benign fd h.live)
handle_event-Handled w other_event s v h = (v, λ _ b. b)
