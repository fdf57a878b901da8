-- ===== src/Scheduler/Refinement/Events.antt =====
-- Every event is one message heard, and then steps of the protocol.
use nvshare.Prelude.{
  Ensures-if, ℕ, ◌≡◌, ◌⊎◌, refl, ap, Bool, true, false, [], ◌∷◌, ◌++◌, ◌==◌, ◌||◌, if◌then◌else◌,
  ok, exited, Ensures, Ensures-bind, Ensures-map, inl, inr,
}
use nvshare.Common.Transfer.{Attempts}
use nvshare.Comm.Sockets.{Status, socket_ok, socket_error, nvshare_accept}
use nvshare.Comm.Messages.{econnaborted, eagain}
use nvshare.Scheduler.State.{Scheduler, World}
use nvshare.Scheduler.Sending.{receive_message}
use nvshare.Scheduler.Clients.{fds_of}
use nvshare.Scheduler.Dispatch.{
  Event, connection, readable, hangup, other_event, process_msg, new_client, on_connection, on_gone,
  handle_event,
}
use nvshare.Scheduler.Lists.{find_client-present, fds_of-append}
use nvshare.Scheduler.Protocol.{Steps, more, close}
use nvshare.Scheduler.Invariant.{Inv, IsHonest, receive_message_ends}
use nvshare.Scheduler.Refinement.Moves.{view, Moves, closed}
use nvshare.Scheduler.Refinement.Handlers.{Hears, expelled, on_gone_closes, dispatch-Hears}

-- A connection is added, with a descriptor that the system gave out.
pub record Joins (call : Attempts Status) (s s' : Scheduler) : Type 0 where
  pub fd : ℕ
  pub given : nvshare_accept call ≡ socket_ok fd
  pub joined : view s' ≡ record (view s) { open_fds = fds_of s.clients ++ fd ∷ [] }

abbrev pub Takes : Event → Scheduler → Scheduler → Type 0
Takes (connection call added) s s' = (s' ≡ s) ⊎ Joins call s s'
Takes (readable fd call m) s s' = Hears fd m.type s s'
Takes (hangup fd) s s' = Moves s s'
Takes other_event s s' = s' ≡ s

on_connection-Takes :
    (call : Attempts Status) (st : Status) (added : Bool) (s : Scheduler)
    → nvshare_accept call ≡ st
    → Ensures (λ s'. (s' ≡ s) ⊎ Joins call s s') (on_connection st added s)
unfolding on_connection
on_connection-Takes call (socket_ok fd) true s e = inr (record {
  fd = fd;
  given = e;
  joined = ap (λ fds. record (view s) { open_fds = fds }) (fds_of-append s.clients (new_client fd));
})
on_connection-Takes call (socket_ok fd) false s e = inl refl
on_connection-Takes call (socket_error n) added s e =
    Ensures-if (λ s'. (s' ≡ s) ⊎ Joins call s s') (n == econnaborted || n == eagain) (ok s) exited
      (λ _. inl refl) (λ _. tt)

-- The scheduler does what its protocol says, and no more. From a state within the invariant, and
-- while the system answers as it is assumed to, each event that is handled without an exit is one of
-- these: a connection that is added or refused; a message that is heard (a request joins the queue, a
-- lock that is given back leaves its client's place free, the status changes, the client loses its
-- connection, or nothing, but a lock that is given back is always noticed while the scheduler is on)
-- and then steps of the protocol; a connection that is lost, with steps of the protocol.
pub handle_event-Takes :
    (w : World) (e : Event) (s : Scheduler)
    → Inv s
    → IsHonest w e s
    → Ensures (Takes e s) (handle_event w e s)
unfolding handle_event process_msg
handle_event-Takes w (connection call added) s v h =
    on_connection-Takes call (nvshare_accept call) added s refl
handle_event-Takes w (readable fd call m) s v h =
    Ensures-bind (λ _. Unit {0}) (Hears fd m.type s) (receive_message call fd s)
      (λ got. if got then process_msg w fd m s else on_gone w fd s)
      (receive_message_ends call fd s h.live)
      λ got _.
        Ensures-if (Hears fd m.type s) got (process_msg w fd m s) (on_gone w fd s)
          (λ _.
            let (c, found, same) = find_client-present fd s.clients h.live in
            rw (found, process_msg) (dispatch-Hears w fd s v h.benign c found m m.type h.lucky))
          (λ _. expelled fd m.type s (on_gone w fd s) (on_gone_closes w fd s v h.benign h.live))
handle_event-Takes w (hangup fd) s v h =
    Ensures-map (λ u. Steps (closed fd (view s)) (view u)) (Moves s) (on_gone w fd s)
      (on_gone_closes w fd s v h.benign h.live) (λ u. more (close fd))
handle_event-Takes w other_event s v h = refl
