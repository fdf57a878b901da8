-- ===== src/Scheduler/Dispatch.antt =====
-- `process_msg`, and what the loop of `main` does with each event of epoll.
use nvshare.Prelude.{
  ℕ, Bool, true, false, none, some, List, ◌∷◌, [], ◌++◌, ◌||◌, ◌==◌, if◌then◌else◌, Outcome, ok,
  exited, fault, ◌>>=◌, to_int,
}
use nvshare.Common.Transfer.{Attempts, Input}
use nvshare.Comm.Messages.{
  MessageType, Message, register, sched_on, sched_off, req_lock, lock_ok, drop_lock, lock_released,
  set_tq, other, unregistered_id, eagain, econnaborted,
}
use nvshare.Comm.Numbers.{strtoll}
use nvshare.Comm.Sockets.{Status, socket_ok, socket_error, nvshare_accept}
use nvshare.Scheduler.State.{Scheduler, World, Client, find_client, has_registered}
use nvshare.Scheduler.Sending.{receive_message}
use nvshare.Scheduler.Clients.{insert_req, remove_req, delete_client, bcast_status, register_client}
use nvshare.Scheduler.Schedule.{try_schedule}

-- `if (!lock_held) try_schedule();`
unfoldable pub schedule_if_free : World → Scheduler → Outcome Scheduler
schedule_if_free w s = if s.lock_held then ok s else try_schedule w s

unfoldable pub on_register : World → ℕ → Message → Scheduler → Outcome Scheduler
on_register w fd m s = do
  (done, s') ← register_client w fd m s
  if done then ok s' else delete_client w fd s'

unfoldable pub on_sched_on : World → Scheduler → Outcome Scheduler
on_sched_on w s = if s.scheduler_on then ok s else bcast_status w (record s { scheduler_on = true })

-- With the scheduler off every client takes the lock for its own, so the list is emptied.
unfoldable pub on_sched_off : World → Scheduler → Outcome Scheduler
on_sched_off w s =
    if s.scheduler_on
    then (do
      s' ← bcast_status w (record s { scheduler_on = false })
      ok (record s' { requests = []; lock_held = false }))
    else ok s

unfoldable pub on_set_tq : Message → Scheduler → Scheduler
on_set_tq m s = elim (strtoll m.text) [
  | none ↦ s
  | some v ↦ record s { tq = to_int v; must_reset_timer = true }
]

unfoldable pub on_req_lock : World → ℕ → Client → Scheduler → Outcome Scheduler
on_req_lock w fd c s =
    if has_registered c
    then if s.scheduler_on then schedule_if_free w (insert_req fd s) else ok s
    else delete_client w fd s

unfoldable pub on_lock_released : World → ℕ → Client → Scheduler → Outcome Scheduler
on_lock_released w fd c s =
    if has_registered c
    then if s.scheduler_on then schedule_if_free w (remove_req fd s) else ok s
    else delete_client w fd s

-- The messages that only the scheduler sends fall under `default`.
unfoldable pub dispatch : MessageType → World → ℕ → Client → Message → Scheduler → Outcome Scheduler
dispatch register w fd c m s = on_register w fd m s
dispatch sched_on w fd c m s = on_sched_on w s
dispatch sched_off w fd c m s = on_sched_off w s
dispatch set_tq w fd c m s = ok (on_set_tq m s)
dispatch req_lock w fd c m s = on_req_lock w fd c s
dispatch lock_released w fd c m s = on_lock_released w fd c s
dispatch lock_ok w fd c m s = ok s
dispatch drop_lock w fd c m s = ok s
dispatch (other n) w fd c m s = ok s

unfoldable pub process_msg : World → ℕ → Message → Scheduler → Outcome Scheduler
unfolding dispatch
process_msg w fd m s = elim (find_client fd s.clients) [
  | none ↦ fault
  | some c ↦ dispatch m.type w fd c m s
]

-- An event of epoll_wait: a connection on `lsock`, with what accept4 returns and whether epoll_ctl
-- adds it; EPOLLIN on a client, with what is read and the message that these bytes are; EPOLLERR or
-- EPOLLHUP alone; any other.
pub data Event : Type 0 where
  connection : Attempts Status → Bool → Event
  readable : ℕ → Attempts Input → Message → Event
  hangup : ℕ → Event
  other_event : Event

unfoldable pub new_client : ℕ → Client
new_client fd = record { fd = fd; id = unregistered_id; pod_name = []; pod_namespace = [] }

unfoldable pub on_connection : Status → Bool → Scheduler → Outcome Scheduler
unfolding new_client
on_connection (socket_ok fd) true s = ok (record s { clients = s.clients ++ new_client fd ∷ [] })
on_connection (socket_ok fd) false s = ok s
on_connection (socket_error e) added s = if e == econnaborted || e == eagain then ok s else exited

-- A client that is gone is removed, and the lock passes on if the client held it.
unfoldable pub on_gone : World → ℕ → Scheduler → Outcome Scheduler
on_gone w fd s = do
  s' ← delete_client w fd s
  if s'.scheduler_on then schedule_if_free w s' else ok s'

-- The source tells the listening socket from a client by `events[i].data.fd == lsock`, where `data` is
-- a union that holds a pointer for a client; here an event says which of the two it is.
unfoldable pub handle_event : World → Event → Scheduler → Outcome Scheduler
handle_event w (connection call added) s = on_connection (nvshare_accept call) added s
handle_event w (readable fd call m) s = do
  got ← receive_message call fd s
  if got then process_msg w fd m s else on_gone w fd s
handle_event w (hangup fd) s = on_gone w fd s
handle_event w other_event s = ok s

-- The events that one epoll_wait returns, in order.
unfoldable pub handle_batch : List (World × Event) → Scheduler → Outcome Scheduler
handle_batch [] s = ok s
handle_batch ((w, e) ∷ es) s = do s' ← handle_event w e s; handle_batch es s'
