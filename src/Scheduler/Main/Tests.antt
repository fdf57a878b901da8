-- ===== src/Scheduler/Main/Tests.antt =====
-- `main` of the scheduler on concrete answers of the system.
use nvshare.Prelude.{
  ℕ, ◌≡◌, ◌+◌, refl, subst, true, false, List, [], ◌∷◌, none, some, ok, exited, fault, Ensures,
  arith, replicate, ◌==◌, if◌then◌else◌,
}
use nvshare.Common.Transfer.{Attempts, result, interrupted, count, failed, Input, bytes}
use nvshare.Comm.Messages.{zero_message, sched_off, epipe}
use nvshare.Comm.Sockets.{
  socket_ok, nvshare_accept, nvshare_unix_bind, nvshare_bind_and_listen, nvshare_send_noblock,
  nvshare_receive_noblock,
}
use nvshare.Comm.Ids.{generate_id}
use nvshare.Scheduler.State.{Scheduler, World, Client, init, find_client, has_registered}
use nvshare.Scheduler.Sending.{receive_message, send_message}
use nvshare.Scheduler.Clients.{
  contains, fds_of, acceptable, id_taken, delete_client, bcast_status, bcast_loop, bcast_one,
  remove_req,
}
use nvshare.Scheduler.Dispatch.{
  connection, on_connection, readable, hangup, on_gone, handle_event, process_msg, on_sched_off,
  handle_batch, schedule_if_free,
}
use nvshare.Scheduler.Invariant.{Inv}
use nvshare.Scheduler.Main.{
  Host, Round, one_round, set_up, Turn, batch_of, timer_wakes, run_scheduler, IsHonestRun,
  run_scheduler-Inv,
}
use nvshare.Scheduler.Main.Freed.{freed_by_earlier_event}
use nvshare.Scheduler.Schedule.{timed_out, restart, try_schedule, try_loop, try_head, settle}

-- Connection 5 is broken.
abbrev calm : World
calm = record {
  write = λ fd. interrupted (result (if fd == 5 then failed epipe else count 537));
  epoll_del = λ _. true;
  close = λ _. none;
  stale = λ _. 99;
  rand = λ n. n + 1;
  draws = 1;
}

abbrev host : Host
host = record {
  mkdir = some 17;
  dir_chmod = true;
  mutex_initialized = true;
  cond_initialized = true;
  timer_created = true;
  epoll_created = true;
  kernel = record {
    socket = socket_ok 3;
    unlink = some 2;
    bind = none;
    listen = none;
    connect = none;
  };
  lsock_added = true;
  socket_chmod = true;
}

-- The directory may exist, and nothing else may stand in the way.
set_up_works : set_up host ≡ ok (3, init)
unfolding set_up nvshare_bind_and_listen nvshare_unix_bind
set_up_works = refl

set_up_denied : set_up (record host { mkdir = some 13 }) ≡ exited
unfolding set_up
set_up_denied = refl

abbrev first_round : Round
first_round = record {
  epoll_wait = interrupted (result (some ((calm, connection (result (socket_ok 5)) true) ∷ [])));
  locked = true;
  unlocked = true;
}

-- A client connects, and the timer wakes up.
abbrev turns : List Turn
turns = batch_of first_round ∷ timer_wakes calm timed_out ∷ []

one_round-connected :
    Ensures (λ s. contains 99 (fds_of s.clients) ≡ false) (one_round first_round init)
unfolding one_round handle_batch handle_event init on_connection nvshare_accept contains
one_round-connected = refl

turns-IsHonestRun : IsHonestRun turns (restart false init)
unfolding init contains acceptable id_taken generate_id restart
turns-IsHonestRun = (
  (
    record {
      benign = λ d. refl;
      lucky = record { draw = 0; drawn = omega arith; free = refl };
      live = λ fd e. refl;
    },
    λ s' e. tt,
  ),
  λ s' e. (
    λ d. subst (Ensures (λ s. contains 99 (fds_of s.clients) ≡ false)) e one_round-connected,
    λ t' e. tt,
  ),
)

run_scheduler-Inv_example : Ensures (λ u. Inv u.sched) (run_scheduler host turns)
run_scheduler-Inv_example = run_scheduler-Inv host turns turns-IsHonestRun

abbrev client : ℕ → ℕ → Client
client fd id = record { fd = fd; id = id; pod_name = []; pod_namespace = [] }

abbrev two_clients : Scheduler
two_clients = record init { clients = client 5 1 ∷ client 6 2 ∷ [] }

abbrev whole_message : Attempts Input
whole_message = result (bytes (replicate 537 0))

-- Client 6 has the lock and hangs up; 5 is next, and its connection is broken.
abbrev holding : Scheduler
holding = record two_clients { lock_held = true; requests = 6 ∷ 5 ∷ [] }

holding-Inv : Inv holding
unfolding init contains find_client has_registered
holding-Inv = record {
  core = record {
    holder = λ _ e. cc;
    queued = (refl, (refl, tt));
    once = (refl, (refl, tt));
    fds = (refl, (refl, tt));
    clean = refl;
  };
  off = λ e. cc;
}

freed_by_earlier_event_example :
    Ensures
      (λ s'.
        (handle_event calm (readable 5 whole_message zero_message) s' ≡ fault)
        × (handle_event calm (hangup 5) s' ≡ fault))
      (handle_event calm (hangup 6) holding)
unfolding init contains nvshare.Scheduler.Sending.send_status nvshare_send_noblock
freed_by_earlier_event_example =
    freed_by_earlier_event calm calm whole_message zero_message holding 6 5 [] holding-Inv
      (λ d. refl) refl refl refl

-- The two events in one batch.
held_batch_faults : handle_batch ((calm, hangup 6) ∷ (calm, hangup 5) ∷ []) holding ≡ fault
unfolding handle_batch handle_event init find_client has_registered send_message
    nvshare_send_noblock delete_client nvshare.Scheduler.Clients.unlink_clients remove_req on_gone
    schedule_if_free try_schedule try_loop try_head settle nvshare.Scheduler.Clients.without
held_batch_faults = refl

-- One batch in which 6 turns the scheduler off and 5 has hung up: the broadcast finds that 5 is dead
-- and frees it, and then 5's own event is handled.
batch_faults :
    handle_batch
      ((calm, readable 6 whole_message (record zero_message { type = sched_off }))
        ∷ (calm, hangup 5)
        ∷ [])
      two_clients
    ≡ fault
unfolding handle_batch handle_event init receive_message find_client nvshare_receive_noblock
    process_msg on_sched_off bcast_status bcast_loop bcast_one has_registered send_message
    nvshare_send_noblock delete_client nvshare.Scheduler.Clients.unlink_clients remove_req on_gone
batch_faults = refl
