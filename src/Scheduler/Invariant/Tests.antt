-- ===== src/Scheduler/Invariant/Tests.antt =====
-- A run of the scheduler with both threads: a client connects, registers and asks for the lock, and
-- then its quantum is over.
use nvshare.Prelude.{◌+◌, refl, true, false, none, replicate, arith, Outcome, ok}
use nvshare.Common.Transfer.{result, count, bytes}
use nvshare.Comm.Messages.{MessageType, zero_message, register, req_lock}
use nvshare.Comm.Sockets.{socket_ok, nvshare_accept, nvshare_send_noblock, nvshare_receive_noblock}
use nvshare.Comm.Ids.{generate_id}
use nvshare.Scheduler.State.{Scheduler, World, init, find_client, has_registered}
use nvshare.Scheduler.Sending.{receive_message, send_message}
use nvshare.Scheduler.Clients.{
  contains, acceptable, id_taken, draw_id, register_client, update_client, insert_req,
}
use nvshare.Scheduler.Schedule.{
  Timing, timed_out, signaled, restart, try_schedule, try_loop, try_head, settle, send_drop,
  settle_drop, timer_step,
}
use nvshare.Scheduler.Dispatch.{
  Event, connection, readable, on_connection, process_msg, on_register, on_req_lock,
  schedule_if_free, handle_event,
}
use nvshare.Scheduler.Invariant.Defs.{Inv}
use nvshare.Scheduler.Invariant.Timer.{start, event, wake_up, Reach-Inv}

abbrev calm : World
calm = record {
  write = λ fd. result (count 537);
  epoll_del = λ _. true;
  close = λ _. none;
  stale = λ _. 99;
  rand = λ n. n + 1;
  draws = 2;
}

abbrev result_of : Outcome Scheduler → Scheduler
result_of (ok s) = s
result_of _ = init

abbrev timing_of : Outcome Timing → Timing
timing_of (ok t) = t
timing_of _ = restart true init

abbrev says : MessageType → Event
says t = readable 6 (result (bytes (replicate 537 0))) (record zero_message { type = t })

abbrev connected : Scheduler
connected = result_of (handle_event calm (connection (result (socket_ok 6)) true) init)

abbrev registered : Scheduler
registered = result_of (handle_event calm (says register) connected)

abbrev asked : Scheduler
asked = result_of (handle_event calm (says req_lock) registered)

-- LOCK_OK is sent, the timer starts anew, and DROP_LOCK is sent.
abbrev rearmed : Timing
rearmed = timing_of (timer_step calm signaled (record (restart false init) { sched = asked }))

abbrev dropped : Timing
dropped = timing_of (timer_step calm timed_out rearmed)

Reach-Inv_example : Inv dropped.sched
unfolding timer_step restart init contains handle_event on_connection nvshare_accept receive_message
    find_client nvshare_receive_noblock process_msg on_register register_client has_registered
    draw_id acceptable generate_id id_taken send_message update_client nvshare_send_noblock
    on_req_lock schedule_if_free insert_req try_schedule try_loop try_head settle send_drop
    settle_drop
Reach-Inv_example = Reach-Inv (
    wake_up {t = rearmed} {u = dropped} calm timed_out
      (wake_up {u = rearmed} calm signaled
        (event {s = asked} calm (says req_lock)
          (event {s = registered} calm (says register)
            (event {s = connected} calm (connection (result (socket_ok 6)) true) start
              (record {
                benign = λ d. refl;
                lucky = record { draw = 0; drawn = omega arith; free = refl };
                live = λ fd e. refl;
              })
              refl)
            (record {
              benign = λ d. refl;
              lucky = record { draw = 0; drawn = omega arith; free = refl };
              live = refl;
            })
            refl)
          (record {
            benign = λ d. refl;
            lucky = record { draw = 1; drawn = omega arith; free = refl };
            live = refl;
          })
          refl)
        (λ d. refl) refl)
      (λ d. refl) refl)
