-- ===== src/Scheduler/Tests.antt =====
-- The scheduler on concrete inputs: a client that holds the lock, one that waits, and a new one.
use nvshare.Prelude.{
  if◌then◌else◌, ◌==◌, replicate, ℕ, ◌+◌, ◌≡◌, refl, true, false, [], ◌∷◌, none, some, ok, Outcome,
  length, ◌<◌, ◌⊎◌, arith, Ensures, Returns, ◌>>=◌, pos,
}
use nvshare.Common.Transfer.{Attempts, result, interrupted, count, failed, Input, bytes}
use nvshare.Comm.Messages.{
  Message, zero_message, register, lock_ok, lock_released, unregistered_id, epipe,
}
use nvshare.Comm.Sockets.{nvshare_send_noblock}
use nvshare.Comm.Ids.{generate_id}
use nvshare.Scheduler.State.{Scheduler, World, Client, find_client, has_registered}
use nvshare.Scheduler.Sending.{send_status}
use nvshare.Scheduler.Clients.{contains, acceptable, id_taken, draw_id, register_client}
use nvshare.Scheduler.Schedule.{
  Timing, timed_out, signaled, restart, try_schedule, timer_step, run_timer,
}
use nvshare.Scheduler.Dispatch.{readable, handle_event, on_register, on_lock_released}
use nvshare.Scheduler.Invariant.{
  Inv, IsBenign, IsLucky, Handled, Woken, handle_event-Handled, timer_step-Woken, IsFresh,
  draw_id_total,
}
use nvshare.Scheduler.Refinement.Events.{Takes, handle_event-Takes}
use nvshare.Scheduler.Refinement.Asking.{Asks, timer_step-Asks}
use nvshare.Scheduler.Fairness.{begins, wake_up as wakes, no_overtaking, release_advances}
use nvshare.Scheduler.Fairness.Order.{InOrder, ahead}
use nvshare.System.Registration.{Welcomed, register_client-Welcomed}
use nvshare.Scheduler.Policy.{GivenTo, try_schedule-GivenTo, reregister_stalls}
use nvshare.Scheduler.Missed.{next_holder_forgotten}

abbrev client : ℕ → ℕ → Client
client fd id = record { fd = fd; id = id; pod_name = []; pod_namespace = [] }

-- Client 5 holds the lock, 6 waits, 7 has not registered.
abbrev waiting : Scheduler
waiting = record {
  lock_held = true;
  must_reset_timer = false;
  scheduler_on = true;
  tq = pos 30;
  scheduling_round = 1;
  out_msg = record zero_message { id = 7331 };
  clients = client 5 1 ∷ client 6 2 ∷ client 7 unregistered_id ∷ [];
  requests = 5 ∷ 6 ∷ [];
  sent = [];
}

-- Everything succeeds, but messages to connection 5, which is broken.
abbrev calm : World
calm = record {
  write = λ fd. interrupted (result (if fd == 5 then failed epipe else count 537));
  epoll_del = λ _. true;
  close = λ _. none;
  stale = λ _. 99;
  rand = λ n. n + 1;
  draws = 1;
}

abbrev message_of_type : Message
message_of_type = record zero_message { type = lock_released; id = 1 }

waiting-Inv : Inv waiting
unfolding contains find_client has_registered
waiting-Inv = record {
  core = record {
    holder = λ _ e. cc;
    queued = (refl, (refl, tt));
    once = (refl, (refl, tt));
    fds = (refl, (refl, (refl, tt)));
    clean = refl;
  };
  off = λ e. cc;
}

calm-IsBenign : IsBenign calm waiting
unfolding contains
calm-IsBenign d = refl

calm-IsLucky : IsLucky calm waiting
unfolding acceptable id_taken generate_id
calm-IsLucky = record { draw = 0; drawn = omega arith; free = refl }

abbrev whole_message : Attempts Input
whole_message = result (bytes (replicate 537 0))

handle_event-Handled_example :
    Ensures
      (Handled (readable 5 whole_message message_of_type) waiting)
      (handle_event calm (readable 5 whole_message message_of_type) waiting)
unfolding contains
handle_event-Handled_example =
    handle_event-Handled calm (readable 5 whole_message message_of_type) waiting waiting-Inv
      (record { benign = calm-IsBenign; lucky = calm-IsLucky; live = refl })

abbrev armed : Timing
armed = record {
  timer = record { round_at_start = 1; drop_lock_sent = false; quantum = pos 30 };
  sched = waiting;
}

timer_step-Woken_example : Ensures (Woken waiting) (timer_step calm timed_out armed)
timer_step-Woken_example = timer_step-Woken calm timed_out armed waiting-Inv calm-IsBenign

handle_event-Takes_example :
    Ensures
      (Takes (readable 5 whole_message message_of_type) waiting)
      (handle_event calm (readable 5 whole_message message_of_type) waiting)
unfolding contains
handle_event-Takes_example =
    handle_event-Takes calm (readable 5 whole_message message_of_type) waiting waiting-Inv
      (record { benign = calm-IsBenign; lucky = calm-IsLucky; live = refl })

timer_step-Asks_example : Ensures (Asks calm timed_out armed) (timer_step calm timed_out armed)
timer_step-Asks_example = timer_step-Asks calm timed_out armed waiting-Inv calm-IsBenign

try_schedule-GivenTo_example : Ensures (GivenTo 6 [] waiting) (try_schedule calm waiting)
unfolding send_status nvshare_send_noblock
try_schedule-GivenTo_example =
    try_schedule-GivenTo calm waiting (5 ∷ []) 6 [] waiting-Inv.core calm-IsBenign refl (refl, tt)
      refl

reregister_stalls_example :
    Ensures
      (λ s'.
        (s'.lock_held ≡ false)
        × (s'.requests ≡ 6 ∷ [])
        × (s'.sent ≡ waiting.sent)
        × (s'.scheduler_on ≡ waiting.scheduler_on))
      (on_register calm 5 message_of_type waiting)
unfolding find_client has_registered
reregister_stalls_example =
    reregister_stalls calm 5 6 [] message_of_type waiting (client 5 1) waiting-Inv.once refl refl
      refl

-- Client 5 was asked for the lock, and gives it back; 6 is given it and never asked.
next_holder_forgotten_example :
    Returns
      (λ u.
        (u.sched.lock_held ≡ true)
        × (u.sched.requests ≡ 6 ∷ [])
        × (u.sched.sent
            ≡ record { to = 6; message = record waiting.out_msg { type = lock_ok } }
              ∷ waiting.sent))
      (on_lock_released calm 5 (client 5 1) waiting >>= λ s.
        run_timer ((calm, timed_out) ∷ (calm, timed_out) ∷ (calm, signaled) ∷ []) (record {
          timer = record { round_at_start = 1; drop_lock_sent = true; quantum = pos 30 };
          sched = s;
        }))
unfolding send_status nvshare_send_noblock has_registered
next_holder_forgotten_example =
    next_holder_forgotten calm calm ((calm, timed_out) ∷ (calm, signaled) ∷ [])
      (record {
        timer = record { round_at_start = 1; drop_lock_sent = true; quantum = pos 30 };
        sched = waiting;
      })
      5 6 [] (client 5 1) waiting-Inv refl refl refl refl refl tt

draw_id_total_example :
    (id : ℕ) × (draw_id calm.rand waiting.clients 1 0 ≡ some id) × IsFresh waiting.clients id
unfolding acceptable id_taken generate_id
draw_id_total_example = draw_id_total calm.rand waiting.clients 1 0 0 (omega arith) refl

release_advances_example :
    Ensures
      (λ s'.
        (contains 6 s'.requests ≡ false)
        ⊎ (length (ahead 6 s'.requests) < length (ahead 6 waiting.requests)))
      (handle_event calm (readable 5 whole_message message_of_type) waiting)
unfolding contains
release_advances_example =
    release_advances calm 6 5 whole_message message_of_type (6 ∷ []) waiting waiting-Inv
      (record { benign = calm-IsBenign; lucky = calm-IsLucky; live = refl }) refl refl refl refl

abbrev timing_of : Outcome Timing → Timing
timing_of (ok t) = t
timing_of _ = armed

-- Client 5, whose quantum is over, cannot be asked, and client 6 is given the lock.
abbrev passed_on : Timing
passed_on = timing_of (timer_step calm timed_out armed)

no_overtaking_example : InOrder (ahead 6 passed_on.sched.requests) (ahead 6 waiting.requests)
unfolding timer_step restart nvshare.Scheduler.Schedule.send_drop
    nvshare.Scheduler.Sending.send_message find_client nvshare_send_noblock
    nvshare.Scheduler.Schedule.settle_drop nvshare.Scheduler.Clients.delete_client try_schedule
    nvshare.Scheduler.Schedule.try_loop nvshare.Scheduler.Schedule.try_head
    nvshare.Scheduler.Clients.remove_req nvshare.Scheduler.Clients.without
    nvshare.Scheduler.Clients.unlink_clients nvshare.Scheduler.Schedule.settle contains
no_overtaking_example =
    no_overtaking 6 armed passed_on waiting-Inv
      (wakes calm timed_out armed passed_on (begins refl) calm-IsBenign refl refl)

abbrev registration : Message
registration = record zero_message { type = register; pod_name = b'p' ∷ b'1' ∷ [] }

-- Client 7 registers.
register_client-Welcomed_example :
    Ensures
      (λ r. (r.0 ≡ false) ⊎ Welcomed 7 registration (client 7 unregistered_id) waiting r.1)
      (register_client calm 7 registration waiting)
unfolding find_client has_registered
register_client-Welcomed_example =
    register_client-Welcomed calm 7 registration waiting (client 7 unregistered_id) waiting-Inv.core
      calm-IsBenign calm-IsLucky refl refl
      (record { room = omega arith; no_nul = (λ e. omega arith, (λ e. omega arith, tt)) })
      (record { room = omega arith; no_nul = tt })
