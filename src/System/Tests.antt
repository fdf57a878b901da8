-- ===== src/System/Tests.antt =====
-- Runs of the scheduler and two clients: 5 and 6 are connections of applications, 7 and 8 of
-- `nvsharectl`.
use nvshare.Prelude.{
  ℕ, ◌≡◌, ◌≤◌, refl, true, false, List, [], ◌∷◌, ◌++◌, none, some, Bool, length, ◌+◌, Outcome, ok,
  ◌>>=◌, Ensures, arith, replicate, suc, Returns,
}
use nvshare.Common.Transfer.{Attempts, result, count, Input, bytes}
use nvshare.Comm.Messages.{zero_message}
use nvshare.Comm.Sockets.{socket_ok, nvshare_accept, nvshare_receive_noblock, nvshare_send_noblock}
use nvshare.Comm.Ids.{generate_id, text_as_id}
use nvshare.Scheduler.State.{World, init, find_client, has_registered}
use nvshare.Scheduler.Clients.{contains, acceptable, id_taken, fds_of}
use nvshare.Scheduler.Schedule.{restart}
use nvshare.Scheduler.Invariant.{IsHonest}
use nvshare.Scheduler.Dispatch.{connection, readable, handle_event}
use nvshare.Client.Start.{Starting, unstarted, initialize_client}
use nvshare.System.{
  System, Peer, application, sets_status, Happening, connects, hears, acts, starts, enters, gets,
  woken, times, wakes, Activity, running, step, start,
}
use nvshare.Client.EarlyRelease.{Turn, timed_out as idles}
use nvshare.Client.State.{Process}
use nvshare.Scheduler.Schedule.{Wake, timed_out, signaled, timer_step}
use nvshare.Scheduler.Sending.{send_status}
use nvshare.Comm.Messages.{lock_released}
use nvshare.System.Preemption.{quantum_over, run as after}
use nvshare.System.Preemption.Asking.{IsOver}
use nvshare.System.Credit.{owned, credit, count as number_of}
use nvshare.System.Soundness.{IsSound, IsFair, step-IsSound}
use nvshare.System.Waiting.{IsOrderlyRun, waiting_granted}
use nvshare.System.Exclusion.{grant_kept, Reach, begin, next, start-IsSound, IsGiven, exclusion}

abbrev calm : World
calm = record {
  write = λ fd. result (count 537);
  epoll_del = λ _. true;
  close = λ _. none;
  stale = λ _. 99;
  rand = λ n. n + 1;
  draws = 9;
}

abbrev at_start : Starting
at_start = record {
  environment = record {
    on_kubernetes = false;
    hostname = none;
    namespace_file = record { opened = false; fgets = none; closed = true };
  };
  cuda_initialized = true;
  connected = true;
  written = true;
  answer = none;
  threads_created = true;
  nvml_opened = true;
}

abbrev whole_message : Attempts Input
whole_message = result (bytes (replicate 537 0))

abbrev joins : ℕ → Peer → Happening
joins fd peer = connects calm (result (socket_ok fd)) true peer

abbrev speaks : ℕ → Happening
speaks fd = hears calm fd whole_message

abbrev run : List Happening → Outcome System → Outcome System
run [] m = m
run (h ∷ hs) m = run hs (m >>= step h)

abbrev result_of : Outcome System → System
result_of (ok σ) = σ
result_of _ = start

abbrev owners : Outcome System → List ℕ
owners (ok σ) = owned (σ.nodes 5).process ∷ owned (σ.nodes 6).process ∷ []
owners _ = []

-- An application connects, registers, starts and asks for the lock.
abbrev asking : ℕ → List Happening
asking fd =
    joins fd (application zero_message)
    ∷ speaks fd
    ∷ acts fd (starts at_start true)
    ∷ acts fd (enters true true)
    ∷ speaks fd
    ∷ []

unfoldable execute : List Happening → Outcome System
unfolding step handle_event nvshare.Scheduler.Dispatch.on_connection nvshare_accept
    nvshare.Scheduler.Sending.receive_message find_client start restart init nvshare_receive_noblock
    nvshare.Scheduler.Dispatch.process_msg nvshare.Scheduler.Dispatch.on_register
    nvshare.Scheduler.Clients.register_client has_registered nvshare.Scheduler.Clients.draw_id
    acceptable generate_id id_taken nvshare.Scheduler.Sending.send_message
    nvshare.Scheduler.Clients.update_client nvshare_send_noblock initialize_client text_as_id
    nvshare.Client.Locking.continue_with_lock unstarted nvshare.Scheduler.Dispatch.on_req_lock
    nvshare.Scheduler.Dispatch.schedule_if_free nvshare.Scheduler.Clients.insert_req contains
    nvshare.Scheduler.Schedule.try_schedule nvshare.Scheduler.Schedule.try_loop
    nvshare.Scheduler.Schedule.try_head nvshare.Scheduler.Schedule.settle
    nvshare.Client.Listening.handle_message nvshare.Scheduler.Dispatch.on_sched_off
    nvshare.Scheduler.Dispatch.on_sched_on nvshare.Scheduler.Clients.bcast_status
execute hs = run hs (ok start)

abbrev at : List Happening → System
at hs = result_of (execute hs)

granted : owners (execute (asking 5 ++ acts 5 (gets true) ∷ [])) ≡ 1 ∷ 0 ∷ []
unfolding execute
granted = refl

-- Client 6 waits while client 5 has the lock.
queued :
    owners (execute (asking 5 ++ acts 5 (gets true) ∷ asking 6 ++ acts 6 (gets true) ∷ []))
    ≡ 1 ∷ 0 ∷ []
unfolding execute
queued = refl

-- The scheduler is turned off and on again before client 5 has read that it is off: the lock, which
-- client 5 still uses, is given to client 6.
off_and_on : List Happening
off_and_on =
    asking 5
    ++ acts 5 (gets true)
      ∷ joins 6 (application zero_message)
      ∷ speaks 6
      ∷ acts 6 (starts at_start true)
      ∷ joins 7 (sets_status false)
      ∷ speaks 7
      ∷ joins 8 (sets_status true)
      ∷ speaks 8
      ∷ acts 6 (gets true)
      ∷ acts 6 (gets true)
      ∷ acts 6 (enters true true)
      ∷ speaks 6
      ∷ acts 6 (gets true)
      ∷ []

off_and_on_shares : owners (execute off_and_on) ≡ 1 ∷ 1 ∷ []
unfolding execute off_and_on nvshare.Scheduler.Clients.bcast_loop
    nvshare.Scheduler.Clients.bcast_one
off_and_on_shares = refl

-- One call of `nvsharectl`.
abbrev says : ℕ → Bool → List Happening
says fd on = joins fd (sets_status on) ∷ speaks fd ∷ []

-- The application connects, registers and starts.
abbrev comes : ℕ → List Happening
comes fd = joins fd (application zero_message) ∷ speaks fd ∷ acts fd (starts at_start true) ∷ []

abbrev idle_turn : Turn
idle_turn = record {
  utilization = some 0;
  cuda_sync_start_time = record { tv_sec = 1; tv_nsec = 0 };
  cuda_sync_complete_time = record { tv_sec = 1; tv_nsec = 0 };
  written = true;
}

-- Client 5 asks, is told that the scheduler went off and on, and asks again before its first request
-- is heard; it gets the lock and gives it back while the second request waits to be heard.
abbrev asks_twice : List Happening
asks_twice =
    comes 5
    ++ comes 6
    ++ acts 5 (enters true true) ∷ says 7 false
    ++ says 8 true
    ++ acts 5 (gets true)
      ∷ acts 5 (gets true)
      ∷ acts 5 (woken true)
      ∷ speaks 5
      ∷ acts 5 (gets true)
      ∷ acts 5 (times idle_turn idles)
      ∷ acts 5 (times idle_turn idles)
      ∷ []

-- The scheduler goes off and on again; then it hears the second request, and the lock that was given
-- back before. Every message is read in the end.
abbrev toggled_twice : List Happening
toggled_twice =
    asks_twice
    ++ says 9 false
    ++ says 10 true
    ++ speaks 5
      ∷ speaks 5
      ∷ acts 5 (gets true)
      ∷ acts 5 (gets true)
      ∷ acts 5 (gets true)
      ∷ acts 6 (gets true)
      ∷ acts 6 (gets true)
      ∷ acts 6 (gets true)
      ∷ acts 6 (gets true)
      ∷ acts 6 (enters true true)
      ∷ speaks 6
      ∷ acts 6 (gets true)
      ∷ []

abbrev unread : Outcome System → ℕ
unread (ok σ) =
    length (σ.nodes 5).inbox
    + length (σ.nodes 5).outbox
    + length (σ.nodes 6).inbox
    + length (σ.nodes 6).outbox
unread _ = 99

toggled_twice_shares : owners (execute toggled_twice) ≡ 1 ∷ 1 ∷ []
unfolding execute nvshare.Scheduler.Clients.bcast_loop nvshare.Scheduler.Clients.bcast_one
    nvshare.Client.EarlyRelease.release_early nvshare.Scheduler.Dispatch.on_lock_released
    nvshare.Scheduler.Clients.remove_req nvshare.Scheduler.Clients.without
toggled_twice_shares = refl

toggled_twice_settled : unread (execute toggled_twice) ≡ 0
unfolding execute nvshare.Scheduler.Clients.bcast_loop nvshare.Scheduler.Clients.bcast_one
    nvshare.Client.EarlyRelease.release_early nvshare.Scheduler.Dispatch.on_lock_released
    nvshare.Scheduler.Clients.remove_req nvshare.Scheduler.Clients.without
toggled_twice_settled = refl

joins_5-IsHonest : IsHonest calm (connection (result (socket_ok 5)) true) start.timing.sched
unfolding execute
joins_5-IsHonest = record {
  benign = λ d. refl;
  lucky = record { draw = 0; drawn = omega arith; free = refl };
  live = λ fd e. refl;
}

step-IsSound_example : Ensures IsSound (step (joins 5 (application zero_message)) start)
unfolding execute
step-IsSound_example =
    step-IsSound (joins 5 (application zero_message)) start start-IsSound (joins_5-IsHonest, tt)

speaks_5-IsFair : IsFair (speaks 5) (at (joins 5 (application zero_message) ∷ []))
unfolding execute
speaks_5-IsFair = λ m. record {
  benign = λ d. refl;
  lucky = record { draw = 0; drawn = omega arith; free = refl };
  live = refl;
}

speaks_again-IsFair : IsFair (speaks 5) (
    at (
      joins 5 (application zero_message)
      ∷ speaks 5
      ∷ acts 5 (starts at_start true)
      ∷ acts 5 (enters true true)
      ∷ []))
unfolding execute
speaks_again-IsFair = λ m. record {
  benign = λ d. refl;
  lucky = record { draw = 1; drawn = omega arith; free = refl };
  live = refl;
}

unfoldable asking_run : Reach (at (asking 5))
unfolding execute
asking_run =
    next (speaks 5)
      (next (acts 5 (enters true true))
        (next (acts 5 (starts at_start true))
          (next (speaks 5)
            (next (joins 5 (application zero_message)) begin (joins_5-IsHonest, tt) _ refl)
            speaks_5-IsFair _ refl)
          tt _ refl)
        tt _ refl)
      speaks_again-IsFair (at (asking 5)) refl

one_credit : 1 ≤ credit ((at (asking 5)).nodes 5)
unfolding execute
one_credit = omega arith

exclusion_example : IsGiven 5 (at (asking 5)).timing.sched × ◌≡◌ {A = ℕ} 5 5
unfolding execute
exclusion_example = exclusion 5 5 asking_run refl refl one_credit one_credit

grant_kept_example : credit ((at (asking 5)).nodes 5) ≡ 1
unfolding execute
grant_kept_example = grant_kept 5 asking_run (refl, refl) refl

asking_run-IsOrderlyRun : IsOrderlyRun asking_run
unfolding execute asking_run IsOrderlyRun
asking_run-IsOrderlyRun = (((((tt, tt), λ e. refl), tt), tt), λ e. cc)

waiting_granted_example : credit ((at (asking 5)).nodes 5) ≡ 1
unfolding execute
waiting_granted_example = waiting_granted 5 [] asking_run asking_run-IsOrderlyRun refl refl

-- The timer notices the new round, and waits for its quantum.
abbrev armed : System
armed = at (asking 5 ++ wakes calm signaled ∷ [])

unfoldable armed_run : Reach armed
unfolding execute timer_step
armed_run = next (wakes calm signaled) asking_run (λ d. refl) armed refl

abbrev process_of : Activity → Process
process_of (running p) = p
process_of _ = unstarted true

armed-IsOver : IsOver 5 [] armed.timing
unfolding execute timer_step
armed-IsOver = record { queue = refl; held = refl; not_asked = refl; same_round = refl }

quantum_over_example :
    Returns
      (λ σ'. number_of lock_released (σ'.nodes 5).outbox ≡ 1)
      (after
        (wakes calm timed_out ∷ replicate (suc (length (armed.nodes 5).inbox)) (acts 5 (gets true)))
        armed)
unfolding execute timer_step send_status
quantum_over_example =
    quantum_over calm 5 [] (process_of (armed.nodes 5).process) armed_run (λ d. refl) armed-IsOver
      refl refl
