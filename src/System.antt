-- ===== src/System.antt =====
-- The scheduler, its clients and the connections between them: src/scheduler.c, src/client.c and
-- src/cli.c together.
use nvshare.Prelude.{
  ℕ, ℤ, Bool, true, false, List, [], ◌∷◌, ◌++◌, Option, none, some, ◌==◌, if◌then◌else◌, Outcome,
  ok, exited, fault, spinning, ◌>>=◌,
}
use nvshare.Common.Transfer.{Attempts, Input}
use nvshare.Comm.Sockets.{Status, socket_ok, socket_error, nvshare_accept}
use nvshare.Comm.Messages.{Message, MessageType, register}
use nvshare.Scheduler.State.{Scheduler, World, Sent, init}
use nvshare.Scheduler.Schedule.{Timing, Wake, restart, timer_step}
use nvshare.Scheduler.Dispatch.{Event, connection, readable, hangup, handle_event}
use nvshare.Client.State.{Process, Logged, sent, received}
use nvshare.Client.Start.{Starting, Environment, unstarted, initialize_client}
use nvshare.Client.Locking.{Progress, waits, continues, continue_with_lock, test_lock}
use nvshare.Client.Listening.{handle_message}
use nvshare.Client.EarlyRelease.{Turn, Wait, release_early}
use nvshare.Cli.{tq_message, status_message}
pub mod Balance
pub mod Covering
pub mod Turns
pub mod Saving
pub mod Credit
pub mod Lessening
pub mod Keeping
pub mod Joining
pub mod Soundness
pub mod Covered
pub mod Admission
pub mod Steadiness
pub mod Exclusion
pub mod Waiting
pub mod Preemption
pub mod Registration
mod Tests

-- The process at the other end of a connection: an application whose client waits for its initial
-- status, one whose client runs, or none (it has exited, or it is `nvsharectl`).
pub data Activity : Type 0 where
  starting : Activity
  running : Process → Activity
  gone : Activity

-- The peer of a connection, and what is on its way: `inbox` to the peer, `outbox` to the scheduler,
-- the oldest message first.
pub record Node : Type 0 where
  pub process : Activity
  pub inbox : List Message
  pub outbox : List Message

pub record System : Type 0 where
  pub timing : Timing
  pub nodes : ℕ → Node

-- Who connects: an application, or one call of `nvsharectl`. Its first message is sent at once.
pub data Peer : Type 0 where
  application : Message → Peer
  sets_tq : ℤ → Peer
  sets_status : Bool → Peer

abbrev pub opening : Peer → Message
opening (application m) = record m { type = register }
opening (sets_tq n) = tq_message n
opening (sets_status on) = status_message on

abbrev pub update : ℕ → Node → (ℕ → Node) → ℕ → Node
update fd n nodes x = if x == fd then n else nodes x

abbrev pub first_activity : Peer → Activity
first_activity (application m) = starting
first_activity _ = gone

abbrev pub fresh : Peer → Node
fresh peer = record { process = first_activity peer; inbox = []; outbox = opening peer ∷ [] }

-- What the scheduler sent, the last message first, arrives in order.
abbrev pub arrivals : ℕ → List Sent → List Message
arrivals fd [] = []
arrivals fd (m ∷ told) =
    let earlier = arrivals fd told in if m.to == fd then earlier ++ m.message ∷ [] else earlier

abbrev pub deliver : List Sent → (ℕ → Node) → ℕ → Node
deliver told nodes fd = let n = nodes fd in record n { inbox = n.inbox ++ arrivals fd told }

-- What the process sent in one turn, the last message first.
abbrev pub departures : List Logged → List Message
departures [] = []
departures (sent m ∷ log) = departures log ++ m ∷ []
departures (received t ∷ log) = departures log

-- A turn of one of the client's threads, which holds the client's mutex: the start, with the answer
-- that is the first message in the inbox; an application thread that enters `continue_with_lock` or
-- is woken up in it; the next message of the scheduler; the release thread.
pub data Action : Type 0 where
  starts : Starting → Bool → Action
  enters : Bool → Bool → Action
  woken : Bool → Action
  gets : Bool → Action
  times : Turn → Wait → Action

-- The state that the thread leaves, whether it waits or goes on.
abbrev pub left_by : Progress → Process
left_by (waits p) = p
left_by (continues p) = p

abbrev pub turn_progress : Outcome Progress → Outcome Process
turn_progress m = m >>= λ r. ok (left_by r)

-- A process that exits is gone.
abbrev pub after_turn : Outcome Process → List Message → Node → Node
after_turn (ok p) inbox n = record {
  process = running p;
  inbox = inbox;
  outbox = n.outbox ++ departures p.log;
}
after_turn _ inbox n = record { process = gone; inbox = inbox; outbox = n.outbox }

-- The log of a process is that of its present turn.
abbrev pub unlogged : Process → Process
unlogged p = record p { log = [] }

-- The registration is on its way since the connection was made.
abbrev pub began : Outcome Process → Outcome Process
began m = m >>= λ p. ok (unlogged p)

unfoldable pub act_running : Action → Process → Node → Node
act_running (starts w nvml_ok) p n = n
act_running (enters found written) p n =
    after_turn (turn_progress (continue_with_lock found written p)) n.inbox n
act_running (woken written) p n = after_turn (turn_progress (test_lock written p)) n.inbox n
act_running (times t w) p n = after_turn (release_early t w p) n.inbox n
act_running (gets written) p n = elim n.inbox [
  | [] ↦ n
  | m ∷ rest ↦ after_turn (handle_message written m.type p) rest n
]

unfoldable pub act_starting : Action → Node → Node
act_starting (starts w nvml_ok) n = elim n.inbox [
  | [] ↦ n
  | m ∷ rest ↦
      after_turn (began (initialize_client (record w { answer = some m }) (unstarted nvml_ok))) rest
        n
]
act_starting _ n = n

unfoldable pub act : Action → Node → Node
unfolding act_running act_starting
act a n = elim n.process [
  | starting ↦ act_starting a n
  | running p ↦ act_running a (unlogged p) n
  | gone ↦ n
]

-- What happens next: a connection, with its peer; a message that the scheduler reads; a connection
-- that is lost; a wake-up of the timer thread; a turn of a client.
pub data Happening : Type 0 where
  connects : World → Attempts Status → Bool → Peer → Happening
  hears : World → ℕ → Attempts Input → Happening
  loses : World → ℕ → Happening
  wakes : World → Wake → Happening
  acts : ℕ → Action → Happening

abbrev pub unsent : Scheduler → Scheduler
unsent s = record s { sent = [] }

abbrev pub connected : Status → Peer → (ℕ → Node) → ℕ → Node
connected (socket_ok fd) peer nodes = update fd (fresh peer) nodes
connected (socket_error e) peer nodes = nodes

-- The main thread handles one event; its messages are delivered.
abbrev pub handled : World → Event → Timing → (ℕ → Node) → Outcome System
handled w e t nodes = do
  s ← handle_event w e (unsent t.sched)
  ok (record { timing = record t { sched = s }; nodes = deliver s.sent nodes })

abbrev pub popped : ℕ → List Message → (ℕ → Node) → ℕ → Node
popped fd rest nodes = update fd (record (nodes fd) { outbox = rest }) nodes

unfoldable pub step : Happening → System → Outcome System
unfolding act
step (connects w call added peer) σ =
    handled w (connection call added) σ.timing (connected (nvshare_accept call) peer σ.nodes)
step (hears w fd call) σ = elim (σ.nodes fd).outbox [
  | [] ↦ ok σ
  | m ∷ rest ↦ handled w (readable fd call m) σ.timing (popped fd rest σ.nodes)
]
step (loses w fd) σ = handled w (hangup fd) σ.timing σ.nodes
step (wakes w wake) σ = do
  t ← timer_step w wake (record σ.timing { sched = unsent σ.timing.sched })
  ok (record { timing = t; nodes = deliver t.sched.sent σ.nodes })
step (acts fd a) σ = ok (record σ { nodes = update fd (act a (σ.nodes fd)) σ.nodes })

unfoldable pub start : System
start = record {
  timing = restart false init;
  nodes = λ _. record { process = gone; inbox = []; outbox = [] };
}
