-- ===== src/Scheduler/State.antt =====
-- The global variables of src/scheduler.c, and what the environment answers to its calls.
use nvshare.Prelude.{
  ℕ, Bool, false, true, List, [], ◌∷◌, Option, none, some, ◌==◌, if◌then◌else◌, ℤ, pos,
}
use nvshare.Common.Transfer.{Io, Attempts}
use nvshare.Comm.Messages.{Message, zero_message, unregistered_id}

-- `struct nvshare_client`. A pointer to a client is written as the descriptor of its connection:
-- the sources compare clients by `fd`, and open connections have different descriptors.
pub record Client : Type 0 where
  pub fd : ℕ
  pub id : ℕ
  pub pod_name : List ℕ
  pub pod_namespace : List ℕ

-- A message that was written whole to a connection.
pub record Sent : Type 0 where
  pub to : ℕ
  pub message : Message

-- `requests` holds the client pointers of the list of `struct nvshare_request`. `lock_held`,
-- `must_reset_timer` and `scheduler_on` hold 0 or 1. `sent` is no variable of the program: it
-- records the messages that left it, the last one first.
pub record Scheduler : Type 0 where
  pub lock_held : Bool
  pub must_reset_timer : Bool
  pub scheduler_on : Bool
  pub tq : ℤ
  pub scheduling_round : ℕ  -- unsigned int
  pub out_msg : Message
  pub clients : List Client
  pub requests : List ℕ
  pub sent : List Sent

-- What the system answers while one event is handled. No client is written to or removed twice in
-- that time, so the answers depend on the descriptor only.
pub record World : Type 0 where
  pub write : ℕ → Attempts Io
  pub epoll_del : ℕ → Bool  -- epoll_ctl(EPOLL_CTL_DEL) returns 0
  pub close : ℕ → Option ℕ  -- `none` is success, `some` an error number
  -- What `client->fd` reads as once the client that had the descriptor is freed.
  pub stale : ℕ → ℕ
  pub rand : ℕ → ℕ  -- the numbers that `rand` returns, in order
  pub draws : ℕ  -- how many identifiers may be drawn before the model stops

-- The client at a pointer; `none` where the pointer is to no client of the list.
unfoldable pub find_client : ℕ → List Client → Option Client
find_client fd [] = none
find_client fd (c ∷ cs) = if c.fd == fd then some c else find_client fd cs

unfoldable pub has_registered : Client → Bool
has_registered c = if c.id == unregistered_id then false else true

-- `main` up to its loop.
unfoldable pub init : Scheduler
init = record {
  lock_held = false;
  must_reset_timer = false;
  scheduler_on = true;
  tq = pos 30;
  scheduling_round = 0;
  out_msg = record zero_message { id = 7331 };
  clients = [];
  requests = [];
  sent = [];
}
