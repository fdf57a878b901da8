-- ===== src/Client/Invariant/Defs.antt =====
-- What holds of a client between two turns of its threads, in counts of its messages.
use nvshare.Prelude.{ℕ, ◌+◌, ◌≤◌, Bool, true, false, List, [], ◌∷◌}
use nvshare.Comm.Messages.{MessageType, sched_on, sched_off, req_lock, lock_ok, lock_released}
use nvshare.Client.State.{Process, Logged, sent, received}
use nvshare.Client.Locking.{Progress, waits, continues}

abbrev pub one_if : MessageType → MessageType → ℕ
one_if req_lock req_lock = 1
one_if lock_ok lock_ok = 1
one_if sched_on sched_on = 1
one_if sched_off sched_off = 1
one_if lock_released lock_released = 1
one_if _ _ = 0

-- How many messages of a kind the client sent, and received.
abbrev pub sent_count : MessageType → List Logged → ℕ
sent_count t [] = 0
sent_count t (sent m ∷ log) = one_if t m.type + sent_count t log
sent_count t (received u ∷ log) = sent_count t log

abbrev pub received_count : MessageType → List Logged → ℕ
received_count t [] = 0
received_count t (sent m ∷ log) = received_count t log
received_count t (received u ∷ log) = one_if t u + received_count t log

abbrev pub as_number : Bool → ℕ
as_number true = 1
as_number false = 0

-- The messages that end a request: a grant, and a change of the scheduler's status.
abbrev pub answers : List Logged → ℕ
answers log =
    received_count lock_ok log + received_count sched_on log + received_count sched_off log

-- The messages that may give the lock.
abbrev pub grants : List Logged → ℕ
grants log = received_count lock_ok log + received_count sched_off log

-- A process that has the lock has not asked for it. It has asked at most once since the last answer,
-- and it has given back at most the locks it was given, less the one that it has.
pub record Fits (own_lock need_lock : Bool) (log : List Logged) : Type 0 where
  pub exclusive : as_number own_lock + as_number need_lock ≤ 1
  pub asked : sent_count req_lock log ≤ answers log + as_number need_lock
  pub released : sent_count lock_released log + as_number own_lock ≤ grants log

abbrev pub Inv : Process → Type 0
Inv s = Fits s.own_lock s.need_lock s.log

-- The process when the thread returns, or waits.
abbrev pub AtProcess : (Process → Type 0) → Progress → Type 0
AtProcess P (waits s) = P s
AtProcess P (continues s) = P s
