-- ===== src/Scheduler/Protocol.antt =====
-- What src/scheduler.c promises its clients: a queue for one lock, and the messages that go with it.
use nvshare.Prelude.{ℕ, ◌≡◌, Bool, true, false, not, List, [], ◌∷◌, ◌++◌, if◌then◌else◌}
use nvshare.Comm.Messages.{
  Message, MessageType, sched_on, sched_off, lock_ok, drop_lock, req_lock, lock_released,
}
use nvshare.Scheduler.State.{Sent}
use nvshare.Scheduler.Clients.{contains, without, is_head}
use nvshare.Scheduler.Lists.{still_open}

-- The head of the queue has the lock if it is `held`. `open` are the connections, `told` the messages
-- that were sent, the last one first.
pub record Lock : Type 0 where
  pub on : Bool
  pub held : Bool
  pub queue : List ℕ
  pub open_fds : List ℕ
  pub told : List Sent

abbrev pub tells : ℕ → Message → Lock → Lock
tells fd m p = record p { told = record { to = fd; message = m } ∷ p.told }

-- A status message tells the status.
abbrev pub is_status : Bool → MessageType → Bool
is_status on sched_on = on
is_status on sched_off = not on
is_status on _ = false

-- The client leaves the queue, and the lock is free if it was the client's.
abbrev pub quits : ℕ → Lock → Lock
quits fd p = record p {
  held = if is_head fd p.queue then false else p.held;
  queue = without fd p.queue;
}

-- The steps that the scheduler takes by itself.
pub data Step (p : Lock) : Lock → Type 0 where
  -- A free lock is given to the head of the queue.
  grant :
      (fd : ℕ) (rest : List ℕ) (m : Message)
      → p.queue ≡ fd ∷ rest
      → p.held ≡ false
      → m.type ≡ lock_ok
      → Step p (record (tells fd m p) { held = true })
  -- The holder, and nobody else, is asked to give it back.
  ask_back :
      (fd : ℕ) (rest : List ℕ) (m : Message)
      → p.queue ≡ fd ∷ rest
      → p.held ≡ true
      → m.type ≡ drop_lock
      → Step p (tells fd m p)
  inform : (fd : ℕ) (m : Message) → is_status p.on m.type ≡ true → Step p (tells fd m p)
  -- A connection is closed, and the client with it.
  close : (fd : ℕ) → Step p (record (quits fd p) { open_fds = without fd p.open_fds })
  -- Without scheduling nobody waits.
  empty : p.on ≡ false → Step p (record p { queue = []; held = false })

pub data Steps : Lock → Lock → Type 0 where
  done : {p : Lock} → Steps p p
  more : {p q r : Lock} → Step p q → Steps q r → Steps p r

pub Steps-trans : {p q r : Lock} → Steps p q → Steps q r → Steps p r
Steps-trans done k = k
Steps-trans (more s h) k = more s (Steps-trans h k)

pub one : {p q : Lock} → Step p q → Steps p q
one s = more s done

-- No connection is opened by the scheduler itself.
pub Steps-open :
    {p q : Lock} (x : ℕ) → Steps p q → contains x q.open_fds ≡ true → contains x p.open_fds ≡ true
Steps-open x done o = o
Steps-open {p} x (more (grant fd rest m q free t) k) o = Steps-open x k o
Steps-open {p} x (more (ask_back fd rest m q held t) k) o = Steps-open x k o
Steps-open {p} x (more (inform fd m t) k) o = Steps-open x k o
Steps-open {p} x (more (close fd) k) o = still_open x fd p.open_fds (Steps-open x k o)
Steps-open {p} x (more (empty off) k) o = Steps-open x k o

-- What a message of a client changes before the scheduler goes on by itself.
pub data Heard (fd : ℕ) (p : Lock) : MessageType → Lock → Type 0 where
  -- A message may be of no effect, but a lock that is given back is noticed while the scheduler is on.
  ignored : (t : MessageType) → (t ≡ lock_released → p.on ≡ false) → Heard fd p t p
  -- A client that broke the rules, or is gone, loses its connection with its message.
  expels :
      (t : MessageType) → Heard fd p t (record (quits fd p) { open_fds = without fd p.open_fds })
  asks :
      p.on ≡ true
      → contains fd p.queue ≡ false
      → Heard fd p req_lock (record p { queue = p.queue ++ fd ∷ [] })
  gives_back : p.on ≡ true → Heard fd p lock_released (quits fd p)
  turns_on : Heard fd p sched_on (record p { on = true })
  turns_off : Heard fd p sched_off (record p { on = false })
