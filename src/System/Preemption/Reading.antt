-- ===== src/System/Preemption/Reading.antt =====
-- A client of src/client.c that reads DROP_LOCK is without the lock.
use nvshare.Prelude.{
  ◌≡◌, refl, true, false, List, ◌∷◌, Outcome, ok, exited, fault, spinning, Returns, Bool-cases, inl,
  inr,
}
use nvshare.Comm.Messages.{
  Message, MessageType, register, sched_on, sched_off, req_lock, lock_ok, drop_lock, lock_released,
  set_tq, other,
}
use nvshare.Client.State.{Process}
use nvshare.Client.Listening.{handle_message, give_back}
use nvshare.System.{Node, running, gets, unlogged, after_turn, act, act_running}

-- A message that is handled, with the reply written whole: after DROP_LOCK the client does not have
-- the lock.
handles :
    (t : MessageType) (p : Process)
    → Returns (λ p'. t ≡ drop_lock → p'.own_lock ≡ false) (handle_message true t p)
unfolding handle_message give_back
handles lock_ok p = λ e. cc
handles sched_on p = elim (Bool-cases p.scheduler_on) [
  | inl on ↦ rw on λ e. cc
  | inr off ↦ rw off λ e. cc
]
handles sched_off p = elim (Bool-cases p.scheduler_on) [
  | inl on ↦ rw on λ e. cc
  | inr off ↦ rw off λ e. cc
]
handles drop_lock p = elim (Bool-cases p.own_lock) [
  | inl own ↦ rw own λ e. refl
  | inr free ↦ rw free λ e. refl
]
handles register p = λ e. cc
handles req_lock p = λ e. cc
handles lock_released p = λ e. cc
handles set_tq p = λ e. cc
handles (other n) p = λ e. cc

-- What the client's reader leaves after a message of type `t`, with `rest` still to be read.
pub record HasRead (t : MessageType) (rest : List Message) (n : Node) : Type 0 where
  pub process : Process
  pub runs : n.process ≡ running process
  pub inbox : n.inbox ≡ rest
  pub obeys : t ≡ drop_lock → process.own_lock ≡ false

after_turn-HasRead :
    (t : MessageType) (rest : List Message) (n : Node) (m : Outcome Process)
    → Returns (λ p'. t ≡ drop_lock → p'.own_lock ≡ false) m
    → HasRead t rest (after_turn m rest n)
after_turn-HasRead t rest n (ok p') h = record {
  process = p';
  runs = refl;
  inbox = refl;
  obeys = h;
}
after_turn-HasRead t rest n exited h = absurd h
after_turn-HasRead t rest n fault h = absurd h
after_turn-HasRead t rest n spinning h = absurd h

pub act-HasRead :
    (n : Node) (p : Process) (m : Message) (rest : List Message)
    → n.process ≡ running p
    → n.inbox ≡ m ∷ rest
    → HasRead m.type rest (act (gets true) n)
unfolding act act_running
act-HasRead n p m rest runs e =
    rw (runs, e) (after_turn-HasRead m.type rest _ _ (handles m.type (unlogged p)))
