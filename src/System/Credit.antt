-- ===== src/System/Credit.antt =====
-- The grants that a client accounts for, with the messages on their way.
use nvshare.Prelude.{ℕ, ◌+◌, ◌≡◌, refl, List, [], ◌∷◌, ◌++◌, ◌==◌, arith, Bool-cases, inl, inr}
use nvshare.Comm.Messages.{Message, MessageType, sched_off, lock_ok, lock_released}
use nvshare.Scheduler.State.{Sent}
use nvshare.Client.State.{Logged, sent, received}
use nvshare.Client.Invariant.{one_if, sent_count, as_number}
use nvshare.System.{Activity, starting, running, gone, Node, arrivals, departures}
use nvshare.System.Balance.{told_count}

abbrev pub count : MessageType → List Message → ℕ
count t [] = 0
count t (m ∷ ms) = one_if t m.type + count t ms

pub count-append :
    (t : MessageType) (xs ys : List Message) → count t (xs ++ ys) ≡ count t xs + count t ys
count-append t [] ys = omega arith
count-append t (x ∷ xs) ys = omega (arith, count-append t xs ys)

pub count-arrivals :
    (t : MessageType) (fd : ℕ) (told : List Sent)
    → count t (arrivals fd told) ≡ told_count t fd told
count-arrivals t fd [] = refl
count-arrivals t fd (m ∷ told) = elim (Bool-cases (m.to == fd)) [
  | inl same ↦
      rw same (
        omega (arith, count-append t (arrivals fd told) (m.message ∷ []), count-arrivals t fd told))
  | inr differs ↦ rw differs (omega (arith, count-arrivals t fd told))
]

pub count-departures :
    (t : MessageType) (log : List Logged) → count t (departures log) ≡ sent_count t log
count-departures t [] = refl
count-departures t (sent m ∷ log) =
    omega (arith, count-append t (departures log) (m ∷ []), count-departures t log)
count-departures t (received u ∷ log) = count-departures t log

abbrev pub owned : Activity → ℕ
owned starting = 0
owned (running p) = as_number p.own_lock
owned gone = 0

-- The grants that a client uses, has to receive, or has given back without the scheduler's having
-- read it.
abbrev pub credit : Node → ℕ
credit n = owned n.process + count lock_ok n.inbox + count lock_released n.outbox

-- No news that the scheduler is off is on its way to the client, and no wish for it from it.
pub record IsQuiet (n : Node) : Type 0 where
  pub inbox : count sched_off n.inbox ≡ 0
  pub outbox : count sched_off n.outbox ≡ 0
