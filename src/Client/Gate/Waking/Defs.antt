-- ===== src/Client/Gate/Waking/Defs.antt =====
-- What holds of the process while threads sleep at its gate.
use nvshare.Prelude.{ℕ, ◌≡◌, Bool, true, false, List, [], ◌∷◌}
use nvshare.Comm.Messages.{MessageType, sched_on, sched_off, req_lock, lock_ok, drop_lock}
use nvshare.Client.State.{Process, Logged, sent, received}
use nvshare.Client.Locking.{Progress, waits, continues}

abbrev pub asks : MessageType → Bool → Bool
asks req_lock before = true
asks _ before = before

abbrev pub answered : MessageType → Bool → Bool
answered lock_ok before = false
answered sched_on before = false
answered sched_off before = false
answered _ before = before

-- A REQ_LOCK was sent after the last answer (LOCK_OK, SCHED_ON, SCHED_OFF).
abbrev pub pending : List Logged → Bool
pending [] = false
pending (sent m ∷ log) = asks m.type (pending log)
pending (received t ∷ log) = answered t (pending log)

-- `n` threads sleep.
pub record Wakeful (n : ℕ) (scheduler_on own_lock need_lock : Bool) (log : List Logged)
    : Type 0 where
  pub holding : own_lock ≡ true → n ≡ 0
  pub quiet : need_lock ≡ false → n ≡ 0
  pub off : scheduler_on ≡ false → own_lock ≡ true
  pub outstanding : pending log ≡ need_lock

abbrev pub Awake : ℕ → Process → Type 0
Awake n s = Wakeful n s.scheduler_on s.own_lock s.need_lock s.log

-- A thread that goes to sleep may join any number of others.
abbrev pub Arriving : ℕ → Progress → Type 0
Arriving n (waits s) = (m : ℕ) → Awake m s
Arriving n (continues s) = Awake n s

-- What a scheduler sends a client: DROP_LOCK only while it is on, and its status only when it
-- changes.
abbrev pub IsExpected : MessageType → Process → Type 0
IsExpected drop_lock s = s.scheduler_on ≡ true
IsExpected sched_off s = s.scheduler_on ≡ true
IsExpected sched_on s = s.scheduler_on ≡ false
IsExpected _ s = Unit
