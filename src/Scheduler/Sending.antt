-- ===== src/Scheduler/Sending.antt =====
-- `send_message` and `receive_message`: any trouble with a connection counts as a dead client, and
-- an error that no connection can explain ends the process.
use nvshare.Prelude.{
  ℕ, Bool, true, false, none, some, ◌∷◌, ◌||◌, ◌==◌, ltb, if◌then◌else◌, Outcome, ok, exited, fault,
  ◌>>=◌, length,
}
use nvshare.Common.Transfer.{Io, count, failed, Input, bytes, broken, Attempts}
use nvshare.Comm.Messages.{Message, message_size, eagain, econnreset, epipe}
use nvshare.Comm.Sockets.{nvshare_send_noblock, nvshare_receive_noblock}
use nvshare.Scheduler.State.{Scheduler, World, find_client}

-- "Recoverable errors, but we're strict".
abbrev pub is_recoverable : ℕ → Bool
is_recoverable e = e == eagain || e == econnreset || e == epipe

-- Whether the whole message was written: `true` for 0, `false` for -1.
unfoldable pub send_status : Io → Outcome Bool
send_status (count n) = if ltb n message_size then ok false else ok true
send_status (failed e) = if is_recoverable e then ok false else exited

unfoldable pub record_sent : ℕ → Message → Scheduler → Bool → Scheduler
record_sent fd m s true = record s { sent = record { to = fd; message = m } ∷ s.sent }
record_sent fd m s false = s

unfoldable pub send_message : World → ℕ → Message → Scheduler → Outcome (Bool × Scheduler)
unfolding send_status record_sent
send_message w fd m s = elim (find_client fd s.clients) [
  | none ↦ fault
  | some c ↦ do
    sent ← send_status (nvshare_send_noblock (w.write fd))
    ok (sent, record_sent fd m s sent)
]

-- Whether a whole message was read.
unfoldable pub receive_status : Input → Outcome Bool
receive_status (bytes bs) =
    if length bs == 0 then ok false else if ltb (length bs) message_size then ok false else ok true
receive_status (broken e) = if is_recoverable e then ok false else exited

unfoldable pub receive_message : Attempts Input → ℕ → Scheduler → Outcome Bool
unfolding receive_status
receive_message call fd s = elim (find_client fd s.clients) [
  | none ↦ fault
  | some c ↦ receive_status (nvshare_receive_noblock call)
]
