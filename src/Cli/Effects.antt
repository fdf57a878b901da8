-- ===== src/Cli/Effects.antt =====
-- What the message of `change_tq` does to the scheduler that gets it.
use nvshare.Prelude.{ℕ, ◌≡◌, true, pos, ok}
use nvshare.Comm.Messages.{Message}
use nvshare.Scheduler.State.{Scheduler, World, Client}
use nvshare.Scheduler.Dispatch.{dispatch}

-- The scheduler sets its quantum to `n` and starts the timer anew, and changes nothing else.
abbrev pub SetsQuantum : World → ℕ → Client → Scheduler → ℕ → Message → Type 0
SetsQuantum w fd c s n m =
    dispatch m.type w fd c m s ≡ ok (record s { tq = pos n; must_reset_timer = true })
