-- ===== src/Cli.antt =====
-- src/cli.c: `nvsharectl`, which asks the scheduler for a time quantum or a status.
use nvshare.Prelude.{
  ℕ, zero, suc, ◌==◌, ◌&&◌, ◌≡◌, refl, Bool, true, false, ◌||◌, not, List, [], ◌∷◌, ◌++◌, Option,
  none, some, if◌then◌else◌, ℤ, pos, negsuc, Outcome, ok, exited, ◌>>=◌, ◌>>◌, true_or_exit, length,
}
use nvshare.Comm.Messages.{Message, MessageType, zero_message, set_tq, sched_on, sched_off}
use nvshare.Comm.Numbers.{int_as_text}
pub mod Effects
mod Tests

-- What the system answers to one connection: `nvshare_connect`, `write_whole`, `close`.
pub record Connection : Type 0 where
  pub connected : Bool
  pub written : Bool
  pub closed : Bool

-- The messages that were written whole, in order, and whether the call returns 0.
pub record Asked : Type 0 where
  pub done : Bool
  pub messages : List Message

-- The two functions share their end: the message is written to a new connection.
unfoldable pub ask : Connection → Message → Outcome Asked
ask c msg = do
  true_or_exit c.connected
  true_or_exit c.closed
  ok (
      if c.written
      then record { done = true; messages = msg ∷ [] }
      else record { done = false; messages = [] })

abbrev pub tq_message : ℤ → Message
tq_message newtq = record zero_message { type = set_tq; id = 0xBEEF; text = int_as_text newtq }

unfoldable pub change_tq : Connection → ℤ → Outcome Asked
unfolding ask
change_tq c newtq = ask c (tq_message newtq)

abbrev pub status_message : Bool → Message
status_message on = record zero_message { type = if on then sched_on else sched_off; id = 0xBEEF }

unfoldable pub change_status : Connection → Bool → Outcome Asked
unfolding ask
change_status c status = ask c (status_message status)

-- What the option library leaves in `config`. `help` is written only where the option is given, and
-- is not initialized before: its value is then whatever the memory held.
pub record Config : Type 0 where
  pub cmdline_scheduler_tq : ℤ
  pub cmdline_anti_thrash : Option (List ℕ)
  pub help : Bool

-- `strcmp(s, t) == 0`
unfoldable pub same_text : List ℕ → List ℕ → Bool
same_text [] [] = true
same_text (b ∷ s) (c ∷ t) = b == c && same_text s t
same_text _ _ = false

abbrev pub on_text : List ℕ
on_text = b'o' ∷ b'n' ∷ []

abbrev pub off_text : List ℕ
off_text = b'o' ∷ b'f' ∷ b'f' ∷ []

unfoldable pub parse_status : List ℕ → Outcome Bool
unfolding same_text
parse_status text =
    if same_text text on_text then ok true else if same_text text off_text then ok false else exited

pub record Finished : Type 0 where
  pub sent : List Message
  pub shows_help : Bool

unfoldable pub status_action : Connection → Option (List ℕ) → Outcome (List Message)
unfolding parse_status change_status
status_action c none = ok []
status_action c (some text) = do
  status ← parse_status text
  asked ← change_status c status
  ok asked.messages

unfoldable pub tq_action : Connection → ℤ → Outcome (List Message)
unfolding change_tq
tq_action c (pos zero) = ok []
tq_action c (pos (suc n)) = do asked ← change_tq c (pos (suc n)); ok asked.messages
tq_action c (negsuc n) = exited

-- `actions_done`
abbrev actions_done : Option (List ℕ) → ℤ → ℕ
actions_done none (pos zero) = 0
actions_done none (pos (suc n)) = 1
actions_done none (negsuc n) = 1
actions_done (some text) (pos zero) = 1
actions_done (some text) (pos (suc n)) = 2
actions_done (some text) (negsuc n) = 2

-- `main` after the options are parsed; `first` is the connection of `change_status`, `second` that of
-- `change_tq`.
unfoldable pub main : Connection → Connection → Config → Outcome Finished
unfolding status_action tq_action
main first second config = do
  statuses ← status_action first config.cmdline_anti_thrash
  quanta ← tq_action second config.cmdline_scheduler_tq
  ok (record {
    sent = statuses ++ quanta;
    shows_help =
        config.help || actions_done config.cmdline_anti_thrash config.cmdline_scheduler_tq == 0;
  })
