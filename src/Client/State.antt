-- ===== src/Client/State.antt =====
-- The global variables of src/client.c, `cuda_sync_context`, and the writes to the scheduler.
use nvshare.Prelude.{ℕ, Bool, List, ◌∷◌, Outcome, ok, ◌>>◌, true_or_exit}
use nvshare.Comm.Messages.{Message, MessageType, zero_message}

-- A message that was written whole to the scheduler, or one that was received from it.
pub data Logged : Type 0 where
  sent : Message → Logged
  received : MessageType → Logged

-- `scheduler_on`, `own_lock`, `need_lock`, `did_work`, `nvml_ok` and `cuda_ctx_ok` hold 0 or 1.
-- `log` is no variable of the program: it records the messages, the last one first.
pub record Process : Type 0 where
  pub scheduler_on : Bool
  pub own_lock : Bool
  pub need_lock : Bool
  pub did_work : Bool
  pub nvml_ok : Bool
  pub cuda_ctx_ok : Bool
  pub pending_kernel_window : ℕ
  pub nvshare_client_id : ℕ
  pub log : List Logged

-- Failures of the two CUDA calls are reported and passed over.
unfoldable pub cuda_sync_context : Process → Process
cuda_sync_context s = record s { pending_kernel_window = 1 }

-- `true_or_exit(write_whole(rsock, &m, sizeof(m)) == sizeof(m))`; `written` is whether the whole
-- message was written.
unfoldable pub send_whole : Bool → Message → Process → Outcome Process
send_whole written m s = true_or_exit written >> ok (record s { log = sent m ∷ s.log })

-- A message of the client carries its identifier.
abbrev pub own_message : MessageType → Process → Message
own_message type s = record zero_message { type = type; id = s.nvshare_client_id }
