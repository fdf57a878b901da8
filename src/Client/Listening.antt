-- ===== src/Client/Listening.antt =====
-- The loop of `client_fn`: what the client does with a message of the scheduler, under the mutex.
use nvshare.Prelude.{Bool, true, false, ◌∷◌, if◌then◌else◌, Outcome, ok}
use nvshare.Comm.Messages.{MessageType, sched_on, sched_off, lock_ok, drop_lock, lock_released}
use nvshare.Client.State.{Process, received, cuda_sync_context, send_whole, own_message}

-- Work submission is blocked, submitted work is awaited, and then the lock is given back.
unfoldable pub give_back : Bool → Process → Outcome Process
unfolding cuda_sync_context send_whole
give_back written s =
    let done = cuda_sync_context (record s { own_lock = false }) in
    let released = send_whole written (own_message lock_released s) done in
    if s.own_lock then released else ok s

unfoldable pub react : Bool → MessageType → Process → Outcome Process
unfolding give_back
react written lock_ok s = ok (record s { need_lock = false; own_lock = true; did_work = true })
react written drop_lock s = give_back written s
react written sched_on s =
    if s.scheduler_on
    then ok s
    else ok (record s { scheduler_on = true; need_lock = false; own_lock = false })
react written sched_off s =
    if s.scheduler_on
    then ok (record s { scheduler_on = false; own_lock = true; need_lock = false })
    else ok s
react written _ s = ok s

-- One turn of the loop; `written` is whether a reply is written whole.
unfoldable pub handle_message : Bool → MessageType → Process → Outcome Process
unfolding react
handle_message written type s = react written type (record s { log = received type ∷ s.log })
