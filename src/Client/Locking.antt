-- ===== src/Client/Locking.antt =====
-- `continue_with_lock`: an application thread goes on once the process has the GPU lock.
use nvshare.Prelude.{Bool, true, if◌then◌else◌, Outcome, ok, exited, ◌>>=◌}
use nvshare.Comm.Messages.{req_lock}
use nvshare.Client.State.{Process, send_whole, own_message}

-- The thread waits on `own_lock_cv`, or it returns.
pub data Progress : Type 0 where
  waits : Process → Progress
  continues : Process → Progress

-- `cuCtxGetCurrent` is called until it has succeeded once.
unfoldable pub get_context : Bool → Process → Outcome Process
get_context found s =
    if s.cuda_ctx_ok then ok s else if found then ok (record s { cuda_ctx_ok = true }) else exited

-- The lock is requested once for all threads.
unfoldable pub request : Bool → Process → Outcome Process
unfolding send_whole
request written s =
    if s.need_lock
    then ok s
    else send_whole written (own_message req_lock s) (record s { need_lock = true })

-- The loop from its test to the next wait: what a thread does that was woken up.
unfoldable pub test_lock : Bool → Process → Outcome Progress
unfolding request
test_lock written s =
    let requested = request written s in
    if s.own_lock
    then ok (continues (record s { did_work = true }))
    else requested >>= λ s. ok (waits s)

-- The function from its entry to its return or its first wait. `found` is whether `cuCtxGetCurrent`
-- succeeds, `written` whether a request is written whole.
unfoldable pub continue_with_lock : Bool → Bool → Process → Outcome Progress
unfolding get_context test_lock
continue_with_lock found written s = get_context found s >>= test_lock written
