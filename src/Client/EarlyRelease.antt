-- ===== src/Client/EarlyRelease.antt =====
-- `release_early_fn`: a client that holds the lock and is idle gives it back.
use nvshare.Prelude.{
  ℕ, ◌+◌, ◌*◌, ◌/◌, ◌%◌, ◌^◌, Bool, false, ◌&&◌, Option, none, some, ltb, ◌==◌, if◌then◌else◌,
  Outcome, ok, exited, ◌>>=◌,
}
use nvshare.Common.Clock.{Timespec, timespecsub}
use nvshare.Comm.Messages.{lock_released}
use nvshare.Client.State.{Process, cuda_sync_context, send_whole, own_message}

-- How `pthread_cond_timedwait` ends: with 0, with ETIMEDOUT or with another error number.
pub data Wait : Type 0 where
  signaled timed_out wait_failed : Wait

-- What the system answers in one turn: the GPU utilization (`none` where NVML reports an error), the
-- clock before and after `cuCtxSynchronize`, whether the message is written whole.
pub record Turn : Type 0 where
  pub utilization : Option ℕ
  pub cuda_sync_start_time : Timespec
  pub cuda_sync_complete_time : Timespec
  pub written : Bool

-- unsigned int
unfoldable pub elapsed_ms : Timespec → ℕ
elapsed_ms d = ((d.tv_sec % 2 ^ 32 * 1000) % 2 ^ 32 + d.tv_nsec / 1_000_000) % 2 ^ 32

pub record Checked : Type 0 where
  pub idle : Bool
  pub process : Process

unfoldable pub by_utilization : Option ℕ → Process → Checked
by_utilization none s = record { idle = false; process = record s { nvml_ok = false } }
by_utilization (some gpu) s = record { idle = gpu == 0; process = s }

unfoldable pub by_sync : Turn → Process → Checked
unfolding elapsed_ms cuda_sync_context
by_sync t s = record {
  idle = ltb (elapsed_ms (timespecsub t.cuda_sync_complete_time t.cuda_sync_start_time)) 100;
  process = cuda_sync_context s;
}

unfoldable pub check_idle : Turn → Process → Checked
unfolding by_utilization by_sync
check_idle t s = if s.nvml_ok then by_utilization t.utilization s else by_sync t s

unfoldable pub release : Turn → Process → Outcome Process
unfolding send_whole
release t s = do
  s ← send_whole t.written (own_message lock_released s) s
  ok (record s { own_lock = false })

-- No work was submitted within the interval: the lock goes back if the client is idle.
unfoldable pub without_work : Turn → Process → Outcome Process
unfolding check_idle release
without_work t s =
    let checked = check_idle t s in
    let released = release t checked.process in
    if checked.idle then released else ok checked.process

-- The body of the loop once the interval has passed.
unfoldable pub interval_passed : Turn → Process → Outcome Process
unfolding without_work
interval_passed t s =
    let quiet = without_work t s in
    if s.scheduler_on && s.own_lock
    then if s.did_work then ok (record s { did_work = false }) else quiet
    else ok s

-- The loop starts again: the interval is measured anew.
unfoldable pub restart : Process → Process
restart s = record s { did_work = false }

-- One return of the wait up to the next wait, with the mutex held. After a wake-up without work the
-- thread waits for the remainder of its interval.
unfoldable pub release_early : Turn → Wait → Process → Outcome Process
unfolding interval_passed restart
release_early t timed_out s = interval_passed t s >>= λ s. ok (restart s)
release_early t wait_failed s = exited
release_early t signaled s = if s.did_work then ok (restart s) else ok s

-- The start of the thread: `opened` is whether `nvmlInit` and `nvmlDeviceGetHandleByIndex` both
-- succeed. The loop starts after it.
unfoldable pub start_release_early : Bool → Process → Process
unfolding restart
start_release_early opened s = restart (record s { nvml_ok = s.nvml_ok && opened })
