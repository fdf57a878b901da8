-- ===== src/Client/Gate/Tests.antt =====
-- Two threads of an application that ask for the lock, get it and give it back.
use nvshare.Prelude.{◌≡◌, refl, true, false, [], ◌∷◌, ok, ◌>>=◌, replicate, Returns, Ensures}
use nvshare.Comm.Messages.{lock_ok, drop_lock, req_lock, lock_released}
use nvshare.Client.State.{sent, received, own_message}
use nvshare.Client.Tests.{starting, started, initialize_client-started}
use nvshare.Client.Locking.{continue_with_lock, test_lock}
use nvshare.Client.Listening.{handle_message}
use nvshare.Client.Gate.{
  outside, waiting, passed, Application, calls, retries, submits, hears, step, run,
}
use nvshare.Client.Gate.Waking.{Reach, starts, acts, IsAsking, sleeper-IsAsking}
use nvshare.Client.Gate.Waking.Passing.{Through, run_woken, lock_ok-passes}
use nvshare.Client.Gate.Submission.{Blocks, run-Blocks, LateBy, late_after_release}

abbrev idle : Application
idle = record { process = started; threads = replicate 2 outside; late = 0 }

-- Both threads call a hook, and both sleep.
abbrev one_asks : Application
one_asks = record {
  process = record started {
    cuda_ctx_ok = true;
    need_lock = true;
    log = sent (own_message req_lock started) ∷ started.log;
  };
  threads = waiting ∷ outside ∷ [];
  late = 0;
}

abbrev asking : Application
asking = record one_asks { threads = waiting ∷ waiting ∷ [] }

step-one_asks : step (calls 0 true true) idle ≡ ok one_asks
unfolding step continue_with_lock
step-one_asks = refl

step-asking : step (calls 1 true true) one_asks ≡ ok asking
unfolding step continue_with_lock
step-asking = refl

asking-Reach : Reach asking
asking-Reach =
    acts (calls 1 true true) one_asks asking
      (acts (calls 0 true true) idle one_asks
        (starts starting true 2 started initialize_client-started) tt step-one_asks)
      tt step-asking

sleeper-IsAsking_example : IsAsking asking.process
sleeper-IsAsking_example = sleeper-IsAsking asking 1 asking-Reach refl

lock_ok-passes_example :
    Returns (Through 1) (step (hears true lock_ok) asking >>= run_woken true (0 ∷ 1 ∷ 0 ∷ []))
lock_ok-passes_example = lock_ok-passes true true asking 1 (0 ∷ []) (0 ∷ []) refl

-- The lock is given back while one thread is behind the gate, and then this thread calls the driver.
abbrev granted : Application
granted = record asking {
  process = record (asking.process) {
    need_lock = false;
    own_lock = true;
    did_work = true;
    log = received lock_ok ∷ asking.process.log;
  };
  threads = passed ∷ passed ∷ [];
}

run-granted : run (hears true lock_ok ∷ retries 0 true ∷ retries 1 true ∷ []) asking ≡ ok granted
unfolding run handle_message test_lock
run-granted = refl

abbrev given_back : Application
given_back = record granted {
  process = record (granted.process) {
    own_lock = false;
    log = sent (own_message lock_released started) ∷ received drop_lock ∷ granted.process.log;
  };
}

run-given_back : run (hears true drop_lock ∷ []) granted ≡ ok given_back
unfolding run handle_message
run-given_back = refl

run-late :
    run (submits 0 ∷ []) given_back
    ≡ ok (record given_back { threads = outside ∷ passed ∷ []; late = 1 })
unfolding run
run-late = refl

late_after_release_example :
    Returns (LateBy 1 granted) (run (hears true drop_lock ∷ submits 0 ∷ []) granted)
late_after_release_example = late_after_release granted 0 refl refl

run-Blocks_example :
    Ensures (Blocks 2) (run (submits 0 ∷ calls 0 true true ∷ submits 0 ∷ submits 1 ∷ []) given_back)
run-Blocks_example =
    run-Blocks (submits 0 ∷ calls 0 true true ∷ submits 0 ∷ submits 1 ∷ []) given_back refl tt
