-- ===== src/Client/Tests.antt =====
-- A client that starts, asks for the lock, gets it and gives it back.
use nvshare.Prelude.{
  ℕ, ◌≡◌, refl, subst, true, false, List, [], ◌∷◌, none, some, ok, ◌>>=◌, Returns, Ensures, arith,
}
use nvshare.Common.Strings.{strlcpy}
use nvshare.Comm.Messages.{
  Message, zero_message, register, sched_on, lock_ok, req_lock, pod_namespace_len_max,
}
use mathlib.Core.Option.{some-injective}
use nvshare.Comm.Layout.{IsText, IsSendable}
use nvshare.Client.Registering.{register_message-IsSendable}
use nvshare.Comm.Ids.{text_as_id}
use nvshare.Client.State.{Process, sent, received, own_message}
use nvshare.Client.Start.{Starting, Environment, register_message, initialize_client, unstarted}
use nvshare.Client.Locking.{continue_with_lock, waits, continues, test_lock}
use nvshare.Client.Listening.{handle_message}
use nvshare.Client.EarlyRelease.{Turn, timed_out, release_early}
use nvshare.Client.Invariant.{
  Fits, Reach, starts, enters_and_waits, woken_and_continues, gets, Reach-Fits,
}
use nvshare.Client.Idling.{IsIdle, idle_gives_back}
use nvshare.Client.Policy.{Released, IsTimed, gives_back, ReleasedIf, release_early-gives_back}

-- "none"
abbrev none_text : List ℕ
none_text = b'n' ∷ b'o' ∷ b'n' ∷ b'e' ∷ []

abbrev pub starting : Starting
starting = record {
  environment = record {
    on_kubernetes = false;
    hostname = none;
    namespace_file = record { opened = false; fgets = none; closed = true };
  };
  cuda_initialized = true;
  connected = true;
  written = true;
  answer = some (record zero_message { type = sched_on; text = b'2' ∷ b'a' ∷ [] });
  threads_created = true;
  nvml_opened = true;
}

abbrev registration : Message
registration = record {
  type = register;
  pod_name = none_text;
  pod_namespace = none_text;
  id = 1234;
  text = [];
}

abbrev pub started : Process
started = record {
  scheduler_on = true;
  own_lock = false;
  need_lock = false;
  did_work = false;
  nvml_ok = true;
  cuda_ctx_ok = false;
  pending_kernel_window = 1;
  nvshare_client_id = 42;
  log = received sched_on ∷ sent registration ∷ [];
}

pub initialize_client-started : initialize_client starting (unstarted true) ≡ ok started
unfolding initialize_client unstarted text_as_id strlcpy
initialize_client-started = refl

abbrev waiting : Process
waiting = record started {
  cuda_ctx_ok = true;
  need_lock = true;
  log = sent (own_message req_lock started) ∷ started.log;
}

continue_with_lock-waiting : continue_with_lock true true started ≡ ok (waits waiting)
unfolding continue_with_lock
continue_with_lock-waiting = refl

abbrev granted : Process
granted = record waiting {
  need_lock = false;
  own_lock = true;
  did_work = true;
  log = received lock_ok ∷ waiting.log;
}

handle_message-granted : handle_message true lock_ok waiting ≡ ok granted
unfolding handle_message
handle_message-granted = refl

test_lock-granted : test_lock true granted ≡ ok (continues granted)
unfolding test_lock
test_lock-granted = refl

granted-Reach : Reach granted
granted-Reach =
    woken_and_continues true granted granted
      (gets true lock_ok waiting granted
        (enters_and_waits true true started waiting
          (starts starting true started initialize_client-started) continue_with_lock-waiting)
        handle_message-granted)
      test_lock-granted

Reach-Fits_example : Fits true false granted.log
Reach-Fits_example = Reach-Fits granted granted-Reach

abbrev idle_turn : Turn
idle_turn = record {
  utilization = none;
  cuda_sync_start_time = record { tv_sec = 9; tv_nsec = 999_000_000 };
  cuda_sync_complete_time = record { tv_sec = 10; tv_nsec = 1_000 };
  written = true;
}

-- Without NVML, and without new work.
abbrev unused_lock : Process
unused_lock = record granted { did_work = false; nvml_ok = false }

idle_turn-IsTimed : IsTimed idle_turn
idle_turn-IsTimed = record {
  start_normal = omega arith;
  complete_normal = omega arith;
  ordered = omega arith;
  near = omega arith;
}

release_early-gives_back_example :
    Ensures
      (ReleasedIf (gives_back idle_turn unused_lock) unused_lock)
      (release_early idle_turn timed_out unused_lock)
release_early-gives_back_example = release_early-gives_back idle_turn unused_lock idle_turn-IsTimed

unused_lock_given_back : gives_back idle_turn unused_lock ≡ true
unused_lock_given_back = refl

-- On Kubernetes, in the namespace "ml".
abbrev in_a_pod : Environment
in_a_pod = record {
  on_kubernetes = true;
  hostname = some (b'p' ∷ b'o' ∷ b'd' ∷ []);
  namespace_file = record { opened = true; fgets = some (b'm' ∷ b'l' ∷ []); closed = true };
}

ml-IsText : IsText pod_namespace_len_max (b'm' ∷ b'l' ∷ [])
ml-IsText = record { room = omega arith; no_nul = (λ e. omega arith, (λ e. omega arith, tt)) }

register_message-IsSendable_example : Ensures IsSendable (register_message in_a_pod)
register_message-IsSendable_example =
    register_message-IsSendable in_a_pod
      λ text e. subst (IsText pod_namespace_len_max) (some-injective _ _ e) ml-IsText

abbrev unused_gpu : Turn
unused_gpu = record idle_turn { utilization = some 0 }

unused_gpu-IsIdle : IsIdle unused_gpu
unused_gpu-IsIdle = record {
  unused = refl;
  synced = refl;
  timed = record {
    start_normal = omega arith;
    complete_normal = omega arith;
    ordered = omega arith;
    near = omega arith;
  };
  whole = refl;
}

idle_gives_back_example :
    Returns
      (Released granted)
      (release_early unused_gpu timed_out granted >>= release_early unused_gpu timed_out)
idle_gives_back_example =
    idle_gives_back unused_gpu unused_gpu granted unused_gpu-IsIdle unused_gpu-IsIdle refl refl
