-- ===== src/Client/Gate/Waking/Startup.antt =====
-- The process of a client that has started.
use nvshare.Prelude.{
  ℕ, ◌≡◌, refl, Bool, ◌∷◌, Option, none, some, Ensures, Ensures-bind, ◌>>=◌, Ensures-guard,
}
use nvshare.Comm.Messages.{
  Message, MessageType, register, sched_on, sched_off, req_lock, lock_ok, drop_lock, lock_released,
  set_tq, other,
}
use nvshare.Comm.Ids.{text_as_id}
use nvshare.Client.State.{Process, sent, received}
use nvshare.Client.Start.{
  Starting, initialize_client, unstarted, client_fn, initial_status, take_status, take_id, with_id,
  receive, register_message,
}
use nvshare.Client.Invariant.Startup.{register_message-type}
use nvshare.Client.Gate.Waking.Defs.{Awake}

take_status-Awake :
    (type : MessageType) (s : Process)
    → Ensures (Awake 0) (take_status type (record s { log = received type ∷ s.log }))
unfolding take_status
take_status-Awake sched_on s = record {
  holding = λ e. refl;
  quiet = λ e. refl;
  off = λ e. cc;
  outstanding = refl;
}
take_status-Awake sched_off s = record {
  holding = λ e. refl;
  quiet = λ e. refl;
  off = λ e. refl;
  outstanding = refl;
}
take_status-Awake lock_ok s = tt
take_status-Awake drop_lock s = tt
take_status-Awake register s = tt
take_status-Awake req_lock s = tt
take_status-Awake lock_released s = tt
take_status-Awake set_tq s = tt
take_status-Awake (other n) s = tt

with_id-Awake : (id : Option ℕ) (s : Process) → Awake 0 s → Ensures (Awake 0) (with_id id s)
unfolding with_id
with_id-Awake none s v = tt
with_id-Awake (some id) s v = v

initial_status-Awake :
    (in_msg : Message) (s : Process) → Ensures (Awake 0) (initial_status in_msg s)
unfolding initial_status take_id
initial_status-Awake in_msg s =
    Ensures-bind (Awake 0) (Awake 0) _ (take_id in_msg) (take_status-Awake in_msg.type s)
      (with_id-Awake (text_as_id in_msg.text))

answer-Awake :
    (answer : Option Message) (s : Process)
    → Ensures (Awake 0) (receive answer >>= λ in_msg. initial_status in_msg s)
unfolding receive
answer-Awake none s = tt
answer-Awake (some in_msg) s = initial_status-Awake in_msg s

client_fn-Awake : (w : Starting) (s : Process) → Ensures (Awake 0) (client_fn w s)
unfolding client_fn
client_fn-Awake w s = Ensures-guard (Awake 0) w.cuda_initialized _ (
    Ensures-bind (λ m. m.type ≡ register) (Awake 0) (register_message w.environment) _
      (register_message-type w.environment)
      λ m _. Ensures-guard (Awake 0) w.connected _ (
        Ensures-guard (Awake 0) w.written _
          (answer-Awake w.answer (record s { log = sent m ∷ s.log }))))

pub initialize_client-Awake :
    (w : Starting) (nvml_ok : Bool) → Ensures (Awake 0) (initialize_client w (unstarted nvml_ok))
unfolding initialize_client unstarted
initialize_client-Awake w nvml_ok = Ensures-guard (Awake 0) w.threads_created _ (
    Ensures-bind (Awake 0) (Awake 0) (client_fn w _) _ (client_fn-Awake w (unstarted nvml_ok))
      λ s v. v)
