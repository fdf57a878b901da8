-- ===== src/Client/Invariant/Startup.antt =====
-- The invariant holds when the client has started.
use nvshare.Prelude.{
  Ensures-guard, ℕ, ◌≡◌, refl, Bool, false, [], ◌∷◌, Option, none, some, Ensures, Ensures-bind,
  arith, Bool-cases, inl, inr,
}
use nvshare.Comm.Messages.{
  Message, MessageType, register, sched_on, sched_off, req_lock, lock_ok, drop_lock, lock_released,
  set_tq, other,
}
use nvshare.Comm.Ids.{text_as_id}
use nvshare.Client.State.{Process, sent, received}
use nvshare.Client.Start.{
  Starting, Environment, initialize_client, unstarted, client_fn, initial_status, take_status,
  take_id, with_id, receive, register_message,
}
use nvshare.Client.Invariant.Defs.{Fits, Inv}
use nvshare.Client.Invariant.Threads.{Fits-received}

pub register_message-type :
    (env : Environment) → Ensures (λ m. m.type ≡ register) (register_message env)
unfolding register_message
register_message-type env = elim (Bool-cases env.on_kubernetes) [
  | inr bare ↦ rw bare refl
  | inl pod ↦ elim (Bool-cases env.namespace_file.opened) [
    | inr none_there ↦ rw (pod, none_there) refl
    | inl there ↦ elim (Bool-cases env.namespace_file.closed) [
      | inl closed ↦ rw (pod, there, closed) refl
      | inr failed ↦ rw (pod, there, failed) tt
    ]
  ]
]

take_status-Inv :
    (type : MessageType) (s : Process)
    → Fits false false s.log
    → Ensures Inv (take_status type (record s { log = received type ∷ s.log }))
unfolding take_status
take_status-Inv sched_on s v = Fits-received sched_on _ _ _ v
take_status-Inv sched_off s v = record {
  exclusive = omega arith;
  asked = omega (arith, v.asked);
  released = omega (arith, v.released);
}
take_status-Inv lock_ok s v = tt
take_status-Inv drop_lock s v = tt
take_status-Inv register s v = tt
take_status-Inv req_lock s v = tt
take_status-Inv lock_released s v = tt
take_status-Inv set_tq s v = tt
take_status-Inv (other n) s v = tt

with_id-Inv : (id : Option ℕ) (s : Process) → Inv s → Ensures Inv (with_id id s)
unfolding with_id
with_id-Inv none s v = tt
with_id-Inv (some id) s v = v

receive-Ensures : (answer : Option Message) → Ensures (λ _. Unit {0}) (receive answer)
unfolding receive
receive-Ensures none = tt
receive-Ensures (some m) = tt

client_fn-Inv : (w : Starting) (s : Process) → s.log ≡ [] → Ensures Inv (client_fn w s)
unfolding client_fn initial_status take_id
client_fn-Inv w s e = Ensures-guard Inv w.cuda_initialized _ (
    Ensures-bind (λ m. m.type ≡ register) Inv (register_message w.environment) _
      (register_message-type w.environment)
      λ m t. Ensures-guard Inv w.connected _ (
        Ensures-guard Inv w.written _ (
          Ensures-bind (λ _. Unit {0}) Inv (receive w.answer) _ (receive-Ensures w.answer)
            λ in_msg _.
              Ensures-bind Inv Inv (take_status in_msg.type _) (take_id in_msg)
                (take_status-Inv in_msg.type (record s { log = sent m ∷ s.log })
                  (rw (e, t)
                    (record {
                      exclusive = omega arith;
                      asked = omega arith;
                      released = omega arith;
                    })))
                (with_id-Inv (text_as_id in_msg.text)))))

pub initialize_client-Inv :
    (w : Starting) (nvml_ok : Bool) → Ensures Inv (initialize_client w (unstarted nvml_ok))
unfolding initialize_client unstarted
initialize_client-Inv w nvml_ok =
    Ensures-guard Inv w.threads_created _
      (Ensures-bind Inv Inv (client_fn w _) _ (client_fn-Inv w (unstarted nvml_ok) refl) λ s v. v)
