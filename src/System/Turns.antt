-- ===== src/System/Turns.antt =====
-- What one turn of a client's thread does to its lock and sends.
use nvshare.Prelude.{
  Ensures-guard, ℕ, ◌+◌, ◌≤◌, ◌≡◌, refl, ap, Bool, true, false, ◌&&◌, List, ◌∷◌, Option, none, some,
  Outcome, ok, Ensures, Ensures-bind, Ensures-map, arith, Bool-cases, inl, inr,
}
use nvshare.Comm.Messages.{
  Message, MessageType, register, sched_on, sched_off, req_lock, lock_ok, drop_lock, lock_released,
  set_tq, other,
}
use nvshare.Client.State.{Process, Logged, received}
use nvshare.Client.Start.{
  Starting, initialize_client, client_fn, initial_status, take_status, take_id, with_id, receive,
  register_message,
}
use nvshare.Client.Locking.{Progress, waits, continues, continue_with_lock, test_lock}
use nvshare.Client.Listening.{handle_message, give_back}
use nvshare.Client.EarlyRelease.{
  Turn, Wait, timed_out, wait_failed, signaled, release_early, interval_passed, without_work,
  check_idle, release, restart,
}
use nvshare.Client.Invariant.{one_if, sent_count, as_number}
use nvshare.Client.Invariant.Threads.{both}
use nvshare.Client.Invariant.Startup.{register_message-type}
use nvshare.Client.Policy.{Same, check_idle-Same, pick}
use nvshare.Comm.Ids.{text_as_id}

-- The lock that a process has, or gave back in this turn, it had before, or it got it now. It sends
-- no status.
pub record Spent (got : ℕ) (own own' : Bool) (log log' : List Logged) : Type 0 where
  pub credit :
      as_number own' + sent_count lock_released log'
      ≤ as_number own + sent_count lock_released log + got
  pub calm : sent_count sched_off log' ≡ sent_count sched_off log

abbrev pub Spends : ℕ → Process → Process → Type 0
Spends got p p' = Spent got p.own_lock p'.own_lock p.log p'.log

-- The process when the thread returns, or waits.
abbrev pub SpendsThen : Bool → List Logged → Progress → Type 0
SpendsThen own log (waits p') = Spent 0 own p'.own_lock log p'.log
SpendsThen own log (continues p') = Spent 0 own p'.own_lock log p'.log

pub test_lock-Spends :
    (written : Bool) (p : Process) → Ensures (SpendsThen p.own_lock p.log) (test_lock written p)
unfolding test_lock
test_lock-Spends written p = elim (Bool-cases p.own_lock) [
  | inl own ↦ rw own (record { credit = omega arith; calm = refl })
  | inr free ↦ elim (Bool-cases p.need_lock) [
    | inl need ↦ rw (free, need) (record { credit = omega arith; calm = refl })
    | inr none_yet ↦ elim (Bool-cases written) [
      | inl whole ↦ rw (free, none_yet, whole) (record { credit = omega arith; calm = omega arith })
      | inr broken ↦ rw (free, none_yet, broken) tt
    ]
  ]
]

pub continue_with_lock-Spends :
    (found written : Bool) (p : Process)
    → Ensures (SpendsThen p.own_lock p.log) (continue_with_lock found written p)
unfolding continue_with_lock
continue_with_lock-Spends found written p = elim (Bool-cases p.cuda_ctx_ok) [
  | inl known ↦ rw known (test_lock-Spends written (record p { cuda_ctx_ok = true }))
  | inr unknown ↦ elim (Bool-cases found) [
    | inl got ↦ rw (unknown, got) (test_lock-Spends written (record p { cuda_ctx_ok = true }))
    | inr failed ↦ rw (unknown, failed) tt
  ]
]

give_back-Spends : (written : Bool) (p : Process) → Ensures (Spends 0 p) (give_back written p)
unfolding give_back
give_back-Spends written p = elim (Bool-cases p.own_lock) [
  | inr free ↦ rw free (record { credit = omega arith; calm = refl })
  | inl own ↦ elim (Bool-cases written) [
    | inl whole ↦ rw (own, whole) (record { credit = omega arith; calm = omega arith })
    | inr broken ↦ rw (own, broken) tt
  ]
]

pub handle_message-Spends :
    (written : Bool) (t : MessageType) (p : Process)
    → one_if sched_off t ≡ 0
    → Ensures (Spends (one_if lock_ok t) p) (handle_message written t p)
unfolding handle_message
handle_message-Spends written lock_ok p e = record { credit = omega arith; calm = refl }
handle_message-Spends written drop_lock p e =
    Ensures-map _ (Spends 0 p) (give_back written (record p { log = received drop_lock ∷ p.log }))
      (give_back-Spends written (record p { log = received drop_lock ∷ p.log }))
      (λ p' k. record { credit = k.credit; calm = k.calm })
handle_message-Spends written sched_on p e = elim (Bool-cases p.scheduler_on) [
  | inl on ↦ rw on (record { credit = omega arith; calm = refl })
  | inr off ↦ rw off (record { credit = omega arith; calm = refl })
]
handle_message-Spends written sched_off p e = absurd (omega (arith, e))
handle_message-Spends written register p e = record { credit = omega arith; calm = refl }
handle_message-Spends written req_lock p e = record { credit = omega arith; calm = refl }
handle_message-Spends written lock_released p e = record { credit = omega arith; calm = refl }
handle_message-Spends written set_tq p e = record { credit = omega arith; calm = refl }
handle_message-Spends written (other n) p e = record { credit = omega arith; calm = refl }

release-Spends :
    (t : Turn) (s p : Process) → Same s p → s.own_lock ≡ true → Ensures (Spends 0 s) (release t p)
unfolding release
release-Spends t s p k own = elim (Bool-cases t.written) [
  | inl whole ↦
      rw whole (record { credit = rw (own, k.log) (omega arith); calm = rw k.log (omega arith) })
  | inr broken ↦ rw broken tt
]

without_work-Spends :
    (t : Turn) (s : Process) → s.own_lock ≡ true → Ensures (Spends 0 s) (without_work t s)
unfolding without_work
without_work-Spends t s own =
    let k = check_idle-Same t s in
    elim (Bool-cases (check_idle t s).idle) [
      | inl idle ↦ rw idle (release-Spends t s (check_idle t s).process k own)
      | inr busy ↦ rw busy (record {
        credit = omega (arith, ap as_number k.own_lock, ap (sent_count lock_released) k.log);
        calm = ap (sent_count sched_off) k.log;
      })
    ]

interval_passed-Spends : (t : Turn) (s : Process) → Ensures (Spends 0 s) (interval_passed t s)
unfolding interval_passed
interval_passed-Spends t s =
    pick (Spends 0 s) (s.scheduler_on && s.own_lock) s.did_work (ok (record s { did_work = false }))
      (without_work t s) (ok s) (λ held work. same)
      (λ held quiet. without_work-Spends t s (both s.scheduler_on s.own_lock held)) (λ free. same)
  where
    same : Spends 0 s s
    same = record { credit = omega arith; calm = refl }

pub release_early-Spends :
    (t : Turn) (w : Wait) (s : Process) → Ensures (Spends 0 s) (release_early t w s)
unfolding release_early restart
release_early-Spends t timed_out s =
    Ensures-bind (Spends 0 s) (Spends 0 s) (interval_passed t s) (λ u. ok (restart u))
      (interval_passed-Spends t s) (λ u k. k)
release_early-Spends t wait_failed s = tt
release_early-Spends t signaled s = elim (Bool-cases s.did_work) [
  | inl work ↦ rw work (record { credit = omega arith; calm = refl })
  | inr spurious ↦ rw spurious (record { credit = omega arith; calm = refl })
]

-- A client that starts under a scheduler that is on knows it, and does not have the lock. The message
-- that it starts with is no grant.
pub record Begun (t : MessageType) (own on : Bool) : Type 0 where
  pub free : own ≡ false
  pub status : on ≡ true
  pub no_grant : one_if lock_ok t ≡ 0

take_status-Begun :
    (t : MessageType) (s : Process)
    → one_if sched_off t ≡ 0
    → Ensures (λ p. Begun t p.own_lock p.scheduler_on) (take_status t s)
unfolding take_status
take_status-Begun sched_on s e = record { free = refl; status = refl; no_grant = refl }
take_status-Begun sched_off s e = absurd (omega (arith, e))
take_status-Begun lock_ok s e = tt
take_status-Begun drop_lock s e = tt
take_status-Begun register s e = tt
take_status-Begun req_lock s e = tt
take_status-Begun lock_released s e = tt
take_status-Begun set_tq s e = tt
take_status-Begun (other n) s e = tt

with_id-Begun :
    (t : MessageType) (id : Option ℕ) (s : Process)
    → Begun t s.own_lock s.scheduler_on
    → Ensures (λ p. Begun t p.own_lock p.scheduler_on) (with_id id s)
unfolding with_id
with_id-Begun t none s e = tt
with_id-Begun t (some id) s e = e

Ensures-any {ℓ} :
    {A : Type ℓ} (Q : A → Type 0) (m : Outcome A) → Ensures Q m → Ensures (λ _. Unit {0}) m
Ensures-any Q m h = Ensures-map Q (λ _. Unit {0}) m h (λ a k. tt)

pub initialize_client-Begun :
    (w : Starting) (in_msg : Message) (s : Process)
    → one_if sched_off in_msg.type ≡ 0
    → Ensures
        (λ p. Begun in_msg.type p.own_lock p.scheduler_on)
        (initialize_client (record w { answer = some in_msg }) s)
unfolding initialize_client client_fn initial_status take_id receive
initialize_client-Begun w in_msg s e = Ensures-guard Free w.threads_created _ (
    Ensures-bind Free Free (client_fn (record w { answer = some in_msg }) _) _
      (Ensures-guard Free w.cuda_initialized _ (
        Ensures-bind (λ _. Unit {0}) Free (register_message w.environment) _
          (Ensures-any (λ m. m.type ≡ register) (register_message w.environment)
            (register_message-type w.environment))
          λ m _. Ensures-guard Free w.connected _ (
            Ensures-guard Free w.written _ (
              Ensures-bind Free Free (take_status in_msg.type _) (take_id in_msg)
                (take_status-Begun in_msg.type _ e)
                (with_id-Begun in_msg.type (text_as_id in_msg.text))))))
      (λ p k. k))
  where
    Free : Process → Type 0
    Free p = Begun in_msg.type p.own_lock p.scheduler_on
