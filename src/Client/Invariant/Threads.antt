-- ===== src/Client/Invariant/Threads.antt =====
-- Every turn of a thread keeps the invariant: an application thread, a message, the release thread.
use nvshare.Prelude.{
  ℕ, ◌≡◌, Bool, true, false, List, ◌∷◌, ap, Option, none, some, ◌&&◌, ok, Ensures, Ensures-bind,
  arith, Bool-cases, inl, inr,
}
use nvshare.Comm.Messages.{
  MessageType, register, sched_on, sched_off, req_lock, lock_ok, drop_lock, lock_released, set_tq,
  other,
}
use nvshare.Client.State.{Process, Logged, received}
use nvshare.Client.Locking.{continue_with_lock, test_lock}
use nvshare.Client.Listening.{handle_message, give_back}
use nvshare.Client.EarlyRelease.{
  Turn, Wait, timed_out, wait_failed, signaled, release_early, interval_passed, without_work,
  check_idle, by_utilization, release, restart,
}
use nvshare.Client.Invariant.Defs.{Fits, Inv, AtProcess, as_number}

pub test_lock-Inv :
    (written : Bool) (s : Process) → Inv s → Ensures (AtProcess Inv) (test_lock written s)
unfolding test_lock
test_lock-Inv written s = elim (Bool-cases s.own_lock) [
  | inl own ↦ rw own λ v. v
  | inr free ↦ elim (Bool-cases s.need_lock) [
    | inl need ↦ rw (free, need) λ v. v
    | inr none_yet ↦ elim (Bool-cases written) [
      | inl whole ↦
          rw (free, none_yet, whole)
            λ v. record {
              exclusive = omega arith;
              asked = omega (arith, v.asked);
              released = omega (arith, v.released);
            }
      | inr broken ↦ rw (free, none_yet, broken) λ v. tt
    ]
  ]
]

pub continue_with_lock-Inv :
    (found written : Bool) (s : Process)
    → Inv s
    → Ensures (AtProcess Inv) (continue_with_lock found written s)
unfolding continue_with_lock
continue_with_lock-Inv found written s v = elim (Bool-cases s.cuda_ctx_ok) [
  | inl known ↦ rw known (test_lock-Inv written (record s { cuda_ctx_ok = true }) v)
  | inr unknown ↦ elim (Bool-cases found) [
    | inl got ↦ rw (unknown, got) (test_lock-Inv written (record s { cuda_ctx_ok = true }) v)
    | inr failed ↦ rw (unknown, failed) tt
  ]
]

give_back-Inv : (written : Bool) (s : Process) → Inv s → Ensures Inv (give_back written s)
unfolding give_back
give_back-Inv written s = elim (Bool-cases s.own_lock) [
  | inr free ↦ rw free λ v. v
  | inl own ↦ elim (Bool-cases written) [
    | inl whole ↦
        rw (own, whole)
          λ v. record {
            exclusive = omega (arith, v.exclusive);
            asked = omega (arith, v.asked);
            released = omega (arith, v.released);
          }
    | inr broken ↦ rw (own, broken) λ v. tt
  ]
]

-- A message without an effect on the lock.
pub Fits-received :
    (type : MessageType) (own need : Bool) (log : List Logged)
    → Fits own need log
    → Fits own need (received type ∷ log)
Fits-received type own need log v = record {
  exclusive = v.exclusive;
  asked = omega (arith, v.asked);
  released = omega (arith, v.released);
}

pub handle_message-Inv :
    (written : Bool) (type : MessageType) (s : Process)
    → Inv s
    → Ensures Inv (handle_message written type s)
unfolding handle_message
handle_message-Inv written lock_ok s v = record {
  exclusive = omega arith;
  asked = omega (arith, v.asked, v.exclusive);
  released = omega (arith, v.released);
}
handle_message-Inv written drop_lock s v =
    give_back-Inv written (record s { log = received drop_lock ∷ s.log })
      (Fits-received drop_lock _ _ _ v)
handle_message-Inv written sched_on s v = elim (Bool-cases s.scheduler_on) [
  | inl on ↦ rw on (Fits-received sched_on _ _ _ v)
  | inr off ↦ rw off (record {
    exclusive = omega arith;
    asked = omega (arith, v.asked, v.exclusive);
    released = omega (arith, v.released);
  })
]
handle_message-Inv written sched_off s v = elim (Bool-cases s.scheduler_on) [
  | inr off ↦ rw off (Fits-received sched_off _ _ _ v)
  | inl on ↦ rw on (record {
    exclusive = omega arith;
    asked = omega (arith, v.asked, v.exclusive);
    released = omega (arith, v.released);
  })
]
handle_message-Inv written register s v = Fits-received register _ _ _ v
handle_message-Inv written req_lock s v = Fits-received req_lock _ _ _ v
handle_message-Inv written lock_released s v = Fits-received lock_released _ _ _ v
handle_message-Inv written set_tq s v = Fits-received set_tq _ _ _ v
handle_message-Inv written (other n) s v = Fits-received (other n) _ _ _ v

-- The same process, as far as the lock is concerned, that owns the lock.
abbrev Owner : Process → Type 0
Owner s = Inv s × (s.own_lock ≡ true)

by_utilization-Owner :
    (gpu : Option ℕ) (s : Process) → Owner s → Owner (by_utilization gpu s).process
unfolding by_utilization
by_utilization-Owner none s v = v
by_utilization-Owner (some gpu) s v = v

check_idle-Owner : (t : Turn) (s : Process) → Owner s → Owner (check_idle t s).process
unfolding check_idle
check_idle-Owner t s v = elim (Bool-cases s.nvml_ok) [
  | inl nvml ↦ rw nvml (by_utilization-Owner t.utilization (record s { nvml_ok = true }) v)
  | inr fallback ↦ rw fallback v
]

release-Inv : (t : Turn) (s : Process) → Owner s → Ensures Inv (release t s)
unfolding release
release-Inv t s (v, own) = elim (Bool-cases t.written) [
  | inl whole ↦ rw whole (record {
    exclusive = omega (arith, v.exclusive);
    asked = omega (arith, v.asked);
    released = omega (arith, v.released, ap as_number own);
  })
  | inr broken ↦ rw broken tt
]

pub both : (a b : Bool) → (a && b) ≡ true → b ≡ true
both true b h = h
both false b h = cc

without_work-Inv : (t : Turn) (s : Process) → Owner s → Ensures Inv (without_work t s)
unfolding without_work
without_work-Inv t s v =
    let k = check_idle-Owner t s v in
    elim (Bool-cases (check_idle t s).idle) [
      | inl idle ↦ rw idle (release-Inv t (check_idle t s).process k)
      | inr busy ↦ rw busy k.0
    ]

interval_passed-Inv : (t : Turn) (s : Process) → Inv s → Ensures Inv (interval_passed t s)
unfolding interval_passed
interval_passed-Inv t s v = elim (Bool-cases (s.scheduler_on && s.own_lock)) [
  | inr none_held ↦ rw none_held v
  | inl held ↦ elim (Bool-cases s.did_work) [
    | inl work ↦ rw (held, work) v
    | inr quiet ↦
        rw (held, quiet)
          (without_work-Inv t (record s { did_work = false })
            (v, both s.scheduler_on s.own_lock held))
  ]
]

pub release_early-Inv :
    (t : Turn) (w : Wait) (s : Process) → Inv s → Ensures Inv (release_early t w s)
unfolding release_early
release_early-Inv t timed_out s v =
    Ensures-bind Inv Inv (interval_passed t s) (λ s. ok (restart s)) (interval_passed-Inv t s v)
      λ s v. v
release_early-Inv t wait_failed s v = tt
release_early-Inv t signaled s v = elim (Bool-cases s.did_work) [
  | inl work ↦ rw work v
  | inr spurious ↦ rw spurious v
]
