-- ===== src/System/Saving.antt =====
-- A turn of a client's thread loses no lock: src/client.c under a scheduler that is on.
use nvshare.Prelude.{
  ℕ, ◌+◌, ◌≤◌, ◌≡◌, refl, ap, Bool, true, false, ◌&&◌, List, ◌∷◌, ok, Ensures, Ensures-bind,
  Ensures-map, arith, Bool-cases, inl, inr,
}
use nvshare.Comm.Messages.{
  MessageType, register, sched_on, sched_off, req_lock, lock_ok, drop_lock, lock_released, set_tq,
  other,
}
use nvshare.Client.State.{Process, Logged, received}
use nvshare.Client.Locking.{Progress, waits, continues, continue_with_lock, test_lock}
use nvshare.Client.Listening.{handle_message, give_back}
use nvshare.Client.EarlyRelease.{
  Turn, Wait, timed_out, wait_failed, signaled, release_early, interval_passed, without_work,
  check_idle, release, restart,
}
use nvshare.Client.Invariant.{one_if, sent_count, as_number}
use nvshare.Client.Invariant.Threads.{both}
use nvshare.Client.Policy.{Same, check_idle-Same, pick}

-- The lock that a process has, or got now, it still has, or it gave it back in this turn. It goes on
-- to take the scheduler for on.
pub record Unspent (got : ℕ) (own own' on on' : Bool) (log log' : List Logged) : Type 0 where
  pub credit :
      as_number own + sent_count lock_released log + got
      ≤ as_number own' + sent_count lock_released log'
  pub status : on' ≡ on

abbrev pub Saved : ℕ → Process → Process → Type 0
Saved got p p' = Unspent got p.own_lock p'.own_lock p.scheduler_on p'.scheduler_on p.log p'.log

abbrev pub SavedThen : Bool → Bool → List Logged → Progress → Type 0
SavedThen own on log (waits p') = Unspent 0 own p'.own_lock on p'.scheduler_on log p'.log
SavedThen own on log (continues p') = Unspent 0 own p'.own_lock on p'.scheduler_on log p'.log

pub test_lock-Saved :
    (written : Bool) (p : Process)
    → Ensures (SavedThen p.own_lock p.scheduler_on p.log) (test_lock written p)
unfolding test_lock
test_lock-Saved written p = elim (Bool-cases p.own_lock) [
  | inl own ↦ rw own (record { credit = omega arith; status = refl })
  | inr free ↦ elim (Bool-cases p.need_lock) [
    | inl need ↦ rw (free, need) (record { credit = omega arith; status = refl })
    | inr none_yet ↦ elim (Bool-cases written) [
      | inl whole ↦ rw (free, none_yet, whole) (record { credit = omega arith; status = refl })
      | inr broken ↦ rw (free, none_yet, broken) tt
    ]
  ]
]

pub continue_with_lock-Saved :
    (found written : Bool) (p : Process)
    → Ensures (SavedThen p.own_lock p.scheduler_on p.log) (continue_with_lock found written p)
unfolding continue_with_lock
continue_with_lock-Saved found written p = elim (Bool-cases p.cuda_ctx_ok) [
  | inl known ↦ rw known (test_lock-Saved written (record p { cuda_ctx_ok = true }))
  | inr unknown ↦ elim (Bool-cases found) [
    | inl got ↦ rw (unknown, got) (test_lock-Saved written (record p { cuda_ctx_ok = true }))
    | inr failed ↦ rw (unknown, failed) tt
  ]
]

give_back-Saved : (written : Bool) (p : Process) → Ensures (Saved 0 p) (give_back written p)
unfolding give_back
give_back-Saved written p = elim (Bool-cases p.own_lock) [
  | inr free ↦ rw free (record { credit = omega arith; status = refl })
  | inl own ↦ elim (Bool-cases written) [
    | inl whole ↦ rw (own, whole) (record { credit = omega arith; status = refl })
    | inr broken ↦ rw (own, broken) tt
  ]
]

pub handle_message-Saved :
    (written : Bool) (t : MessageType) (p : Process)
    → one_if sched_off t ≡ 0
    → p.scheduler_on ≡ true
    → as_number p.own_lock + one_if lock_ok t ≤ 1
    → Ensures (Saved (one_if lock_ok t) p) (handle_message written t p)
unfolding handle_message
handle_message-Saved written lock_ok p e on one = record {
  credit = omega (arith, one);
  status = refl;
}
handle_message-Saved written drop_lock p e on one =
    Ensures-map _ (Saved 0 p) (give_back written (record p { log = received drop_lock ∷ p.log }))
      (give_back-Saved written (record p { log = received drop_lock ∷ p.log }))
      (λ p' k. record { credit = k.credit; status = k.status })
handle_message-Saved written sched_on p e on one =
    rw on (record { credit = omega arith; status = refl })
handle_message-Saved written sched_off p e on one = absurd (omega (arith, e))
handle_message-Saved written register p e on one = record { credit = omega arith; status = refl }
handle_message-Saved written req_lock p e on one = record { credit = omega arith; status = refl }
handle_message-Saved written lock_released p e on one = record {
  credit = omega arith;
  status = refl;
}
handle_message-Saved written set_tq p e on one = record { credit = omega arith; status = refl }
handle_message-Saved written (other n) p e on one = record { credit = omega arith; status = refl }

release-Saved :
    (t : Turn) (s p : Process) → Same s p → s.own_lock ≡ true → Ensures (Saved 0 s) (release t p)
unfolding release
release-Saved t s p k own = elim (Bool-cases t.written) [
  | inl whole ↦
      rw whole (record { credit = rw (own, k.log) (omega arith); status = k.scheduler_on })
  | inr broken ↦ rw broken tt
]

without_work-Saved :
    (t : Turn) (s : Process) → s.own_lock ≡ true → Ensures (Saved 0 s) (without_work t s)
unfolding without_work
without_work-Saved t s own =
    let k = check_idle-Same t s in
    elim (Bool-cases (check_idle t s).idle) [
      | inl idle ↦ rw idle (release-Saved t s (check_idle t s).process k own)
      | inr busy ↦ rw busy (record {
        credit = omega (arith, ap as_number k.own_lock, ap (sent_count lock_released) k.log);
        status = k.scheduler_on;
      })
    ]

interval_passed-Saved : (t : Turn) (s : Process) → Ensures (Saved 0 s) (interval_passed t s)
unfolding interval_passed
interval_passed-Saved t s =
    pick (Saved 0 s) (s.scheduler_on && s.own_lock) s.did_work (ok (record s { did_work = false }))
      (without_work t s) (ok s) (λ held work. same)
      (λ held quiet. without_work-Saved t s (both s.scheduler_on s.own_lock held)) (λ free. same)
  where
    same : Saved 0 s s
    same = record { credit = omega arith; status = refl }

pub release_early-Saved :
    (t : Turn) (w : Wait) (s : Process) → Ensures (Saved 0 s) (release_early t w s)
unfolding release_early restart
release_early-Saved t timed_out s =
    Ensures-bind (Saved 0 s) (Saved 0 s) (interval_passed t s) (λ u. ok (restart u))
      (interval_passed-Saved t s) (λ u k. k)
release_early-Saved t wait_failed s = tt
release_early-Saved t signaled s = elim (Bool-cases s.did_work) [
  | inl work ↦ rw work (record { credit = omega arith; status = refl })
  | inr spurious ↦ rw spurious (record { credit = omega arith; status = refl })
]
