-- ===== src/Client/Gate/Waking/Turns.antt =====
-- Every turn of the process keeps what holds of it while threads sleep.
use nvshare.Prelude.{
  ℕ, ◌≡◌, refl, ◌∙◌, Bool, true, false, ◌∷◌, Option, none, some, ◌&&◌, ok, Ensures, Ensures-bind,
  if◌then◌else◌, Bool-cases, inl, inr,
}
use nvshare.Comm.Messages.{
  MessageType, register, sched_on, sched_off, req_lock, lock_ok, drop_lock, lock_released, set_tq,
  other,
}
use nvshare.Client.State.{Process, received}
use nvshare.Client.Locking.{continue_with_lock, test_lock}
use nvshare.Client.Listening.{handle_message, give_back}
use nvshare.Client.EarlyRelease.{
  Turn, Wait, timed_out, wait_failed, signaled, release_early, interval_passed, without_work,
  check_idle, by_utilization, release, restart,
}
use nvshare.Client.Gate.{broadcasts}
use nvshare.Client.Gate.Waking.Defs.{Awake, Arriving, IsExpected, answered, pending}

pub test_lock-Arriving :
    (n : ℕ) (written : Bool) (s : Process) → Awake n s → Ensures (Arriving n) (test_lock written s)
unfolding test_lock
test_lock-Arriving n written s = elim (Bool-cases s.own_lock) [
  | inl own ↦ rw own λ v. v
  | inr free ↦ elim (Bool-cases s.need_lock) [
    | inl need ↦
        rw (free, need)
          λ v m. record {
            holding = λ e. cc;
            quiet = λ e. cc;
            off = v.off;
            outstanding = v.outstanding;
          }
    | inr none_yet ↦ elim (Bool-cases written) [
      | inl whole ↦
          rw (free, none_yet, whole)
            λ v m. record { holding = λ e. cc; quiet = λ e. cc; off = v.off; outstanding = refl }
      | inr broken ↦ rw (free, none_yet, broken) λ v. tt
    ]
  ]
]

pub continue_with_lock-Arriving :
    (n : ℕ) (found written : Bool) (s : Process)
    → Awake n s
    → Ensures (Arriving n) (continue_with_lock found written s)
unfolding continue_with_lock
continue_with_lock-Arriving n found written s v = elim (Bool-cases s.cuda_ctx_ok) [
  | inl known ↦ rw known (test_lock-Arriving n written (record s { cuda_ctx_ok = true }) v)
  | inr unknown ↦ elim (Bool-cases found) [
    | inl got ↦ rw (unknown, got) (test_lock-Arriving n written (record s { cuda_ctx_ok = true }) v)
    | inr failed ↦ rw (unknown, failed) tt
  ]
]

give_back-Awake :
    (n : ℕ) (written : Bool) (s : Process)
    → s.scheduler_on ≡ true
    → Awake n s
    → Ensures (Awake n) (give_back written s)
unfolding give_back
give_back-Awake n written s on = elim (Bool-cases s.own_lock) [
  | inr free ↦ rw free λ v. v
  | inl own ↦ elim (Bool-cases written) [
    | inl whole ↦
        rw (own, whole)
          λ v. record {
            holding = λ e. cc;
            quiet = v.quiet;
            off = λ e. cc;
            outstanding = v.outstanding;
          }
    | inr broken ↦ rw (own, broken) λ v. tt
  ]
]

-- A message that is no answer.
other_received :
    (type : MessageType) (n : ℕ) (s : Process)
    → answered type (pending s.log) ≡ pending s.log
    → Awake n s
    → Awake n (record s { log = received type ∷ s.log })
other_received type n s e v = record {
  holding = v.holding;
  quiet = v.quiet;
  off = v.off;
  outstanding = e ∙ v.outstanding;
}

-- The sleepers left by a message: those it broadcasts to wake up.
pub handle_message-Awake :
    (n : ℕ) (written : Bool) (type : MessageType) (s : Process)
    → IsExpected type s
    → Awake n s
    → Ensures (Awake (if broadcasts type s then 0 else n)) (handle_message written type s)
unfolding handle_message broadcasts
handle_message-Awake n written lock_ok s x v = record {
  holding = λ e. refl;
  quiet = λ e. refl;
  off = λ e. refl;
  outstanding = refl;
}
handle_message-Awake n written drop_lock s x v =
    give_back-Awake n written (record s { log = received drop_lock ∷ s.log }) x
      (other_received drop_lock n s refl v)
handle_message-Awake n written sched_on s x v = rw x (record {
  holding = λ e. cc;
  quiet = λ e. v.holding (v.off x);
  off = λ e. cc;
  outstanding = refl;
})
handle_message-Awake n written sched_off s x v =
    rw x (record { holding = λ e. refl; quiet = λ e. refl; off = λ e. refl; outstanding = refl })
handle_message-Awake n written register s x v = other_received register n s refl v
handle_message-Awake n written req_lock s x v = other_received req_lock n s refl v
handle_message-Awake n written lock_released s x v = other_received lock_released n s refl v
handle_message-Awake n written set_tq s x v = other_received set_tq n s refl v
handle_message-Awake n written (other k) s x v = other_received (other k) n s refl v

-- A process that the release thread may take the lock from.
abbrev Held : ℕ → Process → Type 0
Held n s = Awake n s × (s.scheduler_on ≡ true)

by_utilization-Held :
    (n : ℕ) (gpu : Option ℕ) (s : Process) → Held n s → Held n (by_utilization gpu s).process
unfolding by_utilization
by_utilization-Held n none s v = v
by_utilization-Held n (some gpu) s v = v

check_idle-Held : (n : ℕ) (t : Turn) (s : Process) → Held n s → Held n (check_idle t s).process
unfolding check_idle
check_idle-Held n t s v = elim (Bool-cases s.nvml_ok) [
  | inl nvml ↦ rw nvml (by_utilization-Held n t.utilization (record s { nvml_ok = true }) v)
  | inr fallback ↦ rw fallback v
]

release-Awake : (n : ℕ) (t : Turn) (s : Process) → Held n s → Ensures (Awake n) (release t s)
unfolding release
release-Awake n t s (v, on) = elim (Bool-cases t.written) [
  | inl whole ↦
      rw whole
        (record { holding = λ e. cc; quiet = v.quiet; off = λ e. cc; outstanding = v.outstanding })
  | inr broken ↦ rw broken tt
]

without_work-Awake :
    (n : ℕ) (t : Turn) (s : Process) → Held n s → Ensures (Awake n) (without_work t s)
unfolding without_work
without_work-Awake n t s v =
    let k = check_idle-Held n t s v in
    elim (Bool-cases (check_idle t s).idle) [
      | inl idle ↦ rw idle (release-Awake n t (check_idle t s).process k)
      | inr busy ↦ rw busy k.0
    ]

left : (a b : Bool) → (a && b) ≡ true → a ≡ true
left true b h = refl
left false b h = cc

interval_passed-Awake :
    (n : ℕ) (t : Turn) (s : Process) → Awake n s → Ensures (Awake n) (interval_passed t s)
unfolding interval_passed
interval_passed-Awake n t s v = elim (Bool-cases (s.scheduler_on && s.own_lock)) [
  | inr none_held ↦ rw none_held v
  | inl held ↦ elim (Bool-cases s.did_work) [
    | inl work ↦ rw (held, work) v
    | inr quiet ↦
        rw (held, quiet)
          (without_work-Awake n t (record s { did_work = false })
            (v, left s.scheduler_on s.own_lock held))
  ]
]

pub release_early-Awake :
    (n : ℕ) (t : Turn) (w : Wait) (s : Process)
    → Awake n s
    → Ensures (Awake n) (release_early t w s)
unfolding release_early
release_early-Awake n t timed_out s v =
    Ensures-bind (Awake n) (Awake n) (interval_passed t s) (λ s. ok (restart s))
      (interval_passed-Awake n t s v) λ s v. v
release_early-Awake n t wait_failed s v = tt
release_early-Awake n t signaled s v = elim (Bool-cases s.did_work) [
  | inl work ↦ rw work v
  | inr spurious ↦ rw spurious v
]
