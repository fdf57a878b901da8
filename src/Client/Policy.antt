-- ===== src/Client/Policy.antt =====
-- When an idle client gives the lock back, in terms of the time that has passed.
use nvshare.Prelude.{
  ℕ, ◌+◌, ◌*◌, ◌/◌, ◌≤◌, ◌<◌, ◌≡◌, refl, subst, sym, ◌∙◌, Bool, true, false, not, ◌&&◌, ◌∷◌, Option,
  none, some, ltb, ◌==◌, if◌then◌else◌, Outcome, ok, Ensures, Ensures-bind, arith, Bool-cases, inl,
  inr, ◌⊎◌,
}
use nvshare.Common.Clock.{Timespec, timespecsub, nanoseconds, nanoseconds-timespecsub}
use nvshare.Comm.Messages.{lock_released}
use nvshare.Client.State.{Process, sent, own_message}
use nvshare.Client.EarlyRelease.{
  Turn, timed_out, elapsed_ms, Checked, by_utilization, by_sync, check_idle, release, without_work,
  interval_passed, release_early, restart,
}

abbrev no_utilization : Option ℕ → Bool
no_utilization none = false
no_utilization (some gpu) = gpu == 0

-- The GPU is idle: its utilization is zero or, without NVML, a synchronization of the context takes
-- less than a tenth of a second.
abbrev pub gpu_idle : Turn → Process → Bool
gpu_idle t s =
    let synced =
      ltb (nanoseconds t.cuda_sync_complete_time)
        (nanoseconds t.cuda_sync_start_time + 100_000_000) in
    if s.nvml_ok then no_utilization t.utilization else synced

-- The client has the lock from a scheduler that is on, no work was submitted, and the GPU is idle.
abbrev pub gives_back : Turn → Process → Bool
gives_back t s = (s.scheduler_on && s.own_lock) && (not s.did_work && gpu_idle t s)

-- The two times are of one clock, and less than 4,000,000 seconds apart.
pub record IsTimed (t : Turn) : Type 0 where
  pub start_normal : t.cuda_sync_start_time.tv_nsec < 1_000_000_000
  pub complete_normal : t.cuda_sync_complete_time.tv_nsec < 1_000_000_000
  pub ordered : nanoseconds t.cuda_sync_start_time ≤ nanoseconds t.cuda_sync_complete_time
  pub near :
      nanoseconds t.cuda_sync_complete_time
      < nanoseconds t.cuda_sync_start_time + 4_000_000_000_000_000

-- No unsigned int overflows within that time.
elapsed_ms_lem :
    (d : Timespec)
    → d.tv_nsec < 1_000_000_000
    → nanoseconds d < 4_000_000_000_000_000
    → elapsed_ms d ≡ d.tv_sec * 1000 + d.tv_nsec / 1_000_000
unfolding elapsed_ms
elapsed_ms_lem d n h = omega arith

below_tenth :
    (d : Timespec)
    → d.tv_nsec < 1_000_000_000
    → nanoseconds d < 4_000_000_000_000_000
    → ltb (elapsed_ms d) 100 ≡ ltb (nanoseconds d) 100_000_000
below_tenth d n h = rw (elapsed_ms_lem d n h) (ground arith)

ltb-shift : (d a c : ℕ) → d + a ≡ c → ltb d 100_000_000 ≡ ltb c (a + 100_000_000)
ltb-shift d a c e = ground arith

by_sync-idle :
    (t : Turn) (s : Process)
    → IsTimed t
    → (by_sync t s).idle
      ≡ ltb
          (nanoseconds t.cuda_sync_complete_time)
          (nanoseconds t.cuda_sync_start_time + 100_000_000)
unfolding by_sync
by_sync-idle t s v =
    let k =
      nanoseconds-timespecsub t.cuda_sync_complete_time t.cuda_sync_start_time v.complete_normal
        v.start_normal v.ordered in
    below_tenth (timespecsub t.cuda_sync_complete_time t.cuda_sync_start_time) k.1
      (omega (arith, k.0, v.near))
    ∙ ltb-shift _ _ _ k.0

by_utilization-idle :
    (gpu : Option ℕ) (s : Process) → (by_utilization gpu s).idle ≡ no_utilization gpu
unfolding by_utilization
by_utilization-idle none s = refl
by_utilization-idle (some gpu) s = refl

pub check_idle-idle : (t : Turn) (s : Process) → IsTimed t → (check_idle t s).idle ≡ gpu_idle t s
unfolding check_idle
check_idle-idle t s v = elim (Bool-cases s.nvml_ok) [
  | inl nvml ↦ rw nvml (by_utilization-idle t.utilization (record s { nvml_ok = true }))
  | inr fallback ↦ rw fallback (by_sync-idle t (record s { nvml_ok = false }) v)
]

-- What becomes of the log and the lock.
pub record Kept (s s' : Process) : Type 0 where
  pub log : s'.log ≡ s.log
  pub own_lock : s'.own_lock ≡ s.own_lock

pub record Released (s s' : Process) : Type 0 where
  pub log : s'.log ≡ sent (own_message lock_released s) ∷ s.log
  pub own_lock : s'.own_lock ≡ false

-- What the check leaves alone.
pub record Same (s p : Process) : Type 0 where
  pub log : p.log ≡ s.log
  pub own_lock : p.own_lock ≡ s.own_lock
  pub nvshare_client_id : p.nvshare_client_id ≡ s.nvshare_client_id
  pub scheduler_on : p.scheduler_on ≡ s.scheduler_on

by_utilization-Same : (gpu : Option ℕ) (s : Process) → Same s (by_utilization gpu s).process
unfolding by_utilization
by_utilization-Same none s = record {
  log = refl;
  own_lock = refl;
  nvshare_client_id = refl;
  scheduler_on = refl;
}
by_utilization-Same (some gpu) s = record {
  log = refl;
  own_lock = refl;
  nvshare_client_id = refl;
  scheduler_on = refl;
}

choose-Same :
    (b : Bool) (s : Process) (x y : Checked)
    → Same s x.process
    → Same s y.process
    → Same s (if b then x else y).process
choose-Same true s x y h k = h
choose-Same false s x y h k = k

pub check_idle-Same : (t : Turn) (s : Process) → Same s (check_idle t s).process
unfolding check_idle by_sync
check_idle-Same t s =
    choose-Same s.nvml_ok s (by_utilization t.utilization s) (by_sync t s)
      (by_utilization-Same t.utilization s)
      (record { log = refl; own_lock = refl; nvshare_client_id = refl; scheduler_on = refl })

release-Released : (t : Turn) (s p : Process) → Same s p → Ensures (Released s) (release t p)
unfolding release
release-Released t s p k = elim (Bool-cases t.written) [
  | inl whole ↦ rw whole (record { log = rw (k.log, k.nvshare_client_id) refl; own_lock = refl })
  | inr broken ↦ rw broken tt
]

without_work-lem :
    (t : Turn) (s : Process)
    → IsTimed t
    → (gpu_idle t s ≡ true → Ensures (Released s) (without_work t s))
      × (gpu_idle t s ≡ false → Ensures (Kept s) (without_work t s))
unfolding without_work
without_work-lem t s v =
    let same = check_idle-Same t s in
    (
      λ e. rw (check_idle-idle t s v ∙ e) (release-Released t s (check_idle t s).process same),
      λ e. rw (check_idle-idle t s v ∙ e) (record { log = same.log; own_lock = same.own_lock }),
    )

-- The three ways through `interval_passed`.
pub pick {ℓ} :
    {A : Type ℓ} (P : A → Type 0) (held work : Bool) (x y z : Outcome A)
    → (held ≡ true → work ≡ true → Ensures P x)
    → (held ≡ true → work ≡ false → Ensures P y)
    → (held ≡ false → Ensures P z)
    → Ensures P (if held then if work then x else y else z)
pick P true true x y z f g h = f refl refl
pick P true false x y z f g h = g refl refl
pick P false work x y z f g h = h refl

last_flag :
    (held work idle r : Bool)
    → (held && (not work && idle)) ≡ r
    → held ≡ true
    → work ≡ false
    → idle ≡ r
last_flag true false idle r e a b = e
last_flag true true idle r e a b = cc
last_flag false work idle r e a b = cc

both_flags :
    (held work idle : Bool)
    → (held && (not work && idle)) ≡ true
    → (held ≡ false) ⊎ (work ≡ true)
    → ⊥
both_flags true false idle e (inl a) = cc
both_flags true false idle e (inr b) = cc
both_flags true true idle e c = cc
both_flags false work idle e c = cc

interval_passed-lem :
    (t : Turn) (s : Process)
    → IsTimed t
    → (gives_back t s ≡ true → Ensures (Released s) (interval_passed t s))
      × (gives_back t s ≡ false → Ensures (Kept s) (interval_passed t s))
unfolding interval_passed
interval_passed-lem t s v =
    let held = s.scheduler_on && s.own_lock in
    let k = without_work-lem t s v in
    (
      λ e.
          pick (Released s) held s.did_work (ok (record s { did_work = false })) (without_work t s)
            (ok s) (λ a b. absurd (both_flags held s.did_work (gpu_idle t s) e (inr b)))
            (λ a b. k.0 (last_flag held s.did_work (gpu_idle t s) true e a b))
            (λ a. absurd (both_flags held s.did_work (gpu_idle t s) e (inl a))),
      λ e.
          pick (Kept s) held s.did_work (ok (record s { did_work = false })) (without_work t s)
            (ok s) (λ a b. record { log = refl; own_lock = refl })
            (λ a b. k.1 (last_flag held s.did_work (gpu_idle t s) false e a b))
            (λ a. record { log = refl; own_lock = refl }),
    )

abbrev pub ReleasedIf : Bool → Process → Process → Type 0
ReleasedIf true = Released
ReleasedIf false = Kept

interval_passed-ReleasedIf :
    (t : Turn) (s : Process)
    → IsTimed t
    → Ensures (ReleasedIf (gives_back t s) s) (interval_passed t s)
interval_passed-ReleasedIf t s v =
    let k = interval_passed-lem t s v in
    elim (Bool-cases (gives_back t s)) [
      | inl back ↦ subst (λ b. Ensures (ReleasedIf b s) (interval_passed t s)) (sym back) (k.0 back)
      | inr kept ↦ subst (λ b. Ensures (ReleasedIf b s) (interval_passed t s)) (sym kept) (k.1 kept)
    ]

ReleasedIf-restart : (b : Bool) (s s' : Process) → ReleasedIf b s s' → ReleasedIf b s (restart s')
unfolding restart
ReleasedIf-restart true s s' r = record { log = r.log; own_lock = r.own_lock }
ReleasedIf-restart false s s' r = record { log = r.log; own_lock = r.own_lock }

-- Once the interval has passed, and with times less than 4,000,000 seconds apart: if the client has
-- the lock from a scheduler that is on, no work was submitted, and the GPU is idle (utilization zero
-- or, without NVML, a synchronization of less than a tenth of a second), then one LOCK_RELEASED with
-- the client's identifier is sent and the lock is gone, or the process exits because the write
-- failed; otherwise no message is sent and the lock is kept.
pub release_early-gives_back :
    (t : Turn) (s : Process)
    → IsTimed t
    → Ensures (ReleasedIf (gives_back t s) s) (release_early t timed_out s)
unfolding release_early
release_early-gives_back t s v =
    Ensures-bind (ReleasedIf (gives_back t s) s) (ReleasedIf (gives_back t s) s)
      (interval_passed t s) (λ s'. ok (restart s')) (interval_passed-ReleasedIf t s v)
      (ReleasedIf-restart (gives_back t s) s)
