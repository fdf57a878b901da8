-- ===== src/Client/Idling.antt =====
-- A client of src/client.c that is idle does not keep the lock for long.
use nvshare.Prelude.{
  ◌+◌, ◌≡◌, refl, subst, sym, ◌∙◌, ap, Bool, true, false, ◌&&◌, some, ltb, ok, ◌>>=◌, Returns,
  Returns-bind, Returns-map, Bool-cases, inl, inr,
}
use nvshare.Common.Clock.{nanoseconds}
use nvshare.Client.State.{Process}
use nvshare.Client.EarlyRelease.{
  Turn, timed_out, check_idle, release, without_work, interval_passed, release_early, restart,
}
use nvshare.Client.Policy.{
  gpu_idle, IsTimed, Released, Kept, Same, check_idle-idle, check_idle-Same,
}

-- The GPU is idle by its utilization and by the time that a synchronization takes; the times are of
-- one clock; a message is written whole.
pub record IsIdle (t : Turn) : Type 0 where
  pub unused : t.utilization ≡ some 0
  pub synced :
      ltb (nanoseconds t.cuda_sync_complete_time) (nanoseconds t.cuda_sync_start_time + 100_000_000)
      ≡ true
  pub timed : IsTimed t
  pub whole : t.written ≡ true

gpu_idle-IsIdle : (t : Turn) (s : Process) → IsIdle t → gpu_idle t s ≡ true
gpu_idle-IsIdle t s v = elim (Bool-cases s.nvml_ok) [
  | inl nvml ↦ rw (nvml, v.unused) refl
  | inr fallback ↦ rw (fallback, v.synced) refl
]

release-Returns :
    (t : Turn) (s p : Process) → t.written ≡ true → Same s p → Returns (Released s) (release t p)
unfolding release
release-Returns t s p whole k =
    rw whole (record { log = rw (k.log, k.nvshare_client_id) refl; own_lock = refl })

without_work-Returns : (t : Turn) (s : Process) → IsIdle t → Returns (Released s) (without_work t s)
unfolding without_work
without_work-Returns t s v =
    rw (check_idle-idle t s v.timed ∙ gpu_idle-IsIdle t s v)
      (release-Returns t s (check_idle t s).process v.whole (check_idle-Same t s))

no_hold : (a b : Bool) → b ≡ false → (a && b) ≡ false
no_hold true b e = e
no_hold false b e = refl

to_without_work :
    (t : Turn) (s : Process)
    → s.scheduler_on ≡ true
    → s.own_lock ≡ true
    → s.did_work ≡ false
    → interval_passed t s ≡ without_work t s
unfolding interval_passed
to_without_work t s on own quiet = simp (on, own, quiet) refl

to_same : (t : Turn) (s : Process) → s.own_lock ≡ false → interval_passed t s ≡ ok s
unfolding interval_passed
to_same t s free = simp (no_hold s.scheduler_on s.own_lock free) refl

to_reset :
    (t : Turn) (s : Process)
    → s.scheduler_on ≡ true
    → s.own_lock ≡ true
    → s.did_work ≡ true
    → interval_passed t s ≡ ok (record s { did_work = false })
unfolding interval_passed
to_reset t s on own work = simp (on, own, work) refl

-- An interval without work.
quiet_turn :
    (t : Turn) (s : Process)
    → IsIdle t
    → s.scheduler_on ≡ true
    → s.own_lock ≡ true
    → s.did_work ≡ false
    → Returns (Released s) (release_early t timed_out s)
unfolding release_early restart
quiet_turn t s v on own quiet =
    Returns-bind (Released s) (Released s) (interval_passed t s) (λ s'. ok (restart s'))
      (subst (Returns (Released s)) (sym (to_without_work t s on own quiet))
        (without_work-Returns t s v))
      λ s' k. record { log = k.log; own_lock = k.own_lock }

-- An interval without the lock.
free_turn :
    (t : Turn) (s : Process) → s.own_lock ≡ false → Returns (Kept s) (release_early t timed_out s)
unfolding release_early restart
free_turn t s free =
    Returns-bind (Kept s) (Kept s) (interval_passed t s) (λ s'. ok (restart s'))
      (subst (Returns (Kept s)) (sym (to_same t s free)) (record { log = refl; own_lock = refl }))
      λ s' k. record { log = k.log; own_lock = k.own_lock }

working_turn :
    (t : Turn) (s : Process)
    → s.scheduler_on ≡ true
    → s.own_lock ≡ true
    → s.did_work ≡ true
    → release_early t timed_out s ≡ ok (record s { did_work = false })
unfolding release_early restart
working_turn t s on own work = ap (λ m. m >>= λ s. ok (restart s)) (to_reset t s on own work)

-- A client with the lock, under a scheduler that is on, whether it has just worked or not: when two
-- intervals of the release thread pass without work, and the GPU is idle at the end of each, the
-- client is without the lock, and it has sent one LOCK_RELEASED and nothing else.
pub idle_gives_back :
    (t t' : Turn) (s : Process)
    → IsIdle t
    → IsIdle t'
    → s.scheduler_on ≡ true
    → s.own_lock ≡ true
    → Returns (Released s) (release_early t timed_out s >>= release_early t' timed_out)
idle_gives_back t t' s v v' on own = elim (Bool-cases s.did_work) [
  | inl work ↦
      subst (λ m. Returns (Released s) (m >>= release_early t' timed_out))
        (sym (working_turn t s on own work))
        (Returns-map (Released (record s { did_work = false })) (Released s) _
          (quiet_turn t' (record s { did_work = false }) v' on own refl)
          λ s' k. record { log = k.log; own_lock = k.own_lock })
  | inr quiet ↦
      Returns-bind (Released s) (Released s) (release_early t timed_out s)
        (release_early t' timed_out) (quiet_turn t s v on own quiet)
        λ s1 k.
          Returns-map (Kept s1) (Released s) _ (free_turn t' s1 k.own_lock)
            λ s2 h. record { log = h.log ∙ k.log; own_lock = h.own_lock ∙ k.own_lock }
]
