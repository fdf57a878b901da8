-- ===== src/Scheduler/Invariant/Settled.antt =====
-- The lock is free only when nobody waits, once an operation is done with.
use nvshare.Prelude.{Ensures-if, sym, ◌∙◌, Outcome, ok, Ensures, Ensures-map}
use nvshare.Scheduler.State.{Scheduler, World}
use nvshare.Scheduler.Schedule.{try_schedule}
use nvshare.Scheduler.Dispatch.{schedule_if_free}
use nvshare.Scheduler.Invariant.Defs.{Core, Inv, Kept, IsBenign, IsBusy}
use nvshare.Scheduler.Invariant.Schedule.{Scheduled, try_schedule-Scheduled}

pub Kept-Inv : (w : World) (s s' : Scheduler) → Inv s → Core s' → Kept w s s' → Inv s'
Kept-Inv w s s' v c k = record { core = c; off = λ h. k.emptied (v.off (sym k.status ∙ h)) }

-- After an operation that is done with: the invariant, and the lock is not free while anybody waits.
pub record Settled (s : Scheduler) : Type 0 where
  pub inv : Inv s
  pub busy : IsBusy s

-- A branch is proved under its test.
pub schedule_if_free-Settled :
    (w : World) (s : Scheduler) → Inv s → IsBenign w s → Ensures Settled (schedule_if_free w s)
unfolding schedule_if_free
schedule_if_free-Settled w s v b =
    Ensures-if Settled s.lock_held (ok s) (try_schedule w s)
      (λ held. record { inv = v; busy = λ _ _. held })
      λ free.
        Ensures-map (Scheduled w s) Settled (try_schedule w s) (try_schedule-Scheduled w s v.core b)
          (λ t r. record { inv = Kept-Inv w s t v r.core r.kept; busy = λ _. r.busy })

-- An operation that leaves the lock held by somebody, if it was before.
pub record Settles (s s' : Scheduler) : Type 0 where
  pub inv : Inv s'
  pub busy : IsBusy s → IsBusy s'

pub Settled-Settles :
    (s : Scheduler) (m : Outcome Scheduler) → Ensures Settled m → Ensures (Settles s) m
Settled-Settles s m h =
    Ensures-map Settled (Settles s) m h (λ t r. record { inv = r.inv; busy = λ _. r.busy })

pub Settles-refl : (s : Scheduler) → Inv s → Settles s s
Settles-refl s v = record { inv = v; busy = λ b. b }
