-- ===== src/Scheduler/Fairness.antt =====
-- First come, first served: nobody overtakes a client that waits in src/scheduler.c.
pub mod Order
use nvshare.Prelude.{
  ℕ, ◌+◌, ◌≤◌, ◌<◌, ◌≡◌, refl, subst, sym, ◌∙◌, ap, Bool, true, false, List, [], ◌∷◌, ◌++◌, ◌==◌,
  ◌⊎◌, inl, inr, length, ok, Ensures, Ensures-map, arith, Bool-cases,
}
use nvshare.Comm.Messages.{Message, MessageType, lock_released}
use nvshare.Common.Transfer.{Attempts, Input}
use nvshare.Scheduler.State.{Scheduler, World}
use nvshare.Scheduler.Clients.{contains, without}
use nvshare.Scheduler.Schedule.{Timing, Wake, timer_step}
use nvshare.Scheduler.Dispatch.{Event, connection, readable, hangup, other_event, handle_event}
use nvshare.Scheduler.Lists.{Distinct, Distinct-append, Distinct-without}
use nvshare.Scheduler.Protocol.{
  Lock, Step, grant, ask_back, inform, close, empty, Steps, done, more, Heard, ignored, expels,
  asks, gives_back, turns_on, turns_off,
}
use nvshare.Scheduler.Invariant.{
  Inv, IsBenign, IsHonest, Handled, handle_event-Handled, Woken, timer_step-Woken,
}
use nvshare.Scheduler.Refinement.Moves.{view, Moves}
use nvshare.Scheduler.Refinement.Handlers.{Hears}
use nvshare.Scheduler.Refinement.Events.{Takes, handle_event-Takes}
use nvshare.Scheduler.Refinement.Timer.{timer_step-Moves}
use Order.{
  InOrder, keep, skip, ahead, InOrder-refl, InOrder-empty, InOrder-trans, without-InOrder,
  contains-InOrder, length-InOrder, ahead-InOrder, ahead-append, ahead-without_head,
}

Step-InOrder : {p q : Lock} → Step p q → InOrder q.queue p.queue
Step-InOrder {p} (grant fd rest m e free type) = InOrder-refl p.queue
Step-InOrder {p} (ask_back fd rest m e held type) = InOrder-refl p.queue
Step-InOrder {p} (inform fd m status) = InOrder-refl p.queue
Step-InOrder {p} (close fd) = without-InOrder fd p.queue
Step-InOrder {p} (empty off) = InOrder-empty p.queue

pub Steps-InOrder : {p q : Lock} → Steps p q → InOrder q.queue p.queue
Steps-InOrder {p} done = InOrder-refl p.queue
Steps-InOrder (more s h) = InOrder-trans (Steps-InOrder h) (Step-InOrder s)

-- `x` is no further back than before, and those in front of it were in front of it before, in the
-- same order.
abbrev pub InTurn : ℕ → List ℕ → List ℕ → Type 0
InTurn x before after = InOrder (ahead x after) (ahead x before)

heard-InTurn :
    (x fd : ℕ) (t : MessageType) (p q : Lock) (after : List ℕ)
    → Heard fd p t q
    → InOrder after q.queue
    → Distinct p.queue
    → contains x p.queue ≡ true
    → contains x after ≡ true
    → InTurn x p.queue after
heard-InTurn x fd t p _ after (ignored _ late) k d h h' = ahead-InOrder x k d h'
heard-InTurn x fd t p _ after (expels _) k d h h' =
    ahead-InOrder x (InOrder-trans k (without-InOrder fd p.queue)) d h'
heard-InTurn x fd _ p _ after (asks on new) k d h h' =
    subst (InOrder (ahead x after)) (ahead-append x p.queue (fd ∷ []) h)
      (ahead-InOrder x k (Distinct-append fd p.queue d new) h')
heard-InTurn x fd _ p _ after (gives_back on) k d h h' =
    ahead-InOrder x (InOrder-trans k (without-InOrder fd p.queue)) d h'
heard-InTurn x fd _ p _ after turns_on k d h h' = ahead-InOrder x k d h'
heard-InTurn x fd _ p _ after turns_off k d h h' = ahead-InOrder x k d h'

Takes-InTurn :
    (x : ℕ) (e : Event) (s s' : Scheduler)
    → Inv s
    → Takes e s s'
    → contains x s.requests ≡ true
    → contains x s'.requests ≡ true
    → InTurn x s.requests s'.requests
Takes-InTurn x (connection call added) s s' v (inl same) h h' =
    rw (ap (λ (s : Scheduler). s.requests) same) (InOrder-refl _)
Takes-InTurn x (connection call added) s s' v (inr joins) h h' =
    rw (ap (λ (p : Lock). p.queue) joins.joined) (InOrder-refl _)
Takes-InTurn x (readable fd call m) s s' v k h h' =
    heard-InTurn x fd m.type (view s) k.heard s'.requests k.effect (Steps-InOrder k.steps) v.once h
      h'
Takes-InTurn x (hangup fd) s s' v k h h' = ahead-InOrder x (Steps-InOrder k) v.once h'
Takes-InTurn x other_event s s' v same h h' =
    rw (ap (λ (s : Scheduler). s.requests) same) (InOrder-refl _)

-- A run of the main thread and the timer thread, in turns, during which `x` waits all the time.
pub data WaitsThrough (x : ℕ) (t : Timing) : Timing → Type 0 where
  begins : contains x t.sched.requests ≡ true → WaitsThrough x t t
  event :
      (w : World) (e : Event) (u : Timing) (s : Scheduler)
      → WaitsThrough x t u
      → IsHonest w e u.sched
      → handle_event w e u.sched ≡ ok s
      → contains x s.requests ≡ true
      → WaitsThrough x t (record u { sched = s })
  wake_up :
      (w : World) (wake : Wake) (u u' : Timing)
      → WaitsThrough x t u
      → IsBenign w u.sched
      → timer_step w wake u ≡ ok u'
      → contains x u'.sched.requests ≡ true
      → WaitsThrough x t u'

record Queued (x : ℕ) (t u : Timing) : Type 0 where
  inv : Inv u.sched
  waits : contains x u.sched.requests ≡ true
  in_turn : InTurn x t.sched.requests u.sched.requests

waits_through : (x : ℕ) (t u : Timing) → Inv t.sched → WaitsThrough x t u → Queued x t u
waits_through x t _ v (begins h) = record { inv = v; waits = h; in_turn = InOrder-refl _ }
waits_through x t _ v (event w e u s r honest q h) =
    let k = waits_through x t u v r in
    record {
      inv =
          (subst (Ensures (Handled e u.sched)) q (handle_event-Handled w e u.sched k.inv honest)).0;
      waits = h;
      in_turn =
          InOrder-trans
            (Takes-InTurn x e u.sched s k.inv
              (subst (Ensures (Takes e u.sched)) q (handle_event-Takes w e u.sched k.inv honest))
              k.waits h)
            k.in_turn;
    }
waits_through x t u' v (wake_up w wake u _ r benign q h) =
    let k = waits_through x t u v r in
    record {
      inv = (subst (Ensures (Woken u.sched)) q (timer_step-Woken w wake u k.inv benign)).0;
      waits = h;
      in_turn =
          InOrder-trans
            (ahead-InOrder x
              (Steps-InOrder (
                subst (Ensures (λ u'. Moves u.sched u'.sched)) q
                  (timer_step-Moves w wake u k.inv benign)))
              k.inv.once h)
            k.in_turn;
    }

-- First come, first served, over any number of events and wake-ups of the timer, in any order, from
-- a state within the invariant and while the system answers as it is assumed to: while a client
-- waits, nobody overtakes it. Whoever is in front of it in the list at the end was in front of it at
-- the beginning, in the same order.
pub no_overtaking :
    (x : ℕ) (t u : Timing)
    → Inv t.sched
    → WaitsThrough x t u
    → InOrder (ahead x u.sched.requests) (ahead x t.sched.requests)
no_overtaking x t u v r = (waits_through x t u v r).in_turn

-- A message with which the holder gives the lock back takes it out of the queue.
released_leaves :
    (fd : ℕ) (p q : Lock) → p.on ≡ true → Heard fd p lock_released q → q.queue ≡ without fd p.queue
released_leaves fd p _ on (ignored _ late) = cc (on, late refl)
released_leaves fd p _ on (expels _) = refl
released_leaves fd p _ on (gives_back _) = refl

one_nearer :
    (x holder : ℕ) (rest : List ℕ) (s s' : Scheduler)
    → s.requests ≡ holder ∷ rest
    → s.scheduler_on ≡ true
    → (holder == x) ≡ false
    → Distinct s.requests
    → Hears holder lock_released s s'
    → contains x s'.requests ≡ true
    → length (ahead x s'.requests) < length (ahead x s.requests)
one_nearer x holder rest s s' e on other d k h =
    let left : k.heard.queue ≡ without holder (holder ∷ rest) =
      released_leaves holder (view s) k.heard on k.effect ∙ ap (without holder) e in
    let d' = subst Distinct e d in
    let short =
      ahead-InOrder x (subst (InOrder s'.requests) left (Steps-InOrder k.steps))
        (Distinct-without holder (holder ∷ rest) d') h in
    omega (
      arith,
      length-InOrder short,
      ahead-without_head x holder rest other d',
      ap (λ rs. length (ahead x rs)) e,
    )

-- Everybody who waits comes nearer with each lock that is given back: from a state within the
-- invariant, while the scheduler is on and the system answers as it is assumed to, when the client at
-- the head of the list sends LOCK_RELEASED, each other client that waits has fewer clients in front
-- of it afterwards, if it waits still.
pub release_advances :
    (w : World) (x holder : ℕ) (call : Attempts Input) (m : Message) (rest : List ℕ) (s : Scheduler)
    → Inv s
    → IsHonest w (readable holder call m) s
    → s.scheduler_on ≡ true
    → s.requests ≡ holder ∷ rest
    → m.type ≡ lock_released
    → (holder == x) ≡ false
    → Ensures
        (λ s'.
          (contains x s'.requests ≡ false)
          ⊎ (length (ahead x s'.requests) < length (ahead x s.requests)))
        (handle_event w (readable holder call m) s)
release_advances w x holder call m rest s v honest on e type other =
    Ensures-map (Hears holder m.type s) _ (handle_event w (readable holder call m) s)
      (handle_event-Takes w (readable holder call m) s v honest)
      λ s' k. elim (Bool-cases (contains x s'.requests)) [
        | inl waits ↦ inr (
            one_nearer x holder rest s s' e on other v.once
              (subst (λ t. Hears holder t s s') type k) waits)
        | inr gone ↦ inl gone
      ]
