-- ===== src/System/Waiting.antt =====
-- Whenever clients wait, one of them has been granted the lock: src/scheduler.c with its clients, as
-- long as nobody turns the scheduler off and no client registers twice.
use nvshare.Prelude.{
  ==_iff, ℕ, ◌≡◌, ◌≢◌, refl, subst, sym, true, List, [], ◌∷◌, ok, Ensures, Ensures-bind,
}
use nvshare.Comm.Messages.{Message}
use nvshare.Scheduler.State.{World, init}
use nvshare.Scheduler.Clients.{is_head}
use nvshare.Scheduler.Schedule.{Timing, restart, timer_step}
use nvshare.Scheduler.Dispatch.{Event, readable, handle_event}
use nvshare.Scheduler.Invariant.{
  Inv, IsBusy, IsFirst, IsHonest, Handled, handle_event-Handled, Woken, timer_step-Woken,
}
use nvshare.System.{
  Node, System, Happening, connects, hears, loses, wakes, acts, unsent, handled, popped, step,
  start,
}
use nvshare.System.Credit.{credit}
use nvshare.System.Keeping.{is_alive}
use nvshare.System.Soundness.{IsSound, IsFair, unsent-Inv}
use nvshare.System.Exclusion.{Reach, begin, next, Reach-IsSound, grant_kept}

-- The message that is heard is no REGISTER of a client that has registered before.
abbrev pub IsOrderly : Happening → System → Type 0
IsOrderly (hears w fd call) σ = elim (σ.nodes fd).outbox [
  | [] ↦ Unit {0}
  | m ∷ rest ↦ IsFirst (readable fd call m) (unsent σ.timing.sched)
]
IsOrderly _ σ = Unit {0}

-- The run that leads to a state is orderly.
unfoldable pub IsOrderlyRun : {σ : System} → Reach σ → Type 0
IsOrderlyRun begin = Unit {0}
IsOrderlyRun (next {σ} h r fair σ' e) = IsOrderlyRun r × IsOrderly h σ

handled-IsBusy :
    (w : World) (e : Event) (t : Timing) (nodes : ℕ → Node)
    → Inv t.sched
    → IsHonest w e (unsent t.sched)
    → IsFirst e (unsent t.sched)
    → IsBusy t.sched
    → Ensures (λ σ. IsBusy σ.timing.sched) (handled w e t nodes)
handled-IsBusy w e t nodes v honest first busy =
    Ensures-bind (Handled e (unsent t.sched)) (λ σ. IsBusy σ.timing.sched)
      (handle_event w e (unsent t.sched)) _
      (handle_event-Handled w e (unsent t.sched) (unsent-Inv t.sched v) honest)
      (λ s k. k.1 first busy)

step-IsBusy :
    (h : Happening) (σ : System)
    → IsSound σ
    → IsFair h σ
    → IsOrderly h σ
    → IsBusy σ.timing.sched
    → Ensures (λ σ. IsBusy σ.timing.sched) (step h σ)
unfolding step
step-IsBusy (connects w call added peer) σ v (honest, calm) orderly busy =
    handled-IsBusy w _ σ.timing _ v.inv honest tt busy
step-IsBusy (hears w fd call) σ v honest orderly busy = go (σ.nodes fd).outbox orderly
  where
    go :
        (outbox : List Message)
        → elim outbox as (λ _. Type 0) [
          | [] ↦ Unit {0}
          | m ∷ rest ↦ IsFirst (readable fd call m) (unsent σ.timing.sched)
        ]
        → Ensures
            (λ σ. IsBusy σ.timing.sched)
            (elim outbox [
              | [] ↦ ok σ
              | m ∷ rest ↦ handled w (readable fd call m) σ.timing (popped fd rest σ.nodes)
            ])
    go [] o = busy
    go (m ∷ rest) o = handled-IsBusy w _ σ.timing _ v.inv (honest m) o busy
step-IsBusy (loses w fd) σ v honest orderly busy =
    handled-IsBusy w _ σ.timing _ v.inv honest tt busy
step-IsBusy (wakes w wake) σ v benign orderly busy =
    Ensures-bind (Woken (unsent σ.timing.sched)) (λ σ. IsBusy σ.timing.sched)
      (timer_step w wake (record σ.timing { sched = unsent σ.timing.sched })) _
      (timer_step-Woken w wake (record σ.timing { sched = unsent σ.timing.sched })
        (unsent-Inv σ.timing.sched v.inv) benign)
      (λ t k. k.1 busy)
step-IsBusy (acts fd a) σ v fair orderly busy = busy

Reach-IsBusy : {σ : System} (r : Reach σ) → IsOrderlyRun r → IsBusy σ.timing.sched
unfolding IsOrderlyRun start restart init
Reach-IsBusy begin orderly = λ on waits. absurd (waits refl)
Reach-IsBusy (next {σ} h r fair σ' e) orderly =
    subst (Ensures (λ σ. IsBusy σ.timing.sched)) e
      (step-IsBusy h σ (Reach-IsSound r) fair orderly.1 (Reach-IsBusy r orderly.0))

-- In every state that a fair system reaches while nobody turns the scheduler off and no client
-- registers twice, if clients wait, the first of them, unless its process has exited, has the lock,
-- has a LOCK_OK on its way to it, or has a LOCK_RELEASED on its way to the scheduler, and only one of
-- these.
pub waiting_granted :
    {σ : System} (fd : ℕ) (rest : List ℕ) (r : Reach σ)
    → IsOrderlyRun r
    → σ.timing.sched.requests ≡ fd ∷ rest
    → is_alive (σ.nodes fd).process ≡ true
    → credit (σ.nodes fd) ≡ 1
waiting_granted {σ} fd rest r orderly e alive = grant_kept fd r (held, head) alive
  where
    some_wait : σ.timing.sched.requests ≢ []
    some_wait none_waits = cc

    held : σ.timing.sched.lock_held ≡ true
    held = Reach-IsBusy r orderly (Reach-IsSound r).balanced.on some_wait

    head : is_head fd σ.timing.sched.requests ≡ true
    head = subst (λ rs. is_head fd rs ≡ true) (sym e) ((==_iff fd fd).1 refl)
