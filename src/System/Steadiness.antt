-- ===== src/System/Steadiness.antt =====
-- No grant is lost: src/scheduler.c and src/client.c, as long as nobody turns the scheduler off.
use nvshare.Prelude.{
  true, subst, ap, inl, inr, refl, ℕ, ◌≡◌, refl, ap, List, [], ◌∷◌, ◌==◌, ==_iff, ok, Ensures,
  Ensures-bind, Ensures-map, Ensures-both, arith, Bool-cases, inl, inr,
}
use nvshare.Comm.Messages.{Message, lock_ok}
use nvshare.Scheduler.State.{Scheduler, World}
use nvshare.Scheduler.Clients.{contains}
use nvshare.Scheduler.Schedule.{Timing, timer_step}
use nvshare.Scheduler.Dispatch.{Event, connection, readable, hangup, handle_event}
use nvshare.Scheduler.Invariant.{Inv, IsHonest}
use nvshare.Scheduler.Protocol.{Lock}
use nvshare.Scheduler.Refinement.Moves.{view, Moves}
use nvshare.Scheduler.Refinement.Events.{Takes, handle_event-Takes}
use nvshare.Scheduler.Refinement.Timer.{timer_step-Moves}
use nvshare.System.{
  Node, System, update, act, Happening, connects, hears, loses, wakes, acts, unsent, handled,
  popped, step,
}
use nvshare.System.Keeping.{is_alive, Keeps, act-Keeps}
use nvshare.System.Soundness.{unsent-Inv, IsSound, IsFair, step-IsSound}
use nvshare.System.Balance.{holds, holds-le, told_count}
use nvshare.System.Covered.{IsCovered, deliver-IsCovered, Steps-IsCovered, heard-IsCovered}
use nvshare.System.Admission.{takes-IsCovered}

pub record IsSteady (σ : System) : Type 0 where
  pub sound : IsSound σ
  pub covered : IsCovered σ.nodes (view (unsent σ.timing.sched))

-- One event of the main thread.
handled-IsCovered :
    (w : World) (e : Event) (t : Timing) (nodes : ℕ → Node)
    → Ensures (λ s. IsCovered nodes (view s)) (handle_event w e (unsent t.sched))
    → Ensures (λ σ. IsCovered σ.nodes (view (unsent σ.timing.sched))) (handled w e t nodes)
handled-IsCovered w e t nodes h =
    Ensures-bind (λ s. IsCovered nodes (view s))
      (λ σ. IsCovered σ.nodes (view (unsent σ.timing.sched))) (handle_event w e (unsent t.sched)) _
      h (λ s k. deliver-IsCovered s nodes k)

took :
    (w : World) (e : Event) (s : Scheduler) (nodes : ℕ → Node)
    → Inv s
    → IsHonest w e s
    → ((s' : Scheduler) → Takes e s s' → IsCovered nodes (view s'))
    → Ensures (λ s'. IsCovered nodes (view s')) (handle_event w e s)
took w e s nodes v honest k =
    Ensures-map (Takes e s) (λ s'. IsCovered nodes (view s')) (handle_event w e s)
      (handle_event-Takes w e s v honest) k

acts-IsCovered :
    (fd : ℕ) (n : Node) (nodes : ℕ → Node) (p : Lock)
    → IsCovered nodes p
    → (contains fd p.open_fds ≡ true → Keeps (nodes fd) n)
    → IsCovered (update fd n nodes) p
acts-IsCovered fd n nodes p h k = record {
  on = λ x o. elim (Bool-cases (x == fd)) [
    | inl same ↦ rw same (k (here x same o)).on
    | inr differs ↦ rw differs (h.on x o)
  ];
  covers = λ x o a. elim (Bool-cases (x == fd)) [
    | inl same ↦
        let kept = k (here x same o) in
        let alive : is_alive n.process ≡ true = rw same at a in
        let before = h.covers fd (here x same o) (kept.alive alive) in
        let it : holds x p ≡ holds fd p = ap (λ x. holds x p) ((==_iff x fd).0 same) in
        let told = ap (λ x. told_count lock_ok x p.told) ((==_iff x fd).0 same) in
        rw same (omega (arith, kept.credit_ge alive, before, it, told))
    | inr differs ↦
        let alive : is_alive (nodes x).process ≡ true = rw differs at a in
        rw differs (h.covers x o alive)
  ];
}
  where
    here : (x : ℕ) → (x == fd) ≡ true → contains x p.open_fds ≡ true → contains fd p.open_fds ≡ true
    here x same o = subst (λ x. contains x p.open_fds ≡ true) ((==_iff x fd).0 same) o

step-IsCovered :
    (h : Happening) (σ : System)
    → IsSteady σ
    → IsFair h σ
    → Ensures (λ σ. IsCovered σ.nodes (view (unsent σ.timing.sched))) (step h σ)
unfolding step
step-IsCovered (connects w call added peer) σ h (honest, calm) = handled-IsCovered w _ σ.timing _ (
    took w (connection call added) (unsent σ.timing.sched) _ (unsent-Inv _ h.sound.inv) honest
      (λ s' k.
        takes-IsCovered call peer σ.nodes (unsent σ.timing.sched) s' (unsent-Inv _ h.sound.inv)
          honest.live h.covered k))
step-IsCovered (hears w fd call) σ h honest = go (σ.nodes fd).outbox refl
  where
    go :
        (outbox : List Message)
        → (σ.nodes fd).outbox ≡ outbox
        → Ensures
            (λ σ. IsCovered σ.nodes (view (unsent σ.timing.sched)))
            (elim outbox [
              | [] ↦ ok σ
              | m ∷ rest ↦ handled w (readable fd call m) σ.timing (popped fd rest σ.nodes)
            ])
    go [] e = h.covered
    go (m ∷ rest) e = handled-IsCovered w _ σ.timing _ (
        took w (readable fd call m) (unsent σ.timing.sched) _ (unsent-Inv _ h.sound.inv) (honest m)
          (λ s' k.
            heard-IsCovered fd m rest σ.nodes e (unsent σ.timing.sched) s'
              (unsent-Inv _ h.sound.inv) h.sound.balanced.on h.covered k))
step-IsCovered (loses w fd) σ h honest = handled-IsCovered w _ σ.timing _ (
    took w (hangup fd) (unsent σ.timing.sched) _ (unsent-Inv _ h.sound.inv) honest
      (λ s' k. Steps-IsCovered σ.nodes _ _ k h.covered))
step-IsCovered (wakes w wake) σ h benign =
    Ensures-bind (λ t. Moves (unsent σ.timing.sched) t.sched) _
      (timer_step w wake (record σ.timing { sched = unsent σ.timing.sched })) _
      (timer_step-Moves w wake (record σ.timing { sched = unsent σ.timing.sched })
        (unsent-Inv _ h.sound.inv) benign)
      (λ t k. deliver-IsCovered t.sched σ.nodes (Steps-IsCovered σ.nodes _ _ k h.covered))
step-IsCovered (acts fd a) σ h fair =
    acts-IsCovered fd (act a (σ.nodes fd)) σ.nodes (view (unsent σ.timing.sched)) h.covered (λ o.
      act-Keeps a (σ.nodes fd) (h.sound.quiet fd) (h.covered.on fd o)
        (omega (arith, h.sound.balanced.covered fd o, holds-le fd (view (unsent σ.timing.sched)))))

-- Whatever happens next, in a fair system, the scheduler's invariant is kept, no news is on its way
-- that the scheduler is off, and no grant is doubled or lost: of the clients that are connected, only
-- the one that the lock was given to has the lock, a LOCK_OK on its way to it or a LOCK_RELEASED on
-- its way to the scheduler, and at most one of the three; and it has one, unless its process has
-- exited.
pub step-IsSteady :
    (h : Happening) (σ : System) → IsSteady σ → IsFair h σ → Ensures IsSteady (step h σ)
step-IsSteady h σ v fair =
    Ensures-map (λ σ. IsSound σ × IsCovered σ.nodes (view (unsent σ.timing.sched))) IsSteady
      (step h σ)
      (Ensures-both IsSound (λ σ. IsCovered σ.nodes (view (unsent σ.timing.sched))) (step h σ)
        (step-IsSound h σ v.sound fair) (step-IsCovered h σ v fair))
      (λ σ k. record { sound = k.0; covered = k.1 })
