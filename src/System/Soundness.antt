-- ===== src/System/Soundness.antt =====
-- The grants of the whole system and the scheduler's lock: src/scheduler.c and src/client.c.
use nvshare.Prelude.{
  ℕ, ◌+◌, ◌≤◌, ◌≡◌, refl, ap, ◌∙◌, List, [], ◌∷◌, ◌++◌, ◌==◌, ==_iff, if◌then◌else◌, ok, Ensures,
  Ensures-bind, Ensures-map, Ensures-both, arith, Bool-cases, inl, inr,
}
use nvshare.Comm.Sockets.{nvshare_accept}
use nvshare.Comm.Messages.{Message, MessageType, sched_off, lock_ok, lock_released}
use nvshare.Scheduler.State.{Scheduler, World}
use nvshare.Scheduler.Schedule.{Timing, timer_step}
use nvshare.Scheduler.Dispatch.{Event, connection, readable, hangup, handle_event}
use nvshare.Scheduler.Invariant.{
  Inv, IsBenign, IsHonest, Handled, handle_event-Handled, Woken, timer_step-Woken,
}
use nvshare.Scheduler.Refinement.Moves.{view, Moves}
use nvshare.Scheduler.Refinement.Handlers.{Hears}
use nvshare.Scheduler.Refinement.Events.{Takes, handle_event-Takes}
use nvshare.Scheduler.Refinement.Timer.{timer_step-Moves}
use nvshare.Client.Invariant.{one_if}
use nvshare.System.{
  Node, System, update, arrivals, deliver, act, Happening, connects, hears, loses, wakes, acts,
  unsent, handled, popped, step,
}
use nvshare.System.Joining.{IsCalm, connected-IsQuiet, takes-Balanced}
use nvshare.System.Balance.{told_count, Balanced, Steps-Balanced, Heard-Balanced}
use nvshare.System.Credit.{count, count-append, count-arrivals, credit, IsQuiet}
use nvshare.System.Lessening.{Lessens, act-Lessens}

-- The lock of the scheduler covers the grants of every client; nobody was told, and nobody says, that
-- the scheduler is off.
pub record IsSound (σ : System) : Type 0 where
  pub inv : Inv σ.timing.sched
  pub balanced : Balanced (λ fd. credit (σ.nodes fd)) (view (unsent σ.timing.sched))
  pub quiet : (fd : ℕ) → IsQuiet (σ.nodes fd)

-- What is assumed of the system that the programs run on.
abbrev pub IsFair : Happening → System → Type 0
IsFair (connects w call added peer) σ =
    IsHonest w (connection call added) (unsent σ.timing.sched) × IsCalm peer
IsFair (hears w fd call) σ = (m : Message) → IsHonest w (readable fd call m) (unsent σ.timing.sched)
IsFair (loses w fd) σ = IsHonest w (hangup fd) (unsent σ.timing.sched)
IsFair (wakes w wake) σ = IsBenign w (unsent σ.timing.sched)
IsFair (acts fd a) σ = Unit {0}

pub unsent-Inv : (s : Scheduler) → Inv s → Inv (unsent s)
unsent-Inv s v = record {
  core = record {
    holder = v.holder;
    queued = v.queued;
    once = v.once;
    fds = v.fds;
    clean = v.clean;
  };
  off = v.off;
}

-- What the scheduler has sent counts for its receivers from now on.
delivered :
    (t : Timing) (nodes : ℕ → Node)
    → Inv t.sched
    → Balanced (λ fd. credit (nodes fd)) (view t.sched)
    → ((fd : ℕ) → IsQuiet (nodes fd))
    → IsSound (record { timing = t; nodes = deliver t.sched.sent nodes })
delivered t nodes v b q = record {
  inv = v;
  balanced = record {
    on = b.on;
    covered = λ fd o. omega (arith, b.covered fd o, granted lock_ok fd);
    calm = λ fd. refl;
  };
  quiet = λ fd. record {
    inbox = omega (arith, granted sched_off fd, (q fd).inbox, b.calm fd);
    outbox = (q fd).outbox;
  };
}
  where
    granted :
        (k : MessageType) (fd : ℕ)
        → count k ((nodes fd).inbox ++ arrivals fd t.sched.sent)
          ≡ count k (nodes fd).inbox + told_count k fd t.sched.sent
    granted k fd =
        count-append k (nodes fd).inbox (arrivals fd t.sched.sent)
        ∙ ap (λ n. count k (nodes fd).inbox + n) (count-arrivals k fd t.sched.sent)

-- A turn of one client.
acts-IsSound :
    (fd : ℕ) (n : Node) (σ : System)
    → IsSound σ
    → Lessens (σ.nodes fd) n
    → IsSound (record σ { nodes = update fd n σ.nodes })
acts-IsSound fd n σ h k = record {
  inv = h.inv;
  balanced = record {
    on = h.balanced.on;
    covered = λ x o. elim (Bool-cases (x == fd)) [
      | inl same ↦
          let e : credit (σ.nodes x) ≡ credit (σ.nodes fd) =
            ap (λ x. credit (σ.nodes x)) ((==_iff x fd).0 same) in
          rw same (omega (arith, e, k.credit_le, h.balanced.covered x o))
      | inr differs ↦ rw differs (h.balanced.covered x o)
    ];
    calm = h.balanced.calm;
  };
  quiet = λ x. elim (Bool-cases (x == fd)) [
    | inl same ↦ rw same k.quiet
    | inr differs ↦ rw differs (h.quiet x)
  ];
}

-- One event of the main thread keeps its own invariant and follows the protocol.
both :
    (w : World) (e : Event) (s : Scheduler) (c : ℕ → ℕ)
    → Inv s
    → IsHonest w e s
    → ((s' : Scheduler) → Takes e s s' → Balanced c (view s'))
    → Ensures (λ s'. Inv s' × Balanced c (view s')) (handle_event w e s)
both w e s c v honest k =
    Ensures-map (λ s'. Handled e s s' × Takes e s s') (λ s'. Inv s' × Balanced c (view s'))
      (handle_event w e s)
      (Ensures-both (Handled e s) (Takes e s) (handle_event w e s)
        (handle_event-Handled w e s v honest) (handle_event-Takes w e s v honest))
      (λ s' r. (r.0.0, k s' r.1))

-- One event of the main thread.
handled-IsSound :
    (w : World) (e : Event) (t : Timing) (nodes : ℕ → Node)
    → ((fd : ℕ) → IsQuiet (nodes fd))
    → Ensures
        (λ s. Inv s × Balanced (λ fd. credit (nodes fd)) (view s))
        (handle_event w e (unsent t.sched))
    → Ensures IsSound (handled w e t nodes)
handled-IsSound w e t nodes q h =
    Ensures-bind (λ s. Inv s × Balanced (λ fd. credit (nodes fd)) (view s)) IsSound
      (handle_event w e (unsent t.sched)) _ h
      (λ s k. delivered (record t { sched = s }) nodes k.0 k.1 q)

-- The message that is heard next has left its sender's outbox.
module _ (fd : ℕ) (m : Message) (rest : List Message) (nodes : ℕ → Node)
    (e : (nodes fd).outbox ≡ m ∷ rest) (q : (x : ℕ) → IsQuiet (nodes x)) where
  popped-credit :
      (x : ℕ)
      → credit (popped fd rest nodes x) + (if x == fd then one_if lock_released m.type else 0)
        ≤ credit (nodes x)
  popped-credit x = elim (Bool-cases (x == fd)) [
    | inl same ↦
        let here : credit (nodes x) ≡ credit (nodes fd) =
          ap (λ x. credit (nodes x)) ((==_iff x fd).0 same) in
        rw same (omega (arith, here, ap (count lock_released) e))
    | inr differs ↦ rw differs (omega arith)
  ]

  popped-IsQuiet : (x : ℕ) → IsQuiet (popped fd rest nodes x)
  popped-IsQuiet x = elim (Bool-cases (x == fd)) [
    | inl same ↦ rw same (record {
      inbox = (q fd).inbox;
      outbox = omega (arith, ap (count sched_off) e, (q fd).outbox);
    })
    | inr differs ↦ rw differs (q x)
  ]

  heard-Balanced :
      (s s' : Scheduler)
      → Balanced (λ x. credit (nodes x)) (view s)
      → Hears fd m.type s s'
      → Balanced (λ x. credit (popped fd rest nodes x)) (view s')
  heard-Balanced s s' b k = Steps-Balanced _ k.steps (
      Heard-Balanced fd _ _ k.effect (omega (arith, ap (count sched_off) e, (q fd).outbox))
        popped-credit b)

-- Whatever happens next, in a fair system, the scheduler's invariant is kept, and its lock goes on to
-- account for the grants: of the clients whose connection is open, only the one that the lock was
-- given to uses it, has a LOCK_OK on its way or has a LOCK_RELEASED on its way, and has one of the
-- three at most. Nor is news on its way that the scheduler is off.
pub step-IsSound :
    (h : Happening) (σ : System) → IsSound σ → IsFair h σ → Ensures IsSound (step h σ)
unfolding step
step-IsSound (connects w call added peer) σ h (honest, calm) =
    handled-IsSound w _ σ.timing _
      (λ fd. connected-IsQuiet (nvshare_accept call) peer σ.nodes fd calm (h.quiet fd))
      (both w (connection call added) (unsent σ.timing.sched) _ (unsent-Inv _ h.inv) honest
        (λ s' k. takes-Balanced call peer σ.nodes σ.timing.sched s' h.balanced k))
step-IsSound (hears w fd call) σ h honest = go (σ.nodes fd).outbox refl
  where
    go :
        (outbox : List Message)
        → (σ.nodes fd).outbox ≡ outbox
        → Ensures IsSound (elim outbox [
          | [] ↦ ok σ
          | m ∷ rest ↦ handled w (readable fd call m) σ.timing (popped fd rest σ.nodes)
        ])
    go [] e = h
    go (m ∷ rest) e = handled-IsSound w _ σ.timing _ (popped-IsQuiet fd m rest σ.nodes e h.quiet) (
        both w (readable fd call m) (unsent σ.timing.sched) _ (unsent-Inv _ h.inv) (honest m)
          (λ s' k.
            heard-Balanced fd m rest σ.nodes e h.quiet (unsent σ.timing.sched) s' h.balanced k))
step-IsSound (loses w fd) σ h honest = handled-IsSound w _ σ.timing _ h.quiet (
    both w (hangup fd) (unsent σ.timing.sched) _ (unsent-Inv _ h.inv) honest
      (λ s' k. Steps-Balanced _ k h.balanced))
step-IsSound (wakes w wake) σ h benign =
    Ensures-bind (λ t. Woken s t × Moves s t.sched) IsSound (timer_step w wake t) _
      (Ensures-both (Woken s) (λ t. Moves s t.sched) (timer_step w wake t)
        (timer_step-Woken w wake t (unsent-Inv _ h.inv) benign)
        (timer_step-Moves w wake t (unsent-Inv _ h.inv) benign))
      (λ t k. delivered t σ.nodes k.0.0 (Steps-Balanced _ k.1 h.balanced) h.quiet)
  where
    s : Scheduler
    s = unsent σ.timing.sched

    t : Timing
    t = record σ.timing { sched = unsent σ.timing.sched }
step-IsSound (acts fd a) σ h fair =
    acts-IsSound fd (act a (σ.nodes fd)) σ h (act-Lessens a (σ.nodes fd) (h.quiet fd))
