-- ===== src/System/Exclusion.antt =====
-- At most one client has the lock, and no grant is lost, as long as nobody turns the scheduler off.
use nvshare.Prelude.{
  All, ==_iff, ℕ, ◌≤◌, ◌≡◌, refl, subst, true, ◌&&◌, List, [], ◌∷◌, if◌then◌else◌, ok, Ensures,
  arith,
}
use nvshare.Scheduler.Clients.{is_head}
use nvshare.Scheduler.State.{Client, Scheduler, init}
use nvshare.Scheduler.Schedule.{restart}
use nvshare.Scheduler.Invariant.{IsOpen, IsRegistered, IsRegistered-IsOpen, init-Inv}
use nvshare.System.{System, Happening, unsent, step, start}
use nvshare.System.Credit.{credit}
use nvshare.Scheduler.Refinement.Moves.{view}
use nvshare.System.Balance.{holds}
use nvshare.System.Keeping.{is_alive}
use nvshare.System.Steadiness.{IsSteady, step-IsSteady}
use nvshare.System.Soundness.{IsSound, IsFair, step-IsSound}

-- The states of a system that has been fair since its start.
pub data Reach : System → Type 0 where
  begin : Reach start
  next :
      {σ : System} (h : Happening)
      → Reach σ
      → IsFair h σ
      → (σ' : System) → step h σ ≡ ok σ'
      → Reach σ'

pub start-IsSound : IsSound start
unfolding start restart init
start-IsSound = record {
  inv = record {
    core = record {
      holder = init-Inv.holder;
      queued = init-Inv.queued;
      once = init-Inv.once;
      fds = init-Inv.fds;
      clean = init-Inv.clean;
    };
    off = init-Inv.off;
  };
  balanced = record { on = refl; covered = λ fd o. omega arith; calm = λ fd. refl };
  quiet = λ fd. record { inbox = refl; outbox = refl };
}

pub Reach-IsSound : {σ : System} → Reach σ → IsSound σ
Reach-IsSound begin = start-IsSound
Reach-IsSound (next {σ} h r fair σ' e) =
    subst (Ensures IsSound) e (step-IsSound h σ (Reach-IsSound r) fair)

-- The scheduler has given its lock to the client.
abbrev pub IsGiven : ℕ → Scheduler → Type 0
IsGiven fd s = (s.lock_held ≡ true) × (is_head fd s.requests ≡ true)

given :
    (fd : ℕ) (s : Scheduler)
    → 1 ≤ (if s.lock_held && is_head fd s.requests then 1 else 0)
    → IsGiven fd s
given fd s h = ground arith

one_head : (a b : ℕ) (queue : List ℕ) → is_head a queue ≡ true → is_head b queue ≡ true → a ≡ b
one_head a b [] h k = cc
one_head a b (r ∷ rs) h k = ground arith

-- In every state that a fair system reaches while nobody turns the scheduler off, a client whose
-- connection is open, and which uses the GPU lock, has a LOCK_OK on its way to it, or has a
-- LOCK_RELEASED on its way to the scheduler, is the one that the scheduler has given the lock to. So
-- there is at most one such client.
pub exclusion :
    {σ : System} (fd fd' : ℕ)
    → Reach σ
    → IsOpen σ.timing.sched.clients fd
    → IsOpen σ.timing.sched.clients fd'
    → 1 ≤ credit (σ.nodes fd)
    → 1 ≤ credit (σ.nodes fd')
    → IsGiven fd σ.timing.sched × (fd ≡ fd')
exclusion {σ} fd fd' r o o' h h' =
    let s = σ.timing.sched in
    let b = (Reach-IsSound r).balanced in
    let g = given fd s (omega (arith, b.covered fd o, h)) in
    let g' = given fd' s (omega (arith, b.covered fd' o', h')) in
    (g, one_head fd fd' s.requests g.1 g'.1)

pub start-IsSteady : IsSteady start
unfolding start restart init
start-IsSteady = record {
  sound = start-IsSound;
  covered = record { on = λ fd o. tt; covers = λ fd o a. omega arith };
}

Reach-IsSteady : {σ : System} → Reach σ → IsSteady σ
Reach-IsSteady begin = start-IsSteady
Reach-IsSteady (next {σ} h r fair σ' e) =
    subst (Ensures IsSteady) e (step-IsSteady h σ (Reach-IsSteady r) fair)

head-IsOpen :
    (fd : ℕ) (queue : List ℕ) (clients : List Client)
    → All (IsRegistered clients) queue
    → is_head fd queue ≡ true
    → IsOpen clients fd
head-IsOpen fd [] clients q h = cc
head-IsOpen fd (r ∷ rs) clients q h =
    subst (IsOpen clients) ((==_iff r fd).0 h) (IsRegistered-IsOpen clients r q.0)

-- In every state that a fair system reaches while nobody turns the scheduler off, the client that the
-- scheduler has given the lock to, if its process has not exited, has the lock, has a LOCK_OK on its
-- way to it, or has a LOCK_RELEASED on its way to the scheduler, and only one of these: a grant is
-- neither lost nor doubled.
pub grant_kept :
    {σ : System} (fd : ℕ)
    → Reach σ
    → IsGiven fd σ.timing.sched
    → is_alive (σ.nodes fd).process ≡ true
    → credit (σ.nodes fd) ≡ 1
grant_kept {σ} fd r (held, head) alive =
    let s = σ.timing.sched in
    let v = Reach-IsSteady r in
    let o = head-IsOpen fd s.requests s.clients v.sound.inv.queued head in
    let one : holds fd (view (unsent s)) ≡ 1 = rw (held, head) refl in
    omega (arith, v.covered.covers fd o alive, v.sound.balanced.covered fd o, one)
