-- ===== src/System/Balance.antt =====
-- The grants that are on their way or in use are accounted for by the scheduler's lock.
use nvshare.Prelude.{
  ℕ, ◌+◌, ◌≤◌, ◌≡◌, refl, sym, ap, subst, ◌∙◌, Bool, true, false, ◌&&◌, List, [], ◌∷◌, ◌++◌, ◌==◌,
  if◌then◌else◌, arith, Bool-cases, inl, inr,
}
use nvshare.Comm.Messages.{
  Message, MessageType, register, sched_on, sched_off, req_lock, lock_ok, drop_lock, lock_released,
  set_tq, other,
}
use nvshare.Scheduler.State.{Sent}
use nvshare.Scheduler.Clients.{contains, without, is_head}
use nvshare.Scheduler.Lists.{contains-without}
use nvshare.Scheduler.Protocol.{
  Lock, tells, quits, is_status, Step, grant, ask_back, inform, close, empty, Steps, done, more,
  Heard, ignored, expels, asks, gives_back, turns_on, turns_off,
}
use nvshare.Client.Invariant.{one_if}

-- How many messages of a kind were sent to a client.
abbrev pub told_count : MessageType → ℕ → List Sent → ℕ
told_count t fd [] = 0
told_count t fd (m ∷ told) =
    (if m.to == fd then one_if t m.message.type else 0) + told_count t fd told

-- One for the client that has the lock.
abbrev pub holds : ℕ → Lock → ℕ
holds fd p = if p.held && is_head fd p.queue then 1 else 0

-- `credit` are the grants that each client uses, has to receive, or has given back without the
-- scheduler's having heard of it.
pub record Balanced (credit : ℕ → ℕ) (p : Lock) : Type 0 where
  pub on : p.on ≡ true
  pub covered :
      (fd : ℕ)
      → contains fd p.open_fds ≡ true
      → credit fd + told_count lock_ok fd p.told ≤ holds fd p
  pub calm : (fd : ℕ) → told_count sched_off fd p.told ≡ 0

pub holds-le : (fd : ℕ) (p : Lock) → holds fd p ≤ 1
holds-le fd p = ground arith

quits-holds :
    (x fd : ℕ) (held : Bool) (queue : List ℕ)
    → (x == fd) ≡ false
    → (if held && is_head x queue then 1 else 0) ≤ (
        if (if is_head fd queue then false else held) && is_head x (without fd queue) then 1 else 0)
unfolding without
quits-holds x fd held [] h = ground arith
quits-holds x fd held (r ∷ rs) h = ground arith

asks-holds :
    (x fd : ℕ) (held : Bool) (queue : List ℕ)
    → (if held && is_head x queue then 1 else 0)
      ≤ (if held && is_head x (queue ++ fd ∷ []) then 1 else 0)
asks-holds x fd held [] = ground arith
asks-holds x fd held (r ∷ rs) = ground arith

-- A message of another kind does not count.
told_count-tells :
    (t : MessageType) (x fd : ℕ) (m : Message) (p : Lock)
    → one_if t m.type ≡ 0
    → told_count t x (tells fd m p).told ≡ told_count t x p.told
told_count-tells t x fd m p e = elim (Bool-cases (fd == x)) [
  | inl same ↦ rw (same, e) (omega arith)
  | inr differs ↦ rw differs (omega arith)
]

status_kinds :
    (t : MessageType) → is_status true t ≡ true → (one_if lock_ok t ≡ 0) × (one_if sched_off t ≡ 0)
status_kinds sched_on e = (refl, refl)
status_kinds sched_off e = cc
status_kinds register e = cc
status_kinds req_lock e = cc
status_kinds lock_ok e = cc
status_kinds drop_lock e = cc
status_kinds lock_released e = cc
status_kinds set_tq e = cc
status_kinds (other n) e = cc

-- The lock was free, so nobody had a grant.
grant-covered :
    (c : ℕ → ℕ) (p : Lock) (fd : ℕ) (rest : List ℕ) (m : Message)
    → p.queue ≡ fd ∷ rest
    → p.held ≡ false
    → m.type ≡ lock_ok
    → (x : ℕ) → c x + told_count lock_ok x p.told ≤ holds x p
    → c x + told_count lock_ok x (tells fd m p).told
      ≤ holds x (record (tells fd m p) { held = true })
grant-covered c p fd rest m q free t x h =
    let zero_before : c x + told_count lock_ok x p.told ≤ 0 = rw free at h in
    let one : one_if lock_ok m.type ≡ 1 = ap (one_if lock_ok) t in
    elim (Bool-cases (fd == x)) [
      | inl same ↦ rw (q, same, one) (omega (arith, zero_before))
      | inr differs ↦ rw (q, differs) (omega (arith, zero_before))
    ]

tells-Balanced :
    (c : ℕ → ℕ) (fd : ℕ) (m : Message) (p : Lock)
    → one_if lock_ok m.type ≡ 0
    → one_if sched_off m.type ≡ 0
    → Balanced c p
    → Balanced c (tells fd m p)
tells-Balanced c fd m p ok off b = record {
  on = b.on;
  covered = λ x o. omega (arith, told_count-tells lock_ok x fd m p ok, b.covered x o);
  calm = λ x. told_count-tells sched_off x fd m p off ∙ b.calm x;
}

-- A client that quits is open no more, or has no grant.
close-covered :
    (c : ℕ → ℕ) (p : Lock) (fd x : ℕ)
    → ((x : ℕ) → contains x p.open_fds ≡ true → c x + told_count lock_ok x p.told ≤ holds x p)
    → contains x (without fd p.open_fds) ≡ true
    → c x + told_count lock_ok x p.told ≤ holds x (quits fd p)
close-covered c p fd x b o = elim (Bool-cases (x == fd)) [
  | inl same ↦ cc (
      sym o
      ∙ contains-without x fd p.open_fds
      ∙ ap (λ b. if b then false else contains x p.open_fds) same)
  | inr differs ↦
      let still : contains x p.open_fds ≡ true = ground (arith, contains-without x fd p.open_fds) in
      omega (arith, b x still, quits-holds x fd p.held p.queue differs)
]

pub Step-Balanced : {p q : Lock} (c : ℕ → ℕ) → Step p q → Balanced c p → Balanced c q
Step-Balanced {p} c (grant fd rest m q free t) b = record {
  on = b.on;
  covered = λ x o. grant-covered c p fd rest m q free t x (b.covered x o);
  calm = λ x. told_count-tells sched_off x fd m p (ap (one_if sched_off) t) ∙ b.calm x;
}
Step-Balanced {p} c (ask_back fd rest m q held t) b =
    tells-Balanced c fd m p (ap (one_if lock_ok) t) (ap (one_if sched_off) t) b
Step-Balanced {p} c (inform fd m t) b =
    let k = status_kinds m.type (subst (λ on. is_status on m.type ≡ true) b.on t) in
    tells-Balanced c fd m p k.0 k.1 b
Step-Balanced {p} c (close fd) b = record {
  on = b.on;
  covered = λ x. close-covered c p fd x b.covered;
  calm = b.calm;
}
Step-Balanced c (empty off) b = absurd (on_off b.on off)
  where
    on_off : {on : Bool} → on ≡ true → on ≡ false → ⊥
    on_off e f = cc

pub Steps-Balanced : {p q : Lock} (c : ℕ → ℕ) → Steps p q → Balanced c p → Balanced c q
Steps-Balanced c done b = b
Steps-Balanced c (more s k) b = Steps-Balanced c k (Step-Balanced c s b)

back-covered :
    (c c' : ℕ → ℕ) (p : Lock) (fd x : ℕ)
    → c' x + (if x == fd then 1 else 0) ≤ c x
    → c x + told_count lock_ok x p.told ≤ holds x p
    → c' x + told_count lock_ok x p.told ≤ holds x (quits fd p)
back-covered c c' p fd x less h = elim (Bool-cases (x == fd)) [
  | inl same ↦ let spent : c' x + 1 ≤ c x = rw same at less in omega (arith, spent, h, holds-le x p)
  | inr differs ↦
      let kept : c' x + 0 ≤ c x = rw differs at less in
      omega (arith, kept, h, quits-holds x fd p.held p.queue differs)
]

-- What is heard is spent: a lock that is given back counts no more.
pub Heard-Balanced :
    (fd : ℕ) {p q : Lock} {t : MessageType} (c c' : ℕ → ℕ)
    → Heard fd p t q
    → one_if sched_off t ≡ 0
    → ((x : ℕ) → c' x + (if x == fd then one_if lock_released t else 0) ≤ c x)
    → Balanced c p
    → Balanced c' q
Heard-Balanced fd c c' (ignored t late) calm less b = record {
  on = b.on;
  covered = λ x o. omega (arith, less x, b.covered x o);
  calm = b.calm;
}
Heard-Balanced fd {p} c c' (expels t) calm less b = record {
  on = b.on;
  covered = λ x. close-covered c' p fd x (λ x o. omega (arith, less x, b.covered x o));
  calm = b.calm;
}
Heard-Balanced fd {p} c c' (asks on new) calm less b = record {
  on = b.on;
  covered = λ x o. omega (arith, less x, b.covered x o, asks-holds x fd p.held p.queue);
  calm = b.calm;
}
Heard-Balanced fd {p} c c' (gives_back on) calm less b = record {
  on = b.on;
  covered = λ x o. back-covered c c' p fd x (less x) (b.covered x o);
  calm = b.calm;
}
Heard-Balanced fd c c' turns_on calm less b = record {
  on = refl;
  covered = λ x o. omega (arith, less x, b.covered x o);
  calm = b.calm;
}
Heard-Balanced fd c c' turns_off calm less b = absurd (omega (arith, calm))
