-- ===== src/System/Covering.antt =====
-- The scheduler's lock is accounted for by the client that it was given to: no grant is lost.
use nvshare.Prelude.{
  ℕ, ◌+◌, ◌≤◌, ◌≡◌, ◌≢◌, refl, sym, ap, subst, Bool, true, false, ◌&&◌, List, [], ◌∷◌, ◌++◌, ◌==◌,
  ==_iff, if◌then◌else◌, arith, Bool-cases, inl, inr,
}
use nvshare.Comm.Messages.{
  Message, MessageType, lock_ok, lock_released, register, sched_on, sched_off, req_lock, drop_lock,
  set_tq, other,
}
use nvshare.Scheduler.Clients.{contains, without, is_head}
use nvshare.Scheduler.Lists.{still_open}
use nvshare.Scheduler.Protocol.{
  Lock, tells, quits, Step, grant, ask_back, inform, close, empty, Steps, done, more, Heard,
  ignored, expels, asks, gives_back, turns_on, turns_off,
}
use nvshare.Client.Invariant.{one_if}
use nvshare.System.Balance.{told_count, holds}

-- Whoever the lock was given to, is `alive` and still connected has the lock, a LOCK_OK to read, or
-- given the lock back.
abbrev pub Covers : (ℕ → Bool) → (ℕ → ℕ) → Lock → Type 0
Covers alive credit p =
    (fd : ℕ)
    → contains fd p.open_fds ≡ true
    → alive fd ≡ true
    → holds fd p ≤ credit fd + told_count lock_ok fd p.told

tells-le :
    (x fd : ℕ) (m : Message) (p : Lock)
    → told_count lock_ok x p.told ≤ told_count lock_ok x (tells fd m p).told
tells-le x fd m p = omega arith

grant-le :
    (c : ℕ → ℕ) (p : Lock) (fd : ℕ) (rest : List ℕ) (m : Message) (x : ℕ)
    → p.queue ≡ fd ∷ rest
    → m.type ≡ lock_ok
    → holds x (record (tells fd m p) { held = true })
      ≤ c x + told_count lock_ok x (tells fd m p).told
grant-le c p fd rest m x q t =
    let one : one_if lock_ok m.type ≡ 1 = ap (one_if lock_ok) t in
    elim (Bool-cases (fd == x)) [
      | inl same ↦ rw (q, same, one) (omega arith)
      | inr differs ↦ rw (q, differs) (omega arith)
    ]

-- A client that is not the one that quits holds the lock only if it held it before.
quits-le :
    (x fd : ℕ) (held : Bool) (queue : List ℕ)
    → (if (if is_head fd queue then false else held) && is_head x (without fd queue) then 1 else 0)
      ≤ (if held && is_head x queue then 1 else 0)
unfolding without
quits-le x fd held [] = ground arith
quits-le x fd held (r ∷ rs) = ground arith

is_head-without : (fd : ℕ) (queue : List ℕ) → is_head fd (without fd queue) ≡ false
unfolding without
is_head-without fd [] = refl
is_head-without fd (r ∷ rs) = ground (arith, is_head-without fd rs)

quits-none : (x fd : ℕ) (p : Lock) → (x == fd) ≡ true → holds x (quits fd p) ≡ 0
quits-none x fd p same =
    subst (λ x. holds x (quits fd p) ≡ 0) (sym ((==_iff x fd).0 same))
      (ground (arith, is_head-without fd p.queue))

pub Step-Covers :
    {p q : Lock} (alive : ℕ → Bool) (c : ℕ → ℕ) → Step p q → Covers alive c p → Covers alive c q
Step-Covers {p} alive c (grant fd rest m q free t) h x o a = grant-le c p fd rest m x q t
Step-Covers {p} alive c (ask_back fd rest m q held t) h x o a =
    omega (arith, h x o a, tells-le x fd m p)
Step-Covers {p} alive c (inform fd m t) h x o a = omega (arith, h x o a, tells-le x fd m p)
Step-Covers {p} alive c (close fd) h x o a =
    omega (arith, h x (still_open x fd p.open_fds o) a, quits-le x fd p.held p.queue)
Step-Covers {p} alive c (empty off) h x o a = omega arith

pub Steps-Covers :
    {p q : Lock} (alive : ℕ → Bool) (c : ℕ → ℕ) → Steps p q → Covers alive c p → Covers alive c q
Steps-Covers alive c done h = h
Steps-Covers alive c (more s k) h = Steps-Covers alive c k (Step-Covers alive c s h)

asks-le :
    (x fd : ℕ) (held : Bool) (queue : List ℕ)
    → (held ≡ true → queue ≢ [])
    → (if held && is_head x (queue ++ fd ∷ []) then 1 else 0)
      ≤ (if held && is_head x queue then 1 else 0)
asks-le x fd true [] busy = absurd (busy refl refl)
asks-le x fd false [] busy = omega arith
asks-le x fd held (r ∷ rs) busy = omega arith

unspent :
    (x fd : ℕ) (t : MessageType) (a b : ℕ)
    → one_if lock_released t ≡ 0
    → a ≤ b + (if x == fd then one_if lock_released t else 0)
    → a ≤ b
unspent x fd t a b e h = ground (arith, e)

no_release :
    (on : Bool) (t : MessageType)
    → (t ≡ lock_released → on ≡ false)
    → on ≡ true
    → one_if lock_released t ≡ 0
no_release on lock_released late e = absurd (on_off e (late refl))
  where
    on_off : {on : Bool} → on ≡ true → on ≡ false → ⊥
    on_off e f = cc
no_release on sched_on late e = refl
no_release on sched_off late e = refl
no_release on register late e = refl
no_release on req_lock late e = refl
no_release on lock_ok late e = refl
no_release on drop_lock late e = refl
no_release on set_tq late e = refl
no_release on (other n) late e = refl

-- What is heard is spent only by who gives the lock back, or is expelled.
pub Heard-Covers :
    (fd : ℕ) {p q : Lock} {t : MessageType} (alive : ℕ → Bool) (c c' : ℕ → ℕ)
    → Heard fd p t q
    → p.on ≡ true
    → (p.held ≡ true → p.queue ≢ [])
    → ((x : ℕ) → c x ≤ c' x + (if x == fd then one_if lock_released t else 0))
    → Covers alive c p
    → Covers alive c' q
Heard-Covers fd {p} alive c c' (ignored t late) on busy le h x o a =
    omega (arith, h x o a, unspent x fd t (c x) (c' x) (no_release p.on t late on) (le x))
Heard-Covers fd {p} alive c c' (expels t) on busy le h x o a = elim (Bool-cases (x == fd)) [
  | inl same ↦ omega (arith, quits-none x fd p same)
  | inr differs ↦
      let spent : c x ≤ c' x + (if x == fd then one_if lock_released t else 0) = le x in
      let less : c x ≤ c' x + 0 = rw differs at spent in
      omega (arith, h x (still_open x fd p.open_fds o) a, quits-le x fd p.held p.queue, less)
]
Heard-Covers fd {p} alive c c' (asks on' new) on busy le h x o a = omega (
  arith,
  h x o a,
  asks-le x fd p.held p.queue busy,
  unspent x fd req_lock (c x) (c' x) refl (le x),
)
Heard-Covers fd {p} alive c c' (gives_back on') on busy le h x o a = elim (Bool-cases (x == fd)) [
  | inl same ↦ omega (arith, quits-none x fd p same)
  | inr differs ↦
      let spent : c x ≤ c' x + (if x == fd then 1 else 0) = le x in
      let less : c x ≤ c' x + 0 = rw differs at spent in
      omega (arith, h x o a, quits-le x fd p.held p.queue, less)
]
Heard-Covers fd alive c c' turns_on on busy le h x o a =
    omega (arith, h x o a, unspent x fd sched_on (c x) (c' x) refl (le x))
Heard-Covers fd alive c c' turns_off on busy le h x o a =
    omega (arith, h x o a, unspent x fd sched_off (c x) (c' x) refl (le x))

-- No connection is opened by a message.
pub Heard-open :
    (fd : ℕ) {p q : Lock} {t : MessageType} (x : ℕ)
    → Heard fd p t q
    → contains x q.open_fds ≡ true
    → contains x p.open_fds ≡ true
Heard-open fd x (ignored t late) o = o
Heard-open fd {p} x (expels t) o = still_open x fd p.open_fds o
Heard-open fd x (asks on new) o = o
Heard-open fd x (gives_back on) o = o
Heard-open fd x turns_on o = o
Heard-open fd x turns_off o = o
