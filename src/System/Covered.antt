-- ===== src/System/Covered.antt =====
-- What the messages of a step do to the grants: no grant is lost.
use nvshare.Prelude.{
  true, sym, subst, ap, ◌∙◌, inl, inr, refl, ℕ, ◌+◌, ◌≤◌, ◌≡◌, refl, ap, ◌∙◌, List, ◌∷◌, ◌++◌, ◌==◌,
  ==_iff, if◌then◌else◌, arith, Bool-cases, inl, inr,
}
use nvshare.Comm.Messages.{Message, lock_ok, lock_released}
use nvshare.Scheduler.State.{Scheduler}
use nvshare.Scheduler.Clients.{contains}
use nvshare.Scheduler.Invariant.{Inv}
use nvshare.Scheduler.Protocol.{Lock, Steps}
use nvshare.Scheduler.Refinement.Moves.{view}
use nvshare.Scheduler.Refinement.Handlers.{Hears}
use nvshare.Client.Invariant.{one_if}
use nvshare.System.{Node, arrivals, deliver, unsent, popped}
use nvshare.System.Keeping.{is_alive, IsOn}
use nvshare.Scheduler.Protocol.{Steps-open}
use nvshare.System.Covering.{Covers, Steps-Covers, Heard-Covers, Heard-open}
use nvshare.System.Balance.{told_count}
use nvshare.System.Credit.{count, count-append, count-arrivals, credit}

-- The scheduler has given its lock to nobody who lost it: of the clients that are connected and whose
-- process has not exited, the one that was given the lock has it, has a LOCK_OK to read, or has given
-- it back.
pub record IsCovered (nodes : ℕ → Node) (p : Lock) : Type 0 where
  pub on : (fd : ℕ) → contains fd p.open_fds ≡ true → IsOn (nodes fd).process
  pub covers : Covers (λ fd. is_alive (nodes fd).process) (λ fd. credit (nodes fd)) p

pub deliver-IsCovered :
    (s : Scheduler) (nodes : ℕ → Node)
    → IsCovered nodes (view s)
    → IsCovered (deliver s.sent nodes) (view (unsent s))
deliver-IsCovered s nodes h = record {
  on = λ fd o. h.on fd o;
  covers = λ fd o a. omega (arith, h.covers fd o a, granted fd);
}
  where
    granted :
        (fd : ℕ)
        → count lock_ok ((nodes fd).inbox ++ arrivals fd s.sent)
          ≡ count lock_ok (nodes fd).inbox + told_count lock_ok fd s.sent
    granted fd =
        count-append lock_ok (nodes fd).inbox (arrivals fd s.sent)
        ∙ ap (λ n. count lock_ok (nodes fd).inbox + n) (count-arrivals lock_ok fd s.sent)

pub Steps-IsCovered :
    (nodes : ℕ → Node) (p q : Lock) → Steps p q → IsCovered nodes p → IsCovered nodes q
Steps-IsCovered nodes p q k h = record {
  on = λ fd o. h.on fd (Steps-open fd k o);
  covers = Steps-Covers _ _ k h.covers;
}

-- A message that is heard has left its sender's outbox.
module _ (fd : ℕ) (m : Message) (rest : List Message) (nodes : ℕ → Node)
    (e : (nodes fd).outbox ≡ m ∷ rest) where
  popped-process : (x : ℕ) → (popped fd rest nodes x).process ≡ (nodes x).process
  popped-process x = elim (Bool-cases (x == fd)) [
    | inl same ↦ rw same (ap (λ x. (nodes x).process) (sym ((==_iff x fd).0 same)))
    | inr differs ↦ rw differs refl
  ]

  popped-credit :
      (x : ℕ)
      → credit (nodes x)
        ≤ credit (popped fd rest nodes x) + (if x == fd then one_if lock_released m.type else 0)
  popped-credit x = elim (Bool-cases (x == fd)) [
    | inl same ↦
        let here : credit (nodes x) ≡ credit (nodes fd) =
          ap (λ x. credit (nodes x)) ((==_iff x fd).0 same) in
        rw same (omega (arith, here, ap (count lock_released) e))
    | inr differs ↦ rw differs (omega arith)
  ]

  pub heard-IsCovered :
      (s s' : Scheduler)
      → Inv s
      → s.scheduler_on ≡ true
      → IsCovered nodes (view s)
      → Hears fd m.type s s'
      → IsCovered (popped fd rest nodes) (view s')
  heard-IsCovered s s' v on h k =
      Steps-IsCovered (popped fd rest nodes) k.heard (view s') k.steps (record {
        on = λ x o. subst IsOn (sym (popped-process x)) (h.on x (Heard-open fd x k.effect o));
        covers =
            Heard-Covers fd (λ x. is_alive (popped fd rest nodes x).process) _ _ k.effect on
              v.holder popped-credit
              (λ x o a. h.covers x o (ap is_alive (sym (popped-process x)) ∙ a));
      })
