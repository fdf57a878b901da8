-- ===== src/System/Admission.antt =====
-- What a new connection does to the grants of the others: `accept` in src/scheduler.c.
use nvshare.Prelude.{
  Bool, true, false, sym, subst, ap, ◌∙◌, All, ◌⊎◌, inl, inr, refl, ◌&&◌, ℕ, ◌+◌, ◌≤◌, ◌≡◌, refl,
  ap, ◌∙◌, List, [], ◌∷◌, ◌++◌, ◌==◌, ==_iff, if◌then◌else◌, arith, Bool-cases, inl, inr,
}
use nvshare.Comm.Sockets.{Status, socket_ok, socket_error, nvshare_accept}
use nvshare.Comm.Messages.{lock_ok}
use nvshare.Scheduler.State.{Client, Scheduler}
use nvshare.Scheduler.Clients.{contains, fds_of, is_head}
use nvshare.Scheduler.Lists.{contains-append}
use nvshare.Common.Transfer.{Attempts}
use nvshare.Scheduler.Invariant.{IsRegistered, IsRegistered-IsOpen, Inv}
use nvshare.Scheduler.Refinement.Moves.{view}
use nvshare.Scheduler.Refinement.Events.{Joins}
use nvshare.System.{fresh, connected, Peer, application, sets_tq, sets_status, Node}
use nvshare.System.Keeping.{is_alive, IsOn}
use nvshare.System.Balance.{holds, told_count}
use nvshare.System.Credit.{credit}
use nvshare.System.Covered.{IsCovered}

-- Nobody is given the lock before it is connected.
unopened-holds :
    (x : ℕ) (held : Bool) (queue : List ℕ) (clients : List Client)
    → All (IsRegistered clients) queue
    → contains x (fds_of clients) ≡ false
    → (if held && is_head x queue then 1 else 0) ≤ 0
unopened-holds x held [] clients q o = ground arith
unopened-holds x held (r ∷ rs) clients q o = elim (Bool-cases (r == x)) [
  | inl same ↦ cc (
      sym (IsRegistered-IsOpen clients r q.0)
      ∙ ap (λ x. contains x (fds_of clients)) ((==_iff r x).0 same)
      ∙ o)
  | inr differs ↦ ground (arith, differs)
]

fresh-IsOn : (peer : Peer) → IsOn (fresh peer).process
fresh-IsOn (application m) = tt
fresh-IsOn (sets_tq n) = tt
fresh-IsOn (sets_status on) = tt

connected-same :
    (st : Status) (peer : Peer) (nodes : ℕ → Node) (x : ℕ) (fds : List ℕ)
    → contains x fds ≡ true
    → ((fd : ℕ) → st ≡ socket_ok fd → contains fd fds ≡ false)
    → connected st peer nodes x ≡ nodes x
connected-same (socket_error e) peer nodes x fds o new = refl
connected-same (socket_ok fd) peer nodes x fds o new = elim (Bool-cases (x == fd)) [
  | inl same ↦ cc (sym o ∙ ap (λ x. contains x fds) ((==_iff x fd).0 same) ∙ new fd refl)
  | inr differs ↦ rw differs refl
]

module _ (call : Attempts Status) (peer : Peer) (nodes : ℕ → Node) (s s' : Scheduler) (v : Inv s)
    (new : (fd : ℕ) → nvshare_accept call ≡ socket_ok fd → contains fd (fds_of s.clients) ≡ false)
    (h : IsCovered nodes (view s)) where
  abbrev nodes' : ℕ → Node
  nodes' = connected (nvshare_accept call) peer nodes

  same : (x : ℕ) → contains x (fds_of s.clients) ≡ true → nodes' x ≡ nodes x
  same x o = connected-same (nvshare_accept call) peer nodes x (fds_of s.clients) o new

  unjoined : IsCovered nodes' (view s)
  unjoined = record {
    on = λ x o. subst (λ n. IsOn n.process) (sym (same x o)) (h.on x o);
    covers = λ x o a.
        subst (λ n. holds x (view s) ≤ credit n + told_count lock_ok x s.sent) (sym (same x o))
          (h.covers x o (ap (λ n. is_alive n.process) (sym (same x o)) ∙ a));
  }

  joined :
      (j : Joins call s s')
      → IsCovered nodes' (record (view s) { open_fds = fds_of s.clients ++ j.fd ∷ [] })
  joined j = record {
    on = λ x o. elim (Bool-cases (contains x (fds_of s.clients))) [
      | inl old ↦ unjoined.on x old
      | inr first ↦
          subst (λ x. IsOn (nodes' x).process) (sym (it x first o))
            (rw (j.given, (==_iff j.fd j.fd).1 refl) (fresh-IsOn peer))
    ];
    covers = λ x o a. elim (Bool-cases (contains x (fds_of s.clients))) [
      | inl old ↦ unjoined.covers x old a
      | inr first ↦ omega (arith, unopened-holds x s.lock_held s.requests s.clients v.queued first)
    ];
  }
    where
      it :
          (x : ℕ)
          → contains x (fds_of s.clients) ≡ false
          → contains x (fds_of s.clients ++ j.fd ∷ []) ≡ true
          → x ≡ j.fd
      it x absent present = ground (arith, contains-append x j.fd (fds_of s.clients))

  pub takes-IsCovered : (s' ≡ s) ⊎ Joins call s s' → IsCovered nodes' (view s')
  takes-IsCovered (inl e) = subst (λ s. IsCovered nodes' (view s)) (sym e) unjoined
  takes-IsCovered (inr j) = subst (IsCovered nodes') (sym j.joined) (joined j)
