-- ===== src/System/Joining.antt =====
-- Connections, new ones among them, and the grants: `accept` in src/scheduler.c.
use nvshare.Prelude.{
  ℕ, ◌≤◌, ◌≡◌, ◌⊎◌, refl, sym, ap, subst, true, false, [], ◌∷◌, ◌++◌, ◌==◌, ==_iff, arith,
  Bool-cases, inl, inr,
}
use nvshare.Common.Transfer.{Attempts}
use nvshare.Comm.Sockets.{Status, socket_ok, socket_error, nvshare_accept}
use nvshare.Comm.Messages.{lock_ok}
use nvshare.Scheduler.State.{Scheduler}
use nvshare.Scheduler.Clients.{contains}
use nvshare.Scheduler.Lists.{contains-append}
use nvshare.Scheduler.Protocol.{Lock}
use nvshare.Scheduler.Refinement.Moves.{view}
use nvshare.Scheduler.Refinement.Events.{Joins}
use nvshare.System.{Node, Peer, application, sets_tq, sets_status, fresh, unsent, connected}
use nvshare.System.Balance.{told_count, Balanced}
use nvshare.System.Credit.{credit, IsQuiet}

-- What nobody does: turn the scheduler off.
abbrev pub IsCalm : Peer → Type 0
IsCalm (sets_status on) = on ≡ true
IsCalm _ = Unit {0}

Balanced-le : (c c' : ℕ → ℕ) (p : Lock) → ((x : ℕ) → c' x ≤ c x) → Balanced c p → Balanced c' p
Balanced-le c c' p le b = record {
  on = b.on;
  covered = λ x o. omega (arith, le x, b.covered x o);
  calm = b.calm;
}

-- A new connection brings no grant.
fresh-IsQuiet : (peer : Peer) → IsCalm peer → IsQuiet (fresh peer)
fresh-IsQuiet (application m) calm = record { inbox = refl; outbox = refl }
fresh-IsQuiet (sets_tq n) calm = record { inbox = refl; outbox = refl }
fresh-IsQuiet (sets_status true) calm = record { inbox = refl; outbox = refl }
fresh-IsQuiet (sets_status false) calm = cc

fresh-credit : (peer : Peer) → credit (fresh peer) ≡ 0
fresh-credit (application m) = refl
fresh-credit (sets_tq n) = refl
fresh-credit (sets_status true) = refl
fresh-credit (sets_status false) = refl

connected-credit :
    (st : Status) (peer : Peer) (nodes : ℕ → Node) (x : ℕ)
    → credit (connected st peer nodes x) ≤ credit (nodes x)
connected-credit (socket_error e) peer nodes x = omega arith
connected-credit (socket_ok fd) peer nodes x = elim (Bool-cases (x == fd)) [
  | inl same ↦ rw same (omega (arith, fresh-credit peer))
  | inr differs ↦ rw differs (omega arith)
]

pub connected-IsQuiet :
    (st : Status) (peer : Peer) (nodes : ℕ → Node) (x : ℕ)
    → IsCalm peer
    → IsQuiet (nodes x)
    → IsQuiet (connected st peer nodes x)
connected-IsQuiet (socket_error e) peer nodes x calm q = q
connected-IsQuiet (socket_ok fd) peer nodes x calm q = elim (Bool-cases (x == fd)) [
  | inl same ↦ rw same (fresh-IsQuiet peer calm)
  | inr differs ↦ rw differs q
]

joins-Balanced :
    (fd : ℕ) (c : ℕ → ℕ) (p : Lock)
    → c fd ≡ 0
    → p.told ≡ []
    → Balanced c p
    → Balanced c (record p { open_fds = p.open_fds ++ fd ∷ [] })
joins-Balanced fd c p free new b = record {
  on = b.on;
  covered = λ x o. elim (Bool-cases (contains x p.open_fds)) [
    | inl old ↦ b.covered x old
    | inr joined ↦
        let same : x ≡ fd = joined_is_new x joined o in
        omega (arith, ap c same, free, ap (told_count lock_ok x) new)
  ];
  calm = b.calm;
}
  where
    joined_is_new :
        (x : ℕ) → contains x p.open_fds ≡ false → contains x (p.open_fds ++ fd ∷ []) ≡ true → x ≡ fd
    joined_is_new x absent present = ground (arith, contains-append x fd p.open_fds)

module _ (call : Attempts Status) (peer : Peer) (nodes : ℕ → Node) (s s' : Scheduler)
    (b : Balanced (λ fd. credit (nodes fd)) (view (unsent s))) where
  abbrev after : ℕ → ℕ
  after fd = credit (connected (nvshare_accept call) peer nodes fd)

  less : Balanced after (view (unsent s))
  less = Balanced-le _ after _ (connected-credit (nvshare_accept call) peer nodes) b

  pub takes-Balanced : (s' ≡ unsent s) ⊎ Joins call (unsent s) s' → Balanced after (view s')
  takes-Balanced (inl same) = subst (λ s. Balanced after (view s)) (sym same) less
  takes-Balanced (inr j) =
      subst (Balanced after) (sym j.joined)
        (joins-Balanced j.fd after (view (unsent s)) free refl less)
    where
      free : after j.fd ≡ 0
      free = rw (j.given, (==_iff j.fd j.fd).1 refl) (fresh-credit peer)
