-- ===== src/System/Lessening.antt =====
-- What a turn of a client does to the grants that it accounts for: src/client.c.
use nvshare.Prelude.{
  ℕ, ◌+◌, ◌≤◌, ◌≡◌, refl, sym, ap, Bool, List, [], ◌∷◌, some, Outcome, ok, exited, fault, spinning,
  Ensures, arith,
}
use nvshare.Comm.Messages.{Message, sched_off, lock_ok, lock_released}
use nvshare.Client.State.{Process}
use nvshare.Client.Start.{unstarted, initialize_client}
use nvshare.Client.Locking.{Progress, waits, continues, continue_with_lock, test_lock}
use nvshare.Client.Listening.{handle_message}
use nvshare.Client.Invariant.{one_if, as_number}
use nvshare.System.{
  Activity, starting, running, gone, Node, departures, Action, starts, enters, woken, gets, times,
  turn_progress, after_turn, unlogged, began, act_running, act_starting, act,
}
use nvshare.System.Turns.{
  Spends, SpendsThen, test_lock-Spends, continue_with_lock-Spends, handle_message-Spends,
  release_early-Spends, initialize_client-Begun, Begun,
}
use nvshare.System.Credit.{count, count-append, count-departures, owned, credit, IsQuiet}

after_turn-le :
    (m : Outcome Process) (p : Process) (got : ℕ) (inbox : List Message) (n : Node)
    → Ensures (Spends got (unlogged p)) m
    → as_number p.own_lock + got + count lock_ok inbox ≤ owned n.process + count lock_ok n.inbox
    → credit (after_turn m inbox n) ≤ credit n
after_turn-le (ok p') p got inbox n k h = omega (
  arith,
  k.credit,
  h,
  count-append lock_released n.outbox (departures p'.log),
  count-departures lock_released p'.log,
)
after_turn-le exited p got inbox n k h = omega (arith, h)
after_turn-le fault p got inbox n k h = absurd k
after_turn-le spinning p got inbox n k h = absurd k

after_turn-IsQuiet :
    (m : Outcome Process) (p : Process) (got : ℕ) (inbox : List Message) (n : Node)
    → Ensures (Spends got (unlogged p)) m
    → count sched_off inbox ≡ 0
    → IsQuiet n
    → IsQuiet (after_turn m inbox n)
after_turn-IsQuiet (ok p') p got inbox n k h q = record {
  inbox = h;
  outbox = omega (
    arith,
    k.calm,
    q.outbox,
    count-append sched_off n.outbox (departures p'.log),
    count-departures sched_off p'.log,
  );
}
after_turn-IsQuiet exited p got inbox n k h q = record { inbox = h; outbox = q.outbox }
after_turn-IsQuiet fault p got inbox n k h q = absurd k
after_turn-IsQuiet spinning p got inbox n k h q = absurd k

-- What a turn may do to its node.
pub record Lessens (n n' : Node) : Type 0 where
  pub credit_le : credit n' ≤ credit n
  pub quiet : IsQuiet n'

turn_progress-Spends :
    (p : Process) (m : Outcome Progress)
    → Ensures (SpendsThen p.own_lock p.log) m
    → Ensures (Spends 0 p) (turn_progress m)
turn_progress-Spends p (ok (waits p')) k = k
turn_progress-Spends p (ok (continues p')) k = k
turn_progress-Spends p exited k = tt
turn_progress-Spends p fault k = k
turn_progress-Spends p spinning k = k

module _ (n : Node) (p : Process) (own : as_number p.own_lock ≡ owned n.process)
    (q : IsQuiet n) where
  turns :
      (m : Outcome Process) → Ensures (Spends 0 (unlogged p)) m → Lessens n (after_turn m n.inbox n)
  turns m k = record {
    credit_le = after_turn-le m p 0 n.inbox n k (omega (arith, own));
    quiet = after_turn-IsQuiet m p 0 n.inbox n k q.inbox q;
  }

  reads :
      (written : Bool) (m : Message) (rest : List Message)
      → n.inbox ≡ m ∷ rest
      → Lessens n (after_turn (handle_message written m.type (unlogged p)) rest n)
  reads written m rest e =
      let off = ap (count sched_off) e in
      let k = handle_message-Spends written m.type (unlogged p) (omega (arith, off, q.inbox)) in
      record {
        credit_le =
            after_turn-le (handle_message written m.type (unlogged p)) p (one_if lock_ok m.type)
              rest n k (omega (arith, own, ap (count lock_ok) e));
        quiet =
            after_turn-IsQuiet (handle_message written m.type (unlogged p)) p
              (one_if lock_ok m.type) rest n k (omega (arith, off, q.inbox)) q;
      }

same-Lessens : (n : Node) → IsQuiet n → Lessens n n
same-Lessens n q = record { credit_le = omega arith; quiet = q }

act_running-Lessens :
    (a : Action) (n : Node) (p : Process)
    → n.process ≡ running p
    → IsQuiet n
    → Lessens n (act_running a (unlogged p) n)
unfolding act_running
act_running-Lessens (starts w nvml_ok) n p e q = same-Lessens n q
act_running-Lessens (enters found written) n p e q = turns n p (sym (ap owned e)) q _ (
    turn_progress-Spends (unlogged p) (continue_with_lock found written (unlogged p))
      (continue_with_lock-Spends found written (unlogged p)))
act_running-Lessens (woken written) n p e q = turns n p (sym (ap owned e)) q _ (
    turn_progress-Spends (unlogged p) (test_lock written (unlogged p))
      (test_lock-Spends written (unlogged p)))
act_running-Lessens (times t w) n p e q =
    turns n p (sym (ap owned e)) q _ (release_early-Spends t w (unlogged p))
act_running-Lessens (gets written) n p e q = go n.inbox refl
  where
    go :
        (inbox : List Message)
        → n.inbox ≡ inbox
        → Lessens n (elim inbox [
          | [] ↦ n
          | m ∷ rest ↦ after_turn (handle_message written m.type (unlogged p)) rest n
        ])
    go [] i = same-Lessens n q
    go (m ∷ rest) i = reads n p (sym (ap owned e)) q written m rest i

began-Lessens :
    (m : Message) (rest : List Message) (n : Node)
    → n.inbox ≡ m ∷ rest
    → IsQuiet n
    → (started : Outcome Process) → Ensures (λ p. Begun m.type p.own_lock p.scheduler_on) started
    → Lessens n (after_turn (began started) rest n)
began-Lessens m rest n i q started free = begun-Lessens started free
  where
    dropped : count lock_ok rest ≤ count lock_ok n.inbox
    dropped = omega (arith, ap (count lock_ok) i)

    still : count sched_off rest ≡ 0
    still = omega (arith, ap (count sched_off) i, q.inbox)

    begun-Lessens :
        (started : Outcome Process)
        → Ensures (λ p. Begun m.type p.own_lock p.scheduler_on) started
        → Lessens n (after_turn (began started) rest n)
    begun-Lessens (ok p) free = record {
      credit_le =
          omega (arith, dropped, ap as_number free.free, count-append lock_released n.outbox []);
      quiet = record {
        inbox = still;
        outbox = omega (arith, count-append sched_off n.outbox [], q.outbox);
      };
    }
    begun-Lessens exited free = record {
      credit_le = omega (arith, dropped);
      quiet = record { inbox = still; outbox = q.outbox };
    }
    begun-Lessens fault free = absurd free
    begun-Lessens spinning free = absurd free

act_starting-Lessens :
    (a : Action) (n : Node) → n.process ≡ starting → IsQuiet n → Lessens n (act_starting a n)
unfolding act_starting
act_starting-Lessens (enters found written) n e q = same-Lessens n q
act_starting-Lessens (woken written) n e q = same-Lessens n q
act_starting-Lessens (times t w) n e q = same-Lessens n q
act_starting-Lessens (gets written) n e q = same-Lessens n q
act_starting-Lessens (starts w nvml_ok) n e q = go n.inbox refl
  where
    go :
        (inbox : List Message)
        → n.inbox ≡ inbox
        → Lessens n (elim inbox [
          | [] ↦ n
          | m ∷ rest ↦
              after_turn
                (began (initialize_client (record w { answer = some m }) (unstarted nvml_ok)))
                rest
                n
        ])
    go [] i = same-Lessens n q
    go (m ∷ rest) i = began-Lessens m rest n i q _ (
        initialize_client-Begun w m (unstarted nvml_ok)
          (omega (arith, ap (count sched_off) i, q.inbox)))

-- A turn of a client adds no grant to those that it accounts for.
pub act-Lessens : (a : Action) (n : Node) → IsQuiet n → Lessens n (act a n)
unfolding act
act-Lessens a n q = go n.process refl
  where
    go :
        (process : Activity)
        → n.process ≡ process
        → Lessens n (elim process [
          | starting ↦ act_starting a n
          | running p ↦ act_running a (unlogged p) n
          | gone ↦ n
        ])
    go starting e = act_starting-Lessens a n e q
    go (running p) e = act_running-Lessens a n p e q
    go gone e = same-Lessens n q
