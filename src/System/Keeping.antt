-- ===== src/System/Keeping.antt =====
-- A turn of a client loses no grant: src/client.c, with the messages on their way.
use nvshare.Prelude.{
  true, subst, ◌∙◌, ℕ, ◌+◌, ◌≤◌, ◌≡◌, refl, sym, ap, Bool, false, List, [], ◌∷◌, some, Outcome, ok,
  exited, fault, spinning, Ensures, arith,
}
use nvshare.Comm.Messages.{Message, sched_off, lock_ok, lock_released}
use nvshare.Client.State.{Process}
use nvshare.Client.Start.{unstarted, initialize_client}
use nvshare.Client.Locking.{Progress, waits, continues, continue_with_lock, test_lock}
use nvshare.Client.Listening.{handle_message}
use nvshare.Client.Invariant.{one_if}
use nvshare.System.{
  Activity, starting, running, gone, Node, departures, Action, starts, enters, woken, gets, times,
  turn_progress, after_turn, unlogged, began, act_running, act_starting, act,
}
use nvshare.System.Saving.{
  Saved, SavedThen, test_lock-Saved, continue_with_lock-Saved, handle_message-Saved,
  release_early-Saved,
}
use nvshare.System.Credit.{count, count-append, count-departures, owned, credit, IsQuiet}
use nvshare.System.Turns.{initialize_client-Begun, Begun}

-- The process may still take turns.
abbrev pub is_alive : Activity → Bool
is_alive gone = false
is_alive _ = true

-- A process that runs takes the scheduler for on.
abbrev pub IsOn : Activity → Type 0
IsOn (running p) = p.scheduler_on ≡ true
IsOn _ = Unit {0}

-- What a turn must leave of a node's grants, unless the process exits.
pub record Keeps (n n' : Node) : Type 0 where
  pub credit_ge : is_alive n'.process ≡ true → credit n ≤ credit n'
  pub alive : is_alive n'.process ≡ true → is_alive n.process ≡ true
  pub on : IsOn n'.process

after_turn-Keeps :
    (m : Outcome Process) (p : Process) (got : ℕ) (inbox : List Message) (n : Node)
    → n.process ≡ running p
    → p.scheduler_on ≡ true
    → Ensures (Saved got (unlogged p)) m
    → count lock_ok n.inbox ≤ got + count lock_ok inbox
    → Keeps n (after_turn m inbox n)
after_turn-Keeps (ok p') p got inbox n e on k h = record {
  credit_ge = λ a. omega (
    arith,
    k.credit,
    h,
    ap owned e,
    count-append lock_released n.outbox (departures p'.log),
    count-departures lock_released p'.log,
  );
  alive = λ a. ap is_alive e;
  on = k.status ∙ on;
}
after_turn-Keeps exited p got inbox n e on k h = record {
  credit_ge = λ a. cc;
  alive = λ a. cc;
  on = tt;
}
after_turn-Keeps fault p got inbox n e on k h = absurd k
after_turn-Keeps spinning p got inbox n e on k h = absurd k

turn_progress-Saved :
    (p : Process) (m : Outcome Progress)
    → Ensures (SavedThen p.own_lock p.scheduler_on p.log) m
    → Ensures (Saved 0 p) (turn_progress m)
turn_progress-Saved p (ok (waits p')) k = k
turn_progress-Saved p (ok (continues p')) k = k
turn_progress-Saved p exited k = tt
turn_progress-Saved p fault k = k
turn_progress-Saved p spinning k = k

same-Keeps : (n : Node) → IsOn n.process → Keeps n n
same-Keeps n on = record { credit_ge = λ a. omega arith; alive = λ a. a; on = on }

act_running-Keeps :
    (a : Action) (n : Node) (p : Process)
    → n.process ≡ running p
    → IsQuiet n
    → p.scheduler_on ≡ true
    → credit n ≤ 1
    → Keeps n (act_running a (unlogged p) n)
unfolding act_running
act_running-Keeps (starts w nvml_ok) n p e q on le = same-Keeps n (subst IsOn (sym e) on)
act_running-Keeps (enters found written) n p e q on le =
    after_turn-Keeps _ p 0 n.inbox n e on
      (turn_progress-Saved (unlogged p) (continue_with_lock found written (unlogged p))
        (continue_with_lock-Saved found written (unlogged p)))
      (omega arith)
act_running-Keeps (woken written) n p e q on le =
    after_turn-Keeps _ p 0 n.inbox n e on
      (turn_progress-Saved (unlogged p) (test_lock written (unlogged p))
        (test_lock-Saved written (unlogged p)))
      (omega arith)
act_running-Keeps (times t w) n p e q on le =
    after_turn-Keeps _ p 0 n.inbox n e on (release_early-Saved t w (unlogged p)) (omega arith)
act_running-Keeps (gets written) n p e q on le = go n.inbox refl
  where
    go :
        (inbox : List Message)
        → n.inbox ≡ inbox
        → Keeps n (elim inbox [
          | [] ↦ n
          | m ∷ rest ↦ after_turn (handle_message written m.type (unlogged p)) rest n
        ])
    go [] i = same-Keeps n (subst IsOn (sym e) on)
    go (m ∷ rest) i =
        after_turn-Keeps _ p (one_if lock_ok m.type) rest n e on
          (handle_message-Saved written m.type (unlogged p)
            (omega (arith, ap (count sched_off) i, q.inbox)) on
            (omega (arith, le, ap owned e, ap (count lock_ok) i)))
          (omega (arith, ap (count lock_ok) i))

first_turn :
    (m : Message) (rest : List Message) (n : Node)
    → n.inbox ≡ m ∷ rest
    → n.process ≡ starting
    → (started : Outcome Process) → Ensures (λ p. Begun m.type p.own_lock p.scheduler_on) started
    → Keeps n (after_turn (began started) rest n)
first_turn m rest n i e (ok p) k = record {
  credit_ge = λ a.
      omega (
        arith,
        ap owned e,
        ap (count lock_ok) i,
        k.no_grant,
        count-append lock_released n.outbox [],
      );
  alive = λ a. ap is_alive e;
  on = k.status;
}
first_turn m rest n i e exited k = record { credit_ge = λ a. cc; alive = λ a. cc; on = tt }
first_turn m rest n i e fault k = absurd k
first_turn m rest n i e spinning k = absurd k

act_starting-Keeps :
    (a : Action) (n : Node) → n.process ≡ starting → IsQuiet n → Keeps n (act_starting a n)
unfolding act_starting
act_starting-Keeps (enters found written) n e q = same-Keeps n (subst IsOn (sym e) tt)
act_starting-Keeps (woken written) n e q = same-Keeps n (subst IsOn (sym e) tt)
act_starting-Keeps (times t w) n e q = same-Keeps n (subst IsOn (sym e) tt)
act_starting-Keeps (gets written) n e q = same-Keeps n (subst IsOn (sym e) tt)
act_starting-Keeps (starts w nvml_ok) n e q = go n.inbox refl
  where
    go :
        (inbox : List Message)
        → n.inbox ≡ inbox
        → Keeps n (elim inbox [
          | [] ↦ n
          | m ∷ rest ↦
              after_turn
                (began (initialize_client (record w { answer = some m }) (unstarted nvml_ok)))
                rest
                n
        ])
    go [] i = same-Keeps n (subst IsOn (sym e) tt)
    go (m ∷ rest) i = first_turn m rest n i e _ (
        initialize_client-Begun w m (unstarted nvml_ok)
          (omega (arith, ap (count sched_off) i, q.inbox)))

-- A turn of a client that has one grant at most loses none, unless the process exits.
pub act-Keeps :
    (a : Action) (n : Node) → IsQuiet n → IsOn n.process → credit n ≤ 1 → Keeps n (act a n)
unfolding act
act-Keeps a n q on le = go n.process refl
  where
    go :
        (process : Activity)
        → n.process ≡ process
        → Keeps n (elim process [
          | starting ↦ act_starting a n
          | running p ↦ act_running a (unlogged p) n
          | gone ↦ n
        ])
    go starting e = act_starting-Keeps a n e q
    go (running p) e = act_running-Keeps a n p e q (subst IsOn e on) le
    go gone e = same-Keeps n on
