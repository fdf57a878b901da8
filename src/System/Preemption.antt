-- ===== src/System/Preemption.antt =====
-- The end of a quantum: the timer of src/scheduler.c asks the client with the lock to give it back,
-- and the client's thread of src/client.c that reads the messages does so.
pub mod Asking
mod Reading
use nvshare.Prelude.{
  ℕ, zero, suc, ◌+◌, ◌≤◌, ◌≡◌, refl, subst, sym, ◌∙◌, ap, Bool, true, false, List, [], ◌∷◌, ◌++◌,
  length, replicate, ◌==◌, ==_iff, if◌then◌else◌, Outcome, ok, exited, fault, spinning, ◌>>=◌, All,
  Returns, Returns-map, Returns-bind, arith, Bool-cases, inl, inr,
}
use nvshare.Comm.Messages.{
  Message, MessageType, register, sched_on, sched_off, req_lock, lock_ok, drop_lock, lock_released,
  set_tq, other,
}
use nvshare.Scheduler.State.{Scheduler, World}
use nvshare.Scheduler.Sending.{record_sent}
use nvshare.Scheduler.Schedule.{
  Timing, timed_out, restart, t_msg, timer_step, send_drop, settle_drop,
}
use nvshare.Scheduler.Clients.{is_head}
use nvshare.Client.Invariant.{as_number}
use nvshare.System.Keeping.{is_alive}
use nvshare.Scheduler.Invariant.{
  IsOpen, IsRegistered, IsRegistered-IsOpen, delivery, send_message-open,
}
use nvshare.Client.State.{Process}
use nvshare.Client.Listening.{handle_message, give_back}
use nvshare.System.{
  System, Node, Activity, running, Happening, wakes, acts, Action, gets, update, deliver, arrivals,
  unsent, unlogged, after_turn, act, act_running, step,
}
use nvshare.System.Credit.{count, owned, credit}
use nvshare.System.Exclusion.{Reach, next, Reach-IsSound, grant_kept, IsGiven}
use nvshare.System.Soundness.{IsFair}
use Asking.{IsOver, timer_asks}
use Reading.{HasRead, act-HasRead}

-- One step after another.
unfoldable pub run : List Happening → System → Outcome System
run [] σ = ok σ
run (h ∷ hs) σ = step h σ >>= run hs

-- The reader of one client takes a turn.
abbrev reads : ℕ → Happening
reads fd = acts fd (gets true)

abbrev after_read : ℕ → System → System
after_read fd σ = record σ { nodes = update fd (act (gets true) (σ.nodes fd)) σ.nodes }

update_same : (fd : ℕ) (n : Node) (nodes : ℕ → Node) → update fd n nodes fd ≡ n
update_same fd n nodes = rw ((==_iff fd fd).1 refl) refl

step-reads : (fd : ℕ) (σ : System) → step (reads fd) σ ≡ ok (after_read fd σ)
unfolding step
step-reads fd σ = refl

-- The client has read all its messages, DROP_LOCK last, and runs without the lock.
record HasReadAll (fd : ℕ) (t : Timing) (σ : System) : Type 0 where
  reach : Reach σ
  timing : σ.timing ≡ t
  process : Process
  runs : (σ.nodes fd).process ≡ running process
  free : process.own_lock ≡ false
  inbox : (σ.nodes fd).inbox ≡ []

read_all :
    (fd : ℕ) (ms : List Message) (d : Message) (σ : System) (p : Process)
    → d.type ≡ drop_lock
    → Reach σ
    → (σ.nodes fd).process ≡ running p
    → (σ.nodes fd).inbox ≡ ms ++ d ∷ []
    → Returns (HasReadAll fd σ.timing) (run (replicate (suc (length ms)) (reads fd)) σ)
unfolding run
read_all fd [] d σ p type r runs e =
    let k =
      subst (HasRead d.type []) (sym (update_same fd _ σ.nodes))
        (act-HasRead (σ.nodes fd) p d [] runs e) in
    rw (step-reads fd σ) (record {
      reach = next (reads fd) r tt (after_read fd σ) (step-reads fd σ);
      timing = refl;
      process = k.process;
      runs = k.runs;
      free = k.obeys type;
      inbox = k.inbox;
    })
read_all fd (m ∷ ms) d σ p type r runs e =
    let k =
      subst (HasRead m.type (ms ++ d ∷ [])) (sym (update_same fd _ σ.nodes))
        (act-HasRead (σ.nodes fd) p m (ms ++ d ∷ []) runs e) in
    rw (step-reads fd σ) (
      read_all fd ms d (after_read fd σ) k.process type
        (next (reads fd) r tt (after_read fd σ) (step-reads fd σ)) k.runs k.inbox)

-- The system when the timer has asked the client.
abbrev asked_back : ℕ → System → System
asked_back fd σ =
    let t = restart true (record_sent fd t_msg (unsent σ.timing.sched) true) in
    record { timing = t; nodes = deliver t.sched.sent σ.nodes }

step-wakes :
    (w : World) (fd : ℕ) (rest : List ℕ) (σ : System)
    → IsOver fd rest σ.timing
    → IsOpen σ.timing.sched.clients fd
    → delivery w fd ≡ ok true
    → step (wakes w timed_out) σ ≡ ok (asked_back fd σ)
unfolding step
step-wakes w fd rest σ v o good =
    rw
      (timer_asks w (record σ.timing { sched = unsent σ.timing.sched }) fd rest
        (record {
          queue = v.queue;
          held = v.held;
          not_asked = v.not_asked;
          same_round = v.same_round;
        })
        o good)
      refl

asked_inbox :
    (fd : ℕ) (σ : System) → ((asked_back fd σ).nodes fd).inbox ≡ (σ.nodes fd).inbox ++ t_msg ∷ []
unfolding restart record_sent
asked_inbox fd σ = rw ((==_iff fd fd).1 refl) refl

gave_back :
    (fd : ℕ) (t : Timing) (σ : System)
    → IsGiven fd t.sched
    → HasReadAll fd t σ
    → count lock_released (σ.nodes fd).outbox ≡ 1
gave_back fd t σ g k =
    let one =
      grant_kept fd k.reach (subst (λ (t : Timing). IsGiven fd t.sched) (sym k.timing) g)
        (ap is_alive k.runs) in
    omega (arith, one, ap owned k.runs, ap as_number k.free, ap (count lock_ok) k.inbox)

-- The end of a quantum, in any state that a fair system reaches while nobody turns the scheduler
-- off: when the timer times out in the round that it waited for and has not asked yet, and DROP_LOCK
-- can be written to the client at the head of the list, whose process runs and writes its replies
-- whole, then the client's reader gets through all messages that are on their way to it, and after
-- them exactly one LOCK_RELEASED of the client is on its way to the scheduler.
pub quantum_over :
    {σ : System} (w : World) (fd : ℕ) (rest : List ℕ) (p : Process)
    → Reach σ
    → IsFair (wakes w timed_out) σ
    → IsOver fd rest σ.timing
    → delivery w fd ≡ ok true
    → (σ.nodes fd).process ≡ running p
    → Returns
        (λ σ'. count lock_released (σ'.nodes fd).outbox ≡ 1)
        (run (wakes w timed_out ∷ replicate (suc (length (σ.nodes fd).inbox)) (reads fd)) σ)
unfolding run restart record_sent
quantum_over {σ} w fd rest p r fair v good runs =
    let inv = (Reach-IsSound r).inv in
    let o =
      IsRegistered-IsOpen σ.timing.sched.clients fd
        ((subst (All (IsRegistered σ.timing.sched.clients)) v.queue inv.queued).0) in
    let e = step-wakes w fd rest σ v o good in
    rw e (
      Returns-map (HasReadAll fd (asked_back fd σ).timing)
        (λ σ'. count lock_released (σ'.nodes fd).outbox ≡ 1) _
        (read_all fd (σ.nodes fd).inbox t_msg (asked_back fd σ) p refl
          (next (wakes w timed_out) r fair (asked_back fd σ) e) runs (asked_inbox fd σ))
        (λ σ' k.
          gave_back fd (asked_back fd σ).timing σ'
            (v.held, subst (λ rs. is_head fd rs ≡ true) (sym v.queue) ((==_iff fd fd).1 refl)) k))
