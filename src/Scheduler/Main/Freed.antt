-- ===== src/Scheduler/Main/Freed.antt =====
-- A client that one event of a batch frees, while another event of the batch points to it.
use nvshare.Prelude.{
  Ensures-if, ℕ, ◌<◌, ◌≡◌, refl, sym, subst, ◌∙◌, true, false, List, ◌∷◌, All, ok, fault, Outcome,
  length, arith, Ensures, Ensures-bind, Ensures-map, Bool-cases, inl, inr, ap, if◌then◌else◌,
}
use nvshare.Common.Transfer.{Attempts, Input}
use nvshare.Comm.Messages.{Message, lock_ok}
use nvshare.Scheduler.State.{Scheduler, World}
use nvshare.Scheduler.Sending.{record_sent, receive_message}
use nvshare.Scheduler.Clients.{contains, without, fds_of, delete_client, with_type, remove_req}
use nvshare.Scheduler.Schedule.{settle, try_head, try_loop, try_schedule}
use nvshare.Scheduler.Dispatch.{readable, hangup, schedule_if_free, on_gone, handle_event}
use nvshare.Scheduler.Lists.{Distinct, contains-without, find_client-absent}
use nvshare.Scheduler.Protocol.{Steps-open}
use nvshare.Scheduler.Invariant.{
  Core, Inv, IsBenign, IsOpen, IsRegistered, IsRegistered-IsOpen, After, delivery,
  send_message-open, removed, fds_of-removed, delete_client-removed, removed-After,
  record_sent-After, length-without_head,
}
use nvshare.Scheduler.Refinement.Moves.{Moves}
use nvshare.Scheduler.Refinement.Schedule.{try_loop-Moves}
use nvshare.Scheduler.Refinement.Timer.{head_frees-removed}
use nvshare.Scheduler.Policy.{without_first}

-- The client is in the list no more.
abbrev IsGone : ℕ → Scheduler → Type 0
IsGone fd s = contains fd (fds_of s.clients) ≡ false

freed_client_faults :
    (w : World) (fd : ℕ) (call : Attempts Input) (m : Message) (s : Scheduler)
    → IsGone fd s
    → (handle_event w (readable fd call m) s ≡ fault) × (handle_event w (hangup fd) s ≡ fault)
unfolding handle_event receive_message on_gone delete_client
freed_client_faults w fd call m s h =
    let e = find_client-absent fd s.clients h in
    (rw (receive_message, e) refl, rw (delete_client, e) refl)

removed-IsGone :
    (w : World) (fd : ℕ) (s : Scheduler) → Core s → IsBenign w s → IsGone fd (removed w fd s)
removed-IsGone w fd s v b =
    rw (fds_of-removed w fd s v b, contains-without fd fd (fds_of s.clients)) (ground arith)

Moves-IsGone : (fd : ℕ) (s u : Scheduler) → Moves s u → IsGone fd s → IsGone fd u
Moves-IsGone fd s u k gone = elim (Bool-cases (contains fd (fds_of u.clients))) [
  | inl there ↦ absurd (cc (gone, Steps-open fd k there))
  | inr absent ↦ absent
]

-- The head of the list is dead.
try_schedule-IsGone :
    (w : World) (s : Scheduler) (fd : ℕ) (rest : List ℕ)
    → Core s
    → IsBenign w s
    → s.requests ≡ fd ∷ rest
    → delivery w fd ≡ ok false
    → Ensures (IsGone fd) (try_schedule w s)
unfolding try_schedule try_loop try_head settle record_sent remove_req
try_schedule-IsGone w s fd rest v b e bad =
    subst (λ rs. Ensures (IsGone fd) (try_head w (try_loop (length s.requests) w) s rs)) (sym e)
      (rw (send_message-open w fd s1.out_msg s1 o, bad)
        (Ensures-bind (λ t. t ≡ t0) (IsGone fd) (delete_client w fd s1)
          (try_loop (length s.requests) w) (delete_client-removed w fd s1 o)
          (λ t q.
            subst (λ t. Ensures (IsGone fd) (try_loop (length s.requests) w t)) (sym q)
              (Ensures-map (Moves t0) (IsGone fd) (try_loop (length s.requests) w t0)
                (try_loop-Moves (length s.requests) w t0 shorter (head_frees-removed w fd rest s1 e)
                  gone.core gone.kept.benign)
                (λ u k. Moves-IsGone fd t0 u k (removed-IsGone w fd s1 a.core b))))))
  where
    s1 : Scheduler
    s1 = with_type lock_ok s

    o : IsOpen s.clients fd
    o = IsRegistered-IsOpen s.clients fd (subst (All (IsRegistered s.clients)) e v.queued).0

    a : After w fd s s1
    a = record_sent-After w fd s1.out_msg s lock_ok false v b

    t0 : Scheduler
    t0 = removed w fd s1

    gone : After w fd s1 t0
    gone = removed-After w fd s1 a.core b

    shorter : length t0.requests < length s.requests
    shorter =
        subst (λ rs. length (without fd rs) < length rs) (sym e)
          (omega (arith, length-without_head fd rest))

-- From a state within the invariant, with the scheduler on: when the client at the head of the list
-- hangs up and LOCK_OK cannot be delivered to the next client, that client is freed while the first
-- event is handled, and an event of it that follows in the same batch, with a message or a hang-up,
-- is handled through the pointer to the freed client. The first event itself is handled without
-- this, or ends the process. It is assumed that what `delete_client` reads from a block that it has
-- just freed is not another client's descriptor.
pub freed_by_earlier_event :
    (w w' : World) (call : Attempts Input) (m : Message) (s : Scheduler) (first fd : ℕ)
    (rest : List ℕ)
    → Inv s
    → IsBenign w s
    → s.requests ≡ first ∷ fd ∷ rest
    → s.scheduler_on ≡ true
    → delivery w fd ≡ ok false
    → Ensures
        (λ s'.
          (handle_event w' (readable fd call m) s' ≡ fault)
          × (handle_event w' (hangup fd) s' ≡ fault))
        (handle_event w (hangup first) s)
unfolding handle_event on_gone schedule_if_free remove_req
freed_by_earlier_event w w' call m s first fd rest v b e on bad =
    Ensures-map (IsGone fd) _ (handle_event w (hangup first) s)
      (Ensures-bind (λ t. t ≡ t0) (IsGone fd) (delete_client w first s) next
        (delete_client-removed w first s o)
        (λ t q. subst (λ t. Ensures (IsGone fd) (next t)) (sym q) last))
      (λ s' k. freed_client_faults w' fd call m s' k)
  where
    t0 : Scheduler
    t0 = removed w first s

    next : Scheduler → Outcome Scheduler
    next t = if t.scheduler_on then schedule_if_free w t else ok t

    o : IsOpen s.clients first
    o = IsRegistered-IsOpen s.clients first (subst (All (IsRegistered s.clients)) e v.queued).0

    gone : After w first s t0
    gone = removed-After w first s v.core b

    behind : t0.requests ≡ fd ∷ rest
    behind = ap (without first) e ∙ without_first first (fd ∷ rest) (subst Distinct e v.once)

    last : Ensures (IsGone fd) (next t0)
    last =
        Ensures-if (IsGone fd) t0.scheduler_on (schedule_if_free w t0) (ok t0)
          (λ _.
            Ensures-if (IsGone fd) t0.lock_held (ok t0) (try_schedule w t0)
              (λ held. absurd (cc (held, head_frees-removed w first (fd ∷ rest) s e)))
              (λ _. try_schedule-IsGone w t0 fd rest gone.core gone.kept.benign behind bad))
          (λ off. absurd (cc (on, off)))
