-- ===== src/Scheduler/Refinement/Register.antt =====
-- `register_client` tells the new client the status.
use nvshare.Prelude.{
  Ensures-if, ℕ, ◌≡◌, refl, sym, subst, Bool, ok, ◌>>=◌, Ensures, Ensures-bind, Ensures-map,
  Ensures-both, some, if◌then◌else◌, Bool-cases, inl, inr,
}
use nvshare.Comm.Messages.{Message}
use nvshare.Scheduler.State.{Scheduler, World, Client, find_client, has_registered}
use nvshare.Scheduler.Sending.{send_message, record_sent}
use nvshare.Scheduler.Clients.{register_client, delete_client}
use nvshare.Scheduler.Dispatch.{on_register}
use nvshare.Scheduler.Lists.{find_client-present}
use nvshare.Scheduler.Protocol.{Steps, Steps-trans, done}
use nvshare.Scheduler.Invariant.{
  Core, IsBenign, IsOpen, IsLucky, IsFresh, Answered, answered, cleaned, same_fds, answered-IsOpen,
  register_client-After, send_message-record_sent, draw_id_total, from_zero,
}
use nvshare.Scheduler.Refinement.Moves.{view, Moves, record_sent-Moves, delete_client-Moves}

module _ (w : World) (fd : ℕ) (m : Message) (s : Scheduler) (c : Client) (id : ℕ) (v : Core s)
    (b : IsBenign w s) (found : find_client fd s.clients ≡ some c)
    (fresh : IsFresh s.clients id) where
  abbrev reply : Scheduler
  reply = answered w fd m s c id v b found fresh

  reply-Moves : Moves s reply
  reply-Moves =
      subst (λ fds. Steps (view s) (record (view s) { open_fds = fds }))
        (sym (same_fds w fd m s c id v b found fresh)) done

  cleaned-Moves :
      (sent : Bool)
      → Moves s (cleaned w fd m s c id v b found fresh (record_sent fd reply.out_msg reply sent))
  cleaned-Moves sent = Steps-trans reply-Moves (record_sent-Moves fd reply.out_msg reply sent refl)

  answer-Moves :
      Ensures
        (λ (r : Bool × Scheduler). Moves s r.1)
        (do
          (sent, s3) ← send_message w fd reply.out_msg reply
          ok (sent, cleaned w fd m s c id v b found fresh s3))
  answer-Moves =
      Ensures-bind (λ r. r.1 ≡ record_sent fd reply.out_msg reply r.0)
        (λ (r : Bool × Scheduler). Moves s r.1) (send_message w fd reply.out_msg reply)
        (λ (r : Bool × Scheduler). ok (r.0, cleaned w fd m s c id v b found fresh r.1))
        (send_message-record_sent w fd reply.out_msg reply
          (answered-IsOpen w fd m s c id v b found fresh))
        (λ r e. rw e (cleaned-Moves r.0))

register_client-Moves :
    (w : World) (fd : ℕ) (m : Message) (s : Scheduler)
    → Core s
    → IsBenign w s
    → IsLucky w s
    → IsOpen s.clients fd
    → Ensures (λ r. Moves s r.1) (register_client w fd m s)
unfolding register_client
register_client-Moves w fd m s v b lucky o =
    let (c, found, same) = find_client-present fd s.clients o in
    let (id, drawn, fresh) =
      draw_id_total w.rand s.clients w.draws 0 lucky.draw lucky.drawn (from_zero w s lucky) in
    elim (Bool-cases (has_registered c)) [
      | inl again ↦ rw (found, register_client, again) done
      | inr new ↦
          rw (found, register_client, new, drawn) (answer-Moves w fd m s c id v b found fresh)
    ]

pub on_register-Moves :
    (w : World) (fd : ℕ) (m : Message) (s : Scheduler)
    → Core s
    → IsBenign w s
    → IsLucky w s
    → IsOpen s.clients fd
    → Ensures (Moves s) (on_register w fd m s)
unfolding on_register
on_register-Moves w fd m s v b lucky o =
    Ensures-bind (λ r. Answered w fd s r.1 × Moves s r.1) (Moves s) (register_client w fd m s)
      (λ (r : Bool × Scheduler). if r.0 then ok r.1 else delete_client w fd r.1)
      (Ensures-both (λ r. Answered w fd s r.1) (λ r. Moves s r.1) (register_client w fd m s)
        (register_client-After w fd m s v b lucky o) (register_client-Moves w fd m s v b lucky o))
      (λ r k. ends r.0 r.1 k.0 k.1)
  where
    ends :
        (finished : Bool) (t : Scheduler)
        → Answered w fd s t
        → Moves s t
        → Ensures (Moves s) (if finished then ok t else delete_client w fd t)
    ends finished t a k =
        Ensures-if (Moves s) finished (ok t) (delete_client w fd t) (λ _. k)
          (λ _.
            Ensures-map (Moves t) (Moves s) (delete_client w fd t)
              (delete_client-Moves w fd t a.after.core a.after.kept.benign a.still)
              (λ u. Steps-trans k))
