-- ===== src/Scheduler/Refinement/Broadcast.antt =====
-- `bcast_status` tells the status, and closes the connections that do not take it.
use nvshare.Prelude.{
  ℕ, ◌≡◌, refl, sym, subst, Bool, true, false, List, [], ◌∷◌, if◌then◌else◌, All, ok, Ensures,
  Ensures-bind, Ensures-map, Ensures-both, Bool-cases, inl, inr,
}
use nvshare.Scheduler.State.{Scheduler, World, Client, has_registered}
use nvshare.Scheduler.Sending.{send_message, record_sent}
use nvshare.Scheduler.Clients.{
  fds_of, delete_client, bcast_one, bcast_loop, bcast_status, with_type, status_type,
}
use nvshare.Scheduler.Lists.{Distinct, find_client-present}
use nvshare.Scheduler.Protocol.{Steps-trans, done}
use nvshare.Scheduler.Invariant.{
  Core, IsBenign, IsOpen, After, record_sent-After, record_sent-IsOpen, send_message-record_sent,
  bcast_one-After, All-IsOpen-After, IsOpen-clients,
}
use nvshare.Scheduler.Refinement.Moves.{Moves, record_sent-Moves, delete_client-Moves}

send_or_delete-Moves :
    (w : World) (fd : ℕ) (s : Scheduler) (sent : Bool)
    → Core s
    → IsBenign w s
    → IsOpen s.clients fd
    → let s1 = with_type (status_type s.scheduler_on) s in
      let s' = record_sent fd s1.out_msg s1 sent in
      Ensures (Moves s) (if sent then ok s' else delete_client w fd s')
send_or_delete-Moves w fd s true v b o =
    let s1 = with_type (status_type s.scheduler_on) s in
    record_sent-Moves fd s1.out_msg s1 true refl
send_or_delete-Moves w fd s false v b o =
    Ensures-map (Moves s') (Moves s) (delete_client w fd s')
      (delete_client-Moves w fd s' a.core a.kept.benign
        (record_sent-IsOpen fd s1.out_msg s (status_type s.scheduler_on) false o))
      (λ u. Steps-trans (record_sent-Moves fd s1.out_msg s1 false refl))
  where
    s1 : Scheduler
    s1 = with_type (status_type s.scheduler_on) s

    s' : Scheduler
    s' = record_sent fd s1.out_msg s1 false

    a : After w fd s s'
    a = record_sent-After w fd s1.out_msg s (status_type s.scheduler_on) false v b

bcast_one-Moves :
    (w : World) (c : Client) (s : Scheduler)
    → Core s
    → IsBenign w s
    → IsOpen s.clients c.fd
    → Ensures (Moves s) (bcast_one w c s)
unfolding bcast_one
bcast_one-Moves w c s v b o = elim (Bool-cases (has_registered c)) [
  | inr no_id ↦ rw (no_id, bcast_one) done
  | inl has_id ↦
      rw (has_id, bcast_one)
        (Ensures-bind (λ r. r.1 ≡ record_sent c.fd s1.out_msg s1 r.0) (Moves s)
          (send_message w c.fd s1.out_msg s1)
          (λ (r : Bool × Scheduler). if r.0 then ok r.1 else delete_client w c.fd r.1)
          (send_message-record_sent w c.fd s1.out_msg s1 o)
          (λ r e. rw e (send_or_delete-Moves w c.fd s r.0 v b o)))
]
  where
    s1 : Scheduler
    s1 = with_type (status_type s.scheduler_on) s

bcast_loop-Moves :
    (w : World) (fds : List ℕ) (s : Scheduler)
    → Core s
    → IsBenign w s
    → Distinct fds
    → All (IsOpen s.clients) fds
    → Ensures (Moves s) (bcast_loop w fds s)
unfolding bcast_loop
bcast_loop-Moves w [] s v b d o = done
bcast_loop-Moves w (fd ∷ fds) s v b d o =
    let (c, found, same) = find_client-present fd s.clients o.0 in
    let here = subst (IsOpen s.clients) (sym same) o.0 in
    rw (found, bcast_loop)
      (Ensures-bind (λ t. After w fd s t × Moves s t) (Moves s) (bcast_one w c s) (bcast_loop w fds)
        (Ensures-both (After w fd s) (Moves s) (bcast_one w c s)
          (subst (λ x. Ensures (After w x s) (bcast_one w c s)) same
            (bcast_one-After w c s v b here))
          (bcast_one-Moves w c s v b here))
        λ t k.
          Ensures-map (Moves t) (Moves s) (bcast_loop w fds t)
            (bcast_loop-Moves w fds t k.0.core k.0.kept.benign d.1
              (All-IsOpen-After w fd s t fds k.0 d.0 o.1))
            (λ u. Steps-trans k.1))

pub bcast_status-Moves :
    (w : World) (s : Scheduler) → Core s → IsBenign w s → Ensures (Moves s) (bcast_status w s)
unfolding bcast_status
bcast_status-Moves w s v b =
    bcast_loop-Moves w (fds_of s.clients) s v b v.fds
      (IsOpen-clients s.clients s.clients (λ x h. h))
