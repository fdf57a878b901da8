-- ===== src/Scheduler/Invariant/Register.antt =====
-- Registration gives out fresh identifiers, and keeps the invariant.
use nvshare.Prelude.{
  ℕ, zero, suc, ◌+◌, ◌*◌, ◌^◌, ◌<◌, ◌≡◌, refl, ap, Bool, true, false, List, [], ◌∷◌, some, All,
  arith, ok, Ensures, Ensures-bind, ◌>>=◌, inl, inr, Bool-cases,
}
use nvshare.Comm.Messages.{Message, pod_name_len_max, pod_namespace_len_max}
use nvshare.Common.Strings.{c_string, strlcpy}
use nvshare.Comm.Ids.{generate_id, generate_id-lt, id_as_text}
use nvshare.Scheduler.State.{Sent, Scheduler, World, Client, find_client, has_registered}
use nvshare.Scheduler.Sending.{send_message, record_sent}
use nvshare.Scheduler.Clients.{
  contains, fds_of, acceptable, draw_id, update_client, register_client, status_type,
}
use nvshare.Scheduler.Lists.{
  find_client-present, find_client-update_client, fds_of-update_client, contains-of_find,
}
use nvshare.Scheduler.Invariant.Defs.{Core, IsBenign, IsOpen, IsLucky, IsRegistered}
use nvshare.Scheduler.Invariant.Broadcast.{After, Kept-refl, send_message-record_sent}

-- An identifier that `register_client` may give out.
pub record IsFresh (cs : List Client) (id : ℕ) : Type 0 where
  pub accepted : acceptable cs id ≡ true
  pub fits : id < 2 ^ 64

-- With an acceptable draw among the first `draws`, the loop at `again` ends, with a fresh identifier.
pub draw_id_total :
    (rand : ℕ → ℕ) (cs : List Client) (draws at k : ℕ)
    → k < draws
    → acceptable cs (generate_id rand (at + k * 3)) ≡ true
    → (id : ℕ) × (draw_id rand cs draws at ≡ some id) × IsFresh cs id
unfolding draw_id
draw_id_total rand cs zero at k h good = absurd (omega arith)
draw_id_total rand cs (suc draws) at zero h good =
    let e : at + 0 * 3 ≡ at = omega arith in
    let now : acceptable cs (generate_id rand at) ≡ true = rw e at good in
    (
      generate_id rand at,
      rw (now, draw_id) refl,
      record { accepted = now; fits = generate_id-lt rand at },
    )
draw_id_total rand cs (suc draws) at (suc k) h good =
    elim (Bool-cases (acceptable cs (generate_id rand at))) [
      | inl now ↦ (
        generate_id rand at,
        rw (now, draw_id) refl,
        record { accepted = now; fits = generate_id-lt rand at },
      )
      | inr later ↦
          let e : at + 3 + k * 3 ≡ at + suc k * 3 = omega arith in
          let (id, drawn, fresh) =
            draw_id_total rand cs draws (at + 3) k (omega arith) (rw e good) in
          (id, rw (later, draw_id) drawn, fresh)
    ]

acceptable-has_registered :
    (cs : List Client) (c : Client) → acceptable cs c.id ≡ true → has_registered c ≡ true
unfolding acceptable has_registered
acceptable-has_registered cs c h = ground arith

All-update_client :
    (cs : List Client) (fd : ℕ) (c : Client) (rs : List ℕ)
    → c.fd ≡ fd
    → contains fd (fds_of cs) ≡ true
    → has_registered c ≡ true
    → All (IsRegistered cs) rs
    → All (IsRegistered (update_client fd c cs)) rs
All-update_client cs fd c [] e o h a = tt
All-update_client cs fd c (x ∷ rs) e o h a = (
  ground (arith, find_client-update_client x fd c cs e o),
  All-update_client cs fd c rs e o h a.1,
)

-- Registration touches neither the list of requests nor the lock.
pub record Answered (w : World) (fd : ℕ) (s s' : Scheduler) : Type 0 where
  pub after : After w fd s s'
  pub waiting : s'.requests ≡ s.requests
  pub held : s'.lock_held ≡ s.lock_held
  pub still : IsOpen s'.clients fd

with_sent-After :
    (w : World) (fd : ℕ) (s u : Scheduler) (log : List Sent)
    → After w fd s u
    → After w fd s (record u { sent = log })
with_sent-After w fd s u log a = record {
  core = record {
    holder = a.core.holder;
    queued = a.core.queued;
    once = a.core.once;
    fds = a.core.fds;
    clean = a.core.clean;
  };
  kept = record { benign = a.kept.benign; status = a.kept.status; emptied = a.kept.emptied };
  others = a.others;
}

module _ (w : World) (fd : ℕ) (m : Message) (s : Scheduler) (c : Client) (id : ℕ) (v : Core s)
    (b : IsBenign w s) (found : find_client fd s.clients ≡ some c)
    (fresh : IsFresh s.clients id) where
  abbrev pub named : Client
  named = record c {
    id = id;
    pod_name = c_string (strlcpy m.pod_name pod_name_len_max).dst;
    pod_namespace = c_string (strlcpy m.pod_namespace pod_namespace_len_max).dst;
  }

  abbrev pub answered : Scheduler
  answered =
      let s1 = record s { clients = update_client fd named s.clients } in
      record s1 {
        out_msg = record s1.out_msg { text = id_as_text id; type = status_type s1.scheduler_on };
      }

  abbrev pub cleaned : Scheduler → Scheduler
  cleaned s3 = record s3 { out_msg = record s3.out_msg { text = [] } }

  present : contains fd (fds_of s.clients) ≡ true
  present = (contains-of_find fd s.clients c found).0

  same_fd : c.fd ≡ fd
  same_fd = (contains-of_find fd s.clients c found).1

  pub same_fds : fds_of (update_client fd named s.clients) ≡ fds_of s.clients
  same_fds = fds_of-update_client fd named s.clients same_fd

  pub answered-IsOpen : IsOpen answered.clients fd
  answered-IsOpen = rw same_fds present

  cleaned_base-After : After w fd s (cleaned answered)
  cleaned_base-After = record {
    core = record {
      holder = v.holder;
      queued =
          All-update_client s.clients fd named s.requests same_fd present
            (acceptable-has_registered s.clients named fresh.accepted) v.queued;
      once = v.once;
      fds = rw same_fds v.fds;
      clean = refl;
    };
    kept = record { benign = λ d. rw same_fds (b d); status = refl; emptied = λ e. e };
    others = λ x h. ap (contains x) same_fds;
  }

  cleaned-After :
      (sent : Bool) → After w fd s (cleaned (record_sent fd answered.out_msg answered sent))
  unfolding record_sent
  cleaned-After true = with_sent-After w fd s (cleaned answered) _ cleaned_base-After
  cleaned-After false = cleaned_base-After

  cleaned_same :
      (sent : Bool)
      → let s' = cleaned (record_sent fd answered.out_msg answered sent) in
        (s'.requests ≡ s.requests) × (s'.lock_held ≡ s.lock_held) × IsOpen s'.clients fd
  unfolding record_sent
  cleaned_same true = (refl, refl, answered-IsOpen)
  cleaned_same false = (refl, refl, answered-IsOpen)

  answer-After :
      Ensures
        (λ (r : Bool × Scheduler). Answered w fd s r.1)
        (do (sent, s3) ← send_message w fd answered.out_msg answered; ok (sent, cleaned s3))
  answer-After =
      Ensures-bind (λ r. r.1 ≡ record_sent fd answered.out_msg answered r.0)
        (λ (r : Bool × Scheduler). Answered w fd s r.1)
        (send_message w fd answered.out_msg answered)
        (λ (r : Bool × Scheduler). ok (r.0, cleaned r.1))
        (send_message-record_sent w fd answered.out_msg answered answered-IsOpen)
        (λ r e. rw e (record {
          after = cleaned-After r.0;
          waiting = (cleaned_same r.0).0;
          held = (cleaned_same r.0).1;
          still = (cleaned_same r.0).2;
        }))

-- The accepted draw, counted as the loop counts.
pub from_zero :
    (w : World) (s : Scheduler) (lucky : IsLucky w s)
    → acceptable s.clients (generate_id w.rand (0 + lucky.draw * 3)) ≡ true
from_zero w s lucky = let e : 0 + lucky.draw * 3 ≡ lucky.draw * 3 = omega arith in rw e lucky.free

pub register_client-After :
    (w : World) (fd : ℕ) (m : Message) (s : Scheduler)
    → Core s
    → IsBenign w s
    → IsLucky w s
    → IsOpen s.clients fd
    → Ensures (λ r. Answered w fd s r.1) (register_client w fd m s)
unfolding register_client
register_client-After w fd m s v b lucky o =
    let (c, found, same) = find_client-present fd s.clients o in
    let (id, drawn, fresh) =
      draw_id_total w.rand s.clients w.draws 0 lucky.draw lucky.drawn (from_zero w s lucky) in
    elim (Bool-cases (has_registered c)) [
      | inl again ↦
          rw (found, register_client, again)
            (record {
              after = record { core = v; kept = Kept-refl w s b; others = λ x h. refl };
              waiting = refl;
              held = refl;
              still = o;
            })
      | inr new ↦
          rw (found, register_client, new, drawn) (answer-After w fd m s c id v b found fresh)
    ]
