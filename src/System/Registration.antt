-- ===== src/System/Registration.antt =====
-- A registration: what the scheduler keeps of a client, and what the client learns from the answer.
use nvshare.Prelude.{
  ℕ, zero, suc, ◌-◌, ◌≤◌, ◌<◌, ◌≡◌, refl, ap, ◌∙◌, Bool, true, false, not, List, [], ◌∷◌, ◌++◌,
  some, All, ◌≢◌, ◌^◌, length, take, ◌==◌, ==_iff, ok, ◌>>=◌, Ensures, Ensures-bind, ◌⊎◌, inl, inr,
  arith, Bool-cases,
}
use nvshare.Common.Strings.{c_string, strlcpy, strlcpy_lem}
use nvshare.Comm.Messages.{Message, pod_name_len_max, pod_namespace_len_max}
use nvshare.Comm.Ids.{id_as_text, text_as_id-id_as_text}
use nvshare.Comm.Layout.{IsText}
use nvshare.Scheduler.State.{Scheduler, World, Client, find_client, has_registered}
use nvshare.Scheduler.Sending.{send_message, record_sent}
use nvshare.Scheduler.Clients.{register_client, acceptable, status_type}
use nvshare.Scheduler.Lists.{find_client-update_client, contains-of_find}
use nvshare.Scheduler.Invariant.{
  Core, IsBenign, IsLucky, IsFresh, draw_id_total, send_message-record_sent, from_zero, named,
  answered, cleaned, answered-IsOpen,
}
use nvshare.Client.State.{Process, received}
use nvshare.Client.Start.{initial_status, take_status, take_id, with_id}

c_string_ends : (s : List ℕ) → All (λ (b : ℕ). b ≢ 0) s → c_string (s ++ 0 ∷ []) ≡ s
c_string_ends [] h = refl
c_string_ends (b ∷ s) h = elim (Bool-cases (b == 0)) [
  | inl nul ↦ absurd (ground (arith, h.0, nul))
  | inr other ↦ rw other (ap (◌∷◌ b) (c_string_ends s h.1))
]

take_short : (n : ℕ) (s : List ℕ) → length s ≤ n → take n s ≡ s
take_short zero [] h = refl
take_short zero (b ∷ s) h = absurd (omega arith)
take_short (suc n) [] h = refl
take_short (suc n) (b ∷ s) h = ap (◌∷◌ b) (take_short n s (omega arith))

-- A text that has room in the array is copied whole.
copied : (n : ℕ) (s : List ℕ) → 0 < n → IsText n s → c_string (strlcpy s n).dst ≡ s
copied n s pos v =
    ap c_string ((strlcpy_lem s n pos).0)
    ∙ ap (λ t. c_string (t ++ 0 ∷ [])) (take_short (n - 1) s (omega (arith, v.room)))
    ∙ c_string_ends s v.no_nul

-- What the client makes of the answer: the scheduler's status, and its identifier.
understood :
    (on : Bool) (id : ℕ) (out : Message) (p : Process)
    → id < 2 ^ 64
    → initial_status (record out { text = id_as_text id; type = status_type on }) p
      ≡ ok (record p {
        scheduler_on = on;
        own_lock = not on;
        need_lock = false;
        nvshare_client_id = id;
        log = received (status_type on) ∷ p.log;
      })
unfolding initial_status take_status take_id with_id
understood true id out p h = rw ((text_as_id-id_as_text id h).0) refl
understood false id out p h = rw ((text_as_id-id_as_text id h).0) refl

-- The scheduler and the client agree: the client is listed under the names that it sent and under an
-- identifier that no other client has, and the answer, which is all that was sent, gives the client
-- this identifier and the scheduler's status.
pub record Welcomed (fd : ℕ) (m : Message) (c : Client) (s s' : Scheduler) : Type 0 where
  pub id : ℕ
  pub reply : Message
  pub told : s'.sent ≡ record { to = fd; message = reply } ∷ s.sent
  pub listed :
      find_client fd s'.clients
      ≡ some (record c { id = id; pod_name = m.pod_name; pod_namespace = m.pod_namespace })
  pub new : acceptable s.clients id ≡ true
  pub learns :
      (p : Process)
      → initial_status reply p
        ≡ ok (record p {
          scheduler_on = s.scheduler_on;
          own_lock = not s.scheduler_on;
          need_lock = false;
          nvshare_client_id = id;
          log = received (status_type s.scheduler_on) ∷ p.log;
        })

module _ (w : World) (fd : ℕ) (m : Message) (s : Scheduler) (c : Client) (id : ℕ) (v : Core s)
    (b : IsBenign w s) (found : find_client fd s.clients ≡ some c) (fresh : IsFresh s.clients id)
    (name : IsText pod_name_len_max m.pod_name)
    (namespace : IsText pod_namespace_len_max m.pod_namespace) where
  abbrev reply : Scheduler
  reply = answered w fd m s c id v b found fresh

  kept_names :
      named w fd m s c id v b found fresh
      ≡ record c { id = id; pod_name = m.pod_name; pod_namespace = m.pod_namespace }
  kept_names =
      rw
        (
          copied pod_name_len_max m.pod_name (omega arith) name,
          copied pod_namespace_len_max m.pod_namespace (omega arith) namespace,
        )
        refl

  is_listed : find_client fd reply.clients ≡ some (named w fd m s c id v b found fresh)
  is_listed =
      let k = contains-of_find fd s.clients c found in
      find_client-update_client fd fd (named w fd m s c id v b found fresh) s.clients k.1 k.0
      ∙ rw ((==_iff fd fd).1 refl) refl

  welcome :
      (sent : Bool)
      → (sent ≡ false)
        ⊎ Welcomed fd m c s
            (cleaned w fd m s c id v b found fresh (record_sent fd reply.out_msg reply sent))
  unfolding record_sent
  welcome false = inl refl
  welcome true = inr (record {
    id = id;
    reply = reply.out_msg;
    told = refl;
    listed = is_listed ∙ ap some kept_names;
    new = fresh.accepted;
    learns = λ p. understood s.scheduler_on id s.out_msg p fresh.fits;
  })

  answer_welcomes :
      Ensures
        (λ (r : Bool × Scheduler). (r.0 ≡ false) ⊎ Welcomed fd m c s r.1)
        (do
          (sent, s3) ← send_message w fd reply.out_msg reply
          ok (sent, cleaned w fd m s c id v b found fresh s3))
  answer_welcomes =
      Ensures-bind (λ r. r.1 ≡ record_sent fd reply.out_msg reply r.0)
        (λ (r : Bool × Scheduler). (r.0 ≡ false) ⊎ Welcomed fd m c s r.1)
        (send_message w fd reply.out_msg reply)
        (λ (r : Bool × Scheduler). ok (r.0, cleaned w fd m s c id v b found fresh r.1))
        (send_message-record_sent w fd reply.out_msg reply
          (answered-IsOpen w fd m s c id v b found fresh))
        (λ r e. rw e (welcome r.0))

-- A client that has not registered before and sends names that fit their arrays: register_client
-- fails to send the answer, or the scheduler and the client agree on the client's identifier, which
-- no other client has, on its names and on the scheduler's status.
pub register_client-Welcomed :
    (w : World) (fd : ℕ) (m : Message) (s : Scheduler) (c : Client)
    → Core s
    → IsBenign w s
    → IsLucky w s
    → find_client fd s.clients ≡ some c
    → has_registered c ≡ false
    → IsText pod_name_len_max m.pod_name
    → IsText pod_namespace_len_max m.pod_namespace
    → Ensures (λ r. (r.0 ≡ false) ⊎ Welcomed fd m c s r.1) (register_client w fd m s)
unfolding register_client
register_client-Welcomed w fd m s c v b lucky found unregistered name namespace =
    let (id, drawn, fresh) =
      draw_id_total w.rand s.clients w.draws 0 lucky.draw lucky.drawn (from_zero w s lucky) in
    rw (found, register_client, unregistered, drawn)
      (answer_welcomes w fd m s c id v b found fresh name namespace)
