-- ===== src/Scheduler/Refinement/Handlers.antt =====
-- The handlers of `process_msg` hear one message, and then take steps of the protocol.
use nvshare.Prelude.{
  Ensures-if, ℤ, ℕ, ◌≡◌, sym, subst, true, false, [], Option, none, some, if◌then◌else◌, Outcome,
  ok, Ensures, Ensures-bind, Ensures-map, Ensures-both, Bool-cases, inl, inr, to_int,
}
use nvshare.Comm.Numbers.{strtoll}
use nvshare.Comm.Messages.{
  Message, MessageType, register, sched_on, sched_off, req_lock, lock_ok, drop_lock, lock_released,
  set_tq, other,
}
use nvshare.Scheduler.State.{Scheduler, World, Client, find_client, has_registered}
use nvshare.Scheduler.Clients.{
  contains, fds_of, delete_client, insert_req, remove_req, bcast_status,
}
use nvshare.Scheduler.Dispatch.{
  schedule_if_free, dispatch, on_gone, on_sched_on, on_sched_off, on_set_tq, on_req_lock,
  on_lock_released,
}
use nvshare.Scheduler.Protocol.{
  Lock, Steps, Steps-trans, Heard, ignored, asks, gives_back, turns_on, turns_off, empty, one, done,
  expels,
}
use nvshare.Scheduler.Invariant.{
  Core, Inv, Kept, IsBenign, IsLucky, IsOpen, delete_client-Inv, bcast_status-Core, insert_req-Inv,
  remove_req-Inv, insert_req-same, here,
}
use nvshare.Scheduler.Refinement.Moves.{view, Moves, closed, view-delete_client}
use nvshare.Scheduler.Refinement.Schedule.{schedule_if_free-Moves}
use nvshare.Scheduler.Refinement.Broadcast.{bcast_status-Moves}
use nvshare.Scheduler.Refinement.Register.{on_register-Moves}

-- A message of the client is heard, and the scheduler goes on by itself.
pub record Hears (fd : ℕ) (t : MessageType) (s s' : Scheduler) : Type 0 where
  pub heard : Lock
  pub effect : Heard fd (view s) t heard
  pub steps : Steps heard (view s')

-- A message of no effect, and what the scheduler does after it.
unheard :
    (fd : ℕ) (t : MessageType) (s : Scheduler) (m : Outcome Scheduler)
    → (t ≡ lock_released → s.scheduler_on ≡ false)
    → Ensures (Moves s) m
    → Ensures (Hears fd t s) m
unheard fd t s m late h =
    Ensures-map (Moves s) (Hears fd t s) m h
      (λ u k. record { heard = view s; effect = ignored t late; steps = k })

-- A client that is expelled, and what the scheduler does after that.
pub expelled :
    (fd : ℕ) (t : MessageType) (s : Scheduler) (m : Outcome Scheduler)
    → Ensures (λ u. Steps (closed fd (view s)) (view u)) m
    → Ensures (Hears fd t s) m
expelled fd t s m h =
    Ensures-map (λ u. Steps (closed fd (view s)) (view u)) (Hears fd t s) m h
      (λ u k. record { heard = closed fd (view s); effect = expels t; steps = k })

closes : {p q : Lock} → q ≡ p → Steps p q
closes {p} e = subst (Steps p) (sym e) done

pub on_gone_closes :
    (w : World) (fd : ℕ) (s : Scheduler)
    → Inv s
    → IsBenign w s
    → IsOpen s.clients fd
    → Ensures (λ u. Steps (closed fd (view s)) (view u)) (on_gone w fd s)
unfolding on_gone
on_gone_closes w fd s v b o =
    Ensures-bind (λ t. (Inv t × IsBenign w t × _) × (view t ≡ closed fd (view s))) Closes
      (delete_client w fd s) (λ t. if t.scheduler_on then schedule_if_free w t else ok t)
      (Ensures-both (λ t. Inv t × IsBenign w t × _) (λ t. view t ≡ closed fd (view s))
        (delete_client w fd s) (delete_client-Inv w fd s v b o)
        (view-delete_client w fd s v.core b o))
      λ t k.
        Ensures-if Closes t.scheduler_on (schedule_if_free w t) (ok t)
          (λ on.
            Ensures-map (Moves t) Closes (schedule_if_free w t)
              (schedule_if_free-Moves w t k.0.0.core k.0.1) (λ u. Steps-trans (closes k.1)))
          (λ off. closes k.1)
  where
    Closes : Scheduler → Type 0
    Closes u = Steps (closed fd (view s)) (view u)

module _ (w : World) (fd : ℕ) (s : Scheduler) (v : Inv s) (b : IsBenign w s) where
  on_sched_on-Hears : Ensures (Hears fd sched_on s) (on_sched_on w s)
  unfolding on_sched_on
  on_sched_on-Hears =
      Ensures-if (Hears fd sched_on s) s.scheduler_on (ok s) (bcast_status w s1)
        (λ on. record { heard = view s; effect = ignored sched_on (λ e. cc); steps = done })
        λ off.
          Ensures-map (Moves s1) (Hears fd sched_on s) (bcast_status w s1)
            (bcast_status-Moves w s1 core1 b)
            (λ t k. record { heard = view s1; effect = turns_on; steps = k })
    where
      s1 : Scheduler
      s1 = record s { scheduler_on = true }

      core1 : Core s1
      core1 = record {
        holder = v.holder;
        queued = v.queued;
        once = v.once;
        fds = v.fds;
        clean = v.clean;
      }

  on_sched_off-Hears : Ensures (Hears fd sched_off s) (on_sched_off w s)
  unfolding on_sched_off
  on_sched_off-Hears =
      Ensures-if (Hears fd sched_off s) s.scheduler_on _ (ok s)
        (λ on.
          Ensures-bind (λ t. (Core t × Kept w s1 t) × Moves s1 t) (Hears fd sched_off s)
            (bcast_status w s1) (λ t. ok (record t { requests = []; lock_held = false }))
            (Ensures-both (λ t. Core t × Kept w s1 t) (Moves s1) (bcast_status w s1)
              (bcast_status-Core w s1 core1 b) (bcast_status-Moves w s1 core1 b))
            λ t k. record {
              heard = view s1;
              effect = turns_off;
              steps = Steps-trans k.1 (one (empty k.0.1.status));
            })
        (λ off. record { heard = view s; effect = ignored sched_off (λ e. cc); steps = done })
    where
      s1 : Scheduler
      s1 = record s { scheduler_on = false }

      core1 : Core s1
      core1 = record {
        holder = v.holder;
        queued = v.queued;
        once = v.once;
        fds = v.fds;
        clean = v.clean;
      }

  on_set_tq-Moves : (m : Message) → Moves s (on_set_tq m s)
  unfolding on_set_tq
  on_set_tq-Moves m = set (strtoll m.text)
    where
      set :
          (o : Option ℤ)
          → Moves s
              (elim o [ none ↦ s | some n ↦ record s { tq = to_int n; must_reset_timer = true } ])
      set none = done
      set (some n) = done

module _ (w : World) (fd : ℕ) (s : Scheduler) (v : Inv s) (b : IsBenign w s) (c : Client)
    (found : find_client fd s.clients ≡ some c) where
  slams : (t : MessageType) → Ensures (Hears fd t s) (delete_client w fd s)
  slams t = expelled fd t s (delete_client w fd s) (
      Ensures-map (λ u. view u ≡ closed fd (view s)) (λ u. Steps (closed fd (view s)) (view u))
        (delete_client w fd s) (view-delete_client w fd s v.core b (here w fd s v b c found))
        (λ u. closes))

  asked : s.scheduler_on ≡ true → has_registered c ≡ true → Hears fd req_lock s (insert_req fd s)
  unfolding insert_req
  asked on id = elim (Bool-cases (contains fd s.requests)) [
    | inl old ↦
        rw old (record { heard = view s; effect = ignored req_lock (λ e. cc); steps = done })
    | inr new ↦ rw new (record { heard = _; effect = asks on new; steps = done })
  ]

  on_req_lock-Hears : Ensures (Hears fd req_lock s) (on_req_lock w fd c s)
  unfolding on_req_lock
  on_req_lock-Hears =
      Ensures-if (Hears fd req_lock s) (has_registered c) _ (delete_client w fd s)
        (λ id.
          Ensures-if (Hears fd req_lock s) s.scheduler_on _ (ok s)
            (λ on.
              let k = asked on id in
              Ensures-map (Moves (insert_req fd s)) (Hears fd req_lock s)
                (schedule_if_free w (insert_req fd s))
                (schedule_if_free-Moves w (insert_req fd s)
                  (insert_req-Inv w fd s v b c found on id).core
                  (λ d.
                    subst (λ cs. contains (w.stale d) (fds_of cs) ≡ false)
                      (sym (insert_req-same fd s).1) (b d)))
                (λ u r. record {
                  heard = k.heard;
                  effect = k.effect;
                  steps = Steps-trans k.steps r;
                }))
            (λ off. record { heard = view s; effect = ignored req_lock (λ e. cc); steps = done }))
        (λ no_id. slams req_lock)

  on_lock_released-Hears : Ensures (Hears fd lock_released s) (on_lock_released w fd c s)
  unfolding on_lock_released remove_req
  on_lock_released-Hears =
      Ensures-if (Hears fd lock_released s) (has_registered c) _ (delete_client w fd s)
        (λ id.
          Ensures-if (Hears fd lock_released s) s.scheduler_on _ (ok s)
            (λ on.
              Ensures-map (Moves (remove_req fd s)) (Hears fd lock_released s)
                (schedule_if_free w (remove_req fd s))
                (schedule_if_free-Moves w (remove_req fd s) (remove_req-Inv w fd s v b c found).core
                  b)
                (λ u r. record { heard = _; effect = gives_back on; steps = r }))
            (λ off. record {
              heard = view s;
              effect = ignored lock_released (λ _. off);
              steps = done;
            }))
        (λ no_id. slams lock_released)

  pub dispatch-Hears :
      (m : Message) (t : MessageType) → IsLucky w s → Ensures (Hears fd t s) (dispatch t w fd c m s)
  unfolding dispatch
  dispatch-Hears m register lucky =
      unheard fd register s (dispatch register w fd c m s) (λ e. cc)
        (on_register-Moves w fd m s v.core b lucky (here w fd s v b c found))
  dispatch-Hears m sched_on lucky = on_sched_on-Hears w fd s v b
  dispatch-Hears m sched_off lucky = on_sched_off-Hears w fd s v b
  dispatch-Hears m set_tq lucky = record {
    heard = view s;
    effect = ignored set_tq (λ e. cc);
    steps = on_set_tq-Moves w fd s v b m;
  }
  dispatch-Hears m req_lock lucky = on_req_lock-Hears
  dispatch-Hears m lock_released lucky = on_lock_released-Hears
  dispatch-Hears m lock_ok lucky = record {
    heard = view s;
    effect = ignored lock_ok (λ e. cc);
    steps = done;
  }
  dispatch-Hears m drop_lock lucky = record {
    heard = view s;
    effect = ignored drop_lock (λ e. cc);
    steps = done;
  }
  dispatch-Hears m (other n) lucky = record {
    heard = view s;
    effect = ignored (other n) (λ e. cc);
    steps = done;
  }
