-- ===== src/Scheduler/Invariant/Handlers.antt =====
-- Each message handler keeps the invariant, and leaves nobody waiting for a free lock, but for a
-- registered client that registers once more.
use nvshare.Prelude.{
  Ensures-if, ℤ, to_int, ℕ, ◌≡◌, refl, sym, ap, subst, ◌∙◌, Bool, true, false, List, [], ◌∷◌, ◌==◌,
  if◌then◌else◌, Option, none, some, All, arith, ok, Ensures, Ensures-bind, Ensures-map, inl, inr,
  Bool-cases,
}
use nvshare.Scheduler.Clients.{is_head}
use nvshare.Scheduler.Lists.{contains-of_find}
use nvshare.Scheduler.Invariant.Clients.{without-nil}
use nvshare.Comm.Numbers.{strtoll}
use nvshare.Comm.Messages.{Message}
use nvshare.Scheduler.State.{Scheduler, World, Client, find_client, has_registered}
use nvshare.Scheduler.Clients.{
  contains, fds_of, delete_client, insert_req, remove_req, bcast_status, register_client,
}
use nvshare.Scheduler.Dispatch.{
  schedule_if_free, on_register, on_sched_on, on_sched_off, on_set_tq, on_req_lock,
  on_lock_released,
}
use nvshare.Scheduler.Lists.{without-absent}
use nvshare.Scheduler.Invariant.Defs.{
  Core, Inv, Kept, IsBenign, IsLucky, IsOpen, IsRegistered, registered?, IsBusy,
}
use nvshare.Scheduler.Invariant.Clients.{
  removed, delete_client-removed, insert_req-Core, remove_req-Core,
}
use nvshare.Scheduler.Invariant.Broadcast.{bcast_status-Core, removed-After}
use nvshare.Scheduler.Invariant.Register.{Answered, register_client-After}
use nvshare.Scheduler.Invariant.Settled.{
  Kept-Inv, schedule_if_free-Settled, Settles, Settled-Settles, Settles-refl,
}

idle_absent :
    (cs : List Client) (fd : ℕ) (rs : List ℕ)
    → All (IsRegistered cs) rs
    → registered? (find_client fd cs) ≡ false
    → contains fd rs ≡ false
unfolding contains
idle_absent cs fd [] a h = refl
idle_absent cs fd (r ∷ rs) a h = elim (Bool-cases (r == fd)) [
  | inl same ↦ let e : r ≡ fd = ground arith in cc (subst (IsRegistered cs) e a.0)
  | inr different ↦ rw (different, contains) (idle_absent cs fd rs a.1 h)
]

absent_head :
    (fd : ℕ) (rs : List ℕ) (held : Bool)
    → contains fd rs ≡ false
    → (if is_head fd rs then false else held) ≡ held
unfolding contains
absent_head fd [] held h = refl
absent_head fd (r ∷ rs) held h = ground arith

module _ (w : World) (fd : ℕ) (s : Scheduler) (v : Inv s) (b : IsBenign w s) where
  removed-Inv : Inv (removed w fd s)
  removed-Inv =
      let a = removed-After w fd s v.core b in Kept-Inv w s (removed w fd s) v a.core a.kept

  removed_idle-IsBusy : contains fd s.requests ≡ false → IsBusy s → IsBusy (removed w fd s)
  unfolding remove_req
  removed_idle-IsBusy idle h on waits =
      absent_head fd s.requests s.lock_held idle
      ∙ h on (λ e. waits (without-absent fd s.requests idle ∙ e))

  pub delete_client-Inv :
      IsOpen s.clients fd
      → Ensures
          (λ s'. Inv s' × IsBenign w s' × (contains fd s.requests ≡ false → IsBusy s → IsBusy s'))
          (delete_client w fd s)
  delete_client-Inv o =
      Ensures-map (λ s'. s' ≡ removed w fd s)
        (λ s'. Inv s' × IsBenign w s' × (contains fd s.requests ≡ false → IsBusy s → IsBusy s'))
        (delete_client w fd s) (delete_client-removed w fd s o)
        (λ s' e.
          rw e (removed-Inv, (removed-After w fd s v.core b).kept.benign, removed_idle-IsBusy))

  -- A client that does not wait is removed, and the list and the lock stay as they are.
  delete_idle-Settles :
      IsOpen s.clients fd
      → contains fd s.requests ≡ false
      → Ensures (Settles s) (delete_client w fd s)
  delete_idle-Settles o idle =
      Ensures-map
        (λ s'. Inv s' × IsBenign w s' × (contains fd s.requests ≡ false → IsBusy s → IsBusy s'))
        (Settles s) (delete_client w fd s) (delete_client-Inv o)
        (λ s' k. record { inv = k.0; busy = k.2 idle })

  pub on_sched_on-Settles : Ensures (Settles s) (on_sched_on w s)
  unfolding on_sched_on
  on_sched_on-Settles =
      Ensures-if (Settles s) s.scheduler_on (ok s) (bcast_status w s1) (λ on. Settles-refl s v)
        λ off.
          Ensures-map (λ t. Core t × Kept w s1 t) (Settles s) (bcast_status w s1)
            (bcast_status-Core w s1 core1 b)
            (λ t k.
              let none_waits = k.1.emptied (v.off off) in
              record {
                inv = record { core = k.0; off = λ _. none_waits };
                busy = λ _ _ waits. absurd (waits none_waits);
              })
    where
      s1 : Scheduler
      s1 = record s { scheduler_on = true }

      core1 : Core s1
      core1 = record {
        holder = v.holder;
        queued = v.queued;
        once = v.once;
        fds = v.fds;
        clean = v.clean;
      }

  pub on_sched_off-Settles : Ensures (Settles s) (on_sched_off w s)
  unfolding on_sched_off
  on_sched_off-Settles =
      Ensures-if (Settles s) s.scheduler_on _ (ok s)
        (λ on.
          Ensures-bind (λ t. Core t × Kept w s1 t) (Settles s) (bcast_status w s1)
            (λ t. ok (record t { requests = []; lock_held = false }))
            (bcast_status-Core w s1 core1 b) emptied)
        (λ off. Settles-refl s v)
    where
      s1 : Scheduler
      s1 = record s { scheduler_on = false }

      core1 : Core s1
      core1 = record {
        holder = v.holder;
        queued = v.queued;
        once = v.once;
        fds = v.fds;
        clean = v.clean;
      }

      emptied :
          (t : Scheduler)
          → Core t × Kept w s1 t
          → Settles s (record t { requests = []; lock_held = false })
      emptied t k = record {
        inv = record {
          core = record {
            holder = λ h. cc;
            queued = tt;
            once = tt;
            fds = k.0.fds;
            clean = k.0.clean;
          };
          off = λ _. refl;
        };
        busy = λ _ _ waits. absurd (waits refl);
      }

  pub on_set_tq-Settles : (m : Message) → Settles s (on_set_tq m s)
  unfolding on_set_tq
  on_set_tq-Settles m = set (strtoll m.text)
    where
      set :
          (o : Option ℤ)
          → Settles s
              (elim o [ none ↦ s | some n ↦ record s { tq = to_int n; must_reset_timer = true } ])
      set none = Settles-refl s v
      set (some n) = record {
        inv = record {
          core = record {
            holder = v.holder;
            queued = v.queued;
            once = v.once;
            fds = v.fds;
            clean = v.clean;
          };
          off = v.off;
        };
        busy = λ h. h;
      }

pub insert_req-same :
    (fd : ℕ) (s : Scheduler)
    → ((insert_req fd s).scheduler_on ≡ s.scheduler_on) × ((insert_req fd s).clients ≡ s.clients)
unfolding insert_req
insert_req-same fd s = elim (Bool-cases (contains fd s.requests)) [
  | inl old ↦ rw old (refl, refl)
  | inr new ↦ rw new (refl, refl)
]

module _ (w : World) (fd : ℕ) (s : Scheduler) (v : Inv s) (b : IsBenign w s) (c : Client)
    (found : find_client fd s.clients ≡ some c) where
  pub here : IsOpen s.clients fd
  here = (contains-of_find fd s.clients c found).0

  no_request : has_registered c ≡ false → contains fd s.requests ≡ false
  no_request h = idle_absent s.clients fd s.requests v.queued (rw found h)

  pub insert_req-Inv : s.scheduler_on ≡ true → has_registered c ≡ true → Inv (insert_req fd s)
  insert_req-Inv on id = record {
    core = insert_req-Core fd s v.core (rw found id);
    off = λ h. cc (sym on ∙ sym (insert_req-same fd s).0 ∙ h);
  }

  pub remove_req-Inv : Inv (remove_req fd s)
  unfolding remove_req
  remove_req-Inv = record {
    core = remove_req-Core fd s v.core;
    off = λ h. without-nil fd s.requests (v.off h);
  }

  pub on_req_lock-Settles : Ensures (Settles s) (on_req_lock w fd c s)
  unfolding on_req_lock
  on_req_lock-Settles =
      Ensures-if (Settles s) (has_registered c) _ (delete_client w fd s)
        (λ id.
          Ensures-if (Settles s) s.scheduler_on _ (ok s)
            (λ on. Settled-Settles s (schedule_if_free w (insert_req fd s)) (
              schedule_if_free-Settled w (insert_req fd s) (insert_req-Inv on id) (λ d.
                subst (λ cs. contains (w.stale d) (fds_of cs) ≡ false)
                  (sym (insert_req-same fd s).1) (b d))))
            (λ off. Settles-refl s v))
        (λ no_id. delete_idle-Settles w fd s v b here (no_request no_id))

  pub on_lock_released-Settles : Ensures (Settles s) (on_lock_released w fd c s)
  unfolding on_lock_released remove_req
  on_lock_released-Settles =
      Ensures-if (Settles s) (has_registered c) _ (delete_client w fd s)
        (λ id.
          Ensures-if (Settles s) s.scheduler_on _ (ok s)
            (λ on.
              Settled-Settles s (schedule_if_free w (remove_req fd s))
                (schedule_if_free-Settled w (remove_req fd s) remove_req-Inv b))
            (λ off. Settles-refl s v))
        (λ no_id. delete_idle-Settles w fd s v b here (no_request no_id))

  -- A registered client that registers again is removed, and the lock it may have held stays free.
  abbrev pub Registers : Scheduler → Type 0
  Registers s' = Inv s' × (has_registered c ≡ false → IsBusy s → IsBusy s')

  pub on_register-Registers : (m : Message) → IsLucky w s → Ensures Registers (on_register w fd m s)
  unfolding on_register
  on_register-Registers m lucky =
      Ensures-bind (λ r. Answered w fd s r.1) Registers (register_client w fd m s)
        (λ (r : Bool × Scheduler). if r.0 then ok r.1 else delete_client w fd r.1)
        (register_client-After w fd m s v.core b lucky here) (λ r a. ends r.0 r.1 a)
    where
      ends :
          (done : Bool) (t : Scheduler)
          → Answered w fd s t
          → Ensures Registers (if done then ok t else delete_client w fd t)
      ends done t a =
          Ensures-if Registers done (ok t) (delete_client w fd t) (λ _. (tv, λ _. still_busy))
            λ _.
              Ensures-map
                (λ s'.
                  Inv s' × IsBenign w s' × (contains fd t.requests ≡ false → IsBusy t → IsBusy s'))
                Registers (delete_client w fd t)
                (delete_client-Inv w fd t tv a.after.kept.benign a.still)
                (λ u k. (
                  k.0,
                  λ no_id busy.
                      k.2 (ap (contains fd) a.waiting ∙ no_request no_id) (still_busy busy),
                ))
        where
          tv : Inv t
          tv = Kept-Inv w s t v a.after.core a.after.kept

          still_busy : IsBusy s → IsBusy t
          still_busy busy on waits =
              a.held ∙ busy (sym a.after.kept.status ∙ on) (λ e. waits (a.waiting ∙ e))
