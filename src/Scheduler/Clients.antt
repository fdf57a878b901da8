-- ===== src/Scheduler/Clients.antt =====
-- `insert_req`, `remove_req`, `delete_client`, `bcast_status` and `register_client`.
use nvshare.Prelude.{
  ℕ, zero, suc, ◌+◌, Bool, true, false, Option, none, some, List, ◌∷◌, [], ◌++◌, ◌||◌, ◌==◌,
  if◌then◌else◌, Outcome, ok, exited, fault, spinning, ◌>>=◌, ◌>>◌, true_or_exit,
}
use nvshare.Common.Strings.{c_string, strlcpy}
use nvshare.Comm.Messages.{
  Message, MessageType, sched_on, sched_off, unregistered_id, pod_name_len_max,
  pod_namespace_len_max, eintr,
}
use nvshare.Comm.Ids.{generate_id, id_as_text}
use nvshare.Scheduler.State.{Scheduler, World, Client, find_client, has_registered}
use nvshare.Scheduler.Sending.{send_message}

-- Does the list hold a request of the client?
unfoldable pub contains : ℕ → List ℕ → Bool
contains fd [] = false
contains fd (r ∷ rs) = r == fd || contains fd rs

-- A second request of one client changes nothing; a first one goes to the end of the list.
unfoldable pub insert_req : ℕ → Scheduler → Scheduler
insert_req fd s =
    if contains fd s.requests then s else record s { requests = s.requests ++ fd ∷ [] }

-- The loop that deletes every request of the client.
unfoldable pub without : ℕ → List ℕ → List ℕ
without fd [] = []
without fd (r ∷ rs) = let rest = without fd rs in if r == fd then rest else r ∷ rest

abbrev pub is_head : ℕ → List ℕ → Bool
is_head fd [] = false
is_head fd (r ∷ rs) = r == fd

-- The head of the list is the client that holds the lock.
unfoldable pub remove_req : ℕ → Scheduler → Scheduler
remove_req fd s = record s {
  lock_held = if is_head fd s.requests then false else s.lock_held;
  requests = without fd s.requests;
}

-- The loop of `delete_client`. It goes on after `free(c)`, and from then on `client->fd` is read
-- from the freed block, which C leaves undefined: here the read gives the number `stale`, which may be
-- any, and is no `fault`. `key` is what the read gives.
unfoldable pub unlink_clients : ℕ → ℕ → List Client → List Client
unlink_clients key stale [] = []
unlink_clients key stale (c ∷ cs) =
    let dropped = unlink_clients stale stale cs in
    let passed = unlink_clients key stale cs in if c.fd == key then dropped else c ∷ passed

unfoldable pub close_status : Option ℕ → Outcome (Unit {0})
close_status none = ok tt
close_status (some e) = if e == eintr then ok tt else exited

unfoldable pub delete_client : World → ℕ → Scheduler → Outcome Scheduler
unfolding close_status
delete_client w fd s = elim (find_client fd s.clients) [
  | none ↦ fault
  | some c ↦ do
    let s' = remove_req fd s
    true_or_exit (w.epoll_del fd)
    close_status (w.close fd)
    ok (record s' { clients = unlink_clients fd (w.stale fd) s'.clients })
]

abbrev pub status_type : Bool → MessageType
status_type true = sched_on
status_type false = sched_off

abbrev pub with_type : MessageType → Scheduler → Scheduler
with_type t s = record s { out_msg = record s.out_msg { type = t } }

-- What the loop does with one client: the status goes to the registered ones, and a client that
-- cannot take it is removed.
unfoldable pub bcast_one : World → Client → Scheduler → Outcome Scheduler
bcast_one w c s =
    if has_registered c
    then (do
      let s' = with_type (status_type s.scheduler_on) s
      (sent, s'') ← send_message w c.fd s'.out_msg s'
      if sent then ok s'' else delete_client w c.fd s'')
    else ok s

-- The list as it stands when the loop begins. `tmp` is read before the body, which removes no client
-- but its own, as long as `stale` is the descriptor of no client; a client that is gone when its
-- turn comes is read through a pointer to freed memory.
unfoldable pub bcast_loop : World → List ℕ → Scheduler → Outcome Scheduler
bcast_loop w [] s = ok s
bcast_loop w (fd ∷ fds) s = elim (find_client fd s.clients) [
  | none ↦ fault
  | some c ↦ do s' ← bcast_one w c s; bcast_loop w fds s'
]

abbrev pub fds_of : List Client → List ℕ
fds_of [] = []
fds_of (c ∷ cs) = c.fd ∷ fds_of cs

unfoldable pub bcast_status : World → Scheduler → Outcome Scheduler
bcast_status w s = bcast_loop w (fds_of s.clients) s

unfoldable pub id_taken : ℕ → List Client → Bool
id_taken id [] = false
id_taken id (c ∷ cs) = c.id == id || id_taken id cs

unfoldable pub acceptable : List Client → ℕ → Bool
acceptable cs id = if id == unregistered_id then false else if id_taken id cs then false else true

-- `again`: identifiers are drawn, three numbers of `rand` each, until one is acceptable.
unfoldable pub draw_id : (ℕ → ℕ) → List Client → ℕ → ℕ → Option ℕ
draw_id rand cs zero at = none
draw_id rand cs (suc draws) at =
    let next = draw_id rand cs draws (at + 3) in
    let id = generate_id rand at in if acceptable cs id then some id else next

-- The stores through `client`.
unfoldable pub update_client : ℕ → Client → List Client → List Client
update_client fd c' [] = []
update_client fd c' (c ∷ cs) = if c.fd == fd then c' ∷ cs else c ∷ update_client fd c' cs

-- `true` for 0, `false` for -1.
unfoldable pub register_client : World → ℕ → Message → Scheduler → Outcome (Bool × Scheduler)
unfolding id_as_text
register_client w fd m s = elim (find_client fd s.clients) [
  | none ↦ fault
  | some c ↦ if has_registered c then ok (false, s) else elim (draw_id w.rand s.clients w.draws 0) [
    | none ↦ spinning
    | some id ↦ do
      let named = record c {
        id = id;
        pod_name = c_string (strlcpy m.pod_name pod_name_len_max).dst;
        pod_namespace = c_string (strlcpy m.pod_namespace pod_namespace_len_max).dst;
      }
      let s1 = record s { clients = update_client fd named s.clients }
      let out = record s1.out_msg { text = id_as_text id; type = status_type s1.scheduler_on }
      let s2 = record s1 { out_msg = out }
      (sent, s3) ← send_message w fd out s2
      ok (sent, record s3 { out_msg = record s3.out_msg { text = [] } })
  ]
]
