-- ===== src/Comm/Sockets.antt =====
-- The UNIX sockets of src/comm.c: the scheduler's listening socket and the clients' connections.
use mathlib.Core.List.{append_assoc, append-nil}
use nvshare.Common.Strings.{strlcpy}
use nvshare.Prelude.{
  refl, take, ◌-◌, Bool-cases, inl, inr, sym, ℕ, ◌≡◌, List, [], ◌∷◌, ◌++◌, Option, none, some,
  arith, Bool, true, false, ◌==◌, if◌then◌else◌, Outcome, ok, spinning, ◌>>=◌, Ensures,
  Ensures-bind,
}
use nvshare.Common.Transfer.{Io, Input, Attempts, retry_intr, read_whole, Got}
use nvshare.Comm.Messages.{enoent, eperm, eintr}

-- What a function here returns: 0 with the descriptor stored, or -1 with `errno`.
pub data Status : Type 0 where
  socket_ok : ℕ → Status
  socket_error : ℕ → Status

-- The status, with the descriptors that the call opened and those that it closed.
pub record Attempt : Type 0 where
  pub status : Status
  pub opened : List ℕ
  pub closed : List ℕ

-- What the kernel answers to one attempt; `none` is success, `some` an error number.
pub record Kernel : Type 0 where
  pub socket : Status
  pub unlink : Option ℕ
  pub bind : Option ℕ
  pub listen : Option ℕ
  pub connect : Option ℕ

abbrev not_opened : ℕ → Attempt
not_opened e = record { status = socket_error e; opened = []; closed = [] }

-- `out_with_sock`
abbrev given_up : ℕ → ℕ → Attempt
given_up fd e = record { status = socket_error e; opened = fd ∷ []; closed = fd ∷ [] }

abbrev kept : ℕ → Attempt
kept fd = record { status = socket_ok fd; opened = fd ∷ []; closed = [] }

-- A stale socket file is deleted first; only its absence is no error.
abbrev unlink_error : Option ℕ → Option ℕ
unlink_error none = none
unlink_error (some e) = if e == enoent then none else some e

unfoldable pub nvshare_unix_bind : Kernel → Attempt
nvshare_unix_bind k = elim k.socket [
  | socket_error e ↦ not_opened e
  | socket_ok fd ↦ elim (unlink_error k.unlink) [
    | some e ↦ given_up fd e
    | none ↦ elim k.bind [ some e ↦ given_up fd e | none ↦ kept fd ]
  ]
]

unfoldable pub nvshare_unix_connect : Kernel → Attempt
nvshare_unix_connect k = elim k.socket [
  | socket_error e ↦ not_opened e
  | socket_ok fd ↦ elim k.connect [ some e ↦ given_up fd e | none ↦ kept fd ]
]

-- After a failed bind `ret` is -1, and `errno = -ret` stores 1, which is EPERM.
unfoldable pub nvshare_bind_and_listen : Kernel → Attempt
nvshare_bind_and_listen k =
    let bound = nvshare_unix_bind k in
    elim bound.status [
      | socket_error e ↦ record bound { status = socket_error eperm }
      | socket_ok fd ↦ elim k.listen [
        | none ↦ bound
        | some e ↦ record bound { status = socket_error e; closed = fd ∷ bound.closed }
      ]
    ]

abbrev after_attempt : Attempt → Attempt → Attempt
after_attempt a r = record r { opened = a.opened ++ r.opened; closed = a.closed ++ r.closed }

abbrev pub is_interrupted : Status → Bool
is_interrupted (socket_ok fd) = false
is_interrupted (socket_error e) = e == eintr

-- RETRY_INTR makes a new attempt, with a new socket, as long as the last one was interrupted.
pub nvshare_connect : List Kernel → Outcome Attempt
nvshare_connect [] = spinning
nvshare_connect (k ∷ ks) =
    let a = nvshare_unix_connect k in
    elim (is_interrupted a.status) [
      | true ↦ do r ← nvshare_connect ks; ok (after_attempt a r)
      | false ↦ ok a
    ]

-- accept4 on the listening socket.
unfoldable pub nvshare_accept : Attempts Status → Status
nvshare_accept call = retry_intr call

unfoldable pub nvshare_send_noblock : Attempts Io → Io
nvshare_send_noblock call = retry_intr call

unfoldable pub nvshare_receive_noblock : Attempts Input → Input
nvshare_receive_noblock call = retry_intr call

unfoldable pub nvshare_receive_block : List (Attempts Input) → ℕ → Outcome Got
nvshare_receive_block calls want = read_whole calls want

-- "/var/run/nvshare/" and "scheduler.sock" in ASCII.
abbrev nvshare_sock_dir : List ℕ
nvshare_sock_dir =
    b'/' ∷ b'v' ∷ b'a' ∷ b'r' ∷ b'/' ∷ b'r' ∷ b'u' ∷ b'n' ∷ b'/' ∷ b'n' ∷ b'v' ∷ b's' ∷ b'h' ∷ b'a'
    ∷ b'r' ∷ b'e' ∷ b'/' ∷ []

abbrev sock_name : List ℕ
sock_name =
    b's' ∷ b'c' ∷ b'h' ∷ b'e' ∷ b'd' ∷ b'u' ∷ b'l' ∷ b'e' ∷ b'r' ∷ b'.' ∷ b's' ∷ b'o' ∷ b'c' ∷ b'k'
    ∷ []

-- sizeof(sun_path)
abbrev nvshare_sock_path_max : ℕ
nvshare_sock_path_max = 108

-- The bytes in `sock_path`, the last NUL included: the directory, and from its NUL on what
-- snprintf(..., "%s", "scheduler.sock") stores, which is what `strlcpy` stores.
pub nvshare_get_scheduler_path : List ℕ
unfolding strlcpy
nvshare_get_scheduler_path =
    let c = strlcpy nvshare_sock_dir nvshare_sock_path_max in
    take c.ret c.dst ++ (strlcpy sock_name (nvshare_sock_path_max - c.ret)).dst

scheduler_path_whole : nvshare_get_scheduler_path ≡ nvshare_sock_dir ++ sock_name ++ 0 ∷ []
unfolding nvshare_get_scheduler_path
scheduler_path_whole = refl

-- What stays open when a call is over: the descriptor it returns, and nothing else.
abbrev pub IsTight : Attempt → Type 0
IsTight a = a.opened ≡ a.closed ++ (elim a.status [ socket_ok fd ↦ fd ∷ [] | socket_error e ↦ [] ])

-- Whatever the kernel answers, `nvshare_bind_and_listen` leaves no descriptor open but the one that
-- it returns with success.
pub nvshare_bind_and_listen-IsTight : (k : Kernel) → IsTight (nvshare_bind_and_listen k)
unfolding nvshare_bind_and_listen nvshare_unix_bind
nvshare_bind_and_listen-IsTight k = ground arith

connect_step-IsTight : (k : Kernel) → IsTight (nvshare_unix_connect k)
unfolding nvshare_unix_connect
connect_step-IsTight k = ground arith

after_attempt-IsTight :
    (a r : Attempt)
    → IsTight a
    → is_interrupted a.status ≡ true
    → IsTight r
    → IsTight (after_attempt a r)
after_attempt-IsTight a r h e k = rw (all_closed, k) (sym (append_assoc a.closed r.closed _))
  where
    all_closed : a.opened ≡ a.closed
    all_closed = ground (arith, append-nil a.closed)

-- Of the attempts that `nvshare_connect` makes while they are interrupted, none leaves a descriptor
-- open but the last one, if it succeeds; with one attempt that is not interrupted the loop ends, and
-- not with EINTR.
pub nvshare_connect_lem :
    (early : List Kernel) (k : Kernel) (late : List Kernel)
    → is_interrupted (nvshare_unix_connect k).status ≡ false
    → Ensures
        (λ r. IsTight r × (is_interrupted r.status ≡ false))
        (nvshare_connect (early ++ k ∷ late))
unfolding nvshare_connect
nvshare_connect_lem [] k late h = rw (h, nvshare_connect) (connect_step-IsTight k, h)
nvshare_connect_lem (e ∷ early) k late h = elim (Bool-cases (is_interrupted a.status)) [
  | inl again ↦
      rw (again, nvshare_connect)
        (Ensures-bind IsFinal IsFinal (nvshare_connect (early ++ k ∷ late))
          (λ r. ok (after_attempt a r)) (nvshare_connect_lem early k late h)
          λ r f. (after_attempt-IsTight a r (connect_step-IsTight e) again f.0, f.1))
  | inr last ↦ rw (last, nvshare_connect) (connect_step-IsTight e, last)
]
  where
    a : Attempt
    a = nvshare_unix_connect e

    IsFinal : Attempt → Type 0
    IsFinal r = IsTight r × (is_interrupted r.status ≡ false)

-- The error number of a failed bind is lost: for any failure of `nvshare_unix_bind`,
-- `nvshare_bind_and_listen` reports EPERM.
pub nvshare_bind_and_listen_errno :
    (k : Kernel) (e : ℕ)
    → (nvshare_unix_bind k).status ≡ socket_error e
    → (nvshare_bind_and_listen k).status ≡ socket_error eperm
unfolding nvshare_bind_and_listen
nvshare_bind_and_listen_errno k e h = ground arith
