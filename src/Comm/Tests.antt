-- ===== src/Comm/Tests.antt =====
-- Messages, identifiers, numbers and sockets on concrete inputs.
use nvshare.Prelude.{
  ℕ, suc, ◌-◌, ◌≤◌, ◌≡◌, refl, subst, ap, take, drop, Returns, List, [], ◌∷◌, none, some, arith,
  length, Ensures, pos, negsuc, false,
}
use nvshare.Comm.Messages.{eintr}
use nvshare.Comm.Ids.{id_as_text}
use nvshare.Comm.Numbers.{strtoll}
use nvshare.Comm.Messages.{Message, req_lock, message_size, to_byte, of_byte}
use nvshare.Common.Transfer.{Attempts, interrupted, result, Input, bytes, Fits}
use nvshare.Comm.Layout.{layout, array, word, IsSendable}
use nvshare.Comm.Layout.Delivery.{chunk, stream, Arrives, Delivers, nvshare_receive_block-Delivers}
use nvshare.Comm.Sockets.{
  Kernel, socket_ok, IsTight, is_interrupted, nvshare_unix_connect, nvshare_bind_and_listen,
  nvshare_connect, nvshare_receive_block, nvshare_bind_and_listen-IsTight, nvshare_connect_lem,
}

id_in_hex :
    id_as_text 0xbeef
    ≡ b'0' ∷ b'0' ∷ b'0' ∷ b'0' ∷ b'0' ∷ b'0' ∷ b'0' ∷ b'0' ∷ b'0' ∷ b'0' ∷ b'0' ∷ b'0' ∷ b'b'
      ∷ b'e' ∷ b'e' ∷ b'f' ∷ []
unfolding id_as_text
id_in_hex = refl

octal_quantum : strtoll (b'0' ∷ b'1' ∷ b'0' ∷ []) ≡ some (pos 8)
unfolding strtoll
octal_quantum = refl

negative_quantum : strtoll (b' ' ∷ b'-' ∷ b'4' ∷ []) ≡ some (negsuc 3)
unfolding strtoll
negative_quantum = refl

no_quantum : strtoll (b'3' ∷ b'0' ∷ b's' ∷ []) ≡ none
unfolding strtoll
no_quantum = refl

-- A request for the lock, and a socket that hands over one byte at a time after a signal each.
abbrev lock_request : Message
lock_request = record {
  type = req_lock;
  pod_name = b'p' ∷ b'o' ∷ b'd' ∷ [];
  pod_namespace = [];
  id = 0xbeef;
  text = [];
}

layout-lock_request : take 5 (layout lock_request) ≡ 4 ∷ b'p' ∷ b'o' ∷ b'd' ∷ 0 ∷ []
unfolding layout to_byte array
layout-lock_request = refl

id_at_the_end : take 3 (drop 509 (layout lock_request)) ≡ 0xef ∷ 0xbe ∷ 0 ∷ []
unfolding layout to_byte array word
id_at_the_end = refl

lock_request-IsSendable : IsSendable lock_request
unfolding of_byte to_byte
lock_request-IsSendable = record {
  type_known = refl;
  pod_name = record {
    room = omega arith;
    no_nul = (λ e. omega arith, (λ e. omega arith, (λ e. omega arith, tt)));
  };
  pod_namespace = record { room = omega arith; no_nul = tt };
  id = omega arith;
  text = record { room = omega arith; no_nul = tt };
}

abbrev byte_socket : List ℕ → List (Attempts Input)
byte_socket [] = []
byte_socket (b ∷ bs) = interrupted (result (bytes (b ∷ []))) ∷ byte_socket bs

byte_socket-same : (bs : List ℕ) → stream (byte_socket bs) ≡ bs
byte_socket-same [] = refl
byte_socket-same (b ∷ bs) = ap (◌∷◌ b) (byte_socket-same bs)

byte_socket-Arrives : (bs : List ℕ) → Arrives (byte_socket bs)
byte_socket-Arrives [] = tt
byte_socket-Arrives (b ∷ bs) = (tt, byte_socket-Arrives bs)

byte_socket-Fits : (bs : List ℕ) → Fits (byte_socket bs) (length bs)
byte_socket-Fits [] = tt
byte_socket-Fits (b ∷ bs) = λ xs e.
    subst
      (λ ys. (length ys ≤ suc (length bs)) × Fits (byte_socket bs) (suc (length bs) - length ys))
      (ap chunk e) (omega arith, subst (Fits (byte_socket bs)) (omega arith) (byte_socket-Fits bs))

nvshare_receive_block-Delivers_example :
    Returns
      (Delivers lock_request)
      (nvshare_receive_block (byte_socket (layout lock_request)) message_size)
nvshare_receive_block-Delivers_example =
    nvshare_receive_block-Delivers byte_socket lock_request
      (record { same = byte_socket-same; arrives = byte_socket-Arrives; fits = byte_socket-Fits })
      lock_request-IsSendable

-- The bind fails with EADDRINUSE, 98; the connection is interrupted.
abbrev busy : Kernel
busy = record {
  socket = socket_ok 3;
  unlink = none;
  bind = some 98;
  listen = none;
  connect = some eintr;
}

abbrev quiet : Kernel
quiet = record { socket = socket_ok 4; unlink = none; bind = none; listen = none; connect = none }

nvshare_bind_and_listen-IsTight_example : IsTight (nvshare_bind_and_listen busy)
nvshare_bind_and_listen-IsTight_example = nvshare_bind_and_listen-IsTight busy

nvshare_connect_lem_example :
    Ensures
      (λ r. IsTight r × (is_interrupted r.status ≡ false))
      (nvshare_connect (busy ∷ quiet ∷ []))
unfolding nvshare_unix_connect
nvshare_connect_lem_example = nvshare_connect_lem (busy ∷ []) quiet [] refl
