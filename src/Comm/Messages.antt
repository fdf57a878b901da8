-- ===== src/Comm/Messages.antt =====
-- `enum message_type`, `struct message`, the error numbers and lengths of src/comm.h, src/common.h.
use nvshare.Prelude.{arith, sym, ap, ◌∙◌, ℕ, ◌+◌, ◌≡◌, List, [], ◌==◌, if◌then◌else◌}

-- The byte of the enumeration may be any number on the wire; `other` is one that no case names.
pub data MessageType : Type 0 where
  register sched_on sched_off req_lock lock_ok drop_lock lock_released set_tq : MessageType
  other : ℕ → MessageType

unfoldable pub to_byte : MessageType → ℕ
to_byte register = 1
to_byte sched_on = 2
to_byte sched_off = 3
to_byte req_lock = 4
to_byte lock_ok = 5
to_byte drop_lock = 6
to_byte lock_released = 7
to_byte set_tq = 8
to_byte (other n) = n

unfoldable pub of_byte : ℕ → MessageType
of_byte n =
    if n == 1
    then register
    else if n == 2
    then sched_on
    else if n == 3
    then sched_off
    else if n == 4
    then req_lock
    else if n == 5
    then lock_ok
    else if n == 6
    then drop_lock
    else if n == 7
    then lock_released
    else if n == 8
    then set_tq
    else other n

-- Character arrays hold the bytes before their NUL.
pub record Message : Type 0 where
  pub type : MessageType
  pub pod_name : List ℕ
  pub pod_namespace : List ℕ
  pub id : ℕ
  pub text : List ℕ

-- `struct message m = {0}`; zero is no message type.
abbrev pub zero_message : Message
zero_message = record { type = other 0; pod_name = []; pod_namespace = []; id = 0; text = [] }

abbrev pub msg_data_len : ℕ
msg_data_len = 20

abbrev pub pod_name_len_max : ℕ
pod_name_len_max = 254

abbrev pub pod_namespace_len_max : ℕ
pod_namespace_len_max = 254

-- The struct is packed: a byte, two arrays, a word of 8 bytes, an array.
abbrev pub message_size : ℕ
message_size = 1 + pod_name_len_max + pod_namespace_len_max + 8 + msg_data_len

abbrev pub unregistered_id : ℕ
unregistered_id = 0xF00DF00DF00DF00D

abbrev pub eperm : ℕ
eperm = 1

abbrev pub enoent : ℕ
enoent = 2

abbrev pub eintr : ℕ
eintr = 4

-- EWOULDBLOCK is the same number on Linux.
abbrev pub eagain : ℕ
eagain = 11

abbrev pub epipe : ℕ
epipe = 32

abbrev pub econnaborted : ℕ
econnaborted = 103

abbrev pub econnreset : ℕ
econnreset = 104

-- Every byte reads as exactly one message type, which is written back as the same byte: no two of
-- the eight types share a number, and an unknown number is kept as it is.
pub to_byte-of_byte : (b : ℕ) → to_byte (of_byte b) ≡ b
unfolding to_byte of_byte
to_byte-of_byte b = ground arith

pub of_byte-injective : (a b : ℕ) → of_byte a ≡ of_byte b → a ≡ b
of_byte-injective a b e = sym (to_byte-of_byte a) ∙ ap to_byte e ∙ to_byte-of_byte b
