-- ===== src/Comm/Layout.antt =====
-- The 537 bytes of `struct message` in src/comm.h, on a machine whose words start at the low byte.
pub mod RoundTrip
pub mod Delivery
use nvshare.Prelude.{
  ℕ, zero, suc, ◌+◌, ◌*◌, ◌/◌, ◌%◌, ◌^◌, ◌≤◌, ◌<◌, ◌≡◌, refl, sym, ap, ◌∙◌, List, [], ◌∷◌, ◌++◌,
  Option, none, some, length, length-append, take, drop, All, arith, leb, ◌==◌, if◌then◌else◌,
}
use mathlib.Core.Logic.{◌≢◌}
use nvshare.Common.Strings.{c_string}
use nvshare.Comm.Messages.{
  Message, MessageType, to_byte, of_byte, message_size, pod_name_len_max, pod_namespace_len_max,
  msg_data_len,
}

-- A string in a zeroed array of `n` bytes.
unfoldable pub array : ℕ → List ℕ → List ℕ
array zero s = []
array (suc n) [] = 0 ∷ array n []
array (suc n) (b ∷ s) = b ∷ array n s

-- The `n` low bytes of a word, and the word of some bytes.
unfoldable pub word : ℕ → ℕ → List ℕ
word zero x = []
word (suc n) x = x % 256 ∷ word n (x / 256)

unfoldable pub of_word : List ℕ → ℕ
of_word [] = 0
of_word (b ∷ bs) = b + 256 * of_word bs

-- The members after the type.
abbrev pub parts : Message → List ℕ
parts m =
    array pod_name_len_max m.pod_name
    ++ (array pod_namespace_len_max m.pod_namespace ++ (word 8 m.id ++ array msg_data_len m.text))

unfoldable pub layout : Message → List ℕ
layout m = to_byte m.type ∷ parts m

-- The members that start at the front of `buf`.
unfoldable pub members : MessageType → List ℕ → Message
members type buf =
    let after_name = drop pod_name_len_max buf in
    let after_namespace = drop pod_namespace_len_max after_name in
    record {
      type = type;
      pod_name = c_string (take pod_name_len_max buf);
      pod_namespace = c_string (take pod_namespace_len_max after_name);
      id = of_word (take 8 after_namespace);
      text = c_string (take msg_data_len (drop 8 after_namespace));
    }

-- The struct in a buffer; the bytes after it are not looked at.
unfoldable pub read_layout : List ℕ → Option Message
unfolding members
read_layout [] = none
read_layout (type ∷ buf) =
    if leb message_size (1 + length buf) then some (members (of_byte type) buf) else none

-- A string that has its NUL in the array, as `strlcpy` leaves it.
pub record IsText (n : ℕ) (s : List ℕ) : Type 0 where
  pub room : length s < n
  pub no_nul : All (λ (b : ℕ). b ≢ 0) s

-- What the program puts in a message.
pub record IsSendable (m : Message) : Type 0 where
  pub type_known : of_byte (to_byte m.type) ≡ m.type
  pub pod_name : IsText pod_name_len_max m.pod_name
  pub pod_namespace : IsText pod_namespace_len_max m.pod_namespace
  pub id : m.id < 2 ^ 64
  pub text : IsText msg_data_len m.text
