-- ===== src/Comm/Layout/RoundTrip.antt =====
-- The members of a message are read back from its bytes.
use nvshare.Prelude.{
  ℕ, zero, suc, ◌+◌, ◌/◌, ◌^◌, ◌<◌, ◌≡◌, refl, ap, ◌∙◌, List, [], ◌∷◌, ◌++◌, none, some, length,
  length-append, take, drop, arith, leb, if◌then◌else◌,
}
use nvshare.Common.Strings.{c_string}
use nvshare.Comm.Messages.{
  Message, MessageType, to_byte, of_byte, message_size, pod_name_len_max, pod_namespace_len_max,
  msg_data_len,
}
use nvshare.Comm.Layout.{
  array, word, of_word, parts, layout, members, read_layout, IsText, IsSendable,
}

pub length-array : (n : ℕ) (s : List ℕ) → length (array n s) ≡ n
unfolding array
length-array zero s = refl
length-array (suc n) [] = ap suc (length-array n [])
length-array (suc n) (b ∷ s) = ap suc (length-array n s)

pub length-word : (n x : ℕ) → length (word n x) ≡ n
unfolding word
length-word zero x = refl
length-word (suc n) x = ap suc (length-word n (x / 256))

c_string-zeros : (n : ℕ) → c_string (array n []) ≡ []
unfolding array
c_string-zeros zero = refl
c_string-zeros (suc n) = refl

c_string-array : (n : ℕ) (s : List ℕ) → IsText n s → c_string (array n s) ≡ s
unfolding array
c_string-array zero s v = absurd (omega (arith, v.room))
c_string-array (suc n) [] v = refl
c_string-array (suc n) (b ∷ s) v = ground (
  arith,
  v.no_nul.0,
  c_string-array n s (record { room = omega (arith, v.room); no_nul = v.no_nul.1 }),
)

of_word-word : (n x : ℕ) → x < 256 ^ n → of_word (word n x) ≡ x
unfolding of_word word
of_word-word zero x h = omega arith
of_word-word (suc n) x h = omega (arith, of_word-word n (x / 256) (omega arith))

take-append : (n : ℕ) (xs ys : List ℕ) → length xs ≡ n → take n (xs ++ ys) ≡ xs
take-append zero [] ys e = refl
take-append zero (x ∷ xs) ys e = absurd (omega arith)
take-append (suc n) [] ys e = absurd (omega arith)
take-append (suc n) (x ∷ xs) ys e = ap (◌∷◌ x) (take-append n xs ys (omega arith))

drop-append : (n : ℕ) (xs ys : List ℕ) → length xs ≡ n → drop n (xs ++ ys) ≡ ys
drop-append zero [] ys e = refl
drop-append zero (x ∷ xs) ys e = absurd (omega arith)
drop-append (suc n) [] ys e = absurd (omega arith)
drop-append (suc n) (x ∷ xs) ys e = drop-append n xs ys (omega arith)

take_all : (n : ℕ) (xs : List ℕ) → length xs ≡ n → take n xs ≡ xs
take_all zero [] e = refl
take_all zero (x ∷ xs) e = absurd (omega arith)
take_all (suc n) [] e = refl
take_all (suc n) (x ∷ xs) e = ap (◌∷◌ x) (take_all n xs (omega arith))

length-parts :
    (a b c d : List ℕ)
    → length (a ++ (b ++ (c ++ d))) ≡ length a + (length b + (length c + length d))
length-parts a b c d =
    omega (arith, length-append a (b ++ (c ++ d)), length-append b (c ++ d), length-append c d)

pub length-parts_of : (m : Message) → 1 + length (parts m) ≡ message_size
length-parts_of m = omega (
  arith,
  length-parts (array pod_name_len_max m.pod_name) (array pod_namespace_len_max m.pod_namespace)
      (word 8 m.id) (array msg_data_len m.text),
  length-array pod_name_len_max m.pod_name,
  length-array pod_namespace_len_max m.pod_namespace,
  length-word 8 m.id,
  length-array msg_data_len m.text,
)

pub length-layout : (m : Message) → length (layout m) ≡ message_size
unfolding layout
length-layout m = omega (arith, length-parts_of m)

members-parts :
    (type : MessageType) (a b c d : List ℕ)
    → length a ≡ pod_name_len_max
    → length b ≡ pod_namespace_len_max
    → length c ≡ 8
    → length d ≡ msg_data_len
    → members type (a ++ (b ++ (c ++ d))) ≡ record {
      type = type;
      pod_name = c_string a;
      pod_namespace = c_string b;
      id = of_word c;
      text = c_string d;
    }
unfolding members
members-parts type a b c d ha hb hc hd =
    rw
      (
        drop-append pod_name_len_max a (b ++ (c ++ d)) ha,
        drop-append pod_namespace_len_max b (c ++ d) hb,
        drop-append 8 c d hc,
        take-append pod_name_len_max a (b ++ (c ++ d)) ha,
        take-append pod_namespace_len_max b (c ++ d) hb,
        take-append 8 c d hc,
        take_all msg_data_len d hd,
      )
      refl

members-layout : (m : Message) → IsSendable m → members (of_byte (to_byte m.type)) (parts m) ≡ m
members-layout m v =
    members-parts (of_byte (to_byte m.type)) _ _ _ _ (length-array _ m.pod_name)
      (length-array _ m.pod_namespace) (length-word 8 m.id) (length-array _ m.text)
    ∙ rw
        (
          v.type_known,
          c_string-array pod_name_len_max m.pod_name v.pod_name,
          c_string-array pod_namespace_len_max m.pod_namespace v.pod_namespace,
          of_word-word 8 m.id v.id,
          c_string-array msg_data_len m.text v.text,
        )
        refl

whole_read :
    (n : ℕ) (m m' : Message)
    → n ≡ message_size
    → m ≡ m'
    → (if leb message_size n then some m else none) ≡ some m'
whole_read n m m' e h = rw (e, h) refl

pub read_layout-layout : (m : Message) → IsSendable m → read_layout (layout m) ≡ some m
unfolding layout read_layout
read_layout-layout m v = whole_read _ _ m (length-parts_of m) (members-layout m v)
