-- ===== src/Client/Registering.antt =====
-- What a client registers with fits the struct that carries it.
use nvshare.Prelude.{
  ℕ, ◌-◌, ◌≤◌, ◌<◌, ◌≡◌, refl, List, [], ◌∷◌, ◌++◌, All, Option, none, some, length, take,
  length-take, arith, ◌==◌, Ensures, Ensures-bind, Ensures-guard, Ensures-if, Bool-cases, inl, inr,
}
use mathlib.Core.Logic.{◌≢◌}
use nvshare.Common.Strings.{c_string, strlcpy, strlcpy_lem}
use nvshare.Comm.Messages.{pod_name_len_max, pod_namespace_len_max, to_byte, of_byte}
use nvshare.Comm.Layout.{IsText, IsSendable}
use nvshare.Client.Start.{
  Environment, NamespaceFile, read_pod_name, read_line, read_pod_namespace, kubernetes_message,
  register_message,
}

c_string-no_nul : (s : List ℕ) → All (λ (b : ℕ). b ≢ 0) (c_string s)
c_string-no_nul [] = tt
c_string-no_nul (b ∷ s) = elim (Bool-cases (b == 0)) [
  | inl nul ↦ rw nul tt
  | inr other ↦ rw other (λ e. ground (arith, e, other), c_string-no_nul s)
]

-- The NUL ends the string, or one before it does.
length-c_string : (s : List ℕ) → length (c_string (s ++ 0 ∷ [])) ≤ length s
length-c_string [] = omega arith
length-c_string (b ∷ s) = elim (Bool-cases (b == 0)) [
  | inl nul ↦ rw nul (omega arith)
  | inr other ↦ rw other (omega (arith, length-c_string s))
]

pub copied-IsText : (s : List ℕ) (n : ℕ) → 0 < n → IsText n (c_string (strlcpy s n).dst)
copied-IsText s n h = record {
  room =
      rw ((strlcpy_lem s n h).0)
        (omega (arith, length-c_string (take (n - 1) s), length-take (n - 1) s));
  no_nul = c_string-no_nul ((strlcpy s n).dst);
}

read_pod_name-IsText :
    (hostname : Option (List ℕ)) (n : ℕ) → 0 < n → IsText n (read_pod_name hostname n)
unfolding read_pod_name
read_pod_name-IsText none n h = copied-IsText _ n h
read_pod_name-IsText (some value) n h = copied-IsText value n h

read_line-IsText :
    (line : Option (List ℕ)) (n : ℕ)
    → 0 < n
    → ((text : List ℕ) → line ≡ some text → IsText n text)
    → IsText n (read_line line n)
unfolding read_line
read_line-IsText none n h k = copied-IsText _ n h
read_line-IsText (some text) n h k = k text refl

read_pod_namespace-IsText :
    (file : NamespaceFile) (n : ℕ)
    → 0 < n
    → ((text : List ℕ) → file.fgets ≡ some text → IsText n text)
    → Ensures (IsText n) (read_pod_namespace file n)
unfolding read_pod_namespace
read_pod_namespace-IsText file n h k =
    Ensures-if (IsText n) file.opened _ _
      (λ _. Ensures-guard (IsText n) file.closed _ (read_line-IsText file.fgets n h k))
      λ _. copied-IsText _ n h

kubernetes_message-IsSendable :
    (env : Environment)
    → ((text : List ℕ) → env.namespace_file.fgets ≡ some text → IsText pod_namespace_len_max text)
    → Ensures IsSendable (kubernetes_message env)
unfolding kubernetes_message to_byte of_byte
kubernetes_message-IsSendable env k =
    Ensures-bind (IsText pod_namespace_len_max) IsSendable _ _
      (read_pod_namespace-IsText env.namespace_file pod_namespace_len_max (omega arith) k)
      λ text v. record {
        type_known = refl;
        pod_name = read_pod_name-IsText env.hostname pod_name_len_max (omega arith);
        pod_namespace = v;
        id = omega arith;
        text = record { room = omega arith; no_nul = tt };
      }

-- Where `fgets` stores a string with its NUL into the array it is given: whatever the environment
-- holds, with Kubernetes and without, and however long the names are, the REGISTER message of a
-- client fits its struct: each name is free of NULs and ends in its array, and the identifier is a
-- word of 64 bits.
pub register_message-IsSendable :
    (env : Environment)
    → ((text : List ℕ) → env.namespace_file.fgets ≡ some text → IsText pod_namespace_len_max text)
    → Ensures IsSendable (register_message env)
unfolding register_message to_byte of_byte
register_message-IsSendable env k =
    Ensures-if IsSendable env.on_kubernetes _ _ (λ _. kubernetes_message-IsSendable env k)
      λ _. record {
        type_known = refl;
        pod_name = copied-IsText _ pod_name_len_max (omega arith);
        pod_namespace = copied-IsText _ pod_namespace_len_max (omega arith);
        id = omega arith;
        text = record { room = omega arith; no_nul = tt };
      }
