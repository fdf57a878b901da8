-- ===== src/Comm/Ids.antt =====
-- `nvshare_generate_id` of src/comm.c, and how a 64-bit identifier is printed and read back
-- ("%016" PRIx64 and "%" SCNx64).
use mathlib.Core.List.{append_assoc, append-nil}
use nvshare.Comm.Messages.{msg_data_len}
use nvshare.Prelude.{
  ℕ, zero, suc, ◌+◌, ◌-◌, ◌*◌, ◌/◌, ◌%◌, ◌^◌, ◌≤◌, ◌<◌, bit_xor, ◌≡◌, refl, List, [], ◌∷◌, ◌++◌,
  length, length-append, arith, ltb, leb, if◌then◌else◌, Option, none, some, Bool, true, false,
  ◌&&◌, ap, ◌∙◌,
}

-- RAND_MAX is 2^31 - 1, so RAND_MAX_WIDTH is 31.
abbrev rand_max_width : ℕ
rand_max_width = 31

-- `r <<= RAND_MAX_WIDTH; r ^= (unsigned) rand();` in a uint64_t.
mix : ℕ → ℕ → ℕ
mix r x = bit_xor (r * 2 ^ rand_max_width % 2 ^ 64) x % 2 ^ 64

-- The loop runs for i = 0, 31 and 62: three numbers of `rand`, which follow position `at` of its
-- sequence.
unfoldable pub generate_id : (ℕ → ℕ) → ℕ → ℕ
unfolding mix
generate_id rand at = mix (mix (mix 0 (rand at)) (rand (at + 1))) (rand (at + 2))

pub generate_id-lt : (rand : ℕ → ℕ) (at : ℕ) → generate_id rand at < 2 ^ 64
unfolding generate_id
generate_id-lt rand at = omega arith

-- A digit in lower case.
hex_digit : ℕ → ℕ
hex_digit d = if ltb d 10 then b'0' + d else b'a' + (d - 10)

-- The last `n` hexadecimal digits, zeros in front.
print_hex : ℕ → ℕ → List ℕ
print_hex zero x = []
print_hex (suc n) x = print_hex n (x / 16) ++ hex_digit (x % 16) ∷ []

-- snprintf(buf, 17, "%016" PRIx64, id).
unfoldable pub id_as_text : ℕ → List ℕ
unfolding print_hex hex_digit
id_as_text id = print_hex 16 id

unfoldable pub digit_value : ℕ → Option ℕ
digit_value c =
    if leb b'0' c && leb c b'9'
    then some (c - b'0')
    else if leb b'a' c && leb c b'f'
    then some (c - b'a' + 10)
    else if leb b'A' c && leb c b'F'
    then some (c - b'A' + 10)
    else none

-- The scan takes digits as long as there are any; `seen` tells whether there was one.
scan_digits : ℕ → Bool → List ℕ → Option ℕ
scan_digits acc false [] = none
scan_digits acc true [] = some acc
scan_digits acc seen (c ∷ cs) = elim (digit_value c) [
  | none ↦ if seen then some acc else none
  | some d ↦ scan_digits ((acc * 16 + d) % 2 ^ 64) true cs
]

-- sscanf(text, "%" SCNx64, &id) on the texts that the scheduler sends: no space, sign or 0x first.
unfoldable pub text_as_id : List ℕ → Option ℕ
unfolding scan_digits digit_value
text_as_id text = scan_digits 0 false text

digit_value-hex_digit : (d : ℕ) → d < 16 → digit_value (hex_digit d) ≡ some d
unfolding digit_value hex_digit
digit_value-hex_digit d h = ground arith

-- 16 to the n-th.
abbrev pow16 : ℕ → ℕ
pow16 zero = 1
pow16 (suc n) = pow16 n * 16

scan_digits-cons :
    (acc d : ℕ) (seen : Bool) (rest : List ℕ)
    → d < 16
    → scan_digits acc seen (hex_digit d ∷ rest) ≡ scan_digits ((acc * 16 + d) % 2 ^ 64) true rest
unfolding scan_digits
scan_digits-cons acc d false rest h = rw (digit_value-hex_digit d h, scan_digits)
scan_digits-cons acc d true rest h = rw (digit_value-hex_digit d h, scan_digits)

scan_digits-print_hex :
    (n acc x : ℕ) (seen : Bool) (rest : List ℕ)
    → x < pow16 (suc n)
    → acc * pow16 (suc n) + x < 2 ^ 64
    → scan_digits acc seen (print_hex (suc n) x ++ rest)
      ≡ scan_digits (acc * pow16 (suc n) + x) true rest
unfolding print_hex
scan_digits-print_hex zero acc x seen rest small fits =
    let d : x % 16 ≡ x = omega arith in
    let e : (acc * 16 + x % 16) % 2 ^ 64 ≡ acc * (1 * 16) + x = omega arith in
    scan_digits-cons acc (x % 16) seen rest (omega arith) ∙ ap (λ a. scan_digits a true rest) e
scan_digits-print_hex (suc n) acc x seen rest small fits =
    let p = pow16 (suc n) in
    let e : ((acc * p + x / 16) * 16 + x % 16) % 2 ^ 64 ≡ acc * (p * 16) + x = omega arith in
    rw (append_assoc (print_hex (suc n) (x / 16)) (hex_digit (x % 16) ∷ []) rest) (
      scan_digits-print_hex n acc (x / 16) seen (hex_digit (x % 16) ∷ rest) (omega arith)
        (omega arith)
      ∙ scan_digits-cons (acc * p + x / 16) (x % 16) true rest (omega arith)
      ∙ ap (λ a. scan_digits a true rest) e)

length-print_hex : (n x : ℕ) → length (print_hex n x) ≡ n
unfolding print_hex
length-print_hex zero x = refl
length-print_hex (suc n) x = omega (
  arith,
  length-append (print_hex n (x / 16)) (hex_digit (x % 16) ∷ []),
  length-print_hex n (x / 16),
)

-- An identifier of 64 bits is printed in 16 characters, which with their NUL fit the 20 bytes of a
-- message's text, and the text is read back as the same identifier.
pub text_as_id-id_as_text :
    (id : ℕ)
    → id < 2 ^ 64
    → (text_as_id (id_as_text id) ≡ some id) × (length (id_as_text id) + 1 ≤ msg_data_len)
unfolding text_as_id id_as_text
text_as_id-id_as_text id h =
    let value : 0 * pow16 16 + id ≡ id = omega arith in
    (
      rw (← append-nil (print_hex 16 id))
          (scan_digits-print_hex 15 0 id false [] h (omega arith) ∙ ap some value),
      omega (arith, length-print_hex 16 id),
    )
