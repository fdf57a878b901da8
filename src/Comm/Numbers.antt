-- ===== src/Comm/Numbers.antt =====
-- How a time quantum travels: snprintf(data, 20, "%lld", tq) in src/cli.c, and
-- strtoll(data, &endptr, 0) with the checks of its result in src/scheduler.c.
use mathlib.Core.List.{append_assoc, append-nil}
use nvshare.Prelude.{
  sym, ltb→lt, Bool-cases, inl, inr, ℕ, zero, suc, ◌+◌, ◌*◌, ◌/◌, ◌%◌, ◌^◌, ◌≤◌, ◌<◌, ◌≡◌, refl,
  List, [], ◌∷◌, ◌++◌, length, length-append, arith, ltb, ◌==◌, if◌then◌else◌, Option, none, some,
  Bool, true, false, ◌||◌, ap, ◌∙◌, ℤ, pos, negsuc,
}
use nvshare.Comm.Ids.{digit_value}

-- Decimal digits, with no zeros in front; `n` has at most `fuel` digits.
print_dec : ℕ → ℕ → List ℕ
print_dec zero n = []
print_dec (suc fuel) n =
    let front = print_dec fuel (n / 10) in
    if ltb n 10 then (b'0' + n) ∷ [] else front ++ (b'0' + n % 10) ∷ []

-- "%lld" of an `int`, which has at most ten digits.
unfoldable pub int_as_text : ℤ → List ℕ
unfolding print_dec
int_as_text (pos n) = print_dec 10 n
int_as_text (negsuc n) = b'-' ∷ print_dec 10 (suc n)

is_space : ℕ → Bool
is_space c = if c == b' ' then true else if ltb c 9 then false else ltb c 14

skip_space : List ℕ → List ℕ
skip_space [] = []
skip_space (c ∷ cs) = if is_space c then skip_space cs else c ∷ cs

-- Digits up to the end of the text.
scan_rest : ℕ → ℕ → List ℕ → Option ℕ
scan_rest base acc [] = some acc
scan_rest base acc (c ∷ cs) = elim (digit_value c) [
  | none ↦ none
  | some d ↦ if ltb d base then scan_rest base (acc * base + d) cs else none
]

-- At least one digit.
scan_number : ℕ → List ℕ → Option ℕ
scan_number base [] = none
scan_number base (c ∷ cs) = scan_rest base 0 (c ∷ cs)

-- Base 0: a text that begins with 0x is hexadecimal, one that begins with 0 octal.
after_zero : List ℕ → Option ℕ
after_zero [] = some 0
after_zero (c ∷ cs) = if c == b'x' || c == b'X' then scan_number 16 cs else scan_rest 8 0 (c ∷ cs)

scan_based : List ℕ → Option ℕ
scan_based [] = none
scan_based (c ∷ cs) = if c == b'0' then after_zero cs else scan_number 10 (c ∷ cs)

-- Out of the range of a long long `errno` is ERANGE.
in_range : Bool → Option ℕ → Option ℤ
in_range minus none = none
in_range false (some n) = if ltb n (2 ^ 63) then some (pos n) else none
in_range true (some zero) = some (pos 0)
in_range true (some (suc n)) = if ltb n (2 ^ 63) then some (negsuc n) else none

scan_signed : List ℕ → Option ℤ
scan_signed [] = none
scan_signed (c ∷ cs) =
    if c == b'-'
    then in_range true (scan_based cs)
    else if c == b'+'
    then in_range false (scan_based cs)
    else in_range false (scan_based (c ∷ cs))

-- The number, if `in_msg->data != endptr && *endptr == '\0' && errno == 0`.
unfoldable pub strtoll : List ℕ → Option ℤ
unfolding skip_space is_space scan_rest scan_number after_zero scan_based in_range scan_signed
    digit_value
strtoll text = scan_signed (skip_space text)

strtoll_eq : (text : List ℕ) → strtoll text ≡ scan_signed (skip_space text)
unfolding strtoll
strtoll_eq text = refl

abbrev pow10 : ℕ → ℕ
pow10 zero = 1
pow10 (suc n) = pow10 n * 10

digit_value-dec : (d : ℕ) → d < 10 → digit_value (b'0' + d) ≡ some d
unfolding digit_value
digit_value-dec d h = ground arith

scan_rest-cons :
    (acc d : ℕ) (rest : List ℕ)
    → d < 10
    → scan_rest 10 acc ((b'0' + d) ∷ rest) ≡ scan_rest 10 (acc * 10 + d) rest
unfolding scan_rest
scan_rest-cons acc d rest h = rw (digit_value-dec d h, scan_rest) (ground arith)

-- A number of up to `fuel` digits is printed as a digit that is not 0 and a rest, and scanned back.
record Printed (n : ℕ) (text : List ℕ) : Type 0 where
  first : ℕ
  others : List ℕ
  shape : text ≡ (b'0' + first) ∷ others
  nonzero : 0 < first
  small : first < 10
  scanned : (rest : List ℕ) → scan_rest 10 0 (text ++ rest) ≡ scan_rest 10 n rest

print_dec-Printed : (fuel n : ℕ) → 0 < n → n < pow10 fuel → Printed n (print_dec fuel n)
unfolding print_dec
print_dec-Printed zero n h lt = absurd (omega arith)
print_dec-Printed (suc fuel) n h lt = elim (Bool-cases (ltb n 10)) [
  | inl one ↦
      let e : 0 * 10 + n ≡ n = omega arith in
      rw one (record {
        first = n;
        others = [];
        shape = refl;
        nonzero = h;
        small = ltb→lt n 10 one;
        scanned =
            λ rest. scan_rest-cons 0 n rest (ltb→lt n 10 one) ∙ ap (λ a. scan_rest 10 a rest) e;
      })
  | inr more ↦
      let ih = print_dec-Printed fuel (n / 10) (ground arith) (omega arith) in
      let last = b'0' + n % 10 in
      let e : n / 10 * 10 + n % 10 ≡ n = omega arith in
      rw more (record {
        first = ih.first;
        others = ih.others ++ last ∷ [];
        shape = ap (λ t. t ++ last ∷ []) ih.shape;
        nonzero = ih.nonzero;
        small = ih.small;
        scanned = λ rest.
            ap (scan_rest 10 0) (append_assoc (print_dec fuel (n / 10)) (last ∷ []) rest)
            ∙ ih.scanned (last ∷ rest)
            ∙ scan_rest-cons (n / 10) (n % 10) rest (omega arith)
            ∙ ap (λ a. scan_rest 10 a rest) e;
      })
]

module _ (d : ℕ) (cs : List ℕ) (h : 0 < d) (k : d < 10) where
  is_space-digit : is_space (b'0' + d) ≡ false
  unfolding is_space
  is_space-digit = ground arith

  skip_space-digit : skip_space ((b'0' + d) ∷ cs) ≡ (b'0' + d) ∷ cs
  unfolding skip_space
  skip_space-digit = rw (is_space-digit, skip_space)

  scan_based-digit : scan_based ((b'0' + d) ∷ cs) ≡ scan_rest 10 0 ((b'0' + d) ∷ cs)
  unfolding scan_based scan_number
  scan_based-digit = ground arith

  scan_signed-digit : scan_signed ((b'0' + d) ∷ cs) ≡ in_range false (scan_based ((b'0' + d) ∷ cs))
  unfolding scan_signed
  scan_signed-digit = ground arith

  strtoll-digit : strtoll ((b'0' + d) ∷ cs) ≡ in_range false (scan_rest 10 0 ((b'0' + d) ∷ cs))
  strtoll-digit =
      strtoll_eq ((b'0' + d) ∷ cs)
      ∙ ap scan_signed skip_space-digit
      ∙ scan_signed-digit
      ∙ ap (in_range false) scan_based-digit

length-print_dec : (fuel n : ℕ) → length (print_dec fuel n) ≤ fuel
unfolding print_dec
length-print_dec zero n = omega arith
length-print_dec (suc fuel) n = ground (
  arith,
  length-print_dec fuel (n / 10),
  length-append (print_dec fuel (n / 10)) ((b'0' + n % 10) ∷ []),
)

-- A positive quantum that fits an `int` is printed in at most ten characters, and the scheduler
-- reads the text as the same number.
pub strtoll-int_as_text :
    (n : ℕ)
    → 0 < n
    → n < 2 ^ 31
    → (strtoll (int_as_text (pos n)) ≡ some (pos n)) × (length (int_as_text (pos n)) ≤ 10)
unfolding int_as_text in_range scan_rest
strtoll-int_as_text n h lt = (read, length-print_dec 10 n)
  where
    open (print_dec-Printed 10 n h (omega arith)) use {
      first, others, shape, nonzero, small, scanned,
    }

    digits : scan_rest 10 0 ((b'0' + first) ∷ others) ≡ some n
    digits = ap (scan_rest 10 0) (sym shape ∙ sym (append-nil (print_dec 10 n))) ∙ scanned []

    fits : in_range false (some n) ≡ some (pos n)
    fits = ground arith

    read : strtoll (print_dec 10 n) ≡ some (pos n)
    read =
        ap strtoll shape
        ∙ strtoll-digit first others nonzero small
        ∙ ap (in_range false) digits
        ∙ fits
