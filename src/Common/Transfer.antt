-- ===== src/Common/Transfer.antt =====
-- `RETRY_INTR` of src/common.h; `write_whole` and `read_whole` of src/common.c.
use nvshare.Prelude.{
  zero, suc, ◌-◌, length-append, Bool, true, false, ℕ, zero, suc, ◌-◌, ◌≤◌, ◌<◌, ◌≡◌, refl, ap, ◌∙◌,
  List, [], ◌∷◌, ◌++◌, Option, none, some, arith, length, take, drop, length-append, Bool, true,
  false, Outcome, ok, spinning, ◌>>=◌, Ensures, Ensures-bind,
}
use mathlib.Core.List.{append_assoc}

-- What `write` comes to: a count of bytes, or -1 with an error number in `errno`.
pub data Io : Type 0 where
  count : ℕ → Io
  failed : ℕ → Io

-- What `read` comes to: the bytes read, none of them at the end of the stream, or -1 with `errno`.
pub data Input : Type 0 where
  bytes : List ℕ → Input
  broken : ℕ → Input

-- A call that signals interrupt (-1 with EINTR) a finite number of times before it has its result.
pub data Attempts {ℓ} (A : Type ℓ) : Type ℓ where
  interrupted : Attempts A → Attempts A
  result : A → Attempts A

-- `do { __rc = (exp); } while (__rc < 0 && errno == EINTR);`
abbrev pub retry_intr {ℓ} : {A : Type ℓ} → Attempts A → A
retry_intr (interrupted again) = retry_intr again
retry_intr (result a) = a

-- The bytes that reached the descriptor, and the error number if the call returned -1.
pub record Written : Type 0 where
  pub sent : List ℕ
  pub error : Option ℕ

abbrev after_write : List ℕ → Written → Written
after_write chunk r = record r { sent = chunk ++ r.sent }

-- One entry of `calls` for each `write` that the loop makes; `spinning` when they are used up.
unfoldable pub write_whole : List (Attempts Io) → List ℕ → Outcome Written
write_whole calls [] = ok (record { sent = []; error = none })
write_whole [] (b ∷ buf) = spinning
write_whole (call ∷ calls) (b ∷ buf) = elim (retry_intr call) [
  | failed e ↦ ok (record { sent = []; error = some e })
  | count n ↦ do r ← write_whole calls (drop n (b ∷ buf)); ok (after_write (take n (b ∷ buf)) r)
]

-- `write` takes at least one byte where it does not fail.
abbrev pub Advances : List (Attempts Io) → Type 0
Advances [] = Unit
Advances (call ∷ calls) = ((n : ℕ) → retry_intr call ≡ count n → 0 < n) × Advances calls

-- What was sent is the buffer, or a prefix of it where the call failed.
pub record IsPrefixSent (buf : List ℕ) (r : Written) : Type 0 where
  pub rest : List ℕ
  pub split : r.sent ++ rest ≡ buf
  pub whole : r.error ≡ none → r.sent ≡ buf

take-append-drop : (n : ℕ) (xs : List ℕ) → take n xs ++ drop n xs ≡ xs
take-append-drop zero xs = refl
take-append-drop (suc n) [] = refl
take-append-drop (suc n) (x ∷ xs) = ap (◌∷◌ x) (take-append-drop n xs)

length-drop-le : (n : ℕ) (xs : List ℕ) → length (drop n xs) ≤ length xs
length-drop-le zero xs = omega arith
length-drop-le (suc n) [] = omega arith
length-drop-le (suc n) (x ∷ xs) = omega (arith, length-drop-le n xs)

length-drop-lt : (n : ℕ) (b : ℕ) (xs : List ℕ) → 0 < n → length (drop n (b ∷ xs)) ≤ length xs
length-drop-lt zero b xs h = absurd (omega arith)
length-drop-lt (suc n) b xs h = length-drop-le n xs

after_write-IsPrefixSent :
    (n : ℕ) (buf : List ℕ) (r : Written)
    → IsPrefixSent (drop n buf) r
    → IsPrefixSent buf (after_write (take n buf) r)
after_write-IsPrefixSent n buf r p = record {
  rest = p.rest;
  split =
      append_assoc (take n buf) r.sent p.rest
      ∙ ap (◌++◌ (take n buf)) p.split
      ∙ take-append-drop n buf;
  whole = λ e. ap (◌++◌ (take n buf)) (p.whole e) ∙ take-append-drop n buf;
}

-- If no `write` of `write_whole` returns zero, then with one call allowed for each byte the loop
-- ends. If it does not report an error then the descriptor got exactly the bytes of the buffer in
-- their order, however the writes split them; if it does, it got a prefix of them.
pub write_whole_lem :
    (calls : List (Attempts Io)) (buf : List ℕ)
    → Advances calls
    → length buf ≤ length calls
    → Ensures (IsPrefixSent buf) (write_whole calls buf)
unfolding write_whole
write_whole_lem calls [] p h = record { rest = []; split = refl; whole = λ _. refl }
write_whole_lem [] (b ∷ buf) p h = absurd (omega arith)
write_whole_lem (call ∷ calls) (b ∷ buf) p h = step (retry_intr call) p.0 λ n pos.
    write_whole_lem calls (drop n (b ∷ buf)) p.1 (omega (arith, length-drop-lt n b buf pos))
  where
    step :
        (io : Io)
        → ((n : ℕ) → io ≡ count n → 0 < n)
        → ((n : ℕ)
            → 0 < n
            → Ensures (IsPrefixSent (drop n (b ∷ buf))) (write_whole calls (drop n (b ∷ buf))))
        → Ensures (IsPrefixSent (b ∷ buf)) (elim io [
          | failed e ↦ ok (record { sent = []; error = some e })
          | count n ↦ do
            r ← write_whole calls (drop n (b ∷ buf))
            ok (after_write (take n (b ∷ buf)) r)
        ])
    step (failed e) q loop = record { rest = b ∷ buf; split = refl; whole = λ e. cc }
    step (count n) q loop =
        Ensures-bind (IsPrefixSent (drop n (b ∷ buf))) (IsPrefixSent (b ∷ buf))
          (write_whole calls (drop n (b ∷ buf))) (λ r. ok (after_write (take n (b ∷ buf)) r))
          (loop n (q n refl)) (λ r. after_write-IsPrefixSent n (b ∷ buf) r)

-- What `read_whole` got, the error number if it returned -1, and whether it stopped at the stream's
-- end. Without an error it returns the number of bytes.
pub record Got : Type 0 where
  pub data_read : List ℕ
  pub read_error : Option ℕ
  pub end_seen : Bool

abbrev pub after_read : List ℕ → Got → Got
after_read chunk r = record r { data_read = chunk ++ r.data_read }

-- One entry of `calls` for each `read`; `want` is `cnt - readcnt`.
unfoldable pub read_whole : List (Attempts Input) → ℕ → Outcome Got
read_whole calls zero = ok (record { data_read = []; read_error = none; end_seen = false })
read_whole [] (suc want) = spinning
read_whole (call ∷ calls) (suc want) = elim (retry_intr call) [
  | broken e ↦ ok (record { data_read = []; read_error = some e; end_seen = false })
  | bytes [] ↦ ok (record { data_read = []; read_error = none; end_seen = true })
  | bytes (b ∷ bs) ↦ do r ← read_whole calls (want - length bs); ok (after_read (b ∷ bs) r)
]

-- No `read` gives more bytes than it was asked for.
abbrev pub Fits : List (Attempts Input) → ℕ → Type 0
Fits [] want = Unit
Fits (call ∷ calls) want =
    (bs : List ℕ) → retry_intr call ≡ bytes bs → (length bs ≤ want) × Fits calls (want - length bs)

pub record IsWholeRead (want : ℕ) (r : Got) : Type 0 where
  pub bounded : length r.data_read ≤ want
  pub full : r.read_error ≡ none → r.end_seen ≡ false → length r.data_read ≡ want

-- If no `read` gives more than it is asked for, then with one call allowed for each byte wanted
-- `read_whole` ends, never stores more than `want` bytes, and stores exactly `want` of them unless
-- it reports an error or came to the end of the stream.
pub read_whole_lem :
    (calls : List (Attempts Input)) (want : ℕ)
    → Fits calls want
    → want ≤ length calls
    → Ensures (IsWholeRead want) (read_whole calls want)
unfolding read_whole
read_whole_lem calls zero p h = record { bounded = omega arith; full = λ _ _. refl }
read_whole_lem [] (suc want) p h = absurd (omega arith)
read_whole_lem (call ∷ calls) (suc want) p h =
    step (retry_intr call) p
      λ b bs q. read_whole_lem calls (want - length bs) (rest b bs q) (omega arith)
  where
    rest : (b : ℕ) (bs : List ℕ) → retry_intr call ≡ bytes (b ∷ bs) → Fits calls (want - length bs)
    rest b bs q =
        let e : suc want - suc (length bs) ≡ want - length bs = omega arith in
        rw e at ((p (b ∷ bs) q).1)

    step :
        (io : Input)
        → ((bs : List ℕ)
            → io ≡ bytes bs
            → (length bs ≤ suc want) × Fits calls (suc want - length bs))
        → ((b : ℕ) (bs : List ℕ)
            → io ≡ bytes (b ∷ bs)
            → Ensures (IsWholeRead (want - length bs)) (read_whole calls (want - length bs)))
        → Ensures (IsWholeRead (suc want)) (elim io [
          | broken e ↦ ok (record { data_read = []; read_error = some e; end_seen = false })
          | bytes [] ↦ ok (record { data_read = []; read_error = none; end_seen = true })
          | bytes (b ∷ bs) ↦ do r ← read_whole calls (want - length bs); ok (after_read (b ∷ bs) r)
        ])
    step (broken e) q loop = record { bounded = omega arith; full = λ e. cc }
    step (bytes []) q loop = record { bounded = omega arith; full = λ _ e. cc }
    step (bytes (b ∷ bs)) q loop =
        Ensures-bind (IsWholeRead (want - length bs)) (IsWholeRead (suc want))
          (read_whole calls (want - length bs)) (λ r. ok (after_read (b ∷ bs) r)) (loop b bs refl)
          λ r w. record {
            bounded = omega (arith, w.bounded, (q (b ∷ bs) refl).0, length-append bs r.data_read);
            full =
                λ e f. omega (arith, w.full e f, (q (b ∷ bs) refl).0, length-append bs r.data_read);
          }
