-- ===== src/Comm/Layout/Delivery.antt =====
-- `nvshare_receive_block` on a stream socket: the kernel may hand the bytes of a message over in
-- any number of pieces, with signals between them.
use nvshare.Prelude.{
  ℕ, zero, suc, ◌-◌, ◌≤◌, ◌≡◌, refl, subst, ap, ◌∙◌, true, false, List, [], ◌∷◌, ◌++◌, none, some,
  length, length-append, arith, ok, ◌>>=◌, Returns, Returns-bind, Returns-map,
}
use nvshare.Common.Transfer.{
  Attempts, Input, bytes, broken, retry_intr, Got, read_whole, Fits, after_read,
}
use nvshare.Comm.Messages.{Message, message_size}
use nvshare.Comm.Sockets.{nvshare_receive_block}
use nvshare.Comm.Layout.{layout, read_layout, IsSendable}
use nvshare.Comm.Layout.RoundTrip.{length-layout, read_layout-layout}

abbrev pub chunk : Input → List ℕ
chunk (bytes bs) = bs
chunk (broken e) = []

-- The bytes that some calls of `read` hand over.
abbrev pub stream : List (Attempts Input) → List ℕ
stream [] = []
stream (call ∷ calls) = chunk (retry_intr call) ++ stream calls

-- A result of `read` that is a byte at least.
abbrev pub IsData : Input → Type 0
IsData (bytes []) = ⊥
IsData (bytes (b ∷ bs)) = Unit
IsData (broken e) = ⊥

abbrev pub Arrives : List (Attempts Input) → Type 0
Arrives [] = Unit
Arrives (call ∷ calls) = IsData (retry_intr call) × Arrives calls

-- A socket that is not closed hands over the bytes that were written to it, in their order, and at
-- each call at most as many as are asked for.
pub record IsStream (socket : List ℕ → List (Attempts Input)) : Type 0 where
  pub same : (bs : List ℕ) → stream (socket bs) ≡ bs
  pub arrives : (bs : List ℕ) → Arrives (socket bs)
  pub fits : (bs : List ℕ) → Fits (socket bs) (length bs)

-- The bytes wanted, no error, and not the end of the stream.
pub record IsFull (want : List ℕ) (r : Got) : Type 0 where
  pub all : r.data_read ≡ want
  pub no_error : r.read_error ≡ none
  pub not_ended : r.end_seen ≡ false

-- The first piece, and what is handed over after it.
pieces :
    (io : Input) (calls : List (Attempts Input)) (want : ℕ)
    → IsData io
    → ((bs : List ℕ) → io ≡ bytes bs → (length bs ≤ suc want) × Fits calls (suc want - length bs))
    → length (chunk io ++ stream calls) ≡ suc want
    → ((b : ℕ) (bs : List ℕ)
        → Fits calls (want - length bs)
        → length (stream calls) ≡ want - length bs
        → Returns (IsFull (stream calls)) (read_whole calls (want - length bs)))
    → Returns (IsFull (chunk io ++ stream calls)) (elim io [
      | broken e ↦ ok (record { data_read = []; read_error = some e; end_seen = false })
      | bytes [] ↦ ok (record { data_read = []; read_error = none; end_seen = true })
      | bytes (b ∷ bs) ↦ do r ← read_whole calls (want - length bs); ok (after_read (b ∷ bs) r)
    ])
pieces (broken e) calls want d f h loop = absurd d
pieces (bytes []) calls want d f h loop = absurd d
pieces (bytes (b ∷ bs)) calls want d f h loop =
    let e : suc want - suc (length bs) ≡ want - length bs = omega arith in
    Returns-bind (IsFull (stream calls)) (IsFull (b ∷ (bs ++ stream calls)))
      (read_whole calls (want - length bs)) (λ r. ok (after_read (b ∷ bs) r))
      (loop b bs (subst (Fits calls) e ((f (b ∷ bs) refl).1))
        (omega (arith, length-append bs (stream calls))))
      λ r k. record {
        all = ap (λ xs. b ∷ (bs ++ xs)) k.all;
        no_error = k.no_error;
        not_ended = k.not_ended;
      }

no_bytes : (io : Input) (xs : List ℕ) → IsData io → length (chunk io ++ xs) ≡ 0 → ⊥
no_bytes (broken e) xs d h = d
no_bytes (bytes []) xs d h = d
no_bytes (bytes (b ∷ bs)) xs d h = omega arith

read_whole-stream :
    (calls : List (Attempts Input)) (want : ℕ)
    → Arrives calls
    → Fits calls want
    → length (stream calls) ≡ want
    → Returns (IsFull (stream calls)) (read_whole calls want)
unfolding read_whole
read_whole-stream [] zero a f e = record { all = refl; no_error = refl; not_ended = refl }
read_whole-stream [] (suc want) a f e = absurd (omega arith)
read_whole-stream (call ∷ calls) zero a f e =
    absurd (no_bytes (retry_intr call) (stream calls) a.0 e)
read_whole-stream (call ∷ calls) (suc want) a f e =
    pieces (retry_intr call) calls want a.0 f e
      λ b bs g h. read_whole-stream calls (want - length bs) a.1 g h

-- The receiver has the message itself.
abbrev pub Delivers : Message → Got → Type 0
Delivers m r = IsFull (layout m) r × (read_layout r.data_read ≡ some m)

-- A message that is in a stream socket is received as it was sent: however the kernel splits its
-- bytes, and whatever signals interrupt the calls, `nvshare_receive_block` returns with all 537
-- bytes of the struct, and the members read from them are those of the message.
pub nvshare_receive_block-Delivers :
    (socket : List ℕ → List (Attempts Input)) (m : Message)
    → IsStream socket
    → IsSendable m
    → Returns (Delivers m) (nvshare_receive_block (socket (layout m)) message_size)
unfolding nvshare_receive_block
nvshare_receive_block-Delivers socket m v h =
    let l = length-layout m in
    let e = v.same (layout m) in
    Returns-map (IsFull (stream (socket (layout m)))) (Delivers m) _
      (read_whole-stream (socket (layout m)) message_size (v.arrives (layout m))
        (subst (Fits (socket (layout m))) l (v.fits (layout m))) (ap length e ∙ l))
      λ r k. (
        record { all = k.all ∙ e; no_error = k.no_error; not_ended = k.not_ended },
        ap read_layout (k.all ∙ e) ∙ read_layout-layout m h,
      )
