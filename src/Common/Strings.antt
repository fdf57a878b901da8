-- ===== src/Common/Strings.antt =====
-- `strlcpy` of src/common.c. A C string is the list of its bytes before the terminating NUL.
use nvshare.Prelude.{
  ℕ, zero, suc, ◌+◌, ◌-◌, ◌≤◌, ◌<◌, ◌≡◌, refl, ap, List, [], ◌∷◌, ◌++◌, arith, length, take, ◌==◌,
  if◌then◌else◌,
}

-- The bytes of a character array before its first NUL.
abbrev pub c_string : List ℕ → List ℕ
c_string [] = []
c_string (b ∷ bs) = let rest = c_string bs in if b == 0 then [] else b ∷ rest

-- The bytes that the loops store at `dst`, and what the call returns.
pub record Copied : Type 0 where
  pub dst : List ℕ
  pub ret : ℕ

-- `while (--nleft != 0) if ((*dst++ = *src++) == '\0') break;` with `room` for `nleft - 1`: one byte
-- is copied for each unit of room, the NUL of `src` included; when the room is spent, the NUL goes
-- in at `*dst` and the rest of `src` is only walked over.
copy_loop : ℕ → List ℕ → List ℕ
copy_loop zero src = 0 ∷ []
copy_loop (suc room) [] = 0 ∷ []
copy_loop (suc room) (b ∷ src) = b ∷ copy_loop room src

-- `src - osrc - 1`, both ways: the walk ends one past the NUL of `src`.
unfoldable pub strlcpy : List ℕ → ℕ → Copied
unfolding copy_loop
strlcpy src zero = record { dst = []; ret = length src }
strlcpy src (suc room) = record { dst = copy_loop room src; ret = length src }

copy_loop-eq : (room : ℕ) (src : List ℕ) → copy_loop room src ≡ take room src ++ 0 ∷ []
unfolding copy_loop
copy_loop-eq zero src = refl
copy_loop-eq (suc room) [] = refl
copy_loop-eq (suc room) (b ∷ src) = ap (◌∷◌ b) (copy_loop-eq room src)

length-copy_loop : (room : ℕ) (src : List ℕ) → length (copy_loop room src) ≤ room + 1
unfolding copy_loop
length-copy_loop zero src = omega arith
length-copy_loop (suc room) [] = omega arith
length-copy_loop (suc room) (b ∷ src) = omega (arith, length-copy_loop room src)

-- Into a buffer of `dsize` > 0 bytes, `strlcpy` stores the first `dsize - 1` bytes of the source (or
-- all, if it is shorter) and a NUL, never more than `dsize` bytes, and returns the source's length.
pub strlcpy_lem :
    (src : List ℕ) (dsize : ℕ)
    → 0 < dsize
    → ((strlcpy src dsize).dst ≡ take (dsize - 1) src ++ 0 ∷ [])
      × (length (strlcpy src dsize).dst ≤ dsize)
      × ((strlcpy src dsize).ret ≡ length src)
unfolding strlcpy
strlcpy_lem src zero h = absurd (omega arith)
strlcpy_lem src (suc room) h =
    let e : suc room - 1 ≡ room = omega arith in
    (subst_room e, omega (arith, length-copy_loop room src), refl)
  where
    subst_room : suc room - 1 ≡ room → copy_loop room src ≡ take (suc room - 1) src ++ 0 ∷ []
    subst_room e = ground (arith, e, copy_loop-eq room src)
