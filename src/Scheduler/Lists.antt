-- ===== src/Scheduler/Lists.antt =====
-- Laws of the loops over `clients` and `requests`.
use nvshare.Prelude.{
  ℕ, ◌≤◌, ◌≡◌, refl, ap, true, false, List, [], ◌∷◌, ◌++◌, ◌||◌, ◌==◌, if◌then◌else◌, none, some,
  arith, length, Bool-cases, inl, inr,
}
use nvshare.Scheduler.State.{Client, find_client}
use nvshare.Scheduler.Clients.{contains, without, unlink_clients, update_client, fds_of}

-- No two entries are equal.
abbrev pub Distinct : List ℕ → Type 0
Distinct [] = Unit
Distinct (r ∷ rs) = (contains r rs ≡ false) × Distinct rs

pub contains-append :
    (x y : ℕ) (xs : List ℕ) → contains x (xs ++ y ∷ []) ≡ (contains x xs || y == x)
unfolding contains
contains-append x y [] = ground arith
contains-append x y (r ∷ rs) = ground (arith, contains-append x y rs)

pub Distinct-append :
    (y : ℕ) (xs : List ℕ) → Distinct xs → contains y xs ≡ false → Distinct (xs ++ y ∷ [])
unfolding contains
Distinct-append y [] d h = (refl, tt)
Distinct-append y (r ∷ rs) d h = ground (arith, contains-append r y rs, Distinct-append y rs d.1)

pub contains-without :
    (x fd : ℕ) (xs : List ℕ)
    → contains x (without fd xs) ≡ (if x == fd then false else contains x xs)
unfolding contains without
contains-without x fd [] = ground arith
contains-without x fd (r ∷ rs) = ground (arith, contains-without x fd rs)

pub Distinct-without : (fd : ℕ) (xs : List ℕ) → Distinct xs → Distinct (without fd xs)
unfolding without
Distinct-without fd [] d = tt
Distinct-without fd (r ∷ rs) d =
    ground (arith, contains-without r fd rs, Distinct-without fd rs d.1)

pub without-absent : (fd : ℕ) (xs : List ℕ) → contains fd xs ≡ false → without fd xs ≡ xs
unfolding contains without
without-absent fd [] h = refl
without-absent fd (r ∷ rs) h = ground (arith, without-absent fd rs)

pub length-without-le : (fd : ℕ) (xs : List ℕ) → length (without fd xs) ≤ length xs
unfolding without
length-without-le fd [] = omega arith
length-without-le fd (r ∷ rs) = ground (arith, length-without-le fd rs)

pub unlink_clients-absent :
    (st : ℕ) (cs : List Client) → contains st (fds_of cs) ≡ false → unlink_clients st st cs ≡ cs
unfolding contains unlink_clients
unlink_clients-absent st [] h = refl
unlink_clients-absent st (c ∷ cs) h = ground (arith, unlink_clients-absent st cs)

-- As long as the freed block reads as the descriptor of no client, the loop removes one client.
pub fds_of-unlink_clients :
    (fd st : ℕ) (cs : List Client)
    → Distinct (fds_of cs)
    → contains st (fds_of cs) ≡ false
    → fds_of (unlink_clients fd st cs) ≡ without fd (fds_of cs)
unfolding contains unlink_clients without
fds_of-unlink_clients fd st [] d h = refl
fds_of-unlink_clients fd st (c ∷ cs) d h = ground (
  arith,
  unlink_clients-absent st cs,
  without-absent fd (fds_of cs),
  fds_of-unlink_clients fd st cs d.1,
)

pub find_client-absent :
    (x : ℕ) (cs : List Client) → contains x (fds_of cs) ≡ false → find_client x cs ≡ none
unfolding contains find_client
find_client-absent x [] h = refl
find_client-absent x (c ∷ cs) h = ground (arith, find_client-absent x cs)

pub find_client-unlink_clients :
    (x fd st : ℕ) (cs : List Client)
    → Distinct (fds_of cs)
    → contains st (fds_of cs) ≡ false
    → find_client x (unlink_clients fd st cs) ≡ (if x == fd then none else find_client x cs)
unfolding contains unlink_clients find_client
find_client-unlink_clients x fd st [] d h = ground arith
find_client-unlink_clients x fd st (c ∷ cs) d h = ground (
  arith,
  unlink_clients-absent st cs,
  find_client-absent x cs,
  find_client-unlink_clients x fd st cs d.1,
)

-- A client of the list is found, and has the descriptor that was looked for.
pub find_client-present :
    (x : ℕ) (cs : List Client)
    → contains x (fds_of cs) ≡ true
    → (c : Client) × (find_client x cs ≡ some c) × (c.fd ≡ x)
unfolding contains find_client
find_client-present x [] h = cc
find_client-present x (c ∷ cs) h = elim (Bool-cases (c.fd == x)) [
  | inl here ↦ (c, ground arith, ground arith)
  | inr there ↦
      let (d, found, same) = find_client-present x cs (ground arith) in (d, ground arith, same)
]

pub contains-of_find :
    (x : ℕ) (cs : List Client) (c : Client)
    → find_client x cs ≡ some c
    → (contains x (fds_of cs) ≡ true) × (c.fd ≡ x)
unfolding contains find_client
contains-of_find x [] c h = cc
contains-of_find x (d ∷ cs) c h = ground (arith, contains-of_find x cs c)

pub fds_of-update_client :
    (fd : ℕ) (c' : Client) (cs : List Client)
    → c'.fd ≡ fd
    → fds_of (update_client fd c' cs) ≡ fds_of cs
unfolding update_client
fds_of-update_client fd c' [] h = refl
fds_of-update_client fd c' (c ∷ cs) h = ground (arith, fds_of-update_client fd c' cs)

pub find_client-update_client :
    (x fd : ℕ) (c' : Client) (cs : List Client)
    → c'.fd ≡ fd
    → contains fd (fds_of cs) ≡ true
    → find_client x (update_client fd c' cs) ≡ (if x == fd then some c' else find_client x cs)
unfolding update_client contains find_client
find_client-update_client x fd c' [] h k = cc
find_client-update_client x fd c' (c ∷ cs) h k =
    ground (arith, find_client-update_client x fd c' cs h)

pub fds_of-append : (cs : List Client) (c : Client) → fds_of (cs ++ c ∷ []) ≡ fds_of cs ++ c.fd ∷ []
fds_of-append [] c = refl
fds_of-append (d ∷ cs) c = ap (◌∷◌ d.fd) (fds_of-append cs c)

pub find_client-append :
    (x : ℕ) (cs : List Client) (c : Client)
    → contains c.fd (fds_of cs) ≡ false
    → find_client x (cs ++ c ∷ []) ≡ (if x == c.fd then some c else find_client x cs)
unfolding contains find_client
find_client-append x [] c h = ground arith
find_client-append x (d ∷ cs) c h = ground (arith, find_client-append x cs c)

pub still_open :
    (x fd : ℕ) (fds : List ℕ) → contains x (without fd fds) ≡ true → contains x fds ≡ true
still_open x fd fds o = ground (arith, contains-without x fd fds)
