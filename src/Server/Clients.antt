-- ===== src/Server/Clients.antt =====
-- `m_clients`, a map from descriptors to client buffers, as an association list.
use native.Mathlib.Decide.{ℕ_discrete}
use telemetry_server.Base.{
  ℕ, ◌≡◌, ◌≢◌, refl, subst, arith, Option, none, some, List, [], ◌∷◌, ◌==◌, All, if◌then◌else◌,
  ==_of_eq, ==_of_ne, Bool-cases, inl, inr,
}
use telemetry_server.Server.Buffer.{Buffer}

abbrev pub Clients : Type 0
Clients = List (ℕ × Buffer)

unfoldable pub find : ℕ → Clients → Option Buffer
find fd [] = none
find fd ((key, b) ∷ rest) = if key == fd then some b else find fd rest

-- `emplace`, which leaves a client that is there alone.
unfoldable pub emplace : ℕ → Buffer → Clients → Clients
emplace fd b [] = (fd, b) ∷ []
emplace fd b ((key, c) ∷ rest) = if key == fd then (key, c) ∷ rest else (key, c) ∷ emplace fd b rest

-- A write through the reference `client`.
unfoldable pub update : ℕ → Buffer → Clients → Clients
update fd b [] = []
update fd b ((key, c) ∷ rest) =
    if key == fd then (key, b) ∷ update fd b rest else (key, c) ∷ update fd b rest

unfoldable pub erase : ℕ → Clients → Clients
erase fd [] = []
erase fd ((key, c) ∷ rest) = if key == fd then erase fd rest else (key, c) ∷ erase fd rest

pub find-update :
    (fd : ℕ) (b : Buffer) (other : ℕ) (cs : Clients)
    → other ≢ fd
    → find other (update fd b cs) ≡ find other cs
unfolding find update
find-update fd b other [] n = refl
find-update fd b other ((key, c) ∷ rest) n = ground (arith, find-update fd b other rest)

pub find-update_self :
    (fd : ℕ) (b c : Buffer) (cs : Clients) → find fd cs ≡ some c → find fd (update fd b cs) ≡ some b
unfolding find update
find-update_self fd b c [] e = absurd (ground (arith, e))
find-update_self fd b c ((key, x) ∷ rest) e = ground (arith, find-update_self fd b c rest)

pub find-emplace :
    (fd : ℕ) (b : Buffer) (other : ℕ) (cs : Clients)
    → other ≢ fd
    → find other (emplace fd b cs) ≡ find other cs
unfolding find emplace
find-emplace fd b other [] n = ground arith
find-emplace fd b other ((key, c) ∷ rest) n = ground (arith, find-emplace fd b other rest)

pub find-emplace_self :
    (fd : ℕ) (b : Buffer) (cs : Clients) → find fd cs ≡ none → find fd (emplace fd b cs) ≡ some b
unfolding find emplace
find-emplace_self fd b [] e = ground arith
find-emplace_self fd b ((key, c) ∷ rest) e = ground (arith, find-emplace_self fd b rest)

-- A table where nothing is found is empty.
pub find-empty : (cs : Clients) → ((fd : ℕ) → find fd cs ≡ none) → cs ≡ []
unfolding find
find-empty [] h = refl
find-empty ((key, c) ∷ rest) h = let e = h key in absurd (ground (arith, e))

pub find-erase :
    (fd other : ℕ) (cs : Clients) → other ≢ fd → find other (erase fd cs) ≡ find other cs
unfolding find erase
find-erase fd other [] n = refl
find-erase fd other ((key, c) ∷ rest) n = ground (arith, find-erase fd other rest)

pub find-erase_self : (fd : ℕ) (cs : Clients) → find fd (erase fd cs) ≡ none
unfolding find erase
find-erase_self fd [] = refl
find-erase_self fd ((key, c) ∷ rest) = ground (arith, find-erase_self fd rest)

module _ (P : ℕ × Buffer → Type 0) where
  pub All-update :
      (fd : ℕ) (b : Buffer) (cs : Clients) → All P cs → P (fd, b) → All P (update fd b cs)
  unfolding update
  All-update fd b [] h p = tt
  All-update fd b ((key, c) ∷ rest) h p = elim (ℕ_discrete key fd) [
    | yes e ↦ rw (==_of_eq e, e) (p, All-update fd b rest h.1 p)
    | no n ↦ rw (==_of_ne n) (h.0, All-update fd b rest h.1 p)
  ]

  pub All-emplace :
      (fd : ℕ) (b : Buffer) (cs : Clients) → All P cs → P (fd, b) → All P (emplace fd b cs)
  unfolding emplace
  All-emplace fd b [] h p = (p, tt)
  All-emplace fd b ((key, c) ∷ rest) h p = elim (Bool-cases (key == fd)) [
    | inl e ↦ rw e h
    | inr n ↦ rw n (h.0, All-emplace fd b rest h.1 p)
  ]

  -- The clients that are left after `fd` is erased.
  pub All-erase :
      (Q : ℕ × Buffer → Type 0) (fd : ℕ) (cs : Clients)
      → All P cs
      → ((other : ℕ) (b : Buffer) → other ≢ fd → P (other, b) → Q (other, b))
      → All Q (erase fd cs)
  unfolding erase
  All-erase Q fd [] h f = tt
  All-erase Q fd ((key, c) ∷ rest) h f = elim (ℕ_discrete key fd) [
    | yes e ↦ rw (==_of_eq e) (All-erase Q fd rest h.1 f)
    | no n ↦ rw (==_of_ne n) (f key c n h.0, All-erase Q fd rest h.1 f)
  ]

  pub find-All : (fd : ℕ) (b : Buffer) (cs : Clients) → All P cs → find fd cs ≡ some b → P (fd, b)
  unfolding find
  find-All fd b [] h e = absurd (ground (arith, e))
  find-All fd b ((key, c) ∷ rest) h e = elim (ℕ_discrete key fd) [
    | yes k ↦
        (let same : c ≡ b = ground (arith, e, k) in
          subst (λ x. P (fd, x)) same (subst (λ x. P (x, c)) k h.0))
    | no n ↦ find-All fd b rest h.1 (ground (arith, e, n))
  ]
