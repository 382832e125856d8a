-- ===== src/Base/Action.antt =====
-- Code that changes a state, with loops that run on fuel: `none` says that the fuel ran out before
-- the code returned.
use mathlib.Core.Path.{◌≡◌, ap}
use mathlib.Core.Option.{Option, none, some}
use mathlib.Core.Bool.{Bool, true, false}

abbrev pub Action : Type 0 → Type 0 → Type 0
Action S A = S → Option (A × S)

infixl 5 ◌>>=◌
abbrev pub ◌>>=◌ : {S A B : Type 0} → Action S A → (A → Action S B) → Action S B
◌>>=◌ m f s = elim (m s) [ none ↦ none | some (a, s') ↦ f a s' ]

abbrev pub pure : {S A : Type 0} → A → Action S A
pure a s = some (a, s)

-- `if (!step()) return false;`
infixl 5 ◌&&=◌
abbrev pub ◌&&=◌ : {S : Type 0} → Action S Bool → Action S Bool → Action S Bool
m &&= rest = m >>= λ done. elim done [ true ↦ rest | false ↦ pure false ]

-- The code returns, with a result and a state of which `P` holds.
abbrev pub Ensures : {S A : Type 0} → (A → S → Type 0) → Option (A × S) → Type 0
Ensures P none = ⊥
Ensures P (some (a, s)) = P a s

pub Ensures-bind :
    {S A B : Type 0} (P : A → S → Type 0) (Q : B → S → Type 0) (m : Action S A) (f : A → Action S B)
    (s : S)
    → Ensures P (m s)
    → ((a : A) (s' : S) → P a s' → Ensures Q (f a s'))
    → Ensures Q ((m >>= f) s)
Ensures-bind {S} {A} P Q m f s h k = go (m s) h
  where
    go :
        (r : Option (A × S))
        → Ensures P r
        → Ensures Q (elim r [ none ↦ none | some (a, s') ↦ f a s' ])
    go none h = absurd h
    go (some (a, s')) h = k a s' h

pub Ensures-mono :
    {S A : Type 0} (P Q : A → S → Type 0) (r : Option (A × S))
    → ((a : A) (s : S) → P a s → Q a s)
    → Ensures P r
    → Ensures Q r
Ensures-mono P Q none k h = h
Ensures-mono P Q (some (a, s)) k h = k a s h

-- Where the first step fails the rest is not run.
pub Ensures-and :
    {S : Type 0} (P Q : Bool → S → Type 0) (m rest : Action S Bool) (s : S)
    → Ensures P (m s)
    → ((s' : S) → P false s' → Q false s')
    → ((s' : S) → P true s' → Ensures Q (rest s'))
    → Ensures Q ((m &&= rest) s)
Ensures-and P Q m rest s h stop go =
    Ensures-bind P Q m _ s h (elim [ true ↦ λ s' p. go s' p | false ↦ λ s' p. stop s' p ])

pub and_done :
    {S : Type 0} (m rest : Action S Bool) (s t : S) → m s ≡ some (true, t) → (m &&= rest) s ≡ rest t
and_done {S} m rest s t e =
    ap
      (λ (r : Option (Bool × S)). elim r [
        | none ↦ none
        | some (a, s') ↦
            (let next : Action S Bool = elim a [ true ↦ rest | false ↦ pure false ] in next s')
      ])
      e

pub Ensures-both :
    {S A : Type 0} (P Q : A → S → Type 0) (r : Option (A × S))
    → Ensures P r
    → Ensures Q r
    → Ensures (λ a s. P a s × Q a s) r
Ensures-both P Q none h k = h
Ensures-both P Q (some (a, s)) h k = (h, k)
