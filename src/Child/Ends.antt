-- ===== src/Child/Ends.antt =====
-- Statements about the ways in which a piece of a child ends.
use bbftp.Base.{ℕ, ◌<◌, List, [], ◌∷◌, Option, none, some, ◌==◌, All, Bool-cases, inl, inr}
use bbftp.Channel.{eintr}
use bbftp.Child.{Child, Outcome, returns, exits, waits, spins, continue, M, attempt, persist}

-- What holds where the piece returns, and where it ends the process; it may wait, but it does not use up
-- its rounds.
abbrev pub Ends {ℓ} :
    {A : Type ℓ} → Outcome A → (A → Child → Type 0) → (ℕ → Child → Type 0) → Type 0
Ends (returns a t) R P = R a t
Ends (exits n t) R P = P n t
Ends (waits t) R P = Unit
Ends (spins t) R P = ⊥

module _ {ℓ μ} {A : Type ℓ} {B : Type μ} (P : ℕ → Child → Type 0) where
  pub Ends-bind :
      (o : Outcome A) (f : A → M B) (R : A → Child → Type 0) (Q : B → Child → Type 0)
      → Ends o R P
      → ((a : A) (t : Child) → R a t → Ends (f a t) Q P)
      → Ends (continue o f) Q P
  Ends-bind (returns a t) f R Q h k = k a t h
  Ends-bind (exits n t) f R Q h k = h
  Ends-bind (waits t) f R Q h k = tt
  Ends-bind (spins t) f R Q h k = absurd h

-- The answer to a call is success or an errno, which is not 0.
abbrev pub IsHonestCall : Option ℕ → Type 0
IsHonestCall none = Unit
IsHonestCall (some e) = 0 < e

module _ {ℓ} {A : Type ℓ} (R : A → Child → Type 0) (P : ℕ → Child → Type 0) where
  pub attempt-Ends :
      (answers : List (Option ℕ)) (fail : ℕ → M A) (next : M A) (s : Child)
      → All IsHonestCall answers
      → ((e : ℕ) → 0 < e → Ends (fail e s) R P)
      → Ends (next s) R P
      → Ends (attempt answers fail next s) R P
  unfolding attempt
  attempt-Ends [] fail next s h k n = tt
  attempt-Ends (some e ∷ rest) fail next s h k n = k e h.0
  attempt-Ends (none ∷ rest) fail next s h k n = n

  pub persist-Ends :
      (answers : List (Option ℕ)) (fail : ℕ → M A) (next : M A) (s : Child)
      → All IsHonestCall answers
      → ((e : ℕ) → 0 < e → Ends (fail e s) R P)
      → Ends (next s) R P
      → Ends (persist answers fail next s) R P
  unfolding persist
  persist-Ends [] fail next s h k n = tt
  persist-Ends (some e ∷ rest) fail next s h k n = elim (Bool-cases (e == eintr)) [
    | inl again ↦ rw (again, persist) (persist-Ends rest fail next s h.1 k n)
    | inr fatal ↦ rw (fatal, persist) (k e h.0)
  ]
  persist-Ends (none ∷ rest) fail next s h k n = n

pub Ends-mono {ℓ} :
    {A : Type ℓ} (o : Outcome A) (R Q : A → Child → Type 0) (P : ℕ → Child → Type 0)
    → Ends o R P
    → ((a : A) (t : Child) → R a t → Q a t)
    → Ends o Q P
Ends-mono (returns a t) R Q P h k = k a t h
Ends-mono (exits n t) R Q P h k = h
Ends-mono (waits t) R Q P h k = tt
Ends-mono (spins t) R Q P h k = absurd h

-- Three pieces, bracketed either way.
pub Ends-assoc {ℓ μ ν} :
    {A : Type ℓ} {B : Type μ} {C : Type ν} (o : Outcome A) (f : A → M B) (g : B → M C)
    (R : C → Child → Type 0) (P : ℕ → Child → Type 0)
    → Ends (continue o (λ a t. continue (f a t) g)) R P
    → Ends (continue (continue o f) g) R P
Ends-assoc (returns a t) f g R P h = h
Ends-assoc (exits n t) f g R P h = h
Ends-assoc (waits t) f g R P h = h
Ends-assoc (spins t) f g R P h = absurd h
