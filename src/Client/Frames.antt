-- ===== src/Client/Frames.antt =====
-- What a piece of the client leaves alone when it returns, and what it says to its server.
pub mod Control
pub mod Speech
use bbftp.Base.{Option, none, some, Bool, true, false, if◌then◌else◌, ◌≡◌, refl, subst}
use bbftp.Client.{Client, Outcome, returns, exits, waits, faults, M, continue}

-- A postcondition of the ways to return; the process that ends or waits for ever owes nothing.
abbrev pub Ends {ℓ κ} : {A : Type ℓ} → Outcome A → (A → Client → Type κ) → Type κ
Ends (returns a t) Q = Q a t
Ends (exits n t) Q = Unit
Ends (waits t) Q = Unit
Ends (faults e t) Q = Unit

pub Ends-bind {ℓ κ μ ν} :
    {A : Type ℓ} {B : Type κ} (o : Outcome A) (f : A → M B) (P : A → Client → Type μ)
    → (Q : B → Client → Type ν) → Ends o P
    → ((a : A) (t : Client) → P a t → Ends (f a t) Q)
    → Ends (continue o f) Q
Ends-bind (returns a t) f P Q p k = k a t p
Ends-bind (exits n t) f P Q p k = tt
Ends-bind (waits t) f P Q p k = tt
Ends-bind (faults e t) f P Q p k = tt

pub Ends-mono {ℓ μ ν} :
    {A : Type ℓ} (o : Outcome A) (P : A → Client → Type μ) (Q : A → Client → Type ν)
    → Ends o P
    → ((a : A) (t : Client) → P a t → Q a t)
    → Ends o Q
Ends-mono (returns a t) P Q p k = k a t p
Ends-mono (exits n t) P Q p k = tt
Ends-mono (waits t) P Q p k = tt
Ends-mono (faults e t) P Q p k = tt

-- Each branch of a test, with what the test says.
pub Ends-if {ℓ κ} :
    {A : Type ℓ} (b : Bool) (m k : M A) (s : Client) (Q : A → Client → Type κ)
    → (b ≡ true → Ends (m s) Q)
    → (b ≡ false → Ends (k s) Q)
    → Ends ((if b then m else k) s) Q
Ends-if true m k s Q p q = p refl
Ends-if false m k s Q p q = q refl

pub Ends-elim {ℓ κ} :
    {A : Type ℓ} (b : Bool) (m k : M A) (s : Client) (Q : A → Client → Type κ)
    → (b ≡ true → Ends (m s) Q)
    → (b ≡ false → Ends (k s) Q)
    → Ends ((elim b as (λ _. M A) [ true ↦ m | false ↦ k ]) s) Q
Ends-elim true m k s Q p q = p refl
Ends-elim false m k s Q p q = q refl

-- Each branch of an optional result.
pub Ends-option {ℓ κ μ} :
    {A : Type ℓ} {B : Type κ} (r : Option A) (m : M B) (k : A → M B) (s : Client)
    → (Q : B → Client → Type μ) → (r ≡ none → Ends (m s) Q)
    → ((a : A) → r ≡ some a → Ends (k a s) Q)
    → Ends ((elim r as (λ _. M B) [ none ↦ m | some a ↦ k a ]) s) Q
Ends-option none m k s Q p q = p refl
Ends-option (some a) m k s Q p q = q a refl

-- A run that is known to return.
pub Ends-at {ℓ κ} :
    {A : Type ℓ} {o : Outcome A} {a : A} {t : Client} (Q : A → Client → Type κ)
    → o ≡ returns a t
    → Ends o Q
    → Q a t
Ends-at Q e p = subst (λ o. Ends o Q) e p

-- Nothing is owed.
pub Ends-any {ℓ} : {A : Type ℓ} (o : Outcome A) → Ends o (λ _ _. Unit {0})
Ends-any (returns a t) = tt
Ends-any (exits n t) = tt
Ends-any (waits t) = tt
Ends-any (faults e t) = tt
