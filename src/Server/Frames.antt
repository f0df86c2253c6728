-- ===== src/Server/Frames.antt =====
-- What a piece of the server leaves alone when it returns. The proofs of the handlers go through
-- these frames, with the pieces shut.
pub mod Files
pub mod Stream
use bbftp.Base.{
  ℕ, ◌^◌, ◌≡◌, refl, ap, ◌∙◌, arith, ℤ, pos, Bool, true, false, Option, none, some, List, ltb_ℤ,
  eqb_ℤ, if◌then◌else◌,
}
use bbftp.Wire.{Message}
use bbftp.Server.{Server, Outcome, returns, exits, waits, faults, M, Text, continue}
use bbftp.Server.Io.{
  send, receive, reply, msg_reply, die, read_int, read_string, msgread_int32, msgread_msg, malloc,
  msgread_int32_array,
}

-- A postcondition of the ways to return; the process that ends or waits for ever owes nothing.
abbrev pub Ends {ℓ κ} : {A : Type ℓ} → Outcome A → (A → Server → Type κ) → Type κ
Ends (returns a t) Q = Q a t
Ends (exits n t) Q = Unit
Ends (waits t) Q = Unit
Ends (faults e t) Q = Unit

pub Ends-bind {ℓ κ μ ν} :
    {A : Type ℓ} {B : Type κ} (o : Outcome A) (f : A → M B) (P : A → Server → Type μ)
    → (Q : B → Server → Type ν) → Ends o P
    → ((a : A) (t : Server) → P a t → Ends (f a t) Q)
    → Ends (continue o f) Q
Ends-bind (returns a t) f P Q p k = k a t p
Ends-bind (exits n t) f P Q p k = tt
Ends-bind (waits t) f P Q p k = tt
Ends-bind (faults e t) f P Q p k = tt

pub Ends-mono {ℓ μ ν} :
    {A : Type ℓ} (o : Outcome A) (P : A → Server → Type μ) (Q : A → Server → Type ν)
    → Ends o P
    → ((a : A) (t : Server) → P a t → Q a t)
    → Ends o Q
Ends-mono (returns a t) P Q p k = k a t p
Ends-mono (exits n t) P Q p k = tt
Ends-mono (waits t) P Q p k = tt
Ends-mono (faults e t) P Q p k = tt

-- Only the control connection and the record of the system calls have moved.
abbrev pub Same : Server → Server → Type 0
Same s t = t ≡ record s { insock = t.insock; outsock = t.outsock; calls = t.calls }

pub Same-trans : (s t u : Server) → Same s t → Same t u → Same s u
Same-trans s t u p q =
    q ∙ ap (λ (x : Server). record x { insock = u.insock; outsock = u.outsock; calls = u.calls }) p

-- A step that keeps the frame, and the rest of the piece.
pub Same-bind {ℓ κ} :
    {A : Type ℓ} {B : Type κ} (s : Server) (o : Outcome A) (f : A → M B)
    → Ends o (λ _ t. Same s t)
    → ((a : A) (t : Server) → Ends (f a t) (λ _ u. Same t u))
    → Ends (continue o f) (λ _ u. Same s u)
Same-bind s (returns a t) f p k =
    Ends-mono (f a t) (λ _ u. Same t u) (λ _ u. Same s u) (k a t) (λ b u q. Same-trans s t u p q)
Same-bind s (exits n t) f p k = tt
Same-bind s (waits t) f p k = tt
Same-bind s (faults e t) f p k = tt

pub Same-if {ℓ} :
    {A : Type ℓ} (s : Server) (b : Bool) (m k : M A)
    → Ends (m s) (λ _ t. Same s t)
    → Ends (k s) (λ _ t. Same s t)
    → Ends ((if b then m else k) s) (λ _ t. Same s t)
Same-if s true m k p q = p
Same-if s false m k p q = q

-- A recorded call before the rest.
pub Same-after {ℓ} :
    {A : Type ℓ} (s : Server) (t : Server) (o : Outcome A)
    → Same s t
    → Ends o (λ _ u. Same t u)
    → Ends o (λ _ u. Same s u)
Same-after s t o p q =
    Ends-mono o (λ _ u. Same t u) (λ _ u. Same s u) q (λ a u r. Same-trans s t u p r)

pub send-Same : (bytes : Text) (s : Server) → Ends (send bytes s) (λ _ t. Same s t)
unfolding send
send-Same bytes s = ground arith

pub receive-Same : (n : ℤ) (s : Server) → Ends (receive n s) (λ _ t. Same s t)
unfolding receive
receive-Same n s = ground arith

pub reply-Same : (code : ℕ) (str : Text) (s : Server) → Ends (reply code str s) (λ _ t. Same s t)
unfolding reply send die
reply-Same code str s = ground arith

pub msg_reply-Same :
    (code : ℕ) (str : Text) (s : Server) → Ends (msg_reply code str s) (λ _ t. Same s t)
unfolding msg_reply
msg_reply-Same code str s = reply-Same code _ s

pub malloc-Same : (n : ℕ) (s : Server) → Ends (malloc n s) (λ _ t. Same s t)
unfolding malloc
malloc-Same n s = refl

pub msgread_msg-Same : (s : Server) → Ends (msgread_msg s) (λ _ t. Same s t)
unfolding msgread_msg receive
msgread_msg-Same s = ground arith

pub read_int-Same : (n : ℤ) (s : Server) → Ends (read_int n s) (λ _ t. Same s t)
unfolding read_int msgread_int32 receive reply send die
read_int-Same n s = ground arith

pub read_string-Same : (n : ℤ) (s : Server) → Ends (read_string n s) (λ _ t. Same s t)
unfolding read_string malloc receive reply send die
read_string-Same n s = ground arith

-- Each branch of a test, with what the test says.
pub Ends-if {ℓ κ} :
    {A : Type ℓ} (b : Bool) (m k : M A) (s : Server) (Q : A → Server → Type κ)
    → (b ≡ true → Ends (m s) Q)
    → (b ≡ false → Ends (k s) Q)
    → Ends ((if b then m else k) s) Q
Ends-if true m k s Q p q = p refl
Ends-if false m k s Q p q = q refl

-- Nothing is owed.
pub Ends-any {ℓ} : {A : Type ℓ} (o : Outcome A) → Ends o (λ _ _. Unit {0})
Ends-any (returns a t) = tt
Ends-any (exits n t) = tt
Ends-any (waits t) = tt
Ends-any (faults e t) = tt
