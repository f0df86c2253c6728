-- ===== src/Server/Children/Huge.antt =====
-- A fragment of 2 GB or more in the child of a store (bbftp-server/bbftpd/bbftpd_store.c): what is left
-- is cut to an int, and the loop does not come to its end.
use bbftp.Base.{ℕ, zero, suc, ◌^◌, ◌≤◌, arith, List, [], ◌∷◌, ◌⊎◌, inl, inr, ℤ}
use bbftp.Channel.{interrupted, readmessage}
use bbftp.Child.{
  Child, M, Outcome, returns, exits, waits, spins, continue, close_socket, close_file, unlink_file,
  receive_by, write_file, remaining,
}
use bbftp.Child.Rounds.{store_read}
use bbftp.Server.Children.{datatoreceive, store_rounds}

-- The count never falls below 2 GB.
remaining-stays :
    (kb : ℤ) (left : ℕ) → 2 ^ 31 ≤ left → 2 ^ 31 ≤ remaining left (datatoreceive kb left)
unfolding remaining datatoreceive
remaining-stays kb left h = ground arith

abbrev pub Endless {ℓ} : {A : Type ℓ} → Outcome A → Type 0
Endless (returns a t) = ⊥
Endless (exits n t) = Unit
Endless (waits t) = Unit
Endless (spins t) = Unit

Endless-bind {ℓ κ} :
    {A : Type ℓ} {B : Type κ} (o : Outcome A) (f : A → M B)
    → ((a : A) (t : Child) → Endless (f a t))
    → Endless (continue o f)
Endless-bind (returns a t) f h = h a t
Endless-bind (exits n t) f h = tt
Endless-bind (waits t) f h = tt
Endless-bind (spins t) f h = tt

-- What follows the read of a round does not end where the rest of the loop does not.
after_read :
    (rest : M (Unit {0})) (more : (t : Child) → Endless (rest t)) (r : List ℕ ⊎ ℕ) (t : Child)
    → Endless {A = Unit {0}} (
        store_read interrupted
          (unlink_file ∷ close_socket ∷ close_file ∷ [])
          (close_socket ∷ unlink_file ∷ close_file ∷ [])
          (λ _. rest)
          r
          t)
after_read rest more (inr e) t = tt
after_read rest more (inl bytes) t =
    Endless-bind
      (write_file interrupted (close_socket ∷ unlink_file ∷ close_file ∷ []) t.writes bytes t) _
      (λ _ u. more u)

-- A store of a fragment of 2 GB or more does not come to the end of its loop, and so to the
-- acknowledgement: whatever the size of the buffer, the bytes and the answers of the system are, after
-- any number of rounds the loop has not returned.
pub store_rounds-Endless :
    (kb : ℤ) (fuel left : ℕ) (s : Child) → 2 ^ 31 ≤ left → Endless (store_rounds kb fuel left s)
unfolding store_rounds
store_rounds-Endless kb fuel zero s h = absurd (omega arith)
store_rounds-Endless kb zero (suc left) s h = tt
store_rounds-Endless kb (suc fuel) (suc left) s h =
    let left' = remaining (suc left) (datatoreceive kb (suc left)) in
    Endless-bind (receive_by readmessage (datatoreceive kb (suc left)) s) _ (
      after_read (store_rounds kb fuel left')
        (λ t. store_rounds-Endless kb fuel left' t (remaining-stays kb (suc left) h)))
