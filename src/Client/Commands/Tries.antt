-- ===== src/Client/Commands/Tries.antt =====
-- The tries of treatcommand (bbftp-client/bbftpc/bbftp_cmds.c).
use bbftp.Base.{ℕ, zero, suc, ◌≡◌, refl, ◌∙◌, ap, Bool, false, not, if◌then◌else◌, ◌==◌}
use mathlib.Core.Path.{fun_ext}
use bbftp.Client.{
  Client, M, Outcome, out_of_bounds, returns, exits, waits, faults, continue, ◌>>=◌, ◌>>◌, pure,
  gets, sleep_call, record_call,
}
use bbftp.Client.Reconnect.{reconnecttoserver}
use bbftp.Client.Commands.{try_command, after_try}
use bbftp.Client.Transfers.{Transfers, mend_connection}
use bbftp.Client.Frames.{Ends, Ends-bind, Ends-if, Ends-any}

continue-eq {ℓ κ} :
    {A : Type ℓ} {B : Type κ} (o : Outcome A) (f g : A → M B) (P : A → Client → Type 0)
    → Ends o P
    → ((a : A) (t : Client) → P a t → f a t ≡ g a t)
    → continue o f ≡ continue o g
continue-eq (returns a t) f g P p h = h a t p
continue-eq (exits n t) f g P p h = refl
continue-eq (waits t) f g P p h = refl
continue-eq (faults e t) f g P p h = refl

-- A command that goes wrong where the connection is marked as broken.
abbrev pub guarded : M Bool → M Bool
guarded func s = if s.connectionisbroken then faults out_of_bounds s else func s

module _ (world : Transfers) (fuel : ℕ) where
  mend_connection-unbroken :
      (s : Client) → Ends (mend_connection world fuel s) (λ _ t. t.connectionisbroken ≡ false)
  unfolding mend_connection
  mend_connection-unbroken s =
      Ends-if s.connectionisbroken _ _ s _
        (λ _.
          Ends-bind (reconnecttoserver world.do_connect fuel s) _ (λ _ _. Unit {0}) _
            (Ends-any (reconnecttoserver world.do_connect fuel s)) (λ _ t _. refl))
        (λ e. e)

  -- The rest of a try, once the command has returned.
  next_try : ℕ → M (Unit {0}) → Bool → M (Unit {0})
  next_try num_tries rest called =
      if not called
      then (λ s. pure tt s)
      else ((gets λ s. s.retcode) >>= after_try >>= λ again.
          if not again
          then (λ s. pure tt s)
          else if num_tries == 0
          then (λ s. pure tt s)
          else (record_call (sleep_call 30) >> rest))

  -- Every try of a command finds a connection that is not marked as broken: the loop behaves as if the
  -- command could not run on any other. A broken connection is mended before the next try.
  pub try_command_unbroken :
      (num_tries : ℕ) (func : M Bool) (s : Client)
      → try_command world fuel num_tries (guarded func) s ≡ try_command world fuel num_tries func s
  unfolding try_command next_try
  try_command_unbroken zero func s = refl
  try_command_unbroken (suc n) func s =
      continue-eq (mend_connection world fuel s) _ _ _ (mend_connection-unbroken s) λ _ t e.
        ap (λ o. continue o (next_try n (try_command world fuel n (guarded func))))
          (ap (λ b. if b then faults out_of_bounds t else func t) e)
        ∙ continue-eq (func t) _ _ _ (Ends-any (func t)) λ called u _.
          ap (λ rest. next_try n rest called u) (fun_ext (try_command_unbroken n func))
