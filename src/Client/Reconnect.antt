-- ===== src/Client/Reconnect.antt =====
-- reconnecttoserver and todoafterconnection of bbftp-client/bbftpc/connecttoserver.c. What do_connect
-- does is a parameter: the connection and the login.
pub mod Ends
use bbftp.Base.{
  ℕ, zero, suc, ◌-◌, ◌^◌, Bool, true, false, not, List, [], ◌∷◌, Option, none, some, ℤ, pos,
  minus_one, eqb_ℤ, if◌then◌else◌, ◌==◌, bit_and,
}
use bbftp.Wire.Codes.{tropt_rfio}
use bbftp.Client.{
  Client, Text, M, sleep_call, waits, pure, ◌>>=◌, ◌>>◌, modify, gets, exit, record_call,
}
use bbftp.Client.Io.{close_control}
use bbftp.Client.Requests.{bbftp_cd, bbftp_setremotecos, bbftp_setremoteumask}
use bbftp.Client.Sendproto.{sendproto}

-- `x & ~flag` on 32 bits.
abbrev pub without : ℕ → ℕ → ℕ
without x flag = bit_and x (2 ^ 32 - 1 - flag)

-- The last step: the remote directory, set without the RFIO option.
unfoldable pub restore_directory : Option Text → M ℤ
restore_directory none = pure (pos 0)
restore_directory (some dir) = do
  oldtransferoption ← gets (λ s. s.transferoption)
  modify λ s. record s { transferoption = without oldtransferoption tropt_rfio }
  retcode ← bbftp_cd dir
  modify λ s. record s { transferoption = oldtransferoption }
  pure (if eqb_ℤ retcode (pos 0) then pos 0 else minus_one)

unfoldable pub restore_cos : M ℤ
restore_cos = do
  cos ← gets (λ s. s.remotecos)
  retcode ← if eqb_ℤ cos minus_one then pure (pos 0) else bbftp_setremotecos cos
  if not (eqb_ℤ retcode (pos 0))
      then pure minus_one
      else (do dir ← gets (λ s. s.remotedir); restore_directory dir)

unfoldable pub todoafterconnection : M ℤ
todoafterconnection = do
  umask ← gets (λ s. s.remoteumask)
  retcode ← if eqb_ℤ umask (pos 0) then pure (pos 0) else bbftp_setremoteumask umask
  if not (eqb_ℤ retcode (pos 0)) then pure minus_one else restore_cos

-- sendproto, and todoafterconnection where it succeeds: true where both return 0.
unfoldable pub settle : M Bool
settle = do
  agreed ← sendproto
  if not (eqb_ℤ agreed (pos 0))
      then pure false
      else (do restored ← todoafterconnection; pure (eqb_ℤ restored (pos 0)))

-- After a connection that failed: the next address, or the whole list again. True where the loop goes
-- on with the next address.
unfoldable pub next_address : Option (List ℕ) → Option (List ℕ) → M Bool
next_address none saved = pure false
next_address (some (a ∷ b ∷ rest)) saved = do
  modify λ s. record s { h_addr_list = some (b ∷ rest); his_ctladdr = b }
  pure true
next_address (some current) none = pure false
next_address (some current) (some []) = pure false
next_address (some current) (some (a ∷ rest)) = do
  modify λ s. record s { h_addr_list = some (a ∷ rest); his_ctladdr = a }
  pure false

module _ (do_connect : M ℤ) where
  -- The loop `while (1)`: true where it returns from reconnecttoserver, false where it breaks. A run
  -- that outlasts its fuel has not come back.
  unfoldable pub connect_loop : ℕ → Option (List ℕ) → M Bool
  connect_loop zero saved = λ s. waits s
  connect_loop (suc fuel) saved =
      let again = connect_loop fuel saved in
      do_connect >>= λ retcode.
      if eqb_ℤ retcode (pos 0)
      then (settle >>= λ settled. if settled then pure true else (close_control >> again))
      else ((gets λ s. s.h_addr_list) >>= λ current.
          next_address current saved >>= λ more. if more then again else pure false)

  -- `left` = BBftp_Globaltrymax - nbtrycon + 1
  unfoldable pub connect_tries : ℕ → ℕ → Option (List ℕ) → M (Unit {0})
  connect_tries fuel zero saved = exit 33
  connect_tries fuel (suc left) saved =
      let rest = connect_tries fuel left saved in
      connect_loop fuel saved >>= λ connected.
      if connected
      then pure tt
      else if left == 0
      then rest
      else (record_call (sleep_call 30) >> rest)

  unfoldable pub reconnecttoserver : ℕ → M (Unit {0})
  reconnecttoserver fuel = do
    saved ← gets (λ s. s.h_addr_list)
    tries ← gets (λ s. s.globaltrymax)
    connect_tries fuel tries saved
