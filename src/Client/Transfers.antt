-- ===== src/Client/Transfers.antt =====
-- What the commands of the client call: the login of connecttoserver.c, bbftp_get.c, bbftp_put.c and two
-- functions of bbftp_retr.c of bbftp-client/bbftpc, which are parameters, and the reconnection before a
-- try.
pub mod Many
use bbftp.Base.{ℕ, List, ℤ, false, if◌then◌else◌}
use bbftp.Client.{Text, M, pure, ◌>>=◌, ◌>>◌, modify, gets}
use bbftp.Client.Reconnect.{reconnecttoserver}

-- do_connect, bbftp_get and bbftp_put; bbftp_retrcheckdir, and bbftp_retrlistdir with its list.
pub record Transfers : Type 0 where
  pub do_connect : M ℤ
  pub bbftp_get : Text → M ℤ
  pub bbftp_put : Text → M ℤ
  pub bbftp_retrcheckdir : Text → M ℤ
  pub bbftp_retrlistdir : Text → M (ℤ × List ℕ)

-- A new connection where the last try broke it.
unfoldable pub mend_connection : Transfers → ℕ → M (Unit {0})
mend_connection world fuel = do
  broken ← gets (λ s. s.connectionisbroken)
  if broken
      then (do
        reconnecttoserver world.do_connect fuel
        modify λ s. record s { connectionisbroken = false })
      else pure tt
