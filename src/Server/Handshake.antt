-- ===== src/Server/Handshake.antt =====
-- The agreement on a protocol version: checkprotocol of bbftp-server/bbftpd/bbftpd_check.c, and the end
-- of main of bbftpd.c, which begins the session.
pub mod Version
mod Tests
use bbftp.Base.{
  ℕ, ◌==◌, Bool, true, false, not, Option, none, some, ℤ, pos, minus_one, eqb_ℤ, ltb_ℤ,
  if◌then◌else◌,
}
use bbftp.Wire.{Message, encode_int32_2}
use bbftp.Wire.Codes.{msg_prot, msg_prot_ans, msg_bad_no_retry}
use bbftp.Server.{
  Server, M, Os, logged, protwait, wait_call, pure, ◌>>=◌, ◌>>◌, ask, modify, gets, set_state,
  exits,
}
use bbftp.Server.Io.{send, msgread_msg, msgread_int32, clean_child}
use bbftp.Server.Loop.{start}

abbrev pub protocolmin : ℤ
protocolmin = pos 1

abbrev pub protocolmax : ℤ
protocolmax = pos 3

unfoldable pub set_version : ℤ → M (Unit {0})
set_version version = modify λ s. record s { protocolversion = version }

unfoldable pub read_version : M ℤ
read_version = do
  p ← msgread_int32
  elim p [ none ↦ pure minus_one | some version ↦ set_version version >> pure (pos 0) ]

-- The answer of the client.
unfoldable pub version_answered : Message → M ℤ
version_answered msg =
    if msg.code == msg_prot_ans
    then (if eqb_ℤ msg.msglen (pos 4) then read_version else pure minus_one)
    else if msg.code == msg_bad_no_retry
    then (set_version minus_one >> pure minus_one)
    else pure minus_one

-- The version that is read becomes protocolversion.
unfoldable pub checkprotocol : M ℤ
checkprotocol = do
  sent ← send (encode_int32_2 msg_prot_ans protocolmin protocolmax)
  if not sent then pure minus_one else (do
    head ← msgread_msg
    elim head [ none ↦ pure minus_one | some msg ↦ version_answered msg ])

-- The switch of main on the version, in a server without protocol 1: the loop runs for 2 and 3.
unfoldable pub enter : M (Unit {0})
enter = do
  set_state logged
  version ← gets (λ s. s.protocolversion)
  if eqb_ℤ version (pos 2)
      then modify start
      else if eqb_ℤ version (pos 3)
      then modify start
      else (λ s. exits 1 s)

-- The first message of the session. One that is not MSG_PROT leaves protocolversion as it is.
unfoldable pub first_message : Option Message → M (Unit {0})
first_message none = λ s. exits 1 s
first_message (some msg) =
    if not (msg.code == msg_prot)
    then enter
    else (do checked ← checkprotocol; if eqb_ℤ checked minus_one then (λ s. exits 1 s) else enter)

-- main from S_PROTWAIT on, up to the loop.
unfoldable pub begin_session : M (Unit {0})
begin_session = do
  set_state protwait
  input ← ask (wait_call (pos 10)) (λ os calls. os.pending calls (pos 10))
  elim input [
    | none ↦ λ s. exits 1 s
    | some false ↦ λ s. exits 1 s
    | some true ↦ msgread_msg >>= first_message
  ]
