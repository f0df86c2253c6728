-- ===== src/Client/Sendproto.antt =====
-- bbftp-client/bbftpc/sendproto.c: the client and the server agree on a protocol version.
use bbftp.Base.{
  ◌||◌, not, none, some, ℤ, pos, minus_one, eqb_ℤ, ltb_ℤ, if◌then◌else◌, ◌==◌, of_int, drop,
}
use bbftp.Wire.{Message, decode_message, decode_int, encode_len, le32, htonl}
use bbftp.Wire.Codes.{msg_prot, msg_prot_ans, msg_bad, msg_bad_no_retry}
use bbftp.Client.{M, pure, ◌>>=◌, ◌>>◌, modify, gets, exit}
use bbftp.Client.Io.{send, receive, waitcontrol}

-- The two writes of the version that is chosen.
unfoldable pub send_version : ℤ → M ℤ
send_version version = do
  told ← send (encode_len msg_prot_ans (pos 4))
  if not told then pure minus_one else (do
    sent ← send (le32 (htonl (of_int version)))
    pure (if sent then pos 0 else minus_one))

-- The range of the server is known.
unfoldable pub agree : ℤ → ℤ → M ℤ
agree remoteprotomin remoteprotomax = do
  protocolmin ← gets (λ s. s.protocolmin)
  protocolmax ← gets (λ s. s.protocolmax)
  if ltb_ℤ remoteprotomax protocolmin || ltb_ℤ protocolmax remoteprotomin
      then (send (encode_len msg_bad_no_retry (pos 0)) >> exit 101)
      else (do
        let version = if ltb_ℤ protocolmax remoteprotomax then protocolmax else remoteprotomax
        modify λ s. record s { protocol = version }
        send_version version)

unfoldable pub read_range : ℤ → M ℤ
read_range msglen = if not (eqb_ℤ msglen (pos 8)) then pure minus_one else (do
  r ← receive msglen
  elim r [
    | none ↦ pure minus_one
    | some bytes ↦ agree (decode_int bytes) (decode_int (drop 4 bytes))
  ])

unfoldable pub protocol_answered : Message → M ℤ
protocol_answered msg =
    if (msg.code == msg_bad) || (msg.code == msg_bad_no_retry)
    then exit 101
    else if msg.code == msg_prot_ans
    then read_range msg.msglen
    else pure minus_one

unfoldable pub sendproto : M ℤ
sendproto = do
  sent ← send (encode_len msg_prot (pos 0))
  if not sent then pure minus_one else (do
    input ← waitcontrol
    if not input then pure minus_one else (do
      head ← receive (pos 8)
      elim head [ none ↦ pure minus_one | some bytes ↦ protocol_answered (decode_message bytes) ]))
