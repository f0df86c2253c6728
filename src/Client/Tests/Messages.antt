-- ===== src/Client/Tests/Messages.antt =====
-- The messages of the client at concrete runs.
use bbftp.Base.{◌≡◌, refl, arith, [], ◌∷◌, ◌++◌, pos, text}
use bbftp.Channel.{InSock, ready, select_failed, given, taken, done}
use bbftp.Client.Io.{readmessage, eagain}
use bbftp.Client.Io.Discard.{discardmessage, discardmessage_exact}
use bbftp.Wire.{encode_int32, encode_int32_2, encode_len}
use bbftp.Wire.Codes.{msg_prot, msg_prot_ans}
use bbftp.Client.{Client, returns}
use bbftp.Client.Sendproto.{sendproto}
use bbftp.Client.Version.{IsAgreed, sendproto-IsAgreed}
use bbftp.Client.Tests.{client}
use bbftp.Server
use bbftp.Server.Tests.{server}
use bbftp.Server.Handshake.{checkprotocol}
use bbftp.Client.Agreement.{versions_agree}

abbrev slow_sock : InSock
slow_sock = record {
  stream = text "hello";
  selects = select_failed eagain ∷ ready ∷ ready ∷ ready ∷ ready ∷ [];
  reads = given 1 ∷ given 1 ∷ given 2 ∷ [];
}

discard_done : (discardmessage slow_sock (pos 3)).1 ≡ done
unfolding discardmessage bbftp.Client.Io.Discard.discard_loop readmessage text
discard_done = refl

discardmessage_exact_example : (discardmessage slow_sock (pos 3)).0.stream ≡ text "lo"
unfolding text
discardmessage_exact_example = discardmessage_exact slow_sock 3 discard_done

-- A server of the versions 1 to 3, and a byte behind its answer.
abbrev greeted : Client
greeted = client (encode_int32_2 msg_prot_ans (pos 1) (pos 3) ++ (9 ∷ []))

abbrev agreed : Client
agreed = record greeted {
  insock = record { stream = 9 ∷ []; selects = ready ∷ []; reads = given 99 ∷ [] };
  outsock = record {
    sent = encode_len msg_prot (pos 0) ++ encode_int32 msg_prot_ans (pos 3);
    selects = ready ∷ [];
    writes = taken 99 ∷ [];
  };
  protocol = pos 3;
}

greeted_runs : sendproto greeted ≡ returns (pos 0) agreed
unfolding sendproto bbftp.Client.Sendproto.protocol_answered bbftp.Client.Sendproto.read_range
    bbftp.Client.Sendproto.agree bbftp.Client.Sendproto.send_version bbftp.Client.Io.send
    bbftp.Client.Io.receive readmessage bbftp.Client.Io.writemessage bbftp.Client.Io.waitcontrol
    bbftp.Client.Io.wait_select encode_int32_2 encode_int32 encode_len bbftp.Wire.le32
    bbftp.Wire.htonl bbftp.Wire.decode_message bbftp.Wire.decode_int bbftp.Wire.of_le32
greeted_runs = refl

sendproto-IsAgreed_example :
    IsAgreed (pos 2) (pos 3) (pos 1) (pos 3) (pos 3)
    × (agreed.outsock.sent
        ≡ ([] ++ encode_len msg_prot (pos 0)) ++ encode_int32 msg_prot_ans (pos 3))
    × (agreed.insock.stream ≡ 9 ∷ [])
sendproto-IsAgreed_example =
    sendproto-IsAgreed (pos 1) (pos 3) (9 ∷ []) greeted agreed (omega arith) (omega arith) refl refl
      refl greeted_runs

-- The server that hears the version.
abbrev hearing : Server.Server
hearing = record server {
  insock = record {
    stream = encode_int32 msg_prot_ans (pos 3) ++ [];
    selects = ready ∷ ready ∷ [];
    reads = given 99 ∷ given 99 ∷ [];
  };
  outsock = record { sent = []; selects = ready ∷ []; writes = taken 99 ∷ [] };
}

abbrev heard : Server.Server
heard = record hearing {
  insock = record { stream = []; selects = []; reads = [] };
  outsock = record {
    sent = encode_int32_2 msg_prot_ans (pos 1) (pos 3);
    selects = [];
    writes = [];
  };
  protocolversion = pos 3;
}

hearing_runs : checkprotocol hearing ≡ Server.returns (pos 0) heard
unfolding checkprotocol bbftp.Server.Handshake.version_answered bbftp.Server.Handshake.read_version
    bbftp.Server.Handshake.set_version bbftp.Server.Io.send bbftp.Server.Io.receive
    bbftp.Server.Io.msgread_msg bbftp.Server.Io.msgread_int32 bbftp.Channel.readmessage
    bbftp.Channel.writemessage encode_int32_2 encode_int32 encode_len bbftp.Wire.le32
    bbftp.Wire.htonl bbftp.Wire.decode_message bbftp.Wire.decode_int bbftp.Wire.of_le32
hearing_runs = refl

versions_agree_example :
    (heard.protocolversion ≡ agreed.protocol)
    × IsAgreed (pos 2) (pos 3) (pos 1) (pos 3) (pos 3)
    × (heard.outsock.sent ≡ [] ++ encode_int32_2 msg_prot_ans (pos 1) (pos 3))
    × (agreed.outsock.sent
        ≡ ([] ++ encode_len msg_prot (pos 0)) ++ encode_int32 msg_prot_ans (pos 3))
versions_agree_example =
    versions_agree (9 ∷ []) [] greeted agreed hearing heard (omega arith) refl refl greeted_runs
      refl hearing_runs
