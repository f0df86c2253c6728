-- ===== src/Server/Handshake/Tests.antt =====
-- The beginning of a session at a concrete run.
use bbftp.Base.{refl, [], ◌∷◌, pos}
use bbftp.Channel.{ready, given}
use bbftp.Wire.{encode_len}
use bbftp.Wire.Codes.{msg_prot}
use bbftp.Server.{Server}
use bbftp.Server.Frames.{Ends}
use bbftp.Server.Handshake.{begin_session}
use bbftp.Server.Handshake.Version.{Logged, begin_session-Logged}
use bbftp.Server.Tests.{server}

-- A client that has sent MSG_PROT.
abbrev greeted : Server
greeted = record server {
  insock = record {
    stream = encode_len msg_prot (pos 0);
    selects = ready ∷ [];
    reads = given 99 ∷ [];
  };
}

begin_session-Logged_example : Ends (begin_session greeted) (λ _ t. Logged t)
begin_session-Logged_example = begin_session-Logged greeted refl
