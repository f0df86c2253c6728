-- ===== src/Client/Tests/Requests.antt =====
-- The requests of the client at concrete runs.
use bbftp.Base.{◌≡◌, refl, arith, true, List, [], ◌∷◌, ◌++◌, pos, text, c_string}
use bbftp.Channel.{ready, given, taken}
use bbftp.Wire.{encode_len}
use bbftp.Wire.Codes.{msg_mkdir_v2, msg_bad, tropt_dir}
use bbftp.Server
use bbftp.Server.Tests.{server}
use bbftp.Client.{
  Client, Text, Call, malloc_call, stdout_call, close_call, Outcome, returns, exits, waits, faults,
  double_free, dangling, null,
}
use bbftp.Client.Io.{send_all}
use bbftp.Client.Requests.{
  name_parts, bbftp_cd, bbftp_mkdir, bbftp_rm, bbftp_stat, bbftp_statfs, bbftp_lcd,
  bbftp_setremotecos, bbftp_setremoteumask,
}
use bbftp.Client.Listing.{bbftp_list, bbftp_dir}
use bbftp.Client.Listing.Lines.{Entry}
use bbftp.Client.Frames.{Ends}
use bbftp.Client.Frames.Control.{Settles}
use bbftp.Client.Contract.{DirSettles, requests-Settles}
use bbftp.Client.Trip.{Arrives, name_parts-Arrives}
use bbftp.Client.Tests.{client}

-- The server refuses, with a text.
abbrev refused_client : Client
refused_client = client (encode_len msg_bad (pos 2) ++ text "no")

requests-Settles_example :
    Ends (bbftp_cd (text "d") refused_client) (Settles refused_client)
    × Ends (bbftp_mkdir (text "d") refused_client) (Settles refused_client)
    × Ends (bbftp_rm (text "d") refused_client) (Settles refused_client)
    × Ends (bbftp_stat (text "d") refused_client) (Settles refused_client)
    × Ends (bbftp_statfs (text "d") refused_client) (Settles refused_client)
    × Ends (bbftp_list (text "d") refused_client) (Settles refused_client)
    × Ends (bbftp_dir (text "d") refused_client) (DirSettles (text "d") refused_client)
    × Ends (bbftp_lcd (text "d") refused_client) (Settles refused_client)
    × Ends (bbftp_setremotecos (pos 5) refused_client) (Settles refused_client)
    × Ends (bbftp_setremoteumask (pos 5) refused_client) (Settles refused_client)
requests-Settles_example = requests-Settles (text "d") (pos 5) refused_client

abbrev asked : Client
asked = record (client []) {
  outsock = record {
    sent = encode_len msg_mkdir_v2 (pos 5) ++ (0 ∷ 0 ∷ 0 ∷ 8 ∷ b'd' ∷ []);
    selects = ready ∷ [];
    writes = taken 99 ∷ [];
  };
}

asked_runs :
    send_all (name_parts msg_mkdir_v2 tropt_dir (b'd' ∷ [])) (client []) ≡ returns true asked
unfolding send_all name_parts bbftp.Client.Io.send bbftp.Client.Io.writemessage encode_len
    bbftp.Wire.le32 bbftp.Wire.htonl
asked_runs = refl

abbrev reader : Server.Server
reader = record server {
  insock = record {
    stream = asked.outsock.sent ++ (1 ∷ []);
    selects = ready ∷ ready ∷ [];
    reads = given 99 ∷ given 99 ∷ [];
  };
}

whole : c_string (b'd' ∷ []) ≡ b'd' ∷ []
unfolding c_string
whole = refl

name_parts-Arrives_example : Arrives msg_mkdir_v2 tropt_dir (b'd' ∷ []) (1 ∷ []) reader
name_parts-Arrives_example =
    name_parts-Arrives msg_mkdir_v2 (b'd' ∷ []) (1 ∷ []) (client []) asked reader (omega arith)
      (omega arith) (omega arith) whole refl asked_runs refl

-- Two files.
abbrev files : List Entry
files =
    record { name = b'a' ∷ []; kind = 32 ∷ b'f' ∷ [] }
    ∷ record { name = b'b' ∷ []; kind = b'l' ∷ b'd' ∷ [] }
    ∷ []
