-- ===== src/Client/Tests/Endings.antt =====
-- The request and the end of a transfer of the client at concrete runs.
use bbftp.Base.{◌≡◌, refl, arith, [], ◌∷◌, some, text, ◌++◌, pos}
use bbftp.Channel.{ready, given, select_failed, eintr}
use bbftp.Wire.{encode_len}
use bbftp.Wire.Codes.{msg_bad, msg_info}
use bbftp.Client.{Client, returns, pure}
use bbftp.Client.Io.{bb_ret_ok, bb_ret_error}
use bbftp.Client.Frames.{Ends}
use bbftp.Client.Frames.Control.{Settles}
use bbftp.Client.Asking.{ask_put, ask_get}
use bbftp.Client.Asking.Contract.{asks-Settle}
use bbftp.Client.Ending.{end_put, end_get}
use bbftp.Client.Ending.Waits.{Concluded}
use bbftp.Client.Ending.Contract.{Unlinked, ends-Conclude}
use bbftp.Client.Tests.{client}

-- Two children, of which the server says that one has failed, after a line of information.
abbrev failing : Client
failing = record (client []) {
  insock = record {
    stream = encode_len msg_info (pos 1) ++ (text "i" ++ (encode_len msg_bad (pos 2) ++ text "no"));
    selects = ready ∷ ready ∷ ready ∷ ready ∷ [];
    reads = given 99 ∷ given 99 ∷ given 99 ∷ given 99 ∷ [];
  };
  mychildren = some (pos 11 ∷ pos 12 ∷ []);
  realfilename = some (text "f");
}

abbrev refusing : Client
refusing = client (encode_len msg_bad (pos 2) ++ text "no")

ends-Conclude_example :
    Ends
      (end_put (select_failed eintr ∷ ready ∷ ready ∷ []) failing)
      (Concluded (λ name calls. Unit {0}) (pos 11 ∷ pos 12 ∷ []) failing)
    × Ends
        (end_get (select_failed eintr ∷ ready ∷ ready ∷ []) failing)
        (Concluded Unlinked (pos 11 ∷ pos 12 ∷ []) failing)
ends-Conclude_example =
    ends-Conclude (select_failed eintr ∷ ready ∷ ready ∷ []) (pos 11 ∷ pos 12 ∷ []) failing refl

-- It does return there.
failing_returns :
    (t : Client) × (end_get (select_failed eintr ∷ ready ∷ ready ∷ []) failing
      ≡ returns bb_ret_error t)
unfolding end_get bbftp.Client.Ending.wait_end bbftp.Client.Io.receive bbftp.Client.Io.readmessage
    encode_len bbftp.Wire.le32 text bbftp.Client.Ending.end_message bbftp.Wire.decode_message
    bbftp.Wire.of_le32 bbftp.Client.Ending.read_body bbftp.Wire.decode_int bbftp.Wire.htonl
    bbftp.Client.Io.malloc bbftp.Client.Ending.transfer_failed bbftp.Client.Ending.clean_child
    bbftp.Client.Ending.unlink_real bbftp.Client.Listing.free_all_var
failing_returns = (_, refl)

-- The server refuses the request; the rest would return at once.
asks-Settle_example :
    Ends (ask_put (text "f") (pure bb_ret_ok) refusing) (Settles refusing)
    × Ends (ask_get (text "f") (pure bb_ret_ok) refusing) (Settles refusing)
asks-Settle_example = asks-Settle (text "f") (pure bb_ret_ok) refusing (λ t. ground arith)
