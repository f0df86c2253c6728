-- ===== src/Client/Tests/Many.antt =====
-- mget and mput of the client at a concrete run.
use bbftp.Base.{◌≡◌, refl, [], ◌∷◌, List, pos, text}
use bbftp.Client.{filled, pure}
use bbftp.Client.Io.{bb_ret_ok}
use bbftp.Client.Listing.Lines.{Entry, encode_entries}
use bbftp.Client.Transfers.{Transfers}
use bbftp.Client.Transfers.Many.{bbftp_mput, mget_list, mput_file, mget_file}
use bbftp.Client.Transfers.Many.Entries.{transfer_entries, many-entries}
use bbftp.Client.Tests.{client}

-- A file and a directory.
abbrev files : List Entry
files =
    record { name = b'a' ∷ []; kind = 32 ∷ b'f' ∷ [] }
    ∷ record { name = b'b' ∷ []; kind = 32 ∷ b'd' ∷ [] }
    ∷ []

abbrev world : Transfers
world = record {
  do_connect = pure (pos 0);
  bbftp_get = λ name. pure (pos 0);
  bbftp_put = λ name. pure (pos 0);
  bbftp_retrcheckdir = λ dir. pure (pos 0);
  bbftp_retrlistdir = λ name. pure (pos 0, encode_entries files);
}

many-entries_example :
    (bbftp_mput world 3 (text "*") (text "d") (client [])
      ≡ transfer_entries (mput_file world 3 (text "d")) files (pos 0) (client []))
    × (mget_list world 3 (text "d") (filled (encode_entries files)) (client [])
        ≡ transfer_entries (mget_file world 3 (text "d")) files bb_ret_ok (client []))
many-entries_example =
    many-entries world 3 files (text "*") (text "d") (pos 0) (client []) (client []) (client [])
      ((((refl, tt), (refl, (refl, tt))), refl), ((((refl, tt), (refl, (refl, tt))), refl), tt))
      refl refl
