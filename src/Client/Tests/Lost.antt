-- ===== src/Client/Tests/Lost.antt =====
-- A listing that is lost in the middle, at a concrete run of the client.
use bbftp.Base.{◌+◌, ◌≡◌, refl, [], ◌∷◌, ◌++◌, pos, text, length}
use bbftp.Wire.{encode_len, le32}
use bbftp.Wire.Codes.{msg_list_v2, msg_list_repl_v2}
use bbftp.Client.{
  Client, Text, malloc_call, Outcome, returns, exits, waits, faults, double_free, null,
}
use bbftp.Client.Io.{send, send_all, receive, waitcontrol}
use bbftp.Client.Listing.{bbftp_dir}
use bbftp.Client.Listing.Lost.{Interrupted, dir_lost_frees_twice}
use bbftp.Client.Tests.{client}

-- The server sends two of the four bytes that it has announced, and closes.
abbrev cut_client : Client
cut_client = client (encode_len msg_list_repl_v2 (pos 4) ++ (b'a' ∷ 0 ∷ []))

abbrev client_of {ℓ} : {A : Type ℓ} → Outcome A → Client
client_of (returns r t) = t
client_of (exits n t) = t
client_of (waits t) = t
client_of (faults e t) = t

abbrev line : Text
line = text "d" ++ text "/*"

abbrev begun : Client
begun = record cut_client { filelist = null; calls = malloc_call (length (text "d") + 3) ∷ [] }

abbrev asked : Client
asked = client_of (send (encode_len msg_list_v2 (pos (length line + 4))) begun)

abbrev told : Client
told = client_of (send_all (le32 asked.transferoption ∷ line ∷ []) asked)

abbrev here : Client
here = client_of (waitcontrol told)

abbrev told_list : Client
told_list = client_of (receive (pos 8) here)

lost_listing : Interrupted line 4 begun
unfolding send send_all receive waitcontrol bbftp.Client.Io.writemessage bbftp.Client.Io.readmessage
    bbftp.Client.Io.wait_select encode_len le32 bbftp.Wire.htonl bbftp.Wire.decode_message
    bbftp.Wire.decode_int bbftp.Wire.of_le32 text
lost_listing = record {
  asked = asked;
  told = told;
  ready = here;
  answered = told_list;
  failed =
      client_of (receive (pos 4) (record told_list { calls = malloc_call 5 ∷ told_list.calls }));
  bytes = encode_len msg_list_repl_v2 (pos 4);
  head_sent = refl;
  line_sent = refl;
  waited = refl;
  header = refl;
  is_list = refl;
  fits = refl;
  lost = refl;
}

dir_lost_frees_twice_example :
    (u : Client) × (bbftp_dir (text "d") cut_client ≡ faults double_free u)
dir_lost_frees_twice_example =
    dir_lost_frees_twice (text "d") 4 cut_client refl lost_listing refl refl
