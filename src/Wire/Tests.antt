-- ===== src/Wire/Tests.antt =====
-- The theorems of the wire at concrete runs.
use bbftp.Base.{negsuc, ◌≡◌, refl, arith, [], ◌∷◌, ◌++◌, ◌/◌, ◌%◌, ◌^◌, pos, text}
use bbftp.Channel.{InSock, OutSock, ready, given, taken, done}
use bbftp.Wire.Store.{decode_store-encode_store}
use bbftp.Wire.{
  StoreV2, encode_store, decode_store, pad8, htonl, le32, fd_msgwrite_len, fd_msgread_msg,
  encode_len,
}
use bbftp.Wire.Codes.{msg_rm}
use bbftp.Wire.Words.{le32-htonl}
use bbftp.Wire.Trip.{msgread_msg-msgwrite_len}

le32-htonl_example :
    le32 (htonl 0x01020304)
    ≡ 0x01020304 / 2 ^ 24
      ∷ 0x01020304 / 2 ^ 16 % 256
      ∷ 0x01020304 / 2 ^ 8 % 256
      ∷ 0x01020304 % 256
      ∷ []
le32-htonl_example = le32-htonl 0x01020304 (omega arith)

abbrev out : OutSock
out = record { sent = []; selects = ready ∷ ready ∷ []; writes = taken 3 ∷ taken 5 ∷ [] }

abbrev sock : InSock
sock = record {
  stream = (fd_msgwrite_len out msg_rm (pos 9)).sock.sent ++ text "x";
  selects = ready ∷ ready ∷ [];
  reads = given 1 ∷ given 99 ∷ [];
}

out_done : (fd_msgwrite_len out msg_rm (pos 9)).status ≡ done
unfolding fd_msgwrite_len bbftp.Channel.writemessage encode_len le32
out_done = refl

sock_done : (fd_msgread_msg sock).0.status ≡ done
unfolding fd_msgread_msg bbftp.Channel.readmessage fd_msgwrite_len bbftp.Channel.writemessage
    encode_len le32 text
sock_done = refl

msgread_msg-msgwrite_len_example :
    ((fd_msgread_msg sock).1 ≡ record { code = msg_rm; msglen = pos 9 })
    × ((fd_msgread_msg sock).0.sock.stream ≡ text "x")
msgread_msg-msgwrite_len_example =
    msgread_msg-msgwrite_len out sock msg_rm (pos 9) (text "x") (omega arith) (omega arith) refl
      out_done refl sock_done

-- The parameters of a file of 1000 bytes.
abbrev params : StoreV2
params = record {
  filesize = pos 1000;
  transferoption = 0x03000000;
  filemode = pos 420;
  lastaccess = text "5f3759df";
  lastmodif = text "5f37";
  sendwinsize = pos 256;
  recvwinsize = negsuc 0;
  buffersizeperstream = pos 256;
  nbstream = pos 4;
}

decode_store-encode_store_example :
    decode_store (encode_store params)
    ≡ record params { lastaccess = pad8 params.lastaccess; lastmodif = pad8 params.lastmodif }
decode_store-encode_store_example =
    decode_store-encode_store params (omega arith) (omega arith) (omega arith) (omega arith)
      (omega arith) (omega arith) (omega arith)
