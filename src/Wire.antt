-- ===== src/Wire.antt =====
-- The messages of protocol versions 2 and 3 as bytes: bbftp-server/includes/structures.h and the
-- encoders and decoders of bbftp-server/bbftpd/bbftpd_message.c. The host is little-endian
-- (WORDS_BIGENDIAN is not defined); a 32-bit field is its pattern, a number below 2 ^ 32.
pub mod Codes
pub mod Words
pub mod Trip
pub mod Store
mod Tests
use bbftp.Base.{
  ℕ, ◌+◌, ◌*◌, ◌/◌, ◌%◌, ◌^◌, List, [], ◌∷◌, ◌++◌, Option, none, some, ◌-◌, ℤ, pos, negsuc, to_int,
  of_int, to_size, ltb, if◌then◌else◌, c_string, replicate, take, drop,
}
use bbftp.Channel.{InSock, OutSock, Received, Sending, Status, readmessage, writemessage}

-- The bytes of a 32-bit field in memory, lowest first, and the field that four bytes hold.
unfoldable pub le32 : ℕ → List ℕ
le32 w = w % 256 ∷ w / 2 ^ 8 % 256 ∷ w / 2 ^ 16 % 256 ∷ w / 2 ^ 24 % 256 ∷ []

unfoldable pub of_le32 : List ℕ → ℕ
of_le32 (a ∷ b ∷ c ∷ d ∷ rest) = a + b * 2 ^ 8 + c * 2 ^ 16 + d * 2 ^ 24
of_le32 short = 0

-- htonl and ntohl of the C library on such a host: the four bytes in reverse.
unfoldable pub htonl : ℕ → ℕ
htonl w = w % 256 * 2 ^ 24 + w / 2 ^ 8 % 256 * 2 ^ 16 + w / 2 ^ 16 % 256 * 2 ^ 8 + w / 2 ^ 24 % 256

-- ntohll of bbftpd.c, on the pattern of 64 bits: the halves are swapped and each turned round.
-- They share no bit, so `|` adds them.
unfoldable pub ntohll : ℕ → ℕ
ntohll v = let lo = htonl (v % 2 ^ 32) in let hi = htonl (v / 2 ^ 32 % 2 ^ 32) in lo * 2 ^ 32 + hi

-- struct message, after msglen is in host order.
pub record Message : Type 0 where
  pub code : ℕ
  pub msglen : ℤ

-- The buffers of bbftpd_fd_msgwrite_len, bbftpd_fd_msgwrite_int32 and bbftpd_fd_msgwrite_int32_2.
unfoldable pub encode_len : ℕ → ℤ → List ℕ
encode_len code len = le32 code ++ le32 (htonl (of_int len))

unfoldable pub encode_int32 : ℕ → ℤ → List ℕ
encode_int32 code i = le32 code ++ (le32 (htonl 4) ++ le32 (htonl (of_int i)))

unfoldable pub encode_int32_2 : ℕ → ℤ → ℤ → List ℕ
encode_int32_2 code i j =
    le32 code ++ (le32 (htonl 8) ++ (le32 (htonl (of_int i)) ++ le32 (htonl (of_int j))))

unfoldable pub fd_msgwrite_len : OutSock → ℕ → ℤ → Sending
fd_msgwrite_len sock code len = writemessage sock (encode_len code len)

unfoldable pub fd_msgwrite_int32 : OutSock → ℕ → ℤ → Sending
fd_msgwrite_int32 sock code i = writemessage sock (encode_int32 code i)

unfoldable pub fd_msgwrite_int32_2 : OutSock → ℕ → ℤ → ℤ → Sending
fd_msgwrite_int32_2 sock code i j = writemessage sock (encode_int32_2 code i j)

-- A value of 32 bits in network order, as an int: bbftpd_msgread_int32 on the four bytes read.
unfoldable pub decode_int : List ℕ → ℤ
decode_int bytes = to_int (htonl (of_le32 bytes))

-- The message that bbftpd_fd_msgread_msg finds in the eight bytes read: the code is left as it is.
unfoldable pub decode_message : List ℕ → Message
decode_message bytes = record { code = of_le32 (take 4 bytes); msglen = decode_int (drop 4 bytes) }

-- MINMESSLEN bytes; the message counts only where the status is success.
unfoldable pub fd_msgread_msg : InSock → Received × Message
fd_msgread_msg sock = let r = readmessage sock (pos 8) in (r, decode_message r.buffer)

-- struct mess_store_v2 on the wire: the numbers in network order but for the options, which both
-- sides keep as they are in memory.
pub record StoreV2 : Type 0 where
  pub filesize : ℤ
  pub transferoption : ℕ
  pub filemode : ℤ
  pub lastaccess : List ℕ
  pub lastmodif : List ℕ
  pub sendwinsize : ℤ
  pub recvwinsize : ℤ
  pub buffersizeperstream : ℤ
  pub nbstream : ℤ

-- The bytes of a 64-bit field, lowest first, and back.
unfoldable pub le64 : ℕ → List ℕ
le64 v = le32 (v % 2 ^ 32) ++ le32 (v / 2 ^ 32)

unfoldable pub of_le64 : List ℕ → ℕ
of_le64 bytes = of_le32 (take 4 bytes) + of_le32 (drop 4 bytes) * 2 ^ 32

-- The 64-bit integer with a given pattern, and back.
unfoldable pub to_long : ℕ → ℤ
to_long v = if ltb v (2 ^ 63) then pos v else negsuc (2 ^ 64 - v - 1)

-- strncpy into a field of eight bytes: the text up to its 0, filled up with zeros.
unfoldable pub pad8 : List ℕ → List ℕ
pad8 t = take 8 (c_string (take 8 t) ++ replicate 8 0)

-- The buffer that init_and_send_msg_store_v2 fills.
unfoldable pub encode_store : StoreV2 → List ℕ
encode_store m =
    le64 (ntohll (to_size m.filesize))
    ++ (le32 m.transferoption
        ++ (le32 (htonl (of_int m.filemode))
            ++ (pad8 m.lastaccess
                ++ (pad8 m.lastmodif
                    ++ (le32 (htonl (of_int m.sendwinsize))
                        ++ (le32 (htonl (of_int m.recvwinsize))
                            ++ (le32 (htonl (of_int m.buffersizeperstream))
                                ++ le32 (htonl (of_int m.nbstream)))))))))

-- The structure that read_msg_store_v2 makes of the 48 bytes read.
unfoldable pub decode_store : List ℕ → StoreV2
decode_store b = record {
  filesize = to_long (ntohll (of_le64 (take 8 b)));
  transferoption = of_le32 (drop 8 b);
  filemode = decode_int (drop 12 b);
  lastaccess = take 8 (drop 16 b);
  lastmodif = take 8 (drop 24 b);
  sendwinsize = decode_int (drop 32 b);
  recvwinsize = decode_int (drop 36 b);
  buffersizeperstream = decode_int (drop 40 b);
  nbstream = decode_int (drop 44 b);
}
