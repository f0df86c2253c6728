-- ===== src/Wire/Trip.antt =====
-- What one side writes the other side reads.
use bbftp.Base.{
  ℕ, ◌^◌, ◌<◌, ◌≡◌, refl, List, [], ◌++◌, arith, ℤ, of_int, IsInt, take, drop, ◌∙◌, ap,
}
use mathlib.Core.List.{append-nil}
use bbftp.Channel.{InSock, OutSock, done, writemessage, interrupted}
use bbftp.Channel.Read.{readmessage_exact}
use bbftp.Channel.Write.{writemessage_run}
use bbftp.Wire.{
  le32, of_le32, htonl, encode_len, decode_message, decode_int, fd_msgwrite_len, fd_msgread_msg,
}
use bbftp.Wire.Words.{of_le32-le32, decode_int-encode}

pub le32-cut :
    (w : ℕ) (xs : List ℕ) → (take 4 (le32 w ++ xs) ≡ le32 w) × (drop 4 (le32 w ++ xs) ≡ xs)
unfolding le32
le32-cut w xs = (refl, refl)

of_le32-le32_alone : (w : ℕ) → w < 2 ^ 32 → of_le32 (le32 w) ≡ w
of_le32-le32_alone w h = rw append-nil at (of_le32-le32 w [] h)

pub decode_message-encode_len :
    (code : ℕ) (len : ℤ)
    → code < 2 ^ 32
    → IsInt len
    → decode_message (encode_len code len) ≡ record { code = code; msglen = len }
unfolding decode_message encode_len
decode_message-encode_len code len hc hl =
    let (front, back) = le32-cut code (le32 (htonl (of_int len))) in
    let field : decode_int (le32 (htonl (of_int len))) ≡ len =
      rw append-nil at (decode_int-encode len [] hl) in
    cc (front, back, field, of_le32-le32_alone code hc)

pub encode_len-cut :
    (code : ℕ) (len : ℤ) (more : List ℕ)
    → (take 8 (encode_len code len ++ more) ≡ encode_len code len)
      × (drop 8 (encode_len code len ++ more) ≡ more)
unfolding encode_len le32
encode_len-cut code len more = (refl, refl)

-- A header that bbftpd_fd_msgwrite_len has written on a fresh socket is the message that
-- bbftpd_fd_msgread_msg finds, whatever follows it and however the kernels cut the bytes, and the
-- reader stands exactly behind it.
pub msgread_msg-msgwrite_len :
    (out : OutSock) (sock : InSock) (code : ℕ) (len : ℤ) (more : List ℕ)
    → code < 2 ^ 32
    → IsInt len
    → out.sent ≡ []
    → (fd_msgwrite_len out code len).status ≡ done
    → sock.stream ≡ (fd_msgwrite_len out code len).sock.sent ++ more
    → (fd_msgread_msg sock).0.status ≡ done
    → ((fd_msgread_msg sock).1 ≡ record { code = code; msglen = len })
      × ((fd_msgread_msg sock).0.sock.stream ≡ more)
unfolding fd_msgread_msg fd_msgwrite_len bbftp.Channel.writemessage bbftp.Channel.readmessage
msgread_msg-msgwrite_len out sock code len more hc hl fresh wrote carried read =
    let out_bytes : (writemessage out (encode_len code len)).sock.sent ≡ encode_len code len =
      (writemessage_run interrupted out (encode_len code len)).1 wrote
      ∙ ap (λ (t : List ℕ). t ++ encode_len code len) fresh in
    let (front, back, _) = readmessage_exact sock 8 read in
    let (head, rest) = encode_len-cut code len more in
    ground (arith, out_bytes, front, back, head, rest, decode_message-encode_len code len hc hl)
