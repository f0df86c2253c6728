-- ===== src/Client/Trip.antt =====
-- A request of the client on a name (bbftp_cd.c, bbftp_mkdir.c, bbftp_rm.c and bbftp_list.c of
-- bbftp-client/bbftpc) as its server reads it (bbftp-server/bbftpd/bbftpd_readcontrol.c).
use bbftp.Base.{
  ℕ, ◌+◌, ◌^◌, ◌<◌, ◌≡◌, refl, sym, ap, ◌∙◌, ◌⊎◌, inl, inr, arith, true, List, [], ◌++◌, none, some,
  pos, take, drop, length, c_string, split-eq,
}
use mathlib.Core.List.{append_assoc, append-nil}
use bbftp.Wire.{le32, encode_len, decode_message}
use bbftp.Wire.Trip.{decode_message-encode_len, encode_len-cut}
use bbftp.Wire.Words.{of_le32-le32}
use bbftp.Server
use bbftp.Server.Io
use bbftp.Server.Handlers.Simple.{mess_dir}
use bbftp.Server.Frames
use bbftp.Server.Frames.Stream.{msgread_msg-FindsHeader, read_string-FindsString}
use bbftp.Client.{Client, Text, returns}
use bbftp.Client.Io.{send_all}
use bbftp.Client.Requests.{name_parts}
use bbftp.Client.Frames.{Ends-at}
use bbftp.Client.Frames.Speech.{send_all-Sends, concat}

-- The server has the code, the options and the name in its hands, or it has read too little.
abbrev pub Arrives : ℕ → ℕ → Text → List ℕ → Server.Server → Type 0
Arrives code options name more v = Server.Frames.Ends (Server.Io.msgread_msg v) λ r t.
    (r ≡ none)
    ⊎ ((r ≡ some (record { code = code; msglen = pos (length name + 4) }))
        × Server.Frames.Ends (Server.Io.read_string (pos (length name + 4)) t) λ x u.
          (x ≡ Server.Io.no_memory)
          ⊎ ((bytes : List ℕ) × (x ≡ Server.Io.string bytes)
              × (mess_dir bytes u ≡ Server.returns (options, name) u)
              × (u.insock.stream ≡ more)))

mess_dir-name :
    (options : ℕ) (name : Text) (v : Server.Server)
    → options < 2 ^ 32
    → c_string name ≡ name
    → mess_dir (le32 options ++ name) v ≡ Server.returns (options, name) v
unfolding mess_dir le32
mess_dir-name options name v small whole = ground (arith, of_le32-le32 options name small, whole)

name-cut :
    (options : ℕ) (name more : List ℕ)
    → (le32 options ++ name ≡ take (length name + 4) (le32 options ++ (name ++ more)))
      × (more ≡ drop (length name + 4) (le32 options ++ (name ++ more)))
unfolding le32
name-cut options name more =
    split-eq (le32 options ++ name) more (le32 options ++ (name ++ more)) (length name + 4) refl
      (omega arith)

-- The stream that a request makes, header first.
stream-split :
    (code options : ℕ) (name more : List ℕ)
    → concat (name_parts code options name) ++ more
      ≡ encode_len code (pos (length name + 4)) ++ (le32 options ++ (name ++ more))
unfolding name_parts
stream-split code options name more = rw (append-nil, append_assoc, append_assoc)

-- A server whose stream begins with the writes of a request.
Arrives-stream :
    (code options : ℕ) (name more : List ℕ) (v : Server.Server)
    → code < 2 ^ 32
    → options < 2 ^ 32
    → length name + 4 < 2 ^ 31
    → c_string name ≡ name
    → v.insock.stream ≡ encode_len code (pos (length name + 4)) ++ (le32 options ++ (name ++ more))
    → Arrives code options name more v
Arrives-stream code options name more v hc ho hn whole stream =
    let rest = le32 options ++ (name ++ more) in
    let (front, back) = encode_len-cut code (pos (length name + 4)) rest in
    Server.Frames.Ends-mono (Server.Io.msgread_msg v) _ _ (msgread_msg-FindsHeader v) λ r t p.
      elim p [
        | inl e ↦ inl e
        | inr (found, left) ↦ inr (
          found
              ∙ ap (λ (b : List ℕ). some (decode_message b)) (ap (take 8) stream ∙ front)
              ∙ ap some (decode_message-encode_len code (pos (length name + 4)) hc hn),
          Server.Frames.Ends-mono (Server.Io.read_string (pos (length name + 4)) t) _ _
              (read_string-FindsString (length name + 4) t)
              λ x u q. elim q [
                | inl e ↦ inl e
                | inr (text, end) ↦
                    let here : t.insock.stream ≡ rest = left ∙ ap (drop 8) stream ∙ back in
                    let (taken, over) = name-cut options name more in
                    inr (
                      le32 options ++ name,
                      text
                          ∙ ap (λ (b : List ℕ). Server.Io.string (take (length name + 4) b)) here
                          ∙ ap Server.Io.string (sym taken),
                      mess_dir-name options name u ho whole,
                      end ∙ ap (drop (length name + 4)) here ∙ sym over,
                    )
              ],
        )
      ]

-- What bbftp_cd, bbftp_mkdir, bbftp_rm and the others write for a name arrives: where the writes
-- succeed on a fresh socket and the server gets these bytes, with anything behind them, it reads the
-- header with the code and the length; then read_string and mess_dir give it the options and the name
-- exactly, and the reader stands behind the request. Else a read or a malloc of the server has failed.
-- The name is shorter than 2 ^ 31 - 4 bytes and has no 0 in it.
pub name_parts-Arrives :
    (code : ℕ) (name more : List ℕ) (s t : Client) (v : Server.Server)
    → code < 2 ^ 32
    → s.transferoption < 2 ^ 32
    → length name + 4 < 2 ^ 31
    → c_string name ≡ name
    → s.outsock.sent ≡ []
    → send_all (name_parts code s.transferoption name) s ≡ returns true t
    → v.insock.stream ≡ t.outsock.sent ++ more
    → Arrives code s.transferoption name more v
name_parts-Arrives code name more s t v hc ho hn whole fresh wrote carried =
    let parts = name_parts code s.transferoption name in
    let (_, gone) = Ends-at _ wrote (send_all-Sends parts s) in
    Arrives-stream code s.transferoption name more v hc ho hn whole (
      carried
      ∙ ap (λ (b : List ℕ). b ++ more) (gone refl ∙ ap (λ (b : List ℕ). b ++ concat parts) fresh)
      ∙ stream-split code s.transferoption name more)
