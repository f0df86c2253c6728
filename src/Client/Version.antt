-- ===== src/Client/Version.antt =====
-- The protocol version that sendproto agrees on (bbftp-client/bbftpc/sendproto.c).
use bbftp.Base.{
  ℕ, ◌≡◌, refl, ◌⊎◌, arith, false, ◌||◌, not, List, [], ◌++◌, none, some, ℤ, pos, minus_one, IsInt,
  of_int, take, drop, ltb_ℤ, if◌then◌else◌,
}
use mathlib.Core.List.{append_assoc, append-nil}
use bbftp.Wire.{le32, htonl, encode_len, encode_int32, encode_int32_2, decode_message, decode_int}
use bbftp.Wire.Words.{decode_int-encode}
use bbftp.Wire.Codes.{msg_prot, msg_prot_ans, msg_bad_no_retry}
use bbftp.Wire.Trip.{decode_message-encode_len}
use bbftp.Client.{Client, M, returns, pure, ◌>>=◌}
use bbftp.Client.Io.{send, receive, waitcontrol}
use bbftp.Client.Sendproto.{sendproto, protocol_answered, read_range, agree, send_version}
use bbftp.Client.Frames.{Ends, Ends-bind, Ends-mono, Ends-if, Ends-option, Ends-at}
use bbftp.Client.Frames.Speech.{send-Sends, receive-Receives}

-- The newest version of both ranges.
pub record IsAgreed (lo hi rmin rmax version : ℤ) : Type 0 where
  pub local_min : ltb_ℤ version lo ≡ false
  pub local_max : ltb_ℤ hi version ≡ false
  pub remote_min : ltb_ℤ version rmin ≡ false
  pub remote_max : ltb_ℤ rmax version ≡ false
  pub newest : (version ≡ hi) ⊎ (version ≡ rmax)

send_version-Sends :
    (v : ℤ) (s : Client)
    → Ends (send_version v s) λ r t.
      (t ≡ record s { outsock = t.outsock })
      × (r ≡ pos 0 → t.outsock.sent ≡ s.outsock.sent ++ encode_int32 msg_prot_ans v)
unfolding send_version encode_int32 encode_len
send_version-Sends v s =
    let head = encode_len msg_prot_ans (pos 4) in
    let number = le32 (htonl (of_int v)) in
    Ends-bind (send head s) _ _ _ (send-Sends head s) λ told t p.
      Ends-if (not told) _ _ t _ (λ _. ground (arith, p.0))
        λ e. Ends-bind (send number t) _ _ _ (send-Sends number t) λ sent u q. ground (
          arith,
          p.0,
          p.1,
          q.0,
          q.1,
          append_assoc s.outsock.sent head number,
          append_assoc (le32 msg_prot_ans) (le32 (htonl 4)) number,
        )

agree-IsAgreed :
    (rmin rmax : ℤ) (s : Client)
    → ltb_ℤ s.protocolmax s.protocolmin ≡ false
    → ltb_ℤ rmax rmin ≡ false
    → Ends (agree rmin rmax s) λ r t.
      r ≡ pos 0
      → IsAgreed s.protocolmin s.protocolmax rmin rmax t.protocol
        × (t.outsock.sent ≡ s.outsock.sent ++ encode_int32 msg_prot_ans t.protocol)
        × (t.insock ≡ s.insock)
unfolding agree
agree-IsAgreed rmin rmax s local remote =
    Ends-if (ltb_ℤ rmax s.protocolmin || ltb_ℤ s.protocolmax rmin) _ _ s _
      (λ _.
        Ends-bind (send (encode_len msg_bad_no_retry (pos 0)) s) _ _ _
          (send-Sends (encode_len msg_bad_no_retry (pos 0)) s) (λ _ _ _. tt))
      λ e.
        let v = if ltb_ℤ s.protocolmax rmax then s.protocolmax else rmax in
        Ends-mono (send_version v (record s { protocol = v })) _ _ (send_version-Sends v _)
          λ r t p. ground (arith, p.0, p.1, e, local, remote)

range-cut :
    (a b : ℤ) (more : List ℕ)
    → let bytes = le32 (htonl (of_int a)) ++ (le32 (htonl (of_int b)) ++ more) in
      (take 8 bytes ≡ le32 (htonl (of_int a)) ++ le32 (htonl (of_int b)))
      × (drop 4 (take 8 bytes) ≡ le32 (htonl (of_int b)))
      × (drop 8 bytes ≡ more)
unfolding le32
range-cut a b more = (refl, refl, refl)

-- What sendproto leaves behind when it returns 0.
abbrev pub Agrees : ℤ → ℤ → List ℕ → List ℕ → Client → ℤ → Client → Type 0
Agrees rmin rmax said more s r t =
    r ≡ pos 0
    → IsAgreed s.protocolmin s.protocolmax rmin rmax t.protocol
      × (t.outsock.sent ≡ said ++ encode_int32 msg_prot_ans t.protocol)
      × (t.insock.stream ≡ more)

read_range-Agrees :
    (rmin rmax : ℤ) (more : List ℕ) (s : Client)
    → IsInt rmin
    → IsInt rmax
    → ltb_ℤ s.protocolmax s.protocolmin ≡ false
    → ltb_ℤ rmax rmin ≡ false
    → s.insock.stream ≡ le32 (htonl (of_int rmin)) ++ (le32 (htonl (of_int rmax)) ++ more)
    → Ends (read_range (pos 8) s) (Agrees rmin rmax s.outsock.sent more s)
unfolding read_range
read_range-Agrees rmin rmax more s ha hb local remote stream =
    let (front, second, back) = range-cut rmin rmax more in
    let first : decode_int (le32 (htonl (of_int rmin)) ++ le32 (htonl (of_int rmax))) ≡ rmin =
      decode_int-encode rmin (le32 (htonl (of_int rmax))) ha in
    let last : decode_int (le32 (htonl (of_int rmax))) ≡ rmax =
      rw append-nil at (decode_int-encode rmax [] hb) in
    Ends-bind (receive (pos 8) s) _ _ _ (receive-Receives 8 s) λ r t p.
      Ends-option r _ _ t _ (λ _ e. absurd (ground (arith, e)))
        λ bytes e.
          let got : bytes
              ≡ take 8 (le32 (htonl (of_int rmin)) ++ (le32 (htonl (of_int rmax)) ++ more)) =
            ground (arith, p.1, e, stream) in
          let one : decode_int bytes ≡ rmin = cc (got, front, first) in
          let two : decode_int (drop 4 bytes) ≡ rmax = cc (got, second, last) in
          let rest : t.insock.stream ≡ more = ground (arith, p.1, e, stream, back) in
          rw (one, two)
            (Ends-mono (agree rmin rmax t) _ _
              (agree-IsAgreed rmin rmax t (ground (arith, p.0, local)) remote)
              λ a u q z. ground (arith, q z, p.0, rest))

-- The header of the answer.
answer-cut :
    (rmin rmax : ℤ) (more : List ℕ)
    → let bytes = encode_int32_2 msg_prot_ans rmin rmax ++ more in
      (take 8 bytes ≡ encode_len msg_prot_ans (pos 8))
      × (drop 8 bytes ≡ le32 (htonl (of_int rmin)) ++ (le32 (htonl (of_int rmax)) ++ more))
unfolding le32 encode_int32_2 encode_len
answer-cut rmin rmax more = (refl, refl)

answered-Agrees :
    (rmin rmax : ℤ) (more : List ℕ) (s : Client)
    → IsInt rmin
    → IsInt rmax
    → ltb_ℤ s.protocolmax s.protocolmin ≡ false
    → ltb_ℤ rmax rmin ≡ false
    → s.insock.stream ≡ encode_int32_2 msg_prot_ans rmin rmax ++ more
    → Ends
        ((receive (pos 8) >>= λ head. elim head as (λ _. M ℤ) [
          | none ↦ pure minus_one
          | some bytes ↦ protocol_answered (decode_message bytes)
        ])
          s)
        (Agrees rmin rmax s.outsock.sent more s)
unfolding protocol_answered
answered-Agrees rmin rmax more s ha hb local remote stream =
    let (front, back) = answer-cut rmin rmax more in
    Ends-bind (receive (pos 8) s) _ _ _ (receive-Receives 8 s) λ head t p.
      Ends-option head _ _ t _ (λ _ e. absurd (ground (arith, e)))
        λ bytes e.
          let got : bytes ≡ take 8 (encode_int32_2 msg_prot_ans rmin rmax ++ more) =
            ground (arith, p.1, e, stream) in
          let header : decode_message bytes ≡ record { code = msg_prot_ans; msglen = pos 8 } = cc (
            got,
            front,
            decode_message-encode_len msg_prot_ans (pos 8) (omega arith) (omega arith),
          ) in
          rw header (
            Ends-mono (read_range (pos 8) t) _ _
              (read_range-Agrees rmin rmax more t ha hb (ground (arith, p.0, local)) remote
                (ground (arith, p.1, e, stream, back)))
              λ a u q z. ground (arith, q z, p.0))

waitcontrol-stream :
    (s : Client)
    → Ends
        (waitcontrol s)
        λ _ t. (t ≡ record s { insock = t.insock }) × (t.insock.stream ≡ s.insock.stream)
unfolding waitcontrol
waitcontrol-stream s = ground arith

-- A client and a server whose ranges of protocol versions are not empty agree: where sendproto returns
-- 0 after the answer MSG_PROT_ANS with the range of the server, the version is in both ranges, and it
-- is the newest of one of them; the client has written its request and then that version, and
-- stands behind the answer.
pub sendproto-IsAgreed :
    (rmin rmax : ℤ) (more : List ℕ) (s t : Client)
    → IsInt rmin
    → IsInt rmax
    → ltb_ℤ s.protocolmax s.protocolmin ≡ false
    → ltb_ℤ rmax rmin ≡ false
    → s.insock.stream ≡ encode_int32_2 msg_prot_ans rmin rmax ++ more
    → sendproto s ≡ returns (pos 0) t
    → IsAgreed s.protocolmin s.protocolmax rmin rmax t.protocol
      × (t.outsock.sent
          ≡ (s.outsock.sent ++ encode_len msg_prot (pos 0)) ++ encode_int32 msg_prot_ans t.protocol)
      × (t.insock.stream ≡ more)
unfolding sendproto
sendproto-IsAgreed rmin rmax more s t ha hb local remote stream ran =
    let ask = encode_len msg_prot (pos 0) in
    Ends-at (Agrees rmin rmax (s.outsock.sent ++ ask) more s) ran
      (Ends-bind (send ask s) _ _ _ (send-Sends ask s) λ sent u p.
        Ends-if (not sent) _ _ u _ (λ _ e. absurd (ground (arith, e)))
          λ went. Ends-bind (waitcontrol u) _ _ _ (waitcontrol-stream u) λ input v q.
            Ends-if (not input) _ _ v _ (λ _ e. absurd (ground (arith, e)))
              λ _.
                Ends-mono _ (Agrees rmin rmax v.outsock.sent more v) _
                  (answered-Agrees rmin rmax more v ha hb (ground (arith, p.0, q.0, local)) remote
                    (ground (arith, p.0, q.1, stream)))
                  λ a w r z. ground (arith, r z, p.0, p.1, q.0, went))
      refl
