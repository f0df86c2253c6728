-- ===== src/Client/Agreement.antt =====
-- sendproto of bbftp-client/bbftpc/sendproto.c against checkprotocol of
-- bbftp-server/bbftpd/bbftpd_check.c.
use bbftp.Base.{ℕ, ◌≡◌, refl, inl, inr, sym, subst, arith, false, List, ◌++◌, ℤ, pos, IsInt, ltb_ℤ}
use bbftp.Wire.{encode_len, encode_int32, encode_int32_2}
use bbftp.Wire.Codes.{msg_prot, msg_prot_ans}
use bbftp.Server
use bbftp.Server.Frames
use bbftp.Server.Handshake.{checkprotocol, protocolmin, protocolmax}
use bbftp.Server.Handshake.Version.{checkprotocol-Takes, Takes}
use bbftp.Client.{Client, returns}
use bbftp.Client.Sendproto.{sendproto}
use bbftp.Client.Version.{IsAgreed, sendproto-IsAgreed}

agreed-IsInt : (lo hi rmin v : ℤ) → IsInt hi → IsAgreed lo hi rmin (pos 3) v → IsInt v
agreed-IsInt lo hi rmin v h a = elim a.newest [
  | inl e ↦ subst IsInt (sym e) h
  | inr e ↦ subst IsInt (sym e) (omega arith)
]

-- The two sides use the same version of the protocol: where the client has read the range that
-- checkprotocol writes, sendproto returns 0, the server has read what sendproto writes for its
-- version, and checkprotocol returns 0, protocolversion of the server is BBftp_Protocol of the client,
-- and a version in both ranges. The range of the client is not empty.
pub versions_agree :
    (more rest : List ℕ) (c d : Client) (s t : Server.Server)
    → IsInt c.protocolmax
    → ltb_ℤ c.protocolmax c.protocolmin ≡ false
    → c.insock.stream ≡ encode_int32_2 msg_prot_ans protocolmin protocolmax ++ more
    → sendproto c ≡ returns (pos 0) d
    → s.insock.stream ≡ encode_int32 msg_prot_ans d.protocol ++ rest
    → checkprotocol s ≡ Server.returns (pos 0) t
    → (t.protocolversion ≡ d.protocol)
      × IsAgreed c.protocolmin c.protocolmax protocolmin protocolmax d.protocol
      × (t.outsock.sent ≡ s.outsock.sent ++ encode_int32_2 msg_prot_ans protocolmin protocolmax)
      × (d.outsock.sent
          ≡ (c.outsock.sent ++ encode_len msg_prot (pos 0)) ++ encode_int32 msg_prot_ans d.protocol)
versions_agree more rest c d s t h range offered ran heard checked =
    let (agreed, told, _) =
      sendproto-IsAgreed protocolmin protocolmax more c d (omega arith) (omega arith) range refl
        offered ran in
    let small = agreed-IsInt c.protocolmin c.protocolmax protocolmin d.protocol h agreed in
    let (takes, gone) =
      subst
        (λ o. Server.Frames.Ends o (λ r u.
          Takes d.protocol rest r u
          × (r ≡ pos 0
              → u.outsock.sent
                ≡ s.outsock.sent ++ encode_int32_2 msg_prot_ans protocolmin protocolmax)))
        checked (checkprotocol-Takes d.protocol rest s small heard) in
    ((takes refl).0, agreed, gone refl, told)
