-- ===== src/Server/Handshake/Version.antt =====
-- The version that the two sides agree on, and the session that begins with it.
use bbftp.Base.{
  ℕ, ◌==◌, ◌≡◌, refl, ◌⊎◌, inl, inr, ◌∙◌, ap, sym, arith, Bool, true, false, not, List, [], ◌∷◌,
  ◌++◌, Option, none, some, ℤ, pos, negsuc, minus_one, IsInt, of_int, take, drop, eqb_ℤ,
}
use mathlib.Core.List.{append-nil}
use bbftp.Wire.{Message, le32, htonl, encode_len, encode_int32, encode_int32_2, decode_int}
use bbftp.Wire.Words.{decode_int-encode}
use bbftp.Wire.Trip.{decode_message-encode_len}
use bbftp.Wire.Codes.{msg_prot, msg_prot_ans}
use bbftp.Server.{Server, M, logged, protwait, ◌>>=◌, exits, wait_call, pure}
use bbftp.Server.Io.{send, receive, msgread_msg, msgread_int32}
use bbftp.Server.Loop.{start}
use bbftp.Server.Handshake.{
  checkprotocol, version_answered, read_version, set_version, protocolmin, protocolmax, enter,
  first_message, begin_session,
}
use bbftp.Server.Frames.{Ends, Ends-bind, Ends-mono, Ends-if, msgread_msg-Same}
use bbftp.Server.Frames.Stream.{receive-Receives, send-Sends}
use bbftp.Server.Protocol.Ready.{Clean, Same-Clean}

eqb_eq : (v : ℤ) (n : ℕ) → eqb_ℤ v (pos n) ≡ true → v ≡ pos n
eqb_eq (pos m) n e = ap pos (ground arith)
eqb_eq (negsuc m) n e = ground arith

-- S_LOGGED, with every variable of a transfer free, in one of the versions that have the loop.
abbrev pub Logged : Server → Type 0
Logged s =
    (s.state ≡ logged) × (Clean s × ((s.protocolversion ≡ pos 2) ⊎ (s.protocolversion ≡ pos 3)))

enter-Logged : (s : Server) → Clean s → Ends (enter s) (λ _ t. Logged t)
unfolding enter start
enter-Logged s c =
    let clean : Clean (start (record s { state = logged })) =
      ap (λ (u : Server). start (record u { state = logged })) c in
    Ends-if (eqb_ℤ s.protocolversion (pos 2)) _ _ (record s { state = logged }) _
      (λ z. (refl, (clean, inl (eqb_eq s.protocolversion 2 z))))
      λ _.
        Ends-if (eqb_ℤ s.protocolversion (pos 3)) _ _ (record s { state = logged }) _
          (λ z. (refl, (clean, inr (eqb_eq s.protocolversion 3 z)))) (λ _. tt)

-- What the choice of a version may change.
abbrev pub Chooses : Server → Server → Type 0
Chooses s t =
    t ≡ record s { insock = t.insock; outsock = t.outsock; protocolversion = t.protocolversion }

checkprotocol-Chooses : (s : Server) → Ends (checkprotocol s) (λ _ t. Chooses s t)
unfolding checkprotocol version_answered read_version set_version msgread_msg msgread_int32 receive
    send
checkprotocol-Chooses s = ground arith

Chooses-Clean : (s t : Server) → Clean s → Chooses s t → Clean t
Chooses-Clean s t c p =
    p
    ∙ ap
        (λ (u : Server). record u {
          insock = t.insock;
          outsock = t.outsock;
          protocolversion = t.protocolversion;
        })
        c
    ∙ sym (
        ap
          (λ (u : Server). record u {
            curfilename = none;
            realfilename = none;
            myports = none;
            mysockets = none;
            mychildren = none;
            readbuffer = none;
            compbuffer = none;
            nbpidchild = 0;
          })
          p)

first_message-Logged :
    (r : Option Message) (s : Server) → Clean s → Ends (first_message r s) (λ _ t. Logged t)
unfolding first_message
first_message-Logged none s c = tt
first_message-Logged (some msg) s c =
    Ends-if (not (msg.code == msg_prot)) _ _ s _ (λ _. enter-Logged s c)
      λ _. Ends-bind (checkprotocol s) _ _ _ (checkprotocol-Chooses s) λ checked t p.
        Ends-if (eqb_ℤ checked minus_one) _ _ t _ (λ _. tt)
          (λ _. enter-Logged t (Chooses-Clean s t c p))

pending-Logged :
    (input : Option Bool) (s : Server)
    → Clean s
    → Ends
        ((elim input as (λ _. M (Unit {0})) [
          | none ↦ λ t. exits 1 t
          | some false ↦ λ t. exits 1 t
          | some true ↦ msgread_msg >>= first_message
        ])
          s)
        (λ _ t. Logged t)
pending-Logged none s c = tt
pending-Logged (some false) s c = tt
pending-Logged (some true) s c =
    Ends-bind (msgread_msg s) _ _ _ (msgread_msg-Same s)
      (λ r t p. first_message-Logged r t (Same-Clean s t c p))

-- main reaches the loop of a protocol only in S_LOGGED, with protocol version 2 or 3: where it has begun
-- with the variables of a transfer free, they still are.
pub begin_session-Logged : (s : Server) → Clean s → Ends (begin_session s) (λ _ t. Logged t)
unfolding begin_session
begin_session-Logged s c =
    pending-Logged (s.os.pending s.calls (pos 10)) _
      (ap (λ (u : Server). record u { state = protwait; calls = wait_call (pos 10) ∷ u.calls }) c)

version-cut :
    (v : ℤ) (more : List ℕ)
    → let bytes = encode_int32 msg_prot_ans v ++ more in
      (take 8 bytes ≡ encode_len msg_prot_ans (pos 4))
      × (take 4 (drop 8 bytes) ≡ le32 (htonl (of_int v)))
      × (drop 4 (drop 8 bytes) ≡ more)
unfolding le32 encode_int32 encode_len
version-cut v more = (refl, refl, refl)

abbrev pub Takes : ℤ → List ℕ → ℤ → Server → Type 0
Takes v more r t = r ≡ pos 0 → (t.protocolversion ≡ v) × (t.insock.stream ≡ more)

read_version-Takes :
    (v : ℤ) (more : List ℕ) (s : Server)
    → IsInt v
    → take 4 s.insock.stream ≡ le32 (htonl (of_int v))
    → drop 4 s.insock.stream ≡ more
    → Ends (read_version s) λ r t. Takes v more r t × (t.outsock ≡ s.outsock)
unfolding read_version msgread_int32 set_version
read_version-Takes v more s h front back =
    let whole : decode_int (le32 (htonl (of_int v))) ≡ v =
      rw append-nil at (decode_int-encode v [] h) in
    Ends-bind (msgread_int32 s) _
      (λ r t. (t.outsock ≡ s.outsock) × ((r ≡ none) ⊎ ((r ≡ some v) × (t.insock.stream ≡ more)))) _
      (Ends-bind (receive (pos 4) s) _ _ _ (receive-Receives 4 s)
        λ r t p. ground (arith, p.0, p.1, front, back, whole))
      λ r t p. ground (arith, p.0, p.1)

-- The header of the client's answer, and the version behind it.
answer-Takes :
    (v : ℤ) (more : List ℕ) (s : Server)
    → IsInt v
    → s.insock.stream ≡ encode_int32 msg_prot_ans v ++ more
    → Ends
        ((msgread_msg >>= λ head. elim head as (λ _. M ℤ) [
          | none ↦ λ t. pure minus_one t
          | some msg ↦ version_answered msg
        ])
          s)
        (λ r t. Takes v more r t × (t.outsock ≡ s.outsock))
unfolding msgread_msg version_answered
answer-Takes v more s h stream =
    let (front, middle, back) = version-cut v more in
    let header = decode_message-encode_len msg_prot_ans (pos 4) (omega arith) (omega arith) in
    Ends-bind (msgread_msg s) _
      (λ r t.
        (t.outsock ≡ s.outsock)
        × ((r ≡ none)
            ⊎ ((r ≡ some (record { code = msg_prot_ans; msglen = pos 4 }))
                × (t.insock.stream ≡ drop 8 (encode_int32 msg_prot_ans v ++ more)))))
      _
      (Ends-bind (receive (pos 8) s) _ _ _ (receive-Receives 8 s)
        λ r t p. ground (arith, p.0, p.1, stream, front, header))
      λ head t p. elim p.1 [
        | inl e ↦ rw e ((λ z. ground (arith, z)), p.0)
        | inr (e, rest) ↦ rw e (
            Ends-mono (read_version t) _ _
              (read_version-Takes v more t h (ap (λ (b : List ℕ). take 4 b) rest ∙ middle)
                (ap (λ (b : List ℕ). drop 4 b) rest ∙ back))
              λ r u q. (q.0, q.1 ∙ p.0))
      ]

pub checkprotocol-Takes :
    (v : ℤ) (more : List ℕ) (s : Server)
    → IsInt v
    → s.insock.stream ≡ encode_int32 msg_prot_ans v ++ more
    → Ends (checkprotocol s) λ r t.
      Takes v more r t
      × (r ≡ pos 0
          → t.outsock.sent ≡ s.outsock.sent ++ encode_int32_2 msg_prot_ans protocolmin protocolmax)
unfolding checkprotocol
checkprotocol-Takes v more s h stream =
    let range = encode_int32_2 msg_prot_ans protocolmin protocolmax in
    Ends-bind (send range s) _ _ _ (send-Sends range s) λ sent t p.
      Ends-if (not sent) _ _ t _ (λ _. ((λ z. ground (arith, z)), (λ z. ground (arith, z))))
        λ went.
          Ends-mono _ (λ r u. Takes v more r u × (u.outsock ≡ t.outsock)) _
            (answer-Takes v more t h (ground (arith, p.0, stream)))
            λ r u q. (q.0, λ z. ground (arith, q.1, p.1, went))
