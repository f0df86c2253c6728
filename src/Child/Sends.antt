-- ===== src/Child/Sends.antt =====
-- One round of the loop in which a child reads and sends, for the server
-- (bbftp-server/bbftpd/bbftpd_retr.c) and the client (bbftp-client/bbftpc/bbftp_retr.c) alike.
use bbftp.Base.{
  ℕ, zero, suc, ◌+◌, ◌≤◌, ◌≡◌, refl, sym, ap, ◌∙◌, subst, arith, List, [], ◌∷◌, ◌++◌, Option, none,
  some, length, length-take, length-drop, take, drop, take-add, drop-add,
}
use mathlib.Core.List.{append_assoc, append-nil}
use bbftp.Channel.{InSock, OutSock, Sending}
use bbftp.Child.{Child, Call, M, ◌>>=◌, ◌>>◌, modify, leave, seek_to, send_by}
use bbftp.Wire.{decode_message}
use bbftp.Wire.Codes.{msg_ack}
use bbftp.Child.Ends.{Ends, Ends-bind}
use bbftp.Child.Sockets.{HonestOut, WritesWell, Sends, send_by-Sends}
use bbftp.Child.Pieces.Writing.{OnZero, leave-fails}

-- The next `n` bytes of the file are sent, and the file had them.
pub record Sent (n : ℕ) (s t : Child) : Type 0 where
  pub sent : t.outsock.sent ≡ s.outsock.sent ++ take n s.unread
  pub unread : t.unread ≡ drop n s.unread
  pub enough : n ≤ length s.unread
  pub honest : HonestOut t.outsock
  pub insock : t.insock ≡ s.insock

pub Sent-none : (s : Child) → HonestOut s.outsock → Sent 0 s s
Sent-none s h = record {
  sent = sym (append-nil s.outsock.sent);
  unread = refl;
  enough = omega arith;
  honest = h;
  insock = refl;
}

ap2 : {a b c d : List ℕ} → a ≡ b → c ≡ d → a ++ c ≡ b ++ d
ap2 p q i = p i ++ q i

pub Sent-trans : (m n : ℕ) (s t u : Child) → Sent m s t → Sent n t u → Sent (m + n) s u
Sent-trans m n s t u a b = record {
  sent =
      b.sent
      ∙ (ap2 a.sent (ap (take n) a.unread)
          ∙ (append_assoc s.outsock.sent (take m s.unread) (take n (drop m s.unread))
              ∙ ap (λ xs. s.outsock.sent ++ xs) (take-add m n s.unread)));
  unread = b.unread ∙ (ap (drop n) a.unread ∙ drop-add m n s.unread);
  enough = omega (arith, a.enough, b.enough, ap length a.unread, length-drop m s.unread);
  honest = b.honest;
  insock = b.insock ∙ a.insock;
}

take-length-take : (m : ℕ) (xs : List ℕ) → take m xs ≡ take (length (take m xs)) xs
take-length-take zero xs = refl
take-length-take (suc m) [] = refl
take-length-take (suc m) (x ∷ xs) = ap (λ ys. x ∷ ys) (take-length-take m xs)

-- What follows the message of a round.
abbrev pub send_next : List Call → M (Unit {0}) → Option ℕ → M (Unit {0})
send_next undo next r = elim r [ some e ↦ leave undo e | none ↦ next ]

module _ (Q : Child → Type 0) (R : Unit {0} → Child → Type 0) where
  -- A round sends what it has read; a failure ends the child with an errno.
  pub round-Sent :
      (writer : OutSock → List ℕ → Sending) (well : WritesWell writer) (undo : List Call)
      (next : M (Unit {0})) (m : ℕ) (s : Child)
      → HonestOut s.outsock
      → ((t : Child) → Sent (length (take m s.unread)) s t → Ends (next t) R (OnZero Q))
      → Ends
          ((modify (λ u. record u { unread = drop (length (take m s.unread)) u.unread })
              >> (send_by writer (take m s.unread) >>= send_next undo next))
            s)
          R
          (OnZero Q)
  round-Sent writer well undo next m s honest more =
      let k = length (take m s.unread) in
      let s1 = record s { unread = drop k s.unread } in
      Ends-bind (OnZero Q) (send_by writer (take m s.unread) s1) (send_next undo next)
        (Sends (take m s.unread) s1) R
        (send_by-Sends (OnZero Q) writer well (take m s.unread) s1 honest) go
    where
      go :
          (r : Option ℕ) (t : Child)
          → Sends
              (take m s.unread)
              (record s { unread = drop (length (take m s.unread)) s.unread })
              r
              t
          → Ends (send_next undo next r t) R (OnZero Q)
      go (some e) t h = leave-fails R Q undo e t h
      go none t h = more t (record {
        sent = h.1 ∙ ap (λ xs. s.outsock.sent ++ xs) (take-length-take m s.unread);
        unread = ap (λ (c : Child). c.unread) h.0;
        enough = omega (arith, length-take m s.unread);
        honest = h.2;
        insock = ap (λ (c : Child). c.insock) h.0;
      })

-- The fragment that a child has sent, its bytes of the file in order behind what was sent before, and
-- the peer's acknowledgement.
pub record Carried (start n : ℕ) (s t : Child) : Type 0 where
  pub sent : t.outsock.sent ≡ s.outsock.sent ++ take n (drop start s.unread)
  pub enough : n ≤ length (drop start s.unread)
  pub acked : (decode_message (take 8 s.insock.stream)).code ≡ msg_ack

-- The state after a loop that has started at a seek.
pub Sent-Carried :
    (start n : ℕ) (s t u : Child)
    → Sent n (seek_to start s) t
    → u.outsock ≡ t.outsock
    → (decode_message (take 8 t.insock.stream)).code ≡ msg_ack
    → Carried start n s u
Sent-Carried start n s t u loop same ack = record {
  sent = ap (λ (o : OutSock). o.sent) same ∙ loop.sent;
  enough = loop.enough;
  acked = subst (λ (i : InSock). (decode_message (take 8 i.stream)).code ≡ msg_ack) loop.insock ack;
}
