-- ===== src/Server/Children/Retr.antt =====
-- What the child of a retrieval sends (bbftp-server/bbftpd/bbftpd_retr.c).
use bbftp.Base.{
  ℕ, zero, suc, ◌-◌, ◌≤◌, min, ◌≡◌, refl, sym, ap, ◌∙◌, subst, arith, false, Bool-cases, List, [],
  ◌∷◌, ◌⊎◌, inl, inr, ℤ, pos, length, length-take, take, ◌==◌, if◌then◌else◌, has, All,
}
use bbftp.Channel.{ReadAnswer, given, read_failed, eintr, readmessage, writemessage}
use bbftp.Wire.{decode_message}
use bbftp.Wire.Codes.{msg_ack, tropt_gzip}
use bbftp.Child.{
  Child, M, exits, close_control, close_listener, close_socket, close_file, ◌>>◌, leave, seek_to,
  receive_by,
}
use bbftp.Child.Ends.{Ends, Ends-bind, Ends-mono}
use bbftp.Child.Sockets.{
  Honest, Honest-moved, HonestIn, HonestOut, IsHonestRead, Reads, receive_by-Reads,
}
use bbftp.Child.Pieces.Writing.{OnZero, leave-fails}
use bbftp.Child.Sends.{Sent, Sent-none, Sent-trans, round-Sent, Carried, Sent-Carried}
use bbftp.Server.Children.Opening.{open_file_fragment-Ends, connection-Ends}
use bbftp.Server.Children.Store.{readmessage-well, writemessage-well}
use bbftp.Server.Children.{
  send_header, retr_rounds, acknowledged, retr_child, num_to_read, wait_for_parent, wait_calls,
  startchildto,
}

num_to_read-le : (b left : ℕ) → num_to_read (pos b) left ≤ left
unfolding num_to_read
num_to_read-le b left = ground arith

module _ (Q : Child → Type 0) (b : ℕ) where
  retr_rounds-Sent :
      (reads : List ReadAnswer) (left : ℕ) (s : Child)
      → All IsHonestRead reads
      → HonestOut s.outsock
      → Ends (retr_rounds false (pos b) reads left s) (λ _ t. Sent left s t) (OnZero Q)
  unfolding retr_rounds send_header
  retr_rounds-Sent reads zero s hr ho = Sent-none s ho
  retr_rounds-Sent [] (suc left) s hr ho = tt
  retr_rounds-Sent (read_failed e ∷ reads) (suc left) s hr ho = elim (Bool-cases (e == eintr)) [
    | inl again ↦ rw (again, retr_rounds) (retr_rounds-Sent reads (suc left) s hr.1 ho)
    | inr fatal ↦
        rw (fatal, retr_rounds)
          (leave-fails (λ _ t. Sent (suc left) s t) Q (close_file ∷ close_socket ∷ []) e s hr.0)
  ]
  retr_rounds-Sent (given n ∷ reads) (suc left) s hr ho =
      let m = min (suc n) (num_to_read (pos b) (suc left)) in
      let k = length (take m s.unread) in
      let fits : k ≤ suc left =
        omega (arith, length-take m s.unread, num_to_read-le b (suc left)) in
      round-Sent Q (λ _ t. Sent (suc left) s t) writemessage writemessage-well
        (close_socket ∷ close_file ∷ []) (retr_rounds false (pos b) reads (suc left - k)) m s ho
        λ t now.
          Ends-mono (retr_rounds false (pos b) reads (suc left - k) t)
            (λ _ u. Sent (suc left - k) t u) (λ _ u. Sent (suc left) s u) (OnZero Q)
            (retr_rounds-Sent reads (suc left - k) t hr.1 now.honest)
            λ _ u later.
              subst (λ j. Sent j s u) (omega arith) (Sent-trans k (suc left - k) s t u now later)

-- Only MSG_ACK gives the exit code 0, and the wait for it sends nothing.
acknowledged-OnZero :
    (Q : Child → Type 0) (s : Child)
    → HonestIn s.insock
    → ((t : Child)
        → t.outsock ≡ s.outsock
        → (decode_message (take 8 s.insock.stream)).code ≡ msg_ack
        → Q t)
    → Ends (acknowledged s) (λ _ _. ⊥) (OnZero Q)
unfolding acknowledged
acknowledged-OnZero Q s honest keeps =
    let s1 = record s { calls = close_file ∷ s.calls } in
    Ends-bind (OnZero Q) (receive_by readmessage (pos 8) s1) _ (Reads 8 s1) (λ _ _. ⊥)
      (receive_by-Reads (OnZero Q) readmessage readmessage-well 8 s1 honest) next
  where
    next :
        (r : List ℕ ⊎ ℕ) (t : Child)
        → Reads 8 (record s { calls = close_file ∷ s.calls }) r t
        → Ends
            (elim r as (λ _. M (Unit {0})) [
              | inr e ↦ leave (close_socket ∷ []) e
              | inl bytes ↦
                  leave
                    (close_socket ∷ [])
                    (if (decode_message bytes).code == msg_ack then 0 else 1)
            ]
              t)
            (λ _ _. ⊥)
            (OnZero Q)
    next (inr e) t h = leave-fails (λ _ _. ⊥) Q (close_socket ∷ []) e t h
    next (inl bytes) t h = λ z.
        keeps (record t { calls = close_socket ∷ t.calls }) (ap (λ (c : Child). c.outsock) h.0)
          (ap (λ bs. (decode_message bs).code) (sym h.1) ∙ ground (arith, z))

retr_child-Ends :
    (options : ℕ) (version : ℤ) (b start n : ℕ) (s : Child)
    → has options tropt_gzip ≡ false
    → Honest s
    → Ends
        (retr_child options version false (pos b) start n s)
        (λ _ _. ⊥)
        (OnZero (Carried start n s))
unfolding retr_child wait_for_parent
retr_child-Ends options version b start n s plain honest =
    let Q : Child → Type 0 = Carried start n s in
    let R : Unit {0} → Child → Type 0 = λ _ _. ⊥ in
    let s1 = record s {
      calls = close_control ∷ close_control ∷ wait_calls startchildto s.flagsighup s.calls;
    } in
    let h1 : Honest s1 = (Honest-moved s 0 s1.calls honest).0 in
    rw plain (
      open_file_fragment-Ends R (OnZero Q) (λ e. leave (close_listener ∷ []) e)
        (λ e t h. leave-fails R Q (close_listener ∷ []) e t h) start _ s1 h1
        (connection-Ends R (OnZero Q) (λ e. leave (close_listener ∷ close_file ∷ []) e)
          (λ e t h. leave-fails R Q (close_listener ∷ close_file ∷ []) e t h) version
          (retr_rounds false (pos b) s.reads n >> acknowledged) (seek_to start s1)
          (Honest-moved s1 start s1.calls h1).1
          λ calls.
            let s2 = record (seek_to start s1) { calls = calls } in
            Ends-bind (OnZero Q) (retr_rounds false (pos b) s.reads n s2) (λ _. acknowledged)
              (λ _ t. Sent n s2 t) R
              (retr_rounds-Sent Q b s.reads n s2 honest.reads honest.outgoing)
              λ _ t loop.
                acknowledged-OnZero Q t (subst HonestIn (sym loop.insock) honest.incoming)
                  λ u same ack.
                    Sent-Carried start n s t u
                      (record {
                        sent = loop.sent;
                        unread = loop.unread;
                        enough = loop.enough;
                        honest = loop.honest;
                        insock = loop.insock;
                      })
                      same ack))

-- A child of a retrieval that ends with 0 has sent its fragment: the bytes of the file from the start of
-- the fragment on, all of them, in order and with nothing else, and the client has acknowledged them.
-- TROPT_GZIP is off, and errors have an errno.
pub retr_child-Carries :
    (options : ℕ) (version : ℤ) (b start n : ℕ) (s t : Child)
    → has options tropt_gzip ≡ false
    → Honest s
    → retr_child options version false (pos b) start n s ≡ exits 0 t
    → Carried start n s t
retr_child-Carries options version b start n s t plain honest e =
    subst (λ o. Ends o (λ _ _. ⊥) (OnZero (Carried start n s))) e
      (retr_child-Ends options version b start n s plain honest) refl
