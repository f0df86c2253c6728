-- ===== src/Client/Children/Retr.antt =====
-- What the child of a put sends (bbftp-client/bbftpc/bbftp_retr.c).
use bbftp.Base.{
  ℕ, zero, suc, ◌-◌, ◌^◌, ◌≤◌, ◌<◌, min, ◌≡◌, refl, sym, ap, ◌∙◌, subst, arith, false, Bool-cases,
  List, [], ◌∷◌, ◌++◌, ◌⊎◌, inl, inr, ℤ, pos, length, length-take, length-drop, take, drop,
  replicate, to_size, eqb_ℤ, ◌==◌, if◌then◌else◌, All,
}
use bbftp.Channel.{ReadAnswer, given, read_failed, etimedout}
use bbftp.Wire.{decode_message}
use bbftp.Wire.Codes.{msg_ack}
use bbftp.Child.{
  Child, Call, M, exits, sleep_call, close_control, close_other, close_socket, close_file, ◌>>=◌,
  ◌>>◌, leave, modify, pure, seek_to, send_by, receive_by,
}
use bbftp.Child.Ends.{Ends, Ends-bind, Ends-mono, Ends-assoc, attempt-Ends}
use bbftp.Child.Sockets.{Honest, HonestIn, HonestOut, IsHonestRead, Reads, receive_by-Reads}
use bbftp.Child.Pieces.Writing.{OnZero, leave-fails}
use bbftp.Child.Sends.{Sent, Sent-none, Sent-trans, round-Sent, send_next, Carried, Sent-Carried}
use bbftp.Client.Io.{readmessage}
use bbftp.Client.Children.{
  retr_rounds, pass_on, acknowledged, retr_child, round_amount, send_data, close_inherited,
  childwaittime,
}
use bbftp.Client.Children.Sockets.{send_data-well}
use bbftp.Client.Children.Store.{readmessage-well, round_amount-min}
use bbftp.Client.Children.Opening.{await_peer-Ends, take_connection-Ends}

pass_on-step :
    (got : List ℕ) (next : M (Unit {0})) (s : Child)
    → 0 < length got
    → pass_on got next s
      ≡ (modify (λ u. record u { unread = drop (length got) u.unread })
            >> (send_by send_data got >>= send_next (close_socket ∷ close_file ∷ []) next))
          s
unfolding pass_on
pass_on-step [] next s h = absurd (omega arith)
pass_on-step (b ∷ bs) next s h = refl

amount-min : (b left : ℕ) → b < 2 ^ 31 → to_size (round_amount (pos b) left) ≡ min b left
amount-min b left h = rw (round_amount-min b left) (omega arith)

module _ (Q : Child → Type 0) (b : ℕ) (some_room : 0 < b) (is_int : b < 2 ^ 31) where
  retr_rounds-Sent :
      (reads : List ReadAnswer) (left : ℕ) (s : Child)
      → All IsHonestRead reads
      → HonestOut s.outsock
      → left ≤ length s.unread
      → Ends (retr_rounds (pos b) reads left s) (λ _ t. Sent left s t) (OnZero Q)
  unfolding retr_rounds
  retr_rounds-Sent reads zero s hr ho there = Sent-none s ho
  retr_rounds-Sent [] (suc left) s hr ho there = tt
  retr_rounds-Sent (read_failed e ∷ reads) (suc left) s hr ho there =
      leave-fails (λ _ t. Sent (suc left) s t) Q (close_file ∷ close_socket ∷ []) e s hr.0
  retr_rounds-Sent (given n ∷ reads) (suc left) s hr ho there =
      let amount = to_size (round_amount (pos b) (suc left)) in
      let m = min (suc n) amount in
      let k = length (take m s.unread) in
      let whole : amount ≡ min b (suc left) = amount-min b (suc left) is_int in
      let fits : k ≤ suc left = omega (arith, length-take m s.unread, whole) in
      let more : 0 < k = omega (arith, length-take m s.unread, whole) in
      subst (λ o. Ends o (λ _ t. Sent (suc left) s t) (OnZero Q))
        (sym (pass_on-step (take m s.unread) (retr_rounds (pos b) reads (suc left - k)) s more))
        (round-Sent Q (λ _ t. Sent (suc left) s t) send_data send_data-well
          (close_socket ∷ close_file ∷ []) (retr_rounds (pos b) reads (suc left - k)) m s ho
          λ t now.
            Ends-mono (retr_rounds (pos b) reads (suc left - k) t) (λ _ u. Sent (suc left - k) t u)
              (λ _ u. Sent (suc left) s u) (OnZero Q)
              (retr_rounds-Sent reads (suc left - k) t hr.1 now.honest
                (omega (arith, ap length now.unread, length-drop k s.unread)))
              λ _ u later.
                subst (λ j. Sent j s u) (omega arith) (Sent-trans k (suc left - k) s t u now later))

-- Only MSG_ACK leads to the end with 0, and the wait for it sends nothing.
finish-OnZero :
    (Q : Child → Type 0) (s : Child)
    → HonestIn s.insock
    → ((t : Child)
        → t.outsock ≡ s.outsock
        → (decode_message (take 8 s.insock.stream)).code ≡ msg_ack
        → Q t)
    → Ends {A = Unit {0}} ((acknowledged >> leave (close_socket ∷ []) 0) s) (λ _ _. ⊥) (OnZero Q)
unfolding acknowledged
finish-OnZero Q s honest keeps =
    let s1 = record s { calls = close_file ∷ s.calls } in
    Ends-bind (OnZero Q) (acknowledged s) (λ _. leave (close_socket ∷ []) 0)
      (λ _ t. (t.outsock ≡ s.outsock) × ((decode_message (take 8 s.insock.stream)).code ≡ msg_ack))
      (λ _ _. ⊥)
      (Ends-bind (OnZero Q) (receive_by readmessage (pos 8) s1) _ (Reads 8 s1)
        (λ _ t.
          (t.outsock ≡ s.outsock) × ((decode_message (take 8 s.insock.stream)).code ≡ msg_ack))
        (receive_by-Reads (OnZero Q) readmessage readmessage-well 8 s1 honest) next)
      λ _ t (same, ack) _. keeps (record t { calls = close_socket ∷ t.calls }) same ack
  where
    next :
        (r : List ℕ ⊎ ℕ) (t : Child)
        → Reads 8 (record s { calls = close_file ∷ s.calls }) r t
        → Ends {A = Unit {0}}
            (elim r as (λ _. M (Unit {0})) [
              | inr e ↦ leave (close_socket ∷ []) etimedout
              | inl bytes ↦
                  if (decode_message bytes).code == msg_ack
                  then pure tt
                  else leave (close_socket ∷ []) 1
            ]
              t)
            (λ _ u.
              (u.outsock ≡ s.outsock) × ((decode_message (take 8 s.insock.stream)).code ≡ msg_ack))
            (OnZero Q)
    next (inr e) t h =
        leave-fails
          (λ _ u.
            (u.outsock ≡ s.outsock) × ((decode_message (take 8 s.insock.stream)).code ≡ msg_ack))
          Q (close_socket ∷ []) etimedout t (omega arith)
    next (inl bytes) t h = elim (Bool-cases ((decode_message bytes).code == msg_ack)) [
      | inl acked ↦ rw acked (
        ap (λ (c : Child). c.outsock) h.0,
        ap (λ bs. (decode_message bs).code) (sym h.1) ∙ ground (arith, acked),
      )
      | inr other ↦ rw other (
          leave-fails
            (λ _ u.
              (u.outsock ≡ s.outsock) × ((decode_message (take 8 s.insock.stream)).code ≡ msg_ack))
            Q (close_socket ∷ []) 1 t (omega arith))
    ]

retr_child-Ends :
    (protocol : ℤ) (b streams start n : ℕ) (s : Child)
    → 0 < b
    → b < 2 ^ 31
    → Honest s
    → n ≤ length (drop start s.unread)
    → Ends
        (retr_child protocol false (pos b) streams start n s)
        (λ _ _. ⊥)
        (OnZero (Carried start n s))
unfolding retr_child close_inherited
retr_child-Ends protocol b streams start n s some_room is_int honest there =
    let Q : Child → Type 0 = Carried start n s in
    let R : Unit {0} → Child → Type 0 = λ _ _. ⊥ in
    let s1 = record s {
      calls =
          ((if eqb_ℤ protocol (pos 2) then replicate (streams - 1) close_other else [])
            ++ (close_control ∷ close_control ∷ close_other ∷ close_other ∷ close_other ∷ []))
          ++ s.calls;
    } in
    let failing =
      λ (undo : List Call) (e : ℕ) (t : Child) (h : 0 < e). leave-fails R Q undo e t h in
    attempt-Ends R (OnZero Q) s.opens (λ e. leave [] e) _ s1 honest.opens (λ e. failing [] e s1)
      (attempt-Ends R (OnZero Q) s.seeks (λ e. leave (close_file ∷ []) e) _ s1 honest.seeks
        (λ e. failing (close_file ∷ []) e s1)
        (await_peer-Ends R (OnZero Q) (λ e. leave (sleep_call childwaittime ∷ close_file ∷ []) e)
          (failing (sleep_call childwaittime ∷ close_file ∷ [])) s.selects
          (leave (close_file ∷ []) etimedout) _ (seek_to start s1) honest.selects
          (failing (close_file ∷ []) etimedout (seek_to start s1) (omega arith))
          (take_connection-Ends R (OnZero Q) (λ e. leave (close_file ∷ []) e)
            (failing (close_file ∷ [])) protocol
            ((retr_rounds (pos b) s.reads n >> acknowledged) >> leave (close_socket ∷ []) 0)
            (seek_to start s1) honest.accepts
            λ calls.
              let s2 = record (seek_to start s1) { calls = calls } in
              Ends-assoc (retr_rounds (pos b) s.reads n s2) (λ _. acknowledged)
                (λ _. leave (close_socket ∷ []) 0) R (OnZero Q)
                (Ends-bind (OnZero Q) (retr_rounds (pos b) s.reads n s2)
                  (λ _. acknowledged >> leave (close_socket ∷ []) 0) (λ _ t. Sent n s2 t) R
                  (retr_rounds-Sent Q b some_room is_int s.reads n s2 honest.reads honest.outgoing
                    there)
                  λ _ t loop.
                    finish-OnZero Q t (subst HonestIn (sym loop.insock) honest.incoming)
                      λ u same ack.
                        Sent-Carried start n s t u
                          (record {
                            sent = loop.sent;
                            unread = loop.unread;
                            enough = loop.enough;
                            honest = loop.honest;
                            insock = loop.insock;
                          })
                          same ack))))

-- A child of a put that ends with 0 has sent its fragment: the bytes of the file from the start of the
-- fragment on, all of them, in order and with nothing else, and the server has acknowledged them. The
-- buffer has room, the file is as long as the fragment asks, and errors have an errno.
pub retr_child-Carries :
    (protocol : ℤ) (b streams start n : ℕ) (s t : Child)
    → 0 < b
    → b < 2 ^ 31
    → Honest s
    → n ≤ length (drop start s.unread)
    → retr_child protocol false (pos b) streams start n s ≡ exits 0 t
    → Carried start n s t
retr_child-Carries protocol b streams start n s t some_room is_int honest there e =
    subst (λ o. Ends o (λ _ _. ⊥) (OnZero (Carried start n s))) e
      (retr_child-Ends protocol b streams start n s some_room is_int honest there) refl
