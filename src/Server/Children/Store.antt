-- ===== src/Server/Children/Store.antt =====
-- What the child of a store leaves in the file (bbftp-server/bbftpd/bbftpd_store.c).
use bbftp.Base.{
  ℕ, zero, suc, ◌-◌, ◌^◌, ◌≤◌, ◌<◌, min, ◌≡◌, refl, sym, ap, ◌∙◌, subst, arith, false, List, [],
  ◌∷◌, Option, none, some, ℤ, pos,
}
use mathlib.Core.List.{append-nil}
use bbftp.Channel.{interrupted, etimedout, readmessage, writemessage}
use bbftp.Wire.{encode_len}
use bbftp.Wire.Codes.{msg_ack}
use bbftp.Child.{
  Child, Call, M, exits, seek_to, quota, close_control, close_listener, ◌>>◌, leave, close_socket,
  unlink_file, close_file, ◌>>=◌, receive_by, send_by, remaining,
}
use bbftp.Child.Ends.{Ends, Ends-bind, Ends-mono, attempt-Ends}
use bbftp.Child.Sockets.{
  Honest, Honest-moved, HonestOut, ReadsWell, WritesWell, Sends, send_by-Sends,
  readmessage-ReadsWell, writemessage-WritesWell,
}
use bbftp.Child.Pieces.{bytes_of, Consecutive}
use bbftp.Child.Pieces.Writing.{OnZero, leave-fails, quota-pos}
use bbftp.Child.Rounds.{
  Ready, Took, Took-trans, round-Took, store_read, Delivered, Took-Delivered, seek_to-Ready,
}
use bbftp.Server.Children.Opening.{open_file_fragment-Ends, connection-Ends}
use bbftp.Server.Children.{
  store_rounds, acknowledge, store_child, datatoreceive, wait_for_parent, wait_calls, startchildto,
}

pub writemessage-well : WritesWell writemessage
unfolding writemessage
writemessage-well = writemessage-WritesWell interrupted

pub readmessage-well : ReadsWell readmessage
unfolding readmessage
readmessage-well = readmessage-ReadsWell interrupted

-- A fragment below 2 GB is cut to the size of the buffer.
datatoreceive-min : (b left : ℕ) → left < 2 ^ 31 → datatoreceive (pos b) left ≡ pos (min b left)
unfolding datatoreceive
datatoreceive-min b left h = ground arith

-- The state at the end of the loop: ready, and the fragment stored.
abbrev Taken : ℕ → ℕ → Child → Unit {0} → Child → Type 0
Taken start n s _ t = Ready start t × Took n s t

module _ (Q : Child → Type 0) (start b : ℕ) (room : 0 < b) where
  store_rounds-Took :
      (fuel left : ℕ) (s : Child)
      → left ≤ fuel
      → left < 2 ^ 31
      → Ready start s
      → Ends (store_rounds (pos b) fuel left s) (Taken start left s) (OnZero Q)
  unfolding store_rounds remaining
  store_rounds-Took fuel zero s f h ready = (
    ready,
    record {
      gone = sym (append-nil (bytes_of s.pieces));
      stream = refl;
      enough = omega arith;
      outsock = refl;
      closes = refl;
    },
  )
  store_rounds-Took zero (suc left) s f h ready = absurd (omega arith)
  store_rounds-Took (suc fuel) (suc left) s f h ready =
      let m = min b (suc left) in
      subst
        (λ amount.
          Ends
            ((receive_by readmessage amount
                >>= store_read interrupted (unlink_file ∷ close_socket ∷ close_file ∷ [])
                    (close_socket ∷ unlink_file ∷ close_file ∷ [])
                    (λ _. store_rounds (pos b) fuel (remaining (suc left) amount)))
              s)
            (Taken start (suc left) s) (OnZero Q))
        (sym (datatoreceive-min b (suc left) h))
        (round-Took Q (Taken start (suc left) s) start readmessage readmessage-well interrupted
          (unlink_file ∷ close_socket ∷ close_file ∷ [])
          (close_socket ∷ unlink_file ∷ close_file ∷ [])
          (λ _. store_rounds (pos b) fuel (remaining (suc left) (pos m))) m s ready
          (λ bytes t full ready' took.
            Ends-mono (store_rounds (pos b) fuel (suc left - m) t) (Taken start (suc left - m) t)
              (Taken start (suc left) s) (OnZero Q)
              (store_rounds-Took fuel (suc left - m) t (omega arith) (omega arith) ready')
              (λ _ u later. (
                later.0,
                subst (λ k. Took k s u) (omega arith)
                    (Took-trans m (suc left - m) s t u took later.1),
              ))))

-- The acknowledgement leaves the file as it is.
acknowledge-OnZero :
    (Q : Child → Type 0) (s : Child)
    → HonestOut s.outsock
    → ((t : Child) → t.pieces ≡ s.pieces → Q t)
    → Ends (acknowledge s) (λ _ _. ⊥) (OnZero Q)
unfolding acknowledge
acknowledge-OnZero Q s honest keeps =
    Ends-bind (OnZero Q) (send_by writemessage (encode_len msg_ack (pos 0)) s) _
      (Sends (encode_len msg_ack (pos 0)) s) (λ _ _. ⊥)
      (send_by-Sends (OnZero Q) writemessage writemessage-well (encode_len msg_ack (pos 0)) s
        honest)
      next
  where
    next :
        (r : Option ℕ) (t : Child)
        → Sends (encode_len msg_ack (pos 0)) s r t
        → Ends
            (elim r as (λ _. M (Unit {0})) [
              | some e ↦ leave (close_socket ∷ unlink_file ∷ close_file ∷ []) etimedout
              | none ↦ leave (close_socket ∷ close_file ∷ []) 0
            ]
              t)
            (λ _ _. ⊥)
            (OnZero Q)
    next (some e) t h =
        leave-fails (λ _ _. ⊥) Q (close_socket ∷ unlink_file ∷ close_file ∷ []) etimedout t
          (omega arith)
    next none t h = λ _.
        keeps (record t { calls = close_socket ∷ close_file ∷ t.calls })
          (ap (λ (c : Child). c.pieces) h.0)

-- The loop and the acknowledgement, from the state in which the loop starts.
stores :
    (b fuel start n : ℕ) (s : Child)
    → 0 < b
    → n ≤ fuel
    → n < 2 ^ 31
    → Ready start s
    → HonestOut s.outsock
    → s.pieces ≡ []
    → Ends
        ((store_rounds (pos b) fuel n >> acknowledge) s)
        (λ _ _. ⊥)
        (OnZero (Delivered start n s.insock.stream))
stores b fuel start n s room enough small ready outgoing fresh =
    let Q : Child → Type 0 = Delivered start n s.insock.stream in
    Ends-bind (OnZero Q) (store_rounds (pos b) fuel n s) (λ _. acknowledge) (Taken start n s)
      (λ _ _. ⊥) (store_rounds-Took Q start b room fuel n s enough small ready)
      λ _ t (ready', took).
        let done : Delivered start n s.insock.stream t =
          Took-Delivered start n s t fresh took ready'.at in
        acknowledge-OnZero Q t (subst HonestOut (sym took.outsock) outgoing) λ u e. record {
          consecutive = subst (Consecutive start) (sym e) done.consecutive;
          gone = ap bytes_of e ∙ done.gone;
          enough = done.enough;
        }

pub store_child-Ends :
    (version : ℤ) (b fuel start n : ℕ) (s : Child)
    → 0 < b
    → n ≤ fuel
    → n < 2 ^ 31
    → Honest s
    → s.pieces ≡ []
    → Ends
        (store_child version false (pos b) fuel start n s)
        (λ _ _. ⊥)
        (OnZero (Delivered start n s.insock.stream))
unfolding store_child wait_for_parent
store_child-Ends version b fuel start n s room enough small honest fresh =
    let Q : Child → Type 0 = Delivered start n s.insock.stream in
    let R : Unit {0} → Child → Type 0 = λ _ _. ⊥ in
    let s1 = record s {
      calls = close_control ∷ close_control ∷ wait_calls startchildto s.flagsighup s.calls;
    } in
    let h1 : Honest s1 = (Honest-moved s 0 s1.calls honest).0 in
    let failing =
      λ (undo : List Call) (e : ℕ) (t : Child) (h : 0 < e). leave-fails R Q undo e t h in
    attempt-Ends R (OnZero Q) s.stats (λ e. leave (close_listener ∷ []) e) _ s1 honest.stats
      (λ e. failing (close_listener ∷ []) e s1)
      (open_file_fragment-Ends R (OnZero Q)
        (λ e. leave (close_listener ∷ unlink_file ∷ []) (quota e))
        (λ e t h. failing (close_listener ∷ unlink_file ∷ []) (quota e) t (quota-pos e h)) start _
        s1 h1
        (connection-Ends R (OnZero Q)
          (λ e. leave (unlink_file ∷ close_listener ∷ close_file ∷ []) e)
          (failing (unlink_file ∷ close_listener ∷ close_file ∷ [])) version
          (store_rounds (pos b) fuel n >> acknowledge) (seek_to start s1)
          (Honest-moved s1 start s1.calls h1).1
          λ calls.
            stores b fuel start n (record (seek_to start s1) { calls = calls }) room enough small
              (let r : Ready start (seek_to start s1) =
                  seek_to-Ready start s1 honest.incoming honest.writes fresh in
                record { incoming = r.incoming; writes = r.writes; at = r.at })
              honest.outgoing fresh))

-- A child of a store that ends with 0 has put the fragment into the file: the first `n` bytes of its
-- connection lie there from the start of the fragment on, in pieces that follow each other. The
-- fragment is below 2 GB, and errors have an errno.
pub store_child-Delivers :
    (version : ℤ) (b fuel start n : ℕ) (s t : Child)
    → 0 < b
    → n ≤ fuel
    → n < 2 ^ 31
    → Honest s
    → s.pieces ≡ []
    → store_child version false (pos b) fuel start n s ≡ exits 0 t
    → Delivered start n s.insock.stream t
store_child-Delivers version b fuel start n s t room enough small honest fresh e =
    subst (λ o. Ends o (λ _ _. ⊥) (OnZero (Delivered start n s.insock.stream))) e
      (store_child-Ends version b fuel start n s room enough small honest fresh) refl
