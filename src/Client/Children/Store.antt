-- ===== src/Client/Children/Store.antt =====
-- What the child of a get leaves in the file (bbftp-client/bbftpc/bbftp_store.c).
use bbftp.Base.{
  ℕ, zero, suc, ◌-◌, ◌≤◌, ◌<◌, min, ◌≡◌, refl, sym, ap, ◌∙◌, subst, arith, false, List, [], ◌∷◌,
  ◌++◌, Option, none, some, ℤ, pos, length, replicate, eqb_ℤ, if◌then◌else◌, All,
}
use mathlib.Core.List.{append-nil}
use bbftp.Channel.{etimedout}
use bbftp.Wire.{encode_len}
use bbftp.Wire.Codes.{msg_ack}
use bbftp.Child.{
  Child, Call, M, exits, seek_to, quota, sleep_call, close_control, close_listener, close_other,
  unlink_file, close_file, leave, pure, ◌>>=◌, ◌>>◌, send_by, receive_by,
}
use bbftp.Child.Ends.{Ends, Ends-bind, Ends-mono, Ends-assoc, attempt-Ends, IsHonestCall}
use bbftp.Child.Sockets.{
  Honest, Honest-moved, HonestOut, ReadsWell, WritesWell, Sends, send_by-Sends,
  readmessage-ReadsWell, writemessage-WritesWell,
}
use bbftp.Child.Pieces.{bytes_of, Consecutive}
use bbftp.Child.Pieces.Writing.{OnZero, leave-fails, quota-pos}
use bbftp.Child.Rounds.{
  Ready, Took, Took-trans, round-Took, store_read, Delivered, Took-Delivered, seek_to-Ready,
}
use bbftp.Client.Io.{retried, readmessage, writemessage}
use bbftp.Client.Children.{
  store_rounds, acknowledge, close_stored, store_child, round_amount, recv_data, never,
  close_inherited, childwaittime,
}
use bbftp.Client.Children.Sockets.{recv_data-well}
use bbftp.Client.Children.Opening.{await_peer-Ends, take_connection-Ends}

pub writemessage-well : WritesWell writemessage
unfolding writemessage
writemessage-well = writemessage-WritesWell retried

pub readmessage-well : ReadsWell readmessage
unfolding readmessage
readmessage-well = readmessage-ReadsWell retried

pub round_amount-min : (b left : ℕ) → round_amount (pos b) left ≡ pos (min b left)
unfolding round_amount
round_amount-min b left = ground arith

-- The state at the end of the loop: ready, and the fragment stored.
abbrev Taken : ℕ → ℕ → Child → Unit {0} → Child → Type 0
Taken start n s _ t = Ready start t × Took n s t

module _ (Q : Child → Type 0) (start b : ℕ) (room : 0 < b) where
  store_rounds-Took :
      (fuel left : ℕ) (s : Child)
      → left ≤ fuel
      → Ready start s
      → Ends (store_rounds (pos b) fuel left s) (Taken start left s) (OnZero Q)
  unfolding store_rounds
  store_rounds-Took fuel zero s f ready = (
    ready,
    record {
      gone = sym (append-nil (bytes_of s.pieces));
      stream = refl;
      enough = omega arith;
      outsock = refl;
      closes = refl;
    },
  )
  store_rounds-Took zero (suc left) s f ready = absurd (omega arith)
  store_rounds-Took (suc fuel) (suc left) s f ready =
      let m = min b (suc left) in
      subst
        (λ amount.
          Ends
            ((receive_by recv_data amount
                >>= store_read never (unlink_file ∷ close_file ∷ []) (unlink_file ∷ close_file ∷ [])
                    (λ bytes. store_rounds (pos b) fuel (suc left - length bytes)))
              s)
            (Taken start (suc left) s) (OnZero Q))
        (sym (round_amount-min b (suc left)))
        (round-Took Q (Taken start (suc left) s) start recv_data recv_data-well never
          (unlink_file ∷ close_file ∷ []) (unlink_file ∷ close_file ∷ [])
          (λ bytes. store_rounds (pos b) fuel (suc left - length bytes)) m s ready
          (λ bytes t full ready' took.
            Ends-mono (store_rounds (pos b) fuel (suc left - length bytes) t)
              (Taken start (suc left - length bytes) t) (Taken start (suc left) s) (OnZero Q)
              (store_rounds-Took fuel (suc left - length bytes) t (omega (arith, full)) ready')
              (λ _ u later. (
                later.0,
                subst (λ k. Took k s u) (omega (arith, full))
                    (Took-trans m (suc left - length bytes) s t u took later.1),
              ))))

-- The acknowledgement leaves the file as it is, and so does the end.
finish-OnZero :
    (Q : Child → Type 0) (s : Child)
    → HonestOut s.outsock
    → All IsHonestCall s.closes
    → ((t : Child) → t.pieces ≡ s.pieces → Q t)
    → Ends ((acknowledge >> close_stored) s) (λ _ _. ⊥) (OnZero Q)
unfolding acknowledge close_stored
finish-OnZero Q s honest closes keeps =
    Ends-bind (OnZero Q) (acknowledge s) (λ _. close_stored)
      (λ _ t. (t.pieces ≡ s.pieces) × (t.closes ≡ s.closes)) (λ _ _. ⊥)
      (Ends-bind (OnZero Q) (send_by writemessage (encode_len msg_ack (pos 0)) s) _
        (Sends (encode_len msg_ack (pos 0)) s)
        (λ _ t. (t.pieces ≡ s.pieces) × (t.closes ≡ s.closes))
        (send_by-Sends (OnZero Q) writemessage writemessage-well (encode_len msg_ack (pos 0)) s
          honest)
        next)
      λ _ t (same, answers).
        attempt-Ends (λ _ _. ⊥) (OnZero Q) t.closes (λ e. leave (unlink_file ∷ []) e) (leave [] 0)
          (record t { calls = close_file ∷ t.calls })
          (subst (All IsHonestCall) (sym answers) closes)
          (λ e.
            leave-fails (λ _ _. ⊥) Q (unlink_file ∷ []) e
              (record t { calls = close_file ∷ t.calls }))
          λ _. keeps (record t { calls = close_file ∷ t.calls }) same
  where
    next :
        (r : Option ℕ) (t : Child)
        → Sends (encode_len msg_ack (pos 0)) s r t
        → Ends
            (elim r as (λ _. M (Unit {0})) [
              | some e ↦ leave (unlink_file ∷ close_file ∷ []) etimedout
              | none ↦ pure tt
            ]
              t)
            (λ _ u. (u.pieces ≡ s.pieces) × (u.closes ≡ s.closes))
            (OnZero Q)
    next (some e) t h =
        leave-fails (λ _ u. (u.pieces ≡ s.pieces) × (u.closes ≡ s.closes)) Q
          (unlink_file ∷ close_file ∷ []) etimedout t (omega arith)
    next none t h = (ap (λ (c : Child). c.pieces) h.0, ap (λ (c : Child). c.closes) h.0)

-- The loop, the acknowledgement and the end, from the state in which the loop starts.
stores :
    (b fuel start n : ℕ) (s : Child)
    → 0 < b
    → n ≤ fuel
    → Ready start s
    → Honest s
    → s.pieces ≡ []
    → Ends
        (((store_rounds (pos b) fuel n >> acknowledge) >> close_stored) s)
        (λ _ _. ⊥)
        (OnZero (Delivered start n s.insock.stream))
stores b fuel start n s room enough ready honest fresh =
    let Q : Child → Type 0 = Delivered start n s.insock.stream in
    Ends-assoc (store_rounds (pos b) fuel n s) (λ _. acknowledge) (λ _. close_stored) (λ _ _. ⊥)
      (OnZero Q)
      (Ends-bind (OnZero Q) (store_rounds (pos b) fuel n s) (λ _. acknowledge >> close_stored)
        (Taken start n s) (λ _ _. ⊥) (store_rounds-Took Q start b room fuel n s enough ready)
        λ _ t (ready', took).
          let done : Delivered start n s.insock.stream t =
            Took-Delivered start n s t fresh took ready'.at in
          finish-OnZero Q t (subst HonestOut (sym took.outsock) honest.outgoing)
            (subst (All IsHonestCall) (sym took.closes) honest.closes)
            λ u e. record {
              consecutive = subst (Consecutive start) (sym e) done.consecutive;
              gone = ap bytes_of e ∙ done.gone;
              enough = done.enough;
            })

store_child-Ends :
    (protocol : ℤ) (b fuel streams start n : ℕ) (s : Child)
    → 0 < b
    → n ≤ fuel
    → Honest s
    → s.pieces ≡ []
    → Ends
        (store_child protocol false (pos b) fuel streams start n s)
        (λ _ _. ⊥)
        (OnZero (Delivered start n s.insock.stream))
unfolding store_child close_inherited
store_child-Ends protocol b fuel streams start n s room enough honest fresh =
    let Q : Child → Type 0 = Delivered start n s.insock.stream in
    let R : Unit {0} → Child → Type 0 = λ _ _. ⊥ in
    let s1 = record s {
      calls =
          ((if eqb_ℤ protocol (pos 2) then replicate (streams - 1) close_other else [])
            ++ (close_control ∷ close_control ∷ close_other ∷ close_other ∷ close_other ∷ []))
          ++ s.calls;
    } in
    let failing =
      λ (undo : List Call) (e : ℕ) (t : Child) (h : 0 < e). leave-fails R Q undo e t h in
    attempt-Ends R (OnZero Q) s.stats (λ e. leave (close_listener ∷ []) e) _ s1 honest.stats
      (λ e. failing (close_listener ∷ []) e s1)
      (attempt-Ends R (OnZero Q) s.opens (λ e. leave [] (quota e)) _ s1 honest.opens
        (λ e h. failing [] (quota e) s1 (quota-pos e h))
        (attempt-Ends R (OnZero Q) s.seeks (λ e. leave (unlink_file ∷ close_file ∷ []) e) _ s1
          honest.seeks (λ e. failing (unlink_file ∷ close_file ∷ []) e s1)
          (await_peer-Ends R (OnZero Q)
            (λ e. leave (sleep_call childwaittime ∷ unlink_file ∷ close_file ∷ []) e)
            (failing (sleep_call childwaittime ∷ unlink_file ∷ close_file ∷ [])) s.selects
            (leave (unlink_file ∷ close_file ∷ []) etimedout) _ (seek_to start s1) honest.selects
            (failing (unlink_file ∷ close_file ∷ []) etimedout (seek_to start s1) (omega arith))
            (take_connection-Ends R (OnZero Q) (λ e. leave (unlink_file ∷ close_file ∷ []) e)
              (failing (unlink_file ∷ close_file ∷ [])) protocol
              ((store_rounds (pos b) fuel n >> acknowledge) >> close_stored) (seek_to start s1)
              honest.accepts
              λ calls.
                stores b fuel start n (record (seek_to start s1) { calls = calls }) room enough
                  (let r : Ready start (seek_to start s1) =
                      seek_to-Ready start s1 honest.incoming honest.writes fresh in
                    record { incoming = r.incoming; writes = r.writes; at = r.at })
                  (Honest-moved s start calls honest).1 fresh))))

-- A child of a get that ends with 0 has put the fragment into the file: the first `n` bytes of its
-- connection lie there from the start of the fragment on, in pieces that follow each other. Errors have
-- an errno.
pub store_child-Delivers :
    (protocol : ℤ) (b fuel streams start n : ℕ) (s t : Child)
    → 0 < b
    → n ≤ fuel
    → Honest s
    → s.pieces ≡ []
    → store_child protocol false (pos b) fuel streams start n s ≡ exits 0 t
    → Delivered start n s.insock.stream t
store_child-Delivers protocol b fuel streams start n s t room enough honest fresh e =
    subst (λ o. Ends o (λ _ _. ⊥) (OnZero (Delivered start n s.insock.stream))) e
      (store_child-Ends protocol b fuel streams start n s room enough honest fresh) refl
