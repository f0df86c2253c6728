-- ===== src/Client/Children/Opening.antt =====
-- How a child of the client comes to its connection (bbftp-client/bbftpc/bbftp_store.c and bbftp_retr.c).
use bbftp.Base.{ℕ, ◌<◌, ◌∷◌, [], ℤ, pos, List, Bool-cases, inl, inr, eqb_ℤ, All}
use bbftp.Channel.{SelectAnswer, ready, expired, select_failed}
use bbftp.Child.{Child, Call, M, close_listener, ◌>>◌, record_calls}
use bbftp.Child.Ends.{Ends, attempt-Ends, IsHonestCall}
use bbftp.Child.Sockets.{IsHonestSelect}
use bbftp.Client.Children.{await_peer, take_connection}

module _ (R : Unit {0} → Child → Type 0) (P : ℕ → Child → Type 0) (fail : ℕ → M (Unit {0}))
    (fails : (e : ℕ) (t : Child) → 0 < e → Ends (fail e t) R P) where
  pub await_peer-Ends :
      (selects : List SelectAnswer) (late next : M (Unit {0})) (s : Child)
      → All IsHonestSelect selects
      → Ends (late s) R P
      → Ends (next s) R P
      → Ends (await_peer selects fail late next s) R P
  unfolding await_peer
  await_peer-Ends [] late next s h l n = tt
  await_peer-Ends (ready ∷ rest) late next s h l n = n
  await_peer-Ends (expired ∷ rest) late next s h l n = l
  await_peer-Ends (select_failed e ∷ rest) late next s h l n = fails e s h.0

  pub take_connection-Ends :
      (protocol : ℤ) (next : M (Unit {0})) (s : Child)
      → All IsHonestCall s.accepts
      → ((calls : List Call) → Ends (next (record s { calls = calls })) R P)
      → Ends (take_connection protocol fail next s) R P
  unfolding take_connection
  take_connection-Ends protocol next s h n = elim (Bool-cases (eqb_ℤ protocol (pos 2))) [
    | inl active ↦ rw active (
        attempt-Ends R P s.accepts fail (record_calls (close_listener ∷ []) >> next) s h
          (λ e. fails e s) (n (close_listener ∷ s.calls)))
    | inr passive ↦ rw passive (n s.calls)
  ]
