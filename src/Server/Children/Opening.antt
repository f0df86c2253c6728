-- ===== src/Server/Children/Opening.antt =====
-- How a child comes to its file and its connection (open_file_fragment of
-- bbftp-server/bbftpd/bbftpd_store.c and bbftpd_retr.c, and the accept behind it).
use bbftp.Base.{ℕ, ◌<◌, ◌∷◌, [], ℤ, pos, List, Bool-cases, inl, inr, ltb_ℤ}
use bbftp.Child.{
  Child, Call, M, close_file, close_listener, seek_to, ◌>>◌, modify, record_calls, persist,
}
use bbftp.Child.Ends.{Ends, persist-Ends}
use bbftp.Child.Sockets.{Honest}
use bbftp.Server.Children.{open_file_fragment, connection}

module _ (R : Unit {0} → Child → Type 0) (P : ℕ → Child → Type 0) (fail : ℕ → M (Unit {0}))
    (fails : (e : ℕ) (t : Child) → 0 < e → Ends (fail e t) R P) where
  pub open_file_fragment-Ends :
      (start : ℕ) (next : M (Unit {0})) (s : Child)
      → Honest s
      → Ends (next (seek_to start s)) R P
      → Ends (open_file_fragment start fail next s) R P
  unfolding open_file_fragment
  open_file_fragment-Ends start next s h n =
      persist-Ends R P s.opens fail
        (persist s.seeks (λ e. record_calls (close_file ∷ []) >> fail e)
          (modify (seek_to start) >> next))
        s h.opens (λ e. fails e s)
        (persist-Ends R P s.seeks (λ e. record_calls (close_file ∷ []) >> fail e)
          (modify (seek_to start) >> next) s h.seeks (λ e. fails e _) n)

  pub connection-Ends :
      (version : ℤ) (next : M (Unit {0})) (s : Child)
      → Honest s
      → ((calls : List Call) → Ends (next (record s { calls = calls })) R P)
      → Ends (connection version fail next s) R P
  unfolding connection
  connection-Ends version next s h n = elim (Bool-cases (ltb_ℤ version (pos 3))) [
    | inl active ↦ rw active (n s.calls)
    | inr passive ↦ rw passive (
        persist-Ends R P s.accepts fail (record_calls (close_listener ∷ []) >> next) s h.accepts
          (λ e. fails e s) (n (close_listener ∷ s.calls)))
  ]
