-- ===== src/Server/Signals/Interleaved.antt =====
-- The rounds of bbftp_run_protocol_2 (bbftp-server/bbftpd/bbftpd_readcontrol.c) with runs of
-- bbftpd_sigchld (bbftpd_signals.c) between them.
use bbftp.Base.{◌≡◌, refl, ◌⊎◌, inl, inr, sym, ◌∙◌, ap, subst, false, none, ◌==◌}
use bbftp.Server.{Server, receiving, sending, returns}
use bbftp.Server.Io.{items_of}
use bbftp.Server.Loop.{round}
use bbftp.Server.Signals.{sigchld, totpid}
use bbftp.Server.Signals.Session.{Resumes, sigchld-Resumes}
use bbftp.Server.Frames.{Ends}
use bbftp.Server.Protocol.Handle.{in_session}
use bbftp.Server.Protocol.Ready.{Ready}
use bbftp.Server.Protocol.Rounds.{Session, stop, next, Rounds-Session}

-- A transfer that has a child.
pub record IsLive (s : Server) : Type 0 where
  pub transferring : (s.state ≡ receiving) ⊎ (s.state ≡ sending)
  pub child : (totpid s.nbpidchild (items_of s.mychildren) == 0) ≡ false

-- Messages, and children that end while there is a transfer, in any order.
pub data Events : Server → Server → Type 0 where
  quiet : {s : Server} → Events s s
  message : {s t u : Server} → round s ≡ returns none t → Events t u → Events s u
  child_ends : {s t u : Server} → IsLive s → sigchld s ≡ returns tt t → Events t u → Events s u

Resumes-Session : (s t : Server) → Session s → Resumes s.state t → Session t
unfolding in_session
Resumes-Session s t p (inl (e, c)) = (ap in_session e, subst (λ x. Ready x t) (sym e) c)
Resumes-Session s t p (inr (e, r)) = (ap in_session e ∙ p.0, subst (λ x. Ready x t) (sym e) r)

-- However the messages of the client and the ends of the children come one after the other, the server
-- stays in a session and ready for its state, as long as no SIGCHLD comes without a child to wait for.
pub Events-Session : (s t : Server) → Events s t → Session s → Session t
Events-Session s t quiet p = p
Events-Session s u (message {t} e more) p =
    Events-Session t u more (Rounds-Session s t (next e stop) p)
Events-Session s u (child_ends {t} live e more) p = Events-Session t u more (
    Resumes-Session s t p (
      subst (λ o. Ends o (λ _ v. Resumes s.state v)) e
        (sigchld-Resumes s.state s live.transferring refl p.1 live.child)))
