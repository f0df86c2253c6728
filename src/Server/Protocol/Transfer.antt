-- ===== src/Server/Protocol/Transfer.antt =====
-- do_msg_trans_start of bbftp-server/bbftpd/bbftpd_readcontrol.c, from a state that is ready.
use bbftp.Base.{
  ◌≡◌, refl, subst, sym, ℤ, pos, Bool, true, false, Option, none, some, inl, inr, not, eqb_ℤ, ◌==◌,
  to_size, if◌then◌else◌, arith,
}
use bbftp.Wire.{Message}
use bbftp.Wire.Codes.{msg_bad}
use bbftp.Server.{
  Server, State, M, Text, logged, receiving, sending, waiting_store_start, waiting_retr_start, pure,
}
use bbftp.Server.Io.{reply}
use bbftp.Server.Files.{Result}
use bbftp.Server.Frames.{Ends, Ends-bind, Ends-mono, Ends-if, Same, reply-Same}
use bbftp.Server.Transfer.{stream_bytes}
use bbftp.Server.Handlers.Start.{abandon, read_ports, with_name, run_transfer, do_msg_trans_start}
use bbftp.Server.Protocol.{Step, run_store, drop_store, run_retr, drop_retr}
use bbftp.Server.Protocol.Ready.{
  is_some, allocated, Clean, logged-Clean, StoreReady, RetrReady, Ready, Advances,
}
use bbftp.Server.Protocol.Filename.{names_some, real_some, option_holds}
use bbftp.Server.Protocol.Start.{
  Kept, Runs, storetransferfile-Runs, retrtransferfile-Runs, abandon-Clean, read_ports-Kept,
}

with_name-Ends {ℓ} :
    (name : Option Text) (f : Text → M Result) (s : Server) (Q : Result → Server → Type ℓ)
    → is_some name ≡ true
    → ((n : Text) → Ends (f n s) Q)
    → Ends (with_name name f s) Q
with_name-Ends none f s Q p k = tt
with_name-Ends (some n) f s Q p k = k n

-- The state of a start, of either direction.
unfoldable pub Starting : Bool → Server → Type 0
Starting true s = StoreReady s
Starting false s = RetrReady s

unfoldable pub run_of : Bool → State
run_of true = receiving
run_of false = sending

unfoldable pub from_of : Bool → State
from_of true = waiting_store_start
from_of false = waiting_retr_start

run_transfer-Runs :
    (is_store simulate : Bool) (s : Server)
    → Starting is_store s
    → Ends (run_transfer is_store simulate s) (Runs (run_of is_store) s)
unfolding run_transfer Starting run_of
run_transfer-Runs true simulate s (a, (c, (r, o))) =
    with_name-Ends s.realfilename _ s (Runs receiving s) r
      (λ n. storetransferfile-Runs n simulate s a o)
run_transfer-Runs false simulate s (a, (c, o)) =
    with_name-Ends s.curfilename _ s (Runs sending s) c
      (λ n. retrtransferfile-Runs n simulate s a o)

Kept-Starting :
    (is_store : Bool) (s t : Server) → Starting is_store s → Kept s t → Starting is_store t
unfolding Starting
Kept-Starting true s t (a, (c, (r, o))) (n, b) =
    (b, (names_some s t n c, (real_some s t n r, option_holds s t n o)))
Kept-Starting false s t (a, (c, o)) (n, b) = (b, (names_some s t n c, option_holds s t n o))

drop_of : (is_store : Bool) → Step (from_of is_store) logged
unfolding from_of
drop_of true = drop_store
drop_of false = drop_retr

arrays : (is_store : Bool) (s : Server) → Starting is_store s → allocated s ≡ true
unfolding Starting
arrays true s g = g.0
arrays false s g = g.0

-- A transfer that runs is a step, with the variables that its state needs.
runs_of :
    (is_store : Bool) (status : ℤ) (s t : Server)
    → Starting is_store s
    → t.state ≡ run_of is_store
    → Kept s (record t { state = s.state })
    → Advances (from_of is_store) status t
unfolding Starting run_of from_of allocated
runs_of true status s t g e k = inr (
    subst (λ x. Step waiting_store_start x × Ready x t) (sym e)
      (run_store, Kept-Starting true s (record t { state = s.state }) g k))
runs_of false status s t g e k = inr (
    subst (λ x. Step waiting_retr_start x × Ready x t) (sym e)
      (run_retr, Kept-Starting false s (record t { state = s.state }) g k))

finish-Advances :
    (is_store : Bool) (r : Result) (s t : Server)
    → Starting is_store s
    → Runs (run_of is_store) s r t
    → eqb_ℤ (r.0) (pos 0) ≡ true
    → Advances (from_of is_store) (pos 0) t
finish-Advances is_store r s t g (inl q) e = absurd (ground (arith, q, e))
finish-Advances is_store r s t g (inr (p, k)) e = runs_of is_store (pos 0) s t g p k

pub trans_start-Advances :
    (m : Message) (simulate is_store is_active : Bool) (s : Server)
    → Starting is_store s
    → Ends (do_msg_trans_start m simulate is_store is_active s) (Advances (from_of is_store))
unfolding do_msg_trans_start
trans_start-Advances m simulate is_store is_active s g =
    let Q = Advances (from_of is_store) in
    Ends-if (not (to_size m.msglen == stream_bytes s)) _ _ s Q
      (λ _.
        Ends-bind (abandon is_store s) _ (λ _ t. Clean t) Q (abandon-Clean is_store s)
          (λ _ t c.
            Ends-bind (reply msg_bad _ t) _ (λ _ u. Same t u) Q (reply-Same msg_bad _ t)
              (λ _ u _. inl refl)))
      (λ _.
        Ends-bind ((if is_active then read_ports else pure true) s) _ (λ _ t. Starting is_store t) Q
          (Ends-if is_active _ _ s (λ _ t. Starting is_store t)
            (λ _.
              Ends-mono (read_ports s) (λ _ t. Kept s t) (λ _ t. Starting is_store t)
                (read_ports-Kept s (arrays is_store s g)) (λ _ t k. Kept-Starting is_store s t g k))
            (λ _. g))
          (λ ports t h.
            Ends-if (not ports) _ _ t Q
              (λ _.
                Ends-bind (abandon is_store t) _ (λ _ u. Clean u) Q (abandon-Clean is_store t)
                  (λ _ u _. inl refl))
              (λ _.
                Ends-bind (run_transfer is_store simulate t) _ (Runs (run_of is_store) t) Q
                  (run_transfer-Runs is_store simulate t h)
                  (λ r u p.
                    Ends-if (eqb_ℤ (r.0) (pos 0)) _ _ u Q
                      (λ e. finish-Advances is_store r t u h p e)
                      (λ _.
                        Ends-bind (abandon is_store u) _ (λ _ v. Clean v) Q
                          (abandon-Clean is_store u)
                          (λ _ v c. inr (drop_of is_store, logged-Clean v logged c)))))))
