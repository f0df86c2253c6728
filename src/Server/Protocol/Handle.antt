-- ===== src/Server/Protocol/Handle.antt =====
-- The theorem of the protocol: each message takes the server along a step of its states, with the
-- variables of a transfer as the new state needs them.
use bbftp.Base.{◌≡◌, refl, sym, ap, ◌∙◌, subst, arith, ℤ, Bool, true, false, inl, inr, ◌==◌}
use bbftp.Wire.{Message}
use bbftp.Wire.Codes.{
  msg_chcos, msg_chdir_v2, msg_chumask, msg_close_conn, msg_list_v2, msg_mkdir_v2, msg_rm, msg_stat,
  msg_df, msg_retr_v2, msg_store_v2, msg_abort, msg_filename, msg_trans_simul, msg_trans_start_v2,
  msg_trans_simul_v3, msg_trans_start_v3, msg_create_zero, msg_bad_no_retry,
}
use bbftp.Server.{
  Server, Outcome, State, logged, receiving, sending, waiting_filename_store, waiting_filename_retr,
  waiting_store_start, waiting_retr_start, waiting_create_zero, conn, protwait,
}
use bbftp.Server.Io.{reply, free_all_var}
use bbftp.Server.Files.{storeunlink}
use bbftp.Server.Frames.{reply-Same, Ends, Ends-bind, Ends-mono, Ends-if, Same}
use bbftp.Server.Frames.Files.{storeunlink-Same}
use bbftp.Server.Handlers.Simple.{do_invalid_msg_for_state}
use bbftp.Server.Handlers.Dispatch.{
  handle, handle_logged, handle_receiving, handle_sending, handle_waiting_filename_store,
  handle_waiting_filename_retr, drop_store, handle_waiting_store_start, handle_waiting_retr_start,
  handle_create_zero,
}
use bbftp.Server.Protocol
use bbftp.Server.Protocol.Ready.{Clean, logged-Clean, StoreReady, RetrReady, Ready, Advances}
use bbftp.Server.Protocol.Logged.{
  Holds, Leads, chcos-Leads, chumask-Leads, close_conn-Leads, list_v2-Leads, stat-Leads,
  statfs-Leads, rm-Leads, cd-Leads, retr_v2-Leads, store_v2-Leads, mkdir-Leads,
}
use bbftp.Server.Protocol.Filename.{filename_store-Advances}
use bbftp.Server.Protocol.Retrieve.{filename_retr-Advances}
use bbftp.Server.Protocol.Transfer.{trans_start-Advances, Starting, from_of}

Holds-Clean : (s t : Server) → Clean s → Holds s t → Clean t
Holds-Clean s t c h =
    h
    ∙ ap
        (λ (u : Server). record t {
          curfilename = u.curfilename;
          realfilename = u.realfilename;
          myports = u.myports;
          mysockets = u.mysockets;
          mychildren = u.mychildren;
          readbuffer = u.readbuffer;
          compbuffer = u.compbuffer;
          nbpidchild = u.nbpidchild;
        })
        c

-- What keeps the variables free is a step between states that need none.
Leads-Advances :
    (x y : State) (s : Server) (status : ℤ) (t : Server)
    → Clean s
    → Protocol.Step x y
    → ((u : Server) → Clean u → Ready y u)
    → Leads y s status t
    → Advances x status t
Leads-Advances x y s status t c step ready (inl e) = inl e
Leads-Advances x y s status t c step ready (inr (e, h)) =
    inr (subst (λ z. Protocol.Step x z × Ready z t) (sym e) (step, ready t (Holds-Clean s t c h)))

-- The same for a handler.
Clean-step :
    (x y : State) (s : Server) (o : Outcome ℤ)
    → Clean s
    → Protocol.Step x y
    → ((u : Server) → Clean u → Ready y u)
    → Ends o (Leads y s)
    → Ends o (Advances x)
Clean-step x y s o c step ready p =
    Ends-mono o (Leads y s) (Advances x) p
      (λ status t q. Leads-Advances x y s status t c step ready q)

command_step :
    (s : Server) (o : Outcome ℤ) → Clean s → Ends o (Leads logged s) → Ends o (Advances logged)
command_step s o c p = Clean-step logged logged s o c Protocol.command (λ u d. d) p

-- A state in which a message can only end the connection.
invalid-Advances : (x : State) (s : Server) → Ends (do_invalid_msg_for_state s) (Advances x)
unfolding do_invalid_msg_for_state
invalid-Advances x s =
    Ends-bind (reply msg_bad_no_retry _ s) _ (λ _ t. Same s t) (Advances x)
      (reply-Same msg_bad_no_retry _ s) (λ _ t _. inl refl)

logged-Advances :
    (m : Message) (s : Server)
    → Clean s
    → s.state ≡ logged
    → Ends (handle_logged m s) (Advances logged)
unfolding handle_logged
logged-Advances m s c e =
    let Q = Advances logged in
    let keep : (o : Outcome ℤ) → Ends o (Leads s.state s) → Ends o Q =
      λ o p. command_step s o c (subst (λ x. Ends o (Leads x s)) e p) in
    Ends-if (m.code == msg_chcos) _ _ s Q (λ _. keep _ (chcos-Leads m s))
      (λ _.
        Ends-if (m.code == msg_chdir_v2) _ _ s Q (λ _. keep _ (cd-Leads m s))
          (λ _.
            Ends-if (m.code == msg_chumask) _ _ s Q (λ _. keep _ (chumask-Leads m s))
              (λ _.
                Ends-if (m.code == msg_close_conn) _ _ s Q (λ _. keep _ (close_conn-Leads m s))
                  (λ _.
                    Ends-if (m.code == msg_list_v2) _ _ s Q (λ _. keep _ (list_v2-Leads m s))
                      (λ _.
                        Ends-if (m.code == msg_mkdir_v2) _ _ s Q (λ _. keep _ (mkdir-Leads m s))
                          (λ _.
                            Ends-if (m.code == msg_rm) _ _ s Q (λ _. keep _ (rm-Leads m s))
                              (λ _.
                                Ends-if (m.code == msg_stat) _ _ s Q (λ _. keep _ (stat-Leads m s))
                                  (λ _.
                                    Ends-if (m.code == msg_df) _ _ s Q
                                      (λ _. keep _ (statfs-Leads m s))
                                      (λ _.
                                        Ends-if (m.code == msg_retr_v2) _ _ s Q
                                          (λ _.
                                            Clean-step logged waiting_filename_retr s _ c
                                              Protocol.begin_retr (λ u d. d) (retr_v2-Leads m s))
                                          (λ _.
                                            Ends-if (m.code == msg_store_v2) _ _ s Q
                                              (λ _.
                                                Clean-step logged waiting_filename_store s _ c
                                                  Protocol.begin_store (λ u d. d)
                                                  (store_v2-Leads m s))
                                              (λ _. invalid-Advances logged s)))))))))))

receiving-Advances : (m : Message) (s : Server) → Ends (handle_receiving m s) (Advances receiving)
unfolding handle_receiving
receiving-Advances m s =
    Ends-bind (storeunlink s.realfilename s) _ (λ _ t. Same s t) (Advances receiving)
      (storeunlink-Same s.realfilename s) (λ _ t _. inl refl)

drop_store-Clean : (s : Server) → Ends (drop_store s) (λ _ t. Clean t)
unfolding drop_store free_all_var
drop_store-Clean s =
    Ends-bind (storeunlink s.realfilename s) _ (λ _ t. Same s t) (λ _ t. Clean t)
      (storeunlink-Same s.realfilename s) (λ _ t _. refl)

store_start-Advances :
    (m : Message) (s : Server)
    → StoreReady s
    → Ends (handle_waiting_store_start m s) (Advances waiting_store_start)
unfolding handle_waiting_store_start Starting from_of
store_start-Advances m s g =
    let Q = Advances waiting_store_start in
    Ends-if (m.code == msg_trans_simul) _ _ s Q (λ _. trans_start-Advances m true true true s g)
      (λ _.
        Ends-if (m.code == msg_trans_start_v2) _ _ s Q
          (λ _. trans_start-Advances m false true true s g)
          (λ _.
            Ends-if (m.code == msg_trans_simul_v3) _ _ s Q
              (λ _. trans_start-Advances m true true false s g)
              (λ _.
                Ends-if (m.code == msg_trans_start_v3) _ _ s Q
                  (λ _. trans_start-Advances m false true false s g)
                  (λ _.
                    Ends-if (m.code == msg_abort) _ _ s Q
                      (λ _.
                        Ends-bind (drop_store s) _ (λ _ t. Clean t) Q (drop_store-Clean s)
                          (λ _ t c. inr (Protocol.drop_store, logged-Clean t logged c)))
                      (λ _.
                        Ends-bind (drop_store s) _ (λ _ t. Clean t) Q (drop_store-Clean s)
                          (λ _ t c. invalid-Advances waiting_store_start t))))))

retr_start-Advances :
    (m : Message) (s : Server)
    → RetrReady s
    → Ends (handle_waiting_retr_start m s) (Advances waiting_retr_start)
unfolding handle_waiting_retr_start Starting from_of free_all_var
retr_start-Advances m s g =
    let Q = Advances waiting_retr_start in
    Ends-if (m.code == msg_trans_simul) _ _ s Q (λ _. trans_start-Advances m true false true s g)
      (λ _.
        Ends-if (m.code == msg_trans_start_v2) _ _ s Q
          (λ _. trans_start-Advances m false false true s g)
          (λ _.
            Ends-if (m.code == msg_trans_simul_v3) _ _ s Q
              (λ _. trans_start-Advances m true false false s g)
              (λ _.
                Ends-if (m.code == msg_trans_start_v3) _ _ s Q
                  (λ _. trans_start-Advances m false false false s g)
                  (λ _.
                    Ends-if (m.code == msg_abort) _ _ s Q (λ _. inr (Protocol.drop_retr, refl))
                      (λ _. invalid-Advances waiting_retr_start s)))))

create_zero-Advances :
    (m : Message) (s : Server)
    → Clean s
    → Ends (handle_create_zero m s) (Advances waiting_create_zero)
unfolding handle_create_zero
create_zero-Advances m s c =
    let Q = Advances waiting_create_zero in
    Ends-if (m.code == msg_create_zero) _ _ s Q
      (λ _. inr (Protocol.created, logged-Clean s logged c))
      (λ _.
        Ends-if (m.code == msg_abort) _ _ s Q (λ _. inr (Protocol.created, logged-Clean s logged c))
          (λ _. invalid-Advances waiting_create_zero s))

-- The states in which bbftp_run_protocol_2 reads messages of a client that is logged in.
unfoldable pub in_session : State → Bool
in_session conn = false
in_session protwait = false
in_session _ = true

-- A message that finds the server ready for its state either ends the connection, or takes the server
-- along a step of the protocol to a state that it is ready for again: outside of a transfer no
-- variable of one holds memory, and where a transfer may start or runs all its buffers and names are
-- there. This holds for each message, each answer of the system and each state of a session, where
-- the handler returns.
pub handle-Advances :
    (x : State) (m : Message) (s : Server)
    → s.state ≡ x
    → in_session x ≡ true
    → Ready x s
    → Ends (handle x m s) (Advances x)
unfolding handle handle_sending handle_waiting_filename_store handle_waiting_filename_retr
    in_session
handle-Advances logged m s e i c = logged-Advances m s c e
handle-Advances receiving m s e i c = receiving-Advances m s
handle-Advances sending m s e i c = inl refl
handle-Advances waiting_filename_store m s e i c =
    Ends-if (m.code == msg_filename) _ _ s (Advances waiting_filename_store)
      (λ _. filename_store-Advances m s) (λ _. invalid-Advances waiting_filename_store s)
handle-Advances waiting_filename_retr m s e i c =
    Ends-if (m.code == msg_filename) _ _ s (Advances waiting_filename_retr)
      (λ _. filename_retr-Advances m s) (λ _. invalid-Advances waiting_filename_retr s)
handle-Advances waiting_store_start m s e i c = store_start-Advances m s c
handle-Advances waiting_retr_start m s e i c = retr_start-Advances m s c
handle-Advances waiting_create_zero m s e i c = create_zero-Advances m s c
handle-Advances conn m s e i c = absurd (ground (arith, i))
handle-Advances protwait m s e i c = absurd (ground (arith, i))
