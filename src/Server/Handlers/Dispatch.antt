-- ===== src/Server/Handlers/Dispatch.antt =====
-- The switch on the message code in each state.
use bbftp.Base.{true, false, ℤ, pos, minus_one, ◌==◌, if◌then◌else◌}
use bbftp.Wire.{Message}
use bbftp.Wire.Codes.{
  msg_chcos, msg_chdir_v2, msg_chumask, msg_close_conn, msg_list_v2, msg_mkdir_v2, msg_rm, msg_stat,
  msg_df, msg_retr_v2, msg_store_v2, msg_abort, msg_filename, msg_trans_simul, msg_trans_start_v2,
  msg_trans_simul_v3, msg_trans_start_v3, msg_create_zero,
}
use bbftp.Server.{
  M, State, logged, receiving, sending, waiting_filename_store, waiting_filename_retr,
  waiting_store_start, waiting_retr_start, waiting_create_zero, conn, protwait, pure, ◌>>=◌, ◌>>◌,
  gets, set_state,
}
use bbftp.Server.Io.{free_all_var}
use bbftp.Server.Files.{storeunlink}
use bbftp.Server.Handlers.Simple.{
  do_msg_chcos, do_msg_cd, do_msg_chumask, do_msg_close_conn, do_msg_list_v2, do_msg_mkdir,
  do_msg_rm, do_msg_stat, do_msg_statfs, do_msg_retr_v2, do_msg_store_v2, do_invalid_msg_for_state,
}
use bbftp.Server.Handlers.Names.{do_msg_filename_store, do_msg_filename_retr}
use bbftp.Server.Handlers.Start.{do_msg_trans_start}

unfoldable pub handle_logged : Message → M ℤ
handle_logged msg =
    if msg.code == msg_chcos
    then do_msg_chcos msg
    else if msg.code == msg_chdir_v2
    then do_msg_cd msg
    else if msg.code == msg_chumask
    then do_msg_chumask msg
    else if msg.code == msg_close_conn
    then do_msg_close_conn msg
    else if msg.code == msg_list_v2
    then do_msg_list_v2 msg
    else if msg.code == msg_mkdir_v2
    then do_msg_mkdir msg
    else if msg.code == msg_rm
    then do_msg_rm msg
    else if msg.code == msg_stat
    then do_msg_stat msg
    else if msg.code == msg_df
    then do_msg_statfs msg
    else if msg.code == msg_retr_v2
    then do_msg_retr_v2 msg
    else if msg.code == msg_store_v2
    then do_msg_store_v2 msg
    else do_invalid_msg_for_state

-- bbftpd_storeclosecastfile does nothing without RFIO; MSG_ABORT and an unknown message only log
-- different lines.
unfoldable pub handle_receiving : Message → M ℤ
handle_receiving msg = do name ← gets (λ s. s.realfilename); storeunlink name; pure minus_one

unfoldable pub handle_sending : Message → M ℤ
handle_sending msg = pure minus_one

unfoldable pub handle_waiting_filename_store : Message → M ℤ
handle_waiting_filename_store msg =
    if msg.code == msg_filename then do_msg_filename_store msg else do_invalid_msg_for_state

unfoldable pub handle_waiting_filename_retr : Message → M ℤ
handle_waiting_filename_retr msg =
    if msg.code == msg_filename then do_msg_filename_retr msg else do_invalid_msg_for_state

-- storeunlink (realfilename); free_all_var ();
unfoldable pub drop_store : M (Unit {0})
drop_store = do name ← gets (λ s. s.realfilename); storeunlink name; free_all_var

unfoldable pub handle_waiting_store_start : Message → M ℤ
handle_waiting_store_start msg =
    if msg.code == msg_trans_simul
    then do_msg_trans_start msg true true true
    else if msg.code == msg_trans_start_v2
    then do_msg_trans_start msg false true true
    else if msg.code == msg_trans_simul_v3
    then do_msg_trans_start msg true true false
    else if msg.code == msg_trans_start_v3
    then do_msg_trans_start msg false true false
    else if msg.code == msg_abort
    then (do drop_store; set_state logged; pure (pos 0))
    else (do drop_store; do_invalid_msg_for_state)

unfoldable pub handle_waiting_retr_start : Message → M ℤ
handle_waiting_retr_start msg =
    if msg.code == msg_trans_simul
    then do_msg_trans_start msg true false true
    else if msg.code == msg_trans_start_v2
    then do_msg_trans_start msg false false true
    else if msg.code == msg_trans_simul_v3
    then do_msg_trans_start msg true false false
    else if msg.code == msg_trans_start_v3
    then do_msg_trans_start msg false false false
    else if msg.code == msg_abort
    then (do free_all_var; set_state logged; pure (pos 0))
    else do_invalid_msg_for_state

unfoldable pub handle_create_zero : Message → M ℤ
handle_create_zero msg =
    if msg.code == msg_create_zero
    then (set_state logged >> pure (pos 0))
    else if msg.code == msg_abort
    then (set_state logged >> pure (pos 0))
    else do_invalid_msg_for_state

-- The switch on the state in bbftp_run_protocol_2. In the states that no case names the status is
-- that of the read before it, 1: there was input.
unfoldable pub handle : State → Message → M ℤ
handle logged msg = handle_logged msg
handle receiving msg = handle_receiving msg
handle sending msg = handle_sending msg
handle waiting_filename_store msg = handle_waiting_filename_store msg
handle waiting_filename_retr msg = handle_waiting_filename_retr msg
handle waiting_store_start msg = handle_waiting_store_start msg
handle waiting_retr_start msg = handle_waiting_retr_start msg
handle waiting_create_zero msg = handle_create_zero msg
handle conn msg = pure (pos 1)
handle protwait msg = pure (pos 1)
