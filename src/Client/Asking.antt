-- ===== src/Client/Asking.antt =====
-- The request of a transfer in bbftp_put.c and bbftp_get.c of bbftp-client/bbftpc, from the first message up to the
-- label waitcontrol1 and the answer of the server. What the two do next, with the memory, the sockets
-- and the children, is an argument. The two times are the eight digits that sprintf has written.
pub mod Contract
use bbftp.Base.{
  ℕ, ◌+◌, ◌-◌, ◌==◌, Bool, true, false, ◌&&◌, ◌||◌, not, List, [], ◌∷◌, ◌++◌, none, some, ℤ, pos,
  pos_part, if◌then◌else◌, length, take, c_string, has, ltb, eqb_ℤ, of_int, to_int, to_size, ◌*◌,
  ◌^◌, ◌%◌,
}
use bbftp.Wire.{Message, StoreV2, decode_message, encode_len, encode_store, decode_store}
use bbftp.Wire.Codes.{
  msg_ok, msg_bad, msg_bad_no_retry, msg_store_v2, msg_retr_v2, msg_filename, msg_trans_ok_v2,
  msg_trans_ok_v3, tropt_gzip,
}
use bbftp.Server.Io.{decode_ints}
use bbftp.Client.{
  Client, Text, M, sleep_call, pure, ◌>>=◌, ◌>>◌, modify, gets, fault, out_of_bounds, record_call,
  set_errcode,
}
use bbftp.Client.Io.{
  send_all, receive, waitcontrol, malloc, close_control, bb_ret_ok, bb_ret_conn_broken,
  bb_ret_ft_nr_conn_broken, bb_ret_ft_nr, bb_ret_error,
}
use bbftp.Client.Listing.{free_all_var}
use bbftp.Client.Ending.{read_body, discard_rest}

-- The structures that bbftp_put and bbftp_get send.
unfoldable pub put_store : Client → StoreV2
put_store s = record {
  filesize = s.filesize;
  transferoption = s.transferoption;
  filemode = s.filemode;
  lastaccess = s.lastaccess;
  lastmodif = s.lastmodif;
  sendwinsize = s.sendwinsize;
  recvwinsize = s.recvwinsize;
  buffersizeperstream = s.buffersizeperstream;
  nbstream = s.requestedstreamnumber;
}

unfoldable pub get_store : Client → StoreV2
get_store s = record {
  filesize = pos 0;
  transferoption = s.transferoption;
  filemode = pos 0;
  lastaccess = [];
  lastmodif = [];
  sendwinsize = s.sendwinsize;
  recvwinsize = s.recvwinsize;
  buffersizeperstream = s.buffersizeperstream;
  nbstream = s.nbport;
}

-- The four writes: a header and the structure, a header and the name.
unfoldable pub ask_parts : ℕ → StoreV2 → Text → List Text
ask_parts code m name =
    encode_len code (pos 48)
    ∷ encode_store m
    ∷ encode_len msg_filename (pos (length name))
    ∷ name
    ∷ []

-- The way out that closes the connection.
unfoldable pub drop_connection : ℕ → ℤ → M ℤ
drop_connection err r = do set_errcode err; free_all_var; close_control; pure r

-- The writes, the wait at waitcontrol1, and the header of the answer.
unfoldable pub ask_server : List Text → (Message → M ℤ) → M ℤ
ask_server parts answered = do
  sent ← send_all parts
  if not sent then drop_connection 64 bb_ret_conn_broken else (do
    input ← waitcontrol
    if not input then drop_connection 66 bb_ret_conn_broken else (do
      head ← receive (pos 8)
      elim head [
        | none ↦ drop_connection 61 bb_ret_conn_broken
        | some bytes ↦ answered (decode_message bytes)
      ]))

-- MSG_BAD and MSG_BAD_NO_RETRY; `free_names` is what MSG_BAD frees.
unfoldable pub ask_refused : M (Unit {0}) → ℕ → ℤ → M ℤ
ask_refused free_names code msglen =
    read_body msglen (drop_connection 35 bb_ret_conn_broken)
      (drop_connection 67
        (if code == msg_bad then bb_ret_conn_broken else bb_ret_ft_nr_conn_broken))
      λ bytes.
        set_errcode 100
        >> (if code == msg_bad
            then free_names >> pure bb_ret_error
            else record_call (sleep_call 2) >> (free_all_var >> pure bb_ret_ft_nr))

-- The ports of MSG_TRANS_OK_V3, BBftp_Requestedstreamnumber of them.
unfoldable pub read_myports : M ℤ → M ℤ
read_myports next = do
  n ← gets (λ s. s.requestedstreamnumber)
  fits ← malloc (to_size n * 4 % 2 ^ 64)
  if not fits then drop_connection 35 bb_ret_conn_broken else (do
    r ← receive (to_int (of_int n * 4 % 2 ^ 32))
    elim r [
      | none ↦ drop_connection 68 bb_ret_conn_broken
      | some bytes ↦
          (modify λ s. record s { myports = some (decode_ints (pos_part n) bytes) }) >> next
    ])

-- A server that cannot uncompress has taken the option away.
unfoldable pub drop_gzip : StoreV2 → M (Unit {0})
drop_gzip m = modify λ s. record s {
  transferoption =
      if has s.transferoption tropt_gzip && not (has m.transferoption tropt_gzip)
      then s.transferoption - tropt_gzip
      else s.transferoption;
}

-- The structure of MSG_TRANS_OK; a shorter text is read beyond its end.
unfoldable pub read_store : ℤ → (StoreV2 → M ℤ) → M ℤ
read_store msglen next =
    read_body msglen (drop_connection 35 bb_ret_conn_broken) (drop_connection 67 bb_ret_conn_broken)
      λ bytes. if ltb (length bytes) 48 then fault out_of_bounds else next (decode_store bytes)

unfoldable pub put_answered : M ℤ → Message → M ℤ
put_answered go_on msg =
    if (msg.code == msg_bad) || (msg.code == msg_bad_no_retry)
    then ask_refused (pure tt) msg.code msg.msglen
    else if (msg.code == msg_trans_ok_v2) || (msg.code == msg_trans_ok_v3)
    then read_store msg.msglen (λ m.
      (modify λ s. record s { requestedstreamnumber = m.nbstream })
      >> (if msg.code == msg_trans_ok_v3
          then read_myports (drop_gzip m >> go_on)
          else drop_gzip m >> go_on))
    else if msg.code == msg_ok
    then discard_rest msg.msglen >> (free_all_var >> pure bb_ret_ok)
    else drop_connection 62 bb_ret_conn_broken

-- What bbftp_get keeps of the structure.
unfoldable pub keep_store : StoreV2 → M (Unit {0})
keep_store m = modify λ s. record s {
  filemode = m.filemode;
  lastaccess = c_string (take 8 m.lastaccess);
  lastmodif = c_string (take 8 m.lastmodif);
  requestedstreamnumber = m.nbstream;
  filesize = m.filesize;
}

unfoldable pub get_answered : M ℤ → Message → M ℤ
get_answered go_on msg =
    if (msg.code == msg_bad) || (msg.code == msg_bad_no_retry)
    then ask_refused free_all_var msg.code msg.msglen
    else if (msg.code == msg_trans_ok_v2) || (msg.code == msg_trans_ok_v3)
    then read_store msg.msglen (λ m.
      keep_store m
      >> (if not (eqb_ℤ m.filesize (pos 0)) && (msg.code == msg_trans_ok_v3)
          then read_myports (drop_gzip m >> go_on)
          else drop_gzip m >> go_on))
    else drop_connection 62 bb_ret_conn_broken

-- The requests of bbftp_put and bbftp_get, and the rest of the two.
unfoldable pub ask_put : Text → M ℤ → M ℤ
ask_put name go_on = do
  m ← gets put_store
  ask_server (ask_parts msg_store_v2 m name) (put_answered go_on)

unfoldable pub ask_get : Text → M ℤ → M ℤ
ask_get name go_on = do
  m ← gets get_store
  ask_server (ask_parts msg_retr_v2 m name) (get_answered go_on)
