-- ===== src/Client/Requests.antt =====
-- The requests that the client makes on the control connection: bbftp_cd.c, bbftp_mkdir.c, bbftp_rm.c,
-- bbftp_stat.c, bbftp_statfs.c, bbftp_setremotecos.c, bbftp_setremoteumask.c, bbftp_list.c, bbftp_dir.c
-- and bbftp_lcd.c of bbftp-client/bbftpc. The files repeat one text, which is one definition here.
use bbftp.Base.{
  ℕ, ◌+◌, ◌||◌, not, List, [], ◌∷◌, ◌++◌, none, some, ℤ, pos, if◌then◌else◌, ◌==◌, c_string, length,
  text, of_int,
}
use bbftp.Wire.{Message, decode_message, encode_len, le32, htonl}
use bbftp.Wire.Codes.{
  msg_ok, msg_bad, msg_bad_no_retry, msg_chdir_v2, msg_mkdir_v2, msg_rm, msg_stat, msg_df,
  msg_chcos, msg_chumask,
}
use bbftp.Server.Errno
use bbftp.Server.Files.{one_of}
use bbftp.Client.{
  Text, M, sleep_call, chdir_call, stdout_call, pure, ◌>>=◌, ◌>>◌, ask, modify, gets, record_call,
  set_errcode,
}
use bbftp.Client.Io.{
  send_all, receive, waitcontrol, abandon, read_text, bb_ret_ok, bb_ret_conn_broken,
  bb_ret_ft_nr_conn_broken, bb_ret_ft_nr, bb_ret_error,
}

-- MSG_BAD and MSG_BAD_NO_RETRY: the server's text is shown and thrown away.
unfoldable pub refused : ℕ → ℤ → M ℤ
refused code msglen =
    read_text msglen
      (pure (if code == msg_bad then bb_ret_conn_broken else bb_ret_ft_nr_conn_broken))
      λ bytes.
        if code == msg_bad
        then (set_errcode 100 >> pure bb_ret_error)
        else (record_call (sleep_call 2) >> (set_errcode 100 >> pure bb_ret_ft_nr))

-- The answer once its header is read; `accepted` is the part after the code that means success.
unfoldable pub answered : ℕ → (ℤ → M ℤ) → Message → M ℤ
answered success accepted msg =
    if (msg.code == msg_bad) || (msg.code == msg_bad_no_retry)
    then refused msg.code msg.msglen
    else if msg.code == success
    then accepted msg.msglen
    else abandon 62 bb_ret_conn_broken

-- From waitcontrol on.
unfoldable pub await_answer : ℕ → (ℤ → M ℤ) → M ℤ
await_answer success accepted = do
  input ← waitcontrol
  if not input then abandon 66 bb_ret_conn_broken else (do
    head ← receive (pos 8)
    elim head [
      | none ↦ abandon 61 bb_ret_conn_broken
      | some bytes ↦ answered success accepted (decode_message bytes)
    ])

unfoldable pub request : List Text → ℕ → (ℤ → M ℤ) → M ℤ
request parts success accepted = do
  sent ← send_all parts
  if sent then await_answer success accepted else abandon 64 bb_ret_conn_broken

-- The writes of a request on a name: the header, the options as they are in memory, the name.
unfoldable pub name_parts : ℕ → ℕ → Text → List Text
name_parts code options name = encode_len code (pos (length name + 4)) ∷ le32 options ∷ name ∷ []

-- The writes of a request on a value.
unfoldable pub value_parts : ℕ → ℤ → List Text
value_parts code value = encode_len code (pos 4) ∷ le32 (htonl (of_int value)) ∷ []

-- A request on a name that is answered by MSG_OK with a text.
unfoldable pub name_request : ℕ → Text → (Text → M ℤ) → M ℤ
name_request code name k = do
  options ← gets (λ s. s.transferoption)
  request (name_parts code options name) msg_ok
      (λ msglen. read_text msglen (pure bb_ret_conn_broken) k)

-- The new directory is kept for the next connections.
unfoldable pub bbftp_cd : Text → M ℤ
bbftp_cd dirpath =
    name_request msg_chdir_v2 dirpath
      λ bytes. (modify λ s. record s { remotedir = some (c_string bytes) }) >> pure bb_ret_ok

unfoldable pub bbftp_mkdir : Text → M ℤ
bbftp_mkdir dirpath = name_request msg_mkdir_v2 dirpath λ bytes. pure bb_ret_ok

unfoldable pub bbftp_rm : Text → M ℤ
bbftp_rm filename = name_request msg_rm filename λ bytes. pure bb_ret_ok

-- What -m asks for.
unfoldable pub statistics : Text → M (Unit {0})
statistics line = do
  wanted ← gets (λ s. s.statoutput)
  if wanted then record_call (stdout_call line) else pure tt

unfoldable pub bbftp_stat : Text → M ℤ
bbftp_stat filename =
    name_request msg_stat filename
      λ bytes. statistics (text "stat " ++ (c_string bytes ++ text "\n")) >> pure bb_ret_ok

unfoldable pub bbftp_statfs : Text → M ℤ
bbftp_statfs filename =
    name_request msg_df filename
      λ bytes. statistics (text "df " ++ (c_string bytes ++ text "\n")) >> pure bb_ret_ok

unfoldable pub value_request : ℕ → ℤ → M ℤ
value_request code value =
    request (value_parts code value) msg_ok
      λ msglen. read_text msglen (pure bb_ret_conn_broken) (λ bytes. pure bb_ret_ok)

unfoldable pub bbftp_setremotecos : ℤ → M ℤ
bbftp_setremotecos cos = value_request msg_chcos cos

unfoldable pub bbftp_setremoteumask : ℤ → M ℤ
bbftp_setremoteumask mask = value_request msg_chumask mask

-- The errors of chdir that a retry does not mend.
abbrev pub lcd_ret : ℕ → ℤ
lcd_ret e =
    if one_of e
      (Errno.eacces ∷ Errno.eloop ∷ Errno.enametoolong ∷ Errno.enotdir ∷ Errno.enoent ∷ [])
    then bb_ret_ft_nr
    else bb_ret_error

unfoldable pub bbftp_lcd : Text → M ℤ
unfolding one_of
bbftp_lcd dirpath = do
  moved ← ask (chdir_call dirpath) (λ os calls. os.chdir calls dirpath)
  elim moved [ some e ↦ set_errcode 71 >> pure (lcd_ret e) | none ↦ pure bb_ret_ok ]
