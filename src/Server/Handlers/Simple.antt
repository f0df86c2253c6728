-- ===== src/Server/Handlers/Simple.antt =====
-- The messages that are handled in S_LOGGED.
use bbftp.Base.{
  ℕ, ◌^◌, ◌%◌, List, [], ◌∷◌, ◌++◌, Option, none, some, inl, inr, not, ℤ, pos, minus_one, ltb_ℤ,
  eqb_ℤ, of_int, if◌then◌else◌, has, text, c_string, octal4, ltb, length, drop,
}
use bbftp.Wire.{Message, StoreV2, decode_store, of_le32}
use bbftp.Wire.Codes.{msg_ok, msg_bad, msg_bad_no_retry, tropt_rfio, tropt_dir}
use bbftp.Server.{
  M, Text, Os, chdir_call, report_call, waiting_filename_store, waiting_filename_retr, pure, ◌>>=◌,
  ◌>>◌, ask, modify, gets, fault, out_of_bounds, double_free, set_state,
}
use bbftp.Server.Io.{
  send, receive, reply, msg_reply, read_int, read_string, StringRead, bad_length, no_memory, string,
}
use bbftp.Server.Files.{storeunlink, one_of}
use bbftp.Server.Files.Create.{storemkdir}
use bbftp.Server.Errno

-- A buffer seen as struct mess_dir: the options and the name from its fifth byte on. In a shorter
-- buffer one of the two lies outside what was allocated.
unfoldable pub mess_dir : List ℕ → M (ℕ × Text)
mess_dir bytes =
    if ltb (length bytes) 4
    then fault out_of_bounds
    else pure (of_le32 bytes, c_string (drop 4 bytes))

-- The value is logged only, in a server without RFIO.
unfoldable pub do_msg_chcos : Message → M ℤ
do_msg_chcos msg = do
  val ← read_int msg.msglen
  elim val [
    | none ↦ pure minus_one
    | some _ ↦ do reply msg_ok (text "COS not set, RFIO is not supported"); pure (pos 0)
  ]

-- umask keeps the nine permission bits of its argument, so the second call answers with them.
unfoldable pub do_msg_chumask : Message → M ℤ
do_msg_chumask msg = do
  val ← read_int msg.msglen
  elim val [
    | none ↦ pure minus_one
    | some v ↦ do
      oldumask ← gets (λ s. s.umask)
      modify λ s. record s { umask = pos (of_int v % 2 ^ 9) }
      newumask ← gets (λ s. s.umask)
      reply msg_ok (
          text "umask changed from "
          ++ (octal4 (of_int oldumask) ++ (text " to " ++ octal4 (of_int newumask))))
      pure (pos 0)
  ]

unfoldable pub do_msg_close_conn : Message → M ℤ
do_msg_close_conn msg = pure minus_one

-- A report that the server sends: its bytes, and the status of the function that made it.
unfoldable pub report : Text → (Os → Text × ℤ) → M ℤ
report name answer = do
  os ← gets (λ s. s.os)
  modify λ s. record s { calls = report_call name ∷ s.calls }
  sent ← send (answer os).0
  pure (if sent then (answer os).1 else minus_one)

unfoldable pub do_msg_list_v2 : Message → M ℤ
do_msg_list_v2 msg = do
  r ← read_string msg.msglen
  elim r [
    | bad_length ↦ pure minus_one
    | no_memory ↦ pure minus_one
    | string bytes ↦ do
      (options, dirname) ← mess_dir bytes
      modify λ s. record s { transferoption = options }
      calls ← gets (λ s. s.calls)
      report dirname (λ os. os.list calls options dirname)
  ]

unfoldable pub read_msg_store_v2 : ℤ → M (Option StoreV2)
read_msg_store_v2 msglen =
    if not (eqb_ℤ msglen (pos 48))
    then (reply msg_bad (text "Invalid size for MSG_STORE_V2") >> pure none)
    else (do
      r ← receive msglen
      elim r [
        | none ↦ reply msg_bad (text "read error") >> pure none
        | some bytes ↦ pure (some (decode_store bytes))
      ])

unfoldable pub do_msg_retr_v2 : Message → M ℤ
do_msg_retr_v2 msg = do
  r ← read_msg_store_v2 msg.msglen
  elim r [
    | none ↦ pure minus_one
    | some m ↦ do
      modify λ s. record s {
        transferoption = m.transferoption;
        sendwinsize = m.sendwinsize;
        recvwinsize = m.recvwinsize;
        buffersizeperstream = m.buffersizeperstream;
        requestedstreamnumber = m.nbstream;
      }
      set_state waiting_filename_retr
      pure (pos 0)
  ]

unfoldable pub do_msg_store_v2 : Message → M ℤ
do_msg_store_v2 msg = do
  r ← read_msg_store_v2 msg.msglen
  elim r [
    | none ↦ pure minus_one
    | some m ↦ do
      modify λ s. record s {
        transferoption = m.transferoption;
        filemode = m.filemode;
        lastaccess = c_string m.lastaccess;
        lastmodif = c_string m.lastmodif;
        sendwinsize = m.sendwinsize;
        recvwinsize = m.recvwinsize;
        buffersizeperstream = m.buffersizeperstream;
        requestedstreamnumber = m.nbstream;
        filesize = m.filesize;
      }
      set_state waiting_filename_store
      pure (pos 0)
  ]

-- The errors of chdir that a retry does not mend.
abbrev pub chdir_code : ℕ → ℕ
chdir_code e =
    if one_of e
      (Errno.eacces ∷ Errno.eloop ∷ Errno.enametoolong ∷ Errno.enotdir ∷ Errno.enoent ∷ [])
    then msg_bad_no_retry
    else msg_bad

unfoldable pub do_msg_cd : Message → M ℤ
unfolding one_of
do_msg_cd msg = do
  r ← read_string msg.msglen
  elim r [
    | bad_length ↦ pure minus_one
    | no_memory ↦ pure minus_one
    | string bytes ↦ do
      (options, dir) ← mess_dir bytes
      modify λ s. record s { transferoption = options }
      os ← gets (λ s. s.os)
      if has options tropt_rfio
          then (do
            reply msg_bad_no_retry (text "Changing directory is not allowed under RFIO")
            pure minus_one)
          else (do
            moved ← ask (chdir_call dir) (λ os calls. os.chdir calls dir)
            elim moved [
              | some e ↦ do
                msg_reply (chdir_code e)
                    (text "Error changing directory " ++ (dir ++ (text " : " ++ os.strerror e)))
                pure minus_one
              | none ↦ do
                calls ← gets (λ s. s.calls)
                elim (os.getcwd calls) [
                  | inr e ↦ do
                    msg_reply msg_bad
                        (text "Unable to get the current directory: " ++ os.strerror e)
                    pure minus_one
                  | inl cwd ↦ msg_reply msg_ok cwd >> pure (pos 0)
                ]
            ])
  ]

-- A failure is answered twice, and the buffer is freed twice.
unfoldable pub make_directory : Text → ℕ → M ℤ
make_directory dir options = do
  made ← storemkdir dir (has options tropt_dir)
  if eqb_ℤ made.0 (pos 0)
      then (msg_reply msg_ok (text "Directory " ++ (dir ++ text " created")) >> pure (pos 0))
      else (do
        reply (if ltb_ℤ made.0 (pos 0) then msg_bad_no_retry else msg_bad) made.1
        msg_reply msg_ok (text "Directory " ++ (dir ++ text " created"))
        fault double_free)

unfoldable pub mkdir_named : StringRead → M ℤ
mkdir_named bad_length = pure minus_one
mkdir_named no_memory = pure minus_one
mkdir_named (string bytes) = do
  (options, dir) ← mess_dir bytes
  modify λ s. record s { transferoption = options }
  make_directory dir options

unfoldable pub do_msg_mkdir : Message → M ℤ
do_msg_mkdir msg = read_string msg.msglen >>= mkdir_named

unfoldable pub do_msg_rm : Message → M ℤ
do_msg_rm msg = do
  r ← read_string msg.msglen
  elim r [
    | bad_length ↦ pure minus_one
    | no_memory ↦ pure (pos 0)
    | string bytes ↦ do
      (options, file) ← mess_dir bytes
      status ← storeunlink (some file)
      if eqb_ℤ status (pos 0)
          then msg_reply msg_ok (file ++ text " has been deleted")
          else msg_reply msg_bad_no_retry (text "Unable to delete " ++ file)
      pure status
  ]

unfoldable pub do_msg_stat : Message → M ℤ
do_msg_stat msg = do
  r ← read_string msg.msglen
  elim r [
    | bad_length ↦ pure minus_one
    | no_memory ↦ pure (pos 0)
    | string bytes ↦ do calls ← gets (λ s. s.calls); report bytes (λ os. os.statmsg calls bytes)
  ]

unfoldable pub do_msg_statfs : Message → M ℤ
do_msg_statfs msg = do
  r ← read_string msg.msglen
  elim r [
    | bad_length ↦ pure minus_one
    | no_memory ↦ pure (pos 0)
    | string bytes ↦ do calls ← gets (λ s. s.calls); report bytes (λ os. os.statfs calls bytes)
  ]

-- The name of the state goes into the log only.
unfoldable pub do_invalid_msg_for_state : M ℤ
do_invalid_msg_for_state = do reply msg_bad_no_retry (text "Unknown message"); pure minus_one
