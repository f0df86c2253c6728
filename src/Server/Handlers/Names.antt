-- ===== src/Server/Handlers/Names.antt =====
-- MSG_FILENAME, for a store and for a retrieval.
use bbftp.Base.{
  ℕ, ◌+◌, ◌-◌, ◌^◌, true, false, [], ◌++◌, Option, none, some, not, ℤ, pos, minus_one, pos_part,
  ltb_ℤ, eqb_ℤ, if◌then◌else◌, has, text, snprintf, c_string, decimal, take,
}
use bbftp.Wire.{Message}
use bbftp.Wire.Codes.{msg_ok, msg_bad, msg_bad_no_retry, tropt_rfio, tropt_tmp}
use bbftp.Server.{
  Server, M, Text, Os, logged, waiting_store_start, waiting_retr_start, waiting_create_zero, pure,
  ◌>>=◌, ◌>>◌, modify, gets, fault, signed_overflow, set_state,
}
use bbftp.Server.Io.{
  reply, read_string, bad_length, no_memory, string, StringRead, malloc, free_all_var,
}
use bbftp.Server.Files.{Result, storeunlink, storecheckoptions, store_process_transfer}
use bbftp.Server.Files.Create.{storecreatefile}
use bbftp.Server.Files.Retr.{retrcheckfile}
use bbftp.Server.Transfer.{allocate_memory_for_transfer, init_and_send_msg_store_v2}

-- The host name in the buffer of eleven bytes.
unfoldable pub short_hostname : Option Text → Text
short_hostname none = text "-"
short_hostname (some name) = take 10 name

-- What snprintf leaves of the temporary name, in a buffer of msglen + 30 bytes.
unfoldable pub temporary_name : ℕ → Text → Os → Text
unfolding short_hostname
temporary_name msglen name os =
    snprintf (msglen + 30)
      (name ++ (text ".bbftp.tmp." ++ (short_hostname os.hostname ++ (text "." ++ decimal os.pid))))

-- The name under which the bytes are stored.
unfoldable pub real_name : ℕ → Text → Server → Text
real_name msglen name s =
    if has s.transferoption tropt_tmp then temporary_name msglen name s.os else name

abbrev pub failure_code : ℤ → ℕ
failure_code status = if ltb_ℤ status (pos 0) then msg_bad_no_retry else msg_bad

-- The end of a request that is refused: the connection goes on.
unfoldable pub refuse : ℕ → Text → M ℤ
refuse code msg = do reply code msg; free_all_var; set_state logged; pure (pos 0)

unfoldable pub give_up_connection : M ℤ
give_up_connection = do free_all_var; pure minus_one

-- The answer with the parameters, once the buffers are there.
unfoldable pub answer_store : M ℤ
answer_store = do
  version ← gets (λ s. s.protocolversion)
  told ← init_and_send_msg_store_v2 (not (ltb_ℤ version (pos 3)))
  if told
      then (set_state waiting_store_start >> pure (pos 0))
      else (do name ← gets (λ s. s.realfilename); storeunlink name; give_up_connection)

-- The last part: the buffers, and the answer. In the failure of malloc the variables are freed
-- before realfilename is unlinked.
unfoldable pub prepare_store : M ℤ
prepare_store = do
  allocated ← allocate_memory_for_transfer
  if not allocated
      then (do
        free_all_var
        name ← gets (λ s. s.realfilename)
        storeunlink name
        reply msg_bad (text "Unable to allocate memory for the transfer")
        set_state logged
        pure (pos 0))
      else answer_store

-- A file of no bytes is complete as soon as it is there.
unfoldable pub finish_empty : Text → Text → M ℤ
finish_empty real name = do
  processed ← store_process_transfer real name true
  if eqb_ℤ processed (pos 0) then reply msg_ok [] else pure tt
  free_all_var
  set_state logged
  pure (pos 0)

-- What follows the creation of the file.
unfoldable pub after_create : Text → Text → Result → M ℤ
after_create real name made =
    if not (eqb_ℤ made.0 (pos 0)) then refuse (failure_code made.0) made.1 else (do
      size ← gets (λ s. s.filesize)
      if eqb_ℤ size (pos 0) then finish_empty real name else prepare_store)

-- Once the options are checked: the file is created under its real name.
unfoldable pub create_store : ℕ → Text → M ℤ
create_store msglen name = do
  real ← gets (real_name msglen name)
  modify λ s. record s { realfilename = some real }
  storecreatefile real >>= after_create real name

-- MSG_FILENAME with its name read.
unfoldable pub store_named : ℤ → StringRead → M ℤ
store_named msglen bad_length = give_up_connection
store_named msglen no_memory = give_up_connection
store_named msglen (string bytes) = do
  modify λ s. record s { curfilename = some (c_string bytes) }
  if not (ltb_ℤ msglen (pos (2 ^ 31 - 30))) then fault signed_overflow else (do
    fits ← malloc (pos_part msglen + 30)
    options ← gets (λ s. s.transferoption)
    if not fits
        then give_up_connection
        else if has options tropt_rfio
        then refuse msg_bad_no_retry (text "Fail to store : RFIO not supported")
        else (storecheckoptions >> create_store (pos_part msglen) (c_string bytes)))

unfoldable pub do_msg_filename_store : Message → M ℤ
do_msg_filename_store msg =
    if eqb_ℤ msg.msglen (pos 0)
    then pure minus_one
    else read_string msg.msglen >>= store_named msg.msglen

unfoldable pub send_retr : M ℤ
send_retr = do
  version ← gets (λ s. s.protocolversion)
  told ← init_and_send_msg_store_v2 (not (ltb_ℤ version (pos 3)))
  if told
      then (set_state waiting_retr_start >> pure (pos 0))
      else (do name ← gets (λ s. s.realfilename); storeunlink name; give_up_connection)

-- In both failures realfilename is NULL: a retrieval has none.
unfoldable pub prepare_retr : M ℤ
prepare_retr = do
  allocated ← allocate_memory_for_transfer
  if not allocated
      then (do
        name ← gets (λ s. s.realfilename)
        storeunlink name
        free_all_var
        reply msg_bad (text "Unable to allocated memory for the transfer")
        set_state logged
        pure (pos 0))
      else send_retr

-- A file of no bytes needs no transfer: the client creates it.
unfoldable pub send_empty : M ℤ
send_empty = do
  told ← init_and_send_msg_store_v2 false
  if told
      then (do free_all_var; set_state waiting_create_zero; pure (pos 0))
      else (do name ← gets (λ s. s.realfilename); storeunlink name; give_up_connection)

-- What follows the check of the file.
unfoldable pub after_check : Result → M ℤ
after_check found =
    if not (eqb_ℤ found.0 (pos 0))
    then refuse (failure_code found.0) found.1
    else (do size ← gets (λ s. s.filesize); if eqb_ℤ size (pos 0) then send_empty else prepare_retr)

-- MSG_FILENAME with its name read.
unfoldable pub retr_named : StringRead → M ℤ
retr_named bad_length = give_up_connection
retr_named no_memory = give_up_connection
retr_named (string bytes) = do
  modify λ s. record s { curfilename = some (c_string bytes) }
  retrcheckfile (c_string bytes) >>= after_check

unfoldable pub do_msg_filename_retr : Message → M ℤ
do_msg_filename_retr msg =
    if eqb_ℤ msg.msglen (pos 0) then pure minus_one else read_string msg.msglen >>= retr_named
