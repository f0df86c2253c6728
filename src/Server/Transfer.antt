-- ===== src/Server/Transfer.antt =====
-- What the server does between the name of a file and its bytes: the buffers, the answer with the
-- parameters, and the children that carry a fragment each (bbftp-server/bbftpd/bbftpd_readcontrol.c,
-- and the parent's part of bbftpd_storetransferfile and bbftpd_retrtransferfile).
pub mod Fragments
pub mod Forks
use bbftp.Base.{
  ℕ, zero, suc, ◌+◌, ◌-◌, ◌*◌, ◌%◌, ◌^◌, Bool, true, false, List, [], ◌∷◌, ◌++◌, Option, none, some,
  ◌⊎◌, map, inl, inr, ℤ, pos, negsuc, minus_one, pos_part, ltb_ℤ, eqb_ℤ, to_int, of_int, to_size,
  mul_ℕ, sub_ℤ, ◌==◌, not, ◌&&◌, if◌then◌else◌, has, text, snprintf, length,
}
use bbftp.Wire.{StoreV2, encode_store, encode_len, htonl, le32}
use bbftp.Wire.Codes.{msg_bad, msg_trans_ok_v2, msg_trans_ok_v3, tropt_rfio, tropt_gzip}
use bbftp.Server.{
  Server, M, Text, Os, Block, receiving, sending, unlink_call, kill_call, fork_call,
  close_socket_call, connect_call, listen_call, pure, ◌>>=◌, ◌>>◌, ask, modify, gets, fault,
  null_pointer, division_by_zero, out_of_bounds, signed_overflow,
}
use bbftp.Server.Io.{
  send, receive, malloc, reply, clean_child, encode_ints, items_of, kill_all, sighup,
}
use bbftp.Server.Files.{storeunlink, unlink_quietly, Result, result}
use bbftp.Server.Files.Retr.{kilobytes, div_ℤ}

abbrev pub when : Bool → M (Unit {0}) → M (Unit {0})
when true m = m
when false m = pure tt

-- The sizes that allocate_memory_for_transfer asks for, as size_t. The product with 1024 is an int.
abbrev pub stream_bytes : Server → ℕ
stream_bytes s = to_size s.requestedstreamnumber * 4 % 2 ^ 64

abbrev pub block : ℕ → Option Block
block size = some (record { size = size; items = [] })

-- malloc of a pointer variable: a failure leaves it NULL and ends the caller with -1.
abbrev pub allocate : ℕ → (Server → Server) → M Bool → M Bool
allocate size assign next = do
  fits ← malloc size
  if fits then (modify assign >> next) else pure false

-- The buffer for compressed bytes, where the option asks for it.
unfoldable pub allocate_packed : Bool → ℕ → M Bool
allocate_packed false kb = pure true
allocate_packed true kb = allocate kb (λ s. record s { compbuffer = some kb }) (pure true)

-- The array of sockets, in protocol 3.
unfoldable pub allocate_sockets : Bool → ℕ → M Bool
allocate_sockets false size = pure true
allocate_sockets true size = allocate size (λ s. record s { mysockets = block size }) (pure true)

-- What follows the buffer of a stream.
unfoldable pub allocate_rest : ℕ → ℕ → M Bool
allocate_rest size kb = do
  options ← gets (λ s. s.transferoption)
  packed ← allocate_packed (has options tropt_gzip) kb
  version ← gets (λ s. s.protocolversion)
  if packed then allocate_sockets (eqb_ℤ version (pos 3)) size else pure false

-- The buffers behind the first two arrays; their size is an int.
unfoldable pub allocate_buffers : ℕ → Option ℤ → M Bool
allocate_buffers size none = fault signed_overflow
allocate_buffers size (some kb) =
    allocate (to_size kb) (λ s. record s { readbuffer = some (to_size kb) })
      (allocate_rest size (to_size kb))

unfoldable pub allocate_memory_for_transfer : M Bool
allocate_memory_for_transfer = do
  size ← gets stream_bytes
  buffer ← gets (λ s. kilobytes s.buffersizeperstream)
  allocate size (λ s. record s { myports = block size })
      (allocate size (λ s. record s { mychildren = block size }) (allocate_buffers size buffer))

-- The sockets and their ports go into the arrays.
unfoldable pub keep_sockets : Option (List (ℤ × ℤ)) → Option Block → Option Block → M Bool
keep_sockets none ports socks = pure false
keep_sockets (some pairs) none socks = fault null_pointer
keep_sockets (some pairs) (some p) none = fault null_pointer
keep_sockets (some pairs) (some p) (some q) = do
  modify λ s. record s {
    myports = some (record p { items = map (λ x. x.1) pairs });
    mysockets = some (record q { items = map (λ x. x.0) pairs });
  }
  pure true

-- bbftpd_getdatasock
unfoldable pub getdatasock : M Bool
getdatasock = do
  n ← gets (λ s. s.requestedstreamnumber)
  made ← ask (listen_call n) (λ os calls. os.datasocks calls n)
  ports ← gets (λ s. s.myports)
  socks ← gets (λ s. s.mysockets)
  keep_sockets made ports socks

-- The structure that the answer to the client carries.
unfoldable pub store_params : Server → StoreV2
store_params s = record {
  filesize = s.filesize;
  transferoption = s.transferoption;
  filemode = s.filemode;
  lastaccess = s.lastaccess;
  lastmodif = s.lastmodif;
  sendwinsize = s.sendwinsize;
  recvwinsize = s.recvwinsize;
  buffersizeperstream = s.buffersizeperstream;
  nbstream = s.requestedstreamnumber;
}

-- _bbftpd_write_int32_array of myports, which is turned to network order in place.
unfoldable pub write_array : Option Block → M Bool
write_array none = fault null_pointer
write_array (some p) = do
  modify λ s. record s {
    myports = some (record p { items = map (λ i. to_int (htonl (of_int i))) p.items });
  }
  send (encode_ints p.items)

unfoldable pub write_ports : M Bool
write_ports = gets (λ s. s.myports) >>= write_array

-- bbftpd_msgwrite_msg_bytes
unfoldable pub msgwrite_msg_bytes : ℕ → List ℕ → M Bool
msgwrite_msg_bytes code bytes = do
  head ← send (encode_len code (pos (length bytes)))
  if head then send bytes else pure false

-- The ports that follow the answer, where it was sent and they are wanted.
unfoldable pub answer_ports : Bool → Bool → M Bool
answer_ports false send_ports = pure false
answer_ports true false = pure true
answer_ports true true = do ready ← getdatasock; if ready then write_ports else pure false

unfoldable pub init_and_send_msg_store_v2 : Bool → M Bool
init_and_send_msg_store_v2 send_ports = do
  params ← gets store_params
  version ← gets (λ s. s.protocolversion)
  told ←
      msgwrite_msg_bytes (if eqb_ℤ version (pos 2) then msg_trans_ok_v2 else msg_trans_ok_v3)
        (encode_store params)
  answer_ports told send_ports

-- The fragment of child `i`, from 1 on: startpoint, and nbtoget or nbtosend.
unfoldable pub fragment : ℤ → ℤ → ℕ → ℤ × ℤ
unfolding div_ℤ mul_ℕ sub_ℤ
fragment filesize streams i =
    let nbperchild = div_ℤ filesize streams in
    (
      mul_ℕ (i - 1) nbperchild,
      if eqb_ℤ (pos i) streams then sub_ℤ filesize (mul_ℕ (i - 1) nbperchild) else nbperchild,
    )

-- The failure of a child's start: one BAD message at most, and the children are killed.
unfoldable pub give_up : Text → M Result
give_up msg = do
  silent ← gets (λ s. s.childendinerror)
  if silent
      then pure tt
      else (modify (λ s. record s { childendinerror = true }) >> reply msg_bad (snprintf 1024 msg))
  clean_child
  result (pos 1) msg

-- *pidfree++ = pid and nbpidchild++
unfoldable pub add_child : ℤ → Option Block → M (Unit {0})
add_child pid none = fault null_pointer
add_child pid (some b) = modify λ s. record s {
  mychildren = some (record b { items = b.items ++ (pid ∷ []) });
  nbpidchild = s.nbpidchild + 1;
}

-- The answer of fork, in the parent, which closes the child's socket; `rest` starts the other children.
unfoldable pub keep_child : Bool → Text → ℤ → M Result → ℤ ⊎ ℕ → M Result
keep_child is_store filename fd rest (inr e) = do
  os ← gets (λ s. s.os)
  when is_store (unlink_quietly filename)
  give_up (text "fork failed : " ++ (os.strerror e ++ text " "))
keep_child is_store filename fd rest (inl pid) = do
  children ← gets (λ s. s.mychildren)
  add_child pid children
  modify λ s. record s { calls = close_socket_call fd ∷ s.calls }
  rest

-- Child `i`, once there is a socket for it.
unfoldable pub start_child : Bool → Text → ℕ → M Result → ℤ ⊎ Text → M Result
start_child is_store filename i rest (inr problem) = give_up problem
start_child is_store filename i rest (inl fd) = do
  part ← gets (λ s. fragment s.filesize s.requestedstreamnumber i)
  child ← ask (fork_call part.0 part.1) (λ os calls. os.fork calls)
  keep_child is_store filename fd rest child

-- In active mode the entry is a port to connect to, and else a socket.
unfoldable pub socket_of : ℤ → M (ℤ ⊎ Text)
socket_of entry = do
  version ← gets (λ s. s.protocolversion)
  if ltb_ℤ version (pos 3)
      then ask (connect_call entry) (λ os calls. os.receivesocket calls entry)
      else pure (inl entry)

-- The loop that starts the children: `left` rounds from child `i` on, with what port_or_sock still
-- points to.
unfoldable pub start_children : Bool → Text → ℕ → ℕ → List ℤ → M Result
start_children is_store filename zero i entries = pure (pos 0, [])
start_children is_store filename (suc left) i [] = fault out_of_bounds
start_children is_store filename (suc left) i (entry ∷ entries) =
    socket_of entry
    >>= start_child is_store filename i (start_children is_store filename left (i + 1) entries)

-- kill(pid, SIGHUP) for each child wakes it up.
unfoldable pub wake_children : M (Unit {0})
wake_children =
    modify λ s. record s { calls = kill_all sighup s.nbpidchild (items_of s.mychildren) s.calls }

-- The part that both directions share. The division comes first, and port_or_sock is read only
-- where there is a child to start.
unfoldable pub transferfile : Bool → Text → M Result
transferfile is_store filename = do
  streams ← gets (λ s. s.requestedstreamnumber)
  version ← gets (λ s. s.protocolversion)
  port_or_sock ← gets (λ s. if ltb_ℤ version (pos 3) then s.myports else s.mysockets)
  if eqb_ℤ streams (pos 0) then fault division_by_zero else (do
    modify λ s. record s {
      childendinerror = false;
      nbpidchild = 0;
      unlinkfile = if is_store then 1 else 3;
    }
    start_children is_store filename (pos_part streams) 1 (items_of port_or_sock))

unfoldable pub storetransferfile : Text → Bool → M Result
storetransferfile filename simulation = do
  options ← gets (λ s. s.transferoption)
  if has options tropt_rfio then pure (pos 0, []) else (do
    r ← transferfile true filename
    if eqb_ℤ r.0 (pos 0)
        then (do
          modify λ s. record s { state = receiving }
          wake_children
          when simulation (modify λ s. record s { unlinkfile = 4 })
          pure (pos 0, []))
        else pure r)

unfoldable pub retrtransferfile : Text → Bool → M Result
retrtransferfile filename simulation = do
  options ← gets (λ s. s.transferoption)
  if has options tropt_rfio then pure (pos 0, []) else (do
    r ← transferfile false filename
    if eqb_ℤ r.0 (pos 0)
        then (do modify λ s. record s { state = sending }; wake_children; pure (pos 0, []))
        else pure r)
