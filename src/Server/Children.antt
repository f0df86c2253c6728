-- ===== src/Server/Children.antt =====
-- The children that the server forks: the child's part of bbftpd_storetransferfile
-- (bbftp-server/bbftpd/bbftpd_store.c) and of bbftpd_retrtransferfile (bbftpd_retr.c), with
-- wait_for_parent and open_file_fragment. `kb` is the int buffersizeperstream * 1024.
pub mod Opening
pub mod Store
pub mod Retr
pub mod Huge
pub mod Short
mod Tests
use bbftp.Base.{
  ℕ, zero, suc, ◌-◌, ◌%◌, ◌^◌, min, Bool, true, false, List, [], ◌∷◌, Option, none, some, inl, inr,
  ℤ, pos, ltb_ℤ, to_int, to_size, length, take, drop, ◌==◌, ◌++◌, has, if◌then◌else◌,
}
use bbftp.Channel.{
  ReadAnswer, given, read_failed, eintr, interrupted, etimedout, readmessage, writemessage,
}
use bbftp.Wire.{le32, htonl, encode_len, decode_message}
use bbftp.Wire.Codes.{msg_ack, tropt_gzip}
use bbftp.Child.{
  M, Call, sleep_call, close_control, close_listener, close_socket, close_file, unlink_file, spins,
  pure, ◌>>=◌, ◌>>◌, modify, gets, block, leave, record_calls, attempt, persist, seek_to, quota,
  send_by, receive_by, write_file, remaining,
}

abbrev pub startchildto : ℕ
startchildto = 20

-- The loop of wait_for_parent, with the seconds left.
unfoldable pub wait_calls : ℕ → List Bool → List Call → List Call
wait_calls zero flags calls = calls
wait_calls (suc n) [] calls = wait_calls n [] (sleep_call 1 ∷ calls)
wait_calls (suc n) (true ∷ flags) calls = calls
wait_calls (suc n) (false ∷ flags) calls = wait_calls n flags (sleep_call 1 ∷ calls)

unfoldable pub wait_for_parent : M (Unit {0})
unfolding wait_calls
wait_for_parent = modify λ s. record s { calls = wait_calls startchildto s.flagsighup s.calls }

unfoldable pub open_file_fragment : ℕ → (ℕ → M (Unit {0})) → M (Unit {0}) → M (Unit {0})
open_file_fragment start fail next = do
  opens ← gets (λ s. s.opens)
  seeks ← gets (λ s. s.seeks)
  persist opens fail (
      persist seeks (λ e. record_calls (close_file ∷ []) >> fail e)
        (modify (seek_to start) >> next))

-- The connection of the child: in passive mode the peer that is accepted.
unfoldable pub connection : ℤ → (ℕ → M (Unit {0})) → M (Unit {0}) → M (Unit {0})
connection version fail next = do
  accepts ← gets (λ s. s.accepts)
  if ltb_ℤ version (pos 3)
      then next
      else persist accepts fail (record_calls (close_listener ∷ []) >> next)

-- datatoreceive: the rest of the fragment is cut to an int before it is compared.
unfoldable pub datatoreceive : ℤ → ℕ → ℤ
datatoreceive kb left =
    let amount = to_int (left % 2 ^ 32) in if ltb_ℤ kb amount then kb else amount

-- The reading loop, with nbtoget - nbget bytes left and a bound on its rounds.
unfoldable pub store_rounds : ℤ → ℕ → ℕ → M (Unit {0})
store_rounds kb fuel zero = pure tt
store_rounds kb zero (suc left) = λ s. spins s
store_rounds kb (suc fuel) (suc left) =
    let amount = datatoreceive kb (suc left) in
    receive_by readmessage amount >>= λ r. elim r [
      | inr e ↦ leave (unlink_file ∷ close_socket ∷ close_file ∷ []) e
      | inl bytes ↦ gets (λ s. s.writes) >>= λ answers.
          write_file interrupted (close_socket ∷ unlink_file ∷ close_file ∷ []) answers bytes
          >> store_rounds kb fuel (remaining (suc left) amount)
    ]

-- MSG_ACK, and the end.
unfoldable pub acknowledge : M (Unit {0})
acknowledge = do
  sent ← send_by writemessage (encode_len msg_ack (pos 0))
  elim sent [
    | some e ↦ leave (close_socket ∷ unlink_file ∷ close_file ∷ []) etimedout
    | none ↦ leave (close_socket ∷ close_file ∷ []) 0
  ]

-- The child of a store for `nbtoget` bytes from `startpoint` on.
unfoldable pub store_child : ℤ → Bool → ℤ → ℕ → ℕ → ℕ → M (Unit {0})
store_child version simulation kb fuel startpoint nbtoget = do
  wait_for_parent
  record_calls (close_control ∷ close_control ∷ [])
  stats ← gets (λ s. s.stats)
  attempt stats (λ e. leave (close_listener ∷ []) e)
      (open_file_fragment startpoint (λ e. leave (close_listener ∷ unlink_file ∷ []) (quota e))
        (connection version (λ e. leave (unlink_file ∷ close_listener ∷ close_file ∷ []) e)
          (if simulation
            then leave (close_socket ∷ close_file ∷ []) 0
            else (store_rounds kb fuel nbtoget >> acknowledge))))

-- num_to_read, as the size_t that read takes.
unfoldable pub num_to_read : ℤ → ℕ → ℕ
num_to_read kb left = if ltb_ℤ kb (pos left) then to_size kb else left

-- struct mess_compress with DATA_NOCOMPRESS: without gzip the blocks are sent as they are.
unfoldable pub compress_header : ℕ → List ℕ
compress_header datalen = le32 0 ++ le32 (htonl datalen)

-- The header that TROPT_GZIP puts before a block, and what follows it.
unfoldable pub send_header : Bool → ℕ → M (Unit {0}) → M (Unit {0})
send_header false datalen next = next
send_header true datalen next = send_by writemessage (compress_header datalen) >>= λ sent.
    elim sent [ some e ↦ leave (close_socket ∷ close_file ∷ []) e | none ↦ next ]

-- The sending loop over the answers of read, with nbtosend - nbread bytes left. `gzip` is TROPT_GZIP. Of a regular file read
-- gives at least one byte of what is there, and 0 at its end.
unfoldable pub retr_rounds : Bool → ℤ → List ReadAnswer → ℕ → M (Unit {0})
retr_rounds gzip kb reads zero = pure tt
retr_rounds gzip kb [] (suc left) = block
retr_rounds gzip kb (read_failed e ∷ reads) (suc left) = elim (e == eintr) [
  | true ↦ retr_rounds gzip kb reads (suc left)
  | false ↦ leave (close_file ∷ close_socket ∷ []) e
]
retr_rounds gzip kb (given n ∷ reads) (suc left) =
    gets (λ s. take (min (suc n) (num_to_read kb (suc left))) s.unread) >>= λ got.
    modify (λ s. record s { unread = drop (length got) s.unread })
    >> send_header gzip (length got) (
        send_by writemessage got >>= λ sent. elim sent [
          | some e ↦ leave (close_socket ∷ close_file ∷ []) e
          | none ↦ retr_rounds gzip kb reads (suc left - length got)
        ])

-- The wait for the peer's MSG_ACK, and the end.
unfoldable pub acknowledged : M (Unit {0})
acknowledged = do
  record_calls (close_file ∷ [])
  answer ← receive_by readmessage (pos 8)
  elim answer [
    | inr e ↦ leave (close_socket ∷ []) e
    | inl bytes ↦
        leave (close_socket ∷ []) (if (decode_message bytes).code == msg_ack then 0 else 1)
  ]

-- The child of a retrieval with these options, for `nbtosend` bytes from `startpoint` on.
unfoldable pub retr_child : ℕ → ℤ → Bool → ℤ → ℕ → ℕ → M (Unit {0})
retr_child options version simulation kb startpoint nbtosend = do
  wait_for_parent
  record_calls (close_control ∷ close_control ∷ [])
  reads ← gets (λ s. s.reads)
  open_file_fragment startpoint (λ e. leave (close_listener ∷ []) e)
      (connection version (λ e. leave (close_listener ∷ close_file ∷ []) e)
        (if simulation
          then leave (close_socket ∷ close_file ∷ []) 0
          else (retr_rounds (has options tropt_gzip) kb reads nbtosend >> acknowledged)))
