-- ===== src/Client/Children.antt =====
-- The children that the client forks: the child's part of bbftp_storetransferfile
-- (bbftp-client/bbftpc/bbftp_store.c) and of bbftp_retrtransferfile (bbftp_retr.c), built without gzip.
-- `kb` is the int BBftp_Buffersizeperstream * 1024.
pub mod Sockets
pub mod Opening
pub mod Store
pub mod Retr
mod Tests
use bbftp.Base.{
  ℕ, zero, suc, ◌-◌, min, Bool, true, false, not, List, [], ◌∷◌, ◌++◌, none, some, inl, inr, ℤ, pos,
  pos_part, ltb_ℤ, eqb_ℤ, to_size, length, take, drop, replicate, ◌==◌, if◌then◌else◌,
}
use bbftp.Channel.{
  InSock, OutSock, SelectAnswer, ready, expired, select_failed, ReadAnswer, given, read_failed,
  WriteAnswer, taken, write_failed, done, failed, blocked, Received, received, Sending, sending,
  etimedout, econnreset,
}
use bbftp.Wire.{encode_len, decode_message}
use bbftp.Wire.Codes.{msg_ack}
use bbftp.Child.{
  M, sleep_call, close_control, close_listener, close_other, close_socket, close_file, unlink_file,
  spins, pure, ◌>>=◌, ◌>>◌, modify, gets, block, leave, record_calls, attempt, seek_to, quota,
  send_by, receive_by, write_file, remaining,
}
use bbftp.Client.Io.{readmessage, writemessage}

abbrev pub childwaittime : ℕ
childwaittime = 200

-- The loop of select and recv, with datatoreceive - dataonone bytes left. A signal ends it.
unfoldable pub recv_loop : ℕ → List ℕ → List ℕ → List SelectAnswer → List ReadAnswer → Received
recv_loop zero got stream selects reads = received got stream selects reads done
recv_loop (suc left) got stream [] reads = received got stream [] reads blocked
recv_loop (suc left) got stream (expired ∷ ss) reads =
    received got stream ss reads (failed etimedout)
recv_loop (suc left) got stream (select_failed e ∷ ss) reads =
    received got stream ss reads (failed e)
recv_loop (suc left) got stream (ready ∷ ss) [] = received got stream ss [] blocked
recv_loop (suc left) got stream (ready ∷ ss) (read_failed e ∷ reads) =
    received got stream ss reads (failed e)
recv_loop (suc left) got stream (ready ∷ ss) (given n ∷ reads) =
    let c = min n (min (suc left) (length stream)) in
    elim (c == 0) [
      | true ↦ received got stream ss reads (failed econnreset)
      | false ↦ recv_loop (suc left - c) (got ++ take c stream) (drop c stream) ss reads
    ]

unfoldable pub recv_data : InSock → ℤ → Received
unfolding recv_loop
recv_data sock amount = recv_loop (pos_part amount) [] sock.stream sock.selects sock.reads

-- The loop of select and send, over the bytes that are not sent.
unfoldable pub send_loop : List ℕ → List ℕ → List SelectAnswer → List WriteAnswer → Sending
send_loop [] sent selects writes = sending sent [] selects writes done
send_loop (b ∷ bs) sent [] writes = sending sent (b ∷ bs) [] writes blocked
send_loop (b ∷ bs) sent (expired ∷ ss) writes = sending sent (b ∷ bs) ss writes (failed etimedout)
send_loop (b ∷ bs) sent (select_failed e ∷ ss) writes = sending sent (b ∷ bs) ss writes (failed e)
send_loop (b ∷ bs) sent (ready ∷ ss) [] = sending sent (b ∷ bs) ss [] blocked
send_loop (b ∷ bs) sent (ready ∷ ss) (write_failed e ∷ writes) =
    sending sent (b ∷ bs) ss writes (failed e)
send_loop (b ∷ bs) sent (ready ∷ ss) (taken n ∷ writes) = elim (n == 0) [
  | true ↦ sending sent (b ∷ bs) ss writes (failed econnreset)
  | false ↦ send_loop (drop n (b ∷ bs)) (sent ++ take n (b ∷ bs)) ss writes
]

unfoldable pub send_data : OutSock → List ℕ → Sending
unfolding send_loop
send_data sock bytes = send_loop bytes sock.sent sock.selects sock.writes

-- The select on the socket of the child, with what an error and the end of the time lead to.
unfoldable pub await_peer :
    List SelectAnswer → (ℕ → M (Unit {0})) → M (Unit {0}) → M (Unit {0}) → M (Unit {0})
await_peer [] fail late next = block
await_peer (ready ∷ rest) fail late next = next
await_peer (expired ∷ rest) fail late next = late
await_peer (select_failed e ∷ rest) fail late next = fail e

-- The descriptors that a child closes first: stdin, stdout, stderr, the control connection and, in
-- active mode, the sockets of the other children.
unfoldable pub close_inherited : ℤ → ℕ → M (Unit {0})
close_inherited protocol streams = record_calls (
    (if eqb_ℤ protocol (pos 2) then replicate (streams - 1) close_other else [])
    ++ (close_control ∷ close_control ∷ close_other ∷ close_other ∷ close_other ∷ []))

-- The connection once select has found it: accepted in active mode.
unfoldable pub take_connection : ℤ → (ℕ → M (Unit {0})) → M (Unit {0}) → M (Unit {0})
take_connection protocol fail next = do
  accepts ← gets (λ s. s.accepts)
  if eqb_ℤ protocol (pos 2)
      then attempt accepts fail (record_calls (close_listener ∷ []) >> next)
      else next

-- The amount of one round: a buffer, or what is left.
unfoldable pub round_amount : ℤ → ℕ → ℤ
round_amount kb left = if ltb_ℤ (pos left) kb then pos left else kb

-- No errno is one after which write is called again.
abbrev pub never : ℕ → Bool
never e = false

-- The reading loop, with nbtoget - nbget bytes left and a bound on its rounds.
unfoldable pub store_rounds : ℤ → ℕ → ℕ → M (Unit {0})
store_rounds kb fuel zero = pure tt
store_rounds kb zero (suc left) = λ s. spins s
store_rounds kb (suc fuel) (suc left) =
    let amount = round_amount kb (suc left) in
    receive_by recv_data amount >>= λ r. elim r [
      | inr e ↦ leave (unlink_file ∷ close_file ∷ []) e
      | inl bytes ↦ gets (λ s. s.writes) >>= λ answers.
          write_file never (unlink_file ∷ close_file ∷ []) answers bytes
          >> store_rounds kb fuel (suc left - length bytes)
    ]

-- MSG_ACK.
unfoldable pub acknowledge : M (Unit {0})
acknowledge = do
  sent ← send_by writemessage (encode_len msg_ack (pos 0))
  elim sent [ some e ↦ leave (unlink_file ∷ close_file ∷ []) etimedout | none ↦ pure tt ]

-- The end: the file is closed, which may fail.
unfoldable pub close_stored : M (Unit {0})
close_stored = do
  closes ← gets (λ s. s.closes)
  record_calls (close_file ∷ [])
  attempt closes (λ e. leave (unlink_file ∷ []) e) (leave [] 0)

-- The child of a get for `nbtoget` bytes from `startpoint` on.
unfoldable pub store_child : ℤ → Bool → ℤ → ℕ → ℕ → ℕ → ℕ → M (Unit {0})
store_child protocol simulation kb fuel streams startpoint nbtoget = do
  close_inherited protocol streams
  stats ← gets (λ s. s.stats)
  opens ← gets (λ s. s.opens)
  seeks ← gets (λ s. s.seeks)
  selects ← gets (λ s. s.selects)
  attempt stats (λ e. leave (close_listener ∷ []) e)
      (attempt opens (λ e. leave [] (quota e))
        (attempt seeks (λ e. leave (unlink_file ∷ close_file ∷ []) e)
          (modify (seek_to startpoint)
            >> await_peer selects
                (λ e. leave (sleep_call childwaittime ∷ unlink_file ∷ close_file ∷ []) e)
                (leave (unlink_file ∷ close_file ∷ []) etimedout)
                (take_connection protocol (λ e. leave (unlink_file ∷ close_file ∷ []) e)
                  ((if simulation then pure tt else (store_rounds kb fuel nbtoget >> acknowledge))
                    >> close_stored)))))

-- What a round of the sending loop has read, sent on with the errno of a read at the end of the file
-- being the one that the child has inherited. Of a regular file read gives at least one byte of what is
-- there, and 0 at its end.
unfoldable pub pass_on : List ℕ → M (Unit {0}) → M (Unit {0})
pass_on [] next = gets (λ s. s.errno) >>= λ e. leave (close_file ∷ close_socket ∷ []) e
pass_on (b ∷ bs) next =
    modify (λ s. record s { unread = drop (length (b ∷ bs)) s.unread })
    >> (send_by send_data (b ∷ bs) >>= λ sent. elim sent [
      | some e ↦ leave (close_socket ∷ close_file ∷ []) e
      | none ↦ next
    ])

-- The sending loop over the answers of read, with nbtosend - nbread bytes left.
unfoldable pub retr_rounds : ℤ → List ReadAnswer → ℕ → M (Unit {0})
retr_rounds kb reads zero = pure tt
retr_rounds kb [] (suc left) = block
retr_rounds kb (read_failed e ∷ reads) (suc left) = leave (close_file ∷ close_socket ∷ []) e
retr_rounds kb (given n ∷ reads) (suc left) =
    gets (λ s. take (min (suc n) (to_size (round_amount kb (suc left)))) s.unread) >>= λ got.
    pass_on got (retr_rounds kb reads (suc left - length got))

-- The file is closed, and the peer's MSG_ACK awaited.
unfoldable pub acknowledged : M (Unit {0})
acknowledged = do
  record_calls (close_file ∷ [])
  answer ← receive_by readmessage (pos 8)
  elim answer [
    | inr e ↦ leave (close_socket ∷ []) etimedout
    | inl bytes ↦
        if (decode_message bytes).code == msg_ack then pure tt else leave (close_socket ∷ []) 1
  ]

-- The child of a put for `nbtosend` bytes from `startpoint` on.
unfoldable pub retr_child : ℤ → Bool → ℤ → ℕ → ℕ → ℕ → M (Unit {0})
retr_child protocol simulation kb streams startpoint nbtosend = do
  close_inherited protocol streams
  reads ← gets (λ s. s.reads)
  opens ← gets (λ s. s.opens)
  seeks ← gets (λ s. s.seeks)
  selects ← gets (λ s. s.selects)
  attempt opens (λ e. leave [] e)
      (attempt seeks (λ e. leave (close_file ∷ []) e)
        (modify (seek_to startpoint)
          >> await_peer selects (λ e. leave (sleep_call childwaittime ∷ close_file ∷ []) e)
              (leave (close_file ∷ []) etimedout)
              (take_connection protocol (λ e. leave (close_file ∷ []) e)
                ((if simulation then pure tt else (retr_rounds kb reads nbtosend >> acknowledged))
                  >> leave (close_socket ∷ []) 0))))
