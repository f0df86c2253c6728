-- ===== src/Client/Io.antt =====
-- How the client reads its server and writes to it: readmessage.c and writemessage.c of
-- bbftp-client/bbftpc, bbftp_close_control of bbftp_utils.c, and the codes BB_RET of
-- bbftp-client/includes/client.h.
pub mod Discard
use bbftp.Base.{
  ℕ, ◌+◌, ◌*◌, Bool, true, false, ◌||◌, not, ◌-◌, List, [], ◌∷◌, Option, none, some, ℤ, pos, negsuc,
  eqb_ℤ, ltb_ℤ, if◌then◌else◌, ◌==◌, to_size, c_string, ◌^◌,
}
use bbftp.Channel.{
  InSock, OutSock, Received, Sending, SelectAnswer, ready, expired, select_failed, Gate, open_gate,
  closed_gate, done, failed, blocked, eintr, readmessage_by, writemessage_by,
}
use bbftp.Wire.{Message, decode_message, decode_int, encode_len, encode_int32, encode_int32_2}
use bbftp.Client.{
  Client, Text, M, Call, malloc_call, close_call, kill_call, returns, waits, pure, ◌>>=◌, ◌>>◌, ask,
  modify, gets, fault, signed_overflow, out_of_bounds, record_call, set_errcode,
}

abbrev pub eagain : ℕ
eagain = 11

-- The errnos after which try_select of the client calls select again.
abbrev pub retried : ℕ → Bool
retried e = (e == eintr) || (e == eagain)

unfoldable pub readmessage : InSock → ℤ → Received
unfolding readmessage_by
readmessage sock msglen = readmessage_by retried sock msglen

unfoldable pub writemessage : OutSock → List ℕ → Sending
unfolding writemessage_by
writemessage sock bytes = writemessage_by retried sock bytes

-- writemessage on BBftp_Outcontrolsock: true stands for 0 and false for -1.
unfoldable pub send : Text → M Bool
send bytes s =
    let r = writemessage s.outsock bytes in
    let t = record s { outsock = r.sock } in
    elim r.status [ done ↦ returns true t | failed e ↦ returns false t | blocked ↦ waits t ]

-- readmessage on BBftp_Incontrolsock: the bytes, or -1.
unfoldable pub receive : ℤ → M (Option (List ℕ))
receive msglen s =
    let r = readmessage s.insock msglen in
    let t = record s { insock = r.sock } in
    elim r.status [
      | done ↦ returns (some r.buffer) t
      | failed e ↦ returns none t
      | blocked ↦ waits t
    ]

-- bbftp_msgread_msg
unfoldable pub msgread_msg : M (Option Message)
msgread_msg = do
  r ← receive (pos 8)
  elim r [ none ↦ pure none | some bytes ↦ pure (some (decode_message bytes)) ]

-- bbftp_msgread_int32
unfoldable pub msgread_int32 : M (Option ℤ)
msgread_int32 = do
  r ← receive (pos 4)
  elim r [ none ↦ pure none | some bytes ↦ pure (some (decode_int bytes)) ]

-- bbftp_msgwrite_len, bbftp_msgwrite_int32 and bbftp_msgwrite_int32_2
unfoldable pub msgwrite_len : ℕ → ℤ → M Bool
msgwrite_len code len = send (encode_len code len)

unfoldable pub msgwrite_int32 : ℕ → ℤ → M Bool
msgwrite_int32 code i = send (encode_int32 code i)

unfoldable pub msgwrite_int32_2 : ℕ → ℤ → ℤ → M Bool
msgwrite_int32_2 code i j = send (encode_int32_2 code i j)

-- Writes of several buffers, up to the first that fails.
unfoldable pub send_all : List Text → M Bool
send_all [] = pure true
send_all (part ∷ parts) = do sent ← send part; if sent then send_all parts else pure false

-- bbftp_msgwrite_bytes
unfoldable pub msgwrite_bytes : ℕ → ℤ → Text → M Bool
msgwrite_bytes code len bytes = send_all (encode_len code len ∷ bytes ∷ [])

-- The loop at waitcontrol, over the answers of select: there is no timer.
unfoldable pub wait_select : List SelectAnswer → Gate
wait_select [] = closed_gate blocked []
wait_select (ready ∷ rest) = open_gate rest
wait_select (expired ∷ rest) = wait_select rest
wait_select (select_failed e ∷ rest) =
    if e == eintr then wait_select rest else closed_gate (failed e) rest

-- True where there is input, false after an error of select.
unfoldable pub waitcontrol : M Bool
waitcontrol s = elim (wait_select s.insock.selects) [
  | open_gate rest ↦ returns true (record s { insock = record (s.insock) { selects = rest } })
  | closed_gate status rest ↦
      let t = record s { insock = record (s.insock) { selects = rest } } in
      elim status [ done ↦ returns true t | failed e ↦ returns false t | blocked ↦ waits t ]
]

abbrev pub bb_ret_ok : ℤ
bb_ret_ok = pos 0

abbrev pub bb_ret_conn_broken : ℤ
bb_ret_conn_broken = negsuc 0

abbrev pub bb_ret_ft_nr_conn_broken : ℤ
bb_ret_ft_nr_conn_broken = negsuc 1

abbrev pub bb_ret_ft_nr : ℤ
bb_ret_ft_nr = negsuc 2

abbrev pub bb_ret_error : ℤ
bb_ret_error = pos 1

abbrev pub sigkill : ℕ
sigkill = 9

abbrev pub close_calls : Client → List Call
close_calls s =
    if eqb_ℤ s.incontrolsock s.outcontrolsock
    then close_call s.incontrolsock ∷ s.calls
    else close_call s.outcontrolsock ∷ close_call s.incontrolsock ∷ s.calls

-- bbftp_close_control
unfoldable pub close_control : M (Unit {0})
close_control = modify λ s. record s {
  calls =
      if eqb_ℤ s.ssh_childpid (pos 0)
      then close_calls s
      else kill_call s.ssh_childpid sigkill ∷ close_calls s;
}

unfoldable pub malloc : ℕ → M Bool
malloc size = ask (malloc_call size) (λ os calls. os.malloc calls size)

-- The way out that every error on the control connection takes.
unfoldable pub abandon : ℕ → ℤ → M ℤ
abandon err ret = do set_errcode err; close_control; pure ret

-- What stands behind a header of the server: `msglen` bytes into a buffer of msglen + 1, with a 0
-- written at index msglen. `lost` is what a failed read leads to.
unfoldable pub read_text : ℤ → M ℤ → (Text → M ℤ) → M ℤ
read_text (negsuc n) lost k = do
  fits ← malloc (if n == 0 then 0 else to_size (negsuc (n - 1)))
  if fits then fault out_of_bounds else abandon 35 bb_ret_conn_broken
read_text (pos n) lost k = if n == 2 ^ 31 - 1 then fault signed_overflow else (do
  fits ← malloc (n + 1)
  if not fits then abandon 35 bb_ret_conn_broken else (do
    r ← receive (pos n)
    elim r [ none ↦ set_errcode 67 >> (close_control >> lost) | some bytes ↦ k bytes ]))
