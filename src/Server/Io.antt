-- ===== src/Server/Io.antt =====
-- How the server reads its client and answers it: bbftp-server/bbftpd/bbftpd_message.c, the readers
-- at the top of bbftpd_readcontrol.c, free_all_var of bbftpd_utils.c and clean_child of bbftpd.c.
use bbftp.Base.{
  ℕ, zero, suc, ◌+◌, ◌-◌, ◌*◌, ◌%◌, ◌^◌, Bool, true, false, List, [], ◌∷◌, ◌++◌, Option, none, some,
  not, ℤ, pos, ltb_ℤ, eqb_ℤ, of_int, to_int, if◌then◌else◌, length, take, drop, text, snprintf,
  pos_part,
}
use bbftp.Channel.{done, failed, blocked, readmessage, writemessage}
use bbftp.Wire.{Message, encode_len, decode_int, decode_message, le32, htonl}
use bbftp.Wire.Codes.{msg_bad}
use bbftp.Server.{
  M, Text, Call, Block, malloc_call, kill_call, returns, exits, waits, pure, ◌>>=◌, ◌>>◌, ask,
  modify, fault, use_after_free, signed_overflow,
}

-- writemessage on outcontrolsock: true stands for 0 and false for -1.
unfoldable pub send : Text → M Bool
send bytes s =
    let r = writemessage s.outsock bytes in
    let t = record s { outsock = r.sock } in
    elim r.status [ done ↦ returns true t | failed e ↦ returns false t | blocked ↦ waits t ]

-- readmessage on incontrolsock: the bytes, or -1.
unfoldable pub receive : ℤ → M (Option (List ℕ))
receive msglen s =
    let r = readmessage s.insock msglen in
    let t = record s { insock = r.sock } in
    elim r.status [
      | done ↦ returns (some r.buffer) t
      | failed e ↦ returns none t
      | blocked ↦ waits t
    ]

-- bbftpd_msgread_msg
unfoldable pub msgread_msg : M (Option Message)
msgread_msg = do
  r ← receive (pos 8)
  elim r [ none ↦ pure none | some bytes ↦ pure (some (decode_message bytes)) ]

-- bbftpd_msgread_int32
unfoldable pub msgread_int32 : M (Option ℤ)
msgread_int32 = do
  r ← receive (pos 4)
  elim r [ none ↦ pure none | some bytes ↦ pure (some (decode_int bytes)) ]

-- The ints in a buffer of `n` times four bytes, from network order.
unfoldable pub decode_ints : ℕ → List ℕ → List ℤ
decode_ints zero bytes = []
decode_ints (suc n) bytes = decode_int (take 4 bytes) ∷ decode_ints n (drop 4 bytes)

unfoldable pub encode_ints : List ℤ → List ℕ
encode_ints [] = []
encode_ints (i ∷ is) = le32 (htonl (of_int i)) ++ encode_ints is

-- bbftpd_msgread_int32_array: num * sizeof(int32_t) as the int that readmessage takes.
unfoldable pub msgread_int32_array : ℤ → M (Option (List ℤ))
msgread_int32_array num = do
  r ← receive (to_int (of_int num * 4 % 2 ^ 32))
  elim r [ none ↦ pure none | some bytes ↦ pure (some (decode_ints (pos_part num) bytes)) ]

-- A signal to the first `n` entries that are not 0.
unfoldable pub kill_all : ℕ → ℕ → List ℤ → List Call → List Call
kill_all signal zero pids calls = calls
kill_all signal (suc n) [] calls = calls
kill_all signal (suc n) (p ∷ ps) calls =
    kill_all signal n ps (if eqb_ℤ p (pos 0) then calls else kill_call signal p ∷ calls)

abbrev pub sighup : ℕ
sighup = 1

abbrev pub sigkill : ℕ
sigkill = 9

abbrev pub items_of : Option Block → List ℤ
items_of none = []
items_of (some b) = b.items

-- clean_child for protocol versions 2 and 3.
unfoldable pub clean_child : M (Unit {0})
clean_child = modify λ s. if s.killdone then s else record s {
  killdone = true;
  calls = kill_all sigkill s.nbpidchild (items_of s.mychildren) s.calls;
}

-- The end of reply where the client cannot be told.
unfoldable pub die : M (Unit {0})
die = do clean_child; λ s. exits 1 s

unfoldable pub reply : ℕ → Text → M (Unit {0})
reply code str = do
  head ← send (encode_len code (pos (length str)))
  if head then (do body ← send str; if body then pure tt else die) else die

-- bbftpd_msg_reply formats into 4096 bytes.
unfoldable pub msg_reply : ℕ → Text → M (Unit {0})
msg_reply code str = reply code (snprintf 4096 str)

unfoldable pub malloc : ℕ → M Bool
malloc size = ask (malloc_call size) (λ os calls. os.malloc calls size)

-- free of a pointer that is NULL does nothing, so each test and free is one assignment.
unfoldable pub free_all_var : M (Unit {0})
free_all_var = modify λ s. record s {
  curfilename = none;
  realfilename = none;
  myports = none;
  mychildren = none;
  mysockets = none;
  readbuffer = none;
  compbuffer = none;
  nbpidchild = 0;
}

-- read_int: the value, or -1.
unfoldable pub read_int : ℤ → M (Option ℤ)
read_int msglen =
    if not (eqb_ℤ msglen (pos 4))
    then (reply msg_bad (text "Expecting a 32bit integer") >> pure none)
    else (do
      r ← msgread_int32
      elim r [ none ↦ reply msg_bad (text "Read failed") >> pure none | some v ↦ pure (some v) ])

-- What read_string gives its caller: -1, -2, or 0 with the buffer.
pub data StringRead : Type 0 where
  bad_length no_memory : StringRead
  string : List ℕ → StringRead

-- After a failed read the buffer is freed and then written to.
unfoldable pub read_string : ℤ → M StringRead
read_string msglen =
    if ltb_ℤ msglen (pos 0)
    then (reply msg_bad (text "invalid string length") >> pure bad_length)
    else if eqb_ℤ msglen (pos (2 ^ 31 - 1))
    then fault signed_overflow
    else (do
      fits ← malloc (pos_part msglen + 1)
      if fits
          then (do
            r ← receive msglen
            elim r [
              | none ↦ reply msg_bad (text "read error") >> fault use_after_free
              | some bytes ↦ pure (string bytes)
            ])
          else (reply msg_bad (text "malloc failed") >> pure no_memory))
