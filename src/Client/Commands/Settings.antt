-- ===== src/Client/Commands/Settings.antt =====
-- The commands of bbftp-client/bbftpc/bbftp_cmds.c that set a variable. Their result is true for 0 and
-- false for -1.
use bbftp.Base.{
  ℕ, ◌==◌, Bool, true, false, ◌&&◌, ◌||◌, not, List, ◌∷◌, Option, none, some, ℤ, pos, negsuc,
  minus_one, eqb_ℤ, ltb_ℤ, to_int, if◌then◌else◌, text, bit_or,
}
use bbftp.Wire.Codes.{
  tropt_dir, tropt_tmp, tropt_rfio, tropt_rfio_o, tropt_mode, tropt_acc, tropt_gzip, tropt_qbss,
}
use bbftp.Client.{
  Client, Text, Os, M, umask_call, pure, ◌>>=◌, ◌>>◌, modify, gets, fault, out_of_bounds,
  record_call,
}
use bbftp.Client.Io.{bb_ret_ok}
use bbftp.Client.Requests.{bbftp_setremotecos, bbftp_setremoteumask}
use bbftp.Client.Reconnect.{without}
use bbftp.Client.Commands.Tokens.{eq_text}

-- *retcodep of a command that returns 0.
unfoldable pub finish : ℤ → M Bool
finish r = do modify λ s. record s { retcode = r }; pure true

-- The value that sscanf leaves, as an int.
abbrev pub as_int : Option ℕ → Option ℤ
as_int none = none
as_int (some v) = some (to_int v)

unfoldable pub scan : ℤ → Os → Text → Option ℤ
scan base os word = if eqb_ℤ base (pos 8) then as_int (os.scan_octal word) else os.scan_decimal word

-- What sscanf returns.
abbrev pub conversions : Option ℤ → ℤ
conversions none = pos 0
conversions (some v) = pos 1

-- The test of do_set_xxx, on the return of sscanf.
abbrev pub set_xxx_fails : ℤ → ℤ → Bool
set_xxx_fails ret base = not (eqb_ℤ ret (pos 1)) || (not (ltb_ℤ (pos 0) ret) && ltb_ℤ (pos 0) base)

-- The value for *valp, or none for -1.
unfoldable pub do_set_xxx : ℤ → List Text → M (Option ℤ)
do_set_xxx base (cmd ∷ word ∷ rest) = do
  os ← gets (λ s. s.os)
  let val = scan base os word
  if set_xxx_fails (conversions val) base
      then (do
        modify λ s. record s { myexitcode = 26; retcode = minus_one; errcode = 26 }
        pure none)
      else (do modify λ s. record s { retcode = pos 0; errcode = 0 }; pure val)
do_set_xxx base few = fault out_of_bounds

-- do_set_xxx on a global variable: `store` is the assignment.
unfoldable pub set_variable : ℤ → (ℤ → Client → Client) → List Text → M Bool
set_variable base store argv = do
  val ← do_set_xxx base argv
  elim val [ none ↦ pure false | some v ↦ modify (store v) >> pure true ]

unfoldable pub do_setbuffersize : List Text → M Bool
do_setbuffersize = set_variable (pos 10) λ v s. record s { buffersizeperstream = v }

unfoldable pub do_setlocalumask : List Text → M Bool
do_setlocalumask argv = do
  done ← set_variable (pos 8) (λ v s. record s { localumask = v }) argv
  umask ← gets (λ s. s.localumask)
  if done then (record_call (umask_call umask) >> pure true) else pure false

unfoldable pub do_setnbstream : List Text → M Bool
do_setnbstream = set_variable (pos 10) λ v s. record s { nbport = v }

unfoldable pub do_setrecvwinsize : List Text → M Bool
do_setrecvwinsize = set_variable (pos 10) λ v s. record s { recvwinsize = v }

unfoldable pub do_setsendwinsize : List Text → M Bool
do_setsendwinsize = set_variable (pos 10) λ v s. record s { sendwinsize = v }

unfoldable pub do_setackto : List Text → M Bool
do_setackto = set_variable (pos 10) λ v s. record s { ackto = v }

unfoldable pub do_setrecvcontrolto : List Text → M Bool
do_setrecvcontrolto = set_variable (pos 10) λ v s. record s { recvcontrolto = v }

unfoldable pub do_setsendcontrolto : List Text → M Bool
do_setsendcontrolto = set_variable (pos 10) λ v s. record s { sendcontrolto = v }

unfoldable pub do_setdatato : List Text → M Bool
do_setdatato = set_variable (pos 10) λ v s. record s { datato = v }

-- The variable keeps the value for the next connections once the server has accepted it.
unfoldable pub set_remote : ℤ → (ℤ → M ℤ) → (ℤ → Client → Client) → List Text → M Bool
set_remote base request store argv = do
  val ← do_set_xxx base argv
  elim val [
    | none ↦ pure false
    | some v ↦ do
      r ← request v
      finish r
      if eqb_ℤ r bb_ret_ok then (modify (store v) >> pure true) else pure true
  ]

unfoldable pub do_setremotecos : List Text → M Bool
do_setremotecos = set_remote (negsuc 9) bbftp_setremotecos λ v s. record s { remotecos = v }

unfoldable pub do_setremoteumask : List Text → M Bool
do_setremoteumask = set_remote (pos 8) bbftp_setremoteumask λ v s. record s { remoteumask = v }

-- The flag of an option, or 0.
unfoldable pub option_flag : Text → ℕ
option_flag option =
    if eq_text option (text "createdir")
    then tropt_dir
    else if eq_text option (text "tmpfile")
    then tropt_tmp
    else if eq_text option (text "remoterfio")
    then tropt_rfio
    else if eq_text option (text "localrfio")
    then tropt_rfio_o
    else if eq_text option (text "keepmode")
    then tropt_mode
    else if eq_text option (text "keepaccess")
    then tropt_acc
    else if eq_text option (text "gzip")
    then tropt_gzip
    else if eq_text option (text "qbss")
    then tropt_qbss
    else 0

-- The option without a leading "no", and whether there is one.
unfoldable pub split_no : Text → Bool × Text
split_no (a ∷ b ∷ rest) = if (a == b'n') && (b == b'o') then (true, rest) else (false, a ∷ b ∷ rest)
split_no short = (false, short)

-- An option that is not one: errcode is not set.
unfoldable pub incorrect : M Bool
incorrect = do modify λ s. record s { myexitcode = 26; retcode = minus_one }; pure false

unfoldable pub accept_option : (ℕ → ℕ) → M Bool
accept_option change = do
  modify λ s. record s { transferoption = change s.transferoption; errcode = 0; retcode = pos 0 }
  pure true

-- A client without RFIO.
unfoldable pub apply_option : Bool → ℕ → M Bool
apply_option clear flag =
    if flag == 0
    then incorrect
    else if clear
    then accept_option (λ options. without options flag)
    else if flag == tropt_rfio_o
    then incorrect
    else accept_option (λ options. bit_or options flag)

unfoldable pub do_setoption : List Text → M Bool
do_setoption (cmd ∷ word ∷ rest) = apply_option (split_no word).0 (option_flag (split_no word).1)
do_setoption few = fault out_of_bounds
