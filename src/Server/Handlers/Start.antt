-- ===== src/Server/Handlers/Start.antt =====
-- MSG_TRANS_START and its kin: the transfer itself.
use bbftp.Base.{
  Bool, true, false, Option, none, some, not, ℤ, pos, minus_one, ltb_ℤ, eqb_ℤ, to_size, ◌==◌,
  if◌then◌else◌, text,
}
use bbftp.Wire.{Message}
use bbftp.Wire.Codes.{msg_bad}
use bbftp.Server.{M, Text, logged, pure, ◌>>=◌, ◌>>◌, modify, gets, fault, null_pointer, set_state}
use bbftp.Server.Io.{reply, free_all_var, msgread_int32_array}
use bbftp.Server.Files.{Result, storeunlink}
use bbftp.Server.Transfer.{storetransferfile, retrtransferfile, when, stream_bytes}

-- if (is_store) bbftpd_storeunlink (realfilename); free_all_var ();
unfoldable pub abandon : Bool → M (Unit {0})
abandon is_store = do
  name ← gets (λ s. s.realfilename)
  when is_store (storeunlink name >> pure tt)
  free_all_var

-- The ports of the client, in active mode: false where the read fails.
unfoldable pub read_ports : M Bool
read_ports = do
  n ← gets (λ s. s.requestedstreamnumber)
  ports ← gets (λ s. s.myports)
  r ← msgread_int32_array n
  elim r [
    | none ↦ pure false
    | some items ↦ elim ports [
      | none ↦ fault null_pointer
      | some b ↦ do modify λ s. record s { myports = some (record b { items = items }) }; pure true
    ]
  ]

-- The file that a direction works on; a transfer with no name has lost its variables.
abbrev pub with_name : Option Text → (Text → M Result) → M Result
with_name none f = fault null_pointer
with_name (some name) f = f name

unfoldable pub run_transfer : Bool → Bool → M Result
run_transfer is_store simulate = do
  real ← gets (λ s. s.realfilename)
  cur ← gets (λ s. s.curfilename)
  if is_store
      then with_name real (λ name. storetransferfile name simulate)
      else with_name cur (λ name. retrtransferfile name simulate)

unfoldable pub do_msg_trans_start : Message → Bool → Bool → Bool → M ℤ
do_msg_trans_start msg simulate is_store is_active = do
  size ← gets stream_bytes
  if not (to_size msg.msglen == size)
      then (do
        abandon is_store
        reply msg_bad (text "Inconsistency between MSG_TRANS_START* and message length")
        pure minus_one)
      else (do
        ports ← if is_active then read_ports else pure true
        if not ports then (abandon is_store >> pure minus_one) else (do
          r ← run_transfer is_store simulate
          if eqb_ℤ r.0 (pos 0) then pure (pos 0) else (do
            abandon is_store
            set_state logged
            pure (if ltb_ℤ (pos 0) r.0 then pos 0 else minus_one))))
