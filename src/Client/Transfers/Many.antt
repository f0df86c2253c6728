-- ===== src/Client/Transfers/Many.antt =====
-- bbftp_mget.c and bbftp_mput.c of bbftp-client/bbftpc: the transfer of every file of a list, each with
-- its own tries.
pub mod Entries
use bbftp.Base.{
  ℕ, zero, suc, ◌+◌, ◌-◌, ◌==◌, Bool, true, false, ◌&&◌, ◌||◌, not, List, [], ◌∷◌, ◌++◌, Option,
  none, some, ℤ, pos, negsuc, length, take, drop, if◌then◌else◌, text, decimal, snprintf, has, ltb,
  leb, ltb_ℤ, eqb_ℤ,
}
use bbftp.Wire.Codes.{tropt_tmp}
use bbftp.Client.{
  Client, Text, Os, M, Filelist, null, dangling, filled, result_call, sleep_call, pure, ◌>>=◌, ◌>>◌,
  modify, gets, fault, out_of_bounds, record_call, set_errcode,
}
use bbftp.Client.Io.{malloc, bb_ret_ok, bb_ret_conn_broken, bb_ret_ft_nr, bb_ret_error}
use bbftp.Client.Listing.{bbftp_list, set_filelist, next_string}
use bbftp.Client.Reconnect.{reconnecttoserver}
use bbftp.Client.Transfers.{Transfers, mend_connection}
use bbftp.Client.Commands.Tokens.{eq_text}

-- The character at an index, or 0 behind the end.
unfoldable pub char_at : Text → ℕ → ℕ
char_at [] n = 0
char_at (c ∷ cs) zero = c
char_at (c ∷ cs) (suc n) = char_at cs n

-- The loop that finds the last slash, with slash = file + n, and the step over it.
unfoldable pub slash_at : Text → ℕ → Text
slash_at file zero = if char_at file 0 == b'/' then drop 1 file else file
slash_at file (suc n) =
    if char_at file (suc n) == b'/' then drop (suc (suc n)) file else slash_at file n

unfoldable pub last_part : Text → Text
last_part file = slash_at file (length file)

-- What follows a try: the end with its retcode, the connection marked as broken or not, or another
-- try, on a new connection or not.
pub data Verdict : Type 0 where
  finished broken_for_good again again_reconnected : Verdict

-- `left` tries are left.
unfoldable pub verdict : ℕ → ℤ → Verdict
verdict left (pos zero) = finished
verdict left (pos (suc n)) = again
verdict zero (negsuc zero) = broken_for_good
verdict (suc left) (negsuc zero) = again_reconnected
verdict left (negsuc (suc zero)) = broken_for_good
verdict left (negsuc (suc (suc zero))) = finished
verdict left (negsuc (suc (suc (suc n)))) = again

-- The line of the result file, and the exit code after a failure.
unfoldable pub report_file : Text → Text → ℤ → M (Unit {0})
report_file verb names r =
    if eqb_ℤ r bb_ret_ok
    then record_call (result_call (snprintf 1024 (verb ++ (names ++ text " OK\n"))))
    else ((modify λ s. record s { myexitcode = s.errcode })
        >> record_call (result_call (snprintf 1024 (verb ++ (names ++ text " FAILED\n")))))

-- The loop over a list of files in a buffer, on fuel: each file takes two bytes at least. Links that
-- lead nowhere and directories are passed over. The whole command ends with BB_RET_ERROR where
-- `transfer` gives none.
unfoldable pub each_file : (Text → ℤ → M (Option ℤ)) → ℕ → ℕ → List ℕ → ℤ → M ℤ
each_file transfer steps zero buffer retcode = pure bb_ret_ok
each_file transfer zero (suc left) buffer retcode = pure bb_ret_ok
each_file transfer (suc steps) (suc left) buffer retcode = elim (next_string buffer) [
  | none ↦ fault out_of_bounds
  | some (name, more) ↦ elim (next_string more) [
    | none ↦ fault out_of_bounds
    | some (kind, rest) ↦
        let next = each_file transfer steps (suc left - length name - 1 - length kind - 1) rest in
        if ltb (length more) 2
        then fault out_of_bounds
        else if (char_at more 1 == b'u') || (char_at more 1 == b'd')
        then next retcode
        else (transfer name retcode >>= λ sent. elim sent [
          | none ↦ pure bb_ret_error
          | some r ↦ next r
        ])
  ]
]

-- A failed allocation.
unfoldable pub without_memory : M Bool
without_memory = set_errcode 35 >> pure false

-- The host name in the buffer of eleven bytes, and the suffix of a temporary name.
abbrev pub short_host : Option Text → Text
short_host none = []
short_host (some name) = take 10 name

unfoldable pub mget_suffix : Os → Text
mget_suffix os = text ".bbftp.tmp." ++ (short_host os.hostname ++ (text "." ++ decimal os.pid))

-- sprintf of the real name, into `size` bytes.
unfoldable pub name_file : ℕ → Text → M Bool
name_file size file = do
  options ← gets (λ s. s.transferoption)
  os ← gets (λ s. s.os)
  let real = if has options tropt_tmp then file ++ mget_suffix os else file
  if leb size (length real) then fault out_of_bounds else (do
    modify λ s. record s { curfilename = some file; realfilename = some real }
    pure true)

-- A malloc of a name that failed has set the variable to NULL.
unfoldable pub no_names : (Client → Client) → M Bool
no_names lose = modify lose >> without_memory

unfoldable pub mget_names : Text → Text → M Bool
mget_names localdir slash = do
  one ← malloc (length localdir + length slash + 2)
  if not one then no_names (λ s. record s { curfilename = none }) else (do
    two ← malloc (length localdir + length slash + 30)
    if two
        then name_file (length localdir + length slash + 30) (localdir ++ (text "/" ++ slash))
        else no_names (λ s. record s { curfilename = none; realfilename = none }))

unfoldable pub mput_names : Text → Text → Text → M Bool
mput_names lremotedir slash name = do
  remote ← malloc (length lremotedir + length slash + 2)
  if not remote then without_memory else (do
    one ← malloc (length name + 1)
    if not one then no_names (λ s. record s { curfilename = none }) else (do
      two ← malloc (length name + 1)
      if two
          then ((modify λ s. record s { curfilename = some name; realfilename = some name })
              >> pure true)
          else no_names (λ s. record s { curfilename = none; realfilename = none })))

module _ (world : Transfers) (fuel : ℕ) where
  -- The loop over nbtry. `prepare` makes the names, or fails; the retcode of a loop without a try is
  -- the one before it.
  unfoldable pub try_file : ℕ → M Bool → M ℤ → ℤ → M (Option ℤ)
  try_file zero prepare transfer retcode = pure (some retcode)
  try_file (suc left) prepare transfer retcode =
      let rest = try_file left prepare transfer in
      prepare >>= λ prepared.
      if not prepared
      then pure none
      else (mend_connection world fuel >>= λ _. transfer >>= λ r. elim (verdict left r) [
        | finished ↦ pure (some r)
        | broken_for_good ↦ (modify λ s. record s { connectionisbroken = true }) >> pure (some r)
        | again ↦ if left == 0 then pure (some r) else (record_call (sleep_call 30) >> rest r)
        | again_reconnected ↦
            record_call (sleep_call 30) >> (reconnecttoserver world.do_connect fuel >> rest r)
      ])

  unfoldable pub transfer_file : Text → Text → M Bool → M ℤ → ℤ → M (Option ℤ)
  transfer_file verb names prepare transfer retcode = do
    tries ← gets (λ s. s.globaltrymax)
    r ← try_file tries prepare transfer retcode
    elim r [ none ↦ pure none | some v ↦ report_file verb names v >> pure (some v) ]

  unfoldable pub mget_file : Text → Text → ℤ → M (Option ℤ)
  mget_file localdir name =
      let slash = last_part name in
      transfer_file (text "get ") (name ++ (text " " ++ (localdir ++ (text "/" ++ slash))))
        (mget_names localdir slash)
        (do r ← world.bbftp_get name; modify λ s. record s { state = pos 0 }; pure r)

  unfoldable pub mget_list : Text → Filelist → M ℤ
  mget_list localdir null = pure bb_ret_ok
  mget_list localdir dangling = pure bb_ret_ok
  mget_list localdir (filled bytes) =
      each_file (mget_file localdir) (length bytes) (length bytes) (bytes ++ (0 ∷ [])) bb_ret_ok

  unfoldable pub mget_from : Text → Text → M ℤ
  mget_from remotefile localdir = do
    set_filelist null
    r ← bbftp_list remotefile
    list ← gets (λ s. s.filelist)
    if eqb_ℤ r bb_ret_ok then mget_list localdir list else pure r

  unfoldable pub bbftp_mget : Text → Text → M ℤ
  bbftp_mget remotefile localdir =
      if eq_text localdir (text "./") then mget_from remotefile localdir else (do
        r ← world.bbftp_retrcheckdir localdir
        if ltb_ℤ r (pos 0)
            then pure bb_ret_ft_nr
            else if ltb_ℤ (pos 0) r
            then pure bb_ret_error
            else mget_from remotefile localdir)

  unfoldable pub mput_file : Text → Text → ℤ → M (Option ℤ)
  mput_file lremotedir name =
      let slash = last_part name in
      transfer_file (text "put ") (name ++ (text " " ++ (lremotedir ++ (text "/" ++ slash))))
        (mput_names lremotedir slash name) (world.bbftp_put (lremotedir ++ (text "/" ++ slash)))

  unfoldable pub bbftp_mput : Text → Text → M ℤ
  bbftp_mput localfile lremotedir = do
    (r, bytes) ← world.bbftp_retrlistdir localfile
    if ltb_ℤ r (pos 0)
        then pure bb_ret_ft_nr
        else each_file (mput_file lremotedir) (length bytes) (length bytes) (bytes ++ (0 ∷ [])) r
