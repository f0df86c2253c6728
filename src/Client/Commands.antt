-- ===== src/Client/Commands.antt =====
-- bbftp-client/bbftpc/bbftp_cmds.c: the table of the commands, and treatcommand, which tries one of
-- them again and again.
pub mod Tokens
pub mod Names
pub mod Settings
pub mod Words
pub mod Basename
pub mod Tries
use bbftp.Base.{
  ℕ, zero, suc, ◌-◌, Bool, true, false, ◌||◌, not, List, [], ◌∷◌, Option, none, some, ℤ, pos,
  negsuc, eqb_ℤ, if◌then◌else◌, ◌==◌, ltb, length, text, c_string,
}
use bbftp.Client.{
  Client, Text, M, sleep_call, pure, ◌>>=◌, ◌>>◌, modify, gets, fault, out_of_bounds, record_call,
}
use bbftp.Client.Io.{bb_ret_ok, bb_ret_conn_broken, bb_ret_ft_nr_conn_broken, bb_ret_ft_nr}
use bbftp.Client.Requests.{bbftp_cd, bbftp_mkdir, bbftp_rm, bbftp_stat, bbftp_statfs, bbftp_lcd}
use bbftp.Client.Listing.{bbftp_dir}
use bbftp.Client.Transfers.{Transfers, mend_connection}
use bbftp.Client.Commands.Tokens.{skip_whitepace, tokenize, eq_text}
use bbftp.Client.Commands.Names.{do_get, do_put, do_mget, do_mput}
use bbftp.Client.Commands.Settings.{
  finish, do_setbuffersize, do_setlocalumask, do_setnbstream, do_setremotecos, do_setremoteumask,
  do_setrecvwinsize, do_setsendwinsize, do_setackto, do_setrecvcontrolto, do_setsendcontrolto,
  do_setdatato, do_setoption,
}

-- A command that hands argv[1] to a request: do_cd and its likes.
unfoldable pub do_one : (Text → M ℤ) → List Text → M Bool
do_one request (cmd ∷ name ∷ rest) = request name >>= finish
do_one request few = fault out_of_bounds

-- Cmd_Type
pub record Command : Type 0 where
  pub cmd : Text
  pub min_num_args : ℕ
  pub max_num_args : ℕ
  pub func : List Text → M Bool

abbrev pub command : Text → ℕ → ℕ → (List Text → M Bool) → Command
command cmd min_num_args max_num_args func = record {
  cmd = cmd;
  min_num_args = min_num_args;
  max_num_args = max_num_args;
  func = func;
}

-- find_cmd, over the rest of the table.
unfoldable pub find_cmd : Text → List Command → Option Command
find_cmd cmd [] = none
find_cmd cmd (c ∷ rest) = if eq_text cmd c.cmd then some c else find_cmd cmd rest

-- What treatcommand does after one call of the command, by its retcode: whether it may try again.
unfoldable pub after_try : ℤ → M Bool
after_try (pos zero) = pure false
after_try (pos (suc n)) = pure true
after_try (negsuc zero) = modify (λ s. record s { connectionisbroken = true }) >> pure true
after_try (negsuc (suc zero)) = modify (λ s. record s { connectionisbroken = true }) >> pure false
after_try (negsuc (suc (suc zero))) = pure false
after_try (negsuc (suc (suc (suc n)))) = pure true

module _ (world : Transfers) (fuel : ℕ) where
  -- Cmd_Table of a client without RFIO.
  unfoldable pub cmd_table : List Command
  cmd_table =
      command (text "cd") 1 1 (do_one bbftp_cd)
      ∷ command (text "dir") 1 1 (do_one bbftp_dir)
      ∷ command (text "get") 1 2 (do_get world)
      ∷ command (text "lcd") 1 1 (do_one bbftp_lcd)
      ∷ command (text "mget") 1 2 (do_mget world fuel)
      ∷ command (text "mkdir") 1 1 (do_one bbftp_mkdir)
      ∷ command (text "put") 1 2 (do_put world)
      ∷ command (text "stat") 1 1 (do_one bbftp_stat)
      ∷ command (text "rm") 1 1 (do_one bbftp_rm)
      ∷ command (text "mput") 1 2 (do_mput world fuel)
      ∷ command (text "df") 1 1 (do_one bbftp_statfs)
      ∷ command (text "setbuffersize") 1 1 do_setbuffersize
      ∷ command (text "setlocalumask") 1 1 do_setlocalumask
      ∷ command (text "setnbstream") 1 1 do_setnbstream
      ∷ command (text "setoption") 1 1 do_setoption
      ∷ command (text "setremotecos") 1 1 do_setremotecos
      ∷ command (text "setremoteumask") 1 1 do_setremoteumask
      ∷ command (text "setrecvwinsize") 1 1 do_setrecvwinsize
      ∷ command (text "setsendwinsize") 1 1 do_setsendwinsize
      ∷ command (text "setrecvcontrolto") 1 1 do_setrecvcontrolto
      ∷ command (text "setsendcontrolto") 1 1 do_setsendcontrolto
      ∷ command (text "setackto") 1 1 do_setackto
      ∷ command (text "setdatato") 1 1 do_setdatato
      ∷ []

  -- The loop over num_tries. A command that returns -1 ends it.
  unfoldable pub try_command : ℕ → M Bool → M (Unit {0})
  try_command zero func = pure tt
  try_command (suc num_tries) func =
      let rest = try_command num_tries func in
      mend_connection world fuel >>= λ _. func >>= λ called.
      if not called
      then pure tt
      else ((gets λ s. s.retcode) >>= after_try >>= λ again.
          if not again
          then pure tt
          else if num_tries == 0
          then pure tt
          else (record_call (sleep_call 30) >> rest))

  -- The result of treatcommand, from its retcode and errcode: true for 0.
  unfoldable pub conclude : M Bool
  conclude = do
    retcode ← gets (λ s. s.retcode)
    if eqb_ℤ retcode (pos 0)
        then pure true
        else ((modify λ s. record s { myexitcode = s.errcode }) >> pure false)

  unfoldable pub run_command : Command → List Text → M Bool
  run_command c argv =
      if ltb (length argv - 1) c.min_num_args || ltb c.max_num_args (length argv - 1)
      then ((modify λ s. record s { myexitcode = 26 }) >> pure false)
      else (do tries ← gets (λ s. s.globaltrymax); try_command tries (c.func argv); conclude)

  unfoldable pub dispatch : List Text → M Bool
  dispatch [] = fault out_of_bounds
  dispatch (name ∷ args) = elim (find_cmd name cmd_table) [
    | none ↦ pure false
    | some c ↦ run_command c (name ∷ args)
  ]

  unfoldable pub treat_line : Text → M Bool
  treat_line [] = pure true
  treat_line (c ∷ cs) = if (c == b'!') || (c == b'#') then pure true else (do
    argv ← tokenize (c ∷ cs)
    elim argv [ none ↦ pure false | some words ↦ dispatch words ])

  -- errcode and retcode begin at 0.
  unfoldable pub treatcommand : Text → M Bool
  treatcommand cmdstr = do
    modify λ s. record s { errcode = 0; retcode = pos 0 }
    treat_line (skip_whitepace (c_string cmdstr))
