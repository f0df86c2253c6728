-- ===== src/Client/Listing.antt =====
-- bbftp_list.c and bbftp_dir.c of bbftp-client/bbftpc: the names of the files of a remote directory.
pub mod Lines
pub mod Lost
use bbftp.Base.{
  ℕ, zero, suc, ◌+◌, ◌-◌, Bool, true, false, not, List, [], ◌∷◌, ◌++◌, Option, none, some, ℤ, pos,
  negsuc, eqb_ℤ, if◌then◌else◌, ◌==◌, length, text, pos_part,
}
use bbftp.Wire.{encode_len, le32}
use bbftp.Wire.Codes.{msg_list_v2, msg_list_repl_v2}
use bbftp.Client.{
  Client, Text, M, Filelist, null, dangling, filled, stdout_call, pure, ◌>>=◌, ◌>>◌, modify, gets,
  fault, double_free, out_of_bounds, record_call,
}
use bbftp.Client.Io.{
  send, send_all, abandon, receive, read_text, malloc, bb_ret_ok, bb_ret_conn_broken,
}
use bbftp.Client.Requests.{await_answer, statistics}

unfoldable pub set_filelist : Filelist → M (Unit {0})
set_filelist list = modify λ s. record s { filelist = list }

-- What bbftp_free_all_var frees of the variables that are modelled.
unfoldable pub free_all_var : M (Unit {0})
free_all_var =
    modify
      λ s. record s { myports = none; mychildren = none; realfilename = none; curfilename = none }

-- MSG_LIST_REPL_V2: a failed read frees the buffer and leaves the pointer.
unfoldable pub read_filelist : ℤ → M ℤ
read_filelist msglen =
    if eqb_ℤ msglen (pos 0)
    then pure bb_ret_ok
    else read_text msglen (set_filelist dangling >> pure bb_ret_conn_broken)
        (λ bytes. set_filelist (filled bytes) >> pure bb_ret_ok)

unfoldable pub bbftp_list : Text → M ℤ
bbftp_list line = do
  head ← send (encode_len msg_list_v2 (pos (length line + 4)))
  if not head then (free_all_var >> abandon 64 bb_ret_conn_broken) else (do
    options ← gets (λ s. s.transferoption)
    rest ← send_all (le32 options ∷ line ∷ [])
    if rest then await_answer msg_list_repl_v2 read_filelist else abandon 64 bb_ret_conn_broken)

-- strlen and what follows the 0, or none where the buffer ends without one.
unfoldable pub next_string : List ℕ → Option (Text × List ℕ)
next_string [] = none
next_string (b ∷ bs) =
    if b == 0
    then some ([], bs)
    else elim (next_string bs) [ none ↦ none | some (t, rest) ↦ some (b ∷ t, rest) ]

-- The loop of bbftp_dir over the buffer from tmpfile on, with filelistlen bytes left.
unfoldable pub dir_lines : ℕ → ℕ → List ℕ → M (Unit {0})
dir_lines fuel zero buffer = pure tt
dir_lines zero (suc left) buffer = pure tt
dir_lines (suc fuel) (suc left) buffer = elim (next_string buffer) [
  | none ↦ fault out_of_bounds
  | some (name, more) ↦ elim (next_string more) [
    | none ↦ fault out_of_bounds
    | some (kind, rest) ↦ do
      statistics (kind ++ (text " " ++ (name ++ text "\n")))
      dir_lines fuel (suc left - length name - 1 - length kind - 1) rest
  ]
]

unfoldable pub show_filelist : Filelist → M (Unit {0})
show_filelist null = pure tt
show_filelist dangling = pure tt
show_filelist (filled bytes) = dir_lines (length bytes) (length bytes) (bytes ++ (0 ∷ []))

-- free_and_return
unfoldable pub free_filelist : ℤ → Filelist → M ℤ
free_filelist retcode null = pure retcode
free_filelist retcode dangling = fault double_free
free_filelist retcode (filled bytes) = pure retcode

-- The directory is listed with "/*" behind its name. Without memory for that name there is no errcode.
unfoldable pub bbftp_dir : Text → M ℤ
bbftp_dir remotefile = do
  set_filelist null
  fits ← malloc (length remotefile + 3)
  if not fits then pure bb_ret_conn_broken else (do
    retcode ← bbftp_list (remotefile ++ text "/*")
    list ← gets (λ s. s.filelist)
    if eqb_ℤ retcode bb_ret_ok
        then (do
          statistics (text "dir " ++ (remotefile ++ text "\n"))
          show_filelist list
          free_filelist retcode list)
        else free_filelist retcode list)
