-- ===== src/Server/Signals.antt =====
-- bbftp-server/bbftpd/bbftpd_signals.c: what the server does when one of its children has ended. The
-- log is left out, and with it the rates that are computed for it.
pub mod Session
pub mod Late
pub mod Interleaved
mod Tests
use bbftp.Base.{
  ℕ, zero, suc, ◌+◌, ◌*◌, ◌/◌, ◌%◌, ◌^◌, ◌==◌, Bool, true, false, ◌&&◌, ◌||◌, not, List, [], ◌∷◌,
  ◌++◌, Option, none, some, ℤ, pos, minus_one, eqb_ℤ, of_int, if◌then◌else◌, text, get_or, set,
}
use bbftp.Wire.Codes.{msg_ok, msg_bad, msg_bad_no_retry}
use bbftp.Server.{
  Server, M, Text, Block, logged, waitpid_call, unlink_call, pure, ◌>>=◌, ◌>>◌, ask, modify, gets,
  fault, null_pointer, set_state, exits,
}
use bbftp.Server.Io.{reply, clean_child, free_all_var, items_of}
use bbftp.Server.Files.{storeunlink, store_process_transfer}

-- The error that stands for a signal.
abbrev pub enoexec : ℕ
enoexec = 8

-- WEXITSTATUS and WIFSIGNALED of Linux, on the status that waitpid gives.
abbrev pub wexitstatus : ℕ → ℕ
wexitstatus status = status / 2 ^ 8 % 2 ^ 8

abbrev pub wifsignaled : ℕ → Bool
wifsignaled status = not (status % 2 ^ 7 == 0) && not (status % 2 ^ 7 == 127)

unfoldable pub checkendchild : ℕ → ℕ
checkendchild status =
    if wexitstatus status == 0
    then (if wifsignaled status then enoexec else 0)
    else wexitstatus status

-- totpid: the sum of the first `n` entries, as a pattern of 32 bits.
unfoldable pub totpid : ℕ → List ℤ → ℕ
totpid zero pids = 0
totpid (suc n) [] = 0
totpid (suc n) (p ∷ ps) = (of_int p + totpid n ps) % 2 ^ 32

-- The answer to a child that has failed.
unfoldable pub tell_failure : ℕ → M (Unit {0})
tell_failure retcode =
    if retcode == 255
    then reply msg_bad_no_retry (text "Disk quota excedeed or No Space left on device")
    else if retcode == enoexec
    then reply msg_bad (text "Interrupted by signal")
    else (do os ← gets (λ s. s.os); reply msg_bad (text "Error on server: " ++ os.strerror retcode))

-- Only the first failure of a transfer is told.
unfoldable pub child_ended : ℕ → M (Unit {0})
child_ended retcode = do
  failed ← gets (λ s. s.childendinerror)
  if (retcode == 0) || failed then pure tt else (do
    modify λ s. record s { childendinerror = true }
    unlinkfile ← gets (λ s. s.unlinkfile)
    realfilename ← gets (λ s. s.realfilename)
    if (unlinkfile == 1) || (unlinkfile == 2) then storeunlink realfilename else pure (pos 0)
    tell_failure retcode)

-- The array of the children with the entry `i` at 0.
unfoldable pub forget_child : ℕ → Option Block → Option Block
forget_child i none = none
forget_child i (some b) = some (record b { items = set b.items i (pos 0) })

unfoldable pub reap_child : ℕ → ℤ → M (Unit {0})
reap_child i pid = if eqb_ℤ pid (pos 0) then pure tt else (do
  ended ← ask (waitpid_call pid) (λ os calls. os.waitpid calls pid)
  elim ended [
    | none ↦ pure tt
    | some status ↦ do
      child_ended (checkendchild status)
      modify λ s. record s { mychildren = forget_child i s.mychildren }
  ])

-- The loop over the children, from the entry `i` on with `left` to go.
unfoldable pub reap : ℕ → ℕ → M (Unit {0})
reap zero i = pure tt
reap (suc left) i =
    let rest = reap left (suc i) in
    (gets λ s. get_or (items_of s.mychildren) i (pos 0)) >>= reap_child i >>= λ _. rest

-- The end of a store without a failure; both names are there. bbftpd_storeclosecastfile has nothing to
-- do without CASTOR.
unfoldable pub store_done : Option Text → Option Text → M (Unit {0})
store_done none cfile = fault null_pointer
store_done (some rfile) none = fault null_pointer
store_done (some rfile) (some cfile) = do
  processed ← store_process_transfer rfile cfile true
  set_state logged
  if eqb_ℤ processed minus_one then pure tt else reply msg_ok (text "OK")
  unlinkfile ← gets (λ s. s.unlinkfile)
  if unlinkfile == 4 then storeunlink (some cfile) else pure (pos 0)
  free_all_var

unfoldable pub transfer_done : M (Unit {0})
transfer_done = do
  unlinkfile ← gets (λ s. s.unlinkfile)
  if (unlinkfile == 1) || ((unlinkfile == 2) || (unlinkfile == 4))
      then (do
        rfile ← gets (λ s. s.realfilename)
        cfile ← gets (λ s. s.curfilename)
        store_done rfile cfile)
      else (do set_state logged; reply msg_ok (text "OK"); free_all_var)

-- The last step, once no child is left.
unfoldable pub reset_transfer : M (Unit {0})
reset_transfer = do
  modify λ s. record s { state = logged; unlinkfile = 0; killdone = false; childendinerror = false }
  free_all_var

unfoldable pub settle_children : M (Unit {0})
settle_children = do
  n ← gets (λ s. s.nbpidchild)
  pids ← gets (λ s. items_of s.mychildren)
  failed ← gets (λ s. s.childendinerror)
  if (totpid n pids == 0) && not failed then transfer_done else pure tt
  if failed then clean_child else pure tt
  if totpid n pids == 0 then reset_transfer else pure tt

unfoldable pub sigchld : M (Unit {0})
sigchld = do
  n ← gets (λ s. s.nbpidchild)
  pids ← gets (λ s. items_of s.mychildren)
  if totpid n pids == 0 then free_all_var else (do reap n 0; settle_children)

unfoldable pub unlink_partial : Option Text → M (Unit {0})
unlink_partial none = pure tt
unlink_partial (some path) =
    ask (unlink_call path) (λ os calls. os.unlink calls path) >>= λ _. pure tt

-- In the father. In a child the handler exits with EINTR.
unfoldable pub sigterm : M (Unit {0})
sigterm = do
  unlinkfile ← gets (λ s. s.unlinkfile)
  realfilename ← gets (λ s. s.realfilename)
  if unlinkfile == 1 then unlink_partial realfilename else pure tt
  clean_child
  λ s. exits 0 s
