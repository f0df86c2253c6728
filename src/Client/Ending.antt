-- ===== src/Client/Ending.antt =====
-- The end of a transfer in bbftp_put.c and bbftp_get.c of bbftp-client/bbftpc, from the label waitcontrol
-- on, with bbftp_clean_child of bbftp_utils.c and bbftp_storechmod, bbftp_storerename and
-- bbftp_storeunlink of bbftp_store.c, built without RFIO. `undo` is what an error does to the file: bbftp_get removes it.
-- The answers of the select at waitcontrol are an argument, those of the reads stand in the socket.
pub mod Entries
pub mod Steps
pub mod Waits
pub mod Contract
pub mod Silence
use bbftp.Base.{
  ℕ, ◌+◌, ◌-◌, ◌^◌, ◌||◌, Bool, true, false, ◌&&◌, not, List, [], ◌∷◌, Option, none, some, ℤ, pos,
  negsuc, eqb_ℤ, if◌then◌else◌, ◌==◌, to_size, length, replicate, has,
}
use bbftp.Channel.{SelectAnswer, ready, expired, select_failed, done, failed, blocked, eintr}
use bbftp.Wire.{Message, decode_message}
use bbftp.Wire.Codes.{msg_ok, msg_bad, msg_bad_no_retry, msg_info, tropt_mode, tropt_tmp}
use bbftp.Client.{
  Client, Text, Os, Call, M, kill_call, waitpid_call, unlink_call, chmod_call, rename_call, returns,
  waits, pure, ◌>>=◌, ◌>>◌, ask, modify, gets, fault, signed_overflow, out_of_bounds, null_pointer,
  record_call, set_errcode,
}
use bbftp.Client.Io.{
  receive, malloc, close_control, sigkill, bb_ret_ok, bb_ret_conn_broken, bb_ret_ft_nr,
  bb_ret_error,
}
use bbftp.Client.Io.Discard.{discardmessage}
use bbftp.Client.Listing.{free_all_var}

abbrev pub echild : ℕ
echild = 10

abbrev pub no_pids : List ℤ → List ℤ
no_pids ps = replicate (length ps) (pos 0)

-- The kill of bbftp_clean_child: an entry that is 0 is passed over.
unfoldable pub kill_child : ℤ → List Call → List Call
kill_child p calls = if eqb_ℤ p (pos 0) then calls else kill_call p sigkill ∷ calls

unfoldable pub kill_children : List ℤ → List Call → List Call
kill_children [] calls = calls
kill_children (p ∷ ps) calls = kill_children ps (kill_child p calls)

unfoldable pub clean_child : M (Unit {0})
unfolding kill_children
clean_child s = elim s.mychildren [
  | none ↦ returns tt s
  | some ps ↦
      returns tt (record s { mychildren = some (no_pids ps); calls = kill_children ps s.calls })
]

-- The loop after a malloc that failed: every entry is killed, also one that is 0.
unfoldable pub kill_entries : List ℤ → List Call → List Call
kill_entries [] calls = calls
kill_entries (p ∷ ps) calls = kill_entries ps (kill_call p sigkill ∷ calls)

unfoldable pub kill_every : M (Unit {0})
unfolding kill_entries
kill_every s = elim s.mychildren [
  | none ↦ fault null_pointer s
  | some ps ↦
      returns tt (record s { mychildren = some (no_pids ps); calls = kill_entries ps s.calls })
]

-- What one waitpid with WNOHANG leaves of an entry, and the calls; an entry that is 0 is passed over.
unfoldable pub entry_after : Option ℕ → ℤ → ℤ
entry_after none p = p
entry_after (some e) p = if e == echild then pos 0 else p

unfoldable pub poll_child : Os → ℤ → List Call → ℤ × List Call
poll_child os p calls =
    if eqb_ℤ p (pos 0)
    then (p, calls)
    else (entry_after (os.waitpid calls p) p, waitpid_call p ∷ calls)

-- The entries and the calls after a round of waitpid.
unfoldable pub reap_all : Os → List ℤ → List Call → List ℤ × List Call
reap_all os [] calls = ([], calls)
reap_all os (p ∷ ps) calls =
    let first = poll_child os p calls in
    let rest = reap_all os ps first.1 in (first.0 ∷ rest.0, rest.1)

unfoldable pub all_zero : List ℤ → Bool
all_zero [] = true
all_zero (p ∷ ps) = eqb_ℤ p (pos 0) && all_zero ps

-- The check after the timer: true where there is no child any more.
unfoldable pub check_children : M Bool
unfolding reap_all
check_children s = elim s.mychildren [
  | none ↦ fault null_pointer s
  | some ps ↦
      let r = reap_all s.os ps s.calls in
      returns (all_zero r.0) (record s { mychildren = some r.0; calls = r.1 })
]

-- The way out with the connection broken.
unfoldable pub break_off : M (Unit {0}) → ℕ → M ℤ
break_off undo err = do
  set_errcode err
  clean_child
  undo
  free_all_var
  close_control
  pure bb_ret_conn_broken

unfoldable pub no_more_child : M (Unit {0}) → M ℤ
no_more_child undo = do set_errcode 37; undo; free_all_var; close_control; pure bb_ret_conn_broken

-- `msglen` bytes into a buffer of msglen + 1, with a 0 written at index msglen.
unfoldable pub read_body : ℤ → M ℤ → M ℤ → (Text → M ℤ) → M ℤ
read_body (negsuc n) no_memory lost next = do
  fits ← malloc (if n == 0 then 0 else to_size (negsuc (n - 1)))
  if fits then fault out_of_bounds else no_memory
read_body (pos n) no_memory lost next = if n == 2 ^ 31 - 1 then fault signed_overflow else (do
  fits ← malloc (n + 1)
  if not fits
      then no_memory
      else (do r ← receive (pos n); elim r [ none ↦ lost | some bytes ↦ next bytes ]))

-- MSG_BAD and MSG_BAD_NO_RETRY.
unfoldable pub transfer_failed : M (Unit {0}) → ℕ → ℤ → M ℤ
transfer_failed undo code msglen =
    read_body msglen
      (do set_errcode 35; kill_every; undo; free_all_var; close_control; pure bb_ret_conn_broken)
      (break_off undo 67)
      (λ bytes. do
        clean_child
        undo
        free_all_var
        set_errcode 100
        pure (if code == msg_bad then bb_ret_error else bb_ret_ft_nr))

-- A message of the server, with the part for MSG_OK and the wait for the next message.
unfoldable pub end_message : M (Unit {0}) → (ℤ → M ℤ) → M ℤ → Message → M ℤ
end_message undo finish again msg =
    if (msg.code == msg_bad) || (msg.code == msg_bad_no_retry)
    then transfer_failed undo msg.code msg.msglen
    else if msg.code == msg_ok
    then finish msg.msglen
    else if msg.code == msg_info
    then read_body msg.msglen (break_off undo 35) (break_off undo 67) (λ bytes. again)
    else break_off undo 62

-- waitcontrol; `k` says that the children were all gone once before.
unfoldable pub wait_end : M (Unit {0}) → (ℤ → M ℤ) → Bool → List SelectAnswer → M ℤ
wait_end undo finish k [] = λ s. waits s
wait_end undo finish k (select_failed e ∷ rest) = elim (e == eintr) [
  | true ↦ wait_end undo finish k rest
  | false ↦ break_off undo 66
]
wait_end undo finish k (expired ∷ rest) = check_children >>= λ gone. elim gone [
  | false ↦ wait_end undo finish k rest
  | true ↦ elim k [ false ↦ wait_end undo finish true rest | true ↦ no_more_child undo ]
]
wait_end undo finish k (ready ∷ rest) = receive (pos 8) >>= λ head. elim head [
  | none ↦ break_off undo 61
  | some bytes ↦ end_message undo finish (wait_end undo finish k rest) (decode_message bytes)
]

-- The rest of the MSG_OK, whose result is not looked at.
unfoldable pub discard_rest : ℤ → M (Unit {0})
discard_rest msglen s =
    let r = discardmessage s.insock msglen in
    let t = record s { insock = r.0 } in
    elim r.1 [ done ↦ returns tt t | failed e ↦ returns tt t | blocked ↦ waits t ]

unfoldable pub finish_put : ℤ → M ℤ
finish_put msglen = do discard_rest msglen; clean_child; free_all_var; pure bb_ret_ok

-- bbftp_storeunlink of BBftp_Realfilename.
unfoldable pub unlink_real : M (Unit {0})
unlink_real = do name ← gets (λ s. s.realfilename); record_call (unlink_call name)

-- bbftp_storechmod and bbftp_storerename: true stands for 0.
unfoldable pub storechmod : M Bool
storechmod = do
  name ← gets (λ s. s.realfilename)
  mode ← gets (λ s. s.filemode)
  r ← ask (chmod_call name mode) (λ os calls. os.chmod calls name mode)
  elim r [ some e ↦ set_errcode 85 >> pure false | none ↦ pure true ]

unfoldable pub storerename : M Bool
storerename = do
  real ← gets (λ s. s.realfilename)
  name ← gets (λ s. s.curfilename)
  r ← ask (rename_call real name) (λ os calls. os.rename calls real name)
  elim r [ some e ↦ set_errcode 81 >> pure false | none ↦ pure true ]

unfoldable pub give_up_file : M ℤ
give_up_file = do unlink_real; clean_child; free_all_var; pure bb_ret_error

-- A step of the end of bbftp_get that one of the options asks for.
unfoldable pub optional : ℕ → M Bool → M ℤ → M ℤ
optional option step next = do
  options ← gets (λ s. s.transferoption)
  if has options option then (step >>= λ ok. if ok then next else give_up_file) else next

-- In simulation mode the file is deleted.
unfoldable pub drop_simulated : M (Unit {0})
drop_simulated = do
  simulation ← gets (λ s. s.simulation_mode)
  name ← gets (λ s. s.curfilename)
  if simulation then record_call (unlink_call name) else pure tt

unfoldable pub finish_get : ℤ → M ℤ
finish_get msglen =
    optional tropt_mode storechmod
      (optional tropt_tmp storerename (drop_simulated >> finish_put msglen))

-- The end of bbftp_put and that of bbftp_get.
unfoldable pub end_put : List SelectAnswer → M ℤ
end_put ticks = wait_end (pure tt) finish_put false ticks

unfoldable pub end_get : List SelectAnswer → M ℤ
end_get ticks = wait_end unlink_real finish_get false ticks
