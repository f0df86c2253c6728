-- ===== src/Server/Protocol/Logged.antt =====
-- The messages of S_LOGGED keep the state, or begin a transfer.
use bbftp.Base.{
  pos, ltb_ℤ, if◌then◌else◌, text, ◌++◌, sym, ◌∙◌, has, drop, c_string, ℕ, ◌≡◌, refl, ap, arith, ℤ,
  Bool, true, false, ◌⊎◌, inl, minus_one,
}
use bbftp.Wire.{Message, of_le32}
use bbftp.Wire.Codes.{tropt_dir, msg_ok, msg_bad, msg_bad_no_retry}
use bbftp.Server.{
  Server, State, Text, pure, ◌>>◌, fault, double_free, waiting_filename_store,
  waiting_filename_retr,
}
use bbftp.Server.Io.{
  send, receive, reply, msg_reply, die, read_int, read_string, StringRead, bad_length, no_memory,
  string, msgread_int32, malloc,
}
use bbftp.Server.Files.{storeunlink}
use bbftp.Server.Files.Create.{storemkdir}
use bbftp.Server.Frames.{
  Ends, Ends-bind, Ends-mono, Same, read_string-Same, reply-Same, msg_reply-Same,
}
use bbftp.Server.Frames.Files.{storemkdir-Same}
use bbftp.Server.Handlers.Simple.{
  mess_dir, make_directory, mkdir_named, report, read_msg_store_v2, do_msg_chcos, do_msg_cd,
  do_msg_chumask, do_msg_close_conn, do_msg_list_v2, do_msg_mkdir, do_msg_rm, do_msg_stat,
  do_msg_statfs, do_msg_retr_v2, do_msg_store_v2, do_invalid_msg_for_state,
}

-- The variables of a transfer are as they were.
abbrev pub Holds : Server → Server → Type 0
Holds s t = t ≡ record t {
  curfilename = s.curfilename;
  realfilename = s.realfilename;
  myports = s.myports;
  mysockets = s.mysockets;
  mychildren = s.mychildren;
  readbuffer = s.readbuffer;
  compbuffer = s.compbuffer;
  nbpidchild = s.nbpidchild;
}

-- The connection ends, or the next state is this one and the variables of a transfer are as before.
abbrev pub Leads : State → Server → ℤ → Server → Type 0
Leads x s status t = (status ≡ minus_one) ⊎ ((t.state ≡ x) × Holds s t)

pub chcos-Leads : (m : Message) (s : Server) → Ends (do_msg_chcos m s) (Leads s.state s)
unfolding do_msg_chcos reply send die read_int msgread_int32 receive
chcos-Leads m s = ground arith

pub chumask-Leads : (m : Message) (s : Server) → Ends (do_msg_chumask m s) (Leads s.state s)
unfolding do_msg_chumask reply send die read_int msgread_int32 receive
chumask-Leads m s = ground arith

pub close_conn-Leads : (m : Message) (s : Server) → Ends (do_msg_close_conn m s) (Leads s.state s)
unfolding do_msg_close_conn
close_conn-Leads m s = inl refl

pub list_v2-Leads : (m : Message) (s : Server) → Ends (do_msg_list_v2 m s) (Leads s.state s)
unfolding do_msg_list_v2 reply send die read_string malloc receive mess_dir report
list_v2-Leads m s = ground arith

pub stat-Leads : (m : Message) (s : Server) → Ends (do_msg_stat m s) (Leads s.state s)
unfolding do_msg_stat reply send die read_string malloc receive report
stat-Leads m s = ground arith

pub statfs-Leads : (m : Message) (s : Server) → Ends (do_msg_statfs m s) (Leads s.state s)
unfolding do_msg_statfs reply send die read_string malloc receive report
statfs-Leads m s = ground arith

pub rm-Leads : (m : Message) (s : Server) → Ends (do_msg_rm m s) (Leads s.state s)
unfolding do_msg_rm msg_reply reply send die read_string malloc receive mess_dir storeunlink
rm-Leads m s = ground arith

pub cd-Leads : (m : Message) (s : Server) → Ends (do_msg_cd m s) (Leads s.state s)
unfolding do_msg_cd msg_reply reply send die read_string malloc receive mess_dir
cd-Leads m s = ground arith

pub retr_v2-Leads :
    (m : Message) (s : Server) → Ends (do_msg_retr_v2 m s) (Leads waiting_filename_retr s)
unfolding do_msg_retr_v2 reply send die receive read_msg_store_v2
retr_v2-Leads m s = ground arith

pub store_v2-Leads :
    (m : Message) (s : Server) → Ends (do_msg_store_v2 m s) (Leads waiting_filename_store s)
unfolding do_msg_store_v2 reply send die receive read_msg_store_v2
store_v2-Leads m s = ground arith

pub invalid-Leads : (x : State) (s : Server) → Ends (do_invalid_msg_for_state s) (Leads x s)
unfolding do_invalid_msg_for_state reply send die
invalid-Leads x s = ground arith

pub Same-state : (s t : Server) → Same s t → t.state ≡ s.state
Same-state s t p = ap (λ (u : Server). u.state) p

pub Same-Holds : (s t : Server) → Same s t → Holds s t
Same-Holds s t p =
    p
    ∙ sym (
        ap
          (λ (u : Server). record u {
            curfilename = s.curfilename;
            realfilename = s.realfilename;
            myports = s.myports;
            mysockets = s.mysockets;
            mychildren = s.mychildren;
            readbuffer = s.readbuffer;
            compbuffer = s.compbuffer;
            nbpidchild = s.nbpidchild;
          })
          p)

make_directory-Leads :
    (dir : Text) (options : ℕ) (s : Server) → Ends (make_directory dir options s) (Leads s.state s)
unfolding make_directory msg_reply reply send die
make_directory-Leads dir options s =
    Ends-bind (storemkdir dir (has options tropt_dir) s) _ (λ _ t. Same s t) (Leads s.state s)
      (storemkdir-Same dir (has options tropt_dir) s)
      (λ r t p. ground (arith, Same-state s t p, Same-Holds s t p))

mkdir_named-Leads : (r : StringRead) (s : Server) → Ends (mkdir_named r s) (Leads s.state s)
unfolding mkdir_named mess_dir
mkdir_named-Leads bad_length s = inl refl
mkdir_named-Leads no_memory s = inl refl
mkdir_named-Leads (string bytes) s = ground (
  arith,
  make_directory-Leads (c_string (drop 4 bytes)) (of_le32 bytes)
      (record s { transferoption = of_le32 bytes }),
)

pub mkdir-Leads : (m : Message) (s : Server) → Ends (do_msg_mkdir m s) (Leads s.state s)
unfolding do_msg_mkdir
mkdir-Leads m s =
    Ends-bind (read_string m.msglen s) _ (λ _ t. Same s t) (Leads s.state s)
      (read_string-Same m.msglen s)
      (λ r t p.
        Ends-mono (mkdir_named r t) (Leads t.state t) (Leads s.state s) (mkdir_named-Leads r t)
          (λ status u q. ground (arith, Same-state s t p, Same-Holds s t p)))

never_returns :
    (b : Bool) (dir msg : Text) (made : ℤ) (s : Server)
    → b ≡ false
    → Ends
        ((if b
            then (msg_reply msg_ok (text "Directory " ++ (dir ++ text " created")) >> pure (pos 0))
            else (reply (if ltb_ℤ made (pos 0) then msg_bad_no_retry else msg_bad) msg
                >> (msg_reply msg_ok (text "Directory " ++ (dir ++ text " created"))
                    >> fault double_free)))
          s)
        (λ (_ : ℤ) _. ⊥)
never_returns true dir msg made s e = absurd (ground (arith, e))
never_returns false dir msg made s e =
    Ends-bind (reply (if ltb_ℤ made (pos 0) then msg_bad_no_retry else msg_bad) msg s) _
      (λ _ t. Same s t) (λ _ _. ⊥) (reply-Same _ msg s)
      (λ _ t _.
        Ends-bind (msg_reply msg_ok _ t) _ (λ _ u. Same t u) (λ _ _. ⊥) (msg_reply-Same msg_ok _ t)
          (λ _ u _. tt))
