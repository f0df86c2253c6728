-- ===== src/Client/Listing/Lost.antt =====
-- A listing that is lost in the middle (bbftp_list.c and bbftp_dir.c of bbftp-client/bbftpc).
use bbftp.Base.{
  ℕ, ◌+◌, ◌-◌, ◌^◌, ◌≡◌, ◌∙◌, ap, arith, true, false, List, [], ◌∷◌, ◌++◌, none, some, pos, length,
  text, ◌==◌, eqb_ℤ, if◌then◌else◌,
}
use bbftp.Wire.{le32, encode_len, decode_message}
use bbftp.Wire.Codes.{msg_list_v2, msg_list_repl_v2}
use bbftp.Client.{
  Client, Text, Outcome, null, dangling, malloc_call, kill_call, returns, faults, continue,
  double_free,
}
use bbftp.Client.Io.{
  send, send_all, receive, waitcontrol, malloc, read_text, close_control, close_calls,
  bb_ret_conn_broken, sigkill,
}
use bbftp.Client.Requests.{await_answer, answered}
use bbftp.Client.Listing.{bbftp_list, bbftp_dir, read_filelist, set_filelist, free_filelist}

-- A listing that has been asked for, from state `s`: the request is sent, the header of the answer has come
-- with the length `n`, there is memory for it, and the read of the text fails.
pub record Interrupted (line : Text) (n : ℕ) (s : Client) : Type 0 where
  pub asked : Client
  pub told : Client
  pub ready : Client
  pub answered : Client
  pub failed : Client
  pub bytes : List ℕ
  pub head_sent : send (encode_len msg_list_v2 (pos (length line + 4))) s ≡ returns true asked
  pub line_sent : send_all (le32 asked.transferoption ∷ line ∷ []) asked ≡ returns true told
  pub waited : waitcontrol told ≡ returns true ready
  pub header : receive (pos 8) ready ≡ returns (some bytes) answered
  pub is_list : decode_message bytes ≡ record { code = msg_list_repl_v2; msglen = pos n }
  pub fits : answered.os.malloc answered.calls (n + 1) ≡ true
  pub lost :
      receive (pos n) (record answered { calls = malloc_call (n + 1) ∷ answered.calls })
      ≡ returns none failed

-- A step that is known.
step {ℓ κ} :
    {A : Type ℓ} {B : Type κ} (o : Outcome A) (a : A) (t : Client) (f : A → Client → Outcome B)
    → o ≡ returns a t
    → continue o f ≡ f a t
step o a t f e = ap (λ x. continue x f) e

-- The state after the failed read: the connection is closed, and the buffer freed.
abbrev after_loss : Client → Client
after_loss t = record t {
  errcode = 67;
  calls =
      if eqb_ℤ t.ssh_childpid (pos 0)
      then close_calls t
      else kill_call t.ssh_childpid sigkill ∷ close_calls t;
  filelist = dangling;
}

read_filelist-lost :
    (n : ℕ) (s t : Client)
    → (n == 0) ≡ false
    → (n == 2 ^ 31 - 1) ≡ false
    → s.os.malloc s.calls (n + 1) ≡ true
    → receive (pos n) (record s { calls = malloc_call (n + 1) ∷ s.calls }) ≡ returns none t
    → read_filelist (pos n) s ≡ returns bb_ret_conn_broken (after_loss t)
unfolding read_filelist read_text malloc set_filelist close_control
read_filelist-lost n s t some_text small fits lost = ground (arith, some_text, small, fits, lost)

await-lost :
    (line : Text) (n : ℕ) (s : Client) (l : Interrupted line n s)
    → (n == 0) ≡ false
    → (n == 2 ^ 31 - 1) ≡ false
    → await_answer msg_list_repl_v2 read_filelist l.told
      ≡ returns bb_ret_conn_broken (after_loss l.failed)
unfolding await_answer answered
await-lost line n s l some_text small =
    step (waitcontrol l.told) true l.ready _ l.waited
    ∙ (step (receive (pos 8) l.ready) (some l.bytes) l.answered _ l.header
        ∙ (ap (λ m. answered msg_list_repl_v2 read_filelist m l.answered) l.is_list
            ∙ read_filelist-lost n l.answered l.failed some_text small l.fits l.lost))

list-lost :
    (line : Text) (n : ℕ) (s : Client) (l : Interrupted line n s)
    → (n == 0) ≡ false
    → (n == 2 ^ 31 - 1) ≡ false
    → bbftp_list line s ≡ returns bb_ret_conn_broken (after_loss l.failed)
unfolding bbftp_list
list-lost line n s l some_text small =
    step (send (encode_len msg_list_v2 (pos (length line + 4))) s) true l.asked _ l.head_sent
    ∙ (step (send_all (le32 l.asked.transferoption ∷ line ∷ []) l.asked) true l.told _ l.line_sent
        ∙ await-lost line n s l some_text small)

-- Where the connection is lost in the middle of a listing, bbftp_dir frees its buffer a second time:
-- once there is memory for the name, the server has announced a list of `n` bytes, with n neither 0 nor
-- the largest int, there is memory for them, and their read fails, bbftp_list has freed the buffer and left
-- the pointer, and bbftp_dir frees what it finds.
pub dir_lost_frees_twice :
    (name : Text) (n : ℕ) (s : Client)
    → s.os.malloc s.calls (length name + 3) ≡ true
    → Interrupted
        (name ++ text "/*")
        n
        (record s { filelist = null; calls = malloc_call (length name + 3) ∷ s.calls })
    → (n == 0) ≡ false
    → (n == 2 ^ 31 - 1) ≡ false
    → (u : Client) × (bbftp_dir name s ≡ faults double_free u)
unfolding bbftp_dir set_filelist malloc free_filelist
dir_lost_frees_twice name n s fits l some_text small =
    let v = record s { filelist = null; calls = malloc_call (length name + 3) ∷ s.calls } in
    let listed = list-lost (name ++ text "/*") n v l some_text small in
    (after_loss l.failed, ground (arith, fits, listed))
