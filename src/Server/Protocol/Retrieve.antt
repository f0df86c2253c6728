-- ===== src/Server/Protocol/Retrieve.antt =====
-- MSG_FILENAME of a retrieval leads to the start of a transfer, to the creation of an empty file, or
-- back to the commands.
use bbftp.Base.{
  ◌∷◌, ◌≡◌, refl, ap, ◌∙◌, arith, ℤ, pos, Bool, true, false, Option, none, some, ◌⊎◌, inl, inr, not,
  eqb_ℤ, c_string, has,
}
use bbftp.Wire.{Message}
use bbftp.Wire.Codes.{msg_bad, tropt_rfio}
use bbftp.Server.{
  Stat, StatAnswer, absent, present, stat_call, Server, Text, logged, waiting_filename_retr,
  waiting_retr_start,
}
use bbftp.Server.Io.{reply, free_all_var, read_string, StringRead, bad_length, no_memory, string}
use bbftp.Server.Files.{s_ifdir, Result, storeunlink}
use bbftp.Server.Files.Retr.{retrcheckfile, kilobytes, count_streams, check_found, keep_stat}
use bbftp.Server.Frames.{
  Ends-any, Ends, Ends-bind, Ends-mono, Ends-if, Same, reply-Same, read_string-Same,
}
use bbftp.Server.Frames.Files.{storeunlink-Same}
use bbftp.Server.Transfer.{allocate_memory_for_transfer, init_and_send_msg_store_v2}
use bbftp.Server.Handlers.Names.{
  send_retr, prepare_retr, send_empty, after_check, retr_named, do_msg_filename_retr,
}
use bbftp.Server.Protocol.{named_retr, empty_retr, refused_retr}
use bbftp.Server.Protocol.Ready.{is_some, allocated, logged-Clean, Advances}
use bbftp.Server.Protocol.Names.{HasBuffers, Answers, allocate_memory-Ready, init_and_send-Ready}
use bbftp.Server.Protocol.Filename.{
  names_some, option_holds, allocated-true, allocated-state, Clean-bind, refuse-Advances,
  give_up-Advances, unlink_give_up-Advances,
}

other_side {ℓ} : {b : Bool} {A : Type ℓ} → b ≡ false → (b ≡ true) ⊎ A → A
other_side {b} e (inl q) = absurd (ground (arith, e, q))
other_side e (inr a) = a

send_retr-Advances :
    (s : Server)
    → allocated s ≡ true
    → is_some s.curfilename ≡ true
    → has s.transferoption tropt_rfio ≡ false
    → Ends (send_retr s) (Advances waiting_filename_retr)
unfolding send_retr
send_retr-Advances s a c o =
    Ends-bind (init_and_send_msg_store_v2 _ s) _ (Answers s) (Advances waiting_filename_retr)
      (init_and_send-Ready _ s a)
      (λ told t p.
        Ends-if told _ _ t (Advances waiting_filename_retr)
          (λ _. inr (
            named_retr,
            (
              allocated-state t waiting_retr_start (p.1),
              (names_some s t (p.0) c, option_holds s t (p.0) o),
            ),
          ))
          (λ _. unlink_give_up-Advances waiting_filename_retr t))

prepare_retr-Advances :
    (s : Server)
    → is_some s.curfilename ≡ true
    → has s.transferoption tropt_rfio ≡ false
    → Ends (prepare_retr s) (Advances waiting_filename_retr)
unfolding prepare_retr free_all_var
prepare_retr-Advances s c o =
    Ends-bind (allocate_memory_for_transfer s) _ (HasBuffers s) (Advances waiting_filename_retr)
      (allocate_memory-Ready s)
      (λ ok t p.
        Ends-if (not ok) _ _ t (Advances waiting_filename_retr)
          (λ _.
            Ends-bind (storeunlink t.realfilename t) _ (λ _ u. Same t u)
              (Advances waiting_filename_retr) (storeunlink-Same t.realfilename t)
              (λ _ u _.
                let v = record u {
                  curfilename = none;
                  realfilename = none;
                  myports = none;
                  mysockets = none;
                  mychildren = none;
                  readbuffer = none;
                  compbuffer = none;
                  nbpidchild = 0;
                } in
                Clean-bind v (reply msg_bad _ v) _ _ refl (reply-Same msg_bad _ v)
                  (λ _ w cw. inr (refused_retr, logged-Clean w logged cw))))
          (λ e.
            send_retr-Advances t (allocated-true ok t e (p.1)) (names_some s t (p.0) c)
              (option_holds s t (p.0) o)))

send_empty-Advances : (s : Server) → Ends (send_empty s) (Advances waiting_filename_retr)
unfolding send_empty free_all_var
send_empty-Advances s =
    Ends-bind (init_and_send_msg_store_v2 false s) _ (λ _ _. Unit {0})
      (Advances waiting_filename_retr) (Ends-any _)
      (λ told t _.
        Ends-if told _ _ t (Advances waiting_filename_retr) (λ _. inr (empty_retr, refl))
          (λ _. unlink_give_up-Advances waiting_filename_retr t))

-- What the check of a file that may be retrieved leaves.
abbrev Checked : Server → Result → Server → Type 0
Checked s found t =
    (t.curfilename ≡ s.curfilename)
    × ((not (eqb_ℤ (found.0) (pos 0)) ≡ true) ⊎ (has t.transferoption tropt_rfio ≡ false))

count_streams-holds :
    (st : Stat) (size : Option ℤ) (s : Server)
    → Ends
        (count_streams st size s)
        (λ _ t. (t.curfilename ≡ s.curfilename) × (t.transferoption ≡ s.transferoption))
unfolding count_streams
count_streams-holds st none s = tt
count_streams-holds st (some size) s =
    Ends-if (eqb_ℤ size (pos 0)) _ _ s
      (λ _ t. (t.curfilename ≡ s.curfilename) × (t.transferoption ≡ s.transferoption)) (λ _. tt)
      (λ _. (refl, refl))

check_found-holds :
    (name : Text) (found : StatAnswer) (s : Server)
    → Ends
        (check_found name found s)
        (λ _ t. (t.curfilename ≡ s.curfilename) × (t.transferoption ≡ s.transferoption))
unfolding check_found keep_stat
check_found-holds name (absent e) s = (refl, refl)
check_found-holds name (present st) s =
    Ends-if (has st.mode s_ifdir) _ _ s
      (λ _ t. (t.curfilename ≡ s.curfilename) × (t.transferoption ≡ s.transferoption))
      (λ _. (refl, refl)) (λ _. count_streams-holds st (kilobytes s.buffersizeperstream) _)

retrcheckfile-Checked : (name : Text) (s : Server) → Ends (retrcheckfile name s) (Checked s)
unfolding retrcheckfile
retrcheckfile-Checked name s =
    Ends-if (has s.transferoption tropt_rfio) _ _ s (Checked s) (λ _. (refl, inl refl))
      (λ o.
        let t = record s { calls = stat_call name ∷ s.calls } in
        Ends-mono (check_found name (s.os.stat s.calls name) t)
          (λ _ u. (u.curfilename ≡ t.curfilename) × (u.transferoption ≡ t.transferoption))
          (Checked s) (check_found-holds name (s.os.stat s.calls name) t)
          (λ _ u p. (p.0, inr (ap (λ x. has x tropt_rfio) (p.1) ∙ o))))

after_check-Advances :
    (found : Result) (s : Server)
    → is_some s.curfilename ≡ true
    → (not (eqb_ℤ (found.0) (pos 0)) ≡ true) ⊎ (has s.transferoption tropt_rfio ≡ false)
    → Ends (after_check found s) (Advances waiting_filename_retr)
unfolding after_check
after_check-Advances found s c o =
    Ends-if (not (eqb_ℤ (found.0) (pos 0))) _ _ s (Advances waiting_filename_retr)
      (λ _. refuse-Advances waiting_filename_retr _ (found.1) s refused_retr)
      (λ e.
        Ends-if (eqb_ℤ s.filesize (pos 0)) _ _ s (Advances waiting_filename_retr)
          (λ _. send_empty-Advances s) (λ _. prepare_retr-Advances s c (other_side e o)))

retr_named-Advances :
    (r : StringRead) (s : Server) → Ends (retr_named r s) (Advances waiting_filename_retr)
unfolding retr_named is_some
retr_named-Advances bad_length s = give_up-Advances waiting_filename_retr s
retr_named-Advances no_memory s = give_up-Advances waiting_filename_retr s
retr_named-Advances (string bytes) s =
    let t = record s { curfilename = some (c_string bytes) } in
    Ends-bind (retrcheckfile (c_string bytes) t) _ (Checked t) (Advances waiting_filename_retr)
      (retrcheckfile-Checked (c_string bytes) t)
      (λ found u p. after_check-Advances found u (ap is_some (p.0)) (p.1))

pub filename_retr-Advances :
    (m : Message) (s : Server) → Ends (do_msg_filename_retr m s) (Advances waiting_filename_retr)
unfolding do_msg_filename_retr
filename_retr-Advances m s =
    Ends-if (eqb_ℤ m.msglen (pos 0)) _ _ s (Advances waiting_filename_retr) (λ _. inl refl)
      (λ _.
        Ends-bind (read_string m.msglen s) _ (λ _ u. Same s u) (Advances waiting_filename_retr)
          (read_string-Same m.msglen s) (λ r t _. retr_named-Advances r t))
