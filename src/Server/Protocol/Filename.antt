-- ===== src/Server/Protocol/Filename.antt =====
-- MSG_FILENAME of a store leads to the start of a transfer with its variables complete, or back to the commands
-- with none of them.
use bbftp.Base.{
  bit-bit_and, has-lacks, bit_and, [], ◌-◌, ℕ, ◌≡◌, refl, ap, ◌∙◌, arith, ℤ, pos, Bool, true, false,
  none, some, ◌⊎◌, inl, inr, not, ltb_ℤ, eqb_ℤ, c_string, pos_part, has, ◌+◌, ◌^◌, if◌then◌else◌,
}
use bbftp.Wire.{Message}
use bbftp.Wire.Codes.{msg_bad, msg_ok, tropt_rfio}
use bbftp.Server.{
  Server, Outcome, State, M, Text, continue, logged, waiting_filename_store, waiting_store_start,
  pure,
}
use bbftp.Server.Io.{
  reply, malloc, free_all_var, read_string, StringRead, bad_length, no_memory, string,
}
use bbftp.Server.Files.{
  known_options, Result, storeunlink, storecheckoptions, checked_options, store_process_transfer,
}
use bbftp.Server.Files.Create.{storecreatefile}
use bbftp.Server.Frames.{
  Ends, Ends-bind, Ends-mono, Ends-if, Same, reply-Same, malloc-Same, read_string-Same,
}
use bbftp.Server.Frames.Files.{storeunlink-Same, storecreatefile-Same, store_process_transfer-Same}
use bbftp.Server.Transfer.{allocate_memory_for_transfer, init_and_send_msg_store_v2}
use bbftp.Server.Handlers.Names.{
  refuse, give_up_connection, prepare_store, answer_store, after_create, finish_empty, store_named,
  create_store, do_msg_filename_store, real_name,
}
use bbftp.Server.Protocol.{Step, named_store, done_store}
use bbftp.Server.Protocol.Ready.{is_some, allocated, Clean, Same-Clean, logged-Clean, Advances}
use bbftp.Server.Protocol.Names.{
  NamesHold, HasBuffers, Answers, allocate_memory-Ready, init_and_send-Ready,
}

pub names_some :
    (s t : Server) → NamesHold s t → is_some s.curfilename ≡ true → is_some t.curfilename ≡ true
names_some s t n p = ap is_some (n.1.0) ∙ p

pub real_some :
    (s t : Server) → NamesHold s t → is_some s.realfilename ≡ true → is_some t.realfilename ≡ true
real_some s t n p = ap is_some (n.1.1.0) ∙ p

pub option_holds :
    (s t : Server)
    → NamesHold s t
    → has s.transferoption tropt_rfio ≡ false
    → has t.transferoption tropt_rfio ≡ false
option_holds s t n p = ap (λ x. has x tropt_rfio) (n.1.1.1.0) ∙ p

-- RFIO is none of the known options.
known_options-rfio : (x : ℕ) → has (bit_and x known_options) tropt_rfio ≡ false
known_options-rfio x =
    has-lacks 29 (bit_and x known_options) tropt_rfio refl
      (omega (arith, bit-bit_and 29 x known_options))

pub allocated-true :
    (ok : Bool) (t : Server)
    → not ok ≡ false
    → (ok ≡ false) ⊎ (allocated t ≡ true)
    → allocated t ≡ true
allocated-true ok t e p = ground arith

pub allocated-state :
    (s : Server) (x : State) → allocated s ≡ true → allocated (record s { state = x }) ≡ true
unfolding allocated
allocated-state s x p = p

-- A step that keeps the variables free.
pub Clean-bind {ℓ κ μ} :
    {A : Type ℓ} {B : Type κ} (s : Server) (o : Outcome A) (f : A → M B) (Q : B → Server → Type μ)
    → Clean s
    → Ends o (λ _ t. Same s t)
    → ((a : A) (t : Server) → Clean t → Ends (f a t) Q)
    → Ends (continue o f) Q
Clean-bind s o f Q c p k = Ends-bind o f (λ _ t. Same s t) Q p (λ a t q. k a t (Same-Clean s t c q))

pub refuse-Advances :
    (x : State) (code : ℕ) (msg : Text) (s : Server)
    → Step x logged
    → Ends (refuse code msg s) (Advances x)
unfolding refuse free_all_var
refuse-Advances x code msg s step =
    Ends-bind (reply code msg s) _ (λ _ t. Same s t) (Advances x) (reply-Same code msg s)
      (λ _ t _. inr (step, refl))

pub give_up-Advances : (x : State) (s : Server) → Ends (give_up_connection s) (Advances x)
unfolding give_up_connection free_all_var
give_up-Advances x s = inl refl

-- storeunlink (realfilename) before the connection is given up.
pub unlink_give_up-Advances :
    (x : State) (s : Server)
    → Ends (continue (storeunlink s.realfilename s) (λ _. give_up_connection)) (Advances x)
unlink_give_up-Advances x s =
    Ends-bind (storeunlink s.realfilename s) _ (λ _ t. Same s t) (Advances x)
      (storeunlink-Same s.realfilename s) (λ _ t _. give_up-Advances x t)

-- After the buffers: the answer, and the state in which the client may start.
store_answer-Advances :
    (s : Server)
    → allocated s ≡ true
    → is_some s.curfilename ≡ true
    → is_some s.realfilename ≡ true
    → has s.transferoption tropt_rfio ≡ false
    → Ends (answer_store s) (Advances waiting_filename_store)
unfolding answer_store
store_answer-Advances s a c r o =
    Ends-bind (init_and_send_msg_store_v2 _ s) _ (Answers s) (Advances waiting_filename_store)
      (init_and_send-Ready _ s a)
      (λ told t p.
        Ends-if told _ _ t (Advances waiting_filename_store)
          (λ _. inr (
            named_store,
            (
              allocated-state t waiting_store_start (p.1),
              (names_some s t (p.0) c, (real_some s t (p.0) r, option_holds s t (p.0) o)),
            ),
          ))
          (λ _. unlink_give_up-Advances waiting_filename_store t))

prepare_store-Advances :
    (s : Server)
    → is_some s.curfilename ≡ true
    → is_some s.realfilename ≡ true
    → has s.transferoption tropt_rfio ≡ false
    → Ends (prepare_store s) (Advances waiting_filename_store)
unfolding prepare_store free_all_var
prepare_store-Advances s c r o =
    Ends-bind (allocate_memory_for_transfer s) _ (HasBuffers s) (Advances waiting_filename_store)
      (allocate_memory-Ready s)
      (λ ok t p.
        Ends-if (not ok) _ _ t (Advances waiting_filename_store)
          (λ _.
            let u = record t {
              curfilename = none;
              realfilename = none;
              myports = none;
              mysockets = none;
              mychildren = none;
              readbuffer = none;
              compbuffer = none;
              nbpidchild = 0;
            } in
            Clean-bind u (storeunlink none u) _ _ refl (storeunlink-Same none u) (λ _ v cv.
              Clean-bind v (reply msg_bad _ v) _ _ cv (reply-Same msg_bad _ v)
                (λ _ w cw. inr (done_store, logged-Clean w logged cw))))
          (λ e.
            store_answer-Advances t (allocated-true ok t e (p.1)) (names_some s t (p.0) c)
              (real_some s t (p.0) r) (option_holds s t (p.0) o)))

finish_empty-Advances :
    (real name : Text) (s : Server)
    → Ends (finish_empty real name s) (Advances waiting_filename_store)
unfolding finish_empty free_all_var
finish_empty-Advances real name s =
    Ends-bind (store_process_transfer real name true s) _ (λ _ t. Same s t)
      (Advances waiting_filename_store) (store_process_transfer-Same real name true s)
      (λ r t _.
        Ends-bind ((if eqb_ℤ r (pos 0) then reply msg_ok [] else pure tt) t) _ (λ _ _. Unit {0})
          (Advances waiting_filename_store)
          (Ends-if (eqb_ℤ r (pos 0)) _ _ t (λ _ _. Unit {0})
            (λ _.
              Ends-mono (reply msg_ok [] t) (λ _ u. Same t u) (λ _ _. Unit {0})
                (reply-Same msg_ok [] t) (λ _ _ _. tt))
            (λ _. tt))
          (λ _ u _. inr (done_store, refl)))

after_create-Advances :
    (real name : Text) (made : Result) (s : Server)
    → is_some s.curfilename ≡ true
    → is_some s.realfilename ≡ true
    → has s.transferoption tropt_rfio ≡ false
    → Ends (after_create real name made s) (Advances waiting_filename_store)
unfolding after_create
after_create-Advances real name made s c r o =
    Ends-if (not (eqb_ℤ (made.0) (pos 0))) _ _ s (Advances waiting_filename_store)
      (λ _. refuse-Advances waiting_filename_store _ (made.1) s done_store)
      (λ _.
        Ends-if (eqb_ℤ s.filesize (pos 0)) _ _ s (Advances waiting_filename_store)
          (λ _. finish_empty-Advances real name s) (λ _. prepare_store-Advances s c r o))

create_store-Advances :
    (n : ℕ) (name : Text) (s : Server)
    → is_some s.curfilename ≡ true
    → has s.transferoption tropt_rfio ≡ false
    → Ends (create_store n name s) (Advances waiting_filename_store)
unfolding create_store is_some
create_store-Advances n name s c o =
    let real = real_name n name s in
    let t = record s { realfilename = some real } in
    Ends-bind (storecreatefile real t) _ (λ _ u. Same t u) (Advances waiting_filename_store)
      (storecreatefile-Same real t)
      (λ made u p.
        after_create-Advances real name made u (ap (λ (x : Server). is_some x.curfilename) p ∙ c)
          (ap (λ (x : Server). is_some x.realfilename) p)
          (ap (λ (x : Server). has x.transferoption tropt_rfio) p ∙ o))

store_named-Advances :
    (msglen : ℤ) (r : StringRead) (s : Server)
    → Ends (store_named msglen r s) (Advances waiting_filename_store)
unfolding store_named storecheckoptions checked_options is_some
store_named-Advances msglen bad_length s = give_up-Advances waiting_filename_store s
store_named-Advances msglen no_memory s = give_up-Advances waiting_filename_store s
store_named-Advances msglen (string bytes) s =
    let t = record s { curfilename = some (c_string bytes) } in
    Ends-if (not (ltb_ℤ msglen (pos (2 ^ 31 - 30)))) _ _ t (Advances waiting_filename_store)
      (λ _. tt)
      (λ _.
        Ends-bind (malloc (pos_part msglen + 30) t) _ (λ _ u. Same t u)
          (Advances waiting_filename_store) (malloc-Same _ t)
          (λ fits u p.
            Ends-if (not fits) _ _ u (Advances waiting_filename_store)
              (λ _. give_up-Advances waiting_filename_store u)
              (λ _.
                Ends-if (has u.transferoption tropt_rfio) _ _ u (Advances waiting_filename_store)
                  (λ _. refuse-Advances waiting_filename_store _ _ u done_store)
                  (λ _.
                    create_store-Advances (pos_part msglen) (c_string bytes) (checked_options u)
                      (ap (λ (x : Server). is_some x.curfilename) p) (known_options-rfio _)))))

pub filename_store-Advances :
    (m : Message) (s : Server) → Ends (do_msg_filename_store m s) (Advances waiting_filename_store)
unfolding do_msg_filename_store
filename_store-Advances m s =
    Ends-if (eqb_ℤ m.msglen (pos 0)) _ _ s (Advances waiting_filename_store) (λ _. inl refl)
      (λ _.
        Ends-bind (read_string m.msglen s) _ (λ _ u. Same s u) (Advances waiting_filename_store)
          (read_string-Same m.msglen s) (λ r t _. store_named-Advances m.msglen r t))
