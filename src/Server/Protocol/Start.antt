-- ===== src/Server/Protocol/Start.antt =====
-- MSG_TRANS_START and its kin lead to a running transfer with its variables kept, or back to the
-- commands with none of them.
use bbftp.Base.{
  ℕ, zero, suc, List, [], ◌∷◌, ◌≡◌, refl, arith, ℤ, pos, Bool, true, false, Option, none, some, ◌⊎◌,
  inl, inr, ltb_ℤ, eqb_ℤ, has, ◌+◌, pos_part,
}
use bbftp.Wire.Codes.{tropt_rfio}
use bbftp.Server.{
  Server, Outcome, State, M, Text, Block, close_socket_call, returns, continue, receiving, sending,
  pure, ◌>>◌,
}
use bbftp.Server.Io.{
  reply, send, die, clean_child, free_all_var, receive, msgread_int32_array, items_of, kill_all,
  sighup,
}
use bbftp.Server.Files.{Result, storeunlink, unlink_quietly}
use bbftp.Server.Frames.{Ends, Ends-bind, Ends-mono, Ends-if}
use bbftp.Server.Transfer.{
  give_up, add_child, keep_child, start_child, start_children, socket_of, when, wake_children,
  transferfile, storetransferfile, retrtransferfile,
}
use bbftp.Server.Handlers.Start.{abandon, read_ports}
use bbftp.Server.Protocol.Ready.{is_some, allocated, Clean}
use bbftp.Server.Protocol.Names.{NamesHold, NamesHold-trans}

-- The names, the state and the arrays are kept.
abbrev pub Kept : Server → Server → Type 0
Kept s t = NamesHold s t × (allocated t ≡ true)

Kept-bind {ℓ κ} :
    {A : Type ℓ} {B : Type κ} (s : Server) (o : Outcome A) (f : A → M B)
    → Ends o (λ _ t. Kept s t)
    → ((a : A) (t : Server) → allocated t ≡ true → Ends (f a t) (λ _ u. Kept t u))
    → Ends (continue o f) (λ _ u. Kept s u)
Kept-bind s o f p k =
    Ends-bind o f (λ _ t. Kept s t) (λ _ u. Kept s u) p
      (λ a t q.
        Ends-mono (f a t) (λ _ u. Kept t u) (λ _ u. Kept s u) (k a t (q.1))
          (λ _ u r. (NamesHold-trans s t u (q.0) (r.0), r.1)))

give_up-Kept :
    (msg : Text) (s : Server) → allocated s ≡ true → Ends (give_up msg s) (λ _ t. Kept s t)
unfolding give_up clean_child reply send die allocated is_some
give_up-Kept msg s a = ground arith

add_child-Kept :
    (pid : ℤ) (b : Option Block) (s : Server)
    → allocated s ≡ true
    → Ends (add_child pid b s) (λ _ t. Kept s t)
unfolding add_child allocated is_some
add_child-Kept pid none s a = tt
add_child-Kept pid (some b) s a = ground arith

socket_of-Kept :
    (entry : ℤ) (s : Server) → allocated s ≡ true → Ends (socket_of entry s) (λ _ t. Kept s t)
unfolding socket_of allocated
socket_of-Kept entry s a =
    Ends-if (ltb_ℤ s.protocolversion (pos 3)) _ _ s (λ _ t. Kept s t)
      (λ _. ((refl, (refl, (refl, (refl, refl)))), a))
      (λ _. ((refl, (refl, (refl, (refl, refl)))), a))

keep_child-Kept :
    (is_store : Bool) (filename : Text) (fd : ℤ) (rest : M Result) (child : ℤ ⊎ ℕ)
    → ((t : Server) → allocated t ≡ true → Ends (rest t) (λ _ u. Kept t u))
    → (s : Server) → allocated s ≡ true
    → Ends (keep_child is_store filename fd rest child s) (λ _ t. Kept s t)
unfolding keep_child unlink_quietly allocated
keep_child-Kept true filename fd rest (inr e) keep s a = give_up-Kept _ (record s { calls = _ }) a
keep_child-Kept false filename fd rest (inr e) keep s a = give_up-Kept _ s a
keep_child-Kept is_store filename fd rest (inl pid) keep s a =
    Kept-bind s (add_child pid s.mychildren s) _ (add_child-Kept pid s.mychildren s a)
      (λ _ t b. keep (record t { calls = close_socket_call fd ∷ t.calls }) b)

start_child-Kept :
    (is_store : Bool) (filename : Text) (i : ℕ) (rest : M Result) (sock : ℤ ⊎ Text)
    → ((t : Server) → allocated t ≡ true → Ends (rest t) (λ _ u. Kept t u))
    → (s : Server) → allocated s ≡ true
    → Ends (start_child is_store filename i rest sock s) (λ _ t. Kept s t)
unfolding start_child allocated
start_child-Kept is_store filename i rest (inr problem) keep s a = give_up-Kept problem s a
start_child-Kept is_store filename i rest (inl fd) keep s a =
    keep_child-Kept is_store filename fd rest _ keep (record s { calls = _ }) a

start_children-Kept :
    (is_store : Bool) (filename : Text) (left i : ℕ) (entries : List ℤ) (s : Server)
    → allocated s ≡ true
    → Ends (start_children is_store filename left i entries s) (λ _ t. Kept s t)
unfolding start_children
start_children-Kept is_store filename zero i entries s a = ((refl, (refl, (refl, (refl, refl)))), a)
start_children-Kept is_store filename (suc left) i [] s a = tt
start_children-Kept is_store filename (suc left) i (entry ∷ entries) s a =
    Kept-bind s (socket_of entry s) _ (socket_of-Kept entry s a) (λ sock t b.
      start_child-Kept is_store filename i _ sock
        (start_children-Kept is_store filename left (i + 1) entries) t b)

transferfile-Kept :
    (is_store : Bool) (filename : Text) (s : Server)
    → allocated s ≡ true
    → Ends (transferfile is_store filename s) (λ _ t. Kept s t)
unfolding transferfile allocated
transferfile-Kept is_store filename s a =
    Ends-if (eqb_ℤ s.requestedstreamnumber (pos 0)) _ _ s (λ _ t. Kept s t) (λ _. tt)
      (λ _. start_children-Kept is_store filename (pos_part s.requestedstreamnumber) 1 _ _ a)

-- The end of a transfer's start: it runs with all it needs, or it failed.
abbrev pub Runs : State → Server → Result → Server → Type 0
Runs x s r t =
    (eqb_ℤ (r.0) (pos 0) ≡ false) ⊎ ((t.state ≡ x) × (Kept s (record t { state = s.state })))

pub storetransferfile-Runs :
    (name : Text) (simulate : Bool) (s : Server)
    → allocated s ≡ true
    → has s.transferoption tropt_rfio ≡ false
    → Ends (storetransferfile name simulate s) (Runs receiving s)
unfolding storetransferfile wake_children allocated
storetransferfile-Runs name simulate s a o =
    Ends-if (has s.transferoption tropt_rfio) _ _ s (Runs receiving s)
      (λ e. absurd (ground (arith, e, o)))
      (λ _.
        Ends-bind (transferfile true name s) _ (λ _ t. Kept s t) (Runs receiving s)
          (transferfile-Kept true name s a)
          (λ r t k.
            Ends-if (eqb_ℤ (r.0) (pos 0)) _ _ t (Runs receiving s)
              (λ _.
                (elim simulate
                  as (λ b.
                    Ends
                      ((when b (λ v. returns tt (record v { unlinkfile = 4 }))
                          >> pure {A = Result} (pos 0, []))
                        (record t {
                          state = receiving;
                          calls = kill_all sighup t.nbpidchild (items_of t.mychildren) t.calls;
                        }))
                      (Runs receiving s)) [
                        | true ↦ inr (refl, ((refl, k.0.1), k.1))
                        | false ↦ inr (refl, ((refl, k.0.1), k.1))
                      ]))
              (λ e. inl e)))

pub retrtransferfile-Runs :
    (name : Text) (simulate : Bool) (s : Server)
    → allocated s ≡ true
    → has s.transferoption tropt_rfio ≡ false
    → Ends (retrtransferfile name simulate s) (Runs sending s)
unfolding retrtransferfile wake_children allocated
retrtransferfile-Runs name simulate s a o =
    Ends-if (has s.transferoption tropt_rfio) _ _ s (Runs sending s)
      (λ e. absurd (ground (arith, e, o)))
      (λ _.
        Ends-bind (transferfile false name s) _ (λ _ t. Kept s t) (Runs sending s)
          (transferfile-Kept false name s a)
          (λ r t k.
            Ends-if (eqb_ℤ (r.0) (pos 0)) _ _ t (Runs sending s)
              (λ _. inr (refl, ((refl, k.0.1), k.1))) (λ e. inl e)))

-- Both names are NULL or the connection ends.
pub abandon-Clean : (is_store : Bool) (s : Server) → Ends (abandon is_store s) (λ _ t. Clean t)
unfolding abandon storeunlink free_all_var
abandon-Clean is_store s = ground arith

pub read_ports-Kept : (s : Server) → allocated s ≡ true → Ends (read_ports s) (λ _ t. Kept s t)
unfolding read_ports msgread_int32_array receive allocated is_some
read_ports-Kept s a = ground arith
