-- ===== src/Server/Protocol/Rounds.antt =====
-- The rounds of bbftp_run_protocol_2 one after the other, between two runs of a signal handler.
use bbftp.Base.{
  zero, suc, negsuc, arith, ◌≡◌, refl, sym, ap, ◌∙◌, subst, ℤ, pos, minus_one, Bool, true, false,
  Option, none, some, ◌⊎◌, inl, inr, ◌∷◌, eqb_ℤ, if◌then◌else◌,
}
use bbftp.Wire.{Message}
use bbftp.Server.{Server, State, returns, wait_call}
use bbftp.Server.Io.{msgread_msg}
use bbftp.Server.Files.{storeunlink}
use bbftp.Server.Frames.{Ends, Ends-bind, Same, msgread_msg-Same}
use bbftp.Server.Frames.Files.{storeunlink-Same}
use bbftp.Server.Handlers.Dispatch.{handle}
use bbftp.Server.Loop.{handle_read, handle_pending, round, leave, after, timeout_of}
use bbftp.Server.Protocol.{
  Step, command, begin_store, begin_retr, named_store, done_store, named_retr, empty_retr,
  refused_retr, run_store, drop_store, run_retr, drop_retr, created,
}
use bbftp.Server.Protocol.Ready.{Ready, Same-Ready, Advances}
use bbftp.Server.Protocol.Handle.{handle-Advances, in_session}

-- A server in a session that is ready for its state.
abbrev pub Session : Server → Type 0
Session s = (in_session s.state ≡ true) × Ready s.state s

-- The function returns 0 or -1, or the session goes on.
abbrev pub GoesOn : Option ℤ → Server → Type 0
GoesOn r t = ((r ≡ some (pos 0)) ⊎ (r ≡ some minus_one)) ⊎ ((r ≡ none) × Session t)

Step-session : (x y : State) → Step x y → in_session y ≡ true
unfolding in_session
Step-session x y command = refl
Step-session x y begin_store = refl
Step-session x y begin_retr = refl
Step-session x y named_store = refl
Step-session x y done_store = refl
Step-session x y named_retr = refl
Step-session x y empty_retr = refl
Step-session x y refused_retr = refl
Step-session x y run_store = refl
Step-session x y drop_store = refl
Step-session x y run_retr = refl
Step-session x y drop_retr = refl
Step-session x y created = refl

leave-GoesOn : (b : Bool) (s : Server) → Ends (leave b s) GoesOn
unfolding leave
leave-GoesOn true s =
    Ends-bind (storeunlink s.realfilename s) _ (λ _ t. Same s t) GoesOn
      (storeunlink-Same s.realfilename s) (λ _ t _. inl (inl refl))
leave-GoesOn false s = inl (inl refl)

is_minus_one : (z : ℤ) → eqb_ℤ z minus_one ≡ true → z ≡ minus_one
is_minus_one (pos n) e = absurd (ground arith)
is_minus_one (negsuc zero) e = refl
is_minus_one (negsuc (suc n)) e = absurd (ground arith)

after_test :
    (b : Bool) (x : State) (status : ℤ) (t : Server)
    → eqb_ℤ status minus_one ≡ b
    → Advances x status t
    → GoesOn (if b then some status else none) t
after_test true x status t e p = inl (inr (ap some (is_minus_one status e)))
after_test false x status t e (inl q) = absurd (ground (arith, ap (λ v. eqb_ℤ v minus_one) q, e))
after_test false x status t e (inr (step, ready)) = inr (refl, (Step-session x t.state step, ready))

after-GoesOn :
    (x : State) (status : ℤ) (t : Server) → Advances x status t → Ends (after status t) GoesOn
unfolding after
after-GoesOn x status t p = after_test (eqb_ℤ status minus_one) x status t refl p

handle_read-GoesOn :
    (r : Option Message) (s : Server) → Session s → Ends (handle_read s.state r s) GoesOn
unfolding handle_read
handle_read-GoesOn none s p = leave-GoesOn _ s
handle_read-GoesOn (some m) s p =
    Ends-bind (handle s.state m s) _ (Advances s.state) GoesOn
      (handle-Advances s.state m s refl (p.0) (p.1)) (λ status t q. after-GoesOn s.state status t q)

Same-Session : (s t : Server) → Session s → Same s t → (t.state ≡ s.state) × Session t
Same-Session s t (i, r) p =
    let e : t.state ≡ s.state = ap (λ (u : Server). u.state) p in
    (e, (ap in_session e ∙ i, subst (λ x. Ready x t) (sym e) (Same-Ready s.state s t r p)))

handle_pending-GoesOn :
    (input : Option Bool) (s : Server) → Session s → Ends (handle_pending s.state input s) GoesOn
unfolding handle_pending
handle_pending-GoesOn none s p = tt
handle_pending-GoesOn (some false) s p = leave-GoesOn _ s
handle_pending-GoesOn (some true) s p =
    Ends-bind (msgread_msg s) _ (λ _ t. Same s t) GoesOn (msgread_msg-Same s)
      (λ r t q.
        let (e, p') = Same-Session s t p q in
        subst (λ x. Ends (handle_read x r t) GoesOn) e (handle_read-GoesOn r t p'))

-- A round of a session that is ready for its state makes the function return 0 or -1, or leaves a
-- session that is ready for its state, where it returns at all.
pub round-GoesOn : (s : Server) → Session s → Ends (round s) GoesOn
unfolding round
round-GoesOn s p =
    let t = record s { calls = wait_call (timeout_of s.state) ∷ s.calls } in
    handle_pending-GoesOn _ t (p.0, Same-Ready s.state s t (p.1) refl)

-- Rounds that the session survives.
pub data Rounds : Server → Server → Type 0 where
  stop : {s : Server} → Rounds s s
  next : {s t u : Server} → round s ≡ returns none t → Rounds t u → Rounds s u

some_ne_none : {x : ℤ} → none ≡ some x → false ≡ true
some_ne_none e = ap (λ (o : Option ℤ). elim o [ none ↦ false | some _ ↦ true ]) e

goes_none : (t : Server) → GoesOn none t → Session t
goes_none t (inl (inl e)) = absurd (ground (arith, some_ne_none e))
goes_none t (inl (inr e)) = absurd (ground (arith, some_ne_none e))
goes_none t (inr (_, p)) = p

-- However many messages a session has answered, the server is in a state of a session and ready for
-- it: the states of a transfer have their buffers, ports and names, and all others hold none.
pub Rounds-Session : (s t : Server) → Rounds s t → Session s → Session t
Rounds-Session s t stop p = p
Rounds-Session s t (next {t = u} e more) p =
    Rounds-Session u t more (goes_none u (subst (λ o. Ends o GoesOn) e (round-GoesOn s p)))
