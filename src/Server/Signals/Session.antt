-- ===== src/Server/Signals/Session.antt =====
-- A signal in the middle of a transfer (bbftp-server/bbftpd/bbftpd_signals.c).
use bbftp.Base.{
  ℕ, zero, suc, ◌≡◌, refl, ◌⊎◌, inl, inr, ◌∙◌, arith, Bool, true, false, ◌&&◌, ◌||◌, not, ◌∷◌,
  Option, none, some, ℤ, pos, eqb_ℤ, if◌then◌else◌, ◌==◌, get_or, Option-cases,
}
use bbftp.Server.{
  Server, State, M, Block, logged, receiving, sending, ◌>>◌, Text, Outcome, waitpid_call, pure,
  continue,
}
use bbftp.Server.Io.{clean_child, free_all_var, items_of}
use bbftp.Server.Files.{storeunlink}
use bbftp.Server.Signals.{
  totpid, tell_failure, child_ended, forget_child, reap_child, reap, transfer_done, reset_transfer,
  settle_children, sigchld, checkendchild,
}
use bbftp.Server.Frames.{Ends, Ends-bind, Ends-mono, Ends-if, Ends-any, Same, reply-Same}
use bbftp.Server.Frames.Files.{storeunlink-Same}
use bbftp.Server.Protocol.Ready.{Clean, Ready, is_some, allocated}

-- What the loop over the children may change: the connection, the calls, the entries of the array, and
-- whether a child has failed.
pub record Reaps (s t : Server) : Type 0 where
  pub frame : t ≡ record s {
    insock = t.insock;
    outsock = t.outsock;
    calls = t.calls;
    mychildren = t.mychildren;
    childendinerror = t.childendinerror;
  }
  pub children : is_some t.mychildren ≡ is_some s.mychildren

tell_failure-Reaps : (n : ℕ) (s : Server) → Ends (tell_failure n s) (λ _ t. Same s t)
unfolding tell_failure
tell_failure-Reaps n s =
    Ends-if (n == 255) _ _ s _ (λ _. reply-Same _ _ s)
      λ _. Ends-if (n == 8) _ _ s _ (λ _. reply-Same _ _ s) (λ _. reply-Same _ _ s)

Reaps-refl : (s : Server) → Reaps s s
Reaps-refl s = record { frame = refl; children = refl }

Reaps-Same : (s t : Server) → Same s t → Reaps s t
Reaps-Same s t p = record { frame = ground (arith, p); children = ground (arith, p) }

Reaps-trans : (s t u : Server) → Reaps s t → Reaps t u → Reaps s u
Reaps-trans s t u p q = record {
  frame = ground (arith, p.frame, q.frame);
  children = q.children ∙ p.children;
}

-- Both parts of a piece that reaps.
Reaps-bind {ℓ} :
    {A : Type ℓ} (s : Server) (o : Outcome A) (f : A → M (Unit {0}))
    → Ends o (λ _ t. Reaps s t)
    → ((a : A) (t : Server) → Ends (f a t) (λ _ u. Reaps t u))
    → Ends (continue o f) (λ _ u. Reaps s u)
Reaps-bind s o f p k =
    Ends-bind o f _ _ p λ a t q. Ends-mono (f a t) _ _ (k a t) (λ b u r. Reaps-trans s t u q r)

unlink-Reaps :
    (b : Bool) (path : Option Text) (s : Server)
    → Ends ((if b then storeunlink path else (λ t. pure (pos 0) t)) s) (λ _ t. Reaps s t)
unlink-Reaps true path s =
    Ends-mono (storeunlink path s) _ _ (storeunlink-Same path s) (λ r t p. Reaps-Same s t p)
unlink-Reaps false path s = Reaps-refl s

child_ended-Reaps : (n : ℕ) (s : Server) → Ends (child_ended n s) (λ _ t. Reaps s t)
unfolding child_ended
child_ended-Reaps n s =
    Ends-if ((n == 0) || s.childendinerror) _ _ s _ (λ _. Reaps-refl s)
      λ _.
        let t = record s { childendinerror = true } in
        Ends-mono _ (λ _ u. Reaps t u) _
          (Reaps-bind t _ (λ _. tell_failure n)
            (unlink-Reaps ((s.unlinkfile == 1) || (s.unlinkfile == 2)) s.realfilename t)
            (λ _ u.
              Ends-mono (tell_failure n u) _ _ (tell_failure-Reaps n u)
                (λ r v p. Reaps-Same u v p)))
          (λ r u p. Reaps-trans s t u (record { frame = refl; children = refl }) p)

forget_child-kept : (i : ℕ) (b : Option Block) → is_some (forget_child i b) ≡ is_some b
unfolding forget_child is_some
forget_child-kept i none = refl
forget_child-kept i (some b) = refl

reap_child-Reaps : (i : ℕ) (pid : ℤ) (s : Server) → Ends (reap_child i pid s) (λ _ t. Reaps s t)
unfolding reap_child
reap_child-Reaps i pid s =
    Ends-if (eqb_ℤ pid (pos 0)) _ _ s _ (λ _. Reaps-refl s)
      λ _.
        let t = record s { calls = waitpid_call pid ∷ s.calls } in
        elim (Option-cases (s.os.waitpid s.calls pid)) [
          | inl e ↦ rw e (Reaps-Same s t refl)
          | inr (status, e) ↦ rw e (
              Ends-mono _ (λ _ u. Reaps t u) _
                (Reaps-bind t (child_ended (checkendchild status) t) _
                  (child_ended-Reaps (checkendchild status) t)
                  (λ _ u. record { frame = refl; children = forget_child-kept i u.mychildren }))
                (λ r u p. Reaps-trans s t u (Reaps-Same s t refl) p))
        ]

reap-Reaps : (left i : ℕ) (s : Server) → Ends (reap left i s) (λ _ t. Reaps s t)
unfolding reap
reap-Reaps zero i s = Reaps-refl s
reap-Reaps (suc left) i s =
    let pid = get_or (items_of s.mychildren) i (pos 0) in
    Reaps-bind s (reap_child i pid s) _ (reap_child-Reaps i pid s)
      (λ _ t. reap-Reaps left (suc i) t)

-- The transfer is over and its variables are free, or it goes on with all of them.
abbrev pub Resumes : State → Server → Type 0
Resumes x t = ((t.state ≡ logged) × Clean t) ⊎ ((t.state ≡ x) × Ready x t)

Reaps-Ready :
    (x : State) (s t : Server) → (x ≡ receiving) ⊎ (x ≡ sending) → Ready x s → Reaps s t → Ready x t
unfolding allocated
Reaps-Ready receiving s t h r p = ground (arith, p.frame, p.children, r)
Reaps-Ready sending s t h r p = ground (arith, p.frame, p.children, r)
Reaps-Ready _ s t (inl e) r p = cc
Reaps-Ready _ s t (inr e) r p = cc

-- What is left once every child has ended.
over :
    (s : Server) (first second : M (Unit {0}))
    → Ends
        (continue (first s) (λ _ t. continue (second t) (λ _. reset_transfer)))
        λ _ t. (t.state ≡ logged) × Clean t
unfolding reset_transfer free_all_var
over s first second =
    Ends-bind (first s) _ (λ _ _. Unit {0}) _ (Ends-any (first s))
      λ _ t _.
        Ends-bind (second t) _ (λ _ _. Unit {0}) _ (Ends-any (second t)) λ _ u _. (refl, refl)

clean_child-Resumes :
    (x : State) (s : Server)
    → (x ≡ receiving) ⊎ (x ≡ sending)
    → s.state ≡ x
    → Ready x s
    → Ends (clean_child s) (λ _ t. Resumes x t)
unfolding clean_child allocated
clean_child-Resumes receiving s h e r = ground (arith, e, r)
clean_child-Resumes sending s h e r = ground (arith, e, r)
clean_child-Resumes _ s (inl d) e r = cc
clean_child-Resumes _ s (inr d) e r = cc

-- The three steps of settle_children: `ended` where no child is left.
settled :
    (ended failed : Bool) (x : State) (s : Server)
    → (x ≡ receiving) ⊎ (x ≡ sending)
    → s.state ≡ x
    → Ready x s
    → Ends
        (((if ended && not failed then transfer_done else (λ t. pure tt t))
            >> ((if failed then clean_child else (λ t. pure tt t))
                >> (if ended then reset_transfer else (λ t. pure tt t))))
          s)
        (λ _ t. Resumes x t)
settled true failed x s h e r =
    Ends-mono _ _ _
      (over s (if not failed then transfer_done else (λ t. pure tt t))
        (if failed then clean_child else (λ t. pure tt t)))
      (λ a t p. inl p)
settled false true x s h e r =
    Ends-bind (clean_child s) _ _ _ (clean_child-Resumes x s h e r) (λ a t p. p)
settled false false x s h e r = inr (e, r)

settle_children-Resumes :
    (x : State) (s : Server)
    → (x ≡ receiving) ⊎ (x ≡ sending)
    → s.state ≡ x
    → Ready x s
    → Ends (settle_children s) (λ _ t. Resumes x t)
unfolding settle_children
settle_children-Resumes x s h e r =
    settled (totpid s.nbpidchild (items_of s.mychildren) == 0) s.childendinerror x s h e r

-- SIGCHLD while a file is received or sent, with a child that has not ended before: where the handler
-- returns, the transfer goes on in its state with all its variables, or it is over, the server is back
-- in S_LOGGED, and every variable of the transfer is free.
pub sigchld-Resumes :
    (x : State) (s : Server)
    → (x ≡ receiving) ⊎ (x ≡ sending)
    → s.state ≡ x
    → Ready x s
    → (totpid s.nbpidchild (items_of s.mychildren) == 0) ≡ false
    → Ends (sigchld s) (λ _ t. Resumes x t)
unfolding sigchld
sigchld-Resumes x s h e r live =
    Ends-if (totpid s.nbpidchild (items_of s.mychildren) == 0) _ _ s _
      (λ z. absurd (ground (arith, z, live)))
      λ _. Ends-bind (reap s.nbpidchild 0 s) _ _ _ (reap-Reaps s.nbpidchild 0 s) λ _ t p.
        settle_children-Resumes x t h (ground (arith, p.frame, e)) (Reaps-Ready x s t h r p)
