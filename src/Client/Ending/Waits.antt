-- ===== src/Client/Ending/Waits.antt =====
-- The wait for the end of a transfer, whatever the server and the system answer: each way out kills the
-- children, undoes what the transfer has done to the file, and frees the arrays.
use bbftp.Base.{
  ℕ, ◌<◌, ◌≡◌, refl, sym, subst, ◌⊎◌, inr, ◌^◌, ◌-◌, ◌+◌, arith, Bool, true, ◌||◌, not, List, [],
  ◌∷◌, Option, none, ℤ, pos, negsuc, eqb_ℤ, ◌==◌, All,
}
use bbftp.Channel.{SelectAnswer, ready, expired, select_failed, eintr}
use bbftp.Wire.{Message, decode_message}
use bbftp.Wire.Codes.{msg_ok, msg_bad, msg_bad_no_retry, msg_info}
use bbftp.Client.{Client, Text, Call, M, pure, set_errcode, ◌>>=◌, ◌>>◌}
use bbftp.Client.Io.{receive, malloc, close_control, bb_ret_ok, bb_ret_conn_broken}
use bbftp.Client.Listing.{free_all_var}
use bbftp.Client.Frames.{Ends, Ends-bind, Ends-mono, Ends-if, Ends-elim, Ends-option}
use bbftp.Client.Frames.Control.{Settles}
use bbftp.Client.Ending.{
  clean_child, kill_every, check_children, break_off, no_more_child, read_body, transfer_failed,
  end_message, wait_end,
}
use bbftp.Client.Ending.Entries.{Issued, Grows, Handled, Handled-Grows, by_test}
use bbftp.Client.Ending.Steps.{
  Stays, Stays-trans, Waiting, Waiting-after, Stopped, Stops, clean_child-Stops, kill_every-Stops,
  check_children-Waits, receive-Stays, malloc-Stays, close_calls-Grows,
}

-- The end: the connection is closed where the result says so, no child is left, the array is freed, and
-- the file is removed after a failure.
pub record Concluded (Removed : Option Text → List Call → Type 0) (ps : List ℤ) (s : Client) (r : ℤ)
    (t : Client) : Type 0 where
  pub settles : Settles s r t
  pub handled : All (Handled s.os t.calls) ps
  pub freed : t.mychildren ≡ none
  pub removed : (r ≡ bb_ret_ok) ⊎ Removed s.realfilename t.calls

-- The last steps of a broken connection.
abbrev leave_broken : M ℤ
leave_broken = free_all_var >> (close_control >> pure bb_ret_conn_broken)

leave_broken-Settles :
    (s t : Client)
    → Stays s t
    → 0 < t.errcode
    → Ends (leave_broken t) (λ r u. Settles s r u × ((u.mychildren ≡ none) × Grows t.calls u.calls))
unfolding free_all_var close_control
leave_broken-Settles s t k e = (
  ground (arith, k.closed.count, k.closed.incoming, k.closed.outgoing, e),
  (
    refl,
    λ call h.
        by_test (Issued call) (eqb_ℤ t.ssh_childpid (pos 0)) _ _ (λ _. close_calls-Grows t call h)
          (λ _. inr (close_calls-Grows t call h)),
  ),
)

module _ (Removed : Option Text → List Call → Type 0)
    (kept : (name : Option Text) (a b : List Call) → Grows a b → Removed name a → Removed name b)
    (undo : M (Unit {0}))
    (undoes : (t : Client)
      → Ends (undo t) (λ _ u.
        Stays t u
        × ((u.errcode ≡ t.errcode)
            × (Grows t.calls u.calls × Removed t.realfilename u.calls)))) where
  leave_broken-Concludes :
      (ps : List ℤ) (s t : Client)
      → Stopped ps s t
      → 0 < t.errcode
      → Ends ((undo >>= λ _. leave_broken) t) (Concluded Removed ps s)
  leave_broken-Concludes ps s t k e =
      Ends-bind (undo t) (λ _. leave_broken) _ _ (undoes t)
        λ _ u d.
          let stays = Stays-trans s t u k.stays d.0 in
          Ends-mono (leave_broken u) _ _
            (leave_broken-Settles s u stays (subst (λ n. 0 < n) (sym d.1.0) e))
            λ r v q. record {
              settles = q.0;
              handled =
                  Handled-Grows s.os ps t.calls v.calls (λ call h. q.1.1 call (d.1.1.0 call h))
                    k.handled;
              freed = q.1.0;
              removed = inr (
                  kept s.realfilename u.calls v.calls q.1.1
                    (subst (λ n. Removed n u.calls) k.stays.name d.1.1.1));
            }

  -- A way out that kills the children in one of the two ways first.
  pub stop-Concludes :
      (stop : M (Unit {0})) (err : ℕ) (ps : List ℤ) (s t : Client)
      → ((v : Client) → Waiting ps s v → Ends (stop v) (λ _ u. Stops ps s v u))
      → 0 < err
      → Waiting ps s t
      → Ends
          ((set_errcode err >>= λ _. stop >>= λ _. undo >>= λ _. leave_broken) t)
          (Concluded Removed ps s)
  stop-Concludes stop err ps s t stops e w =
      let v = record t { errcode = err } in
      Ends-bind (stop v) (λ _. undo >>= λ _. leave_broken) _ _
        (stops v (Waiting-after ps s t v w (ground arith) refl))
        λ _ u p. leave_broken-Concludes ps s u p.0 (subst (λ n. 0 < n) (sym p.1.0) e)

  pub break_off-Concludes :
      (err : ℕ) (ps : List ℤ) (s t : Client)
      → 0 < err
      → Waiting ps s t
      → Ends (break_off undo err t) (Concluded Removed ps s)
  unfolding break_off
  break_off-Concludes err ps s t e w =
      stop-Concludes clean_child err ps s t (clean_child-Stops ps s) e w

  pub no_more_child-Concludes :
      (ps : List ℤ) (s t : Client)
      → Stopped ps s t
      → Ends (no_more_child undo t) (Concluded Removed ps s)
  unfolding no_more_child
  no_more_child-Concludes ps s t k =
      leave_broken-Concludes ps s (record t { errcode = 37 })
        (record { stays = Stays-trans s t _ k.stays (ground arith); handled = k.handled })
        (omega arith)

  pub read_body-Concludes :
      (n : ℤ) (no_memory lost : M ℤ) (next : Text → M ℤ) (ps : List ℤ) (s t : Client)
      → ((u : Client) → Waiting ps s u → Ends (no_memory u) (Concluded Removed ps s))
      → ((u : Client) → Waiting ps s u → Ends (lost u) (Concluded Removed ps s))
      → ((bytes : Text) (u : Client)
          → Waiting ps s u
          → Ends (next bytes u) (Concluded Removed ps s))
      → Waiting ps s t
      → Ends (read_body n no_memory lost next t) (Concluded Removed ps s)
  unfolding read_body
  read_body-Concludes (negsuc n) no_memory lost next ps s t h k l w =
      Ends-bind (malloc _ t) _ _ _ (malloc-Stays _ t)
        λ fits u p. Ends-if fits _ _ u _ (λ _. tt) (λ _. h u (Waiting-after ps s t u w p.0 p.1))
  read_body-Concludes (pos n) no_memory lost next ps s t h k l w =
      Ends-if (n == 2 ^ 31 - 1) _ _ t _ (λ _. tt)
        λ _. Ends-bind (malloc (n + 1) t) _ _ _ (malloc-Stays (n + 1) t) λ fits u p.
          let w = Waiting-after ps s t u w p.0 p.1 in
          Ends-if (not fits) _ _ u _ (λ _. h u w)
            λ _. Ends-bind (receive (pos n) u) _ _ _ (receive-Stays (pos n) u) λ r v q.
              let w = Waiting-after ps s u v w q.0 q.1 in
              Ends-option r _ _ v _ (λ _. k v w) (λ bytes _. l bytes v w)

  pub transfer_failed-Concludes :
      (code : ℕ) (n : ℤ) (ps : List ℤ) (s t : Client)
      → Waiting ps s t
      → Ends (transfer_failed undo code n t) (Concluded Removed ps s)
  unfolding transfer_failed free_all_var
  transfer_failed-Concludes code n ps s t w =
      read_body-Concludes n _ _ _ ps s t
        (λ u w. stop-Concludes kill_every 35 ps s u (kill_every-Stops ps s) (omega arith) w)
        (λ u w. break_off-Concludes 67 ps s u (omega arith) w)
        (λ bytes u w. Ends-bind (clean_child u) _ _ _ (clean_child-Stops ps s u w) λ _ v p.
          Ends-bind (undo v) _ _ _ (undoes v) λ _ x d.
            let stays = Stays-trans s v x p.0.stays d.0 in
            record {
              settles =
                  ground (arith, stays.closed.count, stays.closed.incoming, stays.closed.outgoing);
              handled = Handled-Grows s.os ps v.calls x.calls d.1.1.0 p.0.handled;
              freed = refl;
              removed = inr (subst (λ n. Removed n x.calls) p.0.stays.name d.1.1.1);
            })
        w

  pub end_message-Concludes :
      (finish : ℤ → M ℤ) (again : M ℤ) (msg : Message) (ps : List ℤ) (s t : Client)
      → ((n : ℤ) (u : Client) → Waiting ps s u → Ends (finish n u) (Concluded Removed ps s))
      → ((u : Client) → Waiting ps s u → Ends (again u) (Concluded Removed ps s))
      → Waiting ps s t
      → Ends (end_message undo finish again msg t) (Concluded Removed ps s)
  unfolding end_message
  end_message-Concludes finish again msg ps s t f a w =
      Ends-if ((msg.code == msg_bad) || (msg.code == msg_bad_no_retry)) _ _ t _
        (λ _. transfer_failed-Concludes msg.code msg.msglen ps s t w)
        λ _.
          Ends-if (msg.code == msg_ok) _ _ t _ (λ _. f msg.msglen t w)
            λ _.
              Ends-if (msg.code == msg_info) _ _ t _
                (λ _.
                  read_body-Concludes msg.msglen _ _ _ ps s t
                    (λ u w. break_off-Concludes 35 ps s u (omega arith) w)
                    (λ u w. break_off-Concludes 67 ps s u (omega arith) w) (λ bytes. a) w)
                (λ _. break_off-Concludes 62 ps s t (omega arith) w)

  pub wait_end-Concludes :
      (finish : ℤ → M ℤ) (k : Bool) (ticks : List SelectAnswer) (ps : List ℤ) (s t : Client)
      → ((n : ℤ) (u : Client) → Waiting ps s u → Ends (finish n u) (Concluded Removed ps s))
      → Waiting ps s t
      → Ends (wait_end undo finish k ticks t) (Concluded Removed ps s)
  unfolding wait_end
  wait_end-Concludes finish k [] ps s t f w = tt
  wait_end-Concludes finish k (select_failed e ∷ rest) ps s t f w =
      Ends-elim (e == eintr) _ _ t _ (λ _. wait_end-Concludes finish k rest ps s t f w)
        (λ _. break_off-Concludes 66 ps s t (omega arith) w)
  wait_end-Concludes finish k (expired ∷ rest) ps s t f w =
      Ends-bind (check_children t) _ _ _ (check_children-Waits ps s t w) λ gone u p.
        Ends-elim gone _ _ u _
          (λ z.
            Ends-elim k _ _ u _ (λ _. no_more_child-Concludes ps s u (p.1 z))
              (λ _. wait_end-Concludes finish true rest ps s u f p.0))
          (λ _. wait_end-Concludes finish k rest ps s u f p.0)
  wait_end-Concludes finish k (ready ∷ rest) ps s t f w =
      Ends-bind (receive (pos 8) t) _ _ _ (receive-Stays (pos 8) t) λ head u p.
        let w = Waiting-after ps s t u w p.0 p.1 in
        Ends-option head _ _ u _ (λ _. break_off-Concludes 61 ps s u (omega arith) w)
          (λ bytes _.
            end_message-Concludes finish _ (decode_message bytes) ps s u f
              (λ v w. wait_end-Concludes finish k rest ps s v f w) w)
