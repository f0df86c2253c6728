-- ===== src/Client/Ending/Contract.antt =====
-- What bbftp_put and bbftp_get promise to their caller from waitcontrol on.
use bbftp.Base.{
  ℕ, ◌<◌, ◌≡◌, refl, ap, inl, inr, arith, Bool, false, List, ◌∷◌, Option, some, ℤ, has,
}
use bbftp.Channel.{SelectAnswer}
use bbftp.Wire.Codes.{tropt_mode, tropt_tmp}
use bbftp.Client.{Client, Text, Call, unlink_call, M, pure}
use bbftp.Client.Listing.{free_all_var}
use bbftp.Client.Frames.{Ends, Ends-bind, Ends-if}
use bbftp.Client.Ending.{
  clean_child, discard_rest, finish_put, unlink_real, storechmod, storerename, give_up_file,
  optional, drop_simulated, finish_get, end_put, end_get,
}
use bbftp.Client.Ending.Entries.{Issued, FollowsAll-refl}
use bbftp.Client.Ending.Waits.{Concluded, wait_end-Concludes}
use bbftp.Client.Ending.Steps.{Stays, Stays-refl, Waiting, Waiting-after, clean_child-Stops}

discard_rest-Stays :
    (n : ℤ) (t : Client)
    → Ends (discard_rest n t) (λ _ u. Stays t u × (u.mychildren ≡ t.mychildren))
unfolding discard_rest
discard_rest-Stays n t = ground arith

finish_put-Concludes :
    (Removed : Option Text → List Call → Type 0) (n : ℤ) (ps : List ℤ) (s t : Client)
    → Waiting ps s t
    → Ends (finish_put n t) (Concluded Removed ps s)
unfolding finish_put free_all_var
finish_put-Concludes Removed n ps s t w =
    Ends-bind (discard_rest n t) _ _ _ (discard_rest-Stays n t) λ _ u p.
      Ends-bind (clean_child u) _ _ _ (clean_child-Stops ps s u (Waiting-after ps s t u w p.0 p.1))
        λ _ v q. record {
          settles =
              let stays = q.0.stays in
              ground (arith, stays.closed.count, stays.closed.incoming, stays.closed.outgoing);
          handled = q.0.handled;
          freed = refl;
          removed = inl refl;
        }

-- BBftp_Realfilename has been removed.
abbrev pub Unlinked : Option Text → List Call → Type 0
Unlinked name calls = Issued (unlink_call name) calls

give_up_file-Concludes :
    (ps : List ℤ) (s t : Client)
    → Waiting ps s t
    → 0 < t.errcode
    → Ends (give_up_file t) (Concluded Unlinked ps s)
unfolding give_up_file unlink_real free_all_var
give_up_file-Concludes ps s t w e =
    let u = record t { calls = unlink_call t.realfilename ∷ t.calls } in
    Ends-bind (clean_child u) _ _ _
      (clean_child-Stops ps s u (Waiting-after ps s t u w (ground arith) refl))
      λ _ v q. record {
        settles =
            let stays = q.0.stays in
            ground
              (arith, e, q.1.0, stays.closed.count, stays.closed.incoming, stays.closed.outgoing);
        handled = q.0.handled;
        freed = refl;
        removed = inr (q.1.1 (unlink_call s.realfilename) (inl (ap unlink_call w.stays.name)));
      }

-- A step of bbftp_get that may fail, with an errcode.
abbrev Tried : Client → Bool → Client → Type 0
Tried t ok u = Stays t u × ((u.mychildren ≡ t.mychildren) × (ok ≡ false → 0 < u.errcode))

storechmod-Tried : (t : Client) → Ends (storechmod t) (Tried t)
unfolding storechmod
storechmod-Tried t = ground arith

storerename-Tried : (t : Client) → Ends (storerename t) (Tried t)
unfolding storerename
storerename-Tried t = ground arith

optional-Concludes :
    (option : ℕ) (step : M Bool) (next : M ℤ) (ps : List ℤ) (s t : Client)
    → ((v : Client) → Ends (step v) (Tried v))
    → ((v : Client) → Waiting ps s v → Ends (next v) (Concluded Unlinked ps s))
    → Waiting ps s t
    → Ends (optional option step next t) (Concluded Unlinked ps s)
unfolding optional
optional-Concludes option step next ps s t h k w =
    Ends-if (has t.transferoption option) _ _ t _
      (λ _. Ends-bind (step t) _ _ _ (h t) λ ok u p.
        let w = Waiting-after ps s t u w p.0 p.1.0 in
        Ends-if ok _ _ u _ (λ _. k u w) (λ e. give_up_file-Concludes ps s u w (p.1.1 e)))
      (λ _. k t w)

drop_simulated-Stays :
    (t : Client) → Ends (drop_simulated t) (λ _ u. Stays t u × (u.mychildren ≡ t.mychildren))
unfolding drop_simulated
drop_simulated-Stays t = ground arith

finish_get-Concludes :
    (n : ℤ) (ps : List ℤ) (s t : Client)
    → Waiting ps s t
    → Ends (finish_get n t) (Concluded Unlinked ps s)
unfolding finish_get
finish_get-Concludes n ps s t w =
    optional-Concludes tropt_mode storechmod _ ps s t storechmod-Tried
      (λ u w.
        optional-Concludes tropt_tmp storerename _ ps s u storerename-Tried
          (λ v w.
            Ends-bind (drop_simulated v) _ _ _ (drop_simulated-Stays v)
              λ _ x p. finish_put-Concludes Unlinked n ps s x (Waiting-after ps s v x w p.0 p.1))
          w)
      w

Waiting-refl : (ps : List ℤ) (s : Client) → s.mychildren ≡ some ps → Waiting ps s s
Waiting-refl ps s e = record {
  stays = Stays-refl s;
  entries = ps;
  children = e;
  follows = FollowsAll-refl s.os ps;
}

-- The end of bbftp_put and that of bbftp_get for the children with the identifiers `ps`, whatever the server
-- and the system answer: where one returns, it has closed the connection, once each descriptor,
-- exactly if its result says so; a result that is not BB_RET_OK comes with an errcode; every child has been killed,
-- or waitpid has said that it is gone; the array of the children is freed; and bbftp_get has asked for the
-- file to be removed unless the result is BB_RET_OK.
pub ends-Conclude :
    (ticks : List SelectAnswer) (ps : List ℤ) (s : Client)
    → s.mychildren ≡ some ps
    → Ends (end_put ticks s) (Concluded (λ name calls. Unit {0}) ps s)
      × Ends (end_get ticks s) (Concluded Unlinked ps s)
unfolding end_put end_get unlink_real
ends-Conclude ticks ps s e = (
  wait_end-Concludes (λ name calls. Unit {0}) (λ name a b g h. tt) (pure tt)
      (λ t. (ground arith, (refl, (λ call h. h, tt)))) finish_put false ticks ps s s
      (λ n u w. finish_put-Concludes _ n ps s u w) (Waiting-refl ps s e),
  wait_end-Concludes Unlinked (λ name a b g h. g (unlink_call name) h) unlink_real
      (λ t. (ground arith, (refl, (λ call h. inr h, inl refl)))) finish_get false ticks ps s s
      (λ n u w. finish_get-Concludes n ps s u w) (Waiting-refl ps s e),
)
