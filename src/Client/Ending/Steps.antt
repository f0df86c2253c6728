-- ===== src/Client/Ending/Steps.antt =====
-- What the pieces of the end of a transfer keep: the connection, the entries of the children, the record of
-- the calls.
use bbftp.Base.{ℕ, ◌≡◌, refl, ◌∙◌, sym, subst, inr, arith, true, List, some, ℤ, eqb_ℤ, All}
use bbftp.Client.{Client, Call, M}
use bbftp.Client.Io.{receive, malloc, close_calls}
use bbftp.Client.Frames.{Ends}
use bbftp.Client.Frames.Control.{Closed, count_closes}
use bbftp.Client.Ending.{no_pids, clean_child, kill_every, reap_all, check_children}
use bbftp.Client.Ending.Entries.{
  by_test, Issued, Grows, Handled, FollowsAll, reap_all-Follows, reap_all-count,
  kill_children-count, kill_children-Grows, kill_entries-Grows, kill_children-Handled,
  kill_entries-count, kill_entries-Handled, all_zero-Handled,
}

-- Between two states: the connection stays open, and what the end relies on stays as it was.
pub record Stays (s t : Client) : Type 0 where
  pub closed : Closed 0 s t
  pub system : t.os ≡ s.os
  pub name : t.realfilename ≡ s.realfilename

-- While the client waits, each entry is that of its child, or 0 once the child is gone.
pub record Waiting (ps : List ℤ) (s t : Client) : Type 0 where
  pub stays : Stays s t
  pub entries : List ℤ
  pub children : t.mychildren ≡ some entries
  pub follows : FollowsAll s.os ps entries

-- Once the children have been killed.
pub record Stopped (ps : List ℤ) (s t : Client) : Type 0 where
  pub stays : Stays s t
  pub handled : All (Handled s.os t.calls) ps

pub Stays-refl : (s : Client) → Stays s s
Stays-refl s = ground arith

pub Stays-trans : (s t u : Client) → Stays s t → Stays t u → Stays s u
Stays-trans s t u p q = ground (
  arith, p.closed.count, p.closed.incoming, p.closed.outgoing, p.system, p.name, q.closed.count,
  q.closed.incoming, q.closed.outgoing, q.system, q.name,
)

-- A run from the array with these entries.
with_entries {ℓ κ} :
    {A : Type ℓ} (t : Client) (qs : List ℤ) (m : M A) (Q : A → Client → Type κ)
    → t.mychildren ≡ some qs
    → Ends (m (record t { mychildren = some qs })) Q
    → Ends (m t) Q
with_entries t qs m Q e h = subst (λ c. Ends (m (record t { mychildren = c })) Q) (sym e) h

pub Waiting-after :
    (ps : List ℤ) (s t u : Client)
    → Waiting ps s t
    → Stays t u
    → u.mychildren ≡ t.mychildren
    → Waiting ps s u
Waiting-after ps s t u w k e = record {
  stays = Stays-trans s t u w.stays k;
  entries = w.entries;
  children = e ∙ w.children;
  follows = w.follows;
}

-- A change of the calls and of the array that closes nothing.
pub Stays-calls :
    (t : Client) (calls : List Call) (qs : List ℤ)
    → count_closes calls ≡ count_closes t.calls
    → Stays t (record t { mychildren = some qs; calls = calls })
Stays-calls t calls qs e = ground (arith, e)

-- What the killing of the children leaves.
abbrev pub Stops : List ℤ → Client → Client → Client → Type 0
Stops ps s t u = Stopped ps s u × ((u.errcode ≡ t.errcode) × Grows t.calls u.calls)

pub clean_child-Stops :
    (ps : List ℤ) (s t : Client) → Waiting ps s t → Ends (clean_child t) (λ _ u. Stops ps s t u)
unfolding clean_child
clean_child-Stops ps s t w = with_entries t w.entries clean_child _ w.children (
  record {
    stays =
        Stays-trans s t _ w.stays
          (Stays-calls t _ (no_pids w.entries) (kill_children-count w.entries t.calls));
    handled = kill_children-Handled s.os t.calls w.follows;
  },
  (refl, kill_children-Grows w.entries t.calls),
)

pub kill_every-Stops :
    (ps : List ℤ) (s t : Client) → Waiting ps s t → Ends (kill_every t) (λ _ u. Stops ps s t u)
unfolding kill_every
kill_every-Stops ps s t w = with_entries t w.entries kill_every _ w.children (
  record {
    stays =
        Stays-trans s t _ w.stays
          (Stays-calls t _ (no_pids w.entries) (kill_entries-count w.entries t.calls));
    handled = kill_entries-Handled s.os t.calls w.follows;
  },
  (refl, kill_entries-Grows w.entries t.calls),
)

-- The check of the children: where it says that all are gone, none is left to be killed.
pub check_children-Waits :
    (ps : List ℤ) (s t : Client)
    → Waiting ps s t
    → Ends (check_children t) (λ gone u. Waiting ps s u × (gone ≡ true → Stopped ps s u))
unfolding check_children
check_children-Waits ps s t w =
    let qs = (reap_all t.os w.entries t.calls).0 in
    let calls = (reap_all t.os w.entries t.calls).1 in
    let stays : Stays s (record t { mychildren = some qs; calls = calls }) =
      Stays-trans s t _ w.stays (Stays-calls t calls qs (reap_all-count t.os w.entries t.calls)) in
    let follows : FollowsAll s.os ps qs =
      subst (λ o. FollowsAll s.os ps (reap_all o w.entries t.calls).0) (sym w.stays.system)
        (reap_all-Follows s.os t.calls w.follows) in
    with_entries t w.entries check_children _ w.children (
      record { stays = stays; entries = qs; children = refl; follows = follows },
      λ z. record { stays = stays; handled = all_zero-Handled s.os calls follows z },
    )

pub receive-Stays :
    (n : ℤ) (t : Client) → Ends (receive n t) (λ _ u. Stays t u × (u.mychildren ≡ t.mychildren))
unfolding receive
receive-Stays n t = ground arith

pub malloc-Stays :
    (n : ℕ) (t : Client) → Ends (malloc n t) (λ _ u. Stays t u × (u.mychildren ≡ t.mychildren))
unfolding malloc
malloc-Stays n t = ground arith

pub close_calls-Grows : (t : Client) → Grows t.calls (close_calls t)
close_calls-Grows t call h =
    by_test (Issued call) (eqb_ℤ t.incontrolsock t.outcontrolsock) _ _ (λ _. inr h)
      (λ _. inr (inr h))
