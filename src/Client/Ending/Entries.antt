-- ===== src/Client/Ending/Entries.antt =====
-- What becomes of the entries of BBftp_Mychildren at the end of a transfer.
use bbftp.Base.{
  ℕ, ◌≡◌, refl, ◌∙◌, sym, ap, subst, Bool-cases, ◌⊎◌, inl, inr, arith, Bool, true, false, List, [],
  ◌∷◌, Option, none, some, ℤ, pos, negsuc, eqb_ℤ, if◌then◌else◌, ◌==◌, All,
}
use bbftp.Client.{Os, Call, kill_call}
use bbftp.Client.Io.{sigkill}
use bbftp.Client.Ending.{
  echild, kill_children, kill_entries, kill_child, entry_after, poll_child, reap_all, all_zero,
}
use bbftp.Client.Frames.Control.{count_closes}

-- The call stands in the record of the calls.
abbrev pub Issued : Call → List Call → Type 0
Issued call [] = ⊥
Issued call (c ∷ calls) = (c ≡ call) ⊎ Issued call calls

-- What was on record still is.
abbrev pub Grows : List Call → List Call → Type 0
Grows calls later = (call : Call) → Issued call calls → Issued call later

-- waitpid has said that there is no such child.
abbrev pub Gone : Os → ℤ → Type 0
Gone os p = (earlier : List Call) × (os.waitpid earlier p ≡ some echild)

-- No child is left behind: there was none, it was killed, or it is gone.
abbrev pub Handled : Os → List Call → ℤ → Type 0
Handled os calls p = (p ≡ pos 0) ⊎ (Issued (kill_call p sigkill) calls ⊎ Gone os p)

-- What an entry has become before the children are killed.
abbrev pub Follows : Os → ℤ → ℤ → Type 0
Follows os p q = (q ≡ p) ⊎ ((q ≡ pos 0) × Gone os p)

pub data FollowsAll (os : Os) : List ℤ → List ℤ → Type 0 where
  no_entry : FollowsAll os [] []
  entry :
      {p q : ℤ} {ps qs : List ℤ}
      → Follows os p q
      → FollowsAll os ps qs
      → FollowsAll os (p ∷ ps) (q ∷ qs)

eq_nat : (m n : ℕ) → m == n ≡ true → m ≡ n
eq_nat m n e = ground arith

eqb_zero : (p : ℤ) → eqb_ℤ p (pos 0) ≡ true → p ≡ pos 0
eqb_zero (pos n) e = ap pos (ground arith)
eqb_zero (negsuc n) e = ground arith

-- Each branch of a test.
pub by_test {ℓ κ} :
    {A : Type ℓ} (P : A → Type κ) (b : Bool) (x y : A)
    → (b ≡ true → P x)
    → (b ≡ false → P y)
    → P (if b then x else y)
by_test P true x y p q = p refl
by_test P false x y p q = q refl

entry_after-Follows :
    (os : Os) (calls : List Call) (p q : ℤ) (answer : Option ℕ)
    → os.waitpid calls q ≡ answer
    → Follows os p q
    → Follows os p (entry_after answer q)
unfolding entry_after
entry_after-Follows os calls p q none e h = h
entry_after-Follows os calls p q (some n) e h =
    by_test (Follows os p) (n == echild) (pos 0) q
      (λ c. elim h [
        | inl same ↦ inr (
          refl,
          (calls, ap (λ x. os.waitpid calls x) (sym same) ∙ (e ∙ ap some (eq_nat n echild c))),
        )
        | inr w ↦ inr (refl, w.1)
      ])
      (λ _. h)

poll_child-Follows :
    (os : Os) (calls : List Call) (p q : ℤ)
    → Follows os p q
    → Follows os p (poll_child os q calls).0
unfolding poll_child
poll_child-Follows os calls p q h =
    by_test (λ (r : ℤ × List Call). Follows os p r.0) (eqb_ℤ q (pos 0)) _ _ (λ _. h)
      (λ _. entry_after-Follows os calls p q (os.waitpid calls q) refl h)

pub reap_all-Follows :
    (os : Os) {ps qs : List ℤ} (calls : List Call)
    → FollowsAll os ps qs
    → FollowsAll os ps (reap_all os qs calls).0
unfolding reap_all
reap_all-Follows os calls no_entry = no_entry
reap_all-Follows os calls (entry {p} {q} {ps} {qs} h hs) =
    entry (poll_child-Follows os calls p q h) (reap_all-Follows os (poll_child os q calls).1 hs)

poll_child-count :
    (os : Os) (q : ℤ) (calls : List Call)
    → count_closes (poll_child os q calls).1 ≡ count_closes calls
unfolding poll_child
poll_child-count os q calls = ground arith

poll_child-Grows : (os : Os) (q : ℤ) (calls : List Call) → Grows calls (poll_child os q calls).1
unfolding poll_child
poll_child-Grows os q calls call h =
    by_test (λ (r : ℤ × List Call). Issued call r.1) (eqb_ℤ q (pos 0)) _ _ (λ _. h) (λ _. inr h)

pub reap_all-count :
    (os : Os) (qs : List ℤ) (calls : List Call)
    → count_closes (reap_all os qs calls).1 ≡ count_closes calls
unfolding reap_all
reap_all-count os [] calls = refl
reap_all-count os (q ∷ qs) calls =
    reap_all-count os qs (poll_child os q calls).1 ∙ poll_child-count os q calls

pub reap_all-Grows :
    (os : Os) (qs : List ℤ) (calls : List Call) → Grows calls (reap_all os qs calls).1
unfolding reap_all
reap_all-Grows os [] calls call h = h
reap_all-Grows os (q ∷ qs) calls call h =
    reap_all-Grows os qs (poll_child os q calls).1 call (poll_child-Grows os q calls call h)

kill_child-count :
    (q : ℤ) (calls : List Call) → count_closes (kill_child q calls) ≡ count_closes calls
unfolding kill_child
kill_child-count q calls = ground arith

kill_child-Grows : (q : ℤ) (calls : List Call) → Grows calls (kill_child q calls)
unfolding kill_child
kill_child-Grows q calls call h = by_test (Issued call) (eqb_ℤ q (pos 0)) _ _ (λ _. h) (λ _. inr h)

kill_child-Issued :
    (q : ℤ) (calls : List Call)
    → eqb_ℤ q (pos 0) ≡ false
    → Issued (kill_call q sigkill) (kill_child q calls)
unfolding kill_child
kill_child-Issued q calls e =
    subst (λ b. Issued (kill_call q sigkill) (if b then calls else kill_call q sigkill ∷ calls))
      (sym e) (inl refl)

pub kill_children-count :
    (qs : List ℤ) (calls : List Call) → count_closes (kill_children qs calls) ≡ count_closes calls
unfolding kill_children
kill_children-count [] calls = refl
kill_children-count (q ∷ qs) calls =
    kill_children-count qs (kill_child q calls) ∙ kill_child-count q calls

pub kill_children-Grows : (qs : List ℤ) (calls : List Call) → Grows calls (kill_children qs calls)
unfolding kill_children
kill_children-Grows [] calls call h = h
kill_children-Grows (q ∷ qs) calls call h =
    kill_children-Grows qs (kill_child q calls) call (kill_child-Grows q calls call h)

pub kill_entries-count :
    (qs : List ℤ) (calls : List Call) → count_closes (kill_entries qs calls) ≡ count_closes calls
unfolding kill_entries
kill_entries-count [] calls = refl
kill_entries-count (q ∷ qs) calls = kill_entries-count qs (kill_call q sigkill ∷ calls)

pub kill_entries-Grows : (qs : List ℤ) (calls : List Call) → Grows calls (kill_entries qs calls)
unfolding kill_entries
kill_entries-Grows [] calls call h = h
kill_entries-Grows (q ∷ qs) calls call h =
    kill_entries-Grows qs (kill_call q sigkill ∷ calls) call (inr h)

-- A child whose entry is still its own and not 0 has been sent the signal.
entry-Handled :
    (os : Os) (calls : List Call) (p q : ℤ)
    → Follows os p q
    → ((eqb_ℤ q (pos 0) ≡ false) → Issued (kill_call q sigkill) calls)
    → Handled os calls p
entry-Handled os calls p q (inl same) k = elim (Bool-cases (eqb_ℤ q (pos 0))) [
  | inl z ↦ inl (sym same ∙ eqb_zero q z)
  | inr c ↦ inr (inl (subst (λ x. Issued (kill_call x sigkill) calls) same (k c)))
]
entry-Handled os calls p q (inr w) k = inr (inr w.1)

pub kill_children-Handled :
    (os : Os) {ps qs : List ℤ} (calls : List Call)
    → FollowsAll os ps qs
    → All (Handled os (kill_children qs calls)) ps
unfolding kill_children
kill_children-Handled os calls no_entry = tt
kill_children-Handled os calls (entry {p} {q} {ps} {qs} h hs) = (
  entry-Handled os (kill_children (q ∷ qs) calls) p q h (λ e.
      kill_children-Grows qs (kill_child q calls) (kill_call q sigkill)
        (kill_child-Issued q calls e)),
  kill_children-Handled os _ hs,
)

pub kill_entries-Handled :
    (os : Os) {ps qs : List ℤ} (calls : List Call)
    → FollowsAll os ps qs
    → All (Handled os (kill_entries qs calls)) ps
unfolding kill_entries
kill_entries-Handled os calls no_entry = tt
kill_entries-Handled os calls (entry {p} {q} {ps} {qs} h hs) = (
  entry-Handled os (kill_entries (q ∷ qs) calls) p q h
      (λ e. kill_entries-Grows qs (kill_call q sigkill ∷ calls) (kill_call q sigkill) (inl refl)),
  kill_entries-Handled os _ hs,
)

-- Where every entry is 0 there is nothing to kill.
pub all_zero-Handled :
    (os : Os) {ps qs : List ℤ} (calls : List Call)
    → FollowsAll os ps qs
    → all_zero qs ≡ true
    → All (Handled os calls) ps
unfolding all_zero
all_zero-Handled os calls no_entry z = tt
all_zero-Handled os calls (entry {p} {q} {ps} {qs} h hs) z = (
  entry-Handled os calls p q h (λ e. absurd (ground (arith, e, z))),
  all_zero-Handled os calls hs (ground (arith, z)),
)

pub FollowsAll-refl : (os : Os) (ps : List ℤ) → FollowsAll os ps ps
FollowsAll-refl os [] = no_entry
FollowsAll-refl os (p ∷ ps) = entry (inl refl) (FollowsAll-refl os ps)

pub Handled-Grows :
    (os : Os) (ps : List ℤ) (calls later : List Call)
    → Grows calls later
    → All (Handled os calls) ps
    → All (Handled os later) ps
Handled-Grows os [] calls later g h = tt
Handled-Grows os (p ∷ ps) calls later g h = (
  elim (h.0) [
    | inl z ↦ inl z
    | inr (inl k) ↦ inr (inl (g (kill_call p sigkill) k))
    | inr (inr w) ↦ inr (inr w)
  ],
  Handled-Grows os ps calls later g h.1,
)
