-- ===== src/Client/Commands/Basename.antt =====
-- get_basename of bbftp-client/bbftpc/bbftp_cmds.c, and the names that put and get make with it.
use bbftp.Base.{
  ℕ, zero, suc, ◌-◌, ◌≤◌, ◌<◌, ◌==◌, ◌≡◌, refl, ◌⊎◌, inl, inr, sym, subst, arith, true, false, [],
  ◌∷◌, length, drop, drop-length, All, Bool-cases,
}
use bbftp.Client.{Client, Text}
use bbftp.Client.Transfers.{Transfers}
use bbftp.Client.Transfers.Many.{char_at}
use bbftp.Client.Commands.Names.{basename_at, get_basename}

drop-char_at :
    (file : Text) (n : ℕ) → n < length file → drop n file ≡ char_at file n ∷ drop (suc n) file
unfolding char_at
drop-char_at [] n h = absurd (omega arith)
drop-char_at (c ∷ cs) zero h = refl
drop-char_at (c ∷ cs) (suc n) h = drop-char_at cs n (omega arith)

abbrev pub HasNoSlash : Text → Type 0
HasNoSlash t = All (λ c. (c == b'/') ≡ false) t

-- The part of a name from `at` on is its last part.
pub record IsLast (file base : Text) (at : ℕ) : Type 0 where
  pub here : base ≡ drop at file
  pub inside : at ≤ length file
  pub last : HasNoSlash base
  pub behind : (at ≡ 0) ⊎ ((char_at file (at - 1) == b'/') ≡ true)

basename_at-IsLast :
    (file : Text) (n : ℕ)
    → n ≤ length file
    → HasNoSlash (drop n file)
    → (at : ℕ) × IsLast file (basename_at file n) at
unfolding basename_at
basename_at-IsLast file zero h clean =
    (0, record { here = refl; inside = h; last = clean; behind = inl refl })
basename_at-IsLast file (suc n) h clean = elim (Bool-cases (char_at file n == b'/')) [
  | inl e ↦ (suc n, ground (arith, e, clean, h))
  | inr e ↦
      let split = drop-char_at file n (omega arith) in
      let (at, found) =
        basename_at-IsLast file n (omega arith) (subst HasNoSlash (sym split) (e, clean)) in
      (at, ground (arith, e, found.here, found.inside, found.last, found.behind))
]

-- get_basename gives what stands behind the last slash of a name, or the whole name if it has none.
pub get_basename-IsLast : (file : Text) → (at : ℕ) × IsLast file (get_basename file) at
unfolding get_basename
get_basename-IsLast file =
    basename_at-IsLast file (length file) (omega arith)
      (subst HasNoSlash (sym (drop-length file)) tt)
