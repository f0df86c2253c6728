-- ===== src/Client/Listing/Lines.antt =====
-- The lines that bbftp_dir of bbftp-client/bbftpc/bbftp_dir.c shows.
use bbftp.Base.{
  ℕ, ◌+◌, ◌==◌, ◌≡◌, refl, arith, false, List, [], ◌∷◌, ◌++◌, some, length, length-append, text,
  All,
}
use mathlib.Core.List.{append_assoc}
use bbftp.Client.{Client, Text, Call, stdout_call}
use bbftp.Client.Listing.{next_string}

abbrev pub HasNoNul : Text → Type 0
HasNoNul t = All (λ c. (c == 0) ≡ false) t

-- A file of the list: its name, and the two characters that say what it is.
pub record Entry : Type 0 where
  pub name : Text
  pub kind : Text

abbrev pub IsEntry : Entry → Type 0
IsEntry e = HasNoNul e.name × HasNoNul e.kind

-- The list as the server sends it: each of the two texts with a 0 behind it.
abbrev pub encode_entries : List Entry → List ℕ
encode_entries [] = []
encode_entries (e ∷ es) = e.name ++ (0 ∷ (e.kind ++ (0 ∷ encode_entries es)))

abbrev pub show_entries : List Entry → List Call → List Call
show_entries [] calls = calls
show_entries (e ∷ es) calls =
    show_entries es (stdout_call (e.kind ++ (text " " ++ (e.name ++ text "\n"))) ∷ calls)

pub next_string-nul :
    (t rest : List ℕ) → HasNoNul t → next_string (t ++ (0 ∷ rest)) ≡ some (t, rest)
unfolding next_string
next_string-nul [] rest h = refl
next_string-nul (c ∷ cs) rest h = ground (arith, h.0, next_string-nul cs rest h.1)

pub entries-length :
    (e : Entry) (es : List Entry)
    → length (encode_entries (e ∷ es))
      ≡ length e.name + length e.kind + 2 + length (encode_entries es)
entries-length e es = omega (
  arith,
  length-append e.name (0 ∷ (e.kind ++ (0 ∷ encode_entries es))),
  length-append e.kind (0 ∷ encode_entries es),
)

pub entries-append :
    (e : Entry) (es : List Entry) (rest : List ℕ)
    → encode_entries (e ∷ es) ++ rest
      ≡ e.name ++ (0 ∷ (e.kind ++ (0 ∷ (encode_entries es ++ rest))))
entries-append e es rest = rw (append_assoc, append_assoc)
