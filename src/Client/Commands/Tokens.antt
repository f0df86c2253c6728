-- ===== src/Client/Commands/Tokens.antt =====
-- The words of a command line: the first part of bbftp-client/bbftpc/bbftp_cmds.c.
use bbftp.Base.{
  ℕ, zero, suc, ◌+◌, ◌-◌, ◌*◌, ◌==◌, leb, Bool, true, false, ◌&&◌, ◌||◌, not, List, [], ◌∷◌, Option,
  none, some, length, take, if◌then◌else◌,
}
use bbftp.Client.{Text, M, pure, ◌>>=◌, ◌>>◌, modify}
use bbftp.Client.Io.{malloc}

-- isspace in the C locale.
abbrev pub isspace : ℕ → Bool
isspace c = (c == 32) || (leb 9 c && leb c 13)

-- What strcmp compares.
unfoldable pub eq_text : Text → Text → Bool
eq_text [] [] = true
eq_text [] (y ∷ ys) = false
eq_text (x ∷ xs) [] = false
eq_text (x ∷ xs) (y ∷ ys) = (x == y) && eq_text xs ys

unfoldable pub skip_whitepace : Text → Text
skip_whitepace [] = []
skip_whitepace (c ∷ cs) = if isspace c then skip_whitepace cs else c ∷ cs

unfoldable pub skip_non_whitepace : Text → Text
skip_non_whitepace [] = []
skip_non_whitepace (c ∷ cs) = if isspace c then c ∷ cs else skip_non_whitepace cs

-- What the loops of tokenize find, on fuel: each word takes a character at least.
unfoldable pub words_from : ℕ → Text → List Text
words_from zero s = []
words_from (suc fuel) s = elim (skip_whitepace s) [
  | [] ↦ []
  | c ∷ cs ↦
      let e = skip_non_whitepace (c ∷ cs) in
      take (length (c ∷ cs) - length e) (c ∷ cs) ∷ words_from fuel e
]

unfoldable pub words : Text → List Text
words s = words_from (length s) s

unfoldable pub no_memory : M (Option (List Text))
no_memory = do modify λ s. record s { myexitcode = 35 }; pure none

-- The second loop: a strndup for each word.
unfoldable pub copy_words : List Text → M (Option (List Text))
copy_words [] = pure (some [])
copy_words (w ∷ ws) = do
  fits ← malloc (length w + 1)
  if not fits then no_memory else (do
    rest ← copy_words ws
    elim rest [ none ↦ pure none | some copied ↦ pure (some (w ∷ copied)) ])

unfoldable pub tokenize : Text → M (Option (List Text))
tokenize cmdstr = do
  fits ← malloc ((length (words cmdstr) + 1) * 8)
  if fits then copy_words (words cmdstr) else no_memory
