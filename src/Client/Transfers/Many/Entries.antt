-- ===== src/Client/Transfers/Many/Entries.antt =====
-- The files that mget and mput take from a list (bbftp_mget.c and bbftp_mput.c of bbftp-client/bbftpc).
use bbftp.Base.{
  ℕ, zero, suc, ◌-◌, ◌≤◌, ◌==◌, ◌≡◌, refl, ◌∙◌, ap, arith, Bool, false, ◌||◌, List, [], ◌∷◌, ◌++◌,
  Option, none, some, ℤ, pos, length, length-append, if◌then◌else◌, All, ltb, ltb_ℤ,
}
use mathlib.Core.Path.{fun_ext}
use bbftp.Client.{Client, Text, M, filled, returns, pure, ◌>>=◌}
use bbftp.Client.Io.{bb_ret_ok, bb_ret_error}
use bbftp.Client.Listing.Lines.{
  Entry, IsEntry, encode_entries, next_string-nul, entries-length, entries-append,
}
use bbftp.Client.Transfers.{Transfers}
use bbftp.Client.Transfers.Many.{char_at, each_file, bbftp_mput, mget_list, mput_file, mget_file}

-- A link that leads nowhere, or a directory.
abbrev pub is_skipped : Entry → Bool
is_skipped e = (char_at e.kind 1 == b'u') || (char_at e.kind 1 == b'd')

-- The transfers of the other files, one after the other, up to one that gives none.
abbrev pub entry_step : (Text → ℤ → M (Option ℤ)) → Entry → ℤ → (ℤ → M ℤ) → M ℤ
entry_step transfer e retcode next =
    if is_skipped e
    then next retcode
    else (transfer e.name retcode >>= λ sent. elim sent [
      | none ↦ pure bb_ret_error
      | some r ↦ next r
    ])

abbrev pub transfer_entries : (Text → ℤ → M (Option ℤ)) → List Entry → ℤ → M ℤ
transfer_entries transfer [] retcode = pure bb_ret_ok
transfer_entries transfer (e ∷ es) retcode =
    entry_step transfer e retcode (transfer_entries transfer es)

-- An entry whose second text is two characters.
abbrev pub IsFile : Entry → Type 0
IsFile e = IsEntry e × (length e.kind ≡ 2)

char_at-front : (kind rest : Text) → length kind ≡ 2 → char_at (kind ++ rest) 1 ≡ char_at kind 1
unfolding char_at
char_at-front [] rest h = absurd (omega (arith, h))
char_at-front (a ∷ []) rest h = absurd (omega (arith, h))
char_at-front (a ∷ b ∷ kind) rest h = refl

each_file-entries :
    (transfer : Text → ℤ → M (Option ℤ)) (es : List Entry) (steps left : ℕ) (rest : List ℕ)
    → (retcode : ℤ) (s : Client) → All IsFile es
    → left ≡ length (encode_entries es)
    → left ≤ steps
    → each_file transfer steps left (encode_entries es ++ rest) retcode s
      ≡ transfer_entries transfer es retcode s
unfolding each_file
each_file-entries transfer [] steps zero rest r s h l b = refl
each_file-entries transfer [] steps (suc left) rest r s h l b = absurd (omega (arith, l))
each_file-entries transfer (e ∷ es) steps zero rest r s h l b =
    absurd (omega (arith, l, entries-length e es))
each_file-entries transfer (e ∷ es) zero (suc left) rest r s h l b = absurd (omega arith)
each_file-entries transfer (e ∷ es) (suc steps) (suc left) rest r s h l b =
    let more = e.kind ++ (0 ∷ (encode_entries es ++ rest)) in
    let first = next_string-nul e.name more h.0.0.0 in
    let second = next_string-nul e.kind (encode_entries es ++ rest) h.0.0.1 in
    let least = suc left - length e.name - 1 - length e.kind - 1 in
    let later : each_file transfer steps least (encode_entries es ++ rest)
        ≡ transfer_entries transfer es =
      fun_ext λ v. fun_ext λ t.
        each_file-entries transfer es steps least rest v t h.1
          (omega (arith, l, entries-length e es)) (omega arith) in
    let kind = char_at-front e.kind (0 ∷ (encode_entries es ++ rest)) h.0.1 in
    let long : ltb (length more) 2 ≡ false =
      ground (arith, length-append e.kind (0 ∷ (encode_entries es ++ rest)), h.0.1) in
    let here : each_file transfer (suc steps) (suc left) (encode_entries (e ∷ es) ++ rest) r s
        ≡ entry_step transfer e r (each_file transfer steps least (encode_entries es ++ rest)) s =
      rw (entries-append e es rest, each_file, first, second, long, kind) refl in
    here ∙ ap (λ (next : ℤ → M ℤ). entry_step transfer e r next s) later

-- mget and mput take exactly the files of a list, in order: over the buffer of an encoded list the loop
-- of either command transfers each file that is no directory and no link that leads nowhere, with its
-- own tries, and ends early only where the memory for the names of one is missing. For mput the list
-- is the one that bbftp_retrlistdir has made.
pub many-entries :
    (world : Transfers) (fuel : ℕ) (es : List Entry) (localfile dir : Text) (r : ℤ) (s t u : Client)
    → All IsFile es
    → ltb_ℤ r (pos 0) ≡ false
    → world.bbftp_retrlistdir localfile s ≡ returns (r, encode_entries es) t
    → (bbftp_mput world fuel localfile dir s ≡ transfer_entries (mput_file world fuel dir) es r t)
      × (mget_list world fuel dir (filled (encode_entries es)) u
          ≡ transfer_entries (mget_file world fuel dir) es bb_ret_ok u)
unfolding bbftp_mput mget_list
many-entries world fuel es localfile dir r s t u h good listed =
    let n = length (encode_entries es) in
    let put =
      each_file-entries (mput_file world fuel dir) es n n (0 ∷ []) r t h refl (omega arith) in
    let get =
      each_file-entries (mget_file world fuel dir) es n n (0 ∷ []) bb_ret_ok u h refl
        (omega arith) in
    (rw (listed, good) put, get)
