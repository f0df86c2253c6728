-- ===== src/Client/Commands/Words.antt =====
-- The words that tokenize finds in a command line (bbftp-client/bbftpc/bbftp_cmds.c).
use bbftp.Base.{
  ℕ, zero, suc, ◌-◌, ◌≤◌, ◌≡◌, ◌≢◌, refl, sym, ◌⊎◌, ◌∙◌, ap, arith, true, false, List, [], ◌∷◌,
  ◌++◌, length, length-append, take, if◌then◌else◌, All, Bool-cases, inl, inr,
}
use bbftp.Client.{Text}
use bbftp.Client.Commands.Tokens.{isspace, skip_whitepace, skip_non_whitepace, words_from, words}
use bbftp.Client.Frames.Speech.{concat}

abbrev pub IsWord : Text → Type 0
IsWord w = (w ≢ []) × All (λ c. isspace c ≡ false) w

-- The characters that are no spaces.
unfoldable pub unspaced : Text → Text
unspaced [] = []
unspaced (c ∷ cs) = if isspace c then unspaced cs else c ∷ unspaced cs

skip_whitepace-length : (s : Text) → length (skip_whitepace s) ≤ length s
unfolding skip_whitepace
skip_whitepace-length [] = omega arith
skip_whitepace-length (c ∷ cs) = ground (arith, skip_whitepace-length cs)

skip_whitepace-unspaced : (s : Text) → unspaced (skip_whitepace s) ≡ unspaced s
unfolding skip_whitepace unspaced
skip_whitepace-unspaced [] = refl
skip_whitepace-unspaced (c ∷ cs) = ground (arith, skip_whitepace-unspaced cs)

skip_whitepace-head : (s : Text) (c : ℕ) (cs : Text) → skip_whitepace s ≡ c ∷ cs → isspace c ≡ false
unfolding skip_whitepace
skip_whitepace-head [] c cs e = ground (arith, e)
skip_whitepace-head (d ∷ ds) c cs e = elim (Bool-cases (isspace d)) [
  | inl h ↦ skip_whitepace-head ds c cs (ground (arith, e, h))
  | inr h ↦ ground (arith, e, h)
]

skip_non_whitepace-length : (s : Text) → length (skip_non_whitepace s) ≤ length s
unfolding skip_non_whitepace
skip_non_whitepace-length [] = omega arith
skip_non_whitepace-length (c ∷ cs) = ground (arith, skip_non_whitepace-length cs)

-- The characters that skip_non_whitepace goes over.
abbrev front : Text → Text
front s = take (length s - length (skip_non_whitepace s)) s

take-suc : (n m : ℕ) (c : ℕ) (cs : Text) → m ≤ n → take (suc n - m) (c ∷ cs) ≡ c ∷ take (n - m) cs
take-suc n m c cs h = let e : suc n - m ≡ suc (n - m) = omega arith in ap (λ k. take k (c ∷ cs)) e

front_step : (c : ℕ) (cs : Text) → isspace c ≡ false → front (c ∷ cs) ≡ c ∷ front cs
unfolding skip_non_whitepace
front_step c cs h =
    rw h (take-suc (length cs) (length (skip_non_whitepace cs)) c cs (skip_non_whitepace-length cs))

front_stop : (c : ℕ) (cs : Text) → isspace c ≡ true → front (c ∷ cs) ≡ []
unfolding skip_non_whitepace
front_stop c cs h =
    let e : suc (length cs) - suc (length cs) ≡ 0 = omega arith in
    rw h (ap (λ k. take k (c ∷ cs)) e)

record Front (s : Text) : Type 0 where
  whole : All (λ c. isspace c ≡ false) (front s)
  kept : unspaced s ≡ front s ++ unspaced (skip_non_whitepace s)

Front-any : (s : Text) → Front s
unfolding skip_non_whitepace unspaced
Front-any [] = record { whole = tt; kept = refl }
Front-any (c ∷ cs) = elim (Bool-cases (isspace c)) [
  | inl h ↦ ground (arith, h, front_stop c cs)
  | inr h ↦ ground (arith, h, front_step c cs, (Front-any cs).whole, (Front-any cs).kept)
]

unspaced_nil : unspaced [] ≡ []
unfolding unspaced
unspaced_nil = refl

unspaced_cons : (c : ℕ) (cs : Text) → isspace c ≡ false → unspaced (c ∷ cs) ≡ c ∷ unspaced cs
unfolding unspaced
unspaced_cons c cs h = rw h

skip_over :
    (c : ℕ) (cs : Text) → isspace c ≡ false → skip_non_whitepace (c ∷ cs) ≡ skip_non_whitepace cs
unfolding skip_non_whitepace
skip_over c cs h = rw h

List-cases : (s : Text) → (s ≡ []) ⊎ ((c : ℕ) × (cs : Text) × (s ≡ c ∷ cs))
List-cases [] = inl refl
List-cases (c ∷ cs) = inr (c, cs, refl)

words_from-unspaced :
    (fuel : ℕ) (s : Text)
    → length s ≤ fuel
    → All IsWord (words_from fuel s) × (concat (words_from fuel s) ≡ unspaced s)
unfolding words_from
words_from-unspaced zero [] h = (tt, sym unspaced_nil)
words_from-unspaced zero (c ∷ cs) h = absurd (omega arith)
words_from-unspaced (suc fuel) s h = elim (List-cases (skip_whitepace s)) [
  | inl e ↦
      let none_left : unspaced (skip_whitepace s) ≡ unspaced [] = ap unspaced e in
      ground (arith, e, none_left, skip_whitepace-unspaced s, unspaced_nil)
  | inr (c, cs, e) ↦
      let whole = skip_whitepace-head s c cs e in
      let stepped = front_step c cs whole in
      let rest = skip_non_whitepace cs in
      let after : skip_non_whitepace (c ∷ cs) ≡ rest = skip_over c cs whole in
      let short = skip_whitepace-length s in
      let size : length (skip_whitepace s) ≡ suc (length cs) = ap length e in
      let later = words_from-unspaced fuel rest (omega (arith, skip_non_whitepace-length cs)) in
      let kept : unspaced (skip_whitepace s) ≡ c ∷ unspaced cs =
        ap unspaced e ∙ unspaced_cons c cs whole in
      let all = Front-any cs in
      let word : take (suc (length cs) - length (skip_non_whitepace (c ∷ cs))) (c ∷ cs)
          ≡ c ∷ front cs =
        stepped in
      ground (
        arith,
        e,
        after,
        word,
        later.0,
        later.1,
        all.whole,
        all.kept,
        kept,
        whole,
        skip_whitepace-unspaced s,
      )
]

-- Words with a space behind each.
abbrev pub line : List Text → Text
line [] = []
line (w ∷ ws) = w ++ (32 ∷ line ws)

skip_word :
    (w rest : Text)
    → All (λ c. isspace c ≡ false) w
    → (skip_non_whitepace (w ++ (32 ∷ rest)) ≡ 32 ∷ rest) × (front (w ++ (32 ∷ rest)) ≡ w)
unfolding skip_non_whitepace
skip_word [] rest h = (refl, front_stop 32 rest refl)
skip_word (c ∷ cs) rest h =
    let (over, taken) = skip_word cs rest h.1 in
    (rw (h.0) over, front_step c (cs ++ (32 ∷ rest)) h.0 ∙ ap (λ t. c ∷ t) taken)

words_from-space : (fuel : ℕ) (s : Text) → words_from (suc fuel) (32 ∷ s) ≡ words_from (suc fuel) s
unfolding words_from skip_whitepace
words_from-space fuel s = refl

words_from-line :
    (fuel : ℕ) (ws : List Text)
    → All IsWord ws
    → length (line ws) ≤ fuel
    → words_from (suc fuel) (line ws) ≡ ws
unfolding words_from skip_whitepace
words_from-line fuel [] h b = refl
words_from-line fuel ([] ∷ ws) h b = absurd (h.0.0 refl)
words_from-line zero ((c ∷ cs) ∷ ws) h b = absurd (omega arith)
words_from-line (suc fuel) ((c ∷ cs) ∷ ws) h b =
    let (over, taken) = skip_word (c ∷ cs) (line ws) h.0.1 in
    let short = length-append cs (32 ∷ line ws) in
    let rest = words_from-line fuel ws h.1 (omega arith) in
    ground (arith, h.0.1.0, over, taken, words_from-space fuel (line ws), rest)

words_from-more :
    (fuel : ℕ) (s : Text) → length s ≤ fuel → words_from (suc fuel) s ≡ words_from fuel s
unfolding words_from skip_whitepace
words_from-more zero [] h = refl
words_from-more zero (c ∷ cs) h = absurd (omega arith)
words_from-more (suc fuel) s h = elim (List-cases (skip_whitepace s)) [
  | inl e ↦ ground (arith, e)
  | inr (c, cs, e) ↦
      let whole = skip_whitepace-head s c cs e in
      let size : length (skip_whitepace s) ≡ suc (length cs) = ap length e in
      let after : skip_non_whitepace (c ∷ cs) ≡ skip_non_whitepace cs = skip_over c cs whole in
      let later =
        words_from-more fuel (skip_non_whitepace cs)
          (omega (arith, skip_whitepace-length s, skip_non_whitepace-length cs)) in
      ground (arith, e, after, later)
]

-- A command line that is made of words, with a space behind each, is read as these words.
pub words-line : (ws : List Text) → All IsWord ws → words (line ws) ≡ ws
unfolding words
words-line ws h =
    sym (words_from-more (length (line ws)) (line ws) (omega arith))
    ∙ words_from-line (length (line ws)) ws h (omega arith)
