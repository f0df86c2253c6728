-- ===== src/Child/Pieces.antt =====
-- What the children write: pieces of a file, the file that they make, and the orders in which the system
-- may see the pieces of several children.
pub mod Writing
pub mod Joined
use bbftp.Base.{
  ℕ, zero, suc, ◌+◌, ◌-◌, ◌≤◌, ◌<◌, ◌≡◌, refl, ◌⊎◌, inl, inr, arith, Bool, true, false, ◌&&◌, List,
  [], ◌∷◌, ◌++◌, Option, none, some, length, length-append, get_elem?, leb, ltb, if◌then◌else◌, All,
  Bool-cases, ap, subst,
}
use mathlib.Core.List.{append_assoc, append-nil}
use bbftp.Child.{Piece}

-- The bytes of the pieces, one behind the other.
unfoldable pub bytes_of : List Piece → List ℕ
bytes_of [] = []
bytes_of (p ∷ ps) = p.bytes ++ bytes_of ps

-- Each piece begins where the one before it ends.
abbrev pub Consecutive : ℕ → List Piece → Type 0
Consecutive start [] = Unit
Consecutive start (p ∷ ps) = (p.offset ≡ start) × Consecutive (start + length p.bytes) ps

pub bytes_of-snoc :
    (ps : List Piece) (p : Piece) → bytes_of (ps ++ (p ∷ [])) ≡ bytes_of ps ++ p.bytes
unfolding bytes_of
bytes_of-snoc [] p = append-nil p.bytes
bytes_of-snoc (x ∷ ps) p = rw (bytes_of-snoc ps p) (rw append_assoc)

pub Consecutive-snoc :
    (ps : List Piece) (p : Piece) (start : ℕ)
    → Consecutive start ps
    → p.offset ≡ start + length (bytes_of ps)
    → Consecutive start (ps ++ (p ∷ []))
unfolding bytes_of
Consecutive-snoc [] p start h e = (omega arith, tt)
Consecutive-snoc (x ∷ ps) p start h e = (
  h.0,
  Consecutive-snoc ps p (start + length x.bytes) h.1
      (omega (arith, length-append x.bytes (bytes_of ps))),
)

-- A file: the byte at each offset, or none behind its end and in a hole.
abbrev pub File : Type 0
File = ℕ → Option ℕ

abbrev pub inside : Piece → ℕ → Bool
inside p q = leb p.offset q && ltb q (p.offset + length p.bytes)

-- The file after a write, and after several.
unfoldable pub written : Piece → File → File
written p f q = if inside p q then get_elem? p.bytes (q - p.offset) else f q

unfoldable pub file_after : List Piece → File → File
file_after [] f = f
file_after (p ∷ ps) f = file_after ps (written p f)

-- A piece has the bytes of `source` at its place.
abbrev pub Agrees : List ℕ → Piece → Type 0
Agrees source p =
    (j : ℕ) → j < length p.bytes → get_elem? p.bytes j ≡ get_elem? source (p.offset + j)

abbrev pub Covers : ℕ → List Piece → Type 0
Covers q [] = ⊥
Covers q (p ∷ ps) = (inside p q ≡ true) ⊎ Covers q ps

written-source :
    (source : List ℕ) (p : Piece) (ps : List Piece) (f : File) (q : ℕ)
    → Agrees source p
    → (f q ≡ get_elem? source q) ⊎ Covers q (p ∷ ps)
    → (written p f q ≡ get_elem? source q) ⊎ Covers q ps
unfolding written
written-source source p ps f q h c = elim (Bool-cases (inside p q)) [
  | inl within ↦
      let place : p.offset + (q - p.offset) ≡ q = ground (arith, within) in
      inl (ground (arith, within, h (q - p.offset), ap (get_elem? source) place))
  | inr outside ↦ elim c [
    | inl e ↦ inl (rw outside e)
    | inr (inl within) ↦ absurd (ground (arith, within, outside))
    | inr (inr later) ↦ inr later
  ]
]

-- Pieces that agree with a source make it wherever one of them lies.
pub file_after-source :
    (source : List ℕ) (ps : List Piece) (f : File) (q : ℕ)
    → All (Agrees source) ps
    → (f q ≡ get_elem? source q) ⊎ Covers q ps
    → file_after ps f q ≡ get_elem? source q
unfolding file_after
file_after-source source [] f q h (inl e) = e
file_after-source source [] f q h (inr c) = absurd c
file_after-source source (p ∷ ps) f q h c =
    file_after-source source ps (written p f) q h.1 (written-source source p ps f q h.0 c)

-- One order of the pieces of several children, each child's own pieces in their order.
pub data Interleaved : List (List Piece) → List Piece → Type 0 where
  finished : {runs : List (List Piece)} → All (λ run. run ≡ []) runs → Interleaved runs []
  write :
      {runs : List (List Piece)} {rest : List Piece} (before : List (List Piece)) (p : Piece)
      (run : List Piece) (after : List (List Piece))
      → runs ≡ before ++ ((p ∷ run) ∷ after)
      → Interleaved (before ++ (run ∷ after)) rest
      → Interleaved runs (p ∷ rest)

All-split {ℓ κ} :
    {A : Type ℓ} (P : A → Type κ) (before : List A) (x : A) (after : List A)
    → All P (before ++ (x ∷ after))
    → P x × ((y : A) → P y → All P (before ++ (y ∷ after)))
All-split P [] x after h = (h.0, λ y py. (py, h.1))
All-split P (b ∷ before) x after h =
    let (px, back) = All-split P before x after h.1 in (px, λ y py. (h.0, back y py))

-- What holds of every piece of the children holds of every piece in the common order.
pub Interleaved-All {κ} :
    (P : Piece → Type κ) {runs : List (List Piece)} {order : List Piece}
    → Interleaved runs order
    → All (All P) runs
    → All P order
Interleaved-All P (finished e) h = tt
Interleaved-All P (write before p run after e rest) h =
    let (now, back) = All-split (All P) before (p ∷ run) after (subst (All (All P)) e h) in
    (now.0, Interleaved-All P rest (back run now.1))

-- Some child has covered the offset.
abbrev pub CoveredBy : ℕ → List (List Piece) → Type 0
CoveredBy q [] = ⊥
CoveredBy q (run ∷ runs) = Covers q run ⊎ CoveredBy q runs

CoveredBy-step :
    (q : ℕ) (before : List (List Piece)) (p : Piece) (run : List Piece) (after : List (List Piece))
    → CoveredBy q (before ++ ((p ∷ run) ∷ after))
    → (inside p q ≡ true) ⊎ CoveredBy q (before ++ (run ∷ after))
CoveredBy-step q [] p run after (inl (inl here)) = inl here
CoveredBy-step q [] p run after (inl (inr later)) = inr (inl later)
CoveredBy-step q [] p run after (inr other) = inr (inr other)
CoveredBy-step q (b ∷ before) p run after (inl c) = inr (inl c)
CoveredBy-step q (b ∷ before) p run after (inr c) = elim (CoveredBy-step q before p run after c) [
  | inl here ↦ inl here
  | inr later ↦ inr (inr later)
]

none_left : (q : ℕ) (runs : List (List Piece)) → All (λ run. run ≡ []) runs → ¬ (CoveredBy q runs)
none_left q [] h c = c
none_left q (run ∷ runs) h (inl c) = subst (Covers q) h.0 c
none_left q (run ∷ runs) h (inr c) = none_left q runs h.1 c

pub Interleaved-Covers :
    (q : ℕ) {runs : List (List Piece)} {order : List Piece}
    → Interleaved runs order
    → CoveredBy q runs
    → Covers q order
Interleaved-Covers q {runs} (finished e) c = none_left q runs e c
Interleaved-Covers q (write before p run after e rest) c =
    elim (CoveredBy-step q before p run after (subst (CoveredBy q) e c)) [
      | inl here ↦ inl here
      | inr later ↦ inr (Interleaved-Covers q rest later)
    ]
