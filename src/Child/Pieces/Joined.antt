-- ===== src/Child/Pieces/Joined.antt =====
-- The fragments of all the children together.
use bbftp.Base.{
  ℕ, suc, ◌+◌, ◌≤◌, ◌<◌, ◌≡◌, sym, ap, ◌∙◌, inl, inr, arith, List, [], ◌∷◌, none, ℤ, pos, pos_part,
  length, length-append, length-take, get_elem?, take, drop, get_elem?-append_left,
  get_elem?-append_right, get_elem?-take, get_elem?-drop, get_elem?-beyond, All,
}
use native.Mathlib.Decide.{dec_lt}
use bbftp.Child.{Piece}
use bbftp.Child.Pieces.{
  bytes_of, Consecutive, file_after, Agrees, Covers, CoveredBy, file_after-source, Interleaved,
  Interleaved-All, Interleaved-Covers,
}
use bbftp.Server.Transfer.Fragments.{fragments_from, Tiles, fragments-tile}

-- The pieces of one child lie one behind the other and are the fragment `p` of the source.
abbrev pub Laid : List ℕ → ℤ × ℤ → List Piece → Type 0
Laid source p run =
    Consecutive (pos_part p.0) run
    × (bytes_of run ≡ take (pos_part p.1) (drop (pos_part p.0) source))
    × (pos_part p.1 ≤ length (drop (pos_part p.0) source))

-- A relation between the entries of two lists of one length.
abbrev pub Each {ℓ κ} : {A : Type ℓ} {B : Type κ} → (A → B → Type 0) → List A → List B → Type 0
Each R [] [] = Unit
Each R [] (b ∷ bs) = ⊥
Each R (a ∷ as') [] = ⊥
Each R (a ∷ as') (b ∷ bs) = R a b × Each R as' bs

pub Each-map {ℓ κ} :
    {A : Type ℓ} {B : Type κ} (P : A → Type 0) (R S : A → B → Type 0)
    → ((a : A) (b : B) → P a → R a b → S a b)
    → (xs : List A) (ys : List B) → All P xs
    → Each R xs ys
    → Each S xs ys
Each-map P R S f [] [] a h = tt
Each-map P R S f [] (y ∷ ys) a h = absurd h
Each-map P R S f (x ∷ xs) [] a h = absurd h
Each-map P R S f (x ∷ xs) (y ∷ ys) a h = (f x y a.0 h.0, Each-map P R S f xs ys a.1 h.1)

Tiles-le : (ps : List (ℤ × ℤ)) (a b : ℕ) → Tiles a b ps → a ≤ b
Tiles-le [] a b t = omega arith
Tiles-le (p ∷ ps) a b t = omega (arith, Tiles-le ps (a + pos_part p.1) b t.1)

Tiles-inside :
    (ps : List (ℤ × ℤ)) (a b : ℕ) → Tiles a b ps → All (λ p. pos_part p.0 + pos_part p.1 ≤ b) ps
Tiles-inside [] a b t = tt
Tiles-inside (p ∷ ps) a b t = (
  omega (arith, ap (λ (x : ℤ × ℤ). pos_part x.0) t.0, Tiles-le ps (a + pos_part p.1) b t.1),
  Tiles-inside ps (a + pos_part p.1) b t.1,
)

-- The fragments of a source for `suc k` children, and that each of them lies inside.
abbrev pub fragments : List ℕ → ℕ → List (ℤ × ℤ)
fragments source k = fragments_from (pos (length source)) (pos (suc k)) (suc k) 1

pub fragments-inside :
    (source : List ℕ) (k : ℕ)
    → All (λ p. pos_part p.0 + pos_part p.1 ≤ length source) (fragments source k)
fragments-inside source k =
    Tiles-inside (fragments source k) 0 (length source) (fragments-tile (length source) k)

Consecutive-Agrees :
    (source : List ℕ) (run : List Piece) (start : ℕ)
    → Consecutive start run
    → ((j : ℕ)
        → j < length (bytes_of run)
        → get_elem? (bytes_of run) j ≡ get_elem? source (start + j))
    → All (Agrees source) run
unfolding bytes_of
Consecutive-Agrees source [] start h same = tt
Consecutive-Agrees source (p ∷ run) start h same = (
  λ j lt.
      sym (get_elem?-append_left p.bytes (bytes_of run) j lt)
      ∙ (same j (omega (arith, length-append p.bytes (bytes_of run)))
          ∙ ap (λ o. get_elem? source (o + j)) (sym h.0)),
  Consecutive-Agrees source run (start + length p.bytes) h.1 λ j lt.
      sym (get_elem?-append_right p.bytes (bytes_of run) j)
      ∙ (same (length p.bytes + j) (omega (arith, length-append p.bytes (bytes_of run)))
          ∙ ap (get_elem? source) (omega arith)),
)

Consecutive-Covers :
    (q : ℕ) (run : List Piece) (start : ℕ)
    → Consecutive start run
    → start ≤ q
    → q < start + length (bytes_of run)
    → Covers q run
unfolding bytes_of
Consecutive-Covers q [] start h low high = absurd (omega arith)
Consecutive-Covers q (p ∷ run) start h low high = elim (dec_lt q (start + length p.bytes)) [
  | yes within ↦ inl (ground (arith, h.0, within))
  | no later ↦ inr (
      Consecutive-Covers q run (start + length p.bytes) h.1 (omega arith)
        (omega (arith, length-append p.bytes (bytes_of run))))
]

Laid-Agrees :
    (source : List ℕ) (p : ℤ × ℤ) (run : List Piece) → Laid source p run → All (Agrees source) run
Laid-Agrees source p run h =
    let a = pos_part p.0 in
    let n = pos_part p.1 in
    Consecutive-Agrees source run a h.0 λ j lt.
      ap (λ bs. get_elem? bs j) h.1
      ∙ (get_elem?-take n (drop a source) j
            (omega (arith, ap length h.1, length-take n (drop a source)))
          ∙ get_elem?-drop a source j)

Laid-All :
    (source : List ℕ) (ps : List (ℤ × ℤ)) (runs : List (List Piece))
    → Each (Laid source) ps runs
    → All (All (Agrees source)) runs
Laid-All source [] [] h = tt
Laid-All source [] (run ∷ runs) h = absurd h
Laid-All source (p ∷ ps) [] h = absurd h
Laid-All source (p ∷ ps) (run ∷ runs) h =
    (Laid-Agrees source p run h.0, Laid-All source ps runs h.1)

Laid-CoveredBy :
    (source : List ℕ) (q : ℕ) (ps : List (ℤ × ℤ)) (runs : List (List Piece)) (a b : ℕ)
    → Each (Laid source) ps runs
    → Tiles a b ps
    → a ≤ q
    → q < b
    → CoveredBy q runs
Laid-CoveredBy source q [] [] a b h t low high = absurd (omega arith)
Laid-CoveredBy source q [] (run ∷ runs) a b h t low high = absurd h
Laid-CoveredBy source q (p ∷ ps) [] a b h t low high = absurd h
Laid-CoveredBy source q (p ∷ ps) (run ∷ runs) a b h t low high =
    let n = pos_part p.1 in
    let begins : pos_part p.0 ≡ a = ap (λ (x : ℤ × ℤ). pos_part x.0) t.0 in
    elim (dec_lt q (a + n)) [
      | yes within ↦ inl (
          Consecutive-Covers q run (pos_part p.0) h.0.0 (omega (arith, begins)) (
            omega
              (arith, begins, ap length h.0.1, length-take n (drop (pos_part p.0) source), h.0.2)))
      | no later ↦ inr (Laid-CoveredBy source q ps runs (a + n) b h.1 t.1 (omega arith) high)
    ]

-- Where each child has laid its fragment of the source into a new file, the file is the source, in
-- whatever order the pieces went in.
pub joined :
    (source : List ℕ) (k : ℕ) (runs : List (List Piece)) (order : List Piece)
    → Each (Laid source) (fragments source k) runs
    → Interleaved runs order
    → (q : ℕ) → file_after order (λ _. none) q ≡ get_elem? source q
joined source k runs order h merged q =
    let ps = fragments source k in
    file_after-source source order (λ _. none) q
      (Interleaved-All (Agrees source) merged (Laid-All source ps runs h))
      (elim (dec_lt q (length source)) [
        | yes inner ↦ inr (
            Interleaved-Covers q merged (
              Laid-CoveredBy source q ps runs 0 (length source) h (fragments-tile (length source) k)
                (omega arith) inner))
        | no beyond ↦ inl (sym (get_elem?-beyond source q (omega arith)))
      ])
