-- ===== src/Server/Transfer/Fragments.antt =====
-- The fragments that the children of a transfer carry cover the file, one behind the other.
use native.Mathlib.Nat as Nat
use mathlib.Core.Bool.{xor}
use bbftp.Base.{
  Bool, true, false, if◌then◌else◌, ltb, ltb_ℤ, eqb_ℤ, ap, sym, ◌∙◌, subst, ℕ, zero, suc, ◌+◌, ◌-◌,
  ◌*◌, ◌/◌, ◌≤◌, ◌<◌, mul_ℕ, sub_ℤ, ◌≡◌, refl, arith, List, [], ◌∷◌, ℤ, pos, negsuc, pos_part,
}
use bbftp.Server.Transfer.{fragment}
use bbftp.Server.Files.Retr.{div_ℤ}

-- The fragments of `left` children from child `i` on.
unfoldable pub fragments_from : ℤ → ℤ → ℕ → ℕ → List (ℤ × ℤ)
fragments_from filesize streams zero i = []
fragments_from filesize streams (suc left) i =
    fragment filesize streams i ∷ fragments_from filesize streams left (i + 1)

-- Pieces that follow each other from the first offset to the second, each of no negative length.
abbrev pub Tiles : ℕ → ℕ → List (ℤ × ℤ) → Type 0
Tiles a b [] = a ≡ b
Tiles a b (p ∷ rest) = (p ≡ (pos a, pos (pos_part (p.1)))) × Tiles (a + pos_part (p.1)) b rest

same_sign {ℓ} :
    {A : Type ℓ} (b c : Bool) (x y : A) → b ≡ false → c ≡ false → (if xor b c then x else y) ≡ y
unfolding xor
same_sign false false x y p q = refl
same_sign false true x y p q = absurd (ground (arith, q))
same_sign true c x y p q = absurd (ground (arith, p))

-- The division of sizes that are not negative.
div-pos : (a k : ℕ) → div_ℤ (pos a) (pos (suc k)) ≡ pos (a / suc k)
unfolding div_ℤ
div-pos a k =
    same_sign (ltb_ℤ (pos a) (pos 0)) (ltb_ℤ (pos (suc k)) (pos 0)) _ _ (ground arith)
      (ground arith)
    ∙ (ap (λ n. pos (n / (suc k + 0))) (omega arith) ∙ ap (λ n. pos (a / n)) (omega arith))

pair : {a b c d : ℤ} → a ≡ c → b ≡ d → ◌≡◌ {A = ℤ × ℤ} (a, b) (c, d)
pair p q i = (p i, q i)

taken {ℓ} : {A : Type ℓ} (b : Bool) (x y : A) → b ≡ true → (if b then x else y) ≡ x
taken true x y p = refl
taken false x y p = absurd (ground (arith, p))

passed {ℓ} : {A : Type ℓ} (b : Bool) (x y : A) → b ≡ false → (if b then x else y) ≡ y
passed false x y p = refl
passed true x y p = absurd (ground (arith, p))

-- The piece of a child, but for the last.
inner :
    (size k i : ℕ)
    → i < k
    → fragment (pos size) (pos (suc k)) (suc i) ≡ (pos (i * (size / suc k)), pos (size / suc k))
unfolding fragment mul_ℕ
inner size k i h = rw (div-pos size k) (
    pair (ap (λ n. pos (n * (size / suc k))) (omega arith))
      (passed (eqb_ℤ (pos (suc i)) (pos (suc k))) _ _ (ground arith)))

-- The last child has what is left.
last :
    (size k : ℕ)
    → fragment (pos size) (pos (suc k)) (suc k)
      ≡ (pos (k * (size / suc k)), pos (size - k * (size / suc k)))
unfolding fragment mul_ℕ sub_ℤ
last size k =
    let q = size / suc k in
    let fits : k * q ≤ size = ground (arith, Nat.div-mul-le_self size (suc k)) in
    rw (div-pos size k) (
      pair (ap (λ n. pos (n * q)) (omega arith)) (
        taken (eqb_ℤ (pos (suc k)) (pos (suc k))) _ _ (ground arith)
        ∙ (ap
              (λ n.
                if ltb (size + 0) (0 + n * q)
                then negsuc (0 + n * q - (size + 0) - 1)
                else pos (size + 0 - (0 + n * q)))
              (omega arith)
            ∙ (passed (ltb (size + 0) (0 + k * q)) _ _ (ground arith) ∙ ap pos (omega arith)))))

tile_last :
    (size k : ℕ) → Tiles (k * (size / suc k)) size (fragment (pos size) (pos (suc k)) (suc k) ∷ [])
tile_last size k =
    let q = size / suc k in
    subst (λ p. (p ≡ (pos (k * q), pos (pos_part (p.1)))) × (k * q + pos_part (p.1) ≡ size))
      (sym (last size k)) (refl, ground (arith, Nat.div-mul-le_self size (suc k)))

subst2 : (P : ℕ → ℕ → Type 0) {a b c d : ℕ} → a ≡ b → c ≡ d → P a c → P b d
subst2 P {b} {c} p q x = subst (P b) q (subst (λ z. P z c) p x)

tile :
    (size k i left : ℕ)
    → i + left ≡ k
    → Tiles (i * (size / suc k)) size (fragments_from (pos size) (pos (suc k)) (suc left) (suc i))
unfolding fragments_from
tile size k i zero e =
    let i≡k : i ≡ k = omega arith in
    subst (λ n. Tiles (n * (size / suc k)) size (fragment (pos size) (pos (suc k)) (suc n) ∷ []))
      (sym i≡k) (tile_last size k)
tile size k i (suc left) e =
    let q = size / suc k in
    subst
      (λ p.
        (p ≡ (pos (i * q), pos (pos_part (p.1))))
        × Tiles (i * q + pos_part (p.1)) size
            (fragments_from (pos size) (pos (suc k)) (suc left) (suc i + 1)))
      (sym (inner size k i (omega arith)))
      (
        refl,
        subst2 (λ a n. Tiles a size (fragments_from (pos size) (pos (suc k)) (suc left) n))
            (grind arith) (omega arith) (tile size k (suc i) left (omega arith)),
      )

-- The pieces of the children of a transfer of a file of this size, with at least one child, begin at
-- the offset 0, follow each other without a gap or an overlap and end at the end of the file; none
-- has a negative length.
pub fragments-tile : (size k : ℕ) → Tiles 0 size (fragments_from (pos size) (pos (suc k)) (suc k) 1)
fragments-tile size k =
    subst (λ a. Tiles a size (fragments_from (pos size) (pos (suc k)) (suc k) 1)) (omega arith)
      (tile size k 0 k (omega arith))
