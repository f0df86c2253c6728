-- ===== src/Wire/Words.antt =====
-- Byte order: the fields in memory and on the wire.
use bbftp.Base.{
  ℕ, ◌+◌, ◌*◌, ◌/◌, ◌%◌, ◌^◌, ◌<◌, ◌≡◌, List, [], ◌∷◌, ◌++◌, arith, ℤ, of_int, IsInt, to_int-of_int,
  of_int-lt,
}
use bbftp.Wire.{le32, of_le32, htonl, ntohll, decode_int}

pub htonl-lt : (w : ℕ) → htonl w < 2 ^ 32
unfolding htonl
htonl-lt w = omega arith

pub htonl-htonl : (w : ℕ) → w < 2 ^ 32 → htonl (htonl w) ≡ w
unfolding htonl
htonl-htonl w h = omega arith

pub of_le32-le32 : (w : ℕ) (rest : List ℕ) → w < 2 ^ 32 → of_le32 (le32 w ++ rest) ≡ w
unfolding le32 of_le32
of_le32-le32 w rest h = omega arith

-- ntohll undoes itself on every 64-bit pattern.
pub ntohll-ntohll : (v : ℕ) → v < 2 ^ 64 → ntohll (ntohll v) ≡ v
unfolding ntohll
ntohll-ntohll v h =
    let lo = htonl (v % 2 ^ 32) in
    let hi = htonl (v / 2 ^ 32 % 2 ^ 32) in
    let low : (lo * 2 ^ 32 + hi) % 2 ^ 32 ≡ hi = omega (arith, htonl-lt (v / 2 ^ 32 % 2 ^ 32)) in
    let high : (lo * 2 ^ 32 + hi) / 2 ^ 32 % 2 ^ 32 ≡ lo =
      omega (arith, htonl-lt (v / 2 ^ 32 % 2 ^ 32), htonl-lt (v % 2 ^ 32)) in
    rw (low, high)
      (rw (htonl-htonl (v / 2 ^ 32 % 2 ^ 32) (omega arith), htonl-htonl (v % 2 ^ 32) (omega arith))
        (omega arith))

-- An int survives the way into a buffer and out of it, whatever stands behind it.
pub decode_int-encode :
    (i : ℤ) (rest : List ℕ) → IsInt i → decode_int (le32 (htonl (of_int i)) ++ rest) ≡ i
unfolding decode_int
decode_int-encode i rest h =
    rw (of_le32-le32 (htonl (of_int i)) rest (htonl-lt (of_int i)))
      (rw (htonl-htonl (of_int i) (of_int-lt i)) (to_int-of_int i h))

-- The bytes that htonl leaves in memory are those of the value, highest first: network order.
pub le32-htonl :
    (w : ℕ)
    → w < 2 ^ 32
    → le32 (htonl w) ≡ w / 2 ^ 24 ∷ w / 2 ^ 16 % 256 ∷ w / 2 ^ 8 % 256 ∷ w % 256 ∷ []
unfolding le32 htonl
le32-htonl w h = ground arith
