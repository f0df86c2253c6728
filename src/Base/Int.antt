-- ===== src/Base/Int.antt =====
-- Signed integers over the native numbers, under the library's names (its ℤ stands on the unary ℕ),
-- and the conversions of C between an `int`, its 32-bit pattern and a `size_t`.
use Prim.Native.Nat.{ℕ, suc, ◌+◌, ◌-◌, ◌*◌, ◌%◌, ◌^◌, ◌<◌}
use mathlib.Core.Path.{◌≡◌}
use mathlib.Core.Bool.{Bool}
use native.Mathlib.Omega.{arith}
use bbftp.Base.Tests.{ltb, ◌==◌, if◌then◌else◌}

-- `negsuc n` is -(n + 1).
pub data ℤ : Type 0 where
  pos : ℕ → ℤ
  negsuc : ℕ → ℤ

abbrev pub pos_part : ℤ → ℕ
pos_part (pos n) = n
pos_part (negsuc n) = 0

abbrev pub neg_part : ℤ → ℕ
neg_part (pos n) = 0
neg_part (negsuc n) = suc n

abbrev pub ltb_ℤ : ℤ → ℤ → Bool
ltb_ℤ a b = ltb (pos_part a + neg_part b) (pos_part b + neg_part a)

abbrev pub eqb_ℤ : ℤ → ℤ → Bool
eqb_ℤ a b = (pos_part a + neg_part b) == (pos_part b + neg_part a)

abbrev pub minus_one : ℤ
minus_one = negsuc 0

-- The `int` with a given 32-bit pattern, and back.
abbrev pub to_int : ℕ → ℤ
to_int w = if ltb w (2 ^ 31) then pos w else negsuc (2 ^ 32 - w - 1)

abbrev pub of_int : ℤ → ℕ
of_int (pos n) = n % 2 ^ 32
of_int (negsuc n) = 2 ^ 32 - 1 - n % 2 ^ 32

-- The conversion of an `int` to a 64-bit `size_t` or `unsigned long`.
abbrev pub to_size : ℤ → ℕ
to_size (pos n) = n % 2 ^ 64
to_size (negsuc n) = 2 ^ 64 - 1 - n % 2 ^ 64

pub of_int-to_int : (w : ℕ) → w < 2 ^ 32 → of_int (to_int w) ≡ w
of_int-to_int w h = ground arith

-- The values of an `int`.
abbrev pub IsInt : ℤ → Type 0
IsInt (pos n) = n < 2 ^ 31
IsInt (negsuc n) = n < 2 ^ 31

pub to_int-of_int : (i : ℤ) → IsInt i → to_int (of_int i) ≡ i
to_int-of_int (pos n) h = ground arith
to_int-of_int (negsuc n) h = ground arith

pub to_int-IsInt : (w : ℕ) → w < 2 ^ 32 → IsInt (to_int w)
to_int-IsInt w h = ground arith

pub of_int-lt : (z : ℤ) → of_int z < 2 ^ 32
of_int-lt (pos n) = omega arith
of_int-lt (negsuc n) = omega arith

-- The products and differences of offsets in a file.
unfoldable pub mul_ℕ : ℕ → ℤ → ℤ
mul_ℕ k (pos n) = pos (k * n)
mul_ℕ k (negsuc n) = if k == 0 then pos 0 else negsuc (k * suc n - 1)

unfoldable pub sub_ℤ : ℤ → ℤ → ℤ
sub_ℤ a b =
    let plus = pos_part a + neg_part b in
    let minus = neg_part a + pos_part b in
    if ltb plus minus then negsuc (minus - plus - 1) else pos (plus - minus)
