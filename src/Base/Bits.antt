-- ===== src/Base/Bits.antt =====
-- The binary digits of a word, and the masks of C read off digit by digit.
use Prim.Native.Nat.{
  ℕ, zero, suc, ◌+◌, ◌*◌, ◌/◌, ◌%◌, ◌≤◌, min, max, bit_and, bit_or, digits, bit_and-bitwise,
  bit_or-bitwise,
}
use mathlib.Core.Path.{◌≡◌, refl, ap}
use mathlib.Core.Bool.{Bool, true, false}
use native.Mathlib.Omega.{arith}
use bbftp.Base.Tests.{◌==◌, ==_iff}

-- Digit `k` of `n`, the lowest being digit 0.
abbrev pub bit : ℕ → ℕ → ℕ
bit zero n = n % 2
bit (suc k) n = bit k (n / 2)

bit-zero : (k : ℕ) → bit k 0 ≡ 0
bit-zero zero = refl
bit-zero (suc k) = bit-zero k

-- The digits of a digitwise operation, for any supply that covers the first number.
bit-digits_and : (k n a b : ℕ) → a ≤ n → bit k (digits (λ x. 0) min n a b) ≡ min (bit k a) (bit k b)
bit-digits_and k zero zero b h = omega (arith, bit-zero k)
bit-digits_and k zero (suc a) b h = absurd (omega arith)
bit-digits_and k (suc n) zero b h = omega (arith, bit-zero k)
bit-digits_and zero (suc n) (suc a) b h = omega arith
bit-digits_and (suc k) (suc n) (suc a) b h =
    let rest = digits (λ x. 0) min n (suc a / 2) (b / 2) in
    let half : (rest * 2 + min (suc a % 2) (b % 2)) / 2 ≡ rest = omega arith in
    rw half (bit-digits_and k n (suc a / 2) (b / 2) (omega arith))

bit-digits_or : (k n a b : ℕ) → a ≤ n → bit k (digits (λ x. x) max n a b) ≡ max (bit k a) (bit k b)
bit-digits_or k zero zero b h = omega (arith, bit-zero k)
bit-digits_or k zero (suc a) b h = absurd (omega arith)
bit-digits_or k (suc n) zero b h = omega (arith, bit-zero k)
bit-digits_or zero (suc n) (suc a) b h = omega arith
bit-digits_or (suc k) (suc n) (suc a) b h =
    let rest = digits (λ x. x) max n (suc a / 2) (b / 2) in
    let half : (rest * 2 + max (suc a % 2) (b % 2)) / 2 ≡ rest = omega arith in
    rw half (bit-digits_or k n (suc a / 2) (b / 2) (omega arith))

pub bit-bit_and : (k a b : ℕ) → bit k (bit_and a b) ≡ min (bit k a) (bit k b)
bit-bit_and k a b = rw bit_and-bitwise (bit-digits_and k a a b (omega arith))

pub bit-bit_or : (k a b : ℕ) → bit k (bit_or a b) ≡ max (bit k a) (bit k b)
bit-bit_or k a b = rw bit_or-bitwise (bit-digits_or k a a b (omega arith))

-- `(x & flag) == flag`, the test of the options.
abbrev pub has : ℕ → ℕ → Bool
has x flag = bit_and x flag == flag

bit-le_one : (k n : ℕ) → bit k n ≤ 1
bit-le_one zero n = omega arith
bit-le_one (suc k) n = bit-le_one k (n / 2)

-- A set flag shows in each digit of its own.
pub has-bit : (k x flag : ℕ) → has x flag ≡ true → bit k flag ≡ 1 → bit k x ≡ 1
has-bit k x flag h one =
    let masked : bit k (bit_and x flag) ≡ bit k flag = ap (bit k) ((==_iff _ flag).0 h) in
    omega (arith, masked, bit-bit_and k x flag, bit-le_one k x)

lacks : (b : Bool) (k x flag : ℕ) → (b ≡ true → bit k x ≡ 1) → bit k x ≡ 0 → b ≡ false
lacks false k x flag h z = refl
lacks true k x flag h z = absurd (omega (arith, h refl))

-- A flag with a digit that the number lacks does not show.
pub has-lacks : (k x flag : ℕ) → bit k flag ≡ 1 → bit k x ≡ 0 → has x flag ≡ false
has-lacks k x flag one z = lacks (has x flag) k x flag (λ h. has-bit k x flag h one) z
