-- ===== src/Base/Text.antt =====
-- C text: the bytes of a literal, of a string up to its NUL, and the conversions of snprintf.
use Prim.Native.Nat.{ℕ, zero, suc, ◌+◌, ◌-◌, ◌/◌, ◌%◌}
use Prim.Native.Char.{code}
use Prim.Native.String.{String}
use mathlib.Core.List.{List, [], ◌∷◌, ◌++◌}
use bbftp.Base.Tests.{ltb, ◌==◌, if◌then◌else◌}
use bbftp.Base.Lists.{take, length}

-- The bytes of an ASCII literal.
unfoldable pub text : String → List ℕ
text String.[] = []
text (String.◌∷◌ c s) = code c ∷ text s

-- What the functions of C read of a buffer: the bytes before the first 0.
unfoldable pub c_string : List ℕ → List ℕ
c_string [] = []
c_string (b ∷ bs) = if b == 0 then [] else b ∷ c_string bs

-- What snprintf leaves in a buffer of `size` bytes, the 0 at the end not counted.
unfoldable pub snprintf : ℕ → List ℕ → List ℕ
snprintf size s = take (size - 1) s

-- %d of a number that is not negative, on as many digits as the fuel allows.
unfoldable pub decimal_fuel : ℕ → ℕ → List ℕ
decimal_fuel zero n = []
decimal_fuel (suc fuel) n =
    let front = decimal_fuel fuel (n / 10) in
    if ltb n 10 then (b'0' + n) ∷ [] else front ++ ((b'0' + n % 10) ∷ [])

unfoldable pub decimal : ℕ → List ℕ
unfolding decimal_fuel
decimal n = decimal_fuel 20 n

-- %o of an unsigned int has eleven digits at most.
unfoldable pub octal_fuel : ℕ → ℕ → List ℕ
octal_fuel zero n = []
octal_fuel (suc fuel) n =
    let front = octal_fuel fuel (n / 8) in
    if ltb n 8 then (b'0' + n) ∷ [] else front ++ ((b'0' + n % 8) ∷ [])

-- %04o
unfoldable pub octal4 : ℕ → List ℕ
unfolding octal_fuel
octal4 n =
    let digits = octal_fuel 11 n in
    if ltb (length digits) 4
    then if ltb (length digits) 3
      then if ltb (length digits) 2 then b'0' ∷ b'0' ∷ b'0' ∷ digits else b'0' ∷ b'0' ∷ digits
      else b'0' ∷ digits
    else digits
