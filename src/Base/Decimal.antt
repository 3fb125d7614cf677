-- ===== src/Base/Decimal.antt =====
-- `%d` on numbers that are not negative.
pub mod Read
use Prim.Native.Nat.{ℕ, zero, suc, ◌/◌, ◌%◌}
use Prim.Native.String
use Prim.Native.String.{String}
use mathlib.Core.Path.{◌≡◌, refl}
use auxitalk.Base.Tests.{ltb, if◌then◌else◌, ◌==◌, nat_eq}

digit : ℕ → String
digit n =
    if n == 0
    then "0"
    else if n == 1
    then "1"
    else if n == 2
    then "2"
    else if n == 3
    then "3"
    else if n == 4
    then "4"
    else if n == 5
    then "5"
    else if n == 6
    then "6"
    else if n == 7
    then "7"
    else if n == 8
    then "8"
    else "9"

-- One digit a round; 20 rounds print any 64-bit number.
digits : ℕ → ℕ → String
digits zero n = ""
digits (suc fuel) n =
    let rest = digits fuel (n / 10) in
    if ltb n 10 then digit n else String.◌++◌ rest (digit (n % 10))

unfoldable pub decimal : ℕ → String
unfolding digit digits
decimal n = digits 20 n

decimal_max : decimal 18446744073709551615 ≡ "18446744073709551615"
unfolding decimal
decimal_max = refl
