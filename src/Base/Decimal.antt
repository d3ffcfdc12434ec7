-- ===== src/Base/Decimal.antt =====
-- str(n) of Python's integers.
use Prim.Native.Nat.{ℕ, zero, suc, ◌/◌, ◌%◌}
use Prim.Native.String.{String, ◌++◌}
use zero_hdsc.Base.Tests.{ltb, ◌==◌, if◌then◌else◌}

unfoldable pub digit : ℕ → String
digit n =
    if n == 0
    then "0"
    else if n == 1
    then "1"
    else if n == 2
    then "2"
    else if n == 3
    then "3"
    else if n == 4
    then "4"
    else if n == 5
    then "5"
    else if n == 6
    then "6"
    else if n == 7
    then "7"
    else if n == 8
    then "8"
    else "9"

-- With as many rounds as the number, which has no more digits than that, if it is not 0.
unfoldable pub digits : ℕ → ℕ → String
unfolding digit
digits zero n = digit n
digits (suc rounds) n =
    let rest = digits rounds (n / 10) in if ltb n 10 then digit n else rest ++ digit (n % 10)

unfoldable pub decimal : ℕ → String
unfolding digits
decimal n = digits n n
