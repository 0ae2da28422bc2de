-- ===== src/Prelude/Decimal.antt =====
-- `str` of a number.
use Prim.Native.Nat.{ℕ, zero, suc, ◌/◌, ◌%◌}
use Prim.Native.String.{String}
use taxlien_gateway.Prelude.Tests.{ltb, ◌==◌, if◌then◌else◌}
use taxlien_gateway.Prelude.Text.{◌<>◌}

digit : ℕ → String
digit d =
    if d == 0
    then "0"
    else if d == 1
    then "1"
    else if d == 2
    then "2"
    else if d == 3
    then "3"
    else if d == 4
    then "4"
    else if d == 5
    then "5"
    else if d == 6
    then "6"
    else if d == 7
    then "7"
    else if d == 8
    then "8"
    else "9"

-- The digits of n, with a fuel above their number.
decimal : ℕ → ℕ → String
decimal zero n = ""
decimal (suc fuel) n =
    let more = decimal fuel (n / 10) <> digit (n % 10) in if ltb n 10 then digit n else more

-- A number has fewer digits than n + 1.
unfoldable pub str_of : ℕ → String
unfolding decimal digit
str_of n = decimal (suc n) n
