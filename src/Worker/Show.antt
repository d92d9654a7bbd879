-- ===== src/Worker/Show.antt =====
-- str of an int that is not negative.
use newhbot.Base.{ℕ, zero, suc, ◌/◌, ◌%◌, ◌==◌, if◌then◌else◌, String, append}

digit : ℕ → String
digit n =
    if n == 0
    then "0"
    else if n == 1
    then "1"
    else if n == 2
    then "2"
    else if n == 3
    then "3"
    else if n == 4
    then "4"
    else if n == 5
    then "5"
    else if n == 6
    then "6"
    else if n == 7
    then "7"
    else if n == 8
    then "8"
    else "9"

-- The digits before the last, then the last; a number has fewer digits than its successor has units.
show_fuel : ℕ → ℕ → String
unfolding digit
show_fuel zero n = ""
show_fuel (suc f) n =
    let rest = show_fuel f (n / 10) in if n == 0 then "" else append rest (digit (n % 10))

unfoldable pub show : ℕ → String
unfolding show_fuel
show n = if n == 0 then "0" else show_fuel n n
