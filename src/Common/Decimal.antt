-- ===== src/Common/Decimal.antt =====
-- Numbers in template literals: `${n}` and `String(n)` of a non-negative integer are its decimal
-- digits, and `padStart` fills up on the left.
use Prim.Native.Nat.{ℕ, zero, suc, ◌-◌, ◌/◌, ◌%◌}
use Prim.Native.String.{String, ◌++◌, count}
use shiftzero_hero.Common.Tests.{ltb, ◌==◌, if◌then◌else◌}

digit : ℕ → String
digit d =
    if d == 0
    then "0"
    else if d == 1
    then "1"
    else if d == 2
    then "2"
    else if d == 3
    then "3"
    else if d == 4
    then "4"
    else if d == 5
    then "5"
    else if d == 6
    then "6"
    else if d == 7
    then "7"
    else if d == 8
    then "8"
    else "9"

-- A number below the fuel has enough of it: each round divides by ten.
show_from : ℕ → ℕ → String
show_from zero n = digit n
show_from (suc fuel) n =
    let rest = show_from fuel (n / 10) in if ltb n 10 then digit n else ◌++◌ rest (digit (n % 10))

unfoldable pub show : ℕ → String
unfolding show_from digit
show n = show_from n n

fill : ℕ → String → String → String
fill zero pad s = s
fill (suc n) pad s = ◌++◌ pad (fill n pad s)

-- `s.padStart(width, pad)` for a pad of one character.
unfoldable pub pad_start : ℕ → String → String → String
unfolding fill
pad_start width pad s = fill (width - count s) pad s
