-- ===== src/Deliver/Decimal.antt =====
-- strconv's decimal text of an int that is not negative, which json.Marshal writes for `revision`
-- in reference-client/internal/testrouter/ssot.go.
use Prim.Native.String.{◌++◌}
use masterdata_sync_working.Prelude.{ℕ, zero, suc, ◌/◌, ◌%◌, String, ◌==◌, ltb, if◌then◌else◌}

digit : ℕ → String
digit d =
    if d == 0
    then "0"
    else if d == 1
    then "1"
    else if d == 2
    then "2"
    else if d == 3
    then "3"
    else if d == 4
    then "4"
    else if d == 5
    then "5"
    else if d == 6
    then "6"
    else if d == 7
    then "7"
    else if d == 8
    then "8"
    else "9"

-- A number has no more digits than its value, plus one: enough rounds.
digits : ℕ → ℕ → String
unfolding digit
digits zero n = ""
digits (suc rounds) n =
    let front = digits rounds (n / 10) in if ltb n 10 then digit n else front ++ digit (n % 10)

unfoldable pub decimal : ℕ → String
unfolding digits
decimal n = digits (suc n) n
