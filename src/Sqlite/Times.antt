-- ===== src/Sqlite/Times.antt =====
-- internal/store/sqlite/sqlite.go, timeFormat: how timestamps compare as RFC 3339 texts in UTC,
-- with nine digits of a second at most and no trailing zeros. Dates and seconds have a fixed
-- width.
pub mod Misorder
use Prim.Native.Nat.{Ordering}
use Prim.Native.Char.{Char}
use Prim.Native.String
use mera_drive.Base.{ℕ, zero, suc, ◌/◌, ◌%◌, ◌^◌, String, Bool, compare_text, eqb, if◌then◌else◌}
use mera_drive.Base.Order.{Comparator, compare_ℕ, or_else, is_gt}
use mera_drive.Google.Errors.{second}
use mathlib.Core.Bool.{not}

unfoldable pub digit : ℕ → Char
digit d =
    if eqb d 0
    then "0"
    else if eqb d 1
    then "1"
    else if eqb d 2
    then "2"
    else if eqb d 3
    then "3"
    else if eqb d 4
    then "4"
    else if eqb d 5
    then "5"
    else if eqb d 6
    then "6"
    else if eqb d 7
    then "7"
    else if eqb d 8
    then "8"
    else "9"

-- The digits of a fraction of 10 ^ k, and the zone behind the last one that is not zero.
unfoldable pub digits : ℕ → ℕ → String
unfolding digit
digits zero n = "Z"
digits (suc k) n =
    let rest = digits k (n % 10 ^ k) in
    if eqb n 0 then "Z" else String.◌∷◌ (digit (n / 10 ^ k)) rest

-- What stands behind the seconds.
unfoldable pub fraction : ℕ → String
unfolding digits
fraction n = if eqb n 0 then "Z" else String.◌∷◌ "." (digits 9 n)

unfoldable pub compare_time : Comparator ℕ
unfolding fraction
compare_time a b =
    or_else (compare_ℕ (a / second) (b / second))
      (compare_text (fraction (a % second)) (fraction (b % second)))

-- `a <= b` of two stored timestamps.
unfoldable pub is_not_after : ℕ → ℕ → Bool
unfolding compare_time
is_not_after a b = not (is_gt (compare_time a b))
