-- ===== src/Sqlite/Times/Misorder.antt =====
-- internal/store/sqlite/sqlite.go, timeFormat: the order of the texts beside the order of the
-- times.
use Prim.Native.Nat.{Ordering}
use mera_drive.Base.{ℕ, String, eqb, ◌+◌, ◌*◌, ◌/◌, ◌%◌, ◌<◌, false, ◌≡◌, refl, arith, compare_text}
use mera_drive.Google.Errors.{second}
use mera_drive.Sqlite.Times.{compare_time, is_not_after, fraction, digits}

fraction_pos : (n : ℕ) → 0 < n → fraction n ≡ String.◌∷◌ "." (digits 9 n)
unfolding fraction
fraction_pos n h = let e : eqb n 0 ≡ false = ground arith in rw e

zone_behind_fraction : (s : String) → compare_text "Z" (String.◌∷◌ "." s) ≡ Ordering.gt
unfolding compare_text
zone_behind_fraction s = refl

-- The stored text of a time at a full second stands behind the text of every later time within that
-- second, so that the test `expires_at <= now` fails for it.
pub compare_time_full_second :
    (s n : ℕ)
    → 0 < n
    → n < second
    → (compare_time (s * second) (s * second + n) ≡ Ordering.gt)
      × (is_not_after (s * second) (s * second + n) ≡ false)
unfolding compare_time is_not_after
compare_time_full_second s n h k =
    let a : s * second / second ≡ s = omega arith in
    let b : (s * second + n) / second ≡ s = omega arith in
    let c : s * second % second ≡ 0 = omega arith in
    let d : (s * second + n) % second ≡ n = omega arith in
    let e : compare_text "Z" (fraction n) ≡ Ordering.gt =
      rw (fraction_pos n h) (zone_behind_fraction (digits 9 n)) in
    ground (arith, a, b, c, d, e)
