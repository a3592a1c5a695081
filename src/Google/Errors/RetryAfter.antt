-- ===== src/Google/Errors/RetryAfter.antt =====
-- internal/google/errors.go, parseRetryAfter: the delay of the header Retry-After, in nanoseconds
-- of an int64.
use mera_drive.Base.{
  ℕ, ◌*◌, ◌%◌, ◌^◌, ◌<◌, ◌≡◌, arith, String, not, Option, none, some, ◌==◌, trim_space,
  if◌then◌else◌,
}
use mera_drive.Base.Int.{ℤ, pos, ltb_ℤ, to_bits, of_bits}
use mera_drive.Google.Errors.{second}

-- strconv.Atoi, and time.Until of http.ParseTime.
pub record HeaderParsers : Type 0 where
  pub atoi : String → Option ℤ
  pub until : String → Option ℤ

-- `time.Duration(n) * time.Second`
unfoldable pub seconds64 : ℤ → ℤ
seconds64 n = of_bits (to_bits n * second % 2 ^ 64)

unfoldable pub parse_date : HeaderParsers → String → ℤ
parse_date p header = elim (p.until header) [
  | none ↦ pos 0
  | some delay ↦ if ltb_ℤ (pos 0) delay then delay else pos 0
]

unfoldable pub parse_retry_after : HeaderParsers → String → ℤ
unfolding trim_space seconds64 parse_date
parse_retry_after p raw =
    let header = trim_space raw in
    if header == "" then pos 0 else elim (p.atoi header) [
      | none ↦ parse_date p header
      | some n ↦ if not (ltb_ℤ n (pos 0)) then seconds64 n else parse_date p header
    ]

seconds64-pos : (n : ℕ) → n * second < 2 ^ 63 → seconds64 (pos n) ≡ pos (n * second)
unfolding seconds64
seconds64-pos n h = ground arith
