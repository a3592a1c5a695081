-- ===== src/Google/About/Laws.antt =====
-- internal/google/drive.go: what a quota says.
use mera_drive.Base.{
  ℕ, ◌-◌, ◌<◌, ◌^◌, ◌≡◌, ◌⊎◌, ◌↔◌, inl, inr, arith, String, true, none, some, ◌==◌, eq_iff,
  Bool-cases, Option-cases,
}
use mera_drive.Base.Int.{ℤ, pos, sub64-pos}
use mera_drive.Base.Result.{Result, ok, Result-cases}
use mera_drive.Apperr.{Failure}
use mera_drive.Google.About.{StorageQuota, About, AboutResponse, unlimited, free, about_of}

-- An account counts as unlimited exactly when Drive leaves the limit out or empty; a limit that
-- cannot be read is an error and never taken for unlimited storage.
pub about_of-unlimited :
    (parse_int : String → Result Failure ℤ) (raw : AboutResponse) (a : About)
    → about_of parse_int raw ≡ ok a
    → (unlimited a.quota ≡ true) ↔ ((raw.limit ≡ none) ⊎ (raw.limit ≡ some ""))
unfolding about_of unlimited
about_of-unlimited parse_int raw a h = elim (Option-cases raw.limit) [
  | inl e ↦ (λ u. inl e, λ u. ground arith)
  | inr (text, e) ↦ elim (Bool-cases (text == "")) [
    | inl z ↦ (λ u. inr (ground (arith, eq_iff text "")), λ u. ground arith)
    | inr z ↦ elim (Result-cases (parse_int text)) [
      | inr (f, p) ↦ absurd (ground arith)
      | inl (n, p) ↦ (λ u. absurd (ground arith), λ u. absurd (ground (arith, eq_iff text "")))
    ]
  ]
]

-- Within the range of int64 the free space is the limit less the usage, and nothing where more is
-- used.
pub free-limited :
    (q : StorageQuota) (limit usage : ℕ)
    → q.limit ≡ some (pos limit)
    → q.usage ≡ pos usage
    → limit < 2 ^ 63
    → usage < 2 ^ 63
    → free q ≡ some (pos (limit - usage))
unfolding free
free-limited q limit usage e u h k = ground (arith, sub64-pos limit usage h k)
