-- ===== src/Google/Errors/Laws.antt =====
-- internal/google/errors.go: which failures are retried.
use mera_drive.Base.{
  ℕ, ◌≤◌, String, Bool, true, false, some, none, ◌≡◌, ◌⊎◌, ◌↔◌, ◌==◌, ◌||◌, inl, inr, arith,
  trim_space, Option-cases,
}
use mera_drive.Apperr.{Error, Failure, app, is_retryable, error, with_detail, with_cause}
use mera_drive.Google.Errors.{
  Envelope, reason, one_of, rate_reasons, permission_reasons, auth_reasons, missing_reasons,
  refused_reasons, limit_reasons, rate_limited, map_reason, map_status, map_api_error,
  map_transport_error,
}

-- The reasons that the table decides.
abbrev pub known : String → Bool
known r =
    one_of r rate_reasons
    || r == "storageQuotaExceeded"
    || one_of r permission_reasons
    || one_of r auth_reasons
    || one_of r missing_reasons
    || one_of r refused_reasons
    || one_of r limit_reasons

abbrev pub Retryable : Error → Type 0
Retryable e = is_retryable (app e) ≡ true

rate_limited-Retryable : (retry_after : ℕ) → Retryable (rate_limited retry_after)
unfolding rate_limited is_retryable error with_detail
rate_limited-Retryable retry_after = ground arith

map_reason-none :
    (r message : String) (retry_after : ℕ)
    → map_reason r message retry_after ≡ none
    → known r ≡ false
unfolding map_reason
map_reason-none r message retry_after h = ground arith

map_reason-some :
    (r message : String) (retry_after : ℕ) (e : Error)
    → map_reason r message retry_after ≡ some e
    → (known r ≡ true) × (Retryable e ↔ (one_of r rate_reasons ≡ true))
unfolding map_reason is_retryable error with_detail
map_reason-some r message retry_after e h = ground arith

map_status-Retryable :
    (status : ℕ) (message : String) (retry_after : ℕ)
    → Retryable (map_status status message retry_after) ↔ ((status ≡ 429) ⊎ (500 ≤ status))
unfolding map_status is_retryable error with_detail
map_status-Retryable status message retry_after = ground arith

-- The error that a failed call of Drive is mapped to is retryable exactly when its reason is one of
-- the three rate limits, or when the table has no such reason and the status is 429 or at least
-- 500.
pub map_api_error-Retryable :
    (status : ℕ) (envelope : Envelope) (retry_after : ℕ)
    → Retryable (map_api_error status envelope retry_after) ↔ (
        (one_of (reason envelope) rate_reasons ≡ true)
        ⊎ ((known (reason envelope) ≡ false) × ((status ≡ 429) ⊎ (500 ≤ status))))
unfolding map_api_error
map_api_error-Retryable status envelope retry_after =
    let r = reason envelope in
    let m = trim_space envelope.message in
    elim (Option-cases (map_reason r m retry_after)) [
      | inl e ↦
          ground (arith, map_reason-none r m retry_after, map_status-Retryable status m retry_after)
      | inr (x, e) ↦ ground (arith, map_reason-some r m retry_after x)
    ]

-- A failure of the connection is always retried, whatever ended it.
pub map_transport_error-Retryable :
    (done : Bool) (f : Failure) → Retryable (map_transport_error done f)
unfolding map_transport_error is_retryable error with_cause
map_transport_error-Retryable done Failure.canceled = ground arith
map_transport_error-Retryable done f = ground arith
