-- ===== src/Google/Errors.antt =====
-- internal/google/errors.go: Drive's failures as application errors. The JSON body is given as what
-- `json.Unmarshal` leaves in the envelope: the reasons and the message, both empty where the body
-- cannot be read. Durations are nanoseconds.
pub mod Laws
pub mod RetryAfter
use mera_drive.Base.{
  ℕ, ◌/◌, String, Bool, true, false, ◌&&◌, ◌||◌, Option, none, some, List, [], ◌∷◌, ◌==◌, ltb, leb,
  eqb, any, trim_space, if◌then◌else◌,
}
use mera_drive.Apperr.{
  Code, Error, Failure, Fault, app, raw, Message, plain, error, with_cause, with_detail,
}

pub record Envelope : Type 0 where
  pub message : String
  pub reasons : List String

unfoldable pub reason : Envelope → String
reason e = elim e.reasons [ [] ↦ "" | r ∷ _ ↦ r ]

abbrev pub second : ℕ
second = 1_000_000_000

abbrev pub retry_after_key : String
retry_after_key = "retry_after_seconds"

unfoldable pub fallback : String → String → String
fallback message default = if message == "" then default else message

unfoldable pub rate_limited : ℕ → Error
rate_limited retry_after =
    let e = error Code.rate_limited (plain "Google is rate limiting requests. Retrying shortly.") in
    if ltb 0 retry_after then with_detail e retry_after_key (retry_after / second) else e

unfoldable pub one_of : String → List String → Bool
one_of s texts = any (λ t. s == t) texts

-- The reasons of the first `switch`, case by case.
abbrev pub rate_reasons : List String
rate_reasons = "rateLimitExceeded" ∷ "userRateLimitExceeded" ∷ "sharingRateLimitExceeded" ∷ []

abbrev pub permission_reasons : List String
permission_reasons = "insufficientFilePermissions" ∷ "insufficientPermissions" ∷ "forbidden" ∷ []

abbrev pub auth_reasons : List String
auth_reasons = "authError" ∷ "invalidCredentials" ∷ "invalid_grant" ∷ []

abbrev pub missing_reasons : List String
missing_reasons = "notFound" ∷ "fileNotFound" ∷ []

abbrev pub refused_reasons : List String
refused_reasons = "cannotModifyInheritedTeamDrivePermission" ∷ "cannotDeleteResource" ∷ []

abbrev pub limit_reasons : List String
limit_reasons = "activeItemCreationLimitExceeded" ∷ "numChildrenInNonRootLimitExceeded" ∷ []

unfoldable pub map_reason : String → String → ℕ → Option Error
unfolding rate_limited fallback
map_reason reason message retry_after =
    if one_of reason rate_reasons
    then some (rate_limited retry_after)
    else if reason == "storageQuotaExceeded"
    then some (error Code.quota_exceeded (plain "This Google Drive is out of space."))
    else if one_of reason permission_reasons
    then some (
        error Code.insufficient_scope (
          plain
            "SangamDrive does not have permission for that. Upgrade this account to full Drive access."))
    else if one_of reason auth_reasons
    then some (
        error Code.reauth_required
          (plain "Google rejected the stored credentials. Please reconnect this account."))
    else if one_of reason (missing_reasons)
    then some (error Code.not_found (plain "That file or folder no longer exists in Google Drive."))
    else if one_of reason refused_reasons
    then some
        (error Code.forbidden (plain (fallback message "Google Drive refused that operation.")))
    else if one_of reason limit_reasons
    then some (
        error Code.conflict
          (plain (fallback message "Google Drive rejected that: a folder limit was reached.")))
    else none

-- The second `switch` and what follows it.
unfoldable pub map_status : ℕ → String → ℕ → Error
unfolding rate_limited fallback
map_status status message retry_after =
    if eqb status 401
    then error Code.reauth_required
        (plain "Google rejected the stored credentials. Please reconnect this account.")
    else if eqb status 403
    then error Code.forbidden (plain (fallback message "Google Drive refused that request."))
    else if eqb status 404
    then error Code.not_found (plain "That file or folder no longer exists in Google Drive.")
    else if eqb status 429
    then rate_limited retry_after
    else if eqb status 413
    then error Code.payload_too_large (plain "Google Drive rejected the upload as too large.")
    else if leb 500 status
    then error Code.upstream_unavailable
        (plain "Google Drive is having trouble. Please try again shortly.")
    else error Code.bad_request (plain (fallback message "Google Drive rejected that request."))

unfoldable pub map_api_error : ℕ → Envelope → ℕ → Error
unfolding map_reason map_status reason
map_api_error status envelope retry_after =
    let message = trim_space envelope.message in
    elim (map_reason (reason envelope) message retry_after) [
      | some e ↦ e
      | none ↦ map_status status message retry_after
    ]

-- `errors.Is` against the two sentinels of package context; `done` is `ctx.Err() != nil`.
unfoldable pub map_transport_error : Bool → Failure → Error
map_transport_error done Failure.canceled =
    if done
    then with_cause (error Code.upstream_unavailable (plain "The request was cancelled."))
        (raw Failure.canceled)
    else with_cause (error Code.upstream_unavailable (plain "Could not reach Google Drive."))
        (raw Failure.canceled)
map_transport_error done Failure.deadline_exceeded =
    with_cause (error Code.upstream_unavailable (plain "Google Drive did not respond in time."))
      (raw Failure.deadline_exceeded)
map_transport_error done f =
    with_cause (error Code.upstream_unavailable (plain "Could not reach Google Drive.")) (raw f)
